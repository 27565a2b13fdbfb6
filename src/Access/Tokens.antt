-- ===== src/Access/Tokens.antt =====
-- The comparison of tokens that takes as long whatever the tokens are.
use Prim.Native.Nat.{digits, differ, bit_or, bit_xor, bit_or-bitwise, bit_xor-bitwise}
use fedi.Base.{
  codes_eq, ℕ, zero, suc, ◌+◌, ◌/◌, ◌%◌, ◌≤◌, ◌≡◌, ap, ◌↔◌, max, true, ◌&&◌, List, [], ◌∷◌, arith,
  ◌==◌, length,
}
use fedi.Access.{diff_of, constant_time_eq}

differ_zero : (x y : ℕ) → (differ x y ≡ 0) ↔ (x ≡ y)
differ_zero zero y = ground arith
differ_zero (suc x) zero = ground arith
differ_zero (suc x) (suc y) = ground (arith, differ_zero x y)

xor_zero : (n a b : ℕ) → a ≤ n → (digits (λ b. b) differ n a b ≡ 0) ↔ (a ≡ b)
xor_zero zero zero b h = ground arith
xor_zero zero (suc a) b h = absurd (omega (arith, h))
xor_zero (suc n) zero b h = ground arith
xor_zero (suc n) (suc a) b h =
    ground
      (arith, xor_zero n (suc a / 2) (b / 2) (omega (arith, h)), differ_zero (suc a % 2) (b % 2))

or_zero : (n a b : ℕ) → a ≤ n → (digits (λ b. b) max n a b ≡ 0) ↔ (a + b ≡ 0)
or_zero zero zero b h = ground arith
or_zero zero (suc a) b h = absurd (omega (arith, h))
or_zero (suc n) zero b h = ground arith
or_zero (suc n) (suc a) b h = ground (arith, or_zero n (suc a / 2) (b / 2) (omega (arith, h)))

step_zero : (d x y : ℕ) → (bit_or d (bit_xor x y) == 0) ≡ (d == 0) && (x == y)
step_zero d x y = ground (
  arith,
  bit_or-bitwise d (bit_xor x y),
  or_zero d d (bit_xor x y) (omega arith),
  bit_xor-bitwise x y,
  xor_zero x x y (omega arith),
)

diff_of-eq :
    (a b : List ℕ) (d : ℕ)
    → length a ≡ length b
    → (diff_of a b d == 0) ≡ (d == 0) && codes_eq.beq a b
unfolding diff_of
diff_of-eq [] [] d h = ground arith
diff_of-eq [] (y ∷ b) d h = absurd (omega (arith, h))
diff_of-eq (x ∷ a) [] d h = absurd (omega (arith, h))
diff_of-eq (x ∷ a) (y ∷ b) d h =
    ground (arith, diff_of-eq a b (bit_or d (bit_xor x y)) (omega (arith, h)), step_zero d x y)

-- The comparison in constant time answers whether the two texts are equal.
pub constant_time_eq-eq :
    (expected candidate : List ℕ)
    → constant_time_eq expected candidate ≡ codes_eq.beq expected candidate
unfolding constant_time_eq
constant_time_eq-eq a b = ground (
  arith,
  diff_of-eq a b 0,
  λ (h : codes_eq.beq a b ≡ true). ap length ((codes_eq.beq_iff a b).0 h),
)
