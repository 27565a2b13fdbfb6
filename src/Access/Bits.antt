-- ===== src/Access/Bits.antt =====
-- The bits of a number one by one: what `&` and `^` and `|` do with the lowest, and with the rest.
use Prim.Native.Nat.{digits, bit_and, bit_and-bitwise}
use fedi.Base.{ℕ, zero, suc, ◌+◌, ◌*◌, ◌/◌, ◌%◌, ◌≤◌, ◌≡◌, refl, subst, ap, min, arith, ◌==◌}

-- The definition of `&` by rounds, one for each bit.
abbrev rounds : ℕ → ℕ → ℕ → ℕ
rounds = digits (λ b. zero) min

-- More rounds than the number needs change nothing.
rounds_enough : (m n a b : ℕ) → a ≤ m → a ≤ n → rounds m a b ≡ rounds n a b
rounds_enough zero zero a b p q = refl
rounds_enough zero (suc n) zero b p q = refl
rounds_enough (suc m) zero zero b p q = refl
rounds_enough (suc m) (suc n) zero b p q = refl
rounds_enough zero n (suc a) b p q = absurd (omega (arith, p))
rounds_enough (suc m) zero (suc a) b p q = absurd (omega (arith, q))
rounds_enough (suc m) (suc n) (suc a) b p q =
    omega (arith, rounds_enough m n (suc a / 2) (b / 2) (omega (arith, p)) (omega (arith, q)))

bit_and-lowest : (a b : ℕ) → bit_and a b ≡ bit_and (a / 2) (b / 2) * 2 + min (a % 2) (b % 2)
bit_and-lowest zero b = omega (arith, bit_and-bitwise 0 b, bit_and-bitwise 0 (b / 2))
bit_and-lowest (suc a) b =
    let half = suc a / 2 in
    omega (
      arith,
      bit_and-bitwise (suc a) b,
      bit_and-bitwise half (b / 2),
      rounds_enough a half half (b / 2) (omega arith) (omega arith),
    )

-- Shifts by one place at a time.
abbrev pub shift_left : ℕ → ℕ → ℕ
shift_left zero x = x
shift_left (suc k) x = shift_left k x * 2

abbrev pub shift_right : ℕ → ℕ → ℕ
shift_right zero x = x
shift_right (suc k) x = shift_right k (x / 2)

-- As many ones.
abbrev pub ones : ℕ → ℕ
ones zero = 0
ones (suc k) = ones k * 2 + 1

pub bit_and-shift_left :
    (k x m : ℕ) → bit_and x (shift_left k m) ≡ shift_left k (bit_and (shift_right k x) m)
bit_and-shift_left zero x m = refl
bit_and-shift_left (suc k) x m =
    let half : shift_left k m * 2 / 2 ≡ shift_left k m = omega arith in
    omega (
      arith,
      bit_and-lowest x (shift_left k m * 2),
      ap (bit_and (x / 2)) half,
      bit_and-shift_left k (x / 2) m,
    )

pub bit_and-ones : (k x : ℕ) → x ≤ ones k → bit_and x (ones k) ≡ x
bit_and-ones zero zero h = refl
bit_and-ones zero (suc x) h = absurd (omega (arith, h))
bit_and-ones (suc k) x h =
    let half : (ones k * 2 + 1) / 2 ≡ ones k = omega arith in
    omega (
      arith,
      bit_and-lowest x (ones k * 2 + 1),
      ap (bit_and (x / 2)) half,
      bit_and-ones k (x / 2) (omega (arith, h)),
    )

pub shift_right-le : (k n w x : ℕ) → w ≡ k + n → x ≤ ones w → shift_right k x ≤ ones n
shift_right-le zero n w x e h = subst (λ i. x ≤ ones i) (omega (arith, e)) h
shift_right-le (suc k) n zero x e h = absurd (omega (arith, e))
shift_right-le (suc k) n (suc w) x e h =
    shift_right-le k n w (x / 2) (omega (arith, e)) (omega (arith, h))

pub shift_left-injective : (k a b : ℕ) → (shift_left k a == shift_left k b) ≡ (a == b)
shift_left-injective zero a b = refl
shift_left-injective (suc k) a b = ground (arith, shift_left-injective k a b)
