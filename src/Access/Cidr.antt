-- ===== src/Access/Cidr.antt =====
-- A prefix of an address range: the masks of the code compare the bits before the end of the prefix.
use Prim.Native.Nat.{bit_and}
use fedi.Base.{
  ℕ, zero, suc, ◌+◌, ◌-◌, ◌≤◌, ◌<◌, ◌≡◌, refl, sym, min, Bool, true, ◌&&◌, arith, ◌==◌, ==_iff, inl,
  inr, Bool-cases, ltb,
}
use fedi.Access.{IpAddr, v4, v6, mask_v4, mask_v6, ip_in_cidr}
use fedi.Access.Bits.{
  shift_left, shift_right, ones, bit_and-shift_left, bit_and-ones, shift_right-le,
  shift_left-injective,
}

-- A test holds for all numbers below a bound.
abbrev up_to : ℕ → (ℕ → Bool) → Bool
up_to zero p = true
up_to (suc n) p = p n && up_to n p

up_to_all : (n : ℕ) (p : ℕ → Bool) (x : ℕ) → up_to n p ≡ true → x < n → p x ≡ true
up_to_all zero p x h l = absurd (omega (arith, l))
up_to_all (suc n) p x h l = elim (Bool-cases (ltb x n)) [
  | inl t ↦ up_to_all n p x (ground (arith, h)) (ground (arith, t))
  | inr t ↦ let e : x ≡ n = ground (arith, t, l) in rw e (ground (arith, h))
]

masks_v4 : up_to 33 (λ p. mask_v4 p == shift_left (32 - p) (ones p)) ≡ true
masks_v4 = refl

masks_v6 : up_to 129 (λ p. mask_v6 p == shift_left (128 - p) (ones p)) ≡ true
masks_v6 = refl

-- What a mask of n ones and then k zeros leaves of two numbers is equal if their upper bits are.
masked_equal :
    (k n w a b : ℕ)
    → w ≡ k + n
    → a ≤ ones w
    → b ≤ ones w
    → (bit_and a (shift_left k (ones n)) == bit_and b (shift_left k (ones n)))
      ≡ (shift_right k a == shift_right k b)
masked_equal k n w a b e x y =
    rw
      (
        bit_and-shift_left k a (ones n),
        bit_and-shift_left k b (ones n),
        bit_and-ones n (shift_right k a) (shift_right-le k n w a e x),
        bit_and-ones n (shift_right k b) (shift_right-le k n w b e y),
      )
      (shift_left-injective k (shift_right k a) (shift_right k b))

abbrev pub width : IpAddr → ℕ
width (v4 n) = 32
width (v6 n) = 128

abbrev pub number : IpAddr → ℕ
number (v4 n) = n
number (v6 n) = n

-- The number has at most as many bits as an address of its kind.
abbrev pub IsAddress : IpAddr → Type 0
IsAddress a = number a ≤ ones (width a)

-- The bits of an address before the end of a prefix.
abbrev pub network : (prefix : ℕ) → IpAddr → ℕ
network prefix a = shift_right (width a - prefix) (number a)

-- For addresses that have the bits of their kind, 32 or 128, an address is in a range exactly if it
-- is of the kind of the base and the two agree in their bits before the end of the prefix, a longer
-- prefix counting as the whole address.
pub ip_in_cidr-eq :
    (ip base : IpAddr) (prefix : ℕ)
    → IsAddress ip
    → IsAddress base
    → ip_in_cidr ip base prefix ≡ width ip == width base && network prefix ip == network prefix base
unfolding ip_in_cidr
ip_in_cidr-eq (v4 ip) (v4 base) prefix x y =
    let p = min prefix 32 in
    let mask : mask_v4 p ≡ shift_left (32 - p) (ones p) =
      (==_iff _ _).0
        (up_to_all 33 (λ p. mask_v4 p == shift_left (32 - p) (ones p)) p masks_v4 (omega arith)) in
    let low : 32 - p ≡ 32 - prefix = omega arith in
    rw (mask, sym low) (masked_equal (32 - p) p 32 ip base (omega arith) x y)
ip_in_cidr-eq (v6 ip) (v6 base) prefix x y =
    let p = min prefix 128 in
    let mask : mask_v6 p ≡ shift_left (128 - p) (ones p) =
      (==_iff _ _).0 (
        up_to_all 129 (λ p. mask_v6 p == shift_left (128 - p) (ones p)) p masks_v6 (omega arith)) in
    let low : 128 - p ≡ 128 - prefix = omega arith in
    rw (mask, sym low) (masked_equal (128 - p) p 128 ip base (omega arith) x y)
ip_in_cidr-eq (v4 ip) (v6 base) prefix x y = refl
ip_in_cidr-eq (v6 ip) (v4 base) prefix x y = refl
