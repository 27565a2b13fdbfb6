-- ===== src/Base/Lists.antt =====
-- Lists over the native numbers, Boolean selections, and what permutations keep.
use Prim.Native.Nat.{ℕ, zero, suc, ◌+◌, ◌-◌, ◌≤◌, min}
use mathlib.Core.Path.{◌≡◌, refl, ap, ◌∙◌}
use mathlib.Core.Bool.{Bool, true, false, not, ◌&&◌, ◌||◌}
use mathlib.Core.List.{List, [], ◌∷◌, ◌++◌, Perm, Permᴰ}
use mathlib.Core.Logic.{inl, inr, ∥∥₁_elim}
use native.Mathlib.Nat.{ℕ_set}
use native.Mathlib.Omega.{arith}
use fedi.Base.Tests.{if◌then◌else◌, Bool-cases}

module _ {ℓ} {A : Type ℓ} where
  abbrev pub length : List A → ℕ
  length [] = 0
  length (x ∷ xs) = suc (length xs)

  abbrev pub take : ℕ → List A → List A
  take zero xs = []
  take (suc n) [] = []
  take (suc n) (x ∷ xs) = x ∷ take n xs

  abbrev pub drop : ℕ → List A → List A
  drop zero xs = xs
  drop (suc n) [] = []
  drop (suc n) (x ∷ xs) = drop n xs

  -- The elements that pass a Boolean test.
  abbrev pub select : (A → Bool) → List A → List A
  select p [] = []
  select p (x ∷ xs) = if p x then x ∷ select p xs else select p xs

  abbrev pub any : (A → Bool) → List A → Bool
  any p [] = false
  any p (x ∷ xs) = if p x then true else any p xs

  abbrev pub count_where : (A → Bool) → List A → ℕ
  count_where p [] = 0
  count_where p (x ∷ xs) = (if p x then 1 else 0) + count_where p xs

  abbrev pub sum_by : (A → ℕ) → List A → ℕ
  sum_by f [] = 0
  sum_by f (x ∷ xs) = f x + sum_by f xs

  abbrev pub All {κ} : (A → Type κ) → List A → Type κ
  All P [] = Unit
  All P (x ∷ xs) = P x × All P xs

module _ {ℓ} {A : Type ℓ} where
  pub length-append : (xs ys : List A) → length (xs ++ ys) ≡ length xs + length ys
  length-append [] ys = omega arith
  length-append (x ∷ xs) ys = omega (arith, length-append xs ys)

  pub take-append-drop : (n : ℕ) (xs : List A) → take n xs ++ drop n xs ≡ xs
  take-append-drop zero xs = refl
  take-append-drop (suc n) [] = refl
  take-append-drop (suc n) (x ∷ xs) = ap (◌∷◌ x) (take-append-drop n xs)

  pub length-take : (n : ℕ) (xs : List A) → length (take n xs) ≡ min n (length xs)
  length-take zero xs = omega arith
  length-take (suc n) [] = omega arith
  length-take (suc n) (x ∷ xs) = omega (arith, length-take n xs)

  pub length-drop : (n : ℕ) (xs : List A) → length (drop n xs) ≡ length xs - n
  length-drop zero xs = omega arith
  length-drop (suc n) [] = omega arith
  length-drop (suc n) (x ∷ xs) = omega (arith, length-drop n xs)

  pub length-select : (p : A → Bool) (xs : List A) → length (select p xs) ≡ count_where p xs
  length-select p [] = refl
  length-select p (x ∷ xs) = ground (arith, length-select p xs)

  pub count_where-le-length : (p : A → Bool) (xs : List A) → count_where p xs ≤ length xs
  count_where-le-length p [] = omega arith
  count_where-le-length p (x ∷ xs) = ground (arith, count_where-le-length p xs)

  pub count_where-append :
      (p : A → Bool) (xs ys : List A)
      → count_where p (xs ++ ys) ≡ count_where p xs + count_where p ys
  count_where-append p [] ys = omega arith
  count_where-append p (x ∷ xs) ys = omega (arith, count_where-append p xs ys)

  -- Counting among the selected is counting with both tests.
  pub count_where-select :
      (p q : A → Bool) (xs : List A)
      → count_where q (select p xs) ≡ count_where (λ x. p x && q x) xs
  count_where-select p q [] = refl
  count_where-select p q (x ∷ xs) = ground (arith, count_where-select p q xs)

  pub count_where_split :
      (p q : A → Bool) (xs : List A)
      → count_where p xs ≡ count_where (λ x. p x && q x) xs + count_where (λ x. p x && not (q x)) xs
  count_where_split p q [] = refl
  count_where_split p q (x ∷ xs) = ground (arith, count_where_split p q xs)

  count_where-Permᴰ :
      (p : A → Bool) {xs ys : List A} → Permᴰ xs ys → count_where p xs ≡ count_where p ys
  count_where-Permᴰ p Permᴰ.nil = refl
  count_where-Permᴰ p (Permᴰ.cons e r) =
      omega (arith, ap {B = ℕ} (λ a. if p a then 1 else 0) e, count_where-Permᴰ p r)
  count_where-Permᴰ p (Permᴰ.swap e f) =
      omega
        (arith, ap {B = ℕ} (λ a. if p a then 1 else 0) e, ap {B = ℕ} (λ a. if p a then 1 else 0) f)
  count_where-Permᴰ p (Permᴰ.trans r s) = count_where-Permᴰ p r ∙ count_where-Permᴰ p s

  sum_by-Permᴰ : (f : A → ℕ) {xs ys : List A} → Permᴰ xs ys → sum_by f xs ≡ sum_by f ys
  sum_by-Permᴰ f Permᴰ.nil = refl
  sum_by-Permᴰ f (Permᴰ.cons e r) = omega (arith, ap f e, sum_by-Permᴰ f r)
  sum_by-Permᴰ f (Permᴰ.swap e g) = omega (arith, ap f e, ap f g)
  sum_by-Permᴰ f (Permᴰ.trans r s) = sum_by-Permᴰ f r ∙ sum_by-Permᴰ f s

  -- A rearrangement keeps every count and every sum.
  pub count_where-perm :
      (p : A → Bool) {xs ys : List A} → Perm xs ys → count_where p xs ≡ count_where p ys
  count_where-perm p r = ∥∥₁_elim r (ℕ_set _ _) (count_where-Permᴰ p)

  pub sum_by-perm : (f : A → ℕ) {xs ys : List A} → Perm xs ys → sum_by f xs ≡ sum_by f ys
  sum_by-perm f r = ∥∥₁_elim r (ℕ_set _ _) (sum_by-Permᴰ f)

  pub count_where-true : (xs : List A) → count_where (λ _. true) xs ≡ length xs
  count_where-true [] = refl
  count_where-true (x ∷ xs) = omega (arith, count_where-true xs)

  pub length-perm : {xs ys : List A} → Perm xs ys → length xs ≡ length ys
  length-perm {xs} {ys} r =
      omega (arith, count_where-true xs, count_where-true ys, count_where-perm (λ _. true) r)

  pub count_where_le :
      (p q : A → Bool) (xs : List A)
      → ((x : A) → p x ≡ true → q x ≡ true)
      → count_where p xs ≤ count_where q xs
  count_where_le p q [] h = omega arith
  count_where_le p q (x ∷ xs) h = ground (arith, h x, count_where_le p q xs h)

  pub select-All : (p : A → Bool) (xs : List A) → All (λ x. p x ≡ true) (select p xs)
  select-All p [] = tt
  select-All p (x ∷ xs) = elim (Bool-cases (p x)) [
    | inl h ↦ rw h (h, select-All p xs)
    | inr h ↦ rw h (select-All p xs)
  ]

  pub any-append : (p : A → Bool) (xs ys : List A) → any p (xs ++ ys) ≡ any p xs || any p ys
  any-append p [] ys = refl
  any-append p (x ∷ xs) ys = ground (arith, any-append p xs ys)

  pub count_where_same :
      (p q : A → Bool) (xs : List A) → ((x : A) → p x ≡ q x) → count_where p xs ≡ count_where q xs
  count_where_same p q [] h = refl
  count_where_same p q (x ∷ xs) h = ground (arith, h x, count_where_same p q xs h)

  pub any_le :
      (p q : A → Bool) (xs : List A)
      → ((x : A) → p x ≡ true → q x ≡ true)
      → any p xs ≡ true
      → any q xs ≡ true
  any_le p q [] h e = e
  any_le p q (x ∷ xs) h e = ground (arith, e, h x, any_le p q xs h)

  pub take_exact : (n : ℕ) (xs ys : List A) → length xs ≡ n → take n (xs ++ ys) ≡ xs
  take_exact zero [] ys h = refl
  take_exact zero (x ∷ xs) ys h = absurd (omega (arith, h))
  take_exact (suc n) [] ys h = absurd (omega (arith, h))
  take_exact (suc n) (x ∷ xs) ys h = ap (◌∷◌ x) (take_exact n xs ys (omega (arith, h)))

  pub drop_past :
      (n k m : ℕ) (xs ys : List A) → m ≡ n + k → length xs ≡ n → drop m (xs ++ ys) ≡ drop k ys
  drop_past zero k m [] ys e h = ap (λ i. drop i ys) (omega (arith, e))
  drop_past zero k m (x ∷ xs) ys e h = absurd (omega (arith, h))
  drop_past (suc n) k m [] ys e h = absurd (omega (arith, h))
  drop_past (suc n) k zero (x ∷ xs) ys e h = absurd (omega (arith, e))
  drop_past (suc n) k (suc m) (x ∷ xs) ys e h =
      drop_past n k m xs ys (omega (arith, e)) (omega (arith, h))

  pub drop-drop : (n k m : ℕ) (xs : List A) → m ≡ n + k → drop k (drop n xs) ≡ drop m xs
  drop-drop zero k m xs e = ap (λ i. drop i xs) (omega (arith, e))
  drop-drop (suc n) zero zero xs e = absurd (omega (arith, e))
  drop-drop (suc n) (suc k) zero xs e = absurd (omega (arith, e))
  drop-drop (suc n) zero (suc m) [] e = refl
  drop-drop (suc n) (suc k) (suc m) [] e = refl
  drop-drop (suc n) zero (suc m) (x ∷ xs) e = drop-drop n zero m xs (omega (arith, e))
  drop-drop (suc n) (suc k) (suc m) (x ∷ xs) e = drop-drop n (suc k) m xs (omega (arith, e))

  pub take_all : (n : ℕ) (xs : List A) → length xs ≤ n → take n xs ≡ xs
  take_all zero [] h = refl
  take_all zero (x ∷ xs) h = absurd (omega (arith, h))
  take_all (suc n) [] h = refl
  take_all (suc n) (x ∷ xs) h = ap (◌∷◌ x) (take_all n xs (omega (arith, h)))
