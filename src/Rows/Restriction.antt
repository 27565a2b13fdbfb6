-- ===== src/Rows/Restriction.antt =====
-- The part of a table that passes a test, under updates and deletes of the table.
use fedi.Base.{
  ◌≡◌, refl, ap, inl, inr, Bool, true, List, [], ◌∷◌, arith, if◌then◌else◌, select, All, Bool-cases,
}
use fedi.Rows.{update_where}

abbrev pub map_if : {A : Type 0} → (A → Bool) → (A → A) → List A → List A
map_if test set [] = []
map_if test set (r ∷ rs) = (if test r then set r else r) ∷ map_if test set rs

module _ {A : Type 0} where
  pub select-update_where :
      (p test : A → Bool) (set : A → A) (xs : List A)
      → ((x : A) → p (set x) ≡ p x)
      → select p (update_where test set xs) ≡ update_where test set (select p xs)
  unfolding update_where
  select-update_where p test set [] h = refl
  select-update_where p test set (x ∷ xs) h =
      ground (arith, h x, select-update_where p test set xs h)

  pub select_twice : (p : A → Bool) (xs : List A) → select p (select p xs) ≡ select p xs
  select_twice p [] = refl
  select_twice p (x ∷ xs) = ground (arith, select_twice p xs)

  pub select_all : (p : A → Bool) (xs : List A) → All (λ x. p x ≡ true) xs → select p xs ≡ xs
  select_all p [] h = refl
  select_all p (x ∷ xs) h = rw (h.0) (ap (λ ys. x ∷ ys) (select_all p xs h.1))

  pub All_selected :
      (P : A → Type 0) (p : A → Bool) (xs : List A)
      → All (λ x. p x ≡ true → P x) xs
      → All P (select p xs)
  All_selected P p [] h = tt
  All_selected P p (x ∷ xs) h = elim (Bool-cases (p x)) [
    | inl t ↦ rw t (h.0 t, All_selected P p xs h.1)
    | inr t ↦ rw t (All_selected P p xs h.1)
  ]

  pub All_both :
      (P Q R : A → Type 0) (xs : List A)
      → ((x : A) → P x → Q x → R x)
      → All P xs
      → All Q xs
      → All R xs
  All_both P Q R [] f h k = tt
  All_both P Q R (x ∷ xs) f h k = (f x h.0 k.0, All_both P Q R xs f h.1 k.1)

  pub select_commutes :
      (p q : A → Bool) (xs : List A) → select p (select q xs) ≡ select q (select p xs)
  select_commutes p q [] = refl
  select_commutes p q (x ∷ xs) = ground (arith, select_commutes p q xs)

  pub update_where-map_if :
      (test : A → Bool) (set : A → A) (xs : List A) → update_where test set xs ≡ map_if test set xs
  unfolding update_where
  update_where-map_if test set [] = refl
  update_where-map_if test set (x ∷ xs) =
      ap (λ ys. (if test x then set x else x) ∷ ys) (update_where-map_if test set xs)
