-- ===== src/Rows/Insertion.antt =====
-- A stable insertion sort: one order that a SQL engine may choose.
use mathlib.Core.List.{Perm}
use mathlib.Core.List.Perm
use fedi.Base.{ℕ, ◌≤◌, List, [], ◌∷◌, arith, leb, if◌then◌else◌, All, inl, inr, Bool-cases}
use fedi.Rows.{OrderBy, IsAscending}
use fedi.Rows.Retention.{All-mono}

module _ {A : Type 0} (key : A → ℕ) where
  unfoldable pub insert_by : A → List A → List A
  insert_by x [] = x ∷ []
  insert_by x (y ∷ ys) = if leb (key x) (key y) then x ∷ y ∷ ys else y ∷ insert_by x ys

  unfoldable pub sort_by : List A → List A
  unfolding insert_by
  sort_by [] = []
  sort_by (x ∷ xs) = insert_by x (sort_by xs)

  insert_by-perm : (x : A) (ys : List A) → Perm (insert_by x ys) (x ∷ ys)
  unfolding insert_by
  insert_by-perm x [] = Perm.refl (x ∷ [])
  insert_by-perm x (y ∷ ys) = elim (Bool-cases (leb (key x) (key y))) [
    | inl h ↦ rw h (Perm.refl (x ∷ y ∷ ys))
    | inr h ↦ rw h (Perm.trans (Perm.cons y (insert_by-perm x ys)) (Perm.swap x y ys))
  ]

  pub sort_by-perm : (xs : List A) → Perm (sort_by xs) xs
  unfolding sort_by
  sort_by-perm [] = Perm.refl []
  sort_by-perm (x ∷ xs) = Perm.trans (insert_by-perm x (sort_by xs)) (Perm.cons x (sort_by-perm xs))

  insert_by-All :
      (k : ℕ) (x : A) (ys : List A)
      → k ≤ key x
      → All (λ y. k ≤ key y) ys
      → All (λ y. k ≤ key y) (insert_by x ys)
  unfolding insert_by
  insert_by-All k x [] h a = (h, tt)
  insert_by-All k x (y ∷ ys) h a = ground (arith, insert_by-All k x ys h a.1)

  insert_by-IsAscending :
      (x : A) (ys : List A) → IsAscending key ys → IsAscending key (insert_by x ys)
  unfolding insert_by
  insert_by-IsAscending x [] s = (tt, tt)
  insert_by-IsAscending x (y ∷ ys) s = elim (Bool-cases (leb (key x) (key y))) [
    | inl h ↦ rw h ((ground arith, All-mono _ _ ys (λ z (le : key y ≤ key z). ground arith) s.0), s)
    | inr h ↦ rw h (insert_by-All (key y) x ys (ground arith) s.0, insert_by-IsAscending x ys s.1)
  ]

  pub sort_by-IsAscending : (xs : List A) → IsAscending key (sort_by xs)
  unfolding sort_by
  sort_by-IsAscending [] = tt
  sort_by-IsAscending (x ∷ xs) = insert_by-IsAscending x (sort_by xs) (sort_by-IsAscending xs)

abbrev pub stable : {A : Type 0} → OrderBy A
stable = record {
  order = sort_by;
  order-perm = sort_by-perm;
  order-IsAscending = sort_by-IsAscending;
}
