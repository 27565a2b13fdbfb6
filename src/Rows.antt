-- ===== src/Rows.antt =====
-- Tables of a SQL store: a table is the list of its rows, `UPDATE`, `DELETE` and `COUNT` go through
-- it, and `ORDER BY key ASC` is an argument, since its order of equal keys is the engine's choice.
pub mod Retention
pub mod Restriction
pub mod Selection
pub mod Insertion
pub mod Deletes
use mathlib.Core.List.{Perm}
use fedi.Base.{ℕ, ◌≤◌, Bool, not, ◌&&◌, List, [], ◌∷◌, Eq, if◌then◌else◌, take, select, any, All}

module _ {A : Type 0} where
  -- Keys do not fall along the list.
  abbrev pub IsAscending : (A → ℕ) → List A → Type 0
  IsAscending key [] = Unit {0}
  IsAscending key (x ∷ xs) = All (λ y. key x ≤ key y) xs × IsAscending key xs

  -- `UPDATE table SET … WHERE test`.
  unfoldable pub update_where : (A → Bool) → (A → A) → List A → List A
  update_where test set [] = []
  update_where test set (r ∷ rs) = (if test r then set r else r) ∷ update_where test set rs

  -- `DELETE FROM table WHERE test`.
  abbrev pub delete_where : (A → Bool) → List A → List A
  delete_where test = select (λ r. not (test r))

-- What SQL documents of `ORDER BY key ASC`: the rows that were selected, in ascending order.
pub record OrderBy (A : Type 0) : Type 0 where
  pub order : (A → ℕ) → List A → List A
  pub order-perm : (key : A → ℕ) (xs : List A) → Perm (order key xs) xs
  pub order-IsAscending : (key : A → ℕ) (xs : List A) → IsAscending key (order key xs)

module _ {A K : Type 0} ⦃keys : Eq K⦄ (id : A → K) where
  abbrev pub has_id_in : List A → A → Bool
  has_id_in victims r = any (λ v. keys.beq (id v) (id r)) victims

module _ {A K : Type 0} ⦃keys : Eq K⦄ (db : OrderBy A) (id : A → K) (key : A → ℕ) where
  -- `SELECT … WHERE p ORDER BY key ASC LIMIT n`.
  unfoldable pub select_oldest : (A → Bool) → ℕ → List A → List A
  select_oldest p n rows = take n (db.order key (select p rows))

  -- `DELETE … WHERE scope AND id IN (SELECT id … WHERE p ORDER BY key ASC LIMIT n)`.
  unfoldable pub delete_oldest : (scope p : A → Bool) → ℕ → List A → List A
  unfolding select_oldest
  delete_oldest scope p n rows =
      delete_where (λ r. scope r && has_id_in id (select_oldest p n rows) r) rows
