-- ===== src/Rows/Deletes.antt =====
-- Deletes one after the other as one delete.
use fedi.Base.{◌+◌, ◌≡◌, refl, Bool, false, ◌||◌, List, [], ◌∷◌, arith, count_where}
use fedi.Rows.{delete_where}

module _ {A : Type 0} where
  pub delete_where-twice :
      (p q both : A → Bool) (rows : List A)
      → ((r : A) → both r ≡ p r || q r)
      → delete_where q (delete_where p rows) ≡ delete_where both rows
  delete_where-twice p q both [] h = refl
  delete_where-twice p q both (r ∷ rows) h = ground (arith, h r, delete_where-twice p q both rows h)

  pub count_where-twice :
      (p q both : A → Bool) (rows : List A)
      → ((r : A) → both r ≡ p r || q r)
      → count_where p rows + count_where q (delete_where p rows) ≡ count_where both rows
  count_where-twice p q both [] h = refl
  count_where-twice p q both (r ∷ rows) h = ground (arith, h r, count_where-twice p q both rows h)

  pub delete_where_none :
      (p : A → Bool) (rows : List A) → ((r : A) → p r ≡ false) → delete_where p rows ≡ rows
  delete_where_none p [] h = refl
  delete_where_none p (r ∷ rows) h = ground (arith, h r, delete_where_none p rows h)

  pub count_where_never :
      (p : A → Bool) (rows : List A) → ((r : A) → p r ≡ false) → count_where p rows ≡ 0
  count_where_never p [] h = refl
  count_where_never p (r ∷ rows) h = ground (arith, h r, count_where_never p rows h)
