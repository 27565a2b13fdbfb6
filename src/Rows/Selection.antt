-- ===== src/Rows/Selection.antt =====
-- What `SELECT … WHERE p ORDER BY key ASC LIMIT n` yields, whatever the order of equal keys.
use fedi.Base.{
  ℕ, ◌≤◌, zero, suc, ◌≡◌, refl, min, Bool, true, not, List, [], ◌∷◌, Eq, arith, length, take,
  select, count_where, All, length-take, length-perm, length-select, count_where-perm,
  count_where-select, count_where_le, ◌&&◌,
}
use fedi.Rows.Retention.{count_where-take-le}
use fedi.Rows.{OrderBy, IsAscending, select_oldest}

module _ {A : Type 0} where
  All-take {κ} : (P : A → Type κ) (n : ℕ) (xs : List A) → All P xs → All P (take n xs)
  All-take P zero xs h = tt
  All-take P (suc n) [] h = tt
  All-take P (suc n) (x ∷ xs) h = (h.0, All-take P n xs h.1)

  IsAscending-take :
      (key : A → ℕ) (n : ℕ) (xs : List A) → IsAscending key xs → IsAscending key (take n xs)
  IsAscending-take key zero xs h = tt
  IsAscending-take key (suc n) [] h = tt
  IsAscending-take key (suc n) (x ∷ xs) h = (All-take _ n xs h.0, IsAscending-take key n xs h.1)

  pub All-of_count :
      (p : A → Bool) (xs : List A) → count_where (λ x. not (p x)) xs ≡ 0 → All (λ x. p x ≡ true) xs
  All-of_count p [] h = tt
  All-of_count p (x ∷ xs) h = (ground arith, All-of_count p xs (ground arith))

  count_rejected : (p : A → Bool) (xs : List A) → count_where (λ x. not (p x)) (select p xs) ≡ 0
  count_rejected p [] = refl
  count_rejected p (x ∷ xs) = ground (arith, count_rejected p xs)

module _ {A K : Type 0} ⦃keys : Eq K⦄ (db : OrderBy A) (id : A → K) (key : A → ℕ) (p : A → Bool)
    (n : ℕ) (rows : List A) where
  pub select_oldest-All : All (λ r. p r ≡ true) (select_oldest db id key p n rows)
  unfolding select_oldest
  select_oldest-All = All-take _ n (db.order key (select p rows)) (
      All-of_count p (db.order key (select p rows)) (
        omega (
          arith,
          count_where-perm (λ r. not (p r)) (db.order-perm key (select p rows)),
          count_rejected p rows,
        )))

  pub select_oldest-IsAscending : IsAscending key (select_oldest db id key p n rows)
  unfolding select_oldest
  select_oldest-IsAscending =
      IsAscending-take key n (db.order key (select p rows))
        (db.order-IsAscending key (select p rows))

  pub length-select_oldest : length (select_oldest db id key p n rows) ≡ min n (count_where p rows)
  unfolding select_oldest
  length-select_oldest = omega (
    arith,
    length-take n (db.order key (select p rows)),
    length-perm (db.order-perm key (select p rows)),
    length-select p rows,
  )

  -- What is counted among the selected rows meets both tests in the table.
  pub count_where-select_oldest_both :
      (q : A → Bool)
      → count_where q (select_oldest db id key p n rows) ≤ count_where (λ r. p r && q r) rows
  unfolding select_oldest
  count_where-select_oldest_both q = omega (
    arith,
    count_where-take-le q n (db.order key (select p rows)),
    count_where-perm q (db.order-perm key (select p rows)),
    count_where-select p q rows,
  )

  pub count_where-select_oldest-le :
      (q : A → Bool) → count_where q (select_oldest db id key p n rows) ≤ count_where q rows
  count_where-select_oldest-le q = omega (
    arith,
    count_where-select_oldest_both q,
    count_where_le (λ r. p r && q r) q rows (λ r h. ground (arith, h)),
  )
