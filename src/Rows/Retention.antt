-- ===== src/Rows/Retention.antt =====
-- What a bulk delete of the oldest rows does to the table: how many stay, and which it never takes.

use fedi.Base.{
  ℕ, ◌+◌, ◌-◌, ◌≤◌, ◌≡◌, refl, ap, Bool, true, false, not, ◌&&◌, List, [], ◌∷◌, arith, Eq, take,
  drop, select, any, count_where, All, take-append-drop, length-drop, length-select,
  count_where-le-length, count_where-append, count_where-select, count_where-perm, length-perm,
  count_where_le, inl, inr, Bool-cases,
}
use fedi.Rows.{OrderBy, select_oldest, delete_oldest, has_id_in}

module _ {A : Type 0} where
  pub count_where_none :
      (q : A → Bool) (xs : List A) → All (λ x. q x ≡ false) xs → count_where q xs ≡ 0
  count_where_none q [] h = refl
  count_where_none q (x ∷ xs) h = ground (arith, count_where_none q xs h.1)

  pub All-mono {κ μ} :
      (P : A → Type κ) (Q : A → Type μ) (xs : List A) → ((x : A) → P x → Q x) → All P xs → All Q xs
  All-mono P Q [] f h = tt
  All-mono P Q (x ∷ xs) f h = (f x h.0, All-mono P Q xs f h.1)

  -- An element that passes a test is counted by it.
  pub All-counted : (xs : List A) → All (λ x. (t : A → Bool) → t x ≡ true → 1 ≤ count_where t xs) xs
  All-counted [] = tt
  All-counted (x ∷ xs) =
      (λ t h. ground arith, All-mono _ _ xs (λ y f t h. omega (arith, f t h)) (All-counted xs))

  pub count_where-take-le :
      (q : A → Bool) (n : ℕ) (xs : List A) → count_where q (take n xs) ≤ count_where q xs
  count_where-take-le q n xs = omega (
    arith,
    ap (count_where q) (take-append-drop n xs),
    count_where-append q (take n xs) (drop n xs),
  )

  -- A test splits into its part in `p` and its part outside.
  count_where_apart :
      (p q : A → Bool) (xs : List A)
      → count_where q xs ≡ count_where (λ x. p x && q x) xs + count_where (λ x. not (p x) && q x) xs
  count_where_apart p q [] = refl
  count_where_apart p q (x ∷ xs) = ground (arith, count_where_apart p q xs)

  pub select_kept :
      (q kept : A → Bool) (xs : List A)
      → All (λ x. q x ≡ true → kept x ≡ true) xs
      → select q (select kept xs) ≡ select q xs
  select_kept q kept [] h = refl
  select_kept q kept (x ∷ xs) h = ground (arith, select_kept q kept xs h.1, h.0)

  pub All-always {κ} : (P : A → Type κ) (xs : List A) → ((x : A) → P x) → All P xs
  All-always P [] f = tt
  All-always P (x ∷ xs) f = (f x, All-always P xs f)

  pub count_where-select-le :
      (q kept : A → Bool) (xs : List A) → count_where q (select kept xs) ≤ count_where q xs
  count_where-select-le q kept [] = omega arith
  count_where-select-le q kept (x ∷ xs) = ground (arith, count_where-select-le q kept xs)

  pub any_some : (q : A → Bool) (xs : List A) → any q xs ≡ true → 1 ≤ count_where q xs
  any_some q [] h = ground (arith, h)
  any_some q (x ∷ xs) h = ground (arith, h, any_some q xs)

  pub any_all_none : (q : A → Bool) (xs : List A) → any q xs ≡ false → count_where q xs ≡ 0
  any_all_none q [] h = refl
  any_all_none q (x ∷ xs) h = ground (arith, h, any_all_none q xs)

  pub any_none : (q : A → Bool) (xs : List A) → count_where q xs ≡ 0 → any q xs ≡ false
  any_none q [] h = refl
  any_none q (x ∷ xs) h = ground (arith, any_none q xs)

module _ {A K : Type 0} ⦃keys : Eq K⦄ (id : A → K) where
  -- No two rows share an id.
  abbrev pub HasUniqueIds : List A → Type 0
  HasUniqueIds [] = Unit {0}
  HasUniqueIds (r ∷ rows) = All (λ s. keys.beq (id r) (id s) ≡ false) rows × HasUniqueIds rows

  pub All-select {κ} :
      (P : A → Type κ) (kept : A → Bool) (xs : List A) → All P xs → All P (select kept xs)
  All-select P kept [] h = tt
  All-select P kept (x ∷ xs) h = elim (Bool-cases (kept x)) [
    | inl t ↦ rw t (h.0, All-select P kept xs h.1)
    | inr t ↦ rw t (All-select P kept xs h.1)
  ]

  pub select-HasUniqueIds :
      (kept : A → Bool) (rows : List A) → HasUniqueIds rows → HasUniqueIds (select kept rows)
  select-HasUniqueIds kept [] u = tt
  select-HasUniqueIds kept (r ∷ rows) u = elim (Bool-cases (kept r)) [
    | inl h ↦ rw h (All-select _ kept rows u.0, select-HasUniqueIds kept rows u.1)
    | inr h ↦ rw h (select-HasUniqueIds kept rows u.1)
  ]

  pub count_id :
      (k : K) (rows : List A) → HasUniqueIds rows → count_where (λ r. keys.beq (id r) k) rows ≤ 1
  count_id k [] u = omega arith
  count_id k (r ∷ rows) u = elim (Bool-cases (keys.beq (id r) k)) [
    | inl h ↦ rw h (
        omega (
          arith,
          count_where_none (λ s. keys.beq (id s) k) rows
              (All-mono _ _ rows
                (λ s d. ground (
                  arith,
                  h,
                  d,
                  keys.beq_iff (id r) k,
                  keys.beq_iff (id s) k,
                  keys.beq_iff (id r) (id s),
                ))
                u.0),
        ))
    | inr h ↦ rw h (omega (arith, count_id k rows u.1))
  ]

  has_id_in_self : (vs : List A) → All (λ v. has_id_in id vs v ≡ true) vs
  has_id_in_self [] = tt
  has_id_in_self (v ∷ vs) = (
    ground (arith, keys.beq_iff (id v) (id v)),
    All-mono _ _ vs (λ w h. ground (arith, h)) (has_id_in_self vs),
  )

module _ {A K : Type 0} ⦃keys : Eq K⦄ (db : OrderBy A) (id : A → K) (key : A → ℕ) where
  -- Of the rows in `p`, at most the count less `n` are left.
  pub count_where-delete_oldest :
      (scope p : A → Bool) (n : ℕ) (rows : List A)
      → ((r : A) → p r ≡ true → scope r ≡ true)
      → count_where p (delete_oldest db id key scope p n rows) ≤ count_where p rows - n
  unfolding delete_oldest select_oldest
  count_where-delete_oldest scope p n rows h = omega (
    arith,
    count_where-select kept p rows,
    count_where_le (λ r. kept r && p r) (λ r. p r && spared r) rows narrow,
    count_where-select p spared rows,
    count_where-perm spared (db.order-perm key chosen),
    ap (count_where spared) (take-append-drop n ordered),
    count_where-append spared victims (drop n ordered),
    none_spared,
    count_where-le-length spared (drop n ordered),
    length-drop n ordered,
    length-perm (db.order-perm key chosen),
    length-select p rows,
  )
    where
      chosen : List A
      chosen = select p rows

      ordered : List A
      ordered = db.order key chosen

      victims : List A
      victims = take n ordered

      kept : A → Bool
      kept r = not (scope r && has_id_in id victims r)

      spared : A → Bool
      spared r = not (has_id_in id victims r)

      narrow : (r : A) → kept r && p r ≡ true → p r && spared r ≡ true
      narrow r e = ground (arith, h r)

      none_spared : count_where spared victims ≡ 0
      none_spared =
          count_where_none spared victims
            (All-mono _ _ victims (λ v e. ap not e) (has_id_in_self id victims))

  -- With unique ids no row outside `p` is among the oldest of `p`.
  pub select_oldest_apart :
      (p q : A → Bool) (n : ℕ) (rows : List A)
      → ((r : A) → q r ≡ true → p r ≡ false)
      → HasUniqueIds id rows
      → All (λ r. q r ≡ true → has_id_in id (select_oldest db id key p n rows) r ≡ false) rows
  unfolding select_oldest
  select_oldest_apart p q n rows apart unique = All-mono _ _ rows safe (All-counted rows)
    where
      victims : List A
      victims = take n (db.order key (select p rows))

      safe :
          (r : A)
          → ((t : A → Bool) → t r ≡ true → 1 ≤ count_where t rows)
          → q r ≡ true
          → has_id_in id victims r ≡ false
      safe r counted e =
          any_none (λ v. keys.beq (id v) (id r)) victims
            (omega (
              arith,
              count_where-take-le same n (db.order key (select p rows)),
              count_where-perm same (db.order-perm key (select p rows)),
              count_where-select p same rows,
              count_where_apart p same rows,
              counted (λ s. not (p s) && same s)
                  (ground (arith, apart r e, keys.beq_iff (id r) (id r))),
              count_id id (id r) rows unique,
            ))
        where
          same : A → Bool
          same s = keys.beq (id s) (id r)

  -- With unique ids the rows outside `p` are all kept, as they were and in place.
  pub select-delete_oldest :
      (scope p q : A → Bool) (n : ℕ) (rows : List A)
      → ((r : A) → q r ≡ true → p r ≡ false)
      → HasUniqueIds id rows
      → select q (delete_oldest db id key scope p n rows) ≡ select q rows
  unfolding delete_oldest
  select-delete_oldest scope p q n rows apart unique = select_kept q _ rows (
      All-mono _ _ rows (λ r safe e. ground (arith, safe e))
        (select_oldest_apart p q n rows apart unique))
