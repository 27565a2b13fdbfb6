-- ===== src/Spool/Capacity.antt =====
-- The cap on a user's items, and what an enqueue leaves alone.
use fedi.Base.{
  nat_eq, ℕ, ◌-◌, ◌≤◌, ◌<◌, ◌≡◌, refl, true, not, List, ◌∷◌, String, eq_iff, arith, select,
  count_where, All,
}
use fedi.Rows.{OrderBy}
use fedi.Rows.Retention.{HasUniqueIds, count_where-delete_oldest, select-delete_oldest, All-mono}
use fedi.Spool.{
  SpoolItem, InboxSpool, SpoolConfig, Posted, item_id, created_at, is_of, spooled, cap_user,
  enqueue_spool,
}

-- Ids are distinct and below the next one.
pub record IsSound (t : InboxSpool) : Type 0 where
  pub unique : HasUniqueIds item_id t.rows
  pub below : All (λ r. r.id < t.next_id) t.rows

module _ (db : OrderBy SpoolItem) (cfg : SpoolConfig) (username : String) (now : ℕ) (p : Posted)
    (t : InboxSpool) where
  abbrev inserted : List SpoolItem
  inserted = spooled username now t.next_id p ∷ t.rows

  inserted-HasUniqueIds : IsSound t → HasUniqueIds item_id inserted
  unfolding spooled
  inserted-HasUniqueIds s = (All-mono _ _ t.rows (λ r h. ground arith) s.below, s.unique)

  cap_user_bound :
      (cap : ℕ) (rows : List SpoolItem)
      → 0 < cap
      → count_where (is_of username) (cap_user db cap username rows) ≤ cap
  unfolding cap_user
  cap_user_bound cap rows h = ground (
    arith,
    count_where-delete_oldest db item_id created_at (λ _. true) (is_of username)
        (count_where (is_of username) rows - cap) rows (λ r e. refl),
  )

  cap_user-keeps :
      (cap : ℕ) (rows : List SpoolItem)
      → HasUniqueIds item_id rows
      → select (λ r. not (is_of username r)) (cap_user db cap username rows)
        ≡ select (λ r. not (is_of username r)) rows
  unfolding cap_user
  cap_user-keeps cap rows u = ground (
    arith,
    select-delete_oldest db item_id created_at (λ _. true) (is_of username)
        (λ r. not (is_of username r)) (count_where (is_of username) rows - cap) rows
        (λ r e. ground arith) u,
  )

  -- With a positive cap, and ids that are unique and below the next one, the rows of a user number
  -- at most the cap after an item for the user is put in, and the rows of other users are as they
  -- were, in place.
  pub enqueue_spool_cap :
      0 < cfg.spool_max_rows_per_user
      → IsSound t
      → (count_where (is_of username) (enqueue_spool db cfg username now p t).rows
          ≤ cfg.spool_max_rows_per_user)
        × (select (λ r. not (is_of username r)) (enqueue_spool db cfg username now p t).rows
            ≡ select (λ r. not (is_of username r)) t.rows)
  unfolding enqueue_spool spooled
  enqueue_spool_cap h s = (
    cap_user_bound cfg.spool_max_rows_per_user inserted h,
    ground (
      arith,
      cap_user-keeps cfg.spool_max_rows_per_user inserted (inserted-HasUniqueIds s),
      eq_iff username username,
    ),
  )
