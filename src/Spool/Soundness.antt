-- ===== src/Spool/Soundness.antt =====
-- The spool's ids and the next one, crates/fedi3_relay/src/main.rs, as rows are tried, deleted and
-- flushed.
use fedi.Base.{
  string_eq, nat_eq, ℕ, ◌+◌, ◌<◌, ◌≡◌, Bool, false, not, ◌||◌, List, [], ◌∷◌, String, ◌==◌, select,
  All, if_cases, length,
}
use fedi.Rows.{OrderBy}
use fedi.Rows.Retention.{select-HasUniqueIds, All-select}
use fedi.Spool.{
  SpoolItem, SpoolConfig, item_id, bump_spool_try, is_among, delete_spool_ids, Batch, Flush,
  started, finished, flush_items, flush_round, batch_items, delivered_item, bumped_item, dead_item,
  blocked_item, is_success, is_last_try, is_blocked,
}
use fedi.Spool.Capacity.{IsSound}
use fedi.Spool.Settling.{delete_spool_ids-eq}

-- The invariant, on the rows and the number of the next.
abbrev pub Sound : ℕ → List SpoolItem → Type 0
Sound next_id rows = IsSound (record { rows = rows; next_id = next_id })

pub select-Sound :
    (kept : SpoolItem → Bool) (n : ℕ) (rows : List SpoolItem)
    → Sound n rows
    → Sound n (select kept rows)
select-Sound kept n rows s = record {
  unique = select-HasUniqueIds item_id kept rows s.unique;
  below = All-select item_id _ kept rows s.below;
}

All-bumped :
    (P : SpoolItem → Type 0) (id : ℕ) (rows : List SpoolItem)
    → ((r : SpoolItem) → P r → P (record r { tries = r.tries + 1 }))
    → All P rows
    → All P (bump_spool_try id rows)
unfolding bump_spool_try
All-bumped P id [] k h = tt
All-bumped P id (r ∷ rows) k h =
    (if_cases P (r.id == id) _ r (λ _. k r h.0) (λ _. h.0), All-bumped P id rows k h.1)

pub bump-Sound :
    (id n : ℕ) (rows : List SpoolItem) → Sound n rows → Sound n (bump_spool_try id rows)
unfolding bump_spool_try
bump-Sound id n [] s = s
bump-Sound id n (r ∷ rows) s =
    let rest = bump-Sound id n rows (record { unique = s.unique.1; below = s.below.1 }) in
    record {
      unique = (
        if_cases (λ (q : SpoolItem). All (λ t. (q.id == t.id) ≡ false) (bump_spool_try id rows))
            (r.id == id) (record r { tries = r.tries + 1 }) r
            (λ _. All-bumped (λ t. (r.id == t.id) ≡ false) id rows (λ t h. h) s.unique.0)
            (λ _. All-bumped (λ t. (r.id == t.id) ≡ false) id rows (λ t h. h) s.unique.0),
        rest.unique,
      );
      below = (
        if_cases (λ (q : SpoolItem). q.id < n) (r.id == id) (record r { tries = r.tries + 1 }) r
            (λ _. s.below.0) (λ _. s.below.0),
        rest.below,
      );
    }

pub delete-Sound :
    (ids : List ℕ) (n : ℕ) (rows : List SpoolItem)
    → Sound n rows
    → Sound n (delete_spool_ids ids rows)
delete-Sound ids n rows s =
    rw (delete_spool_ids-eq ids rows) (select-Sound (λ r. not (is_among ids r)) n rows s)

module _ (cfg : SpoolConfig) (answer : SpoolItem → ℕ) where
  flush_items-Sound :
      (n : ℕ) (items : List SpoolItem) (b : Batch)
      → Sound n b.rows
      → Sound n (flush_items cfg answer items b).rows
  unfolding flush_items
  flush_items-Sound n [] b s = s
  flush_items-Sound n (item ∷ items) b s =
      let Q = λ (c : Batch). Sound n c.rows in
      let rest = flush_items cfg answer items in
      let status = answer item in
      let bumped = bump-Sound item.id n b.rows s in
      if_cases Q (is_success status || status == 202) _ _
        (λ _. flush_items-Sound n items (delivered_item item b) s)
        (λ _.
          if_cases Q (status == 503) _ _ (λ _. s)
            (λ _.
              if_cases Q (is_last_try cfg item) _ _
                (λ _. flush_items-Sound n items (dead_item item (bumped_item item b)) bumped)
                (λ _.
                  if_cases Q (is_blocked status) _ _
                    (λ _. flush_items-Sound n items (blocked_item (bumped_item item b)) bumped)
                    (λ _. bumped))))

  pub flush_round-Sound :
      (db : OrderBy SpoolItem) (user : String) (n : ℕ) (f : Flush)
      → Sound n f.rows
      → Sound n (flush_round db cfg user answer f).0.rows
  unfolding flush_round finished
  flush_round-Sound db user n f s =
      let items = batch_items db cfg user f.rows in
      let b = flush_items cfg answer items (started f) in
      if_cases (λ (q : Flush × Bool). Sound n q.0.rows) (length items == 0) _ _ (λ _. s)
        (λ _.
          delete-Sound b.deadletter_ids n _
            (delete-Sound b.delivered_ids n b.rows (flush_items-Sound n items (started f) s)))
