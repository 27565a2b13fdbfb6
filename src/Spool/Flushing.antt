-- ===== src/Spool/Flushing.antt =====
-- A round of a user's flush, in crates/fedi3_relay/src/main.rs, on the rows of the user alone.
use fedi.Base.{
  string_eq, nat_eq, ℕ, ◌+◌, ◌≡◌, refl, ap, sym, ◌∙◌, inl, inr, Bool, true, false, ◌||◌, leb, take,
  min, max, List, [], ◌∷◌, String, ◌==◌, if◌then◌else◌, length, select, Bool-cases,
}
use fedi.Rows.{OrderBy, select_oldest}
use fedi.Rows.Restriction.{select_commutes, select-update_where, select_twice}
use fedi.Spool.{
  SpoolItem, SpoolConfig, created_at, is_of, bump_spool_try, delete_spool_ids, list_spool,
  is_success, is_blocked, is_last_try, Batch, delivered_item, bumped_item, dead_item, blocked_item,
  flush_items, Flush, started, finished, batch_items, flush_round,
}
use fedi.Spool.Settling.{delete_spool_ids-eq}
use fedi.Spool.Boxes.{flushed, flush_of}

pub select-bump :
    (user : String) (id : ℕ) (rows : List SpoolItem)
    → select (is_of user) (bump_spool_try id rows) ≡ bump_spool_try id (select (is_of user) rows)
unfolding bump_spool_try
select-bump user id rows =
    select-update_where (is_of user) (λ r. r.id == id) (λ r. record r { tries = r.tries + 1 }) rows
      (λ r. refl)

select-delete :
    (user : String) (ids : List ℕ) (rows : List SpoolItem)
    → select (is_of user) (delete_spool_ids ids rows)
      ≡ delete_spool_ids ids (select (is_of user) rows)
select-delete user ids rows =
    rw (delete_spool_ids-eq ids rows, delete_spool_ids-eq ids (select (is_of user) rows))
      (select_commutes (is_of user) _ rows)

module _ (cfg : SpoolConfig) (answer : SpoolItem → ℕ) (user : String) where
  -- The batch on the rows of the user alone.
  abbrev own : Batch → Batch
  own b = record b { rows = select (is_of user) b.rows }

  own-flush_items :
      (items : List SpoolItem) (b : Batch)
      → own (flush_items cfg answer items b) ≡ flush_items cfg answer items (own b)
  unfolding flush_items
  own-flush_items [] b = refl
  own-flush_items (item ∷ items) b =
      let rest = flush_items cfg answer items in
      let bump = select-bump user item.id b.rows in
      let after = λ (g : Batch → Batch). ap (λ rows. rest (g (record b { rows = rows }))) bump in
      elim (Bool-cases (is_success (answer item) || answer item == 202)) [
        | inl t ↦ rw (t) (own-flush_items items (delivered_item item b))
        | inr t ↦ elim (Bool-cases (answer item == 503)) [
          | inl u ↦ rw (t, u) refl
          | inr u ↦ elim (Bool-cases (is_last_try cfg item)) [
            | inl v ↦
                rw (t, u, v)
                  (own-flush_items items (dead_item item (bumped_item item b))
                    ∙ after (λ c. dead_item item c))
            | inr v ↦ elim (Bool-cases (is_blocked (answer item))) [
              | inl w ↦
                  rw (t, u, v, w)
                    (own-flush_items items (blocked_item (bumped_item item b))
                      ∙ after (λ c. blocked_item c))
              | inr w ↦ rw (t, u, v, w) (ap (λ rows. record b { rows = rows }) bump)
            ]
          ]
        ]
      ]

  pub rows-finished :
      (b : Batch)
      → select (is_of user) (finished b).rows
        ≡ delete_spool_ids b.deadletter_ids
            (delete_spool_ids b.delivered_ids (select (is_of user) b.rows))
  unfolding finished
  rows-finished b =
      select-delete user b.deadletter_ids (delete_spool_ids b.delivered_ids b.rows)
      ∙ ap (delete_spool_ids b.deadletter_ids) (select-delete user b.delivered_ids b.rows)

  module _ (db : OrderBy SpoolItem) where
    -- The rows after a round, by whether the batch is empty.
    abbrev round_on : Bool → (items rows : List SpoolItem) → List SpoolItem
    round_on is_over items rows =
        let b = flush_items cfg answer items (started (flush_of rows)) in
        let more = leb (length items) (length b.delivered_ids + length b.deadletter_ids) in
        let outcome : Flush × Bool =
          if is_over then (flush_of rows, false) else (finished b, more) in
        outcome.0.rows

    own-round_on :
        (is_over : Bool) (items rows : List SpoolItem)
        → select (is_of user) (round_on is_over items rows)
          ≡ round_on is_over items (select (is_of user) rows)
    unfolding finished
    own-round_on true items rows = refl
    own-round_on false items rows =
        let b = started (flush_of rows) in
        rows-finished (flush_items cfg answer items b)
        ∙ ap (λ c. (finished c).rows) (own-flush_items items b)

    -- The user's own box goes through the round alone.
    pub flushed-own :
        (rows : List SpoolItem)
        → select (is_of user) (flushed db cfg user answer rows)
          ≡ flushed db cfg user answer (select (is_of user) rows)
    unfolding flush_round list_spool select_oldest
    flushed-own rows =
        let n = min (min (max cfg.spool_flush_batch 1) 500) 1000 in
        let items = batch_items db cfg user rows in
        let mine = select (is_of user) rows in
        own-round_on (length items == 0) items rows
        ∙ ap
            (λ own_rows.
              let its = take n (db.order created_at own_rows) in
              round_on (length its == 0) its mine)
            (sym (select_twice (is_of user) rows))
