-- ===== src/Spool/Sparing.antt =====
-- A round of a user's flush, in crates/fedi3_relay/src/main.rs, and the rows of the other users.
use fedi.Base.{
  string_eq, nat_eq, ℕ, ◌≡◌, refl, ap, ◌∙◌, Bool, false, not, ◌||◌, min, max, List, [], ◌∷◌, ◌++◌,
  String, str_eq, eq_iff, arith, ◌==◌, length, any-append, select, All, if_cases,
}
use fedi.Rows.{OrderBy, update_where, has_id_in}
use fedi.Rows.Retention.{HasUniqueIds, select_oldest_apart, All-always}
use fedi.Rows.Restriction.{select_all, All_selected, All_both}
use fedi.Spool.{
  SpoolItem, SpoolConfig, item_id, created_at, is_of, bump_spool_try, is_among, delete_spool_ids,
  list_spool, is_success, is_blocked, is_last_try, Batch, delivered_item, bumped_item, dead_item,
  blocked_item, flush_items, Flush, started, batch_items, flush_round,
}
use fedi.Spool.Settling.{delete_spool_ids-eq}
use fedi.Spool.Boxes.{flushed, flush_of}
use fedi.Spool.Flushing.{select-bump, rows-finished}

bump_absent :
    (id : ℕ) (rows : List SpoolItem)
    → All (λ r. (r.id == id) ≡ false) rows
    → bump_spool_try id rows ≡ rows
unfolding bump_spool_try update_where
bump_absent id [] h = refl
bump_absent id (r ∷ rows) h = rw (h.0) (ap (λ rs. r ∷ rs) (bump_absent id rows h.1))

-- None of the ids is that of a row.
abbrev AreAbsent : List ℕ → List SpoolItem → Type 0
AreAbsent ids rows = All (λ r. is_among ids r ≡ false) rows

delete_absent :
    (ids : List ℕ) (rows : List SpoolItem) → AreAbsent ids rows → delete_spool_ids ids rows ≡ rows
delete_absent ids rows h =
    delete_spool_ids-eq ids rows ∙ select_all _ rows (All_both _ _ _ rows (λ r e k. ap not e) h h)

AreAbsent-append :
    (ids : List ℕ) (id : ℕ) (rows : List SpoolItem)
    → AreAbsent ids rows
    → All (λ r. (r.id == id) ≡ false) rows
    → AreAbsent (ids ++ (id ∷ [])) rows
AreAbsent-append ids id rows =
    All_both _ _ _ rows (λ r h k. ground (arith, any-append (λ i. r.id == i) ids (id ∷ []), h, k))

-- A batch has left the rows of a user.
record Spares (user : String) (mine : List SpoolItem) (b : Batch) : Type 0 where
  rows_eq : select (is_of user) b.rows ≡ mine
  delivered : AreAbsent b.delivered_ids mine
  dead : AreAbsent b.deadletter_ids mine

module _ (cfg : SpoolConfig) (answer : SpoolItem → ℕ) (user : String) where
  module _ (mine : List SpoolItem) where
    bumped-Spares :
        (item : SpoolItem) (b : Batch)
        → All (λ r. (r.id == item.id) ≡ false) mine
        → Spares user mine b
        → Spares user mine (bumped_item item b)
    bumped-Spares item b h s = record {
      rows_eq =
          select-bump user item.id b.rows
          ∙ ap (bump_spool_try item.id) s.rows_eq
          ∙ bump_absent item.id mine h;
      delivered = s.delivered;
      dead = s.dead;
    }

    flush_items-Spares :
        (items : List SpoolItem) (b : Batch)
        → All (λ r. has_id_in item_id items r ≡ false) mine
        → Spares user mine b
        → Spares user mine (flush_items cfg answer items b)
    unfolding flush_items
    flush_items-Spares [] b h s = s
    flush_items-Spares (item ∷ items) b h s =
        let Q = Spares user mine in
        let status = answer item in
        let rest : All (λ r. has_id_in item_id items r ≡ false) mine =
          All_both _ _ _ mine (λ r e k. ground (arith, e)) h h in
        let other : All (λ r. (r.id == item.id) ≡ false) mine =
          All_both _ _ _ mine (λ r e k. ground (arith, e)) h h in
        let on = λ (c : Batch) (k : Q c). flush_items-Spares items c rest k in
        let bumped = bumped-Spares item b other s in
        if_cases Q (is_success status || status == 202) _ _
          (λ _. on (delivered_item item b) (record {
            rows_eq = s.rows_eq;
            delivered = AreAbsent-append b.delivered_ids item.id mine s.delivered other;
            dead = s.dead;
          }))
          (λ _.
            if_cases Q (status == 503) _ _ (λ _. s)
              (λ _.
                if_cases Q (is_last_try cfg item) _ _
                  (λ _. on (dead_item item (bumped_item item b)) (record {
                    rows_eq = bumped.rows_eq;
                    delivered = s.delivered;
                    dead = AreAbsent-append b.deadletter_ids item.id mine s.dead other;
                  }))
                  (λ _.
                    if_cases Q (is_blocked status) _ _
                      (λ _. on (blocked_item (bumped_item item b)) (record {
                        rows_eq = bumped.rows_eq;
                        delivered = s.delivered;
                        dead = s.dead;
                      }))
                      (λ _. bumped))))

  module _ (db : OrderBy SpoolItem) where
    -- A round of another user leaves the rows of the user.
    pub flushed-other :
        (username : String) (rows : List SpoolItem)
        → str_eq username user ≡ false
        → HasUniqueIds item_id rows
        → select (is_of user) (flushed db cfg username answer rows) ≡ select (is_of user) rows
    unfolding flush_round list_spool
    flushed-other username rows d u =
        let items = batch_items db cfg username rows in
        let mine = select (is_of user) rows in
        let b = flush_items cfg answer items (started (flush_of rows)) in
        let n = min (min (max cfg.spool_flush_batch 1) 500) 1000 in
        let apart = All_selected _ (is_of user) rows (
          select_oldest_apart db item_id created_at (is_of username) (is_of user) n rows
            (λ r e. ground (
              arith,
              e,
              d,
              eq_iff r.username user,
              eq_iff r.username username,
              eq_iff username user,
            ))
            u) in
        let none_yet = All-always (λ r. is_among [] r ≡ false) mine (λ r. refl) in
        let s =
          flush_items-Spares mine items (started (flush_of rows)) apart
            (record { rows_eq = refl; delivered = none_yet; dead = none_yet }) in
        if_cases (λ (q : Flush × Bool). select (is_of user) q.0.rows ≡ mine) (length items == 0) _ _
          (λ _. refl)
          (λ _.
            rows-finished cfg answer user b
            ∙ ap (λ rs. delete_spool_ids b.deadletter_ids (delete_spool_ids b.delivered_ids rs))
                s.rows_eq
            ∙ ap (delete_spool_ids b.deadletter_ids)
                (delete_absent b.delivered_ids mine s.delivered)
            ∙ delete_absent b.deadletter_ids mine s.dead)
