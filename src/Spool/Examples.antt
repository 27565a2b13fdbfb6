-- ===== src/Spool/Examples.antt =====
-- Runs of the spool on a small table, and the theorems at concrete inputs.
use fedi.Base.{
  string_eq, nat_eq, ℕ, ◌≤◌, ◌≡◌, refl, true, not, ◌&&◌, ◌||◌, some, List, [], ◌∷◌, map, select,
  count_where, if◌then◌else◌, ◌==◌, All, is_some, arith,
}
use fedi.Access.{codes, is_valid_username}
use fedi.Rows.Insertion.{stable, sort_by}
use fedi.Spool.{
  SpoolItem, InboxSpool, SpoolConfig, Posted, item_id, is_of, enqueue_spool, cleanup_spool, Flush,
  flush_round, flush_spool_for_user, batch_items, list_spool,
}
use fedi.Spool.Boxes.{Command, enqueue, bump, cleanup, flush, run, view, box_run, oldest}
use fedi.Spool.Refinement.{run_refines}
use fedi.Spool.Capacity.{enqueue_spool_cap}
use fedi.Spool.Settling.{flush_round-keeps, is_settled, has_row}
use fedi.Spool.Delivery.{flush_spool_for_user_delivers}
use fedi.Spool.Rounds.{flush_spool_for_user-Ends}

abbrev cfg : SpoolConfig
cfg = record { spool_max_rows_per_user = 2; spool_flush_batch = 2; spool_deadletter_max_tries = 3 }

abbrev first : SpoolItem
first = record {
  id = 1;
  username = "ann";
  created_at_ms = 100;
  method = "POST";
  path = "/users/ann/inbox";
  query = "";
  headers_json = "[]";
  body_b64 = "e30=";
  body_len = 2;
  tries = 0;
  activity_type = "Create";
}

abbrev second : SpoolItem
second = record first { id = 2; created_at_ms = 200; tries = 2 }

abbrev others : SpoolItem
others = record first { id = 3; username = "bob" }

abbrev third : SpoolItem
third = record first { id = 4; created_at_ms = 400 }

abbrev posted : Posted
posted = record {
  method = "POST";
  path = "/users/ann/inbox";
  query = "";
  headers_json = "[]";
  body_b64 = "e30=";
  body_len = 2;
  activity_type = "Like";
}

abbrev table : InboxSpool
table = record { rows = second ∷ others ∷ first ∷ []; next_id = 4 }

abbrev flush_start : Flush
flush_start = record {
  rows = third ∷ second ∷ others ∷ first ∷ [];
  ap_spool_deadletter_total = 0;
  spool_flush_blocked_items_total = 0;
}

-- The core takes the first item, refuses the second, and then is away.
abbrev answer : ℕ → SpoolItem → ℕ
answer round item = if item.id == 1 then 202 else (if item.id == 2 then 403 else 503)

enqueue_drops_oldest :
    map item_id (enqueue_spool stable cfg "ann" 300 posted table).rows ≡ 4 ∷ 2 ∷ 3 ∷ []
unfolding enqueue_spool sort_by
enqueue_drops_oldest = refl

cleanup_counts : (cleanup_spool 1 1150 table.rows).1 ≡ 2
unfolding cleanup_spool
cleanup_counts = refl

-- The second item has used up its tries, so both leave, and the next round finds the third.
round_settles_two : (flush_round stable cfg "ann" (answer 0) flush_start).1 ≡ true
unfolding flush_round sort_by
round_settles_two = refl

flush_leaves_third :
    flush_spool_for_user stable cfg "ann" (λ _. true) answer flush_start
    ≡ some (record {
      rows = third ∷ others ∷ [];
      ap_spool_deadletter_total = 1;
      spool_flush_blocked_items_total = 0;
    })
unfolding flush_spool_for_user sort_by is_valid_username
flush_leaves_third = refl

-- A name that is not valid is never flushed.
flush_refuses_name :
    flush_spool_for_user stable cfg "Ann" (λ _. true) answer flush_start ≡ some flush_start
unfolding flush_spool_for_user sort_by is_valid_username
flush_refuses_name = refl

enqueue_spool_cap_example :
    (count_where (is_of "ann") (enqueue_spool stable cfg "ann" 300 posted table).rows ≤ 2)
    × (select (λ r. not (is_of "ann" r)) (enqueue_spool stable cfg "ann" 300 posted table).rows
        ≡ others ∷ [])
enqueue_spool_cap_example =
    enqueue_spool_cap stable cfg "ann" 300 posted table (omega arith)
      (record { unique = ground arith; below = ground arith })

flush_round-keeps_example :
    All
      (λ r.
        has_row r.id (batch_items stable cfg "ann" flush_start.rows) && is_settled cfg (answer 0) r
          || has_row r.id (flush_round stable cfg "ann" (answer 0) flush_start).0.rows
        ≡ true)
      flush_start.rows
flush_round-keeps_example = flush_round-keeps stable cfg "ann" (answer 0) flush_start (ground arith)

flush_spool_for_user-Ends_example :
    is_some (flush_spool_for_user stable cfg "ann" (λ _. true) answer flush_start) ≡ true
flush_spool_for_user-Ends_example =
    flush_spool_for_user-Ends stable cfg "ann" (λ _. true) answer flush_start

ann_valid : is_valid_username (codes "ann") ≡ true
unfolding is_valid_username
ann_valid = refl

flush_spool_for_user_delivers_example :
    (g : Flush) × ((flush_spool_for_user stable cfg "ann" (λ _. true) (λ _ _. 200) flush_start
        ≡ some g)
      × (count_where (is_of "ann") g.rows ≡ 0))
flush_spool_for_user_delivers_example =
    flush_spool_for_user_delivers stable cfg "ann" (λ _. true) (λ _ _. 200) flush_start ann_valid
      (λ k. refl) (λ k item. refl)

abbrev commands : List Command
commands =
    enqueue "ann" 300 posted
    ∷ bump 3
    ∷ flush "ann" (answer 0)
    ∷ enqueue "bob" 310 posted
    ∷ cleanup 1 1150
    ∷ []

run_refines_example :
    (view "ann" (run stable cfg commands table)
      ≡ box_run stable cfg "ann" commands (record { items = second ∷ first ∷ []; next_id = 4 }))
    × (list_spool stable "ann" 5 (run stable cfg commands table).rows
        ≡ oldest stable cfg 5
            (box_run stable cfg "ann" commands
              (record { items = second ∷ first ∷ []; next_id = 4 })).items)
run_refines_example =
    run_refines stable cfg "ann" commands table 5
      (record { unique = ground arith; below = ground arith })
