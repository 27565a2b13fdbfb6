-- ===== src/Spool.antt =====
-- The relay's spool of deliveries for users who are offline, crates/fedi3_relay/src/main.rs: the
-- statements on inbox_spool, the same on both databases, and the flush when a user is back. Nothing
-- else writes the table during a flush here; the core's answers are an argument.
pub mod Capacity
pub mod Settling
pub mod Rounds
pub mod Delivery
pub mod Soundness
pub mod Flushing
pub mod Sparing
pub mod Boxes
pub mod Refinement
mod Examples
use fedi.Base.{
  string_eq, nat_eq, ℕ, zero, suc, ◌+◌, ◌-◌, ◌*◌, Bool, true, false, ◌&&◌, ◌||◌, min, max, Option,
  none, some, List, [], ◌∷◌, ◌++◌, String, str_eq, ltb, leb, ◌==◌, if◌then◌else◌, length, take,
  drop, any, count_where, wrap_add_u64, sat_add_i64,
}
use fedi.Access.{codes, is_valid_username}
use fedi.Rows.{OrderBy, update_where, delete_where, select_oldest, delete_oldest}

pub record SpoolItem : Type 0 where
  pub id : ℕ
  pub username : String
  pub created_at_ms : ℕ
  pub method : String
  pub path : String
  pub query : String
  pub headers_json : String
  pub body_b64 : String
  pub body_len : ℕ
  pub tries : ℕ
  pub activity_type : String

-- The table, and the number that it gives to the next row.
pub record InboxSpool : Type 0 where
  pub rows : List SpoolItem
  pub next_id : ℕ

pub record SpoolConfig : Type 0 where
  pub spool_max_rows_per_user : ℕ
  pub spool_flush_batch : ℕ
  pub spool_deadletter_max_tries : ℕ

abbrev pub item_id : SpoolItem → ℕ
item_id r = r.id

abbrev pub created_at : SpoolItem → ℕ
created_at r = r.created_at_ms

abbrev pub is_of : String → SpoolItem → Bool
is_of username r = str_eq r.username username

-- What a handler puts in the spool.
pub record Posted : Type 0 where
  pub method : String
  pub path : String
  pub query : String
  pub headers_json : String
  pub body_b64 : String
  pub body_len : ℕ
  pub activity_type : String

unfoldable pub spooled : (username : String) (now id : ℕ) → Posted → SpoolItem
spooled username now id p = record {
  id = id;
  username = username;
  created_at_ms = now;
  method = p.method;
  path = p.path;
  query = p.query;
  headers_json = p.headers_json;
  body_b64 = p.body_b64;
  body_len = p.body_len;
  tries = 0;
  activity_type = p.activity_type;
}

module _ (db : OrderBy SpoolItem) where
  -- A user over the cap loses the oldest items.
  unfoldable pub cap_user : (cap : ℕ) (username : String) → List SpoolItem → List SpoolItem
  unfolding delete_oldest
  cap_user cap username rows =
      let count = count_where (is_of username) rows in
      if ltb 0 cap && ltb cap count
      then delete_oldest db item_id created_at (λ _. true) (is_of username) (count - cap) rows
      else rows

  unfoldable pub enqueue_spool :
      SpoolConfig → (username : String) (now : ℕ) → Posted → InboxSpool → InboxSpool
  unfolding cap_user spooled
  enqueue_spool cfg username now p t = record {
    rows =
        cap_user cfg.spool_max_rows_per_user username (spooled username now t.next_id p ∷ t.rows);
    next_id = suc t.next_id;
  }

  unfoldable pub list_spool : (username : String) (limit : ℕ) → List SpoolItem → List SpoolItem
  unfolding select_oldest
  list_spool username limit rows =
      select_oldest db item_id created_at (is_of username) (min limit 1000) rows

unfoldable pub bump_spool_try : ℕ → List SpoolItem → List SpoolItem
unfolding update_where
bump_spool_try id = update_where (λ r. r.id == id) (λ r. record r { tries = r.tries + 1 })

abbrev pub is_among : List ℕ → SpoolItem → Bool
is_among ids r = any (λ id. r.id == id) ids

-- `DELETE … WHERE id IN (…)` for each chunk of 500 ids: `ids.chunks(DB_BATCH_DELETE_MAX)`, of which
-- there are at most as many as ids.
unfoldable pub delete_chunks : (chunks : ℕ) → List ℕ → List SpoolItem → List SpoolItem
delete_chunks zero ids rows = rows
delete_chunks (suc chunks) ids rows =
    delete_chunks chunks (drop 500 ids) (delete_where (is_among (take 500 ids)) rows)

unfoldable pub delete_spool_ids : List ℕ → List SpoolItem → List SpoolItem
unfolding delete_chunks
delete_spool_ids ids rows = delete_chunks (length ids) ids rows

-- The rows that stay, and the number of those deleted.
unfoldable pub cleanup_spool : (ttl_secs now : ℕ) → List SpoolItem → List SpoolItem × ℕ
cleanup_spool ttl_secs now rows =
    let old = λ (r : SpoolItem). ltb r.created_at_ms (now - ttl_secs * 1000) in
    (delete_where old rows, count_where old rows)

abbrev pub is_success : (status : ℕ) → Bool
is_success status = leb 200 status && ltb status 300

-- The answers after which the flush goes on with the next item.
abbrev pub is_blocked : (status : ℕ) → Bool
is_blocked status = status == 400 || status == 401 || status == 403

-- The state of a batch: the table, the ids to delete, and the counters.
pub record Batch : Type 0 where
  pub rows : List SpoolItem
  pub delivered_ids : List ℕ
  pub deadletter_ids : List ℕ
  pub ap_spool_deadletter_total : ℕ
  pub spool_flush_blocked_items_total : ℕ

abbrev pub delivered_item : SpoolItem → Batch → Batch
delivered_item item b = record b { delivered_ids = b.delivered_ids ++ (item.id ∷ []) }

abbrev pub bumped_item : SpoolItem → Batch → Batch
bumped_item item b = record b { rows = bump_spool_try item.id b.rows }

abbrev pub dead_item : SpoolItem → Batch → Batch
dead_item item b = record b {
  deadletter_ids = b.deadletter_ids ++ (item.id ∷ []);
  ap_spool_deadletter_total = wrap_add_u64 b.ap_spool_deadletter_total 1;
}

abbrev pub blocked_item : Batch → Batch
blocked_item b = record b {
  spool_flush_blocked_items_total = wrap_add_u64 b.spool_flush_blocked_items_total 1;
}

-- The tries of an item are used up by one more.
abbrev pub is_last_try : SpoolConfig → SpoolItem → Bool
is_last_try cfg item = leb cfg.spool_deadletter_max_tries (sat_add_i64 item.tries 1)

-- The batch, item by item: `answer` is the status that the core gives.
unfoldable pub flush_items : SpoolConfig → (SpoolItem → ℕ) → List SpoolItem → Batch → Batch
unfolding bump_spool_try
flush_items cfg answer [] b = b
flush_items cfg answer (item ∷ items) b =
    let rest = flush_items cfg answer items in
    let status = answer item in
    if is_success status || status == 202
    then rest (delivered_item item b)
    else if status == 503
    then b
    else if is_last_try cfg item
    then rest (dead_item item (bumped_item item b))
    else if is_blocked status
    then rest (blocked_item (bumped_item item b))
    else bumped_item item b

-- The flush of one user: the table and the counters.
pub record Flush : Type 0 where
  pub rows : List SpoolItem
  pub ap_spool_deadletter_total : ℕ
  pub spool_flush_blocked_items_total : ℕ

abbrev pub started : Flush → Batch
started f = record {
  rows = f.rows;
  delivered_ids = [];
  deadletter_ids = [];
  ap_spool_deadletter_total = f.ap_spool_deadletter_total;
  spool_flush_blocked_items_total = f.spool_flush_blocked_items_total;
}

unfoldable pub finished : Batch → Flush
unfolding delete_spool_ids
finished b = record {
  rows = delete_spool_ids b.deadletter_ids (delete_spool_ids b.delivered_ids b.rows);
  ap_spool_deadletter_total = b.ap_spool_deadletter_total;
  spool_flush_blocked_items_total = b.spool_flush_blocked_items_total;
}

module _ (db : OrderBy SpoolItem) (cfg : SpoolConfig) (user : String) where
  abbrev pub batch_items : List SpoolItem → List SpoolItem
  batch_items rows = list_spool db user (min (max cfg.spool_flush_batch 1) 500) rows

  -- One round: what it leaves, and whether another follows.
  unfoldable pub flush_round : (SpoolItem → ℕ) → Flush → Flush × Bool
  unfolding flush_items list_spool finished
  flush_round answer f =
      let items = batch_items f.rows in
      let b = flush_items cfg answer items (started f) in
      if length items == 0
      then (f, false)
      else (finished b, leb (length items) (length b.delivered_ids + length b.deadletter_ids))

  -- The rounds. `is_connected` and `answer` say for each round whether the tunnel is there and what
  -- the core answers. None stands for a flush that is not over when `fuel` rounds are.
  unfoldable pub flush_rounds :
      (fuel round : ℕ)
      → (is_connected : ℕ → Bool) (answer : ℕ → SpoolItem → ℕ) → Flush
      → Option Flush
  unfolding flush_round
  flush_rounds zero round is_connected answer f = none
  flush_rounds (suc fuel) round is_connected answer f =
      let r = flush_round (answer round) f in
      let rest = flush_rounds fuel (suc round) is_connected answer r.0 in
      if is_connected round then (if r.1 then rest else some r.0) else some f

  -- The whole flush. Each round that another follows takes rows of the user out, so there are no
  -- more rounds than rows.
  unfoldable pub flush_spool_for_user :
      (is_connected : ℕ → Bool) (answer : ℕ → SpoolItem → ℕ) → Flush → Option Flush
  unfolding flush_rounds
  flush_spool_for_user is_connected answer f =
      let rounds = flush_rounds (suc (length f.rows)) 0 is_connected answer f in
      if is_valid_username (codes user) then rounds else some f
