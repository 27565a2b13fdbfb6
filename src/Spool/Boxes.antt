-- ===== src/Spool/Boxes.antt =====
-- The spool of crates/fedi3_relay/src/main.rs as one box per user, the abstract view: a listing reads
-- the box. Its implementation is the table of all users.
use fedi.Base.{
  string_eq, nat_eq, ℕ, suc, ◌+◌, ◌-◌, ◌*◌, not, ◌&&◌, List, [], ◌∷◌, String, str_eq, ltb, ◌==◌,
  if◌then◌else◌, length, take, select,
}
use fedi.Rows.{OrderBy, has_id_in}
use fedi.Rows.Restriction.{map_if}
use fedi.Spool.{
  SpoolItem, InboxSpool, SpoolConfig, Posted, item_id, created_at, is_of, spooled, enqueue_spool,
  bump_spool_try, is_among, delete_spool_ids, cleanup_spool, Flush, flush_round,
}

-- What the relay does with the spool: a flush of a user is one round of it, whole.
pub data Command : Type 0 where
  enqueue : (username : String) (now : ℕ) → Posted → Command
  bump : (id : ℕ) → Command
  delete : (ids : List ℕ) → Command
  cleanup : (ttl_secs now : ℕ) → Command
  flush : (username : String) (answer : SpoolItem → ℕ) → Command

-- A box: the items of one user, and the number of the next item of all users.
pub record Box : Type 0 where
  pub items : List SpoolItem
  pub next_id : ℕ

-- A flush with all counters at 0.
abbrev pub flush_of : List SpoolItem → Flush
flush_of rows = record {
  rows = rows;
  ap_spool_deadletter_total = 0;
  spool_flush_blocked_items_total = 0;
}

module _ (db : OrderBy SpoolItem) (cfg : SpoolConfig) where
  -- The rows after a round.
  abbrev pub flushed : (username : String) → (SpoolItem → ℕ) → List SpoolItem → List SpoolItem
  flushed username answer rows = (flush_round db cfg username answer (flush_of rows)).0.rows

  -- The table.
  unfoldable pub step : Command → InboxSpool → InboxSpool
  unfolding enqueue_spool bump_spool_try delete_spool_ids cleanup_spool flush_round
  step (enqueue username now p) t = enqueue_spool db cfg username now p t
  step (bump id) t = record t { rows = bump_spool_try id t.rows }
  step (delete ids) t = record t { rows = delete_spool_ids ids t.rows }
  step (cleanup ttl_secs now) t = record t { rows = (cleanup_spool ttl_secs now t.rows).0 }
  step (flush username answer) t = record t { rows = flushed username answer t.rows }

  unfoldable pub run : List Command → InboxSpool → InboxSpool
  run [] t = t
  run (c ∷ cs) t = run cs (step c t)

  -- The box.
  abbrev pub oldest : ℕ → List SpoolItem → List SpoolItem
  oldest n items = take n (db.order created_at items)

  abbrev pub without_oldest : ℕ → List SpoolItem → List SpoolItem
  without_oldest n items = select (λ r. not (has_id_in item_id (oldest n items) r)) items

  abbrev pub capped : List SpoolItem → List SpoolItem
  capped items =
      let cap = cfg.spool_max_rows_per_user in
      if ltb 0 cap && ltb cap (length items)
      then without_oldest (length items - cap) items
      else items

  unfoldable pub box_step : (user : String) → Command → Box → Box
  unfolding spooled flush_round
  box_step user (enqueue username now p) b = record {
    items =
        if str_eq username user
        then capped (spooled username now b.next_id p ∷ b.items)
        else b.items;
    next_id = suc b.next_id;
  }
  box_step user (bump id) b = record b {
    items = map_if (λ r. r.id == id) (λ r. record r { tries = r.tries + 1 }) b.items;
  }
  box_step user (delete ids) b = record b { items = select (λ r. not (is_among ids r)) b.items }
  box_step user (cleanup ttl_secs now) b = record b {
    items = select (λ r. not (ltb r.created_at_ms (now - ttl_secs * 1000))) b.items;
  }
  box_step user (flush username answer) b = record b {
    items = if str_eq username user then flushed username answer b.items else b.items;
  }

  unfoldable pub box_run : (user : String) → List Command → Box → Box
  box_run user [] b = b
  box_run user (c ∷ cs) b = box_run user cs (box_step user c b)

abbrev pub view : (user : String) → InboxSpool → Box
view user t = record { items = select (is_of user) t.rows; next_id = t.next_id }
