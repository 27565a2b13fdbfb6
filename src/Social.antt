-- ===== src/Social.antt =====
-- The tables of crates/fedi3_core/src/social_db.rs that guard the inbox: the activities already
-- seen, the daily quotas, the strikes, the blocked actors and the audit events. A transaction that
-- fails leaves the tables alone: whether the database answers is up to the callers' models. Times
-- are milliseconds since the epoch, given by the caller, and `last_strike_ms`, `seen_at_ms` and the
-- like were read of the same clock.
pub mod Guards
pub mod Quotas
mod Examples
use fedi.Base.{
  string_eq, ℕ, ◌-◌, ◌*◌, Bool, true, false, ◌||◌, min, max, Option, none, some, List, ◌∷◌, String,
  str_eq, ltb, leb, ◌==◌, if◌then◌else◌, any, is_some, sat_add_u32, sat_add_u64, sat_add_i64,
  count_where, select,
}
use fedi.Text.{trim, is_empty}
use fedi.HashMap.{lookup, insert, retain}

-- A row of `inbox_quota`.
pub record Quota : Type 0 where
  pub window_start_ms : ℕ
  pub reqs : ℕ
  pub bytes : ℕ
  pub updated_at_ms : ℕ

-- A row of `abuse_strikes`.
pub record Strikes : Type 0 where
  pub strikes : ℕ
  pub last_strike_ms : ℕ
  pub block_until_ms : ℕ

pub record AuditEvent : Type 0 where
  pub kind : String
  pub created_at_ms : ℕ
  pub actor_id : Option String
  pub key_id : Option String
  pub activity_id : Option String
  pub is_ok : Bool
  pub status : Option String
  pub detail : Option String

pub record SocialDb : Type 0 where
  pub inbox_seen : List (String × ℕ)
  pub inbox_quota : List (String × Quota)
  pub abuse_strikes : List (String × Strikes)
  pub blocked_actors : List String
  pub audit_events : List AuditEvent

-- `filter(|v| *v > now)`.
abbrev pub still_blocked : (now : ℕ) → Option Strikes → Option ℕ
still_blocked now none = none
still_blocked now (some row) = if ltb now row.block_until_ms then some row.block_until_ms else none

unfoldable pub abuse_check_blocked : (now : ℕ) (abuse_key : String) → SocialDb → Option ℕ
unfolding lookup
abuse_check_blocked now abuse_key db =
    let key = trim abuse_key in
    if is_empty key then none else still_blocked now (lookup key db.abuse_strikes)

abbrev pub decay_ms : ℕ
decay_ms = 24 * 3600 * 1000

abbrev pub block_threshold : ℕ
block_threshold = 10

abbrev pub block_ms : ℕ
block_ms = 3600 * 1000

abbrev pub or_no_strikes : Option Strikes → Strikes
or_no_strikes none = record { strikes = 0; last_strike_ms = 0; block_until_ms = 0 }
or_no_strikes (some row) = row

-- The row after one more strike. The table keeps the later of the two ends of the block.
unfoldable pub row_struck : (weight now : ℕ) → Strikes → Strikes
row_struck weight now row =
    let decayed = if ltb decay_ms (now - row.last_strike_ms) then 0 else row.strikes in
    let strikes = sat_add_i64 decayed (min weight 10) in
    let until =
      if leb block_threshold strikes then sat_add_i64 now block_ms else row.block_until_ms in
    record {
      strikes = strikes;
      last_strike_ms = now;
      block_until_ms = max until row.block_until_ms;
    }

-- The end of the block, which no caller reads, is left out of the result.
unfoldable pub abuse_record_strike :
    (now : ℕ) (abuse_key : String) (weight : ℕ) → SocialDb → SocialDb
unfolding lookup insert
abuse_record_strike now abuse_key weight db =
    let key = trim abuse_key in
    if is_empty key || weight == 0 then db else record db {
      abuse_strikes =
          insert key (row_struck weight now (or_no_strikes (lookup key db.abuse_strikes)))
            db.abuse_strikes;
    }

-- Whether the activity is new; then it is entered.
unfoldable pub mark_inbox_seen : (now : ℕ) (activity_id : String) → SocialDb → SocialDb × Bool
unfolding lookup insert
mark_inbox_seen now activity_id db =
    if is_some (lookup activity_id db.inbox_seen)
    then (db, false)
    else (record db { inbox_seen = insert activity_id now db.inbox_seen }, true)

unfoldable pub is_actor_blocked : (actor_id : String) → SocialDb → Bool
is_actor_blocked actor_id db = any (λ a. str_eq a actor_id) db.blocked_actors

unfoldable pub insert_audit_event : AuditEvent → SocialDb → SocialDb
insert_audit_event event db = record db { audit_events = event ∷ db.audit_events }

abbrev pub or_new_quota : (now : ℕ) → Option Quota → Quota
or_new_quota now none = record { window_start_ms = now; reqs = 0; bytes = 0; updated_at_ms = now }
or_new_quota now (some row) = row

abbrev pub quota_renewed : (window_ms now : ℕ) → Quota → Quota
quota_renewed window_ms now row =
    if leb window_ms (now - row.window_start_ms)
    then record row { window_start_ms = now; reqs = 0; bytes = 0 }
    else row

abbrev pub quota_counted : (now add_bytes : ℕ) → Quota → Quota
quota_counted now add_bytes row = record row {
  reqs = sat_add_u32 row.reqs 1;
  bytes = sat_add_u64 row.bytes add_bytes;
  updated_at_ms = now;
}

-- Whether the request is within the quota; then it is counted.
unfoldable pub bump_inbox_quota :
    (quota_key : String) (window_ms max_reqs max_bytes add_bytes now : ℕ)
    → SocialDb
    → SocialDb × Bool
unfolding trim lookup insert
bump_inbox_quota quota_key window_ms max_reqs max_bytes add_bytes now db =
    let key = trim quota_key in
    let row = quota_renewed window_ms now (or_new_quota now (lookup key db.inbox_quota)) in
    if is_empty key || window_ms == 0
    then (db, true)
    else if ltb (max max_reqs 1) (sat_add_u32 row.reqs 1)
        || ltb (max max_bytes 1024) (sat_add_u64 row.bytes add_bytes)
    then (db, false)
    else (
      record db { inbox_quota = insert key (quota_counted now add_bytes row) db.inbox_quota },
      true,
    )

-- The tables after a prune, and the number of rows that it deleted.
unfoldable pub prune_inbox_seen_before : (cutoff_ms : ℕ) → SocialDb → SocialDb × ℕ
unfolding retain
prune_inbox_seen_before cutoff_ms db = (
  record db { inbox_seen = retain (λ seen_at_ms. leb cutoff_ms seen_at_ms) db.inbox_seen },
  count_where (λ row. ltb row.1 cutoff_ms) db.inbox_seen,
)

unfoldable pub prune_inbox_quota_before : (cutoff_ms : ℕ) → SocialDb → SocialDb × ℕ
unfolding retain
prune_inbox_quota_before cutoff_ms db = (
  record db { inbox_quota = retain (λ q. leb cutoff_ms q.updated_at_ms) db.inbox_quota },
  count_where (λ row. ltb row.1.updated_at_ms cutoff_ms) db.inbox_quota,
)

unfoldable pub prune_audit_events_before : (cutoff_ms : ℕ) → SocialDb → SocialDb × ℕ
prune_audit_events_before cutoff_ms db = (
  record db { audit_events = select (λ e. leb cutoff_ms e.created_at_ms) db.audit_events },
  count_where (λ e. ltb e.created_at_ms cutoff_ms) db.audit_events,
)
