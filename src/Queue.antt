-- ===== src/Queue.antt =====
-- The delivery queue of crates/fedi3_core/src/delivery_queue.rs: the rows of `delivery_jobs`, the
-- settings, and the retry delay. The children hold the statements on the table (Store), the choice
-- between direct and relayed delivery (Failover), the handling of one job (Process) and the rounds of
-- the worker (Rounds).
pub mod Backoff
pub mod Store
pub mod Failover
pub mod Process
pub mod Rounds
mod Examples
use fedi.Base.{ℕ, ◌*◌, Bool, true, Option, List, String}

pub data PostDeliveryMode : Type 0 where
  p2p_only p2p_relay : PostDeliveryMode

-- Every field is a `u32` or `u64`. A field of seconds is below 2 ^ 63 / 1000, so that its cast to
-- `i64` and the product with 1000 are exact.
pub record QueueSettings : Type 0 where
  pub max_attempts : ℕ
  pub base_backoff_secs : ℕ
  pub max_backoff_secs : ℕ
  pub post_delivery_mode : PostDeliveryMode
  pub p2p_relay_fallback_secs : ℕ
  pub p2p_cache_ttl_secs : ℕ
  pub cleanup_interval_secs : ℕ
  pub delivered_ttl_secs : ℕ
  pub dead_ttl_secs : ℕ
  pub max_history_rows : ℕ
  pub p2p_failover_aggressive : Bool
  pub p2p_latency_slo_p95_ms : ℕ
  pub p2p_recover_probe_window_secs : ℕ
  pub p2p_transport_hysteresis_secs : ℕ
  pub p2p_failover_queue_pending_threshold : ℕ

-- `impl Default for QueueSettings`.
abbrev pub default_settings : QueueSettings
default_settings = record {
  max_attempts = 10;
  base_backoff_secs = 5;
  max_backoff_secs = 3600;
  post_delivery_mode = p2p_relay;
  p2p_relay_fallback_secs = 5;
  p2p_cache_ttl_secs = 7 * 24 * 3600;
  cleanup_interval_secs = 600;
  delivered_ttl_secs = 14 * 24 * 3600;
  dead_ttl_secs = 30 * 24 * 3600;
  max_history_rows = 100000;
  p2p_failover_aggressive = true;
  p2p_latency_slo_p95_ms = 300;
  p2p_recover_probe_window_secs = 30;
  p2p_transport_hysteresis_secs = 60;
  p2p_failover_queue_pending_threshold = 200;
}

-- The column `status` holds 0, 1, 2 or 3, in this order.
pub data Status : Type 0 where
  pending delivered dead relay_wait : Status

-- A row of `delivery_jobs`; `struct Job` is the part of it that the worker reads.
pub record Job : Type 0 where
  pub id : String
  pub created_at_ms : ℕ
  pub next_attempt_at_ms : ℕ
  pub attempt : ℕ  -- u32
  pub status : Status
  pub target : String
  pub activity_json : List ℕ
  pub key_id : Option String
  pub activity_id : Option String
  pub last_error : Option String

abbrev pub is_pending : Job → Bool
is_pending j = elim j.status [ pending ↦ true | _ ↦ Bool.false ]

abbrev pub is_delivered : Job → Bool
is_delivered j = elim j.status [ delivered ↦ true | _ ↦ Bool.false ]

abbrev pub is_dead : Job → Bool
is_dead j = elim j.status [ dead ↦ true | _ ↦ Bool.false ]

abbrev pub is_relay_wait : Job → Bool
is_relay_wait j = elim j.status [ relay_wait ↦ true | _ ↦ Bool.false ]

-- `status IN (1, 2)`.
abbrev pub is_history : Job → Bool
is_history j = elim j.status [ delivered ↦ true | dead ↦ true | _ ↦ Bool.false ]
