-- ===== src/Forward.antt =====
-- The relay's guards on requests for a user, crates/fedi3_relay/src/main.rs: the circuit breaker of
-- forwarding, the caches of refused requests and the windows that drop duplicates. The maps stand
-- behind one mutex each; an operation here is one call, with the clock reading as an argument.
pub mod Routes
pub mod Circuit
pub mod Caches
pub mod Offline
mod Examples
use fedi.Base.{ℕ, Bool, List, String}

pub data ForwardCircuitState : Type 0 where
  closed_circuit : ForwardCircuitState
  open_circuit : ForwardCircuitState
  half_open_circuit : ForwardCircuitState

pub record ForwardRetryBudget : Type 0 where
  pub state : ForwardCircuitState
  pub opened_at_ms : ℕ
  pub cooldown_until_ms : ℕ
  pub consecutive_failures : ℕ
  pub half_open_probe_in_flight : Bool

-- The settings that the guards read. The code clamps each to positive values at the start, but for
-- the two windows, which may be 0.
pub record RelayConfig : Type 0 where
  pub forward_circuit_failures_to_open : ℕ
  pub forward_dedupe_window_ms : ℕ
  pub forward_retry_budget_window_ms : ℕ
  pub forward_retry_cooldown_ms : ℕ
  pub ap_inbound_dedupe_window_ms : ℕ
  pub offline_cache_ttl_internal_ms : ℕ
  pub offline_cache_ttl_actor_ms : ℕ
  pub offline_cache_ttl_collection_ms : ℕ
  pub tunnel_unknown_user_cache_secs : ℕ
  pub tunnel_unknown_user_quarantine_secs : ℕ

-- A map from keys to times in ms.
abbrev pub Times : Type 0
Times = List (String × ℕ)

-- The part of `AppState` that the guards share.
pub record AppState : Type 0 where
  pub forward_retry_budget : List (String × ForwardRetryBudget)
  pub tunnel_negative_cache : Times
  pub tunnel_unknown_user_cache : Times
  pub tunnel_unknown_ip_quarantine : Times
  pub recent_forward_requests : Times
  pub inbound_ap_dedupe : Times
  pub relay_negative_cache_hits : ℕ
  pub relay_circuit_state_transitions : ℕ
  pub relay_retry_budget_drops : ℕ
  pub relay_retry_probe_attempts : ℕ
  pub relay_duplicate_request_drops : ℕ
