-- ===== src/Queue/Failover.antt =====
-- The choice between direct and relayed delivery in crates/fedi3_core/src/delivery_queue.rs: for
-- each peer the map `failover` holds until when the relay is preferred.
pub mod Preference
use fedi.Base.{
  string_eq, ℕ, ◌+◌, ◌-◌, ◌*◌, max, Bool, true, false, ◌&&◌, Option, none, some, List, [], ◌∷◌,
  String, ltb, leb, if◌then◌else◌, sat_add_i64, sat_add_u32,
}
use fedi.HashMap.{lookup, insert}
use fedi.NetMetrics.{NetMetrics, set_relay_preferred_state, transport_failover, transport_recover}
use fedi.Queue.{Job, QueueSettings}
use fedi.Queue.Store.{stats}

pub record PeerFailoverState : Type 0 where
  pub relay_preferred_until_ms : ℕ
  pub last_failover_reason : Option String
  pub consecutive_failures : ℕ  -- u32
  pub last_success_ms : ℕ
  pub last_probe_ms : ℕ

abbrev pub default_state : PeerFailoverState
default_state = record {
  relay_preferred_until_ms = 0;
  last_failover_reason = none;
  consecutive_failures = 0;
  last_success_ms = 0;
  last_probe_ms = 0;
}

abbrev pub FailoverMap : Type 0
FailoverMap = List (String × PeerFailoverState)

-- What the worker's calls change: the table, the failover map and the metrics.
pub record QueueState : Type 0 where
  pub jobs : List Job
  pub failover : FailoverMap
  pub net : NetMetrics

unfoldable pub active_at : ℕ → FailoverMap → ℕ
active_at now [] = 0
active_at now ((peer, v) ∷ m) =
    (if ltb now v.relay_preferred_until_ms then 1 else 0) + active_at now m

unfoldable pub max_until : FailoverMap → ℕ
max_until [] = 0
max_until ((peer, v) ∷ m) = max v.relay_preferred_until_ms (max_until m)

abbrev pub or_default : Option PeerFailoverState → PeerFailoverState
or_default none = default_state
or_default (some v) = v

-- `is_preferred` is the last expression of `should_prefer_relay`.
unfoldable pub is_preferred : ℕ → String → FailoverMap → Bool
is_preferred now peer_id m = elim (lookup peer_id m) [
  | none ↦ false
  | some s ↦ ltb now s.relay_preferred_until_ms
]

-- The entry of a peer after an activation.
unfoldable pub activated : QueueSettings → ℕ → String → PeerFailoverState → PeerFailoverState
activated settings now reason entry = record entry {
  relay_preferred_until_ms = sat_add_i64 now (settings.p2p_transport_hysteresis_secs * 1000);
  last_failover_reason = some reason;
  consecutive_failures = sat_add_u32 entry.consecutive_failures 1;
  last_probe_ms =
      if ltb (settings.p2p_recover_probe_window_secs * 1000) (now - entry.last_probe_ms)
      then now
      else entry.last_probe_ms;
}

unfoldable pub activate_relay_preferred :
    QueueSettings → ℕ → String → String → QueueState → QueueState
unfolding activated
activate_relay_preferred settings now peer_id reason st =
    let entry = activated settings now reason (or_default (lookup peer_id st.failover)) in
    let m = insert peer_id entry st.failover in
    let net = set_relay_preferred_state (active_at now m) (max_until m) (some reason) st.net in
    record st { failover = m; net = transport_failover reason net }

-- The entry of a peer, if it has one, after a direct delivery.
unfoldable pub succeeded : ℕ → String → FailoverMap → FailoverMap
succeeded now peer_id m = elim (lookup peer_id m) [
  | none ↦ m
  | some entry ↦
      insert peer_id
        (record entry {
          relay_preferred_until_ms = 0;
          last_success_ms = now;
          consecutive_failures = 0;
        })
        m
]

unfoldable pub note_direct_success : ℕ → String → QueueState → QueueState
unfolding succeeded
note_direct_success now peer_id st =
    let did_recover = is_preferred now peer_id st.failover in
    let m = succeeded now peer_id st.failover in
    let net = set_relay_preferred_state (active_at now m) (max_until m) none st.net in
    record st { failover = m; net = if did_recover then transport_recover net else net }

-- The clock readings of one `should_prefer_relay`: at its start, and in each activation.
pub record FailoverClock : Type 0 where
  pub start : ℕ
  pub at_rtt : ℕ
  pub at_wait : ℕ
  pub at_pressure : ℕ

unfoldable pub check_rtt : QueueSettings → ℕ → String → QueueState → QueueState
check_rtt settings now peer_id st =
    if ltb settings.p2p_latency_slo_p95_ms st.net.p2p_rtt_ema_ms
    then activate_relay_preferred settings now peer_id "p2p_rtt_over_slo" st
    else st

unfoldable pub check_handler_wait : QueueSettings → ℕ → String → QueueState → QueueState
check_handler_wait settings now peer_id st =
    if ltb settings.p2p_latency_slo_p95_ms st.net.relay_handler_wait_ema_ms
    then activate_relay_preferred settings now peer_id "handler_wait_over_slo" st
    else st

unfoldable pub is_pressed : QueueSettings → QueueState → Bool
is_pressed settings st =
    ltb 0 settings.p2p_failover_queue_pending_threshold
    && leb settings.p2p_failover_queue_pending_threshold (stats st.jobs).pending

unfoldable pub check_pressure : QueueSettings → ℕ → String → QueueState → QueueState
unfolding is_pressed
check_pressure settings now peer_id st =
    if is_pressed settings st
    then activate_relay_preferred settings now peer_id "queue_pressure" st
    else st

unfoldable pub should_prefer_relay :
    QueueSettings → FailoverClock → String → QueueState → QueueState × Bool
should_prefer_relay settings clock peer_id st =
    let a = check_rtt settings clock.at_rtt peer_id st in
    let b = check_handler_wait settings clock.at_wait peer_id a in
    let c = check_pressure settings clock.at_pressure peer_id b in
    (c, is_preferred clock.start peer_id c.failover)
