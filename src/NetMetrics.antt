-- ===== src/NetMetrics.antt =====
-- The counters of crates/fedi3_core/src/net_metrics.rs. Each is an atomic `u64`; an operation here is
-- one call, with the clock reading as an argument. Counters that are only ever bumped and printed
-- like `auth_failures` are left out.
pub mod Averages
pub mod Peers
pub mod Failovers
mod Examples
use fedi.Base.{
  string_eq, ℕ, suc, ◌-◌, ◌*◌, ◌/◌, Bool, true, false, ◌||◌, Option, none, some, List, [], ◌∷◌,
  String, leb, ◌==◌, if◌then◌else◌, length, sat_add_u64, sat_mul_u64, wrap_add_u64,
}
use fedi.Text.{codes, contains, to_ascii_lowercase, trim}
use fedi.HashMap.{insert, retain}

-- A peer map holds when each peer was last seen.
abbrev pub Seen : Type 0
Seen = List (String × ℕ)

pub record NetMetrics : Type 0 where
  pub relay_connected : Bool
  pub relay_rx_bytes : ℕ
  pub relay_tx_bytes : ℕ
  pub relay_last_change_ms : ℕ
  pub relay_rtt_ema_ms : ℕ
  pub relay_handler_wait_ema_ms : ℕ
  pub relay_last_error : Option String
  pub p2p_active_peers : ℕ
  pub p2p_rtt_ema_ms : ℕ
  pub mailbox_active_peers : ℕ
  pub mailbox_rtt_ema_ms : ℕ
  pub webrtc_active_peers : ℕ
  pub http_timeouts : ℕ
  pub http_errors : ℕ
  pub transport_failover_total : ℕ
  pub transport_failover_timeout_total : ℕ
  pub transport_failover_rtt_total : ℕ
  pub transport_failover_queue_total : ℕ
  pub transport_failover_error_total : ℕ
  pub transport_recover_total : ℕ
  pub relay_preferred_active_peers : ℕ
  pub relay_preferred_until_ms : ℕ
  pub p2p_seen : Seen
  pub mailbox_seen : Seen
  pub webrtc_seen : Seen
  pub last_failover_reason : Option (List ℕ)

-- `NetMetrics::new`: all zero.
abbrev pub new : NetMetrics
new = record {
  relay_connected = false;
  relay_rx_bytes = 0;
  relay_tx_bytes = 0;
  relay_last_change_ms = 0;
  relay_rtt_ema_ms = 0;
  relay_handler_wait_ema_ms = 0;
  relay_last_error = none;
  p2p_active_peers = 0;
  p2p_rtt_ema_ms = 0;
  mailbox_active_peers = 0;
  mailbox_rtt_ema_ms = 0;
  webrtc_active_peers = 0;
  http_timeouts = 0;
  http_errors = 0;
  transport_failover_total = 0;
  transport_failover_timeout_total = 0;
  transport_failover_rtt_total = 0;
  transport_failover_queue_total = 0;
  transport_failover_error_total = 0;
  transport_recover_total = 0;
  relay_preferred_active_peers = 0;
  relay_preferred_until_ms = 0;
  p2p_seen = [];
  mailbox_seen = [];
  webrtc_seen = [];
  last_failover_reason = none;
}

unfoldable pub set_relay_connected : ℕ → Bool → NetMetrics → NetMetrics
set_relay_connected now v m = record m {
  relay_connected = v;
  relay_last_change_ms = now;
  relay_last_error = if v then none else m.relay_last_error;
}

unfoldable pub set_relay_error : ℕ → String → NetMetrics → NetMetrics
unfolding set_relay_connected
set_relay_error now err m =
    let m' = set_relay_connected now false m in record m' { relay_last_error = some err }

unfoldable pub relay_rx_add : ℕ → NetMetrics → NetMetrics
relay_rx_add n m = record m { relay_rx_bytes = wrap_add_u64 m.relay_rx_bytes n }

unfoldable pub relay_tx_add : ℕ → NetMetrics → NetMetrics
relay_tx_add n m = record m { relay_tx_bytes = wrap_add_u64 m.relay_tx_bytes n }

-- The new average that the six `…_update` methods store for a sample: 0 is no sample.
unfoldable pub ema : ℕ → ℕ → ℕ
ema prev ms =
    if ms == 0 then prev else if prev == 0 then ms else sat_add_u64 (sat_mul_u64 prev 7) ms / 8

unfoldable pub relay_rtt_update : ℕ → NetMetrics → NetMetrics
unfolding ema
relay_rtt_update ms m = record m { relay_rtt_ema_ms = ema m.relay_rtt_ema_ms ms }

unfoldable pub relay_handler_wait_update : ℕ → NetMetrics → NetMetrics
unfolding ema
relay_handler_wait_update ms m = record m {
  relay_handler_wait_ema_ms = ema m.relay_handler_wait_ema_ms ms;
}

unfoldable pub p2p_rtt_update : ℕ → NetMetrics → NetMetrics
unfolding ema
p2p_rtt_update ms m = record m { p2p_rtt_ema_ms = ema m.p2p_rtt_ema_ms ms }

unfoldable pub mailbox_rtt_update : ℕ → NetMetrics → NetMetrics
unfolding ema
mailbox_rtt_update ms m = record m { mailbox_rtt_ema_ms = ema m.mailbox_rtt_ema_ms ms }

unfoldable pub p2p_peer_seen : ℕ → String → NetMetrics → NetMetrics
p2p_peer_seen now peer_id m =
    let g = insert peer_id now m.p2p_seen in record m { p2p_seen = g; p2p_active_peers = length g }

unfoldable pub mailbox_peer_seen : ℕ → String → NetMetrics → NetMetrics
mailbox_peer_seen now peer_id m =
    let g = insert peer_id now m.mailbox_seen in
    record m { mailbox_seen = g; mailbox_active_peers = length g }

unfoldable pub webrtc_peer_seen : ℕ → String → NetMetrics → NetMetrics
webrtc_peer_seen now peer_id m =
    let g = insert peer_id now m.webrtc_seen in
    record m { webrtc_seen = g; webrtc_active_peers = length g }

unfoldable pub http_timeout : NetMetrics → NetMetrics
http_timeout m = record m { http_timeouts = wrap_add_u64 m.http_timeouts 1 }

unfoldable pub http_error : NetMetrics → NetMetrics
http_error m = record m { http_errors = wrap_add_u64 m.http_errors 1 }

-- Which counter a reason is charged to.
pub data FailoverClass : Type 0 where
  timeout rtt queue error : FailoverClass

unfoldable pub classify_reason : List ℕ → FailoverClass
classify_reason reason =
    if contains reason (codes "timeout")
    then timeout
    else if contains reason (codes "rtt") || contains reason (codes "latency")
    then rtt
    else if contains reason (codes "queue")
    then queue
    else error

unfoldable pub charge : FailoverClass → NetMetrics → NetMetrics
charge timeout m = record m {
  transport_failover_timeout_total = wrap_add_u64 m.transport_failover_timeout_total 1;
}
charge rtt m = record m {
  transport_failover_rtt_total = wrap_add_u64 m.transport_failover_rtt_total 1;
}
charge queue m = record m {
  transport_failover_queue_total = wrap_add_u64 m.transport_failover_queue_total 1;
}
charge error m = record m {
  transport_failover_error_total = wrap_add_u64 m.transport_failover_error_total 1;
}

unfoldable pub transport_failover : String → NetMetrics → NetMetrics
unfolding classify_reason charge
transport_failover reason m =
    let counted = record m {
      transport_failover_total = wrap_add_u64 m.transport_failover_total 1;
    } in
    let reason = to_ascii_lowercase (codes (trim reason)) in
    let charged = charge (classify_reason reason) counted in
    record charged { last_failover_reason = some reason }

unfoldable pub transport_recover : NetMetrics → NetMetrics
transport_recover m = record m {
  transport_recover_total = wrap_add_u64 m.transport_recover_total 1;
}

unfoldable pub set_relay_preferred_state : ℕ → ℕ → Option String → NetMetrics → NetMetrics
set_relay_preferred_state active_peers until_ms reason m = record m {
  relay_preferred_active_peers = active_peers;
  relay_preferred_until_ms = until_ms;
  last_failover_reason = elim reason [
    | none ↦ m.last_failover_reason
    | some r ↦ some (codes (trim r))
  ];
}

unfoldable pub prune_seen : ℕ → ℕ → NetMetrics → NetMetrics
prune_seen now window_ms m =
    let cutoff = now - window_ms in
    let p2p = retain (λ t. leb cutoff t) m.p2p_seen in
    let mailbox = retain (λ t. leb cutoff t) m.mailbox_seen in
    let webrtc = retain (λ t. leb cutoff t) m.webrtc_seen in
    record m {
      p2p_seen = p2p;
      p2p_active_peers = length p2p;
      mailbox_seen = mailbox;
      mailbox_active_peers = length mailbox;
      webrtc_seen = webrtc;
      webrtc_active_peers = length webrtc;
    }
