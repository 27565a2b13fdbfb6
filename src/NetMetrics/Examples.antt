-- ===== src/NetMetrics/Examples.antt =====
-- Runs of the counters, and the theorems at concrete inputs.
use fedi.Base.{string_eq, ◌≤◌, ◌≡◌, refl, min, max, arith}
use fedi.Text.{contains, to_ascii_lowercase, trim}
use fedi.NetMetrics.{
  new, ema, p2p_peer_seen, mailbox_peer_seen, webrtc_peer_seen, prune_seen, transport_failover,
}
use fedi.NetMetrics.Averages.{ema_between}
use fedi.NetMetrics.Peers.{IsConsistent, seen-IsConsistent}

ema_between_example : (min 100 20 ≤ ema 100 20) × (ema 100 20 ≤ max 100 20)
ema_between_example = ema_between 100 20 (omega arith) (omega arith) (omega arith)

ema_run : ema 100 20 ≡ 90
unfolding ema
ema_run = refl

new-IsConsistent : IsConsistent new
new-IsConsistent = ground arith

seen-IsConsistent_example :
    IsConsistent (p2p_peer_seen 5000 "p" new)
    × IsConsistent (mailbox_peer_seen 5000 "p" new)
    × IsConsistent (webrtc_peer_seen 5000 "p" new)
    × IsConsistent (prune_seen 5000 60000 new)
seen-IsConsistent_example = seen-IsConsistent 5000 60000 "p" new new-IsConsistent

transport_failover_run :
    (transport_failover " Queue_pressure" new).transport_failover_queue_total ≡ 1
unfolding transport_failover contains to_ascii_lowercase trim
transport_failover_run = refl
