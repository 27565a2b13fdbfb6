-- ===== src/NetMetrics/Peers.antt =====
-- The sets of active peers in crates/fedi3_core/src/net_metrics.rs.
use fedi.Base.{string_eq, ℕ, ◌-◌, ◌≡◌, String, arith, if◌then◌else◌, length, leb, none, some}
use fedi.HashMap.{
  lookup, insert, IsUnique, lookup-retain, lookup-insert_self, insert-IsUnique, retain-IsUnique,
}
use fedi.NetMetrics.{NetMetrics, p2p_peer_seen, mailbox_peer_seen, webrtc_peer_seen, prune_seen}

-- The gauges show the sizes of the maps, and no map holds a peer twice.
pub record IsConsistent (m : NetMetrics) : Type 0 where
  pub p2p_gauge : m.p2p_active_peers ≡ length m.p2p_seen
  pub mailbox_gauge : m.mailbox_active_peers ≡ length m.mailbox_seen
  pub webrtc_gauge : m.webrtc_active_peers ≡ length m.webrtc_seen
  pub p2p_unique : IsUnique m.p2p_seen
  pub mailbox_unique : IsUnique m.mailbox_seen
  pub webrtc_unique : IsUnique m.webrtc_seen

-- Noting a peer in any of the three maps, and pruning them, keeps each gauge equal to the size of
-- its map and the peers of each map distinct.
pub seen-IsConsistent :
    (now window_ms : ℕ) (peer_id : String) (m : NetMetrics)
    → IsConsistent m
    → IsConsistent (p2p_peer_seen now peer_id m)
      × IsConsistent (mailbox_peer_seen now peer_id m)
      × IsConsistent (webrtc_peer_seen now peer_id m)
      × IsConsistent (prune_seen now window_ms m)
unfolding p2p_peer_seen mailbox_peer_seen webrtc_peer_seen prune_seen
seen-IsConsistent now window_ms peer_id m c = ground (
  arith,
  insert-IsUnique peer_id now m.p2p_seen c.p2p_unique,
  insert-IsUnique peer_id now m.mailbox_seen c.mailbox_unique,
  insert-IsUnique peer_id now m.webrtc_seen c.webrtc_unique,
  retain-IsUnique (λ t. leb (now - window_ms) t) m.p2p_seen c.p2p_unique,
  retain-IsUnique (λ t. leb (now - window_ms) t) m.mailbox_seen c.mailbox_unique,
  retain-IsUnique (λ t. leb (now - window_ms) t) m.webrtc_seen c.webrtc_unique,
)

-- In consistent metrics a direct peer noted at one time is still in the map after a prune exactly
-- if that time is not before the cutoff of the prune, with the time kept.
prune_seen-lookup :
    (seen now window_ms : ℕ) (peer_id : String) (m : NetMetrics)
    → IsConsistent m
    → lookup peer_id (prune_seen now window_ms (p2p_peer_seen seen peer_id m)).p2p_seen
      ≡ (if leb (now - window_ms) seen then some seen else none)
unfolding prune_seen p2p_peer_seen
prune_seen-lookup seen now window_ms peer_id m c = ground (
  arith,
  lookup-retain (λ t. leb (now - window_ms) t) peer_id (insert peer_id seen m.p2p_seen)
      (insert-IsUnique peer_id seen m.p2p_seen c.p2p_unique),
  lookup-insert_self peer_id seen m.p2p_seen,
)
