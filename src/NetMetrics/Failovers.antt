-- ===== src/NetMetrics/Failovers.antt =====
-- The failover counters of crates/fedi3_core/src/net_metrics.rs.
use fedi.Base.{◌+◌, ◌%◌, ◌≡◌, String, arith}
use fedi.Text.{codes, trim, to_ascii_lowercase}
use fedi.NetMetrics.{NetMetrics, FailoverClass, classify_reason, charge, transport_failover}

-- The total is the sum of the four causes, in the counters' arithmetic.
abbrev pub Balanced : NetMetrics → Type 0
Balanced m =
    m.transport_failover_total
    ≡ (m.transport_failover_timeout_total + m.transport_failover_rtt_total
        + m.transport_failover_queue_total + m.transport_failover_error_total)
      % 18446744073709551616

charge-Balanced :
    (c : FailoverClass) (m : NetMetrics)
    → Balanced m
    → Balanced (
        charge c (record m {
          transport_failover_total = (m.transport_failover_total + 1) % 18446744073709551616;
        }))
unfolding charge
charge-Balanced FailoverClass.timeout m b = omega arith
charge-Balanced FailoverClass.rtt m b = omega arith
charge-Balanced FailoverClass.queue m b = omega arith
charge-Balanced FailoverClass.error m b = omega arith

-- Whatever its reason, a failover keeps the total equal, modulo 2 ^ 64, to the sum of the counters
-- of the four causes.
pub transport_failover-Balanced :
    (reason : String) (m : NetMetrics) → Balanced m → Balanced (transport_failover reason m)
unfolding transport_failover
transport_failover-Balanced reason m b =
    charge-Balanced (classify_reason (to_ascii_lowercase (codes (trim reason)))) m b
