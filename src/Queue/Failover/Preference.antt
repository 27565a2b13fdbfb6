-- ===== src/Queue/Failover/Preference.antt =====
-- When a peer's jobs go over the relay, and when they go back to the direct channels.
use fedi.Base.{
  string_eq, ℕ, ◌+◌, ◌*◌, ◌%◌, ◌≤◌, ◌<◌, ◌≡◌, refl, inl, inr, Bool, true, false, ◌||◌, String,
  arith, str_eq, eq_iff, ltb, if◌then◌else◌, i64_max, Bool-cases, Option-cases,
}
use fedi.HashMap.{lookup, insert, lookup-insert, lookup-insert_self}
use fedi.NetMetrics.{
  NetMetrics, set_relay_preferred_state, transport_failover, transport_recover, charge,
  FailoverClass,
}
use fedi.Queue.{QueueSettings}
use fedi.Queue.Failover.{
  QueueState, PeerFailoverState, FailoverMap, FailoverClock, activated, or_default, succeeded,
  is_preferred, activate_relay_preferred, note_direct_success, check_rtt, check_handler_wait,
  check_pressure, is_pressed, should_prefer_relay,
}

charge-handler_wait :
    (c : FailoverClass) (m : NetMetrics)
    → (charge c m).relay_handler_wait_ema_ms ≡ m.relay_handler_wait_ema_ms
unfolding charge
charge-handler_wait FailoverClass.timeout m = refl
charge-handler_wait FailoverClass.rtt m = refl
charge-handler_wait FailoverClass.queue m = refl
charge-handler_wait FailoverClass.error m = refl

is_preferred-insert :
    (t : ℕ) (peer_id other : String) (entry : PeerFailoverState) (m : FailoverMap)
    → is_preferred t other (insert peer_id entry m) ≡ (
        if str_eq peer_id other
        then ltb t entry.relay_preferred_until_ms
        else is_preferred t other m)
unfolding is_preferred
is_preferred-insert t peer_id other entry m = ground (arith, lookup-insert peer_id other entry m)

module _ (settings : QueueSettings) (now : ℕ) (peer_id reason : String) (st : QueueState) where
  -- The relay is preferred for the peer until the hysteresis is over, and nothing changes for the
  -- others.
  activate-is_preferred :
      (t : ℕ) (other : String)
      → now + settings.p2p_transport_hysteresis_secs * 1000 ≤ i64_max
      → is_preferred t other (activate_relay_preferred settings now peer_id reason st).failover ≡ (
          if str_eq peer_id other
          then ltb t (now + settings.p2p_transport_hysteresis_secs * 1000)
          else is_preferred t other st.failover)
  unfolding activate_relay_preferred
  activate-is_preferred t other fits = ground (
    arith,
    is_preferred-insert t peer_id other
        (activated settings now reason (or_default (lookup peer_id st.failover))) st.failover,
  )

  activate-handler_wait :
      (activate_relay_preferred settings now peer_id reason st).net.relay_handler_wait_ema_ms
      ≡ st.net.relay_handler_wait_ema_ms
  unfolding activate_relay_preferred set_relay_preferred_state transport_failover
  activate-handler_wait = charge-handler_wait _ _

  activate-jobs : (activate_relay_preferred settings now peer_id reason st).jobs ≡ st.jobs
  unfolding activate_relay_preferred
  activate-jobs = refl

succeeded-is_preferred :
    (now t : ℕ) (peer_id : String) (m : FailoverMap)
    → is_preferred t peer_id (succeeded now peer_id m) ≡ false
unfolding succeeded is_preferred
succeeded-is_preferred now t peer_id m = elim (Option-cases (lookup peer_id m)) [
  | inl e ↦ rw (e, succeeded) (rw (e, is_preferred))
  | inr (entry, e) ↦
      rw (e, succeeded) (rw (lookup-insert_self peer_id _ m, is_preferred) (ground arith))
]

-- After a direct delivery the relay is preferred for the peer at no time, and the counter of
-- recoveries, a u64, rises by one modulo 2 ^ 64 if the relay was preferred for the peer before, and
-- stays as it is if not.
note_direct_success_ends :
    (now t : ℕ) (peer_id : String) (st : QueueState)
    → st.net.transport_recover_total < 18446744073709551616
    → (is_preferred t peer_id (note_direct_success now peer_id st).failover ≡ false)
      × ((note_direct_success now peer_id st).net.transport_recover_total
          ≡ (st.net.transport_recover_total
              + (if is_preferred now peer_id st.failover then 1 else 0))
            % 18446744073709551616)
unfolding note_direct_success set_relay_preferred_state transport_recover
note_direct_success_ends now t peer_id st word = (
  succeeded-is_preferred now t peer_id st.failover,
  elim (Bool-cases (is_preferred now peer_id st.failover)) [
    | inl e ↦ rw e
    | inr e ↦ rw e (omega arith)
  ],
)

-- What makes the worker turn to the relay.
abbrev pub is_under_pressure : QueueSettings → QueueState → Bool
is_under_pressure settings st =
    ltb settings.p2p_latency_slo_p95_ms st.net.p2p_rtt_ema_ms
    || ltb settings.p2p_latency_slo_p95_ms st.net.relay_handler_wait_ema_ms
    || is_pressed settings st

module _ (settings : QueueSettings) (clock : FailoverClock) (peer_id : String)
    (st : QueueState) where
  -- With neither the round trip nor the handler wait over the target nor the queue at its
  -- threshold, should_prefer_relay changes nothing and answers what the failover map says.
  should_prefer_relay_calm :
      is_under_pressure settings st ≡ false
      → should_prefer_relay settings clock peer_id st
        ≡ (st, is_preferred clock.start peer_id st.failover)
  unfolding should_prefer_relay check_rtt check_handler_wait check_pressure
  should_prefer_relay_calm calm = ground arith

  -- If the direct round trip or the handler wait is over the target, or the queue has reached its
  -- threshold, and the hysteresis is positive, the clock does not go back and no sum overflows, the
  -- relay is preferred at once.
  pub should_prefer_relay_pressed :
      is_under_pressure settings st ≡ true
      → 0 < settings.p2p_transport_hysteresis_secs
      → (clock.start ≤ clock.at_rtt)
        × (clock.start ≤ clock.at_wait)
        × (clock.start ≤ clock.at_pressure)
      → (clock.at_rtt + settings.p2p_transport_hysteresis_secs * 1000 ≤ i64_max)
        × (clock.at_wait + settings.p2p_transport_hysteresis_secs * 1000 ≤ i64_max)
        × (clock.at_pressure + settings.p2p_transport_hysteresis_secs * 1000 ≤ i64_max)
      → (should_prefer_relay settings clock peer_id st).1 ≡ true
  unfolding should_prefer_relay check_rtt check_handler_wait check_pressure is_pressed
  should_prefer_relay_pressed pressed hyst forward fits =
      let a = check_rtt settings clock.at_rtt peer_id st in
      let b = check_handler_wait settings clock.at_wait peer_id a in
      ground (
        arith,
        eq_iff peer_id peer_id,
        activate-is_preferred settings clock.at_rtt peer_id "p2p_rtt_over_slo" st clock.start
            peer_id fits.0,
        activate-is_preferred settings clock.at_wait peer_id "handler_wait_over_slo" a clock.start
            peer_id fits.1,
        activate-is_preferred settings clock.at_pressure peer_id "queue_pressure" b clock.start
            peer_id fits.2,
        activate-handler_wait settings clock.at_rtt peer_id "p2p_rtt_over_slo" st,
        activate-jobs settings clock.at_rtt peer_id "p2p_rtt_over_slo" st,
        activate-jobs settings clock.at_wait peer_id "handler_wait_over_slo" a,
      )
