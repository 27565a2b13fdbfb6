-- ===== src/Queue/Process/Outcome.antt =====
-- What one handling does to the rows: its own job ends in one of four ways, all others stay.
use fedi.Base.{
  ℕ, ◌<◌, ◌≡◌, ◌⊎◌, refl, true, false, Option, none, some, String, arith, str_eq, eq_iff, inl, inr,
  Option-cases, Bool-cases, ltb, sat_add_u32,
}
use fedi.Queue.{
  PostDeliveryMode, p2p_only, p2p_relay, Job, QueueSettings, delivered, dead, relay_wait,
  is_relay_wait,
}
use fedi.Queue.Store.Updates.{
  job_with, job_with-mark_delivered, job_with-mark_dead, job_with-reschedule,
  job_with-schedule_relay_fallback,
}
use fedi.Queue.Store.{mark_delivered, mark_dead, schedule_relay_fallback}
use fedi.Queue.Backoff.{next_backoff}
use fedi.Queue.Failover.{
  QueueState, FailoverClock, check_rtt, check_handler_wait, check_pressure, should_prefer_relay,
  note_direct_success, activate_relay_preferred,
}
use fedi.Queue.Process.{
  Env, process_one, retry_or_die, deliver_via_relay, fall_back, deliver_direct, deliver_to_peer,
  deliver_without_peer, prefer_relay_after_failure, consult_failover, is_taken_directly, with_jobs,
  resolve_target, process_reachable, Target, reachable, gone, unresolved,
}

-- The failover bookkeeping does not touch the table.
jobs-activate :
    (settings : QueueSettings) (now : ℕ) (peer_id reason : String) (st : QueueState)
    → (activate_relay_preferred settings now peer_id reason st).jobs ≡ st.jobs
unfolding activate_relay_preferred
jobs-activate settings now peer_id reason st = refl

jobs-note :
    (now : ℕ) (peer_id : String) (st : QueueState)
    → (note_direct_success now peer_id st).jobs ≡ st.jobs
unfolding note_direct_success
jobs-note now peer_id st = refl

jobs-should_prefer_relay :
    (settings : QueueSettings) (clock : FailoverClock) (peer_id : String) (st : QueueState)
    → (should_prefer_relay settings clock peer_id st).0.jobs ≡ st.jobs
unfolding should_prefer_relay check_rtt check_handler_wait check_pressure
jobs-should_prefer_relay settings clock peer_id st =
    let a = check_rtt settings clock.at_rtt peer_id st in
    let b = check_handler_wait settings clock.at_wait peer_id a in
    ground (
      arith,
      jobs-activate settings clock.at_rtt peer_id "p2p_rtt_over_slo" st,
      jobs-activate settings clock.at_wait peer_id "handler_wait_over_slo" a,
      jobs-activate settings clock.at_pressure peer_id "queue_pressure" b,
    )

jobs-prefer :
    (settings : QueueSettings) (env : Env) (peer_id : String) (st : QueueState)
    → (prefer_relay_after_failure settings env peer_id st).jobs ≡ st.jobs
unfolding prefer_relay_after_failure
jobs-prefer settings env peer_id st =
    ground (arith, jobs-activate settings env.now_failover peer_id "p2p delivery failed" st)

jobs-consult :
    (settings : QueueSettings) (env : Env) (peer_id : String) (st : QueueState)
    → (consult_failover settings env peer_id st).0.jobs ≡ st.jobs
unfolding consult_failover
jobs-consult settings env peer_id st =
    ground (arith, jobs-should_prefer_relay settings env.failover_clock peer_id st)

mode_cases : (m : PostDeliveryMode) → (m ≡ p2p_only) ⊎ (m ≡ p2p_relay)
mode_cases p2p_only = inl refl
mode_cases p2p_relay = inr refl

-- How a handling leaves its job: delivered, dead, to be tried again below the limit, or waiting
-- for the relay, which it did not do before.
abbrev pub Outcome : QueueSettings → ℕ → Job → Job → Type 0
Outcome settings attempt_no before after =
    (after.status ≡ delivered) × (after.last_error ≡ none)
    ⊎ (after.status ≡ dead)
    ⊎ (after.status ≡ before.status)
      × (after.attempt ≡ attempt_no)
      × (attempt_no < settings.max_attempts)
    ⊎ (is_relay_wait before ≡ false) × (after.status ≡ relay_wait) × (after.attempt ≡ attempt_no)

-- A row after a handling: it is there, with one of the four outcomes.
abbrev pub Ends : QueueSettings → ℕ → Job → Option Job → Type 0
Ends settings attempt_no job none = ⊥
Ends settings attempt_no job (some after) =
    (after.id ≡ job.id) × Outcome settings attempt_no job after

module _ (settings : QueueSettings) (env : Env) (job : Job) (attempt_no : ℕ) (key : String) where
  -- Either the row is not the job's and stays, or it is the job's and ends in one of the ways.
  abbrev Handles : (QueueState → QueueState) → Type 0
  Handles f =
      (st : QueueState)
      → (str_eq job.id key ≡ false → job_with key (f st).jobs ≡ job_with key st.jobs)
        × (str_eq job.id key ≡ true
            → job_with key st.jobs ≡ some job
            → Ends settings attempt_no job (job_with key (f st).jobs))

  retry_or_die-Handles : (err : String) → Handles (retry_or_die settings env job attempt_no err)
  unfolding retry_or_die
  retry_or_die-Handles err st = ground (
    arith,
    job_with-mark_dead key job.id st.jobs err,
    job_with-reschedule key job.id st.jobs env.now_store attempt_no
        (next_backoff attempt_no settings.base_backoff_secs settings.max_backoff_secs env.random)
        err,
  )

  mark_delivered-Handles : Handles (with_jobs (mark_delivered job.id))
  mark_delivered-Handles st = ground (arith, job_with-mark_delivered key job.id st.jobs)

  deliver_via_relay-Handles : Handles (deliver_via_relay settings env job attempt_no)
  unfolding deliver_via_relay
  deliver_via_relay-Handles st = elim (Option-cases env.deliver_json) [
    | inl e ↦ rw (e, deliver_via_relay) (mark_delivered-Handles st)
    | inr (err, e) ↦ rw (e, deliver_via_relay) (retry_or_die-Handles err st)
  ]

  schedule-Handles :
      (secs : ℕ) (err : String)
      → is_relay_wait job ≡ false
      → Handles (with_jobs (schedule_relay_fallback env.now_store job.id attempt_no secs err))
  schedule-Handles secs err fresh st =
      ground (
        arith,
        job_with-schedule_relay_fallback key job.id st.jobs env.now_store attempt_no secs err,
      )

  -- A step that leaves the table alone may come first.
  Handles-after :
      (f : QueueState → QueueState) (st st' : QueueState)
      → st'.jobs ≡ st.jobs
      → Handles f
      → (str_eq job.id key ≡ false → job_with key (f st').jobs ≡ job_with key st.jobs)
        × (str_eq job.id key ≡ true
            → job_with key st.jobs ≡ some job
            → Ends settings attempt_no job (job_with key (f st').jobs))
  Handles-after f st st' e h = rw (← e) (h st')

  fall_back-Handles : is_relay_wait job ≡ false → Handles (fall_back settings env job attempt_no)
  unfolding fall_back
  fall_back-Handles fresh st = elim (mode_cases settings.post_delivery_mode) [
    | inl e ↦ rw (e, fall_back) (retry_or_die-Handles "p2p delivery failed" st)
    | inr e ↦ elim (Bool-cases (ltb 0 settings.p2p_relay_fallback_secs)) [
      | inl f ↦
          rw (e, fall_back)
            (rw f
              (schedule-Handles settings.p2p_relay_fallback_secs "p2p delivery failed" fresh st))
      | inr f ↦ rw (e, fall_back) (rw f (deliver_via_relay-Handles st))
    ]
  ]

  deliver_direct-Handles :
      (peer_id : String)
      → is_relay_wait job ≡ false
      → Handles (deliver_direct settings env job attempt_no peer_id)
  unfolding deliver_direct
  deliver_direct-Handles peer_id fresh st = elim (Bool-cases (is_taken_directly settings env)) [
    | inl e ↦
        rw (e, deliver_direct)
          (Handles-after (with_jobs (mark_delivered job.id)) st
            (note_direct_success env.now_failover peer_id st)
            (jobs-note env.now_failover peer_id st) mark_delivered-Handles)
    | inr e ↦
        rw (e, deliver_direct)
          (Handles-after (fall_back settings env job attempt_no) st
            (prefer_relay_after_failure settings env peer_id st)
            (jobs-prefer settings env peer_id st) (fall_back-Handles fresh))
  ]

  deliver_to_peer-Handles :
      (peer_id : String)
      → is_relay_wait job ≡ false
      → Handles (deliver_to_peer settings env job attempt_no peer_id)
  unfolding deliver_to_peer
  deliver_to_peer-Handles peer_id fresh st =
      elim (Bool-cases (consult_failover settings env peer_id st).1) [
        | inl e ↦
            rw (e, deliver_to_peer)
              (Handles-after (deliver_via_relay settings env job attempt_no) st
                (consult_failover settings env peer_id st).0 (jobs-consult settings env peer_id st)
                deliver_via_relay-Handles)
        | inr e ↦
            rw (e, deliver_to_peer)
              (Handles-after (deliver_direct settings env job attempt_no peer_id) st
                (consult_failover settings env peer_id st).0 (jobs-consult settings env peer_id st)
                (deliver_direct-Handles peer_id fresh))
      ]

  deliver_without_peer-Handles : Handles (deliver_without_peer settings env job attempt_no)
  unfolding deliver_without_peer
  deliver_without_peer-Handles st = elim (mode_cases settings.post_delivery_mode) [
    | inl e ↦ rw (e, deliver_without_peer) (retry_or_die-Handles "p2p required: peer missing" st)
    | inr e ↦ rw (e, deliver_without_peer) (deliver_via_relay-Handles st)
  ]

  process_reachable-Handles :
      (peer : Option String) → Handles (λ st. process_reachable settings env job attempt_no peer st)
  unfolding process_reachable
  process_reachable-Handles peer st = elim (Bool-cases (is_relay_wait job)) [
    | inl e ↦ rw (e, process_reachable) (deliver_via_relay-Handles st)
    | inr e ↦ elim (Option-cases peer) [
      | inl f ↦ rw (f, process_reachable) (rw e (deliver_without_peer-Handles st))
      | inr (peer_id, f) ↦ rw (f, process_reachable) (rw e (deliver_to_peer-Handles peer_id e st))
    ]
  ]

  mark_dead-Handles : (err : String) → Handles (with_jobs (mark_dead job.id err))
  mark_dead-Handles err st = ground (arith, job_with-mark_dead key job.id st.jobs err)

target_cases :
    (t : Target)
    → (t ≡ gone)
      ⊎ ((peer : Option String) × (t ≡ reachable peer))
      ⊎ ((err : String) × (t ≡ unresolved err))
target_cases gone = inl refl
target_cases (reachable peer) = inr (inl (peer, refl))
target_cases (unresolved err) = inr (inr (err, refl))

module _ (settings : QueueSettings) (env : Env) (job : Job) (st : QueueState) where
  -- Handling one job leaves the row of every other id as it was.
  pub process_one_frame :
      (key : String)
      → str_eq job.id key ≡ false
      → job_with key (process_one settings env job st).0.jobs ≡ job_with key st.jobs
  unfolding process_one
  process_one_frame key other =
      let n = sat_add_u32 job.attempt 1 in
      elim (target_cases (resolve_target env job)) [
        | inl e ↦
            rw (e, process_one)
              ((mark_dead-Handles settings env job n key "peer deleted or unreachable" st).0 other)
        | inr (inl (peer, e)) ↦
            rw (e, process_one) ((process_reachable-Handles settings env job n key peer st).0 other)
        | inr (inr (err, e)) ↦ rw (e, process_one)
      ]

  -- If the row of the job is in the table as it was fetched and the handling returns no error, the
  -- row ends delivered with its error cleared, dead, to be tried again with the attempt counted
  -- below the limit and the status kept, or newly waiting for the relay with the attempt counted.
  pub process_one-Ends :
      job_with job.id st.jobs ≡ some job
      → (process_one settings env job st).1 ≡ none
      → Ends settings
          (sat_add_u32 job.attempt 1)
          job
          (job_with job.id (process_one settings env job st).0.jobs)
  unfolding process_one
  process_one-Ends current quiet =
      let n = sat_add_u32 job.attempt 1 in
      let self = (eq_iff job.id job.id).1 refl in
      elim (target_cases (resolve_target env job)) [
        | inl e ↦
            rw (e, process_one)
              ((mark_dead-Handles settings env job n job.id "peer deleted or unreachable" st).1 self
                current)
        | inr (inl (peer, e)) ↦
            rw (e, process_one)
              ((process_reachable-Handles settings env job n job.id peer st).1 self current)
        | inr (inr (err, e)) ↦ let h : some err ≡ none = rw (e, process_one) at quiet in cc
      ]
