-- ===== src/Queue/Process.antt =====
-- The handling of one job by the worker of crates/fedi3_core/src/delivery_queue.rs. What the
-- network answers is an argument, since `Delivery` talks to other hosts: `Env` holds the answers
-- to the calls that one handling can make, with the clock readings and the random numbers.
-- A call that is not made has its answer ignored. Keys, bodies and logs only leave the program.
pub mod Outcome
pub mod Progress
pub mod Group
pub mod Settled
pub mod Steps
pub mod Picked
use fedi.Base.{
  ℕ, Bool, true, false, ◌&&◌, ◌||◌, Option, none, some, List, [], ◌∷◌, String, ltb, leb,
  if◌then◌else◌, sat_add_u32,
}
use fedi.Text.{codes, contains}
use fedi.Queue.{
  Job, QueueSettings, PostDeliveryMode, p2p_only, p2p_relay, relay_wait, is_relay_wait,
}
use fedi.Queue.Backoff.{next_backoff}
use fedi.Queue.Store.{mark_delivered, mark_dead, reschedule, schedule_relay_fallback}
use fedi.Queue.Failover.{
  QueueState, FailoverClock, should_prefer_relay, note_direct_success, activate_relay_preferred,
}

-- What a lookup of an actor yields: the peer id of its document, or the text of the error.
pub data Lookup : Type 0 where
  found : Option String → Lookup
  failed : String → Lookup

pub record Env : Type 0 where
  pub resolve_actor_info_signed : Lookup
  pub resolve_actor_info : Lookup
  pub failover_clock : FailoverClock
  pub deliver_json_webrtc : Bool
  pub deliver_json_p2p : Bool
  pub build_signed_post : Bool
  pub store_in_mailboxes : Bool
  pub deliver_json : Option String  -- the text of the error, if it fails
  pub now_failover : ℕ
  pub now_store : ℕ
  pub random : ℕ

-- The errors for which the job is given up at once.
unfoldable pub is_gone : String → Bool
is_gone err =
    contains (codes err) (codes "404")
    || contains (codes err) (codes "410")
    || contains (codes err) (codes "429")
    || contains (codes err) (codes "peer deleted")

pub data Target : Type 0 where
  reachable : Option String → Target
  gone : Target
  unresolved : String → Target

-- The plain lookup is made if the signed one fails.
abbrev pub first_found : Lookup → Lookup → Lookup
first_found (found p) plain = found p
first_found (failed e) plain = plain

unfoldable pub resolve_target : Env → Job → Target
unfolding is_gone
resolve_target env job =
    if contains (codes job.target) (codes "/inbox")
    then reachable none
    else elim (first_found env.resolve_actor_info_signed env.resolve_actor_info) [
      | found peer ↦ reachable peer
      | failed e ↦ if is_gone e then gone else unresolved e
    ]

abbrev pub with_jobs : (List Job → List Job) → QueueState → QueueState
with_jobs f st = record st { jobs = f st.jobs }

-- The end of a failed attempt: the job dies at the limit, and is tried again later below it.
unfoldable pub retry_or_die : QueueSettings → Env → Job → ℕ → String → QueueState → QueueState
retry_or_die settings env job attempt_no err = with_jobs (
    if leb settings.max_attempts attempt_no
    then mark_dead job.id err
    else reschedule env.now_store job.id attempt_no
        (next_backoff attempt_no settings.base_backoff_secs settings.max_backoff_secs env.random)
        err)

unfoldable pub deliver_via_relay : QueueSettings → Env → Job → ℕ → QueueState → QueueState
deliver_via_relay settings env job attempt_no st = elim env.deliver_json [
  | none ↦ with_jobs (mark_delivered job.id) st
  | some e ↦ retry_or_die settings env job attempt_no e st
]

-- After the direct channels and the mailboxes have failed.
unfoldable pub prefer_relay_after_failure : QueueSettings → Env → String → QueueState → QueueState
prefer_relay_after_failure settings env peer_id st =
    if settings.p2p_failover_aggressive
    then activate_relay_preferred settings env.now_failover peer_id "p2p delivery failed" st
    else st

unfoldable pub fall_back : QueueSettings → Env → Job → ℕ → QueueState → QueueState
fall_back settings env job attempt_no st = elim settings.post_delivery_mode [
  | p2p_only ↦ retry_or_die settings env job attempt_no "p2p delivery failed" st
  | p2p_relay ↦
      if ltb 0 settings.p2p_relay_fallback_secs
      then with_jobs
          (schedule_relay_fallback env.now_store job.id attempt_no settings.p2p_relay_fallback_secs
            "p2p delivery failed")
          st
      else deliver_via_relay settings env job attempt_no st
]

-- One of the direct channels took the job.
unfoldable pub is_taken_directly : QueueSettings → Env → Bool
is_taken_directly settings env =
    env.deliver_json_webrtc
    || env.deliver_json_p2p
    || ltb 0 settings.p2p_cache_ttl_secs && env.build_signed_post && env.store_in_mailboxes

-- WebRTC, then a direct stream, then the mailboxes. (A peer id is known only if the target is an
-- actor, so WebRTC is always tried first.)
unfoldable pub deliver_direct : QueueSettings → Env → Job → ℕ → String → QueueState → QueueState
unfolding is_taken_directly
deliver_direct settings env job attempt_no peer_id st =
    if is_taken_directly settings env
    then with_jobs (mark_delivered job.id) (note_direct_success env.now_failover peer_id st)
    else fall_back settings env job attempt_no (prefer_relay_after_failure settings env peer_id st)

unfoldable pub consult_failover : QueueSettings → Env → String → QueueState → QueueState × Bool
consult_failover settings env peer_id st =
    if settings.p2p_failover_aggressive
    then should_prefer_relay settings env.failover_clock peer_id st
    else (st, false)

unfoldable pub deliver_to_peer : QueueSettings → Env → Job → ℕ → String → QueueState → QueueState
deliver_to_peer settings env job attempt_no peer_id st =
    let (st', prefer) = consult_failover settings env peer_id st in
    if prefer
    then deliver_via_relay settings env job attempt_no st'
    else deliver_direct settings env job attempt_no peer_id st'

unfoldable pub deliver_without_peer : QueueSettings → Env → Job → ℕ → QueueState → QueueState
deliver_without_peer settings env job attempt_no st = elim settings.post_delivery_mode [
  | p2p_only ↦ retry_or_die settings env job attempt_no "p2p required: peer missing" st
  | p2p_relay ↦ deliver_via_relay settings env job attempt_no st
]

-- A job that waits for the relay goes there; any other tries its peer first, if there is one.
unfoldable pub process_reachable :
    QueueSettings → Env → Job → ℕ → Option String → QueueState → QueueState
process_reachable settings env job attempt_no peer st =
    if is_relay_wait job then deliver_via_relay settings env job attempt_no st else elim peer [
      | none ↦ deliver_without_peer settings env job attempt_no st
      | some peer_id ↦ deliver_to_peer settings env job attempt_no peer_id st
    ]

-- `process_one`: the state after it, and the error that it returns, if any.
unfoldable pub process_one : QueueSettings → Env → Job → QueueState → QueueState × Option String
process_one settings env job st =
    let attempt_no = sat_add_u32 job.attempt 1 in
    elim (resolve_target env job) [
      | gone ↦ (with_jobs (mark_dead job.id "peer deleted or unreachable") st, none)
      | unresolved e ↦ (st, some e)
      | reachable peer ↦ (process_reachable settings env job attempt_no peer st, none)
    ]

-- `process_group_http`: one delivery, with the given result, settles all jobs of the group. Each
-- job has its own clock reading and random number.
unfoldable pub settle_one : QueueSettings → Option String → Job → Env → QueueState → QueueState
settle_one settings result job env st = elim result [
  | none ↦ with_jobs (mark_delivered job.id) st
  | some e ↦ retry_or_die settings env job (sat_add_u32 job.attempt 1) e st
]

unfoldable pub process_group_http :
    QueueSettings → Option String → List (Job × Env) → QueueState → QueueState
unfolding settle_one
process_group_http settings result [] st = st
process_group_http settings result ((job, env) ∷ rest) st =
    process_group_http settings result rest (settle_one settings result job env st)
