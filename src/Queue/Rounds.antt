-- ===== src/Queue/Rounds.antt =====
-- One round of the worker, `run_loop` of crates/fedi3_core/src/delivery_queue.rs: the cleanup that is
-- due, the fetch, the triage of the jobs into groups of one HTTP delivery each and jobs for the
-- handling one by one, and both. What the network answers is an argument, by job; the order in which
-- the map of the groups is gone through is one too, and so is the moment of a shutdown.
pub mod Triage
pub mod Effects
pub mod Starving
mod Examples
use Prim.Native.String.{◌++◌ as join}
use fedi.Base.{
  string_eq, ℕ, ◌-◌, ◌*◌, Bool, true, false, not, ◌&&◌, Option, none, some, List, [], ◌∷◌, ◌++◌,
  map, String, str_eq, ltb, leb, if◌then◌else◌, take, Eq, length, ◌==◌,
}
use fedi.Text.{codes, contains}
use fedi.HashMap.{lookup, insert}
use fedi.Rows.{OrderBy}
use fedi.Queue.{Job, QueueSettings, is_relay_wait}
use fedi.Queue.Store.{mark_dead, fetch_due_jobs, cleanup_history}
use fedi.Queue.Failover.{QueueState}
use fedi.Queue.Process.{Env, is_gone, process_one, process_group_http, with_jobs}

pub record ActorInfo : Type 0 where
  pub inbox : String
  pub p2p_peer_id : Option String

pub data Resolution : Type 0 where
  resolved_to : ActorInfo → Resolution
  errored : (err : String) → Resolution

abbrev pub ActorCache : Type 0
ActorCache = List (String × ActorInfo)

-- The answers of a round. A job makes one lookup of its actor at most that is not in the cache.
pub record Network : Type 0 where
  pub resolve_actor_info_signed : Job → Resolution
  pub resolve_actor_info : Job → Resolution
  pub short_body_hash : List ℕ → String
  -- The delivery of a group: the text of the error, if it fails.
  pub deliver_group : (key_id inbox_url body_hash : String) → Option String
  pub env_of : Job → Env
  pub is_shutdown : Job → Bool
  pub is_shutdown_passthrough : Job → Bool
  pub is_shutdown_groups : (key_id inbox_url body_hash : String) → Bool

abbrev pub plain_unless_gone : (err : String) → Resolution → Resolution
plain_unless_gone err plain = if is_gone err then errored err else plain

abbrev pub or_plain : Resolution → Resolution → Resolution
or_plain (resolved_to info) plain = resolved_to info
or_plain (errored err) plain = plain_unless_gone err plain

abbrev pub cached_as : String → ActorCache → Resolution → Resolution × ActorCache
cached_as actor_url cache (resolved_to info) = (resolved_to info, insert actor_url info cache)
cached_as actor_url cache (errored err) = (errored err, cache)

abbrev pub unless_cached :
    String → ActorCache → Option ActorInfo → Resolution → Resolution × ActorCache
unless_cached actor_url cache (some info) asked = (resolved_to info, cache)
unless_cached actor_url cache none asked = cached_as actor_url cache asked

unfoldable pub resolve_actor_cached : Network → Job → ActorCache → Resolution × ActorCache
unfolding lookup
resolve_actor_cached net job cache =
    unless_cached job.target cache (lookup job.target cache)
      (or_plain (net.resolve_actor_info_signed job) (net.resolve_actor_info job))

-- The jobs of one delivery.
pub record Group : Type 0 where
  pub key_id : String
  pub inbox_url : String
  pub body_hash : String
  pub jobs : List Job

pub record TriageState : Type 0 where
  pub actor_cache : ActorCache
  pub groups : List Group
  pub passthrough : List Job
  pub rows : List Job

abbrev pub or_key : (key_id : String) → Option String → String
or_key key_id none = key_id
or_key key_id (some k) = k

abbrev pub is_group : (key_id inbox_url body_hash : String) → Group → Bool
is_group key_id inbox_url body_hash g =
    str_eq g.key_id key_id && str_eq g.inbox_url inbox_url && str_eq g.body_hash body_hash

-- `groups.entry(…).or_default().push(job)`.
unfoldable pub push_job : (key_id inbox_url body_hash : String) → Job → List Group → List Group
push_job key_id inbox_url body_hash job [] =
    record { key_id = key_id; inbox_url = inbox_url; body_hash = body_hash; jobs = job ∷ [] } ∷ []
push_job key_id inbox_url body_hash job (g ∷ gs) =
    let rest = push_job key_id inbox_url body_hash job gs in
    if is_group key_id inbox_url body_hash g
    then record g { jobs = g.jobs ++ (job ∷ []) } ∷ gs
    else g ∷ rest

module _ (net : Network) (key_id : String) where
  abbrev pub grouped : (inbox_url : String) → Job → TriageState → TriageState
  grouped inbox_url job t = record t {
    groups =
        push_job (or_key key_id job.key_id) inbox_url (net.short_body_hash job.activity_json) job
          t.groups;
  }

  -- An error that says that the actor is gone ends the job; with any other the job is left out.
  abbrev pub not_resolved : (err : String) → Job → TriageState → TriageState
  not_resolved err job t =
      if is_gone err
      then record t { rows = mark_dead job.id "peer deleted or unreachable" t.rows }
      else t

  -- A job that waits for the relay is delivered over HTTP even if its actor has a peer.
  abbrev pub placed :
      (is_waiting : Bool) → ActorInfo → Option String → Job → TriageState → TriageState
  placed is_waiting info none job t = grouped info.inbox job t
  placed is_waiting info (some peer) job t =
      if is_waiting
      then grouped info.inbox job t
      else record t { passthrough = t.passthrough ++ (job ∷ []) }

  abbrev pub placed_by : Resolution → Job → TriageState → TriageState
  placed_by (resolved_to info) job t = placed (is_relay_wait job) info info.p2p_peer_id job t
  placed_by (errored err) job t = not_resolved err job t

  unfoldable pub triage_one : Job → TriageState → TriageState
  unfolding resolve_actor_cached push_job mark_dead
  triage_one job t =
      if contains (codes job.target) (codes "/inbox")
      then grouped job.target job t
      else let r = resolve_actor_cached net job t.actor_cache in
        placed_by r.0 job (record t { actor_cache = r.1 })

  -- The loop over the fetched jobs; a shutdown breaks it.
  unfoldable pub triage : List Job → TriageState → TriageState
  unfolding triage_one
  triage [] t = t
  triage (job ∷ jobs) t =
      let rest = triage jobs (triage_one job t) in if net.is_shutdown job then t else rest

  module _ (settings : QueueSettings) where
    unfoldable pub process_groups : List Group → QueueState → QueueState
    unfolding process_group_http
    process_groups [] st = st
    process_groups (g ∷ gs) st =
        let rest = process_groups gs (
          process_group_http settings (net.deliver_group g.key_id g.inbox_url g.body_hash)
            (map (λ j. (j, net.env_of j)) g.jobs) st) in
        if net.is_shutdown_groups g.key_id g.inbox_url g.body_hash then st else rest

    unfoldable pub process_passthrough : List Job → QueueState → QueueState
    unfolding process_one
    process_passthrough [] st = st
    process_passthrough (job ∷ jobs) st =
        let rest = process_passthrough jobs (process_one settings (net.env_of job) job st).0 in
        if net.is_shutdown_passthrough job then st else rest

-- The worker: the shared state and the time of the last cleanup.
pub record Worker : Type 0 where
  pub queue : QueueState
  pub last_cleanup_ms : ℕ

-- The clock readings of a round.
pub record RoundClock : Type 0 where
  pub now : ℕ
  pub now_delivered : ℕ
  pub now_dead : ℕ
  pub now_fetch : ℕ

module _ (db : OrderBy Job) (order : List Group → List Group) (net : Network) (key_id : String)
    (settings : QueueSettings) where
  unfoldable pub cleanup_due : RoundClock → Worker → Worker
  unfolding cleanup_history
  cleanup_due clock w =
      if ltb 0 settings.cleanup_interval_secs
        && leb (settings.cleanup_interval_secs * 1000) (clock.now - w.last_cleanup_ms)
      then record {
        queue = with_jobs (cleanup_history db settings clock.now_delivered clock.now_dead) w.queue;
        last_cleanup_ms = clock.now;
      }
      else w

  abbrev pub triaged : List Job → QueueState → TriageState
  triaged jobs st =
      triage net key_id jobs
        (record { actor_cache = []; groups = []; passthrough = []; rows = st.jobs })

  unfoldable pub handle_jobs : List Job → QueueState → QueueState
  unfolding triage process_groups process_passthrough
  handle_jobs jobs st =
      let t = triaged jobs st in
      process_passthrough net key_id settings t.passthrough
        (process_groups net key_id settings (order t.groups) (record st { jobs = t.rows }))

  -- A round, and whether it waits for a tick, a notice or a shutdown at its end.
  unfoldable pub round : RoundClock → Worker → Worker × Bool
  unfolding cleanup_due fetch_due_jobs handle_jobs
  round clock w =
      let cleaned = cleanup_due clock w in
      let jobs = fetch_due_jobs db clock.now_fetch 40 cleaned.queue.jobs in
      if length jobs == 0
      then (cleaned, true)
      else (record cleaned { queue = handle_jobs jobs cleaned.queue }, false)
