-- ===== src/Queue/Rounds/Examples.antt =====
-- Runs of a round, and the theorems at concrete inputs.
use mathlib.Core.List.Perm
use fedi.Base.{
  string_eq, ℕ, ◌+◌, ◌≤◌, ◌≡◌, refl, true, false, none, some, List, [], ◌∷◌, map, str_eq,
  count_where, if◌then◌else◌,
}
use fedi.Text.{contains}
use fedi.HashMap.{insert}
use fedi.Rows.{select_oldest}
use fedi.Rows.Insertion.{stable, sort_by}
use fedi.NetMetrics.{new}
use fedi.Queue.{Job, QueueSettings, default_settings}
use fedi.Queue.Store.{new_job, fetch_due_jobs}
use fedi.Queue.Store.Updates.{job_with}
use fedi.Queue.Process.{Env, failed, is_gone}
use fedi.Queue.Rounds.{
  resolved_to, errored, Network, TriageState, triage, Worker, RoundClock, cleanup_due, round,
}
use fedi.Queue.Rounds.Triage.{placed_count, AreMatching, triage_places, triage-AreMatching}
use fedi.Queue.Rounds.Effects.{is_row, round_frame}
use fedi.Queue.Rounds.Starving.{run_loop, AllStuck, run_loop_starves}

abbrev body : List ℕ
body = 123 ∷ 125 ∷ []

abbrev to_bob : Job
to_bob = new_job 1000 body "act-1" none ("a", "https://x.example/users/bob")

abbrev to_ann : Job
to_ann = new_job 1000 body "act-1" none ("b", "https://x.example/users/ann")

abbrev to_inbox : Job
to_inbox = new_job 1000 body "act-1" none ("c", "https://x.example/inbox")

abbrev to_peer : Job
to_peer = new_job 1000 body "act-1" none ("d", "https://y.example/users/eve")

abbrev jobs : List Job
jobs = to_bob ∷ to_ann ∷ to_inbox ∷ to_peer ∷ []

abbrev env : Env
env = record {
  resolve_actor_info_signed = failed "dns error";
  resolve_actor_info = failed "dns error";
  failover_clock = record { start = 5000; at_rtt = 5001; at_wait = 5002; at_pressure = 5003 };
  deliver_json_webrtc = false;
  deliver_json_p2p = false;
  build_signed_post = true;
  store_in_mailboxes = false;
  deliver_json = none;
  now_failover = 5010;
  now_store = 5011;
  random = 65535;
}

-- Bob and Ann share an inbox, Eve has a peer.
abbrev net : Network
net = record {
  resolve_actor_info_signed = λ j.
      if str_eq j.id "d"
      then resolved_to (record { inbox = "https://y.example/inbox"; p2p_peer_id = some "peer-1" })
      else resolved_to (record { inbox = "https://x.example/inbox"; p2p_peer_id = none });
  resolve_actor_info = λ j. errored "dns error";
  short_body_hash = λ bytes. "h";
  deliver_group = λ k u h. none;
  env_of = λ j. env;
  is_shutdown = λ j. false;
  is_shutdown_passthrough = λ j. false;
  is_shutdown_groups = λ k u h. false;
}

abbrev start : TriageState
start = record { actor_cache = []; groups = []; passthrough = []; rows = jobs }

shares_inbox :
    let t = triage net "key" jobs start in
    (map (λ g. map (λ j. j.id) g.jobs) t.groups ≡ ("a" ∷ "b" ∷ "c" ∷ []) ∷ [])
    × (map (λ j. j.id) t.passthrough ≡ "d" ∷ [])
unfolding triage new_job contains insert
shares_inbox = (refl, refl)

triage_places_example :
    placed_count (λ j. str_eq j.id "a") (triage net "key" jobs start)
    ≤ placed_count (λ j. str_eq j.id "a") start + count_where (λ j. str_eq j.id "a") jobs
triage_places_example = triage_places net "key" (λ j. str_eq j.id "a") jobs start

triage-AreMatching_example : AreMatching net "key" (triage net "key" jobs start).groups
triage-AreMatching_example = triage-AreMatching net "key" jobs start tt

abbrev settings : QueueSettings
settings = record default_settings { cleanup_interval_secs = 0 }

abbrev later_job : Job
later_job = record (new_job 1000 body "act-1" none ("e", "https://x.example/inbox")) {
  next_attempt_at_ms = 9000;
}

abbrev worker : Worker
worker = record {
  queue = record { jobs = later_job ∷ jobs; failover = []; net = new };
  last_cleanup_ms = 0;
}

abbrev clock : RoundClock
clock = record { now = 5000; now_delivered = 5000; now_dead = 5000; now_fetch = 5000 }

not_fetched :
    count_where (is_row "e") (
      fetch_due_jobs stable 5000 40
        (cleanup_due stable (λ gs. gs) net "key" settings clock worker).queue.jobs)
    ≡ 0
unfolding fetch_due_jobs cleanup_due sort_by new_job select_oldest
not_fetched = refl

round_frame_example :
    job_with "e" (round stable (λ gs. gs) net "key" settings clock worker).0.queue.jobs
    ≡ job_with "e" (cleanup_due stable (λ gs. gs) net "key" settings clock worker).queue.jobs
round_frame_example =
    round_frame stable (λ gs. gs) (λ gs. Perm.refl gs) net "key" settings clock worker "e"
      not_fetched

abbrev down : Network
down = record net { resolve_actor_info_signed = λ j. errored "dns error" }

abbrev one_job : Worker
one_job = record worker { queue = record worker.queue { jobs = to_bob ∷ [] } }

one_stuck : AllStuck stable (λ gs. gs) "key" settings one_job (clock, down)
unfolding fetch_due_jobs cleanup_due sort_by new_job contains is_gone select_oldest
one_stuck = record { no_cleanup = refl; some_due = refl; all_stuck = (refl, tt) }

run_loop_starves_example :
    run_loop stable (λ gs. gs) "key" settings ((clock, down) ∷ (clock, down) ∷ []) one_job
    ≡ (one_job, 0)
run_loop_starves_example =
    run_loop_starves stable (λ gs. gs) "key" settings refl ((clock, down) ∷ (clock, down) ∷ [])
      one_job (one_stuck, (one_stuck, tt))
