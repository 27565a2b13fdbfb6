-- ===== src/Queue/Rounds/Starving.antt =====
-- Rounds in which no fetched job can be resolved.
use fedi.Base.{
  string_eq, ℕ, ◌+◌, ◌≡◌, refl, ap, ◌∙◌, Bool, true, false, not, ◌&&◌, List, [], ◌∷◌, String, arith,
  ◌==◌, if◌then◌else◌, inl, inr, Bool-cases, length, All,
}
use fedi.Text.{codes, contains}
use fedi.HashMap.{lookup}
use fedi.Rows.{OrderBy}
use fedi.Queue.{Job, QueueSettings}
use fedi.Queue.Store.{fetch_due_jobs}
use fedi.Queue.Failover.{QueueState}
use fedi.Queue.Process.{is_gone}
use fedi.Queue.Rounds.{
  Resolution, resolved_to, errored, Network, Group, TriageState, or_plain, cached_as, placed_by,
  resolve_actor_cached, triage_one, triage, process_groups, process_passthrough, Worker, RoundClock,
  cleanup_due, handle_jobs, round,
}

abbrev pub is_other_error : Resolution → Bool
is_other_error (resolved_to info) = false
is_other_error (errored err) = not (is_gone err)

-- The job names an actor that cannot be looked up, for an error that does not say that it is gone.
abbrev pub is_stuck : Network → Job → Bool
is_stuck net job =
    not (contains (codes job.target) (codes "/inbox"))
    && is_other_error (or_plain (net.resolve_actor_info_signed job) (net.resolve_actor_info job))

-- The rounds one after the other, each with its clock and network, and how many of them waited.
unfoldable pub run_loop :
    OrderBy Job
    → (List Group → List Group)
    → String
    → QueueSettings
    → List (RoundClock × Network)
    → Worker
    → Worker × ℕ
unfolding round
run_loop db order key_id settings [] w = (w, 0)
run_loop db order key_id settings ((clock, net) ∷ rounds) w =
    let r = round db order net key_id settings clock w in
    let rest = run_loop db order key_id settings rounds r.0 in
    (rest.0, rest.1 + (if r.1 then 1 else 0))

module _ (key_id : String) (net : Network) where
  skipped :
      (r : Resolution) (job : Job) (t : TriageState)
      → is_other_error r ≡ true
      → placed_by net key_id r job t ≡ t
  skipped (resolved_to info) job t e = absurd (ground (arith, e))
  skipped (errored err) job t e = ground (arith, e)

  triage_one_stuck :
      (job : Job) (groups : List Group) (passthrough rows : List Job)
      → is_stuck net job ≡ true
      → let t : TriageState = record {
        actor_cache = [];
        groups = groups;
        passthrough = passthrough;
        rows = rows;
      } in
        triage_one net key_id job t ≡ t
  unfolding triage_one resolve_actor_cached lookup
  triage_one_stuck job groups passthrough rows e =
      let asked = or_plain (net.resolve_actor_info_signed job) (net.resolve_actor_info job) in
      let direct : contains (codes job.target) (codes "/inbox") ≡ false = ground (arith, e) in
      let failing : is_other_error asked ≡ true = ground (arith, e) in
      rw (direct) (of_answer asked failing)
    where
      of_answer :
          (r : Resolution)
          → is_other_error r ≡ true
          → placed_by net key_id (cached_as job.target [] r).0 job (record {
            actor_cache = (cached_as job.target [] r).1;
            groups = groups;
            passthrough = passthrough;
            rows = rows;
          })
            ≡ record { actor_cache = []; groups = groups; passthrough = passthrough; rows = rows }
      of_answer (resolved_to info) h = absurd (ground (arith, h))
      of_answer (errored err) h = skipped (errored err) job _ h

  triage_stuck :
      (jobs : List Job) (rows : List Job)
      → All (λ j. is_stuck net j ≡ true) jobs
      → let t : TriageState = record {
        actor_cache = [];
        groups = [];
        passthrough = [];
        rows = rows;
      } in
        triage net key_id jobs t ≡ t
  unfolding triage
  triage_stuck [] rows h = refl
  triage_stuck (job ∷ jobs) rows h = elim (Bool-cases (net.is_shutdown job)) [
    | inl s ↦ rw (s) refl
    | inr s ↦ rw (s) (
        ap (triage net key_id jobs) (triage_one_stuck job [] [] rows h.0)
        ∙ triage_stuck jobs rows h.1)
  ]

module _ (db : OrderBy Job) (order : List Group → List Group) (key_id : String)
    (settings : QueueSettings) where
  -- A cleanup is not due, there are due jobs, and all those fetched are stuck.
  pub record AllStuck (w : Worker) (r : RoundClock × Network) : Type 0 where
    pub no_cleanup : cleanup_due db order r.1 key_id settings r.0 w ≡ w
    pub some_due : (length (fetch_due_jobs db r.0.now_fetch 40 w.queue.jobs) == 0) ≡ false
    pub all_stuck :
        All (λ j. is_stuck r.1 j ≡ true) (fetch_due_jobs db r.0.now_fetch 40 w.queue.jobs)

  module _ (order-none : order [] ≡ []) where
    handle_jobs_stuck :
        (net : Network) (jobs : List Job) (st : QueueState)
        → All (λ j. is_stuck net j ≡ true) jobs
        → handle_jobs db order net key_id settings jobs st ≡ st
    unfolding handle_jobs process_groups process_passthrough
    handle_jobs_stuck net jobs st h = rw (triage_stuck key_id net jobs st.jobs h, order-none) refl

    round_stuck :
        (clock : RoundClock) (net : Network) (w : Worker)
        → AllStuck w (clock, net)
        → round db order net key_id settings clock w ≡ (w, false)
    unfolding round
    round_stuck clock net w s =
        rw (s.no_cleanup, s.some_due)
          (ap (λ q. (record w { queue = q }, false)) (handle_jobs_stuck net _ w.queue s.all_stuck))

    -- As long as no cleanup is due and all the jobs that are fetched, at most 40, are stuck (they
    -- name an actor that cannot be looked up, for an error that does not say that it is gone), any
    -- number of rounds changes nothing, whatever else is due, and none of them waits, provided that
    -- the order of the groups gives none for none.
    pub run_loop_starves :
        (rounds : List (RoundClock × Network)) (w : Worker)
        → All (AllStuck w) rounds
        → run_loop db order key_id settings rounds w ≡ (w, 0)
    unfolding run_loop
    run_loop_starves [] w h = refl
    run_loop_starves ((clock, net) ∷ rounds) w h =
        rw (round_stuck clock net w h.0, run_loop_starves rounds w h.1) refl
