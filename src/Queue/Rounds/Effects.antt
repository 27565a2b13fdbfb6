-- ===== src/Queue/Rounds/Effects.antt =====
-- What a round does to the table.
use mathlib.Core.List.{Perm}
use fedi.Base.{
  string_eq, ◌≡◌, refl, ◌∙◌, Bool, true, false, List, [], ◌∷◌, map, String, arith, str_eq, ◌==◌,
  length, count_where, sum_by-perm, if_cases,
}
use fedi.Rows.{OrderBy}
use fedi.Queue.{Job, QueueSettings}
use fedi.Queue.Store.{fetch_due_jobs}
use fedi.Queue.Store.Updates.{job_with}
use fedi.Queue.Failover.{QueueState}
use fedi.Queue.Process.{Env, process_one, process_group_http}
use fedi.Queue.Process.Group.{holds_id, process_group_http_frame}
use fedi.Queue.Process.Outcome.{process_one_frame}
use fedi.Queue.Rounds.{
  Network, Group, TriageState, triage, process_groups, process_passthrough, Worker, RoundClock,
  cleanup_due, handle_jobs, round,
}
use fedi.Queue.Rounds.Triage.{in_groups, triage_places, triage_frame}

abbrev pub is_row : String → Job → Bool
is_row key j = str_eq j.id key

not_held :
    (net : Network) (key : String) (jobs : List Job)
    → count_where (is_row key) jobs ≡ 0
    → holds_id key (map (λ j. (j, net.env_of j)) jobs) ≡ false
not_held net key [] e = refl
not_held net key (job ∷ jobs) e = ground (arith, e, not_held net key jobs)

module _ (net : Network) (key_id : String) (settings : QueueSettings) (key : String) where
  process_groups_frame :
      (gs : List Group) (st : QueueState)
      → in_groups (is_row key) gs ≡ 0
      → job_with key (process_groups net key_id settings gs st).jobs ≡ job_with key st.jobs
  unfolding process_groups
  process_groups_frame [] st e = refl
  process_groups_frame (g ∷ gs) st e =
      let members : List (Job × Env) = map (λ j. (j, net.env_of j)) g.jobs in
      let result = net.deliver_group g.key_id g.inbox_url g.body_hash in
      let none_here : count_where (is_row key) g.jobs ≡ 0 = omega (arith, e) in
      let later : in_groups (is_row key) gs ≡ 0 = omega (arith, e) in
      if_cases (λ (s : QueueState). job_with key s.jobs ≡ job_with key st.jobs)
        (net.is_shutdown_groups g.key_id g.inbox_url g.body_hash) st
        (process_groups net key_id settings gs (process_group_http settings result members st))
        (λ _. refl)
        (λ _.
          process_groups_frame gs (process_group_http settings result members st) later
          ∙ process_group_http_frame settings result members key st
              (not_held net key g.jobs none_here))

  process_passthrough_frame :
      (jobs : List Job) (st : QueueState)
      → count_where (is_row key) jobs ≡ 0
      → job_with key (process_passthrough net key_id settings jobs st).jobs ≡ job_with key st.jobs
  unfolding process_passthrough
  process_passthrough_frame [] st e = refl
  process_passthrough_frame (job ∷ jobs) st e =
      let env = net.env_of job in
      let other : str_eq job.id key ≡ false = ground (arith, e) in
      let later : count_where (is_row key) jobs ≡ 0 = ground (arith, e) in
      if_cases (λ (s : QueueState). job_with key s.jobs ≡ job_with key st.jobs)
        (net.is_shutdown_passthrough job) st
        (process_passthrough net key_id settings jobs (process_one settings env job st).0)
        (λ _. refl)
        (λ _.
          process_passthrough_frame jobs (process_one settings env job st).0 later
          ∙ process_one_frame settings env job st key other)

module _ (db : OrderBy Job) (order : List Group → List Group)
    (order-perm : (gs : List Group) → Perm (order gs) gs) (net : Network) (key_id : String)
    (settings : QueueSettings) where
  handle_jobs_frame :
      (jobs : List Job) (st : QueueState) (key : String)
      → count_where (is_row key) jobs ≡ 0
      → job_with key (handle_jobs db order net key_id settings jobs st).jobs ≡ job_with key st.jobs
  unfolding handle_jobs
  handle_jobs_frame jobs st key e =
      let start : TriageState = record {
        actor_cache = [];
        groups = [];
        passthrough = [];
        rows = st.jobs;
      } in
      let t = triage net key_id jobs start in
      let places = triage_places net key_id (is_row key) jobs start in
      let no_group : in_groups (is_row key) (order t.groups) ≡ 0 = omega (
        arith,
        e,
        places,
        sum_by-perm (λ g. count_where (is_row key) g.jobs) (order-perm t.groups),
      ) in
      let no_pass : count_where (is_row key) t.passthrough ≡ 0 = omega (arith, e, places) in
      let grouped_state =
        process_groups net key_id settings (order t.groups) (record st { jobs = t.rows }) in
      process_passthrough_frame net key_id settings key t.passthrough grouped_state no_pass
      ∙ (process_groups_frame net key_id settings key (order t.groups) (record st { jobs = t.rows })
            no_group
          ∙ triage_frame net key_id key jobs start e)

  -- A round leaves each row of an id that it did not fetch as the cleanup at its start left it,
  -- whatever the network answers and in whatever order the groups come.
  pub round_frame :
      (clock : RoundClock) (w : Worker) (key : String)
      → let cleaned = cleanup_due db order net key_id settings clock w in
        count_where (is_row key) (fetch_due_jobs db clock.now_fetch 40 cleaned.queue.jobs) ≡ 0
        → job_with key (round db order net key_id settings clock w).0.queue.jobs
          ≡ job_with key cleaned.queue.jobs
  unfolding round
  round_frame clock w key e =
      let cleaned = cleanup_due db order net key_id settings clock w in
      let jobs = fetch_due_jobs db clock.now_fetch 40 cleaned.queue.jobs in
      if_cases
        (λ (r : Worker × Bool). job_with key r.0.queue.jobs ≡ job_with key cleaned.queue.jobs)
        (length jobs == 0) (cleaned, true)
        (
          record cleaned { queue = handle_jobs db order net key_id settings jobs cleaned.queue },
          false,
        )
        (λ _. refl) (λ _. handle_jobs_frame jobs cleaned.queue key e)
