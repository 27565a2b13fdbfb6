-- ===== src/Queue/Process/Steps.antt =====
-- The steps of the worker of crates/fedi3_core/src/delivery_queue.rs, in any order: what run_loop does
-- with a job that it has fetched, which goes one of three ways. Which way is part of the step.
use fedi.Base.{
  ℕ, ◌≡◌, Bool, true, Option, none, some, List, [], ◌∷◌, String, arith, str_eq, eq_iff, any,
  if◌then◌else◌, count_where,
}
use fedi.Queue.{Job, QueueSettings, is_history}
use fedi.Queue.Store.{mark_dead}
use fedi.Queue.Store.Updates.{job_with}
use fedi.Queue.Failover.{QueueState}
use fedi.Queue.Process.{
  Env, found, failed, first_found, is_gone, process_one, process_group_http, with_jobs,
}

-- The jobs are named by their ids; `env` is what a handling meets. The triage finds that an actor is
-- gone, one delivery with a result settles a group, or a job is handled alone.
pub data Step : Type 0 where
  found_gone : (id : String) → Step
  grouped : (result : Option String) (members : List (String × Env)) → Step
  alone : (id : String) (env : Env) → Step

-- Only jobs that are not final are picked up, each as its row is then.
abbrev pub pick : Option Job → Env → List (Job × Env) → List (Job × Env)
pick none env rest = rest
pick (some j) env rest = if is_history j then rest else (j, env) ∷ rest

unfoldable pub picked : List (String × Env) → List Job → List (Job × Env)
unfolding job_with
picked [] rows = []
picked ((id, env) ∷ members) rows = pick (job_with id rows) env (picked members rows)

abbrev pub if_open : (Job → QueueState → QueueState) → Option Job → QueueState → QueueState
if_open handle none st = st
if_open handle (some j) st = if is_history j then st else handle j st

unfoldable pub step : QueueSettings → Step → QueueState → QueueState
unfolding picked job_with process_one process_group_http mark_dead
step settings (found_gone id) st =
    if_open (λ j. with_jobs (mark_dead j.id "peer deleted or unreachable")) (job_with id st.jobs) st
step settings (grouped result members) st =
    process_group_http settings result (picked members st.jobs) st
step settings (alone id env) st =
    if_open (λ j s. (process_one settings env j s).0) (job_with id st.jobs) st

unfoldable pub run : QueueSettings → List Step → QueueState → QueueState
unfolding step
run settings [] st = st
run settings (s ∷ steps) st = run settings steps (step settings s st)

-- The job is one of those that the step handles.
abbrev pub handles : String → Step → Bool
handles id (found_gone key) = str_eq key id
handles id (grouped result members) = any (λ m. str_eq m.0 id) members
handles id (alone key env) = str_eq key id

-- Where a job is handled alone, its actor was found, or the error says that it is gone.
abbrev pub is_resolved : Step → Bool
is_resolved (found_gone id) = true
is_resolved (grouped result members) = true
is_resolved (alone id env) =
    elim (first_found env.resolve_actor_info_signed env.resolve_actor_info) [
      | found peer ↦ true
      | failed e ↦ is_gone e
    ]

abbrev pub steps_for : String → List Step → ℕ
steps_for id = count_where (handles id)

pub job_with-id :
    (key : String) (rows : List Job) (j : Job) → job_with key rows ≡ some j → j.id ≡ key
unfolding job_with
job_with-id key [] j e = cc
job_with-id key (x ∷ rows) j e = ground (arith, eq_iff x.id key, job_with-id key rows j)
