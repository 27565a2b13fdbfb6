-- ===== src/Queue/Process/Settled.antt =====
-- How process_group_http of crates/fedi3_core/src/delivery_queue.rs leaves a job of its group.
use fedi.Base.{
  ℕ, ◌≡◌, ◌⊎◌, ◌<◌, ◌≤◌, refl, true, Option, none, some, List, [], ◌∷◌, String, arith, str_eq, sym,
  subst, eq_iff, inl, inr, Bool-cases, Option-cases, sat_add_u32, All,
}
use fedi.Queue.{Job, QueueSettings, dead}
use fedi.Queue.Backoff.{next_backoff}
use fedi.Queue.Store.Updates.{job_with, job_with-mark_dead, job_with-reschedule}
use fedi.Queue.Failover.{QueueState}
use fedi.Queue.Process.{Env, process_group_http, settle_one, retry_or_die}
use fedi.Queue.Process.Group.{
  holds_id, settle_one_frame, process_group_http_frame, process_group_http_delivers,
}
use fedi.Queue.Process.Outcome.{Ends}

-- The members of the job's id are the job.
abbrev pub AllOwn : Job → List (Job × Env) → Type 0
AllOwn job = All (λ m. str_eq m.0.id job.id ≡ true → m.0 ≡ job)

module _ (settings : QueueSettings) (job : Job) where
  abbrev next_attempt : ℕ
  next_attempt = sat_add_u32 job.attempt 1

  -- The row before a refused delivery: with the job's status, unless this is the last attempt.
  abbrev Refusable : Option Job → Type 0
  Refusable none = ⊥
  Refusable (some r) =
      (r.id ≡ job.id) × ((r.status ≡ job.status) ⊎ (settings.max_attempts ≤ next_attempt))

  -- The row after it: dead at the last attempt, else with the attempt counted.
  abbrev Refused : Option Job → Type 0
  Refused none = ⊥
  Refused (some r) =
      (r.id ≡ job.id)
      × ((r.status ≡ dead) × (settings.max_attempts ≤ next_attempt)
          ⊎ (r.status ≡ job.status)
            × (r.attempt ≡ next_attempt)
            × (next_attempt < settings.max_attempts))

  Refused-Refusable : (o : Option Job) → Refused o → Refusable o
  Refused-Refusable none h = h
  Refused-Refusable (some r) h = ground (arith, h)

  Refused-Ends : (o : Option Job) → Refused o → Ends settings next_attempt job o
  Refused-Ends none h = h
  Refused-Ends (some r) h = ground (arith, h)

  settle_one-Refused :
      (err : String) (env : Env) (st : QueueState)
      → Refusable (job_with job.id st.jobs)
      → Refused (job_with job.id (settle_one settings (some err) job env st).jobs)
  unfolding settle_one retry_or_die
  settle_one-Refused err env st h = elim (Option-cases (job_with job.id st.jobs)) [
    | inl e ↦ absurd (rw e at h)
    | inr (r, e) ↦
        let present : Refusable (some r) = rw e at h in
        ground (
          arith,
          e,
          present,
          (eq_iff job.id job.id).1 refl,
          job_with-mark_dead job.id job.id st.jobs err,
          job_with-reschedule job.id job.id st.jobs env.now_store next_attempt
              (next_backoff next_attempt settings.base_backoff_secs settings.max_backoff_secs
                env.random)
              err,
        )
  ]

  group-Refused :
      (err : String) (group : List (Job × Env)) (st : QueueState)
      → AllOwn job group
      → holds_id job.id group ≡ true
      → Refusable (job_with job.id st.jobs)
      → Refused (job_with job.id (process_group_http settings (some err) group st).jobs)
  unfolding process_group_http
  group-Refused err [] st own member h = absurd (ground (arith, member))
  group-Refused err ((j, env) ∷ rest) st own member h =
      let after = settle_one settings (some err) j env st in
      elim (Bool-cases (str_eq j.id job.id)) [
        | inl e ↦
            let now : Refused (job_with job.id after.jobs) =
              subst (λ k. Refused (job_with job.id (settle_one settings (some err) k env st).jobs))
                (sym (own.0 e)) (settle_one-Refused err env st h) in
            elim (Bool-cases (holds_id job.id rest)) [
              | inl more ↦ group-Refused err rest after own.1 more (Refused-Refusable _ now)
              | inr last ↦
                  subst Refused
                    (sym (process_group_http_frame settings (some err) rest job.id after last)) now
            ]
        | inr d ↦
            group-Refused err rest after own.1 (ground (arith, member, d))
              (subst Refusable (sym (settle_one_frame settings (some err) j env job.id st d)) h)
      ]

  -- If a job is in a group, by itself only, and in the table as it was fetched, settling the group
  -- ends it delivered, dead, or to be tried again with the attempt counted below the limit.
  pub process_group_http-Ends :
      (result : Option String) (group : List (Job × Env)) (st : QueueState)
      → AllOwn job group
      → holds_id job.id group ≡ true
      → job_with job.id st.jobs ≡ some job
      → Ends settings next_attempt job
          (job_with job.id (process_group_http settings result group st).jobs)
  process_group_http-Ends none group st own member present =
      subst (Ends settings next_attempt job)
        (sym (process_group_http_delivers settings group job.id st job member present))
        (ground arith)
  process_group_http-Ends (some err) group st own member present =
      Refused-Ends _ (group-Refused err group st own member (rw present (refl, inl refl)))
