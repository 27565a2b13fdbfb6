-- ===== src/Queue/Rounds/Triage.antt =====
-- What the triage makes of the fetched jobs.
use fedi.Base.{
  string_eq, ℕ, ◌+◌, ◌≤◌, ◌≡◌, refl, sym, ap, subst, Bool, true, false, Option, none, some, List,
  [], ◌∷◌, ◌++◌, String, arith, str_eq, eq_iff, if◌then◌else◌, inl, inr, Bool-cases, count_where,
  count_where-append, sum_by, All, if_cases,
}
use fedi.Text.{codes, contains}
use fedi.Queue.{Job, is_relay_wait}
use fedi.Queue.Process.{is_gone}
use fedi.Queue.Store.{mark_dead}
use fedi.Queue.Store.Updates.{job_with, job_with-mark_dead}
use fedi.Queue.Rounds.{
  ActorInfo, Resolution, resolved_to, errored, Network, Group, TriageState, or_key, is_group,
  push_job, grouped, placed, placed_by, resolve_actor_cached, triage_one, triage,
}

module _ (p : Job → Bool) where
  abbrev pub in_groups : List Group → ℕ
  in_groups = sum_by (λ g. count_where p g.jobs)

  -- The jobs that were placed: in groups or for the handling one by one.
  abbrev pub placed_count : TriageState → ℕ
  placed_count t = in_groups t.groups + count_where p t.passthrough

  in_groups-push_job :
      (key_id inbox_url body_hash : String) (job : Job) (gs : List Group)
      → in_groups (push_job key_id inbox_url body_hash job gs)
        ≡ in_groups gs + (if p job then 1 else 0)
  unfolding push_job
  in_groups-push_job key_id inbox_url body_hash job [] = ground arith
  in_groups-push_job key_id inbox_url body_hash job (g ∷ gs) = ground (
    arith,
    in_groups-push_job key_id inbox_url body_hash job gs,
    count_where-append p g.jobs (job ∷ []),
  )

module _ (net : Network) (key_id : String) where
  module _ (p : Job → Bool) (job : Job) where
    grouped-count :
        (inbox_url : String) (t : TriageState)
        → placed_count p (grouped net key_id inbox_url job t)
          ≡ placed_count p t + (if p job then 1 else 0)
    grouped-count inbox_url t = omega (
      arith,
      in_groups-push_job p (or_key key_id job.key_id) inbox_url
          (net.short_body_hash job.activity_json) job t.groups,
    )

    placed_by-count :
        (r : Resolution) (t : TriageState)
        → placed_count p (placed_by net key_id r job t)
          ≤ placed_count p t + (if p job then 1 else 0)
    placed_by-count (errored err) t = ground arith
    placed_by-count (resolved_to info) t = placed-count info.p2p_peer_id
      where
        placed-count :
            (peer : Option String)
            → placed_count p (placed net key_id (is_relay_wait job) info peer job t)
              ≤ placed_count p t + (if p job then 1 else 0)
        placed-count none = omega (arith, grouped-count info.inbox t)
        placed-count (some peer) =
            ground
              (arith, grouped-count info.inbox t, count_where-append p t.passthrough (job ∷ []))

    triage_one-count :
        (t : TriageState)
        → placed_count p (triage_one net key_id job t) ≤ placed_count p t + (if p job then 1 else 0)
    unfolding triage_one
    triage_one-count t = ground (
      arith,
      grouped-count job.target t,
      placed_by-count (resolve_actor_cached net job t.actor_cache).0
          (record t { actor_cache = (resolve_actor_cached net job t.actor_cache).1 }),
    )

  -- Of the fetched jobs, those with any property are placed at most as often as they were fetched,
  -- in groups and for the handling one by one together.
  pub triage_places :
      (p : Job → Bool) (jobs : List Job) (t : TriageState)
      → placed_count p (triage net key_id jobs t) ≤ placed_count p t + count_where p jobs
  unfolding triage
  triage_places p [] t = omega arith
  triage_places p (job ∷ jobs) t =
      ground (arith, triage_one-count p job t, triage_places p jobs (triage_one net key_id job t))

  -- The job belongs to the group: one body, one key, and the inbox that it was sent to.
  pub record Belongs (group_key inbox_url body_hash : String) (job : Job) : Type 0 where
    pub same_key : or_key key_id job.key_id ≡ group_key
    pub same_hash : net.short_body_hash job.activity_json ≡ body_hash
    pub same_inbox :
        (if contains (codes job.target) (codes "/inbox") then job.target else inbox_url) ≡ inbox_url

  abbrev pub AreMatching : List Group → Type 0
  AreMatching gs = All (λ g. All (Belongs g.key_id g.inbox_url g.body_hash) g.jobs) gs

  All-append :
      (P : Job → Type 0) (xs : List Job) (job : Job) → All P xs → P job → All P (xs ++ (job ∷ []))
  All-append P [] job h k = (k, tt)
  All-append P (x ∷ xs) job h k = (h.0, All-append P xs job h.1 k)

  push_job-AreMatching :
      (inbox_url : String) (job : Job) (gs : List Group)
      → (if contains (codes job.target) (codes "/inbox") then job.target else inbox_url) ≡ inbox_url
      → AreMatching gs
      → AreMatching (
          push_job
            (or_key key_id job.key_id)
            inbox_url
            (net.short_body_hash job.activity_json)
            job
            gs)
  unfolding push_job
  push_job-AreMatching inbox_url job [] e h =
      ((record { same_key = refl; same_hash = refl; same_inbox = e }, tt), tt)
  push_job-AreMatching inbox_url job (g ∷ gs) e h =
      let hash = net.short_body_hash job.activity_json in
      let k = or_key key_id job.key_id in
      elim (Bool-cases (is_group k inbox_url hash g)) [
        | inl t ↦
            let url : g.inbox_url ≡ inbox_url = ground (arith, t, eq_iff g.inbox_url inbox_url) in
            let belongs : Belongs g.key_id g.inbox_url g.body_hash job = record {
              same_key = ground (arith, t, eq_iff g.key_id k);
              same_hash = ground (arith, t, eq_iff g.body_hash hash);
              same_inbox =
                  subst
                    (λ u.
                      (if contains (codes job.target) (codes "/inbox") then job.target else u) ≡ u)
                    (sym url) e;
            } in
            rw (t)
              (All-append (Belongs g.key_id g.inbox_url g.body_hash) g.jobs job h.0 belongs, h.1)
        | inr t ↦ rw (t) (h.0, push_job-AreMatching inbox_url job gs e h.1)
      ]

  placed-AreMatching :
      (info : ActorInfo) (peer : Option String) (is_waiting : Bool) (job : Job) (t : TriageState)
      → contains (codes job.target) (codes "/inbox") ≡ false
      → AreMatching t.groups
      → AreMatching (placed net key_id is_waiting info peer job t).groups
  placed-AreMatching info none is_waiting job t e h =
      push_job-AreMatching info.inbox job t.groups (rw (e) refl) h
  placed-AreMatching info (some peer) true job t e h =
      push_job-AreMatching info.inbox job t.groups (rw (e) refl) h
  placed-AreMatching info (some peer) false job t e h = h

  placed_by-AreMatching :
      (r : Resolution) (job : Job) (t : TriageState)
      → contains (codes job.target) (codes "/inbox") ≡ false
      → AreMatching t.groups
      → AreMatching (placed_by net key_id r job t).groups
  placed_by-AreMatching (resolved_to info) job t e h =
      placed-AreMatching info info.p2p_peer_id (is_relay_wait job) job t e h
  placed_by-AreMatching (errored err) job t e h =
      if_cases (λ (u : TriageState). AreMatching u.groups) (is_gone err)
        (record t { rows = mark_dead job.id "peer deleted or unreachable" t.rows }) t (λ _. h)
        (λ _. h)

  triage_one-AreMatching :
      (job : Job) (t : TriageState)
      → AreMatching t.groups
      → AreMatching (triage_one net key_id job t).groups
  unfolding triage_one
  triage_one-AreMatching job t h =
      elim (Bool-cases (contains (codes job.target) (codes "/inbox"))) [
        | inl e ↦ rw (e) (push_job-AreMatching job.target job t.groups (rw (e) refl) h)
        | inr e ↦
            let r = resolve_actor_cached net job t.actor_cache in
            rw (e) (placed_by-AreMatching r.0 job (record t { actor_cache = r.1 }) e h)
      ]

  -- If the jobs of each group belong to it at the start, they do so after the triage of any jobs:
  -- they have the key and the hash of the body of the group, and a target that is an inbox is that
  -- of the group.
  pub triage-AreMatching :
      (jobs : List Job) (t : TriageState)
      → AreMatching t.groups
      → AreMatching (triage net key_id jobs t).groups
  unfolding triage
  triage-AreMatching [] t h = h
  triage-AreMatching (job ∷ jobs) t h =
      if_cases (λ (u : TriageState). AreMatching u.groups) (net.is_shutdown job) t
        (triage net key_id jobs (triage_one net key_id job t)) (λ _. h)
        (λ _.
          triage-AreMatching jobs (triage_one net key_id job t) (triage_one-AreMatching job t h))

  -- Rows of ids that were not fetched stay as they were.
  triage_one_frame :
      (key : String) (job : Job) (t : TriageState)
      → str_eq job.id key ≡ false
      → job_with key (triage_one net key_id job t).rows ≡ job_with key t.rows
  unfolding triage_one
  triage_one_frame key job t d =
      let r = resolve_actor_cached net job t.actor_cache in
      ground (arith, d, of_resolution r.0 (record t { actor_cache = r.1 }))
    where
      of_peer :
          (info : ActorInfo) (peer : Option String) (is_waiting : Bool) (u : TriageState)
          → (placed net key_id is_waiting info peer job u).rows ≡ u.rows
      of_peer info none is_waiting u = refl
      of_peer info (some peer) true u = refl
      of_peer info (some peer) false u = refl

      of_resolution :
          (r : Resolution) (u : TriageState)
          → job_with key (placed_by net key_id r job u).rows ≡ job_with key u.rows
      of_resolution (resolved_to info) u =
          ap (job_with key) (of_peer info info.p2p_peer_id (is_relay_wait job) u)
      of_resolution (errored err) u =
          ground (arith, d, job_with-mark_dead key job.id u.rows "peer deleted or unreachable")

  pub triage_frame :
      (key : String) (jobs : List Job) (t : TriageState)
      → count_where (λ j. str_eq j.id key) jobs ≡ 0
      → job_with key (triage net key_id jobs t).rows ≡ job_with key t.rows
  unfolding triage
  triage_frame key [] t e = refl
  triage_frame key (job ∷ jobs) t e =
      let d : str_eq job.id key ≡ false = ground (arith, e) in
      let more : count_where (λ j. str_eq j.id key) jobs ≡ 0 = ground (arith, e) in
      ground (
        arith,
        triage_one_frame key job t d,
        triage_frame key jobs (triage_one net key_id job t) more,
      )
