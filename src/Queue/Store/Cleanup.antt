-- ===== src/Queue/Store/Cleanup.antt =====
-- `cleanup_history` bounds the finished jobs and loses no job that is still to be delivered.
use fedi.Base.{
  string_eq, ℕ, ◌-◌, ◌≤◌, ◌<◌, ◌≡◌, refl, Bool, true, not, List, arith, ltb, select, count_where,
  inl, inr, Bool-cases,
}
use fedi.Rows.{OrderBy}
use fedi.Rows.Retention.{
  HasUniqueIds, All-always, select_kept, select-HasUniqueIds, count_where-delete_oldest,
  select-delete_oldest,
}
use fedi.Queue.{Job, QueueSettings, is_history, is_delivered, is_dead}
use fedi.Queue.Store.{job_id, created_at, expire, cap_history, cleanup_history}

-- Neither delivered nor dead.
abbrev pub is_open : Job → Bool
is_open j = not (is_history j)

module _ (db : OrderBy Job) where
  count-cap_history :
      (max_rows : ℕ) (rows : List Job)
      → 0 < max_rows
      → count_where is_history (cap_history db max_rows rows) ≤ max_rows
  unfolding cap_history
  count-cap_history max_rows rows h = ground (
    arith,
    count_where-delete_oldest db job_id created_at (λ _. true) is_history
        (count_where is_history rows - max_rows) rows (λ r e. refl),
  )

  -- After a cleanup with a positive row limit the delivered and dead jobs number at most the limit.
  pub cleanup_history_bound :
      (settings : QueueSettings) (now_delivered now_dead : ℕ) (rows : List Job)
      → 0 < settings.max_history_rows
      → count_where is_history (cleanup_history db settings now_delivered now_dead rows)
        ≤ settings.max_history_rows
  unfolding cleanup_history
  cleanup_history_bound settings now_delivered now_dead rows h = ground (
    arith,
    count-cap_history settings.max_history_rows
        (expire settings.dead_ttl_secs now_dead is_dead
          (expire settings.delivered_ttl_secs now_delivered is_delivered rows))
        h,
  )

  expire-keeps :
      (ttl now : ℕ) (in_status : Job → Bool) (rows : List Job)
      → ((j : Job) → is_open j ≡ true → in_status j ≡ Bool.false)
      → select is_open (expire ttl now in_status rows) ≡ select is_open rows
  unfolding expire
  expire-keeps ttl now in_status rows h = elim (Bool-cases (ltb 0 ttl)) [
    | inl e ↦
        rw (e, expire)
          (select_kept is_open _ rows (All-always _ rows (λ j o. ground (arith, h j o))))
    | inr e ↦ rw (e, expire)
  ]

  expire-HasUniqueIds :
      (ttl now : ℕ) (in_status : Job → Bool) (rows : List Job)
      → HasUniqueIds job_id rows
      → HasUniqueIds job_id (expire ttl now in_status rows)
  unfolding expire
  expire-HasUniqueIds ttl now in_status rows u = elim (Bool-cases (ltb 0 ttl)) [
    | inl e ↦ rw (e, expire) (select-HasUniqueIds job_id _ rows u)
    | inr e ↦ rw (e, expire) u
  ]

  cap_history-keeps :
      (max_rows : ℕ) (rows : List Job)
      → HasUniqueIds job_id rows
      → select is_open (cap_history db max_rows rows) ≡ select is_open rows
  unfolding cap_history
  cap_history-keeps max_rows rows u = ground (
    arith,
    select-delete_oldest db job_id created_at (λ _. true) is_history is_open
        (count_where is_history rows - max_rows) rows (λ j o. ground arith) u,
  )

  -- If ids are unique, a cleanup neither removes nor changes nor reorders the jobs that are pending
  -- or wait for the relay.
  pub cleanup_history-keeps :
      (settings : QueueSettings) (now_delivered now_dead : ℕ) (rows : List Job)
      → HasUniqueIds job_id rows
      → select is_open (cleanup_history db settings now_delivered now_dead rows)
        ≡ select is_open rows
  unfolding cleanup_history
  cleanup_history-keeps settings now_delivered now_dead rows u =
      let first = expire settings.delivered_ttl_secs now_delivered is_delivered rows in
      let second = expire settings.dead_ttl_secs now_dead is_dead first in
      let u1 = expire-HasUniqueIds settings.delivered_ttl_secs now_delivered is_delivered rows u in
      ground (
        arith,
        cap_history-keeps settings.max_history_rows second
            (expire-HasUniqueIds settings.dead_ttl_secs now_dead is_dead first u1),
        expire-keeps settings.dead_ttl_secs now_dead is_dead first (λ j o. ground arith),
        expire-keeps settings.delivered_ttl_secs now_delivered is_delivered rows
            (λ j o. ground arith),
      )
