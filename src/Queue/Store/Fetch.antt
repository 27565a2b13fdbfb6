-- ===== src/Queue/Store/Fetch.antt =====
-- What the worker picks up, and what `enqueue` adds, in crates/fedi3_core/src/delivery_queue.rs.
use fedi.Base.{
  string_eq, ℕ, ◌+◌, ◌≡◌, min, true, Option, some, List, [], ◌∷◌, String, arith, length,
  count_where, All, map,
}
use fedi.Rows.{OrderBy, IsAscending}
use fedi.Rows.Selection.{select_oldest-All, select_oldest-IsAscending, length-select_oldest}
use fedi.Queue.{Job, is_pending}
use fedi.Queue.Store.{
  fetch_due_jobs, is_due, due_at, job_id, enqueue_activity_with_key_id, insert_all, new_job,
}

-- The fetched jobs are all due, the longest overdue first, and number the smaller of the limit and
-- the count of due jobs.
pub fetch_due_jobs_lem :
    (db : OrderBy Job) (now limit : ℕ) (rows : List Job)
    → let jobs = fetch_due_jobs db now limit rows in
      All (λ j. is_due now j ≡ true) jobs
      × IsAscending due_at jobs
      × (length jobs ≡ min limit (count_where (is_due now) rows))
unfolding fetch_due_jobs
fetch_due_jobs_lem db now limit rows = (
  select_oldest-All db job_id due_at (is_due now) limit rows,
  select_oldest-IsAscending db job_id due_at (is_due now) limit rows,
  length-select_oldest db job_id due_at (is_due now) limit rows,
)

insert_all-pending :
    (created_at : ℕ) (body : List ℕ) (activity_id : String) (key_id : Option String)
    (targets : List (String × String)) (rows rows' : List Job)
    → insert_all (map (new_job created_at body activity_id key_id) targets) rows ≡ some rows'
    → (count_where is_pending rows' ≡ count_where is_pending rows + length targets)
      × (length rows' ≡ length rows + length targets)
unfolding insert_all new_job
insert_all-pending created_at body activity_id key_id [] rows rows' e = ground arith
insert_all-pending created_at body activity_id key_id ((id, target) ∷ targets) rows rows' e =
    ground (
      arith,
      insert_all-pending created_at body activity_id key_id targets
          (new_job created_at body activity_id key_id (id, target) ∷ rows) rows',
    )

-- A successful call adds as many rows as there are targets and returns the number of pending rows
-- before it plus the number of targets.
enqueue_adds :
    (created_at : ℕ) (body : List ℕ) (activity_id : String) (targets : List (String × String))
    (key_id : Option String) (rows rows' : List Job) (count : ℕ)
    → enqueue_activity_with_key_id created_at body activity_id targets key_id rows
      ≡ some (rows', count)
    → (count ≡ count_where is_pending rows + length targets)
      × (length rows' ≡ length rows + length targets)
unfolding enqueue_activity_with_key_id
enqueue_adds created_at body activity_id targets key_id rows rows' count e =
    ground (arith, insert_all-pending created_at body activity_id key_id targets rows rows')
