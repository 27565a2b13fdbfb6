-- ===== src/Queue/Store.antt =====
-- The statements on `delivery_jobs` in crates/fedi3_core/src/delivery_queue.rs. A clock reading is
-- an argument, in milliseconds since the epoch; an instant before the epoch compares as the epoch
-- does, since no row is older. A statement of the store is taken to succeed.
pub mod Cleanup
pub mod Fetch
pub mod Receipts
pub mod Updates
use Prim.Native.String.{◌++◌ as str_append}
use fedi.Base.{
  string_eq, ℕ, ◌-◌, ◌*◌, ◌<◌, Bool, true, false, ◌&&◌, ◌||◌, not, Option, none, some, List, [],
  ◌∷◌, String, str_eq, ltb, leb, ◌==◌, if◌then◌else◌, length, any, count_where, sat_add_i64, map,
}
use fedi.Text.{trim, is_empty}
use fedi.Rows.{OrderBy, select_oldest, delete_oldest, delete_where, update_where}
use fedi.Queue.{
  Job, Status, QueueSettings, pending, delivered, dead, relay_wait, is_pending, is_delivered,
  is_dead, is_relay_wait, is_history,
}

abbrev pub has_id : String → Job → Bool
has_id id j = str_eq j.id id

unfoldable pub mark_delivered : String → List Job → List Job
mark_delivered id =
    update_where (has_id id) (λ j. record j { status = delivered; last_error = none })

unfoldable pub mark_dead : String → String → List Job → List Job
mark_dead id err = update_where (has_id id) (λ j. record j { status = dead; last_error = some err })

-- The status stays as it is: a job that waits for the relay goes on waiting for it.
unfoldable pub reschedule : ℕ → String → ℕ → ℕ → String → List Job → List Job
reschedule now id attempt delay_ms err =
    let next = sat_add_i64 now delay_ms in
    update_where (has_id id)
      (λ j. record j { attempt = attempt; next_attempt_at_ms = next; last_error = some err })

unfoldable pub schedule_relay_fallback : ℕ → String → ℕ → ℕ → String → List Job → List Job
schedule_relay_fallback now id attempt delay_secs err =
    let next = sat_add_i64 now (delay_secs * 1000) in
    update_where (has_id id) (λ j. record j {
      status = relay_wait;
      attempt = attempt;
      next_attempt_at_ms = next;
      last_error = some err;
    })

-- The row that a receipt confirms.
unfoldable pub confirmed_by : String → String → Job → Bool
confirmed_by activity_id from_actor j =
    is_relay_wait j
    && elim j.activity_id [ none ↦ false | some a ↦ str_eq a activity_id ]
    && (str_eq j.target from_actor || str_eq j.target (str_append from_actor "/inbox"))

-- The table after the receipt, and the number of rows that it changed.
unfoldable pub mark_delivered_by_receipt : String → String → List Job → List Job × ℕ
unfolding confirmed_by
mark_delivered_by_receipt activity_id from_actor rows =
    let activity_id = trim activity_id in
    let from_actor = trim from_actor in
    if is_empty activity_id || is_empty from_actor then (rows, 0) else (
      update_where (confirmed_by activity_id from_actor)
          (λ j. record j { status = delivered; last_error = none }) rows,
      count_where (confirmed_by activity_id from_actor) rows,
    )

pub record QueueStats : Type 0 where
  pub pending : ℕ
  pub delivered : ℕ
  pub dead : ℕ

unfoldable pub stats : List Job → QueueStats
stats rows = record {
  pending = count_where is_pending rows;
  delivered = count_where is_delivered rows;
  dead = count_where is_dead rows;
}

-- One `INSERT`: an id that is taken violates the primary key.
unfoldable pub insert_job : Job → List Job → Option (List Job)
insert_job j rows = if any (has_id j.id) rows then none else some (j ∷ rows)

unfoldable pub insert_all : List Job → List Job → Option (List Job)
unfolding insert_job
insert_all [] rows = some rows
insert_all (j ∷ js) rows = elim (insert_job j rows) [
  | none ↦ none
  | some rows' ↦ insert_all js rows'
]

-- The row of a new job; a pair is the drawn id and the target.
unfoldable pub new_job : ℕ → List ℕ → String → Option String → String × String → Job
new_job created_at activity_json activity_id key_id (job_id, target) = record {
  id = job_id;
  created_at_ms = created_at;
  next_attempt_at_ms = created_at;
  attempt = 0;
  status = pending;
  target = target;
  activity_json = activity_json;
  key_id = key_id;
  activity_id = some activity_id;
  last_error = none;
}

-- `enqueue_activity_with_key_id`, in one transaction: each target comes with the random id that its
-- job draws, and `activity_id` is what `activity_id_from_bytes` finds, or empty. The result is the
-- table and the number of pending rows; `none` is the error that rolls everything back.
unfoldable pub enqueue_activity_with_key_id :
    ℕ → List ℕ → String → List (String × String) → Option String → List Job → Option (List Job × ℕ)
unfolding insert_all new_job
enqueue_activity_with_key_id created_at activity_json activity_id targets key_id rows =
    elim (insert_all (map (new_job created_at activity_json activity_id key_id) targets) rows) [
      | none ↦ none
      | some rows' ↦ some (rows', count_where is_pending rows')
    ]

unfoldable pub is_due : ℕ → Job → Bool
is_due now j = (is_pending j || is_relay_wait j) && leb j.next_attempt_at_ms now

abbrev pub due_at : Job → ℕ
due_at j = j.next_attempt_at_ms

abbrev pub created_at : Job → ℕ
created_at j = j.created_at_ms

abbrev pub job_id : Job → String
job_id j = j.id

unfoldable pub fetch_due_jobs : OrderBy Job → ℕ → ℕ → List Job → List Job
unfolding is_due
fetch_due_jobs db now limit = select_oldest db job_id due_at (is_due now) limit

-- The rows of one final status that were made before `now` less the time to live, if it is set.
unfoldable pub expire : ℕ → ℕ → (Job → Bool) → List Job → List Job
expire ttl_secs now in_status rows =
    if ltb 0 ttl_secs
    then delete_where (λ j. in_status j && ltb j.created_at_ms (now - ttl_secs * 1000)) rows
    else rows

unfoldable pub cap_history : OrderBy Job → ℕ → List Job → List Job
cap_history db max_rows rows =
    let total = count_where is_history rows in
    if ltb 0 max_rows && ltb max_rows total
    then delete_oldest db job_id created_at (λ _. true) is_history (total - max_rows) rows
    else rows

-- The clock is read once for each of the two cutoffs.
unfoldable pub cleanup_history : OrderBy Job → QueueSettings → ℕ → ℕ → List Job → List Job
unfolding expire cap_history
cleanup_history db settings now_delivered now_dead rows =
    if settings.delivered_ttl_secs == 0
      && settings.dead_ttl_secs == 0
      && settings.max_history_rows == 0
    then rows
    else cap_history db settings.max_history_rows (
        expire settings.dead_ttl_secs now_dead is_dead
          (expire settings.delivered_ttl_secs now_delivered is_delivered rows))
