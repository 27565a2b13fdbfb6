-- ===== src/Queue/Store/Updates.antt =====
-- What the statements on one job do to a lookup by id.
use fedi.Base.{
  ℕ, ◌≡◌, refl, Option, none, some, List, [], ◌∷◌, String, arith, str_eq, eq_iff, if◌then◌else◌,
  sat_add_i64, ◌*◌,
}
use fedi.Rows.{update_where}
use fedi.Queue.{Job, delivered, dead, relay_wait}
use fedi.Queue.Store.{has_id, mark_delivered, mark_dead, reschedule, schedule_relay_fallback}

-- `SELECT … WHERE id = key`.
unfoldable pub job_with : String → List Job → Option Job
job_with key [] = none
job_with key (j ∷ rows) = if str_eq j.id key then some j else job_with key rows

abbrev pub map_some : (Job → Job) → Option Job → Option Job
map_some f none = none
map_some f (some j) = some (f j)

job_with-update_where :
    (id key : String) (f : Job → Job) (rows : List Job)
    → ((j : Job) → (f j).id ≡ j.id)
    → job_with key (update_where (has_id id) f rows)
      ≡ (if str_eq id key then map_some f (job_with key rows) else job_with key rows)
unfolding job_with update_where
job_with-update_where id key f [] h = ground arith
job_with-update_where id key f (j ∷ rows) h = ground (
  arith,
  h j,
  eq_iff j.id id,
  eq_iff j.id key,
  eq_iff id key,
  job_with-update_where id key f rows h,
)

module _ (key id : String) (rows : List Job) where
  pub job_with-mark_delivered : job_with key (mark_delivered id rows) ≡ (
      if str_eq id key
      then map_some (λ j. record j { status = delivered; last_error = none }) (job_with key rows)
      else job_with key rows)
  unfolding mark_delivered
  job_with-mark_delivered = job_with-update_where id key _ rows (λ j. refl)

  pub job_with-mark_dead :
      (err : String)
      → job_with key (mark_dead id err rows) ≡ (
          if str_eq id key
          then map_some (λ j. record j { status = dead; last_error = some err }) (job_with key rows)
          else job_with key rows)
  unfolding mark_dead
  job_with-mark_dead err = job_with-update_where id key _ rows (λ j. refl)

  pub job_with-reschedule :
      (now attempt delay : ℕ) (err : String)
      → job_with key (reschedule now id attempt delay err rows) ≡ (
          if str_eq id key
          then map_some
              (λ j. record j {
                attempt = attempt;
                next_attempt_at_ms = sat_add_i64 now delay;
                last_error = some err;
              })
              (job_with key rows)
          else job_with key rows)
  unfolding reschedule
  job_with-reschedule now attempt delay err = job_with-update_where id key _ rows (λ j. refl)

  pub job_with-schedule_relay_fallback :
      (now attempt secs : ℕ) (err : String)
      → job_with key (schedule_relay_fallback now id attempt secs err rows) ≡ (
          if str_eq id key
          then map_some
              (λ j. record j {
                status = relay_wait;
                attempt = attempt;
                next_attempt_at_ms = sat_add_i64 now (secs * 1000);
                last_error = some err;
              })
              (job_with key rows)
          else job_with key rows)
  unfolding schedule_relay_fallback
  job_with-schedule_relay_fallback now attempt secs err =
      job_with-update_where id key _ rows (λ j. refl)
