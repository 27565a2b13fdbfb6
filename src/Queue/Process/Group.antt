-- ===== src/Queue/Process/Group.antt =====
-- One HTTP delivery that settles a group of jobs, in crates/fedi3_core/src/delivery_queue.rs.
use fedi.Base.{
  ◌≡◌, refl, Bool, true, false, Option, none, some, List, [], ◌∷◌, String, arith, str_eq, any, ◌∙◌,
  sat_add_u32, if◌then◌else◌,
}
use fedi.Queue.{Job, QueueSettings, delivered}
use fedi.Queue.Backoff.{next_backoff}
use fedi.Queue.Store.Updates.{
  job_with, map_some, job_with-mark_delivered, job_with-mark_dead, job_with-reschedule,
}
use fedi.Queue.Failover.{QueueState}
use fedi.Queue.Process.{Env, process_group_http, settle_one, retry_or_die}

abbrev pub holds_id : String → List (Job × Env) → Bool
holds_id key = any (λ member. str_eq member.0.id key)

pub settle_one_frame :
    (settings : QueueSettings) (result : Option String) (job : Job) (env : Env) (key : String)
    (st : QueueState)
    → str_eq job.id key ≡ false
    → job_with key (settle_one settings result job env st).jobs ≡ job_with key st.jobs
unfolding settle_one retry_or_die
settle_one_frame settings none job env key st other =
    ground (arith, job_with-mark_delivered key job.id st.jobs)
settle_one_frame settings (some e) job env key st other =
    let n = sat_add_u32 job.attempt 1 in
    ground (
      arith,
      job_with-mark_dead key job.id st.jobs e,
      job_with-reschedule key job.id st.jobs env.now_store n
          (next_backoff n settings.base_backoff_secs settings.max_backoff_secs env.random) e,
    )

-- Settling a group, accepted or not, leaves the rows of ids outside the group as they were.
pub process_group_http_frame :
    (settings : QueueSettings) (result : Option String) (group : List (Job × Env)) (key : String)
    (st : QueueState)
    → holds_id key group ≡ false
    → job_with key (process_group_http settings result group st).jobs ≡ job_with key st.jobs
unfolding process_group_http
process_group_http_frame settings result [] key st out = refl
process_group_http_frame settings result ((job, env) ∷ rest) key st out =
    process_group_http_frame settings result rest key (settle_one settings result job env st)
      (ground arith)
    ∙ settle_one_frame settings result job env key st (ground arith)

settled : Job → Job
settled j = record j { status = delivered; last_error = none }

map_settled_twice : (o : Option Job) → map_some settled (map_some settled o) ≡ map_some settled o
unfolding settled
map_settled_twice none = refl
map_settled_twice (some j) = refl

deliver_group :
    (settings : QueueSettings) (group : List (Job × Env)) (key : String) (st : QueueState)
    → job_with key (process_group_http settings none group st).jobs ≡ (
        if holds_id key group
        then map_some settled (job_with key st.jobs)
        else job_with key st.jobs)
unfolding process_group_http settle_one settled
deliver_group settings [] key st = refl
deliver_group settings ((job, env) ∷ rest) key st = ground (
  arith,
  deliver_group settings rest key (settle_one settings none job env st),
  job_with-mark_delivered key job.id st.jobs,
  map_settled_twice (job_with key st.jobs),
)

-- If the delivery of a group is accepted, the row of each member ends delivered with its error
-- cleared and is otherwise as it was.
pub process_group_http_delivers :
    (settings : QueueSettings) (group : List (Job × Env)) (key : String) (st : QueueState) (j : Job)
    → holds_id key group ≡ true
    → job_with key st.jobs ≡ some j
    → job_with key (process_group_http settings none group st).jobs
      ≡ some (record j { status = delivered; last_error = none })
unfolding settled
process_group_http_delivers settings group key st j member present =
    ground (arith, deliver_group settings group key st)
