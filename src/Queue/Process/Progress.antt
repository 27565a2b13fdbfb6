-- ===== src/Queue/Process/Progress.antt =====
-- How far a job is from its end, along the steps of the worker of
-- crates/fedi3_core/src/delivery_queue.rs, and what a handling that resolves no actor does.
use fedi.Base.{ℕ, ◌+◌, ◌-◌, ◌≤◌, ◌≡◌, max, true, Option, none, some, String, if◌then◌else◌}
use fedi.Queue.{Job, QueueSettings, is_relay_wait, is_history}
use fedi.Queue.Failover.{QueueState}
use fedi.Queue.Process.{Env, resolve_target, unresolved, process_one}

abbrev pub Finished : Option Job → Type 0
Finished none = ⊥
Finished (some j) = is_history j ≡ true

-- The handlings that a job can still take.
rank : QueueSettings → Job → ℕ
rank settings j =
    if is_history j
    then 0
    else (if is_relay_wait j then 0 else 1) + max 1 (settings.max_attempts - j.attempt)

-- A row is there, and can take `n` handlings at most.
abbrev Within : QueueSettings → ℕ → Option Job → Type 0
Within settings n none = ⊥
Within settings n (some j) = rank settings j ≤ n

-- If neither lookup resolves the actor and the error does not say that it is gone, the handling
-- returns the error and changes nothing: neither the attempt nor the time of the next one.
pub process_one_unresolved :
    (settings : QueueSettings) (env : Env) (job : Job) (st : QueueState) (err : String)
    → resolve_target env job ≡ unresolved err
    → process_one settings env job st ≡ (st, some err)
unfolding process_one
process_one_unresolved settings env job st err e = rw (e, process_one)
