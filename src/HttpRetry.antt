-- ===== src/HttpRetry.antt =====
-- The retries of crates/fedi3_core/src/http_retry.rs. What the client answers to each attempt is an
-- argument; a wait is its length in milliseconds before the jitter of up to 200.
pub mod Attempts
mod Examples
use fedi.Base.{
  ℕ, zero, suc, ◌+◌, ◌-◌, ◌*◌, Bool, true, false, ◌&&◌, ◌||◌, min, max, List, [], ◌∷◌, ltb, leb,
  ◌==◌, if◌then◌else◌,
}
use fedi.NetMetrics.{NetMetrics, http_timeout, http_error}

pub data Answer : Type 0 where
  response : (status : ℕ) → Answer
  failure : (is_timeout : Bool) → Answer

-- 429, and the server errors from 500 to 599.
unfoldable pub should_retry_status : ℕ → Bool
should_retry_status status = status == 429 || leb 500 status && ltb status 600

abbrev pub is_retried : Answer → Bool
is_retried (Answer.response status) = should_retry_status status
is_retried (Answer.failure is_timeout) = true

-- The answer that is returned, how many requests were sent, and the waits between them.
pub record Sent : Type 0 where
  pub answer : Answer
  pub requests : ℕ
  pub waits : List ℕ

abbrev pub max_attempts : ℕ → ℕ
max_attempts attempts = min (max attempts 1) 5

abbrev pub doubled : ℕ → ℕ
doubled backoff = min (backoff * 2) 5000

module _ (answers : ℕ → Answer) where
  -- An attempt, with the number of those that may follow it.
  unfoldable pub attempt_from : (left attempt backoff : ℕ) → Sent
  unfolding should_retry_status
  attempt_from zero attempt backoff = record {
    answer = answers attempt;
    requests = suc attempt;
    waits = [];
  }
  attempt_from (suc left) attempt backoff =
      let rest = attempt_from left (suc attempt) (doubled backoff) in
      if is_retried (answers attempt)
      then record rest { waits = backoff ∷ rest.waits }
      else record { answer = answers attempt; requests = suc attempt; waits = [] }

  unfoldable pub send_with_retry : ℕ → Sent
  unfolding attempt_from
  send_with_retry attempts = attempt_from (max_attempts attempts - 1) 0 200

  abbrev pub noted : Answer → NetMetrics → NetMetrics
  noted (Answer.response status) m = if should_retry_status status then http_error m else m
  noted (Answer.failure true) m = http_timeout m
  noted (Answer.failure false) m = http_error m

  unfoldable pub attempt_noted : (left attempt backoff : ℕ) → NetMetrics → Sent × NetMetrics
  unfolding should_retry_status http_error http_timeout
  attempt_noted zero attempt backoff m = (
    record { answer = answers attempt; requests = suc attempt; waits = [] },
    noted (answers attempt) m,
  )
  attempt_noted (suc left) attempt backoff m =
      let rest = attempt_noted left (suc attempt) (doubled backoff) (noted (answers attempt) m) in
      if is_retried (answers attempt)
      then (record rest.0 { waits = backoff ∷ rest.0.waits }, rest.1)
      else (
        record { answer = answers attempt; requests = suc attempt; waits = [] },
        noted (answers attempt) m,
      )

  unfoldable pub send_with_retry_metrics : ℕ → NetMetrics → Sent × NetMetrics
  unfolding attempt_noted
  send_with_retry_metrics attempts m = attempt_noted (max_attempts attempts - 1) 0 200 m
