-- ===== src/HttpRetry/Examples.antt =====
-- Runs of the retries, and the theorems at concrete inputs.
use fedi.Base.{ℕ, zero, suc, ◌-◌, ◌≡◌, refl, true}
use fedi.NetMetrics.{new}
use fedi.HttpRetry.{Answer, max_attempts, send_with_retry, send_with_retry_metrics}
use fedi.HttpRetry.Attempts.{Settles, send_with_retry-Settles}

-- A timeout, a 503, and a 200.
abbrev answers : ℕ → Answer
answers zero = Answer.failure true
answers (suc zero) = Answer.response 503
answers (suc (suc n)) = Answer.response 200

three_requests : (send_with_retry answers 4).requests ≡ 3
unfolding send_with_retry
three_requests = refl

gives_up : (send_with_retry answers 2).answer ≡ Answer.response 503
unfolding send_with_retry
gives_up = refl

one_error : (send_with_retry_metrics answers 4 new).1.http_errors ≡ 1
unfolding send_with_retry_metrics
one_error = refl

send_with_retry-Settles_example : Settles answers 0 (max_attempts 4 - 1) (send_with_retry answers 4)
send_with_retry-Settles_example = send_with_retry-Settles answers 4
