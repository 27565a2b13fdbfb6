-- ===== src/RateLimiter/Examples.antt =====
-- Runs of the rate limiter, and the theorems at concrete inputs.
use fedi.Base.{string_eq, ◌+◌, ◌≤◌, ◌≡◌, refl, true, false, none, some, List, [], ◌∷◌, arith}
use fedi.HashMap.{lookup}
use fedi.RateLimiter.{RateLimiter, count_here, check_weighted, check}
use fedi.RateLimiter.Windows.{alone, Ask, admitted, window_bound}
use fedi.RateLimiter.Blocks.{refusal_blocks}

abbrev limiter : RateLimiter
limiter = record {
  inner = ("api:10.0.0.1", record { window_start_ms = 1000; count = 2 }) ∷ [];
  noisy = [];
  noisy_backoff_base_secs = 30;
  noisy_backoff_max_secs = 600;
}

abbrev asks : List Ask
asks =
    record { weight = 1; at_block = 2000; now = 2001 }
    ∷ record { weight = 5; at_block = 3000; now = 3001 }
    ∷ []

first_is_admitted : (check alone "10.0.0.1" "api" 3 2000 2001 limiter).0 ≡ true
unfolding check lookup
first_is_admitted = refl

over_limit : (count_here "api:10.0.0.1" "10.0.0.1" 3 5 3001 limiter).0 ≡ false
unfolding count_here lookup
over_limit = refl

shared_refuses :
    (check (record { block_secs = none; is_within = some false }) "10.0.0.2" "api" 3 1 2 limiter).0
    ≡ false
unfolding check lookup
shared_refuses = refl

window_bound_example : 2 + admitted "10.0.0.1" "api" 3 asks limiter ≤ 3
unfolding lookup
window_bound_example =
    window_bound "10.0.0.1" "api" 3 1000 2 asks limiter (omega arith) (omega arith)
      ((refl, tt), refl) (omega arith, (omega arith, tt))

refusal_blocks_example :
    (check_weighted alone "10.0.0.1" "other" 100 1 32000 32001
      (count_here "api:10.0.0.1" "10.0.0.1" 3 5 3001 limiter).1).0
    ≡ false
refusal_blocks_example =
    refusal_blocks "10.0.0.1" "api" "other" 3 5 3001 100 1 32000 32001 alone limiter (omega arith)
      (omega arith) tt over_limit (omega arith)
