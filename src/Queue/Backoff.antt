-- ===== src/Queue/Backoff.antt =====
-- `next_backoff` of crates/fedi3_core/src/delivery_queue.rs (and its copy in object_fetch.rs).
use native.Mathlib.Nat.{pow-suc, mul-le-mul_left}
use fedi.Base.{
  ℕ, zero, suc, ◌+◌, ◌-◌, ◌*◌, ◌%◌, ◌^◌, ◌≤◌, ◌≡◌, min, arith, ltb, if◌then◌else◌, sat_mul_u64,
  u64_max,
}

-- The delay in whole seconds, before the jitter.
unfoldable pub backoff_secs : ℕ → ℕ → ℕ → ℕ
backoff_secs attempt base_secs max_secs =
    let pow = min (attempt - 1) 20 in
    let secs = sat_mul_u64 base_secs (2 ^ pow) in if ltb max_secs secs then max_secs else secs

-- In milliseconds; `random` is the `u16` drawn for the jitter.
unfoldable pub next_backoff : ℕ → ℕ → ℕ → ℕ → ℕ
unfolding backoff_secs
next_backoff attempt base_secs max_secs random =
    backoff_secs attempt base_secs max_secs * 1000 + random % 1000

pub pow_pos : (k : ℕ) → 1 ≤ 2 ^ k
pow_pos zero = omega arith
pow_pos (suc k) = omega (arith, pow_pos k, pow-suc 2 k)

pow_mono : (j k : ℕ) → j ≤ k → 2 ^ j ≤ 2 ^ k
pow_mono zero k h = pow_pos k
pow_mono (suc j) zero h = absurd (omega arith)
pow_mono (suc j) (suc k) h = omega (arith, pow_mono j k (omega arith), pow-suc 2 j, pow-suc 2 k)

-- If the maximum is a u64, the delay in seconds is the smaller of the maximum and the base doubled
-- with each attempt after the first, 20 times at most.
backoff_secs-eq-min :
    (attempt base_secs max_secs : ℕ)
    → max_secs ≤ u64_max
    → backoff_secs attempt base_secs max_secs ≡ min max_secs (base_secs * 2 ^ min (attempt - 1) 20)
unfolding backoff_secs
backoff_secs-eq-min attempt base_secs max_secs h = ground arith

-- A later attempt never waits less, before the jitter.
pub backoff_secs_mono :
    (a b base_secs max_secs : ℕ)
    → a ≤ b
    → backoff_secs a base_secs max_secs ≤ backoff_secs b base_secs max_secs
unfolding backoff_secs
backoff_secs_mono a b base_secs max_secs h =
    ground
      (arith, mul-le-mul_left base_secs (pow_mono (min (a - 1) 20) (min (b - 1) 20) (omega arith)))

-- If the base is a u64, the delay is at most the maximum plus 999 ms and at least the smaller of
-- base and maximum.
next_backoff_bounds :
    (attempt base_secs max_secs random : ℕ)
    → base_secs ≤ u64_max
    → (next_backoff attempt base_secs max_secs random ≤ max_secs * 1000 + 999)
      × (min base_secs max_secs * 1000 ≤ next_backoff attempt base_secs max_secs random)
unfolding next_backoff
next_backoff_bounds attempt base_secs max_secs random h =
    ground (arith, mul-le-mul_left base_secs (pow_pos (min (attempt - 1) 20)))
