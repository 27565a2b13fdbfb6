-- ===== src/RateLimiter.antt =====
-- The rate limiter of crates/fedi3_relay/src/main.rs: one window of a minute for each bucket and
-- address, and a growing block for an address that goes on over its limit. The shared store behind
-- it, where there is one, is an argument: whether it answers, and what. The lock of a map covers one
-- step here, with the clock readings as arguments.
pub mod Windows
pub mod Blocks
mod Examples
use Prim.Native.String.{◌++◌}
use fedi.Base.{
  string_eq, ℕ, ◌+◌, ◌-◌, ◌*◌, ◌/◌, ◌^◌, Bool, true, false, min, max, Option, none, some, List,
  String, ltb, leb, ◌==◌, if◌then◌else◌, length, sat_add_u32, sat_mul_u64, sat_mul_i64,
}
use fedi.HashMap.{lookup, insert, retain}

pub record WindowCounter : Type 0 where
  pub window_start_ms : ℕ
  pub count : ℕ

pub record NoisyState : Type 0 where
  pub strikes : ℕ
  pub blocked_until_ms : ℕ
  pub last_hit_ms : ℕ

pub record RateLimiter : Type 0 where
  pub inner : List (String × WindowCounter)
  pub noisy : List (String × NoisyState)
  pub noisy_backoff_base_secs : ℕ
  pub noisy_backoff_max_secs : ℕ

-- What the shared store answers: the seconds of a block, and whether a request is within the limit.
-- Without a store both are none.
pub record Shared : Type 0 where
  pub block_secs : Option ℕ
  pub is_within : Option Bool

abbrev pub or_window : ℕ → Option WindowCounter → WindowCounter
or_window now none = record { window_start_ms = now; count = 0 }
or_window now (some w) = w

abbrev pub or_noisy : ℕ → Option NoisyState → NoisyState
or_noisy now none = record { strikes = 0; blocked_until_ms = 0; last_hit_ms = now }
or_noisy now (some n) = n

-- A new minute starts when the last began more than a minute ago.
unfoldable pub current_window : ℕ → WindowCounter → WindowCounter
current_window now w =
    if ltb 60000 (now - w.window_start_ms) then record { window_start_ms = now; count = 0 } else w

unfoldable pub backoff_secs_of : (base_secs max_secs strikes : ℕ) → ℕ
backoff_secs_of base_secs max_secs strikes =
    min (sat_mul_u64 base_secs (2 ^ min (strikes - 1) 10)) (max max_secs base_secs)

-- One more strike, the first after ten quiet minutes.
unfoldable pub strike : (base_secs max_secs now : ℕ) → NoisyState → NoisyState
unfolding backoff_secs_of
strike base_secs max_secs now n =
    let strikes = sat_add_u32 (if ltb 600000 (now - n.last_hit_ms) then 0 else n.strikes) 1 in
    record {
      strikes = strikes;
      blocked_until_ms = now + sat_mul_i64 (backoff_secs_of base_secs max_secs strikes) 1000;
      last_hit_ms = now;
    }

unfoldable pub register_noisy : String → ℕ → RateLimiter → RateLimiter
unfolding strike
register_noisy ip now l = if l.noisy_backoff_base_secs == 0 then l else record l {
  noisy =
      insert ip
        (strike l.noisy_backoff_base_secs l.noisy_backoff_max_secs now
          (or_noisy now (lookup ip l.noisy)))
        l.noisy;
}

abbrev pub remaining_of : ℕ → Option NoisyState → Option ℕ
remaining_of now none = none
remaining_of now (some n) =
    if leb n.blocked_until_ms now then none else some ((n.blocked_until_ms - now + 999) / 1000)

-- Addresses that were not noisy for a day are dropped once the map is large.
unfoldable pub prune_noisy : ℕ → List (String × NoisyState) → List (String × NoisyState)
prune_noisy now m =
    if ltb 10000 (length m) then retain (λ n. leb (now - 24 * 3600 * 1000) n.last_hit_ms) m else m

abbrev pub remaining_here : Option ℕ → String → ℕ → RateLimiter → Option ℕ × RateLimiter
remaining_here (some ttl) ip now l = (some ttl, l)
remaining_here none ip now l =
    let noisy = prune_noisy now l.noisy in
    (remaining_of now (lookup ip noisy), record l { noisy = noisy })

-- The seconds for which an address is still blocked.
unfoldable pub noisy_block_remaining : Shared → String → ℕ → RateLimiter → Option ℕ × RateLimiter
unfolding prune_noisy
noisy_block_remaining shared ip now l =
    if l.noisy_backoff_base_secs == 0 then (none, l) else remaining_here shared.block_secs ip now l

unfoldable pub prune_windows : ℕ → List (String × WindowCounter) → List (String × WindowCounter)
prune_windows now m =
    if ltb 10000 (length m) then retain (λ w. leb (now - 120000) w.window_start_ms) m else m

-- The window of a key takes the weight if it stays within the limit.
unfoldable pub count_here :
    (key ip : String) (per_minute weight now : ℕ) → RateLimiter → Bool × RateLimiter
unfolding current_window prune_windows register_noisy
count_here key ip per_minute weight now l =
    let m = prune_windows now l.inner in
    let w = current_window now (or_window now (lookup key m)) in
    let sum = sat_add_u32 w.count (max weight 1) in
    if ltb per_minute sum
    then (false, register_noisy ip now (record l { inner = insert key w m }))
    else (true, record l { inner = insert key (record w { count = sum }) m })

abbrev pub unless_shared :
    Option Bool → (key ip : String) (per_minute weight now : ℕ) → RateLimiter → Bool × RateLimiter
unless_shared none key ip per_minute weight now l = count_here key ip per_minute weight now l
unless_shared (some true) key ip per_minute weight now l = (true, l)
unless_shared (some false) key ip per_minute weight now l = (false, register_noisy ip now l)

abbrev pub unless_blocked :
    Shared
    → (key ip : String) (per_minute weight now : ℕ) → Option ℕ × RateLimiter
    → Bool × RateLimiter
unless_blocked shared key ip per_minute weight now (some secs, l) = (false, l)
unless_blocked shared key ip per_minute weight now (none, l) =
    unless_shared shared.is_within key ip per_minute weight now l

-- `at_block` and `now` are the readings of the clock for the block and for the count.
unfoldable pub check_weighted :
    Shared
    → (ip bucket : String) (per_minute weight at_block now : ℕ) → RateLimiter
    → Bool × RateLimiter
unfolding noisy_block_remaining count_here register_noisy
check_weighted shared ip bucket per_minute weight at_block now l =
    unless_blocked shared (bucket ++ ":" ++ ip) ip per_minute weight now
      (noisy_block_remaining shared ip at_block l)

unfoldable pub check :
    Shared → (ip bucket : String) (per_minute at_block now : ℕ) → RateLimiter → Bool × RateLimiter
unfolding check_weighted
check shared ip bucket per_minute at_block now l =
    check_weighted shared ip bucket per_minute 1 at_block now l
