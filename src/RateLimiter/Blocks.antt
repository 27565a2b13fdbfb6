-- ===== src/RateLimiter/Blocks.antt =====
-- How long an address is blocked.
use Prim.Native.String.{◌++◌}
use native.Mathlib.Nat.{mul-le-mul_left}
use fedi.Base.{
  string_eq, ℕ, ◌+◌, ◌-◌, ◌*◌, ◌≤◌, ◌<◌, ◌≡◌, refl, max, min, true, false, Option, none, some,
  String, arith, ltb, leb, ◌==◌, inl, inr, Bool-cases, u64_max, i64_max, is_some, sat_add_u32,
}
use fedi.HashMap.{lookup, insert, IsUnique, lookup-retain, lookup-insert_self, insert-IsUnique}
use fedi.Queue.Backoff.{pow_pos}
use fedi.RateLimiter.{
  NoisyState, RateLimiter, Shared, or_noisy, backoff_secs_of, strike, register_noisy, remaining_of,
  prune_noisy, prune_windows, current_window, or_window, count_here, remaining_here,
  noisy_block_remaining, unless_blocked, check_weighted,
}

-- If the base is a u64, a block lasts at least the base and at most the larger of base and maximum.
backoff_bounds :
    (base_secs max_secs strikes : ℕ)
    → base_secs ≤ u64_max
    → (base_secs ≤ backoff_secs_of base_secs max_secs strikes)
      × (backoff_secs_of base_secs max_secs strikes ≤ max max_secs base_secs)
unfolding backoff_secs_of
backoff_bounds base_secs max_secs strikes h =
    (omega (arith, mul-le-mul_left base_secs (pow_pos (min (strikes - 1) 10))), omega arith)

-- An entry that lies ahead and was hit within a day blocks the address.
block-remains :
    (ip : String) (later : ℕ) (l : RateLimiter) (n : NoisyState)
    → 0 < l.noisy_backoff_base_secs
    → IsUnique l.noisy
    → lookup ip l.noisy ≡ some n
    → later < n.blocked_until_ms
    → later ≤ n.last_hit_ms + 86400000
    → is_some (remaining_of later (lookup ip (prune_noisy later l.noisy))) ≡ true
unfolding prune_noisy
block-remains ip later l n p u e b d =
    ground
      (arith, lookup-retain (λ n. leb (later - 24 * 3600 * 1000) n.last_hit_ms) ip l.noisy u, e)

unless_blocked-refuses :
    (shared : Shared) (key ip : String) (per_minute weight now : ℕ) (r : Option ℕ × RateLimiter)
    → is_some r.0 ≡ true
    → (unless_blocked shared key ip per_minute weight now r).0 ≡ false
unless_blocked-refuses shared key ip per_minute weight now (none, l) h = ground (arith, h)
unless_blocked-refuses shared key ip per_minute weight now (some secs, l) h = refl

remaining_here-blocked :
    (block_secs : Option ℕ) (ip : String) (later : ℕ) (l : RateLimiter)
    → is_some (remaining_of later (lookup ip (prune_noisy later l.noisy))) ≡ true
    → is_some (remaining_here block_secs ip later l).0 ≡ true
remaining_here-blocked none ip later l h = h
remaining_here-blocked (some secs) ip later l h = refl

noisy_block-remaining :
    (shared : Shared) (ip : String) (later : ℕ) (l : RateLimiter)
    → 0 < l.noisy_backoff_base_secs
    → is_some (remaining_of later (lookup ip (prune_noisy later l.noisy))) ≡ true
    → is_some (noisy_block_remaining shared ip later l).0 ≡ true
unfolding noisy_block_remaining
noisy_block-remaining shared ip later l p h =
    ground (arith, remaining_here-blocked shared.block_secs ip later l h)

blocked-refuses :
    (shared : Shared) (ip bucket : String) (per_minute weight later at_count : ℕ) (l : RateLimiter)
    → 0 < l.noisy_backoff_base_secs
    → is_some (remaining_of later (lookup ip (prune_noisy later l.noisy))) ≡ true
    → (check_weighted shared ip bucket per_minute weight later at_count l).0 ≡ false
unfolding check_weighted
blocked-refuses shared ip bucket per_minute weight later at_count l p h =
    unless_blocked-refuses shared (bucket ++ ":" ++ ip) ip per_minute weight at_count
      (noisy_block_remaining shared ip later l) (noisy_block-remaining shared ip later l p h)

module _ (ip : String) (l : RateLimiter) (now : ℕ) (p : 0 < l.noisy_backoff_base_secs) where
  abbrev struck : NoisyState
  struck =
      strike l.noisy_backoff_base_secs l.noisy_backoff_max_secs now
        (or_noisy now (lookup ip l.noisy))

  register_noisy-base :
      (register_noisy ip now l).noisy_backoff_base_secs ≡ l.noisy_backoff_base_secs
  unfolding register_noisy
  register_noisy-base = ground arith

  register_noisy-lookup : lookup ip (register_noisy ip now l).noisy ≡ some struck
  unfolding register_noisy
  register_noisy-lookup = ground (arith, lookup-insert_self ip struck l.noisy)

  register_noisy-IsUnique : IsUnique l.noisy → IsUnique (register_noisy ip now l).noisy
  unfolding register_noisy
  register_noisy-IsUnique u = elim (Bool-cases (l.noisy_backoff_base_secs == 0)) [
    | inl t ↦ rw (t) u
    | inr t ↦ rw (t) (insert-IsUnique ip struck l.noisy u)
  ]

  struck-until :
      l.noisy_backoff_base_secs ≤ u64_max
      → l.noisy_backoff_base_secs * 1000 ≤ i64_max
      → (now + l.noisy_backoff_base_secs * 1000 ≤ struck.blocked_until_ms)
        × (struck.last_hit_ms ≡ now)
  unfolding strike
  struck-until h w = (
    omega
        (arith, backoff_bounds l.noisy_backoff_base_secs l.noisy_backoff_max_secs struck.strikes h),
    refl,
  )

  -- After a strike every call of the address is refused for at least the base, on any bucket and
  -- whatever a shared store answers.
  register_noisy-refuses :
      (shared : Shared) (bucket : String) (per_minute weight later at_count : ℕ)
      → IsUnique l.noisy
      → l.noisy_backoff_base_secs ≤ u64_max
      → l.noisy_backoff_base_secs * 1000 ≤ i64_max
      → later < now + l.noisy_backoff_base_secs * 1000
      → later ≤ now + 86400000
      → (check_weighted shared ip bucket per_minute weight later at_count
          (register_noisy ip now l)).0
        ≡ false
  register_noisy-refuses shared bucket per_minute weight later at_count u h w b d =
      let after = register_noisy ip now l in
      let until = struck-until h w in
      let q : 0 < after.noisy_backoff_base_secs = rw (register_noisy-base) p in
      blocked-refuses shared ip bucket per_minute weight later at_count after q (
        block-remains ip later after struck q (register_noisy-IsUnique u) register_noisy-lookup
          (omega (arith, until.0)) (omega (arith, until.1)))

-- A refusal for the limit is a strike.
count_here-strikes :
    (key ip : String) (per_minute weight now : ℕ) (l : RateLimiter)
    → (count_here key ip per_minute weight now l).0 ≡ false
    → (k : RateLimiter) × ((count_here key ip per_minute weight now l).1 ≡ register_noisy ip now k
        × ((k.noisy ≡ l.noisy) × (k.noisy_backoff_base_secs ≡ l.noisy_backoff_base_secs)))
unfolding count_here
count_here-strikes key ip per_minute weight now l h =
    let m = prune_windows now l.inner in
    let w = current_window now (or_window now (lookup key m)) in
    elim (Bool-cases (ltb per_minute (sat_add_u32 w.count (max weight 1)))) [
      | inl t ↦ (record l { inner = insert key w m }, (rw (t) refl, (refl, refl)))
      | inr t ↦ ground (arith, rw (t) at h)
    ]

-- With a base from 1 second to a day and distinct addresses, in the state that a call refused by
-- the window leaves, a call of its address is refused at any time until the base is over, on any
-- bucket and whatever a shared store answers then.
pub refusal_blocks :
    (ip bucket other : String) (per_minute weight now limit by later at_count : ℕ) (shared : Shared)
    (l : RateLimiter)
    → 0 < l.noisy_backoff_base_secs
    → l.noisy_backoff_base_secs ≤ 86400
    → IsUnique l.noisy
    → (count_here (bucket ++ ":" ++ ip) ip per_minute weight now l).0 ≡ false
    → later < now + l.noisy_backoff_base_secs * 1000
    → (check_weighted shared ip other limit by later at_count
        (count_here (bucket ++ ":" ++ ip) ip per_minute weight now l).1).0
      ≡ false
refusal_blocks ip bucket other per_minute weight now limit by later at_count shared l p d u h b =
    let k = count_here-strikes (bucket ++ ":" ++ ip) ip per_minute weight now l h in
    let base = k.1.1.1 in
    rw (k.1.0) (
      register_noisy-refuses ip k.0 now (omega (arith, base)) shared other limit by later at_count
        (rw (k.1.1.0) u) (omega (arith, base)) (omega (arith, base)) (omega (arith, base))
        (omega (arith, base)))
