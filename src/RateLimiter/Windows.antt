-- ===== src/RateLimiter/Windows.antt =====
-- How much a window admits.
use Prim.Native.String.{◌++◌}
use fedi.Base.{
  string_eq, ℕ, ◌+◌, ◌-◌, ◌≤◌, ◌<◌, ◌≡◌, refl, max, min, Bool, true, false, Option, none, some,
  List, [], ◌∷◌, String, arith, ltb, leb, if◌then◌else◌, length, inl, inr, Bool-cases, u32_max, All,
}
use fedi.HashMap.{
  lookup, insert, IsUnique, lookup-retain, lookup-insert_self, insert-IsUnique, retain-IsUnique,
}
use fedi.RateLimiter.{
  WindowCounter, RateLimiter, Shared, current_window, register_noisy, noisy_block_remaining,
  prune_windows, count_here, unless_blocked, check_weighted,
}

-- No shared store.
abbrev pub alone : Shared
alone = record { block_secs = none; is_within = none }

register_noisy-inner :
    (ip : String) (now : ℕ) (l : RateLimiter) → (register_noisy ip now l).inner ≡ l.inner
unfolding register_noisy
register_noisy-inner ip now l = ground arith

block-inner :
    (ip : String) (now : ℕ) (l : RateLimiter)
    → (noisy_block_remaining alone ip now l).1.inner ≡ l.inner
unfolding noisy_block_remaining
block-inner ip now l = ground arith

-- The weight that a call adds to the window.
abbrev pub weight_in : Bool → ℕ → ℕ
weight_in ok weight = if ok then max weight 1 else 0

module _ (key ip : String) (per_minute : ℕ) (start : ℕ) where
  -- The window of the key began at `start` and has counted some weight.
  abbrev pub Counted : ℕ → RateLimiter → Type 0
  Counted n l =
      IsUnique l.inner × (lookup key l.inner ≡ some (record { window_start_ms = start; count = n }))

  prune_windows-lookup :
      (now n : ℕ) (m : List (String × WindowCounter))
      → now ≤ start + 60000
      → IsUnique m
      → lookup key m ≡ some (record { window_start_ms = start; count = n })
      → lookup key (prune_windows now m) ≡ some (record { window_start_ms = start; count = n })
  unfolding prune_windows
  prune_windows-lookup now n m h u e =
      ground (arith, lookup-retain (λ w. leb (now - 120000) w.window_start_ms) key m u, e)

  prune_windows-IsUnique :
      (now : ℕ) (m : List (String × WindowCounter)) → IsUnique m → IsUnique (prune_windows now m)
  unfolding prune_windows
  prune_windows-IsUnique now m u = elim (Bool-cases (ltb 10000 (length m))) [
    | inl t ↦ rw (t) (retain-IsUnique (λ w. leb (now - 120000) w.window_start_ms) m u)
    | inr t ↦ rw (t) u
  ]

  current_window-same :
      (now n : ℕ)
      → now ≤ start + 60000
      → current_window now (record { window_start_ms = start; count = n })
        ≡ record { window_start_ms = start; count = n }
  unfolding current_window
  current_window-same now n h = ground arith

  abbrev window_of : ℕ → WindowCounter
  window_of n = record { window_start_ms = start; count = n }

  count_here-eq :
      (weight now n : ℕ) (l : RateLimiter)
      → now ≤ start + 60000
      → Counted n l
      → count_here key ip per_minute weight now l ≡ (
          let m = prune_windows now l.inner in
          let sum = min (n + max weight 1) u32_max in
          if ltb per_minute sum
          then (false, register_noisy ip now (record l { inner = insert key (window_of n) m }))
          else (true, record l { inner = insert key (window_of sum) m }))
  unfolding count_here current_window
  count_here-eq weight now n l h c =
      rw (prune_windows-lookup now n l.inner h c.0 c.1, current_window-same now n h) refl

  -- A call in the minute of the window leaves it counted, with the weight if it was admitted.
  count_here-Counted :
      (weight now n k : ℕ) (l : RateLimiter)
      → now ≤ start + 60000
      → n ≤ per_minute
      → per_minute < u32_max
      → Counted n l
      → k ≡ n + weight_in (count_here key ip per_minute weight now l).0 weight
      → Counted k (count_here key ip per_minute weight now l).1 × (k ≤ per_minute)
  count_here-Counted weight now n k l h b w c e =
      let m = prune_windows now l.inner in
      let um = prune_windows-IsUnique now l.inner c.0 in
      let sum = min (n + max weight 1) u32_max in
      let eq = count_here-eq weight now n l h c in
      elim (Bool-cases (ltb per_minute sum)) [
        | inl t ↦
            let same : k ≡ n = omega (arith, rw (eq, t) at e) in
            rw (eq, t, register_noisy-inner, same)
              ((insert-IsUnique key (window_of n) m um, lookup-insert_self key (window_of n) m), b)
        | inr t ↦
            let same : k ≡ sum = ground (arith, t, rw (eq, t) at e) in
            rw (eq, t, same)
              (
                (
                  insert-IsUnique key (window_of sum) m um,
                  lookup-insert_self key (window_of sum) m,
                ),
                ground (arith, t),
              )
      ]

  unless_blocked-Counted :
      (weight now n k : ℕ) (r : Option ℕ × RateLimiter)
      → now ≤ start + 60000
      → n ≤ per_minute
      → per_minute < u32_max
      → Counted n r.1
      → k ≡ n + weight_in (unless_blocked alone key ip per_minute weight now r).0 weight
      → Counted k (unless_blocked alone key ip per_minute weight now r).1 × (k ≤ per_minute)
  unless_blocked-Counted weight now n k (none, l) h b w c e =
      count_here-Counted weight now n k l h b w c e
  unless_blocked-Counted weight now n k (some secs, l) h b w c e =
      let same : k ≡ n = omega (arith, e) in rw (same) (c, b)

-- A call: its weight and the two readings of the clock.
pub record Ask : Type 0 where
  pub weight : ℕ
  pub at_block : ℕ
  pub now : ℕ

module _ (ip bucket : String) (per_minute : ℕ) where
  abbrev pub key_of : String
  key_of = bucket ++ ":" ++ ip

  -- The weight that calls in turn have admitted.
  unfoldable pub admitted : List Ask → RateLimiter → ℕ
  unfolding check_weighted
  admitted [] l = 0
  admitted (a ∷ asks) l =
      let r = check_weighted alone ip bucket per_minute a.weight a.at_block a.now l in
      weight_in r.0 a.weight + admitted asks r.1

  -- Without a shared store, with distinct keys and a limit below 2 ^ 32 - 1, the weight that a
  -- window has counted, at most the limit, and the weight that any calls in turn of its address and
  -- bucket admit within a minute of its start come to at most the limit.
  pub window_bound :
      (start n : ℕ) (asks : List Ask) (l : RateLimiter)
      → n ≤ per_minute
      → per_minute < u32_max
      → Counted key_of ip per_minute start n l
      → All (λ a. a.now ≤ start + 60000) asks
      → n + admitted asks l ≤ per_minute
  unfolding admitted check_weighted
  window_bound start n [] l b w c h = omega (arith, b)
  window_bound start n (a ∷ asks) l b w c h =
      let r = noisy_block_remaining alone ip a.at_block l in
      let s = unless_blocked alone key_of ip per_minute a.weight a.now r in
      let k = n + weight_in s.0 a.weight in
      let cr : Counted key_of ip per_minute start n r.1 = rw (block-inner ip a.at_block l) c in
      let step =
        unless_blocked-Counted key_of ip per_minute start a.weight a.now n k r h.0 b w cr refl in
      omega (arith, window_bound start k asks s.1 step.1 w step.0 h.1)
