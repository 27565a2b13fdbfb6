-- ===== src/Forward/Circuit/Opening.antt =====
-- When a circuit opens, and how long it then refuses requests.
use fedi.Base.{
  string_eq, ℕ, suc, ◌+◌, ◌≤◌, ◌<◌, ◌≡◌, refl, true, false, Option, none, some, List, [], ◌∷◌,
  String, arith, ltb, i64_max, u32_max, length, inl, inr, Bool-cases, ap, ◌∙◌,
}
use fedi.HashMap.{lookup, IsUnique, keep_some, lookup-retain, lookup-insert_self, insert-IsUnique}
use fedi.Forward.{ForwardRetryBudget, RelayConfig, AppState}
use fedi.Forward.Routes.{forward_retry_budget_key}
use fedi.Forward.Circuit.{
  fresh, or_fresh, is_closed, allow_entry, is_kept, prune_budgets, forward_retry_budget_allow,
  opened, count_failure, failure_entry, forward_retry_budget_failure, failure_key,
}
use fedi.Forward.Circuit.Probe.{allow-with_key, allow-answer}

module _ (cfg : RelayConfig) (user path key : String)
    (has_key : forward_retry_budget_key user path ≡ some key) where
  module _ (hash : String → ℕ → ℕ) where
    -- A failure at each of the times in turn.
    abbrev pub note_failures : List ℕ → AppState → AppState
    note_failures [] st = st
    note_failures (t ∷ ts) st =
        note_failures ts (forward_retry_budget_failure hash cfg user path t st)

    -- A closed entry that has counted some failures.
    abbrev counted : ℕ → ForwardRetryBudget
    counted n = record fresh { consecutive_failures = n }

    failure-with_key :
        (t : ℕ) (st : AppState)
        → forward_retry_budget_failure hash cfg user path t st
          ≡ failure_key hash cfg t (some key) st
    unfolding forward_retry_budget_failure
    failure-with_key t st = rw (has_key) refl

    failure-lookup :
        (t : ℕ) (st : AppState) (b : ForwardRetryBudget)
        → or_fresh (lookup key st.forward_retry_budget) ≡ b
        → lookup key (forward_retry_budget_failure hash cfg user path t st).forward_retry_budget
          ≡ some (failure_entry hash cfg key t b).0
    failure-lookup t st b e = rw (failure-with_key t st, lookup-insert_self, e) refl

    failure-IsUnique :
        (t : ℕ) (st : AppState)
        → IsUnique st.forward_retry_budget
        → IsUnique (forward_retry_budget_failure hash cfg user path t st).forward_retry_budget
    failure-IsUnique t st u = rw (failure-with_key t st) (insert-IsUnique key _ _ u)

    failure_entry-counted :
        (t n : ℕ)
        → suc n < cfg.forward_circuit_failures_to_open
        → cfg.forward_circuit_failures_to_open ≤ u32_max
        → (failure_entry hash cfg key t (counted n)).0 ≡ counted (suc n)
    unfolding failure_entry count_failure
    failure_entry-counted t n h w = ground arith

    failure_entry-opens :
        (t n : ℕ)
        → suc n ≡ cfg.forward_circuit_failures_to_open
        → cfg.forward_circuit_failures_to_open ≤ u32_max
        → (failure_entry hash cfg key t (counted n)).0 ≡ opened hash cfg key t
    unfolding failure_entry count_failure
    failure_entry-opens t n h w = ground arith

    note_failures-counted :
        (n m : ℕ) (ts : List ℕ) (st : AppState)
        → m ≡ n + length ts
        → m < cfg.forward_circuit_failures_to_open
        → cfg.forward_circuit_failures_to_open ≤ u32_max
        → or_fresh (lookup key st.forward_retry_budget) ≡ counted n
        → or_fresh (lookup key (note_failures ts st).forward_retry_budget) ≡ counted m
    note_failures-counted n m [] st s h w e = ground (arith, e)
    note_failures-counted n m (t ∷ ts) st s h w e =
        let next = forward_retry_budget_failure hash cfg user path t st in
        note_failures-counted (suc n) m ts next (omega arith) h w
          (rw (failure-lookup t st (counted n) e) (failure_entry-counted t n (omega arith) w))

    note_failures-IsUnique :
        (ts : List ℕ) (st : AppState)
        → IsUnique st.forward_retry_budget
        → IsUnique (note_failures ts st).forward_retry_budget
    note_failures-IsUnique [] st u = u
    note_failures-IsUnique (t ∷ ts) st u = note_failures-IsUnique ts _ (failure-IsUnique t st u)

    opened-refuses :
        (t now : ℕ)
        → t + cfg.forward_retry_cooldown_ms ≤ i64_max
        → now < t + cfg.forward_retry_cooldown_ms
        → (allow_entry now (opened hash cfg key t)).allowed ≡ false
    unfolding opened allow_entry
    opened-refuses t now h l = ground arith

    opened-not_closed : (t : ℕ) → is_closed (opened hash cfg key t).state ≡ false
    unfolding opened
    opened-not_closed t = refl

    -- If a path has a key, the keys of the map are distinct and the entry is absent or fresh, then
    -- in the state that as many failures in a row as open a circuit leave, with nothing else in
    -- between, a request is refused at any time until the cooldown after the last of them is over,
    -- provided that the number fits in a u32 and the time in an i64.
    pub opens :
        (ts : List ℕ) (last now : ℕ) (st : AppState)
        → IsUnique st.forward_retry_budget
        → or_fresh (lookup key st.forward_retry_budget) ≡ fresh
        → suc (length ts) ≡ cfg.forward_circuit_failures_to_open
        → cfg.forward_circuit_failures_to_open ≤ u32_max
        → last + cfg.forward_retry_cooldown_ms ≤ i64_max
        → now < last + cfg.forward_retry_cooldown_ms
        → (forward_retry_budget_allow cfg user path now
            (forward_retry_budget_failure hash cfg user path last (note_failures ts st))).0
          ≡ false
    opens ts last now st u e n w b l =
        let before = note_failures ts st in
        let is_open =
          failure-lookup last before (counted (length ts))
            (note_failures-counted 0 (length ts) ts st (omega arith) (omega arith) w e)
          ∙ ap some (failure_entry-opens last (length ts) n w) in
        allow-answer cfg user path key has_key now (opened hash cfg key last)
          (forward_retry_budget_failure hash cfg user path last before)
          (failure-IsUnique last before (note_failures-IsUnique ts st u)) is_open
          (opened-not_closed last)
        ∙ opened-refuses last now b l

    -- Pruning the map may drop a closed entry, which then counts as fresh.
    pruned-allows :
        (now n : ℕ) (m : List (String × ForwardRetryBudget))
        → IsUnique m
        → or_fresh (lookup key m) ≡ counted n
        → (allow_entry now (or_fresh (lookup key (prune_budgets cfg now m)))).allowed ≡ true
    unfolding prune_budgets allow_entry
    pruned-allows now n m u e = elim (Bool-cases (ltb 25000 (length m))) [
      | inl t ↦ rw (t, lookup-retain (is_kept cfg now) key m u) (kept-allows (lookup key m) e)
      | inr t ↦ rw (t, e) refl
    ]
      where
        kept-allows :
            (o : Option ForwardRetryBudget)
            → or_fresh o ≡ counted n
            → (allow_entry now (or_fresh (keep_some (is_kept cfg now) o))).allowed ≡ true
        kept-allows none e = refl
        kept-allows (some b) e = elim (Bool-cases (is_kept cfg now b)) [
          | inl t ↦ rw (t, e) refl
          | inr t ↦ rw (t) refl
        ]

    -- If a path has a key, the keys of the map are distinct and the entry is absent or fresh, then
    -- after fewer failures than open a circuit, a u32, a request is let through at any time.
    stays_closed :
        (ts : List ℕ) (now : ℕ) (st : AppState)
        → IsUnique st.forward_retry_budget
        → or_fresh (lookup key st.forward_retry_budget) ≡ fresh
        → length ts < cfg.forward_circuit_failures_to_open
        → cfg.forward_circuit_failures_to_open ≤ u32_max
        → (forward_retry_budget_allow cfg user path now (note_failures ts st)).0 ≡ true
    stays_closed ts now st u e n w =
        rw (allow-with_key cfg user path key has_key now (note_failures ts st)) (
          pruned-allows now (length ts) (note_failures ts st).forward_retry_budget
            (note_failures-IsUnique ts st u)
            (note_failures-counted 0 (length ts) ts st (omega arith) n w e))
