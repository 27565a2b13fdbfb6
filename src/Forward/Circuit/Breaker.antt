-- ===== src/Forward/Circuit/Breaker.antt =====
-- What holds of every circuit after any calls, and that a half-open circuit lets one request through.
use fedi.Base.{
  string_eq, ◌%◌, ◌-◌, ℕ, ◌+◌, ◌/◌, ◌≤◌, ◌<◌, ◌≡◌, refl, max, min, Bool, false, Option, none, some,
  List, [], ◌∷◌, String, arith, ltb, leb, i64_max, u32_max, length, inl, inr, Bool-cases, All,
  str_eq,
}
use native.Mathlib.Nat.{mod-lt}
use fedi.HashMap.{lookup, insert, All-remove, All-retain}
use fedi.Forward.{
  ForwardCircuitState, ForwardRetryBudget, RelayConfig, AppState, closed_circuit, open_circuit,
  half_open_circuit,
}
use fedi.Forward.Routes.{forward_retry_budget_key}
use fedi.Forward.Circuit.{
  fresh, or_fresh, rem_euclid, probe, allow_in, allow_entry, is_kept, prune_budgets, allow_key,
  forward_retry_budget_allow, retry_budget_jitter_ms, opened, count_failure, failure_in,
  failure_entry, failure_key, forward_retry_budget_failure, success_key,
  forward_retry_budget_success,
}

rem_euclid-lt : (h span : ℕ) → 0 < span → rem_euclid h span < span
unfolding rem_euclid
rem_euclid-lt h span p =
    ground (arith, mod-lt h p, mod-lt (span - (18446744073709551616 - h) % span) p)

module _ (cfg : RelayConfig) where
  -- The span from which the jitter is drawn.
  abbrev pub span : ℕ
  span = max (cfg.forward_retry_cooldown_ms / 5) 1

  abbrev pub StateIsSound : ForwardCircuitState → (probing : Bool) → (opened_at until : ℕ) → Type 0
  StateIsSound closed_circuit probing opened_at until = probing ≡ false
  StateIsSound open_circuit probing opened_at until =
      (probing ≡ false)
      × ((min (opened_at + cfg.forward_retry_cooldown_ms) i64_max ≤ until)
          × (until < opened_at + cfg.forward_retry_cooldown_ms + span))
  StateIsSound half_open_circuit probing opened_at until = Unit {0}

  -- A probe is in flight only while half open, a closed circuit has counted fewer failures than
  -- open it, and an open one stays open for its cooldown and less than the span more.
  abbrev pub IsSound : ForwardRetryBudget → Type 0
  IsSound b =
      (b.consecutive_failures < cfg.forward_circuit_failures_to_open)
      × StateIsSound b.state b.half_open_probe_in_flight b.opened_at_ms b.cooldown_until_ms

  fresh-IsSound : 0 < cfg.forward_circuit_failures_to_open → IsSound fresh
  fresh-IsSound p = (p, refl)

  probe-IsSound :
      (b : ForwardRetryBudget) (n : ℕ)
      → b.state ≡ half_open_circuit
      → b.consecutive_failures < cfg.forward_circuit_failures_to_open
      → IsSound (probe b n).entry
  unfolding probe
  probe-IsSound b n e h = ground arith

  allow_in-IsSound :
      (s : ForwardCircuitState) (now : ℕ) (b : ForwardRetryBudget)
      → b.state ≡ s
      → IsSound b
      → IsSound (allow_in s now b).entry
  allow_in-IsSound closed_circuit now b e h = h
  allow_in-IsSound open_circuit now b e h = elim (Bool-cases (leb b.cooldown_until_ms now)) [
    | inl t ↦ rw (t) (probe-IsSound _ 1 refl h.0)
    | inr t ↦ rw (t) h
  ]
  allow_in-IsSound half_open_circuit now b e h = probe-IsSound b 0 e h.0

  module _ (hash : String → ℕ → ℕ) (p : 0 < cfg.forward_circuit_failures_to_open) where
    opened-IsSound : (key : String) (now : ℕ) → IsSound (opened hash cfg key now)
    unfolding opened retry_budget_jitter_ms
    opened-IsSound key now = (
      p,
      (
        refl,
        (ground arith, omega (arith, rem_euclid-lt (hash key now) (max span 1) (omega arith))),
      ),
    )

    count_failure-IsSound :
        (key : String) (now : ℕ) (b : ForwardRetryBudget)
        → IsSound b
        → IsSound (count_failure hash cfg key now b).0
    unfolding count_failure
    count_failure-IsSound key now b h =
        elim (Bool-cases
          (leb cfg.forward_circuit_failures_to_open (min (b.consecutive_failures + 1) u32_max))) [
            | inl t ↦ rw (t) (opened-IsSound key now)
            | inr t ↦ rw (t) (ground (arith, t), h.1)
          ]

    failure_in-IsSound :
        (s : ForwardCircuitState) (key : String) (now : ℕ) (b : ForwardRetryBudget)
        → IsSound b
        → IsSound (failure_in hash cfg s key now b).0
    failure_in-IsSound closed_circuit key now b h = count_failure-IsSound key now b h
    failure_in-IsSound open_circuit key now b h = count_failure-IsSound key now b h
    failure_in-IsSound half_open_circuit key now b h = opened-IsSound key now

  module _ (p : 0 < cfg.forward_circuit_failures_to_open) where
    or_fresh-IsSound :
        (key : String) (m : List (String × ForwardRetryBudget))
        → All (λ e. IsSound e.1) m
        → IsSound (or_fresh (lookup key m))
    unfolding lookup
    or_fresh-IsSound key [] h = fresh-IsSound p
    or_fresh-IsSound key ((j, b) ∷ m) h = elim (Bool-cases (str_eq j key)) [
      | inl t ↦ rw (t) h.0
      | inr t ↦ rw (t) (or_fresh-IsSound key m h.1)
    ]

-- A call of one of the three operations.
pub data Call : Type 0 where
  allow : (user path : String) → ℕ → Call
  failure : (user path : String) → ℕ → Call
  success : (user path : String) → Call

module _ (hash : String → ℕ → ℕ) (cfg : RelayConfig) where
  unfoldable pub call : Call → AppState → AppState
  unfolding forward_retry_budget_allow forward_retry_budget_failure forward_retry_budget_success
  call (Call.allow user path now) st = (forward_retry_budget_allow cfg user path now st).1
  call (Call.failure user path now) st = forward_retry_budget_failure hash cfg user path now st
  call (Call.success user path) st = forward_retry_budget_success user path st

  abbrev pub calls : List Call → AppState → AppState
  calls [] st = st
  calls (c ∷ cs) st = calls cs (call c st)

  -- Every circuit of the relay is sound.
  abbrev pub CircuitsAreSound : AppState → Type 0
  CircuitsAreSound st = All (λ e. IsSound cfg e.1) st.forward_retry_budget

  module _ (p : 0 < cfg.forward_circuit_failures_to_open) where
    insert-IsSound :
        (key : String) (b : ForwardRetryBudget) (m : List (String × ForwardRetryBudget))
        → IsSound cfg b
        → All (λ e. IsSound cfg e.1) m
        → All (λ e. IsSound cfg e.1) (insert key b m)
    unfolding insert
    insert-IsSound key b m hb h = (hb, All-remove (IsSound cfg) key m h)

    prune-IsSound :
        (now : ℕ) (m : List (String × ForwardRetryBudget))
        → All (λ e. IsSound cfg e.1) m
        → All (λ e. IsSound cfg e.1) (prune_budgets cfg now m)
    unfolding prune_budgets
    prune-IsSound now m h = elim (Bool-cases (ltb 25000 (length m))) [
      | inl t ↦ rw (t) (All-retain (IsSound cfg) (is_kept cfg now) m h)
      | inr t ↦ rw (t) h
    ]

    allow_key_sound :
        (now : ℕ) (key : Option String) (st : AppState)
        → CircuitsAreSound st
        → CircuitsAreSound (allow_key cfg now key st).1
    unfolding allow_entry
    allow_key_sound now none st h = h
    allow_key_sound now (some key) st h =
        let m = prune_budgets cfg now st.forward_retry_budget in
        let hm = prune-IsSound now st.forward_retry_budget h in
        insert-IsSound key _ m (allow_in-IsSound cfg _ now _ refl (or_fresh-IsSound cfg p key m hm))
          hm

    failure_key_sound :
        (now : ℕ) (key : Option String) (st : AppState)
        → CircuitsAreSound st
        → CircuitsAreSound (failure_key hash cfg now key st)
    unfolding failure_entry
    failure_key_sound now none st h = h
    failure_key_sound now (some key) st h =
        let m = st.forward_retry_budget in
        insert-IsSound key _ m
          (failure_in-IsSound cfg hash p _ key now _ (or_fresh-IsSound cfg p key m h)) h

    success_key_sound :
        (key : Option String) (st : AppState)
        → CircuitsAreSound st
        → CircuitsAreSound (success_key key st)
    success_key_sound none st h = h
    success_key_sound (some key) st h =
        insert-IsSound key fresh st.forward_retry_budget (fresh-IsSound cfg p) h

    -- With a positive number of failures to open, any calls keep every circuit sound: a probe is in
    -- flight only while half open, the failures counted are fewer than open it, and an open circuit
    -- stays open for its cooldown and less than the span of the jitter more.
    pub calls-CircuitsAreSound :
        (cs : List Call) (st : AppState) → CircuitsAreSound st → CircuitsAreSound (calls cs st)
    unfolding call forward_retry_budget_allow forward_retry_budget_failure
        forward_retry_budget_success
    calls-CircuitsAreSound [] st h = h
    calls-CircuitsAreSound (Call.allow user path now ∷ cs) st h =
        calls-CircuitsAreSound cs _ (allow_key_sound now (forward_retry_budget_key user path) st h)
    calls-CircuitsAreSound (Call.failure user path now ∷ cs) st h =
        calls-CircuitsAreSound cs _
          (failure_key_sound now (forward_retry_budget_key user path) st h)
    calls-CircuitsAreSound (Call.success user path ∷ cs) st h =
        calls-CircuitsAreSound cs _ (success_key_sound (forward_retry_budget_key user path) st h)
