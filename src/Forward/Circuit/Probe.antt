-- ===== src/Forward/Circuit/Probe.antt =====
-- What a request is answered by a circuit that is not closed, and that it lets one probe through.
use fedi.Base.{
  string_eq, ℕ, ◌≡◌, refl, true, false, some, List, String, arith, ltb, length, inl, inr,
  Bool-cases, ap,
}
use fedi.HashMap.{
  lookup, IsUnique, lookup-retain, lookup-insert_self, insert-IsUnique, retain-IsUnique,
}
use fedi.Forward.{
  ForwardCircuitState, ForwardRetryBudget, RelayConfig, AppState, closed_circuit, open_circuit,
  half_open_circuit,
}
use fedi.Forward.Routes.{forward_retry_budget_key}
use fedi.Forward.Circuit.{
  is_closed, probe, allow_in, allow_entry, is_kept, prune_budgets, allow_key,
  forward_retry_budget_allow,
}

pub prune_budgets-IsUnique :
    (cfg : RelayConfig) (now : ℕ) (m : List (String × ForwardRetryBudget))
    → IsUnique m
    → IsUnique (prune_budgets cfg now m)
unfolding prune_budgets
prune_budgets-IsUnique cfg now m u = elim (Bool-cases (ltb 25000 (length m))) [
  | inl t ↦ rw (t) (retain-IsUnique (is_kept cfg now) m u)
  | inr t ↦ rw (t) u
]

-- A circuit that is not closed is never pruned.
pub lookup-prune_budgets :
    (cfg : RelayConfig) (now : ℕ) (key : String) (m : List (String × ForwardRetryBudget))
    (b : ForwardRetryBudget)
    → IsUnique m
    → lookup key m ≡ some b
    → is_closed b.state ≡ false
    → lookup key (prune_budgets cfg now m) ≡ some b
unfolding prune_budgets is_kept
lookup-prune_budgets cfg now key m b u e c =
    ground (arith, lookup-retain (is_kept cfg now) key m u, e, c)

-- An entry that is not closed and lets a request through is half open with that probe in flight.
allow_entry-probes :
    (now : ℕ) (b : ForwardRetryBudget)
    → is_closed b.state ≡ false
    → (allow_entry now b).allowed ≡ true
    → ((allow_entry now b).entry.state ≡ half_open_circuit)
      × ((allow_entry now b).entry.half_open_probe_in_flight ≡ true)
unfolding allow_entry probe
allow_entry-probes now b c h = go b.state refl c h
  where
    go :
        (s : ForwardCircuitState)
        → b.state ≡ s
        → is_closed s ≡ false
        → (allow_in s now b).allowed ≡ true
        → ((allow_in s now b).entry.state ≡ half_open_circuit)
          × ((allow_in s now b).entry.half_open_probe_in_flight ≡ true)
    go closed_circuit e c h = ground arith
    go open_circuit e c h = ground arith
    go half_open_circuit e c h = ground arith

allow_entry-refuses :
    (now : ℕ) (b : ForwardRetryBudget)
    → b.state ≡ half_open_circuit
    → b.half_open_probe_in_flight ≡ true
    → (allow_entry now b).allowed ≡ false
unfolding allow_entry probe
allow_entry-refuses now b e h = ground (arith, e, h)

half_open-not_closed :
    (b : ForwardRetryBudget) → b.state ≡ half_open_circuit → is_closed b.state ≡ false
half_open-not_closed b e = ap is_closed e

module _ (cfg : RelayConfig) (user path key : String)
    (has_key : forward_retry_budget_key user path ≡ some key) where
  pub allow-with_key :
      (now : ℕ) (st : AppState)
      → forward_retry_budget_allow cfg user path now st ≡ allow_key cfg now (some key) st
  unfolding forward_retry_budget_allow
  allow-with_key now st = rw (has_key) refl

  module _ (now : ℕ) (b : ForwardRetryBudget) (st : AppState) (u : IsUnique st.forward_retry_budget)
      (e : lookup key st.forward_retry_budget ≡ some b) (c : is_closed b.state ≡ false) where
    pub allow-answer :
        (forward_retry_budget_allow cfg user path now st).0 ≡ (allow_entry now b).allowed
    allow-answer =
        rw (allow-with_key now st, lookup-prune_budgets cfg now key st.forward_retry_budget b u e c)
          refl

    allow-lookup :
        lookup key (forward_retry_budget_allow cfg user path now st).1.forward_retry_budget
        ≡ some (allow_entry now b).entry
    allow-lookup =
        rw
          (
            allow-with_key now st,
            lookup-prune_budgets cfg now key st.forward_retry_budget b u e c,
            lookup-insert_self,
          )
          refl

    allow-IsUnique :
        IsUnique (forward_retry_budget_allow cfg user path now st).1.forward_retry_budget
    allow-IsUnique =
        rw (allow-with_key now st) (insert-IsUnique key _ _ (prune_budgets-IsUnique cfg now _ u))

  -- If a path has a key, the keys of the map are distinct and its circuit is open or half open,
  -- then once a request has been let through the next one is refused, whatever the time, with no
  -- failure and no success noted between them.
  pub one_probe :
      (now later : ℕ) (b : ForwardRetryBudget) (st : AppState)
      → IsUnique st.forward_retry_budget
      → lookup key st.forward_retry_budget ≡ some b
      → is_closed b.state ≡ false
      → (forward_retry_budget_allow cfg user path now st).0 ≡ true
      → (forward_retry_budget_allow cfg user path later
          (forward_retry_budget_allow cfg user path now st).1).0
        ≡ false
  one_probe now later b st u e c h =
      let after = (forward_retry_budget_allow cfg user path now st).1 in
      let b1 = (allow_entry now b).entry in
      let is_probe = allow_entry-probes now b c (ground (arith, allow-answer now b st u e c)) in
      ground (
        arith,
        allow-answer later b1 after (allow-IsUnique now b st u e c) (allow-lookup now b st u e c)
            (half_open-not_closed b1 is_probe.0),
        allow_entry-refuses later b1 is_probe.0 is_probe.1,
      )
