-- ===== src/Forward/Circuit/Resting.antt =====
-- Circuits at rest: closed or open, with no probe in flight.
use fedi.Base.{
  string_eq, ℕ, ◌≡◌, refl, Bool, true, false, not, Option, none, some, List, [], ◌∷◌, String, arith,
  ltb, if◌then◌else◌, inl, inr, Bool-cases, All, length, str_eq, eq_iff,
}
use fedi.HashMap.{lookup, insert, remove, lookup-insert_self, All-remove, All-retain}
use fedi.Forward.{
  ForwardCircuitState, ForwardRetryBudget, RelayConfig, AppState, closed_circuit, open_circuit,
  half_open_circuit,
}
use fedi.Forward.Circuit.{
  or_fresh, probe, allow_in, allow_entry, is_kept, prune_budgets, allow_key, opened, count_failure,
  failure_in, failure_entry, failure_key, success_key,
}

abbrev resting_in : ForwardCircuitState → (probing : Bool) → Bool
resting_in closed_circuit probing = not probing
resting_in open_circuit probing = not probing
resting_in half_open_circuit probing = false

-- Closed or open, with no probe in flight.
abbrev pub is_resting : ForwardRetryBudget → Bool
is_resting b = resting_in b.state b.half_open_probe_in_flight

abbrev pub AllResting : AppState → Type 0
AllResting st = All (λ e. is_resting e.1 ≡ true) st.forward_retry_budget

abbrev Rest : ForwardRetryBudget → Type 0
Rest b = is_resting b ≡ true

or_fresh-resting :
    (key : String) (m : List (String × ForwardRetryBudget))
    → All (λ e. Rest e.1) m
    → Rest (or_fresh (lookup key m))
unfolding lookup
or_fresh-resting key [] h = refl
or_fresh-resting key ((j, b) ∷ m) h = elim (Bool-cases (str_eq j key)) [
  | inl t ↦ rw (t) h.0
  | inr t ↦ rw (t) (or_fresh-resting key m h.1)
]

refused-resting :
    (s : ForwardCircuitState) (now : ℕ) (b : ForwardRetryBudget)
    → b.state ≡ s
    → Rest b
    → (allow_in s now b).allowed ≡ false
    → Rest (allow_in s now b).entry
unfolding probe
refused-resting closed_circuit now b e h a = h
refused-resting open_circuit now b e h a = ground (arith, e)
refused-resting half_open_circuit now b e h a = ground (arith, e)

resting-not_probing : (b : ForwardRetryBudget) → Rest b → b.half_open_probe_in_flight ≡ false
resting-not_probing b h = go b.state h
  where
    go :
        (s : ForwardCircuitState)
        → resting_in s b.half_open_probe_in_flight ≡ true
        → b.half_open_probe_in_flight ≡ false
    go closed_circuit h = ground arith
    go open_circuit h = ground arith
    go half_open_circuit h = ground arith

module _ (hash : String → ℕ → ℕ) (cfg : RelayConfig) where
  failed-resting :
      (s : ForwardCircuitState) (key : String) (now : ℕ) (b : ForwardRetryBudget)
      → b.state ≡ s
      → b.half_open_probe_in_flight ≡ false
      → Rest (failure_in hash cfg s key now b).0
  unfolding count_failure opened
  failed-resting closed_circuit key now b e h = ground (arith, e)
  failed-resting open_circuit key now b e h = ground (arith, e)
  failed-resting half_open_circuit key now b e h = refl

  -- An entry that let a request through rests after the failure of that request.
  probed-resting :
      (s : ForwardCircuitState) (key : String) (now : ℕ) (b : ForwardRetryBudget)
      → b.state ≡ s
      → Rest b
      → (allow_in s now b).allowed ≡ true
      → Rest (failure_entry hash cfg key now (allow_in s now b).entry).0
  unfolding probe failure_entry count_failure opened
  probed-resting closed_circuit key now b e h a = ground (arith, e)
  probed-resting open_circuit key now b e h a = ground (arith, e)
  probed-resting half_open_circuit key now b e h a = ground (arith, e)

  prune-resting :
      (now : ℕ) (m : List (String × ForwardRetryBudget))
      → All (λ e. Rest e.1) m
      → All (λ e. Rest e.1) (prune_budgets cfg now m)
  unfolding prune_budgets
  prune-resting now m h = elim (Bool-cases (ltb 25000 (length m))) [
    | inl t ↦ rw (t) (All-retain Rest (is_kept cfg now) m h)
    | inr t ↦ rw (t) h
  ]

  pub failure_key-resting :
      (now : ℕ) (key : Option String) (st : AppState)
      → AllResting st
      → AllResting (failure_key hash cfg now key st)
  unfolding insert failure_entry
  failure_key-resting now none st h = h
  failure_key-resting now (some key) st h =
      let b = or_fresh (lookup key st.forward_retry_budget) in
      (
        failed-resting b.state key now b refl
            (resting-not_probing b (or_fresh-resting key st.forward_retry_budget h)),
        All-remove Rest key st.forward_retry_budget h,
      )

  pub success_key-resting :
      (key : Option String) (st : AppState) → AllResting st → AllResting (success_key key st)
  unfolding insert
  success_key-resting none st h = h
  success_key-resting (some key) st h = (refl, All-remove Rest key st.forward_retry_budget h)

  All-remove_inserted :
      (key : String) (b : ForwardRetryBudget) (m : List (String × ForwardRetryBudget))
      → All (λ e. Rest e.1) m
      → All (λ e. Rest e.1) (remove key (insert key b m))
  unfolding insert remove
  All-remove_inserted key b m h =
      rw ((eq_iff key key).1 refl) (All-remove Rest key (remove key m) (All-remove Rest key m h))

  -- Asking and, if the request is let through, failing.
  pub allow_then_fail-resting :
      (now : ℕ) (key : Option String) (st : AppState)
      → AllResting st
      → AllResting (
          let a = allow_key cfg now key st in if a.0 then failure_key hash cfg now key a.1 else a.1)
  unfolding insert allow_entry
  allow_then_fail-resting now none st h = h
  allow_then_fail-resting now (some key) st h =
      let m = prune_budgets cfg now st.forward_retry_budget in
      let hm = prune-resting now st.forward_retry_budget h in
      let b = or_fresh (lookup key m) in
      let hb = or_fresh-resting key m hm in
      let e = (allow_entry now b).entry in
      elim (Bool-cases (allow_entry now b).allowed) [
        | inl t ↦
            rw (t, lookup-insert_self key e m)
              (probed-resting b.state key now b refl hb t, All-remove_inserted key e m hm)
        | inr t ↦ rw (t) (refused-resting b.state now b refl hb t, All-remove Rest key m hm)
      ]
