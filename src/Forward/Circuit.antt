-- ===== src/Forward/Circuit.antt =====
-- The circuit breaker of forwarding: `forward_retry_budget_allow`, `_failure` and `_success`. The
-- standard library's hash of a key and a time is an argument, a u64.
pub mod Breaker
pub mod Opening
pub mod Probe
pub mod Resting
use fedi.Base.{
  string_eq, ℕ, suc, ◌+◌, ◌-◌, ◌*◌, ◌/◌, ◌%◌, Bool, true, false, ◌||◌, max, Option, none, some,
  List, String, ltb, leb, if◌then◌else◌, length, sat_add_i64, sat_add_u32, wrap_add_u64,
}
use fedi.HashMap.{lookup, insert, retain}
use fedi.Forward.{
  ForwardCircuitState, ForwardRetryBudget, RelayConfig, AppState, closed_circuit, open_circuit,
  half_open_circuit,
}
use fedi.Forward.Routes.{forward_retry_budget_key}

abbrev pub fresh : ForwardRetryBudget
fresh = record {
  state = closed_circuit;
  opened_at_ms = 0;
  cooldown_until_ms = 0;
  consecutive_failures = 0;
  half_open_probe_in_flight = false;
}

-- `entry(key).or_insert(…)`.
abbrev pub or_fresh : Option ForwardRetryBudget → ForwardRetryBudget
or_fresh none = fresh
or_fresh (some b) = b

-- `(h as i64).rem_euclid(span)`, where the u64 `h` is negative as an i64 from 2 ^ 63 on.
unfoldable pub rem_euclid : (h span : ℕ) → ℕ
rem_euclid h span =
    if ltb h 9223372036854775808
    then h % span
    else (span - (18446744073709551616 - h) % span) % span

abbrev pub is_closed : ForwardCircuitState → Bool
is_closed closed_circuit = true
is_closed open_circuit = false
is_closed half_open_circuit = false

-- What the entry for a key answers, the entry afterwards and what is counted.
pub record Verdict : Type 0 where
  pub allowed : Bool
  pub entry : ForwardRetryBudget
  pub transitions : ℕ
  pub probes : ℕ
  pub drops : ℕ

-- A half-open circuit lets one request through.
unfoldable pub probe : ForwardRetryBudget → ℕ → Verdict
probe b transitions =
    if b.half_open_probe_in_flight
    then record { allowed = false; entry = b; transitions = transitions; probes = 0; drops = 1 }
    else record {
      allowed = true;
      entry = record b { half_open_probe_in_flight = true };
      transitions = transitions;
      probes = 1;
      drops = 0;
    }

abbrev pub allow_in : ForwardCircuitState → ℕ → ForwardRetryBudget → Verdict
allow_in closed_circuit now b = record {
  allowed = true;
  entry = b;
  transitions = 0;
  probes = 0;
  drops = 0;
}
allow_in open_circuit now b =
    if leb b.cooldown_until_ms now
    then probe (record b { state = half_open_circuit; half_open_probe_in_flight = false }) 1
    else record { allowed = false; entry = b; transitions = 0; probes = 0; drops = 1 }
allow_in half_open_circuit now b = probe b 0

unfoldable pub allow_entry : ℕ → ForwardRetryBudget → Verdict
unfolding probe
allow_entry now b = allow_in b.state now b

-- Which entries are kept when the map has grown past 25000.
unfoldable pub is_kept : RelayConfig → ℕ → ForwardRetryBudget → Bool
is_kept cfg now v =
    ltb now v.cooldown_until_ms
    || leb
        (now - max cfg.forward_retry_cooldown_ms 1 - max cfg.forward_retry_budget_window_ms 1 * 2)
        v.opened_at_ms
    || ltb 0 v.consecutive_failures
    || (if is_closed v.state then false else true)

unfoldable pub prune_budgets :
    RelayConfig → ℕ → List (String × ForwardRetryBudget) → List (String × ForwardRetryBudget)
unfolding is_kept
prune_budgets cfg now m = if ltb 25000 (length m) then retain (is_kept cfg now) m else m

abbrev pub with_verdict : String → Verdict → AppState → AppState
with_verdict key v st = record st {
  forward_retry_budget = insert key v.entry st.forward_retry_budget;
  relay_circuit_state_transitions = wrap_add_u64 st.relay_circuit_state_transitions v.transitions;
  relay_retry_probe_attempts = wrap_add_u64 st.relay_retry_probe_attempts v.probes;
  relay_retry_budget_drops = wrap_add_u64 st.relay_retry_budget_drops v.drops;
}

abbrev pub allow_key : RelayConfig → ℕ → Option String → AppState → Bool × AppState
allow_key cfg now none st = (true, st)
allow_key cfg now (some key) st =
    let budgets = prune_budgets cfg now st.forward_retry_budget in
    let v = allow_entry now (or_fresh (lookup key budgets)) in
    (v.allowed, with_verdict key v (record st { forward_retry_budget = budgets }))

unfoldable pub forward_retry_budget_allow :
    RelayConfig → (user path : String) → ℕ → AppState → Bool × AppState
unfolding prune_budgets allow_entry forward_retry_budget_key
forward_retry_budget_allow cfg user path now st =
    allow_key cfg now (forward_retry_budget_key user path) st

module _ (hash : String → ℕ → ℕ) (cfg : RelayConfig) where
  unfoldable pub retry_budget_jitter_ms : String → ℕ → ℕ → ℕ
  unfolding rem_euclid
  retry_budget_jitter_ms key now span = rem_euclid (hash key now) (max span 1)

  -- The entry opened at a time, with the cooldown spread by up to a fifth.
  unfoldable pub opened : String → ℕ → ForwardRetryBudget
  unfolding retry_budget_jitter_ms
  opened key now =
      let jitter = retry_budget_jitter_ms key now (max (cfg.forward_retry_cooldown_ms / 5) 1) in
      record {
        state = open_circuit;
        opened_at_ms = now;
        cooldown_until_ms = sat_add_i64 (sat_add_i64 now cfg.forward_retry_cooldown_ms) jitter;
        consecutive_failures = 0;
        half_open_probe_in_flight = false;
      }

  -- The entry after a failure and the transitions counted. A failure while open counts too.
  unfoldable pub count_failure : String → ℕ → ForwardRetryBudget → ForwardRetryBudget × ℕ
  unfolding opened
  count_failure key now b =
      let failures = sat_add_u32 b.consecutive_failures 1 in
      if leb cfg.forward_circuit_failures_to_open failures
      then (opened key now, 1)
      else (record b { consecutive_failures = failures }, 0)

  abbrev pub failure_in :
      ForwardCircuitState → String → ℕ → ForwardRetryBudget → ForwardRetryBudget × ℕ
  failure_in closed_circuit key now b = count_failure key now b
  failure_in open_circuit key now b = count_failure key now b
  failure_in half_open_circuit key now b = (opened key now, 1)

  unfoldable pub failure_entry : String → ℕ → ForwardRetryBudget → ForwardRetryBudget × ℕ
  unfolding opened count_failure
  failure_entry key now b = failure_in b.state key now b

  abbrev pub failure_key : ℕ → Option String → AppState → AppState
  failure_key now none st = st
  failure_key now (some key) st =
      let r = failure_entry key now (or_fresh (lookup key st.forward_retry_budget)) in
      record st {
        forward_retry_budget = insert key r.0 st.forward_retry_budget;
        relay_circuit_state_transitions = wrap_add_u64 st.relay_circuit_state_transitions r.1;
      }

  unfoldable pub forward_retry_budget_failure : (user path : String) → ℕ → AppState → AppState
  unfolding failure_entry forward_retry_budget_key
  forward_retry_budget_failure user path now st =
      failure_key now (forward_retry_budget_key user path) st

abbrev pub success_key : Option String → AppState → AppState
success_key none st = st
success_key (some key) st = record st {
  forward_retry_budget = insert key fresh st.forward_retry_budget;
  relay_circuit_state_transitions =
      wrap_add_u64 st.relay_circuit_state_transitions
        (if is_closed (or_fresh (lookup key st.forward_retry_budget)).state then 0 else 1);
}

unfoldable pub forward_retry_budget_success : (user path : String) → AppState → AppState
unfolding forward_retry_budget_key
forward_retry_budget_success user path st = success_key (forward_retry_budget_key user path) st
