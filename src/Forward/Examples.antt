-- ===== src/Forward/Examples.antt =====
-- Runs of the relay's guards, and the theorems at concrete inputs.
use fedi.Base.{
  string_eq, ℕ, ◌+◌, ◌≡◌, refl, true, false, none, some, List, [], ◌∷◌, String, arith, wrap_add_u64,
}
use fedi.HashMap.{lookup, retain, IsUnique}
use fedi.Forward.{ForwardRetryBudget, RelayConfig, AppState, open_circuit}
use fedi.Forward.Routes.{
  tunnel_negative_cache_key, forward_retry_budget_key, is_public_ap_get_path,
  classify_forward_route,
}
use fedi.Forward.Circuit.{forward_retry_budget_allow, forward_retry_budget_failure}
use fedi.Forward.Circuit.Breaker.{Call, calls, CircuitsAreSound, calls-CircuitsAreSound}
use fedi.Forward.Circuit.Probe.{one_probe}
use fedi.Forward.Circuit.Opening.{opens, note_failures}
use fedi.Forward.Caches.{is_duplicate_inbound_activity, inbound_activity_dedupe_key}
use fedi.Forward.Offline.{Served, Request, ForwardEnv, TunnelAnswer, forward_to_user}
use fedi.Forward.Offline.Spacing.{attempts_spaced}
use fedi.Forward.Offline.Probes.{forward_to_user-AllResting}
use fedi.Forward.Circuit.Resting.{AllResting}

abbrev cfg : RelayConfig
cfg = record {
  forward_circuit_failures_to_open = 3;
  forward_dedupe_window_ms = 1200;
  forward_retry_budget_window_ms = 30000;
  forward_retry_cooldown_ms = 90000;
  ap_inbound_dedupe_window_ms = 30000;
  offline_cache_ttl_internal_ms = 15000;
  offline_cache_ttl_actor_ms = 30000;
  offline_cache_ttl_collection_ms = 20000;
  tunnel_unknown_user_cache_secs = 60;
  tunnel_unknown_user_quarantine_secs = 600;
}

abbrev empty : AppState
empty = record {
  forward_retry_budget = [];
  tunnel_negative_cache = [];
  tunnel_unknown_user_cache = [];
  tunnel_unknown_ip_quarantine = [];
  recent_forward_requests = [];
  inbound_ap_dedupe = [];
  relay_negative_cache_hits = 0;
  relay_circuit_state_transitions = 0;
  relay_retry_budget_drops = 0;
  relay_retry_probe_attempts = 0;
  relay_duplicate_request_drops = 0;
}

abbrev hash : String → ℕ → ℕ
hash key now = now + 7

abbrev actor_path : String
actor_path = "/users/ann"

abbrev ann_key : String
ann_key = "ann:/users/ann"

abbrev tripped : ForwardRetryBudget
tripped = record {
  state = open_circuit;
  opened_at_ms = 1000;
  cooldown_until_ms = 91000;
  consecutive_failures = 0;
  half_open_probe_in_flight = false;
}

abbrev with_tripped : AppState
with_tripped = record empty { forward_retry_budget = (ann_key, tripped) ∷ [] }

abbrev get_actor : Request
get_actor = record { is_get = true; user = "ann"; path = actor_path }

abbrev offline_env : ForwardEnv
offline_env = record {
  is_cached = false;
  is_online = false;
  now = 5000;
  tunnel = TunnelAnswer.no_tunnel;
  at_failure = 5000;
  at_put = 5000;
}

abbrev online_env : ForwardEnv
online_env = record offline_env { is_online = true; now = 6000; tunnel = TunnelAnswer.answered 200 }

actor_key : forward_retry_budget_key "ann" actor_path ≡ some ann_key
unfolding forward_retry_budget_key
actor_key = refl

negative_key : tunnel_negative_cache_key "ann" actor_path ≡ some ann_key
unfolding tunnel_negative_cache_key
negative_key = refl

object_has_no_key : forward_retry_budget_key "ann" "/users/ann/objects/1" ≡ none
unfolding forward_retry_budget_key
object_has_no_key = refl

first_attempt : (forward_to_user hash cfg get_actor offline_env empty).0 ≡ Served.offline
unfolding forward_to_user is_public_ap_get_path lookup
first_attempt = refl

online_answer : (forward_to_user hash cfg get_actor online_env empty).0 ≡ Served.relayed 200
unfolding forward_to_user is_public_ap_get_path lookup
online_answer = refl

id_is_trimmed : inbound_activity_dedupe_key "ann" (some " x ") "dig" ≡ "ann:id:x"
unfolding inbound_activity_dedupe_key
id_is_trimmed = refl

no_id_digests : inbound_activity_dedupe_key "ann" none "dig" ≡ "ann:sha256:dig"
unfolding inbound_activity_dedupe_key
no_id_digests = refl

abbrev three_calls : List Call
three_calls =
    Call.failure "ann" actor_path 5
    ∷ Call.allow "ann" actor_path 6
    ∷ Call.success "ann" actor_path
    ∷ []

calls-CircuitsAreSound_example : CircuitsAreSound hash cfg (calls hash cfg three_calls with_tripped)
calls-CircuitsAreSound_example =
    calls-CircuitsAreSound hash cfg (omega arith) three_calls with_tripped
      ((omega arith, (refl, (omega arith, omega arith))), tt)

after_cooldown : (forward_retry_budget_allow cfg "ann" actor_path 91000 with_tripped).0 ≡ true
unfolding forward_retry_budget_allow lookup
after_cooldown = refl

tripped-lookup : lookup ann_key with_tripped.forward_retry_budget ≡ some tripped
unfolding lookup
tripped-lookup = refl

tripped-IsUnique : IsUnique with_tripped.forward_retry_budget
unfolding lookup
tripped-IsUnique = (refl, tt)

one_probe_example :
    (forward_retry_budget_allow cfg "ann" actor_path 99000
      (forward_retry_budget_allow cfg "ann" actor_path 91000 with_tripped).1).0
    ≡ false
one_probe_example =
    one_probe cfg "ann" actor_path ann_key actor_key 91000 99000 tripped with_tripped
      tripped-IsUnique tripped-lookup refl after_cooldown

abbrev two_failures : List ℕ
two_failures = 10 ∷ 20 ∷ []

opens_example :
    (forward_retry_budget_allow cfg "ann" actor_path 90029 (
      forward_retry_budget_failure hash cfg "ann" actor_path 30
        (note_failures cfg "ann" actor_path ann_key actor_key hash two_failures empty))).0
    ≡ false
unfolding lookup
opens_example =
    opens cfg "ann" actor_path ann_key actor_key hash two_failures 30 90029 empty tt refl refl
      (omega arith) (omega arith) (omega arith)

first_is_new : (is_duplicate_inbound_activity cfg "ann:id:x" 1000 empty).0 ≡ false
unfolding is_duplicate_inbound_activity lookup retain
first_is_new = refl

attempts_spaced_example :
    forward_to_user hash cfg get_actor online_env
      (forward_to_user hash cfg get_actor offline_env empty).1
    ≡ (
      Served.negative_hit,
      record (forward_to_user hash cfg get_actor offline_env empty).1 {
        relay_negative_cache_hits =
            wrap_add_u64
              (forward_to_user hash cfg get_actor offline_env empty).1.relay_negative_cache_hits
              1;
      },
    )
unfolding classify_forward_route
attempts_spaced_example =
    attempts_spaced hash cfg get_actor ann_key negative_key offline_env online_env empty refl refl
      refl (omega arith) (omega arith) (omega arith) first_attempt

forward_to_user-AllResting_example :
    AllResting (forward_to_user hash cfg get_actor offline_env with_tripped).1
forward_to_user-AllResting_example =
    forward_to_user-AllResting hash cfg get_actor offline_env with_tripped (refl, tt)
