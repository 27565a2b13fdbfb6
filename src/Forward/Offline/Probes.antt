-- ===== src/Forward/Offline/Probes.antt =====
-- `forward_to_user` asks the circuit only for a user who is offline, and counts a failure at once if
-- it lets the request through: between two requests no circuit is half open.
use fedi.Base.{
  ℕ, ◌≡◌, refl, Bool, true, false, Option, none, some, String, arith, leb, if◌then◌else◌, inl, inr,
  Bool-cases, ◌&&◌,
}
use fedi.Forward.{RelayConfig, AppState}
use fedi.Forward.Routes.{
  classify_forward_route, tunnel_negative_cache_key, is_public_ap_get_path,
  forward_retry_budget_key,
}
use fedi.Forward.Circuit.{
  allow_key, forward_retry_budget_allow, forward_retry_budget_failure, success_key,
  forward_retry_budget_success,
}
use fedi.Forward.Caches.{
  negative_hit_key, tunnel_negative_cache_hit, ttl_of_class, negative_put_key,
  tunnel_negative_cache_put, duplicate_key, should_drop_duplicate_offline_request,
}
use fedi.Forward.Offline.{
  Request, ForwardEnv, TunnelAnswer, note_failed, unless_refused, unless_duplicate, offline_get,
  settle, falls_back, upstream_status, forget_negative, through_tunnel, unless_negative,
  forward_to_user,
}
use fedi.Forward.Circuit.Resting.{
  AllResting, failure_key-resting, success_key-resting, allow_then_fail-resting,
}

module _ (hash : String → ℕ → ℕ) (cfg : RelayConfig) where
  negative_hit-budget :
      (user path : String) (now : ℕ) (st : AppState)
      → (tunnel_negative_cache_hit user path now st).1.forward_retry_budget
        ≡ st.forward_retry_budget
  unfolding tunnel_negative_cache_hit
  negative_hit-budget user path now st = go (tunnel_negative_cache_key user path)
    where
      go :
          (k : Option String)
          → (negative_hit_key k now st).1.forward_retry_budget ≡ st.forward_retry_budget
      go none = refl
      go (some key) = refl

  negative_put-budget :
      (user path : String) (now : ℕ) (st : AppState)
      → (tunnel_negative_cache_put cfg user path now st).forward_retry_budget
        ≡ st.forward_retry_budget
  unfolding tunnel_negative_cache_put
  negative_put-budget user path now st =
      go (tunnel_negative_cache_key user path) (ttl_of_class cfg (classify_forward_route user path))
    where
      go :
          (k : Option String) (ttl : ℕ)
          → (negative_put_key k ttl now st).forward_retry_budget ≡ st.forward_retry_budget
      go none ttl = refl
      go (some key) ttl = ground arith

  duplicate-budget :
      (user path : String) (now : ℕ) (st : AppState)
      → (should_drop_duplicate_offline_request cfg user path now st).1.forward_retry_budget
        ≡ st.forward_retry_budget
  unfolding should_drop_duplicate_offline_request
  duplicate-budget user path now st = go (forward_retry_budget_key user path)
    where
      go :
          (k : Option String)
          → (if leb cfg.forward_dedupe_window_ms 0
              then (false, st)
              else duplicate_key cfg k now st).1.forward_retry_budget
            ≡ st.forward_retry_budget
      go none = ground arith
      go (some key) = ground arith

  note_failed-resting :
      (user path : String) (at_failure at_put : ℕ) (st : AppState)
      → AllResting st
      → AllResting (note_failed hash cfg user path at_failure at_put st)
  unfolding note_failed forward_retry_budget_failure
  note_failed-resting user path at_failure at_put st h =
      rw (negative_put-budget user path at_put)
        (failure_key-resting hash cfg at_failure (forward_retry_budget_key user path) st h)

  unless_refused-resting :
      (user path : String) (now : ℕ) (st : AppState)
      → AllResting st
      → AllResting
          (unless_refused hash cfg user path now
            (forward_retry_budget_allow cfg user path now st)).1
  unfolding note_failed forward_retry_budget_allow forward_retry_budget_failure
  unless_refused-resting user path now st h =
      let a = allow_key cfg now (forward_retry_budget_key user path) st in
      let r = allow_then_fail-resting hash cfg now (forward_retry_budget_key user path) st h in
      elim (Bool-cases a.0) [
        | inl t ↦ rw (t, negative_put-budget user path now) (rw (t) at r)
        | inr t ↦ rw (t) (rw (t) at r)
      ]

  offline_get-resting :
      (user path : String) (now : ℕ) (st : AppState)
      → AllResting st
      → AllResting (offline_get hash cfg user path now st).1
  unfolding offline_get
  offline_get-resting user path now st h =
      let d = should_drop_duplicate_offline_request cfg user path now st in
      let hd : AllResting d.1 = rw (duplicate-budget user path now st) h in go d hd
    where
      go :
          (d : Bool × AppState)
          → AllResting d.1
          → AllResting (unless_duplicate hash cfg user path now d).1
      go (true, st1) h = h
      go (false, st1) h = unless_refused-resting user path now st1 h

  answered-resting :
      (r : Request) (st : AppState)
      → AllResting st
      → AllResting (
          forget_negative hash cfg
            (tunnel_negative_cache_key r.user r.path)
            (forward_retry_budget_success r.user r.path st))
  unfolding forward_retry_budget_success
  answered-resting r st h = go (tunnel_negative_cache_key r.user r.path)
    where
      go :
          (k : Option String)
          → AllResting
              (forget_negative hash cfg k (success_key (forward_retry_budget_key r.user r.path) st))
      go none = success_key-resting hash cfg (forward_retry_budget_key r.user r.path) st h
      go (some key) = success_key-resting hash cfg (forward_retry_budget_key r.user r.path) st h

  through_tunnel-resting :
      (r : Request) (env : ForwardEnv) (st : AppState)
      → AllResting st
      → AllResting (through_tunnel hash cfg r env st).1
  unfolding through_tunnel
  through_tunnel-resting r env st h = go env.tunnel
    where
      lost-resting : AllResting (note_failed hash cfg r.user r.path env.at_failure env.at_put st)
      lost-resting = note_failed-resting r.user r.path env.at_failure env.at_put st h

      go : (t : TunnelAnswer) → AllResting (settle hash cfg r env t st).1
      go TunnelAnswer.no_permit = h
      go TunnelAnswer.no_tunnel = h
      go TunnelAnswer.send_failed = lost-resting
      go TunnelAnswer.timed_out = lost-resting
      go TunnelAnswer.dropped = lost-resting
      go (TunnelAnswer.answered status) =
          elim (Bool-cases (falls_back hash cfg r (upstream_status hash cfg status))) [
            | inl t ↦ rw (t) lost-resting
            | inr t ↦ rw (t) (answered-resting r st h)
          ]

  unless_negative-resting :
      (r : Request) (env : ForwardEnv) (hit : Bool × AppState)
      → AllResting hit.1
      → AllResting (unless_negative hash cfg r env hit).1
  unless_negative-resting r env (true, st) h = h
  unless_negative-resting r env (false, st) h = elim (Bool-cases env.is_online) [
    | inl t ↦ if_online t
    | inr t ↦ if_offline t
  ]
    where
      if_online : env.is_online ≡ true → AllResting (unless_negative hash cfg r env (false, st)).1
      if_online t = simp (t) (through_tunnel-resting r env st h)

      if_offline : env.is_online ≡ false → AllResting (unless_negative hash cfg r env (false, st)).1
      if_offline t = simp (t) (offline_get-resting r.user r.path env.now st h)

  -- If every circuit is closed or open with no probe in flight before a request, it is so after it,
  -- whatever the request and the answer of the tunnel.
  pub forward_to_user-AllResting :
      (r : Request) (env : ForwardEnv) (st : AppState)
      → AllResting st
      → AllResting (forward_to_user hash cfg r env st).1
  unfolding forward_to_user
  forward_to_user-AllResting r env st h = elim (Bool-cases r.is_get) [
    | inl t ↦ elim (Bool-cases (is_public_ap_get_path r.user r.path && env.is_cached)) [
      | inl c ↦ simp (t, c) h
      | inr c ↦ simp (t, c) through_guards
    ]
    | inr t ↦ simp (t) (through_tunnel-resting r env st h)
  ]
    where
      through_guards :
          AllResting
            (unless_negative hash cfg r env (tunnel_negative_cache_hit r.user r.path env.now st)).1
      through_guards =
          unless_negative-resting r env (tunnel_negative_cache_hit r.user r.path env.now st)
            (rw (negative_hit-budget r.user r.path env.now st) h)
