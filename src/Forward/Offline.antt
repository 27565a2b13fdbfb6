-- ===== src/Forward/Offline.antt =====
-- What `forward_to_user` does with the guards, after the user was found to be valid and known. The
-- cached response, whether the user is online, the readings of the clock and what the tunnel answers
-- are arguments. The bodies of responses, the cache of public pages that a success refreshes and the
-- observed counters of cache use are left out.
pub mod Spacing
pub mod Probes
use fedi.Base.{
  string_eq, Bool, true, false, ◌&&◌, ◌||◌, ◌==◌, not, ℕ, Option, none, some, String, if◌then◌else◌,
  is_some, leb,
}
use fedi.HashMap.{remove}
use fedi.Forward.{RelayConfig, AppState}
use fedi.Forward.Routes.{is_public_ap_get_path, tunnel_negative_cache_key, forward_retry_budget_key}
use fedi.Forward.Circuit.{
  forward_retry_budget_allow, forward_retry_budget_failure, forward_retry_budget_success,
}
use fedi.Forward.Caches.{
  tunnel_negative_cache_hit, tunnel_negative_cache_put, should_drop_duplicate_offline_request,
}

-- What becomes of a request: one of the answers that stand for an offline user, a refusal, or the
-- answer of the user's own server.
pub data Served : Type 0 where
  from_cache : Served
  negative_hit : Served
  duplicate : Served
  circuit_open : Served
  offline : Served
  busy : Served
  fallback : Served
  failed : Served
  relayed : (status : ℕ) → Served

-- What the tunnel does with a request, from the permits on.
pub data TunnelAnswer : Type 0 where
  no_permit : TunnelAnswer
  no_tunnel : TunnelAnswer
  send_failed : TunnelAnswer
  timed_out : TunnelAnswer
  dropped : TunnelAnswer
  answered : (status : ℕ) → TunnelAnswer

pub record Request : Type 0 where
  pub is_get : Bool
  pub user : String
  pub path : String

pub record ForwardEnv : Type 0 where
  pub is_cached : Bool
  pub is_online : Bool
  pub now : ℕ
  pub tunnel : TunnelAnswer
  pub at_failure : ℕ
  pub at_put : ℕ

module _ (hash : String → ℕ → ℕ) (cfg : RelayConfig) where
  -- A failure is counted and the path is refused for a while.
  unfoldable pub note_failed : (user path : String) → (at_failure at_put : ℕ) → AppState → AppState
  unfolding forward_retry_budget_failure tunnel_negative_cache_put
  note_failed user path at_failure at_put st =
      tunnel_negative_cache_put cfg user path at_put
        (forward_retry_budget_failure hash cfg user path at_failure st)

  abbrev pub unless_refused : (user path : String) → ℕ → Bool × AppState → Served × AppState
  unless_refused user path now r =
      if r.0
      then (Served.offline, note_failed user path now now r.1)
      else (Served.circuit_open, r.1)

  abbrev pub unless_duplicate : (user path : String) → ℕ → Bool × AppState → Served × AppState
  unless_duplicate user path now r =
      if r.0
      then (Served.duplicate, r.1)
      else unless_refused user path now (forward_retry_budget_allow cfg user path now r.1)

  -- A GET for a user who is offline, past the negative cache.
  unfoldable pub offline_get : (user path : String) → ℕ → AppState → Served × AppState
  unfolding note_failed should_drop_duplicate_offline_request forward_retry_budget_allow
  offline_get user path now st =
      unless_duplicate user path now (should_drop_duplicate_offline_request cfg user path now st)

  -- Upstream statuses that a public page is not shown with, and those of a broken upstream.
  abbrev pub is_unavailable : ℕ → Bool
  is_unavailable status = status == 503 || status == 502 || status == 504

  -- `StatusCode::from_u16(status).unwrap_or(BAD_GATEWAY)`.
  abbrev pub upstream_status : ℕ → ℕ
  upstream_status status = if leb 100 status && leb status 999 then status else 502

  abbrev pub falls_back : Request → ℕ → Bool
  falls_back r status =
      r.is_get
      && ((status == 401 || status == 403 || is_unavailable status)
            && is_public_ap_get_path r.user r.path
          || is_unavailable status && is_some (forward_retry_budget_key r.user r.path))

  abbrev pub forget_negative : Option String → AppState → AppState
  forget_negative none st = st
  forget_negative (some key) st = record st {
    tunnel_negative_cache = remove key st.tunnel_negative_cache;
  }

  abbrev pub lost : Request → ForwardEnv → AppState → Served × AppState
  lost r env st = (
    if r.is_get then Served.fallback else Served.failed,
    note_failed r.user r.path env.at_failure env.at_put st,
  )

  abbrev pub settle : Request → ForwardEnv → TunnelAnswer → AppState → Served × AppState
  settle r env TunnelAnswer.no_permit st = (Served.busy, st)
  settle r env TunnelAnswer.no_tunnel st = (Served.failed, st)
  settle r env TunnelAnswer.send_failed st = lost r env st
  settle r env TunnelAnswer.timed_out st = lost r env st
  settle r env TunnelAnswer.dropped st = lost r env st
  settle r env (TunnelAnswer.answered status) st =
      if falls_back r (upstream_status status)
      then (Served.fallback, note_failed r.user r.path env.at_failure env.at_put st)
      else (
        Served.relayed status,
        forget_negative (tunnel_negative_cache_key r.user r.path)
            (forward_retry_budget_success r.user r.path st),
      )

  -- The request over the tunnel.
  unfoldable pub through_tunnel : Request → ForwardEnv → AppState → Served × AppState
  unfolding note_failed forward_retry_budget_success
  through_tunnel r env st = settle r env env.tunnel st

  abbrev pub unless_negative : Request → ForwardEnv → Bool × AppState → Served × AppState
  unless_negative r env hit =
      if hit.0
      then (Served.negative_hit, hit.1)
      else if env.is_online
      then through_tunnel r env hit.1
      else offline_get r.user r.path env.now hit.1

  unfoldable pub forward_to_user : Request → ForwardEnv → AppState → Served × AppState
  unfolding through_tunnel offline_get tunnel_negative_cache_hit
  forward_to_user r env st =
      if r.is_get
      then if is_public_ap_get_path r.user r.path && env.is_cached
        then (Served.from_cache, st)
        else unless_negative r env (tunnel_negative_cache_hit r.user r.path env.now st)
      else through_tunnel r env st
