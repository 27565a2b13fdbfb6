-- ===== src/Forward/Caches.antt =====
-- The caches of refused requests and the windows that drop duplicates. A stamp in a cache is the
-- time until which it holds, in a window the time of the last request.
pub mod Windows
use Prim.Native.String.{◌++◌}
use fedi.Base.{
  string_eq, ℕ, ◌+◌, ◌-◌, ◌*◌, Bool, true, false, max, Option, none, some, String, ltb, leb, ◌==◌,
  if◌then◌else◌, length, sat_add_i64, sat_mul_i64, wrap_add_u64,
}
use fedi.Text.{trim, is_empty}
use fedi.HashMap.{lookup, insert, remove, retain}
use fedi.Forward.{RelayConfig, Times, AppState}
use fedi.Forward.Routes.{
  ForwardRouteClass, classify_forward_route, tunnel_negative_cache_key, forward_retry_budget_key,
  tunnel_unknown_user_cache_key,
}

-- Whether a stamp lies ahead. A stamp that has run out is no hit.
abbrev pub is_ahead : ℕ → Option ℕ → Bool
is_ahead now none = false
is_ahead now (some until) = ltb now until

-- What each of the three caches does on a look: a key without a hit is removed.
unfoldable pub cache_hit : String → ℕ → Times → Bool × Times
cache_hit key now cache =
    if is_ahead now (lookup key cache) then (true, cache) else (false, remove key cache)

abbrev pub negative_hit_key : Option String → ℕ → AppState → Bool × AppState
negative_hit_key none now st = (false, st)
negative_hit_key (some key) now st =
    let r = cache_hit key now st.tunnel_negative_cache in
    (
      r.0,
      record st {
        tunnel_negative_cache = r.1;
        relay_negative_cache_hits =
            wrap_add_u64 st.relay_negative_cache_hits (if r.0 then 1 else 0);
      },
    )

unfoldable pub tunnel_negative_cache_hit : (user path : String) → ℕ → AppState → Bool × AppState
unfolding cache_hit tunnel_negative_cache_key
tunnel_negative_cache_hit user path now st =
    negative_hit_key (tunnel_negative_cache_key user path) now st

abbrev pub ttl_of_class : RelayConfig → ForwardRouteClass → ℕ
ttl_of_class cfg ForwardRouteClass.internal = cfg.offline_cache_ttl_internal_ms
ttl_of_class cfg ForwardRouteClass.actor = cfg.offline_cache_ttl_actor_ms
ttl_of_class cfg ForwardRouteClass.collection = cfg.offline_cache_ttl_collection_ms
ttl_of_class cfg ForwardRouteClass.other = 0

abbrev pub negative_put_key : Option String → (ttl_ms now : ℕ) → AppState → AppState
negative_put_key none ttl_ms now st = st
negative_put_key (some key) ttl_ms now st = if leb ttl_ms 0 then st else record st {
  tunnel_negative_cache = insert key (sat_add_i64 now ttl_ms) st.tunnel_negative_cache;
}

unfoldable pub tunnel_negative_cache_put :
    RelayConfig → (user path : String) → ℕ → AppState → AppState
unfolding tunnel_negative_cache_key classify_forward_route
tunnel_negative_cache_put cfg user path now st =
    negative_put_key (tunnel_negative_cache_key user path)
      (ttl_of_class cfg (classify_forward_route user path)) now st

unfoldable pub tunnel_unknown_user_cache_hit : (ip user : String) → ℕ → AppState → Bool × AppState
unfolding cache_hit tunnel_unknown_user_cache_key
tunnel_unknown_user_cache_hit ip user now st =
    let r = cache_hit (tunnel_unknown_user_cache_key ip user) now st.tunnel_unknown_user_cache in
    (r.0, record st { tunnel_unknown_user_cache = r.1 })

-- A put for a time to live in seconds, in a cache that drops run-out stamps once it is large.
unfoldable pub cache_put : String → (ttl_secs now : ℕ) → Times → Times
cache_put key ttl_secs now cache =
    let ttl_ms = sat_mul_i64 ttl_secs 1000 in
    if leb ttl_ms 0
    then cache
    else insert key (sat_add_i64 now ttl_ms)
        (if ltb 20000 (length cache) then retain (λ until. ltb now until) cache else cache)

unfoldable pub tunnel_unknown_user_cache_put :
    RelayConfig → (ip user : String) → ℕ → AppState → AppState
unfolding cache_put tunnel_unknown_user_cache_key
tunnel_unknown_user_cache_put cfg ip user now st = record st {
  tunnel_unknown_user_cache =
      cache_put (tunnel_unknown_user_cache_key ip user) cfg.tunnel_unknown_user_cache_secs now
        st.tunnel_unknown_user_cache;
}

unfoldable pub tunnel_unknown_ip_quarantine_hit : (ip : String) → ℕ → AppState → Bool × AppState
unfolding cache_hit
tunnel_unknown_ip_quarantine_hit ip now st =
    let r = cache_hit ip now st.tunnel_unknown_ip_quarantine in
    (r.0, record st { tunnel_unknown_ip_quarantine = r.1 })

unfoldable pub tunnel_unknown_ip_quarantine_put :
    RelayConfig → (ip : String) → ℕ → AppState → AppState
unfolding cache_put
tunnel_unknown_ip_quarantine_put cfg ip now st = record st {
  tunnel_unknown_ip_quarantine =
      cache_put ip cfg.tunnel_unknown_user_quarantine_secs now st.tunnel_unknown_ip_quarantine;
}

-- Whether the last time of a key lies within the window.
abbrev pub is_recent : (window now : ℕ) → Option ℕ → Bool
is_recent window now none = false
is_recent window now (some last) = leb (now - last) window

-- A duplicate leaves the map as it is; another request is noted.
unfoldable pub note_recent : (window : ℕ) → String → ℕ → Times → Bool × Times
note_recent window key now m =
    if is_recent window now (lookup key m) then (true, m) else (false, insert key now m)

abbrev pub duplicate_key : RelayConfig → Option String → ℕ → AppState → Bool × AppState
duplicate_key cfg none now st = (false, st)
duplicate_key cfg (some key) now st =
    let recent =
      if ltb 50000 (length st.recent_forward_requests)
      then retain (λ ts. leb (now - max cfg.forward_dedupe_window_ms 1 * 5) ts)
          st.recent_forward_requests
      else st.recent_forward_requests in
    let r = note_recent cfg.forward_dedupe_window_ms key now recent in
    (
      r.0,
      record st {
        recent_forward_requests = r.1;
        relay_duplicate_request_drops =
            wrap_add_u64 st.relay_duplicate_request_drops (if r.0 then 1 else 0);
      },
    )

unfoldable pub should_drop_duplicate_offline_request :
    RelayConfig → (user path : String) → ℕ → AppState → Bool × AppState
unfolding note_recent forward_retry_budget_key
should_drop_duplicate_offline_request cfg user path now st =
    if leb cfg.forward_dedupe_window_ms 0
    then (false, st)
    else duplicate_key cfg (forward_retry_budget_key user path) now st

abbrev pub id_of : Option String → String
id_of none = String.[]
id_of (some id) = trim id

-- `activity.get("id")` where it is a text, and the digest of the body in base 64, are arguments.
unfoldable pub inbound_activity_dedupe_key :
    (user : String) → (id : Option String) → (digest_b64 : String) → String
unfolding trim
inbound_activity_dedupe_key user id digest_b64 =
    if is_empty (id_of id) then user ++ ":sha256:" ++ digest_b64 else user ++ ":id:" ++ id_of id

unfoldable pub is_duplicate_inbound_activity :
    RelayConfig → (dedupe_key : String) → ℕ → AppState → Bool × AppState
unfolding note_recent
is_duplicate_inbound_activity cfg dedupe_key now st =
    if leb cfg.ap_inbound_dedupe_window_ms 0
    then (false, st)
    else let map =
        retain (λ ts. leb (now - max cfg.ap_inbound_dedupe_window_ms 1 * 4) ts)
          st.inbound_ap_dedupe in
      let r = note_recent cfg.ap_inbound_dedupe_window_ms dedupe_key now map in
      (r.0, record st { inbound_ap_dedupe = r.1 })
