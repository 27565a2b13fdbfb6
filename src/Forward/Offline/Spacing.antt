-- ===== src/Forward/Offline/Spacing.antt =====
-- An attempt for an offline user has the later ones refused for a while.
use fedi.Base.{
  string_eq, ℕ, ◌+◌, ◌≤◌, ◌<◌, ◌≡◌, refl, Bool, true, false, some, String, arith, i64_max, lt→ltb,
  wrap_add_u64, if◌then◌else◌, inl, inr, Bool-cases, ◌&&◌,
}
use fedi.HashMap.{lookup, lookup-insert_self}
use fedi.Forward.{RelayConfig, AppState}
use fedi.Forward.Routes.{classify_forward_route, tunnel_negative_cache_key, is_public_ap_get_path}
use fedi.Forward.Circuit.{forward_retry_budget_allow, forward_retry_budget_failure}
use fedi.Forward.Caches.{
  cache_hit, tunnel_negative_cache_hit, ttl_of_class, tunnel_negative_cache_put,
  should_drop_duplicate_offline_request,
}
use fedi.Forward.Offline.{
  Served, Request, ForwardEnv, note_failed, unless_duplicate, unless_refused, offline_get,
  unless_negative, forward_to_user,
}

module _ (hash : String → ℕ → ℕ) (cfg : RelayConfig) (r : Request) where
  -- The time for which the path of a request is refused.
  abbrev pub ttl_ms : ℕ
  ttl_ms = ttl_of_class cfg (classify_forward_route r.user r.path)

  module _ (key : String) (has_key : tunnel_negative_cache_key r.user r.path ≡ some key) where
    lookup-note_failed :
        (at_failure at_put : ℕ) (st : AppState)
        → 0 < ttl_ms
        → at_put + ttl_ms ≤ i64_max
        → lookup key (note_failed hash cfg r.user r.path at_failure at_put st).tunnel_negative_cache
          ≡ some (at_put + ttl_ms)
    unfolding note_failed tunnel_negative_cache_put
    lookup-note_failed at_failure at_put st p b = rw (has_key) (
        ground (
          arith,
          lookup-insert_self key (at_put + ttl_ms)
              (forward_retry_budget_failure hash cfg r.user r.path at_failure
                st).tunnel_negative_cache,
        ))

    lookup-unless_refused :
        (now : ℕ) (a : Bool × AppState)
        → 0 < ttl_ms
        → now + ttl_ms ≤ i64_max
        → (unless_refused hash cfg r.user r.path now a).0 ≡ Served.offline
        → lookup key (unless_refused hash cfg r.user r.path now a).1.tunnel_negative_cache
          ≡ some (now + ttl_ms)
    lookup-unless_refused now (true, st) p b h = lookup-note_failed now now st p b
    lookup-unless_refused now (false, st) p b h = ground (arith, h)

    lookup-unless_duplicate :
        (now : ℕ) (d : Bool × AppState)
        → 0 < ttl_ms
        → now + ttl_ms ≤ i64_max
        → (unless_duplicate hash cfg r.user r.path now d).0 ≡ Served.offline
        → lookup key (unless_duplicate hash cfg r.user r.path now d).1.tunnel_negative_cache
          ≡ some (now + ttl_ms)
    lookup-unless_duplicate now (true, st) p b h = ground (arith, h)
    lookup-unless_duplicate now (false, st) p b h =
        lookup-unless_refused now (forward_retry_budget_allow cfg r.user r.path now st) p b h

    lookup-offline_get :
        (now : ℕ) (st : AppState)
        → 0 < ttl_ms
        → now + ttl_ms ≤ i64_max
        → (offline_get hash cfg r.user r.path now st).0 ≡ Served.offline
        → lookup key (offline_get hash cfg r.user r.path now st).1.tunnel_negative_cache
          ≡ some (now + ttl_ms)
    unfolding offline_get
    lookup-offline_get now st p b h =
        lookup-unless_duplicate now (should_drop_duplicate_offline_request cfg r.user r.path now st)
          p b h

    negative_hit-ahead :
        (now until : ℕ) (st : AppState)
        → lookup key st.tunnel_negative_cache ≡ some until
        → now < until
        → tunnel_negative_cache_hit r.user r.path now st ≡ (
          true,
          record st { relay_negative_cache_hits = wrap_add_u64 st.relay_negative_cache_hits 1 },
        )
    unfolding tunnel_negative_cache_hit cache_hit
    negative_hit-ahead now until st e l = rw (has_key, e, lt→ltb now until l) refl

    negative-refuses :
        (env : ForwardEnv) (st : AppState) (until : ℕ)
        → r.is_get ≡ true
        → env.is_cached ≡ false
        → lookup key st.tunnel_negative_cache ≡ some until
        → env.now < until
        → forward_to_user hash cfg r env st ≡ (
          Served.negative_hit,
          record st { relay_negative_cache_hits = wrap_add_u64 st.relay_negative_cache_hits 1 },
        )
    unfolding forward_to_user
    negative-refuses env st until g c e l =
        elim (Bool-cases (is_public_ap_get_path r.user r.path)) [
          | inl t ↦ rw (g, c, t, negative_hit-ahead env.now until st e l) refl
          | inr t ↦ rw (g, c, t, negative_hit-ahead env.now until st e l) refl
        ]

    lookup-unless_negative :
        (env : ForwardEnv) (hit : Bool × AppState)
        → env.is_online ≡ false
        → 0 < ttl_ms
        → env.now + ttl_ms ≤ i64_max
        → (unless_negative hash cfg r env hit).0 ≡ Served.offline
        → lookup key (unless_negative hash cfg r env hit).1.tunnel_negative_cache
          ≡ some (env.now + ttl_ms)
    lookup-unless_negative env (true, st) o p b h = ground (arith, h)
    lookup-unless_negative env (false, st) o p b h =
        rw (o) (lookup-offline_get env.now st p b (rw (o) at h))

    forward_to_user-get :
        (env : ForwardEnv) (st : AppState)
        → r.is_get ≡ true
        → forward_to_user hash cfg r env st ≡ (
            if is_public_ap_get_path r.user r.path && env.is_cached
            then (Served.from_cache, st)
            else unless_negative hash cfg r env
                (tunnel_negative_cache_hit r.user r.path env.now st))
    unfolding forward_to_user
    forward_to_user-get env st g = simp (g)

    lookup-forward_to_user :
        (env : ForwardEnv) (st : AppState)
        → r.is_get ≡ true
        → env.is_online ≡ false
        → 0 < ttl_ms
        → env.now + ttl_ms ≤ i64_max
        → (forward_to_user hash cfg r env st).0 ≡ Served.offline
        → lookup key (forward_to_user hash cfg r env st).1.tunnel_negative_cache
          ≡ some (env.now + ttl_ms)
    lookup-forward_to_user env st g o p b h =
        elim (Bool-cases (is_public_ap_get_path r.user r.path && env.is_cached)) [
          | inl t ↦ ground (arith, rw (forward_to_user-get env st g, t) at h)
          | inr t ↦
              rw (forward_to_user-get env st g, t)
                (lookup-unless_negative env (tunnel_negative_cache_hit r.user r.path env.now st) o p
                  b (rw (forward_to_user-get env st g, t) at h))
        ]

    -- In the state that a GET leaves that was counted as an attempt for an offline user, on a path
    -- with a key whose time to live is positive and ends within an i64, a GET of the same path that
    -- no page cache answers is refused at any time until the time to live is over, even if the user
    -- is online by then, and only the counter of these refusals changes.
    pub attempts_spaced :
        (env later : ForwardEnv) (st : AppState)
        → r.is_get ≡ true
        → env.is_online ≡ false
        → later.is_cached ≡ false
        → 0 < ttl_ms
        → env.now + ttl_ms ≤ i64_max
        → later.now < env.now + ttl_ms
        → (forward_to_user hash cfg r env st).0 ≡ Served.offline
        → (let after = (forward_to_user hash cfg r env st).1 in
            forward_to_user hash cfg r later after ≡ (
              Served.negative_hit,
              record after {
                relay_negative_cache_hits = wrap_add_u64 after.relay_negative_cache_hits 1;
              },
            ))
    attempts_spaced env later st g o c p b l h =
        negative-refuses later (forward_to_user hash cfg r env st).1 (env.now + ttl_ms) g c
          (lookup-forward_to_user env st g o p b h) l
