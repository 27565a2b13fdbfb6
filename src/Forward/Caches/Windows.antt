-- ===== src/Forward/Caches/Windows.antt =====
-- How long the caches hold and the windows last.
use fedi.Base.{
  string_eq, ℕ, ◌+◌, ◌-◌, ◌*◌, ◌≤◌, ◌<◌, ◌≡◌, max, false, some, String, arith, ltb, leb, i64_max,
  inl, inr, Bool-cases,
}
use fedi.HashMap.{
  lookup, retain, IsUnique, lookup-insert_self, lookup-retain, insert-IsUnique, retain-IsUnique,
}
use fedi.Forward.{RelayConfig, Times, AppState}
use fedi.Forward.Caches.{
  cache_hit, cache_put, tunnel_unknown_ip_quarantine_hit, tunnel_unknown_ip_quarantine_put,
  is_recent, note_recent, is_duplicate_inbound_activity,
}

cache_hit-put :
    (key : String) (ttl_secs now later : ℕ) (cache : Times)
    → 0 < ttl_secs
    → now + ttl_secs * 1000 ≤ i64_max
    → (cache_hit key later (cache_put key ttl_secs now cache)).0 ≡ ltb later (now + ttl_secs * 1000)
unfolding cache_hit cache_put
cache_hit-put key ttl_secs now later cache p b = ground (
  arith,
  lookup-insert_self key (now + ttl_secs * 1000) cache,
  lookup-insert_self key (now + ttl_secs * 1000) (retain (λ until. ltb now until) cache),
)

-- With a positive quarantine whose end fits in an i64, an address that was put in quarantine is hit
-- exactly until its seconds have passed.
quarantine_lasts :
    (cfg : RelayConfig) (ip : String) (now later : ℕ) (st : AppState)
    → 0 < cfg.tunnel_unknown_user_quarantine_secs
    → now + cfg.tunnel_unknown_user_quarantine_secs * 1000 ≤ i64_max
    → (tunnel_unknown_ip_quarantine_hit ip later (tunnel_unknown_ip_quarantine_put cfg ip now st)).0
      ≡ ltb later (now + cfg.tunnel_unknown_user_quarantine_secs * 1000)
unfolding tunnel_unknown_ip_quarantine_hit tunnel_unknown_ip_quarantine_put
quarantine_lasts cfg ip now later st p b =
    cache_hit-put ip cfg.tunnel_unknown_user_quarantine_secs now later
      st.tunnel_unknown_ip_quarantine p b

note_recent-lookup :
    (window now : ℕ) (key : String) (m : Times)
    → (note_recent window key now m).0 ≡ false
    → lookup key (note_recent window key now m).1 ≡ some now
unfolding note_recent
note_recent-lookup window now key m h = ground (arith, lookup-insert_self key now m)

note_recent-IsUnique :
    (window now : ℕ) (key : String) (m : Times)
    → IsUnique m
    → IsUnique (note_recent window key now m).1
unfolding note_recent
note_recent-IsUnique window now key m u = elim (Bool-cases (is_recent window now (lookup key m))) [
  | inl t ↦ rw (t) u
  | inr t ↦ rw (t) (insert-IsUnique key now m u)
]

-- Dropping stamps that are older than the window changes no answer.
recent-retain :
    (window slack now later : ℕ) (key : String) (m : Times)
    → window ≤ slack
    → IsUnique m
    → lookup key m ≡ some now
    → is_recent window later (lookup key (retain (λ ts. leb (later - slack) ts) m))
      ≡ leb (later - now) window
recent-retain window slack now later key m p u e =
    rw (lookup-retain (λ ts. leb (later - slack) ts) key m u, e) (ground arith)

note_recent-answer :
    (window later : ℕ) (key : String) (m : Times)
    → (note_recent window key later m).0 ≡ is_recent window later (lookup key m)
unfolding note_recent
note_recent-answer window later key m = ground arith

-- With a positive window and distinct keys, an activity that was let through is a duplicate at a
-- later time exactly if that time is at most the window after it.
pub inbound_window :
    (cfg : RelayConfig) (key : String) (now later : ℕ) (st : AppState)
    → 0 < cfg.ap_inbound_dedupe_window_ms
    → IsUnique st.inbound_ap_dedupe
    → (is_duplicate_inbound_activity cfg key now st).0 ≡ false
    → (is_duplicate_inbound_activity cfg key later
        (is_duplicate_inbound_activity cfg key now st).1).0
      ≡ leb (later - now) cfg.ap_inbound_dedupe_window_ms
unfolding is_duplicate_inbound_activity
inbound_window cfg key now later st p u h =
    let window = cfg.ap_inbound_dedupe_window_ms in
    let m = retain (λ ts. leb (now - max window 1 * 4) ts) st.inbound_ap_dedupe in
    let m1 = (note_recent window key now m).1 in
    let um = retain-IsUnique (λ ts. leb (now - max window 1 * 4) ts) st.inbound_ap_dedupe u in
    let e = note_recent-lookup window now key m (ground arith) in
    ground (
      arith,
      note_recent-answer window later key (retain (λ ts. leb (later - max window 1 * 4) ts) m1),
      recent-retain window (max window 1 * 4) now later key m1 (omega arith)
          (note_recent-IsUnique window now key m um) e,
    )
