-- ===== src/Inbox/Frame.antt =====
-- What the checks of `inbox` leave alone: the activities seen, the blocked actors, and the log.
pub mod Senders
use fedi.Base.{
  ℕ, ◌*◌, ◌≡◌, refl, Bool, true, false, Option, none, some, List, String, if◌then◌else◌, arith,
  if_cases, inl, inr, Bool-cases,
}
use fedi.HttpSig.{RequestParts, SignatureParams, Outcome, passed, refused, panicked}
use fedi.HttpSig.KeyResolver.{ActorSummary, Cache}
use fedi.Social.{SocialDb, abuse_record_strike, insert_audit_event, bump_inbox_quota}
use fedi.Inbox.{
  Limiter, ApConfig, Place, World, ApState, Response, client_ip_from_headers, host_from_url,
  limit_ip, quota_host,
}
use fedi.Inbox.Checks.{
  About, on_social, audited, note_strike, limit, hit, limit_address, quota, quota_of_host,
  read_signature,
}
use fedi.Inbox.Steps.{Decision, go, stop, crash, Checked, next, stopped_with, guard, need, pass}

-- What every step keeps, a chain of steps keeps.
module _ {Json : Type 0} (P : ApState Json → Type 0) where
  pub next-keeps :
      {A B : Type 0} (r : Checked Json A) (f : A → ApState Json → Checked Json B)
      → P r.0
      → ((a : A) (t : ApState Json) → P t → P (f a t).0)
      → P (next r f).0
  unfolding next
  next-keeps (s, go a) f h k = k a s h
  next-keeps (s, stop r) f h k = h
  next-keeps (s, crash) f h k = h

  pub guard-keeps :
      (ok : Bool) (bad : ApState Json → ApState Json × Response) (s : ApState Json)
      → P s
      → ((u : ApState Json) → P u → P (bad u).0)
      → P (guard ok bad s).0
  unfolding guard
  guard-keeps true bad s h k = h
  guard-keeps false bad s h k = k s h

  pub need-keeps :
      {A : Type 0} (o : Option A) (bad : ApState Json → ApState Json × Response) (s : ApState Json)
      → P s
      → ((u : ApState Json) → P u → P (bad u).0)
      → P (need o bad s).0
  unfolding need
  need-keeps none bad s h k = k s h
  need-keeps (some a) bad s h k = h

  pass-keeps :
      (o : Outcome) (bad : ApState Json → ApState Json × Response) (s : ApState Json)
      → P s
      → ((u : ApState Json) → P u → P (bad u).0)
      → P (pass o bad s).0
  unfolding pass
  pass-keeps passed bad s h k = h
  pass-keeps refused bad s h k = k s h
  pass-keeps panicked bad s h k = h

-- The cache that is expected, where one is.
abbrev pub IsCache : Option Cache → Cache → Type 0
IsCache none cache = Unit {0}
IsCache (some expected) cache = cache ≡ expected

-- The two states agree on what the checks leave alone.
unfoldable pub IsFramed : {Json : Type 0} → Option Cache → ApState Json → ApState Json → Type 0
IsFramed c s t =
    (t.done ≡ s.done)
    × ((t.social.inbox_seen ≡ s.social.inbox_seen)
        × ((t.social.blocked_actors ≡ s.social.blocked_actors) × IsCache c t.key_cache))

pub same_state : {Json : Type 0} (s : ApState Json) → IsFramed (some s.key_cache) s s
unfolding IsFramed
same_state s = (refl, (refl, (refl, refl)))

module _ {Json : Type 0} (w : World Json) (c : Option Cache) (s : ApState Json) where
  pub audited-IsFramed :
      (about : About) (is_ok : Bool) (status : String) (detail : Option String) (t : ApState Json)
      → IsFramed c s t
      → IsFramed c s (audited w about is_ok status detail t)
  unfolding IsFramed audited insert_audit_event
  audited-IsFramed about is_ok status detail t h = ground (arith, h)

  pub note_strike-IsFramed :
      (call : Place) (abuse_key : String) (t : ApState Json)
      → IsFramed c s t
      → IsFramed c s (note_strike w call abuse_key t)
  unfolding IsFramed note_strike abuse_record_strike
  note_strike-IsFramed call abuse_key t h = ground (arith, h)

  module _ (cfg : ApConfig) where
    limiter-IsFramed :
        (l : Limiter) (t : ApState Json)
        → IsFramed c s t
        → IsFramed c s (record t { inbox_limiter = l })
    unfolding IsFramed
    limiter-IsFramed l t h = h

    bump-IsFramed :
        (key : String) (window_ms max_reqs max_bytes add_bytes now : ℕ) (t : ApState Json)
        → IsFramed c s t
        → let r = bump_inbox_quota key window_ms max_reqs max_bytes add_bytes now t.social in
          IsFramed c s (record t { social = r.0 })
    unfolding IsFramed bump_inbox_quota
    bump-IsFramed key window_ms max_reqs max_bytes add_bytes now t h = ground (arith, h)

    pub limit-IsFramed :
        (call : Place) (key : String) (bytes : ℕ) (bad : ApState Json → ApState Json × Response)
        (t : ApState Json)
        → ((u : ApState Json) → IsFramed c s u → IsFramed c s (bad u).0)
        → IsFramed c s t
        → IsFramed c s (limit w cfg call key bytes bad t).0
    unfolding limit
    limit-IsFramed call key bytes bad t k h =
        let h1 = limiter-IsFramed _ t h in guard-keeps (IsFramed c s) _ bad _ h1 k

    hit-IsFramed : (t : ApState Json) → IsFramed c s t → IsFramed c s (hit w cfg t).0
    unfolding IsFramed insert_audit_event
    hit-IsFramed t h = ground (arith, h)

    pub limit_address-IsFramed :
        (ip : Option String) (bytes : ℕ) (t : ApState Json)
        → IsFramed c s t
        → IsFramed c s (limit_address w cfg ip bytes t).0
    limit_address-IsFramed none bytes t h = h
    limit_address-IsFramed (some ip) bytes t h =
        limit-IsFramed limit_ip _ bytes (hit w cfg) t hit-IsFramed h

    pub quota-IsFramed :
        (call : Place) (key : String) (bytes : ℕ) (bad : ApState Json → ApState Json × Response)
        (t : ApState Json)
        → ((u : ApState Json) → IsFramed c s u → IsFramed c s (bad u).0)
        → IsFramed c s t
        → IsFramed c s (quota w cfg call key bytes bad t).0
    unfolding quota
    quota-IsFramed call key bytes bad t k h = elim (Bool-cases (w.is_up call)) [
      | inl e ↦
          let limits = cfg.inbox_limits in
          let h1 =
            bump-IsFramed key (24 * 3600 * 1000) limits.max_reqs_per_day limits.max_bytes_per_day
              bytes (w.now_ms call) t h in
          let r =
            bump_inbox_quota key (24 * 3600 * 1000) limits.max_reqs_per_day limits.max_bytes_per_day
              bytes (w.now_ms call) t.social in
          rw (e) (guard-keeps (IsFramed c s) r.1 bad (record t { social = r.0 }) h1 k)
      | inr e ↦ rw (e) h
    ]

    pub read_signature-IsFramed :
        (kind : String) (parts : RequestParts) (body : List ℕ) (t : ApState Json)
        → IsFramed c s t
        → IsFramed c s (read_signature w cfg kind parts body t).0
    unfolding read_signature
    read_signature-IsFramed kind parts body t h =
        next-keeps (IsFramed c s) _ _
          (pass-keeps (IsFramed c s) _ _ t h (λ u g. audited-IsFramed _ _ _ _ u g))
          (λ _ t1 h1.
            next-keeps (IsFramed c s) _ _
              (need-keeps (IsFramed c s) _ _ t1 h1 (λ u g. audited-IsFramed _ _ _ _ u g))
              (λ _ t2 h2.
                next-keeps (IsFramed c s) _ _
                  (need-keeps (IsFramed c s) _ _ t2 h2 (λ u g. audited-IsFramed _ _ _ _ u g))
                  (λ _ t3 h3.
                    next-keeps (IsFramed c s) _ _
                      (pass-keeps (IsFramed c s) _ _ t3 h3 (λ u g. audited-IsFramed _ _ _ _ u g))
                      (λ _ t4 h4.
                        next-keeps (IsFramed c s) _ _
                          (pass-keeps (IsFramed c s) _ _ t4 h4
                            (λ u g. audited-IsFramed _ _ _ _ u g))
                          (λ _ t5 h5. h5)))))
