-- ===== src/Inbox/Checks.antt =====
-- The checks of `inbox` one after the other: each lets the request go on, or answers it. A check that
-- panics ends the request without an answer.
use Prim.Native.String.{◌++◌}
use fedi.Base.{
  string_eq, codes_eq, ℕ, ◌*◌, Bool, true, false, not, Option, none, some, List, String,
  if◌then◌else◌, is_some, wrap_add_u64,
}
use fedi.Text.{codes}
use fedi.HashMap.{lookup}
use fedi.Inbox.Steps.{Checked, go, next, guard, need, pass}
use fedi.HttpSig.{
  RequestParts, SignatureParams, verify_digest_if_present, parse_signature_header,
  ensure_supported_signature_algorithm,
}
use fedi.HttpSig.Verify.{verify_signature_time_window, build_signing_string}
use fedi.HttpSig.KeyResolver.{ActorSummary, resolve_actor_summary_for_key_id}
use fedi.Social.{
  SocialDb, abuse_check_blocked, abuse_record_strike, insert_audit_event, bump_inbox_quota,
}
use fedi.Inbox.{
  ApConfig, Place, World, ApState, Response, reply, text_of, inbox_rate_limit, short_hash,
  abuse_key_for_key_id, abuse_key_for_actor, host_from_url, is_blocked_actor, limit_ip, limit_actor,
  check_actor, strike_key, strike_actor, cache_get, cache_put, quota_key, quota_actor, quota_host,
  audit,
}

-- Who an audit event is about.
pub record About : Type 0 where
  pub kind : String
  pub actor_id : Option String
  pub key_id : Option String
  pub activity_id : Option String

module _ {Json : Type 0} (w : World Json) where
  abbrev pub on_social : (SocialDb → SocialDb) → ApState Json → ApState Json
  on_social f s = record s { social = f s.social }

  unfoldable pub audited :
      About
      → (is_ok : Bool) (status : String) (detail : Option String) → ApState Json
      → ApState Json
  unfolding insert_audit_event
  audited about is_ok status detail s =
      if w.is_up audit
      then on_social
          (insert_audit_event (record {
            kind = about.kind;
            created_at_ms = w.now_ms audit;
            actor_id = about.actor_id;
            key_id = about.key_id;
            activity_id = about.activity_id;
            is_ok = is_ok;
            status = some status;
            detail = detail;
          }))
          s
      else s

  abbrev pub deny :
      About → (status detail : String) → Response → ApState Json → ApState Json × Response
  deny about status detail r s = (audited about false status (some detail) s, r)

  abbrev pub nobody : (kind : String) → About
  nobody kind = record { kind = kind; actor_id = none; key_id = none; activity_id = none }

  abbrev pub by_key : (kind : String) → SignatureParams → About
  by_key kind sig = record {
    kind = kind;
    actor_id = none;
    key_id = some sig.key_id;
    activity_id = none;
  }

  abbrev pub by_actor : (kind : String) → SignatureParams → ActorSummary → About
  by_actor kind sig summary = record {
    kind = kind;
    actor_id = some summary.actor_url;
    key_id = some sig.key_id;
    activity_id = none;
  }

  unfoldable pub note_strike : Place → (abuse_key : String) → ApState Json → ApState Json
  unfolding abuse_record_strike
  note_strike call abuse_key s =
      if w.is_up call then on_social (abuse_record_strike (w.now_ms call) abuse_key 1) s else s

  -- Not blocked, or the database does not answer.
  abbrev pub is_clear : Place → (abuse_key : String) → ApState Json → Bool
  is_clear call abuse_key s =
      if w.is_up call
      then not (is_some (abuse_check_blocked (w.now_ms call) abuse_key s.social))
      else true

  module _ (cfg : ApConfig) where
    abbrev pub limited : ApState Json → ApState Json × Response
    limited s = (s, reply 429 "rate limited")

    unfoldable pub limit :
        Place
        → (key : String) (bytes : ℕ) → (ApState Json → ApState Json × Response)
        → ApState Json
        → Checked Json Unit
    unfolding inbox_rate_limit
    limit call key bytes bad s =
        let r = inbox_rate_limit cfg.inbox_limits (w.now_ms call) key bytes s.inbox_limiter in
        guard r.1 bad (record s { inbox_limiter = r.0 })

    -- A refusal by address is counted and audited.
    abbrev pub hit : ApState Json → ApState Json × Response
    hit s = (
      (if w.is_up audit
          then on_social
              (insert_audit_event (record {
                kind = "rate_limit";
                created_at_ms = w.now_ms audit;
                actor_id = none;
                key_id = none;
                activity_id = none;
                is_ok = false;
                status = some "429";
                detail = some "inbox ip";
              }))
              (record s { rate_limit_hits = wrap_add_u64 s.rate_limit_hits 1 })
          else record s { rate_limit_hits = wrap_add_u64 s.rate_limit_hits 1 }),
      reply 429 "rate limited",
    )

    abbrev pub limit_address : Option String → (bytes : ℕ) → ApState Json → Checked Json Unit
    limit_address none bytes s = (s, go tt)
    limit_address (some ip) bytes s = limit limit_ip ("ip:" ++ ip) bytes hit s

    -- `inbox_quota_limit`; where the database does not answer, the request is allowed.
    unfoldable pub quota :
        Place
        → (key : String) (bytes : ℕ) → (ApState Json → ApState Json × Response)
        → ApState Json
        → Checked Json Unit
    unfolding bump_inbox_quota
    quota call key bytes bad s =
        let limits = cfg.inbox_limits in
        let r =
          bump_inbox_quota key (24 * 3600 * 1000) limits.max_reqs_per_day limits.max_bytes_per_day
            bytes (w.now_ms call) s.social in
        if w.is_up call then guard r.1 bad (record s { social = r.0 }) else (s, go tt)

    abbrev pub quota_of_host :
        Option (List ℕ)
        → (bytes : ℕ) → (ApState Json → ApState Json × Response)
        → ApState Json
        → Checked Json Unit
    quota_of_host none bytes bad s = (s, go tt)
    quota_of_host (some host) bytes bad s =
        quota quota_host ("day:host:" ++ short_hash w host) bytes bad s

    -- From the digest to the time window.
    unfoldable pub read_signature :
        (kind : String)
        → RequestParts
        → (body : List ℕ) → ApState Json
        → Checked Json SignatureParams
    unfolding lookup verify_digest_if_present parse_signature_header
        ensure_supported_signature_algorithm verify_signature_time_window
    read_signature kind parts body s0 =
        let invalid = reply 401 "invalid signature" in
        next
          (pass (verify_digest_if_present w.lib body parts.headers)
            (deny (nobody kind) "401" "digest invalid" (reply 401 "digest invalid")) s0)
          (λ _ s1.
            next
              (need (text_of (lookup (codes "signature") parts.headers))
                (deny (nobody kind) "401" "missing Signature"
                  (reply 401 "missing Signature header"))
                s1)
              (λ header s2.
                next
                  (need (parse_signature_header w.lib header)
                    (deny (nobody kind) "401" "bad Signature" invalid) s2)
                  (λ sig s3.
                    next
                      (pass (ensure_supported_signature_algorithm sig)
                        (deny (by_key kind sig) "401" "unsupported algorithm" invalid) s3)
                      (λ _ s4.
                        next
                          (pass
                            (verify_signature_time_window w.lib cfg.max_date_skew w.now_ns
                              parts.headers sig true)
                            (deny (by_key kind sig) "401" "date invalid" invalid) s4)
                          (λ _ s5. (s5, go sig))))))

    abbrev pub resolved : SignatureParams → ApState Json → Option ActorSummary × ApState Json
    resolved sig s =
        let r =
          resolve_actor_summary_for_key_id w.fetch (w.now_ms cache_get) (w.now_ms cache_put)
            sig.key_id s.key_cache in
        (r.0, record s { key_cache = r.1 })

    -- From the signing string to the verified signature.
    unfoldable pub verify_sender :
        (kind : String) → RequestParts → SignatureParams → ApState Json → Checked Json ActorSummary
    unfolding build_signing_string resolve_actor_summary_for_key_id abuse_key_for_key_id
        abuse_key_for_actor
    verify_sender kind parts sig s0 =
        let invalid = reply 401 "invalid signature" in
        next (need (build_signing_string w.lib parts sig.headers) (λ s. (s, invalid)) s0)
          (λ signing s1.
            let found = resolved sig s1 in
            next
              (need found.0
                (λ s.
                  deny (by_key kind sig) "401" "key resolve failed" invalid
                    (note_strike strike_key (abuse_key_for_key_id w sig.key_id) s))
                found.1)
              (λ summary s2.
                next
                  (guard (w.lib.verify summary.public_key_pem signing sig.signature)
                    (λ s. deny (by_actor kind sig summary) "401" "signature invalid" invalid (
                      note_strike strike_actor (abuse_key_for_actor w summary.actor_url)
                        (note_strike strike_key (abuse_key_for_key_id w sig.key_id) s)))
                    s2)
                  (λ _ s3. (s3, go summary))))

    -- From the block of the actor to the last quota.
    unfoldable pub admit :
        (bytes : ℕ) → SignatureParams → ActorSummary → ApState Json → Checked Json Unit
    unfolding is_blocked_actor abuse_check_blocked abuse_key_for_actor short_hash host_from_url
    admit bytes sig summary s0 =
        let about = by_actor "inbox" sig summary in
        let over = reply 429 "rate limited" in
        next
          (guard (is_clear check_actor (abuse_key_for_actor w summary.actor_url) s0)
            (deny about "429" "temp blocked actor" over) s0)
          (λ _ s1.
            next
              (guard (not (is_blocked_actor w cfg summary.actor_url s1.social))
                (deny about "403" "blocked" (reply 403 "blocked")) s1)
              (λ _ s2.
                next (limit limit_actor ("actor:" ++ summary.actor_url) bytes limited s2) (λ _ s3.
                  next
                    (quota quota_key ("day:key:" ++ short_hash w (codes sig.key_id)) bytes
                      (deny about "429" "quota keyId/day" over) s3)
                    (λ _ s4.
                      next
                        (quota quota_actor ("day:actor:" ++ short_hash w (codes summary.actor_url))
                          bytes (deny about "429" "quota actor/day" over) s4)
                        (λ _ s5.
                          quota_of_host (host_from_url w summary.actor_url) bytes
                            (deny about "429" "quota host/day" over) s5)))))
