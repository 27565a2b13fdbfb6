-- ===== src/Inbox/Authentic.antt =====
-- What holds of a request that `authenticate` lets go on.
use fedi.Base.{
  codes_eq, ℕ, ◌≡◌, sym, ap, subst, ◌∙◌, true, false, none, some, List, String, arith, length,
}
use fedi.Text.{codes}
use fedi.HashMap.{lookup}
use fedi.HttpSig.{
  RequestParts, SignatureParams, passed, parse_signature_header,
  ensure_supported_signature_algorithm,
}
use fedi.HttpSig.Verify.{build_signing_string}
use fedi.HttpSig.Digest.{Agrees, verify_digest_if_present-Agrees}
use fedi.HttpSig.Accepted.{IsTimely, verify_signature_time_window-IsTimely}
use fedi.HttpSig.KeyResolver.{ActorSummary, Cache, resolve_actor_summary_for_key_id}
use fedi.Social.{SocialDb, is_actor_blocked}
use fedi.Inbox.{
  ApConfig, World, ApState, text_of, is_blocked_actor, client_ip_from_headers, cache_get, cache_put,
}
use fedi.Inbox.Blocked.{IsUnblocked, is_blocked_actor-IsUnblocked}
use fedi.Inbox.Chains.{GoesOn, go-inj, went_state, next-go, guard-go, need-go, pass-go}
use fedi.Inbox.Checks.{read_signature, verify_sender, admit}
use fedi.Inbox.Handler.{Sender, authenticate}
use fedi.Inbox.Frame.{
  IsFramed, same_state, limit_address-IsFramed, read_signature-IsFramed, limit-IsFramed,
}
use fedi.Inbox.Frame.Senders.{verify_sender-IsFramed, any_cache}

module _ {Json : Type 0} (w : World Json) (cfg : ApConfig) (parts : RequestParts)
    (body : List ℕ) where
  -- The header was read, and the digest, the algorithm and the times were checked.
  pub record IsRead (sig : SignatureParams) : Type 0 where
    pub digest : Agrees w.lib body (lookup (codes "digest") parts.headers)
    pub header : String
    pub present : text_of (lookup (codes "signature") parts.headers) ≡ some header
    pub parsed : parse_signature_header w.lib header ≡ some sig
    pub supported : ensure_supported_signature_algorithm sig ≡ passed
    pub timely : IsTimely w.lib cfg.max_date_skew w.now_ns parts.headers sig

  pub read_signature-IsRead :
      (kind : String) (s t : ApState Json) (sig : SignatureParams)
      → GoesOn (read_signature w cfg kind parts body s) t sig
      → IsRead sig
  unfolding read_signature
  read_signature-IsRead kind s t sig h =
      let a = next-go _ _ t sig h in
      let b = next-go _ _ t sig a.1.1.1 in
      let c = next-go _ _ t sig b.1.1.1 in
      let d = next-go _ _ t sig c.1.1.1 in
      let e = next-go _ _ t sig d.1.1.1 in
      let same = (go-inj _ _ _ _ e.1.1.1).0 in
      record {
        digest =
            verify_digest_if_present-Agrees w.lib body parts.headers (pass-go _ _ _ _ _ a.1.1.0).0;
        header = b.1.0;
        present = (need-go _ _ _ _ _ b.1.1.0).0;
        parsed = (need-go _ _ _ _ _ c.1.1.0).0 ∙ ap some same;
        supported =
            subst (λ p. ensure_supported_signature_algorithm p ≡ passed) same
              (pass-go _ _ _ _ _ d.1.1.0).0;
        timely =
            subst (λ p. IsTimely w.lib cfg.max_date_skew w.now_ns parts.headers p) same
              (verify_signature_time_window-IsTimely w.lib cfg.max_date_skew w.now_ns parts.headers
                c.1.0 (pass-go _ _ _ _ _ e.1.1.0).0);
      }

  -- The string that the header names was built, and its signature was verified with the key that
  -- the resolver has for the key id.
  pub record IsVerified (cache : Cache) (sig : SignatureParams) (summary : ActorSummary)
      : Type 0 where
    pub signing : List ℕ
    pub built : build_signing_string w.lib parts sig.headers ≡ some signing
    pub resolved_by :
        (resolve_actor_summary_for_key_id w.fetch
          (w.now_ms cache_get)
          (w.now_ms cache_put)
          sig.key_id
          cache).0
        ≡ some summary
    pub signed : w.lib.verify summary.public_key_pem signing sig.signature ≡ true

  pub verify_sender-IsVerified :
      (kind : String) (s t : ApState Json) (sig : SignatureParams) (summary : ActorSummary)
      → GoesOn (verify_sender w cfg kind parts sig s) t summary
      → IsVerified s.key_cache sig summary
  unfolding verify_sender
  verify_sender-IsVerified kind s t sig summary h =
      let a = next-go _ _ t summary h in
      let b = next-go _ _ t summary a.1.1.1 in
      let c = next-go _ _ t summary b.1.1.1 in
      let same = (go-inj _ _ _ _ c.1.1.1).0 in
      let first = need-go _ _ _ _ _ a.1.1.0 in
      record {
        signing = a.1.0;
        built = first.0;
        resolved_by =
            ap
              (λ (u : ApState Json).
                (resolve_actor_summary_for_key_id w.fetch (w.now_ms cache_get) (w.now_ms cache_put)
                  sig.key_id u.key_cache).0)
              (sym first.1)
            ∙ ((need-go _ _ _ _ _ b.1.1.0).0 ∙ ap some same);
        signed =
            subst (λ p. w.lib.verify p.public_key_pem a.1.0 sig.signature ≡ true) same
              (guard-go _ _ _ _ _ c.1.1.0).0;
      }

  is_blocked_actor-same :
      (url : String) (a b : SocialDb)
      → a.blocked_actors ≡ b.blocked_actors
      → is_blocked_actor w cfg url a ≡ is_blocked_actor w cfg url b
  unfolding is_blocked_actor is_actor_blocked
  is_blocked_actor-same url a b e = ground (arith, e)

  admit-unblocked :
      (s t : ApState Json) (bytes : ℕ) (sig : SignatureParams) (summary : ActorSummary)
      (u : Unit {0})
      → GoesOn (admit w cfg bytes sig summary s) t u
      → is_blocked_actor w cfg summary.actor_url s.social ≡ false
  unfolding admit
  admit-unblocked s t bytes sig summary u h =
      let a = next-go _ _ t u h in
      let b = next-go _ _ t u a.1.1.1 in
      let first = guard-go _ _ _ _ _ a.1.1.0 in
      let unblocked = (guard-go _ _ _ _ _ b.1.1.0).0 in
      ap (λ (v : ApState Json). is_blocked_actor w cfg summary.actor_url v.social) (sym first.1)
      ∙ ground (arith, unblocked)

  -- The request was let in for this sender.
  pub record IsAuthentic (s : ApState Json) (sender : Sender) : Type 0 where
    pub read : IsRead sender.sig
    pub verified : IsVerified s.key_cache sender.sig sender.summary
    pub unblocked : IsUnblocked w cfg sender.summary.actor_url s.social

  pub framed_cache :
      (s t : ApState Json) → IsFramed (some s.key_cache) s t → t.key_cache ≡ s.key_cache
  unfolding IsFramed
  framed_cache s t h = h.1.1.1

  framed_blocked :
      (s t : ApState Json) → IsFramed none s t → t.social.blocked_actors ≡ s.social.blocked_actors
  unfolding IsFramed
  framed_blocked s t h = h.1.1.0

  pub authenticate-IsAuthentic :
      (s t : ApState Json) (sender : Sender)
      → GoesOn (authenticate w cfg parts body s) t sender
      → IsAuthentic s sender
  unfolding authenticate
  authenticate-IsAuthentic s t sender h =
      let a = next-go _ _ t sender h in
      let b = next-go _ _ t sender a.1.1.1 in
      let c = next-go _ _ t sender b.1.1.1 in
      let d = next-go _ _ t sender c.1.1.1 in
      let e = next-go _ _ t sender d.1.1.1 in
      let f = next-go _ _ t sender e.1.1.1 in
      let k = some s.key_cache in
      let sa = went_state (IsFramed k s) _ _ _ a.1.1.0 (
        limit_address-IsFramed w k s cfg (client_ip_from_headers parts.headers) (length body) s
          (same_state s)) in
      let sb =
        went_state (IsFramed k s) _ _ _ b.1.1.0
          (read_signature-IsFramed w k s cfg "inbox" parts body a.0 sa) in
      let sc = subst (IsFramed k s) (sym (guard-go _ _ _ _ _ c.1.1.0).1) sb in
      let sd =
        went_state (IsFramed k s) _ _ _ d.1.1.0
          (limit-IsFramed w k s cfg _ _ _ _ c.0 (λ u g. g) sc) in
      let se =
        went_state (IsFramed none s) _ _ _ e.1.1.0
          (verify_sender-IsFramed w s cfg "inbox" parts b.1.0 d.0 (any_cache w s cfg k d.0 sd)) in
      subst (IsAuthentic s) (go-inj _ _ _ _ f.1.1.1).0 (record {
        read = read_signature-IsRead "inbox" a.0 b.0 b.1.0 b.1.1.0;
        verified =
            subst (λ cache. IsVerified cache b.1.0 e.1.0) (framed_cache s d.0 sd)
              (verify_sender-IsVerified "inbox" d.0 e.0 b.1.0 e.1.0 e.1.1.0);
        unblocked = is_blocked_actor-IsUnblocked w cfg e.1.0.actor_url s.social (
            sym (is_blocked_actor-same e.1.0.actor_url _ _ (framed_blocked s e.0 se))
            ∙ admit-unblocked e.0 f.0 (length body) b.1.0 e.1.0 f.1.0 f.1.1.0);
      })
