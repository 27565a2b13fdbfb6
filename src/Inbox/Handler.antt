-- ===== src/Inbox/Handler.antt =====
-- The handler `inbox` itself: the order of the checks, and what is done with an activity that is let
-- in. Requests come one after the other.
use fedi.Base.{
  ℕ, ◌*◌, true, not, ◌&&◌, Option, none, some, List, ◌∷◌, String, ltb, if◌then◌else◌, length,
}
use fedi.Text.{is_empty}
use fedi.HttpSig.{RequestParts, SignatureParams}
use fedi.HttpSig.KeyResolver.{ActorSummary}
use fedi.Social.{mark_inbox_seen}
use fedi.Inbox.{
  ApConfig, World, ApState, Response, reply, Effect, upsert_actor_meta, process_inbox_activity,
  send_delivery_receipt, client_ip_from_headers, abuse_key_for_key_id, activity_dedup_id,
  activity_id_from_bytes, limit_key, check_key, mark_seen,
}
use fedi.Inbox.Checks.{
  About, audited, deny, by_key, by_actor, is_clear, limit, limited, limit_address, read_signature,
  verify_sender, admit,
}
use fedi.Inbox.Steps.{go, stop, crash, Checked, next, guard, need}

pub record Sender : Type 0 where
  pub sig : SignatureParams
  pub summary : ActorSummary

module _ {Json : Type 0} (w : World Json) where
  module _ (cfg : ApConfig) where
    -- Everything up to the reading of the activity.
    unfoldable pub authenticate :
        RequestParts → (body : List ℕ) → ApState Json → Checked Json Sender
    unfolding client_ip_from_headers abuse_key_for_key_id
    authenticate parts body s0 =
        let bytes = length body in
        next (limit_address w cfg (client_ip_from_headers parts.headers) bytes s0) (λ _ s1.
          next (read_signature w cfg "inbox" parts body s1) (λ sig s2.
            next
              (guard (is_clear w check_key (abuse_key_for_key_id w sig.key_id) s2)
                (deny w (by_key w "inbox" sig) "429" "temp blocked keyId"
                  (reply 429 "rate limited"))
                s2)
              (λ _ s3. next (limit w cfg limit_key sig.key_id bytes (limited w cfg) s3) (λ _ s4.
                next (verify_sender w cfg "inbox" parts sig s4) (λ summary s5.
                  next (admit w cfg bytes sig summary s5)
                    (λ _ s6. (s6, go (record { sig = sig; summary = summary }))))))))

  abbrev pub with_effect : Effect Json → ApState Json → ApState Json
  with_effect e s = record s { done = e ∷ s.done }

  abbrev pub about_activity : Sender → (dedup_id : String) → About
  about_activity sender dedup_id = record {
    kind = "inbox";
    actor_id = some sender.summary.actor_url;
    key_id = some sender.sig.key_id;
    activity_id = some dedup_id;
  }

  -- The entry in `inbox_seen`: an activity that is there already is answered and goes no further.
  unfoldable pub marked_seen : Sender → (dedup_id : String) → ApState Json → Checked Json Unit
  unfolding mark_inbox_seen
  marked_seen sender dedup_id s =
      let about = about_activity sender dedup_id in
      let r = mark_inbox_seen (w.now_ms mark_seen) dedup_id s.social in
      next (guard (w.is_up mark_seen) (deny w about "502" "db error" (reply 502 "db error")) s)
        (λ _ s1.
          guard r.1 (λ t. (audited w about true "202" (some "duplicate") t, reply 202 "duplicate"))
            (record s1 { social = r.0 }))

  abbrev pub receipted : ActorSummary → (receipt_activity_id : String) → ApState Json → ApState Json
  receipted summary receipt_activity_id s =
      if summary.is_fedi3 && not (is_empty receipt_activity_id)
      then with_effect
          (send_delivery_receipt summary.actor_url summary.public_key_pem receipt_activity_id) s
      else s

  -- What follows the authentication.
  unfoldable pub take_in : (body : List ℕ) → Sender → ApState Json → Checked Json Response
  unfolding activity_dedup_id activity_id_from_bytes
  take_in body sender s0 =
      let summary = sender.summary in
      next
        (need (w.from_slice body)
          (deny w (by_actor w "inbox" sender.sig summary) "400" "invalid json"
            (reply 400 "invalid activity json"))
          (with_effect (upsert_actor_meta summary.actor_url summary.is_fedi3) s0))
        (λ activity s1.
          let about = about_activity sender (activity_dedup_id w activity) in
          next (marked_seen sender (activity_dedup_id w activity) s1) (λ _ s2.
            next
              (guard (w.is_processed activity)
                (deny w about "502" "processing error" (reply 502 "processing error"))
                (with_effect (process_inbox_activity activity) s2))
              (λ _ s3. (
                audited w about true "202" none
                    (receipted summary (activity_id_from_bytes w body) s3),
                go (reply 202 "accepted"),
              ))))

  -- The reply; none where the handler panics.
  abbrev pub finish_reply : Checked Json Response → ApState Json × Option Response
  finish_reply (s, go r) = (s, some r)
  finish_reply (s, stop r) = (s, some r)
  finish_reply (s, crash) = (s, none)

  module _ (cfg : ApConfig) where
    abbrev pub handle :
        RequestParts → Option (List ℕ) → ApState Json → ApState Json × Option Response
    handle parts none s = (s, some (reply 400 "invalid body"))
    handle parts (some body) s =
        if ltb (2 * 1024 * 1024) (length body)
        then (s, some (reply 400 "invalid body"))
        else finish_reply (next (authenticate cfg parts body s) (take_in body))

    -- `body` is none where it cannot be read.
    unfoldable pub inbox :
        RequestParts → (body : Option (List ℕ)) → ApState Json → ApState Json × Option Response
    inbox parts body s = handle parts body s
