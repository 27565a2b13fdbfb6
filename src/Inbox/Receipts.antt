-- ===== src/Inbox/Receipts.antt =====
-- The handler `receipt_post` of crates/fedi3_core/src/ap.rs: a server confirms that an activity
-- arrived, which marks its jobs in the delivery queue. It makes the checks of the signature that
-- `inbox` makes. `Receipt` is what it needs besides: JSON in and out, and whether the queue answers.
use Prim.Native.String.{◌++◌}
use fedi.Base.{
  string_eq, ℕ, ◌*◌, ◌≡◌, refl, sym, subst, ◌⊎◌, inl, inr, Bool, true, Option, none, some, List,
  String, ltb, if◌then◌else◌, length, Bool-cases,
}
use fedi.HttpSig.{RequestParts}
use fedi.Queue.{Job}
use fedi.Queue.Store.{mark_delivered_by_receipt}
use fedi.Inbox.{
  ApConfig, World, ApState, Response, reply, abuse_key_for_key_id, abuse_key_for_actor, check_key,
  check_actor,
}
use fedi.Inbox.Steps.{go, stop, crash, Checked, next, guard}
use fedi.Inbox.Chains.{GoesOn, next-go, guard-go, went_state, go-inj}
use fedi.Inbox.Checks.{
  About, audited, deny, by_key, by_actor, is_clear, read_signature, verify_sender,
}
use fedi.Inbox.Handler.{Sender}
use fedi.Inbox.Frame.{IsFramed, same_state, read_signature-IsFramed}
use fedi.Inbox.Authentic.{
  IsRead, IsVerified, read_signature-IsRead, verify_sender-IsVerified, framed_cache,
}

pub record Receipt : Type 0 where
  pub activity_of : List ℕ → Option String
  pub show_count : ℕ → String
  pub ok_body : ℕ → String
  pub is_queue_up : Bool

-- The state of the server and the jobs of the queue.
pub record ReceiptState (Json : Type 0) : Type 0 where
  pub server : ApState Json
  pub jobs : List Job

module _ {Json : Type 0} (w : World Json) (q : Receipt) where
  module _ (cfg : ApConfig) where
    unfoldable pub confirm_sender :
        RequestParts → (body : List ℕ) → ApState Json → Checked Json Sender
    unfolding abuse_key_for_key_id abuse_key_for_actor
    confirm_sender parts body s0 =
        let over = reply 429 "rate limited" in
        next (read_signature w cfg "receipt" parts body s0) (λ sig s1.
          next
            (guard (is_clear w check_key (abuse_key_for_key_id w sig.key_id) s1)
              (deny w (by_key w "receipt" sig) "429" "temp blocked keyId" over) s1)
            (λ _ s2. next (verify_sender w cfg "receipt" parts sig s2) (λ summary s3.
              next
                (guard (is_clear w check_actor (abuse_key_for_actor w summary.actor_url) s3)
                  (deny w (by_actor w "receipt" sig summary) "429" "temp blocked actor" over) s3)
                (λ _ s4. (s4, go (record { sig = sig; summary = summary }))))))

  abbrev pub about_receipt : Sender → (activity_id : String) → About
  about_receipt sender activity_id = record {
    kind = "receipt";
    actor_id = some sender.summary.actor_url;
    key_id = some sender.sig.key_id;
    activity_id = some activity_id;
  }

  -- The jobs of the activity that wait for the relay and went to the sender are delivered.
  abbrev pub confirmed :
      Sender
      → Option String
      → (s : ApState Json) (jobs : List Job) → ReceiptState Json × Option Response
  confirmed sender none s jobs =
      (record { server = s; jobs = jobs }, some (reply 400 "invalid json"))
  confirmed sender (some activity_id) s jobs =
      let r = mark_delivered_by_receipt activity_id sender.summary.actor_url jobs in
      if q.is_queue_up
      then (
        record {
          server =
              audited w (about_receipt sender activity_id) true "200"
                (some ("updated=" ++ q.show_count r.1)) s;
          jobs = r.0;
        },
        some (reply 200 (q.ok_body r.1)),
      )
      else (record { server = s; jobs = jobs }, some (reply 502 "db error"))

  abbrev pub after_checks :
      (body : List ℕ)
      → Checked Json Sender
      → (jobs : List Job) → ReceiptState Json × Option Response
  after_checks body (s, go sender) jobs = confirmed sender (q.activity_of body) s jobs
  after_checks body (s, stop r) jobs = (record { server = s; jobs = jobs }, some r)
  after_checks body (s, crash) jobs = (record { server = s; jobs = jobs }, none)

  module _ (cfg : ApConfig) where
    abbrev pub of_body :
        RequestParts → Option (List ℕ) → ReceiptState Json → ReceiptState Json × Option Response
    of_body parts none t = (t, some (reply 400 "invalid body"))
    of_body parts (some body) t =
        if ltb (64 * 1024) (length body)
        then (t, some (reply 400 "invalid body"))
        else after_checks body (confirm_sender cfg parts body t.server) t.jobs

    unfoldable pub receipt_post :
        RequestParts
        → (body : Option (List ℕ)) → ReceiptState Json
        → ReceiptState Json × Option Response
    unfolding confirm_sender mark_delivered_by_receipt
    receipt_post parts body t = of_body parts body t

module _ {Json : Type 0} (w : World Json) (q : Receipt) (cfg : ApConfig)
    (parts : RequestParts) where
  -- The signature was checked, and the jobs that the receipt confirms are those of its sender.
  pub record IsConfirmed (body : List ℕ) (t : ReceiptState Json) (after : List Job) : Type 0 where
    pub sender : Sender
    pub read : IsRead w cfg parts body sender.sig
    pub verified : IsVerified w cfg parts body t.server.key_cache sender.sig sender.summary
    pub activity_id : String
    pub named : q.activity_of body ≡ some activity_id
    pub marks : after ≡ (mark_delivered_by_receipt activity_id sender.summary.actor_url t.jobs).0

  abbrev pub ConfirmedBy : Option (List ℕ) → ReceiptState Json → List Job → Type 0
  ConfirmedBy none t after = ⊥
  ConfirmedBy (some body) t after = IsConfirmed body t after

  module _ (body : List ℕ) (t : ReceiptState Json) where
    -- The sender that the checks let through.
    Confirms : Sender → Type 0
    Confirms sender =
        IsRead w cfg parts body sender.sig
        × IsVerified w cfg parts body t.server.key_cache sender.sig sender.summary

    confirm_sender-Confirms :
        (s : ApState Json) (sender : Sender)
        → GoesOn (confirm_sender w q cfg parts body t.server) s sender
        → Confirms sender
    unfolding confirm_sender Confirms
    confirm_sender-Confirms s sender h =
        let a = next-go _ _ s sender h in
        let b = next-go _ _ s sender a.1.1.1 in
        let c = next-go _ _ s sender b.1.1.1 in
        let d = next-go _ _ s sender c.1.1.1 in
        let k = some t.server.key_cache in
        let sa = went_state (IsFramed k t.server) _ _ _ a.1.1.0 (
          read_signature-IsFramed w k t.server cfg "receipt" parts body t.server
            (same_state t.server)) in
        let sb = subst (IsFramed k t.server) (sym (guard-go _ _ _ _ _ b.1.1.0).1) sa in
        subst Confirms (go-inj _ _ _ _ d.1.1.1).0 (
          read_signature-IsRead w cfg parts body "receipt" t.server a.0 a.1.0 a.1.1.0,
          subst (λ cache. IsVerified w cfg parts body cache a.1.0 c.1.0)
              (framed_cache w cfg parts body t.server b.0 sb)
              (verify_sender-IsVerified w cfg parts body "receipt" b.0 c.0 a.1.0 c.1.0 c.1.1.0),
        )

    confirmed_jobs :
        (s : ApState Json) (sender : Sender) (o : Option String)
        → q.activity_of body ≡ o
        → Confirms sender
        → let after = (confirmed w q sender o s t.jobs).0.jobs in
          (after ≡ t.jobs) ⊎ IsConfirmed body t after
    unfolding Confirms
    confirmed_jobs s sender none e c = inl refl
    confirmed_jobs s sender (some activity_id) e c = elim (Bool-cases q.is_queue_up) [
      | inl u ↦ inr (record {
        sender = sender;
        read = c.0;
        verified = c.1;
        activity_id = activity_id;
        named = e;
        marks = rw (u) refl;
      })
      | inr u ↦ inl (rw (u) refl)
    ]

    checked_jobs :
        (r : Checked Json Sender)
        → confirm_sender w q cfg parts body t.server ≡ r
        → let after = (after_checks w q body r t.jobs).0.jobs in
          (after ≡ t.jobs) ⊎ IsConfirmed body t after
    checked_jobs (s, go sender) e =
        confirmed_jobs s sender (q.activity_of body) refl (confirm_sender-Confirms s sender e)
    checked_jobs (s, stop r) e = inl refl
    checked_jobs (s, crash) e = inl refl

  -- A receipt either leaves the jobs of the queue as they were, or its Signature header was read
  -- and verified with the key that the resolver has for its key id, as for the inbox, and the jobs
  -- are those after the mark of the activity that it names for the actor of that key.
  pub receipt_post-ConfirmedBy :
      (body : Option (List ℕ)) (t : ReceiptState Json)
      → let after = (receipt_post w q cfg parts body t).0.jobs in
        (after ≡ t.jobs) ⊎ ConfirmedBy body t after
  unfolding receipt_post
  receipt_post-ConfirmedBy none t = inl refl
  receipt_post-ConfirmedBy (some body) t = elim (Bool-cases (ltb (64 * 1024) (length body))) [
    | inl l ↦ inl (rw (l) refl)
    | inr l ↦ rw (l) (checked_jobs body t (confirm_sender w q cfg parts body t.server) refl)
  ]
