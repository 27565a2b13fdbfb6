-- ===== src/Inbox/Runs.antt =====
-- A request as a whole, and any sequence of requests with changes from elsewhere between them.
use fedi.Base.{
  string_eq, ℕ, ◌*◌, ◌≤◌, ◌≡◌, refl, inl, inr, Option, none, some, List, [], ◌∷◌, String, arith,
  ltb, if◌then◌else◌, length, Bool-cases,
}
use fedi.HttpSig.{RequestParts}
use fedi.Social.{mark_inbox_seen}
use fedi.Inbox.{ApConfig, World, ApState, Response}
use fedi.Inbox.Steps.{go, stop, crash, Checked, next}
use fedi.Inbox.Chains.{next-keeps_go}
use fedi.Inbox.Frame.Senders.{authenticate-IsFramed}
use fedi.Inbox.Handler.{Sender, authenticate, take_in, finish_reply, inbox}
use fedi.Inbox.Authentic.{IsAuthentic}
use fedi.Inbox.Once.{
  Moment, world_at, runs_of, is_seen, IsOnce, same_any, framed-IsOnce, entered-IsOnce,
  take_in-IsOnce,
}

module _ {Json : Type 0} (w : World Json) (cfg : ApConfig) (parts : RequestParts) where
  -- The body was read, is within 2 MiB, and its sender was let in.
  abbrev pub IsLetIn : Option (List ℕ) → ApState Json → Type 0
  IsLetIn none s = ⊥
  IsLetIn (some body) s =
      (length body ≤ 2 * 1024 * 1024) × ((sender : Sender) × IsAuthentic w cfg parts body s sender)

  finish_state : (r : Checked Json Response) → (finish_reply w r).0 ≡ r.0
  finish_state (s, go r) = refl
  finish_state (s, stop r) = refl
  finish_state (s, crash) = refl

-- What happens to the state: a request, the entry of an activity by another part of the program, and
-- any other change, which leaves the activities seen and the log of `inbox` alone.
pub data Event (Json : Type 0) : Type 0 where
  requested : Moment Json → RequestParts → (body : Option (List ℕ)) → Event Json
  seen_elsewhere : (now : ℕ) (activity_id : String) → Event Json
  changed : (after : ApState Json) → Event Json

module _ {Json : Type 0} (w : World Json) (cfg : ApConfig) where
  abbrev pub step : Event Json → ApState Json → ApState Json
  step (requested m parts body) s = (inbox (world_at w m) cfg parts body s).0
  step (seen_elsewhere now activity_id) s = record s {
    social = (mark_inbox_seen now activity_id s.social).0;
  }
  step (changed after) s = record after {
    social = record after.social { inbox_seen = s.social.inbox_seen };
    done = s.done;
  }

  unfoldable pub run : List (Event Json) → ApState Json → ApState Json
  run [] s = s
  run (e ∷ events) s = run events (step e s)

  module _ (m : Moment Json) (parts : RequestParts) where
    abbrev here : World Json
    here = world_at w m

    inbox-IsOnce :
        (body : Option (List ℕ)) (s : ApState Json)
        → IsOnce w s
        → IsOnce w (inbox here cfg parts body s).0
    unfolding inbox
    inbox-IsOnce none s o = o
    inbox-IsOnce (some body) s o = elim (Bool-cases (ltb (2 * 1024 * 1024) (length body))) [
      | inl t ↦ rw (t) o
      | inr t ↦
          let r = authenticate here cfg parts body s in
          rw (t, finish_state here cfg parts (next r (take_in here body)))
            (next-keeps_go (IsOnce w) r (take_in here body)
              (framed-IsOnce w s r.0 (authenticate-IsFramed here s cfg parts body s (same_any w s))
                o)
              (λ sender t e p. take_in-IsOnce w m body sender t p))
    ]

  step-IsOnce : (e : Event Json) (s : ApState Json) → IsOnce w s → IsOnce w (step e s)
  step-IsOnce (requested m parts body) s o = inbox-IsOnce m parts body s o
  step-IsOnce (seen_elsewhere now id) s o = entered-IsOnce w now id s o
  step-IsOnce (changed after) s o = record { once = o.once }

  run-IsOnce :
      (events : List (Event Json)) (s : ApState Json) → IsOnce w s → IsOnce w (run events s)
  unfolding run
  run-IsOnce [] s o = o
  run-IsOnce (e ∷ events) s o = run-IsOnce events (step e s) (step-IsOnce e s o)

  -- From a state with an empty log, after any requests, entries of activities by other parts, and
  -- other changes that leave the activities seen and the log alone (a prune of the activities seen
  -- is none), process_inbox_activity was called at most once on the activities of one id, failed
  -- calls included, and only if that id is among the activities seen.
  pub processed_once :
      (events : List (Event Json)) (s : ApState Json) (dedup_id : String)
      → s.done ≡ []
      → runs_of w dedup_id (run events s) ≤ (if is_seen w dedup_id (run events s) then 1 else 0)
  processed_once events s dedup_id e =
      (run-IsOnce events s (record { once = λ id. ground (arith, e) })).once dedup_id
