-- ===== src/Inbox/Once.antt =====
-- What `inbox` does with a request, and how often an activity is processed over many requests.
use fedi.Base.{
  string_eq, ℕ, ◌≤◌, ◌≡◌, refl, sym, subst, inl, inr, Bool, true, false, Option, none, List, String,
  str_eq, eq_iff, arith, if◌then◌else◌, is_some, count_where, Bool-cases, if_cases,
}
use fedi.HashMap.{lookup, lookup-insert}
use fedi.HttpSig.KeyResolver.{ActorDoc}
use fedi.Social.{mark_inbox_seen}
use fedi.Inbox.{
  Place, World, ApState, Effect, upsert_actor_meta, process_inbox_activity, send_delivery_receipt,
  activity_dedup_id, activity_id_from_bytes, mark_seen,
}
use fedi.Inbox.Checks.{About, audited}
use fedi.Inbox.Chains.{GoesOn, next-go, guard-go, next-keeps_go}
use fedi.Inbox.Frame.{IsFramed, guard-keeps, need-keeps, audited-IsFramed}
use fedi.Inbox.Handler.{Sender, with_effect, marked_seen, receipted, take_in}

-- What changes from request to request.
pub record Moment (Json : Type 0) : Type 0 where
  pub fetch : String → Option ActorDoc
  pub now_ns : ℕ
  pub now_ms : Place → ℕ
  pub is_up : Place → Bool
  pub is_processed : Json → Bool

abbrev pub world_at : {Json : Type 0} → World Json → Moment Json → World Json
world_at w m = record w {
  fetch = m.fetch;
  now_ns = m.now_ns;
  now_ms = m.now_ms;
  is_up = m.is_up;
  is_processed = m.is_processed;
}

module _ {Json : Type 0} (w : World Json) where
  -- A call of process_inbox_activity on an activity with the given id.
  abbrev pub is_run : (dedup_id : String) → Effect Json → Bool
  is_run dedup_id (upsert_actor_meta url is_fedi3) = false
  is_run dedup_id (process_inbox_activity activity) = str_eq (activity_dedup_id w activity) dedup_id
  is_run dedup_id (send_delivery_receipt url pem id) = false

  abbrev pub runs_of : (dedup_id : String) → ApState Json → ℕ
  runs_of dedup_id s = count_where (is_run dedup_id) s.done

  abbrev pub is_seen : (dedup_id : String) → ApState Json → Bool
  is_seen dedup_id s = is_some (lookup dedup_id s.social.inbox_seen)

  -- Each activity was processed once at most, and then it is among those seen.
  pub record IsOnce (s : ApState Json) : Type 0 where
    pub once : (dedup_id : String) → runs_of dedup_id s ≤ (if is_seen dedup_id s then 1 else 0)

  pub same_any : (t : ApState Json) → IsFramed none t t
  unfolding IsFramed
  same_any t = (refl, (refl, (refl, tt)))

  pub framed-IsOnce : (s t : ApState Json) → IsFramed none s t → IsOnce s → IsOnce t
  unfolding IsFramed
  framed-IsOnce s t h o = record {
    once = λ id.
        subst (λ d. count_where (is_run id) d ≤ (if is_seen id t then 1 else 0)) (sym h.0)
          (subst (λ seen. runs_of id s ≤ (if is_some (lookup id seen) then 1 else 0)) (sym h.1.0)
            (o.once id));
  }

  -- The activity was not processed yet, and is now among those seen.
  record IsFresh (dedup_id : String) (s : ApState Json) : Type 0 where
    none_yet : runs_of dedup_id s ≡ 0
    seen : is_seen dedup_id s ≡ true

  module _ (now : ℕ) (id : String) (s : ApState Json) where
    abbrev pub entered : ApState Json
    entered = record s { social = (mark_inbox_seen now id s.social).0 }

    pub entered-IsOnce : IsOnce s → IsOnce entered
    unfolding mark_inbox_seen
    entered-IsOnce o = record {
      once = λ k. ground (arith, o.once k, lookup-insert id k now s.social.inbox_seen);
    }

    entered-IsFresh : IsOnce s → (mark_inbox_seen now id s.social).1 ≡ true → IsFresh id entered
    unfolding mark_inbox_seen
    entered-IsFresh o h = record {
      none_yet = ground (arith, o.once id, h);
      seen = ground (arith, h, lookup-insert id id now s.social.inbox_seen, eq_iff id id);
    }

  module _ (m : Moment Json) where
    abbrev pub here : World Json
    here = world_at w m

    audited-IsOnce :
        (about : About) (is_ok : Bool) (status : String) (detail : Option String) (t : ApState Json)
        → IsOnce t
        → IsOnce (audited here about is_ok status detail t)
    audited-IsOnce about is_ok status detail t o =
        framed-IsOnce t _ (audited-IsFramed here none t about is_ok status detail t (same_any t)) o

    marked_seen-IsOnce :
        (sender : Sender) (id : String) (s : ApState Json)
        → IsOnce s
        → IsOnce (marked_seen here sender id s).0
    unfolding marked_seen
    marked_seen-IsOnce sender id s o =
        next-keeps_go IsOnce _ _ (guard-keeps IsOnce _ _ s o (λ u g. audited-IsOnce _ _ _ _ u g))
          (λ _ u e p.
            let r = mark_inbox_seen (m.now_ms mark_seen) id s.social in
            guard-keeps IsOnce r.1 _ (record u { social = r.0 })
              (subst (λ v. IsOnce (record v { social = r.0 })) (sym (guard-go _ _ _ _ _ e).1)
                (entered-IsOnce (m.now_ms mark_seen) id s o))
              (λ v g. audited-IsOnce _ _ _ _ v g))

    marked_seen-IsFresh :
        (sender : Sender) (id : String) (s t : ApState Json) (a : Unit {0})
        → IsOnce s
        → GoesOn (marked_seen here sender id s) t a
        → IsFresh id t
    unfolding marked_seen
    marked_seen-IsFresh sender id s t a o h =
        let now = m.now_ms mark_seen in
        let r = mark_inbox_seen now id s.social in
        let b = next-go _ _ t a h in
        let first = guard-go _ _ _ _ _ b.1.1.0 in
        let second = guard-go _ _ _ _ _ b.1.1.1 in
        subst (IsFresh id) (sym second.1) (
          subst (λ v. IsFresh id (record v { social = r.0 })) (sym first.1)
            (entered-IsFresh now id s o second.0))

    other_effect :
        (e : Effect Json) (s : ApState Json)
        → ((id : String) → is_run id e ≡ false)
        → IsOnce s
        → IsOnce (with_effect here e s)
    other_effect e s h o = record { once = λ id. ground (arith, h id, o.once id) }

    run-IsOnce :
        (activity : Json) (s : ApState Json)
        → IsFresh (activity_dedup_id w activity) s
        → IsOnce s
        → IsOnce (with_effect here (process_inbox_activity activity) s)
    run-IsOnce activity s f o = record {
      once = λ id. elim (Bool-cases (str_eq (activity_dedup_id w activity) id)) [
        | inl t ↦
            let same = (eq_iff (activity_dedup_id w activity) id).0 t in
            let none_yet = subst (λ k. runs_of k s ≡ 0) same f.none_yet in
            let seen = subst (λ k. is_seen k s ≡ true) same f.seen in
            ground (arith, t, none_yet, seen)
        | inr t ↦ ground (arith, t, o.once id)
      ];
    }

    receipted-IsOnce :
        (sender : Sender) (id : String) (s : ApState Json)
        → IsOnce s
        → IsOnce (receipted here sender.summary id s)
    receipted-IsOnce sender id s o =
        if_cases IsOnce _ _ s (λ _. other_effect _ s (λ _. refl) o) (λ _. o)

    pub take_in-IsOnce :
        (body : List ℕ) (sender : Sender) (s : ApState Json)
        → IsOnce s
        → IsOnce (take_in here body sender s).0
    unfolding take_in
    take_in-IsOnce body sender s o =
        next-keeps_go IsOnce _ _
          (need-keeps IsOnce _ _ _ (other_effect _ s (λ _. refl) o)
            (λ u g. audited-IsOnce _ _ _ _ u g))
          (λ activity s1 e1 o1.
            next-keeps_go IsOnce _ _ (marked_seen-IsOnce sender _ s1 o1) (λ _ s2 e2 o2.
              let f = marked_seen-IsFresh sender (activity_dedup_id w activity) s1 s2 _ o1 e2 in
              next-keeps_go IsOnce _ _
                (guard-keeps IsOnce _ _ _ (run-IsOnce activity s2 f o2)
                  (λ u g. audited-IsOnce _ _ _ _ u g))
                (λ _ s3 e3 o3.
                  audited-IsOnce _ _ _ _ _
                    (receipted-IsOnce sender (activity_id_from_bytes here body) s3 o3))))
