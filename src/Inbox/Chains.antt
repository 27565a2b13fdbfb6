-- ===== src/Inbox/Chains.antt =====
-- Chains of checks: one that goes on went on at each step.
use fedi.Base.{◌≡◌, refl, sym, ap, subst, Bool, true, false, Option, none, some, arith}
use fedi.HttpSig.{Outcome, passed, refused, panicked}
use fedi.Inbox.{ApState, Response}
use fedi.Inbox.Steps.{Decision, go, stop, crash, Checked, next, guard, need, pass}

went : {A : Type 0} → A → Decision A → A
went d (go a) = a
went d (stop r) = d
went d crash = d

is_go : {A : Type 0} → Decision A → Bool
is_go (go a) = true
is_go (stop r) = false
is_go crash = false

module _ {Json : Type 0} where
  -- The checks go on with `a` in the state `t`.
  abbrev pub GoesOn : {A : Type 0} → Checked Json A → ApState Json → A → Type 0
  GoesOn r t a = r ≡ (t, go a)

  not_go :
      {A X : Type 0} (r : Checked Json A) (t : ApState Json) (b : A)
      → is_go r.1 ≡ false
      → GoesOn r t b
      → X
  unfolding is_go
  not_go r t b e h = absurd (ground (arith, e, ap (λ q. is_go q.1) h))

  pub go-inj :
      {A : Type 0} (s t : ApState Json) (a b : A) → GoesOn (s, go a) t b → (a ≡ b) × (t ≡ s)
  unfolding went
  go-inj s t a b h = (ap (λ r. went a r.1) h, sym (ap (λ r. r.0) h))

  pub went_state :
      {A : Type 0} (P : ApState Json → Type 0) (r : Checked Json A) (t : ApState Json) (a : A)
      → GoesOn r t a
      → P r.0
      → P t
  went_state P r t a h p = subst P (ap (λ q. q.0) h) p

  -- A chain that goes on went on at each step.
  pub next-go :
      {A B : Type 0} (r : Checked Json A) (f : A → ApState Json → Checked Json B) (t : ApState Json)
      (b : B)
      → GoesOn (next r f) t b
      → (s : ApState Json) × ((a : A) × (GoesOn r s a × GoesOn (f a s) t b))
  unfolding next is_go
  next-go (s, go a) f t b h = (s, (a, (refl, h)))
  next-go (s, stop r) f t b h = not_go (s, stop r) t b refl h
  next-go (s, crash) f t b h = not_go (s, crash) t b refl h

  pub guard-go :
      (ok : Bool) (bad : ApState Json → ApState Json × Response) (s t : ApState Json) (u : Unit {0})
      → GoesOn (guard ok bad s) t u
      → (ok ≡ true) × (t ≡ s)
  unfolding guard is_go
  guard-go true bad s t u h = (refl, sym (ap (λ r. r.0) h))
  guard-go false bad s t u h = not_go ((bad s).0, stop (bad s).1) t u refl h

  pub need-go :
      {A : Type 0} (o : Option A) (bad : ApState Json → ApState Json × Response)
      (s t : ApState Json) (a : A)
      → GoesOn (need o bad s) t a
      → (o ≡ some a) × (t ≡ s)
  unfolding need is_go
  need-go none bad s t a h = not_go ((bad s).0, stop (bad s).1) t a refl h
  need-go (some b) bad s t a h = let e = go-inj s t b a h in (ap some e.0, e.1)

  pub pass-go :
      (o : Outcome) (bad : ApState Json → ApState Json × Response) (s t : ApState Json)
      (u : Unit {0})
      → GoesOn (pass o bad s) t u
      → (o ≡ passed) × (t ≡ s)
  unfolding pass is_go
  pass-go passed bad s t u h = (refl, sym (ap (λ r. r.0) h))
  pass-go refused bad s t u h = not_go ((bad s).0, stop (bad s).1) t u refl h
  pass-go panicked bad s t u h = not_go (s, crash) t u refl h

  -- What every step keeps where the one before went on, a chain keeps.
  pub next-keeps_go :
      {A B : Type 0} (P : ApState Json → Type 0) (r : Checked Json A)
      (f : A → ApState Json → Checked Json B)
      → P r.0
      → ((a : A) (s : ApState Json) → GoesOn r s a → P s → P (f a s).0)
      → P (next r f).0
  unfolding next
  next-keeps_go P (s, go a) f p k = k a s refl p
  next-keeps_go P (s, stop r) f p k = p
  next-keeps_go P (s, crash) f p k = p
