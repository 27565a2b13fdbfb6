-- ===== src/Inbox/Steps.antt =====
-- Checks as steps: a step goes on with a value, answers the request, or panics, and changes the state.
use fedi.Base.{Bool, Option, none, some, if◌then◌else◌}
use fedi.HttpSig.{Outcome, passed, refused, panicked}
use fedi.Inbox.{ApState, Response}

pub data Decision (A : Type 0) : Type 0 where
  go : A → Decision A
  stop : Response → Decision A
  crash : Decision A

abbrev pub Checked : Type 0 → Type 0 → Type 0
Checked Json A = ApState Json × Decision A

module _ {Json : Type 0} where
  unfoldable pub next :
      {A B : Type 0} → Checked Json A → (A → ApState Json → Checked Json B) → Checked Json B
  next (s, go a) f = f a s
  next (s, stop r) f = (s, stop r)
  next (s, crash) f = (s, crash)

  abbrev pub stopped_with : {A : Type 0} → ApState Json × Response → Checked Json A
  stopped_with (s, r) = (s, stop r)

  unfoldable pub guard :
      Bool → (ApState Json → ApState Json × Response) → ApState Json → Checked Json Unit
  guard ok bad s = if ok then (s, go tt) else stopped_with (bad s)

  unfoldable pub need :
      {A : Type 0}
      → Option A
      → (ApState Json → ApState Json × Response)
      → ApState Json
      → Checked Json A
  need none bad s = stopped_with (bad s)
  need (some a) bad s = (s, go a)

  unfoldable pub pass :
      Outcome → (ApState Json → ApState Json × Response) → ApState Json → Checked Json Unit
  pass passed bad s = (s, go tt)
  pass refused bad s = stopped_with (bad s)
  pass panicked bad s = (s, crash)
