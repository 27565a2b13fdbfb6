-- ===== src/Budget.antt =====
-- How much calls in turn admit, where each counts what it admits: the induction that the limits on
-- requests and bytes share.
use fedi.Base.{
  ℕ, ◌+◌, ◌≤◌, ◌≡◌, Bool, true, false, List, [], ◌∷◌, if◌then◌else◌, arith, inl, inr, Bool-cases,
  All,
}

module _ {S Ask : Type 0} (call : Ask → S → S × Bool) (is_mine : Ask → Bool) (size : Ask → ℕ) where
  -- The calls of one's own that are admitted, and their bytes.
  unfoldable pub admitted_reqs : List Ask → S → ℕ
  admitted_reqs [] s = 0
  admitted_reqs (a ∷ asks) s =
      let r = call a s in (if is_mine a then (if r.1 then 1 else 0) else 0) + admitted_reqs asks r.0

  unfoldable pub admitted_bytes : List Ask → S → ℕ
  admitted_bytes [] s = 0
  admitted_bytes (a ∷ asks) s =
      let r = call a s in
      (if is_mine a then (if r.1 then size a else 0) else 0) + admitted_bytes asks r.0

  -- `Counts n b s`: in the state `s`, `n` requests and `b` bytes are counted.
  module _ (Counts : ℕ → ℕ → S → Type 0) (IsIn : Ask → Type 0) (max_reqs max_bytes : ℕ)
      (within : (n b : ℕ) (s : S) → Counts n b s → (n ≤ max_reqs) × (b ≤ max_bytes))
      (own : (a : Ask) (n b : ℕ) (s : S)
        → IsIn a
        → is_mine a ≡ true
        → Counts n b s
        → let r = call a s in
          Counts (n + (if r.1 then 1 else 0)) (b + (if r.1 then size a else 0)) r.0)
      (other : (a : Ask) (n b : ℕ) (s : S)
        → IsIn a
        → is_mine a ≡ false
        → Counts n b s
        → Counts n b (call a s).0) where
    pub admitted_bound :
        (n b : ℕ) (asks : List Ask) (s : S)
        → Counts n b s
        → All IsIn asks
        → (n + admitted_reqs asks s ≤ max_reqs) × (b + admitted_bytes asks s ≤ max_bytes)
    unfolding admitted_reqs admitted_bytes
    admitted_bound n b [] s c h = let k = within n b s c in (omega (arith, k.0), omega (arith, k.1))
    admitted_bound n b (a ∷ asks) s c h =
        let r = call a s in
        elim (Bool-cases (is_mine a)) [
          | inl t ↦
              let rest =
                admitted_bound (n + (if r.1 then 1 else 0)) (b + (if r.1 then size a else 0)) asks
                  r.0 (own a n b s h.0 t c) h.1 in
              rw (t) (omega (arith, rest.0), omega (arith, rest.1))
          | inr t ↦
              let rest = admitted_bound n b asks r.0 (other a n b s h.0 t c) h.1 in
              rw (t) (omega (arith, rest.0), omega (arith, rest.1))
        ]
