-- ===== src/Inbox/Limits.antt =====
-- What the limiter of the inbox admits within a minute for one key.
use fedi.Base.{
  string_eq, ℕ, ◌+◌, ◌-◌, ◌*◌, ◌≤◌, ◌<◌, ◌≡◌, refl, sym, subst, ◌∙◌, Bool, true, false, max, some,
  List, String, str_eq, eq_iff, arith, ltb, leb, if◌then◌else◌, length, sat_add_u32, sat_add_u64,
  u32_max, u64_max, All, inl, inr, Bool-cases,
}
use fedi.Budget.{admitted_reqs, admitted_bytes, admitted_bound}
use fedi.HashMap.{
  lookup, insert, IsUnique, lookup-insert, lookup-insert_self, lookup-retain, insert-IsUnique,
  retain-IsUnique,
}
use fedi.Inbox.{
  InboxRateLimits, InboxRate, Limiter, or_new_rate, rate_renewed, rate_counted, swept,
  inbox_rate_limit,
}

-- A call of `inbox_rate_limit`.
pub record LimitAsk : Type 0 where
  pub now : ℕ
  pub key_id : String
  pub bytes : ℕ

module _ (limits : InboxRateLimits) (key : String) (start : ℕ) where
  abbrev window : (reqs bytes : ℕ) → InboxRate
  window reqs bytes = record { window_start_ms = start; reqs = reqs; bytes = bytes }

  -- The key's window, with what it has counted, within the limits.
  pub record Counts (reqs bytes : ℕ) (limiter : Limiter) : Type 0 where
    pub unique : IsUnique limiter
    pub found :
        lookup key limiter ≡ some (record { window_start_ms = start; reqs = reqs; bytes = bytes })
    pub reqs_ok : reqs ≤ max limits.max_reqs_per_min 1
    pub bytes_ok : bytes ≤ max limits.max_bytes_per_min 1024

  abbrev pub ask : LimitAsk → Limiter → Limiter × Bool
  ask a limiter = inbox_rate_limit limits a.now a.key_id a.bytes limiter

  abbrev pub is_mine : LimitAsk → Bool
  is_mine a = str_eq a.key_id key

  abbrev pub IsInMinute : LimitAsk → Type 0
  IsInMinute a = a.now < start + 60000

  swept-Counts :
      (now reqs bytes : ℕ) (limiter : Limiter)
      → now < start + 60000
      → Counts reqs bytes limiter
      → Counts reqs bytes (swept now limiter)
  unfolding swept
  swept-Counts now reqs bytes limiter h c = elim (Bool-cases (ltb 50000 (length limiter))) [
    | inl t ↦
        let keep = λ (v : InboxRate). ltb (now - v.window_start_ms) (10 * 60000) in
        rw (t) (record {
          unique = retain-IsUnique keep limiter c.unique;
          found = ground (arith, lookup-retain keep key limiter c.unique, c.found);
          reqs_ok = c.reqs_ok;
          bytes_ok = c.bytes_ok;
        })
    | inr t ↦ rw (t) c
  ]

  insert-Counts :
      (st : InboxRate) (reqs bytes : ℕ) (limiter : Limiter)
      → IsUnique limiter
      → st ≡ window reqs bytes
      → reqs ≤ max limits.max_reqs_per_min 1
      → bytes ≤ max limits.max_bytes_per_min 1024
      → Counts reqs bytes (insert key st limiter)
  insert-Counts st reqs bytes limiter u e r b = record {
    unique = insert-IsUnique key st limiter u;
    found = lookup-insert_self key st limiter ∙ ground (arith, e);
    reqs_ok = r;
    bytes_ok = b;
  }

  found-rate_renewed :
      (now reqs bytes : ℕ) (limiter : Limiter)
      → now < start + 60000
      → Counts reqs bytes limiter
      → rate_renewed now (or_new_rate (lookup key limiter)) ≡ window reqs bytes
  found-rate_renewed now reqs bytes limiter h c =
      let old : leb 60000 (now - start) ≡ false = ground (arith, h) in rw (c.found, old) refl

  module _ (reqs_max : max limits.max_reqs_per_min 1 < u32_max)
      (bytes_max : max limits.max_bytes_per_min 1024 < u64_max) where
    own_call :
        (now size reqs bytes : ℕ) (limiter : Limiter)
        → now < start + 60000
        → Counts reqs bytes limiter
        → let r = inbox_rate_limit limits now key size limiter in
          Counts (reqs + (if r.1 then 1 else 0)) (bytes + (if r.1 then size else 0)) r.0
    unfolding inbox_rate_limit
    own_call now size reqs bytes limiter h c =
        let e = found-rate_renewed now reqs bytes limiter h c in
        let refusal =
          insert-Counts (window reqs bytes) (reqs + 0) (bytes + 0) limiter c.unique (ground arith)
            (omega (arith, c.reqs_ok)) (omega (arith, c.bytes_ok)) in
        elim (Bool-cases (ltb (max limits.max_reqs_per_min 1) (sat_add_u32 reqs 1))) [
          | inl t ↦ rw (e, t) refusal
          | inr t ↦
              elim (Bool-cases (ltb (max limits.max_bytes_per_min 1024) (sat_add_u64 bytes size))) [
                | inl o ↦ rw (e, t, o) refusal
                | inr o ↦
                    rw (e, t, o)
                      (swept-Counts now (reqs + 1) (bytes + size) _ h (
                        insert-Counts (rate_counted size (window reqs bytes)) (reqs + 1)
                          (bytes + size) limiter c.unique
                          (ground (arith, t, o, reqs_max, bytes_max)) (ground (arith, t, reqs_max))
                          (ground (arith, o, bytes_max))))
              ]
        ]

    other_call :
        (now size reqs bytes : ℕ) (k : String) (limiter : Limiter)
        → now < start + 60000
        → str_eq k key ≡ false
        → Counts reqs bytes limiter
        → Counts reqs bytes (inbox_rate_limit limits now k size limiter).0
    unfolding inbox_rate_limit
    other_call now size reqs bytes k limiter h d c =
        let st = rate_renewed now (or_new_rate (lookup k limiter)) in
        let put = λ (v : InboxRate). put_other v in
        elim (Bool-cases (ltb (max limits.max_reqs_per_min 1) (sat_add_u32 st.reqs 1))) [
          | inl t ↦ rw (t) (put st)
          | inr t ↦
              elim (Bool-cases
                (ltb (max limits.max_bytes_per_min 1024) (sat_add_u64 st.bytes size))) [
                  | inl o ↦ rw (t, o) (put st)
                  | inr o ↦ rw (t, o) (swept-Counts now reqs bytes _ h (put (rate_counted size st)))
                ]
        ]
      where
        put_other : (v : InboxRate) → Counts reqs bytes (insert k v limiter)
        put_other v = record {
          unique = insert-IsUnique k v limiter c.unique;
          found = ground (arith, c.found, d, lookup-insert k key v limiter);
          reqs_ok = c.reqs_ok;
          bytes_ok = c.bytes_ok;
        }

    own_ask :
        (a : LimitAsk) (reqs bytes : ℕ) (limiter : Limiter)
        → IsInMinute a
        → is_mine a ≡ true
        → Counts reqs bytes limiter
        → let r = ask a limiter in
          Counts (reqs + (if r.1 then 1 else 0)) (bytes + (if r.1 then a.bytes else 0)) r.0
    own_ask a reqs bytes limiter h t c =
        subst
          (λ k.
            let r = inbox_rate_limit limits a.now k a.bytes limiter in
            Counts (reqs + (if r.1 then 1 else 0)) (bytes + (if r.1 then a.bytes else 0)) r.0)
          (sym ((eq_iff a.key_id key).0 t)) (own_call a.now a.bytes reqs bytes limiter h c)

    -- With limits below 2 ^ 32 - 1 requests and 2 ^ 64 - 1 bytes, what a window of a key has
    -- counted and what any calls for this and other keys within a minute of its start admit for the
    -- key come to at most the limits, in requests and in bytes; a limit under 1 request or 1,024
    -- bytes counts as that.
    pub inbox_rate_limit_bound :
        (reqs bytes : ℕ) (asks : List LimitAsk) (limiter : Limiter)
        → Counts reqs bytes limiter
        → All IsInMinute asks
        → (reqs + admitted_reqs ask is_mine (λ a. a.bytes) asks limiter
            ≤ max limits.max_reqs_per_min 1)
          × (bytes + admitted_bytes ask is_mine (λ a. a.bytes) asks limiter
              ≤ max limits.max_bytes_per_min 1024)
    inbox_rate_limit_bound reqs bytes asks limiter c h =
        admitted_bound ask is_mine (λ a. a.bytes) Counts IsInMinute (max limits.max_reqs_per_min 1)
          (max limits.max_bytes_per_min 1024) (λ n b s k. (k.reqs_ok, k.bytes_ok)) own_ask
          (λ a n b s i d k. other_call a.now a.bytes n b a.key_id s i d k) reqs bytes asks limiter c
          h
