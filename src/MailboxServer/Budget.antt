-- ===== src/MailboxServer/Budget.antt =====
-- What a peer may put within a minute.
use fedi.Base.{
  string_eq, ℕ, ◌+◌, ◌-◌, ◌≤◌, ◌<◌, ◌≡◌, refl, sym, subst, ◌∙◌, false, some, List, [], ◌∷◌, String,
  str_eq, eq_iff, arith, ltb, leb, if◌then◌else◌, sat_add_u32, sat_add_u64, u32_max, u64_max, All,
  inl, inr, Bool-cases,
}
use fedi.HashMap.{lookup, insert, lookup-insert, lookup-insert_self}
use fedi.MailboxServer.{PutLimiter, RateState, RateStates, renewed, counted, or_default, allow_put}

-- A call of `allow_put`.
pub record PutAsk : Type 0 where
  pub now : ℕ
  pub peer_id : String
  pub bytes : ℕ

module _ (limiter : PutLimiter) (peer : String) (start : ℕ) where
  -- The peer's window, with what it has counted.
  pub record Counts (puts bytes : ℕ) (inner : RateStates) : Type 0 where
    pub found :
        lookup peer inner ≡ some (record { window_start_ms = start; puts = puts; bytes = bytes })
    pub puts_ok : puts ≤ limiter.max_puts_per_min
    pub bytes_ok : bytes ≤ limiter.max_put_bytes_per_min

  abbrev window : (puts bytes : ℕ) → RateState
  window puts bytes = record { window_start_ms = start; puts = puts; bytes = bytes }

  module _ (now size puts bytes : ℕ) (inner : RateStates) where
    found-renewed :
        now < start + 60000
        → Counts puts bytes inner
        → renewed now (or_default (lookup peer inner)) ≡ window puts bytes
    found-renewed h c =
        let old : leb 60000 (now - start) ≡ false = ground (arith, h) in rw (c.found, old) refl

    allow_put-own :
        now < start + 60000
        → limiter.max_puts_per_min < u32_max
        → limiter.max_put_bytes_per_min < u64_max
        → Counts puts bytes inner
        → let r = allow_put limiter now peer size inner in
          Counts (puts + (if r.0 then 1 else 0)) (bytes + (if r.0 then size else 0)) r.1
    unfolding allow_put
    allow_put-own h u v c =
        let e = found-renewed h c in
        elim (Bool-cases (ltb limiter.max_puts_per_min (sat_add_u32 puts 1))) [
          | inl t ↦ rw (e, t) (kept (window puts bytes) puts bytes refl c.puts_ok c.bytes_ok)
          | inr t ↦ elim (Bool-cases (ltb limiter.max_put_bytes_per_min (sat_add_u64 bytes size))) [
            | inl o ↦ rw (e, t, o) (kept (window puts bytes) puts bytes refl c.puts_ok c.bytes_ok)
            | inr o ↦
                rw (e, t, o)
                  (record {
                    found =
                        lookup-insert_self peer (counted size (window puts bytes)) inner
                        ∙ ground (arith, t, o, u, v);
                    puts_ok = ground (arith, t, u);
                    bytes_ok = ground (arith, o, v);
                  })
          ]
        ]
      where
        kept :
            (st : RateState) (p b : ℕ)
            → st ≡ window p b
            → p ≤ limiter.max_puts_per_min
            → b ≤ limiter.max_put_bytes_per_min
            → Counts (p + 0) (b + 0) (insert peer st inner)
        kept st p b e x y = record {
          found = lookup-insert_self peer st inner ∙ ground (arith, e);
          puts_ok = omega (arith, x);
          bytes_ok = omega (arith, y);
        }

    allow_put-other :
        (other : String)
        → str_eq other peer ≡ false
        → Counts puts bytes inner
        → Counts puts bytes (allow_put limiter now other size inner).1
    unfolding allow_put
    allow_put-other other d c =
        let st = renewed now (or_default (lookup other inner)) in
        record {
          found = ground (
            arith,
            c.found,
            d,
            lookup-insert other peer st inner,
            lookup-insert other peer (counted size st) inner,
          );
          puts_ok = c.puts_ok;
          bytes_ok = c.bytes_ok;
        }

module _ (limiter : PutLimiter) (peer : String) where
  -- Of calls in turn, the puts of the peer that are admitted, and their bytes.
  unfoldable pub admitted_puts : List PutAsk → RateStates → ℕ
  unfolding allow_put
  admitted_puts [] inner = 0
  admitted_puts (a ∷ asks) inner =
      let r = allow_put limiter a.now a.peer_id a.bytes inner in
      (if str_eq a.peer_id peer then (if r.0 then 1 else 0) else 0) + admitted_puts asks r.1

  unfoldable pub admitted_bytes : List PutAsk → RateStates → ℕ
  unfolding allow_put
  admitted_bytes [] inner = 0
  admitted_bytes (a ∷ asks) inner =
      let r = allow_put limiter a.now a.peer_id a.bytes inner in
      (if str_eq a.peer_id peer then (if r.0 then a.bytes else 0) else 0) + admitted_bytes asks r.1

module _ (limiter : PutLimiter) (peer : String) (start : ℕ) where
  -- With limits below 2 ^ 32 - 1 puts and 2 ^ 64 - 1 bytes, what a window of a peer has counted,
  -- within the limits, and what any calls of this and other peers within a minute of its start
  -- admit for the peer come to at most the limits, in puts and in bytes.
  pub allow_put_bound :
      (puts bytes : ℕ) (asks : List PutAsk) (inner : RateStates)
      → limiter.max_puts_per_min < u32_max
      → limiter.max_put_bytes_per_min < u64_max
      → Counts limiter peer start puts bytes inner
      → All (λ a. a.now < start + 60000) asks
      → (puts + admitted_puts limiter peer asks inner ≤ limiter.max_puts_per_min)
        × (bytes + admitted_bytes limiter peer asks inner ≤ limiter.max_put_bytes_per_min)
  unfolding admitted_puts admitted_bytes
  allow_put_bound puts bytes [] inner u v c h =
      (omega (arith, c.puts_ok), omega (arith, c.bytes_ok))
  allow_put_bound puts bytes (a ∷ asks) inner u v c h =
      let r = allow_put limiter a.now a.peer_id a.bytes inner in
      elim (Bool-cases (str_eq a.peer_id peer)) [
        | inl t ↦
            let same : a.peer_id ≡ peer = (eq_iff a.peer_id peer).0 t in
            let c1 =
              subst
                (λ k.
                  let q = allow_put limiter a.now k a.bytes inner in
                  Counts limiter peer start (puts + (if q.0 then 1 else 0))
                    (bytes + (if q.0 then a.bytes else 0)) q.1)
                (sym same)
                (allow_put-own limiter peer start a.now a.bytes puts bytes inner h.0 u v c) in
            let rest =
              allow_put_bound (puts + (if r.0 then 1 else 0)) (bytes + (if r.0 then a.bytes else 0))
                asks r.1 u v c1 h.1 in
            rw (t) (omega (arith, rest.0), omega (arith, rest.1))
        | inr t ↦
            let rest =
              allow_put_bound puts bytes asks r.1 u v
                (allow_put-other limiter peer start a.now a.bytes puts bytes inner a.peer_id t c)
                h.1 in
            rw (t) (omega (arith, rest.0), omega (arith, rest.1))
      ]
