-- ===== src/Social/Quotas.antt =====
-- What a persistent quota of the inbox admits within its window for one key.
use fedi.Base.{
  string_eq, ℕ, ◌+◌, ◌-◌, ◌≤◌, ◌<◌, ◌≡◌, refl, ◌∙◌, Bool, true, false, ◌||◌, max, some, List,
  String, str_eq, eq_iff, arith, ltb, leb, ◌==◌, if◌then◌else◌, sat_add_u32, sat_add_u64, u32_max,
  u64_max, All, inl, inr, Bool-cases,
}
use fedi.Text.{trim, is_empty}
use fedi.Budget.{admitted_reqs, admitted_bytes, admitted_bound}
use fedi.HashMap.{lookup, lookup-insert, lookup-insert_self}
use fedi.Social.{Quota, SocialDb, or_new_quota, quota_renewed, quota_counted, bump_inbox_quota}

-- A call of `bump_inbox_quota` with the limits of the key.
pub record QuotaAsk : Type 0 where
  pub now : ℕ
  pub quota_key : String
  pub bytes : ℕ

module _ (window_ms max_reqs max_bytes : ℕ) (key : String) (start : ℕ) where
  abbrev window : (reqs bytes updated_at_ms : ℕ) → Quota
  window reqs bytes updated_at_ms = record {
    window_start_ms = start;
    reqs = reqs;
    bytes = bytes;
    updated_at_ms = updated_at_ms;
  }

  -- The key's row, with what it has counted, within the limits.
  pub record Counts (reqs bytes : ℕ) (db : SocialDb) : Type 0 where
    pub updated_at_ms : ℕ
    pub found :
        lookup key db.inbox_quota
        ≡ some (record {
          window_start_ms = start;
          reqs = reqs;
          bytes = bytes;
          updated_at_ms = updated_at_ms;
        })
    pub reqs_ok : reqs ≤ max max_reqs 1
    pub bytes_ok : bytes ≤ max max_bytes 1024

  abbrev pub ask : QuotaAsk → SocialDb → SocialDb × Bool
  ask a db = bump_inbox_quota a.quota_key window_ms max_reqs max_bytes a.bytes a.now db

  abbrev pub is_mine : QuotaAsk → Bool
  is_mine a = str_eq (trim a.quota_key) key

  abbrev pub IsInWindow : QuotaAsk → Type 0
  IsInWindow a = a.now < start + window_ms

  module _ (is_window : 0 < window_ms) (is_key : is_empty key ≡ false)
      (reqs_max : max max_reqs 1 < u32_max) (bytes_max : max max_bytes 1024 < u64_max) where
    renewed_same :
        (now reqs bytes : ℕ) (db : SocialDb)
        → now < start + window_ms
        → (c : Counts reqs bytes db)
        → quota_renewed window_ms now (or_new_quota now (lookup key db.inbox_quota))
          ≡ window reqs bytes c.updated_at_ms
    renewed_same now reqs bytes db h c =
        let young : leb window_ms (now - start) ≡ false = ground (arith, h, is_window) in
        rw (c.found, young) refl

    own_ask :
        (a : QuotaAsk) (reqs bytes : ℕ) (db : SocialDb)
        → IsInWindow a
        → is_mine a ≡ true
        → Counts reqs bytes db
        → let r = ask a db in
          Counts (reqs + (if r.1 then 1 else 0)) (bytes + (if r.1 then a.bytes else 0)) r.0
    unfolding bump_inbox_quota
    own_ask a reqs bytes db h t c =
        let e = renewed_same a.now reqs bytes db h c in
        let same = (eq_iff (trim a.quota_key) key).0 t in
        let open_window : (window_ms == 0) ≡ false = ground (arith, is_window) in
        let over =
          ltb (max max_reqs 1) (sat_add_u32 reqs 1)
          || ltb (max max_bytes 1024) (sat_add_u64 bytes a.bytes) in
        elim (Bool-cases over) [
          | inl o ↦
              rw (same, e, is_key, open_window, o)
                (record {
                  updated_at_ms = c.updated_at_ms;
                  found = c.found ∙ ground arith;
                  reqs_ok = omega (arith, c.reqs_ok);
                  bytes_ok = omega (arith, c.bytes_ok);
                })
          | inr o ↦
              rw (same, e, is_key, open_window, o)
                (record {
                  updated_at_ms = a.now;
                  found =
                      lookup-insert_self key
                        (quota_counted a.now a.bytes (window reqs bytes c.updated_at_ms))
                        db.inbox_quota
                      ∙ ground (arith, o, reqs_max, bytes_max);
                  reqs_ok = ground (arith, o, reqs_max);
                  bytes_ok = ground (arith, o, bytes_max);
                })
        ]

    other_ask :
        (a : QuotaAsk) (reqs bytes : ℕ) (db : SocialDb)
        → is_mine a ≡ false
        → Counts reqs bytes db
        → Counts reqs bytes (ask a db).0
    unfolding bump_inbox_quota
    other_ask a reqs bytes db d c =
        let k = trim a.quota_key in
        let row = quota_renewed window_ms a.now (or_new_quota a.now (lookup k db.inbox_quota)) in
        record {
          updated_at_ms = c.updated_at_ms;
          found = ground (
            arith,
            c.found,
            d,
            lookup-insert k key (quota_counted a.now a.bytes row) db.inbox_quota,
          );
          reqs_ok = c.reqs_ok;
          bytes_ok = c.bytes_ok;
        }

    -- With a window that is not empty, a key that is not blank, and limits below 2 ^ 32 - 1
    -- requests and 2 ^ 64 - 1 bytes, what the row of a key has counted and what any calls for this
    -- and other keys before the end of its window admit for the key come to at most the limits, in
    -- requests and in bytes; a limit under 1 request or 1,024 bytes counts as that.
    pub bump_inbox_quota_bound :
        (reqs bytes : ℕ) (asks : List QuotaAsk) (db : SocialDb)
        → Counts reqs bytes db
        → All IsInWindow asks
        → (reqs + admitted_reqs ask is_mine (λ a. a.bytes) asks db ≤ max max_reqs 1)
          × (bytes + admitted_bytes ask is_mine (λ a. a.bytes) asks db ≤ max max_bytes 1024)
    bump_inbox_quota_bound reqs bytes asks db c h =
        admitted_bound ask is_mine (λ a. a.bytes) Counts IsInWindow (max max_reqs 1)
          (max max_bytes 1024) (λ n b s k. (k.reqs_ok, k.bytes_ok)) own_ask
          (λ a n b s i d k. other_ask a n b s d k) reqs bytes asks db c h
