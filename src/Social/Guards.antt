-- ===== src/Social/Guards.antt =====
-- When strikes block a key, and when they do not.
use fedi.Base.{
  string_eq, ℕ, suc, ◌+◌, ◌*◌, ◌≤◌, ◌<◌, ◌≡◌, refl, ap, Bool, true, false, Option, none, some, List,
  [], ◌∷◌, String, str_eq, eq_iff, arith, ltb, if◌then◌else◌, length, inl, inr, Bool-cases, i64_max,
  is_some, count_where,
}
use fedi.Text.{trim, is_empty}
use fedi.HashMap.{lookup, lookup-insert, lookup-insert_self}
use fedi.Social.{
  Strikes, SocialDb, or_no_strikes, row_struck, still_blocked, abuse_check_blocked,
  abuse_record_strike,
}

-- A strike of weight one, as the inbox gives it.
pub record Strike : Type 0 where
  pub now : ℕ
  pub abuse_key : String

unfoldable pub strike_all : List Strike → SocialDb → SocialDb
strike_all [] db = db
strike_all (x ∷ xs) db = strike_all xs (abuse_record_strike x.now x.abuse_key 1 db)

module _ (key : String) where
  abbrev pub is_of_key : Strike → Bool
  is_of_key x = str_eq (trim x.abuse_key) key

  abbrev pub own_strikes : List Strike → ℕ
  own_strikes xs = count_where is_of_key xs

  abbrev pub row_of : SocialDb → Strikes
  row_of db = or_no_strikes (lookup key db.abuse_strikes)

  -- What a strike does to the row of the key.
  row-strike :
      (x : Strike) (db : SocialDb)
      → is_empty key ≡ false
      → row_of (abuse_record_strike x.now x.abuse_key 1 db)
        ≡ (if is_of_key x then row_struck 1 x.now (row_of db) else row_of db)
  unfolding abuse_record_strike
  row-strike x db h = elim (Bool-cases (is_of_key x)) [
    | inl t ↦
        let same = (eq_iff (trim x.abuse_key) key).0 t in
        rw (t, same, h)
          (ap or_no_strikes
            (lookup-insert_self key (row_struck 1 x.now (row_of db)) db.abuse_strikes))
    | inr t ↦ elim (Bool-cases (is_empty (trim x.abuse_key))) [
      | inl e ↦ rw (e, t) refl
      | inr e ↦
          let k = trim x.abuse_key in
          let row = row_struck 1 x.now (or_no_strikes (lookup k db.abuse_strikes)) in
          ground (arith, e, t, lookup-insert k key row db.abuse_strikes)
    ]
  ]

  checked :
      (now : ℕ) (db : SocialDb)
      → trim key ≡ key
      → is_empty key ≡ false
      → is_some (abuse_check_blocked now key db) ≡ ltb now (row_of db).block_until_ms
  unfolding abuse_check_blocked
  checked now db t h = rw (t, h) (of_row now (lookup key db.abuse_strikes))
    where
      of_row :
          (now : ℕ) (o : Option Strikes)
          → is_some (still_blocked now o) ≡ ltb now (or_no_strikes o).block_until_ms
      of_row now none = ground arith
      of_row now (some row) = ground arith

  -- The key has at most `n` strikes, and was never blocked.
  record IsBelow (n : ℕ) (db : SocialDb) : Type 0 where
    few : (row_of db).strikes ≤ n
    clear : (row_of db).block_until_ms ≡ 0

  strike-IsBelow :
      (x : Strike) (n : ℕ) (db : SocialDb)
      → is_empty key ≡ false
      → n + (if is_of_key x then 1 else 0) < 10
      → IsBelow n db
      → IsBelow (n + (if is_of_key x then 1 else 0)) (abuse_record_strike x.now x.abuse_key 1 db)
  unfolding row_struck
  strike-IsBelow x n db h l b = record {
    few = ground (arith, row-strike x db h, b.few, l);
    clear = ground (arith, row-strike x db h, b.few, b.clear, l);
  }

  few-IsBelow :
      (n : ℕ) (xs : List Strike) (db : SocialDb)
      → is_empty key ≡ false
      → n + own_strikes xs < 10
      → IsBelow n db
      → IsBelow (n + own_strikes xs) (strike_all xs db)
  unfolding strike_all
  few-IsBelow n [] db h l b = record { few = omega (arith, b.few); clear = b.clear }
  few-IsBelow n (x ∷ xs) db h l b =
      let one : ℕ = if is_of_key x then 1 else 0 in
      let rest =
        few-IsBelow (n + one) xs (abuse_record_strike x.now x.abuse_key 1 db) h (ground (arith, l))
          (strike-IsBelow x n db h (ground (arith, l)) b) in
      record { few = ground (arith, rest.few); clear = rest.clear }

  -- A key that is trimmed and not blank, has no row, and of any strikes of weight one in turn gets
  -- fewer than ten, is not blocked at any time.
  pub few_strikes :
      (xs : List Strike) (db : SocialDb) (now : ℕ)
      → trim key ≡ key
      → is_empty key ≡ false
      → lookup key db.abuse_strikes ≡ none
      → own_strikes xs < 10
      → abuse_check_blocked now key (strike_all xs db) ≡ none
  few_strikes xs db now t h e l =
      let b =
        few-IsBelow 0 xs db h (omega (arith, l))
          (record { few = rw (e) (ground arith); clear = rw (e) refl }) in
      ground (arith, checked now (strike_all xs db) t h, b.clear)

  -- All strikes are of the key, each is at most 24 hours after the one before, and the times are
  -- more than an hour below the greatest `i64`.
  abbrev pub IsClose : (last : ℕ) → List Strike → Type 0
  IsClose last [] = Unit {0}
  IsClose last (x ∷ xs) =
      (is_of_key x ≡ true)
      × ((x.now ≤ last + 24 * 3600 * 1000) × ((x.now + 3600 * 1000 ≤ i64_max) × IsClose x.now xs))

  abbrev pub last_of : (last : ℕ) → List Strike → ℕ
  last_of last [] = last
  last_of last (x ∷ xs) = last_of x.now xs

  -- The key has at least `n` strikes, and is blocked for an hour from the last one if that is ten.
  record IsStruck (n last : ℕ) (db : SocialDb) : Type 0 where
    many : n ≤ (row_of db).strikes
    at_last : (row_of db).last_strike_ms ≡ last
    until : 10 ≤ n → last + 3600 * 1000 ≤ (row_of db).block_until_ms

  strike-IsStruck :
      (x : Strike) (n last : ℕ) (db : SocialDb)
      → is_empty key ≡ false
      → n < i64_max
      → is_of_key x ≡ true
      → x.now ≤ last + 24 * 3600 * 1000
      → x.now + 3600 * 1000 ≤ i64_max
      → IsStruck n last db
      → IsStruck (suc n) x.now (abuse_record_strike x.now x.abuse_key 1 db)
  unfolding row_struck
  strike-IsStruck x n last db h l m c i s = record {
    many = ground (arith, row-strike x db h, s.many, s.at_last, l, m, c);
    at_last = ground (arith, row-strike x db h, m);
    until = λ ten. ground (arith, row-strike x db h, s.many, s.at_last, l, m, c, i, ten);
  }

  close-IsStruck :
      (n last : ℕ) (xs : List Strike) (db : SocialDb)
      → is_empty key ≡ false
      → n + length xs ≤ i64_max
      → IsClose last xs
      → IsStruck n last db
      → IsStruck (n + length xs) (last_of last xs) (strike_all xs db)
  unfolding strike_all
  close-IsStruck n last [] db h l c s = record {
    many = omega (arith, s.many);
    at_last = s.at_last;
    until = λ ten. s.until (omega (arith, ten));
  }
  close-IsStruck n last (x ∷ xs) db h l c s =
      let rest =
        close-IsStruck (suc n) x.now xs (abuse_record_strike x.now x.abuse_key 1 db) h
          (omega (arith, l)) c.1.1.1
          (strike-IsStruck x n last db h (omega (arith, l)) c.0 c.1.0 c.1.1.0 s) in
      record {
        many = omega (arith, rest.many);
        at_last = rest.at_last;
        until = λ ten. rest.until (omega (arith, ten));
      }

  -- For a key that is trimmed and not blank, ten strikes of weight one and more (at most 2 ^ 63 -
  -- 1), each at most 24 hours after the one before, the first so after the last one in the row, and
  -- each more than an hour below the greatest i64, block the key at every time less than an hour
  -- after the last.
  pub many_strikes :
      (xs : List Strike) (db : SocialDb) (now : ℕ)
      → trim key ≡ key
      → is_empty key ≡ false
      → 10 ≤ length xs
      → length xs ≤ i64_max
      → IsClose (row_of db).last_strike_ms xs
      → now < last_of (row_of db).last_strike_ms xs + 3600 * 1000
      → is_some (abuse_check_blocked now key (strike_all xs db)) ≡ true
  many_strikes xs db now t h ten l c n =
      let s =
        close-IsStruck 0 (row_of db).last_strike_ms xs db h (omega (arith, l)) c
          (record { many = omega arith; at_last = refl; until = λ z. absurd (omega (arith, z)) }) in
      ground (arith, checked now (strike_all xs db) t h, s.until (omega (arith, ten)), n)
