-- ===== src/HttpSig/Accepted.antt =====
-- What holds of a request that the checks let through.
use fedi.Base.{
  codes_eq, ℕ, ◌+◌, ◌≤◌, ◌≡◌, refl, sym, ap, ◌∙◌, ◌⊎◌, inl, inr, Bool, true, false, not, ◌||◌,
  Option, none, some, List, String, ltb, if◌then◌else◌, is_some, arith, Bool-cases, i64_max,
}
use fedi.Text.{codes, trim, is_empty}
use fedi.HashMap.{lookup}
use fedi.HttpSig.{
  ℤ, Libraries, Headers, RequestParts, SignatureParams, Outcome, passed, refused, panicked,
  and_then, verify_digest_if_present, parse_signature_header,
}
use fedi.HttpSig.Digest.{refused_not, panicked_not, Agrees, verify_digest_if_present-Agrees}
use fedi.HttpSig.Verify.{
  nanos, clamped, is_skewed, date_parsed, date_value, verify_date, has_date, created_checked,
  expires_checked, verify_signature_time_window, build_signing_string, header_text, verified,
  verify_params, verify_device_signature,
}

pub and_then-passed : (a b : Outcome) → and_then a b ≡ passed → (a ≡ passed) × (b ≡ passed)
and_then-passed passed b h = (refl, h)
and_then-passed refused b h = refused_not h
and_then-passed panicked b h = panicked_not h

-- A test that refuses was not met.
unless_refused : (c : Bool) → (if c then refused else passed) ≡ passed → c ≡ false
unless_refused true h = refused_not h
unless_refused false h = refl

module _ (lib : Libraries) (max_skew now : ℕ) where
  abbrev pub IsNear : ℕ → Type 0
  IsNear ts = (ts ≤ now + max_skew) × (now ≤ ts + max_skew)

  abbrev pub IsCreatedNear : Option ℤ → Type 0
  IsCreatedNear none = Unit
  IsCreatedNear (some created_unix) = IsNear (nanos (clamped created_unix))

  abbrev pub IsUnexpired : Option ℤ → Type 0
  IsUnexpired none = Unit
  IsUnexpired (some expires_unix) = now ≤ nanos (clamped expires_unix + 5)

  -- The Date header is absent, no text, blank, or a date near the clock.
  abbrev pub IsDateNear : Option (Option String) → Type 0
  IsDateNear none = Unit
  IsDateNear (some none) = Unit
  IsDateNear (some (some date)) =
      (is_empty (trim date) ≡ true)
      ⊎ ((ts : ℕ) × ((lib.parse_http_date date ≡ some ts) × IsNear ts))

  near : (ts : ℕ) → (if is_skewed max_skew now ts then refused else passed) ≡ passed → IsNear ts
  near ts h =
      let e = unless_refused (is_skewed max_skew now ts) h in (ground (arith, e), ground (arith, e))

  date-IsNear :
      (date : String) (o : Option ℕ)
      → date_parsed lib max_skew now o ≡ passed
      → (ts : ℕ) × ((o ≡ some ts) × IsNear ts)
  date-IsNear date none h = refused_not h
  date-IsNear date (some ts) h = (ts, (refl, near ts h))

  date_checked :
      (o : Option (Option String))
      → (if has_date lib max_skew now o then date_value lib max_skew now o else passed) ≡ passed
      → IsDateNear o
  date_checked none h = tt
  date_checked (some none) h = tt
  date_checked (some (some date)) h = elim (Bool-cases (is_empty (trim date))) [
    | inl e ↦ inl e
    | inr e ↦ inr (
        date-IsNear date (lib.parse_http_date date) (
          sym (ap (λ c. if not c then date_value lib max_skew now (some (some date)) else passed) e)
          ∙ h))
  ]

  created-IsNear : (o : Option ℤ) → created_checked lib max_skew now o ≡ passed → IsCreatedNear o
  created-IsNear none h = tt
  created-IsNear (some c) h = near (nanos (clamped c)) h

  unexpired : (o : Option ℤ) → expires_checked lib max_skew now o ≡ passed → IsUnexpired o
  unexpired none h = tt
  unexpired (some e) h = elim (Bool-cases (ltb i64_max (clamped e + 5))) [
    | inl t ↦ panicked_not (
        sym (
          ap
            (λ c.
              if c then panicked else (if ltb (nanos (clamped e + 5)) now then refused else passed))
            t)
        ∙ h)
    | inr t ↦
        let g = unless_refused (ltb (nanos (clamped e + 5)) now) (
          sym (
            ap
              (λ c.
                if c
                then panicked
                else (if ltb (nanos (clamped e + 5)) now then refused else passed))
              t)
          ∙ h) in
        ground (arith, g)
  ]

  -- The clock and the times that a request gives.
  pub record IsTimely (headers : Headers) (params : SignatureParams) : Type 0 where
    pub date : IsDateNear (lookup (codes "date") headers)
    pub created : IsCreatedNear params.created_unix
    pub unexpired_at : IsUnexpired params.expires_unix
    pub hinted :
        has_date lib max_skew now (lookup (codes "date") headers)
          || is_some params.created_unix
          || is_some params.expires_unix
        ≡ true

  pub verify_signature_time_window-IsTimely :
      (headers : Headers) (params : SignatureParams)
      → verify_signature_time_window lib max_skew now headers params true ≡ passed
      → IsTimely headers params
  unfolding verify_signature_time_window verify_date
  verify_signature_time_window-IsTimely headers params h =
      let a = and_then-passed _ _ h in
      let b = and_then-passed _ _ a.1 in
      let c = and_then-passed _ _ b.1 in
      let hint = unless_refused _ c.1 in
      record {
        date = date_checked (lookup (codes "date") headers) a.0;
        created = created-IsNear params.created_unix b.0;
        unexpired_at = unexpired params.expires_unix c.0;
        hinted = ground (arith, hint);
      }

module _ (lib : Libraries) (public_key_pem : String) (now : ℕ) (parts : RequestParts)
    (body : List ℕ) where
  -- The header was read, the string that it names was signed with the key, and the times are near.
  pub record IsSigned : Type 0 where
    pub params : SignatureParams
    pub signing : List ℕ
    pub parsed :
        parse_signature_header lib
          (header_text lib public_key_pem now parts body (lookup (codes "signature") parts.headers))
        ≡ some params
    pub built : build_signing_string lib parts params.headers ≡ some signing
    pub signed : lib.verify public_key_pem signing params.signature ≡ true
    pub timely : IsTimely lib (nanos 300) now parts.headers params
    pub digest : Agrees lib body (lookup (codes "digest") parts.headers)

  pub verified-signed :
      (params : SignatureParams) (o : Option (List ℕ))
      → verified lib public_key_pem now parts body params o ≡ passed
      → (signing : List ℕ) × ((o ≡ some signing)
          × (lib.verify public_key_pem signing params.signature ≡ true))
  verified-signed params none h = refused_not h
  verified-signed params (some signing) h =
      elim (Bool-cases (lib.verify public_key_pem signing params.signature)) [
        | inl t ↦ (signing, (refl, t))
        | inr t ↦ refused_not (sym (ap (λ c. if c then passed else refused) t) ∙ h)
      ]

  verify_params-IsSigned :
      (o : Option SignatureParams)
      → parse_signature_header lib
          (header_text lib public_key_pem now parts body (lookup (codes "signature") parts.headers))
        ≡ o
      → verify_digest_if_present lib body parts.headers ≡ passed
      → verify_params lib public_key_pem now parts body o ≡ passed
      → IsSigned
  verify_params-IsSigned none e d h = refused_not h
  verify_params-IsSigned (some params) e d h =
      let a = and_then-passed _ _ h in
      let b = and_then-passed _ _ a.1 in
      let v = verified-signed params (build_signing_string lib parts params.headers) b.1 in
      record {
        params = params;
        signing = v.0;
        parsed = e;
        built = v.1.0;
        signed = v.1.1;
        timely = verify_signature_time_window-IsTimely lib (nanos 300) now parts.headers params b.0;
        digest = verify_digest_if_present-Agrees lib body parts.headers d;
      }

  -- If a device request passes, its Signature header was read, the string built of the headers that
  -- it names was verified with the key, each of Date (unless it is blank or no text) and created is
  -- within 300 s of the clock, expires is at most 5 s past, at least one of the three is given, and
  -- a Digest header, if there is one, names SHA-256 and is that of the body.
  pub verify_device_signature-IsSigned :
      verify_device_signature lib public_key_pem now parts body ≡ passed → IsSigned
  unfolding verify_device_signature
  verify_device_signature-IsSigned h =
      let sig =
        header_text lib public_key_pem now parts body (lookup (codes "signature") parts.headers) in
      elim (Bool-cases (is_empty sig)) [
        | inl t ↦ refused_not (sym (ap (λ c. if c then refused else checked sig) t) ∙ h)
        | inr t ↦
            let a =
              and_then-passed _ _ (sym (ap (λ c. if c then refused else checked sig) t) ∙ h) in
            verify_params-IsSigned (parse_signature_header lib sig) refl a.0 a.1
      ]
    where
      checked : String → Outcome
      checked sig =
          and_then (verify_digest_if_present lib body parts.headers)
            (verify_params lib public_key_pem now parts body (parse_signature_header lib sig))
