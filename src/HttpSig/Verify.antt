-- ===== src/HttpSig/Verify.antt =====
-- The time window, the signing string, and the checks of a device's request one after the other.

use fedi.Base.{
  codes_eq, ℕ, ◌+◌, ◌-◌, ◌*◌, Bool, true, false, not, ◌&&◌, ◌||◌, Option, none, some, List, [], ◌∷◌,
  ◌++◌, String, ltb, if◌then◌else◌, is_some, i64_max,
}
use fedi.Text.{codes, trim, is_empty, to_ascii_lowercase}
use fedi.HashMap.{lookup}
use fedi.HttpSig.{
  ℤ, pos, negsuc, Libraries, Headers, RequestParts, SignatureParams, Outcome, passed, refused,
  panicked, and_then, verify_digest_if_present, parse_signature_header,
  ensure_supported_signature_algorithm,
}

abbrev pub nanos : ℕ → ℕ
nanos secs = secs * 1000000000

-- `max(0) as u64`.
abbrev pub clamped : ℤ → ℕ
clamped (pos n) = n
clamped (negsuc n) = 0

-- The distance of a time from the clock is over the allowed skew.
abbrev pub is_skewed : (max_skew now ts : ℕ) → Bool
is_skewed max_skew now ts = ltb max_skew (if ltb ts now then now - ts else ts - now)

module _ (lib : Libraries) (max_skew now : ℕ) where
  abbrev pub date_parsed : Option ℕ → Outcome
  date_parsed none = refused
  date_parsed (some ts) = if is_skewed max_skew now ts then refused else passed

  abbrev pub date_value : Option (Option String) → Outcome
  date_value none = refused
  date_value (some none) = refused
  date_value (some (some date)) = date_parsed (lib.parse_http_date date)

  unfoldable pub verify_date : Headers → Outcome
  unfolding lookup
  verify_date headers = date_value (lookup (codes "date") headers)

  -- A Date header that is text and not blank is a hint, and is checked.
  abbrev pub has_date : Option (Option String) → Bool
  has_date none = false
  has_date (some none) = false
  has_date (some (some date)) = not (is_empty (trim date))

  abbrev pub created_checked : Option ℤ → Outcome
  created_checked none = passed
  created_checked (some created_unix) =
      if is_skewed max_skew now (nanos (clamped created_unix)) then refused else passed

  -- A time past the last second of an `i64` cannot be formed.
  abbrev pub expires_checked : Option ℤ → Outcome
  expires_checked none = passed
  expires_checked (some expires_unix) =
      if ltb i64_max (clamped expires_unix + 5)
      then panicked
      else if ltb (nanos (clamped expires_unix + 5)) now
      then refused
      else passed

  unfoldable pub verify_signature_time_window :
      Headers → SignatureParams → (require_time_hint : Bool) → Outcome
  unfolding lookup verify_date trim
  verify_signature_time_window headers params require_time_hint =
      let dated = has_date (lookup (codes "date") headers) in
      let hinted = dated || is_some params.created_unix || is_some params.expires_unix in
      and_then (if dated then verify_date headers else passed) (
        and_then (created_checked params.created_unix) (
          and_then (expires_checked params.expires_unix)
            (if require_time_hint && not hinted then refused else passed)))

module _ (lib : Libraries) (parts : RequestParts) where
  abbrev pub query_text : Option String → List ℕ
  query_text none = []
  query_text (some q) = 63 ∷ codes q

  abbrev pub value_line : (name : List ℕ) → Option (Option String) → Option (List ℕ)
  value_line name none = none
  value_line name (some none) = none
  value_line name (some (some value)) = some (name ++ (codes ": " ++ codes (trim value)))

  abbrev pub named_line : (name : List ℕ) → Option (List ℕ) → Option (List ℕ)
  named_line name none = none
  named_line name (some key) = value_line name (lookup key parts.headers)

  -- What one signed header adds.
  unfoldable pub line_of : List ℕ → Option (List ℕ)
  unfolding lookup trim to_ascii_lowercase
  line_of name =
      if codes_eq.beq name (codes "(request-target)")
      then some (
          codes "(request-target): "
          ++ (to_ascii_lowercase (codes parts.method)
              ++ (32 ∷ (codes parts.path ++ query_text parts.query))))
      else named_line name (lib.header_name name)

  abbrev pub after_line : Bool → Option (List ℕ) → Option (List ℕ) → Option (List ℕ)
  after_line later none rest = none
  after_line later (some line) none = none
  after_line later (some line) (some rest) = some ((if later then 10 ∷ line else line) ++ rest)

  unfoldable pub lines_of : (later : Bool) → List (List ℕ) → Option (List ℕ)
  unfolding line_of
  lines_of later [] = some []
  lines_of later (name ∷ names) = after_line later (line_of name) (lines_of true names)

  unfoldable pub build_signing_string : (signed_headers : List (List ℕ)) → Option (List ℕ)
  unfolding lines_of
  build_signing_string signed_headers = lines_of false signed_headers

module _ (lib : Libraries) (public_key_pem : String) (now : ℕ) (parts : RequestParts)
    (body : List ℕ) where
  abbrev pub header_text : Option (Option String) → String
  header_text none = ""
  header_text (some none) = ""
  header_text (some (some text)) = text

  -- `verify_signature_rsa_sha256`.
  abbrev pub verified : SignatureParams → Option (List ℕ) → Outcome
  verified params none = refused
  verified params (some signing) =
      if lib.verify public_key_pem signing params.signature then passed else refused

  abbrev pub verify_params : Option SignatureParams → Outcome
  verify_params none = refused
  verify_params (some params) = and_then (ensure_supported_signature_algorithm params) (
      and_then (verify_signature_time_window lib (nanos 300) now parts.headers params true)
        (verified params (build_signing_string lib parts params.headers)))

  -- A refusal is an answer 401.
  unfoldable pub verify_device_signature : Outcome
  unfolding verify_digest_if_present parse_signature_header ensure_supported_signature_algorithm
      verify_signature_time_window build_signing_string
  verify_device_signature =
      let sig = header_text (lookup (codes "signature") parts.headers) in
      if is_empty sig
      then refused
      else and_then (verify_digest_if_present lib body parts.headers)
          (verify_params (parse_signature_header lib sig))
