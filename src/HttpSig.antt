-- ===== src/HttpSig.antt =====
-- Checks of a signed HTTP request, crates/fedi3_core/src/http_sig.rs, and verify_device_signature of
-- crates/fedi3_core/src/ap.rs, which runs them. Base64, SHA-256, RSA, dates and numbers are the
-- libraries' and are arguments. Times are nanoseconds since the epoch; a header map has its names in
-- lower case, and a value that is no text is none.
pub mod Digest
pub mod Verify
pub mod Accepted
pub mod KeyResolver
mod Examples
use Prim.Native.Char.{code}
use mathlib.Core.Option
use fedi.Base.{
  string_eq, codes_eq, ℕ, ◌+◌, ◌-◌, ◌*◌, Bool, true, false, not, ◌&&◌, ◌||◌, Option, none, some,
  List, [], ◌∷◌, ◌++◌, String, str_eq, ltb, leb, ◌==◌, if◌then◌else◌, is_some, map, i64_max,
}
use fedi.Text.{codes, trim, is_empty, is_whitespace, to_ascii_lowercase}
use fedi.HashMap.{lookup, insert}

-- An `i64`.
pub data ℤ : Type 0 where
  pos negsuc : ℕ → ℤ

-- What the code asks of its libraries.
pub record Libraries : Type 0 where
  pub decode : String → Option (List ℕ)
  pub sha256 : List ℕ → List ℕ
  pub verify : (public_key_pem : String) (signing_string signature : List ℕ) → Bool
  pub parse_http_date : String → Option ℕ
  pub parse_i64 : String → Option ℤ
  pub parse_f64_floor : String → Option ℤ
  pub header_name : List ℕ → Option (List ℕ)

abbrev pub Headers : Type 0
Headers = List (List ℕ × Option String)

pub record RequestParts : Type 0 where
  pub method : String
  pub path : String
  pub query : Option String
  pub headers : Headers

pub record SignatureParams : Type 0 where
  pub key_id : String
  pub algorithm : Option String
  pub headers : List (List ℕ)
  pub signature : List ℕ
  pub created_unix : Option ℤ
  pub expires_unix : Option ℤ

-- A check passes, refuses, or panics.
pub data Outcome : Type 0 where
  passed refused panicked : Outcome

abbrev pub and_then : Outcome → Outcome → Outcome
and_then passed next = next
and_then refused next = refused
and_then panicked next = panicked

-- `str::split_once` at a character.
abbrev pub cons_left : ℕ → (String → String) → Option (String × String) → Option (String × String)
cons_left at f none = none
cons_left at f (some (a, b)) = some (f a, b)

unfoldable pub split_once : (at : ℕ) → String → Option (String × String)
split_once at String.[] = none
split_once at (String.◌∷◌ c s) =
    let rest = split_once at s in
    if code c == at then some (String.[], s) else cons_left at (String.◌∷◌ c) rest

module _ (lib : Libraries) (body : List ℕ) where
  abbrev pub digest_compared : Option (List ℕ) → Outcome
  digest_compared none = refused
  digest_compared (some expected) =
      if codes_eq.beq expected (lib.sha256 body) then passed else refused

  abbrev pub digest_of : Option (String × String) → Outcome
  digest_of none = refused
  digest_of (some (alg, value)) =
      if codes_eq.beq (to_ascii_lowercase (codes (trim alg))) (codes "sha-256")
      then digest_compared (lib.decode (trim value))
      else refused

  abbrev pub digest_header : Option (Option String) → Outcome
  digest_header none = passed
  digest_header (some none) = refused
  digest_header (some (some digest)) = digest_of (split_once 61 digest)

  unfoldable pub verify_digest_if_present : Headers → Outcome
  unfolding lookup split_once trim to_ascii_lowercase
  verify_digest_if_present headers = digest_header (lookup (codes "digest") headers)

-- `str::split`.
abbrev pub cons_head : (String → String) → List String → List String
cons_head f [] = []
cons_head f (p ∷ ps) = f p ∷ ps

unfoldable pub split : (ℕ → Bool) → String → List String
split at String.[] = String.[] ∷ []
split at (String.◌∷◌ c s) =
    let rest = split at s in if at (code c) then String.[] ∷ rest else cons_head (String.◌∷◌ c) rest

-- `trim_matches('"')`.
unfoldable pub quotes_start : String → String
quotes_start String.[] = String.[]
quotes_start (String.◌∷◌ c s) = if code c == 34 then quotes_start s else String.◌∷◌ c s

unfoldable pub quotes_end : String → String
quotes_end String.[] = String.[]
quotes_end (String.◌∷◌ c s) =
    let rest = quotes_end s in
    if code c == 34 && is_empty rest then String.[] else String.◌∷◌ c rest

unfoldable pub trim_quotes : String → String
unfolding quotes_start quotes_end
trim_quotes s = quotes_end (quotes_start s)

-- The loop over the parts of the header: later fields replace earlier ones of the same name.
abbrev pub field_added : Option (String × String) → List (String × String) → List (String × String)
field_added none fields = fields
field_added (some (k, v)) fields = insert (trim k) (trim_quotes (trim v)) fields

unfoldable pub fields_of : List String → List (String × String) → List (String × String)
unfolding insert trim trim_quotes split_once
fields_of [] fields = fields
fields_of (part ∷ parts) fields = fields_of parts (field_added (split_once 61 (trim part)) fields)

unfoldable pub parse_signature_unix_ts : Libraries → Option String → Option ℤ
unfolding trim trim_quotes
parse_signature_unix_ts lib none = none
parse_signature_unix_ts lib (some value) =
    let trimmed = trim_quotes (trim value) in
    if is_empty trimmed
    then none
    else if is_some (lib.parse_i64 trimmed)
    then lib.parse_i64 trimmed
    else lib.parse_f64_floor trimmed

-- `split_whitespace`, each word in lower case.
unfoldable pub lower_words : List String → List (List ℕ)
unfolding to_ascii_lowercase
lower_words [] = []
lower_words (w ∷ ws) =
    let rest = lower_words ws in if is_empty w then rest else to_ascii_lowercase (codes w) ∷ rest

abbrev pub or_text : String → Option String → String
or_text d none = d
or_text d (some v) = v

abbrev pub params_of :
    Libraries → List (String × String) → Option String → Option String → Option SignatureParams
params_of lib fields none signature_b64 = none
params_of lib fields (some key_id) none = none
params_of lib fields (some key_id) (some signature_b64) =
    Option.map
      (λ signature. record {
        key_id = key_id;
        algorithm = lookup "algorithm" fields;
        headers = lower_words (split is_whitespace (or_text "date" (lookup "headers" fields)));
        signature = signature;
        created_unix = parse_signature_unix_ts lib (lookup "created" fields);
        expires_unix = parse_signature_unix_ts lib (lookup "expires" fields);
      })
      (lib.decode signature_b64)

unfoldable pub parse_signature_header : Libraries → String → Option SignatureParams
unfolding fields_of lookup lower_words split is_whitespace parse_signature_unix_ts
parse_signature_header lib value =
    let fields = fields_of (split (λ c. c == 44) value) [] in
    params_of lib fields (lookup "keyId" fields) (lookup "signature" fields)

abbrev pub supported : Option String → Bool
supported none = true
supported (some algorithm) =
    let alg = to_ascii_lowercase (codes (trim algorithm)) in
    codes_eq.beq alg []
    || codes_eq.beq alg (codes "rsa-sha256")
    || codes_eq.beq alg (codes "hs2019")

unfoldable pub ensure_supported_signature_algorithm : SignatureParams → Outcome
unfolding to_ascii_lowercase trim
ensure_supported_signature_algorithm params = if supported params.algorithm then passed else refused
