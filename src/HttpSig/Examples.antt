-- ===== src/HttpSig/Examples.antt =====
-- Runs of the checks of a signature, and the theorem at a concrete request.
use fedi.Base.{
  string_eq, codes_eq, ◌≡◌, refl, true, none, some, [], ◌∷◌, String, str_eq, if◌then◌else◌, length,
}
use fedi.Text.{codes}
use fedi.HttpSig.{pos, Libraries, RequestParts, passed, refused, panicked}
use fedi.HttpSig.Verify.{
  nanos, build_signing_string, verify_signature_time_window, verify_device_signature,
}
use fedi.HttpSig.Accepted.{IsSigned, verify_device_signature-IsSigned}

-- Stand-ins: a signature is the length of what it signs, a digest the length of the body.
abbrev lib : Libraries
lib = record {
  decode = λ s.
      if str_eq s "MjQ=" then some (24 ∷ []) else (if str_eq s "Mg==" then some (2 ∷ []) else none);
  sha256 = λ body. length body ∷ [];
  verify = λ pem signing signature. codes_eq.beq (length signing ∷ []) signature;
  parse_http_date = λ date. none;
  parse_i64 = λ s. if str_eq s "1000" then some (pos 1000) else some (pos 9223372036854775807);
  parse_f64_floor = λ s. none;
  header_name = λ name. some name;
}

abbrev header : String
header = "keyId=\"k1\",headers=\"(request-target)\",created=1000,signature=\"MjQ=\""

abbrev parts : RequestParts
parts = record {
  method = "GET";
  path = "/a";
  query = none;
  headers = (codes "signature", some header) ∷ (codes "digest", some "sha-256=Mg==") ∷ [];
}

signs_target :
    build_signing_string lib parts (codes "(request-target)" ∷ [])
    ≡ some (codes "(request-target): get /a")
unfolding build_signing_string
signs_target = refl

passes : verify_device_signature lib "pem" (nanos 1200) parts (7 ∷ 7 ∷ []) ≡ passed
unfolding verify_device_signature
passes = refl

-- Five minutes later the time of creation is too far away.
too_late : verify_device_signature lib "pem" (nanos 1301) parts (7 ∷ 7 ∷ []) ≡ refused
unfolding verify_device_signature
too_late = refl

other_body : verify_device_signature lib "pem" (nanos 1200) parts (7 ∷ []) ≡ refused
unfolding verify_device_signature
other_body = refl

-- The last second of an i64 as `expires` is parsed, and the addition of 5 seconds panics.
expires_panics :
    verify_signature_time_window lib
      (nanos 300)
      (nanos 1200)
      []
      (record {
        key_id = "k1";
        algorithm = none;
        headers = [];
        signature = [];
        created_unix = none;
        expires_unix = some (pos 9223372036854775807);
      })
      true
    ≡ panicked
unfolding verify_signature_time_window
expires_panics = refl

verify_device_signature-IsSigned_example : IsSigned lib "pem" (nanos 1200) parts (7 ∷ 7 ∷ [])
verify_device_signature-IsSigned_example =
    verify_device_signature-IsSigned lib "pem" (nanos 1200) parts (7 ∷ 7 ∷ []) passes
