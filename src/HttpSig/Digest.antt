-- ===== src/HttpSig/Digest.antt =====
-- The Digest header of a request, crates/fedi3_core/src/http_sig.rs, and outcomes that are not passed.
use fedi.Base.{
  codes_eq, ℕ, ◌≡◌, refl, ap, Bool, true, false, Option, none, some, List, String, if◌then◌else◌,
  arith,
}
use fedi.Text.{codes, trim, to_ascii_lowercase}
use fedi.HashMap.{lookup}
use fedi.HttpSig.{
  Libraries, Headers, Outcome, passed, refused, panicked, split_once, digest_compared, digest_of,
  digest_header, verify_digest_if_present,
}

is_passed : Outcome → Bool
is_passed passed = true
is_passed refused = false
is_passed panicked = false

pub refused_not : {X : Type 0} → refused ≡ passed → X
unfolding is_passed
refused_not h = absurd (ground (arith, ap is_passed h))

pub panicked_not : {X : Type 0} → panicked ≡ passed → X
unfolding is_passed
panicked_not h = absurd (ground (arith, ap is_passed h))

-- A test that has to be met for what passes.
if_met :
    (c : Bool) (next : Outcome)
    → (if c then next else refused) ≡ passed
    → (c ≡ true) × (next ≡ passed)
if_met true next h = (refl, h)
if_met false next h = refused_not h

module _ (lib : Libraries) (body : List ℕ) where
  -- The text before its first `=` is sha-256 in any case, and what follows it encodes the SHA-256 of
  -- the body.
  pub record IsDigestOf (digest : String) : Type 0 where
    pub alg : String
    pub value : String
    pub cut : split_once 61 digest ≡ some (alg, value)
    pub algorithm : to_ascii_lowercase (codes (trim alg)) ≡ codes "sha-256"
    pub decoded : lib.decode (trim value) ≡ some (lib.sha256 body)

  -- The header is absent, or a text that is a digest of the body.
  abbrev pub Agrees : Option (Option String) → Type 0
  Agrees none = Unit
  Agrees (some none) = ⊥
  Agrees (some (some digest)) = IsDigestOf digest

  compared :
      (o : Option (List ℕ)) → digest_compared lib body o ≡ passed → o ≡ some (lib.sha256 body)
  compared none h = refused_not h
  compared (some expected) h =
      ap some ((codes_eq.beq_iff expected (lib.sha256 body)).0 (if_met _ passed h).0)

  digest-IsDigestOf :
      (digest : String) (o : Option (String × String))
      → split_once 61 digest ≡ o
      → digest_of lib body o ≡ passed
      → IsDigestOf digest
  digest-IsDigestOf digest none e h = refused_not h
  digest-IsDigestOf digest (some (alg, value)) e h =
      let met = if_met _ (digest_compared lib body (lib.decode (trim value))) h in
      record {
        alg = alg;
        value = value;
        cut = e;
        algorithm =
            (codes_eq.beq_iff (to_ascii_lowercase (codes (trim alg))) (codes "sha-256")).0 met.0;
        decoded = compared (lib.decode (trim value)) met.1;
      }

  header-Agrees : (o : Option (Option String)) → digest_header lib body o ≡ passed → Agrees o
  header-Agrees none h = tt
  header-Agrees (some none) h = refused_not h
  header-Agrees (some (some digest)) h = digest-IsDigestOf digest (split_once 61 digest) refl h

  pub verify_digest_if_present-Agrees :
      (headers : Headers)
      → verify_digest_if_present lib body headers ≡ passed
      → Agrees (lookup (codes "digest") headers)
  unfolding verify_digest_if_present
  verify_digest_if_present-Agrees headers h = header-Agrees (lookup (codes "digest") headers) h
