-- ===== src/Inbox/Blocked.antt =====
-- Who is blocked, is_blocked_actor of crates/fedi3_core/src/ap.rs.
use fedi.Base.{
  codes_eq, string_eq, ℕ, ◌≡◌, ◌⊎◌, inl, inr, Bool, true, false, Option, none, some, List, [], ◌∷◌,
  String, str_eq, eq_iff, arith, ◌==◌, any, All, Bool-cases,
}
use fedi.Base.{◌++◌ as append}
use fedi.Text.{codes, to_ascii_lowercase, trim_codes, drop_while_end, ends_with, strip_prefix}
use fedi.Social.{SocialDb, is_actor_blocked}
use fedi.Inbox.{
  ApConfig, World, read_blocked, host_from_url, domain_matches, starred_matches, dotted_matches,
  is_or_under, is_blocked_host, is_blocked_actor,
}

-- What a pattern names: without its first `*.`, or its first dot.
abbrev root_of : (pattern : List ℕ) → (starred dotted : Option (List ℕ)) → List ℕ
root_of p (some suffix) dotted = suffix
root_of p none (some suffix) = suffix
root_of p none none = p

-- A pattern with one of them also names what is under it.
abbrev is_wide : (starred dotted : Option (List ℕ)) → Bool
is_wide (some suffix) dotted = true
is_wide none (some suffix) = true
is_wide none none = false

abbrev Apart : (host pattern : List ℕ) → (starred dotted : Option (List ℕ)) → Type 0
Apart host p starred dotted =
    ¬ (host ≡ root_of p starred dotted)
    × (is_wide starred dotted ≡ true
        → ends_with host (append (codes ".") (root_of p starred dotted)) ≡ false)

-- Lower case, without space around it and, in a pattern, without dots at its end.
abbrev host_text : List ℕ → List ℕ
host_text host = to_ascii_lowercase (trim_codes host)

abbrev pattern_text : String → List ℕ
pattern_text pattern =
    to_ascii_lowercase (drop_while_end (λ c. c == 46) (trim_codes (codes pattern)))

-- The pattern is blank, or does not name the host.
abbrev pub IsOutside : (host : List ℕ) (pattern : String) → Type 0
IsOutside host pattern =
    let p = pattern_text pattern in
    (p ≡ []) ⊎ Apart (host_text host) p (strip_prefix p (codes "*.")) (strip_prefix p (codes "."))

abbrev IsHostOutside : List String → Option (List ℕ) → Type 0
IsHostOutside patterns none = Unit
IsHostOutside patterns (some host) = All (IsOutside host) patterns

apart_root :
    (host root : List ℕ)
    → is_or_under root host ≡ false
    → ¬ (host ≡ root) × (ends_with host (append (codes ".") root) ≡ false)
apart_root host root h =
    (λ e. ground (arith, (codes_eq.beq_iff host root).1 e, h), ground (arith, h))

starred-Apart :
    (host p : List ℕ) (starred : Option (List ℕ))
    → starred_matches host p starred ≡ false
    → Apart host p starred (strip_prefix p (codes "."))
starred-Apart host p (some root) h = let a = apart_root host root h in (a.0, λ w. a.1)
starred-Apart host p none h = dotted (strip_prefix p (codes ".")) h
  where
    dotted : (o : Option (List ℕ)) → dotted_matches host p o ≡ false → Apart host p none o
    dotted (some root) k = let a = apart_root host root k in (a.0, λ w. a.1)
    dotted none k = (λ e. ground (arith, (codes_eq.beq_iff host p).1 e, k), λ w. ground (arith, w))

domain_matches-IsOutside :
    (host : List ℕ) (pattern : String)
    → domain_matches host pattern ≡ false
    → IsOutside host pattern
unfolding domain_matches
domain_matches-IsOutside host pattern h =
    let p = pattern_text pattern in
    elim (Bool-cases (codes_eq.beq p [])) [
      | inl e ↦ inl ((codes_eq.beq_iff p []).0 e)
      | inr e ↦ inr (starred-Apart (host_text host) p (strip_prefix p (codes "*.")) (rw (e) at h))
    ]

none_such :
    {A : Type 0} (test : A → Bool) (P : A → Type 0) (xs : List A)
    → ((x : A) → test x ≡ false → P x)
    → any test xs ≡ false
    → All P xs
none_such test P [] f h = tt
none_such test P (x ∷ xs) f h = (f x (ground (arith, h)), none_such test P xs f (ground (arith, h)))

other_text : (a b : String) → str_eq a b ≡ false → ¬ (a ≡ b)
other_text a b d e = ground (arith, d, (eq_iff a b).1 e)

module _ {Json : Type 0} (w : World Json) (cfg : ApConfig) (actor_url : String)
    (social : SocialDb) where
  -- The actor is not in the configured list nor, if the read of it succeeds, in the table, and no
  -- configured pattern names the host of its URL.
  pub record IsUnblocked : Type 0 where
    pub configured : All (λ a. ¬ (a ≡ actor_url)) cfg.blocked_actors
    pub stored : (w.is_up read_blocked ≡ false) ⊎ All (λ a. ¬ (a ≡ actor_url)) social.blocked_actors
    pub hosted : IsHostOutside cfg.blocked_domains (host_from_url w actor_url)

  host-IsHostOutside :
      (o : Option (List ℕ)) → is_blocked_host w cfg o ≡ false → IsHostOutside cfg.blocked_domains o
  host-IsHostOutside none h = tt
  host-IsHostOutside (some host) h =
      none_such (λ p. domain_matches host p) (IsOutside host) cfg.blocked_domains
        (domain_matches-IsOutside host) h

  none_blocked :
      (urls : List String)
      → any (λ a. str_eq a actor_url) urls ≡ false
      → All (λ a. ¬ (a ≡ actor_url)) urls
  none_blocked urls = none_such _ _ urls (λ a d. other_text a actor_url d)

  pub is_blocked_actor-IsUnblocked : is_blocked_actor w cfg actor_url social ≡ false → IsUnblocked
  unfolding is_blocked_actor is_actor_blocked
  is_blocked_actor-IsUnblocked h = record {
    configured = none_blocked cfg.blocked_actors (ground (arith, h));
    stored = elim (Bool-cases (w.is_up read_blocked)) [
      | inl u ↦ inr (none_blocked social.blocked_actors (ground (arith, h, u)))
      | inr u ↦ inl u
    ];
    hosted = host-IsHostOutside (host_from_url w actor_url) (ground (arith, h));
  }
