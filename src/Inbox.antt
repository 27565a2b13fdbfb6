-- ===== src/Inbox.antt =====
-- The inbox of the ActivityPub server, `inbox` of crates/fedi3_core/src/ap.rs and the helpers that it
-- calls: the state that a request meets, the limits and the block lists. JSON, hashes and URLs are
-- the libraries' and are arguments; process_inbox_activity, upsert_actor_meta and the sending of a
-- receipt are entered in a log, `process_inbox_activity` with an argument that says if it fails.
pub mod Steps
pub mod Checks
pub mod Handler
pub mod Frame
pub mod Chains
pub mod Blocked
pub mod Authentic
pub mod Once
pub mod Runs
pub mod Receipts
pub mod Limits
mod Examples
use Prim.Native.String.{◌++◌}
use fedi.Base.{
  string_eq, codes_eq, ℕ, ◌+◌, ◌-◌, ◌*◌, Bool, true, false, ◌||◌, min, max, Option, none, some,
  List, [], ◌∷◌, String, str_eq, ltb, leb, if◌then◌else◌, any, length, take, sat_add_u32,
  sat_add_u64, ◌==◌,
}
use fedi.Base.{◌++◌ as append}
use fedi.Text.{
  codes, trim, is_empty, to_ascii_lowercase, trim_codes, drop_while_end, ends_with, strip_prefix,
}
use fedi.HashMap.{lookup, insert, retain}
use fedi.HttpSig.{Libraries, Headers, RequestParts, split}
use fedi.HttpSig.KeyResolver.{ActorDoc, Cache}
use fedi.Social.{SocialDb, AuditEvent, is_actor_blocked}

pub record InboxRateLimits : Type 0 where
  pub max_reqs_per_min : ℕ
  pub max_bytes_per_min : ℕ
  pub max_reqs_per_day : ℕ
  pub max_bytes_per_day : ℕ

pub record InboxRate : Type 0 where
  pub window_start_ms : ℕ
  pub reqs : ℕ
  pub bytes : ℕ

abbrev pub Limiter : Type 0
Limiter = List (String × InboxRate)

-- What of `ApState` does not change; `max_date_skew` in nanoseconds.
pub record ApConfig : Type 0 where
  pub inbox_limits : InboxRateLimits
  pub max_date_skew : ℕ
  pub blocked_actors : List String
  pub blocked_domains : List String

-- The places where a request reads the clock or asks the database.
pub data Place : Type 0 where
  limit_ip limit_key limit_actor : Place
  check_key check_actor strike_key strike_actor : Place
  cache_get cache_put read_blocked : Place
  quota_key quota_actor quota_host mark_seen audit : Place

-- What the libraries and the rest of the world give to a request.
pub record World (Json : Type 0) : Type 0 where
  pub lib : Libraries
  pub hex : List ℕ → String
  pub uri_host : String → Option String
  pub from_slice : List ℕ → Option Json
  pub id_of : Json → Option String
  pub canonical_json_bytes : Json → List ℕ
  pub fetch : String → Option ActorDoc
  pub now_ns : ℕ
  pub now_ms : Place → ℕ
  -- Whether the database answers there.
  pub is_up : Place → Bool
  pub is_processed : Json → Bool

-- The calls that leave the model.
pub data Effect (Json : Type 0) : Type 0 where
  upsert_actor_meta : (actor_url : String) (is_fedi3 : Bool) → Effect Json
  process_inbox_activity : (activity : Json) → Effect Json
  send_delivery_receipt : (actor_url public_key_pem activity_id : String) → Effect Json

pub record ApState (Json : Type 0) : Type 0 where
  pub social : SocialDb
  pub inbox_limiter : Limiter
  pub key_cache : Cache
  pub rate_limit_hits : ℕ
  -- The calls so far, the latest first.
  pub done : List (Effect Json)

pub record Response : Type 0 where
  pub status : ℕ
  pub text : String

abbrev pub reply : ℕ → String → Response
reply status text = record { status = status; text = text }

-- The first of the texts between commas.
abbrev pub first_of : List String → String
first_of [] = ""
first_of (p ∷ ps) = p

abbrev pub text_of : Option (Option String) → Option String
text_of none = none
text_of (some v) = v

abbrev pub unless_blank : Option String → Option String
unless_blank none = none
unless_blank (some v) = if is_empty (trim v) then none else some (trim v)

abbrev pub first_forwarded : Option String → Option String
first_forwarded none = none
first_forwarded (some v) = unless_blank (some (first_of (split (λ c. c == 44) v)))

abbrev pub or_else : Option String → Option String → Option String
or_else none later = later
or_else (some v) later = some v

unfoldable pub client_ip_from_headers : Headers → Option String
unfolding lookup trim split
client_ip_from_headers headers =
    or_else (first_forwarded (text_of (lookup (codes "x-forwarded-for") headers)))
      (unless_blank (text_of (lookup (codes "x-real-ip") headers)))

abbrev pub is_or_under : (suffix host : List ℕ) → Bool
is_or_under suffix host = codes_eq.beq host suffix || ends_with host (append (codes ".") suffix)

abbrev pub dotted_matches : (host p : List ℕ) → Option (List ℕ) → Bool
dotted_matches host p none = codes_eq.beq host p
dotted_matches host p (some suffix) = is_or_under suffix host

abbrev pub starred_matches : (host p : List ℕ) → Option (List ℕ) → Bool
starred_matches host p none = dotted_matches host p (strip_prefix p (codes "."))
starred_matches host p (some suffix) = is_or_under suffix host

unfoldable pub domain_matches : (host : List ℕ) (pattern : String) → Bool
unfolding trim_codes drop_while_end to_ascii_lowercase strip_prefix ends_with
domain_matches host pattern =
    let h = to_ascii_lowercase (trim_codes host) in
    let p = to_ascii_lowercase (drop_while_end (λ c. c == 46) (trim_codes (codes pattern))) in
    if codes_eq.beq p [] then false else starred_matches h p (strip_prefix p (codes "*."))

abbrev pub or_new_rate : Option InboxRate → InboxRate
or_new_rate none = record { window_start_ms = 0; reqs = 0; bytes = 0 }
or_new_rate (some st) = st

abbrev pub rate_renewed : (now : ℕ) → InboxRate → InboxRate
rate_renewed now st =
    if leb 60000 (now - st.window_start_ms)
    then record { window_start_ms = now; reqs = 0; bytes = 0 }
    else st

abbrev pub rate_counted : (bytes : ℕ) → InboxRate → InboxRate
rate_counted bytes st = record st {
  reqs = sat_add_u32 st.reqs 1;
  bytes = sat_add_u64 st.bytes bytes;
}

-- Past 50,000 entries those of ten minutes and more ago go.
unfoldable pub swept : (now : ℕ) → Limiter → Limiter
unfolding retain
swept now limiter =
    if ltb 50000 (length limiter)
    then retain (λ v. ltb (now - v.window_start_ms) (10 * 60000)) limiter
    else limiter

unfoldable pub inbox_rate_limit :
    InboxRateLimits → (now : ℕ) (key_id : String) (bytes : ℕ) → Limiter → Limiter × Bool
unfolding lookup insert swept
inbox_rate_limit limits now key_id bytes limiter =
    let st = rate_renewed now (or_new_rate (lookup key_id limiter)) in
    if ltb (max limits.max_reqs_per_min 1) (sat_add_u32 st.reqs 1)
    then (insert key_id st limiter, false)
    else if ltb (max limits.max_bytes_per_min 1024) (sat_add_u64 st.bytes bytes)
    then (insert key_id st limiter, false)
    else (swept now (insert key_id (rate_counted bytes st) limiter), true)

module _ {Json : Type 0} (w : World Json) where
  abbrev pub host_text : Option String → Option (List ℕ)
  host_text none = none
  host_text (some h) = some (to_ascii_lowercase (codes h))

  unfoldable pub host_from_url : String → Option (List ℕ)
  unfolding to_ascii_lowercase
  host_from_url url = host_text (w.uri_host url)

  unfoldable pub short_hash : List ℕ → String
  short_hash s = w.hex (take 8 (w.lib.sha256 s))

  unfoldable pub abuse_key_for_key_id : String → String
  unfolding short_hash
  abuse_key_for_key_id key_id = "key:" ++ short_hash (codes key_id)

  unfoldable pub abuse_key_for_actor : String → String
  unfolding short_hash
  abuse_key_for_actor actor_url = "actor:" ++ short_hash (codes actor_url)

  abbrev pub dedup_of : Json → Option String → String
  dedup_of activity none =
      "urn:fedi3:inbox:" ++ w.hex (w.lib.sha256 (w.canonical_json_bytes activity))
  dedup_of activity (some id) = id

  unfoldable pub activity_dedup_id : Json → String
  unfolding trim
  activity_dedup_id activity = dedup_of activity (unless_blank (w.id_of activity))

  abbrev pub receipt_of : (body : List ℕ) → Option String → String
  receipt_of [] none = ""
  receipt_of (c ∷ body) none = "urn:fedi3:activity:sha256:" ++ w.hex (w.lib.sha256 (c ∷ body))
  receipt_of body (some id) = id

  abbrev pub parsed_id : Option Json → Option String
  parsed_id none = none
  parsed_id (some v) = unless_blank (w.id_of v)

  -- `activity_id_from_bytes(…).unwrap_or_default()`.
  unfoldable pub activity_id_from_bytes : (body : List ℕ) → String
  unfolding trim
  activity_id_from_bytes body = receipt_of body (parsed_id (w.from_slice body))

  module _ (cfg : ApConfig) where
    abbrev pub is_blocked_host : Option (List ℕ) → Bool
    is_blocked_host none = false
    is_blocked_host (some host) = any (λ p. domain_matches host p) cfg.blocked_domains

    unfoldable pub is_blocked_actor : (actor_url : String) → SocialDb → Bool
    unfolding is_actor_blocked host_from_url domain_matches
    is_blocked_actor actor_url social =
        any (λ a. str_eq a actor_url) cfg.blocked_actors
        || (if w.is_up read_blocked then is_actor_blocked actor_url social else false)
        || is_blocked_host (host_from_url actor_url)
