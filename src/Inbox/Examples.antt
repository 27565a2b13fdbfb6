-- ===== src/Inbox/Examples.antt =====
-- Runs of the inbox, and the theorems at concrete requests.
use fedi.Base.{
  string_eq, codes_eq, ℕ, ◌+◌, ◌≤◌, ◌≡◌, refl, ◌⊎◌, true, false, max, Option, none, some, List, [],
  ◌∷◌, String, str_eq, if◌then◌else◌, length, arith, map,
}
use fedi.Budget.{admitted_reqs, admitted_bytes}
use fedi.Text.{trim, codes}
use fedi.HttpSig.{pos, Libraries, RequestParts}
use fedi.HttpSig.Verify.{nanos}
use fedi.HttpSig.KeyResolver.{ActorDoc}
use fedi.HashMap.{lookup}
use fedi.Rows.{update_where}
use fedi.Social.{abuse_check_blocked, SocialDb, row_struck}
use fedi.Inbox.{InboxRateLimits, Limiter, ApConfig, World, ApState, reply, domain_matches}
use fedi.Inbox.Checks.{audited, note_strike, limit, quota, read_signature, verify_sender, admit}
use fedi.Inbox.Steps.{next, guard, need, pass}
use fedi.Inbox.Handler.{authenticate, marked_seen, take_in, inbox}
use fedi.Inbox.Once.{Moment, runs_of, is_seen}
use fedi.Inbox.Runs.{Event, requested, run, processed_once}
use fedi.Queue.{Job, is_delivered, relay_wait}
use fedi.Queue.Store.{new_job, mark_delivered_by_receipt}
use fedi.Inbox.Receipts.{Receipt, ReceiptState, receipt_post, ConfirmedBy, receipt_post-ConfirmedBy}
use fedi.Inbox.Limits.{LimitAsk, Counts, ask, is_mine, inbox_rate_limit_bound}

-- Stand-ins: a signature is the length of what it signs, a digest the length of the body.
abbrev lib : Libraries
lib = record {
  decode = λ s.
      if str_eq s "MjQ=" then some (24 ∷ []) else (if str_eq s "Mg==" then some (2 ∷ []) else none);
  sha256 = λ body. length body ∷ [];
  verify = λ pem signing signature. codes_eq.beq (length signing ∷ []) signature;
  parse_http_date = λ date. none;
  parse_i64 = λ s. some (pos 1000);
  parse_f64_floor = λ s. none;
  header_name = λ name. some name;
}

abbrev doc : ActorDoc
doc = record {
  public_key = some (record { id = "https://a/u#k"; public_key_pem = "pem" });
  fedi3_peer_id = some "p1";
  endpoints = none;
}

abbrev moment : Moment String
moment = record {
  fetch = λ url. some doc;
  now_ns = nanos 1200;
  now_ms = λ call. 1200000;
  is_up = λ call. true;
  is_processed = λ activity. true;
}

-- An activity is its id.
abbrev world : World String
world = record {
  lib = lib;
  hex = λ bytes. if codes_eq.beq bytes (13 ∷ []) then "0d" else "00";
  uri_host = λ url. some "a";
  from_slice = λ body. some "https://a/1";
  id_of = λ activity. some activity;
  canonical_json_bytes = λ activity. codes activity;
  fetch = moment.fetch;
  now_ns = moment.now_ns;
  now_ms = moment.now_ms;
  is_up = moment.is_up;
  is_processed = moment.is_processed;
}

abbrev limits : InboxRateLimits
limits = record {
  max_reqs_per_min = 100;
  max_bytes_per_min = 4096;
  max_reqs_per_day = 100;
  max_bytes_per_day = 4096;
}

abbrev cfg : ApConfig
cfg = record {
  inbox_limits = limits;
  max_date_skew = nanos 300;
  blocked_actors = [];
  blocked_domains = "*.evil.example" ∷ [];
}

abbrev social : SocialDb
social = record {
  inbox_seen = [];
  inbox_quota = [];
  abuse_strikes = [];
  blocked_actors = [];
  audit_events = [];
}

abbrev fresh : ApState String
fresh = record {
  social = social;
  inbox_limiter = [];
  key_cache = [];
  rate_limit_hits = 0;
  done = [];
}

abbrev header : String
header = "keyId=\"https://a/u#k\",headers=\"(request-target)\",created=1000,signature=\"MjQ=\""

abbrev parts : RequestParts
parts = record {
  method = "GET";
  path = "/a";
  query = none;
  headers = (codes "signature", some header) ∷ (codes "digest", some "sha-256=Mg==") ∷ [];
}

abbrev body : Option (List ℕ)
body = some (7 ∷ 7 ∷ [])

accepted : (inbox world cfg parts body fresh).1 ≡ some (reply 202 "accepted")
unfolding inbox authenticate take_in marked_seen next guard need pass audited limit quota
    read_signature verify_sender admit
accepted = refl

-- The same request again.
duplicate :
    let s = (inbox world cfg parts body fresh).0 in
    (runs_of world "https://a/1" s ≡ 1)
    × ((inbox world cfg parts body s).1 ≡ some (reply 202 "duplicate"))
unfolding inbox authenticate take_in marked_seen next guard need pass audited limit quota
    read_signature verify_sender admit
duplicate = (refl, refl)

-- An activity whose processing fails is seen nevertheless: the sender, told of an error, sends it
-- again, and it is taken for a duplicate.
abbrev failing : World String
failing = record world { is_processed = λ activity. false }

lost_after_error :
    let r = inbox failing cfg parts body fresh in
    (r.1 ≡ some (reply 502 "processing error"))
    × ((inbox world cfg parts body r.0).1 ≡ some (reply 202 "duplicate"))
unfolding inbox authenticate take_in marked_seen next guard need pass audited limit quota
    read_signature verify_sender admit
lost_after_error = (refl, refl)

-- Ten requests with another signature in the name of the key, and its owner is refused.
abbrev forged : RequestParts
forged = record parts { path = "/longer" }

abbrev forge : ApState String → ApState String
forge s = (inbox world cfg forged body s).0

locked_out :
    let s = forge (forge (forge (forge (forge (forge (forge (forge (forge (forge fresh))))))))) in
    (inbox world cfg parts body s).1 ≡ some (reply 429 "rate limited")
unfolding inbox authenticate take_in marked_seen next guard need pass audited note_strike limit
    quota read_signature verify_sender admit row_struck
locked_out = refl

domains :
    map
      (λ h. domain_matches (codes h) "*.Evil.example.")
      ("evil.example" ∷ "a.evil.example" ∷ "devil.example" ∷ [])
    ≡ true ∷ true ∷ false ∷ []
unfolding domain_matches
domains = refl

abbrev events : List (Event String)
events = requested moment parts body ∷ requested moment parts body ∷ []

processed_once_example :
    runs_of world "https://a/1" (run world cfg events fresh)
    ≤ (if is_seen world "https://a/1" (run world cfg events fresh) then 1 else 0)
processed_once_example = processed_once world cfg events fresh "https://a/1" refl

abbrev limiter : Limiter
limiter = ("k", record { window_start_ms = 60000; reqs = 99; bytes = 4000 }) ∷ []

abbrev asks : List LimitAsk
asks =
    record { now = 60001; key_id = "k"; bytes = 90 }
    ∷ record { now = 60002; key_id = "j"; bytes = 5 }
    ∷ record { now = 60003; key_id = "k"; bytes = 1 }
    ∷ []

window_is_counted : Counts limits "k" 60000 99 4000 limiter
unfolding lookup
window_is_counted = record {
  unique = (refl, tt);
  found = refl;
  reqs_ok = ground arith;
  bytes_ok = ground arith;
}

inbox_rate_limit_bound_example :
    (99
        + admitted_reqs
            (ask limits "k" 60000)
            (is_mine limits "k" 60000)
            (λ a. a.bytes)
            asks
            limiter
      ≤ max limits.max_reqs_per_min 1)
    × (4000
          + admitted_bytes
              (ask limits "k" 60000)
              (is_mine limits "k" 60000)
              (λ a. a.bytes)
              asks
              limiter
        ≤ max limits.max_bytes_per_min 1024)
inbox_rate_limit_bound_example =
    inbox_rate_limit_bound limits "k" 60000 (ground arith) (ground arith) 99 4000 asks limiter
      window_is_counted (ground arith, (ground arith, (ground arith, tt)))

abbrev job : Job
job = record (new_job 1000 [] "https://a/9" none ("j1", "https://a/u")) { status = relay_wait }

abbrev receipt : Receipt
receipt = record {
  activity_of = λ bytes. some "https://a/9";
  show_count = λ n. "1";
  ok_body = λ n. "ok";
  is_queue_up = true;
}

abbrev with_job : ReceiptState String
with_job = record { server = fresh; jobs = job ∷ [] }

receipt_delivers :
    map (λ j. is_delivered j) (receipt_post world receipt cfg parts body with_job).0.jobs
    ≡ true ∷ []
unfolding receipt_post next guard need pass audited read_signature verify_sender new_job
    mark_delivered_by_receipt abuse_check_blocked update_where trim
receipt_delivers = refl

refuses_forgery :
    (receipt_post world receipt cfg forged body with_job).1 ≡ some (reply 401 "invalid signature")
unfolding receipt_post next guard need pass audited note_strike read_signature verify_sender new_job
    mark_delivered_by_receipt row_struck abuse_check_blocked
refuses_forgery = refl

receipt_post-ConfirmedBy_example :
    let after = (receipt_post world receipt cfg parts body with_job).0.jobs in
    (after ≡ with_job.jobs) ⊎ ConfirmedBy world receipt cfg parts body with_job after
receipt_post-ConfirmedBy_example = receipt_post-ConfirmedBy world receipt cfg parts body with_job
