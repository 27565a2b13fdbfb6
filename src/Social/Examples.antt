-- ===== src/Social/Examples.antt =====
-- Runs of the guards, and the theorems at concrete inputs.
use fedi.Base.{ℕ, ◌+◌, ◌≤◌, ◌≡◌, refl, Bool, true, max, none, List, [], ◌∷◌, is_some, arith}
use fedi.Budget.{admitted_reqs, admitted_bytes}
use fedi.HashMap.{lookup}
use fedi.Text.{trim}
use fedi.Social.{SocialDb, abuse_check_blocked, mark_inbox_seen, prune_inbox_seen_before}
use fedi.Social.Guards.{Strike, strike_all, few_strikes, many_strikes}
use fedi.Social.Quotas.{QuotaAsk, Counts, ask, is_mine, bump_inbox_quota_bound}

abbrev social : SocialDb
social = record {
  inbox_seen = ("a", 5) ∷ ("b", 9) ∷ [];
  inbox_quota =
      ("k", record { window_start_ms = 1000; reqs = 4; bytes = 100; updated_at_ms = 2000 }) ∷ [];
  abuse_strikes = [];
  blocked_actors = [];
  audit_events = [];
}

prunes_old :
    let r = prune_inbox_seen_before 9 social in (r.0.inbox_seen ≡ ("b", 9) ∷ []) × (r.1 ≡ 1)
unfolding prune_inbox_seen_before
prunes_old = (refl, refl)

seen_before : (mark_inbox_seen 10 "a" social).1 ≡ Bool.false
unfolding mark_inbox_seen
seen_before = refl

abbrev at : ℕ → Strike
at now = record { now = now; abuse_key = "key:0d" }

abbrev nine : List Strike
nine = at 1 ∷ at 2 ∷ at 3 ∷ at 4 ∷ at 5 ∷ at 6 ∷ at 7 ∷ at 8 ∷ at 9 ∷ []

few_strikes_example : abuse_check_blocked 10 "key:0d" (strike_all nine social) ≡ none
unfolding trim lookup
few_strikes_example = few_strikes "key:0d" nine social 10 refl refl refl (ground arith)

many_strikes_example :
    is_some (abuse_check_blocked 3600000 "key:0d" (strike_all (at 0 ∷ nine) social)) ≡ true
unfolding trim lookup
many_strikes_example =
    many_strikes "key:0d" (at 0 ∷ nine) social 3600000 refl refl (ground arith) (ground arith)
      (ground arith) (ground arith)

abbrev asks : List QuotaAsk
asks =
    record { now = 3000; quota_key = "k"; bytes = 900 }
    ∷ record { now = 4000; quota_key = "j"; bytes = 5 }
    ∷ record { now = 5000; quota_key = "k"; bytes = 900 }
    ∷ []

row_is_counted : Counts 10000 5 1024 "k" 1000 4 100 social
unfolding lookup
row_is_counted = record {
  updated_at_ms = 2000;
  found = refl;
  reqs_ok = ground arith;
  bytes_ok = ground arith;
}

bump_inbox_quota_bound_example :
    (4
        + admitted_reqs
            (ask 10000 5 1024 "k" 1000)
            (is_mine 10000 5 1024 "k" 1000)
            (λ a. a.bytes)
            asks
            social
      ≤ max 5 1)
    × (100
          + admitted_bytes
              (ask 10000 5 1024 "k" 1000)
              (is_mine 10000 5 1024 "k" 1000)
              (λ a. a.bytes)
              asks
              social
        ≤ max 1024 1024)
bump_inbox_quota_bound_example =
    bump_inbox_quota_bound 10000 5 1024 "k" 1000 (ground arith) refl (ground arith) (ground arith) 4
      100 asks social row_is_counted (ground arith, (ground arith, (ground arith, tt)))
