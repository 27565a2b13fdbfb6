-- ===== src/Queue/Examples.antt =====
-- Runs of the delivery queue on small tables, and the theorems at concrete inputs.
use fedi.Base.{string_eq, ℕ, ◌≤◌, ◌≡◌, refl, true, false, none, some, List, [], ◌∷◌, arith, select}
use fedi.Text.{trim, contains}
use fedi.Rows.Insertion.{stable}
use fedi.NetMetrics.{new}
use fedi.Queue.{Job, QueueSettings, default_settings, delivered, dead, relay_wait}
use fedi.Queue.Backoff.{backoff_secs, next_backoff, backoff_secs_mono}
use fedi.Queue.Store.{cleanup_history, mark_delivered_by_receipt, new_job}
use fedi.Queue.Store.Cleanup.{is_open, cleanup_history-keeps}
use fedi.Queue.Store.Updates.{job_with}
use fedi.Queue.Failover.{QueueState, FailoverClock, should_prefer_relay}
use fedi.Queue.Failover.Preference.{should_prefer_relay_pressed}
use fedi.Queue.Process.{Env, found, failed, resolve_target, process_one}
use fedi.Queue.Process.Outcome.{Ends, process_one_frame, process_one-Ends}
use fedi.Queue.Process.Steps.{Step, found_gone, grouped, alone}

abbrev body : List ℕ
body = 123 ∷ 125 ∷ []

abbrev first_job : Job
first_job = new_job 1000 body "act-1" none ("a", "https://x.example/users/bob")

abbrev second_job : Job
second_job = record {
  id = "b";
  created_at_ms = 2000;
  next_attempt_at_ms = 2500;
  attempt = 3;
  status = relay_wait;
  target = "https://y.example/users/eve/inbox";
  activity_json = body;
  key_id = none;
  activity_id = some "act-2";
  last_error = some "p2p delivery failed";
}

abbrev old_job : Job
old_job = record second_job { id = "c"; status = delivered; created_at_ms = 500 }

abbrev older_job : Job
older_job = record second_job { id = "d"; status = dead; created_at_ms = 100 }

abbrev rows : List Job
rows = first_job ∷ second_job ∷ old_job ∷ older_job ∷ []

abbrev st : QueueState
st = record { jobs = rows; failover = []; net = new }

abbrev clock : FailoverClock
clock = record { start = 5000; at_rtt = 5001; at_wait = 5002; at_pressure = 5003 }

-- The network answers nothing: a peer is known, and every delivery fails.
abbrev silent : Env
silent = record {
  resolve_actor_info_signed = found (some "peer-1");
  resolve_actor_info = failed "timeout";
  failover_clock = clock;
  deliver_json_webrtc = false;
  deliver_json_p2p = false;
  build_signed_post = true;
  store_in_mailboxes = false;
  deliver_json = some "502 bad gateway";
  now_failover = 5010;
  now_store = 5011;
  random = 65535;
}

abbrev lost : Env
lost = record silent {
  resolve_actor_info_signed = failed "dns error";
  resolve_actor_info = failed "dns error";
}

abbrev tight : QueueSettings
tight = record default_settings { max_attempts = 2; max_history_rows = 1; delivered_ttl_secs = 0 }

backoff_secs_mono_example : backoff_secs 2 5 3600 ≤ backoff_secs 9 5 3600
backoff_secs_mono_example = backoff_secs_mono 2 9 5 3600 (omega arith)

next_backoff_run : next_backoff 3 5 3600 1234 ≡ 20234
unfolding next_backoff
next_backoff_run = refl

cleanup_history-keeps_example :
    select is_open (cleanup_history stable tight 9000 9000 rows) ≡ select is_open rows
unfolding new_job
cleanup_history-keeps_example =
    cleanup_history-keeps stable tight 9000 9000 rows
      ((refl, (refl, (refl, tt))), ((refl, (refl, tt)), ((refl, tt), (tt, tt))))

mark_delivered_by_receipt_run :
    (mark_delivered_by_receipt " act-2 " "https://y.example/users/eve" rows).1 ≡ 1
unfolding mark_delivered_by_receipt new_job trim
mark_delivered_by_receipt_run = refl

slow_st : QueueState
slow_st = record st { net = record new { p2p_rtt_ema_ms = 900 } }

should_prefer_relay_pressed_example :
    (should_prefer_relay default_settings clock "peer-1" slow_st).1 ≡ true
should_prefer_relay_pressed_example =
    should_prefer_relay_pressed default_settings clock "peer-1" slow_st (unfold slow_st in refl)
      (omega arith) (omega arith) (omega arith)

process_one_frame_example :
    job_with "b" (process_one default_settings silent first_job st).0.jobs ≡ job_with "b" rows
unfolding new_job
process_one_frame_example = process_one_frame default_settings silent first_job st "b" refl

process_one-Ends_example :
    Ends default_settings 1 first_job
      (job_with first_job.id (process_one default_settings silent first_job st).0.jobs)
unfolding new_job resolve_target contains
process_one-Ends_example =
    process_one-Ends default_settings silent first_job st (unfold job_with in refl)
      (unfold process_one in refl)

abbrev steps : List Step
steps =
    alone "a" silent
    ∷ grouped (some "502 bad gateway") (("b", silent) ∷ ("a", silent) ∷ [])
    ∷ found_gone "b"
    ∷ grouped none (("a", silent) ∷ [])
    ∷ []
