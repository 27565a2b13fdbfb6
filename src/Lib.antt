-- ===== src/Lib.antt =====
-- Fedi3: models of the parts that decide what happens to a message, with the theorems on them.
--
-- Fedi3 is a federated network: each user runs a core (crates/fedi3_core), which talks to other
-- users directly (WebRTC, a libp2p node), through mailboxes (crates/fedi3_p2p_infra), or through a
-- relay (crates/fedi3_relay) that holds a tunnel to the core and answers the web for it.
--
-- What is modelled, by file:
-- * Queue.antt and below: crates/fedi3_core/src/delivery_queue.rs, the durable queue of activities.
--   Queue.Store has the SQL statements on delivery_jobs (enqueue_activity_with_key_id,
--   fetch_due_jobs, mark_delivered, mark_dead, reschedule, schedule_relay_fallback,
--   mark_delivered_by_receipt, stats, cleanup_history), Queue.Backoff next_backoff, Queue.Failover the
--   map of peers for which the relay is preferred, Queue.Process the handling of one job
--   (process_one) and of a group (process_group_http), Queue.Process.Steps these and the end of a job
--   in the triage as steps in any order, Queue.Rounds a round of run_loop: the cleanup,
--   the fetch, and the triage of the jobs, with resolve_actor_cached. The queue calls the counters of
--   NetMetrics.
-- * NetMetrics.antt and below: crates/fedi3_core/src/net_metrics.rs, the gauges, the moving averages,
--   the maps of peers seen and the failover counters.
-- * Forward.antt and below: crates/fedi3_relay/src/main.rs, the guards on requests for a user.
--   Forward.Routes classifies paths, Forward.Circuit is the circuit breaker
--   (forward_retry_budget_allow, _failure, _success), Forward.Caches the negative cache, the cache of
--   unknown users, the quarantine of addresses and the windows that drop duplicates, Forward.Offline
--   what forward_to_user does with them.
-- * Mailbox.antt and below: crates/fedi3_p2p_infra/src/mailbox.rs (open, put, poll, ack).
-- * RateLimiter.antt and below: crates/fedi3_relay/src/main.rs, RateLimiter (check, check_weighted,
--   noisy_block_remaining, register_noisy).
-- * Spool.antt and below: crates/fedi3_relay/src/main.rs, the spool of deliveries for users who are
--   offline (enqueue_spool, list_spool, bump_spool_try, delete_spool_ids, cleanup_spool,
--   flush_spool_for_user, which reads the tunnel and the core's answers as arguments). Spool.Boxes is
--   the abstract view, one box per user.
-- * Webrtc.antt and below: crates/fedi3_core/src/webrtc_p2p.rs, messages in chunks (build_frame,
--   parse_frame, send_bytes_chunked, Assembler.cleanup and Assembler.ingest).
-- * MailboxServer.antt and below: crates/fedi3_p2p_infra/src/main.rs, RateLimiter (new, allow_put)
--   and handle_mailbox_request, which runs the operations of Mailbox.
-- * Access.antt and below: crates/fedi3_relay/src/main.rs, is_valid_username, constant_time_eq and the
--   address rules (is_ip_allowed, ip_in_rules, ip_in_cidr).
-- * HttpSig.antt and below: crates/fedi3_core/src/http_sig.rs (parse_signature_header,
--   verify_digest_if_present, ensure_supported_signature_algorithm, verify_signature_time_window,
--   build_signing_string) and verify_device_signature of crates/fedi3_core/src/ap.rs.
--   HttpSig.KeyResolver is the resolver of actor keys with its cache.
-- * Social.antt and below: crates/fedi3_core/src/social_db.rs, the tables that guard the inbox
--   (mark_inbox_seen, bump_inbox_quota, abuse_check_blocked, abuse_record_strike, is_actor_blocked,
--   insert_audit_event and three prunes).
-- * Inbox.antt and below: crates/fedi3_core/src/ap.rs, the handlers inbox and receipt_post with their
--   helpers (inbox_rate_limit, inbox_quota_limit, is_blocked_actor, domain_matches,
--   client_ip_from_headers, activity_dedup_id). Inbox.Steps says what a check is, Inbox.Checks has the
--   checks that both handlers make, Inbox.Handler and Inbox.Receipts the handlers. They use HttpSig,
--   Social and, for a receipt, the store of the Queue.
-- * HttpRetry.antt and below: crates/fedi3_core/src/http_retry.rs (send_with_retry and
--   send_with_retry_metrics, which counts in NetMetrics).
-- * Base, Text, HashMap, Rows and Budget are shared: numbers and lists, `str`, `HashMap`, SQL
--   tables as lists of rows, and limits on what calls in turn admit.
-- The tests and the examples of each part stand in its module Examples.
--
-- How the code is written here: a type that the code shares behind a lock is a state that each
-- operation takes and returns; an operation is one critical section or one call, and theorems on
-- several speak of any order of calls. A time is a number of milliseconds since the epoch, in
-- HttpSig of nanoseconds. Readings of the clock, random numbers, hashes and what the network
-- answers are arguments, so a theorem holds for all of them. Machine integers keep their width:
-- u32 and i64 sums saturate where the code says so and the counters wrap at 2 ^ 64; a difference
-- that is negative in the code is 0 here only where it is compared with a time or a window, with
-- the same answer. A statement of a store is taken to succeed, but in Inbox, where each may fail;
-- process_inbox_activity, upsert_actor_meta and the sending of a receipt are entered in a log there.
-- `ORDER BY` is an argument with what
-- SQL documents of it, so that no theorem rests on the order of equal keys; Rows.Insertion has an
-- instance.
--
-- The loops are structural recursion on lists, but for three that count down: the rounds of a flush
-- (Spool.flush_rounds) have one round more than the table has rows, the chunks of ids to delete
-- (Spool.delete_chunks) are at most as many as the ids, and the sender (Webrtc.frames_from) has as many
-- rounds as the payload has bytes. Each bound is proved to be enough, so none ever runs out. That the
-- queue ends is a theorem on the number of handlings of a job.
--
-- Not modelled: the wait of run_loop at the end of an idle round, the network I/O of deliveries, the
-- libp2p node, the connections and signalling of WebRTC, signing, what process_inbox_activity does
-- with an activity, canonical_json_bytes, the other HTTP handlers, the SQL of users, notes and media,
-- the relay mesh, cryptography, start-up, the Flutter application. These are I/O around libraries,
-- text of responses, or not done yet.
pub mod Base
pub mod Text
pub mod HashMap
pub mod Rows
pub mod NetMetrics
pub mod Queue
pub mod Forward
pub mod Mailbox
pub mod RateLimiter
pub mod HttpRetry
pub mod Spool
pub mod Access
pub mod Webrtc
pub mod MailboxServer
pub mod HttpSig
pub mod Social
pub mod Inbox
pub mod Budget
