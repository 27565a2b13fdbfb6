-- ===== src/MailboxServer/Examples.antt =====
-- Runs of the mailbox server, and the theorems at concrete inputs.
use fedi.Base.{
  string_eq, ℕ, ◌+◌, ◌≤◌, ◌≡◌, refl, none, some, List, [], ◌∷◌, String, str_eq, arith,
  if◌then◌else◌, length, select, count_where, All, map,
}
use fedi.HashMap.{lookup, insert}
use fedi.Text.{trim}
use fedi.Rows.Insertion.{stable, sort_by}
use fedi.Mailbox.{MailboxStore, Row, row_id, is_message}
use fedi.MailboxServer.{
  PutLimiter, RateStates, RelayHttpRequest, Server, Wire, handle_mailbox_request,
}
use fedi.MailboxServer.Budget.{PutAsk, Counts, admitted_puts, admitted_bytes, allow_put_bound}
use fedi.MailboxServer.Proper.{is_apart, messages_in}
use fedi.MailboxServer.Isolation.{
  result_of, handle_mailbox_request_refused, handle_mailbox_request_isolated,
}

abbrev store : MailboxStore
store = record { max_per_peer = 10; max_bytes_per_peer = 100; max_ttl_secs = 3600 }

abbrev limiter : PutLimiter
limiter = record { max_puts_per_min = 2; max_put_bytes_per_min = 1024 }

abbrev bob_row : Row
bob_row = record {
  id = "m1";
  to_peer_id = "bob";
  from_peer_id = "ann";
  created_at_ms = 70000;
  expires_at_ms = 90000;
  size_bytes = 3;
  req_json = 1 ∷ 2 ∷ 3 ∷ [];
}

abbrev eve_row : Row
eve_row = record bob_row { id = "m2"; to_peer_id = "eve" }

abbrev server : Server
server = record { inner = []; rows = eve_row ∷ bob_row ∷ [] }

-- A body is one byte here, and says which request it is.
abbrev wire : Wire ℕ
wire = record {
  decode = λ text. if str_eq text "AA==" then some (0 ∷ []) else none;
  put_of = λ body.
      some (record { to_peer_id = "bob"; req_id = "m3"; req_json = 7 ∷ []; ttl_secs = none });
  poll_of = λ body. some (record { for_peer_id = "bob"; limit = none });
  ack_of = λ body. some (record { for_peer_id = "bob"; ids = "m1" ∷ "m2" ∷ [] });
  from_slice = λ bytes. some (length bytes);
  random_id = "mbx-1";
  now_limiter = 80000;
  now_store = 80000;
}

abbrev asks : (path : String) → RelayHttpRequest
asks path = record { id = "r1"; method = "post"; path = path; body_b64 = "AA==" }

put_adds :
    map row_id
      (result_of stable store limiter 0 "ann" wire (asks "/.fedi3/mailbox/put") server).0.rows
    ≡ "m3" ∷ "m2" ∷ "m1" ∷ []
unfolding handle_mailbox_request trim lookup insert sort_by
put_adds = refl

-- An ack of the ids of others deletes only the peer's own.
ack_own :
    map row_id
      (result_of stable store limiter 0 "bob" wire (asks "/.fedi3/mailbox/ack") server).0.rows
    ≡ "m2" ∷ []
unfolding handle_mailbox_request
ack_own = refl

handle_mailbox_request_refused_example :
    ((result_of stable store limiter 0 "eve" wire (asks "/.fedi3/mailbox/poll") server).0.rows
      ≡ server.rows)
    × ((result_of stable store limiter 0 "eve" wire (asks "/.fedi3/mailbox/poll") server).1.id
        ≡ "r1")
unfolding handle_mailbox_request
handle_mailbox_request_refused_example =
    handle_mailbox_request_refused stable store limiter 0 "eve" wire (asks "/.fedi3/mailbox/poll")
      server refl

handle_mailbox_request_isolated_example :
    let path : String = "/.fedi3/mailbox/poll" in
    (select
        (is_apart path "bob" 80000)
        (result_of stable store limiter 0 "bob" wire (asks path) server).0.rows
      ≡ select (is_apart path "bob" 80000) server.rows)
    × All
        (λ m. 1 ≤ count_where (is_message m.id "bob") server.rows)
        (messages_in (result_of stable store limiter 0 "bob" wire (asks path) server).1.body)
handle_mailbox_request_isolated_example =
    handle_mailbox_request_isolated stable store limiter 0 "bob" wire (asks "/.fedi3/mailbox/poll")
      server

abbrev windows : RateStates
windows = ("ann", record { window_start_ms = 70000; puts = 1; bytes = 20 }) ∷ []

abbrev three : List PutAsk
three =
    record { now = 80000; peer_id = "ann"; bytes = 5 }
    ∷ record { now = 81000; peer_id = "eve"; bytes = 5 }
    ∷ record { now = 82000; peer_id = "ann"; bytes = 5 }
    ∷ []

second_refused : admitted_puts limiter "ann" three windows ≡ 1
unfolding admitted_puts lookup insert
second_refused = refl

windows-Counts : Counts limiter "ann" 70000 1 20 windows
unfolding lookup
windows-Counts = record { found = refl; puts_ok = omega arith; bytes_ok = omega arith }

allow_put_bound_example :
    (1 + admitted_puts limiter "ann" three windows ≤ 2)
    × (20 + admitted_bytes limiter "ann" three windows ≤ 1024)
allow_put_bound_example =
    allow_put_bound limiter "ann" 70000 1 20 three windows (omega arith) (omega arith)
      windows-Counts (omega arith, (omega arith, (omega arith, tt)))
