-- ===== src/MailboxServer.antt =====
-- The mailbox server, crates/fedi3_p2p_infra/src/main.rs: its limit on puts, and the handler of a
-- request on top of the store of Mailbox. Base64, the JSON of the requests and the random id are
-- arguments; an answer is the value before it is written as JSON, and the text of an error of the
-- store is left out.
pub mod Budget
pub mod Proper
pub mod Isolation
mod Examples
use fedi.Base.{
  string_eq, codes_eq, ℕ, ◌+◌, ◌-◌, ◌*◌, Bool, true, false, not, ◌&&◌, ◌||◌, Option, none, some,
  List, [], ◌∷◌, String, str_eq, ltb, leb, max, if◌then◌else◌, length, map, sum_by, sat_add_u32,
  sat_add_u64,
}
use fedi.Text.{codes, trim, is_empty}
use fedi.HashMap.{lookup, insert}
use fedi.Rows.{OrderBy}
use fedi.Access.{len_utf8}
use fedi.Mailbox.{MailboxStore, MailboxMessage, Row, put, poll, ack}

pub record RateState : Type 0 where
  pub window_start_ms : ℕ
  pub puts : ℕ
  pub bytes : ℕ

-- The limits of the `RateLimiter` of this server.
pub record PutLimiter : Type 0 where
  pub max_puts_per_min : ℕ
  pub max_put_bytes_per_min : ℕ

unfoldable pub new_limiter : (max_puts_per_min max_put_bytes_per_min : ℕ) → PutLimiter
new_limiter max_puts_per_min max_put_bytes_per_min = record {
  max_puts_per_min = max max_puts_per_min 1;
  max_put_bytes_per_min = max max_put_bytes_per_min 1024;
}

abbrev pub RateStates : Type 0
RateStates = List (String × RateState)

abbrev pub or_default : Option RateState → RateState
or_default none = record { window_start_ms = 0; puts = 0; bytes = 0 }
or_default (some st) = st

abbrev pub renewed : (now : ℕ) → RateState → RateState
renewed now st =
    if leb 60000 (now - st.window_start_ms)
    then record { window_start_ms = now; puts = 0; bytes = 0 }
    else st

abbrev pub counted : (bytes : ℕ) → RateState → RateState
counted bytes st = record st { puts = sat_add_u32 st.puts 1; bytes = sat_add_u64 st.bytes bytes }

unfoldable pub allow_put :
    PutLimiter → (now : ℕ) (peer_id : String) (bytes : ℕ) → RateStates → Bool × RateStates
allow_put limiter now peer_id bytes inner =
    let st = renewed now (or_default (lookup peer_id inner)) in
    if ltb limiter.max_puts_per_min (sat_add_u32 st.puts 1)
    then (false, insert peer_id st inner)
    else if ltb limiter.max_put_bytes_per_min (sat_add_u64 st.bytes bytes)
    then (false, insert peer_id st inner)
    else (true, insert peer_id (counted bytes st) inner)

pub record RelayHttpRequest : Type 0 where
  pub id : String
  pub method : String
  pub path : String
  pub body_b64 : String

-- `req` of a put is its own id and its JSON.
pub record MailboxPutReq : Type 0 where
  pub to_peer_id : String
  pub req_id : String
  pub req_json : List ℕ
  pub ttl_secs : Option ℕ

pub record MailboxPollReq : Type 0 where
  pub for_peer_id : String
  pub limit : Option ℕ

pub record MailboxAckReq : Type 0 where
  pub for_peer_id : String
  pub ids : List String

pub data Body (Req : Type 0) : Type 0 where
  error : String → Body Req
  put_ok : String → Body Req
  messages : List (MailboxMessage Req) → Body Req
  deleted : ℕ → Body Req

pub record RelayHttpResponse (Req : Type 0) : Type 0 where
  pub id : String
  pub status : ℕ
  pub body : Body Req

-- What the server keeps: the limiter's windows and the table of messages.
pub record Server : Type 0 where
  pub inner : RateStates
  pub rows : List Row

-- The serde and Base64 of the code, and what the server reads of its surroundings in one request.
pub record Wire (Req : Type 0) : Type 0 where
  pub decode : String → Option (List ℕ)
  pub put_of : List ℕ → Option MailboxPutReq
  pub poll_of : List ℕ → Option MailboxPollReq
  pub ack_of : List ℕ → Option MailboxAckReq
  pub from_slice : List ℕ → Option Req
  pub random_id : String
  pub now_limiter : ℕ
  pub now_store : ℕ

-- `str::to_ascii_uppercase`.
abbrev pub to_ascii_uppercase : List ℕ → List ℕ
to_ascii_uppercase = map (λ c. if leb 97 c && leb c 122 then c - 32 else c)

abbrev pub or_value : ℕ → Option ℕ → ℕ
or_value d none = d
or_value d (some v) = v

module _ {Req : Type 0} where
  abbrev pub bad : String → ℕ → String → RelayHttpResponse Req
  bad id status msg = record { id = id; status = status; body = error msg }

  abbrev pub ok : String → Body Req → RelayHttpResponse Req
  ok id body = record { id = id; status = 200; body = body }

  abbrev pub polled : String → Option (List (MailboxMessage Req)) → RelayHttpResponse Req
  polled id none = bad id 502 "poll failed"
  polled id (some msgs) = ok id (messages msgs)

module _ {Req : Type 0} (db : OrderBy Row) (store : MailboxStore) (limiter : PutLimiter)
    (mailbox_max_body_bytes : ℕ) (from_peer_id : String) (w : Wire Req) where
  abbrev pub handle_put : String → Option MailboxPutReq → Server → Server × RelayHttpResponse Req
  handle_put id none s = (s, bad id 400 "bad json")
  handle_put id (some p) s =
      if is_empty (trim p.to_peer_id) || ltb 128 (sum_by len_utf8 (codes p.to_peer_id))
      then (s, bad id 400 "invalid to_peer_id")
      else let msg_id = if is_empty (trim p.req_id) then w.random_id else p.req_id in
        let allowed = allow_put limiter w.now_limiter from_peer_id (length p.req_json) s.inner in
        if not allowed.0 then (record s { inner = allowed.1 }, bad id 429 "rate limited") else (
          record {
            inner = allowed.1;
            rows =
                put db store w.now_store from_peer_id p.to_peer_id msg_id p.req_json
                  (or_value (7 * 24 * 3600) p.ttl_secs) s.rows;
          },
          ok id (put_ok msg_id),
        )

  abbrev pub handle_poll : String → Option MailboxPollReq → Server → Server × RelayHttpResponse Req
  handle_poll id none s = (s, bad id 400 "bad json")
  handle_poll id (some p) s =
      if not (str_eq p.for_peer_id from_peer_id)
      then (s, bad id 403 "peer mismatch")
      else let r = poll w.from_slice db w.now_store from_peer_id (or_value 50 p.limit) s.rows in
        (record s { rows = r.0 }, polled id r.1)

  abbrev pub handle_ack : String → Option MailboxAckReq → Server → Server × RelayHttpResponse Req
  handle_ack id none s = (s, bad id 400 "bad json")
  handle_ack id (some a) s =
      if not (str_eq a.for_peer_id from_peer_id)
      then (s, bad id 403 "peer mismatch")
      else let r = ack from_peer_id a.ids s.rows in (record s { rows = r.0 }, ok id (deleted r.1))

  -- The `match` on the path, with the decoded body.
  abbrev pub handle_path :
      String → (path : String) → List ℕ → Server → Server × RelayHttpResponse Req
  handle_path id path body s =
      if str_eq path "/.fedi3/mailbox/put"
      then handle_put id (w.put_of body) s
      else if str_eq path "/.fedi3/mailbox/poll"
      then handle_poll id (w.poll_of body) s
      else if str_eq path "/.fedi3/mailbox/ack"
      then handle_ack id (w.ack_of body) s
      else (s, bad id 404 "not found")

  abbrev pub handle_body :
      String → (path : String) → Option (List ℕ) → Server → Server × RelayHttpResponse Req
  handle_body id path none s = (s, bad id 400 "invalid body")
  handle_body id path (some body) s =
      if ltb (max mailbox_max_body_bytes (8 * 1024)) (length body)
      then (s, bad id 413 "body too large")
      else handle_path id path body s

  unfoldable pub handle_mailbox_request : RelayHttpRequest → Server → Server × RelayHttpResponse Req
  unfolding allow_put put poll ack
  handle_mailbox_request req s =
      if not (codes_eq.beq (to_ascii_uppercase (codes req.method)) (codes "POST"))
      then (s, bad req.id 405 "method not allowed")
      else handle_body req.id req.path (w.decode req.body_b64) s
