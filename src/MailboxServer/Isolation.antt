-- ===== src/MailboxServer/Isolation.antt =====
-- What a peer can read and change through the handler.
use fedi.Base.{
  string_eq, codes_eq, ℕ, ◌*◌, ◌≤◌, ◌≡◌, refl, ap, ◌∙◌, Bool, true, false, not, ◌||◌, Option, none,
  some, List, String, str_eq, ltb, max, if◌then◌else◌, length, select, count_where, sum_by, All,
  if_cases,
}
use fedi.Text.{codes, trim, is_empty}
use fedi.Rows.{OrderBy}
use fedi.Mailbox.{MailboxStore, MailboxMessage, Row, is_message}
use fedi.MailboxServer.{
  PutLimiter, Server, Wire, RelayHttpRequest, RelayHttpResponse, MailboxPutReq, MailboxPollReq,
  MailboxAckReq, handle_put, handle_poll, handle_ack, handle_path, handle_body,
  handle_mailbox_request, bad, allow_put, or_value, to_ascii_uppercase, len_utf8,
}
use fedi.MailboxServer.Proper.{
  messages_in, is_put, is_served, is_apart, IsProper, unchanged-IsProper, put-IsProper,
  ack-IsProper, poll-IsProper,
}

module _ {Req : Type 0} (db : OrderBy Row) (store : MailboxStore) (limiter : PutLimiter)
    (mailbox_max_body_bytes : ℕ) (peer : String) (w : Wire Req) (req : RelayHttpRequest)
    (s : Server) where
  abbrev Proper : Server × RelayHttpResponse Req → Type 0
  Proper = IsProper peer w.now_store req.id req.path s

  same_table :
      (t : Server) (status : ℕ) (msg : String) → t.rows ≡ s.rows → Proper (t, bad req.id status msg)
  same_table = unchanged-IsProper peer w.now_store req.id req.path s

  handle_put-IsProper :
      is_put req.path ≡ true
      → (o : Option MailboxPutReq)
      → Proper (handle_put db store limiter mailbox_max_body_bytes peer w req.id o s)
  handle_put-IsProper e none = same_table s 400 "bad json" refl
  handle_put-IsProper e (some p) =
      let allowed = allow_put limiter w.now_limiter peer (length p.req_json) s.inner in
      if_cases Proper
        (is_empty (trim p.to_peer_id) || ltb 128 (sum_by len_utf8 (codes p.to_peer_id))) _ _
        (λ _. same_table s 400 "invalid to_peer_id" refl)
        (λ _.
          if_cases Proper (not allowed.0) _ _
            (λ _. same_table (record s { inner = allowed.1 }) 429 "rate limited" refl)
            (λ _. put-IsProper peer w.now_store req.id req.path s _ _ e))

  handle_poll-IsProper :
      (o : Option MailboxPollReq)
      → Proper (handle_poll db store limiter mailbox_max_body_bytes peer w req.id o s)
  handle_poll-IsProper none = same_table s 400 "bad json" refl
  handle_poll-IsProper (some p) =
      if_cases Proper (not (str_eq p.for_peer_id peer)) _ _
        (λ _. same_table s 403 "peer mismatch" refl)
        (λ _. poll-IsProper db w peer w.now_store (or_value 50 p.limit) req.id req.path s)

  handle_ack-IsProper :
      (o : Option MailboxAckReq)
      → Proper (handle_ack db store limiter mailbox_max_body_bytes peer w req.id o s)
  handle_ack-IsProper none = same_table s 400 "bad json" refl
  handle_ack-IsProper (some a) =
      if_cases Proper (not (str_eq a.for_peer_id peer)) _ _
        (λ _. same_table s 403 "peer mismatch" refl)
        (λ _. ack-IsProper peer w.now_store req.id req.path s _ a.ids refl _)

  handle_path-IsProper :
      (body : List ℕ)
      → Proper (handle_path db store limiter mailbox_max_body_bytes peer w req.id req.path body s)
  handle_path-IsProper body =
      if_cases Proper (str_eq req.path "/.fedi3/mailbox/put") _ _
        (λ e. handle_put-IsProper e (w.put_of body))
        (λ _.
          if_cases Proper (str_eq req.path "/.fedi3/mailbox/poll") _ _
            (λ _. handle_poll-IsProper (w.poll_of body))
            (λ _.
              if_cases Proper (str_eq req.path "/.fedi3/mailbox/ack") _ _
                (λ _. handle_ack-IsProper (w.ack_of body))
                (λ _. same_table s 404 "not found" refl)))

  handle_body-IsProper :
      (o : Option (List ℕ))
      → Proper (handle_body db store limiter mailbox_max_body_bytes peer w req.id req.path o s)
  handle_body-IsProper none = same_table s 400 "invalid body" refl
  handle_body-IsProper (some body) =
      if_cases Proper (ltb (max mailbox_max_body_bytes (8 * 1024)) (length body)) _ _
        (λ _. same_table s 413 "body too large" refl) (λ _. handle_path-IsProper body)

  abbrev pub result_of : Server × RelayHttpResponse Req
  result_of = handle_mailbox_request db store limiter mailbox_max_body_bytes peer w req s

  request-IsProper : Proper result_of
  unfolding handle_mailbox_request
  request-IsProper =
      if_cases Proper (not (codes_eq.beq (to_ascii_uppercase (codes req.method)) (codes "POST"))) _
        _ (λ _. same_table s 405 "method not allowed" refl)
        (λ _. handle_body-IsProper (w.decode req.body_b64))

  -- A request that is answered with another status than 200 and 502 leaves the table of messages as
  -- it was, and the answer has the id of the request.
  pub handle_mailbox_request_refused :
      is_served result_of.1.status ≡ false → (result_of.0.rows ≡ s.rows) × (result_of.1.id ≡ req.id)
  handle_mailbox_request_refused h =
      let p = request-IsProper in
      (p.refused ∙ ap (λ (c : Bool). if c then result_of.0.rows else s.rows) h, p.answered)

  -- Whatever a peer sends, unless it is a put, every unexpired message for other peers stays as it
  -- was, in place, and each message in an answer has the id of a message in the table that is for
  -- this peer.
  pub handle_mailbox_request_isolated :
      (select (is_apart req.path peer w.now_store) result_of.0.rows
        ≡ select (is_apart req.path peer w.now_store) s.rows)
      × All
          (λ (m : MailboxMessage Req). 1 ≤ count_where (is_message m.id peer) s.rows)
          (messages_in result_of.1.body)
  handle_mailbox_request_isolated = let p = request-IsProper in (p.isolated, p.own)
