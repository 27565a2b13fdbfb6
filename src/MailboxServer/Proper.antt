-- ===== src/MailboxServer/Proper.antt =====
-- What the answers of the mailbox server have in common, shown for each kind of answer.
use fedi.Base.{
  string_eq, codes_eq, ℕ, ◌≤◌, ◌≡◌, refl, sym, ap, ◌∙◌, Bool, true, not, ◌&&◌, ◌||◌, Option, none,
  some, List, [], ◌∷◌, String, str_eq, eq_iff, arith, ◌==◌, max, min, if◌then◌else◌, select,
  count_where, All,
}
use fedi.Rows.{OrderBy, delete_where}
use fedi.Rows.Retention.{select_kept, All-always, All-counted, count_where-select-le}
use fedi.Rows.Selection.{select_oldest-All, count_where-select_oldest-le}
use fedi.Mailbox.{
  MailboxMessage, Row, row_id, created_at, is_for, is_expired, is_message, read_rows, read_then,
  poll, ack,
}
use fedi.Mailbox.Reading.{ack_lem, is_acked, live, asked}
use fedi.MailboxServer.{
  Server, Wire, Body, error, put_ok, messages, deleted, RelayHttpResponse, polled, bad, ok,
}

abbrev pub messages_in : {Req : Type 0} → Body Req → List (MailboxMessage Req)
messages_in (error msg) = []
messages_in (put_ok id) = []
messages_in (messages ms) = ms
messages_in (deleted n) = []

abbrev pub is_put : String → Bool
is_put path = str_eq path "/.fedi3/mailbox/put"

-- The answers after which the table may have changed.
abbrev pub is_served : ℕ → Bool
is_served status = status == 200 || status == 502

-- A message for another peer that has not expired, for a request that is no put.
abbrev pub is_apart : (path peer : String) (now : ℕ) → Row → Bool
is_apart path peer now r = not (is_put path) && (not (is_for peer r) && not (is_expired now r))

module _ {Req : Type 0} (peer : String) (now : ℕ) (id path : String) (s : Server) where
  pub record IsProper (r : Server × RelayHttpResponse Req) : Type 0 where
    pub answered : r.1.id ≡ id
    pub refused : r.0.rows ≡ (if is_served r.1.status then r.0.rows else s.rows)
    pub isolated : select (is_apart path peer now) r.0.rows ≡ select (is_apart path peer now) s.rows
    pub own :
        All
          (λ (m : MailboxMessage Req). 1 ≤ count_where (is_message m.id peer) s.rows)
          (messages_in r.1.body)

  pub unchanged-IsProper :
      (t : Server) (status : ℕ) (msg : String) → t.rows ≡ s.rows → IsProper (t, bad id status msg)
  unchanged-IsProper t status msg e = record {
    answered = refl;
    refused = ground (arith, e);
    isolated = ap (select (is_apart path peer now)) e;
    own = tt;
  }

  pub put-IsProper :
      (t : Server) (msg_id : String) → is_put path ≡ true → IsProper (t, ok id (put_ok msg_id))
  put-IsProper t msg_id e = record {
    answered = refl;
    refused = refl;
    isolated = none_apart t.rows ∙ sym (none_apart s.rows);
    own = tt;
  }
    where
      none_apart : (rows : List Row) → select (is_apart path peer now) rows ≡ []
      none_apart [] = refl
      none_apart (r ∷ rows) = ground (arith, e, none_apart rows)

  pub ack-IsProper :
      (t : Server) (ids : List String)
      → t.rows ≡ (ack peer ids s.rows).0
      → (n : ℕ) → IsProper (t, ok id (deleted n))
  ack-IsProper t ids e n = record {
    answered = refl;
    refused = refl;
    isolated =
        ap (select (is_apart path peer now)) (e ∙ (ack_lem peer ids s.rows).0)
        ∙ select_kept (is_apart path peer now) (λ r. not (is_acked peer ids r)) s.rows
            (All-always _ s.rows (λ r h. ground (arith, h)));
    own = tt;
  }

module _ {Req : Type 0} (from_slice : List ℕ → Option Req) (Q : String → Type 0) where
  abbrev InMessages : Option (List (MailboxMessage Req)) → Type 0
  InMessages none = Unit
  InMessages (some ms) = All (λ m. Q m.id) ms

  read_then-All :
      (id : String) (o : Option Req) (rest : Option (List (MailboxMessage Req)))
      → Q id
      → InMessages rest
      → InMessages (read_then from_slice id o rest)
  read_then-All id none rest q h = tt
  read_then-All id (some req) none q h = tt
  read_then-All id (some req) (some ms) q h = (q, h)

  read_rows-All :
      (rows : List Row) → All (λ r. Q r.id) rows → InMessages (read_rows from_slice rows)
  unfolding read_rows
  read_rows-All [] h = tt
  read_rows-All (r ∷ rows) h =
      read_then-All r.id (from_slice r.req_json) (read_rows from_slice rows) h.0
        (read_rows-All rows h.1)

module _ {Req : Type 0} (db : OrderBy Row) (w : Wire Req) (peer : String) (now limit : ℕ)
    (id path : String) (s : Server) where
  abbrev result : List Row × Option (List (MailboxMessage Req))
  result = poll w.from_slice db now peer limit s.rows

  abbrev IsOwn : String → Type 0
  IsOwn k = 1 ≤ count_where (is_message k peer) s.rows

  -- The rows that are asked for are rows of the peer.
  asked-IsOwn : All (λ r. IsOwn r.id) (asked w.from_slice db now peer limit s.rows)
  asked-IsOwn =
      own (asked w.from_slice db now peer limit s.rows)
        (All-counted (asked w.from_slice db now peer limit s.rows))
        (select_oldest-All db row_id created_at (is_for peer) (min (max limit 1) 200)
          (live w.from_slice db now peer limit s.rows))
        (λ t. omega (
          arith,
          count_where-select_oldest-le db row_id created_at (is_for peer) (min (max limit 1) 200)
              (live w.from_slice db now peer limit s.rows) t,
          count_where-select-le t (λ r. not (is_expired now r)) s.rows,
        ))
    where
      own :
          (rs : List Row)
          → All
              (λ r.
                (t : Row → Bool)
                → t r ≡ true
                → 1 ≤ count_where t (asked w.from_slice db now peer limit s.rows))
              rs
          → All (λ r. is_for peer r ≡ true) rs
          → ((t : Row → Bool)
              → count_where t (asked w.from_slice db now peer limit s.rows) ≤ count_where t s.rows)
          → All (λ r. IsOwn r.id) rs
      own [] c f l = tt
      own (r ∷ rs) c f l = (
        omega (
          arith,
          l (is_message r.id peer),
          c.0 (is_message r.id peer) (ground (arith, f.0, eq_iff r.id r.id)),
        ),
        own rs c.1 f.1 l,
      )

  pub poll-IsProper : IsProper peer now id path s (record s { rows = result.0 }, polled id result.1)
  unfolding poll
  poll-IsProper =
      proper result.1
        (read_rows-All w.from_slice IsOwn (asked w.from_slice db now peer limit s.rows) asked-IsOwn)
    where
      unexpired :
          (rows : List Row)
          → select (is_apart path peer now) (delete_where (is_expired now) rows)
            ≡ select (is_apart path peer now) rows
      unexpired rows =
          select_kept (is_apart path peer now) (λ r. not (is_expired now r)) rows
            (All-always _ rows (λ r e. ground (arith, e)))

      proper :
          (o : Option (List (MailboxMessage Req)))
          → InMessages w.from_slice IsOwn o
          → IsProper peer now id path s (record s { rows = result.0 }, polled id o)
      proper none h = record {
        answered = refl;
        refused = refl;
        isolated = unexpired s.rows;
        own = tt;
      }
      proper (some ms) h = record {
        answered = refl;
        refused = refl;
        isolated = unexpired s.rows;
        own = h;
      }
