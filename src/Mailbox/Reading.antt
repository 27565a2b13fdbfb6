-- ===== src/Mailbox/Reading.antt =====
-- What `poll` returns and what `ack` deletes.
use fedi.Base.{
  string_eq, ℕ, ◌≡◌, refl, ap, min, max, Bool, true, not, ◌&&◌, Option, some, List, [], ◌∷◌, String,
  str_eq, arith, is_some, length, any, count_where, map, inl, inr, Option-cases, All, ◌∙◌, sym, suc,
}
use fedi.Rows.{OrderBy, delete_where, select_oldest}
use fedi.Rows.Deletes.{delete_where-twice, count_where-twice, delete_where_none, count_where_never}
use fedi.Rows.Selection.{length-select_oldest, All-of_count, count_where-select_oldest-le}
use fedi.Rows.Retention.{count_where-select-le}
use fedi.Mailbox.{
  Row, row_id, created_at, is_for, is_expired, is_message, MailboxMessage, read_rows, poll, ack,
}

-- A row for the peer with one of the ids.
abbrev pub is_acked : String → List String → Row → Bool
is_acked peer ids r = is_for peer r && any (λ id. str_eq r.id id) ids

-- An ack deletes the messages of the peer that have one of the ids, no other row, and returns their
-- number.
pub ack_lem :
    (peer : String) (ids : List String) (rows : List Row)
    → ((ack peer ids rows).0 ≡ delete_where (is_acked peer ids) rows)
      × ((ack peer ids rows).1 ≡ count_where (is_acked peer ids) rows)
unfolding ack
ack_lem peer [] rows = (
  ground (arith, delete_where_none (is_acked peer []) rows (λ r. ground arith)),
  ground (arith, count_where_never (is_acked peer []) rows (λ r. ground arith)),
)
ack_lem peer (id ∷ ids) rows =
    let rest = ack_lem peer ids (delete_where (is_message id peer) rows) in
    (
      ground (
        arith,
        rest.0,
        delete_where-twice (is_message id peer) (is_acked peer ids) (is_acked peer (id ∷ ids)) rows
            (λ r. ground arith),
      ),
      ground (
        arith,
        rest.1,
        count_where-twice (is_message id peer) (is_acked peer ids) (is_acked peer (id ∷ ids)) rows
            (λ r. ground arith),
      ),
    )

module _ {Req : Type 0} (from_slice : List ℕ → Option Req) where
  abbrev pub is_readable : Row → Bool
  is_readable r = is_some (from_slice r.req_json)

  abbrev pub message_id : MailboxMessage Req → String
  message_id m = m.id

  -- Rows that can be read become the messages with their ids, in their order.
  read_rows-total :
      (rows : List Row)
      → All (λ r. is_readable r ≡ true) rows
      → (ms : List (MailboxMessage Req)) × ((read_rows from_slice rows ≡ some ms)
          × (map message_id ms ≡ map row_id rows))
  unfolding read_rows
  read_rows-total [] h = ([], (refl, refl))
  read_rows-total (r ∷ rows) h =
      let rest = read_rows-total rows h.1 in
      elim (Option-cases (from_slice r.req_json)) [
        | inl e ↦ ground (arith, e, h.0)
        | inr e ↦ (
          record { id = r.id; req = e.0 } ∷ rest.0,
          (rw (e.1, rest.1.0) refl, ap (◌∷◌ r.id) rest.1.1),
        )
      ]

  length-map_ids :
      (ms : List (MailboxMessage Req)) (rows : List Row)
      → map message_id ms ≡ map row_id rows
      → length ms ≡ length rows
  length-map_ids ms rows h = length-map_id ms ∙ ap length h ∙ sym (length-map_row rows)
    where
      length-map_id : (ms : List (MailboxMessage Req)) → length ms ≡ length (map message_id ms)
      length-map_id [] = refl
      length-map_id (m ∷ ms) = ap suc (length-map_id ms)

      length-map_row : (rows : List Row) → length rows ≡ length (map row_id rows)
      length-map_row [] = refl
      length-map_row (r ∷ rows) = ap suc (length-map_row rows)

  readable-none :
      (rows : List Row)
      → All (λ r. is_readable r ≡ true) rows
      → count_where (λ r. not (is_readable r)) rows ≡ 0
  readable-none [] h = refl
  readable-none (r ∷ rows) h = ground (arith, h.0, readable-none rows h.1)

  module _ (db : OrderBy Row) (now : ℕ) (peer : String) (limit : ℕ) (rows : List Row) where
    abbrev pub live : List Row
    live = delete_where (is_expired now) rows

    -- The rows that the poll asks for.
    abbrev pub asked : List Row
    asked = select_oldest db row_id created_at (is_for peer) (min (max limit 1) 200) live

    asked-readable : All (λ r. is_readable r ≡ true) rows → All (λ r. is_readable r ≡ true) asked
    asked-readable h =
        let bad : Row → Bool = λ r. not (is_readable r) in
        All-of_count is_readable asked (
          omega (
            arith,
            count_where-select_oldest-le db row_id created_at (is_for peer) (min (max limit 1) 200)
                live bad,
            count_where-select-le bad (λ r. not (is_expired now r)) rows,
            readable-none rows h,
          ))

    -- If every row can be read, a poll removes the expired rows alone and returns messages with the
    -- ids, in order, of the oldest rows for the peer: as many as there are, up to the limit held to
    -- 1 to 200.
    pub poll_lem :
        All (λ r. is_readable r ≡ true) rows
        → (ms : List (MailboxMessage Req)) × ((poll from_slice db now peer limit rows
              ≡ (live, some ms))
            × ((map message_id ms ≡ map row_id asked)
                × (length ms ≡ min (min (max limit 1) 200) (count_where (is_for peer) live))))
    unfolding poll
    poll_lem h =
        let read = read_rows-total asked (asked-readable h) in
        (
          read.0,
          (
            ap (λ o. (live, o)) read.1.0,
            (
              read.1.1,
              length-map_ids read.0 asked read.1.1
                  ∙ length-select_oldest db row_id created_at (is_for peer) (min (max limit 1) 200)
                      live,
            ),
          ),
        )
