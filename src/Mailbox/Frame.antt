-- ===== src/Mailbox/Frame.antt =====
-- What a delete by id leaves: the rows of other peers and of other ids.
use fedi.Base.{
  string_eq, ℕ, ◌≡◌, refl, Bool, true, false, not, ◌&&◌, List, [], ◌∷◌, String, str_eq, arith,
  select, eq_iff, sum_by, count_where, ◌-◌, ◌∙◌,
}
use fedi.Rows.{OrderBy, delete_where, has_id_in, select_oldest}
use fedi.Rows.Retention.{select_kept, All-always}
use fedi.Mailbox.{
  MailboxStore, Row, row_id, created_at, size_of, is_for, is_expired, is_message, delete_each,
  take_while_over, insert_or_replace, cap_count, cap_bytes, new_row, put,
}

select-cong :
    (p q : Row → Bool) (rows : List Row) → ((r : Row) → p r ≡ q r) → select p rows ≡ select q rows
select-cong p q [] h = refl
select-cong p q (r ∷ rows) h = ground (arith, h r, select-cong p q rows h)

select-select :
    (p q : Row → Bool) (rows : List Row) → select q (select p rows) ≡ select (λ r. p r && q r) rows
select-select p q [] = refl
select-select p q (r ∷ rows) = ground (arith, select-select p q rows)

select-always : (rows : List Row) → select (λ _. true) rows ≡ rows
select-always [] = refl
select-always (r ∷ rows) = ground (arith, select-always rows)

-- The deletes one after the other are one delete of the chosen ids.
pub delete_each-eq :
    (peer : String) (vs rows : List Row)
    → delete_each peer vs rows ≡ delete_where (λ r. is_for peer r && has_id_in row_id vs r) rows
unfolding delete_each
delete_each-eq peer [] rows = ground (
  arith,
  select-always rows,
  select-cong (λ r. not (is_for peer r && false)) (λ _. true) rows (λ r. ground arith),
)
delete_each-eq peer (v ∷ vs) rows = ground (
  arith,
  delete_each-eq peer vs (delete_where (is_message v.id peer) rows),
  select-select (λ r. not (is_message v.id peer r))
      (λ r. not (is_for peer r && has_id_in row_id vs r)) rows,
  select-cong (λ r. not (is_message v.id peer r) && not (is_for peer r && has_id_in row_id vs r))
      (λ r. not (is_for peer r && has_id_in row_id (v ∷ vs) r)) rows
      (λ r. ground (arith, eq_iff v.id r.id, eq_iff r.id v.id)),
)

-- Deleting a peer's messages keeps the rows of other peers.
delete_each-keeps :
    (peer : String) (q : Row → Bool) (vs rows : List Row)
    → ((r : Row) → q r ≡ true → is_for peer r ≡ false)
    → select q (delete_each peer vs rows) ≡ select q rows
delete_each-keeps peer q vs rows h =
    rw (delete_each-eq peer vs rows)
      (select_kept q _ rows (All-always _ rows (λ r e. ground (arith, h r e))))

module _ (db : OrderBy Row) (store : MailboxStore) where
  cap_count-keeps :
      (peer : String) (q : Row → Bool) (rows : List Row)
      → ((r : Row) → q r ≡ true → is_for peer r ≡ false)
      → select q (cap_count db store peer rows) ≡ select q rows
  unfolding cap_count
  cap_count-keeps peer q rows h =
      let n = count_where (is_for peer) rows - store.max_per_peer in
      ground (
        arith,
        delete_each-keeps peer q (select_oldest db row_id created_at (is_for peer) n rows) rows h,
      )

  cap_bytes-keeps :
      (peer : String) (q : Row → Bool) (rows : List Row)
      → ((r : Row) → q r ≡ true → is_for peer r ≡ false)
      → select q (cap_bytes db store peer rows) ≡ select q rows
  unfolding cap_bytes
  cap_bytes-keeps peer q rows h =
      let over = sum_by size_of (select (is_for peer) rows) - store.max_bytes_per_peer in
      delete_each-keeps peer q
        (take_while_over over (db.order created_at (select (is_for peer) rows))) rows h

  -- The messages for other peers that have not expired, less those with the id of the new message.
  abbrev pub is_untouched : (now : ℕ) (peer msg_id : String) → Row → Bool
  is_untouched now peer msg_id r =
      not (is_for peer r) && not (is_expired now r) && not (str_eq r.id msg_id)

  insert-keeps :
      (now : ℕ) (from_peer_id to_peer_id msg_id : String) (req_json : List ℕ) (ttl_secs : ℕ)
      (rows : List Row)
      → select (is_untouched now to_peer_id msg_id) (
          insert_or_replace
            (new_row store now from_peer_id to_peer_id msg_id req_json ttl_secs)
            rows)
        ≡ select (is_untouched now to_peer_id msg_id) rows
  unfolding insert_or_replace new_row
  insert-keeps now from_peer_id to_peer_id msg_id req_json ttl_secs rows = ground (
    arith,
    eq_iff to_peer_id to_peer_id,
    select_kept (is_untouched now to_peer_id msg_id) (λ r. not (str_eq r.id msg_id)) rows
        (All-always _ rows (λ r e. ground arith)),
  )

  -- A put neither removes nor changes nor reorders the unexpired messages for other peers whose id
  -- differs from that of the new message.
  pub put-keeps :
      (now : ℕ) (from_peer_id to_peer_id msg_id : String) (req_json : List ℕ) (ttl_secs : ℕ)
      (rows : List Row)
      → select
          (is_untouched now to_peer_id msg_id)
          (put db store now from_peer_id to_peer_id msg_id req_json ttl_secs rows)
        ≡ select (is_untouched now to_peer_id msg_id) rows
  unfolding put
  put-keeps now from_peer_id to_peer_id msg_id req_json ttl_secs rows =
      let q = is_untouched now to_peer_id msg_id in
      let row = new_row store now from_peer_id to_peer_id msg_id req_json ttl_secs in
      let inserted = insert_or_replace row rows in
      let live = delete_where (is_expired now) inserted in
      cap_bytes-keeps to_peer_id q (cap_count db store to_peer_id live) (λ r e. ground arith)
      ∙ cap_count-keeps to_peer_id q live (λ r e. ground arith)
      ∙ select_kept q (λ r. not (is_expired now r)) inserted
          (All-always _ inserted (λ r e. ground arith))
      ∙ insert-keeps now from_peer_id to_peer_id msg_id req_json ttl_secs rows
