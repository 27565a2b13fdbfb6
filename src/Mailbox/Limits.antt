-- ===== src/Mailbox/Limits.antt =====
-- A put holds a peer's messages to the limits on their number and on their bytes.
use fedi.Base.{
  string_eq, ℕ, ◌+◌, ◌-◌, ◌≤◌, ◌≡◌, refl, ap, Bool, true, false, not, ◌&&◌, List, [], ◌∷◌, String,
  arith, ltb, if◌then◌else◌, select, count_where, sum_by, sum_by-perm, inl, inr, Bool-cases, eq_iff,
}
use fedi.Rows.{OrderBy, delete_where, delete_oldest, has_id_in, select_oldest}
use fedi.Rows.Retention.{count_where-delete_oldest, count_where-select-le}
use fedi.Mailbox.{
  MailboxStore, Row, row_id, created_at, size_of, is_for, is_expired, take_while_over, cap_count,
  cap_bytes, new_row, insert_or_replace, put,
}
use fedi.Mailbox.Frame.{delete_each-eq}

-- The bytes of the rows that pass a test.
abbrev bytes_of : (Row → Bool) → List Row → ℕ
bytes_of p = sum_by (λ r. if p r then r.size_bytes else 0)

bytes_of-select :
    (p q : Row → Bool) (rows : List Row)
    → bytes_of q (select p rows) ≡ bytes_of (λ r. p r && q r) rows
bytes_of-select p q [] = refl
bytes_of-select p q (r ∷ rows) = ground (arith, bytes_of-select p q rows)

bytes_of-le :
    (p q : Row → Bool) (rows : List Row)
    → ((r : Row) → p r ≡ true → q r ≡ true)
    → bytes_of p rows ≤ bytes_of q rows
bytes_of-le p q [] h = omega arith
bytes_of-le p q (r ∷ rows) h = ground (arith, h r, bytes_of-le p q rows h)

-- The rows that the loop leaves, in the order that it takes them.
abbrev rest_of : ℕ → List Row → List Row
rest_of over [] = []
rest_of over (r ∷ rs) = if ltb 0 over then rest_of (over - r.size_bytes) rs else r ∷ rs

-- The loop ends when the rows left are within the limit or none are.
rest_of-bytes :
    (over limit : ℕ) (rs : List Row)
    → sum_by size_of rs ≤ limit + over
    → sum_by size_of (rest_of over rs) ≤ limit
rest_of-bytes over limit [] h = omega arith
rest_of-bytes over limit (r ∷ rs) h = elim (Bool-cases (ltb 0 over)) [
  | inl t ↦ rw (t) (rest_of-bytes (over - r.size_bytes) limit rs (omega arith))
  | inr t ↦ rw (t) (ground (arith, t))
]

bytes_of-le-all : (p : Row → Bool) (rows : List Row) → bytes_of p rows ≤ sum_by size_of rows
bytes_of-le-all p [] = omega arith
bytes_of-le-all p (r ∷ rows) = ground (arith, bytes_of-le-all p rows)

-- A row that the loop takes has its id among the taken ones.
spared-rest :
    (over : ℕ) (rs : List Row)
    → bytes_of (λ r. not (has_id_in row_id (take_while_over over rs) r)) rs
      ≤ sum_by size_of (rest_of over rs)
unfolding take_while_over
spared-rest over [] = omega arith
spared-rest over (r ∷ rs) =
    let taken = take_while_over (over - r.size_bytes) rs in
    ground (
      arith,
      eq_iff r.id r.id,
      bytes_of-le-all (λ s. not false) rs,
      spared-rest (over - r.size_bytes) rs,
      bytes_of-le (λ s. not (has_id_in row_id (r ∷ taken) s)) (λ s. not (has_id_in row_id taken s))
          rs (λ s e. ground arith),
    )

sum_by-select :
    (p : Row → Bool) (rows : List Row) → sum_by size_of (select p rows) ≡ bytes_of p rows
sum_by-select p [] = refl
sum_by-select p (r ∷ rows) = ground (arith, sum_by-select p rows)

module _ (db : OrderBy Row) (store : MailboxStore) (peer : String) where
  cap_bytes_bound :
      (rows : List Row)
      → sum_by size_of (select (is_for peer) (cap_bytes db store peer rows))
        ≤ store.max_bytes_per_peer
  unfolding cap_bytes
  cap_bytes_bound rows =
      let chosen = select (is_for peer) rows in
      let ordered = db.order created_at chosen in
      let over = sum_by size_of chosen - store.max_bytes_per_peer in
      let taken = take_while_over over ordered in
      let spared : Row → Bool = λ r. not (has_id_in row_id taken r) in
      let kept : Row → Bool = λ r. not (is_for peer r && has_id_in row_id taken r) in
      omega (
        arith,
        ap (λ t. sum_by size_of (select (is_for peer) t)) (delete_each-eq peer taken rows),
        sum_by-select (is_for peer) (select kept rows),
        bytes_of-select kept (is_for peer) rows,
        bytes_of-le (λ r. kept r && is_for peer r) (λ r. is_for peer r && spared r) rows
            (λ r e. ground arith),
        bytes_of-select (is_for peer) spared rows,
        sum_by-perm (λ r. if spared r then r.size_bytes else 0) (db.order-perm created_at chosen),
        sum_by-perm size_of (db.order-perm created_at chosen),
        spared-rest over ordered,
        rest_of-bytes over store.max_bytes_per_peer ordered
            (omega (arith, sum_by-perm size_of (db.order-perm created_at chosen))),
      )

  cap_count_bound :
      (rows : List Row)
      → count_where (is_for peer) (cap_count db store peer rows) ≤ store.max_per_peer
  unfolding cap_count delete_oldest
  cap_count_bound rows =
      let n = count_where (is_for peer) rows - store.max_per_peer in
      ground (
        arith,
        ap (count_where (is_for peer))
            (delete_each-eq peer (select_oldest db row_id created_at (is_for peer) n rows) rows),
        count_where-delete_oldest db row_id created_at (is_for peer) (is_for peer) n rows
            (λ r e. e),
      )

  cap_bytes-count :
      (rows : List Row)
      → count_where (is_for peer) (cap_bytes db store peer rows) ≤ count_where (is_for peer) rows
  unfolding cap_bytes
  cap_bytes-count rows =
      let over = sum_by size_of (select (is_for peer) rows) - store.max_bytes_per_peer in
      let taken = take_while_over over (db.order created_at (select (is_for peer) rows)) in
      omega (
        arith,
        ap (count_where (is_for peer)) (delete_each-eq peer taken rows),
        count_where-select-le (is_for peer) (λ r. not (is_for peer r && has_id_in row_id taken r))
            rows,
      )

  -- After a put the messages for its recipient number at most max_per_peer and their sizes sum up
  -- to at most max_bytes_per_peer.
  pub put_limits :
      (now : ℕ) (from_peer_id msg_id : String) (req_json : List ℕ) (ttl_secs : ℕ) (rows : List Row)
      → (count_where
            (is_for peer)
            (put db store now from_peer_id peer msg_id req_json ttl_secs rows)
          ≤ store.max_per_peer)
        × (sum_by size_of (
              select
                (is_for peer)
                (put db store now from_peer_id peer msg_id req_json ttl_secs rows))
            ≤ store.max_bytes_per_peer)
  unfolding put
  put_limits now from_peer_id msg_id req_json ttl_secs rows =
      let row = new_row store now from_peer_id peer msg_id req_json ttl_secs in
      let live = delete_where (is_expired now) (insert_or_replace row rows) in
      (
        omega (arith, cap_bytes-count (cap_count db store peer live), cap_count_bound live),
        cap_bytes_bound (cap_count db store peer live),
      )
