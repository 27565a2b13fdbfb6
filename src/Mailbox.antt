-- ===== src/Mailbox.antt =====
-- The store-and-forward mailbox of crates/fedi3_p2p_infra/src/mailbox.rs. The table is a list of rows,
-- the clock reading an argument. The requests and their JSON are arguments: a type, `to_vec` and
-- `from_slice`. A statement of the store is taken to succeed; what fails is a message that `from_slice`
-- does not read.
pub mod Limits
pub mod Frame
pub mod Reading
mod Examples
use fedi.Base.{
  string_eq, ℕ, ◌-◌, ◌≤◌, ◌*◌, ◌+◌, Bool, true, false, not, ◌&&◌, Option, none, some, List, [], ◌∷◌,
  String, str_eq, ltb, leb, min, max, if◌then◌else◌, length, select, count_where, sum_by, u64_max,
  sat_add_i64, sat_mul_i64, take,
}
use fedi.Rows.{OrderBy, delete_where, select_oldest}

pub record MailboxStore : Type 0 where
  pub max_per_peer : ℕ
  pub max_bytes_per_peer : ℕ
  pub max_ttl_secs : ℕ

-- `MailboxStore::open`: the limits are clamped.
unfoldable pub open_store : (max_per_peer max_bytes_per_peer max_ttl_secs : ℕ) → MailboxStore
open_store max_per_peer max_bytes_per_peer max_ttl_secs = record {
  max_per_peer = max max_per_peer 1;
  max_bytes_per_peer = max max_bytes_per_peer 1024;
  max_ttl_secs = min (max max_ttl_secs 60) (30 * 24 * 3600);
}

-- A row of `mailbox_messages`.
pub record Row : Type 0 where
  pub id : String
  pub to_peer_id : String
  pub from_peer_id : String
  pub created_at_ms : ℕ
  pub expires_at_ms : ℕ
  pub size_bytes : ℕ
  pub req_json : List ℕ

abbrev pub row_id : Row → String
row_id r = r.id

abbrev pub created_at : Row → ℕ
created_at r = r.created_at_ms

abbrev pub size_of : Row → ℕ
size_of r = r.size_bytes

abbrev pub is_for : String → Row → Bool
is_for peer r = str_eq r.to_peer_id peer

abbrev pub is_expired : ℕ → Row → Bool
is_expired now r = leb r.expires_at_ms now

-- `DELETE … WHERE id = ? AND to_peer_id = ?`.
abbrev pub is_message : String → String → Row → Bool
is_message id peer r = str_eq r.id id && is_for peer r

-- One such `DELETE` for each of the chosen rows.
unfoldable pub delete_each : String → List Row → List Row → List Row
delete_each peer [] rows = rows
delete_each peer (v ∷ vs) rows = delete_each peer vs (delete_where (is_message v.id peer) rows)

-- The rows that the loop takes while the store is over its limit of bytes.
unfoldable pub take_while_over : ℕ → List Row → List Row
take_while_over over [] = []
take_while_over over (r ∷ rs) =
    let rest = take_while_over (over - r.size_bytes) rs in if ltb 0 over then r ∷ rest else []

-- `INSERT OR REPLACE`: the id is the primary key, whoever the message is for.
unfoldable pub insert_or_replace : Row → List Row → List Row
insert_or_replace row rows = row ∷ delete_where (λ r. str_eq r.id row.id) rows

unfoldable pub new_row :
    MailboxStore
    → (now : ℕ) (from_peer_id to_peer_id msg_id : String) (req_json : List ℕ) (ttl_secs : ℕ) → Row
new_row store now from_peer_id to_peer_id msg_id req_json ttl_secs =
    let ttl = min (min (max ttl_secs 60) store.max_ttl_secs) (30 * 24 * 3600) in
    record {
      id = msg_id;
      to_peer_id = to_peer_id;
      from_peer_id = from_peer_id;
      created_at_ms = now;
      expires_at_ms = sat_add_i64 now (sat_mul_i64 ttl 1000);
      size_bytes = length req_json;
      req_json = req_json;
    }

module _ (db : OrderBy Row) where
  unfoldable pub cap_count : MailboxStore → String → List Row → List Row
  unfolding delete_each select_oldest
  cap_count store peer rows =
      let count = count_where (is_for peer) rows in
      if ltb store.max_per_peer count
      then delete_each peer
          (select_oldest db row_id created_at (is_for peer) (count - store.max_per_peer) rows) rows
      else rows

  unfoldable pub cap_bytes : MailboxStore → String → List Row → List Row
  unfolding delete_each take_while_over
  cap_bytes store peer rows =
      let over = sum_by size_of (select (is_for peer) rows) - store.max_bytes_per_peer in
      delete_each peer (take_while_over over (db.order created_at (select (is_for peer) rows))) rows

  -- `put`, with the request as JSON.
  unfoldable pub put :
      MailboxStore
      → (now : ℕ) (from_peer_id to_peer_id msg_id : String) (req_json : List ℕ) (ttl_secs : ℕ)
      → List Row
      → List Row
  unfolding insert_or_replace cap_count cap_bytes new_row
  put store now from_peer_id to_peer_id msg_id req_json ttl_secs rows =
      let row = new_row store now from_peer_id to_peer_id msg_id req_json ttl_secs in
      let live = delete_where (is_expired now) (insert_or_replace row rows) in
      cap_bytes store to_peer_id (cap_count store to_peer_id live)

pub record MailboxMessage (Req : Type 0) : Type 0 where
  pub id : String
  pub req : Req

module _ {Req : Type 0} (from_slice : List ℕ → Option Req) where
  abbrev pub read_then :
      String → Option Req → Option (List (MailboxMessage Req)) → Option (List (MailboxMessage Req))
  read_then id none rest = none
  read_then id (some req) none = none
  read_then id (some req) (some rest) = some (record { id = id; req = req } ∷ rest)

  -- The first row that cannot be read has the whole call fail.
  unfoldable pub read_rows : List Row → Option (List (MailboxMessage Req))
  read_rows [] = some []
  read_rows (r ∷ rs) = read_then r.id (from_slice r.req_json) (read_rows rs)

  -- `poll`: the table afterwards and the messages.
  unfoldable pub poll :
      OrderBy Row
      → (now : ℕ) (for_peer_id : String) (limit : ℕ) → List Row
      → List Row × Option (List (MailboxMessage Req))
  unfolding read_rows select_oldest
  poll db now for_peer_id limit rows =
      let live = delete_where (is_expired now) rows in
      (
        live,
        read_rows
            (select_oldest db row_id created_at (is_for for_peer_id) (min (max limit 1) 200) live),
      )

-- The statements of `ack` in turn, with the number of rows that they deleted.
unfoldable pub ack : String → List String → List Row → List Row × ℕ
ack for_peer_id [] rows = (rows, 0)
ack for_peer_id (id ∷ ids) rows =
    let hit = is_message id for_peer_id in
    let rest = ack for_peer_id ids (delete_where hit rows) in
    (rest.0, count_where hit rows + rest.1)
