-- ===== src/Webrtc.antt =====
-- Messages over a WebRTC data channel, crates/fedi3_core/src/webrtc_p2p.rs: the frames, the sender
-- that cuts a message into chunks, and the assembler of the receiver. A byte is a number below 256.
pub mod Frames
pub mod Eviction
pub mod Bounds
pub mod Slices
pub mod Waiting
pub mod Arrivals
pub mod Pieces
pub mod Transfer
mod Examples
use fedi.Base.{
  codes_eq, nat_eq, ℕ, zero, suc, ◌+◌, ◌-◌, ◌*◌, ◌/◌, ◌%◌, Bool, true, false, not, ◌||◌, min,
  Option, none, some, List, [], ◌∷◌, ◌++◌, ltb, leb, ◌==◌, if◌then◌else◌, length, take, drop,
  sum_by, is_some, map, sat_add_u64,
}
use fedi.HashMap.{lookup, insert, remove, retain}
use fedi.Rows.{OrderBy}
use mathlib.Core.List.{Perm}
use mathlib.Core.Option

-- `u32::to_le_bytes`.
unfoldable pub to_le_bytes : ℕ → List ℕ
to_le_bytes n = n % 256 ∷ n / 256 % 256 ∷ n / 65536 % 256 ∷ n / 16777216 % 256 ∷ []

-- `u32::from_le_bytes`, of four bytes.
unfoldable pub from_le_bytes : List ℕ → ℕ
from_le_bytes [] = 0
from_le_bytes (b ∷ bs) = b + from_le_bytes bs * 256

unfoldable pub build_frame : (msg_id : List ℕ) (total_len offset : ℕ) (chunk : List ℕ) → List ℕ
unfolding to_le_bytes
build_frame msg_id total_len offset chunk =
    1 ∷ (msg_id ++ (to_le_bytes total_len ++ (to_le_bytes offset ++ chunk)))

-- What a frame says.
pub record Frame : Type 0 where
  pub msg_id : List ℕ
  pub total_len : ℕ
  pub offset : ℕ
  pub chunk : List ℕ

abbrev pub version_of : List ℕ → ℕ
version_of [] = 0
version_of (b ∷ bs) = b

unfoldable pub parse_frame : List ℕ → Option Frame
unfolding from_le_bytes
parse_frame bytes =
    if ltb (length bytes) 25
    then none
    else if not (version_of bytes == 1)
    then none
    else some (record {
      msg_id = take 16 (drop 1 bytes);
      total_len = from_le_bytes (take 4 (drop 17 bytes));
      offset = from_le_bytes (take 4 (drop 21 bytes));
      chunk = drop 25 bytes;
    })

abbrev pub hex_digit : ℕ → ℕ
hex_digit v = if ltb v 10 then 48 + v else 87 + v

unfoldable pub msg_id_hex : List ℕ → List ℕ
msg_id_hex [] = []
msg_id_hex (v ∷ id) = hex_digit (v / 16) ∷ hex_digit (v % 16) ∷ msg_id_hex id

abbrev pub Chunk : Type 0
Chunk = ℕ × List ℕ

pub record Assembly : Type 0 where
  pub total_len : ℕ
  pub received : ℕ
  pub chunks : List Chunk
  pub created_at_ms : ℕ

abbrev pub Parts : Type 0
Parts = List (List ℕ × Assembly)

abbrev pub created_of : List ℕ × Assembly → ℕ
created_of e = e.1.created_at_ms

-- The order in which `HashMap::iter` gives the chunks.
pub record ChunkOrder : Type 0 where
  pub iter : List Chunk → List Chunk
  pub iter-perm : (chunks : List Chunk) → Perm (iter chunks) chunks

abbrev pub max_wire_bytes : ℕ
max_wire_bytes = 2097152

abbrev pub max_inflight_assemblies : ℕ
max_inflight_assemblies = 64

unfoldable pub remove_all : List (List ℕ × Assembly) → Parts → Parts
remove_all [] parts = parts
remove_all (v ∷ vs) parts = remove_all vs (remove v.0 parts)

-- `keys.sort_by_key` keeps the order of the map for equal times: an argument.
unfoldable pub cleanup : OrderBy (List ℕ × Assembly) → (now : ℕ) → Parts → Parts
unfolding remove_all
cleanup db now parts =
    let kept = retain (λ a. ltb (now - a.created_at_ms) 60000) parts in
    if ltb max_inflight_assemblies (length kept)
    then remove_all (take (length kept - max_inflight_assemblies) (db.order created_of kept)) kept
    else kept

abbrev pub zeros : ℕ → List ℕ
zeros zero = []
zeros (suc n) = 0 ∷ zeros n

-- `out[off..off + n].copy_from_slice(&data[..n])`.
abbrev pub copy_at : (off n : ℕ) → List ℕ → List ℕ → List ℕ
copy_at off n bytes out = take off out ++ (take n bytes ++ drop (off + n) out)

-- The loop over the chunks: the buffer, and the number of bytes written.
unfoldable pub write_chunks : List Chunk → (out : List ℕ) (written : ℕ) → List ℕ × ℕ
write_chunks [] out written = (out, written)
write_chunks ((off, bytes) ∷ chunks) out written =
    let n = min (length out - off) (length bytes) in
    let rest = write_chunks chunks in
    if leb (length out) off
    then rest out written
    else rest (copy_at off n bytes out) (sat_add_u64 written n)

unfoldable pub reassemble : ChunkOrder → Assembly → Option (List ℕ)
unfolding write_chunks
reassemble order entry =
    let r = write_chunks (order.iter entry.chunks) (zeros entry.total_len) 0 in
    if ltb r.1 entry.total_len then none else some r.0

abbrev pub or_assembly : (total_len created : ℕ) → Option Assembly → Assembly
or_assembly total_len created none = record {
  total_len = total_len;
  received = 0;
  chunks = [];
  created_at_ms = created;
}
or_assembly total_len created (some entry) = entry

abbrev pub note_chunk : ℕ → List ℕ → Assembly → Assembly
note_chunk offset chunk entry = record entry {
  received = sat_add_u64 entry.received (length chunk);
  chunks = insert offset chunk entry.chunks;
}

-- The end of `ingest`: the assembly with its new chunk waits, or is put together and removed.
abbrev pub finish : ChunkOrder → (key : List ℕ) → Assembly → Parts → Option (List ℕ) × Parts
finish order key noted parts =
    if ltb noted.received noted.total_len
    then (none, insert key noted parts)
    else (reassemble order noted, remove key parts)

-- The part of `ingest` after the frame is parsed; `created` is the time that a new assembly gets.
unfoldable pub ingest_frame : ChunkOrder → (created : ℕ) → Frame → Parts → Option (List ℕ) × Parts
unfolding reassemble msg_id_hex
ingest_frame order created f parts =
    if f.total_len == 0 || ltb max_wire_bytes f.total_len
    then (none, parts)
    else if leb f.total_len f.offset
    then (none, parts)
    else let max_write = f.total_len - f.offset in
      let chunk = take (min (length f.chunk) max_write) f.chunk in
      let key = msg_id_hex f.msg_id in
      let entry = or_assembly f.total_len created (lookup key parts) in
      if not (entry.total_len == f.total_len)
      then (none, remove key parts)
      else if is_some (lookup f.offset entry.chunks)
      then (none, insert key entry parts)
      else finish order key (note_chunk f.offset chunk entry) parts

abbrev pub ingest_parsed :
    ChunkOrder → (created : ℕ) → Option Frame → Parts → Option (List ℕ) × Parts
ingest_parsed order created none parts = (none, parts)
ingest_parsed order created (some f) parts = ingest_frame order created f parts

unfoldable pub ingest :
    OrderBy (List ℕ × Assembly)
    → ChunkOrder
    → (now created : ℕ) → List ℕ
    → Parts
    → Option (List ℕ) × Parts
unfolding cleanup parse_frame ingest_frame
ingest db order now created bytes parts =
    ingest_parsed order created (parse_frame bytes) (cleanup db now parts)

-- The loop of the sender: the frames from `offset` on. Each takes a byte at least, so as many rounds
-- as the payload has bytes are enough.
unfoldable pub frames_from : (fuel offset : ℕ) (msg_id payload : List ℕ) → Option (List (List ℕ))
unfolding build_frame
frames_from zero offset msg_id payload = if ltb offset (length payload) then none else some []
frames_from (suc fuel) offset msg_id payload =
    let end = min (offset + 12288) (length payload) in
    let rest = frames_from fuel end msg_id payload in
    let frame =
      build_frame msg_id (length payload) offset (take (end - offset) (drop offset payload)) in
    if ltb offset (length payload) then Option.map (◌∷◌ frame) rest else some []

-- The result of `send_bytes_chunked` where the channel takes every frame.
pub data Sending : Type 0 where
  too_large : Sending
  sent : List (List ℕ) → Sending

unfoldable pub send_bytes_chunked : (msg_id payload : List ℕ) → Option Sending
unfolding frames_from
send_bytes_chunked msg_id payload =
    if ltb max_wire_bytes (length payload)
    then some too_large
    else Option.map sent (frames_from (length payload) 0 msg_id payload)
