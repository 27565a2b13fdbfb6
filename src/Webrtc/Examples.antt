-- ===== src/Webrtc/Examples.antt =====
-- Runs of the sender and of the assembler, and the theorems at concrete inputs.
use fedi.Base.{codes_eq, nat_eq, ℕ, ◌≤◌, ◌≡◌, refl, none, some, List, [], ◌∷◌, arith, length}
use fedi.HashMap.{lookup, insert, retain}
use fedi.Rows.Insertion.{stable, sort_by}
use fedi.Webrtc.{
  Parts, ChunkOrder, Frame, build_frame, parse_frame, ingest, send_bytes_chunked, sent, zeros,
  msg_id_hex,
}
use fedi.Webrtc.Bounds.{AreHeld, ingest-AreHeld}
use fedi.Webrtc.Arrivals.{Arrival, receive, completed_last}
use fedi.Webrtc.Transfer.{receive-send_bytes_chunked}
use mathlib.Core.List.Perm

abbrev as_stored : ChunkOrder
as_stored = record { iter = λ chunks. chunks; iter-perm = λ chunks. Perm.refl chunks }

abbrev msg_id : List ℕ
msg_id = 1 ∷ 2 ∷ 3 ∷ 4 ∷ 5 ∷ 6 ∷ 7 ∷ 8 ∷ 9 ∷ 10 ∷ 11 ∷ 12 ∷ 13 ∷ 14 ∷ 15 ∷ 255 ∷ []

abbrev small : Frame
small = record { msg_id = msg_id; total_len = 70000; offset = 300; chunk = 7 ∷ 8 ∷ [] }

abbrev small_bytes : List ℕ
small_bytes =
    1 ∷ 1 ∷ 2 ∷ 3 ∷ 4 ∷ 5 ∷ 6 ∷ 7 ∷ 8 ∷ 9 ∷ 10 ∷ 11 ∷ 12 ∷ 13 ∷ 14 ∷ 15 ∷ 255 ∷ 112 ∷ 17 ∷ 1 ∷ 0
    ∷ 44 ∷ 1 ∷ 0 ∷ 0 ∷ 7 ∷ 8 ∷ []

parses_small : parse_frame small_bytes ≡ some small
unfolding parse_frame
parses_small = refl

refuses_version : parse_frame (2 ∷ small_bytes) ≡ none
unfolding parse_frame
refuses_version = refl

-- Two frames that overlap: their bytes are as many as announced, so the message is given out, with
-- a zero where neither of them has a byte.
overlap_leaves_hole :
    (receive stable as_stored
      (record { now = 5; created = 5; bytes = build_frame msg_id 4 0 (1 ∷ 2 ∷ []) }
        ∷ record { now = 6; created = 6; bytes = build_frame msg_id 4 1 (2 ∷ 3 ∷ []) }
        ∷ [])
      []).0
    ≡ none ∷ some (1 ∷ 2 ∷ 3 ∷ 0 ∷ []) ∷ []
unfolding ingest build_frame lookup insert retain sort_by
overlap_leaves_hole = refl

-- A message of two frames.
abbrev payload : List ℕ
payload = zeros 12290

abbrev head_frame : List ℕ
head_frame = build_frame msg_id 12290 0 (zeros 12288)

abbrev tail_frame : List ℕ
tail_frame = build_frame msg_id 12290 12288 (zeros 2)

sends_two : send_bytes_chunked msg_id payload ≡ some (sent (head_frame ∷ tail_frame ∷ []))
unfolding send_bytes_chunked build_frame
sends_two = refl

ingest-AreHeld_example :
    AreHeld (ingest stable as_stored 5 5 tail_frame []).1
    × (length (ingest stable as_stored 5 5 tail_frame []).1 ≤ 65)
ingest-AreHeld_example = ingest-AreHeld stable as_stored 5 5 tail_frame [] tt

abbrev tail_first : Arrival
tail_first = record { now = 5; created = 6; bytes = tail_frame }

abbrev head_last : Arrival
head_last = record { now = 900; created = 901; bytes = head_frame }

abbrev no_parts : Parts
no_parts = []

nothing_kept : (key : List ℕ) → lookup key no_parts ≡ none
unfolding lookup
nothing_kept key = refl

receive-send_bytes_chunked_example :
    (receive stable as_stored (tail_first ∷ head_last ∷ []) []).0 ≡ completed_last 1 payload
receive-send_bytes_chunked_example =
    receive-send_bytes_chunked msg_id payload stable as_stored 1 (head_frame ∷ tail_frame ∷ [])
      tail_first (head_last ∷ []) [] refl sends_two (Perm.swap head_frame tail_frame [])
      (ground arith) tt (nothing_kept (msg_id_hex msg_id)) (omega arith)
