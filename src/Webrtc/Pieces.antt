-- ===== src/Webrtc/Pieces.antt =====
-- What the sender puts on the channel: the slices of the payload, one after the other.
use fedi.Base.{
  ℕ, zero, suc, ◌+◌, ◌-◌, ◌≤◌, ◌<◌, ◌≡◌, refl, sym, ap, subst, ◌∙◌, true, some, List, [], ◌∷◌,
  arith, ltb, if◌then◌else◌, length, take, drop, length-take, length-drop, map, min, count_where,
  sum_by, All, inl, inr, Bool-cases, is_some, nat_eq, ◌==◌,
}
use mathlib.Core.Option
use fedi.Webrtc.{
  Chunk, build_frame, frames_from, too_large, sent, send_bytes_chunked, parse_frame, max_wire_bytes,
}
use fedi.Webrtc.Frames.{parse_frame-build_frame}
use fedi.Webrtc.Bounds.{size_of}
use fedi.Webrtc.Slices.{IsSlice, covers}
use fedi.Webrtc.Waiting.{frame_of}
use fedi.Webrtc.Arrivals.{IsPart, chunk_in, chunk_of}

module _ (msg_id payload : List ℕ) where
  abbrev size : ℕ
  size = length payload

  abbrev end_of : ℕ → ℕ
  end_of offset = min (offset + 12288) size

  abbrev piece_at : ℕ → Chunk
  piece_at offset = (offset, take (end_of offset - offset) (drop offset payload))

  abbrev pub pieces : (fuel offset : ℕ) → List Chunk
  pieces zero offset = []
  pieces (suc fuel) offset =
      if ltb offset size then piece_at offset ∷ pieces fuel (end_of offset) else []

  abbrev pub framed : Chunk → List ℕ
  framed c = build_frame msg_id size c.0 c.1

  frames_from-eq :
      (fuel offset : ℕ)
      → size ≤ offset + fuel
      → frames_from fuel offset msg_id payload ≡ some (map framed (pieces fuel offset))
  unfolding frames_from
  frames_from-eq zero offset h = ground (arith, h)
  frames_from-eq (suc fuel) offset h = elim (Bool-cases (ltb offset size)) [
    | inl t ↦ rw (t) (
        ap (Option.map (◌∷◌ (framed (piece_at offset))))
          (frames_from-eq fuel (end_of offset) (omega (arith, h))))
    | inr t ↦ rw (t) refl
  ]

  length-piece :
      (offset : ℕ)
      → length (take (end_of offset - offset) (drop offset payload)) ≡ end_of offset - offset
  length-piece offset = omega (
    arith,
    length-take (end_of offset - offset) (drop offset payload),
    length-drop offset payload,
  )

  sum-pieces :
      (fuel offset : ℕ) → size ≤ offset + fuel → sum_by size_of (pieces fuel offset) ≡ size - offset
  sum-pieces zero offset h = omega (arith, h)
  sum-pieces (suc fuel) offset h =
      ground (arith, h, length-piece offset, sum-pieces fuel (end_of offset))

  piece_at-IsSlice : (offset : ℕ) → offset < size → IsSlice payload (piece_at offset)
  piece_at-IsSlice offset h = record {
    within = omega (arith, h, length-piece offset);
    piece = ap (λ n. take n (drop offset payload)) (sym (length-piece offset));
    filled = omega (arith, h, length-piece offset);
  }

  pieces-AreSlices : (fuel offset : ℕ) → All (IsSlice payload) (pieces fuel offset)
  pieces-AreSlices zero offset = tt
  pieces-AreSlices (suc fuel) offset = elim (Bool-cases (ltb offset size)) [
    | inl t ↦
        rw (t) (piece_at-IsSlice offset (ground (arith, t)), pieces-AreSlices fuel (end_of offset))
    | inr t ↦ rw (t) tt
  ]

  pieces_cover :
      (fuel offset i : ℕ)
      → size ≤ offset + fuel
      → offset ≤ i
      → i < size
      → 1 ≤ count_where (covers i) (pieces fuel offset)
  pieces_cover zero offset i h l b = absurd (omega (arith, h, l, b))
  pieces_cover (suc fuel) offset i h l b =
      ground (arith, h, l, b, length-piece offset, pieces_cover fuel (end_of offset) i)

  pieces_after :
      (fuel offset k : ℕ) → k < offset → count_where (λ c. c.0 == k) (pieces fuel offset) ≡ 0
  pieces_after zero offset k h = refl
  pieces_after (suc fuel) offset k h = ground (arith, h, pieces_after fuel (end_of offset) k)

  -- No two pieces have one offset.
  pieces_once : (fuel offset k : ℕ) → count_where (λ c. c.0 == k) (pieces fuel offset) ≤ 1
  pieces_once zero offset k = omega arith
  pieces_once (suc fuel) offset k =
      ground (arith, pieces_once fuel (end_of offset) k, pieces_after fuel (end_of offset) k)

  frames-ArePieces :
      (fuel offset : ℕ)
      → length msg_id ≡ 16
      → size ≤ 2097152
      → All (IsPart msg_id payload) (map framed (pieces fuel offset))
  frames-ArePieces zero offset h l = tt
  frames-ArePieces (suc fuel) offset h l = elim (Bool-cases (ltb offset size)) [
    | inl t ↦
        let c = piece_at offset in
        let parsed : parse_frame (framed c) ≡ some (frame_of msg_id payload c) =
          parse_frame-build_frame (frame_of msg_id payload c) h (omega (arith, l))
            (ground (arith, t, l)) in
        let same : chunk_of (framed c) ≡ c = ap chunk_in parsed in
        rw (t) (
          record {
            parsed = parsed ∙ sym (ap (λ d. some (frame_of msg_id payload d)) same);
            slice =
                subst (IsSlice payload) (sym same) (piece_at-IsSlice offset (ground (arith, t)));
          },
          frames-ArePieces fuel (end_of offset) h l,
        )
    | inr t ↦ rw (t) tt
  ]

  map-chunk_of :
      (fuel offset : ℕ)
      → length msg_id ≡ 16
      → size ≤ 2097152
      → map chunk_of (map framed (pieces fuel offset)) ≡ pieces fuel offset
  map-chunk_of zero offset h l = refl
  map-chunk_of (suc fuel) offset h l = elim (Bool-cases (ltb offset size)) [
    | inl t ↦
        let c = piece_at offset in
        let same : chunk_of (framed c) ≡ c = ap chunk_in (
          parse_frame-build_frame (frame_of msg_id payload c) h (omega (arith, l))
            (ground (arith, t, l))) in
        rw (t) (
          ap (λ d. d ∷ map chunk_of (map framed (pieces fuel (end_of offset)))) same
          ∙ ap (◌∷◌ c) (map-chunk_of fuel (end_of offset) h l))
    | inr t ↦ rw (t) refl
  ]

  -- The frames of a message that is not too large.
  pub sent_frames : List (List ℕ)
  sent_frames = map framed (pieces size 0)

  pub send_bytes_chunked-eq :
      send_bytes_chunked msg_id payload
      ≡ some (if ltb max_wire_bytes size then too_large else sent sent_frames)
  unfolding send_bytes_chunked sent_frames
  send_bytes_chunked-eq = elim (Bool-cases (ltb max_wire_bytes size)) [
    | inl t ↦ rw (t) refl
    | inr t ↦ rw (t) (ap (Option.map sent) (frames_from-eq size 0 (omega arith)))
  ]

  -- The sender ends for every id and every payload.
  pub send_bytes_chunked-Ends : is_some (send_bytes_chunked msg_id payload) ≡ true
  send_bytes_chunked-Ends = ap is_some send_bytes_chunked-eq

  -- What the receiver needs of them.
  pub record AreComplete (frames : List (List ℕ)) : Type 0 where
    pub parts : All (IsPart msg_id payload) frames
    pub once : (k : ℕ) → count_where (λ c. c.0 == k) (map chunk_of frames) ≤ 1
    pub complete : sum_by size_of (map chunk_of frames) ≡ size
    pub covered : (i : ℕ) → i < size → 1 ≤ count_where (covers i) (map chunk_of frames)

  pub sent_frames-AreComplete : length msg_id ≡ 16 → size ≤ 2097152 → AreComplete sent_frames
  unfolding sent_frames
  sent_frames-AreComplete h l =
      let e = map-chunk_of size 0 h l in
      record {
        parts = frames-ArePieces size 0 h l;
        once = λ k. rw (e) (pieces_once size 0 k);
        complete = rw (e) (omega (arith, sum-pieces size 0 (omega arith)));
        covered = λ i b. rw (e) (pieces_cover size 0 i (omega arith) (omega arith) b);
      }
