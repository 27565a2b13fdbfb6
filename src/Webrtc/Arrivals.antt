-- ===== src/Webrtc/Arrivals.antt =====
-- The frames of one message as they arrive, in any order: only the last one completes it.
use fedi.Base.{
  codes_eq, nat_eq, ℕ, zero, suc, ◌+◌, ◌≤◌, ◌<◌, ◌≡◌, sym, ap, subst, ◌∙◌, true, false, Option,
  none, some, List, [], ◌∷◌, arith, ◌==◌, length, map, any, count_where, count_where-perm, sum_by,
  sum_by-perm, is_some, All, inl, inr, Bool-cases,
}
use fedi.HashMap.{lookup}
use fedi.Rows.{OrderBy}
use fedi.Rows.Retention.{HasUniqueIds, any_all_none}
use fedi.Webrtc.{
  Chunk, Assembly, Parts, ChunkOrder, Frame, parse_frame, ingest, ingest_parsed, ingest_frame,
  cleanup, reassemble,
}
use fedi.Webrtc.Bounds.{size_of}
use fedi.Webrtc.Slices.{IsSlice, covers, write_chunks-eq}
use fedi.Webrtc.Waiting.{
  Waits, held, frame_of, time_of, cleanup-Waits, ingest_frame-Waits, ingest_frame_last,
}
use mathlib.Core.List.{Permᴰ}
use mathlib.Core.Logic.{∥∥₁_elim}

-- A frame that the channel hands over, and the clock as `ingest` reads it.
pub record Arrival : Type 0 where
  pub now : ℕ
  pub created : ℕ
  pub bytes : List ℕ

-- The clock stays within a minute of `start`.
abbrev pub IsTimely : (start : ℕ) → Arrival → Type 0
IsTimely start a = (start ≤ a.created) × (a.now < start + 60000)

abbrev pub bytes_of : Arrival → List ℕ
bytes_of a = a.bytes

module _ (db : OrderBy (List ℕ × Assembly)) (order : ChunkOrder) where
  -- What `ingest` returns for one frame after the other, and what is left.
  abbrev pub receive : List Arrival → Parts → List (Option (List ℕ)) × Parts
  receive [] parts = ([], parts)
  receive (a ∷ later) parts =
      let r = ingest db order a.now a.created a.bytes parts in
      let rest = receive later r.1 in (r.0 ∷ rest.0, rest.1)

-- Nothing for each frame but the last, which gives the message.
abbrev pub completed_last : ℕ → List ℕ → List (Option (List ℕ))
completed_last zero payload = some payload ∷ []
completed_last (suc n) payload = none ∷ completed_last n payload

abbrev pub chunk_in : Option Frame → Chunk
chunk_in none = (0, [])
chunk_in (some f) = (f.offset, f.chunk)

abbrev pub chunk_of : List ℕ → Chunk
chunk_of bytes = chunk_in (parse_frame bytes)

abbrev pub offset_of : Chunk → ℕ
offset_of c = c.0

pub All-Permᴰ {ℓ κ} :
    {A : Type ℓ} (P : A → Type κ) {xs ys : List A} → Permᴰ xs ys → All P ys → All P xs
All-Permᴰ P Permᴰ.nil h = h
All-Permᴰ P (Permᴰ.cons e r) h = (subst P (sym e) h.0, All-Permᴰ P r h.1)
All-Permᴰ P (Permᴰ.swap e f) h = (subst P (sym e) h.1.0, (subst P (sym f) h.0, h.1.1))
All-Permᴰ P (Permᴰ.trans r s) h = All-Permᴰ P r (All-Permᴰ P s h)

module _ (msg_id payload : List ℕ) where
  -- The bytes are a frame of the message.
  pub record IsPart (bytes : List ℕ) : Type 0 where
    pub parsed : parse_frame bytes ≡ some (frame_of msg_id payload (chunk_of bytes))
    pub slice : IsSlice payload (chunk_of bytes)

  reassemble-held :
      (order : ChunkOrder) (chunks : List Chunk) (at : ℕ)
      → All (IsSlice payload) chunks
      → ((i : ℕ) → i < length payload → 1 ≤ count_where (covers i) chunks)
      → sum_by size_of chunks ≡ length payload
      → length payload ≤ 2097152
      → reassemble order (held msg_id payload chunks at) ≡ some payload
  unfolding reassemble
  reassemble-held order chunks at h c s l = ∥∥₁_elim (order.iter-perm chunks) (hlevel) (λ r.
      let sum = sum_by-perm size_of (order.iter-perm chunks) in
      let covered : (i : ℕ) → i < length payload → any (covers i) (order.iter chunks) ≡ true =
        λ i b. elim (Bool-cases (any (covers i) (order.iter chunks))) [
          | inl t ↦ t
          | inr t ↦ absurd (
              omega (
                arith,
                c i b,
                any_all_none (covers i) (order.iter chunks) t,
                count_where-perm (covers i) (order.iter-perm chunks),
              ))
        ] in
      ground (
        arith,
        s,
        sum,
        write_chunks-eq payload (order.iter chunks) (All-Permᴰ (IsSlice payload) r h) covered
            (omega (arith, sum, s, l)),
      ))

  -- What is needed of the frames to come, and of the chunks that are there.
  pub record Fits (frames : List (List ℕ)) (chunks : List Chunk) : Type 0 where
    pub parts : All IsPart frames
    pub slices : All (IsSlice payload) chunks
    pub unique : HasUniqueIds offset_of (map chunk_of frames)
    pub fresh : All (λ c. is_some (lookup c.0 chunks) ≡ false) (map chunk_of frames)
    pub complete : sum_by size_of (map chunk_of frames) + sum_by size_of chunks ≡ length payload
    pub covered :
        (i : ℕ)
        → i < length payload
        → 1 ≤ count_where (covers i) (map chunk_of frames) + count_where (covers i) chunks

  -- One frame of several has come.
  Fits-tail :
      (bytes : List ℕ) (frames : List (List ℕ)) (chunks : List Chunk)
      → Fits (bytes ∷ frames) chunks
      → Fits frames (chunk_of bytes ∷ chunks)
  unfolding lookup
  Fits-tail bytes frames chunks w = record {
    parts = w.parts.1;
    slices = (w.parts.0.slice, w.slices);
    unique = w.unique.1;
    fresh = All-both (map chunk_of frames) w.unique.0 w.fresh.1;
    complete = omega (arith, w.complete);
    covered = λ i b. omega (arith, w.covered i b);
  }
    where
      All-both :
          (cs : List Chunk)
          → All (λ c. (offset_of (chunk_of bytes) == offset_of c) ≡ false) cs
          → All (λ c. is_some (lookup c.0 chunks) ≡ false) cs
          → All (λ c. is_some (lookup c.0 (chunk_of bytes ∷ chunks)) ≡ false) cs
      All-both [] h g = tt
      All-both (c ∷ cs) h g = (ground (arith, h.0, g.0), All-both cs h.1 g.1)

module _ (db : OrderBy (List ℕ × Assembly)) (order : ChunkOrder) (msg_id payload : List ℕ)
    (start : ℕ) where
  module _ (a : Arrival) (chunks : List Chunk) (at : ℕ) (parts : Parts) where
    abbrev kept : Parts
    kept = cleanup db a.now parts

    ingest_part :
        IsPart msg_id payload a.bytes
        → ingest db order a.now a.created a.bytes parts
          ≡ ingest_frame order a.created (frame_of msg_id payload (chunk_of a.bytes)) kept
    unfolding ingest
    ingest_part p = ap (λ o. ingest_parsed order a.created o kept) p.parsed

    kept-Waits :
        start ≤ at
        → IsTimely start a
        → Waits msg_id payload chunks at parts
        → Waits msg_id payload chunks at kept
    kept-Waits l t w =
        cleanup-Waits msg_id payload db a.now at chunks parts (omega (arith, t.1, l)) w

    last_part :
        start ≤ at
        → IsTimely start a
        → Waits msg_id payload chunks at parts
        → length payload ≤ 2097152
        → Fits msg_id payload (a.bytes ∷ []) chunks
        → (ingest db order a.now a.created a.bytes parts).0 ≡ some payload
    last_part l t w m f =
        let c = chunk_of a.bytes in
        let all = Fits-tail msg_id payload a.bytes [] chunks f in
        ap (λ r. r.0)
          (ingest_part f.parts.0
            ∙ ingest_frame_last msg_id payload order a.created at c chunks kept (kept-Waits l t w)
                f.parts.0.slice f.fresh.0 m (omega (arith, all.complete)))
        ∙ reassemble-held msg_id payload order (c ∷ chunks)
            (time_of msg_id payload chunks a.created at) all.slices
            (λ i b. omega (arith, all.covered i b)) (omega (arith, all.complete)) m

    next_part :
        (b : List ℕ) (later : List (List ℕ))
        → start ≤ at
        → IsTimely start a
        → Waits msg_id payload chunks at parts
        → length payload ≤ 2097152
        → Fits msg_id payload (a.bytes ∷ b ∷ later) chunks
        → ((ingest db order a.now a.created a.bytes parts).0 ≡ none)
          × Waits msg_id payload
              (chunk_of a.bytes ∷ chunks)
              (time_of msg_id payload chunks a.created at)
              (ingest db order a.now a.created a.bytes parts).1
    next_part b later l t w m f =
        let c = chunk_of a.bytes in
        subst
          (λ r.
            (r.0 ≡ none)
            × Waits msg_id payload (c ∷ chunks) (time_of msg_id payload chunks a.created at) r.1)
          (sym (ingest_part f.parts.0))
          (ingest_frame-Waits msg_id payload order a.created at c chunks kept (kept-Waits l t w)
            f.parts.0.slice f.fresh.0 m (omega (arith, f.complete, f.parts.1.0.slice.filled)))

    time_of-le : start ≤ at → IsTimely start a → start ≤ time_of msg_id payload chunks a.created at
    time_of-le l t = time_le chunks
      where
        time_le : (cs : List Chunk) → start ≤ time_of msg_id payload cs a.created at
        time_le [] = t.0
        time_le (c ∷ cs) = l

  pub receive-Waits :
      (a : Arrival) (later : List Arrival) (chunks : List Chunk) (at : ℕ) (parts : Parts)
      → start ≤ at
      → All (IsTimely start) (a ∷ later)
      → Waits msg_id payload chunks at parts
      → length payload ≤ 2097152
      → Fits msg_id payload (map bytes_of (a ∷ later)) chunks
      → (receive db order (a ∷ later) parts).0 ≡ completed_last (length later) payload
  receive-Waits a [] chunks at parts l t w m f =
      ap (λ o. o ∷ []) (last_part a chunks at parts l t.0 w m f)
  receive-Waits a (b ∷ later) chunks at parts l t w m f =
      let r = next_part a chunks at parts b.bytes (map bytes_of later) l t.0 w m f in
      ap
        (λ o.
          o ∷ (receive db order (b ∷ later) (ingest db order a.now a.created a.bytes parts).1).0)
        r.0
      ∙ ap (◌∷◌ none) (
          receive-Waits b later (chunk_of a.bytes ∷ chunks)
            (time_of msg_id payload chunks a.created at)
            (ingest db order a.now a.created a.bytes parts).1 (time_of-le a chunks at parts l t.0)
            t.1 r.1 m (Fits-tail msg_id payload a.bytes (map bytes_of (b ∷ later)) chunks f))
