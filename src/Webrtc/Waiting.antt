-- ===== src/Webrtc/Waiting.antt =====
-- An assembly that waits for the rest of one message, and what the next chunk makes of it.
use fedi.Base.{
  codes_eq, nat_eq, ℕ, ◌+◌, ◌-◌, ◌≤◌, ◌<◌, ◌≡◌, refl, ap, ◌∙◌, true, false, min, Option, none, some,
  List, [], ◌∷◌, arith, ltb, leb, ◌==◌, length, take, take_all, sum_by, is_some,
}
use fedi.HashMap.{
  lookup, insert, remove, retain, IsUnique, keep_some, lookup-retain, retain-IsUnique,
  length-retain-le, lookup-insert_self, insert-IsUnique, length-insert-le, length-insert_present,
}
use fedi.Rows.{OrderBy}
use fedi.Webrtc.{
  Chunk, Assembly, Parts, ChunkOrder, Frame, ingest_frame, note_chunk, or_assembly, msg_id_hex,
  cleanup, reassemble, finish,
}
use fedi.Webrtc.Bounds.{size_of, remove_absent}
use fedi.Webrtc.Slices.{IsSlice}

module _ (msg_id payload : List ℕ) where
  abbrev pub held : List Chunk → ℕ → Assembly
  held chunks at = record {
    total_len = length payload;
    received = sum_by size_of chunks;
    chunks = chunks;
    created_at_ms = at;
  }

  abbrev pub frame_of : Chunk → Frame
  frame_of c = record { msg_id = msg_id; total_len = length payload; offset = c.0; chunk = c.1 }

  -- Nothing is kept before the first chunk.
  abbrev pub entry_of : List Chunk → ℕ → Option Assembly
  entry_of [] at = none
  entry_of (c ∷ chunks) at = some (held (c ∷ chunks) at)

  abbrev pub place_for : List Chunk → ℕ
  place_for [] = 1
  place_for (c ∷ chunks) = 0

  -- The time of the assembly, once the next chunk is in.
  abbrev pub time_of : List Chunk → (created at : ℕ) → ℕ
  time_of [] created at = created
  time_of (c ∷ chunks) created at = at

  -- The chunks of the message that have arrived are kept, and nothing has to make room.
  pub record Waits (chunks : List Chunk) (at : ℕ) (parts : Parts) : Type 0 where
    pub found : lookup (msg_id_hex msg_id) parts ≡ entry_of chunks at
    pub unique : IsUnique parts
    pub room : length parts + place_for chunks ≤ 64

  or_assembly-entry_of :
      (created at : ℕ) (chunks : List Chunk)
      → or_assembly (length payload) created (entry_of chunks at)
        ≡ held chunks (time_of chunks created at)
  or_assembly-entry_of created at [] = refl
  or_assembly-entry_of created at (c ∷ chunks) = refl

  keep_some-entry_of :
      (now at : ℕ) (chunks : List Chunk)
      → now < at + 60000
      → keep_some (λ a. ltb (now - a.created_at_ms) 60000) (entry_of chunks at) ≡ entry_of chunks at
  keep_some-entry_of now at [] h = refl
  keep_some-entry_of now at (c ∷ chunks) h = ground (arith, h)

  pub cleanup-Waits :
      (db : OrderBy (List ℕ × Assembly)) (now at : ℕ) (chunks : List Chunk) (parts : Parts)
      → now < at + 60000
      → Waits chunks at parts
      → Waits chunks at (cleanup db now parts)
  unfolding cleanup
  cleanup-Waits db now at chunks parts h w =
      let live = λ (a : Assembly). ltb (now - a.created_at_ms) 60000 in
      let shorter = length-retain-le live parts in
      let fits : ltb 64 (length (retain live parts)) ≡ false = ground (arith, w.room, shorter) in
      rw fits (record {
        found =
            lookup-retain live (msg_id_hex msg_id) parts w.unique
            ∙ (ap (keep_some live) w.found ∙ keep_some-entry_of now at chunks h);
        unique = retain-IsUnique live parts w.unique;
        room = omega (arith, w.room, shorter);
      })

  note_chunk-held :
      (c : Chunk) (chunks : List Chunk) (at : ℕ)
      → is_some (lookup c.0 chunks) ≡ false
      → sum_by size_of (c ∷ chunks) ≤ 2097152
      → note_chunk c.0 c.1 (held chunks at) ≡ held (c ∷ chunks) at
  unfolding insert
  note_chunk-held c chunks at o b =
      let sum : min (sum_by size_of chunks + length c.1) 18446744073709551615
          ≡ length c.1 + sum_by size_of chunks =
        omega (arith, b) in
      rw (remove_absent c.0 chunks o, sum) refl

  room_after :
      (c : Chunk) (at now : ℕ) (chunks : List Chunk) (parts : Parts)
      → Waits chunks at parts
      → length (insert (msg_id_hex msg_id) (held (c ∷ chunks) now) parts) ≤ 64
  room_after c at now [] parts w =
      omega (arith, w.room, length-insert-le (msg_id_hex msg_id) (held (c ∷ []) now) parts)
  room_after c at now (d ∷ chunks) parts w = omega (
    arith,
    w.room,
    length-insert_present (msg_id_hex msg_id) (held (c ∷ d ∷ chunks) now) parts
        (ap is_some w.found),
  )

  module _ (order : ChunkOrder) (created at : ℕ) (c : Chunk) (chunks : List Chunk)
      (parts : Parts) where
    abbrev pub time : ℕ
    time = time_of chunks created at

    ingest_frame-held :
        Waits chunks at parts
        → IsSlice payload c
        → is_some (lookup c.0 chunks) ≡ false
        → length payload ≤ 2097152
        → sum_by size_of (c ∷ chunks) ≤ length payload
        → ingest_frame order created (frame_of c) parts
          ≡ finish order (msg_id_hex msg_id) (held (c ∷ chunks) time) parts
    unfolding ingest_frame
    ingest_frame-held w s o l b =
        let zero_len : (length payload == 0) ≡ false = ground (arith, s.within, s.filled) in
        let large : ltb 2097152 (length payload) ≡ false = ground (arith, l) in
        let inside : leb (length payload) c.0 ≡ false = ground (arith, s.within, s.filled) in
        let whole : take (min (length c.1) (length payload - c.0)) c.1 ≡ c.1 =
          take_all _ c.1 (omega (arith, s.within)) in
        let same : (length payload == length payload) ≡ true = ground arith in
        rw
          (zero_len, large, inside, whole, w.found, or_assembly-entry_of created at chunks, same, o)
          (ap (λ n. finish order (msg_id_hex msg_id) n parts)
            (note_chunk-held c chunks (time_of chunks created at) o (omega (arith, l, b))))

    pub ingest_frame-Waits :
        Waits chunks at parts
        → IsSlice payload c
        → is_some (lookup c.0 chunks) ≡ false
        → length payload ≤ 2097152
        → sum_by size_of (c ∷ chunks) < length payload
        → ((ingest_frame order created (frame_of c) parts).0 ≡ none)
          × Waits (c ∷ chunks) time (ingest_frame order created (frame_of c) parts).1
    ingest_frame-Waits w s o l b =
        let more : ltb (sum_by size_of (c ∷ chunks)) (length payload) ≡ true = ground (arith, b) in
        rw (ingest_frame-held w s o l (omega (arith, b)), more)
          (
            refl,
            record {
              found = lookup-insert_self (msg_id_hex msg_id) (held (c ∷ chunks) time) parts;
              unique = insert-IsUnique (msg_id_hex msg_id) (held (c ∷ chunks) time) parts w.unique;
              room = omega (arith, room_after c at time chunks parts w);
            },
          )

    pub ingest_frame_last :
        Waits chunks at parts
        → IsSlice payload c
        → is_some (lookup c.0 chunks) ≡ false
        → length payload ≤ 2097152
        → sum_by size_of (c ∷ chunks) ≡ length payload
        → ingest_frame order created (frame_of c) parts
          ≡ (reassemble order (held (c ∷ chunks) time), remove (msg_id_hex msg_id) parts)
    ingest_frame_last w s o l b =
        let done : ltb (sum_by size_of (c ∷ chunks)) (length payload) ≡ false = ground (arith, b) in
        rw (ingest_frame-held w s o l (omega (arith, b)), done) refl
