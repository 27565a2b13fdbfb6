-- ===== src/Webrtc/Bounds.antt =====
-- What an assembler holds: a bounded number of assemblies, each of them of bounded size.
use fedi.Base.{
  codes_eq, nat_eq, ℕ, ◌+◌, ◌-◌, ◌≤◌, ◌<◌, ◌≡◌, refl, ap, false, ◌||◌, min, Option, none, some,
  List, [], ◌∷◌, arith, ltb, leb, ◌==◌, length, take, subst, length-take, sum_by, is_some, All, inl,
  inr, Bool-cases, Option-cases,
}
use fedi.HashMap.{lookup, insert, remove, length-insert-le, length-remove-le, All-remove}
use fedi.Rows.{OrderBy}
use fedi.Webrtc.{
  Chunk, Assembly, Parts, ChunkOrder, Frame, ingest_frame, ingest_parsed, ingest, note_chunk,
  or_assembly, msg_id_hex, max_wire_bytes, cleanup, parse_frame,
}
use fedi.Webrtc.Eviction.{cleanup-le, All-cleanup}

abbrev pub size_of : Chunk → ℕ
size_of c = length c.1

-- An assembly that waits for more: its bytes are counted, and they are fewer than announced.
pub record IsHeld (a : Assembly) : Type 0 where
  pub announced : a.total_len ≤ 2097152
  pub counted : a.received ≡ sum_by size_of a.chunks
  pub waiting : a.received < a.total_len

abbrev pub AreHeld : Parts → Type 0
AreHeld = All (λ (e : List ℕ × Assembly). IsHeld e.1)

pub remove_absent : (off : ℕ) (m : List Chunk) → is_some (lookup off m) ≡ false → remove off m ≡ m
unfolding lookup remove
remove_absent off [] h = refl
remove_absent off ((o, bytes) ∷ m) h = ground (arith, remove_absent off m, h)

sum_by-insert :
    (off : ℕ) (bytes : List ℕ) (m : List Chunk)
    → is_some (lookup off m) ≡ false
    → sum_by size_of (insert off bytes m) ≡ length bytes + sum_by size_of m
unfolding insert
sum_by-insert off bytes m h = ap (λ xs. length bytes + sum_by size_of xs) (remove_absent off m h)

lookup-IsHeld :
    (key : List ℕ) (m : Parts) (a : Assembly) → AreHeld m → lookup key m ≡ some a → IsHeld a
unfolding lookup
lookup-IsHeld key [] a h e = absurd (ground (arith, e))
lookup-IsHeld key ((j, b) ∷ m) a h e = elim (Bool-cases (codes_eq.beq j key)) [
  | inl t ↦ subst IsHeld (ground (arith, e, t)) h.0
  | inr t ↦ lookup-IsHeld key m a h.1 (ground (arith, e, t))
]

-- What an assembly may be that a frame finds or opens: it may have nothing yet.
abbrev Fits : ℕ → Assembly → Type 0
Fits total a = (a.received ≡ sum_by size_of a.chunks) × (a.total_len ≡ total → a.received < total)

module _ (order : ChunkOrder) (created : ℕ) (f : Frame) (parts : Parts) where
  found-IsHeld :
      AreHeld parts
      → f.total_len ≤ 2097152
      → 0 < f.total_len
      → IsHeld (or_assembly f.total_len created (lookup (msg_id_hex f.msg_id) parts))
  found-IsHeld h l z = elim (Option-cases (lookup (msg_id_hex f.msg_id) parts)) [
    | inl e ↦ rw e (record { announced = l; counted = refl; waiting = z })
    | inr (a, e) ↦ rw e (lookup-IsHeld (msg_id_hex f.msg_id) parts a h e)
  ]

  noted-IsHeld :
      (entry : Assembly) (chunk : List ℕ)
      → IsHeld entry
      → length chunk ≤ f.total_len
      → entry.total_len ≡ f.total_len
      → is_some (lookup f.offset entry.chunks) ≡ false
      → (note_chunk f.offset chunk entry).received < entry.total_len
      → IsHeld (note_chunk f.offset chunk entry)
  noted-IsHeld entry chunk h l t o w = record {
    announced = h.announced;
    counted =
        omega
          (arith, h.counted, h.waiting, h.announced, sum_by-insert f.offset chunk entry.chunks o);
    waiting = w;
  }

  pub ingest_frame-AreHeld : AreHeld parts → AreHeld (ingest_frame order created f parts).1
  unfolding ingest_frame insert
  ingest_frame-AreHeld h =
      let key = msg_id_hex f.msg_id in
      let entry = or_assembly f.total_len created (lookup key parts) in
      let chunk = take (min (length f.chunk) (f.total_len - f.offset)) f.chunk in
      let noted = note_chunk f.offset chunk entry in
      elim (Bool-cases (f.total_len == 0 || ltb max_wire_bytes f.total_len)) [
        | inl t ↦ rw t h
        | inr t ↦ elim (Bool-cases (leb f.total_len f.offset)) [
          | inl o ↦ rw (t, o) h
          | inr o ↦
              let held : IsHeld entry = found-IsHeld h (ground (arith, t)) (ground (arith, t)) in
              let gone : AreHeld (remove key parts) = All-remove IsHeld key parts h in
              elim (Bool-cases (entry.total_len == f.total_len)) [
                | inr m ↦ rw (t, o, m) gone
                | inl m ↦ elim (Bool-cases (is_some (lookup f.offset entry.chunks))) [
                  | inl k ↦ rw (t, o, m, k) (held, gone)
                  | inr k ↦ elim (Bool-cases (ltb noted.received noted.total_len)) [
                    | inr w ↦ rw (t, o, m, k, w) gone
                    | inl w ↦
                        rw (t, o, m, k, w)
                          (
                            noted-IsHeld entry chunk held
                                (omega (
                                  arith,
                                  length-take (min (length f.chunk) (f.total_len - f.offset))
                                      f.chunk,
                                ))
                                (ground (arith, m)) k (ground (arith, w)),
                            gone,
                          )
                  ]
                ]
              ]
        ]
      ]

  pub ingest_frame-le : length (ingest_frame order created f parts).1 ≤ length parts + 1
  unfolding ingest_frame
  ingest_frame-le =
      let key = msg_id_hex f.msg_id in
      let entry = or_assembly f.total_len created (lookup key parts) in
      let chunk = take (min (length f.chunk) (f.total_len - f.offset)) f.chunk in
      ground (
        arith,
        length-remove-le key parts,
        length-insert-le key entry parts,
        length-insert-le key (note_chunk f.offset chunk entry) parts,
      )

ingest_parsed-AreHeld :
    (order : ChunkOrder) (created : ℕ) (o : Option Frame) (parts : Parts)
    → AreHeld parts
    → AreHeld (ingest_parsed order created o parts).1
      × (length (ingest_parsed order created o parts).1 ≤ length parts + 1)
ingest_parsed-AreHeld order created none parts h = (h, omega arith)
ingest_parsed-AreHeld order created (some f) parts h =
    (ingest_frame-AreHeld order created f parts h, ingest_frame-le order created f parts)

-- If each assembly that waits announces at most 2 MiB, counts as received the bytes of its chunks,
-- and has fewer than announced, then it is so after any list of bytes is ingested, and at most 65
-- assemblies are left, whatever the order of the map and the clock.
pub ingest-AreHeld :
    (db : OrderBy (List ℕ × Assembly)) (order : ChunkOrder) (now created : ℕ) (bytes : List ℕ)
    (parts : Parts)
    → AreHeld parts
    → AreHeld (ingest db order now created bytes parts).1
      × (length (ingest db order now created bytes parts).1 ≤ 65)
unfolding ingest
ingest-AreHeld db order now created bytes parts h =
    let kept = cleanup db now parts in
    let after =
      ingest_parsed-AreHeld order created (parse_frame bytes) kept
        (All-cleanup IsHeld db now parts h) in
    (after.0, omega (arith, after.1, cleanup-le db now parts))
