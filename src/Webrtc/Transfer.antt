-- ===== src/Webrtc/Transfer.antt =====
-- From the sender to the receiver: the frames of a message in any order give the message back.
use fedi.Base.{
  codes_eq, nat_eq, ℕ, ◌≤◌, ◌<◌, ◌≡◌, refl, subst, sym, ◌∙◌, Bool, false, none, some, List, [], ◌∷◌,
  arith, ltb, ◌==◌, length, map, count_where, count_where-perm, sum_by, sum_by-perm, is_some, All,
  inl, inr, Bool-cases,
}
use fedi.HashMap.{lookup, IsUnique}
use fedi.Rows.{OrderBy}
use fedi.Rows.Retention.{HasUniqueIds}
use fedi.Webrtc.{
  Chunk, Assembly, Parts, ChunkOrder, sent, send_bytes_chunked, msg_id_hex, max_wire_bytes,
}
use fedi.Webrtc.Bounds.{size_of}
use fedi.Webrtc.Slices.{covers}
use fedi.Webrtc.Arrivals.{
  Arrival, receive, completed_last, chunk_of, offset_of, All-Permᴰ, IsPart, Fits, IsTimely,
  bytes_of, receive-Waits,
}
use fedi.Webrtc.Pieces.{sent_frames, send_bytes_chunked-eq, AreComplete, sent_frames-AreComplete}
use mathlib.Core.List.{Perm, Permᴰ}
use mathlib.Core.Logic.{∥∥₁_elim}

all_apart :
    (k : ℕ) (cs : List Chunk)
    → count_where (λ c. c.0 == k) cs ≡ 0
    → All (λ c. (k == offset_of c) ≡ false) cs
all_apart k [] h = tt
all_apart k (c ∷ cs) h = (ground (arith, h), all_apart k cs (omega (arith, h)))

HasUniqueIds-of_counts :
    (cs : List Chunk) → ((k : ℕ) → count_where (λ c. c.0 == k) cs ≤ 1) → HasUniqueIds offset_of cs
HasUniqueIds-of_counts [] h = tt
HasUniqueIds-of_counts (c ∷ cs) h =
    (all_apart c.0 cs (ground (arith, h c.0)), HasUniqueIds-of_counts cs (λ k. omega (arith, h k)))

count_where-map :
    (p : Chunk → Bool) (frames : List (List ℕ))
    → count_where p (map chunk_of frames) ≡ count_where (λ b. p (chunk_of b)) frames
count_where-map p [] = refl
count_where-map p (b ∷ frames) = omega (arith, count_where-map p frames)

sum_by-map :
    (frames : List (List ℕ))
    → sum_by size_of (map chunk_of frames) ≡ sum_by (λ b. size_of (chunk_of b)) frames
sum_by-map [] = refl
sum_by-map (b ∷ frames) = omega (arith, sum_by-map frames)

abbrev no_chunks : List Chunk
no_chunks = []

module _ (msg_id payload : List ℕ) where
  none_kept : (cs : List Chunk) → All (λ c. is_some (lookup c.0 no_chunks) ≡ false) cs
  unfolding lookup
  none_kept [] = tt
  none_kept (c ∷ cs) = (refl, none_kept cs)

  -- The frames fit in any order.
  arrivals-Fits :
      (arrived frames : List (List ℕ))
      → Perm arrived frames
      → Permᴰ arrived frames
      → AreComplete msg_id payload frames
      → Fits msg_id payload arrived no_chunks
  arrivals-Fits arrived frames r d a = record {
    parts = All-Permᴰ (IsPart msg_id payload) d a.parts;
    slices = tt;
    unique =
        HasUniqueIds-of_counts (map chunk_of arrived)
          (λ k. omega (arith, a.once k, same (λ c. c.0 == k)));
    fresh = none_kept (map chunk_of arrived);
    complete = omega (
      arith,
      a.complete,
      sum_by-map arrived,
      sum_by-map frames,
      sum_by-perm (λ b. size_of (chunk_of b)) r,
    );
    covered = λ i b. omega (arith, a.covered i b, same (covers i));
  }
    where
      same :
          (p : Chunk → Bool)
          → count_where p (map chunk_of arrived) ≡ count_where p (map chunk_of frames)
      same p =
          count_where-map p arrived
          ∙ (count_where-perm (λ b. p (chunk_of b)) r ∙ sym (count_where-map p frames))

  module _ (db : OrderBy (List ℕ × Assembly)) (order : ChunkOrder) (start : ℕ) where
    -- If the frames of a message that the sender cuts up, under a new id of 16 bytes, reach the
    -- assembler in any order, with no other frame between them, within one minute of a starting
    -- time, and the messages that wait there have distinct keys and number fewer than 64, then each
    -- frame but the last yields nothing and the last yields the message.
    pub receive-send_bytes_chunked :
        (frames : List (List ℕ)) (first : Arrival) (later : List Arrival) (parts : Parts)
        → length msg_id ≡ 16
        → send_bytes_chunked msg_id payload ≡ some (sent frames)
        → Perm (map bytes_of (first ∷ later)) frames
        → All (IsTimely start) (first ∷ later)
        → IsUnique parts
        → lookup (msg_id_hex msg_id) parts ≡ none
        → length parts < 64
        → (receive db order (first ∷ later) parts).0 ≡ completed_last (length later) payload
    receive-send_bytes_chunked frames first later parts h s r t u n l =
        let e = sym (send_bytes_chunked-eq msg_id payload) ∙ s in
        elim (Bool-cases (ltb max_wire_bytes (length payload))) [
          | inl o ↦ absurd (ground (arith, e, o))
          | inr o ↦
              let eq : sent_frames msg_id payload ≡ frames = ground (arith, e, o) in
              let small : length payload ≤ 2097152 = ground (arith, o) in
              let all =
                subst (AreComplete msg_id payload) eq
                  (sent_frames-AreComplete msg_id payload h small) in
              ∥∥₁_elim r (hlevel) (λ d.
                receive-Waits db order msg_id payload start first later [] start parts (omega arith)
                  t (record { found = n; unique = u; room = omega (arith, l) }) small
                  (arrivals-Fits (map bytes_of (first ∷ later)) frames r d all))
        ]
