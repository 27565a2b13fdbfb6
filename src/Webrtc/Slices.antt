-- ===== src/Webrtc/Slices.antt =====
-- Writing slices of a payload into a buffer: each place that a slice covers gets the payload's byte.
use fedi.Base.{
  ℕ, zero, suc, ◌+◌, ◌-◌, ◌≤◌, ◌<◌, ◌≡◌, refl, sym, ap, ◌∙◌, Bool, true, false, ◌&&◌, min, List, [],
  ◌∷◌, ◌++◌, arith, ltb, leb, if◌then◌else◌, length, take, drop, any, sum_by, All, length-append,
  length-take, length-drop, inl, inr, Bool-cases, sat_add_u64,
}
use fedi.Webrtc.{Chunk, write_chunks, copy_at, zeros}
use fedi.Webrtc.Bounds.{size_of}

-- The byte at a place, 0 past the end.
abbrev pub nth : ℕ → List ℕ → ℕ
nth i [] = 0
nth zero (x ∷ xs) = x
nth (suc i) (x ∷ xs) = nth i xs

nth-append :
    (i : ℕ) (xs ys : List ℕ)
    → nth i (xs ++ ys) ≡ (if ltb i (length xs) then nth i xs else nth (i - length xs) ys)
nth-append i [] ys = let e : i - 0 ≡ i = omega arith in ground (arith, ap (λ j. nth j ys) e)
nth-append zero (x ∷ xs) ys = ground arith
nth-append (suc i) (x ∷ xs) ys = ground (arith, nth-append i xs ys)

nth-take : (i n : ℕ) (xs : List ℕ) → nth i (take n xs) ≡ (if ltb i n then nth i xs else 0)
nth-take i zero xs = ground arith
nth-take i (suc n) [] = ground arith
nth-take zero (suc n) (x ∷ xs) = ground arith
nth-take (suc i) (suc n) (x ∷ xs) = ground (arith, nth-take i n xs)

nth-drop : (i n j : ℕ) (xs : List ℕ) → j ≡ n + i → nth i (drop n xs) ≡ nth j xs
nth-drop i zero j xs e = ap (λ k. nth k xs) (omega (arith, e))
nth-drop i (suc n) j [] e = refl
nth-drop i (suc n) zero (x ∷ xs) e = absurd (omega (arith, e))
nth-drop i (suc n) (suc j) (x ∷ xs) e = nth-drop i n j xs (omega (arith, e))

nth_past : (i : ℕ) (xs : List ℕ) → length xs ≤ i → nth i xs ≡ 0
nth_past i [] h = refl
nth_past zero (x ∷ xs) h = absurd (omega (arith, h))
nth_past (suc i) (x ∷ xs) h = nth_past i xs (omega (arith, h))

-- Lists of one length that agree at each place are equal.
nth_ext : (xs ys : List ℕ) → length xs ≡ length ys → ((i : ℕ) → nth i xs ≡ nth i ys) → xs ≡ ys
nth_ext [] [] l h = refl
nth_ext [] (y ∷ ys) l h = absurd (omega (arith, l))
nth_ext (x ∷ xs) [] l h = absurd (omega (arith, l))
nth_ext (x ∷ xs) (y ∷ ys) l h =
    ap (λ z. z ∷ xs) (h 0) ∙ ap (◌∷◌ y) (nth_ext xs ys (omega (arith, l)) (λ i. h (suc i)))

length-zeros : (n : ℕ) → length (zeros n) ≡ n
length-zeros zero = refl
length-zeros (suc n) = omega (arith, length-zeros n)

abbrev pub covers : ℕ → Chunk → Bool
covers i c = leb c.0 i && ltb i (c.0 + length c.1)

-- The chunk is the piece of the payload at its offset, and is not empty.
pub record IsSlice (payload : List ℕ) (c : Chunk) : Type 0 where
  pub within : c.0 + length c.1 ≤ length payload
  pub piece : c.1 ≡ take (length c.1) (drop c.0 payload)
  pub filled : 0 < length c.1

module _ (payload : List ℕ) where
  nth-slice :
      (i : ℕ) (c : Chunk)
      → IsSlice payload c
      → covers i c ≡ true
      → nth (i - c.0) c.1 ≡ nth i payload
  nth-slice i c s h =
      ap (nth (i - c.0)) s.piece
      ∙ (nth-take (i - c.0) (length c.1) (drop c.0 payload)
          ∙ ground (arith, h, nth-drop (i - c.0) c.0 i payload (ground (arith, h))))

  length-copy_at :
      (off n : ℕ) (bytes out : List ℕ)
      → n ≤ length bytes
      → off + n ≤ length out
      → length (copy_at off n bytes out) ≡ length out
  length-copy_at off n bytes out h l = omega (
    arith,
    length-append (take off out) (take n bytes ++ drop (off + n) out),
    length-append (take n bytes) (drop (off + n) out),
    length-take off out,
    length-take n bytes,
    length-drop (off + n) out,
  )

  nth-copy_at :
      (i : ℕ) (c : Chunk) (out : List ℕ)
      → IsSlice payload c
      → length out ≡ length payload
      → nth i (copy_at c.0 (length c.1) c.1 out) ≡ (if covers i c then nth i payload else nth i out)
  nth-copy_at i c out s l =
      let n = length c.1 in
      ground (
        arith,
        s.within,
        nth-append i (take c.0 out) (take n c.1 ++ drop (c.0 + n) out),
        nth-append (i - c.0) (take n c.1) (drop (c.0 + n) out),
        nth-take i c.0 out,
        nth-take (i - c.0) n c.1,
        nth-drop (i - c.0 - n) (c.0 + n) i out,
        length-take c.0 out,
        length-take n c.1,
        nth-slice i c s,
      )

  -- The slices of a list are written over the buffer, whatever they overlap.
  write_chunks-slices :
      (chunks : List Chunk) (out : List ℕ) (written : ℕ)
      → All (IsSlice payload) chunks
      → length out ≡ length payload
      → (length (write_chunks chunks out written).0 ≡ length payload)
        × ((i : ℕ)
            → nth i (write_chunks chunks out written).0
              ≡ (if any (covers i) chunks then nth i payload else nth i out))
  unfolding write_chunks
  write_chunks-slices [] out written h l = (l, λ i. refl)
  write_chunks-slices (c ∷ chunks) out written h l =
      let s = h.0 in
      let n = length c.1 in
      let fits : min (length out - c.0) n ≡ n = omega (arith, l, s.within) in
      let inside : leb (length out) c.0 ≡ false = ground (arith, l, s.within, s.filled) in
      let copied = copy_at c.0 n c.1 out in
      let rest =
        write_chunks-slices chunks copied (sat_add_u64 written n) h.1
          (length-copy_at c.0 n c.1 out (omega arith) (omega (arith, l, s.within)) ∙ l) in
      rw (inside, fits) (rest.0, λ i. ground (arith, rest.1 i, nth-copy_at i c out s l))

  write_chunks-written :
      (chunks : List Chunk) (out : List ℕ) (written : ℕ)
      → All (IsSlice payload) chunks
      → length out ≡ length payload
      → written + sum_by size_of chunks ≤ 2097152
      → (write_chunks chunks out written).1 ≡ written + sum_by size_of chunks
  unfolding write_chunks
  write_chunks-written [] out written h l b = omega arith
  write_chunks-written (c ∷ chunks) out written h l b =
      let s = h.0 in
      let n = length c.1 in
      let fits : min (length out - c.0) n ≡ n = omega (arith, l, s.within) in
      let inside : leb (length out) c.0 ≡ false = ground (arith, l, s.within, s.filled) in
      let copied = copy_at c.0 n c.1 out in
      rw (inside, fits)
        (omega (
          arith,
          b,
          write_chunks-written chunks copied (sat_add_u64 written n) h.1
              (length-copy_at c.0 n c.1 out (omega arith) (omega (arith, l, s.within)) ∙ l)
              (omega (arith, b)),
        ))

  -- Slices that cover the payload and have its length in all give the payload.
  pub write_chunks-eq :
      (chunks : List Chunk)
      → All (IsSlice payload) chunks
      → ((i : ℕ) → i < length payload → any (covers i) chunks ≡ true)
      → sum_by size_of chunks ≤ 2097152
      → write_chunks chunks (zeros (length payload)) 0 ≡ (payload, sum_by size_of chunks)
  write_chunks-eq chunks h c b =
      let out = zeros (length payload) in
      let w = write_chunks-slices chunks out 0 h (length-zeros (length payload)) in
      let same : (write_chunks chunks out 0).0 ≡ payload = nth_ext _ payload w.0 (λ i.
        elim (Bool-cases (ltb i (length payload))) [
          | inl t ↦ ground (arith, w.1 i, c i, t)
          | inr t ↦
              nth_past i _ (ground (arith, t, w.0)) ∙ sym (nth_past i payload (ground (arith, t)))
        ]) in
      ground (
        arith,
        same,
        write_chunks-written chunks out 0 h (length-zeros (length payload)) (omega (arith, b)),
      )
