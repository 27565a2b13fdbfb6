-- ===== src/Webrtc/Frames.antt =====
-- A frame and its bytes: each is read back from the other.
use fedi.Base.{
  ℕ, zero, suc, ◌≤◌, ◌<◌, ◌≡◌, ap, sym, ◌∙◌, some, List, [], ◌∷◌, ◌++◌, arith, length, take, drop,
  All, length-append, length-take, length-drop, take_exact, drop_past, drop-drop, take-append-drop,
}
use fedi.Webrtc.{Frame, to_le_bytes, from_le_bytes, build_frame, parse_frame}

from_le_bytes-to_le_bytes : (n : ℕ) → n < 4294967296 → from_le_bytes (to_le_bytes n) ≡ n
unfolding from_le_bytes to_le_bytes
from_le_bytes-to_le_bytes n h = omega (arith, h)

-- A frame with an id of 16 bytes, and a length and an offset that are u32, is parsed from its bytes
-- as it was.
pub parse_frame-build_frame :
    (f : Frame)
    → length f.msg_id ≡ 16
    → f.total_len < 4294967296
    → f.offset < 4294967296
    → parse_frame (build_frame f.msg_id f.total_len f.offset f.chunk) ≡ some f
unfolding parse_frame build_frame to_le_bytes
parse_frame-build_frame f h t o =
    let tail = to_le_bytes f.total_len ++ (to_le_bytes f.offset ++ f.chunk) in
    ground (
      arith,
      length-append f.msg_id tail,
      take_exact 16 f.msg_id tail h,
      drop_past 16 0 16 f.msg_id tail (omega arith) h,
      drop_past 16 4 20 f.msg_id tail (omega arith) h,
      drop_past 16 8 24 f.msg_id tail (omega arith) h,
      from_le_bytes-to_le_bytes f.total_len t,
      from_le_bytes-to_le_bytes f.offset o,
      h,
    )

to_le_bytes-from_le_bytes :
    (bs : List ℕ) → length bs ≡ 4 → All (λ b. b < 256) bs → to_le_bytes (from_le_bytes bs) ≡ bs
unfolding from_le_bytes to_le_bytes
to_le_bytes-from_le_bytes [] h a = absurd (omega (arith, h))
to_le_bytes-from_le_bytes (b ∷ []) h a = absurd (omega (arith, h))
to_le_bytes-from_le_bytes (b ∷ c ∷ []) h a = absurd (omega (arith, h))
to_le_bytes-from_le_bytes (b ∷ c ∷ d ∷ []) h a = absurd (omega (arith, h))
to_le_bytes-from_le_bytes (b ∷ c ∷ d ∷ e ∷ []) h a = ground (arith, a.0, a.1.0, a.1.1.0, a.1.1.1.0)
to_le_bytes-from_le_bytes (b ∷ c ∷ d ∷ e ∷ x ∷ bs) h a = absurd (omega (arith, h))

All-take_bytes : (n : ℕ) (bs : List ℕ) → All (λ b. b < 256) bs → All (λ b. b < 256) (take n bs)
All-take_bytes zero bs a = tt
All-take_bytes (suc n) [] a = tt
All-take_bytes (suc n) (b ∷ bs) a = (a.0, All-take_bytes n bs a.1)

All-drop_bytes : (n : ℕ) (bs : List ℕ) → All (λ b. b < 256) bs → All (λ b. b < 256) (drop n bs)
All-drop_bytes zero bs a = a
All-drop_bytes (suc n) [] a = tt
All-drop_bytes (suc n) (b ∷ bs) a = All-drop_bytes n bs a.1

-- Four bytes are read as a number and written back.
field_lem :
    (t : List ℕ)
    → 4 ≤ length t
    → All (λ b. b < 256) t
    → to_le_bytes (from_le_bytes (take 4 t)) ++ drop 4 t ≡ t
field_lem t h a =
    ap (λ xs. xs ++ drop 4 t)
      (to_le_bytes-from_le_bytes (take 4 t) (omega (arith, length-take 4 t)) (All-take_bytes 4 t a))
    ∙ take-append-drop 4 t

body_lem :
    (t : List ℕ)
    → 24 ≤ length t
    → All (λ b. b < 256) t
    → take 16 t
        ++ (to_le_bytes (from_le_bytes (take 4 (drop 16 t)))
            ++ (to_le_bytes (from_le_bytes (take 4 (drop 20 t))) ++ drop 24 t))
      ≡ t
body_lem t h a =
    rw (sym (drop-drop 16 4 20 t (omega arith)), sym (drop-drop 20 4 24 t (omega arith)))
      (rw (sym (drop-drop 16 4 20 t (omega arith))) (
        ap (λ xs. take 16 t ++ xs)
          (ap (λ xs. to_le_bytes (from_le_bytes (take 4 (drop 16 t))) ++ xs)
              (field_lem (drop 4 (drop 16 t))
                (omega (arith, length-drop 16 t, length-drop 4 (drop 16 t)))
                (All-drop_bytes 4 (drop 16 t) (All-drop_bytes 16 t a)))
            ∙ field_lem (drop 16 t) (omega (arith, length-drop 16 t)) (All-drop_bytes 16 t a))
        ∙ take-append-drop 16 t))

-- If a list of bytes is parsed as a frame, then these bytes are those that the frame is built into.
pub build_frame-parse_frame :
    (bytes : List ℕ)
    → All (λ b. b < 256) bytes
    → (f : Frame) → parse_frame bytes ≡ some f
    → build_frame f.msg_id f.total_len f.offset f.chunk ≡ bytes
unfolding parse_frame build_frame
build_frame-parse_frame [] a f e = ground (arith, e)
build_frame-parse_frame (b ∷ t) a f e = ground (arith, e, body_lem t)
