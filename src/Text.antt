-- ===== src/Text.antt =====
-- Texts as lists of bytes, for the code that searches, trims or folds the case of a `str`.
use Prim.Native.Char.{code}
use fedi.Base.{
  ℕ, ◌+◌, ◌≡◌, refl, Bool, true, false, ◌&&◌, ◌||◌, List, [], ◌∷◌, map, String, leb, ◌==◌,
  if◌then◌else◌, Option, none, some, list_beq,
}

-- The code points of a literal, its bytes where it is ASCII.
abbrev pub codes : String → List ℕ
codes String.[] = []
codes (String.◌∷◌ c s) = code c ∷ codes s

-- `str::starts_with` and `str::contains`.
unfoldable pub starts_with : List ℕ → List ℕ → Bool
starts_with s [] = true
starts_with [] (t ∷ ts) = false
starts_with (c ∷ s) (t ∷ ts) = c == t && starts_with s ts

unfoldable pub contains : List ℕ → List ℕ → Bool
unfolding starts_with
contains [] t = starts_with [] t
contains (c ∷ s) t = starts_with (c ∷ s) t || contains s t

-- `str::to_ascii_lowercase`.
unfoldable pub to_ascii_lowercase : List ℕ → List ℕ
to_ascii_lowercase = map (λ c. if leb 65 c && leb c 90 then c + 32 else c)

contains_inbox : contains (codes "https://a.example/users/b/inbox") (codes "/inbox") ≡ true
unfolding contains
contains_inbox = refl

-- `char::is_whitespace`, by code point.
unfoldable pub is_whitespace : ℕ → Bool
is_whitespace c =
    leb 9 c && leb c 13
    || c == 32
    || c == 133
    || c == 160
    || c == 5760
    || leb 8192 c && leb c 8202
    || c == 8232
    || c == 8233
    || c == 8239
    || c == 8287
    || c == 12288

abbrev pub is_empty : String → Bool
is_empty String.[] = true
is_empty (String.◌∷◌ c s) = false

trim_start : String → String
trim_start String.[] = String.[]
trim_start (String.◌∷◌ c s) = if is_whitespace (code c) then trim_start s else String.◌∷◌ c s

trim_end : String → String
trim_end String.[] = String.[]
trim_end (String.◌∷◌ c s) =
    let rest = trim_end s in
    if is_whitespace (code c) && is_empty rest then String.[] else String.◌∷◌ c rest

-- `str::trim`.
unfoldable pub trim : String → String
unfolding trim_start trim_end is_whitespace
trim s = trim_end (trim_start s)

trim_both_ends : trim "  a b\n" ≡ "a b"
unfolding trim
trim_both_ends = refl

-- `str::trim`, `trim_end_matches('.')` and `ends_with` on a text that was computed.
unfoldable pub drop_while : (ℕ → Bool) → List ℕ → List ℕ
drop_while p [] = []
drop_while p (c ∷ s) = if p c then drop_while p s else c ∷ s

unfoldable pub drop_while_end : (ℕ → Bool) → List ℕ → List ℕ
drop_while_end p [] = []
drop_while_end p (c ∷ s) =
    let rest = drop_while_end p s in if p c && no_codes rest then [] else c ∷ rest
  where
    no_codes : List ℕ → Bool
    no_codes [] = true
    no_codes (_ ∷ _) = false

unfoldable pub trim_codes : List ℕ → List ℕ
unfolding drop_while drop_while_end is_whitespace
trim_codes s = drop_while_end is_whitespace (drop_while is_whitespace s)

unfoldable pub ends_with : List ℕ → List ℕ → Bool
ends_with [] t = list_beq ◌==◌ [] t
ends_with (c ∷ s) t = list_beq ◌==◌ (c ∷ s) t || ends_with s t

-- `strip_prefix`.
unfoldable pub strip_prefix : List ℕ → List ℕ → Option (List ℕ)
strip_prefix s [] = some s
strip_prefix [] (t ∷ ts) = none
strip_prefix (c ∷ s) (t ∷ ts) = let rest = strip_prefix s ts in if c == t then rest else none
