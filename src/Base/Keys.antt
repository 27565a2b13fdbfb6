-- ===== src/Base/Keys.antt =====
-- Equality of keys as an interface: texts for most tables, numbers for those with a row number.
use Prim.Native.Nat.{ℕ}
use Prim.Native.String.{String}
use mathlib.Core.Path.{◌≡◌}
use mathlib.Core.Logic.{◌↔◌}
use mathlib.Core.Bool.{Bool, true, false, ◌&&◌}
use mathlib.Core.List.{List, [], ◌∷◌}
use native.Mathlib.Omega.{arith}
use text.Mathlib.Text.{◌==◌ as str_eq}
use text.Mathlib.TextEquality.{eq_iff}
use fedi.Base.Tests.{◌==◌, ==_iff}

pub record Eq (K : Type 0) : Type 0 where
  pub beq : K → K → Bool
  pub beq_iff : (a b : K) → (beq a b ≡ true) ↔ (a ≡ b)

instance abbrev pub string_eq : Eq String
string_eq = record { beq = str_eq; beq_iff = eq_iff }

instance abbrev pub nat_eq : Eq ℕ
nat_eq = record { beq = ◌==◌; beq_iff = ==_iff }

abbrev pub list_beq : {A : Type 0} → (A → A → Bool) → List A → List A → Bool
list_beq f [] [] = true
list_beq f [] (y ∷ ys) = false
list_beq f (x ∷ xs) [] = false
list_beq f (x ∷ xs) (y ∷ ys) = f x y && list_beq f xs ys

pub list_beq_iff :
    {A : Type 0} (e : Eq A) (xs ys : List A) → (list_beq e.beq xs ys ≡ true) ↔ (xs ≡ ys)
list_beq_iff e [] [] = ground arith
list_beq_iff e [] (y ∷ ys) = ground arith
list_beq_iff e (x ∷ xs) [] = ground arith
list_beq_iff e (x ∷ xs) (y ∷ ys) = ground (arith, e.beq_iff x y, list_beq_iff e xs ys)

-- Texts as lists of codes.
instance abbrev pub codes_eq : Eq (List ℕ)
codes_eq = record { beq = list_beq ◌==◌; beq_iff = list_beq_iff nat_eq }
