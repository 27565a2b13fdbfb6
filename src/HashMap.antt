-- ===== src/HashMap.antt =====
-- `HashMap<K, V>` as an association list. The code uses it through `get`, `insert`, `remove`,
-- `retain` and `len`, none of which depends on the order of the entries.
use fedi.Base.{
  ◌+◌, ◌≤◌, ◌≡◌, refl, Bool, true, false, Option, none, some, List, [], ◌∷◌, Eq, arith,
  if◌then◌else◌, length, is_some, ap, All, Bool-cases, inl, inr,
}

abbrev pub keep_some {ℓ} : {V : Type ℓ} → (V → Bool) → Option V → Option V
keep_some keep none = none
keep_some keep (some v) = if keep v then some v else none

module _ {ℓ} {K : Type 0} {V : Type ℓ} ⦃keys : Eq K⦄ where
  unfoldable pub lookup : K → List (K × V) → Option V
  lookup k [] = none
  lookup k ((j, v) ∷ m) = if keys.beq j k then some v else lookup k m

  unfoldable pub remove : K → List (K × V) → List (K × V)
  remove k [] = []
  remove k ((j, v) ∷ m) = if keys.beq j k then remove k m else (j, v) ∷ remove k m

  -- `insert` replaces the value that the key has.
  unfoldable pub insert : K → V → List (K × V) → List (K × V)
  unfolding remove
  insert k v m = (k, v) ∷ remove k m

  -- `retain(|_, v| keep(v))`.
  unfoldable pub retain : (V → Bool) → List (K × V) → List (K × V)
  retain keep [] = []
  retain keep ((j, v) ∷ m) = if keep v then (j, v) ∷ retain keep m else retain keep m

  pub lookup-remove :
      (k j : K) (m : List (K × V))
      → lookup j (remove k m) ≡ (if keys.beq k j then none else lookup j m)
  unfolding lookup remove
  lookup-remove k j [] = ground arith
  lookup-remove k j ((i, v) ∷ m) =
      ground (arith, keys.beq_iff k j, keys.beq_iff i k, keys.beq_iff i j, lookup-remove k j m)

  pub lookup-insert :
      (k j : K) (v : V) (m : List (K × V))
      → lookup j (insert k v m) ≡ (if keys.beq k j then some v else lookup j m)
  unfolding lookup insert
  lookup-insert k j v m = ground (arith, lookup-remove k j m)

  pub lookup-insert_self : (k : K) (v : V) (m : List (K × V)) → lookup k (insert k v m) ≡ some v
  lookup-insert_self k v m = ground (arith, lookup-insert k k v m, keys.beq_iff k k)

  pub length-remove-le : (k : K) (m : List (K × V)) → length (remove k m) ≤ length m
  unfolding remove
  length-remove-le k [] = omega arith
  length-remove-le k ((j, v) ∷ m) = ground (arith, length-remove-le k m)

  pub length-insert-le : (k : K) (v : V) (m : List (K × V)) → length (insert k v m) ≤ length m + 1
  unfolding insert
  length-insert-le k v m = omega (arith, length-remove-le k m)

  length-remove_present :
      (k : K) (m : List (K × V)) → is_some (lookup k m) ≡ true → length (remove k m) + 1 ≤ length m
  unfolding lookup remove
  length-remove_present k [] h = absurd (ground (arith, h))
  length-remove_present k ((j, v) ∷ m) h =
      ground (arith, h, length-remove-le k m, length-remove_present k m)

  -- A key that is there takes no new place.
  pub length-insert_present :
      (k : K) (v : V) (m : List (K × V))
      → is_some (lookup k m) ≡ true
      → length (insert k v m) ≤ length m
  unfolding insert
  length-insert_present k v m h = omega (arith, length-remove_present k m h)

  pub length-retain-le : (keep : V → Bool) (m : List (K × V)) → length (retain keep m) ≤ length m
  unfolding retain
  length-retain-le keep [] = omega arith
  length-retain-le keep ((j, v) ∷ m) = ground (arith, length-retain-le keep m)

  -- A key has one entry at most: a Rust map cannot hold it twice.
  abbrev pub IsUnique : List (K × V) → Type 0
  IsUnique [] = Unit {0}
  IsUnique ((j, v) ∷ m) = (is_some (lookup j m) ≡ false) × IsUnique m

  pub lookup-retain :
      (keep : V → Bool) (k : K) (m : List (K × V))
      → IsUnique m
      → lookup k (retain keep m) ≡ keep_some keep (lookup k m)
  unfolding lookup retain
  lookup-retain keep k [] u = refl
  lookup-retain keep k ((j, v) ∷ m) u =
      ground (arith, keys.beq_iff j k, lookup-retain keep k m u.1, ap (λ i. is_some (lookup i m)))

  remove-IsUnique : (k : K) (m : List (K × V)) → IsUnique m → IsUnique (remove k m)
  unfolding remove
  remove-IsUnique k [] u = tt
  remove-IsUnique k ((j, v) ∷ m) u = ground (arith, remove-IsUnique k m u.1, lookup-remove k j m)

  pub insert-IsUnique : (k : K) (v : V) (m : List (K × V)) → IsUnique m → IsUnique (insert k v m)
  unfolding insert
  insert-IsUnique k v m u =
      ground (arith, remove-IsUnique k m u, lookup-remove k k m, keys.beq_iff k k)

  pub retain-IsUnique : (keep : V → Bool) (m : List (K × V)) → IsUnique m → IsUnique (retain keep m)
  unfolding retain
  retain-IsUnique keep [] u = tt
  retain-IsUnique keep ((j, v) ∷ m) u =
      ground (arith, retain-IsUnique keep m u.1, lookup-retain keep j m u.1)

-- A property of all values is kept where none is added.
module _ {ℓ κ} {K : Type 0} {V : Type ℓ} ⦃keys : Eq K⦄ (P : V → Type κ) where
  pub All-remove :
      (key : K) (m : List (K × V)) → All (λ e. P e.1) m → All (λ e. P e.1) (remove key m)
  unfolding remove
  All-remove key [] h = tt
  All-remove key ((j, b) ∷ m) h = elim (Bool-cases (keys.beq j key)) [
    | inl t ↦ rw (t) (All-remove key m h.1)
    | inr t ↦ rw (t) (h.0, All-remove key m h.1)
  ]

  pub All-retain :
      (keep : V → Bool) (m : List (K × V)) → All (λ e. P e.1) m → All (λ e. P e.1) (retain keep m)
  unfolding retain
  All-retain keep [] h = tt
  All-retain keep ((j, b) ∷ m) h = elim (Bool-cases (keep b)) [
    | inl t ↦ rw (t) (h.0, All-retain keep m h.1)
    | inr t ↦ rw (t) (All-retain keep m h.1)
  ]
