-- ===== src/Webrtc/Eviction.antt =====
-- What the cleanup of an assembler leaves.
use fedi.Base.{
  codes_eq, ℕ, ◌-◌, ◌≤◌, ◌≡◌, refl, sym, ap, ◌∙◌, true, List, [], ◌∷◌, arith, length, take, subst,
  select, count_where-true, All, ltb, inl, inr, Bool-cases,
}
use fedi.HashMap.{remove, retain, All-remove, All-retain}
use fedi.Rows.{OrderBy, delete_where, delete_oldest, select_oldest, has_id_in}
use fedi.Rows.Deletes.{delete_where-twice, delete_where_none}
use fedi.Rows.Retention.{count_where-delete_oldest}
use fedi.Webrtc.{Assembly, Parts, created_of, remove_all, cleanup, max_inflight_assemblies}

abbrev key_of : List ℕ × Assembly → List ℕ
key_of e = e.0

remove-eq : (k : List ℕ) (m : Parts) → remove k m ≡ delete_where (λ e. codes_eq.beq (key_of e) k) m
unfolding remove
remove-eq k [] = refl
remove-eq k ((j, v) ∷ m) = ground (arith, remove-eq k m)

-- Removing the entries one by one is one delete of them.
remove_all-eq : (vs m : Parts) → remove_all vs m ≡ delete_where (has_id_in key_of vs) m
unfolding remove_all
remove_all-eq [] m = sym (delete_where_none (has_id_in key_of []) m (λ e. refl))
remove_all-eq (v ∷ vs) m =
    remove_all-eq vs (remove v.0 m)
    ∙ (ap (delete_where (has_id_in key_of vs)) (remove-eq v.0 m)
        ∙ delete_where-twice (λ e. codes_eq.beq (key_of e) v.0) (has_id_in key_of vs)
            (has_id_in key_of (v ∷ vs)) m
            (λ e. ground (arith, codes_eq.beq_iff v.0 e.0, codes_eq.beq_iff e.0 v.0)))

select-all : (m : Parts) → select (λ e. true) m ≡ m
select-all [] = refl
select-all (e ∷ m) = ap (◌∷◌ e) (select-all m)

module _ (db : OrderBy (List ℕ × Assembly)) where
  remove_all-le :
      (n : ℕ) (kept : Parts)
      → length (remove_all (take n (db.order created_of kept)) kept) ≤ length kept - n
  unfolding delete_oldest select_oldest
  remove_all-le n kept = rw (remove_all-eq (take n (db.order created_of kept)) kept) (
      subst
        (λ m.
          length (delete_where (has_id_in key_of (take n (db.order created_of m))) kept)
          ≤ length kept - n)
        (select-all kept) all_counted)
    where
      all_counted :
          length (
            delete_where
              (has_id_in key_of (take n (db.order created_of (select (λ e. true) kept))))
              kept)
          ≤ length kept - n
      all_counted = omega (
        arith,
        count_where-delete_oldest db key_of created_of (λ e. true) (λ e. true) n kept (λ e h. refl),
        count_where-true kept,
        count_where-true (
            delete_where (has_id_in key_of (take n (db.order created_of (select (λ e. true) kept))))
              kept),
      )

  pub cleanup-le : (now : ℕ) (parts : Parts) → length (cleanup db now parts) ≤ 64
  unfolding cleanup
  cleanup-le now parts =
      let kept = retain (λ a. ltb (now - a.created_at_ms) 60000) parts in
      ground (arith, remove_all-le (length kept - 64) kept)

-- A property of all assemblies is kept.
module _ {κ} (P : Assembly → Type κ) where
  All-remove_all : (vs m : Parts) → All (λ e. P e.1) m → All (λ e. P e.1) (remove_all vs m)
  unfolding remove_all
  All-remove_all [] m h = h
  All-remove_all (v ∷ vs) m h = All-remove_all vs (remove v.0 m) (All-remove P v.0 m h)

  pub All-cleanup :
      (db : OrderBy (List ℕ × Assembly)) (now : ℕ) (parts : Parts)
      → All (λ e. P e.1) parts
      → All (λ e. P e.1) (cleanup db now parts)
  unfolding cleanup
  All-cleanup db now parts h =
      let live = λ (a : Assembly). ltb (now - a.created_at_ms) 60000 in
      let kept = retain live parts in
      elim (Bool-cases (ltb max_inflight_assemblies (length kept))) [
        | inl t ↦ rw (t) (
            All-remove_all (take (length kept - max_inflight_assemblies) (db.order created_of kept))
              kept (All-retain P live parts h))
        | inr t ↦ rw (t) (All-retain P live parts h)
      ]
