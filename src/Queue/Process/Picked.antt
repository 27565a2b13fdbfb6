-- ===== src/Queue/Process/Picked.antt =====
-- What is picked up for a group, in the steps of the worker of crates/fedi3_core/src/delivery_queue.rs.
use fedi.Base.{
  ◌≡◌, refl, sym, ap, ◌∙◌, true, false, some, List, [], ◌∷◌, String, arith, str_eq, eq_iff, any,
  inl, inr, Bool-cases, Option-cases,
}
use fedi.Queue.{Job, is_history}
use fedi.Queue.Store.Updates.{job_with}
use fedi.Queue.Process.{Env}
use fedi.Queue.Process.Group.{holds_id}
use fedi.Queue.Process.Settled.{AllOwn}
use fedi.Queue.Process.Steps.{picked, job_with-id}

module _ (key : String) (rows : List Job) where
  pub picked-absent :
      (members : List (String × Env))
      → any (λ m. str_eq m.0 key) members ≡ false
      → holds_id key (picked members rows) ≡ false
  unfolding picked
  picked-absent [] h = refl
  picked-absent ((id, env) ∷ members) h =
      let rest = picked-absent members (ground (arith, h)) in
      elim (Option-cases (job_with id rows)) [
        | inl e ↦ rw (e) rest
        | inr (j, e) ↦ rw (e) (ground (arith, h, rest, job_with-id id rows j e))
      ]

  -- A final job is not picked up.
  pub picked-final :
      (members : List (String × Env)) (j : Job)
      → job_with key rows ≡ some j
      → is_history j ≡ true
      → holds_id key (picked members rows) ≡ false
  unfolding picked
  picked-final [] j present final = refl
  picked-final ((id, env) ∷ members) j present final =
      let rest = picked-final members j present final in
      elim (Bool-cases (str_eq id key)) [
        | inl own ↦ rw ((eq_iff id key).0 own, present) (rw (final) rest)
        | inr other ↦ elim (Option-cases (job_with id rows)) [
          | inl e ↦ rw (e) rest
          | inr (x, e) ↦ rw (e) (ground (arith, other, rest, job_with-id id rows x e))
        ]
      ]

  pub picked-holds :
      (members : List (String × Env)) (j : Job)
      → job_with key rows ≡ some j
      → is_history j ≡ false
      → any (λ m. str_eq m.0 key) members ≡ true
      → holds_id key (picked members rows) ≡ true
  unfolding picked
  picked-holds [] j present open_job h = absurd (ground (arith, h))
  picked-holds ((id, env) ∷ members) j present open_job h = elim (Bool-cases (str_eq id key)) [
    | inl own ↦
        rw ((eq_iff id key).0 own, present)
          (rw (open_job) (ground (arith, job_with-id key rows j present, eq_iff j.id key)))
    | inr other ↦
        let rest = picked-holds members j present open_job (ground (arith, h, other)) in
        elim (Option-cases (job_with id rows)) [
          | inl e ↦ rw (e) rest
          | inr (x, e) ↦ rw (e) (ground (arith, rest))
        ]
  ]

  same_row :
      (id : String) (x j : Job)
      → job_with id rows ≡ some x
      → job_with key rows ≡ some j
      → str_eq x.id j.id ≡ true
      → x ≡ j
  same_row id x j ex ej e =
      let a : x.id ≡ id = job_with-id id rows x ex in
      let b : j.id ≡ key = job_with-id key rows j ej in
      let c : x.id ≡ j.id = (eq_iff x.id j.id).0 e in
      let both : some x ≡ some j = sym ex ∙ (ap (λ k. job_with k rows) (sym a ∙ (c ∙ b)) ∙ ej) in cc

  -- What is picked up under the id of a row is the row.
  pub picked-AllOwn :
      (members : List (String × Env)) (j : Job)
      → job_with key rows ≡ some j
      → AllOwn j (picked members rows)
  unfolding picked
  picked-AllOwn [] j present = tt
  picked-AllOwn ((id, env) ∷ members) j present =
      let rest = picked-AllOwn members j present in
      elim (Option-cases (job_with id rows)) [
        | inl e ↦ rw (e) rest
        | inr (x, e) ↦ elim (Bool-cases (is_history x)) [
          | inl f ↦ rw (e) (rw (f) rest)
          | inr f ↦ rw (e) (rw (f) ((λ same. same_row id x j e present same), rest))
        ]
      ]
