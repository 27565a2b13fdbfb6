-- ===== src/Spool/Refinement.antt =====
-- The spool's table of all users, crates/fedi3_relay/src/main.rs, against the boxes.
use fedi.Base.{
  string_eq, nat_eq, ℕ, suc, ◌+◌, ◌-◌, ◌≡◌, refl, ap, subst, ◌∙◌, inl, inr, true, false, not, ◌&&◌,
  min, List, [], ◌∷◌, String, str_eq, eq_iff, arith, ltb, ◌==◌, select, count_where, length-select,
  Bool-cases,
}
use fedi.Rows.{OrderBy, select_oldest, delete_oldest}
use fedi.Rows.Retention.{HasUniqueIds, select-delete_oldest, All-mono}
use fedi.Spool.{
  SpoolItem, InboxSpool, SpoolConfig, item_id, created_at, is_of, spooled, cap_user, enqueue_spool,
  list_spool, bump_spool_try, is_among, cleanup_spool,
}
use fedi.Spool.Capacity.{IsSound}
use fedi.Spool.Settling.{delete_spool_ids-eq}
use fedi.Rows.Restriction.{select_commutes, select-update_where, update_where-map_if}
use fedi.Spool.Soundness.{Sound, select-Sound, bump-Sound, flush_round-Sound}
use fedi.Spool.Flushing.{flushed-own}
use fedi.Spool.Sparing.{flushed-other}
use fedi.Spool.Boxes.{
  Command, enqueue, bump, delete, cleanup, flush, flushed, flush_of, Box, step, run, oldest, capped,
  box_step, box_run, view,
}

module _ (db : OrderBy SpoolItem) (cfg : SpoolConfig) where
  cap-Sound :
      (cap n : ℕ) (username : String) (rows : List SpoolItem)
      → Sound n rows
      → Sound n (cap_user db cap username rows)
  unfolding cap_user delete_oldest
  cap-Sound cap n username rows s =
      elim (Bool-cases (ltb 0 cap && ltb cap (count_where (is_of username) rows))) [
        | inl t ↦ rw (t) (select-Sound _ n rows s)
        | inr t ↦ rw (t) s
      ]

  step-IsSound : (c : Command) (t : InboxSpool) → IsSound t → IsSound (step db cfg c t)
  unfolding step enqueue_spool cleanup_spool spooled
  step-IsSound (enqueue username now p) t s =
      let rows = spooled username now t.next_id p ∷ t.rows in
      let fresh : Sound (suc t.next_id) rows = record {
        unique = (All-mono _ _ t.rows (λ r h. ground (arith, h)) s.below, s.unique);
        below = (omega arith, All-mono _ _ t.rows (λ r h. omega (arith, h)) s.below);
      } in
      cap-Sound cfg.spool_max_rows_per_user (suc t.next_id) username rows fresh
  step-IsSound (bump id) t s = bump-Sound id t.next_id t.rows s
  step-IsSound (delete ids) t s =
      rw (delete_spool_ids-eq ids t.rows)
        (select-Sound (λ r. not (is_among ids r)) t.next_id t.rows s)
  step-IsSound (cleanup ttl_secs now) t s = select-Sound _ t.next_id t.rows s
  step-IsSound (flush username answer) t s =
      flush_round-Sound cfg answer db username t.next_id (flush_of t.rows) s

  -- The cap of the user's own items.
  cap-own :
      (user : String) (rows : List SpoolItem)
      → select (is_of user) (cap_user db cfg.spool_max_rows_per_user user rows)
        ≡ capped db cfg (select (is_of user) rows)
  unfolding cap_user delete_oldest select_oldest
  cap-own user rows =
      let cap = cfg.spool_max_rows_per_user in
      let n = count_where (is_of user) rows in
      elim (Bool-cases (ltb 0 cap && ltb cap n)) [
        | inl t ↦ rw (length-select (is_of user) rows, t) (select_commutes (is_of user) _ rows)
        | inr t ↦ rw (length-select (is_of user) rows, t) refl
      ]

  cap-other :
      (user username : String) (rows : List SpoolItem)
      → str_eq username user ≡ false
      → HasUniqueIds item_id rows
      → select (is_of user) (cap_user db cfg.spool_max_rows_per_user username rows)
        ≡ select (is_of user) rows
  unfolding cap_user
  cap-other user username rows d u =
      let n = count_where (is_of username) rows - cfg.spool_max_rows_per_user in
      let cap = cfg.spool_max_rows_per_user in
      elim (Bool-cases (ltb 0 cap && ltb cap (count_where (is_of username) rows))) [
        | inl t ↦ rw (t) (
            select-delete_oldest db item_id created_at (λ _. true) (is_of username) (is_of user) n
              rows (λ r e. apart r e) u)
        | inr t ↦ rw (t) refl
      ]
    where
      apart : (r : SpoolItem) → is_of user r ≡ true → is_of username r ≡ false
      apart r e =
          ground
            (arith, e, d, eq_iff r.username user, eq_iff r.username username, eq_iff username user)

  abbrev boxed : ℕ → List SpoolItem → Box
  boxed next_id items = record { items = items; next_id = next_id }

  -- A command on the table is that command on every box.
  view-step :
      (user : String) (c : Command) (t : InboxSpool)
      → IsSound t
      → view user (step db cfg c t) ≡ box_step db cfg user c (view user t)
  unfolding step box_step enqueue_spool cleanup_spool spooled bump_spool_try
  view-step user (enqueue username now p) t s =
      let item = spooled username now t.next_id p in
      let rows = item ∷ t.rows in
      let fresh = All-mono _ _ t.rows (λ r h. ground (arith, h)) s.below in
      elim (Bool-cases (str_eq username user)) [
        | inl e ↦
            let own =
              subst
                (λ u.
                  select (is_of u) (cap_user db cfg.spool_max_rows_per_user username rows)
                  ≡ capped db cfg (select (is_of u) rows))
                ((eq_iff username user).0 e) (cap-own username rows) in
            let here : select (is_of user) rows ≡ item ∷ select (is_of user) t.rows = rw (e) refl in
            rw (e) (ap (boxed (suc t.next_id)) (own ∙ ap (capped db cfg) here))
        | inr e ↦
            let other = cap-other user username rows e (fresh, s.unique) in
            let here : select (is_of user) rows ≡ select (is_of user) t.rows = rw (e) refl in
            rw (e) (ap (boxed (suc t.next_id)) (other ∙ here))
      ]
  view-step user (bump id) t s =
      let set = λ (r : SpoolItem). record r { tries = r.tries + 1 } in
      ap (boxed t.next_id) (
        select-update_where (is_of user) (λ r. r.id == id) set t.rows (λ r. refl)
        ∙ update_where-map_if (λ r. r.id == id) set (select (is_of user) t.rows))
  view-step user (delete ids) t s = ap (boxed t.next_id) (
      ap (select (is_of user)) (delete_spool_ids-eq ids t.rows)
      ∙ select_commutes (is_of user) _ t.rows)
  view-step user (cleanup ttl_secs now) t s =
      ap (boxed t.next_id) (select_commutes (is_of user) _ t.rows)
  view-step user (flush username answer) t s = elim (Bool-cases (str_eq username user)) [
    | inl e ↦
        let own =
          subst
            (λ u.
              select (is_of u) (flushed db cfg username answer t.rows)
              ≡ flushed db cfg username answer (select (is_of u) t.rows))
            ((eq_iff username user).0 e) (flushed-own cfg answer username db t.rows) in
        rw (e) (ap (boxed t.next_id) own)
    | inr e ↦
        rw (e) (ap (boxed t.next_id) (flushed-other cfg answer user db username t.rows e s.unique))
  ]

  view-run :
      (user : String) (cs : List Command) (t : InboxSpool)
      → IsSound t
      → view user (run db cfg cs t) ≡ box_run db cfg user cs (view user t)
  unfolding run box_run
  view-run user [] t s = refl
  view-run user (c ∷ cs) t s =
      view-run user cs (step db cfg c t) (step-IsSound c t s)
      ∙ ap (box_run db cfg user cs) (view-step user c t s)

  -- Whatever enqueues, tries, deletes, cleanups and whole flush rounds a spool with unique ids
  -- below the next one goes through, the rows of a user are what a box of that user alone would
  -- hold, and a listing gives the oldest items of that box, at most 1,000.
  pub run_refines :
      (user : String) (cs : List Command) (t : InboxSpool) (limit : ℕ)
      → IsSound t
      → (view user (run db cfg cs t) ≡ box_run db cfg user cs (view user t))
        × (list_spool db user limit (run db cfg cs t).rows
            ≡ oldest db cfg (min limit 1000) (box_run db cfg user cs (view user t)).items)
  unfolding list_spool select_oldest
  run_refines user cs t limit s =
      let e = view-run user cs t s in
      (e, ap (λ (b : Box). oldest db cfg (min limit 1000) b.items) e)
