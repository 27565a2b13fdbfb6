-- ===== src/Spool/Rounds.antt =====
-- A flush ends: every round that is followed by another takes an item of the user out of the spool.
use fedi.Base.{
  string_eq, nat_eq, ℕ, zero, suc, ◌+◌, ◌≤◌, ◌<◌, ◌≡◌, refl, ap, Bool, true, false, not, ◌&&◌, ◌||◌,
  List, [], ◌∷◌, String, arith, leb, ◌==◌, if◌then◌else◌, length, length-append, any-append,
  count_where, count_where-select, count_where_split, count_where-le-length, count_where_same, inl,
  inr, Bool-cases, min, max, is_some,
}
use fedi.Rows.{OrderBy, update_where, delete_where}
use fedi.Rows.Selection.{count_where-select_oldest_both}
use fedi.Spool.{
  SpoolItem, SpoolConfig, item_id, created_at, is_of, bump_spool_try, is_among, Batch,
  delivered_item, bumped_item, dead_item, blocked_item, flush_items, Flush, started, finished,
  batch_items, list_spool, flush_round, flush_rounds, flush_spool_for_user, delete_spool_ids,
  is_last_try, is_success, is_blocked,
}
use fedi.Spool.Settling.{taken, delete_spool_ids-eq, flush_round-after}

-- The number of ids that a batch deletes.
abbrev marks : Batch → ℕ
marks b = length b.delivered_ids + length b.deadletter_ids

module _ (cfg : SpoolConfig) (answer : SpoolItem → ℕ) where
  flush_items-keeps_taken :
      (items : List SpoolItem) (b : Batch) (r : SpoolItem)
      → taken b r ≡ true
      → taken (flush_items cfg answer items b) r ≡ true
  unfolding flush_items
  flush_items-keeps_taken [] b r h = h
  flush_items-keeps_taken (i ∷ items) b r h = ground (
    arith,
    h,
    any-append (λ id. r.id == id) b.delivered_ids (i.id ∷ []),
    any-append (λ id. r.id == id) b.deadletter_ids (i.id ∷ []),
    flush_items-keeps_taken items (delivered_item i b) r,
    flush_items-keeps_taken items (dead_item i (bumped_item i b)) r,
    flush_items-keeps_taken items (blocked_item (bumped_item i b)) r,
  )

  delivered_marks :
      (i : SpoolItem) (b : Batch)
      → (marks (delivered_item i b) ≡ marks b + 1) × (taken (delivered_item i b) i ≡ true)
  delivered_marks i b = (
    omega (arith, length-append b.delivered_ids (i.id ∷ [])),
    ground (arith, any-append (λ id. i.id == id) b.delivered_ids (i.id ∷ [])),
  )

  dead_marks :
      (i : SpoolItem) (b : Batch)
      → (marks (dead_item i (bumped_item i b)) ≡ marks b + 1)
        × (taken (dead_item i (bumped_item i b)) i ≡ true)
  dead_marks i b = (
    omega (arith, length-append b.deadletter_ids (i.id ∷ [])),
    ground (arith, any-append (λ id. i.id == id) b.deadletter_ids (i.id ∷ [])),
  )

  -- Each id that is marked is that of an item.
  marks-flush_items :
      (items : List SpoolItem) (b : Batch)
      → marks (flush_items cfg answer items b)
        ≤ marks b + count_where (taken (flush_items cfg answer items b)) items
  unfolding flush_items
  marks-flush_items [] b = omega arith
  marks-flush_items (i ∷ items) b =
      either (is_success (answer i) || answer i == 202) _ _
        (marked (delivered_item i b) (marks-flush_items items (delivered_item i b))
          (delivered_marks i b))
        (either (answer i == 503) _ _ (omega arith) (
          either (is_last_try cfg i) _ _
            (marked (dead_item i (bumped_item i b))
              (marks-flush_items items (dead_item i (bumped_item i b))) (dead_marks i b))
            (either (is_blocked (answer i)) _ _
              (more (blocked_item (bumped_item i b))
                (marks-flush_items items (blocked_item (bumped_item i b))) refl)
              (omega arith))))
    where
      either :
          (c : Bool)
          → (x y : Batch) → marks x ≤ marks b + count_where (taken x) (i ∷ items)
          → marks y ≤ marks b + count_where (taken y) (i ∷ items)
          → marks (if c then x else y)
            ≤ marks b + count_where (taken (if c then x else y)) (i ∷ items)
      either true x y p q = p
      either false x y p q = q

      more :
          (b1 : Batch)
          → marks (flush_items cfg answer items b1)
            ≤ marks b1 + count_where (taken (flush_items cfg answer items b1)) items
          → marks b1 ≡ marks b
          → marks (flush_items cfg answer items b1)
            ≤ marks b + count_where (taken (flush_items cfg answer items b1)) (i ∷ items)
      more b1 ih e = omega (arith, e, ih)

      marked :
          (b1 : Batch)
          → marks (flush_items cfg answer items b1)
            ≤ marks b1 + count_where (taken (flush_items cfg answer items b1)) items
          → (marks b1 ≡ marks b + 1) × (taken b1 i ≡ true)
          → marks (flush_items cfg answer items b1)
            ≤ marks b + count_where (taken (flush_items cfg answer items b1)) (i ∷ items)
      marked b1 ih e = rw (flush_items-keeps_taken items b1 i e.1) (omega (arith, e.0, ih))

  -- A test that does not read the tries counts the same after the bumps.
  count_where-bump :
      (t : SpoolItem → Bool) (id : ℕ) (rows : List SpoolItem)
      → ((r : SpoolItem) (n : ℕ) → t (record r { tries = n }) ≡ t r)
      → count_where t (bump_spool_try id rows) ≡ count_where t rows
  unfolding bump_spool_try update_where
  count_where-bump t id [] h = refl
  count_where-bump t id (r ∷ rows) h =
      ground (arith, h r (r.tries + 1), count_where-bump t id rows h)

  count_where-flush_items :
      (t : SpoolItem → Bool) (items : List SpoolItem) (b : Batch)
      → ((r : SpoolItem) (n : ℕ) → t (record r { tries = n }) ≡ t r)
      → count_where t (flush_items cfg answer items b).rows ≡ count_where t b.rows
  unfolding flush_items
  count_where-flush_items t [] b h = refl
  count_where-flush_items t (i ∷ items) b h = ground (
    arith,
    count_where-bump t i.id b.rows h,
    count_where-flush_items t items (delivered_item i b) h,
    count_where-flush_items t items (dead_item i (bumped_item i b)) h,
    count_where-flush_items t items (blocked_item (bumped_item i b)) h,
  )

count_where-finished :
    (b : Batch) (p : SpoolItem → Bool)
    → count_where p (finished b).rows ≡ count_where (λ r. p r && not (taken b r)) b.rows
unfolding finished
count_where-finished b p = ground (
  arith,
  ap (count_where p)
      (delete_spool_ids-eq b.deadletter_ids (delete_spool_ids b.delivered_ids b.rows)),
  ap (λ rs. count_where p (delete_where (is_among b.deadletter_ids) rs))
      (delete_spool_ids-eq b.delivered_ids b.rows),
  count_where-select (λ r. not (is_among b.deadletter_ids r)) p
      (delete_where (is_among b.delivered_ids) b.rows),
  count_where-select (λ r. not (is_among b.delivered_ids r))
      (λ r. not (is_among b.deadletter_ids r) && p r) b.rows,
  count_where_same
      (λ r. not (is_among b.delivered_ids r) && (not (is_among b.deadletter_ids r) && p r))
      (λ r. p r && not (taken b r)) b.rows (λ r. ground arith),
)

module _ (db : OrderBy SpoolItem) (cfg : SpoolConfig) (user : String) where
  -- A batch of which every item is marked leaves fewer items of the user.
  finished_shrinks :
      (answer : SpoolItem → ℕ) (f : Flush)
      → let items = batch_items db cfg user f.rows in
        let b = flush_items cfg answer items (started f) in
        (length items == 0) ≡ false
        → leb (length items) (marks b) ≡ true
        → count_where (is_of user) (finished b).rows < count_where (is_of user) f.rows
  unfolding list_spool
  finished_shrinks answer f e h =
      let items = batch_items db cfg user f.rows in
      let b = flush_items cfg answer items (started f) in
      let n = min (min (max cfg.spool_flush_batch 1) 500) 1000 in
      ground (
        arith,
        e,
        h,
        count_where-finished b (is_of user),
        count_where-flush_items cfg answer (λ r. is_of user r && not (taken b r)) items (started f)
            (λ r n. refl),
        count_where_split (is_of user) (taken b) f.rows,
        count_where-select_oldest_both db item_id created_at (is_of user) n f.rows (taken b),
        marks-flush_items cfg answer items (started f),
      )

  -- A round that another follows leaves fewer items of the user.
  pub flush_round_shrinks :
      (answer : SpoolItem → ℕ) (f : Flush)
      → (flush_round db cfg user answer f).1 ≡ true
      → count_where (is_of user) (flush_round db cfg user answer f).0.rows
        < count_where (is_of user) f.rows
  unfolding flush_round
  flush_round_shrinks answer f h =
      elim (Bool-cases (length (batch_items db cfg user f.rows) == 0)) [
        | inl t ↦ absurd (ground (arith, h, t))
        | inr t ↦
            rw (flush_round-after db cfg user answer f, t)
              (finished_shrinks answer f t (ground (arith, h, t)))
      ]

  flush_rounds_end :
      (fuel round : ℕ) (is_connected : ℕ → Bool) (answer : ℕ → SpoolItem → ℕ) (f : Flush)
      → count_where (is_of user) f.rows < fuel
      → is_some (flush_rounds db cfg user fuel round is_connected answer f) ≡ true
  unfolding flush_rounds
  flush_rounds_end zero round is_connected answer f h = absurd (omega (arith, h))
  flush_rounds_end (suc fuel) round is_connected answer f h =
      let r = flush_round db cfg user (answer round) f in
      ground (
        arith,
        flush_round_shrinks (answer round) f,
        flush_rounds_end fuel (suc round) is_connected answer r.0,
      )

  -- A flush of the spool of a user ends, whatever the core answers to each item in each round and
  -- whenever the tunnel is there.
  pub flush_spool_for_user-Ends :
      (is_connected : ℕ → Bool) (answer : ℕ → SpoolItem → ℕ) (f : Flush)
      → is_some (flush_spool_for_user db cfg user is_connected answer f) ≡ true
  unfolding flush_spool_for_user
  flush_spool_for_user-Ends is_connected answer f = ground (
    arith,
    flush_rounds_end (suc (length f.rows)) 0 is_connected answer f
        (omega (arith, count_where-le-length (is_of user) f.rows)),
  )
