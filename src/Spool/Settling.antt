-- ===== src/Spool/Settling.antt =====
-- Which items a round takes out of the spool.
use fedi.Base.{
  string_eq, nat_eq, ℕ, zero, suc, ◌≤◌, ◌≡◌, refl, ap, sym, Bool, true, false, not, ◌&&◌, ◌||◌,
  List, [], ◌∷◌, String, arith, ◌==◌, ==_iff, if◌then◌else◌, length, take, drop, take-append-drop,
  length-drop, any-append, any_le, any, count_where, count_where_split, max, All, inl, inr,
  Bool-cases, ◌∙◌, min,
}
use fedi.Rows.{OrderBy, update_where, delete_where}
use fedi.Rows.Selection.{count_where-select_oldest-le}
use fedi.Rows.Deletes.{delete_where-twice, delete_where_none}
use fedi.Rows.Retention.{HasUniqueIds, All-mono, All-counted, any_some, any_all_none, count_id}
use fedi.Spool.{
  SpoolItem, SpoolConfig, item_id, created_at, is_of, bump_spool_try, is_among, delete_chunks,
  delete_spool_ids, is_success, is_last_try, Batch, delivered_item, bumped_item, dead_item,
  blocked_item, flush_items, Flush, started, finished, list_spool, batch_items, flush_round,
}

-- The deletes of the chunks are one delete.
delete_chunks-eq :
    (chunks : ℕ) (ids : List ℕ) (rows : List SpoolItem)
    → length ids ≤ chunks
    → delete_chunks chunks ids rows ≡ delete_where (is_among ids) rows
unfolding delete_chunks
delete_chunks-eq zero [] rows h = sym (delete_where_none (is_among []) rows (λ r. refl))
delete_chunks-eq zero (id ∷ ids) rows h = absurd (omega (arith, h))
delete_chunks-eq (suc chunks) ids rows h =
    delete_chunks-eq chunks (drop 500 ids) (delete_where (is_among (take 500 ids)) rows)
      (omega (arith, length-drop 500 ids))
    ∙ delete_where-twice (is_among (take 500 ids)) (is_among (drop 500 ids)) (is_among ids) rows
        (λ r.
          ap (any (λ id. r.id == id)) (sym (take-append-drop 500 ids))
          ∙ any-append (λ id. r.id == id) (take 500 ids) (drop 500 ids))

pub delete_spool_ids-eq :
    (ids : List ℕ) (rows : List SpoolItem)
    → delete_spool_ids ids rows ≡ delete_where (is_among ids) rows
unfolding delete_spool_ids
delete_spool_ids-eq ids rows = delete_chunks-eq (length ids) ids rows (omega arith)

-- The id of a row is among those that a batch deletes.
abbrev pub taken : Batch → SpoolItem → Bool
taken b r = is_among b.delivered_ids r || is_among b.deadletter_ids r

module _ (cfg : SpoolConfig) (answer : SpoolItem → ℕ) where
  -- The core takes the item, or has refused it as often as the spool tries.
  abbrev pub is_settled : SpoolItem → Bool
  is_settled item =
      is_success (answer item)
      || answer item == 202
      || not (answer item == 503) && is_last_try cfg item

  flush_items-taken :
      (items : List SpoolItem) (b : Batch) (r : SpoolItem)
      → taken (flush_items cfg answer items b) r ≡ true
      → taken b r || any (λ i. i.id == r.id && is_settled i) items ≡ true
  unfolding flush_items
  flush_items-taken [] b r h = ground (arith, h)
  flush_items-taken (i ∷ items) b r h = ground (
    arith,
    any-append (λ id. r.id == id) b.delivered_ids (i.id ∷ []),
    any-append (λ id. r.id == id) b.deadletter_ids (i.id ∷ []),
    flush_items-taken items (delivered_item i b) r,
    flush_items-taken items (dead_item i (bumped_item i b)) r,
    flush_items-taken items (blocked_item (bumped_item i b)) r,
  )

-- A row with the id is in the table.
abbrev pub has_row : ℕ → List SpoolItem → Bool
has_row k rows = any (λ s. s.id == k) rows

has_row-bump :
    (k id : ℕ) (rows : List SpoolItem) → has_row k (bump_spool_try id rows) ≡ has_row k rows
unfolding bump_spool_try update_where
has_row-bump k id [] = refl
has_row-bump k id (r ∷ rows) = ground (arith, has_row-bump k id rows)

has_row-flush_items :
    (cfg : SpoolConfig) (answer : SpoolItem → ℕ) (k : ℕ) (items : List SpoolItem) (b : Batch)
    → has_row k (flush_items cfg answer items b).rows ≡ has_row k b.rows
unfolding flush_items
has_row-flush_items cfg answer k [] b = refl
has_row-flush_items cfg answer k (i ∷ items) b = ground (
  arith,
  has_row-bump k i.id b.rows,
  has_row-flush_items cfg answer k items (delivered_item i b),
  has_row-flush_items cfg answer k items (dead_item i (bumped_item i b)),
  has_row-flush_items cfg answer k items (blocked_item (bumped_item i b)),
)

-- A delete of other ids leaves the row.
has_row-delete :
    (ids : List ℕ) (r : SpoolItem) (rows : List SpoolItem)
    → is_among ids r ≡ false
    → has_row r.id (delete_where (is_among ids) rows) ≡ has_row r.id rows
has_row-delete ids r [] h = refl
has_row-delete ids r (s ∷ rows) h = elim (Bool-cases (s.id == r.id)) [
  | inl t ↦
      let other : is_among ids s ≡ false =
        ap (λ (k : ℕ). any (λ id. k == id) ids) ((==_iff s.id r.id).0 t) ∙ h in
      ground (arith, other, t)
  | inr t ↦ ground (arith, t, has_row-delete ids r rows)
]

has_row-finished :
    (b : Batch) (r : SpoolItem)
    → taken b r ≡ false
    → has_row r.id (finished b).rows ≡ has_row r.id b.rows
unfolding finished
has_row-finished b r h = ground (
  arith,
  ap (has_row r.id)
      (delete_spool_ids-eq b.deadletter_ids (delete_spool_ids b.delivered_ids b.rows)),
  ap (has_row r.id) (delete_spool_ids-eq b.delivered_ids b.rows),
  has_row-delete b.deadletter_ids r (delete_spool_ids b.delivered_ids b.rows),
  has_row-delete b.delivered_ids r b.rows,
)

module _ (db : OrderBy SpoolItem) (cfg : SpoolConfig) (user : String) (answer : SpoolItem → ℕ) where
  -- A row of the table is there by its id.
  counted_row :
      (r : SpoolItem) (rows : List SpoolItem)
      → ((t : SpoolItem → Bool) → t r ≡ true → 1 ≤ count_where t rows)
      → has_row r.id rows ≡ true
  counted_row r rows counted = elim (Bool-cases (has_row r.id rows)) [
    | inl t ↦ t
    | inr t ↦ absurd (
        omega (
          arith,
          any_all_none (λ s. s.id == r.id) rows t,
          counted (λ s. s.id == r.id) (ground arith),
        ))
  ]

  -- With distinct ids, an item of the batch that shares its id with a row is that row.
  settled_row :
      (rows : List SpoolItem) (r : SpoolItem)
      → HasUniqueIds item_id rows
      → ((t : SpoolItem → Bool) → t r ≡ true → 1 ≤ count_where t rows)
      → any (λ i. i.id == r.id && is_settled cfg answer i) (batch_items db cfg user rows) ≡ true
      → has_row r.id (batch_items db cfg user rows) && is_settled cfg answer r ≡ true
  unfolding list_spool
  settled_row rows r u counted h =
      let settled = is_settled cfg answer in
      let named = λ (s : SpoolItem). s.id == r.id in
      let n = min (min (max cfg.spool_flush_batch 1) 500) 1000 in
      elim (Bool-cases (settled r)) [
        | inl t ↦ ground (
          arith,
          t,
          any_le (λ i. named i && settled i) named (batch_items db cfg user rows)
              (λ i e. ground (arith, e)) h,
        )
        | inr t ↦ absurd (
            omega (
              arith,
              any_some (λ i. named i && settled i) (batch_items db cfg user rows) h,
              count_where-select_oldest-le db item_id created_at (is_of user) n rows
                  (λ i. named i && settled i),
              count_where_split named settled rows,
              counted (λ s. named s && not (settled s)) (ground (arith, t)),
              count_id item_id r.id rows u,
            ))
      ]

  -- What the round leaves: nothing is done where the list is empty.
  pub flush_round-after :
      (f : Flush)
      → let items = batch_items db cfg user f.rows in
        (flush_round db cfg user answer f).0
        ≡ (if length items == 0 then f else finished (flush_items cfg answer items (started f)))
  unfolding flush_round
  flush_round-after f = elim (Bool-cases (length (batch_items db cfg user f.rows) == 0)) [
    | inl t ↦ rw (t) refl
    | inr t ↦ rw (t) refl
  ]

  kept_or_settled :
      (f : Flush)
      → HasUniqueIds item_id f.rows
      → (r : SpoolItem) → ((t : SpoolItem → Bool) → t r ≡ true → 1 ≤ count_where t f.rows)
      → has_row r.id (batch_items db cfg user f.rows) && is_settled cfg answer r
          || has_row r.id
              (finished (flush_items cfg answer (batch_items db cfg user f.rows) (started f))).rows
        ≡ true
  kept_or_settled f u r counted =
      let items = batch_items db cfg user f.rows in
      let b = flush_items cfg answer items (started f) in
      elim (Bool-cases (taken b r)) [
        | inl t ↦ ground (
          arith,
          settled_row f.rows r u counted
              (ground (arith, flush_items-taken cfg answer items (started f) r t)),
        )
        | inr t ↦ ground (
          arith,
          has_row-finished b r t,
          has_row-flush_items cfg answer r.id items (started f),
          counted_row r f.rows counted,
        )
      ]

  -- If ids are unique, each row of the spool is there, by its id, after a round of the flush,
  -- unless it is in the batch and the core took it or refused it other than by 503 on its last try.
  pub flush_round-keeps :
      (f : Flush)
      → HasUniqueIds item_id f.rows
      → All
          (λ r.
            has_row r.id (batch_items db cfg user f.rows) && is_settled cfg answer r
              || has_row r.id (flush_round db cfg user answer f).0.rows
            ≡ true)
          f.rows
  flush_round-keeps f u = All-mono _ _ f.rows keeps (All-counted f.rows)
    where
      keeps :
          (r : SpoolItem)
          → ((t : SpoolItem → Bool) → t r ≡ true → 1 ≤ count_where t f.rows)
          → has_row r.id (batch_items db cfg user f.rows) && is_settled cfg answer r
              || has_row r.id (flush_round db cfg user answer f).0.rows
            ≡ true
      keeps r counted = elim (Bool-cases (length (batch_items db cfg user f.rows) == 0)) [
        | inl t ↦ rw (flush_round-after f, t) (ground (arith, counted_row r f.rows counted))
        | inr t ↦ rw (flush_round-after f, t) (kept_or_settled f u r counted)
      ]
