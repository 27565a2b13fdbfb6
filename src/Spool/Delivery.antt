-- ===== src/Spool/Delivery.antt =====
-- A flush while the user stays connected and the core takes every item.
use fedi.Base.{
  string_eq, nat_eq, ℕ, zero, suc, ◌+◌, ◌<◌, ◌≡◌, refl, Bool, true, false, ◌||◌, Option, some, List,
  [], ◌∷◌, String, arith, ◌==◌, length, length-append, count_where, count_where-le-length, inl, inr,
  Bool-cases, min, max,
}
use fedi.Access.{codes, is_valid_username}
use fedi.Rows.{OrderBy}
use fedi.Rows.Selection.{length-select_oldest}
use fedi.Spool.{
  SpoolItem, SpoolConfig, item_id, created_at, is_of, is_success, Batch, delivered_item,
  flush_items, Flush, started, batch_items, list_spool, flush_round, flush_rounds,
  flush_spool_for_user,
}
use fedi.Spool.Rounds.{flush_round_shrinks}

abbrev pub is_taken : (status : ℕ) → Bool
is_taken status = is_success status || status == 202

module _ (db : OrderBy SpoolItem) (cfg : SpoolConfig) (user : String) where
  delivered-flush_items :
      (answer : SpoolItem → ℕ) (items : List SpoolItem) (b : Batch)
      → ((item : SpoolItem) → is_taken (answer item) ≡ true)
      → length (flush_items cfg answer items b).delivered_ids
        ≡ length b.delivered_ids + length items
  unfolding flush_items
  delivered-flush_items answer [] b h = omega arith
  delivered-flush_items answer (i ∷ items) b h = rw (h i) (
      omega (
        arith,
        delivered-flush_items answer items (delivered_item i b) h,
        length-append b.delivered_ids (i.id ∷ []),
      ))

  -- A round either finds nothing of the user, or is followed by another.
  taken_round :
      (answer : SpoolItem → ℕ) (f : Flush)
      → ((item : SpoolItem) → is_taken (answer item) ≡ true)
      → (length (batch_items db cfg user f.rows) == 0) ≡ false
      → (flush_round db cfg user answer f).1 ≡ true
  unfolding flush_round
  taken_round answer f h e =
      rw (e) (
        ground (arith, delivered-flush_items answer (batch_items db cfg user f.rows) (started f) h))

  empty_round :
      (answer : SpoolItem → ℕ) (f : Flush)
      → (length (batch_items db cfg user f.rows) == 0) ≡ true
      → (flush_round db cfg user answer f ≡ (f, false)) × (count_where (is_of user) f.rows ≡ 0)
  unfolding flush_round list_spool
  empty_round answer f e =
      let n = min (min (max cfg.spool_flush_batch 1) 500) 1000 in
      (
        rw (e) refl,
        ground (arith, e, length-select_oldest db item_id created_at (is_of user) n f.rows),
      )

  Emptied : Option Flush → Type 0
  Emptied o = (g : Flush) × ((o ≡ some g) × (count_where (is_of user) g.rows ≡ 0))

  flush_rounds-Emptied :
      (fuel round : ℕ) (is_connected : ℕ → Bool) (answer : ℕ → SpoolItem → ℕ) (f : Flush)
      → ((k : ℕ) → is_connected k ≡ true)
      → ((k : ℕ) (item : SpoolItem) → is_taken (answer k item) ≡ true)
      → count_where (is_of user) f.rows < fuel
      → Emptied (flush_rounds db cfg user fuel round is_connected answer f)
  unfolding flush_rounds Emptied
  flush_rounds-Emptied zero round is_connected answer f c h l = absurd (omega (arith, l))
  flush_rounds-Emptied (suc fuel) round is_connected answer f c h l =
      let r = flush_round db cfg user (answer round) f in
      elim (Bool-cases (length (batch_items db cfg user f.rows) == 0)) [
        | inl e ↦ let z = empty_round (answer round) f e in (f, (rw (c round, z.0) refl, z.1))
        | inr e ↦
            let more = taken_round (answer round) f (h round) e in
            let rest =
              flush_rounds-Emptied fuel (suc round) is_connected answer r.0 c h
                (omega (arith, l, flush_round_shrinks db cfg user (answer round) f more)) in
            (rest.0, (rw (c round, more) rest.1.0, rest.1.1))
      ]

  -- If the name is valid, the tunnel is there in every round and the core answers each item with a
  -- success or 202, the flush ends and no row of the user is left in the spool.
  pub flush_spool_for_user_delivers :
      (is_connected : ℕ → Bool) (answer : ℕ → SpoolItem → ℕ) (f : Flush)
      → is_valid_username (codes user) ≡ true
      → ((k : ℕ) → is_connected k ≡ true)
      → ((k : ℕ) (item : SpoolItem) → is_taken (answer k item) ≡ true)
      → (g : Flush) × ((flush_spool_for_user db cfg user is_connected answer f ≡ some g)
          × (count_where (is_of user) g.rows ≡ 0))
  unfolding flush_spool_for_user Emptied
  flush_spool_for_user_delivers is_connected answer f v c h =
      let r =
        flush_rounds-Emptied (suc (length f.rows)) 0 is_connected answer f c h
          (omega (arith, count_where-le-length (is_of user) f.rows)) in
      (r.0, (rw (v) r.1.0, r.1.1))
