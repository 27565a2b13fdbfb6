-- ===== src/Queue/Store/Receipts.antt =====
-- `mark_delivered_by_receipt` settles the relayed copies that the receipt names, once.
use fedi.Base.{◌+◌, ◌≡◌, refl, none, List, [], ◌∷◌, String, arith, count_where}
use fedi.Text.{trim}
use fedi.Rows.{update_where}
use fedi.Queue.{Job, is_pending, is_delivered, is_dead, delivered}
use fedi.Queue.Store.{confirmed_by, mark_delivered_by_receipt, stats}

abbrev settle : Job → Job
settle j = record j { status = delivered; last_error = none }

module _ (activity_id from_actor : String) where
  settle-stats :
      (rows : List Job)
      → let rows' = update_where (confirmed_by activity_id from_actor) settle rows in
        (count_where is_pending rows' ≡ count_where is_pending rows)
        × (count_where is_delivered rows'
            ≡ count_where is_delivered rows
              + count_where (confirmed_by activity_id from_actor) rows)
        × (count_where is_dead rows' ≡ count_where is_dead rows)
  unfolding update_where confirmed_by
  settle-stats [] = (refl, refl, refl)
  settle-stats (j ∷ rows) = ground (arith, settle-stats rows)

  settle_none_left :
      (rows : List Job)
      → let rows' = update_where (confirmed_by activity_id from_actor) settle rows in
        (count_where (confirmed_by activity_id from_actor) rows' ≡ 0)
        × (update_where (confirmed_by activity_id from_actor) settle rows' ≡ rows')
  unfolding update_where confirmed_by
  settle_none_left [] = (refl, refl)
  settle_none_left (j ∷ rows) = ground (arith, settle_none_left rows)

-- A receipt raises the number of delivered jobs by the count that it returns and leaves the numbers
-- of pending and dead jobs as they are.
pub mark_delivered_by_receipt-stats :
    (activity_id from_actor : String) (rows : List Job)
    → let (rows', n) = mark_delivered_by_receipt activity_id from_actor rows in
      stats rows' ≡ record (stats rows) { delivered = (stats rows).delivered + n }
unfolding mark_delivered_by_receipt stats
mark_delivered_by_receipt-stats activity_id from_actor rows =
    ground (arith, settle-stats (trim activity_id) (trim from_actor) rows)

-- The same receipt a second time returns 0 and changes nothing.
mark_delivered_by_receipt_once :
    (activity_id from_actor : String) (rows : List Job)
    → let rows' = (mark_delivered_by_receipt activity_id from_actor rows).0 in
      mark_delivered_by_receipt activity_id from_actor rows' ≡ (rows', 0)
unfolding mark_delivered_by_receipt
mark_delivered_by_receipt_once activity_id from_actor rows =
    ground (arith, settle_none_left (trim activity_id) (trim from_actor) rows)
