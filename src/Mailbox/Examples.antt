-- ===== src/Mailbox/Examples.antt =====
-- Runs of the mailbox on small tables, and the theorems at concrete inputs.
use fedi.Base.{
  ℕ, ◌≤◌, ◌≡◌, refl, min, max, Option, some, List, [], ◌∷◌, String, length, select, count_where,
  sum_by, map,
}
use fedi.Rows.Insertion.{stable, sort_by}
use fedi.Mailbox.{MailboxStore, Row, row_id, size_of, is_for, put, poll, MailboxMessage}
use fedi.Mailbox.Limits.{put_limits}
use fedi.Mailbox.Frame.{is_untouched, put-keeps}
use fedi.Mailbox.Reading.{poll_lem, live, asked, message_id}

abbrev store : MailboxStore
store = record { max_per_peer = 2; max_bytes_per_peer = 5; max_ttl_secs = 3600 }

abbrev old_row : Row
old_row = record {
  id = "m1";
  to_peer_id = "bob";
  from_peer_id = "ann";
  created_at_ms = 100;
  expires_at_ms = 90000;
  size_bytes = 3;
  req_json = 1 ∷ 2 ∷ 3 ∷ [];
}

abbrev eve_row : Row
eve_row = record old_row { id = "m2"; to_peer_id = "eve" }

abbrev late_row : Row
late_row = record old_row { id = "m3"; created_at_ms = 200 }

abbrev rows : List Row
rows = late_row ∷ eve_row ∷ old_row ∷ []

abbrev json : List ℕ
json = 7 ∷ 8 ∷ []

abbrev from_slice : List ℕ → Option ℕ
from_slice bytes = some (length bytes)

-- The third message for bob has the oldest one deleted.
put_drops_oldest :
    map row_id (put stable store 300 "ann" "bob" "m4" json 60 rows) ≡ "m4" ∷ "m3" ∷ "m2" ∷ []
unfolding put sort_by
put_drops_oldest = refl

-- A message over the limit of bytes is deleted at once, with all others for the peer.
put_too_large :
    map row_id (put stable store 300 "ann" "bob" "m4" (1 ∷ 1 ∷ 1 ∷ 1 ∷ 1 ∷ 1 ∷ []) 60 rows)
    ≡ "m2" ∷ []
unfolding put sort_by
put_too_large = refl

-- The id of a message for another peer takes that message away.
put_takes_id :
    map row_id (put stable store 300 "mal" "mal" "m3" json 60 rows) ≡ "m3" ∷ "m2" ∷ "m1" ∷ []
unfolding put sort_by
put_takes_id = refl

put_limits_example :
    (count_where (is_for "bob") (put stable store 300 "ann" "bob" "m4" json 60 rows) ≤ 2)
    × (sum_by size_of (select (is_for "bob") (put stable store 300 "ann" "bob" "m4" json 60 rows))
        ≤ 5)
put_limits_example = put_limits stable store "bob" 300 "ann" "m4" json 60 rows

put-keeps_example :
    select
      (is_untouched stable store 300 "bob" "m4")
      (put stable store 300 "ann" "bob" "m4" json 60 rows)
    ≡ select (is_untouched stable store 300 "bob" "m4") rows
put-keeps_example = put-keeps stable store 300 "ann" "bob" "m4" json 60 rows

abbrev ids : List String
ids = "m1" ∷ "m2" ∷ []

poll_lem_example :
    (ms : List (MailboxMessage ℕ)) × ((poll from_slice stable 400 "bob" 1 rows
        ≡ (live from_slice stable 400 "bob" 1 rows, some ms))
      × ((map (message_id from_slice) ms ≡ map row_id (asked from_slice stable 400 "bob" 1 rows))
          × (length ms
              ≡ min
                  (min (max 1 1) 200)
                  (count_where (is_for "bob") (live from_slice stable 400 "bob" 1 rows)))))
poll_lem_example = poll_lem from_slice stable 400 "bob" 1 rows (refl, (refl, (refl, tt)))
