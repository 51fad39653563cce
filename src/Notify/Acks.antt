-- ===== src/Notify/Acks.antt =====
-- `mark_acked`: an acknowledgement happens once.
use nodus_hitl_hub.Base.{
  Bool, Bool-cases, List, String, [], any, ap, arith, count_if, false, inl, inr, leb, map, refl, ℕ,
  ◌==◌, ◌∷◌, ◌≡◌, ◌≤◌,
}
use nodus_hitl_hub.Notify.Store.{ack_row, ends_with_one, is_unacked, mark_acked}
use nodus_hitl_hub.World.{LogRow, World}
use nodus_hitl_hub.World.Exec.{ok}

ack_row-is_unacked : (id : String) (now : ℕ) (r : LogRow) → is_unacked id (ack_row id now r) ≡ false
ack_row-is_unacked id now r = ground arith

none_left :
    (id : String) (now : ℕ) (rows : List LogRow)
    → count_if (is_unacked id) (map (ack_row id now) rows) ≡ 0
none_left id now [] = refl
none_left id now (r ∷ rows) = rw (ack_row-is_unacked id now r) (none_left id now rows)

ack_row_idem :
    (id : String) (now later : ℕ) (r : LogRow)
    → ack_row id later (ack_row id now r) ≡ ack_row id now r
ack_row_idem id now later r = rw (ack_row-is_unacked id now r) refl

map-ack_row_idem :
    (id : String) (now later : ℕ) (rows : List LogRow)
    → map (ack_row id later) (map (ack_row id now) rows) ≡ map (ack_row id now) rows
map-ack_row_idem id now later [] = refl
map-ack_row_idem id now later (r ∷ rows) =
    cc (ack_row_idem id now later r, map-ack_row_idem id now later rows)

-- The rows of an id.
abbrev pub has_id : String → LogRow → Bool
has_id id r = r.notification_id == id

count_if-unacked-le :
    (id : String) (rows : List LogRow) → count_if (is_unacked id) rows ≤ count_if (has_id id) rows
count_if-unacked-le id [] = ground arith
count_if-unacked-le id (r ∷ rows) = ground (arith, count_if-unacked-le id rows)

any-count_if :
    (id : String) (rows : List LogRow)
    → any (is_unacked id) rows ≡ leb 1 (count_if (is_unacked id) rows)
any-count_if id [] = refl
any-count_if id (r ∷ rows) = elim (Bool-cases (is_unacked id r)) [
  | inl y ↦ rw y (ground arith)
  | inr n ↦ rw n (any-count_if id rows)
]

count_if-any :
    (id : String) (rows : List LogRow)
    → count_if (is_unacked id) rows ≤ 1
    → ends_with_one (count_if (is_unacked id) rows) ≡ any (is_unacked id) rows
count_if-any id rows h = rw (any-count_if id rows) (ground arith)

-- In a log where at most one row has the id, an acknowledgement answers whether an unacknowledged
-- row of the id was there; and at whatever later time, a second one answers no and changes
-- nothing, the time of the first one included.
pub mark_acked-once :
    (id : String) (later : ℕ) (w : World)
    → count_if (has_id id) w.notification_log ≤ 1
    → ((mark_acked id w).0 ≡ ok (any (is_unacked id) w.notification_log))
      × (mark_acked id (record (mark_acked id w).1 { now = later })
          ≡ (ok false, record (mark_acked id w).1 { now = later }))
unfolding mark_acked
mark_acked-once id later w h = (
  ap ok (
      count_if-any id w.notification_log
        (ground (arith, count_if-unacked-le id w.notification_log))),
  rw (none_left id w.now w.notification_log, map-ack_row_idem id w.now later w.notification_log)
      refl,
)
