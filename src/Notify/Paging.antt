-- ===== src/Notify/Paging.antt =====
-- `history`: a page of the log, and what an insertion does to it.
use mathlib.Core.List.{append-nil}
use nodus_hitl_hub.Base.{
  All, Bool-cases, List, String, [], any, arith, eq_iff, eq_refl, false, inl, inr, leb, map, none,
  refl, select, suc, true, ℕ, ◌++◌, ◌<◌, ◌==◌, ◌∷◌, ◌≡◌, ◌≢◌, ◌≤◌,
}
use nodus_hitl_hub.Base.Int.{negsuc, pos, ℤ}
use nodus_hitl_hub.Base.Pages.{IsPage, select-IsPage}
use nodus_hitl_hub.Base.Sorting.{newest_first-append, select-All, select-append}
use nodus_hitl_hub.Json.{Fields}
use nodus_hitl_hub.Notify.History.{
  history, history_entry, history_rows, list_history, max_limit, row_to_log,
}
use nodus_hitl_hub.Notify.Store.{insert_log}
use nodus_hitl_hub.World.{LogRow, World}
use nodus_hitl_hub.World.Exec.{Result, err, external, ok}

-- How a call of `history` ends.
pub data HistoryPage (u : String) (limit : ℤ) (w : World) (result : Result (List Fields) × World)
    : Type 0 where
  -- The limit is negative or no bigint: the query raises.
  limit_refused :
      ((n : ℕ) → n ≤ max_limit → limit ≢ pos n)
      → result ≡ (err external, w)
      → HistoryPage u limit w result
  -- The dicts of a page of the user's rows.
  page_shown :
      (n : ℕ) (page : List LogRow)
      → limit ≡ pos n
      → IsPage (λ r. r.created_at) (λ r. r.user_id ≡ u) n w.notification_log page
      → result ≡ (ok (map history_entry (map row_to_log page)), w)
      → HistoryPage u limit w result

history_rows-IsPage :
    (u : String) (n : ℕ) (rows : List LogRow)
    → IsPage (λ r. r.created_at) (λ r. r.user_id ≡ u) n rows (history_rows u n rows)
unfolding history_rows
history_rows-IsPage u n rows =
    select-IsPage _ (λ r. r.user_id ≡ u) (λ r. r.user_id == u) (λ r. (eq_iff r.user_id u).0)
      (λ r. (eq_iff r.user_id u).1) n rows

-- `history` changes nothing. It raises exactly for a limit that is negative or no bigint; otherwise
-- it shows rows of the user, newest first and at most as many as the limit, and a row of the user
-- that is not shown is at most as new as each of those that are, and they are as many as the limit.
pub history-HistoryPage :
    (u : String) (limit : ℤ) (w : World) → HistoryPage u limit w (history u limit w)
unfolding history list_history
history-HistoryPage u (negsuc n) w = limit_refused (λ m le p. cc) refl
history-HistoryPage u (pos n) w = elim (Bool-cases (leb n max_limit)) [
  | inl small ↦ rw small (
      page_shown n (history_rows u n w.notification_log) refl
        (history_rows-IsPage u n w.notification_log) refl)
  | inr large ↦ rw large (limit_refused (λ m le p. ground (arith, p)) refl)
]

history_rows-own :
    (n : ℕ) (row : LogRow) (rows : List LogRow)
    → All (λ r. r.created_at < row.created_at) rows
    → history_rows row.user_id (suc n) (rows ++ row ∷ []) ≡ row ∷ history_rows row.user_id n rows
unfolding history_rows
history_rows-own n row rows h =
    let mine = λ (r : LogRow). r.user_id == row.user_id in
    let own : mine row ≡ true = eq_refl row.user_id in
    let first =
      newest_first-append (λ r. r.created_at) (select mine rows) row (select-All mine _ rows h) in
    rw (select-append mine rows row, own, first) refl

history_rows-other :
    (u : String) (n : ℕ) (row : LogRow) (rows : List LogRow)
    → row.user_id ≢ u
    → history_rows u n (rows ++ row ∷ []) ≡ history_rows u n rows
unfolding history_rows
history_rows-other u n row rows other =
    let others : (row.user_id == u) ≡ false = ground (arith, eq_iff row.user_id u) in
    rw
      (
        select-append (λ r. r.user_id == u) rows row,
        others,
        append-nil (select (λ r. r.user_id == u) rows),
      )
      refl

history-other :
    (u : String) (limit : ℤ) (row : LogRow) (w : World)
    → row.user_id ≢ u
    → (history u limit (record w { notification_log = w.notification_log ++ row ∷ [] })).0
      ≡ (history u limit w).0
unfolding history list_history
history-other u (negsuc m) row w other = refl
history-other u (pos m) row w other = elim (Bool-cases (leb m max_limit)) [
  | inl e ↦ rw (e, history_rows-other u m row w.notification_log other) refl
  | inr e ↦ rw e refl
]

-- The row that `insert_log` stores.
abbrev pub stored_log : LogRow → ℕ → LogRow
stored_log row now = record row { created_at = now; acked_at = none }

-- Where the id is fresh and every row is older than the clock, an insertion puts the row first in
-- the history of its user, in front of what was there, and leaves every other history as it was.
pub insert_log-history :
    (row : LogRow) (n : ℕ) (w : World)
    → any (λ r. r.notification_id == row.notification_id) w.notification_log ≡ false
    → All (λ r. r.created_at < w.now) w.notification_log
    → suc n ≤ max_limit
    → ((es : List Fields) × ((history row.user_id (pos n) w).0 ≡ ok es)
        × ((history row.user_id (pos (suc n)) (insert_log row w).1).0
            ≡ ok (history_entry (row_to_log (stored_log row w.now)) ∷ es)))
      × ((u : String) (limit : ℤ)
          → row.user_id ≢ u
          → (history u limit (insert_log row w).1).0 ≡ (history u limit w).0)
unfolding history list_history insert_log
insert_log-history row n w free older fits =
    let small : leb n max_limit ≡ true = ground arith in
    let small' : leb (suc n) max_limit ≡ true = ground arith in
    (
      (
        map history_entry (map row_to_log (history_rows row.user_id n w.notification_log)),
        rw small refl,
        rw (free, small', history_rows-own n (stored_log row w.now) w.notification_log older) refl,
      ),
      λ u limit other. rw free (history-other u limit (stored_log row w.now) w other),
    )
