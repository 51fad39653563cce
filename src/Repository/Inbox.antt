-- ===== src/Repository/Inbox.antt =====
-- `list_pending`: what the inbox of a user shows.
use mathlib.Core.List.{Memᴰ}
use nodus_hitl_hub.Base.{
  List, Option, Option-cases, String, [], arith, eq_iff, inl, inr, is_text, none, some, true, ℕ,
  ◌<◌, ◌↔◌, ◌∷◌, ◌≡◌, ◌≢◌, ◌⊎◌,
}
use nodus_hitl_hub.Base.Pages.{IsPage, select-IsPage}
use nodus_hitl_hub.Host.{Host}
use nodus_hitl_hub.Models.Event.{HitlEvent}
use nodus_hitl_hub.Repository.{is_open, list_pending, open_rows, rows_to_events}
use nodus_hitl_hub.Repository.Rows.{row_to_event, row_to_event-Loads}
use nodus_hitl_hub.World.{HitlRow, World}
use nodus_hitl_hub.World.Exec.{and_then-ok, err, ok, value_error}

-- A row that waits for the user: pending or active, and not past its time.
pub record IsOpen (now : ℕ) (user_id : String) (r : HitlRow) : Type 0 where
  pub addressed : r.user_id ≡ some user_id
  pub waiting : (r.status ≡ "pending") ⊎ (r.status ≡ "active")
  pub alive : (t : ℕ) → r.expires_at ≡ some t → now < t

is_text_iff : (o : Option String) (s : String) → (is_text o s ≡ true) ↔ (o ≡ some s)
is_text_iff none s = ground arith
is_text_iff (some t) s = ground (arith, eq_iff t s)

is_open-IsOpen : (now : ℕ) (u : String) (r : HitlRow) → is_open now u r ≡ true → IsOpen now u r
is_open-IsOpen now u r h = record {
  addressed = (is_text_iff r.user_id u).0 (ground arith);
  waiting = ground (arith, eq_iff r.status "pending", eq_iff r.status "active");
  alive = λ t e. ground arith;
}

IsOpen-is_open : (now : ℕ) (u : String) (r : HitlRow) → IsOpen now u r → is_open now u r ≡ true
IsOpen-is_open now u r h = elim (Option-cases r.expires_at) [
  | inl e ↦ ground (
    arith,
    (is_text_iff r.user_id u).1 h.addressed,
    eq_iff r.status "pending",
    eq_iff r.status "active",
  )
  | inr (t, e) ↦ ground (
    arith,
    (is_text_iff r.user_id u).1 h.addressed,
    eq_iff r.status "pending",
    eq_iff r.status "active",
    h.alive t e,
  )
]

-- What the page promises of the rows of a table.
abbrev pub IsInbox : ℕ → String → List HitlRow → List HitlRow → Type 0
IsInbox now u rows page = IsPage (λ r. r.created_at) (IsOpen now u) 100 rows page

-- The page of a user holds open rows of the table, newest first and at most 100; an open row of the
-- user that is not on it is at most as new as each of 100 rows that are.
pub open_rows-IsInbox :
    (now : ℕ) (u : String) (rows : List HitlRow) → IsInbox now u rows (open_rows now u rows)
unfolding open_rows
open_rows-IsInbox now u rows =
    select-IsPage _ (IsOpen now u) (is_open now u) (is_open-IsOpen now u) (IsOpen-is_open now u) 100
      rows

rows_to_events-loads :
    (host : Host) (r : HitlRow) (rows : List HitlRow) (es : List HitlEvent)
    → rows_to_events host rows ≡ ok es
    → Memᴰ r rows
    → (e : HitlEvent) × (row_to_event host r ≡ ok e)
unfolding rows_to_events
rows_to_events-loads host r [] es h m = elim m [ ]
rows_to_events-loads host r (s ∷ rows) es h (Memᴰ.head p) =
    let (e, loads, _) = and_then-ok (row_to_event host s) _ h in (e, rw p loads)
rows_to_events-loads host r (s ∷ rows) es h (Memᴰ.tail m) =
    let (e, loads, later) = and_then-ok (row_to_event host s) _ h in
    let (fs, rest, _) = and_then-ok (rows_to_events host rows) _ later in
    rows_to_events-loads host r rows fs rest m

-- One `active` row on a user's page, a status that the query selects and the enum lacks, and the
-- whole inbox of the user fails.
pub list_pending-active :
    (host : Host) (u : String) (w : World) (r : HitlRow) (es : List HitlEvent)
    → Memᴰ r (open_rows w.now u w.hitl)
    → r.status ≡ "active"
    → (list_pending host u w).0 ≢ ok es
unfolding list_pending
list_pending-active host u w r es m active h =
    let (e, loads) = rows_to_events-loads host r (open_rows w.now u w.hitl) es h m in
    let l = row_to_event-Loads host r e loads in
    let bad : err value_error ≡ ok l.status = rw active at l.status_loads in cc
