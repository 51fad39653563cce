-- ===== src/Repository.antt =====
-- core/repository.py: the queries on `nostr_hitl` and `users`, each a function on the tables.
-- A query runs as one step. A `SELECT` without `ORDER BY` gives the rows in the order of their
-- insertion.
pub mod Rows
pub mod Keys
pub mod Expiry
pub mod Writes
pub mod Ledger
pub mod Shown
pub mod Refinement
pub mod Updates
pub mod Later
pub mod Unique
pub mod Inbox
use nodus_hitl_hub.Base.{
  Bool, List, Option, String, [], any, count_if, false, find, if◌then◌else◌, is_given, is_one_of,
  is_text, ltb, map, none, select, some, take, true, ℕ, ◌&&◌, ◌++◌, ◌==◌, ◌||◌, ◌∷◌,
}
use nodus_hitl_hub.Base.Int.{int_eq}
use nodus_hitl_hub.Base.Number.{parse_int}
use nodus_hitl_hub.Base.Sorting.{newest_first}
use nodus_hitl_hub.Host.{Host}
use nodus_hitl_hub.Json.{Fields, Value, arr, obj, truthy}
use nodus_hitl_hub.Json.Cast.{castable}
use nodus_hitl_hub.Models.Event.{HitlEvent}
use nodus_hitl_hub.Models.Hitl.{HitlStatus, status_value}
use nodus_hitl_hub.Repository.Rows.{row_of_event, row_to_event}
use nodus_hitl_hub.World.{HitlRow, UserRow, World}
use nodus_hitl_hub.World.Exec.{
  Done, Exec, Result, and_then, external, gets, lift, modify, ok, pure, raise, unique_violation,
  ◌>>=◌, ◌>>◌,
}

-- `_row_to_event` on what `fetchrow` found
module _ (host : Host) where
  unfoldable pub optional_event : Option HitlRow → Result (Option HitlEvent)
  unfolding row_to_event
  optional_event none = ok none
  optional_event (some row) = and_then (row_to_event host row) (λ e. ok (some e))

-- A value of a unique column is taken; a NULL is not.
abbrev pub same_key : Option String → Option String → Bool
same_key none _ = false
same_key (some a) b = is_text b a

-- Two rows break the primary key or the unique index of the table.
abbrev pub clashes : HitlRow → HitlRow → Bool
clashes r s = r.event_id == s.event_id || same_key r.idempotency_key s.idempotency_key

-- The JSONB columns take the payload and the tags.
abbrev pub storable : HitlEvent → Bool
storable e = castable (obj e.payload) && castable (arr e.tags)

-- The statement on a row whose JSONB values are taken.
abbrev pub insert_row : HitlRow → Exec Done
insert_row row = do
  taken ← gets (λ w. any (clashes row) w.hitl)
  if taken then raise unique_violation else modify (λ w. record w { hitl = w.hitl ++ row ∷ [] })

unfoldable pub insert : HitlEvent → Exec Done
unfolding row_of_event
insert event = if storable event then insert_row (row_of_event event) else raise external

-- `SELECT … WHERE event_id = id`
abbrev pub find_row : String → List HitlRow → Option HitlRow
find_row id rows = find (λ r. r.event_id == id) rows

module _ (host : Host) where
  unfoldable pub get_by_idempotency_key : Value → Exec (Option HitlEvent)
  unfolding optional_event
  get_by_idempotency_key key = do
    text ← lift (host.text_param key)
    row ← gets (λ w. find (λ r. is_text r.idempotency_key text) w.hitl)
    lift (optional_event host row)

  unfoldable pub get_by_reference : String → Exec (Option HitlEvent)
  unfolding optional_event
  get_by_reference reference_id = do
    row ← gets (λ w. find (λ r. is_text r.reference_id reference_id) w.hitl)
    lift (optional_event host row)

  unfoldable pub get_event : String → Exec (Option HitlEvent)
  unfolding optional_event
  get_event event_id = do row ← gets (λ w. find_row event_id w.hitl); lift (optional_event host row)

-- `UPDATE nostr_hitl SET … WHERE event_id = id`
abbrev pub change_at : String → (HitlRow → HitlRow) → HitlRow → HitlRow
change_at id change r = if r.event_id == id then change r else r

abbrev pub update_row : String → (HitlRow → HitlRow) → List HitlRow → List HitlRow
update_row id change rows = map (change_at id change) rows

-- `COALESCE(a, b)`
abbrev pub coalesce {ℓ} : {A : Type ℓ} → Option A → Option A → Option A
coalesce none b = b
coalesce (some a) b = some a

unfoldable pub set_reference : String → String → Option String → Exec Done
set_reference event_id reference_id relay_url = modify (λ w. record w {
  hitl =
      update_row event_id
        (λ r. record r {
          reference_id = some reference_id;
          relay_url = coalesce relay_url r.relay_url;
        })
        w.hitl;
})

-- `str(row["nostr_pubkey"]) if row and row["nostr_pubkey"] else None`
abbrev pub pubkey_of : Option UserRow → Option String
pubkey_of none = none
pubkey_of (some u) = if is_given u.nostr_pubkey then u.nostr_pubkey else none

-- asyncpg refuses a number that the column does not hold.
unfoldable pub get_user_pubkey : String → Exec (Option String)
get_user_pubkey user_id = elim (parse_int user_id) [
  | none ↦ pure none
  | some numeric_id ↦ do
    fits_column ← gets (λ w. w.id_fits numeric_id)
    (if fits_column
        then gets (λ w. pubkey_of (find (λ u. int_eq u.id numeric_id) w.users))
        else raise external)
]

-- `json.dumps(response) if response else None`
abbrev pub payload_param : Option Fields → Option Value
payload_param none = none
payload_param (some d) = if truthy (obj d) then some (obj d) else none

-- What `update_status` does to its row at a time.
abbrev pub resolve_row : HitlStatus → Option Fields → ℕ → HitlRow → HitlRow
resolve_row status response now r = record r {
  status = status_value status;
  resolved_at = some now;
  payload = coalesce (payload_param response) r.payload;
}

-- The table after the update of the row.
abbrev pub resolved_world : String → HitlStatus → Option Fields → World → World
resolved_world event_id status response w = record w {
  hitl = update_row event_id (resolve_row status response w.now) w.hitl;
}

-- `$3::jsonb` takes the payload.
abbrev pub fits : Option Fields → Bool
fits none = true
fits (some d) = castable (obj d)

unfoldable pub update_status : String → HitlStatus → Option Fields → Exec Done
update_status event_id status response =
    if fits response then modify (resolved_world event_id status response) else raise external

-- The condition of `list_pending`.
abbrev pub is_open : ℕ → String → HitlRow → Bool
is_open now user_id r =
    is_text r.user_id user_id
    && is_one_of r.status ("pending" ∷ "active" ∷ [])
    && elim r.expires_at [ none ↦ true | some t ↦ ltb now t ]

abbrev pub page_size : ℕ
page_size = 100

-- `ORDER BY created_at DESC LIMIT 100`
unfoldable pub open_rows : ℕ → String → List HitlRow → List HitlRow
open_rows now user_id rows =
    take page_size (newest_first (λ r. r.created_at) (select (is_open now user_id) rows))

module _ (host : Host) where
  unfoldable pub rows_to_events : List HitlRow → Result (List HitlEvent)
  unfolding row_to_event
  rows_to_events [] = ok []
  rows_to_events (r ∷ rs) =
      and_then (row_to_event host r) (λ e. and_then (rows_to_events rs) (λ es. ok (e ∷ es)))

  unfoldable pub list_pending : String → Exec (List HitlEvent)
  unfolding open_rows rows_to_events
  list_pending user_id = do
    rows ← gets (λ w. open_rows w.now user_id w.hitl)
    lift (rows_to_events rows)

-- The condition of `expire_stale`.
abbrev pub is_stale : ℕ → HitlRow → Bool
is_stale now r = r.status == "pending" && elim r.expires_at [ none ↦ false | some t ↦ ltb t now ]

abbrev pub expire_row : ℕ → HitlRow → HitlRow
expire_row now r =
    if is_stale now r then record r { status = "expired"; resolved_at = some now } else r

-- The count is that of the command tag, `UPDATE n`.
unfoldable pub expire_stale : Exec ℕ
expire_stale = do
  n ← gets (λ w. count_if (is_stale w.now) w.hitl)
  modify (λ w. record w { hitl = map (expire_row w.now) w.hitl })
  pure n
