-- ===== src/Repository/Ledger.antt =====
-- What the repository promises, without rows and queries: a map from ids to events, and the set of
-- idempotency keys that are taken.
use mathlib.Core.Option
use nodus_hitl_hub.Base.{
  Bool, List, Option, String, [], false, if◌then◌else◌, is_text, ltb, none, some, true, ℕ, ◌&&◌,
  ◌==◌, ◌||◌, ◌∷◌,
}
use nodus_hitl_hub.Json.{Fields, obj, truthy}
use nodus_hitl_hub.Models.Event.{HitlEvent}
use nodus_hitl_hub.Models.Hitl.{HitlStatus, expired, is_pending}
use nodus_hitl_hub.Repository.{coalesce, fits, storable}
use nodus_hitl_hub.Repository.Updates.{stored}
use nodus_hitl_hub.Repository.Writes.{Write, expires, inserts, references, updates}
use nodus_hitl_hub.World.Exec.{Done, Result, err, external, ok, unique_violation}

pub record Ledger : Type 0 where
  pub events : String → Option HitlEvent
  pub keys : String → Bool

abbrev pub empty_ledger : Ledger
empty_ledger = record { events = λ id. none; keys = λ k. false }

abbrev pub is_some : {A : Type 0} → Option A → Bool
is_some none = false
is_some (some a) = true

-- The key of an event is taken.
abbrev pub has_taken : (String → Bool) → Option String → Bool
has_taken keys none = false
has_taken keys (some k) = keys k

abbrev pub refuses : Ledger → HitlEvent → Bool
refuses l e = is_some (l.events e.event_id) || has_taken l.keys e.idempotency_key

abbrev pub update_at :
    String → (HitlEvent → HitlEvent) → (String → Option HitlEvent) → String → Option HitlEvent
update_at id change events j = if id == j then Option.map change (events j) else events j

-- What the writes do to an event.
abbrev pub resolve_event : HitlStatus → Option Fields → ℕ → HitlEvent → HitlEvent
resolve_event status none now e = record e { status = status; resolved_at = some now }
resolve_event status (some d) now e = record e {
  status = status;
  payload = if truthy (obj d) then d else e.payload;
  resolved_at = some now;
}

abbrev pub reference_event : String → Option String → HitlEvent → HitlEvent
reference_event ref relay e = record e {
  reference_id = some ref;
  relay_url = coalesce relay e.relay_url;
}

abbrev pub is_overdue : ℕ → HitlEvent → Bool
is_overdue now e = is_pending e.status && elim e.expires_at [ none ↦ false | some t ↦ ltb t now ]

abbrev pub expire_event : ℕ → HitlEvent → HitlEvent
expire_event now e =
    if is_overdue now e then record e { status = expired; resolved_at = some now } else e

abbrev pub record_event : HitlEvent → Ledger → Ledger
record_event e l = record {
  events = λ j. if e.event_id == j then some (stored e) else l.events j;
  keys = λ k. l.keys k || is_text e.idempotency_key k;
}

-- A write at a time: its result, and the ledger afterwards.
abbrev pub write_ledger : ℕ → Write → Ledger → Result Done × Ledger
write_ledger now (inserts e) l =
    if storable e
    then (if refuses l e then (err unique_violation, l) else (ok tt, record_event e l))
    else (err external, l)
write_ledger now (references id ref relay) l =
    (ok tt, record l { events = update_at id (reference_event ref relay) l.events })
write_ledger now (updates id status response) l =
    if fits response
    then (ok tt, record l { events = update_at id (resolve_event status response now) l.events })
    else (err external, l)
write_ledger now expires l =
    (ok tt, record l { events = λ j. Option.map (expire_event now) (l.events j) })

-- The results of a list of writes, and the ledger after them.
abbrev pub run_ledger : List (ℕ × Write) → Ledger → List (Result Done) × Ledger
run_ledger [] l = ([], l)
run_ledger ((time, x) ∷ rest) l =
    let (r, l') = write_ledger time x l in let (rs, l'') = run_ledger rest l' in (r ∷ rs, l'')
