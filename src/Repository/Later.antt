-- ===== src/Repository/Later.antt =====
-- What of the requests outlives every statement: no row goes, none changes its keys, and none that is
-- closed is pending again.
use mathlib.Core.Option
use nodus_hitl_hub.Base.{
  Bool, Bool-cases, List, Option, String, any, ap, arith, false, inl, inr, not, refl, some, subst,
  sym, true, ℕ, ◌==◌, ◌∙◌, ◌≡◌,
}
use nodus_hitl_hub.Json.{Fields}
use nodus_hitl_hub.Models.Event.{HitlEvent}
use nodus_hitl_hub.Models.Hitl.{
  HitlStatus, approved, error, expired, is_pending, pending, rejected, status_value, timeout,
}
use nodus_hitl_hub.Repository.{
  clashes, coalesce, expire_row, expire_stale, find_row, fits, insert, is_stale, resolve_row,
  set_reference, storable, update_row, update_status,
}
use nodus_hitl_hub.Repository.Expiry.{find_row-expired}
use nodus_hitl_hub.Repository.Keys.{
  IsKeyed, KeepsKeys, append-IsKeyed, change_at-KeepsKeys, find_row-behind, find_row-update_row,
  map-IsKeyed,
}
use nodus_hitl_hub.Repository.Rows.{row_of_event}
use nodus_hitl_hub.Repository.Updates.{insert-accepted, insert-refused, insert-unstorable}
use nodus_hitl_hub.World.{HitlRow, World}

abbrev pub is_closed : HitlRow → Bool
is_closed r = not (r.status == "pending")

-- A row as it may be later.
pub record Succeeds (r s : HitlRow) : Type 0 where
  pub id : s.event_id ≡ r.event_id
  pub key : s.idempotency_key ≡ r.idempotency_key
  pub user : s.user_id ≡ r.user_id
  pub created : s.created_at ≡ r.created_at
  pub closed : is_closed r ≡ true → is_closed s ≡ true

Succeeds-refl : (r : HitlRow) → Succeeds r r
Succeeds-refl r = record { id = refl; key = refl; user = refl; created = refl; closed = λ h. h }

Succeeds-trans : (r s t : HitlRow) → Succeeds r s → Succeeds s t → Succeeds r t
Succeeds-trans r s t a b = record {
  id = b.id ∙ a.id;
  key = b.key ∙ a.key;
  user = b.user ∙ a.user;
  created = b.created ∙ a.created;
  closed = λ h. b.closed (a.closed h);
}

-- Every row is there later, under its id.
abbrev pub Outlives : List HitlRow → List HitlRow → Type 0
Outlives rows later =
    (id : String) (r : HitlRow)
    → find_row id rows ≡ some r
    → (s : HitlRow) × (find_row id later ≡ some s) × Succeeds r s

-- A world as it may be later. Its rows have unique keys, if those before had.
pub record Later (w v : World) : Type 0 where
  pub outlives : Outlives w.hitl v.hitl
  pub keyed : IsKeyed w.hitl → IsKeyed v.hitl

pub same-Later : (w v : World) → v.hitl ≡ w.hitl → Later w v
same-Later w v same = record {
  outlives = λ id r found. (r, ap (find_row id) same ∙ found, Succeeds-refl r);
  keyed = λ h. subst IsKeyed (sym same) h;
}

pub Later-trans : (u v w : World) → Later u v → Later v w → Later u w
Later-trans u v w a b = record {
  outlives = λ id r found.
      let (s, there, first) = a.outlives id r found in
      let (t, later, second) = b.outlives id s there in
      (t, later, Succeeds-trans r s t first second);
  keyed = λ h. b.keyed (a.keyed h);
}

-- A change of rows after which each of them may be.
abbrev pub IsGentle : (HitlRow → HitlRow) → Type 0
IsGentle change = (r : HitlRow) → Succeeds r (change r)

IsGentle-KeepsKeys : (change : HitlRow → HitlRow) → IsGentle change → KeepsKeys change
IsGentle-KeepsKeys change gentle r = ((gentle r).id, (gentle r).key)

-- An update of a row by its id.
pub update-Later :
    (id : String) (change : HitlRow → HitlRow) (w v : World)
    → IsGentle change
    → v.hitl ≡ update_row id change w.hitl
    → Later w v
update-Later id change w v gentle written =
    let keeps = IsGentle-KeepsKeys change gentle in
    record {
      outlives = λ j r found. elim (Bool-cases (id == j)) [
        | inl same ↦ (
          change r,
          ap (find_row j) written
              ∙ find_row-update_row id j change w.hitl keeps
              ∙ rw (same, found) refl,
          gentle r,
        )
        | inr other ↦ (
          r,
          ap (find_row j) written
              ∙ find_row-update_row id j change w.hitl keeps
              ∙ rw (other, found) refl,
          Succeeds-refl r,
        )
      ];
      keyed = λ h.
          subst IsKeyed (sym written)
            (map-IsKeyed _ w.hitl (change_at-KeepsKeys id change keeps) h);
    }

reference-IsGentle :
    (ref : String) (relay : Option String)
    → IsGentle (λ r. record r { reference_id = some ref; relay_url = coalesce relay r.relay_url })
reference-IsGentle ref relay r = record {
  id = refl;
  key = refl;
  user = refl;
  created = refl;
  closed = λ h. h;
}

pub status_closed :
    (s : HitlStatus) → is_pending s ≡ false → not (status_value s == "pending") ≡ true
status_closed pending h = cc
status_closed approved h = refl
status_closed rejected h = refl
status_closed expired h = refl
status_closed timeout h = refl
status_closed error h = refl

resolve_row-IsGentle :
    (status : HitlStatus) (d : Option Fields) (now : ℕ)
    → is_pending status ≡ false
    → IsGentle (resolve_row status d now)
resolve_row-IsGentle status d now final r = record {
  id = refl;
  key = refl;
  user = refl;
  created = refl;
  closed = λ h. status_closed status final;
}

expire_row-Succeeds : (now : ℕ) (r : HitlRow) → Succeeds r (expire_row now r)
expire_row-Succeeds now r = elim (Bool-cases (is_stale now r)) [
  | inl stale ↦
      rw stale (record { id = refl; key = refl; user = refl; created = refl; closed = λ h. refl })
  | inr current ↦ rw current (Succeeds-refl r)
]

pub set_reference-Later :
    (id ref : String) (relay : Option String) (w : World) → Later w (set_reference id ref relay w).1
unfolding set_reference
set_reference-Later id ref relay w = update-Later id _ w _ (reference-IsGentle ref relay) refl

pub update_status-Later :
    (id : String) (status : HitlStatus) (d : Option Fields) (w : World)
    → is_pending status ≡ false
    → Later w (update_status id status d w).1
unfolding update_status
update_status-Later id status d w final = elim (Bool-cases (fits d)) [
  | inl good ↦ rw good (update-Later id _ w _ (resolve_row-IsGentle status d w.now final) refl)
  | inr bad ↦ rw bad (same-Later w w refl)
]

pub expire_stale-Later : (w : World) → Later w (expire_stale w).1
unfolding expire_stale
expire_stale-Later w = record {
  outlives = λ id r found. (
    expire_row w.now r,
    find_row-expired id w.now w.hitl ∙ ap (Option.map (expire_row w.now)) found,
    expire_row-Succeeds w.now r,
  );
  keyed = map-IsKeyed (expire_row w.now) w.hitl (λ r. (ground arith, ground arith));
}

pub insert-Later : (e : HitlEvent) (w : World) → Later w (insert e w).1
insert-Later e w = elim (Bool-cases (storable e)) [
  | inr bad ↦ rw (insert-unstorable e w bad) (same-Later w w refl)
  | inl good ↦ elim (Bool-cases (any (clashes (row_of_event e)) w.hitl)) [
    | inl clash ↦ rw (insert-refused e w good clash) (same-Later w w refl)
    | inr free ↦ rw (insert-accepted e w good free) (record {
      outlives =
          λ id r found. (r, find_row-behind id w.hitl r (row_of_event e) found, Succeeds-refl r);
      keyed = append-IsKeyed (row_of_event e) w.hitl free;
    })
  ]
]
