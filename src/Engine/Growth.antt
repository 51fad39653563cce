-- ===== src/Engine/Growth.antt =====
-- What a new request does to the others: nothing that is read of them changes.
use nodus_hitl_hub.Base.{
  All, Bool-cases, List, Option-cases, String, [], any, ap, arith, eq_iff, false, find, inl, inr,
  none, not, refl, some, sym, ◌&&◌, ◌++◌, ◌==◌, ◌∙◌, ◌∷◌, ◌≡◌, ◌⊎◌,
}
use nodus_hitl_hub.Base.Searches.{find-All}
use nodus_hitl_hub.Engine.Create.{announce-ok}
use nodus_hitl_hub.Engine.Decided.{get_event-row}
use nodus_hitl_hub.Engine.Defs.{HitlEngine, announce, create, create_once, publish, request}
use nodus_hitl_hub.Engine.Fresh.{from_request-Keeps, with_owner-cases}
use nodus_hitl_hub.Engine.Kept.{IsTame, Keeps, bind-reads}
use nodus_hitl_hub.Engine.Publish.{Published, listed, publish-Published, referenced, unlisted}
use nodus_hitl_hub.Engine.Reads.{get_event-hitl, get_event_of}
use nodus_hitl_hub.Engine.Request.{get_by_idempotency_key_reads, judged, key_of}
use nodus_hitl_hub.Host.{Host}
use nodus_hitl_hub.Json.{Fields, truthy}
use nodus_hitl_hub.Models.Event.{HitlEvent, from_request}
use nodus_hitl_hub.Models.Hitl.{HitlRequest}
use nodus_hitl_hub.Repository.{
  clashes, find_row, get_by_idempotency_key, get_event, insert, optional_event, storable,
  update_row,
}
use nodus_hitl_hub.Repository.Keys.{find_row-behind, find_row-update_row}
use nodus_hitl_hub.Repository.Ledger.{is_some}
use nodus_hitl_hub.Repository.Rows.{row_of_event}
use nodus_hitl_hub.Repository.Shown.{any-clashes}
use nodus_hitl_hub.Repository.Updates.{insert-accepted, insert-refused, insert-unstorable}
use nodus_hitl_hub.Validators.Defs.{Validator, get_validator, validation_errors}
use nodus_hitl_hub.World.{HitlRow, World}
use nodus_hitl_hub.World.Exec.{Result-cases, ok, ◌>>=◌}

-- Whatever event is read in a world is read the same in a later one.
abbrev pub KeepsReads : Host → World → World → Type 0
KeepsReads host w v =
    (id : String) (e : HitlEvent)
    → (get_event host id w).0 ≡ ok (some e)
    → (get_event host id v).0 ≡ ok (some e)

-- The validators leave the requests alone.
abbrev pub ValidatorsKeep : HitlEngine → Type 0
ValidatorsKeep engine =
    All
      (λ (v : Validator). (action : String) (payload : Fields) → Keeps (v.validate action payload))
      engine.validators

same-KeepsReads : (host : Host) (w v : World) → v.hitl ≡ w.hitl → KeepsReads host w v
same-KeepsReads host w v same id e read = get_event_of host id v w same ∙ read

-- A row whose keys are free is not one that is found.
free-apart :
    (row : HitlRow) (id : String) (rows : List HitlRow) (r : HitlRow)
    → any (clashes row) rows ≡ false
    → find_row id rows ≡ some r
    → (row.event_id == id) ≡ false
free-apart row id rows r free found = elim (Bool-cases (row.event_id == id)) [
  | inr other ↦ other
  | inl same ↦
      let me : row.event_id ≡ id = (eq_iff row.event_id id).0 same in
      let there = ap (λ i. is_some (find_row i rows)) me in
      ground (arith, free, any-clashes row rows, there, found)
]

-- A read depends on the row that is found.
row-read :
    (host : Host) (id : String) (w v : World) (e : HitlEvent)
    → find_row id v.hitl ≡ find_row id w.hitl
    → (get_event host id w).0 ≡ ok (some e)
    → (get_event host id v).0 ≡ ok (some e)
row-read host id w v e same read =
    get_event-hitl host id v v.hitl refl
    ∙ ap (optional_event host) same
    ∙ sym (get_event-hitl host id w w.hitl refl)
    ∙ read

-- A row that was appended, and referenced or not, hides none that was there.
grown-KeepsReads :
    (host : Host) (row : HitlRow) (w v : World)
    → any (clashes row) w.hitl ≡ false
    → (v.hitl ≡ w.hitl ++ row ∷ [])
      ⊎ ((ref : String) × (relay : String) × (v.hitl
            ≡ update_row row.event_id (referenced ref relay) (w.hitl ++ row ∷ [])))
    → KeepsReads host w v
grown-KeepsReads host row w v free (inl appended) id e read =
    let (r, found, _) = get_event-row host id w e read in
    row-read host id w v e
      (ap (find_row id) appended ∙ find_row-behind id w.hitl r row found ∙ sym found) read
grown-KeepsReads host row w v free (inr (ref, relay, changed)) id e read =
    let (r, found, _) = get_event-row host id w e read in
    let other = free-apart row id w.hitl r free found in
    let behind = find_row-behind id w.hitl r row found in
    row-read host id w v e
      (ap (find_row id) changed
        ∙ find_row-update_row row.event_id id (referenced ref relay) (w.hitl ++ row ∷ [])
            (λ r. (refl, refl))
        ∙ rw other (behind ∙ sym found))
      read

get_validator-All :
    (P : Validator → Type 0) (vs : List Validator) (action : String) (v : Validator)
    → All P vs
    → get_validator vs action ≡ some v
    → P v
unfolding get_validator
get_validator-All P vs action v k h =
    elim (Option-cases (find (λ u. not u.is_fallback && u.accepts action) vs)) [
      | inl none_specific ↦
          find-All P (λ u. u.is_fallback && u.accepts action) vs v k
            (rw (get_validator, none_specific) at h)
      | inr (u, specific) ↦
          find-All P (λ u. not u.is_fallback && u.accepts action) vs v k
            (specific ∙ (rw (get_validator, specific) at h))
    ]

pub validation_errors-Keeps :
    (vs : List Validator) (action : String) (payload : Fields)
    → All (λ (v : Validator). (a : String) (p : Fields) → Keeps (v.validate a p)) vs
    → Keeps (validation_errors vs action payload)
unfolding validation_errors
validation_errors-Keeps vs action payload keep w = elim (Option-cases (get_validator vs action)) [
  | inl none_found ↦ rw (validation_errors, none_found) refl
  | inr (v, chosen) ↦
      rw (validation_errors, chosen) (get_validator-All _ vs action v keep chosen action payload w)
]

module _ (host : Host) (engine : HitlEngine) (tame : IsTame engine) where
  announced-KeepsReads :
      (owned : HitlEvent) (w v : World)
      → any (clashes (row_of_event owned)) w.hitl ≡ false
      → v.hitl ≡ w.hitl ++ row_of_event owned ∷ []
      → Published owned v (publish host engine.bridge owned v)
      → KeepsReads host w (announce host engine owned v).1
  unfolding row_of_event
  announced-KeepsReads owned w v free there (unlisted s kept) =
      let (answer, rows) = announce-ok host engine tame owned owned v s in
      grown-KeepsReads host (row_of_event owned) w _ free (inl (rows ∙ kept ∙ there))
  announced-KeepsReads owned w v free there (listed ref relay s changed) =
      let (answer, rows) = announce-ok host engine tame owned _ v s in
      grown-KeepsReads host (row_of_event owned) w _ free (
        inr (
          ref,
          relay,
          rows ∙ changed ∙ ap (update_row owned.event_id (referenced ref relay)) there,
        ))

  owned-KeepsReads :
      (owned : HitlEvent) (w v : World)
      → v.hitl ≡ w.hitl
      → KeepsReads host w ((insert owned >>= λ _. announce host engine owned) v).1
  owned-KeepsReads owned w v same = elim (Bool-cases (storable owned)) [
    | inr bad ↦ rw (insert-unstorable owned v bad) (same-KeepsReads host w v same)
    | inl good ↦ elim (Bool-cases (any (clashes (row_of_event owned)) w.hitl)) [
      | inl clash ↦
          rw (insert-refused owned v good (ap (any (clashes (row_of_event owned))) same ∙ clash))
            (same-KeepsReads host w v same)
      | inr free ↦
          rw (insert-accepted owned v good (ap (any (clashes (row_of_event owned))) same ∙ free)) (
            announced-KeepsReads owned w _ free (ap (λ rows. rows ++ row_of_event owned ∷ []) same)
              (publish-Published host owned _ engine.bridge tame.client))
    ]
  ]

  create-KeepsReads :
      (req : HitlRequest) (w : World) → KeepsReads host w (create host engine req w).1
  unfolding create
  create-KeepsReads req w = elim (Result-cases (from_request host req w).0) [
    | inl (x, s) ↦
        rw (bind-reads (from_request host req) _ w s)
          (same-KeepsReads host w _ (from_request-Keeps host req w))
    | inr (e, s) ↦ elim (with_owner-cases e req.user_id (from_request host req w).1) [
      | inr q ↦
          rw (bind-reads (from_request host req) _ w s, q)
            (same-KeepsReads host w _ (from_request-Keeps host req w))
      | inl (owner, q) ↦
          rw (bind-reads (from_request host req) _ w s, q)
            (owned-KeepsReads (record e { owner_pubkey = owner }) w (from_request host req w).1
              (from_request-Keeps host req w))
    ]
  ]

  create_once-KeepsReads :
      (req : HitlRequest) (w : World) → KeepsReads host w (create_once host engine req w).1
  unfolding create_once
  create_once-KeepsReads req w = elim (Bool-cases (truthy (key_of req))) [
    | inr keyless ↦ rw keyless (create-KeepsReads req w)
    | inl keyed ↦ elim (Result-cases (get_by_idempotency_key host (key_of req) w).0) [
      | inl (x, f) ↦
          rw (keyed, f, get_by_idempotency_key_reads host (key_of req) w)
            (same-KeepsReads host w w refl)
      | inr (some e, f) ↦
          rw (keyed, f, get_by_idempotency_key_reads host (key_of req) w)
            (same-KeepsReads host w w refl)
      | inr (none, f) ↦
          rw (keyed, f, get_by_idempotency_key_reads host (key_of req) w) (create-KeepsReads req w)
    ]
  ]

  -- Where the validators, the plugins and the relay client leave the requests alone, a request, a
  -- retry or a refused one leaves every event that can be read as it is.
  pub request-KeepsReads :
      ValidatorsKeep engine
      → (req : HitlRequest) (w : World) → KeepsReads host w (request host engine req w).1
  unfolding request
  request-KeepsReads keep req w =
      let judging : Keeps (judged engine req) =
        validation_errors-Keeps engine.validators req.action_type req.action_details keep in
      elim (Result-cases (judged engine req w).0) [
        | inl (x, s) ↦ rw s (same-KeepsReads host w _ (judging w))
        | inr (e ∷ es, s) ↦ rw s (same-KeepsReads host w _ (judging w))
        | inr ([], s) ↦ rw (bind-reads (judged engine req) _ w s) (λ id e read.
            create_once-KeepsReads req (judged engine req w).1 id e
              (same-KeepsReads host w _ (judging w) id e read))
      ]
