-- ===== src/Repository/Refinement.antt =====
-- The table of the repository represents a ledger, and its statements do what the ledger does.
use mathlib.Core.Option
use nodus_hitl_hub.Base.{
  Bool, Bool-cases, List, Option, String, [], any, ap, arith, eq_iff, eq_refl, false, if◌then◌else◌,
  inl, inr, is_text, none, refl, some, sym, true, ℕ, ◌++◌, ◌==◌, ◌||◌, ◌∙◌, ◌∷◌, ◌≡◌,
}
use nodus_hitl_hub.Host.{Host}
use nodus_hitl_hub.Models.Event.{HitlEvent}
use nodus_hitl_hub.Repository.{
  change_at, clashes, expire_row, expire_stale, find_row, fits, get_event, insert, optional_event,
  set_reference, storable, update_row, update_status,
}
use nodus_hitl_hub.Repository.Expiry.{find_row-expired}
use nodus_hitl_hub.Repository.Keys.{
  KeepsKeys, change_at-KeepsKeys, find_row-append, find_row-update_row,
}
use nodus_hitl_hub.Repository.Ledger.{
  Ledger, empty_ledger, expire_event, has_taken, is_some, record_event, reference_event, refuses,
  resolve_event, run_ledger, update_at, write_ledger,
}
use nodus_hitl_hub.Repository.Rows.{row_of_event, row_to_event}
use nodus_hitl_hub.Repository.Shown.{
  Shown, any-clashes, expire_row-Shown, find_row-append_ne, key_in, key_in-append, key_in-map,
  optional_event-map, reference-Shown, resolve_row-Shown,
}
use nodus_hitl_hub.Repository.Updates.{
  insert-accepted, insert-refused, insert-unstorable, row_to_event-row_of_event,
}
use nodus_hitl_hub.Repository.Writes.{
  Write, expires, inserts, references, run_writes, updates, write,
}
use nodus_hitl_hub.World.{HitlRow, World}
use nodus_hitl_hub.World.Exec.{Done, Result, and_then, and_then-ok, ok}

-- Every read by an id gives what the ledger has, and the same keys are taken.
pub record Represents (host : Host) (rows : List HitlRow) (l : Ledger) : Type 0 where
  pub reads : (id : String) → optional_event host (find_row id rows) ≡ ok (l.events id)
  pub taken_keys : (k : String) → key_in rows k ≡ l.keys k

-- The result of a statement; the count of an expiry aside.
abbrev pub outcome : Write → World → Result Done
outcome (inserts e) w = (insert e w).0
outcome (references id ref relay) w = (set_reference id ref relay w).0
outcome (updates id status response) w = (update_status id status response w).0
outcome expires w = and_then (expire_stale w).0 (λ n. ok tt)

-- The results of statements one after the other, each at its time.
abbrev pub outcomes : List (ℕ × Write) → World → List (Result Done)
outcomes [] w = []
outcomes ((time, x) ∷ rest) w =
    outcome x (record w { now = time }) ∷ outcomes rest (write x (record w { now = time }))

module _ (host : Host) where
  optional_event-some :
      (row : Option HitlRow) (event : Option HitlEvent)
      → optional_event host row ≡ ok event
      → is_some row ≡ is_some event
  unfolding optional_event
  optional_event-some none event h = ground (arith, h)
  optional_event-some (some r) event h =
      let (e, loads, last) = and_then-ok (row_to_event host r) _ h in ground (arith, last)

  has_taken-eq :
      (keys taken_ones : String → Bool) (key : Option String)
      → ((k : String) → keys k ≡ taken_ones k)
      → has_taken keys key ≡ has_taken taken_ones key
  has_taken-eq keys taken_ones none same = refl
  has_taken-eq keys taken_ones (some k) same = same k

  -- The table refuses an event exactly when the ledger does.
  clashes-refuses :
      (e : HitlEvent) (rows : List HitlRow) (l : Ledger)
      → Represents host rows l
      → any (clashes (row_of_event e)) rows ≡ refuses l e
  unfolding row_of_event
  clashes-refuses e rows l rep =
      any-clashes (row_of_event e) rows
      ∙ cc (
        optional_event-some (find_row e.event_id rows) (l.events e.event_id) (rep.reads e.event_id),
        has_taken-eq (key_in rows) l.keys e.idempotency_key rep.taken_keys,
      )

  update_row-Represents :
      (id : String) (change : HitlRow → HitlRow) (f : HitlEvent → HitlEvent) (rows : List HitlRow)
      (l : Ledger)
      → KeepsKeys change
      → Shown host change f
      → Represents host rows l
      → Represents host (update_row id change rows) (record l { events = update_at id f l.events })
  update_row-Represents id change f rows l keep shown rep = record {
    reads = λ j. ap (optional_event host) (find_row-update_row id j change rows keep) ∙ read_at j;
    taken_keys = λ k.
        key_in-map (change_at id change) rows k (change_at-KeepsKeys id change keep)
        ∙ rep.taken_keys k;
  }
    where
      read_at :
          (j : String)
          → optional_event host
              (if id == j then Option.map change (find_row j rows) else find_row j rows)
            ≡ ok (update_at id f l.events j)
      read_at j = elim (Bool-cases (id == j)) [
        | inl same ↦ rw same (optional_event-map host change f shown _ _ (rep.reads j))
        | inr other ↦ rw other (rep.reads j)
      ]

  appended-Represents :
      (e : HitlEvent) (rows : List HitlRow) (l : Ledger)
      → any (clashes (row_of_event e)) rows ≡ false
      → Represents host rows l
      → Represents host (rows ++ row_of_event e ∷ []) (record_event e l)
  unfolding optional_event row_of_event
  appended-Represents e rows l free rep = record {
    reads = λ j. elim (Bool-cases (e.event_id == j)) [
      | inl same ↦
          let me : j ≡ e.event_id = sym ((eq_iff e.event_id j).0 same) in
          rw (me, find_row-append (row_of_event e) rows free)
            (rw (row_to_event-row_of_event host e, eq_refl e.event_id) refl)
      | inr other ↦ rw (find_row-append_ne rows (row_of_event e) j other) (rw other (rep.reads j))
    ];
    taken_keys = λ k.
        key_in-append rows (row_of_event e) k
        ∙ ap (λ b. b || is_text e.idempotency_key k) (rep.taken_keys k);
  }

  write-refines :
      (x : Write) (w : World) (l : Ledger)
      → Represents host w.hitl l
      → (outcome x w ≡ (write_ledger w.now x l).0)
        × Represents host (write x w).hitl (write_ledger w.now x l).1
  unfolding set_reference update_status expire_stale
  write-refines (inserts e) w l rep =
      let same = clashes-refuses e w.hitl l rep in
      elim (Bool-cases (storable e)) [
        | inr bad ↦ rw (outcome, write, insert-unstorable e w bad, bad) (refl, rep)
        | inl good ↦ elim (Bool-cases (any (clashes (row_of_event e)) w.hitl)) [
          | inl taken_one ↦
              let refused_one : refuses l e ≡ true = sym same ∙ taken_one in
              rw (outcome, write, insert-refused e w good taken_one, good, refused_one) (refl, rep)
          | inr free ↦
              let let_in : refuses l e ≡ false = sym same ∙ free in
              rw (outcome, write, insert-accepted e w good free, good, let_in)
                (refl, appended-Represents e w.hitl l free rep)
        ]
      ]
  write-refines (references id ref relay) w l rep = (
    refl,
    update_row-Represents id _ (reference_event ref relay) w.hitl l (λ r. (refl, refl))
        (reference-Shown host ref relay) rep,
  )
  write-refines (updates id status response) w l rep = elim (Bool-cases (fits response)) [
    | inl good ↦
        rw (outcome, write, good)
          (
            refl,
            update_row-Represents id _ (resolve_event status response w.now) w.hitl l
                (λ r. (refl, refl)) (resolve_row-Shown host status response w.now) rep,
          )
    | inr bad ↦ rw (outcome, write, bad) (refl, rep)
  ]
  write-refines expires w l rep = (
    refl,
    record {
      reads = λ j.
          ap (optional_event host) (find_row-expired j w.now w.hitl)
          ∙ optional_event-map host (expire_row w.now) (expire_event w.now)
              (expire_row-Shown host w.now) _ _ (rep.reads j);
      taken_keys = λ k.
          key_in-map (expire_row w.now) w.hitl k (λ r. (ground arith, ground arith))
          ∙ rep.taken_keys k;
    },
  )

  run_writes_from :
      (xs : List (ℕ × Write)) (w : World) (l : Ledger)
      → Represents host w.hitl l
      → (outcomes xs w ≡ (run_ledger xs l).0)
        × Represents host (run_writes xs w).hitl (run_ledger xs l).1
  run_writes_from [] w l rep = (refl, rep)
  run_writes_from ((time, x) ∷ rest) w l rep =
      let (result, rep') = write-refines x (record w { now = time }) l rep in
      let (results, last) =
        run_writes_from rest (write x (record w { now = time })) (write_ledger time x l).1 rep' in
      (cc (result, results), last)

  -- From an empty table, any statements at any times have the results that the ledger has, refusals
  -- included, and afterwards every read by an id gives what the ledger has.
  pub run_writes-refines :
      (xs : List (ℕ × Write)) (w : World)
      → w.hitl ≡ []
      → (outcomes xs w ≡ (run_ledger xs empty_ledger).0)
        × ((id : String)
            → (get_event host id (run_writes xs w)).0
              ≡ ok ((run_ledger xs empty_ledger).1.events id))
  unfolding get_event
  run_writes-refines xs w empty =
      let (results, rep) = run_writes_from xs w empty_ledger (start_at empty) in
      (results, rep.reads)
    where
      start_at : w.hitl ≡ [] → Represents host w.hitl empty_ledger
      start_at e = rw e (record { reads = λ id. refl; taken_keys = λ k. refl })
