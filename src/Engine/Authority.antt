-- ===== src/Engine/Authority.antt =====
-- Who may resolve a request through the relay.
use nodus_hitl_hub.Base.{
  Bool-cases, Option, Option-cases, String, arith, eq_iff, eq_refl, false, inl, inr, is_full,
  nat_eq, none, not, or_text, refl, some, subst, sym, true, ◌&&◌, ◌==◌, ◌∙◌, ◌≡◌, ◌≢◌,
}
use nodus_hitl_hub.Engine.Defs.{HitlEngine, approve, reject}
use nodus_hitl_hub.Engine.Resolution.{
  NostrEvent, find_resolved, handle_resolution, is_foreign, nostr_reason, nostr_response,
  says_approved, tag_value,
}
use nodus_hitl_hub.Engine.Resolve.{is_pending_iff}
use nodus_hitl_hub.Host.{Host}
use nodus_hitl_hub.Models.Event.{HitlEvent}
use nodus_hitl_hub.Models.Hitl.{is_pending, pending}
use nodus_hitl_hub.Repository.{get_by_reference}
use nodus_hitl_hub.World.{World}
use nodus_hitl_hub.World.Exec.{Done, Exec, Result, Result-cases, err, ok, pure, ◌>>=◌}

-- A relay event has authority over a request: it is a resolution that names the request by its
-- reference, the request is pending, and its owner, if one is known, signed the event.
pub record HasAuthority (host : Host) (event : NostrEvent) (w : World) (row : HitlEvent)
    : Type 0 where
  pub resolution : event.kind ≡ 10021
  pub request_id : String
  pub named : tag_value "request" event.tags ≡ some request_id
  pub names_something : request_id ≢ ""
  pub found : (get_by_reference host request_id w).0 ≡ ok (some row)
  pub is_waiting : row.status ≡ pending
  pub signed : (owner : String) → row.owner_pubkey ≡ some owner → owner ≢ "" → event.pubkey ≡ owner

-- How a relay event is handled.
pub data Handled (host : Host) (engine : HitlEngine) (event : NostrEvent) (w : World)
    (result : Result Done × World) : Type 0 where
  -- The event has authority over no request: nothing changes.
  ignored :
      ((row : HitlEvent) → ¬ HasAuthority host event w row)
      → result.1 ≡ w
      → Handled host engine event w result
  -- The event has authority and the request is approved, as by `approve`.
  accepted :
      (row : HitlEvent)
      → HasAuthority host event w row
      → says_approved event ≡ true
      → result.1 ≡ (approve host engine row.event_id (nostr_response event) w).1
      → Handled host engine event w result
  -- The event has authority and the request is rejected, as by `reject`.
  turned_down :
      (row : HitlEvent)
      → HasAuthority host event w row
      → says_approved event ≡ false
      → result.1 ≡ (reject host engine row.event_id nostr_reason w).1
      → Handled host engine event w result

get_by_reference_reads :
    (host : Host) (ref : String) (w : World) → (get_by_reference host ref w).1 ≡ w
unfolding get_by_reference
get_by_reference_reads host ref w = refl

is_foreign-false :
    (event : NostrEvent) (row : HitlEvent) (owner : String)
    → is_foreign event row ≡ false
    → row.owner_pubkey ≡ some owner
    → owner ≢ ""
    → event.pubkey ≡ owner
unfolding is_foreign
is_foreign-false event row owner h e n =
    ground (arith, eq_iff owner "", eq_iff owner event.pubkey, h, e, n)

full_text : (s : String) → is_full s ≡ true → s ≢ ""
full_text s full p = let bad : is_full "" ≡ true = rw p at full in ground (arith, eq_refl "", bad)

-- The answer of a call that is not used.
then_done : {A : Type 0} (m : Exec A) (w : World) → ((m >>= λ _. pure tt) w).1 ≡ (m w).1
then_done m w = elim (Result-cases (m w).0) [ inl (x, e) ↦ rw e refl | inr (a, e) ↦ rw e refl ]

-- A full text that stands for an optional one is its value.
full_value : (o : Option String) → is_full (or_text o "") ≡ true → o ≡ some (or_text o "")
full_value none h = ground (arith, eq_refl "")
full_value (some s) h = elim (Bool-cases (is_full s)) [
  | inl full ↦ rw full refl
  | inr blank ↦ let bad : is_full "" ≡ true = rw blank at h in ground (arith, eq_refl "", bad)
]

module _ (host : Host) (event : NostrEvent) (w : World) where
  find_resolved-reads : (find_resolved host event w).1 ≡ w
  unfolding find_resolved
  find_resolved-reads =
      ground (arith, get_by_reference_reads host (or_text (tag_value "request" event.tags) "") w)

  -- A request that the guards let through is one that the event has authority over.
  find_resolved-HasAuthority :
      (row : HitlEvent)
      → (find_resolved host event w).0 ≡ ok (some row)
      → HasAuthority host event w row
  unfolding find_resolved
  find_resolved-HasAuthority row h =
      let id = or_text (tag_value "request" event.tags) "" in
      elim (Bool-cases (nat_eq event.kind 10021 && is_full id)) [
        | inr off ↦ ground (arith, off, h)
        | inl on ↦ elim (Result-cases (get_by_reference host id w).0) [
          | inl (x, e) ↦ ground (arith, on, e, h)
          | inr (none, e) ↦ ground (arith, on, e, h)
          | inr (some r, e) ↦ elim (Bool-cases (is_pending r.status && not (is_foreign event r))) [
            | inr barred ↦ ground (arith, on, e, h, barred)
            | inl passing ↦
                let same : r ≡ row = ground (arith, on, e, h, passing) in
                subst (HasAuthority host event w) same (record {
                  resolution = ground (arith, on);
                  request_id = id;
                  named = full_value (tag_value "request" event.tags) (ground (arith, on));
                  names_something = full_text id (ground (arith, on));
                  found = e;
                  is_waiting = (is_pending_iff r.status).0 (ground (arith, passing));
                  signed =
                      λ owner o n. is_foreign-false event r owner (ground (arith, passing)) o n;
                })
          ]
        ]
      ]

  not_foreign :
      (row : HitlEvent)
      → ((owner : String) → row.owner_pubkey ≡ some owner → owner ≢ "" → event.pubkey ≡ owner)
      → is_foreign event row ≡ false
  unfolding is_foreign
  not_foreign row signed = elim (Option-cases row.owner_pubkey) [
    | inl ownerless ↦ rw ownerless refl
    | inr (owner, o) ↦ elim (Bool-cases (owner == "")) [
      | inl blank_one ↦ rw (o, blank_one) refl
      | inr full ↦
          let same : event.pubkey ≡ owner =
            signed owner o (λ p. ground (arith, p, full, eq_iff owner "")) in
          rw (o, full, same, eq_refl owner) refl
    ]
  ]

  -- The guards let through what the event has authority over.
  authority-found :
      (row : HitlEvent)
      → HasAuthority host event w row
      → (find_resolved host event w).0 ≡ ok (some row)
  unfolding find_resolved
  authority-found row a =
      let kind : nat_eq event.kind 10021 ≡ true = ground (arith, a.resolution) in
      let full : is_full a.request_id ≡ true =
        ground (arith, eq_iff a.request_id "", a.names_something) in
      let same : or_text (tag_value "request" event.tags) "" ≡ a.request_id =
        rw a.named (rw full refl) in
      rw
        (
          same,
          kind,
          full,
          a.found,
          (is_pending_iff row.status).1 a.is_waiting,
          not_foreign row a.signed,
        )
        refl

  none_found :
      (r : Result (Option HitlEvent))
      → (find_resolved host event w).0 ≡ r
      → ((row : HitlEvent) → r ≢ ok (some row))
      → (row : HitlEvent) → ¬ HasAuthority host event w row
  none_found r q other row a = other row (sym q ∙ authority-found row a)

module _ (host : Host) (engine : HitlEngine) (event : NostrEvent) (w : World) where
  -- A relay event that has authority over a pending request does what `approve` or `reject` do of it, by
  -- what it says, and any other changes nothing.
  pub handle_resolution-Handled :
      Handled host engine event w (handle_resolution host engine event w)
  unfolding handle_resolution
  handle_resolution-Handled = elim (Result-cases (find_resolved host event w).0) [
    | inl (x, e) ↦
        ignored (none_found host event w (err x) e (λ row p. cc))
          (rw (e, find_resolved-reads host event w) refl)
    | inr (none, e) ↦
        ignored (none_found host event w (ok none) e (λ row p. cc))
          (rw (e, find_resolved-reads host event w) refl)
    | inr (some row, e) ↦ elim (Bool-cases (says_approved event)) [
      | inl yea ↦ accepted row (find_resolved-HasAuthority host event w row e) yea (
          rw (e, find_resolved-reads host event w, yea)
            (then_done (approve host engine row.event_id (nostr_response event)) w))
      | inr nay ↦ turned_down row (find_resolved-HasAuthority host event w row e) nay (
          rw (e, find_resolved-reads host event w, nay)
            (then_done (reject host engine row.event_id nostr_reason) w))
    ]
  ]
