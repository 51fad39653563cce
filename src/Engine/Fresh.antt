-- ===== src/Engine/Fresh.antt =====
-- `HITLEvent.from_request` and the steps on the owner and the row, as the engine calls them.
use nodus_hitl_hub.Base.{
  Bool-cases, Option, Option-cases, String, ap, arith, find, inl, inr, is_given, none, refl, some,
  ℕ, ◌≡◌, ◌⊎◌,
}
use nodus_hitl_hub.Base.Int.{int_eq}
use nodus_hitl_hub.Base.Number.{parse_int}
use nodus_hitl_hub.Engine.Defs.{with_owner}
use nodus_hitl_hub.Engine.Kept.{Keeps}
use nodus_hitl_hub.Host.{Host}
use nodus_hitl_hub.Json.{get, str}
use nodus_hitl_hub.Models.Event.{HitlEvent, add_seconds, from_request, new_event_id}
use nodus_hitl_hub.Models.Hitl.{HitlRequest, pending}
use nodus_hitl_hub.Repository.{get_user_pubkey, pubkey_of}
use nodus_hitl_hub.World.{World}
use nodus_hitl_hub.World.Exec.{Result, Result-cases, err, external, ok}

-- An event as it is made for a request at a time.
pub record IsFresh (req : HitlRequest) (now : ℕ) (e : HitlEvent) : Type 0 where
  pub is_waiting : e.status ≡ pending
  pub payload : e.payload ≡ req.action_details
  pub user : e.user_id ≡ req.user_id
  pub tenant : e.tenant_id ≡ some req.tenant_id
  pub action : e.action ≡ some req.action_type
  pub hint : e.hint ≡ some req.action_description
  pub created : e.created_at ≡ now
  pub key : (k : String) → get "idempotency_key" req.metadata ≡ str k → e.idempotency_key ≡ some k
  pub expiry : (t : ℕ) × (e.expires_at ≡ some t) × (add_seconds now req.timeout_seconds ≡ ok t)

-- The owner and the reference are no part of that.
pub IsFresh-record :
    {req : HitlRequest} {now : ℕ} {e : HitlEvent} {owner ref : Option String}
    → IsFresh req now e
    → IsFresh req now (record e { owner_pubkey = owner; reference_id = ref })
IsFresh-record f = record {
  is_waiting = f.is_waiting;
  payload = f.payload;
  user = f.user;
  tenant = f.tenant;
  action = f.action;
  hint = f.hint;
  created = f.created;
  key = f.key;
  expiry = f.expiry;
}

module _ (host : Host) (req : HitlRequest) where
  pub from_request-Keeps : Keeps (from_request host req)
  unfolding from_request new_event_id
  from_request-Keeps w = ground arith

  pub from_request-IsFresh :
      (w : World) {e : HitlEvent} → (from_request host req w).0 ≡ ok e → IsFresh req w.now e
  unfolding from_request new_event_id
  from_request-IsFresh w h = record {
    is_waiting = ground (arith, h);
    payload = ground (arith, h);
    user = ground (arith, h);
    tenant = ground (arith, h);
    action = ground (arith, h);
    hint = ground (arith, h);
    created = ground (arith, h);
    key = λ k p. ground (arith, h, p, host.optional_str-str k);
    expiry = elim (Result-cases (add_seconds w.now req.timeout_seconds)) [
      | inl (x, s) ↦ ground (arith, h, s)
      | inr (t, s) ↦ (t, ground (arith, h, s), s)
    ];
  }

get_user_pubkey-cases :
    (user_id : String) (w : World)
    → ((owner : Option String) × (get_user_pubkey user_id w ≡ (ok owner, w)))
      ⊎ (get_user_pubkey user_id w ≡ (err external, w))
unfolding get_user_pubkey
get_user_pubkey-cases user_id w = elim (Option-cases (parse_int user_id)) [
  | inl p ↦ inl (none, ground (arith, p))
  | inr (n, p) ↦ elim (Bool-cases (w.id_fits n)) [
    | inl good ↦ inl (pubkey_of (find (λ u. int_eq u.id n) w.users), ground (arith, p, good))
    | inr bad ↦ inr (ground (arith, p, bad))
  ]
]

-- The owner is looked up, which raises for a number that the column of the users does not hold, and
-- nothing else changes.
pub with_owner-cases :
    (e : HitlEvent) (user_id : String) (w : World)
    → ((owner : Option String) × (with_owner e user_id w
          ≡ (ok (record e { owner_pubkey = owner }), w)))
      ⊎ (with_owner e user_id w ≡ (err external, w))
unfolding with_owner
with_owner-cases e user_id w = elim (Bool-cases (is_given e.owner_pubkey)) [
  | inl known ↦ inl (e.owner_pubkey, rw known refl)
  | inr unnamed ↦ elim (get_user_pubkey-cases user_id w) [
    | inl (owner, q) ↦ inl (owner, rw (unnamed, q) refl)
    | inr q ↦ inr (rw (unnamed, q) refl)
  ]
]

pub with_owner-reads :
    (e : HitlEvent) (user_id : String) (w : World) → (with_owner e user_id w).1 ≡ w
with_owner-reads e user_id w = elim (with_owner-cases e user_id w) [
  | inl (owner, q) ↦ ap (λ (x : Result HitlEvent × World). x.1) q
  | inr q ↦ ap (λ (x : Result HitlEvent × World). x.1) q
]

pub with_owner-ok :
    (e : HitlEvent) (user_id : String) (w : World) (owned : HitlEvent)
    → (with_owner e user_id w).0 ≡ ok owned
    → (owner : Option String) × (owned ≡ record e { owner_pubkey = owner })
with_owner-ok e user_id w owned given = elim (with_owner-cases e user_id w) [
  | inl (owner, q) ↦ (owner, ground (arith, ap (λ (x : Result HitlEvent × World). x.0) q, given))
  | inr q ↦ cc (ap (λ (x : Result HitlEvent × World). x.0) q, given)
]
