-- ===== src/Engine/Promises.antt =====
-- What a call of the engine promises while others run.
use nodus_hitl_hub.Base.{String, false, some, true, ◌∙◌, ◌≡◌}
use nodus_hitl_hub.Engine.Request.{key_of}
use nodus_hitl_hub.Engine.Secured.{Lasts, Promise}
use nodus_hitl_hub.Engine.Tasks.{Call, call_approve, call_reject, call_request}
use nodus_hitl_hub.Json.{str}
use nodus_hitl_hub.Models.Hitl.{HitlRequest, is_error}
use nodus_hitl_hub.Repository.{find_row}
use nodus_hitl_hub.Repository.Later.{Later, is_closed}
use nodus_hitl_hub.World.{HitlRow, World}

-- The row of a request, by the id of the answer, with the key of the request if it has one.
pub record IsStored (req : HitlRequest) (id : String) (w : World) : Type 0 where
  pub row : HitlRow
  pub found : find_row id w.hitl ≡ some row
  pub key : (k : String) → key_of req ≡ str k → row.idempotency_key ≡ some k

-- The request `id` is there, and is not pending.
pub record IsResolved (id : String) (w : World) : Type 0 where
  pub row : HitlRow
  pub found : find_row id w.hitl ≡ some row
  pub closed : is_closed row ≡ true

-- An answer with an id names a stored request.
abbrev pub stores : HitlRequest → Promise
stores req answer w = (id : String) → answer.confirmation_id ≡ some id → IsStored req id w

-- An answer that is no error is about a request that is resolved.
abbrev pub resolves : String → Promise
resolves id answer w = is_error answer.status ≡ false → IsResolved id w

abbrev pub promise_of : Call → Promise
promise_of (call_request req) = stores req
promise_of (call_approve id response) = resolves id
promise_of (call_reject id reason) = resolves id

pub IsStored-Later :
    (req : HitlRequest) (id : String) (w v : World)
    → IsStored req id w
    → Later w v
    → IsStored req id v
IsStored-Later req id w v s later =
    let (r, found, succeeds) = later.outlives id s.row s.found in
    record { row = r; found = found; key = λ k q. succeeds.key ∙ s.key k q }

pub IsResolved-Later : (id : String) (w v : World) → IsResolved id w → Later w v → IsResolved id v
IsResolved-Later id w v s later =
    let (r, found, succeeds) = later.outlives id s.row s.found in
    record { row = r; found = found; closed = succeeds.closed s.closed }

pub promise_of-Lasts : (c : Call) → Lasts (promise_of c)
promise_of-Lasts (call_request req) answer w v promised later =
    λ id named. IsStored-Later req id w v (promised id named) later
promise_of-Lasts (call_approve id response) answer w v promised later =
    λ fine. IsResolved-Later id w v (promised fine) later
promise_of-Lasts (call_reject id reason) answer w v promised later =
    λ fine. IsResolved-Later id w v (promised fine) later
