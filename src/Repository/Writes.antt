-- ===== src/Repository/Writes.antt =====
-- Every sequence of writes keeps the unique columns unique.
use nodus_hitl_hub.Base.{Bool-cases, List, Option, String, [], any, arith, inl, inr, refl, ℕ, ◌∷◌}
use nodus_hitl_hub.Json.{Fields}
use nodus_hitl_hub.Models.Event.{HitlEvent}
use nodus_hitl_hub.Models.Hitl.{HitlStatus}
use nodus_hitl_hub.Repository.{
  clashes, expire_stale, fits, insert, set_reference, storable, update_status,
}
use nodus_hitl_hub.Repository.Keys.{IsKeyed, append-IsKeyed, change_at-KeepsKeys, map-IsKeyed}
use nodus_hitl_hub.Repository.Rows.{row_of_event}
use nodus_hitl_hub.World.{World}

-- The statements of the repository that write to `nostr_hitl`.
pub data Write : Type 0 where
  inserts : HitlEvent → Write
  references : String → String → Option String → Write
  updates : String → HitlStatus → Option Fields → Write
  expires : Write

-- The world after a statement, which may have raised.
abbrev pub write : Write → World → World
write (inserts e) w = (insert e w).1
write (references id ref relay) w = (set_reference id ref relay w).1
write (updates id status response) w = (update_status id status response w).1
write expires w = (expire_stale w).1

-- Time passes before each statement.
abbrev pub run_writes : List (ℕ × Write) → World → World
run_writes [] w = w
run_writes ((time, x) ∷ rest) w = run_writes rest (write x (record w { now = time }))

insert-IsKeyed : (e : HitlEvent) (w : World) → IsKeyed w.hitl → IsKeyed (insert e w).1.hitl
unfolding insert
insert-IsKeyed e w h = elim (Bool-cases (storable e)) [
  | inr bad ↦ rw bad h
  | inl good ↦ elim (Bool-cases (any (clashes (row_of_event e)) w.hitl)) [
    | inl taken ↦ rw (good, taken) h
    | inr free ↦ rw (good, free) (append-IsKeyed (row_of_event e) w.hitl free h)
  ]
]

write-IsKeyed : (x : Write) (w : World) → IsKeyed w.hitl → IsKeyed (write x w).hitl
unfolding set_reference update_status expire_stale
write-IsKeyed (inserts e) w h = insert-IsKeyed e w h
write-IsKeyed (references id ref relay) w h =
    map-IsKeyed _ w.hitl (change_at-KeepsKeys id _ (λ r. (refl, refl))) h
write-IsKeyed (updates id status response) w h = elim (Bool-cases (fits response)) [
  | inl good ↦
      rw (IsKeyed, write, good)
        (map-IsKeyed _ w.hitl (change_at-KeepsKeys id _ (λ r. (refl, refl))) h)
  | inr bad ↦ rw (IsKeyed, write, bad) h
]
write-IsKeyed expires w h = map-IsKeyed _ w.hitl (λ r. (ground arith, ground arith)) h

-- From a table with unique keys, any sequence of statements, refused inserts among them, leaves one:
-- no two rows share an event id or an idempotency key.
pub run_writes-IsKeyed :
    (xs : List (ℕ × Write)) (w : World) → IsKeyed w.hitl → IsKeyed (run_writes xs w).hitl
run_writes-IsKeyed [] w h = h
run_writes-IsKeyed ((time, x) ∷ rest) w h =
    run_writes-IsKeyed rest (write x (record w { now = time }))
      (write-IsKeyed x (record w { now = time }) h)
