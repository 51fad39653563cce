-- ===== src/Hooks/Deadline.antt =====
-- The expiry task: a request that nobody resolves does not stay pending.
use native.Mathlib.Nat.{suc-mul}
use mathlib.Core.Option
use nodus_hitl_hub.Base.{
  All, Bool-cases, List, String, [], ap, arith, eq_iff, false, inl, inr, length, refl, some, subst,
  true, ℕ, ◌*◌, ◌+◌, ◌<◌, ◌==◌, ◌∙◌, ◌∷◌, ◌≡◌, ◌≢◌, ◌≤◌, ◌⊎◌,
}
use nodus_hitl_hub.Hooks.Expiry.{Nap, expire_loop, expire_round, is_stopped, wakes}
use nodus_hitl_hub.Repository.{expire_row, expire_stale, find_row, is_stale}
use nodus_hitl_hub.Repository.Expiry.{find_row-expired}
use nodus_hitl_hub.World.{HitlRow, World}
use nodus_hitl_hub.World.Exec.{ok}

-- A request that is there, with this time to expire.
abbrev pub IsDue : String → ℕ → World → Type 0
IsDue id t w = (r : HitlRow) × (find_row id w.hitl ≡ some r) × (r.expires_at ≡ some t)

-- A request that is there and not pending.
abbrev pub IsClosed : String → World → Type 0
IsClosed id w = (r : HitlRow) × (find_row id w.hitl ≡ some r) × (r.status ≢ "pending")

-- A sleep of the loop takes the interval at least; the other tasks remove no request, let no resolved
-- one become pending, and leave the time to expire.
pub record IsNap (interval : ℕ) (id : String) (t : ℕ) (others : World → World) : Type 0 where
  pub lasts : (w : World) → w.now + interval ≤ (others w).now
  pub due : (w : World) → IsDue id t w → IsDue id t (others w)
  pub closed : (w : World) → IsClosed id w → IsClosed id (others w)

abbrev pub Sleeps : ℕ → String → ℕ → Nap → Type 0
Sleeps interval id t (wakes others) = IsNap interval id t others
Sleeps interval id t is_stopped = ⊥

expire_round-now : (w : World) → (expire_round true w).1.now ≡ w.now
unfolding expire_round expire_stale
expire_round-now w = refl

-- A round looks up the request that it expires.
expire_round-row :
    (id : String) (w : World) (r : HitlRow)
    → find_row id w.hitl ≡ some r
    → find_row id (expire_round true w).1.hitl ≡ some (expire_row w.now r)
unfolding expire_round expire_stale
expire_round-row id w r found =
    find_row-expired id w.now w.hitl ∙ ap (Option.map (expire_row w.now)) found

expire_round-IsClosed :
    (id : String) (w : World) → IsClosed id w → IsClosed id (expire_round true w).1
expire_round-IsClosed id w (r, found, closed) =
    let other : (r.status == "pending") ≡ false =
      ground (arith, eq_iff r.status "pending", closed) in
    let same : expire_row w.now r ≡ r = rw other refl in
    (r, expire_round-row id w r found ∙ ap some same, closed)

expire_round-IsDue :
    (id : String) (t : ℕ) (w : World)
    → IsDue id t w
    → IsClosed id (expire_round true w).1 ⊎ (IsDue id t (expire_round true w).1 × w.now ≤ t)
expire_round-IsDue id t w (r, found, due) = elim (Bool-cases (is_stale w.now r)) [
  | inl stale ↦
      let gone : expire_row w.now r ≡ record r { status = "expired"; resolved_at = some w.now } =
        rw stale refl in
      inl (
        _,
        expire_round-row id w r found ∙ ap some gone,
        ground (arith, eq_iff "expired" "pending"),
      )
  | inr not_stale ↦
      let same : expire_row w.now r ≡ r = rw not_stale refl in
      elim (Bool-cases (r.status == "pending")) [
        | inl waits ↦ inr (
          (r, expire_round-row id w r found ∙ ap some same, due),
          ground (arith, not_stale, waits, due),
        )
        | inr other ↦ inl (
          r,
          expire_round-row id w r found ∙ ap some same,
          ground (arith, eq_iff r.status "pending", other),
        )
      ]
]

expire_round_ok : (w : World) → (expire_round true w).0 ≡ ok tt
unfolding expire_round
expire_round_ok w = refl

module _ (interval : ℕ) (id : String) (t : ℕ) where
  expire_loop-stays :
      (naps : List Nap) (w : World)
      → All (Sleeps interval id t) naps
      → IsClosed id w
      → IsClosed id (expire_loop true naps w).1
  unfolding expire_loop
  expire_loop-stays [] w k closed = closed
  expire_loop-stays (is_stopped ∷ naps) w k closed = elim k.0 [ ]
  expire_loop-stays (wakes others ∷ naps) w k closed =
      rw (expire_round_ok (others w))
        (expire_loop-stays naps _ k.1 (expire_round-IsClosed id (others w) (k.0.closed w closed)))

  -- While the loop sleeps its interval each time, and the other tasks remove no request, reopen
  -- none and leave the times to expire, a request that is to expire, now or later, within the
  -- rounds of the loop is not pending after them.
  pub expire_loop-IsClosed :
      (naps : List Nap) (w : World)
      → All (Sleeps interval id t) naps
      → IsDue id t w
      → w.now ≤ t
      → t < w.now + length naps * interval
      → IsClosed id (expire_loop true naps w).1
  unfolding expire_loop
  expire_loop-IsClosed [] w k due ahead within = ground (arith, ahead, within)
  expire_loop-IsClosed (is_stopped ∷ naps) w k due ahead within = elim k.0 [ ]
  expire_loop-IsClosed (wakes others ∷ naps) w k due ahead within =
      let u = others w in
      let v = (expire_round true u).1 in
      let longer = subst (λ n. t < w.now + n) (suc-mul (length naps) interval) within in
      rw (expire_round_ok u) (elim (expire_round-IsDue id t u (k.0.due w due)) [
        | inl closed ↦ expire_loop-stays naps v k.1 closed
        | inr (due', ahead') ↦
            expire_loop-IsClosed naps v k.1 due' (omega (arith, expire_round-now u, ahead'))
              (omega (arith, expire_round-now u, k.0.lasts w, longer))
      ])
