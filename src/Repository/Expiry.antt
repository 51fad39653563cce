-- ===== src/Repository/Expiry.antt =====
-- `expire_stale`: which rows it changes, and how its count relates to the table.
use mathlib.Core.Option
use nodus_hitl_hub.Base.{
  Bool-cases, List, Option-cases, String, [], arith, count_if, eq_iff, false, inl, inr, map, refl,
  some, true, ℕ, ◌<◌, ◌↔◌, ◌∷◌, ◌≡◌,
}
use nodus_hitl_hub.Repository.{expire_row, expire_stale, find_row, is_stale}
use nodus_hitl_hub.World.{HitlRow, World}
use nodus_hitl_hub.World.Exec.{ok}

-- A pending row whose time has run out.
abbrev pub IsStale : ℕ → HitlRow → Type 0
IsStale now r = (r.status ≡ "pending") × ((t : ℕ) × (r.expires_at ≡ some t) × (t < now))

is_stale_iff : (now : ℕ) (r : HitlRow) → (is_stale now r ≡ true) ↔ IsStale now r
is_stale_iff now r = elim (Option-cases r.expires_at) [
  | inl e ↦ (λ h. ground (arith, e), λ (_, (t, f, _)). cc)
  | inr (t, e) ↦ (
    λ h. (ground (arith, eq_iff r.status "pending"), (t, e, ground arith)),
    λ (p, (u, f, l)). ground (arith, eq_iff r.status "pending"),
  )
]

-- The row at a place of the table before and after an expiry.
pub record IsExpiry (now : ℕ) (r s : HitlRow) : Type 0 where
  pub stale : IsStale now r → s ≡ record r { status = "expired"; resolved_at = some now }
  pub fresh : ¬ IsStale now r → s ≡ r

abbrev pub AllExpiry : ℕ → List HitlRow → List HitlRow → Type 0
AllExpiry now [] [] = Unit
AllExpiry now (r ∷ rs) (s ∷ ss) = IsExpiry now r s × AllExpiry now rs ss
AllExpiry now _ _ = ⊥

expire_row-IsExpiry : (now : ℕ) (r : HitlRow) → IsExpiry now r (expire_row now r)
expire_row-IsExpiry now r = record {
  stale = λ h. rw ((is_stale_iff now r).1 h) refl;
  fresh = λ h. elim (Bool-cases (is_stale now r)) [
    | inl e ↦ absurd (h ((is_stale_iff now r).0 e))
    | inr e ↦ rw e refl
  ];
}

map-AllExpiry : (now : ℕ) (rows : List HitlRow) → AllExpiry now rows (map (expire_row now) rows)
map-AllExpiry now [] = tt
map-AllExpiry now (r ∷ rows) = (expire_row-IsExpiry now r, map-AllExpiry now rows)

expire_row-not_stale : (now : ℕ) (r : HitlRow) → is_stale now (expire_row now r) ≡ false
expire_row-not_stale now r = elim (Bool-cases (is_stale now r)) [
  | inl e ↦ rw e refl
  | inr e ↦ rw e e
]

no_stale_left :
    (now : ℕ) (rows : List HitlRow) → count_if (is_stale now) (map (expire_row now) rows) ≡ 0
no_stale_left now [] = refl
no_stale_left now (r ∷ rows) = rw (expire_row-not_stale now r) (no_stale_left now rows)

-- `expire_stale` succeeds; in each place of the table a pending row past its time becomes expired
-- and resolved now and any other row stays, and the count is the number of such rows.
pub expire_stale-AllExpiry :
    (w : World)
    → ((expire_stale w).0 ≡ ok (count_if (is_stale w.now) w.hitl))
      × AllExpiry w.now w.hitl (expire_stale w).1.hitl
unfolding expire_stale
expire_stale-AllExpiry w = (refl, map-AllExpiry w.now w.hitl)

expire_row_idem : (now : ℕ) (r : HitlRow) → expire_row now (expire_row now r) ≡ expire_row now r
expire_row_idem now r = rw (expire_row-not_stale now r) refl

map-expire_idem :
    (now : ℕ) (rows : List HitlRow)
    → map (expire_row now) (map (expire_row now) rows) ≡ map (expire_row now) rows
map-expire_idem now [] = refl
map-expire_idem now (r ∷ rows) = cc (expire_row_idem now r, map-expire_idem now rows)

-- A second run at the same time finds nothing: it returns 0 and changes nothing.
pub expire_stale_again : (w : World) → expire_stale (expire_stale w).1 ≡ (ok 0, (expire_stale w).1)
unfolding expire_stale
expire_stale_again w = rw (no_stale_left w.now w.hitl, map-expire_idem w.now w.hitl) refl

-- An expiry keeps the rows where they stand.
pub find_row-expired :
    (id : String) (now : ℕ) (rows : List HitlRow)
    → find_row id (map (expire_row now) rows) ≡ Option.map (expire_row now) (find_row id rows)
find_row-expired id now [] = refl
find_row-expired id now (r ∷ rows) = elim (Bool-cases (is_stale now r)) [
  | inl stale ↦ rw stale (ground (arith, find_row-expired id now rows))
  | inr not_stale ↦ rw not_stale (ground (arith, find_row-expired id now rows))
]
