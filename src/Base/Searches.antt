-- ===== src/Base/Searches.antt =====
-- What is found has what all elements have.
use nodus_hitl_hub.Base.{
  All, Bool, Bool-cases, List, [], arith, find, inl, inr, some, subst, ◌∷◌, ◌≡◌,
}

pub find-All {ℓ κ} :
    {A : Type ℓ} (P : A → Type κ) (p : A → Bool) (xs : List A) (x : A)
    → All P xs
    → find p xs ≡ some x
    → P x
find-All P p [] x k h = cc
find-All P p (y ∷ ys) x k h = elim (Bool-cases (p y)) [
  | inl found ↦ let same : y ≡ x = ground (arith, h, found) in subst P same k.0
  | inr other ↦ find-All P p ys x k.1 (ground (arith, h, other))
]
