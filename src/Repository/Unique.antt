-- ===== src/Repository/Unique.antt =====
-- What the unique columns say of two reads.
use nodus_hitl_hub.Base.{
  All, Bool-cases, List, Option, String, [], ap, arith, eq_iff, eq_refl, false, inl, inr, is_text,
  none, refl, some, subst, sym, true, ◌==◌, ◌∙◌, ◌∷◌, ◌≡◌, ◌≢◌,
}
use nodus_hitl_hub.Repository.{clashes, find_row}
use nodus_hitl_hub.Repository.Keys.{IsKeyed, find_key}
use nodus_hitl_hub.World.{HitlRow}

-- No later row has the key of the first.
clash_of_keys :
    (r : HitlRow) (rows : List HitlRow) (y k : String) (s : HitlRow)
    → All (λ t. clashes r t ≡ false) rows
    → find_row y rows ≡ some s
    → r.idempotency_key ≡ some k
    → s.idempotency_key ≢ some k
clash_of_keys r [] y k s apart found key = λ other. cc
clash_of_keys r (t ∷ rows) y k s apart found key = λ other. elim (Bool-cases (t.event_id == y)) [
  | inl here ↦
      let me : t ≡ s = ground (arith, found, here) in
      let mine : t.idempotency_key ≡ some k = ap (λ (x : HitlRow). x.idempotency_key) me ∙ other in
      ground (arith, apart.0, key, mine, eq_refl k)
  | inr there ↦ clash_of_keys r rows y k s apart.1 (ground (arith, found, there)) key other
]

-- Two rows with one key have one id.
pub same_key-same_id :
    (rows : List HitlRow) (x y k : String) (r s : HitlRow)
    → IsKeyed rows
    → find_row x rows ≡ some r
    → find_row y rows ≡ some s
    → r.idempotency_key ≡ some k
    → s.idempotency_key ≡ some k
    → x ≡ y
same_key-same_id [] x y k r s keyed fx fy kx ky = cc
same_key-same_id (t ∷ rows) x y k r s keyed fx fy kx ky = elim (Bool-cases (t.event_id == x)) [
  | inl at_x ↦ elim (Bool-cases (t.event_id == y)) [
    | inl at_y ↦ sym ((eq_iff t.event_id x).0 at_x) ∙ (eq_iff t.event_id y).0 at_y
    | inr off_y ↦
        let me : t ≡ r = ground (arith, fx, at_x) in
        let mine = ap (λ (z : HitlRow). z.idempotency_key) me ∙ kx in
        elim (clash_of_keys t rows y k s keyed.0 (ground (arith, fy, off_y)) mine ky) [ ]
  ]
  | inr off_x ↦ elim (Bool-cases (t.event_id == y)) [
    | inl at_y ↦
        let me : t ≡ s = ground (arith, fy, at_y) in
        let mine = ap (λ (z : HitlRow). z.idempotency_key) me ∙ ky in
        elim (clash_of_keys t rows x k r keyed.0 (ground (arith, fx, off_x)) mine kx) [ ]
    | inr off_y ↦
        same_key-same_id rows x y k r s keyed.1 (ground (arith, fx, off_x))
          (ground (arith, fy, off_y)) kx ky
  ]
]

-- A row that is found by its key is found by its id.
first-found :
    (r : HitlRow) (rows : List HitlRow) (k : String) (s : HitlRow)
    → All (λ t. clashes r t ≡ false) rows
    → find_key k rows ≡ some s
    → (r.event_id == s.event_id) ≡ false
first-found r [] k s apart found = cc
first-found r (t ∷ rows) k s apart found = elim (Bool-cases (is_text t.idempotency_key k)) [
  | inl here ↦
      let me : t ≡ s = ground (arith, found, here) in
      let other : (r.event_id == t.event_id) ≡ false = ground (arith, apart.0) in
      subst (λ (x : HitlRow). (r.event_id == x.event_id) ≡ false) me other
  | inr there ↦ first-found r rows k s apart.1 (ground (arith, found, there))
]

pub find_key-find_row :
    (rows : List HitlRow) (k : String) (s : HitlRow)
    → IsKeyed rows
    → find_key k rows ≡ some s
    → find_row s.event_id rows ≡ some s
find_key-find_row [] k s keyed found = cc
find_key-find_row (t ∷ rows) k s keyed found = elim (Bool-cases (is_text t.idempotency_key k)) [
  | inl here ↦
      let me : t ≡ s = ground (arith, found, here) in
      subst (λ (x : HitlRow). find_row x.event_id (t ∷ rows) ≡ some x) me
        (rw (eq_refl t.event_id) refl)
  | inr there ↦
      let rest : find_key k rows ≡ some s = ground (arith, found, there) in
      rw (first-found t rows k s keyed.0 rest) (find_key-find_row rows k s keyed.1 rest)
]

is_text-eq : (t : Option String) (k : String) → is_text t k ≡ true → t ≡ some k
is_text-eq none k h = cc
is_text-eq (some s) k h = ap some ((eq_iff s k).0 h)

pub find_key-key :
    (rows : List HitlRow) (k : String) (s : HitlRow)
    → find_key k rows ≡ some s
    → s.idempotency_key ≡ some k
find_key-key [] k s found = cc
find_key-key (t ∷ rows) k s found = elim (Bool-cases (is_text t.idempotency_key k)) [
  | inl here ↦
      let me : t ≡ s = ground (arith, found, here) in
      subst (λ (x : HitlRow). x.idempotency_key ≡ some k) me (is_text-eq t.idempotency_key k here)
  | inr there ↦ find_key-key rows k s (ground (arith, found, there))
]
