-- ===== src/Repository/Keys.antt =====
-- The unique columns of `nostr_hitl`, and reads by id across the updates.
use mathlib.Core.Option
use nodus_hitl_hub.Base.{
  All, Bool-cases, List, Option, String, [], any, arith, eq_iff, eq_refl, false, find,
  if◌then◌else◌, inl, inr, is_text, map, none, refl, some, ◌++◌, ◌==◌, ◌∷◌, ◌≡◌,
}
use nodus_hitl_hub.Repository.{change_at, clashes, find_row, same_key, update_row}
use nodus_hitl_hub.World.{HitlRow}

-- No two rows break the primary key or the unique index.
abbrev pub IsKeyed : List HitlRow → Type 0
IsKeyed [] = Unit
IsKeyed (r ∷ rs) = All (λ s. clashes r s ≡ false) rs × IsKeyed rs

-- An update that writes to neither unique column.
abbrev pub KeepsKeys : (HitlRow → HitlRow) → Type 0
KeepsKeys f =
    (r : HitlRow) → ((f r).event_id ≡ r.event_id) × ((f r).idempotency_key ≡ r.idempotency_key)

map-All :
    (f : HitlRow → HitlRow) (r : HitlRow) (rows : List HitlRow)
    → KeepsKeys f
    → All (λ s. clashes r s ≡ false) rows
    → All (λ s. clashes (f r) s ≡ false) (map f rows)
map-All f r [] k h = tt
map-All f r (s ∷ rows) k h = (rw ((k r).0, (k r).1, (k s).0, (k s).1) h.0, map-All f r rows k h.1)

pub map-IsKeyed :
    (f : HitlRow → HitlRow) (rows : List HitlRow)
    → KeepsKeys f
    → IsKeyed rows
    → IsKeyed (map f rows)
map-IsKeyed f [] k h = tt
map-IsKeyed f (r ∷ rows) k h = (map-All f r rows k h.0, map-IsKeyed f rows k h.1)

pub change_at-KeepsKeys :
    (id : String) (change : HitlRow → HitlRow) → KeepsKeys change → KeepsKeys (change_at id change)
change_at-KeepsKeys id change k r = ground (arith, k r)

same_key_symm : (a b : Option String) → same_key a b ≡ false → same_key b a ≡ false
same_key_symm none none h = refl
same_key_symm none (some b) h = refl
same_key_symm (some a) none h = refl
same_key_symm (some a) (some b) h = ground (arith, eq_iff a b, eq_iff b a)

clashes_symm : (r s : HitlRow) → clashes r s ≡ false → clashes s r ≡ false
clashes_symm r s h = ground (
  arith,
  eq_iff r.event_id s.event_id,
  eq_iff s.event_id r.event_id,
  same_key_symm r.idempotency_key s.idempotency_key,
)

append-All :
    (r row : HitlRow) (rows : List HitlRow)
    → clashes r row ≡ false
    → All (λ s. clashes r s ≡ false) rows
    → All (λ s. clashes r s ≡ false) (rows ++ row ∷ [])
append-All r row [] c h = (c, tt)
append-All r row (s ∷ rows) c h = (h.0, append-All r row rows c h.1)

pub append-IsKeyed :
    (row : HitlRow) (rows : List HitlRow)
    → any (clashes row) rows ≡ false
    → IsKeyed rows
    → IsKeyed (rows ++ row ∷ [])
append-IsKeyed row [] c h = (tt, tt)
append-IsKeyed row (r ∷ rows) c h = (
  append-All r row rows (clashes_symm row r (ground arith)) h.0,
  append-IsKeyed row rows (ground arith) h.1,
)

-- An update of a row by its id shows in the reads by that id, and in no other.
pub find_row-update_row :
    (id j : String) (change : HitlRow → HitlRow) (rows : List HitlRow)
    → KeepsKeys change
    → find_row j (update_row id change rows)
      ≡ (if id == j then Option.map change (find_row j rows) else find_row j rows)
find_row-update_row id j change [] k = ground arith
find_row-update_row id j change (r ∷ rows) k = ground (
  arith,
  k r,
  eq_iff id j,
  eq_iff r.event_id id,
  eq_iff r.event_id j,
  eq_iff (change r).event_id j,
  find_row-update_row id j change rows k,
)

-- A row whose id is not taken is found behind the others.
pub find_row-append :
    (row : HitlRow) (rows : List HitlRow)
    → any (clashes row) rows ≡ false
    → find_row row.event_id (rows ++ row ∷ []) ≡ some row
find_row-append row [] c = ground (arith, eq_refl row.event_id)
find_row-append row (r ∷ rows) c = ground (
  arith,
  eq_iff row.event_id r.event_id,
  eq_iff r.event_id row.event_id,
  find_row-append row rows,
)

-- An appended row hides none.
pub find_row-behind :
    (id : String) (rows : List HitlRow) (r x : HitlRow)
    → find_row id rows ≡ some r
    → find_row id (rows ++ x ∷ []) ≡ some r
find_row-behind id [] r x h = cc
find_row-behind id (s ∷ rows) r x h = ground (arith, h, find_row-behind id rows r x)

-- `SELECT … WHERE idempotency_key = k`
abbrev pub find_key : String → List HitlRow → Option HitlRow
find_key k rows = find (λ r. is_text r.idempotency_key k) rows

-- A row whose keys are not taken is found by its idempotency key.
pub find_key-append :
    (row : HitlRow) (k : String) (rows : List HitlRow)
    → row.idempotency_key ≡ some k
    → any (clashes row) rows ≡ false
    → find_key k (rows ++ row ∷ []) ≡ some row
find_key-append row k [] e c = ground (arith, eq_refl k)
find_key-append row k (r ∷ rows) e c = ground (arith, find_key-append row k rows e)

-- An update that keeps the keys changes a row where it stands.
pub find_key-update_row :
    (id k : String) (change : HitlRow → HitlRow) (rows : List HitlRow)
    → KeepsKeys change
    → find_key k (update_row id change rows) ≡ Option.map (change_at id change) (find_key k rows)
find_key-update_row id k change [] keep = refl
find_key-update_row id k change (r ∷ rows) keep = elim (Bool-cases (r.event_id == id)) [
  | inl e ↦ ground (arith, e, keep r, find_key-update_row id k change rows keep)
  | inr e ↦ ground (arith, e, find_key-update_row id k change rows keep)
]
