-- ===== src/Base/Sorting.antt =====
-- `ORDER BY created_at DESC LIMIT n` over rows with a time: the order, the number and the elements
-- of a page.
use mathlib.Core.List.{Memᴰ}
use Prim.Native.Nat.{ℕ, zero, suc, ◌≤◌, ◌<◌}
use mathlib.Core.Path.{◌≡◌, ap, refl, subst, sym, ◌∙◌}
use mathlib.Core.Logic.{inl, inr, ◌⊎◌}
use mathlib.Core.Bool.{Bool, true, false}
use mathlib.Core.List.{List, [], ◌∷◌, ◌++◌}
use native.Mathlib.Omega.{arith}
use nodus_hitl_hub.Base.{All, Bool-cases, if◌then◌else◌, leb, leb→le, length, select, take}

module _ {A : Type 0} where
  module _ (P : A → Type 0) where
    pub take-All : (n : ℕ) (rows : List A) → All P rows → All P (take n rows)
    take-All zero rows h = tt
    take-All (suc n) [] h = tt
    take-All (suc n) (r ∷ rows) h = (h.0, take-All n rows h.1)

  pub length-take-le : (n : ℕ) (rows : List A) → length (take n rows) ≤ n
  length-take-le zero rows = omega arith
  length-take-le (suc n) [] = omega arith
  length-take-le (suc n) (r ∷ rows) = omega (arith, length-take-le n rows)

  pub select-append :
      (p : A → Bool) (rows : List A) (r : A)
      → select p (rows ++ r ∷ []) ≡ select p rows ++ select p (r ∷ [])
  select-append p [] r = refl
  select-append p (s ∷ rows) r = elim (Bool-cases (p s)) [
    | inl e ↦ rw (e, select-append p rows r) refl
    | inr e ↦ rw (e, select-append p rows r) refl
  ]

  pub select-All :
      (p : A → Bool) (Q : A → Type 0) (rows : List A) → All Q rows → All Q (select p rows)
  select-All p Q [] h = tt
  select-All p Q (r ∷ rows) h = elim (Bool-cases (p r)) [
    | inl e ↦ rw e (h.0, select-All p Q rows h.1)
    | inr e ↦ rw e (select-All p Q rows h.1)
  ]

  pub mem-select :
      (p : A → Bool) (x : A) (rows : List A) → p x ≡ true → Memᴰ x rows → Memᴰ x (select p rows)
  mem-select p x [] h m = elim m [ ]
  mem-select p x (r ∷ rows) h (Memᴰ.head q) =
      let h' : p r ≡ true = sym (ap p q) ∙ h in rw h' (Memᴰ.head q)
  mem-select p x (r ∷ rows) h (Memᴰ.tail m) = elim (Bool-cases (p r)) [
    | inl e ↦ rw e (Memᴰ.tail (mem-select p x rows h m))
    | inr e ↦ rw e (mem-select p x rows h m)
  ]

  All-mem : (P : A → Type 0) (x : A) (rows : List A) → All P rows → Memᴰ x rows → P x
  All-mem P x [] h m = elim m [ ]
  All-mem P x (r ∷ rows) h (Memᴰ.head p) = subst P (sym p) h.0
  All-mem P x (r ∷ rows) h (Memᴰ.tail m) = All-mem P x rows h.1 m

module _ {A : Type 0} (time : A → ℕ) where
  abbrev pub insert_newest : A → List A → List A
  insert_newest r [] = r ∷ []
  insert_newest r (s ∷ rs) =
      let later = s ∷ insert_newest r rs in if leb (time s) (time r) then r ∷ s ∷ rs else later

  abbrev pub newest_first : List A → List A
  newest_first [] = []
  newest_first (r ∷ rs) = insert_newest r (newest_first rs)

  -- Newest first.
  abbrev pub IsNewestFirst : List A → Type 0
  IsNewestFirst [] = Unit
  IsNewestFirst (r ∷ rs) = All (λ s. (time s) ≤ (time r)) rs × IsNewestFirst rs

  module _ (P : A → Type 0) where
    pub All-insert_newest :
        (r : A) (rows : List A) → P r → All P rows → All P (insert_newest r rows)
    All-insert_newest r [] h k = (h, tt)
    All-insert_newest r (s ∷ rows) h k = elim (Bool-cases (leb (time s) (time r))) [
      | inl e ↦ rw e (h, k)
      | inr e ↦ rw e (k.0, All-insert_newest r rows h k.1)
    ]

    pub All-newest_first : (rows : List A) → All P rows → All P (newest_first rows)
    All-newest_first [] h = tt
    All-newest_first (r ∷ rows) h =
        All-insert_newest r (newest_first rows) h.0 (All-newest_first rows h.1)

  All-older :
      (m n : ℕ) (rows : List A)
      → m ≤ n
      → All (λ s. (time s) ≤ m) rows
      → All (λ s. (time s) ≤ n) rows
  All-older m n [] h k = tt
  All-older m n (r ∷ rows) h k = (omega arith, All-older m n rows h k.1)

  insert_newest-IsNewestFirst :
      (r : A) (rows : List A) → IsNewestFirst rows → IsNewestFirst (insert_newest r rows)
  insert_newest-IsNewestFirst r [] h = (tt, tt)
  insert_newest-IsNewestFirst r (s ∷ rows) h = elim (Bool-cases (leb (time s) (time r))) [
    | inl e ↦ rw e ((leb→le _ _ e, All-older (time s) (time r) rows (leb→le _ _ e) h.0), h)
    | inr e ↦ rw e (
      All-insert_newest (λ x. (time x) ≤ (time s)) r rows (ground arith) h.0,
      insert_newest-IsNewestFirst r rows h.1,
    )
  ]

  pub newest_first-IsNewestFirst : (rows : List A) → IsNewestFirst (newest_first rows)
  newest_first-IsNewestFirst [] = tt
  newest_first-IsNewestFirst (r ∷ rows) =
      insert_newest-IsNewestFirst r (newest_first rows) (newest_first-IsNewestFirst rows)

  pub take-IsNewestFirst :
      (n : ℕ) (rows : List A) → IsNewestFirst rows → IsNewestFirst (take n rows)
  take-IsNewestFirst zero rows h = tt
  take-IsNewestFirst (suc n) [] h = tt
  take-IsNewestFirst (suc n) (r ∷ rows) h = (take-All _ n rows h.0, take-IsNewestFirst n rows h.1)

  mem-insert_newest_self : (r : A) (rows : List A) → Memᴰ r (insert_newest r rows)
  mem-insert_newest_self r [] = Memᴰ.head refl
  mem-insert_newest_self r (s ∷ rows) = elim (Bool-cases (leb (time s) (time r))) [
    | inl e ↦ rw e (Memᴰ.head refl)
    | inr e ↦ rw e (Memᴰ.tail (mem-insert_newest_self r rows))
  ]

  mem-insert_newest : (r x : A) (rows : List A) → Memᴰ x rows → Memᴰ x (insert_newest r rows)
  mem-insert_newest r x [] m = elim m [ ]
  mem-insert_newest r x (s ∷ rows) (Memᴰ.head p) = elim (Bool-cases (leb (time s) (time r))) [
    | inl e ↦ rw e (Memᴰ.tail (Memᴰ.head p))
    | inr e ↦ rw e (Memᴰ.head p)
  ]
  mem-insert_newest r x (s ∷ rows) (Memᴰ.tail m) = elim (Bool-cases (leb (time s) (time r))) [
    | inl e ↦ rw e (Memᴰ.tail (Memᴰ.tail m))
    | inr e ↦ rw e (Memᴰ.tail (mem-insert_newest r x rows m))
  ]

  pub mem-newest_first : (x : A) (rows : List A) → Memᴰ x rows → Memᴰ x (newest_first rows)
  mem-newest_first x [] m = elim m [ ]
  mem-newest_first x (r ∷ rows) (Memᴰ.head p) =
      subst (λ y. Memᴰ y (newest_first (r ∷ rows))) (sym p)
        (mem-insert_newest_self r (newest_first rows))
  mem-newest_first x (r ∷ rows) (Memᴰ.tail m) =
      mem-insert_newest r x (newest_first rows) (mem-newest_first x rows m)

  -- An element of a sorted list is on the first page, or the page is full of elements as new.
  pub mem-page :
      (n : ℕ) (x : A) (rows : List A)
      → IsNewestFirst rows
      → Memᴰ x rows
      → Memᴰ x (take n rows)
        ⊎ ((length (take n rows) ≡ n) × All (λ s. (time x) ≤ (time s)) (take n rows))
  mem-page zero x rows h m = inr (refl, tt)
  mem-page (suc n) x [] h m = elim m [ ]
  mem-page (suc n) x (r ∷ rows) h (Memᴰ.head p) = inl (Memᴰ.head p)
  mem-page (suc n) x (r ∷ rows) h (Memᴰ.tail m) = elim (mem-page n x rows h.1 m) [
    | inl there ↦ inl (Memᴰ.tail there)
    | inr (full, newer) ↦ inr (ap suc full, (All-mem _ x rows h.0 m, newer))
  ]

  -- A row that is newer than all others comes first.
  pub newest_first-append :
      (rows : List A) (r : A)
      → All (λ s. time s < time r) rows
      → newest_first (rows ++ r ∷ []) ≡ r ∷ newest_first rows
  newest_first-append [] r h = refl
  newest_first-append (s ∷ rows) r h =
      let later : leb (time r) (time s) ≡ false = ground (arith, h.0) in
      rw (newest_first-append rows r h.1, later) refl
