-- ===== src/Base/Pages.antt =====
-- What a page of a sorted table promises.
use Prim.Native.Nat.{ℕ, ◌≤◌}
use mathlib.Core.Path.{◌≡◌, refl}
use mathlib.Core.Logic.{inl, inr, ◌⊎◌}
use mathlib.Core.Bool.{Bool, true}
use mathlib.Core.List.{List, Memᴰ, [], ◌∷◌}
use nodus_hitl_hub.Base.{All, Bool-cases, length, select, take}
use nodus_hitl_hub.Base.Sorting.{
  All-newest_first, IsNewestFirst, length-take-le, mem-newest_first, mem-page, mem-select,
  newest_first, newest_first-IsNewestFirst, take-All, take-IsNewestFirst,
}

-- What a page of at most n rows promises of the rows of a table, for the rows that it selects.
pub record IsPage {A : Type 0} (time : A → ℕ) (P : A → Type 0) (n : ℕ) (rows page : List A)
    : Type 0 where
  pub sorted : IsNewestFirst time page
  pub short : length page ≤ n
  pub listed : All (λ r. Memᴰ r rows × P r) page
  pub complete :
      (r : A)
      → Memᴰ r rows
      → P r
      → Memᴰ r page ⊎ ((length page ≡ n) × All (λ s. time r ≤ time s) page)

module _ {A : Type 0} (P : A → Type 0) (p : A → Bool) (sound : (x : A) → p x ≡ true → P x) where
  All-select :
      (rows all : List A) → All (λ r. Memᴰ r all) rows → All (λ r. Memᴰ r all × P r) (select p rows)
  All-select [] all h = tt
  All-select (r ∷ rows) all h = elim (Bool-cases (p r)) [
    | inl e ↦ rw e ((h.0, sound r e), All-select rows all h.1)
    | inr e ↦ rw e (All-select rows all h.1)
  ]

module _ {A : Type 0} where
  All-tail :
      (r : A) (rows all : List A) → All (λ s. Memᴰ s all) rows → All (λ s. Memᴰ s (r ∷ all)) rows
  All-tail r [] all h = tt
  All-tail r (s ∷ rows) all h = (Memᴰ.tail h.0, All-tail r rows all h.1)

  All-self : (rows : List A) → All (λ r. Memᴰ r rows) rows
  All-self [] = tt
  All-self (r ∷ rows) = (Memᴰ.head refl, All-tail r rows rows (All-self rows))

pub select-IsPage :
    {A : Type 0} (time : A → ℕ) (P : A → Type 0) (p : A → Bool)
    → ((x : A) → p x ≡ true → P x)
    → ((x : A) → P x → p x ≡ true)
    → (n : ℕ) (rows : List A) → IsPage time P n rows (take n (newest_first time (select p rows)))
select-IsPage time P p sound faithful n rows =
    let chosen = select p rows in
    let sorted = newest_first-IsNewestFirst time chosen in
    record {
      sorted = take-IsNewestFirst time n (newest_first time chosen) sorted;
      short = length-take-le n (newest_first time chosen);
      listed =
          take-All _ n (newest_first time chosen)
            (All-newest_first time _ chosen (All-select P p sound rows rows (All-self rows)));
      complete = λ r m h.
          mem-page time n r (newest_first time chosen) sorted
            (mem-newest_first time r chosen (mem-select p r rows (faithful r h) m));
    }
