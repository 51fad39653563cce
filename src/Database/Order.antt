-- ===== src/Database/Order.antt =====
-- `sorted` on texts and `endswith`.
use Prim.Native.Nat.{Ordering}
use Prim.Native.String
use Prim.Native.String.{String}
use mathlib.Core.Path.{◌≡◌, refl, ◌∙◌}
use mathlib.Core.Logic.{inl, inr}
use mathlib.Core.Bool.{Bool, true, false, ◌||◌}
use mathlib.Core.List.{List, [], ◌∷◌}
use native.Mathlib.Omega.{arith}
use text.Mathlib.Text.{◌==◌}
use nodus_hitl_hub.Base.{Bool-cases, count_if, if◌then◌else◌}

-- `text.endswith(suffix)`
unfoldable pub ends_with : String → String → Bool
ends_with suffix String.[] = "" == suffix
ends_with suffix (String.◌∷◌ c s) =
    let shorter = ends_with suffix s in String.◌∷◌ c s == suffix || shorter

-- Texts are ordered by their code points.
abbrev pub text_leb : String → String → Bool
text_leb s t = elim (String.compare s t) [ Ordering.gt ↦ false | _ ↦ true ]

abbrev pub insert_text : String → List String → List String
insert_text s [] = s ∷ []
insert_text s (t ∷ ts) =
    let later = t ∷ insert_text s ts in if text_leb s t then s ∷ t ∷ ts else later

abbrev pub sorted_texts : List String → List String
sorted_texts [] = []
sorted_texts (s ∷ ss) = insert_text s (sorted_texts ss)

-- Each text is at most the next.
abbrev pub IsAscending : List String → Type 0
IsAscending [] = Unit
IsAscending (s ∷ []) = Unit
IsAscending (s ∷ t ∷ ts) = (text_leb s t ≡ true) × IsAscending (t ∷ ts)

text_leb-total : (s t : String) → text_leb s t ≡ false → text_leb t s ≡ true
text_leb-total String.[] String.[] h = refl
text_leb-total String.[] (String.◌∷◌ d t) h =
    let h' : true ≡ false = rw (text_leb, String.compare.nil-cons d t) at h in cc
text_leb-total (String.◌∷◌ c s) String.[] h = rw (text_leb, String.compare.nil-cons c s) refl
text_leb-total (String.◌∷◌ c s) (String.◌∷◌ d t) h =
    ground (
      arith,
      String.compare.cons-cons c d s t,
      String.compare.cons-cons d c t s,
      text_leb-total s t,
    )

insert_text-IsAscending :
    (s : String) (ts : List String) → IsAscending ts → IsAscending (insert_text s ts)
insert_text-IsAscending s [] h = tt
insert_text-IsAscending s (t ∷ []) h = elim (Bool-cases (text_leb s t)) [
  | inl e ↦ rw e (e, tt)
  | inr e ↦ rw e (text_leb-total s t e, tt)
]
insert_text-IsAscending s (t ∷ u ∷ us) h = elim (Bool-cases (text_leb s t)) [
  | inl e ↦ rw e (e, h)
  | inr e ↦ elim (Bool-cases (text_leb s u)) [
    | inl f ↦
        let rest : IsAscending (insert_text s (u ∷ us)) = insert_text-IsAscending s (u ∷ us) h.1 in
        rw (e, f) (text_leb-total s t e, rw f at rest)
    | inr f ↦
        let rest : IsAscending (insert_text s (u ∷ us)) = insert_text-IsAscending s (u ∷ us) h.1 in
        rw (e, f) (h.0, rw f at rest)
  ]
]

pub sorted_texts-IsAscending : (ss : List String) → IsAscending (sorted_texts ss)
sorted_texts-IsAscending [] = tt
sorted_texts-IsAscending (s ∷ ss) =
    insert_text-IsAscending s (sorted_texts ss) (sorted_texts-IsAscending ss)

-- A text occurs in the sorted list as often as in the given one.
insert_text-count :
    (p : String → Bool) (s : String) (ts : List String)
    → count_if p (insert_text s ts) ≡ count_if p (s ∷ ts)
insert_text-count p s [] = refl
insert_text-count p s (t ∷ ts) = elim (Bool-cases (text_leb s t)) [
  | inl e ↦ rw e refl
  | inr e ↦ rw e (ground (arith, insert_text-count p s ts))
]

pub sorted_texts-count :
    (p : String → Bool) (ss : List String) → count_if p (sorted_texts ss) ≡ count_if p ss
sorted_texts-count p [] = refl
sorted_texts-count p (s ∷ ss) =
    insert_text-count p s (sorted_texts ss) ∙ ground (arith, sorted_texts-count p ss)
