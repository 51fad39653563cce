-- ===== src/Validators/Choice.antt =====
-- Which validator the registry chooses.
use mathlib.Core.List.{Memᴰ}
use nodus_hitl_hub.Base.{
  All, Bool, Bool-cases, List, Option-cases, String, [], arith, eq_iff, false, find, if◌then◌else◌,
  inl, inr, is_one_of, none, not, refl, some, subst, sym, true, ◌&&◌, ◌==◌, ◌↔◌, ◌∷◌, ◌≡◌,
}
use nodus_hitl_hub.Validators.Defs.{Validator, get_validator}
use nodus_hitl_hub.Validators.Plugins.{
  calendar_actions, calendar_validator, default_validator, discovered, email_validator,
  modelbook_conflict_validator, recording_validator, sensor_deploy_validator,
}

find_sound :
    {A : Type 0} (p : A → Bool) (xs : List A) {x : A}
    → find p xs ≡ some x
    → Memᴰ x xs × (p x ≡ true)
find_sound p [] e = cc
find_sound p (y ∷ ys) {x} e = elim (Bool-cases (p y)) [
  | inl hit ↦ (Memᴰ.head (ground arith), ground arith)
  | inr miss ↦ let (m, h) = find_sound p ys (ground arith) in (Memᴰ.tail m, h)
]

find-eq-none_iff :
    {A : Type 0} (p : A → Bool) (xs : List A) → (find p xs ≡ none) ↔ All (λ x. p x ≡ false) xs
find-eq-none_iff p [] = ground arith
find-eq-none_iff p (x ∷ xs) = ground (arith, find-eq-none_iff p xs)

abbrev specific : String → Validator → Bool
specific action v = not v.is_fallback && v.accepts action

abbrev fallback : String → Validator → Bool
fallback action v = v.is_fallback && v.accepts action

-- What the choice of `v` for an action promises.
pub record IsChosen (validators : List Validator) (action : String) (v : Validator) : Type 0 where
  pub listed : Memᴰ v validators
  pub accepting : v.accepts action ≡ true
  pub last_resort :
      v.is_fallback ≡ true → All (λ u. (not u.is_fallback && u.accepts action) ≡ false) validators

-- The chosen validator is registered and accepts the action, and a fallback is chosen only when no
-- specific validator accepts it.
pub get_validator-IsChosen :
    (validators : List Validator) (action : String) (v : Validator)
    → get_validator validators action ≡ some v
    → IsChosen validators action v
unfolding get_validator
get_validator-IsChosen validators action v e =
    elim (Option-cases (find (specific action) validators)) [
      | inr (u, found) ↦
          let same : u ≡ v = ground arith in
          let (m, h) = find_sound (specific action) validators found in
          let chosen : IsChosen validators action u = record {
            listed = m;
            accepting = ground (arith, h);
            last_resort = λ f. ground (arith, h);
          } in
          rw same at chosen
      | inl missed ↦
          let (m, h) = find_sound (fallback action) validators (ground arith) in
          record {
            listed = m;
            accepting = ground arith;
            last_resort = λ _. (find-eq-none_iff (specific action) validators).0 missed;
          }
    ]

accepts_split :
    (action : String) (validators : List Validator)
    → All (λ v. specific action v ≡ false) validators
    → All (λ v. fallback action v ≡ false) validators
    → All (λ v. v.accepts action ≡ false) validators
accepts_split action [] h k = tt
accepts_split action (v ∷ vs) h k = (ground arith, accepts_split action vs h.1 k.1)

specific_none :
    (action : String) (validators : List Validator)
    → All (λ v. v.accepts action ≡ false) validators
    → All (λ v. specific action v ≡ false) validators
specific_none action [] h = tt
specific_none action (v ∷ vs) h = (ground arith, specific_none action vs h.1)

fallback_none :
    (action : String) (validators : List Validator)
    → All (λ v. v.accepts action ≡ false) validators
    → All (λ v. fallback action v ≡ false) validators
fallback_none action [] h = tt
fallback_none action (v ∷ vs) h = (ground arith, fallback_none action vs h.1)

-- No validator is chosen exactly when none accepts the action.
get_validator-eq-none_iff :
    (validators : List Validator) (action : String)
    → (get_validator validators action ≡ none) ↔ All (λ v. v.accepts action ≡ false) validators
unfolding get_validator
get_validator-eq-none_iff validators action = (
  λ e.
      accepts_split action validators
        ((find-eq-none_iff (specific action) validators).0 (ground arith))
        ((find-eq-none_iff (fallback action) validators).0 (ground arith)),
  λ h. ground (
    arith,
    (find-eq-none_iff (specific action) validators).1 (specific_none action validators h),
    (find-eq-none_iff (fallback action) validators).1 (fallback_none action validators h),
  ),
)

-- The validator of each action, by the table of the documentation.
abbrev pub validator_of : String → Validator
validator_of action =
    if action == "start_recording"
    then recording_validator
    else if action == "deploy_sensor"
    then sensor_deploy_validator
    else if action == "send_email"
    then email_validator
    else if action == "modelbook_conflict"
    then modelbook_conflict_validator
    else if is_one_of action calendar_actions
    then calendar_validator
    else default_validator

abbrev Chooses : String → Type 0
Chooses action = get_validator discovered action ≡ some (validator_of action)

at_text : (action text : String) → (action == text) ≡ true → Chooses text → Chooses action
at_text action text e h = subst Chooses (sym ((eq_iff action text).0 e)) h

-- The discovered registry implements the table: the default validator, although it is registered
-- second, shadows no specific one.
pub get_validator-discovered :
    (action : String) → get_validator discovered action ≡ some (validator_of action)
unfolding get_validator
get_validator-discovered action = elim (Bool-cases (action == "start_recording")) [
  | inl e ↦ at_text action "start_recording" e refl
  | inr n1 ↦ elim (Bool-cases (action == "deploy_sensor")) [
    | inl e ↦ at_text action "deploy_sensor" e refl
    | inr n2 ↦ elim (Bool-cases (action == "send_email")) [
      | inl e ↦ at_text action "send_email" e refl
      | inr n3 ↦ elim (Bool-cases (action == "modelbook_conflict")) [
        | inl e ↦ at_text action "modelbook_conflict" e refl
        | inr n4 ↦ elim (Bool-cases (is_one_of action calendar_actions)) [
          | inl e ↦ rw (n1, n2, n3, n4, e, get_validator) refl
          | inr n5 ↦ rw (n1, n2, n3, n4, n5, get_validator) refl
        ]
      ]
    ]
  ]
]
