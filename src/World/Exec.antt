-- ===== src/World/Exec.antt =====
-- Coroutines: state and exceptions. What was written before a raise stays written. Between two
-- awaits the event loop may run another task; where that matters, the pieces are actions of their
-- own.
use nodus_hitl_hub.Base.{List, [], inl, inr, refl, suc, ℕ, ◌∷◌, ◌≡◌, ◌⊎◌}
use nodus_hitl_hub.World.{Outgoing, World}

-- The exceptions. pydantic's `ValidationError` is a `ValueError`.
pub data Error : Type 0 where
  value_error type_error attribute_error key_error overflow_error unique_violation runtime_error
        cancelled_error external :
      Error

pub data Result {ℓ} (A : Type ℓ) : Type ℓ where
  ok : A → Result A
  err : Error → Result A

abbrev pub Exec : Type 0 → Type 0
Exec A = World → Result A × World

abbrev pub Done : Type 0
Done = Unit

module _ {A : Type 0} where
  abbrev pub pure : A → Exec A
  pure a w = (ok a, w)

  abbrev pub raise : Error → Exec A
  raise e w = (err e, w)

  abbrev pub lift : Result A → Exec A
  lift r w = (r, w)

  abbrev pub gets : (World → A) → Exec A
  gets f w = (ok (f w), w)

abbrev pub modify : (World → World) → Exec Done
modify f w = (ok tt, f w)

module _ {A B : Type 0} where
  abbrev pub continue : Result A → (A → Exec B) → Exec B
  continue (ok a) f w = f a w
  continue (err e) f w = (err e, w)

  infixl 5 ◌>>=◌ ◌>>◌
  abbrev pub ◌>>=◌ : Exec A → (A → Exec B) → Exec B
  ◌>>=◌ m f w = let (r, w') = m w in continue r f w'

  abbrev pub ◌>>◌ : Exec A → Exec B → Exec B
  m >> k = m >>= λ _. k

  abbrev pub and_then : Result A → (A → Result B) → Result B
  and_then (ok a) f = f a
  and_then (err e) f = err e

-- `try: m; except Exception: log`: the exception is dropped, the state is kept.
abbrev pub attempt : Exec Done → Exec Done
attempt m w = (ok tt, (m w).1)

-- The same around a value: after an exception it is the one given.
abbrev pub recover : {A : Type 0} → Exec A → A → Exec A
recover m default w = let (r, w') = m w in (elim r [ ok a ↦ ok a | err _ ↦ ok default ], w')

-- `for x in xs: await body(x)`
unfoldable pub for_each : {A : Type 0} → (A → Exec Done) → List A → Exec Done
for_each body [] = pure tt
for_each body (x ∷ xs) = do body x; for_each body xs

-- A message that leaves the process.
abbrev pub send : Outgoing → Exec Done
send message = modify (λ w. record w { sent = message ∷ w.sent })

-- The number of the next call of the random source.
abbrev pub next_serial : Exec ℕ
next_serial w = (ok w.serial, record w { serial = suc w.serial })

-- A chain that succeeds did so in each part.
pub and_then-ok :
    {A B : Type 0} (r : Result A) (f : A → Result B) {b : B}
    → and_then r f ≡ ok b
    → (a : A) × (r ≡ ok a) × (f a ≡ ok b)
and_then-ok (ok a) f h = (a, refl, h)
and_then-ok (err e) f h = cc

pub Result-cases :
    {A : Type 0} (r : Result A) → ((e : Error) × (r ≡ err e)) ⊎ ((a : A) × (r ≡ ok a))
Result-cases (err e) = inl (e, refl)
Result-cases (ok a) = inr (a, refl)
