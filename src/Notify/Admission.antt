-- ===== src/Notify/Admission.antt =====
-- What the guards of the loop ask of a channel.
use nodus_hitl_hub.Base.{
  Bool, Bool-cases, Option, String, ap, arith, eq_iff, false, inl, inr, is_given, is_one_of, none,
  refl, some, sym, true, ℕ, ◌↔◌, ◌∙◌, ◌≡◌, ◌≢◌,
}
use nodus_hitl_hub.Models.Notify.{NotifyPriority, NotifyRequest}
use nodus_hitl_hub.Notify.Defs.{address_channels, addressed, is_on, passes_quiet_hours, prepare}
use nodus_hitl_hub.Notify.Store.{NotificationPreference}

-- A channel may be attempted: its preference, if there is one, is on and lets the priority through
-- at this hour, and a channel that needs an address has one.
pub record IsAdmitted (pref : Option NotificationPreference) (channel : String)
    (priority : NotifyPriority) (hour : ℕ) : Type 0 where
  pub is_enabled : (p : NotificationPreference) → pref ≡ some p → p.enabled ≡ some true
  pub is_awake :
      (p : NotificationPreference) → pref ≡ some p → passes_quiet_hours p priority hour ≡ true
  pub has_address :
      is_one_of channel address_channels ≡ true
      → (p : NotificationPreference) × (a : String) × (pref ≡ some p)
        × (p.address ≡ some a)
        × (a ≢ "")

is_on_iff : (b : Option Bool) → (is_on b ≡ true) ↔ (b ≡ some true)
is_on_iff none = ground arith
is_on_iff (some b) = ground arith

is_given_iff : (o : Option String) → (is_given o ≡ true) ↔ ((a : String) × (o ≡ some a) × (a ≢ ""))
is_given_iff none = (λ h. cc, λ (a, e, n). cc)
is_given_iff (some s) = (
  λ h. (s, refl, λ e. ground (arith, eq_iff s "")),
  λ (a, e, n). ground (arith, eq_iff s "", e, n),
)

abbrev pub is_prepared : Option NotifyRequest → Bool
is_prepared none = false
is_prepared (some _) = true

addressed_iff :
    (channel : String) (address : Option String) (req : NotifyRequest)
    → (is_prepared (addressed channel address req) ≡ true)
      ↔ (is_one_of channel address_channels ≡ true → is_given address ≡ true)
unfolding addressed
addressed_iff channel address req = elim (Bool-cases (is_one_of channel address_channels)) [
  | inr free ↦ rw free (λ h k. cc, λ h. refl)
  | inl bound ↦ elim (Bool-cases (is_given address)) [
    | inl given ↦ rw (bound, given) (λ h k. refl, λ h. refl)
    | inr nothing ↦ rw (bound, nothing) (λ h k. h, λ h. h refl)
  ]
]

same_pref : {p q : NotificationPreference} → some p ≡ some q → p ≡ q
same_pref e = ground arith

-- A request is prepared for a channel exactly when the channel is admitted.
pub prepare_iff :
    (pref : Option NotificationPreference) (channel : String) (hour : ℕ) (req : NotifyRequest)
    → (is_prepared (prepare pref channel hour req) ≡ true)
      ↔ IsAdmitted pref channel req.priority hour
unfolding prepare
prepare_iff none channel hour req = (
  λ h. record {
    is_enabled = λ p e. cc;
    is_awake = λ p e. cc;
    has_address = λ b. cc ((addressed_iff channel none req).0 h b);
  },
  λ h. (addressed_iff channel none req).1 (λ b. let (p, a, e, _, _) = h.has_address b in cc),
)
prepare_iff (some pref) channel hour req = elim (Bool-cases (is_on pref.enabled)) [
  | inr off ↦ rw off (
    λ h. cc,
    λ h. let on = (is_on_iff pref.enabled).1 (h.is_enabled pref refl) in cc (sym off ∙ on),
  )
  | inl on ↦ elim (Bool-cases (passes_quiet_hours pref req.priority hour)) [
    | inr quiet ↦ rw (on, quiet) (λ h. cc, λ h. cc (sym quiet ∙ h.is_awake pref refl))
    | inl passing ↦
        rw (on, passing)
          (
            λ h. record {
              is_enabled = λ p e.
                  ap (λ (x : NotificationPreference). x.enabled) (sym (same_pref e))
                  ∙ (is_on_iff pref.enabled).0 on;
              is_awake = λ p e.
                  ap (λ (x : NotificationPreference). passes_quiet_hours x req.priority hour)
                    (sym (same_pref e))
                  ∙ passing;
              has_address = λ b.
                  let (a, e, n) =
                    (is_given_iff pref.address).0
                      ((addressed_iff channel pref.address req).0 h b) in
                  (pref, a, refl, e, n);
            },
            λ h. (addressed_iff channel pref.address req).1 (λ b.
                let (p, a, e, f, n) = h.has_address b in
                (is_given_iff pref.address).1
                  (a, ap (λ (x : NotificationPreference). x.address) (same_pref e) ∙ f, n)),
          )
  ]
]
