-- ===== src/Notify/Attempts.antt =====
-- Which channels a notification is attempted over, and how the attempts are tallied.
use nodus_hitl_hub.Base.{
  Bool, Bool-cases, List, Option-cases, String, [], ap, false, inl, inr, is_one_of, none, refl,
  select, some, true, ℕ, ◌++◌, ◌∙◌, ◌∷◌, ◌≡◌, ◌⊎◌,
}
use nodus_hitl_hub.Models.Notify.{NotifyRequest}
use nodus_hitl_hub.Notify.Channels.{ChannelAdapter, get_adapter}
use nodus_hitl_hub.Notify.Defs.{
  Tally, deliver, log_only_channels, pref_of, prepare, send_all, tallied,
}
use nodus_hitl_hub.Notify.Store.{NotificationPreference}
use nodus_hitl_hub.World.{World}
use nodus_hitl_hub.World.Exec.{Result-cases, ok}

abbrev pub may_send : List NotificationPreference → ℕ → NotifyRequest → String → Bool
may_send prefs hour req channel = elim (prepare (pref_of channel prefs) channel hour req) [
  | none ↦ false
  | some _ ↦ true
]

-- The channels in order, each to one of two lists.
pub data IsSplit : List String → List String → List String → Type 0 where
  split_end : IsSplit [] [] []
  split_first : {c : String} {cs s f : List String} → IsSplit cs s f → IsSplit (c ∷ cs) (c ∷ s) f
  split_second : {c : String} {cs s f : List String} → IsSplit cs s f → IsSplit (c ∷ cs) s (c ∷ f)

-- A delivery never raises.
pub deliver-cases :
    (adapters : List ChannelAdapter) (channel : String) (req : NotifyRequest) (w : World)
    → ((deliver adapters channel req w).0 ≡ ok true)
      ⊎ ((deliver adapters channel req w).0 ≡ ok false)
unfolding deliver
deliver-cases adapters channel req w = elim (Bool-cases (is_one_of channel log_only_channels)) [
  | inl logged ↦ inl (rw logged refl)
  | inr sent_out ↦ elim (Option-cases (get_adapter channel adapters)) [
    | inl p ↦ inr (rw (sent_out, p) refl)
    | inr (a, p) ↦ elim (Result-cases (a.send req w).0) [
      | inl (x, r) ↦ inr (rw (sent_out, p, r) refl)
      | inr (b, r) ↦ elim (Bool-cases b) [
        | inl y ↦ inl (rw (sent_out, p, r, y) refl)
        | inr n ↦ inr (rw (sent_out, p, r, n) refl)
      ]
    ]
  ]
]

append_assoc : {A : Type 0} (xs ys zs : List A) → (xs ++ ys) ++ zs ≡ xs ++ (ys ++ zs)
append_assoc [] ys zs = refl
append_assoc (x ∷ xs) ys zs = ap (λ l. x ∷ l) (append_assoc xs ys zs)

append_nil : {A : Type 0} (xs : List A) → xs ++ [] ≡ xs
append_nil [] = refl
append_nil (x ∷ xs) = ap (λ l. x ∷ l) (append_nil xs)

abbrev pub grown : Tally → List String → List String → List String → Tally
grown t a s f = record {
  attempted = t.attempted ++ a;
  succeeded = t.succeeded ++ s;
  failed = t.failed ++ f;
}

grown-tallied_delivered :
    (c : String) (t : Tally) (a s f : List String)
    → grown (tallied c true t) a s f ≡ grown t (c ∷ a) (c ∷ s) f
grown-tallied_delivered c t a s f =
    rw (append_assoc t.attempted (c ∷ []) a, append_assoc t.succeeded (c ∷ []) s) refl

grown-tallied_lost :
    (c : String) (t : Tally) (a s f : List String)
    → grown (tallied c false t) a s f ≡ grown t (c ∷ a) s (c ∷ f)
grown-tallied_lost c t a s f =
    rw (append_assoc t.attempted (c ∷ []) a, append_assoc t.failed (c ∷ []) f) refl

may_send-prepare :
    (prefs : List NotificationPreference) (hour : ℕ) (req : NotifyRequest) (c : String)
    → ((prepare (pref_of c prefs) c hour req ≡ none) × (may_send prefs hour req c ≡ false))
      ⊎ ((r : NotifyRequest) × (prepare (pref_of c prefs) c hour req ≡ some r)
          × (may_send prefs hour req c ≡ true))
may_send-prepare prefs hour req c = elim (Option-cases (prepare (pref_of c prefs) c hour req)) [
  | inl p ↦ inl (p, rw (p, may_send) refl)
  | inr (r, p) ↦ inr (r, p, rw (p, may_send) refl)
]

module _ (adapters : List ChannelAdapter) (prefs : List NotificationPreference) (hour : ℕ)
    (req : NotifyRequest) where
  -- From any tally, the loop attempts the may_send channels in order, and each attempt ends in one
  -- of the two other lists, whatever the adapters return or raise.
  pub send_all-splits :
      (channels : List String) (t : Tally) (w : World)
      → (s : List String) × (f : List String) × ((send_all adapters prefs hour req channels t w).0
          ≡ ok (grown t (select (may_send prefs hour req) channels) s f))
        × IsSplit (select (may_send prefs hour req) channels) s f
  unfolding send_all
  send_all-splits [] t w = (
    [],
    [],
    rw (append_nil t.attempted, append_nil t.succeeded, append_nil t.failed) refl,
    split_end,
  )
  send_all-splits (c ∷ cs) t w = elim (may_send-prepare prefs hour req c) [
    | inl (p, m) ↦
        let (s, f, q, split) = send_all-splits cs t w in (s, f, rw (m, p, send_all) q, rw m split)
    | inr (r, p, m) ↦ elim (deliver-cases adapters c r w) [
      | inl d ↦
          let (s, f, q, split) = send_all-splits cs (tallied c true t) (deliver adapters c r w).1 in
          (
            c ∷ s,
            f,
            rw (m, p, send_all, d) (q ∙ ap ok (grown-tallied_delivered c t _ s f)),
            rw m (split_first split),
          )
      | inr d ↦
          let (s, f, q, split) =
            send_all-splits cs (tallied c false t) (deliver adapters c r w).1 in
          (
            s,
            c ∷ f,
            rw (m, p, send_all, d) (q ∙ ap ok (grown-tallied_lost c t _ s f)),
            rw m (split_second split),
          )
    ]
  ]
