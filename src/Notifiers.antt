-- ===== src/Notifiers.antt =====
-- plugins/notifications: sse.py and nostr.py. Each builds an event, logs a line and sends nothing. A
-- time is shown with its offset or without, by how the event came to be; `show_time` is the one or the
-- other.
use nodus_hitl_hub.Base.{
  Bool, Bool-cases, List, Option, String, [], arith, eq_iff, eq_refl, false, if◌then◌else◌, inl,
  inr, is_full, is_given, is_one_of, none, not, or_text, refl, select, some, true, ℕ, ◌++◌, ◌==◌,
  ◌||◌, ◌∷◌, ◌≡◌,
}
use nodus_hitl_hub.Base.Int.{pos, ℤ}
use nodus_hitl_hub.Json.{
  Fields, Items, Value, arr, bool, cons, end, field, int, nil, null, obj, opt_str, str,
}
use nodus_hitl_hub.Json.Print.{dumps}
use nodus_hitl_hub.Lifecycle.Defs.{NotificationPlugin}
use nodus_hitl_hub.Models.Event.{HitlEvent}
use nodus_hitl_hub.World.Exec.{pure}

-- `SSENotify._queues`, the users in the order of their registration. Nothing is ever put into a queue.
abbrev pub Queues : Type 0
Queues = List String

-- `user_id in self._queues`
abbrev pub is_registered : String → Queues → Bool
is_registered user_id queues = is_one_of user_id queues

-- `register_user`, and `get_queue`, which gives the empty queue
unfoldable pub register_user : String → Queues → Queues
register_user user_id queues =
    if is_registered user_id queues then queues else queues ++ user_id ∷ []

unfoldable pub unregister_user : String → Queues → Queues
unregister_user user_id queues = select (λ u. not (u == user_id)) queues

unfoldable pub get_queue : String → Queues → Items × Queues
unfolding register_user
get_queue user_id queues = (nil, register_user user_id queues)

module _ (show_time : ℕ → String) where
  -- The event of `SSENotify.notify`, `none` where the user is not registered.
  unfoldable pub sse_event : Queues → HitlEvent → Option Fields
  sse_event queues event =
      if not (is_full event.user_id) || not (is_registered event.user_id queues)
      then none
      else some (
          field "event_id" (str event.event_id) (
            field "event_type" (str "confirmation_required") (
              field "action_type" (opt_str event.action) (
                field "action_description" (opt_str event.hint) (
                  field "action_data" (obj event.payload) (
                    field "status" (str "pending") (
                      field "expires_at"
                        (elim event.expires_at [ none ↦ null | some t ↦ str (show_time t) ])
                        (field "created_at" (str (show_time event.created_at)) end))))))))

-- `json.dumps` of the content of `NostrNotify.notify`
unfoldable pub notice_content : HitlEvent → String
unfolding dumps
notice_content event = dumps true (
    obj (
      field "_hitl_required" (bool true) (
        field "action" (opt_str event.action) (
          field "action_description" (opt_str event.hint) (
            field "action_data" (obj event.payload) (
              field "message_to_user" (opt_str event.hint)
                (field "agent" (str "hitl-hub") end)))))))

-- A tag of a key and an optional text.
abbrev pub tag : String → Option String → Value
tag key text = arr (cons (str key) (cons (str (or_text text "")) nil))

unfoldable pub notice_tags : HitlEvent → Items
notice_tags event = cons (tag "p" event.owner_pubkey) (
    cons (tag "session" event.session_id)
      (cons (tag "hint" event.hint) (cons (tag "action" event.action) nil)))

module _ (timestamp : ℕ → ℤ) where
  -- The event of `NostrNotify.notify`, `none` without a relay. `timestamp` is
  -- `int(time.timestamp())`, which depends on the time zone of the process for a time without offset.
  unfoldable pub notice : Option String → HitlEvent → Option Fields
  unfolding notice_content notice_tags
  notice relay_url event =
      if is_given relay_url
      then some (
          field "kind" (int (pos 10003)) (
            field "content" (str (notice_content event)) (
              field "tags" (arr (notice_tags event))
                (field "created_at" (int (timestamp event.created_at)) end))))
      else none

-- The plugins that the dispatcher discovers, in the order of their modules.
abbrev pub hub_notifiers : List NotificationPlugin
hub_notifiers =
    record { name = "NostrNotify"; notify = λ event. pure tt }
    ∷ record { name = "SSENotify"; notify = λ event. pure tt }
    ∷ []

-- A registered user is served, and no more once unregistered, whatever happened before.
pub register-unregister :
    (user_id : String) (queues : Queues)
    → (is_registered user_id (register_user user_id queues) ≡ true)
      × (is_registered user_id (unregister_user user_id queues) ≡ false)
unfolding register_user unregister_user
register-unregister user_id queues = (registered queues, unregistered queues)
  where
    appended : (qs : Queues) → is_registered user_id (qs ++ user_id ∷ []) ≡ true
    appended [] = ground (arith, eq_refl user_id)
    appended (q ∷ qs) = ground (arith, appended qs)

    registered :
        (qs : Queues)
        → is_registered user_id (if is_registered user_id qs then qs else qs ++ user_id ∷ []) ≡ true
    registered qs = elim (Bool-cases (is_registered user_id qs)) [
      | inl there ↦ rw there there
      | inr not_there ↦ rw not_there (appended qs)
    ]

    unregistered :
        (qs : Queues) → is_registered user_id (select (λ u. not (u == user_id)) qs) ≡ false
    unregistered [] = refl
    unregistered (q ∷ qs) = ground (arith, eq_iff q user_id, eq_iff user_id q, unregistered qs)
