-- ===== src/Channels/Delivery.antt =====
-- What a delivery does, for the three adapters.
use nodus_hitl_hub.Base.{
  Bool, Bool-cases, List, Option, String, [], ap, arith, false, inl, inr, is_full, refl, subst,
  true, ◌&&◌, ◌∙◌, ◌∷◌, ◌≡◌, ◌≢◌,
}
use nodus_hitl_hub.Channels.Defs.{
  Post, Response, backoffice_url, hub_adapters, is_success, judge_email, judge_status,
  new_email_adapter, new_webpush_adapter, new_whatsapp_adapter, post_once, push_token, send_email,
  send_push, send_whatsapp, service_token,
}
use nodus_hitl_hub.Json.{Value, get, truthy}
use nodus_hitl_hub.Models.Notify.{NotifyRequest}
use nodus_hitl_hub.Notify.Channels.{discover_adapters, register_adapter}
use nodus_hitl_hub.World.{World}
use nodus_hitl_hub.World.Exec.{Result, Result-cases, ok}

-- How the delivery of one message ends with a token. It never raises.
pub data Delivery (post : Post) (token : String) (w : World) (result : Result Bool × World)
    : Type 0 where
  -- Something is not configured: nothing is sent.
  withheld : result ≡ (ok false, w) → Delivery post token w result
  -- There is a token: one post, and nothing else; it counts as delivered only if the service answered
  -- with success.
  sent_once :
      (url : String) (headers : List (String × String)) (body : Value) (delivered : Bool)
      → token ≢ ""
      → result ≡ (ok delivered, (post url headers body w).1)
      → (delivered ≡ true
          → (resp : Response) × ((post url headers body w).0 ≡ ok resp) × (is_success resp ≡ true))
      → Delivery post token w result

-- A judgement that is positive only on success.
abbrev pub IsStrict : (Response → Result Bool) → Type 0
IsStrict judge = (resp : Response) → judge resp ≡ ok true → is_success resp ≡ true

judge_status-IsStrict : IsStrict judge_status
judge_status-IsStrict resp h = ground (arith, h)

judge_email-IsStrict : IsStrict judge_email
judge_email-IsStrict resp h = elim (Bool-cases (is_success resp)) [
  | inl good ↦ good
  | inr bad ↦ ground (arith, h, bad)
]

full_token : (token : String) → is_full token ≡ true → token ≢ ""
full_token token full e = cc (subst (λ t. is_full t ≡ true) e full)

post_once-Delivery :
    (post : Post) (token : String) (judge : Response → Result Bool) (url : String)
    (headers : List (String × String)) (body : Value) (w : World)
    → IsStrict judge
    → is_full token ≡ true
    → Delivery post token w (post_once post judge url headers body w)
unfolding post_once
post_once-Delivery post token judge url headers body w strict full =
    elim (Result-cases (post url headers body w).0) [
      | inl (x, e) ↦ sent_once url headers body false (full_token token full) (rw e refl) (λ h. cc)
      | inr (resp, e) ↦ elim (Result-cases (judge resp)) [
        | inl (x, j) ↦
            sent_once url headers body false (full_token token full) (rw (e, j) refl) (λ h. cc)
        | inr (b, j) ↦
            sent_once url headers body b (full_token token full) (rw (e, j) refl)
              (λ h. (resp, e, strict resp (j ∙ ap ok h)))
      ]
    ]

-- What the registry of the process holds, and what the adapters of it promise of one message.
pub record AllDeliver (post : Post) (getenv : String → Option String) (req : NotifyRequest)
    (w : World) : Type 0 where
  pub registered :
      hub_adapters post getenv
      ≡ new_email_adapter post getenv
        ∷ new_webpush_adapter post getenv
        ∷ new_whatsapp_adapter post getenv
        ∷ []
  pub by_email : Delivery post (service_token getenv) w ((new_email_adapter post getenv).send req w)
  pub by_push : Delivery post (push_token getenv) w ((new_webpush_adapter post getenv).send req w)
  pub by_whatsapp :
      Delivery post (service_token getenv) w ((new_whatsapp_adapter post getenv).send req w)

email-Delivery :
    (post : Post) (base token : String) (req : NotifyRequest) (w : World)
    → Delivery post token w (send_email post base token req w)
unfolding send_email
email-Delivery post base token req w =
    elim (Bool-cases (truthy (get "address" req.metadata) && is_full token)) [
      | inr off ↦ rw off (withheld refl)
      | inl on ↦ rw on (
          post_once-Delivery post token judge_email _ _ _ w judge_email-IsStrict
            (ground (arith, on)))
    ]

push-Delivery :
    (post : Post) (base token : String) (req : NotifyRequest) (w : World)
    → Delivery post token w (send_push post base token req w)
unfolding send_push
push-Delivery post base token req w = elim (Bool-cases (is_full token)) [
  | inr off ↦ rw off (withheld refl)
  | inl on ↦ rw on (post_once-Delivery post token judge_status _ _ _ w judge_status-IsStrict on)
]

whatsapp-Delivery :
    (post : Post) (base token : String) (req : NotifyRequest) (w : World)
    → Delivery post token w (send_whatsapp post base token req w)
unfolding send_whatsapp
whatsapp-Delivery post base token req w =
    elim (Bool-cases (truthy (get "address" req.metadata) && is_full token)) [
      | inr off ↦ rw off (withheld refl)
      | inl on ↦ rw on (
          post_once-Delivery post token judge_status _ _ _ w judge_status-IsStrict
            (ground (arith, on)))
    ]

pub hub_adapters-eq :
    (post : Post) (getenv : String → Option String)
    → hub_adapters post getenv
      ≡ new_email_adapter post getenv
        ∷ new_webpush_adapter post getenv
        ∷ new_whatsapp_adapter post getenv
        ∷ []
unfolding hub_adapters discover_adapters register_adapter
hub_adapters-eq post getenv = refl

-- The registry of the process has the three adapters, whatever the environment. Whatever the HTTP
-- client returns or raises, each of them either sends nothing and reports a failure, as it does
-- without a token, or makes one post, and reports a success only if the service answered with one.
pub adapters-AllDeliver :
    (post : Post) (getenv : String → Option String) (req : NotifyRequest) (w : World)
    → AllDeliver post getenv req w
adapters-AllDeliver post getenv req w = record {
  registered = hub_adapters-eq post getenv;
  by_email = email-Delivery post (backoffice_url getenv) (service_token getenv) req w;
  by_push = push-Delivery post _ (push_token getenv) req w;
  by_whatsapp = whatsapp-Delivery post _ (service_token getenv) req w;
}
