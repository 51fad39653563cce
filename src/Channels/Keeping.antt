-- ===== src/Channels/Keeping.antt =====
-- plugins/channels: what the adapters leave alone if the HTTP client does.
use nodus_hitl_hub.Base.{Bool, List, Option, String, refl, ◌≡◌}
use nodus_hitl_hub.Channels.Defs.{Post, hub_adapters, push_token, service_token}
use nodus_hitl_hub.Channels.Delivery.{
  Delivery, adapters-AllDeliver, hub_adapters-eq, sent_once, withheld,
}
use nodus_hitl_hub.Json.{Value}
use nodus_hitl_hub.Notify.Keeping.{AdaptersLeave}
use nodus_hitl_hub.World.{World}
use nodus_hitl_hub.World.Exec.{Result}

module _ {X : Type 0} (view : World → X) (post : Post)
    (keep : (url : String) (headers : List (String × String)) (body : Value) (w : World)
      → view (post url headers body w).1 ≡ view w) where
  Delivery-leaves :
      (token : String) (w : World) (result : Result Bool × World)
      → Delivery post token w result
      → view result.1 ≡ view w
  Delivery-leaves token w result (withheld q) = rw q refl
  Delivery-leaves token w result (sent_once url headers body delivered on q sure) =
      rw q (keep url headers body w)

  -- Beside the posts, the adapters of the process change nothing.
  pub hub_adapters-leave :
      (getenv : String → Option String) → AdaptersLeave view (hub_adapters post getenv)
  hub_adapters-leave getenv = rw (hub_adapters-eq post getenv) (
    (λ req w.
        Delivery-leaves (service_token getenv) w _
          (adapters-AllDeliver post getenv req w).by_email),
    (
      (λ req w.
          Delivery-leaves (push_token getenv) w _ (adapters-AllDeliver post getenv req w).by_push),
      (
        (λ req w.
            Delivery-leaves (service_token getenv) w _
              (adapters-AllDeliver post getenv req w).by_whatsapp),
        tt,
      ),
    ),
  )
