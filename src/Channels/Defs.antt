-- ===== src/Channels/Defs.antt =====
-- plugins/channels: email.py, webpush.py and whatsapp.py, over a parameter for the HTTP client. The
-- environment is an argument, and the settings of each adapter are those of its constructor.
use nodus_hitl_hub.Base.{
  Bool, List, Option, String, [], concat, false, if◌then◌else◌, is_full, is_given, leb, ltb, none,
  some, true, ℕ, ◌&&◌, ◌∷◌,
}
use nodus_hitl_hub.Base.Strip.{strip_slashes}
use nodus_hitl_hub.Json.{
  Fields, Value, bool, end, field, get, get_or, obj, opt_str, set, str, truthy,
}
use nodus_hitl_hub.Models.Notify.{NotifyRequest}
use nodus_hitl_hub.Notify.Channels.{ChannelAdapter, discover_adapters}
use nodus_hitl_hub.World.Exec.{
  Exec, Result, and_then, attribute_error, err, lift, ok, pure, recover, ◌>>=◌,
}

-- A response of the HTTP client: the status, and `json()`, which may raise.
pub record Response : Type 0 where
  pub status_code : ℕ
  pub json : Result Value

abbrev pub Post : Type 0
Post = String → List (String × String) → Value → Exec Response

-- `200 <= resp.status_code < 300`
abbrev pub is_success : Response → Bool
is_success resp = leb 200 resp.status_code && ltb resp.status_code 300

-- The `try` of the adapters: what raises counts as not delivered.
unfoldable pub post_once :
    Post → (Response → Result Bool) → String → List (String × String) → Value → Exec Bool
post_once post judge url headers body =
    recover (do resp ← post url headers body; lift (judge resp)) false

abbrev pub judge_status : Response → Result Bool
judge_status resp = ok (is_success resp)

-- `bool(data.get("sent", True))`
abbrev pub sent_flag : Value → Result Bool
sent_flag (obj data_fields) = ok (truthy (get_or "sent" (bool true) data_fields))
sent_flag _ = err attribute_error

abbrev pub judge_email : Response → Result Bool
judge_email resp = if is_success resp then and_then resp.json sent_flag else ok false

abbrev pub bearer : String → List (String × String)
bearer token = ("Authorization", concat ("Bearer " ∷ token ∷ [])) ∷ []

-- `EmailAdapter`
unfoldable pub send_email : Post → String → String → NotifyRequest → Exec Bool
send_email post backoffice token req =
    let to = get "address" req.metadata in
    if truthy to && is_full token
    then post_once post judge_email (concat (strip_slashes backoffice ∷ "/internal/email" ∷ []))
        (bearer token)
        (obj (field "to" to (field "subject" (str req.title) (field "body" (str req.body) end))))
    else pure false

abbrev pub email_adapter : Post → String → String → ChannelAdapter
email_adapter post backoffice token = record {
  name = "email";
  send = send_email post backoffice token;
}

-- The optional entries of the push.
unfoldable pub push_body : NotifyRequest → Fields
push_body req =
    let base =
      field "user_id" (str req.user_id)
        (field "title" (str req.title) (field "body" (str req.body) end)) in
    let linked = if is_given req.url then set "url" (opt_str req.url) base else base in
    let tag = get "tag" req.metadata in if truthy tag then set "tag" tag linked else linked

-- `WebPushAdapter`
unfoldable pub send_push : Post → String → String → NotifyRequest → Exec Bool
send_push post llibreta token req =
    if is_full token
    then post_once post judge_status (concat (strip_slashes llibreta ∷ "/internal/push/send" ∷ []))
        (("X-Internal-Token", token) ∷ []) (obj (push_body req))
    else pure false

abbrev pub webpush_adapter : Post → String → String → ChannelAdapter
webpush_adapter post llibreta token = record {
  name = "webpush";
  send = send_push post llibreta token;
}

-- `payload["body"]`
unfoldable pub whatsapp_text : NotifyRequest → String
whatsapp_text req =
    if is_full req.title then concat ("*" ∷ req.title ∷ "*\n" ∷ req.body ∷ []) else req.body

-- `WhatsAppAdapter`, with the URL of `__init__`
unfoldable pub send_whatsapp : Post → String → String → NotifyRequest → Exec Bool
send_whatsapp post send_url token req =
    let to = get "address" req.metadata in
    if truthy to && is_full token
    then post_once post judge_status (strip_slashes send_url) (bearer token)
        (obj (field "to" to (field "body" (str (whatsapp_text req)) end)))
    else pure false

abbrev pub whatsapp_adapter : Post → String → String → ChannelAdapter
whatsapp_adapter post send_url token = record {
  name = "whatsapp";
  send = send_whatsapp post send_url token;
}

-- `os.getenv(key, default)`
abbrev pub getenv_or : (String → Option String) → String → String → String
getenv_or getenv key default = elim (getenv key) [ none ↦ default | some v ↦ v ]

-- The variables that the constructors read.
abbrev pub backoffice_url : (String → Option String) → String
backoffice_url getenv = getenv_or getenv "BACKOFFICE_URL" "http://backoffice:5001"

abbrev pub service_token : (String → Option String) → String
service_token getenv = getenv_or getenv "BACKOFFICE_SERVICE_TOKEN" ""

abbrev pub push_token : (String → Option String) → String
push_token getenv = getenv_or getenv "INTERNAL_PUSH_TOKEN" ""

module _ (post : Post) (getenv : String → Option String) where
  abbrev pub new_email_adapter : ChannelAdapter
  new_email_adapter = email_adapter post (backoffice_url getenv) (service_token getenv)

  abbrev pub new_webpush_adapter : ChannelAdapter
  new_webpush_adapter =
      webpush_adapter post (getenv_or getenv "LLIBRETA_URL" "http://llibreta-v2-app:5002")
        (push_token getenv)

  abbrev pub new_whatsapp_adapter : ChannelAdapter
  new_whatsapp_adapter =
      whatsapp_adapter post
        (getenv_or getenv "BACKOFFICE_WHATSAPP_SEND_URL"
          (concat (strip_slashes (backoffice_url getenv) ∷ "/internal/whatsapp" ∷ [])))
        (service_token getenv)

  -- The registry of the process.
  unfoldable pub hub_adapters : List ChannelAdapter
  unfolding discover_adapters
  hub_adapters =
      discover_adapters
        (ok new_email_adapter ∷ ok new_webpush_adapter ∷ ok new_whatsapp_adapter ∷ []) []
