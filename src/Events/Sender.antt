-- ===== src/Events/Sender.antt =====
-- internal/notify/sender.go and the choice of a hook in internal/events/events.go: which hooks an
-- event goes to, and one attempt to send it. The HTTP client, the JSON codec and the wording of an
-- error (fmt, and the regular expressions that scrub it) are what `Wire` is given.
pub mod Kinds
use unified_messaging.Prelude.{
  ℕ, String, Bool, true, false, not, ◌&&◌, ◌||◌, Option, none, some, List, [], ◌∷◌, ◌==◌, leb, ltb,
  if◌then◌else◌,
}
use unified_messaging.Model.{
  Webhook, TelegramTarget, Event, EventType, event_name, webhook_kind_webhook, webhook_kind_discord,
  webhook_kind_telegram,
}

-- What a sender posts: the signed payload, or an event that it renders for people.
pub data Request {ℓ} (P : Type ℓ) : Type ℓ where
  post_payload : (url secret : String) → P → (attempt : ℕ) → Request P
  post_discord : (url : String) → Event → Request P
  post_telegram : (token chat : String) → Event → Request P

-- What the client answers: an error of the transport, or a status and a body.
pub data Reply : Type 0 where
  unreachable : String → Reply
  answered : (status : ℕ) → (body : String) → Reply

pub data SendError : Type 0 where
  unknown_kind : String → SendError
  bad_payload bad_config : SendError
  transport : String → SendError
  bad_status : ℕ → String → SendError
  rejected : String → SendError
  unreadable : ℕ → SendError

pub record Wire {ℓ} (P : Type ℓ) : Type ℓ where
  pub encode : Event → Option P
  pub decode : P → Option Event
  pub client : Request P → Reply
  -- "ok" and "description" of the Bot API's answer
  pub read_telegram : String → Option (Bool × String)
  pub error_text : SendError → String

-- The senders of `Registry.For`.
pub data Sender : Type 0 where
  webhook_sender discord_sender telegram_sender : Sender

unfoldable pub sender_for : String → Option Sender
sender_for kind =
    if kind == webhook_kind_webhook || kind == ""
    then some webhook_sender
    else if kind == webhook_kind_discord
    then some discord_sender
    else if kind == webhook_kind_telegram
    then some telegram_sender
    else none

abbrev pub has_event : List String → String → Bool
has_event [] name = false
has_event (e ∷ es) name = if e == name || e == "*" then true else has_event es name

-- no filter means everything
unfoldable pub subscribes : Webhook → String → Bool
subscribes h name = elim h.events [ [] ↦ true | e ∷ es ↦ has_event (e ∷ es) name ]

unfoldable pub delivers_full_payload : String → Bool
delivers_full_payload kind = kind == webhook_kind_webhook || kind == ""

-- a hook that is sent events of that type: subscribed, and not paused
abbrev pub receives : String → Webhook → Bool
receives name h = subscribes h name && not h.paused

-- a status below 300 is acceptance
abbrev pub read_reply : Reply → Option SendError
read_reply (unreachable e) = some (transport e)
read_reply (answered status body) = if leb 300 status then some (bad_status status body) else none

module _ {ℓ} {P : Type ℓ} (wire : Wire P) where
  -- `telegramCall`, after the request
  unfoldable pub read_telegram_reply : Reply → Option SendError
  read_telegram_reply (unreachable e) = some (transport e)
  read_telegram_reply (answered status body) = elim (wire.read_telegram body) [
    | none ↦ some (unreadable status)
    | some (ok, description) ↦
        if not ok
        then some (rejected description)
        else if ltb status 200 || leb 300 status
        then some (bad_status status "")
        else none
  ]

  abbrev pub send_telegram : Event → Option TelegramTarget → Option SendError
  send_telegram ev none = some bad_config
  send_telegram ev (some t) =
      if t.bot_token == "" || t.chat_id == ""
      then some bad_config
      else read_telegram_reply (wire.client (post_telegram t.bot_token t.chat_id ev))

  -- The `Send` of each sender; `none` is acceptance.
  unfoldable pub sender_send : Sender → Webhook → Event → P → ℕ → Option SendError
  sender_send webhook_sender h ev payload attempt =
      read_reply (wire.client (post_payload h.url h.secret payload attempt))
  sender_send discord_sender h ev payload attempt = read_reply (wire.client (post_discord h.url ev))
  sender_send telegram_sender h ev payload attempt = send_telegram ev h.telegram

  -- `send` of the dispatcher
  unfoldable pub send : Webhook → P → ℕ → Option SendError
  send h payload attempt = elim (sender_for h.kind) [
    | none ↦ some (unknown_kind h.kind)
    | some s ↦ elim (wire.decode payload) [
      | none ↦ some bad_payload
      | some ev ↦ sender_send s h ev payload attempt
    ]
  ]
