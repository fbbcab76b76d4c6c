-- ===== src/Events/Dispatch.antt =====
-- internal/events/events.go: the first attempt of an event at every hook, and the eviction of its
-- content. The hooks are attempted in their order here, at once in the program, which waits for all
-- of them before it goes on. What an environment decides (a minted id, a slot, a write that fails)
-- is given per hook.
pub mod Evicts
pub mod Parks
use unified_messaging.Prelude.{
  ℕ, ◌+◌, ◌-◌, suc, String, Bool, true, false, not, ◌&&◌, ◌||◌, Option, none, some, List, [], ◌∷◌,
  ◌==◌, ltb, leb, if◌then◌else◌, length, get_elem?,
}
use unified_messaging.Model.{
  Webhook, WebhookRef, Event, EventType, event_name, mail_received, mail_sent, chat_received,
  chat_sent,
}
use unified_messaging.Store.Tables.{Delivery, ChatDb}
use unified_messaging.Store.Deliveries.{HookDb, list_webhooks_for, save_delivery, retention_max_age}
use unified_messaging.Store.Messages.{evict_chat_message_content}
use unified_messaging.Store.Emails.{EmailRow, evict_email_content}
use unified_messaging.Events.Sender.{
  Wire, SendError, send, subscribes, receives, delivers_full_payload,
}

-- `DefaultRetrySchedule`, in seconds.
abbrev pub default_retry_schedule : List ℕ
default_retry_schedule = 30 ∷ 120 ∷ 600 ∷ 1800 ∷ 7200 ∷ 21600 ∷ 43200 ∷ []

-- The database as the dispatcher sees it.
pub record EventDb {ℓ} (P : Type ℓ) : Type ℓ where
  pub hooks : HookDb P
  pub mail : List EmailRow
  pub chats : ChatDb

-- What happens around one attempt: the id minted before it, the one minted when it is parked, the
-- slot of the pool against a context that ends, and a write of the queue that fails.
pub record Luck : Type 0 where
  pub minted : Option String
  pub reminted : Option String
  pub cut_off : Bool
  pub save_fails : Bool
  pub clear_fails : Bool

-- What the fan-out has done so far.
pub record FanOut {ℓ} (P : Type ℓ) : Type ℓ where
  pub matched : ℕ
  pub failed : Bool
  pub developer_id : String
  pub cut : Bool
  pub db : HookDb P

abbrev pub for_hook : Webhook → Event → Event
for_hook h ev = record ev { webhook = some (record { id = h.id; name = h.name }) }

abbrev pub id_or_blank : Option String → String
id_or_blank none = ""
id_or_blank (some id) = id

module _ {ℓ} {P : Type ℓ} where
  abbrev pub try_save : Bool → Delivery P → HookDb P → HookDb P
  try_save true d db = db
  try_save false d db = save_delivery d db

  -- When the next attempt is, or that there is none; the attempts so far are at least 1.
  abbrev pub next_or_dead : Option ℕ → ℕ → Delivery P → Delivery P
  next_or_dead (some wait) now d = record d { next_attempt_at = now + wait }
  next_or_dead none now d = record d { dead = true }

  -- A delivery with no id is given one, or is lost.
  abbrev pub with_delivery_id : Option String → Delivery P → Option (Delivery P)
  with_delivery_id reminted d =
      if d.id == ""
      then elim reminted [
        | none ↦ none
        | some id ↦ some (let e : Delivery P = record d { id = id } in e)
      ]
      else some d

  abbrev pub first_delivery : Luck → ℕ → Webhook → Event → P → Delivery P
  first_delivery luck now h ev payload = record {
    id = id_or_blank luck.minted;
    webhook_id = h.id;
    account_id = ev.account_id;
    event_type = ev.event_type;
    payload = payload;
    attempts = 0;
    next_attempt_at = 0;
    last_error = "";
    dead = false;
    created_at = now;
  }

  abbrev pub counted : Webhook → FanOut P → FanOut P
  counted h o = record o {
    matched = if delivers_full_payload h.kind then suc o.matched else o.matched;
    developer_id = h.developer_id;
  }

  abbrev pub evict_mail : ℕ → Event → EventDb P → EventDb P
  evict_mail now ev db = elim ev.email [
    | none ↦ db
    | some e ↦
        if e.id == ""
        then db
        else let r : EventDb P = record db {
          mail = evict_email_content ev.account_id e.id now db.mail;
        } in
          r
  ]

  abbrev pub evict_chat : ℕ → Event → EventDb P → EventDb P
  evict_chat now ev db = elim ev.message [
    | none ↦ db
    | some m ↦
        if m.id == ""
        then db
        else let r : EventDb P = record db {
          chats = evict_chat_message_content ev.account_id m.id now db.chats;
        } in
          r
  ]

  abbrev pub evict_event : EventType → ℕ → Event → EventDb P → EventDb P
  evict_event mail_received now ev db = evict_mail now ev db
  evict_event mail_sent now ev db = evict_mail now ev db
  evict_event chat_received now ev db = evict_chat now ev db
  evict_event chat_sent now ev db = evict_chat now ev db
  evict_event _ now ev db = db

  unfoldable pub evict_delivered : ℕ → Event → String → EventDb P → EventDb P
  evict_delivered now ev dev db = if dev == "" then db else elim (retention_max_age dev db.hooks) [
    | none ↦ db
    | some age ↦ if ltb 0 age then evict_event ev.event_type now ev db else db
  ]

  abbrev pub begin_fan_out : HookDb P → FanOut P
  begin_fan_out db = record { matched = 0; failed = false; developer_id = ""; cut = false; db = db }

module _ {ℓ} {P : Type ℓ} (wire : Wire P) (schedule_of : List ℕ) where
  unfoldable pub plan : ℕ → SendError → Delivery P → Delivery P
  plan now cause d =
      next_or_dead (get_elem? schedule_of (d.attempts - 1)) now
        (let e : Delivery P = record d { last_error = wire.error_text cause } in e)

  unfoldable pub schedule : Bool → ℕ → SendError → Delivery P → HookDb P → HookDb P
  schedule save_fails now cause d db = try_save save_fails (plan now cause d) db

  unfoldable pub enqueue : Luck → ℕ → SendError → Delivery P → HookDb P → HookDb P
  enqueue luck now cause d db = elim (with_delivery_id luck.reminted d) [
    | none ↦ db
    | some e ↦
        schedule luck.save_fails now cause (let f : Delivery P = record e { attempts = 1 } in f) db
  ]

  -- The goroutine of one hook.
  unfoldable pub first_attempt : Luck → ℕ → Webhook → Event → P → FanOut P → FanOut P
  first_attempt luck now h ev payload o = elim (send wire h payload 1) [
    | none ↦ o
    | some cause ↦ record o {
      failed = true;
      db = enqueue luck now cause (first_delivery luck now h ev payload) o.db;
    }
  ]

  unfoldable pub visit : (Webhook → Luck) → ℕ → Event → Webhook → FanOut P → FanOut P
  visit luck now ev h o =
      if o.cut || not (receives (event_name ev.event_type) h)
      then o
      else elim (wire.encode (for_hook h ev)) [
        | none ↦ let e : FanOut P = record (counted h o) { failed = true } in e
        | some payload ↦
            if (luck h).cut_off
            then (let e : FanOut P = record (counted h o) { cut = true } in e)
            else first_attempt (luck h) now h ev payload (counted h o)
      ]

  unfoldable pub fan_out : (Webhook → Luck) → ℕ → Event → List Webhook → FanOut P → FanOut P
  fan_out luck now ev [] o = o
  fan_out luck now ev (h ∷ hs) o = fan_out luck now ev hs (visit luck now ev h o)

  -- One event off the queue; a fan-out that was cut off returns before the eviction.
  unfoldable pub deliver : (Webhook → Luck) → ℕ → Event → EventDb P → EventDb P
  deliver luck now ev db =
      let o =
        fan_out luck now ev (list_webhooks_for ev.account_id db.hooks) (begin_fan_out db.hooks) in
      let db' : EventDb P = record db { hooks = o.db } in
      if not o.cut && ltb 0 o.matched && not o.failed
      then evict_delivered now ev o.developer_id db'
      else db'
