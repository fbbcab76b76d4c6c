-- ===== src/Model.antt =====
-- internal/model: the provider-neutral shapes that the store, the syncer, the chat runtime and the
-- dispatcher exchange. A time is a number of Unix seconds, a pointer to a time is an `Option`, and
-- a counter that Go keeps in an `int` is a number.
use unified_messaging.Prelude.{ℕ, String, Bool, Option, List, ◌||◌, ◌==◌}

pub record Connection : Type 0 where
  pub state : String
  pub since : ℕ
  pub reconnects : ℕ
  pub last_error : String

pub record Account : Type 0 where
  pub id : String
  pub developer_id : String
  pub provider : String
  pub email : String
  pub kind : String
  pub identifier : String
  pub name : String
  pub status : String
  pub created_at : ℕ
  pub updated_at : ℕ
  pub last_synced_at : Option ℕ
  pub connection : Option Connection

abbrev pub account_ok : String
account_ok = "OK"

abbrev pub account_credentials : String
account_credentials = "CREDENTIALS"

abbrev pub account_kind_mail : String
account_kind_mail = "mail"

abbrev pub account_kind_chat : String
account_kind_chat = "chat"

pub record Folder : Type 0 where
  pub id : String
  pub account_id : String
  pub name : String
  pub parent_id : String
  pub role : String
  pub total_count : ℕ
  pub unread_count : ℕ

pub record Attendee : Type 0 where
  pub id : String
  pub phone : String
  pub name : String
  pub is_self : Bool

pub record Chat : Type 0 where
  pub id : String
  pub account_id : String
  pub kind : String
  pub name : String
  pub unread_count : ℕ
  pub last_message_at : Option ℕ
  pub archived : Bool
  pub muted : Bool
  pub members : List Attendee

pub record ChatMember : Type 0 where
  pub chat_id : String
  pub attendee_id : String
  pub role : String

pub record Reaction : Type 0 where
  pub attendee_id : String
  pub emoji : String
  pub at : ℕ

pub record ChatMessage : Type 0 where
  pub id : String
  pub account_id : String
  pub chat_id : String
  pub sender : Attendee
  pub is_from_me : Bool
  pub kind : String
  pub text : String
  pub quoted_message_id : String
  pub sent_at : ℕ
  pub edited_at : Option ℕ
  pub deleted : Bool
  pub status : String
  pub content_evicted : Bool
  pub reactions : List Reaction

pub record Recipient : Type 0 where
  pub name : String
  pub email : String

pub record Attachment : Type 0 where
  pub id : String
  pub name : String
  pub mime_type : String
  pub size : ℕ
  pub is_inline : Bool
  pub content_id : String

pub record Email : Type 0 where
  pub id : String
  pub account_id : String
  pub thread_id : String
  pub folder_id : String
  pub subject : String
  pub from : Recipient
  pub to : List Recipient
  pub cc : List Recipient
  pub bcc : List Recipient
  pub reply_to : List Recipient
  pub date : ℕ
  pub snippet : String
  pub body : String
  pub body_type : String
  pub body_plain : String
  pub role : String
  pub read : Bool
  pub flagged : Bool
  pub draft : Bool
  pub has_attachments : Bool
  pub content_evicted : Bool
  pub internet_message_id : String
  -- a nil slice is `none`, which JSON writes as null
  pub attachments : Option (List Attachment)

pub record TelegramTarget : Type 0 where
  pub chat_id : String
  pub bot_token : String

pub record Webhook : Type 0 where
  pub id : String
  pub developer_id : String
  pub name : String
  pub account_id : String
  pub kind : String
  pub url : String
  pub secret : String
  pub telegram : Option TelegramTarget
  pub events : List String
  pub paused : Bool
  pub created_at : ℕ

abbrev pub webhook_kind_webhook : String
webhook_kind_webhook = "webhook"

abbrev pub webhook_kind_discord : String
webhook_kind_discord = "discord"

abbrev pub webhook_kind_telegram : String
webhook_kind_telegram = "telegram"

unfoldable pub known_webhook_kind : String → Bool
known_webhook_kind k =
    k == webhook_kind_webhook || k == webhook_kind_discord || k == webhook_kind_telegram

-- The event names: `Event.Type`.
pub data EventType : Type 0 where
  mail_received mail_sent mail_updated mail_deleted account_error webhook_test : EventType
  chat_received chat_sent chat_updated chat_reaction chat_deleted : EventType

unfoldable pub event_name : EventType → String
event_name mail_received = "mail_received"
event_name mail_sent = "mail_sent"
event_name mail_updated = "mail_updated"
event_name mail_deleted = "mail_deleted"
event_name account_error = "account_status"
event_name webhook_test = "webhook_test"
event_name chat_received = "chat_received"
event_name chat_sent = "chat_sent"
event_name chat_updated = "chat_updated"
event_name chat_reaction = "chat_reaction"
event_name chat_deleted = "chat_deleted"

unfoldable pub known_event : String → Bool
unfolding event_name
known_event name =
    name == "*"
    || name == event_name mail_received
    || name == event_name mail_sent
    || name == event_name mail_updated
    || name == event_name mail_deleted
    || name == event_name account_error
    || name == event_name chat_received
    || name == event_name chat_sent
    || name == event_name chat_updated
    || name == event_name chat_reaction
    || name == event_name chat_deleted

pub record WebhookRef : Type 0 where
  pub id : String
  pub name : String

pub record Event : Type 0 where
  pub event_type : EventType
  pub account_id : String
  pub timestamp : Option ℕ
  pub webhook : Option WebhookRef
  pub email : Option Email
  pub email_id : String
  pub account : Option Account
  pub message : Option ChatMessage
  pub chat : Option Chat
  pub message_ids : List String
  pub status : String
  pub change : String
  pub reaction : Option Reaction
