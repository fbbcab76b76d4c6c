-- ===== src/Store/Tables.antt =====
-- internal/store/schema.go: the rows of the tables. A JSON column holds the list that it encodes;
-- a nullable column is an `Option`. `Db` is the state that every operation of the package changes.
use unified_messaging.Prelude.{ℕ, String, Bool, Option, List, [], ◌==◌, ◌&&◌}
use unified_messaging.Model.{Chat, Reaction, EventType}

pub record AttendeeRow : Type 0 where
  pub account_id : String
  pub id : String
  pub phone : String
  pub name : String
  pub is_self : Bool

pub record MemberRow : Type 0 where
  pub account_id : String
  pub chat_id : String
  pub attendee_id : String
  pub role : String

pub record MessageRow : Type 0 where
  pub account_id : String
  pub id : String
  pub chat_id : String
  pub sender_id : String
  pub is_from_me : Bool
  pub kind : String
  pub text : String
  pub quoted_id : String
  pub sent_at : ℕ
  pub edited_at : Option ℕ
  pub deleted : Bool
  pub status : String
  pub reactions : List Reaction
  pub stored_at : ℕ
  pub content_evicted_at : Option ℕ

pub record DeveloperRow : Type 0 where
  pub id : String
  pub email : String
  pub password_hash : String
  pub name : String
  pub created_at : ℕ
  pub redirect_domains : List String
  pub retention_max_age_secs : ℕ

-- `Delivery` of internal/store/aux.go is also its row.
pub record Delivery {ℓ} (Payload : Type ℓ) : Type ℓ where
  pub id : String
  pub webhook_id : String
  pub account_id : String
  pub event_type : EventType
  pub payload : Payload
  pub attempts : ℕ
  pub next_attempt_at : ℕ
  pub last_error : String
  pub dead : Bool
  pub created_at : ℕ

-- The tables of the chat half of the schema.
pub record ChatDb : Type 0 where
  pub chats : List Chat
  pub attendees : List AttendeeRow
  pub chat_members : List MemberRow
  pub chat_messages : List MessageRow

abbrev pub empty_chat_db : ChatDb
empty_chat_db = record { chats = []; attendees = []; chat_members = []; chat_messages = [] }

-- WHERE account_id = ? AND id = ?
abbrev pub is_chat : String → String → Chat → Bool
is_chat acc id c = c.account_id == acc && c.id == id

abbrev pub is_attendee : String → String → AttendeeRow → Bool
is_attendee acc id a = a.account_id == acc && a.id == id

abbrev pub is_message : String → String → MessageRow → Bool
is_message acc id m = m.account_id == acc && m.id == id

abbrev pub is_member_of : String → String → MemberRow → Bool
is_member_of acc chat m = m.account_id == acc && m.chat_id == chat
