-- ===== src/Store/Emails.antt =====
-- internal/store/store.go: the mail mirror. A JSON column holds the list that it encodes; the
-- column of the attachments is `none` for the JSON null that a nil slice is written as.
pub mod Frozen
pub mod Latest
use mathlib.Core.Option
use unified_messaging.Prelude.{
  ℕ, ◌-◌, String, Bool, true, false, not, ◌&&◌, Option, none, some, List, [], ◌∷◌, ◌==◌, ltb,
  if◌then◌else◌, find_row, update_rows, delete_rows, has_row, upsert_row,
}
use unified_messaging.Model.{Attachment, Email, Recipient}
use unified_messaging.Store.Messages.{is_null}

pub record EmailRow : Type 0 where
  pub account_id : String
  pub id : String
  pub thread_id : String
  pub folder_id : String
  pub subject : String
  pub from_name : String
  pub from_email : String
  pub to : List Recipient
  pub cc : List Recipient
  pub bcc : List Recipient
  pub reply_to : List Recipient
  pub date : ℕ
  pub snippet : String
  pub body : String
  pub body_type : String
  pub read : Bool
  pub flagged : Bool
  pub draft : Bool
  pub has_attachments : Bool
  pub internet_message_id : String
  pub attachments : Option (List Attachment)
  pub stored_at : ℕ
  pub content_evicted_at : Option ℕ

abbrev pub is_email : String → String → EmailRow → Bool
is_email acc id e = e.account_id == acc && e.id == id

abbrev pub email_row : ℕ → Email → EmailRow
email_row now e = record {
  account_id = e.account_id;
  id = e.id;
  thread_id = e.thread_id;
  folder_id = e.folder_id;
  subject = e.subject;
  from_name = e.from.name;
  from_email = e.from.email;
  to = e.to;
  cc = e.cc;
  bcc = e.bcc;
  reply_to = e.reply_to;
  date = e.date;
  snippet = e.snippet;
  body = e.body;
  body_type = e.body_type;
  read = e.read;
  flagged = e.flagged;
  draft = e.draft;
  has_attachments = e.has_attachments;
  internet_message_id = e.internet_message_id;
  attachments = e.attachments;
  stored_at = now;
  content_evicted_at = none;
}

-- WHEN excluded.x = '' THEN emails.x ELSE excluded.x
abbrev pub unless_blank : String → String → String
unless_blank new old = if new == "" then old else new

-- WHEN excluded.attachments_json = '[]' THEN emails.attachments_json ELSE excluded…
abbrev pub unless_empty :
    Option (List Attachment) → Option (List Attachment) → Option (List Attachment)
unless_empty none old = none
unless_empty (some []) old = old
unless_empty (some (a ∷ rest)) old = some (a ∷ rest)

-- The columns that every upsert overwrites.
abbrev pub refresh : Email → EmailRow → EmailRow
refresh e r = record r {
  thread_id = e.thread_id;
  folder_id = e.folder_id;
  date = e.date;
  read = e.read;
  flagged = e.flagged;
  draft = e.draft;
  has_attachments = e.has_attachments;
  internet_message_id = e.internet_message_id;
}

-- The columns that freeze once the content is evicted.
abbrev pub refill : Email → EmailRow → EmailRow
refill e r = record r {
  subject = e.subject;
  from_name = e.from.name;
  from_email = e.from.email;
  to = e.to;
  cc = e.cc;
  bcc = e.bcc;
  reply_to = e.reply_to;
  snippet = e.snippet;
  body = unless_blank e.body r.body;
  body_type = unless_blank e.body_type r.body_type;
  attachments = unless_empty e.attachments r.attachments;
}

abbrev pub merge_email : Email → EmailRow → EmailRow
merge_email e r = if is_null r.content_evicted_at then refill e (refresh e r) else refresh e r

unfoldable pub upsert_email : ℕ → Email → List EmailRow → List EmailRow
upsert_email now e rows =
    upsert_row (is_email e.account_id e.id) (merge_email e) (email_row now e) rows

abbrev pub blanked : ℕ → EmailRow → EmailRow
blanked at r = record r {
  subject = "";
  snippet = "";
  body = "";
  body_type = "";
  from_name = "";
  from_email = "";
  to = [];
  cc = [];
  bcc = [];
  reply_to = [];
  attachments = some [];
  content_evicted_at = some at;
}

abbrev pub is_kept_email : String → String → EmailRow → Bool
is_kept_email acc id r = is_email acc id r && is_null r.content_evicted_at

unfoldable pub evict_email_content : String → String → ℕ → List EmailRow → List EmailRow
evict_email_content acc id at rows = update_rows (is_kept_email acc id) (blanked at) rows

-- The mail half of EvictExpiredContent (internal/store/retention.go).
unfoldable pub is_expired_email : (String → ℕ) → ℕ → EmailRow → Bool
is_expired_email max_age now r =
    is_null r.content_evicted_at
    && ltb 0 (max_age r.account_id)
    && ltb (max_age r.account_id) (now - r.stored_at)

unfoldable pub evict_expired_emails : (String → ℕ) → ℕ → List EmailRow → List EmailRow
evict_expired_emails max_age now rows =
    update_rows (is_expired_email max_age now) (blanked now) rows

unfoldable pub email_exists : String → String → List EmailRow → Bool
email_exists acc id rows = has_row (is_email acc id) rows

unfoldable pub delete_email : String → String → List EmailRow → List EmailRow
delete_email acc id rows = delete_rows (is_email acc id) rows

-- The whole row that GetEmail reads; `none` is ErrNotFound.
unfoldable pub get_email_row : String → String → List EmailRow → Option EmailRow
get_email_row acc id rows = find_row (is_email acc id) rows
