-- ===== src/Syncer/Scope.antt =====
-- internal/syncer/syncer.go: one round over one scope (a folder) of a mailbox. The provider's
-- answers are parameters (`Mailbox`); the calls of the store that fail are given by id (`Trouble`).
pub mod Quiet
pub mod Known
pub mod Cursor
use unified_messaging.Prelude.{
  ℕ, String, Bool, true, false, not, ◌&&◌, ◌||◌, Option, none, some, List, [], ◌∷◌, ◌++◌, ◌==◌,
  if◌then◌else◌, find_row, upsert_row,
}
use unified_messaging.Model.{
  Attachment, Email, Event, EventType, mail_received, mail_sent, mail_updated, mail_deleted,
}
use unified_messaging.Store.Emails.{EmailRow, upsert_email, email_exists, delete_email}

-- `provider.Scope` and `provider.Changes`
pub record MailScope : Type 0 where
  pub id : String
  pub name : String
  pub role : String

pub record Changes : Type 0 where
  pub changed : List Email
  pub removed : List String
  pub cursor : String

-- What SyncMessages answers; grant_dead is ErrReauthRequired.
pub data Round : Type 0 where
  changes : Changes → Round
  cursor_expired round_failed grant_dead : Round

-- The provider, for one account and one scope.
pub record Mailbox : Type 0 where
  pub sync_messages : (cursor : String) → Round
  pub list_attachments : (id : String) → Option (List Attachment)

pub record CursorRow : Type 0 where
  pub account_id : String
  pub scope_id : String
  pub cursor : String

pub record SyncDb : Type 0 where
  pub mail : List EmailRow
  pub cursors : List CursorRow

-- Which calls of the store fail, by the id that they are about.
pub record Trouble : Type 0 where
  pub cursor : Bool
  pub exists : String → Bool
  pub upsert : String → Bool
  pub delete : String → Bool
  pub save : Bool

-- The database, the events emitted, and whether the round went on without an error.
pub record Progress : Type 0 where
  pub db : SyncDb
  pub events : List Event
  pub ok : Bool

abbrev pub is_cursor : String → String → CursorRow → Bool
is_cursor acc scope c = c.account_id == acc && c.scope_id == scope

abbrev cursor_or_blank : Option CursorRow → String
cursor_or_blank none = ""
cursor_or_blank (some c) = c.cursor

-- no row reads as the empty cursor
unfoldable pub get_cursor : String → String → SyncDb → String
get_cursor acc scope db = cursor_or_blank (find_row (is_cursor acc scope) db.cursors)

unfoldable pub set_cursor : String → String → String → SyncDb → SyncDb
set_cursor acc scope cursor db = record db {
  cursors =
      upsert_row (is_cursor acc scope) (λ (c : CursorRow). record c { cursor = cursor })
        (record { account_id = acc; scope_id = scope; cursor = cursor }) db.cursors;
}

abbrev pub mail_event : EventType → String → Option Email → String → Event
mail_event typ acc email id = record {
  event_type = typ;
  account_id = acc;
  timestamp = none;
  webhook = none;
  email = email;
  email_id = id;
  account = none;
  message = none;
  chat = none;
  message_ids = [];
  status = "";
  change = "";
  reaction = none;
}

abbrev is_empty_list : Option (List Attachment) → Bool
is_empty_list none = true
is_empty_list (some []) = true
is_empty_list (some (a ∷ rest)) = false

abbrev fetched : Option (List Attachment) → Email → Email
fetched none e = e
fetched (some found) e = record e { attachments = some found }

unfoldable pub attach_attachments : Mailbox → Email → Email
attach_attachments mailbox e =
    if not e.has_attachments || not (is_empty_list e.attachments)
    then e
    else fetched (mailbox.list_attachments e.id) e

-- The event of one message that changed.
unfoldable pub news : Mailbox → String → MailScope → Bool → Email → List Event
news mailbox acc scope existed e =
    let mine = record e { role = scope.role } in
    if not existed && scope.role == "sentitems"
    then mail_event mail_sent acc (some (attach_attachments mailbox mine)) "" ∷ []
    else if not existed && not e.draft
    then mail_event mail_received acc (some (attach_attachments mailbox mine)) "" ∷ []
    else if existed
    then mail_event mail_updated acc (some mine) "" ∷ []
    else []

abbrev pub store_mail : ℕ → Email → SyncDb → SyncDb
store_mail now e db = record db { mail = upsert_email now e db.mail }

abbrev pub stopped : SyncDb → Progress
stopped db = record { db = db; events = []; ok = false }

abbrev pub after : List Event → Progress → Progress
after events p = record p { events = events ++ p.events }

-- The loop over the messages that changed; an error of the store ends it.
unfoldable pub sync_changed :
    Mailbox → Trouble → ℕ → String → MailScope → Bool → List Email → SyncDb → Progress
sync_changed mailbox t now acc scope quiet [] db = record { db = db; events = []; ok = true }
sync_changed mailbox t now acc scope quiet (e ∷ es) db =
    let existed = email_exists acc e.id db.mail in
    let rest = sync_changed mailbox t now acc scope quiet es (store_mail now e db) in
    if t.exists e.id || t.upsert e.id
    then stopped db
    else after (if quiet then [] else news mailbox acc scope existed e) rest

abbrev pub forget_mail : String → String → SyncDb → SyncDb
forget_mail acc id db = record db { mail = delete_email acc id db.mail }

-- The loop over the messages that left the scope.
unfoldable pub sync_removed : Trouble → String → Bool → List String → SyncDb → Progress
sync_removed t acc quiet [] db = record { db = db; events = []; ok = true }
sync_removed t acc quiet (id ∷ ids) db =
    let rest = sync_removed t acc quiet ids (forget_mail acc id db) in
    if t.delete id
    then stopped db
    else after (if quiet then [] else mail_event mail_deleted acc none id ∷ []) rest

-- An empty cursor says that the round did not complete.
unfoldable pub save_cursor : Trouble → String → String → String → Progress → Progress
save_cursor t acc scope cursor p =
    if cursor == ""
    then p
    else if t.save
    then (let q : Progress = record p { ok = false } in q)
    else (let q : Progress = record p { db = set_cursor acc scope cursor p.db } in q)

-- What is done with the changes of a round.
unfoldable pub apply_changes :
    Mailbox → Trouble → ℕ → String → MailScope → Bool → Changes → SyncDb → Progress
apply_changes mailbox t now acc scope quiet c db =
    let first = sync_changed mailbox t now acc scope quiet c.changed db in
    let second = after first.events (sync_removed t acc quiet c.removed first.db) in
    if not first.ok
    then first
    else if not second.ok
    then second
    else save_cursor t acc scope.id c.cursor second

abbrev pub apply_round :
    Mailbox → Trouble → ℕ → String → MailScope → Bool → Round → SyncDb → Progress
apply_round mailbox t now acc scope quiet (changes c) db =
    apply_changes mailbox t now acc scope quiet c db
apply_round mailbox t now acc scope quiet _ db = stopped db

-- `syncScope`: an expired cursor makes it a resync from the start, which is as quiet as a first one.
unfoldable pub sync_scope : Mailbox → Trouble → ℕ → String → MailScope → Bool → SyncDb → Progress
sync_scope mailbox t now acc scope first_run db =
    let cursor = get_cursor acc scope.id db in
    if t.cursor then stopped db else elim (mailbox.sync_messages cursor) [
      | cursor_expired ↦ apply_round mailbox t now acc scope true (mailbox.sync_messages "") db
      | changes c ↦ apply_round mailbox t now acc scope (cursor == "" || first_run) (changes c) db
      | round_failed ↦ stopped db
      | grant_dead ↦ stopped db
    ]
