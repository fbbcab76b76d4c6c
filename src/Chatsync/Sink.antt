-- ===== src/Chatsync/Sink.antt =====
-- internal/chatsync/sink.go: what one connection reports, the check of the account it reports for,
-- and the work that the actor runs for it. The database may fail at every call of the store: which
-- calls fail is an argument of the work, a failed call changes nothing, and log lines are left out.

pub mod Isolation
pub mod Replay
pub mod Edits
pub mod Counters
use mathlib.Core.Option
use unified_messaging.Prelude.{
  ℕ, String, Bool, true, false, not, ◌&&◌, ◌||◌, Option, none, some, List, [], ◌∷◌, ◌++◌, ◌==◌,
  if◌then◌else◌,
}
use unified_messaging.Model.{
  Attendee, Chat, ChatMessage, Reaction, Event, EventType, chat_received, chat_sent, chat_updated,
  chat_reaction, chat_deleted,
}
use unified_messaging.Store.Tables.{ChatDb}
use unified_messaging.Store.Chats.{upsert_chat, get_chat, bump_chat, clear_unread, upsert_attendee}
use unified_messaging.Store.Messages.{
  upsert_chat_message, get_chat_message, set_message_status, apply_reaction, edit_chat_message,
  revoke_chat_message, is_null,
}

-- The callbacks of provider.EventSink that go through the inbox, each with the account that the
-- adapter says it is for.
pub data Callback : Type 0 where
  message : String → ChatMessage → Chat → Attendee → Callback
  receipt : String → (chat : String) → (ids : List String) → (status : String) → Callback
  reaction : String → (chat id : String) → Reaction → Callback
  edited : String → (chat id text : String) → ℕ → Callback
  deleted : String → (chat id : String) → Callback

abbrev pub account_of : Callback → String
account_of (message a _ _ _) = a
account_of (receipt a _ _ _) = a
account_of (reaction a _ _ _) = a
account_of (edited a _ _ _ _) = a
account_of (deleted a _ _) = a

-- `foreignAccount` refuses a callback for another account than the sink's; any other is enqueued.
unfoldable pub accept : String → Callback → Option Callback
accept acct cb = if account_of cb == acct then some cb else none

-- Which calls of the store fail with a driver error, in the order of the code.
pub record Faults : Type 0 where
  pub attendee : Bool
  pub lookup : Bool
  pub chat : Bool
  pub insert : Bool
  pub bump : Bool
  pub read_message : Bool
  pub read_chat : Bool
  pub status : Bool
  pub unread : Bool
  pub react : Bool
  pub edit : Bool
  pub revoke : Bool
  pub reread : Bool

abbrev pub no_faults : Faults
no_faults = record {
  attendee = false;
  lookup = false;
  chat = false;
  insert = false;
  bump = false;
  read_message = false;
  read_chat = false;
  status = false;
  unread = false;
  react = false;
  edit = false;
  revoke = false;
  reread = false;
}

-- A call of the store whose error is only logged.
abbrev pub attempt : Bool → (ChatDb → ChatDb) → ChatDb → ChatDb
attempt true op db = db
attempt false op db = op db

-- A read that fails is the same to the caller as a row that is not there.
abbrev pub unless {ℓ} : {A : Type ℓ} → Bool → Option A → Option A
unless true o = none
unless false o = o

abbrev pub event : EventType → String → Event
event typ acct = record {
  event_type = typ;
  account_id = acct;
  timestamp = none;
  webhook = none;
  email = none;
  email_id = "";
  account = none;
  message = none;
  chat = none;
  message_ids = [];
  status = "";
  change = "";
  reaction = none;
}

abbrev pub or_else : String → String → String
or_else s t = if s == "" then t else s

abbrev fill : Chat → Option Chat → Chat
fill c none = c
fill c (some ex) = record c { name = or_else c.name ex.name; kind = or_else c.kind ex.kind }

-- `chatOrExisting` of internal/chatsync/actor.go
unfoldable pub chat_or_existing : Bool → String → Chat → ChatDb → Chat
chat_or_existing fault acct c db =
    let mine = record c { account_id = acct } in
    if not (c.name == "") && not (c.kind == "")
    then mine
    else fill mine (unless fault (get_chat acct c.id db))

-- The event of a message that was inserted, and the bump of its chat.
unfoldable pub announce : Faults → String → ChatMessage → ChatDb → ChatDb × List Event
announce f acct m db =
    let db' =
      attempt f.bump (bump_chat acct m.chat_id m.sent_at (if m.is_from_me then 0 else 1)) db in
    let ev = event (if m.is_from_me then chat_sent else chat_received) acct in
    (
      db',
      record ev {
        message = unless f.read_message (get_chat_message acct m.id db');
        chat = unless f.read_chat (get_chat acct m.chat_id db');
      }
          ∷ [],
    )

unfoldable pub store_people : Faults → String → Chat → Attendee → ChatDb → ChatDb
store_people f acct chat sender db =
    let db1 = attempt f.attendee (upsert_attendee sender acct) db in
    attempt f.chat (upsert_chat (chat_or_existing f.lookup acct chat db1)) db1

unfoldable pub on_message :
    Faults → ℕ → String → ChatMessage → Chat → Attendee → ChatDb → ChatDb × List Event
on_message f now acct msg chat sender db =
    let m = record msg { account_id = acct } in
    let db2 = store_people f acct chat sender db in
    if f.insert
    then (db2, [])
    else let (db3, inserted) = upsert_chat_message now m db2 in
      if not inserted then (db3, []) else announce f acct m db3

unfoldable pub on_receipt :
    Faults → String → String → List String → String → ChatDb → ChatDb × List Event
on_receipt f acct chat [] status db = (db, [])
on_receipt f acct chat (i ∷ is) status db =
    if f.status
    then (db, [])
    else let db1 = set_message_status acct (i ∷ is) status db in
      (
        if status == "read" then attempt f.unread (clear_unread acct chat) db1 else db1,
        record (event chat_updated acct) { message_ids = i ∷ is; status = status } ∷ [],
      )

unfoldable pub on_reaction : Faults → String → String → Reaction → ChatDb → ChatDb × List Event
on_reaction f acct id r db =
    let (db', applied) = apply_reaction acct id r db in
    if f.react || not applied
    then (db, [])
    else (db', record (event chat_reaction acct) { message_ids = id ∷ []; reaction = some r } ∷ [])

-- The write of an edit, the read of the row after it, and the event.
unfoldable pub apply_edit : Faults → String → String → String → ℕ → ChatDb → ChatDb × List Event
apply_edit f acct id text at db =
    if f.edit
    then (db, [])
    else let db' = edit_chat_message acct id text at db in
      elim (unless f.reread (get_chat_message acct id db')) [
        | none ↦ (db', [])
        | some full ↦ (
          db',
          record (event chat_updated acct) {
            message_ids = id ∷ [];
            change = "edited";
            message = some full;
          }
              ∷ [],
        )
      ]

-- The message is already in the state that the edit asks for.
abbrev pub is_replayed_edit : ChatMessage → String → Bool
is_replayed_edit prev text = not (is_null prev.edited_at) && prev.text == text

unfoldable pub on_edited : Faults → String → String → String → ℕ → ChatDb → ChatDb × List Event
on_edited f acct id text at db = elim (unless f.read_message (get_chat_message acct id db)) [
  | none ↦ (db, [])
  | some prev ↦
      if prev.content_evicted || is_replayed_edit prev text
      then (db, [])
      else apply_edit f acct id text at db
]

unfoldable pub on_deleted : Faults → String → String → ChatDb → ChatDb × List Event
on_deleted f acct id db = elim (unless f.read_message (get_chat_message acct id db)) [
  | none ↦ (db, [])
  | some prev ↦ if prev.deleted || f.revoke then (db, []) else (
    revoke_chat_message acct id db,
    record (event chat_deleted acct) { message_ids = id ∷ [] } ∷ [],
  )
]

-- The work that a callback leaves in the inbox: the database after it and the events emitted.
unfoldable pub perform : Faults → ℕ → Callback → ChatDb → ChatDb × List Event
perform f now (message acct m chat sender) db = on_message f now acct m chat sender db
perform f now (receipt acct chat ids status) db = on_receipt f acct chat ids status db
perform f now (reaction acct _ id r) db = on_reaction f acct id r db
perform f now (edited acct _ id text at) db = on_edited f acct id text at db
perform f now (deleted acct _ id) db = on_deleted f acct id db

-- One report of the adapter, through the check and the inbox.
unfoldable pub report : String → Faults → ℕ → Callback → ChatDb → ChatDb × List Event
report acct f now cb db = elim (accept acct cb) [
  | none ↦ (db, [])
  | some work ↦ perform f now work db
]

-- The inbox is drained in the order of the reports; each has its own faults and its own time.
unfoldable pub drain_inbox : String → List (Faults × ℕ × Callback) → ChatDb → ChatDb × List Event
drain_inbox acct [] db = (db, [])
drain_inbox acct ((f, now, cb) ∷ rest) db =
    let (db1, out1) = report acct f now cb db in
    let (db2, out2) = drain_inbox acct rest db1 in (db2, out1 ++ out2)
