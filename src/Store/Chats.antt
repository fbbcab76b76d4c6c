-- ===== src/Store/Chats.antt =====
-- internal/store/chat.go: chats, attendees and chat members. Every function here is the statement
-- that the Go method executes, on a database that answers; a driver error leaves the database as
-- it is, and the callers decide what to do about it (Chatsync/Sink).
use unified_messaging.Prelude.{
  ℕ, ◌+◌, String, Bool, true, false, Option, none, some, List, [], ◌∷◌, ◌++◌, map, ◌==◌, ◌&&◌, not,
  if◌then◌else◌, find_row, select_rows, update_rows, delete_rows, has_row, upsert_row,
}
use mathlib.Core.Option
use unified_messaging.Model.{Attendee, Chat, ChatMember}
use unified_messaging.Store.Tables.{
  ChatDb, AttendeeRow, MemberRow, is_chat, is_attendee, is_member_of,
}

-- The runtime fields of a chat that exists are left alone.
abbrev pub rename_chat : Chat → Chat → Chat
rename_chat c ex = record ex { kind = c.kind; name = c.name }

-- The members are not columns of the row.
abbrev pub chat_row : Chat → Chat
chat_row c = record c { members = [] }

unfoldable pub upsert_chat : Chat → ChatDb → ChatDb
upsert_chat c db = record db {
  chats = upsert_row (is_chat c.account_id c.id) (rename_chat c) (chat_row c) db.chats;
}

abbrev blank_attendee : String → Attendee
blank_attendee id = record { id = id; phone = ""; name = ""; is_self = false }

abbrev pub row_attendee : AttendeeRow → Attendee
row_attendee a = record { id = a.id; phone = a.phone; name = a.name; is_self = a.is_self }

-- LEFT JOIN attendees: a row with no attendee keeps its bare id.
unfoldable pub resolve_attendee : ChatDb → String → String → Attendee
resolve_attendee db acc id = elim (find_row (is_attendee acc id) db.attendees) [
  | none ↦ blank_attendee id
  | some a ↦ row_attendee a
]

-- The rows come in the order of the table here, and by attendee id in the program.
unfoldable pub chat_members : ChatDb → String → String → List Attendee
chat_members db acc chat =
    map (λ (m : MemberRow). resolve_attendee db acc m.attendee_id)
      (select_rows (is_member_of acc chat) db.chat_members)

-- `none` is ErrNotFound.
unfoldable pub get_chat : String → String → ChatDb → Option Chat
get_chat acc id db =
    Option.map (λ (c : Chat). record c { members = chat_members db acc id })
      (find_row (is_chat acc id) db.chats)

abbrev pub flag : Option Bool → Bool → Bool
flag none old = old
flag (some b) old = b

unfoldable pub set_chat_flags : String → String → Option Bool → Option Bool → ChatDb → ChatDb
set_chat_flags acc id archived muted db = record db {
  chats =
      update_rows (is_chat acc id)
        (λ c. record c { archived = flag archived c.archived; muted = flag muted c.muted })
        db.chats;
}

abbrev pub bump : ℕ → ℕ → Chat → Chat
bump at delta c = record c { last_message_at = some at; unread_count = c.unread_count + delta }

unfoldable pub bump_chat : String → String → ℕ → ℕ → ChatDb → ChatDb
bump_chat acc id at delta db = record db {
  chats = update_rows (is_chat acc id) (bump at delta) db.chats;
}

unfoldable pub clear_unread : String → String → ChatDb → ChatDb
clear_unread acc id db = record db {
  chats = update_rows (is_chat acc id) (λ c. record c { unread_count = 0 }) db.chats;
}

abbrev pub attendee_row : Attendee → String → AttendeeRow
attendee_row a acc = record {
  account_id = acc;
  id = a.id;
  phone = a.phone;
  name = a.name;
  is_self = a.is_self;
}

unfoldable pub upsert_attendee : Attendee → String → ChatDb → ChatDb
upsert_attendee a acc db = record db {
  attendees =
      upsert_row (is_attendee acc a.id)
        (λ r. record r { phone = a.phone; name = a.name; is_self = a.is_self }) (attendee_row a acc)
        db.attendees;
}

unfoldable pub get_attendee : String → String → ChatDb → Option Attendee
get_attendee acc id db = Option.map row_attendee (find_row (is_attendee acc id) db.attendees)

unfoldable pub self_attendee : String → ChatDb → Option Attendee
self_attendee acc db =
    Option.map row_attendee (find_row (λ a. a.account_id == acc && a.is_self) db.attendees)

abbrev pub same_member : String → String → String → MemberRow → Bool
same_member acc chat id m = m.account_id == acc && m.chat_id == chat && m.attendee_id == id

-- The insert loop: the primary key (account_id, chat_id, attendee_id) and the foreign key to the
-- chat refuse a row, which ends the loop with an error.
unfoldable pub insert_members :
    String → String → Bool → List ChatMember → List MemberRow → Option (List MemberRow)
insert_members acc chat known [] rows = some rows
insert_members acc chat known (m ∷ ms) rows =
    let row : MemberRow = record {
      account_id = acc;
      chat_id = chat;
      attendee_id = m.attendee_id;
      role = m.role;
    } in
    let rest = insert_members acc chat known ms (rows ++ row ∷ []) in
    if known && not (has_row (same_member acc chat m.attendee_id) rows) then rest else none

-- One transaction: on an error the database is the one before the delete. The flag is the success.
unfoldable pub replace_chat_members : String → String → List ChatMember → ChatDb → ChatDb × Bool
replace_chat_members acc chat ms db =
    elim (insert_members acc chat (has_row (is_chat acc chat) db.chats) ms
      (delete_rows (is_member_of acc chat) db.chat_members)) [
        | none ↦ (db, false)
        | some rows ↦ (record db { chat_members = rows }, true)
      ]
