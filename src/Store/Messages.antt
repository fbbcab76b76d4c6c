-- ===== src/Store/Messages.antt =====
-- internal/store/chat.go: chat messages. Every function here is the statement that the Go method
-- executes, on a database that answers.
pub mod Ops
pub mod Retention
use unified_messaging.Prelude.{
  ℕ, String, Bool, true, false, Option, none, some, List, [], ◌∷◌, ◌++◌, ◌==◌, ◌&&◌, not,
  if◌then◌else◌, find_row, update_rows, delete_rows, has_row, insert_row, ltb, ◌-◌,
}
use mathlib.Core.Option
use unified_messaging.Model.{Reaction, ChatMessage}
use unified_messaging.Store.Tables.{ChatDb, MessageRow, is_message}
use unified_messaging.Store.Chats.{resolve_attendee}

abbrev pub is_null : Option ℕ → Bool
is_null none = true
is_null (some t) = false

abbrev pub message_row : ChatMessage → ℕ → MessageRow
message_row m now = record {
  account_id = m.account_id;
  id = m.id;
  chat_id = m.chat_id;
  sender_id = m.sender.id;
  is_from_me = m.is_from_me;
  kind = m.kind;
  text = m.text;
  quoted_id = m.quoted_message_id;
  sent_at = m.sent_at;
  edited_at = m.edited_at;
  deleted = m.deleted;
  status = m.status;
  reactions = m.reactions;
  stored_at = now;
  content_evicted_at = none;
}

-- The flag says that the message is new (RowsAffected = 1).
unfoldable pub upsert_chat_message : ℕ → ChatMessage → ChatDb → ChatDb × Bool
upsert_chat_message now m db = (
  record db {
    chat_messages = insert_row (is_message m.account_id m.id) (message_row m now) db.chat_messages;
  },
  not (has_row (is_message m.account_id m.id) db.chat_messages),
)

unfoldable pub scan_chat_message : ChatDb → MessageRow → ChatMessage
scan_chat_message db m = record {
  id = m.id;
  account_id = m.account_id;
  chat_id = m.chat_id;
  sender = resolve_attendee db m.account_id m.sender_id;
  is_from_me = m.is_from_me;
  kind = m.kind;
  text = m.text;
  quoted_message_id = m.quoted_id;
  sent_at = m.sent_at;
  edited_at = m.edited_at;
  deleted = m.deleted;
  status = m.status;
  content_evicted = not (is_null m.content_evicted_at);
  reactions = m.reactions;
}

-- `none` is ErrNotFound.
unfoldable pub get_chat_message : String → String → ChatDb → Option ChatMessage
get_chat_message acc id db =
    Option.map (scan_chat_message db) (find_row (is_message acc id) db.chat_messages)

abbrev pub on_messages : (List MessageRow → List MessageRow) → ChatDb → ChatDb
on_messages f db = record db { chat_messages = f db.chat_messages }

abbrev pub with_id : String → MessageRow → MessageRow
with_id new m = record m { id = new }

abbrev pub with_status : String → MessageRow → MessageRow
with_status status m = record m { status = status }

abbrev pub edited : String → ℕ → MessageRow → MessageRow
edited text at m = record m { text = text; edited_at = some at }

abbrev pub revoked : MessageRow → MessageRow
revoked m = record m { deleted = true; text = "" }

abbrev pub evict : ℕ → MessageRow → MessageRow
evict at m = record m { text = ""; content_evicted_at = some at }

-- The three outcomes of the UPDATE of an id: no row, a row, and a primary key that is taken, which
-- the engine refuses with the table left as it is.
pub data Renamed : Type 0 where
  not_found renamed refused : Renamed

unfoldable pub rename_chat_message : String → String → String → ChatDb → ChatDb × Renamed
rename_chat_message acc old new db =
    if not (has_row (is_message acc old) db.chat_messages)
    then (db, not_found)
    else if not (old == new) && has_row (is_message acc new) db.chat_messages
    then (db, refused)
    else (on_messages (update_rows (is_message acc old) (with_id new)) db, renamed)

unfoldable pub delete_chat_message_row : String → String → ChatDb → ChatDb
delete_chat_message_row acc id = on_messages (delete_rows (is_message acc id))

abbrev pub contains : List String → String → Bool
contains [] x = false
contains (y ∷ ys) x = if y == x then true else contains ys x

-- WHERE account_id = ? AND id IN (…); an empty batch returns before the statement.
abbrev pub in_batch : String → List String → MessageRow → Bool
in_batch acc ids m = m.account_id == acc && contains ids m.id

unfoldable pub set_message_status : String → List String → String → ChatDb → ChatDb
set_message_status acc ids status =
    on_messages (update_rows (in_batch acc ids) (with_status status))

abbrev pub without_reactor : String → List Reaction → List Reaction
without_reactor who [] = []
without_reactor who (x ∷ xs) =
    if x.attendee_id == who then without_reactor who xs else x ∷ without_reactor who xs

-- An empty emoji removes the attendee's reaction.
unfoldable pub merge_reaction : Reaction → List Reaction → List Reaction
merge_reaction r xs =
    if r.emoji == ""
    then without_reactor r.attendee_id xs
    else without_reactor r.attendee_id xs ++ r ∷ []

abbrev pub reacted : Reaction → MessageRow → MessageRow
reacted r m = record m { reactions = merge_reaction r m.reactions }

-- The flag is false for ErrNotFound.
unfoldable pub apply_reaction : String → String → Reaction → ChatDb → ChatDb × Bool
apply_reaction acc id r db =
    if has_row (is_message acc id) db.chat_messages
    then (on_messages (update_rows (is_message acc id) (reacted r)) db, true)
    else (db, false)

-- WHERE … AND content_evicted_at IS NULL
abbrev pub is_kept : String → String → MessageRow → Bool
is_kept acc id m = is_message acc id m && is_null m.content_evicted_at

unfoldable pub edit_chat_message : String → String → String → ℕ → ChatDb → ChatDb
edit_chat_message acc id text at = on_messages (update_rows (is_kept acc id) (edited text at))

unfoldable pub revoke_chat_message : String → String → ChatDb → ChatDb
revoke_chat_message acc id = on_messages (update_rows (is_message acc id) revoked)

unfoldable pub evict_chat_message_content : String → String → ℕ → ChatDb → ChatDb
evict_chat_message_content acc id at = on_messages (update_rows (is_kept acc id) (evict at))

-- The chat half of EvictExpiredContent (internal/store/retention.go); `max_age` is the retention
-- age of the developer who owns the account, 0 for no policy, a missing row included.
unfoldable pub is_expired : (String → ℕ) → ℕ → MessageRow → Bool
is_expired max_age now m =
    is_null m.content_evicted_at
    && ltb 0 (max_age m.account_id)
    && ltb (max_age m.account_id) (now - m.stored_at)

unfoldable pub evict_expired_messages : (String → ℕ) → ℕ → ChatDb → ChatDb
evict_expired_messages max_age now = on_messages (update_rows (is_expired max_age now) (evict now))
