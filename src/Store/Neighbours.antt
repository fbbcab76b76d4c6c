-- ===== src/Store/Neighbours.antt =====
-- A statement for one account leaves the rows of the other accounts as they are.
use unified_messaging.Prelude.{
  ℕ, String, ◌≡◌, refl, ◌∙◌, ◌≢◌, Bool, true, false, List, ◌==◌, arith, eq_iff, str_ne, Bool-cases,
  inl, inr, select_rows, update_rows, select_rows-update_rows_ne, select_rows-upsert_row_ne,
  select_rows-insert_row_ne, has_row,
}
use unified_messaging.Model.{Attendee, Chat, ChatMessage, Reaction}
use unified_messaging.Store.Tables.{
  ChatDb, AttendeeRow, MessageRow, is_chat, is_attendee, is_message,
}
use unified_messaging.Store.Chats.{
  upsert_chat, bump_chat, clear_unread, upsert_attendee, chat_row, rename_chat, attendee_row, bump,
}
use unified_messaging.Store.Messages.{
  upsert_chat_message, message_row, set_message_status, in_batch, with_status, apply_reaction,
  reacted, edit_chat_message, is_kept, edited as edited_row, revoke_chat_message, revoked,
}

abbrev pub messages_of : String → ChatDb → List MessageRow
messages_of acc db = select_rows (λ r. r.account_id == acc) db.chat_messages

abbrev pub chats_of : String → ChatDb → List Chat
chats_of acc db = select_rows (λ r. r.account_id == acc) db.chats

abbrev pub attendees_of : String → ChatDb → List AttendeeRow
attendees_of acc db = select_rows (λ r. r.account_id == acc) db.attendees

-- The two databases hold the same rows of the account, in the same order.
pub record SameFor (acc : String) (db db' : ChatDb) : Type 0 where
  pub messages : messages_of acc db' ≡ messages_of acc db
  pub chats : chats_of acc db' ≡ chats_of acc db
  pub attendees : attendees_of acc db' ≡ attendees_of acc db

pub SameFor-refl : (acc : String) (db : ChatDb) → SameFor acc db db
SameFor-refl acc db = record { messages = refl; chats = refl; attendees = refl }

pub SameFor-trans :
    {acc : String} {db db1 db2 : ChatDb}
    → SameFor acc db db1
    → SameFor acc db1 db2
    → SameFor acc db db2
SameFor-trans a b = record {
  messages = b.messages ∙ a.messages;
  chats = b.chats ∙ a.chats;
  attendees = b.attendees ∙ a.attendees;
}

-- `own` is the account of the connection, `acc` any other.
module _ (own acc : String) (other : own ≢ acc) where
  pub upsert_attendee-SameFor :
      (a : Attendee) (db : ChatDb) → SameFor acc db (upsert_attendee a own db)
  unfolding upsert_attendee
  upsert_attendee-SameFor a db = record {
    messages = refl;
    chats = refl;
    attendees =
        select_rows-upsert_row_ne (is_attendee own a.id) (λ r. r.account_id == acc)
          (λ r. record r { phone = a.phone; name = a.name; is_self = a.is_self })
          (attendee_row a own) db.attendees
          (λ r k. ground (arith, eq_iff r.account_id own, eq_iff r.account_id acc)) (λ r. refl)
          (str_ne own acc other);
  }

  pub upsert_chat-SameFor :
      (c : Chat) (db : ChatDb) → c.account_id ≡ own → SameFor acc db (upsert_chat c db)
  unfolding upsert_chat
  upsert_chat-SameFor c db mine = record {
    messages = refl;
    chats =
        select_rows-upsert_row_ne (is_chat c.account_id c.id) (λ r. r.account_id == acc)
          (rename_chat c) (chat_row c) db.chats
          (λ r k. ground (arith, eq_iff r.account_id c.account_id, eq_iff r.account_id acc))
          (λ r. refl) (str_ne c.account_id acc (λ e. other (ground arith)));
    attendees = refl;
  }

  chat_update-SameFor :
      (id : String) (f : Chat → Chat) (db : ChatDb)
      → ((c : Chat) → (f c).account_id ≡ c.account_id)
      → SameFor acc db (record db { chats = update_rows (is_chat own id) f db.chats })
  chat_update-SameFor id f db keep = record {
    messages = refl;
    chats =
        select_rows-update_rows_ne (is_chat own id) (λ r. r.account_id == acc) f db.chats
          (λ r k. ground (arith, eq_iff r.account_id own, eq_iff r.account_id acc))
          (λ r. ground (arith, keep r));
    attendees = refl;
  }

  pub bump_chat-SameFor :
      (id : String) (at delta : ℕ) (db : ChatDb) → SameFor acc db (bump_chat own id at delta db)
  unfolding bump_chat
  bump_chat-SameFor id at delta db = chat_update-SameFor id (bump at delta) db (λ c. refl)

  pub clear_unread-SameFor : (id : String) (db : ChatDb) → SameFor acc db (clear_unread own id db)
  unfolding clear_unread
  clear_unread-SameFor id db =
      chat_update-SameFor id (λ c. record c { unread_count = 0 }) db (λ c. refl)

  pub insert-SameFor :
      (now : ℕ) (m : ChatMessage) (db : ChatDb)
      → m.account_id ≡ own
      → SameFor acc db (upsert_chat_message now m db).0
  unfolding upsert_chat_message
  insert-SameFor now m db mine = record {
    messages =
        select_rows-insert_row_ne (is_message m.account_id m.id) (λ r. r.account_id == acc)
          (message_row m now) db.chat_messages
          (str_ne m.account_id acc (λ e. other (ground arith)));
    chats = refl;
    attendees = refl;
  }

  -- an UPDATE of messages of the own account
  row_update-SameFor :
      (p : MessageRow → Bool) (f : MessageRow → MessageRow) (db : ChatDb)
      → ((r : MessageRow) → p r ≡ true → r.account_id ≡ own)
      → ((r : MessageRow) → (f r).account_id ≡ r.account_id)
      → SameFor acc db (record db { chat_messages = update_rows p f db.chat_messages })
  row_update-SameFor p f db mine keep = record {
    messages =
        select_rows-update_rows_ne p (λ r. r.account_id == acc) f db.chat_messages
          (λ r k. row_apart r k) (λ r. ground (arith, keep r));
    chats = refl;
    attendees = refl;
  }
    where
      row_apart : (r : MessageRow) → (r.account_id == acc) ≡ true → p r ≡ false
      row_apart r k = elim (Bool-cases (p r)) [
        | inl e ↦ absurd (other (ground (arith, mine r e, eq_iff r.account_id acc)))
        | inr e ↦ e
      ]

  pub status-SameFor :
      (ids : List String) (s : String) (db : ChatDb)
      → SameFor acc db (set_message_status own ids s db)
  unfolding set_message_status
  status-SameFor ids s db =
      row_update-SameFor (in_batch own ids) (with_status s) db
        (λ r k. ground (arith, eq_iff r.account_id own)) (λ r. refl)

  pub react-SameFor :
      (id : String) (r : Reaction) (db : ChatDb) → SameFor acc db (apply_reaction own id r db).0
  unfolding apply_reaction
  react-SameFor id r db = elim (Bool-cases (has_row (is_message own id) db.chat_messages)) [
    | inl e ↦ rw e (
        row_update-SameFor (is_message own id) (reacted r) db
          (λ r k. ground (arith, eq_iff r.account_id own)) (λ r. refl))
    | inr e ↦ rw e (SameFor-refl acc db)
  ]

  pub edit-SameFor :
      (id text : String) (at : ℕ) (db : ChatDb)
      → SameFor acc db (edit_chat_message own id text at db)
  unfolding edit_chat_message
  edit-SameFor id text at db =
      row_update-SameFor (is_kept own id) (edited_row text at) db
        (λ r k. ground (arith, eq_iff r.account_id own)) (λ r. refl)

  pub revoke-SameFor : (id : String) (db : ChatDb) → SameFor acc db (revoke_chat_message own id db)
  unfolding revoke_chat_message
  revoke-SameFor id db =
      row_update-SameFor (is_message own id) revoked db
        (λ r k. ground (arith, eq_iff r.account_id own)) (λ r. refl)
