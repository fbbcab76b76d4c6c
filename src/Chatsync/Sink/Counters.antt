-- ===== src/Chatsync/Sink/Counters.antt =====
-- The first report of a message: the event, the unread counter and the activity clock of its chat.
use mathlib.Core.Option
use unified_messaging.Prelude.{
  ℕ, ◌+◌, String, ◌≡◌, refl, ap, ◌∙◌, sym, subst, Bool, true, false, Option, some, List, [], ◌∷◌,
  ◌==◌, arith, if_both, if◌then◌else◌, Bool-cases, inl, inr, find_row, has_row,
  find_row-update_rows_if, find_row-append, find_row-has_row, find_row-holds, if_true,
}
use unified_messaging.Model.{Attendee, Chat, ChatMessage, Event, chat_received, chat_sent}
use unified_messaging.Store.Tables.{ChatDb, is_chat, is_message}
use unified_messaging.Store.Chats.{
  upsert_chat, bump_chat, bump, clear_unread, rename_chat, chat_row, upsert_attendee,
}
use unified_messaging.Store.Messages.{upsert_chat_message, set_message_status}
use unified_messaging.Chatsync.Sink.{
  Faults, attempt, chat_or_existing, announce, store_people, on_message, on_receipt,
}
use unified_messaging.Chatsync.Sink.Replay.{store_people-chat_messages}

on_message-new :
    (f : Faults) (now : ℕ) (own : String) (m : ChatMessage) (chat : Chat) (sender : Attendee)
    (db : ChatDb)
    → f.insert ≡ false
    → has_row (is_message own m.id) db.chat_messages ≡ false
    → let m' : ChatMessage = record m { account_id = own } in
      on_message f now own m chat sender db
      ≡ announce f own m' (upsert_chat_message now m' (store_people f own chat sender db)).0
unfolding on_message upsert_chat_message
on_message-new f now own m chat sender db e new =
    let fresh =
      ap (has_row (is_message own m.id)) (store_people-chat_messages f own chat sender db) ∙ new in
    ground (arith, fresh)

announce-event :
    (f : Faults) (own : String) (m : ChatMessage) (db : ChatDb)
    → (ev : Event) × ((announce f own m db).1 ≡ ev ∷ [])
      × (ev.event_type ≡ (if m.is_from_me then chat_sent else chat_received))
      × (ev.account_id ≡ own)
unfolding announce
announce-event f own m db = (_, refl, refl, refl)

-- The first report of a message that reaches the store emits exactly one event of the account:
-- chat_sent for an own message, chat_received for any other, whatever else fails.
pub on_message-announces :
    (f : Faults) (now : ℕ) (own : String) (m : ChatMessage) (chat : Chat) (sender : Attendee)
    (db : ChatDb)
    → f.insert ≡ false
    → has_row (is_message own m.id) db.chat_messages ≡ false
    → (ev : Event) × ((on_message f now own m chat sender db).1 ≡ ev ∷ [])
      × (ev.event_type ≡ (if m.is_from_me then chat_sent else chat_received))
      × (ev.account_id ≡ own)
on_message-announces f now own m chat sender db e new =
    let m' : ChatMessage = record m { account_id = own } in
    let db3 = (upsert_chat_message now m' (store_people f own chat sender db)).0 in
    let (ev, one, kind, mine) = announce-event f own m' db3 in
    (
      ev,
      ap (λ (r : ChatDb × List Event). r.1) (on_message-new f now own m chat sender db e new) ∙ one,
      kind,
      mine,
    )

-- The chat is there with this unread count and this activity clock.
pub record HasCounters (acc id : String) (unread : ℕ) (last : Option ℕ) (db : ChatDb) : Type 0 where
  pub row : Chat
  pub found : find_row (is_chat acc id) db.chats ≡ some row
  pub unread_is : row.unread_count ≡ unread
  pub last_is : row.last_message_at ≡ last

module _ (acc id : String) (unread : ℕ) (last : Option ℕ) where
  upsert_chat-HasCounters :
      (c : Chat) (db : ChatDb)
      → HasCounters acc id unread last db
      → HasCounters acc id unread last (upsert_chat c db)
  unfolding upsert_chat
  upsert_chat-HasCounters c db h =
      elim (Bool-cases (has_row (is_chat c.account_id c.id) db.chats)) [
        | inl e ↦ record {
          row = if is_chat c.account_id c.id h.row then rename_chat c h.row else h.row;
          found = rw e (
              find_row-update_rows_if (is_chat acc id) (is_chat c.account_id c.id) (rename_chat c)
                db.chats (λ r. ground arith)
              ∙ ap (Option.map (λ r. if is_chat c.account_id c.id r then rename_chat c r else r))
                  h.found);
          unread_is = ground (arith, h.unread_is);
          last_is = ground (arith, h.last_is);
        }
        | inr e ↦ record {
          row = h.row;
          found = rw e (
              ground (
                arith,
                find_row-append (is_chat acc id) db.chats (chat_row c ∷ []),
                find_row-has_row (is_chat acc id) db.chats {r = h.row} h.found,
                h.found,
              ));
          unread_is = h.unread_is;
          last_is = h.last_is;
        }
      ]

  attempt-HasCounters :
      (fault : Bool) (op : ChatDb → ChatDb) (db : ChatDb)
      → HasCounters acc id unread last db
      → HasCounters acc id unread last (op db)
      → HasCounters acc id unread last (attempt fault op db)
  attempt-HasCounters true op db h k = h
  attempt-HasCounters false op db h k = k

  upsert_attendee-HasCounters :
      (a : Attendee) (own : String) (db : ChatDb)
      → HasCounters acc id unread last db
      → HasCounters acc id unread last (upsert_attendee a own db)
  unfolding upsert_attendee
  upsert_attendee-HasCounters a own db h = record {
    row = h.row;
    found = h.found;
    unread_is = h.unread_is;
    last_is = h.last_is;
  }

  -- Storing the sender and the chat leaves the counters of a chat that exists alone.
  store_people-HasCounters :
      (f : Faults) (own : String) (chat : Chat) (sender : Attendee) (db : ChatDb)
      → HasCounters acc id unread last db
      → HasCounters acc id unread last (store_people f own chat sender db)
  unfolding store_people
  store_people-HasCounters f own chat sender db h =
      let db1 = attempt f.attendee (upsert_attendee sender own) db in
      let h1 =
        attempt-HasCounters f.attendee (upsert_attendee sender own) db h
          (upsert_attendee-HasCounters sender own db h) in
      attempt-HasCounters f.chat (upsert_chat (chat_or_existing f.lookup own chat db1)) db1 h1
        (upsert_chat-HasCounters (chat_or_existing f.lookup own chat db1) db1 h1)

  insert-HasCounters :
      (now : ℕ) (m : ChatMessage) (db : ChatDb)
      → HasCounters acc id unread last db
      → HasCounters acc id unread last (upsert_chat_message now m db).0
  unfolding upsert_chat_message
  insert-HasCounters now m db h = record {
    row = h.row;
    found = h.found;
    unread_is = h.unread_is;
    last_is = h.last_is;
  }

  bump_chat-HasCounters :
      (at delta : ℕ) (db : ChatDb)
      → HasCounters acc id unread last db
      → HasCounters acc id (unread + delta) (some at) (bump_chat acc id at delta db)
  unfolding bump_chat
  bump_chat-HasCounters at delta db h = record {
    row = bump at delta h.row;
    found =
        find_row-update_rows_if (is_chat acc id) (is_chat acc id) (bump at delta) db.chats
          (λ r. ground arith)
        ∙ ap (Option.map (λ r. if is_chat acc id r then bump at delta r else r)) h.found
        ∙ bumped;
    unread_is = ap (λ (n : ℕ). n + delta) h.unread_is;
    last_is = refl;
  }
    where
      bumped :
          some (if is_chat acc id h.row then bump at delta h.row else h.row)
          ≡ some (bump at delta h.row)
      bumped = ap some (
          if_true (is_chat acc id h.row) (bump at delta h.row) h.row
            (find_row-holds (is_chat acc id) db.chats {r = h.row} h.found))

announce-HasCounters :
    (f : Faults) (own : String) (m : ChatMessage) (db : ChatDb) (unread : ℕ) (last : Option ℕ)
    → f.bump ≡ false
    → HasCounters own m.chat_id unread last db
    → HasCounters own m.chat_id
        (unread + (if m.is_from_me then 0 else 1))
        (some m.sent_at)
        (announce f own m db).0
unfolding announce
announce-HasCounters f own m db unread last b h =
    let delta = if m.is_from_me then 0 else 1 in
    subst
      (λ (t : Bool).
        HasCounters own m.chat_id (unread + delta) (some m.sent_at)
          (attempt t (bump_chat own m.chat_id m.sent_at delta) db))
      (sym b) (bump_chat-HasCounters own m.chat_id unread last m.sent_at delta db h)

-- A new message advances the unread count of its chat by one, an own message by none, and sets the
-- activity clock of the chat to the time of the message, whatever that clock said before.
pub on_message-counts :
    (f : Faults) (now : ℕ) (own : String) (m : ChatMessage) (chat : Chat) (sender : Attendee)
    (db : ChatDb) (unread : ℕ) (last : Option ℕ)
    → f.insert ≡ false
    → f.bump ≡ false
    → has_row (is_message own m.id) db.chat_messages ≡ false
    → HasCounters own m.chat_id unread last db
    → HasCounters own m.chat_id
        (unread + (if m.is_from_me then 0 else 1))
        (some m.sent_at)
        (on_message f now own m chat sender db).0
on_message-counts f now own m chat sender db unread last e b new h =
    let m' : ChatMessage = record m { account_id = own } in
    let db2 = store_people f own chat sender db in
    let delta = if m.is_from_me then 0 else 1 in
    let h2 = store_people-HasCounters own m.chat_id unread last f own chat sender db h in
    let db3 = (upsert_chat_message now m' db2).0 in
    let h3 = insert-HasCounters own m.chat_id unread last now m' db2 h2 in
    subst
      (λ (r : ChatDb × List Event). HasCounters own m.chat_id (unread + delta) (some m.sent_at) r.0)
      (sym (on_message-new f now own m chat sender db e new))
      (announce-HasCounters f own m' db3 unread last b h3)

set_message_status-HasCounters :
    (acc id own : String) (ids : List String) (status : String) (db : ChatDb) (unread : ℕ)
    (last : Option ℕ)
    → HasCounters acc id unread last db
    → HasCounters acc id unread last (set_message_status own ids status db)
unfolding set_message_status
set_message_status-HasCounters acc id own ids status db unread last h = record {
  row = h.row;
  found = h.found;
  unread_is = h.unread_is;
  last_is = h.last_is;
}

clear_unread-HasCounters :
    (acc id : String) (db : ChatDb) (unread : ℕ) (last : Option ℕ)
    → HasCounters acc id unread last db
    → HasCounters acc id 0 last (clear_unread acc id db)
unfolding clear_unread
clear_unread-HasCounters acc id db unread last h =
    let f = λ (c : Chat). let r : Chat = record c { unread_count = 0 } in r in
    record {
      row = f h.row;
      found =
          find_row-update_rows_if (is_chat acc id) (is_chat acc id) f db.chats (λ r. ground arith)
          ∙ ap (Option.map (λ r. if is_chat acc id r then f r else r)) h.found
          ∙ ap some (
              if_true (is_chat acc id h.row) (f h.row) h.row
                (find_row-holds (is_chat acc id) db.chats {r = h.row} h.found));
      unread_is = refl;
      last_is = h.last_is;
    }

-- A read receipt clears the unread count of its chat, without the activity clock; any other status
-- leaves both as they are.
pub on_receipt-counts :
    (f : Faults) (own chat : String) (i : String) (is : List String) (status : String) (db : ChatDb)
    (unread : ℕ) (last : Option ℕ)
    → f.status ≡ false
    → f.unread ≡ false
    → HasCounters own chat unread last db
    → HasCounters own chat
        (if status == "read" then 0 else unread)
        last
        (on_receipt f own chat (i ∷ is) status db).0
unfolding on_receipt
on_receipt-counts f own chat i is status db unread last e u h =
    let db1 = set_message_status own (i ∷ is) status db in
    let h1 = set_message_status-HasCounters own chat own (i ∷ is) status db unread last h in
    if_both
      (λ (r : ChatDb × List Event).
        HasCounters own chat (if status == "read" then 0 else unread) last r.0)
      f.status (λ t. absurd (ground arith))
      (λ _. elim (Bool-cases (status == "read")) [
        | inl seen ↦ simp (seen, u) (clear_unread-HasCounters own chat db1 unread last h1)
        | inr unseen ↦ rw unseen h1
      ])
