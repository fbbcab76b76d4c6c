-- ===== src/Chatsync/Sink/Isolation.antt =====
-- Whatever one account's connection reports, the rows of the other accounts stay as they are.
use unified_messaging.Prelude.{
  ℕ, String, ◌≡◌, refl, ◌≢◌, Bool, true, false, not, ◌||◌, List, [], ◌∷◌, ◌==◌, if_both, sym, subst,
  arith, eq_iff, if◌then◌else◌, Bool-cases, Option-cases, inl, inr,
}
use unified_messaging.Model.{Attendee, Chat, ChatMessage, Reaction, Event}
use unified_messaging.Store.Tables.{ChatDb}
use unified_messaging.Store.Chats.{upsert_chat, bump_chat, clear_unread, upsert_attendee}
use unified_messaging.Store.Messages.{
  upsert_chat_message, get_chat_message, set_message_status, apply_reaction, edit_chat_message,
}
use unified_messaging.Chatsync.Sink.{
  Callback, message, receipt, reaction, edited, deleted, Faults, attempt, chat_or_existing,
  announce, store_people, on_message, on_receipt, on_reaction, apply_edit, on_edited, on_deleted,
  perform, accept, account_of, report, drain_inbox, unless, is_replayed_edit,
}
use unified_messaging.Store.Neighbours.{
  SameFor, SameFor-refl, SameFor-trans, upsert_attendee-SameFor, upsert_chat-SameFor,
  bump_chat-SameFor, clear_unread-SameFor, insert-SameFor, status-SameFor, react-SameFor,
  edit-SameFor, revoke-SameFor,
}

-- `own` is the account of the connection, `acc` any other.
module _ (own acc : String) (other : own ≢ acc) where
  attempt-SameFor :
      (fault : Bool) (op : ChatDb → ChatDb) (db : ChatDb)
      → SameFor acc db (op db)
      → SameFor acc db (attempt fault op db)
  attempt-SameFor true op db h = SameFor-refl acc db
  attempt-SameFor false op db h = h

  chat_or_existing-account :
      (fault : Bool) (c : Chat) (db : ChatDb) → (chat_or_existing fault own c db).account_id ≡ own
  unfolding chat_or_existing
  chat_or_existing-account fault c db = ground arith

  store_people-SameFor :
      (f : Faults) (chat : Chat) (sender : Attendee) (db : ChatDb)
      → SameFor acc db (store_people f own chat sender db)
  unfolding store_people
  store_people-SameFor f chat sender db =
      let db1 = attempt f.attendee (upsert_attendee sender own) db in
      SameFor-trans
        (attempt-SameFor f.attendee (upsert_attendee sender own) db
          (upsert_attendee-SameFor own acc other sender db))
        (attempt-SameFor f.chat (upsert_chat (chat_or_existing f.lookup own chat db1)) db1
          (upsert_chat-SameFor own acc other _ db1 (chat_or_existing-account f.lookup chat db1)))

  announce-SameFor :
      (f : Faults) (m : ChatMessage) (db : ChatDb) → SameFor acc db (announce f own m db).0
  unfolding announce
  announce-SameFor f m db =
      attempt-SameFor f.bump (bump_chat own m.chat_id m.sent_at (if m.is_from_me then 0 else 1)) db
        (bump_chat-SameFor own acc other m.chat_id m.sent_at (if m.is_from_me then 0 else 1) db)

  on_message-SameFor :
      (f : Faults) (now : ℕ) (msg : ChatMessage) (chat : Chat) (sender : Attendee) (db : ChatDb)
      → SameFor acc db (on_message f now own msg chat sender db).0
  unfolding on_message
  on_message-SameFor f now msg chat sender db =
      let m : ChatMessage = record msg { account_id = own } in
      let db2 = store_people f own chat sender db in
      let people = store_people-SameFor f chat sender db in
      let row = SameFor-trans people (insert-SameFor own acc other now m db2 refl) in
      if_both (λ (r : ChatDb × List Event). SameFor acc db r.0) f.insert (λ _. people)
        (λ _.
          if_both (λ (r : ChatDb × List Event). SameFor acc db r.0)
            (not (upsert_chat_message now m db2).1) (λ _. row)
            (λ _. SameFor-trans row (announce-SameFor f m (upsert_chat_message now m db2).0)))

  on_receipt-SameFor :
      (f : Faults) (chat : String) (ids : List String) (status : String) (db : ChatDb)
      → SameFor acc db (on_receipt f own chat ids status db).0
  unfolding on_receipt
  on_receipt-SameFor f chat [] status db = SameFor-refl acc db
  on_receipt-SameFor f chat (i ∷ is) status db =
      let db1 = set_message_status own (i ∷ is) status db in
      let stored = status-SameFor own acc other (i ∷ is) status db in
      elim (Bool-cases f.status) [
        | inl e ↦ rw e (SameFor-refl acc db)
        | inr e ↦ elim (Bool-cases (status == "read")) [
          | inl seen ↦
              rw (e, seen)
                (SameFor-trans stored (
                  attempt-SameFor f.unread (clear_unread own chat) db1
                    (clear_unread-SameFor own acc other chat db1)))
          | inr unseen ↦ rw (e, unseen) stored
        ]
      ]

  on_reaction-SameFor :
      (f : Faults) (id : String) (r : Reaction) (db : ChatDb)
      → SameFor acc db (on_reaction f own id r db).0
  unfolding on_reaction
  on_reaction-SameFor f id r db =
      elim (Bool-cases (f.react || not (apply_reaction own id r db).1)) [
        | inl e ↦ rw e (SameFor-refl acc db)
        | inr e ↦ rw e (react-SameFor own acc other id r db)
      ]

  apply_edit-SameFor :
      (f : Faults) (id text : String) (at : ℕ) (db : ChatDb)
      → SameFor acc db (apply_edit f own id text at db).0
  unfolding apply_edit
  apply_edit-SameFor f id text at db = elim (Bool-cases f.edit) [
    | inl e ↦ rw e (SameFor-refl acc db)
    | inr e ↦
        elim (Option-cases
          (unless f.reread (get_chat_message own id (edit_chat_message own id text at db)))) [
            | inl gone ↦ rw (e, gone) (edit-SameFor own acc other id text at db)
            | inr (full, read) ↦ rw (e, read) (edit-SameFor own acc other id text at db)
          ]
  ]

  on_edited-SameFor :
      (f : Faults) (id text : String) (at : ℕ) (db : ChatDb)
      → SameFor acc db (on_edited f own id text at db).0
  unfolding on_edited
  on_edited-SameFor f id text at db =
      elim (Option-cases (unless f.read_message (get_chat_message own id db))) [
        | inl gone ↦ rw (gone, on_edited) (SameFor-refl acc db)
        | inr (prev, read) ↦
            elim (Bool-cases (prev.content_evicted || is_replayed_edit prev text)) [
              | inl skip ↦ rw (read, on_edited, skip) (SameFor-refl acc db)
              | inr go ↦ rw (read, on_edited, go) (apply_edit-SameFor f id text at db)
            ]
      ]

  on_deleted-SameFor :
      (f : Faults) (id : String) (db : ChatDb) → SameFor acc db (on_deleted f own id db).0
  unfolding on_deleted
  on_deleted-SameFor f id db =
      elim (Option-cases (unless f.read_message (get_chat_message own id db))) [
        | inl gone ↦ rw (gone, on_deleted) (SameFor-refl acc db)
        | inr (prev, read) ↦ elim (Bool-cases (prev.deleted || f.revoke)) [
          | inl skip ↦ rw (read, on_deleted, skip) (SameFor-refl acc db)
          | inr go ↦ rw (read, on_deleted, go) (revoke-SameFor own acc other id db)
        ]
      ]

  perform-SameFor :
      (f : Faults) (now : ℕ) (cb : Callback) (db : ChatDb)
      → account_of cb ≡ own
      → SameFor acc db (perform f now cb db).0
  unfolding perform
  perform-SameFor f now (message a m chat sender) db e =
      subst (λ (x : String). SameFor acc db (on_message f now x m chat sender db).0) (sym e)
        (on_message-SameFor f now m chat sender db)
  perform-SameFor f now (receipt a chat ids status) db e =
      subst (λ (x : String). SameFor acc db (on_receipt f x chat ids status db).0) (sym e)
        (on_receipt-SameFor f chat ids status db)
  perform-SameFor f now (reaction a chat id r) db e =
      subst (λ (x : String). SameFor acc db (on_reaction f x id r db).0) (sym e)
        (on_reaction-SameFor f id r db)
  perform-SameFor f now (edited a chat id text at) db e =
      subst (λ (x : String). SameFor acc db (on_edited f x id text at db).0) (sym e)
        (on_edited-SameFor f id text at db)
  perform-SameFor f now (deleted a chat id) db e =
      subst (λ (x : String). SameFor acc db (on_deleted f x id db).0) (sym e)
        (on_deleted-SameFor f id db)

  report-SameFor :
      (f : Faults) (now : ℕ) (cb : Callback) (db : ChatDb)
      → SameFor acc db (report own f now cb db).0
  unfolding report accept
  report-SameFor f now cb db = elim (Bool-cases (account_of cb == own)) [
    | inl e ↦ rw (e, report) (perform-SameFor f now cb db ((eq_iff (account_of cb) own).0 e))
    | inr e ↦ rw (e, report) (SameFor-refl acc db)
  ]

-- Tenant isolation: whatever sequence of callbacks an adapter makes on the sink of one account,
-- callbacks that name another account included, and whichever calls of the store fail, the
-- messages, chats and attendees of every other account are the same afterwards.
pub drain_inbox-SameFor :
    (own acc : String)
    → own ≢ acc
    → (work : List (Faults × ℕ × Callback)) (db : ChatDb)
    → SameFor acc db (drain_inbox own work db).0
unfolding drain_inbox
drain_inbox-SameFor own acc other [] db = SameFor-refl acc db
drain_inbox-SameFor own acc other ((f, now, cb) ∷ work) db =
    SameFor-trans (report-SameFor own acc other f now cb db)
      (drain_inbox-SameFor own acc other work (report own f now cb db).0)
