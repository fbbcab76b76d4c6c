-- ===== src/Chatsync/Sink/Replay.antt =====
-- A message is announced once: reconnect replays and echoes of own sends emit nothing.
use unified_messaging.Prelude.{
  ℕ, String, ◌≡◌, refl, ap, ◌∙◌, sym, subst, Bool, true, false, not, List, [], ◌∷◌, ◌==◌, arith,
  eq_iff, str_eq_refl, if_both, if◌then◌else◌, Bool-cases, inl, inr, has_row, update_rows,
  has_row-insert_row, has_row-insert_row_mono, has_row-update_rows,
}
use unified_messaging.Model.{Attendee, Chat, ChatMessage, Reaction, Event}
use unified_messaging.Store.Tables.{ChatDb, MessageRow, is_message}
use unified_messaging.Store.Chats.{upsert_chat, bump_chat, clear_unread, upsert_attendee}
use unified_messaging.Store.Messages.{
  upsert_chat_message, message_row, set_message_status, in_batch, with_status, apply_reaction,
  reacted, edit_chat_message, is_kept, edited as edited_row, revoke_chat_message, revoked,
}
use unified_messaging.Chatsync.Sink.{
  Callback, message, receipt, reaction, edited, deleted, Faults, attempt, announce, store_people,
  on_message, on_receipt, on_reaction, apply_edit, on_edited, on_deleted, perform, accept,
  account_of, report, drain_inbox,
}

attempt-chat_messages :
    (fault : Bool) (op : ChatDb → ChatDb) (db : ChatDb)
    → (op db).chat_messages ≡ db.chat_messages
    → (attempt fault op db).chat_messages ≡ db.chat_messages
attempt-chat_messages true op db h = refl
attempt-chat_messages false op db h = h

-- Storing the sender and the chat leaves the messages alone.
pub store_people-chat_messages :
    (f : Faults) (acct : String) (chat : Chat) (sender : Attendee) (db : ChatDb)
    → (store_people f acct chat sender db).chat_messages ≡ db.chat_messages
unfolding store_people upsert_attendee upsert_chat
store_people-chat_messages f acct chat sender db =
    attempt-chat_messages f.chat _ (attempt f.attendee (upsert_attendee sender acct) db) refl
    ∙ attempt-chat_messages f.attendee (upsert_attendee sender acct) db refl

announce-chat_messages :
    (f : Faults) (acct : String) (m : ChatMessage) (db : ChatDb)
    → (announce f acct m db).0.chat_messages ≡ db.chat_messages
unfolding announce bump_chat
announce-chat_messages f acct m db =
    attempt-chat_messages f.bump
      (bump_chat acct m.chat_id m.sent_at (if m.is_from_me then 0 else 1)) db refl

-- The message of that account and id is in the store.
abbrev pub IsStored : String → String → ChatDb → Type 0
IsStored acc id db = has_row (is_message acc id) db.chat_messages ≡ true

module _ (acc id : String) where
  update-IsStored :
      (p : MessageRow → Bool) (f : MessageRow → MessageRow) (db : ChatDb)
      → ((r : MessageRow) → is_message acc id (f r) ≡ is_message acc id r)
      → IsStored acc id db
      → has_row (is_message acc id) (update_rows p f db.chat_messages) ≡ true
  update-IsStored p f db keep h =
      has_row-update_rows p (is_message acc id) f db.chat_messages keep ∙ h

  on_message-IsStored :
      (f : Faults) (now : ℕ) (own : String) (msg : ChatMessage) (chat : Chat) (sender : Attendee)
      (db : ChatDb)
      → IsStored acc id db
      → IsStored acc id (on_message f now own msg chat sender db).0
  unfolding on_message upsert_chat_message
  on_message-IsStored f now own msg chat sender db h =
      let m : ChatMessage = record msg { account_id = own } in
      let db2 = store_people f own chat sender db in
      let kept : IsStored acc id db2 =
        ap (has_row (is_message acc id)) (store_people-chat_messages f own chat sender db) ∙ h in
      let row =
        has_row-insert_row_mono (is_message acc id) (is_message own m.id) (message_row m now)
          db2.chat_messages kept in
      if_both (λ (r : ChatDb × List Event). IsStored acc id r.0) f.insert (λ _. kept)
        (λ _.
          if_both (λ (r : ChatDb × List Event). IsStored acc id r.0)
            (not (upsert_chat_message now m db2).1) (λ _. row)
            (λ _.
              ap (has_row (is_message acc id))
                (announce-chat_messages f own m (upsert_chat_message now m db2).0)
              ∙ row))

  on_receipt-IsStored :
      (f : Faults) (own chat : String) (ids : List String) (status : String) (db : ChatDb)
      → IsStored acc id db
      → IsStored acc id (on_receipt f own chat ids status db).0
  unfolding on_receipt set_message_status clear_unread
  on_receipt-IsStored f own chat [] status db h = h
  on_receipt-IsStored f own chat (i ∷ is) status db h =
      let row = update-IsStored (in_batch own (i ∷ is)) (with_status status) db (λ r. refl) h in
      ground (
        arith,
        row,
        attempt-chat_messages f.unread (clear_unread own chat)
            (set_message_status own (i ∷ is) status db) refl,
      )

  on_reaction-IsStored :
      (f : Faults) (own i : String) (r : Reaction) (db : ChatDb)
      → IsStored acc id db
      → IsStored acc id (on_reaction f own i r db).0
  unfolding on_reaction apply_reaction
  on_reaction-IsStored f own i r db h =
      ground (arith, update-IsStored (is_message own i) (reacted r) db (λ r. refl) h)

  apply_edit-IsStored :
      (f : Faults) (own i text : String) (at : ℕ) (db : ChatDb)
      → IsStored acc id db
      → IsStored acc id (apply_edit f own i text at db).0
  unfolding apply_edit edit_chat_message
  apply_edit-IsStored f own i text at db h =
      ground (arith, update-IsStored (is_kept own i) (edited_row text at) db (λ r. refl) h)

  on_edited-IsStored :
      (f : Faults) (own i text : String) (at : ℕ) (db : ChatDb)
      → IsStored acc id db
      → IsStored acc id (on_edited f own i text at db).0
  unfolding on_edited
  on_edited-IsStored f own i text at db h = ground (arith, apply_edit-IsStored f own i text at db h)

  on_deleted-IsStored :
      (f : Faults) (own i : String) (db : ChatDb)
      → IsStored acc id db
      → IsStored acc id (on_deleted f own i db).0
  unfolding on_deleted revoke_chat_message
  on_deleted-IsStored f own i db h =
      ground (arith, update-IsStored (is_message own i) revoked db (λ r. refl) h)

  perform-IsStored :
      (f : Faults) (now : ℕ) (cb : Callback) (db : ChatDb)
      → IsStored acc id db
      → IsStored acc id (perform f now cb db).0
  unfolding perform
  perform-IsStored f now (message a m chat sender) db h =
      on_message-IsStored f now a m chat sender db h
  perform-IsStored f now (receipt a chat ids status) db h =
      on_receipt-IsStored f a chat ids status db h
  perform-IsStored f now (reaction a chat i r) db h = on_reaction-IsStored f a i r db h
  perform-IsStored f now (edited a chat i text at) db h = on_edited-IsStored f a i text at db h
  perform-IsStored f now (deleted a chat i) db h = on_deleted-IsStored f a i db h

  report-IsStored :
      (own : String) (f : Faults) (now : ℕ) (cb : Callback) (db : ChatDb)
      → IsStored acc id db
      → IsStored acc id (report own f now cb db).0
  unfolding report accept
  report-IsStored own f now cb db h = elim (Bool-cases (account_of cb == own)) [
    | inl e ↦ rw (e, report) (perform-IsStored f now cb db h)
    | inr e ↦ rw (e, report) h
  ]

  -- No report ever takes a message out of the store.
  pub drain_inbox-IsStored :
      (own : String) (work : List (Faults × ℕ × Callback)) (db : ChatDb)
      → IsStored acc id db
      → IsStored acc id (drain_inbox own work db).0
  unfolding drain_inbox
  drain_inbox-IsStored own [] db h = h
  drain_inbox-IsStored own ((f, now, cb) ∷ work) db h =
      drain_inbox-IsStored own work (report own f now cb db).0 (report-IsStored own f now cb db h)

-- A report for the sink's own account is performed.
pub report-own :
    (own : String) (f : Faults) (now : ℕ) (cb : Callback) (db : ChatDb)
    → account_of cb ≡ own
    → report own f now cb db ≡ perform f now cb db
unfolding report accept
report-own own f now cb db e = rw ((eq_iff (account_of cb) own).1 e, report)

-- A message whose row is there: the sender and the chat are refreshed, and that is all.
on_message-replay :
    (f : Faults) (now : ℕ) (own : String) (m : ChatMessage) (chat : Chat) (sender : Attendee)
    (db : ChatDb)
    → IsStored own m.id db
    → on_message f now own m chat sender db ≡ (store_people f own chat sender db, [])
unfolding on_message upsert_chat_message
on_message-replay f now own m chat sender db h =
    let there =
      ap (has_row (is_message own m.id)) (store_people-chat_messages f own chat sender db) ∙ h in
    ground (arith, there)

-- Without a fault at the insert the message is in the store afterwards.
on_message-stores :
    (f : Faults) (now : ℕ) (own : String) (m : ChatMessage) (chat : Chat) (sender : Attendee)
    (db : ChatDb)
    → f.insert ≡ false
    → IsStored own m.id (on_message f now own m chat sender db).0
unfolding on_message upsert_chat_message
on_message-stores f now own msg chat sender db e =
    let m : ChatMessage = record msg { account_id = own } in
    let db2 = store_people f own chat sender db in
    let self : is_message own m.id (message_row m now) ≡ true =
      ground (arith, str_eq_refl own, str_eq_refl m.id) in
    let row = has_row-insert_row (is_message own m.id) (message_row m now) db2.chat_messages self in
    if_both (λ (r : ChatDb × List Event). IsStored own m.id r.0) f.insert
      (λ t. absurd (ground arith))
      (λ _.
        if_both (λ (r : ChatDb × List Event). IsStored own m.id r.0)
          (not (upsert_chat_message now m db2).1) (λ _. row)
          (λ _.
            ap (has_row (is_message own m.id))
              (announce-chat_messages f own m (upsert_chat_message now m db2).0)
            ∙ row))

pub report-message :
    (own : String) (f : Faults) (now : ℕ) (m : ChatMessage) (chat : Chat) (sender : Attendee)
    (db : ChatDb)
    → report own f now (message own m chat sender) db ≡ on_message f now own m chat sender db
unfolding perform
report-message own f now m chat sender db = report-own own f now (message own m chat sender) db refl

-- A message is announced at most once: after a report of it that the insert did not fail, and
-- whatever else is reported in between, a second report of the same id, with whatever content and
-- faults, emits no event and leaves the stored messages as they are.
pub report-message_once :
    (own : String) (f g : Faults) (now later : ℕ) (m m' : ChatMessage) (chat chat' : Chat)
    (sender sender' : Attendee) (between : List (Faults × ℕ × Callback)) (db : ChatDb)
    → f.insert ≡ false
    → m'.id ≡ m.id
    → let db1 = (report own f now (message own m chat sender) db).0 in
      let db2 = (drain_inbox own between db1).0 in
      let again = report own g later (message own m' chat' sender') db2 in
      (again.1 ≡ []) × (again.0.chat_messages ≡ db2.chat_messages)
report-message_once own f g now later m m' chat chat' sender sender' between db e same =
    let db1 = (report own f now (message own m chat sender) db).0 in
    let db2 = (drain_inbox own between db1).0 in
    let first : IsStored own m.id db1 =
      subst (λ (r : ChatDb × List Event). IsStored own m.id r.0)
        (sym (report-message own f now m chat sender db))
        (on_message-stores f now own m chat sender db e) in
    let there : IsStored own m'.id db2 =
      subst (λ (i : String). IsStored own i db2) (sym same)
        (drain_inbox-IsStored own m.id own between db1 first) in
    let quiet =
      report-message own g later m' chat' sender' db2
      ∙ on_message-replay g later own m' chat' sender' db2 there in
    (
      ap (λ (r : ChatDb × List Event). r.1) quiet,
      ap (λ (r : ChatDb × List Event). r.0.chat_messages) quiet
          ∙ store_people-chat_messages g own chat' sender' db2,
    )
