-- ===== src/Chatsync/Sink/Edits.antt =====
-- Edits and deletions: replays are silent, evicted content is out of reach, and what an edit does
-- to a message that was deleted.
use mathlib.Core.Option
use unified_messaging.Prelude.{
  ℕ, String, ◌≡◌, ◌≢◌, refl, ap, ◌∙◌, sym, subst, Bool, true, false, not, ◌&&◌, ◌||◌, Option, none,
  some, List, [], ◌∷◌, ◌==◌, arith, eq_iff, str_eq_refl, if_true, if_false, if◌then◌else◌,
  Bool-cases, Option-cases, inl, inr, find_row, find_row-update_rows_if, find_row-holds,
}
use unified_messaging.Model.{ChatMessage, Event, chat_updated}
use unified_messaging.Store.Tables.{ChatDb, MessageRow, is_message}
use unified_messaging.Store.Messages.{
  get_chat_message, scan_chat_message, edit_chat_message, is_kept, is_null, edited as edited_row,
  revoke_chat_message, revoked,
}
use unified_messaging.Store.Messages.Retention.{IsEvictedAt}
use unified_messaging.Chatsync.Sink.{Faults, no_faults, apply_edit, on_edited, on_deleted, event}

abbrev pub row_at : String → String → ChatDb → Option MessageRow
row_at acc id db = find_row (is_message acc id) db.chat_messages

get-some :
    (acc id : String) (db : ChatDb) (r : MessageRow)
    → row_at acc id db ≡ some r
    → get_chat_message acc id db ≡ some (scan_chat_message db r)
unfolding get_chat_message
get-some acc id db r e = ap (Option.map (scan_chat_message db)) e

get-none :
    (acc id : String) (db : ChatDb) → row_at acc id db ≡ none → get_chat_message acc id db ≡ none
unfolding get_chat_message
get-none acc id db e = ap (Option.map (scan_chat_message db)) e

-- What the edit's guards read of a stored row.
abbrev pub skips : MessageRow → String → Bool
skips r text = not (is_null r.content_evicted_at) || (not (is_null r.edited_at) && r.text == text)

on_edited-some :
    (f : Faults) (acc id text : String) (at : ℕ) (db : ChatDb) (r : MessageRow)
    → f.read_message ≡ false
    → row_at acc id db ≡ some r
    → on_edited f acc id text at db
      ≡ (if skips r text then (db, []) else apply_edit f acc id text at db)
unfolding on_edited scan_chat_message
on_edited-some f acc id text at db r e found = ground (arith, get-some acc id db r found)

on_edited-none :
    (f : Faults) (acc id text : String) (at : ℕ) (db : ChatDb)
    → row_at acc id db ≡ none
    → on_edited f acc id text at db ≡ (db, [])
unfolding on_edited
on_edited-none f acc id text at db found = ground (arith, get-none acc id db found)

apply_edit-db :
    (f : Faults) (acc id text : String) (at : ℕ) (db : ChatDb)
    → f.edit ≡ false
    → (apply_edit f acc id text at db).0 ≡ edit_chat_message acc id text at db
unfolding apply_edit
apply_edit-db f acc id text at db e = ground arith

-- The row of a message that is edited while its content is kept.
edit-row :
    (acc id text : String) (at : ℕ) (db : ChatDb) (r : MessageRow)
    → row_at acc id db ≡ some r
    → is_null r.content_evicted_at ≡ true
    → row_at acc id (edit_chat_message acc id text at db) ≡ some (edited_row text at r)
unfolding edit_chat_message
edit-row acc id text at db r found kept =
    find_row-update_rows_if (is_message acc id) (is_kept acc id) (edited_row text at)
      db.chat_messages (λ r. ground arith)
    ∙ ap (Option.map (λ r. if is_kept acc id r then edited_row text at r else r)) found
    ∙ ap some (
        if_true (is_kept acc id r) (edited_row text at r) r
          (ground (arith, find_row-holds (is_message acc id) db.chat_messages {r = r} found)))

revoke-row :
    (acc id : String) (db : ChatDb) (r : MessageRow)
    → row_at acc id db ≡ some r
    → row_at acc id (revoke_chat_message acc id db) ≡ some (revoked r)
unfolding revoke_chat_message
revoke-row acc id db r found =
    find_row-update_rows_if (is_message acc id) (is_message acc id) revoked db.chat_messages
      (λ r. ground arith)
    ∙ ap (Option.map (λ r. if is_message acc id r then revoked r else r)) found
    ∙ ap some (
        if_true (is_message acc id r) (revoked r) r
          (find_row-holds (is_message acc id) db.chat_messages {r = r} found))

on_edited-lost :
    (g : Faults) (acc id text : String) (at : ℕ) (db : ChatDb)
    → g.read_message ≡ true
    → on_edited g acc id text at db ≡ (db, [])
unfolding on_edited
on_edited-lost g acc id text at db lost = ground arith

-- An edit whose row would skip it changes nothing and emits nothing, whatever fails.
on_edited-skip :
    (g : Faults) (acc id text : String) (at : ℕ) (db : ChatDb) (r : MessageRow)
    → row_at acc id db ≡ some r
    → skips r text ≡ true
    → on_edited g acc id text at db ≡ (db, [])
on_edited-skip g acc id text at db r found skip = elim (Bool-cases g.read_message) [
  | inl lost ↦ on_edited-lost g acc id text at db lost
  | inr kept ↦ on_edited-some g acc id text at db r kept found ∙ if_true (skips r text) _ _ skip
]

-- A replayed edit is silent: once an edit has gone through, the same text for the same message
-- changes nothing and emits nothing, at whatever time and whatever fails then; so too where the
-- first one found no message or evicted content.
pub on_edited_twice :
    (f g : Faults) (acc id text : String) (at later : ℕ) (db : ChatDb)
    → f.read_message ≡ false
    → f.edit ≡ false
    → let db1 = (on_edited f acc id text at db).0 in on_edited g acc id text later db1 ≡ (db1, [])
on_edited_twice f g acc id text at later db e w = elim (Option-cases (row_at acc id db)) [
  | inl gone ↦
      subst (λ (d : ChatDb). on_edited g acc id text later d ≡ (d, []))
        (sym (ap (λ (p : ChatDb × List Event). p.0) (on_edited-none f acc id text at db gone)))
        (on_edited-none g acc id text later db gone)
  | inr (r, found) ↦ elim (Bool-cases (skips r text)) [
    | inl skip ↦
        subst (λ (d : ChatDb). on_edited g acc id text later d ≡ (d, []))
          (sym (
            ap (λ (p : ChatDb × List Event). p.0)
              (on_edited-skip f acc id text at db r found skip)))
          (on_edited-skip g acc id text later db r found skip)
    | inr go ↦
        let db1 = edit_chat_message acc id text at db in
        let step =
          ap (λ (p : ChatDb × List Event). p.0)
            (on_edited-some f acc id text at db r e found ∙ if_false (skips r text) _ _ go)
          ∙ apply_edit-db f acc id text at db w in
        subst (λ (d : ChatDb). on_edited g acc id text later d ≡ (d, [])) (sym step)
          (on_edited-skip g acc id text later db1 (edited_row text at r)
            (edit-row acc id text at db r found (ground arith)) (ground (arith, str_eq_refl text)))
  ]
]

-- No edit reaches evicted content: on a message whose content was evicted it changes nothing and
-- emits nothing, whatever the text and whatever fails.
pub on_edited-evicted :
    (f : Faults) (acc id text : String) (at evicted_at : ℕ) (db : ChatDb)
    → IsEvictedAt acc id evicted_at db
    → on_edited f acc id text at db ≡ (db, [])
on_edited-evicted f acc id text at evicted_at db e =
    on_edited-skip f acc id text at db e.row e.found (ground (arith, e.evicted))

on_deleted-some :
    (f : Faults) (acc id : String) (db : ChatDb) (r : MessageRow)
    → f.read_message ≡ false
    → row_at acc id db ≡ some r
    → (on_deleted f acc id db).0
      ≡ (if r.deleted || f.revoke then db else revoke_chat_message acc id db)
unfolding on_deleted scan_chat_message
on_deleted-some f acc id db r e found = ground (arith, get-some acc id db r found)

on_deleted-quiet :
    (f : Faults) (acc id : String) (db : ChatDb) (r : MessageRow)
    → row_at acc id db ≡ some r
    → r.deleted ≡ true
    → on_deleted f acc id db ≡ (db, [])
unfolding on_deleted scan_chat_message
on_deleted-quiet f acc id db r found gone = ground (arith, get-some acc id db r found)

on_deleted-none :
    (f : Faults) (acc id : String) (db : ChatDb)
    → row_at acc id db ≡ none
    → on_deleted f acc id db ≡ (db, [])
unfolding on_deleted
on_deleted-none f acc id db found = ground (arith, get-none acc id db found)

-- A deletion is reported once: once it has gone through, another report of it changes nothing and
-- emits nothing, whatever fails then; so too where there was no such message.
pub on_deleted_twice :
    (f g : Faults) (acc id : String) (db : ChatDb)
    → f.read_message ≡ false
    → f.revoke ≡ false
    → let db1 = (on_deleted f acc id db).0 in on_deleted g acc id db1 ≡ (db1, [])
on_deleted_twice f g acc id db e w = elim (Option-cases (row_at acc id db)) [
  | inl gone ↦
      subst (λ (d : ChatDb). on_deleted g acc id d ≡ (d, []))
        (sym (ap (λ (p : ChatDb × List Event). p.0) (on_deleted-none f acc id db gone)))
        (on_deleted-none g acc id db gone)
  | inr (r, found) ↦ elim (Bool-cases r.deleted) [
    | inl old ↦
        subst (λ (d : ChatDb). on_deleted g acc id d ≡ (d, []))
          (sym (
            on_deleted-some f acc id db r e found
            ∙ if_true (r.deleted || f.revoke) _ _ (ground arith)))
          (on_deleted-quiet g acc id db r found old)
    | inr fresh ↦
        subst (λ (d : ChatDb). on_deleted g acc id d ≡ (d, []))
          (sym (
            on_deleted-some f acc id db r e found
            ∙ if_false (r.deleted || f.revoke) _ _ (ground arith)))
          (on_deleted-quiet g acc id (revoke_chat_message acc id db) (revoked r)
            (revoke-row acc id db r found) refl)
  ]
]

apply_edit-event :
    (acc id text : String) (at : ℕ) (db : ChatDb) (r : MessageRow)
    → row_at acc id (edit_chat_message acc id text at db) ≡ some r
    → (ev : Event) × (full : ChatMessage) × ((apply_edit no_faults acc id text at db).1 ≡ ev ∷ [])
      × (ev.message ≡ some full)
      × (full.text ≡ r.text)
      × (full.deleted ≡ r.deleted)
unfolding apply_edit scan_chat_message
apply_edit-event acc id text at db r found = (
  record (event chat_updated acc) {
    message_ids = id ∷ [];
    change = "edited";
    message = some (scan_chat_message (edit_chat_message acc id text at db) r);
  },
  scan_chat_message (edit_chat_message acc id text at db) r,
  ground (arith, get-some acc id (edit_chat_message acc id text at db) r found),
  refl,
  refl,
  refl,
)

-- An edit reported after the deletion of a message undoes the erasure: with nothing failing, the
-- text of the edit is stored in the row that stays marked as deleted, and an event with that text
-- is emitted. It holds of every message whose content was not evicted and of every text but "".
pub edit_after_delete :
    (acc id text : String) (at : ℕ) (db : ChatDb) (r : MessageRow)
    → row_at acc id db ≡ some r
    → is_null r.content_evicted_at ≡ true
    → r.deleted ≡ false
    → text ≢ ""
    → let db1 = (on_deleted no_faults acc id db).0 in
      let after = on_edited no_faults acc id text at db1 in
      (row_at acc id db1 ≡ some (revoked r))
      × (row_at acc id after.0 ≡ some (edited_row text at (revoked r)))
      × ((ev : Event) × (full : ChatMessage) × (after.1 ≡ ev ∷ [])
          × (ev.message ≡ some full)
          × (full.text ≡ text)
          × (full.deleted ≡ true))
edit_after_delete acc id text at db r found kept alive filled =
    let db1 = revoke_chat_message acc id db in
    let gone = revoke-row acc id db r found in
    let first : (on_deleted no_faults acc id db).0 ≡ db1 =
      on_deleted-some no_faults acc id db r refl found
      ∙ if_false (r.deleted || false) _ _ (ground arith) in
    let there = edit-row acc id text at db1 (revoked r) gone kept in
    let second : on_edited no_faults acc id text at db1 ≡ apply_edit no_faults acc id text at db1 =
      on_edited-some no_faults acc id text at db1 (revoked r) refl gone
      ∙ if_false (skips (revoked r) text) _ _ (ground (arith, eq_iff "" text)) in
    let (ev, full, out, carried, same, marked) = apply_edit-event acc id text at db1 _ there in
    subst
      (λ (d : ChatDb).
        let after = on_edited no_faults acc id text at d in
        (row_at acc id d ≡ some (revoked r))
        × (row_at acc id after.0 ≡ some (edited_row text at (revoked r)))
        × ((ev : Event) × (full : ChatMessage) × (after.1 ≡ ev ∷ [])
            × (ev.message ≡ some full)
            × (full.text ≡ text)
            × (full.deleted ≡ true)))
      (sym first)
      (
        gone,
        ap (λ (p : ChatDb × List Event). row_at acc id p.0) second
            ∙ ap (row_at acc id) (apply_edit-db no_faults acc id text at db1 refl)
            ∙ there,
        (ev, full, ap (λ (p : ChatDb × List Event). p.1) second ∙ out, carried, same, marked),
      )
