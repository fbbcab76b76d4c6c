-- ===== src/Store/Messages/Retention.antt =====
-- What the store promises about evicted content (internal/store/chat.go and retention.go).
use mathlib.Core.Option
use unified_messaging.Prelude.{
  ℕ, String, ◌≡◌, refl, subst, ap, ◌∙◌, sym, ◌≢◌, ◌⊎◌, inl, inr, Bool, true, false, ◌==◌, some,
  List, [], ◌∷◌, arith, eq_iff, Bool-cases, if◌then◌else◌, find_row, update_rows, has_row, All,
  All-update_rows, All-delete_rows, All-insert_row, find_row-update_rows_if,
  find_row-delete_rows_ne, find_row-insert_row, find_row-has_row,
}
use unified_messaging.Model.{ChatMessage, Reaction}
use unified_messaging.Store.Tables.{ChatDb, MessageRow, is_message}
use unified_messaging.Store.Messages.{
  is_null, message_row, upsert_chat_message, rename_chat_message, delete_chat_message_row,
  set_message_status, apply_reaction, edit_chat_message, revoke_chat_message,
  evict_chat_message_content, evict_expired_messages, is_kept, is_expired, evict, on_messages,
  with_id, with_status, edited, revoked, reacted, in_batch,
}
use unified_messaging.Store.Messages.Ops.{
  MessageOp, insert, rename, delete, status, react, edit, revoke, evict_one, sweep, run_op, run_ops,
  KeepsRow,
}

-- A row whose content was evicted holds no text.
abbrev pub IsBlanked : MessageRow → Type 0
IsBlanked m = is_null m.content_evicted_at ≡ false → m.text ≡ ""

-- A rename leaves the table alone, or gives a fresh id to the rows of the old one.
rename-cases :
    (acc old new : String) (db : ChatDb)
    → ((rename_chat_message acc old new db).0 ≡ db)
      ⊎ (((old ≡ new) ⊎ (has_row (is_message acc new) db.chat_messages ≡ false))
          × ((rename_chat_message acc old new db).0
              ≡ on_messages (update_rows (is_message acc old) (with_id new)) db))
unfolding rename_chat_message
rename-cases acc old new db = ground (arith, eq_iff old new)

react-cases :
    (acc id : String) (r : Reaction) (db : ChatDb)
    → ((apply_reaction acc id r db).0 ≡ db)
      ⊎ ((apply_reaction acc id r db).0
          ≡ on_messages (update_rows (is_message acc id) (reacted r)) db)
unfolding apply_reaction
react-cases acc id r db = ground arith

abbrev pub BlankDb : ChatDb → Type 0
BlankDb db = All IsBlanked db.chat_messages

update-IsBlanked :
    (p : MessageRow → Bool) (f : MessageRow → MessageRow) (db : ChatDb)
    → ((r : MessageRow) → p r ≡ true → IsBlanked r → IsBlanked (f r))
    → BlankDb db
    → BlankDb (on_messages (update_rows p f) db)
update-IsBlanked p f db keep h = All-update_rows IsBlanked p f db.chat_messages keep h

run_op-IsBlanked : (op : MessageOp) (db : ChatDb) → BlankDb db → BlankDb (run_op op db)
unfolding run_op upsert_chat_message delete_chat_message_row set_message_status edit_chat_message
    revoke_chat_message evict_chat_message_content evict_expired_messages
run_op-IsBlanked (insert now m) db h =
    All-insert_row IsBlanked _ (message_row m now) db.chat_messages (λ e. cc) h
run_op-IsBlanked (rename acc old new) db h = elim (rename-cases acc old new db) [
  | inl e ↦ subst BlankDb (sym e) h
  | inr (_, e) ↦
      subst BlankDb (sym e) (update-IsBlanked (is_message acc old) (with_id new) db (λ r _ q. q) h)
]
run_op-IsBlanked (delete acc id) db h =
    All-delete_rows IsBlanked (is_message acc id) db.chat_messages h
run_op-IsBlanked (status acc ids s) db h =
    update-IsBlanked (in_batch acc ids) (with_status s) db (λ r _ q. q) h
run_op-IsBlanked (react acc id r) db h = elim (react-cases acc id r db) [
  | inl e ↦ subst BlankDb (sym e) h
  | inr e ↦
      subst BlankDb (sym e) (update-IsBlanked (is_message acc id) (reacted r) db (λ r _ q. q) h)
]
run_op-IsBlanked (edit acc id text at) db h =
    update-IsBlanked (is_kept acc id) (edited text at) db (λ r k q e. ground arith) h
run_op-IsBlanked (revoke acc id) db h =
    update-IsBlanked (is_message acc id) revoked db (λ r _ q e. refl) h
run_op-IsBlanked (evict_one acc id at) db h =
    update-IsBlanked (is_kept acc id) (evict at) db (λ r _ q e. refl) h
run_op-IsBlanked (sweep max_age now) db h =
    update-IsBlanked (is_expired max_age now) (evict now) db (λ r _ q e. refl) h

-- Over any sequence of store operations, every message row that is marked as evicted goes on holding
-- no text, where this is so of all rows at the start.
pub run_ops-IsBlanked : (ops : List MessageOp) (db : ChatDb) → BlankDb db → BlankDb (run_ops ops db)
unfolding run_ops
run_ops-IsBlanked [] db h = h
run_ops-IsBlanked (op ∷ ops) db h = run_ops-IsBlanked ops (run_op op db) (run_op-IsBlanked op db h)

-- The row of an id is there, was evicted at that time, and is blank.
pub record IsEvictedAt (acc id : String) (at : ℕ) (db : ChatDb) : Type 0 where
  pub row : MessageRow
  pub found : find_row (is_message acc id) db.chat_messages ≡ some row
  pub evicted : row.content_evicted_at ≡ some at
  pub blank : row.text ≡ ""

-- An UPDATE that keeps the key, and that neither dates nor fills an evicted row.
update-IsEvictedAt :
    (acc id : String) (at : ℕ) (db : ChatDb) (q : MessageRow → Bool) (f : MessageRow → MessageRow)
    → ((r : MessageRow) → is_message acc id (if q r then f r else r) ≡ is_message acc id r)
    → ((r : MessageRow)
        → r.content_evicted_at ≡ some at
        → r.text ≡ ""
        → ((if q r then f r else r).content_evicted_at ≡ some at)
          × ((if q r then f r else r).text ≡ ""))
    → IsEvictedAt acc id at db
    → IsEvictedAt acc id at (on_messages (update_rows q f) db)
update-IsEvictedAt acc id at db q f key still e = record {
  row = if q e.row then f e.row else e.row;
  found =
      find_row-update_rows_if (is_message acc id) q f db.chat_messages key
      ∙ ap (Option.map (λ r. if q r then f r else r)) e.found;
  evicted = (still e.row e.evicted e.blank).0;
  blank = (still e.row e.evicted e.blank).1;
}

insert-IsEvictedAt :
    (acc id : String) (at : ℕ) (db : ChatDb) (now : ℕ) (m : ChatMessage)
    → IsEvictedAt acc id at db
    → IsEvictedAt acc id at (upsert_chat_message now m db).0
unfolding upsert_chat_message
insert-IsEvictedAt acc id at db now m e = record {
  row = e.row;
  found =
      find_row-insert_row (is_message acc id) (is_message m.account_id m.id) (message_row m now)
        db.chat_messages e.found;
  evicted = e.evicted;
  blank = e.blank;
}

is_message_apart :
    (acc id a i : String) (r : MessageRow)
    → (acc ≢ a) ⊎ (id ≢ i)
    → is_message acc id r ≡ true
    → is_message a i r ≡ false
is_message_apart acc id a i r other k =
    ground (arith, eq_iff r.account_id acc, eq_iff r.id id, eq_iff r.account_id a, eq_iff r.id i)

delete-IsEvictedAt :
    (acc id a i : String) (at : ℕ) (db : ChatDb)
    → (acc ≢ a) ⊎ (id ≢ i)
    → IsEvictedAt acc id at db
    → IsEvictedAt acc id at (delete_chat_message_row a i db)
unfolding delete_chat_message_row
delete-IsEvictedAt acc id a i at db other e = record {
  row = e.row;
  found =
      find_row-delete_rows_ne (is_message acc id) (is_message a i) db.chat_messages
        (λ r k. is_message_apart acc id a i r other k)
      ∙ e.found;
  evicted = e.evicted;
  blank = e.blank;
}

rename_key :
    (acc id a old new : String) (r : MessageRow)
    → (acc ≢ a) ⊎ (id ≢ old)
    → ((acc ≢ a) ⊎ (id ≢ new))
    → is_message acc id (if is_message a old r then with_id new r else r) ≡ is_message acc id r
rename_key acc id a old new r h k = ground (
  arith,
  eq_iff r.account_id acc,
  eq_iff r.id id,
  eq_iff new id,
  eq_iff r.account_id a,
  eq_iff r.id old,
)

fresh_clash :
    (acc id a old new : String) (at : ℕ) (db : ChatDb)
    → ((old ≡ new) ⊎ (has_row (is_message a new) db.chat_messages ≡ false))
    → (acc ≢ a) ⊎ (id ≢ old)
    → IsEvictedAt acc id at db
    → acc ≡ a
    → id ≡ new
    → ⊥
fresh_clash acc id a old new at db (inl e) (inl n) v p q = n p
fresh_clash acc id a old new at db (inl e) (inr n) v p q = n (q ∙ sym e)
fresh_clash acc id a old new at db (inr e) other v p q =
    let there : has_row (is_message a new) db.chat_messages ≡ true =
      subst (λ (x : String). has_row (is_message x new) db.chat_messages ≡ true) p
        (subst (λ (y : String). has_row (is_message acc y) db.chat_messages ≡ true) q
          (find_row-has_row (is_message acc id) db.chat_messages {r = v.row} v.found)) in
    cc (e, there)

fresh_id :
    (acc id a old new : String) (at : ℕ) (db : ChatDb)
    → ((old ≡ new) ⊎ (has_row (is_message a new) db.chat_messages ≡ false))
    → (acc ≢ a) ⊎ (id ≢ old)
    → IsEvictedAt acc id at db
    → (acc ≢ a) ⊎ (id ≢ new)
fresh_id acc id a old new at db fresh other e = elim (Bool-cases (acc == a)) [
  | inr far ↦ inl (λ q. ground (arith, eq_iff acc a))
  | inl near ↦ inr (λ q. fresh_clash acc id a old new at db fresh other e ((eq_iff acc a).0 near) q)
]

rename-IsEvictedAt :
    (acc id a old new : String) (at : ℕ) (db : ChatDb)
    → (acc ≢ a) ⊎ (id ≢ old)
    → IsEvictedAt acc id at db
    → IsEvictedAt acc id at (rename_chat_message a old new db).0
rename-IsEvictedAt acc id a old new at db other e = elim (rename-cases a old new db) [
  | inl same ↦ subst (IsEvictedAt acc id at) (sym same) e
  | inr (fresh, moved) ↦ subst (IsEvictedAt acc id at) (sym moved) (
      update-IsEvictedAt acc id at db (is_message a old) (with_id new)
        (λ r. rename_key acc id a old new r other (fresh_id acc id a old new at db fresh other e))
        (λ r t b. ground arith) e)
]

plain-IsEvictedAt :
    (acc id : String) (at : ℕ) (op : MessageOp) (db : ChatDb)
    → KeepsRow acc id op
    → IsEvictedAt acc id at db
    → IsEvictedAt acc id at (run_op op db)
unfolding run_op set_message_status edit_chat_message revoke_chat_message evict_chat_message_content
    evict_expired_messages is_expired
plain-IsEvictedAt acc id at (insert now m) db k e = insert-IsEvictedAt acc id at db now m e
plain-IsEvictedAt acc id at (rename a old new) db k e =
    rename-IsEvictedAt acc id a old new at db k e
plain-IsEvictedAt acc id at (delete a i) db k e = delete-IsEvictedAt acc id a i at db k e
plain-IsEvictedAt acc id at (status a ids s) db k e =
    update-IsEvictedAt acc id at db (in_batch a ids) (with_status s) (λ r. ground arith)
      (λ r t b. ground arith) e
plain-IsEvictedAt acc id at (react a i r) db k e = elim (react-cases a i r db) [
  | inl same ↦ subst (IsEvictedAt acc id at) (sym same) e
  | inr merged ↦ subst (IsEvictedAt acc id at) (sym merged) (
      update-IsEvictedAt acc id at db (is_message a i) (reacted r) (λ r. ground arith)
        (λ r t b. ground arith) e)
]
plain-IsEvictedAt acc id at (edit a i text t) db k e =
    update-IsEvictedAt acc id at db (is_kept a i) (edited text t) (λ r. ground arith)
      (λ r t b. ground arith) e
plain-IsEvictedAt acc id at (revoke a i) db k e =
    update-IsEvictedAt acc id at db (is_message a i) revoked (λ r. ground arith)
      (λ r t b. ground arith) e
plain-IsEvictedAt acc id at (evict_one a i t) db k e =
    update-IsEvictedAt acc id at db (is_kept a i) (evict t) (λ r. ground arith)
      (λ r t b. ground arith) e
plain-IsEvictedAt acc id at (sweep max_age now) db k e =
    update-IsEvictedAt acc id at db (is_expired max_age now) (evict now) (λ r. ground arith)
      (λ r t b. ground arith) e

-- An evicted message stays evicted, blank and dated as it was, whatever the store does to it short
-- of deleting its row or giving it another id: no replay, edit, reaction, receipt, revocation or
-- later sweep brings its text back or moves its eviction time.
pub run_ops-IsEvictedAt :
    (acc id : String) (at : ℕ) (ops : List MessageOp) (db : ChatDb)
    → All (KeepsRow acc id) ops
    → IsEvictedAt acc id at db
    → IsEvictedAt acc id at (run_ops ops db)
unfolding run_ops
run_ops-IsEvictedAt acc id at [] db k e = e
run_ops-IsEvictedAt acc id at (op ∷ ops) db k e =
    run_ops-IsEvictedAt acc id at ops (run_op op db) k.1 (plain-IsEvictedAt acc id at op db k.0 e)
