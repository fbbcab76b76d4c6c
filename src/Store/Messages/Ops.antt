-- ===== src/Store/Messages/Ops.antt =====
-- The statements of internal/store that change chat_messages, as one type, and runs of them.
use unified_messaging.Prelude.{ℕ, String, ◌≢◌, ◌⊎◌, List, [], ◌∷◌}
use unified_messaging.Model.{Reaction, ChatMessage}
use unified_messaging.Store.Tables.{ChatDb}
use unified_messaging.Store.Messages.{
  upsert_chat_message, rename_chat_message, delete_chat_message_row, set_message_status,
  apply_reaction, edit_chat_message, revoke_chat_message, evict_chat_message_content,
  evict_expired_messages,
}

pub data MessageOp : Type 0 where
  insert : (now : ℕ) → ChatMessage → MessageOp
  rename : (account old new : String) → MessageOp
  delete : (account id : String) → MessageOp
  status : (account : String) → List String → String → MessageOp
  react : (account id : String) → Reaction → MessageOp
  edit : (account id text : String) → ℕ → MessageOp
  revoke : (account id : String) → MessageOp
  evict_one : (account id : String) → ℕ → MessageOp
  sweep : (String → ℕ) → ℕ → MessageOp

unfoldable pub run_op : MessageOp → ChatDb → ChatDb
run_op (insert now m) db = (upsert_chat_message now m db).0
run_op (rename acc old new) db = (rename_chat_message acc old new db).0
run_op (delete acc id) db = delete_chat_message_row acc id db
run_op (status acc ids s) db = set_message_status acc ids s db
run_op (react acc id r) db = (apply_reaction acc id r db).0
run_op (edit acc id text at) db = edit_chat_message acc id text at db
run_op (revoke acc id) db = revoke_chat_message acc id db
run_op (evict_one acc id at) db = evict_chat_message_content acc id at db
run_op (sweep max_age now) db = evict_expired_messages max_age now db

unfoldable pub run_ops : List MessageOp → ChatDb → ChatDb
run_ops [] db = db
run_ops (op ∷ ops) db = run_ops ops (run_op op db)

-- The operation neither deletes the row of the id nor gives it another id.
abbrev pub KeepsRow : String → String → MessageOp → Type 0
KeepsRow acc id (delete a i) = (acc ≢ a) ⊎ (id ≢ i)
KeepsRow acc id (rename a old new) = (acc ≢ a) ⊎ (id ≢ old)
KeepsRow acc id _ = Unit
