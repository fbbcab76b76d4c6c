-- ===== src/Examples/Sync.antt =====
-- A mailbox with one message, a connect attempt with two browsers, and an idempotency key.
use unified_messaging.Prelude.{
  ◌≡◌, ◌≢◌, refl, inr, true, false, none, List, [], ◌∷◌, ◌==◌, if◌then◌else◌, All, ne_of_test,
}
use unified_messaging.Syncer.Scope.{
  MailScope, Changes, changes, cursor_expired, Mailbox, SyncDb, Trouble, apply_changes, sync_scope,
  get_cursor,
}
use unified_messaging.Syncer.Scope.Quiet.{sync_scope-quiet}
use unified_messaging.Syncer.Scope.Cursor.{apply_changes-cursor}
use unified_messaging.Store.OAuth.{OAuthState, no_state, take_oauth_state}
use unified_messaging.Store.OAuth.Single.{
  OAuthOp, save, consent, claim, SavesOther, run_oauth_ops, take_once,
}
use unified_messaging.Store.Idempotency.{reserve_idempotency}
use unified_messaging.Store.Idempotency.Exclusive.{
  KeyOp, put, reserve, release, run_key_ops, reserve_once,
}
use unified_messaging.Examples.Mail.{mail, cached_row}

abbrev inbox : MailScope
inbox = record { id = "inbox"; name = "Inbox"; role = "inbox" }

abbrev page : Changes
page = record { changed = mail ∷ []; removed = "e9" ∷ []; cursor = "c2" }

-- a cursor that is not empty has expired
abbrev mailbox : Mailbox
mailbox = record {
  sync_messages = λ cursor. if cursor == "" then changes page else cursor_expired;
  list_attachments = λ id. none;
}

abbrev no_trouble : Trouble
no_trouble = record {
  cursor = false;
  exists = λ id. false;
  upsert = λ id. false;
  delete = λ id. false;
  save = false;
}

abbrev synced_db : SyncDb
synced_db = record {
  mail = cached_row ∷ [];
  cursors = record { account_id = "acc1"; scope_id = "inbox"; cursor = "c1" } ∷ [];
}

abbrev new_db : SyncDb
new_db = record { mail = []; cursors = [] }

quiet_example : (sync_scope mailbox no_trouble 900 "acc1" inbox false synced_db).events ≡ []
unfolding get_cursor
quiet_example =
    sync_scope-quiet mailbox no_trouble 900 "acc1" inbox false synced_db (inr (inr refl))

cursor_example :
    let p = apply_changes mailbox no_trouble 900 "acc1" inbox false page synced_db in
    (p.ok ≡ false → p.db.cursors ≡ synced_db.cursors)
    × (p.ok ≡ true → page.cursor ≢ "" → get_cursor "acc1" "inbox" p.db ≡ "c2")
    × (page.cursor ≡ "" → p.db.cursors ≡ synced_db.cursors)
cursor_example = apply_changes-cursor mailbox no_trouble 900 "acc1" inbox false page synced_db

abbrev attempt_row : OAuthState
attempt_row = record {
  state = "s1";
  developer_id = "dev1";
  provider = "OUTLOOK";
  verifier = "v";
  success_url = "https://ok";
  failure_url = "https://no";
  notify_url = "";
  webhook_json = "";
  expires_at = 5000;
  consented_at = none;
  browser_hash = "";
}

abbrev second_attempt : OAuthState
second_attempt = record attempt_row { state = "s2" }

abbrev oauth_ops : List OAuthOp
oauth_ops = consent "s1" 1000 ∷ save second_attempt ∷ claim "s1" "h2" ∷ []

ops-SavesOther : All (SavesOther "s1") oauth_ops
ops-SavesOther = (tt, (ne_of_test "s2" "s1" refl, (tt, tt)))

take_example :
    (take_oauth_state 1200 "s1"
      (run_oauth_ops oauth_ops (take_oauth_state 1100 "s1" (attempt_row ∷ [])).0)).1
    ≡ no_state
take_example = take_once 1100 1200 "s1" oauth_ops (attempt_row ∷ []) ops-SavesOther

abbrev key_ops : List KeyOp
key_ops = put "dev1" "k1" "{}" 20 ∷ release "dev1" "k2" ∷ reserve "dev2" "k1" 30 ∷ []

reserve_example :
    (reserve_idempotency "dev1" "k1" 40
      (run_key_ops key_ops (reserve_idempotency "dev1" "k1" 10 []).0)).1
    ≡ false
reserve_example =
    reserve_once "dev1" "k1" 10 40 key_ops [] (tt, (inr (ne_of_test "k1" "k2" refl), (tt, tt)))
