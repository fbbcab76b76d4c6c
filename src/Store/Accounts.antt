-- ===== src/Store/Accounts.antt =====
-- internal/store: the accounts, their tokens, linked devices, folders and push subscriptions. The
-- rows of an account that is deleted go with it (ON DELETE CASCADE). Times are whole seconds.
pub mod Reconnect
use mathlib.Core.Option
use unified_messaging.Prelude.{
  ℕ, String, Bool, true, false, not, ◌&&◌, ◌||◌, Option, none, some, List, [], ◌∷◌, ◌++◌, ◌==◌, leb,
  if◌then◌else◌, find_row, select_rows, update_rows, delete_rows, has_row, upsert_row, Result, ok,
  failed,
}
use unified_messaging.Model.{Account, Folder, account_ok, account_kind_mail, account_kind_chat}

pub record TokenRow : Type 0 where
  pub account_id : String
  pub access_token : String
  pub access_expires_at : ℕ
  pub refresh_token_enc : String
  pub scope : String

pub record ChatSessionRow : Type 0 where
  pub account_id : String
  pub provider : String
  pub device_jid : String
  pub updated_at : ℕ

pub record Subscription : Type 0 where
  pub id : String
  pub account_id : String
  pub resource : String
  pub client_state : String
  pub expires_at : ℕ
  pub created_at : ℕ

pub record AccountDb : Type 0 where
  pub accounts : List Account
  pub tokens : List TokenRow
  pub chat_sessions : List ChatSessionRow
  pub folders : List Folder
  pub subscriptions : List Subscription

-- The primary key refuses an account.
pub data Refused : Type 0 where
  refused : Refused

abbrev pub is_owned_by : String → String → Account → Bool
is_owned_by dev email a = a.developer_id == dev && a.email == email

abbrev pub is_account : String → Account → Bool
is_account id a = a.id == id

abbrev pub reconnected : ℕ → Account → Account → Account
reconnected now new a = record a { name = new.name; status = new.status; updated_at = now }

abbrev pub account_row : ℕ → Account → Account
account_row now a = record a {
  kind = if a.kind == "" then account_kind_mail else a.kind;
  identifier = a.email;
  created_at = now;
  updated_at = now;
  last_synced_at = none;
  connection = none;
}

-- ON CONFLICT(developer_id, email) DO UPDATE
unfoldable pub upsert_account : ℕ → Account → AccountDb → Result Refused AccountDb
upsert_account now a db =
    if has_row (is_owned_by a.developer_id a.email) db.accounts
    then ok (record db {
      accounts = update_rows (is_owned_by a.developer_id a.email) (reconnected now a) db.accounts;
    })
    else if has_row (is_account a.id) db.accounts
    then failed refused
    else ok (record db { accounts = db.accounts ++ account_row now a ∷ [] })

abbrev pub id_of : Option Account → Option String
id_of none = none
id_of (some a) = some a.id

unfoldable pub account_id_by_email : String → String → AccountDb → Option String
account_id_by_email dev email db = id_of (find_row (is_owned_by dev email) db.accounts)

-- an account of another developer reads as ErrNotFound
unfoldable pub get_account : String → String → AccountDb → Option Account
get_account dev id db = find_row (λ (a : Account). a.developer_id == dev && a.id == id) db.accounts

unfoldable pub get_any_account : String → AccountDb → Option Account
get_any_account id db = find_row (is_account id) db.accounts

abbrev insert_by_created : Account → List Account → List Account
insert_by_created a [] = a ∷ []
insert_by_created a (x ∷ xs) =
    let rest = insert_by_created a xs in
    if leb a.created_at x.created_at then a ∷ x ∷ xs else x ∷ rest

-- ORDER BY created_at
abbrev sort_by_created : List Account → List Account
sort_by_created [] = []
sort_by_created (a ∷ rest) = insert_by_created a (sort_by_created rest)

unfoldable pub list_accounts : String → AccountDb → List Account
list_accounts dev db =
    sort_by_created (select_rows (λ (a : Account). a.developer_id == dev) db.accounts)

unfoldable pub list_all_accounts : AccountDb → List Account
list_all_accounts db = sort_by_created db.accounts

unfoldable pub list_chat_accounts : AccountDb → List Account
list_chat_accounts db = sort_by_created (
    select_rows (λ (a : Account). a.kind == account_kind_chat && a.status == account_ok)
      db.accounts)

abbrev pub with_status : ℕ → String → Account → Account
with_status now status a = record a { status = status; updated_at = now }

unfoldable pub set_account_status : ℕ → String → String → AccountDb → AccountDb
set_account_status now id status db = record db {
  accounts = update_rows (is_account id) (with_status now status) db.accounts;
}

unfoldable pub mark_synced : ℕ → String → AccountDb → AccountDb
mark_synced now id db = record db {
  accounts =
      update_rows (is_account id) (λ (a : Account). record a { last_synced_at = some now })
        db.accounts;
}

unfoldable pub delete_account : String → AccountDb → AccountDb
delete_account id db = record db {
  accounts = delete_rows (is_account id) db.accounts;
  tokens = delete_rows (λ (t : TokenRow). t.account_id == id) db.tokens;
  chat_sessions = delete_rows (λ (s : ChatSessionRow). s.account_id == id) db.chat_sessions;
  folders = delete_rows (λ (f : Folder). f.account_id == id) db.folders;
  subscriptions = delete_rows (λ (s : Subscription). s.account_id == id) db.subscriptions;
}

abbrev pub is_token_of : String → TokenRow → Bool
is_token_of acc t = t.account_id == acc

abbrev pub retokened : TokenRow → TokenRow → TokenRow
retokened new t = record t {
  access_token = new.access_token;
  access_expires_at = new.access_expires_at;
  refresh_token_enc = new.refresh_token_enc;
  scope = new.scope;
}

unfoldable pub save_tokens : TokenRow → AccountDb → AccountDb
save_tokens t db = record db {
  tokens = upsert_row (is_token_of t.account_id) (retokened t) t db.tokens;
}

unfoldable pub get_tokens : String → AccountDb → Option TokenRow
get_tokens acc db = find_row (is_token_of acc) db.tokens

abbrev pub is_session_of : String → ChatSessionRow → Bool
is_session_of acc s = s.account_id == acc

abbrev pub relinked : ChatSessionRow → ChatSessionRow → ChatSessionRow
relinked new s = record s {
  provider = new.provider;
  device_jid = new.device_jid;
  updated_at = new.updated_at;
}

unfoldable pub save_chat_session : ℕ → String → String → String → AccountDb → AccountDb
save_chat_session now acc provider jid db =
    let row : ChatSessionRow = record {
      account_id = acc;
      provider = provider;
      device_jid = jid;
      updated_at = now;
    } in
    record db { chat_sessions = upsert_row (is_session_of acc) (relinked row) row db.chat_sessions }

unfoldable pub chat_session : String → AccountDb → Option String
chat_session acc db =
    Option.map (λ (s : ChatSessionRow). s.device_jid)
      (find_row (is_session_of acc) db.chat_sessions)

unfoldable pub delete_chat_session : String → AccountDb → AccountDb
delete_chat_session acc db = record db {
  chat_sessions = delete_rows (is_session_of acc) db.chat_sessions;
}
