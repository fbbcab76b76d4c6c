-- ===== src/Accounts.antt =====
-- internal/accounts/accounts.go: connected accounts and the custody of their tokens. The providers
-- are a parameter (`Backend`), so are the ids and nonces, `none` where the random source fails. A
-- time is a number of nanoseconds, each operation reads the clock once and runs alone (the lock of
-- its account), and the database answers, but for an id that is taken.
pub mod Tokens
pub mod Devices
pub mod Custody
use unified_messaging.Prelude.{
  ℕ, ◌*◌, ◌/◌, String, Char, Bool, true, false, not, ◌&&◌, ◌||◌, Option, none, some, List, [], ◌∷◌,
  ◌++◌, ◌==◌, ltb, if◌then◌else◌, Result, ok, failed,
}
use unified_messaging.Model.{Account, account_ok, account_credentials, account_kind_chat}
use unified_messaging.Secretbox.{Cipher, seal, open_sealed}
use unified_messaging.Store.Accounts.{
  AccountDb, TokenRow, Refused, upsert_account, account_id_by_email, get_any_account, save_tokens,
  get_tokens, set_account_status, save_chat_session, chat_session, delete_chat_session,
  delete_account,
}

-- `provider.Token`
pub record Token : Type 0 where
  pub access_token : String
  pub refresh_token : String
  pub scope : String
  pub expires_at : ℕ

-- What Refresh of a provider answers; ErrReauthRequired is told apart from other errors.
pub data Refreshed : Type 0 where
  refreshed : Token → Refreshed
  grant_is_dead refresh_broke : Refreshed

pub record Identity : Type 0 where
  pub identifier : String
  pub email : String
  pub name : String

-- What the manager asks of a provider.
pub record Backend : Type 0 where
  pub name : String
  pub exchange : (code verifier : String) → Option Token
  pub identify : (access_token : String) → Option Identity
  pub refresh : (refresh_token : String) → Refreshed
  -- Chat() is not nil
  pub is_chat : Bool

-- The registry of the providers, and the key that seals refresh tokens.
pub record Manager : Type 0 where
  pub registry : String → Option Backend
  pub key : Option Cipher

pub data ManagerError : Type 0 where
  not_registered exchange_failed no_refresh_token identify_failed no_address no_id : ManagerError
  store_failed not_found cannot_decrypt cannot_seal reauth_required refresh_failed : ManagerError

-- What the manager tells others: OnStatusChange, and Forget of a provider.
pub data Notice : Type 0 where
  status_changed : (account status : String) → Notice
  forgot : (provider device : String) → Notice

pub record Step (A : Type 0) : Type 0 where
  pub db : AccountDb
  pub notices : List Notice
  pub answer : Result ManagerError A

abbrev pub refuse : {A : Type 0} → ManagerError → AccountDb → Step A
refuse e db = record { db = db; notices = []; answer = failed e }

abbrev pub second : ℕ
second = 1000000000

abbrev pub token_row : String → String → Token → TokenRow
token_row acc sealed tok = record {
  account_id = acc;
  access_token = tok.access_token;
  access_expires_at = tok.expires_at / second;
  refresh_token_enc = sealed;
  scope = tok.scope;
}

abbrev pub saved : String → Token → AccountDb → Option String → Option AccountDb
saved acc tok db none = none
saved acc tok db (some sealed) = some (save_tokens (token_row acc sealed tok) db)

unfoldable pub persist :
    Manager → Option (List Char) → String → Token → AccountDb → Option AccountDb
persist m drawn acc tok db = saved acc tok db (seal m.key drawn tok.refresh_token)

abbrev pub found_account : AccountDb → Option Account → Step Account
found_account db none = refuse not_found db
found_account db (some a) = record { db = db; notices = []; answer = ok a }

abbrev pub persisted : String → AccountDb → Option AccountDb → Step Account
persisted acc db none = refuse cannot_seal db
persisted acc db (some db') = found_account db' (get_any_account acc db')

abbrev pub token_kept :
    Manager → Option (List Char) → Token → AccountDb → Option String → Step Account
token_kept m drawn tok db none = refuse not_found db
token_kept m drawn tok db (some id) = persisted id db (persist m drawn id tok db)

abbrev pub recorded :
    Manager
    → Option (List Char)
    → Token
    → String
    → String
    → AccountDb
    → Result Refused AccountDb
    → Step Account
recorded m drawn tok dev email db (failed e) = refuse store_failed db
recorded m drawn tok dev email db (ok db') =
    token_kept m drawn tok db' (account_id_by_email dev email db')

abbrev pub new_account : (id developer kind provider email name : String) → Account
new_account id dev kind provider email name = record {
  id = id;
  developer_id = dev;
  provider = provider;
  email = email;
  kind = kind;
  identifier = "";
  name = name;
  status = account_ok;
  created_at = 0;
  updated_at = 0;
  last_synced_at = none;
  connection = none;
}

-- the id that the developer's account of this address has, or else a new one
abbrev pub known_or : Option String → Option String → Option String
known_or (some id) minted = some id
known_or none minted = minted

abbrev pub record_account :
    Manager
    → ℕ
    → Option (List Char)
    → Token
    → String
    → String
    → Identity
    → AccountDb
    → Option String
    → Step Account
record_account m now drawn tok dev provider who db none = refuse no_id db
record_account m now drawn tok dev provider who db (some id) =
    recorded m drawn tok dev who.email db
      (upsert_account (now / second) (new_account id dev "" provider who.email who.name) db)

abbrev pub identified :
    Manager
    → ℕ
    → Option (List Char)
    → Option String
    → Token
    → String
    → String
    → AccountDb
    → Option Identity
    → Step Account
identified m now drawn minted tok dev provider db none = refuse identify_failed db
identified m now drawn minted tok dev provider db (some who) =
    if who.email == ""
    then refuse no_address db
    else record_account m now drawn tok dev provider who db
        (known_or (account_id_by_email dev who.email db) minted)

abbrev pub exchanged :
    Manager
    → ℕ
    → Option (List Char)
    → Option String
    → String
    → Backend
    → AccountDb
    → Option Token
    → Step Account
exchanged m now drawn minted dev p db none = refuse exchange_failed db
exchanged m now drawn minted dev p db (some tok) =
    if tok.refresh_token == ""
    then refuse no_refresh_token db
    else identified m now drawn minted tok dev p.name db (p.identify tok.access_token)

abbrev pub connect_with :
    Manager
    → ℕ
    → Option (List Char)
    → Option String
    → String
    → (code verifier : String) → AccountDb
    → Option Backend
    → Step Account
connect_with m now drawn minted dev code verifier db none = refuse not_registered db
connect_with m now drawn minted dev code verifier db (some p) =
    exchanged m now drawn minted dev p db (p.exchange code verifier)

unfoldable pub connect :
    Manager
    → ℕ
    → Option (List Char)
    → Option String
    → (developer provider code verifier : String) → AccountDb
    → Step Account
connect m now drawn minted dev provider code verifier db =
    connect_with m now drawn minted dev code verifier db (m.registry provider)
