-- ===== src/Accounts/Tokens.antt =====
-- internal/accounts/accounts.go: a valid access token for an account, cached or refreshed.
pub mod Refresh
use unified_messaging.Prelude.{
  ℕ, ◌*◌, ◌/◌, String, Char, Bool, true, false, not, ◌&&◌, Option, none, some, List, [], ◌∷◌, ◌++◌,
  ◌==◌, ltb, if◌then◌else◌, Result, ok, failed,
}
use unified_messaging.Model.{Account, account_credentials}
use unified_messaging.Secretbox.{open_sealed}
use unified_messaging.Store.Accounts.{
  AccountDb, TokenRow, get_any_account, get_tokens, set_account_status,
}
use unified_messaging.Accounts.{
  Manager, Backend, Token, Refreshed, refreshed, grant_is_dead, refresh_broke, ManagerError, Notice,
  status_changed, Step, refuse, persist, second, not_found, not_registered, cannot_decrypt,
  cannot_seal, reauth_required, refresh_failed,
}

-- the status of the account, and the word to whoever watches it
unfoldable pub mark_credentials : ℕ → String → AccountDb → AccountDb × List Notice
mark_credentials now acc db = (
  set_account_status (now / second) acc account_credentials db,
  status_changed acc account_credentials ∷ [],
)

-- `!force && rec.AccessToken != "" && time.Now().Before(rec.AccessExpiresAt)`
abbrev pub is_cached : ℕ → Bool → TokenRow → Bool
is_cached now force t =
    not force && not (t.access_token == "") && ltb now (t.access_expires_at * second)

abbrev pub dead_grant : ℕ → String → AccountDb → Step String
dead_grant now acc db = record {
  db = (mark_credentials now acc db).0;
  notices = (mark_credentials now acc db).1;
  answer = failed reauth_required;
}

-- a refresh that leaves the refresh token out keeps the one that is held
abbrev pub rotated : String → Token → Token
rotated held tok = if tok.refresh_token == "" then record tok { refresh_token = held } else tok

abbrev pub handed_out : Token → AccountDb → Option AccountDb → Step String
handed_out tok db none = refuse cannot_seal db
handed_out tok db (some db') = record { db = db'; notices = []; answer = ok tok.access_token }

abbrev pub redeemed :
    Manager → ℕ → Option (List Char) → String → String → AccountDb → Refreshed → Step String
redeemed m now drawn acc held db (refreshed tok) =
    handed_out tok db (persist m drawn acc (rotated held tok) db)
redeemed m now drawn acc held db grant_is_dead = dead_grant now acc db
redeemed m now drawn acc held db refresh_broke = refuse refresh_failed db

abbrev pub decrypted :
    Manager → ℕ → Option (List Char) → String → Backend → AccountDb → Option String → Step String
decrypted m now drawn acc p db none = refuse cannot_decrypt db
decrypted m now drawn acc p db (some held) = redeemed m now drawn acc held db (p.refresh held)

abbrev pub looked_up :
    Manager → ℕ → Option (List Char) → String → TokenRow → AccountDb → Option Backend → Step String
looked_up m now drawn acc t db none = refuse not_registered db
looked_up m now drawn acc t db (some p) =
    decrypted m now drawn acc p db (open_sealed m.key t.refresh_token_enc)

abbrev pub refreshing :
    Manager → ℕ → Option (List Char) → String → TokenRow → AccountDb → Option Account → Step String
refreshing m now drawn acc t db none = refuse not_found db
refreshing m now drawn acc t db (some a) = looked_up m now drawn acc t db (m.registry a.provider)

abbrev pub token_of :
    Manager → ℕ → Option (List Char) → Bool → String → AccountDb → Option TokenRow → Step String
token_of m now drawn force acc db none = refuse not_found db
token_of m now drawn force acc db (some t) =
    if is_cached now force t
    then record { db = db; notices = []; answer = ok t.access_token }
    else refreshing m now drawn acc t db (get_any_account acc db)

-- `AccessToken`
unfoldable pub access_token :
    Manager → ℕ → Option (List Char) → Bool → String → AccountDb → Step String
access_token m now drawn force acc db = token_of m now drawn force acc db (get_tokens acc db)
