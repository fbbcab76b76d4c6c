-- ===== src/Accounts/Devices.antt =====
-- internal/accounts/accounts.go: the accounts of linked devices.
use unified_messaging.Prelude.{
  ℕ, ◌/◌, String, Bool, true, false, Option, none, some, List, [], ◌∷◌, ◌++◌, ◌==◌, if◌then◌else◌,
  Result, ok, failed,
}
use unified_messaging.Model.{Account, account_kind_chat}
use unified_messaging.Store.Accounts.{
  AccountDb, Refused, upsert_account, account_id_by_email, get_any_account, save_chat_session,
  chat_session, delete_chat_session, delete_account,
}
use unified_messaging.Accounts.{
  Manager, Backend, Identity, Notice, forgot, Step, refuse, new_account, known_or, found_account,
  second, not_found, no_address, no_id, store_failed,
}
use unified_messaging.Accounts.Tokens.{mark_credentials}

abbrev pub forget_with : String → String → Option Backend → List Notice
forget_with provider jid none = []
forget_with provider jid (some p) = if p.is_chat then forgot provider jid ∷ [] else []

-- a provider that is not registered, or has no chat, is told nothing
unfoldable pub forget : Manager → String → String → List Notice
forget m provider jid = forget_with provider jid (m.registry provider)

abbrev pub forget_session : Manager → String → Option String → List Notice
forget_session m provider none = []
forget_session m provider (some jid) = forget m provider jid

-- the device that a relink replaces, unless it is the same one
abbrev pub forget_old : Manager → String → String → Bool → Option String → List Notice
forget_old m provider jid true (some old) = if old == jid then [] else forget m provider old
forget_old m provider jid true none = []
forget_old m provider jid false old = []

abbrev pub is_some : Option String → Bool
is_some none = false
is_some (some id) = true

abbrev pub with_notices : List Notice → Step Account → Step Account
with_notices notices s = record s { notices = notices ++ s.notices }

abbrev pub linked_as :
    Manager → ℕ → Bool → String → String → AccountDb → Option String → Step Account
linked_as m now relink provider jid db none = refuse not_found db
linked_as m now relink provider jid db (some id) =
    let db' = save_chat_session (now / second) id provider jid db in
    with_notices (forget_old m provider jid relink (chat_session id db))
      (found_account db' (get_any_account id db'))

abbrev pub stored_link :
    Manager
    → ℕ
    → Bool
    → String
    → String
    → Identity
    → String
    → AccountDb
    → Result Refused AccountDb
    → Step Account
stored_link m now relink dev provider who jid db (failed e) = refuse store_failed db
stored_link m now relink dev provider who jid db (ok db') =
    linked_as m now relink provider jid db' (account_id_by_email dev who.identifier db')

abbrev pub link_account :
    Manager
    → ℕ
    → Bool
    → String
    → String
    → Identity
    → String
    → AccountDb
    → Option String
    → Step Account
link_account m now relink dev provider who jid db none = refuse no_id db
link_account m now relink dev provider who jid db (some id) =
    stored_link m now relink dev provider who jid db (
      upsert_account (now / second)
        (new_account id dev account_kind_chat provider who.identifier who.name) db)

unfoldable pub connect_linked :
    Manager → ℕ → Option String → String → String → Identity → String → AccountDb → Step Account
connect_linked m now minted dev provider who jid db =
    if who.identifier == ""
    then refuse no_address db
    else let known = account_id_by_email dev who.identifier db in
      link_account m now (is_some known) dev provider who jid db (known_or known minted)

unfoldable pub device_jid : String → AccountDb → Option String
device_jid acc db = chat_session acc db

abbrev pub unlinked : Manager → String → AccountDb → Option Account → AccountDb × List Notice
unlinked m acc db none = (db, [])
unlinked m acc db (some a) = (
  delete_account acc (delete_chat_session acc db),
  forget_session m a.provider (chat_session acc db),
)

-- an account that is not there is ErrNotFound, and nothing is done
unfoldable pub delete_linked : Manager → String → AccountDb → AccountDb × List Notice
delete_linked m acc db = unlinked m acc db (get_any_account acc db)

abbrev pub logged_out : Manager → ℕ → String → AccountDb → Option Account → AccountDb × List Notice
logged_out m now acc db none = (db, [])
logged_out m now acc db (some a) =
    let marked = mark_credentials now acc (delete_chat_session acc db) in
    (marked.0, forget_session m a.provider (chat_session acc db) ++ marked.1)

unfoldable pub mark_logged_out : Manager → ℕ → String → AccountDb → AccountDb × List Notice
mark_logged_out m now acc db = logged_out m now acc db (get_any_account acc db)
