-- ===== src/Syncer/Account.antt =====
-- internal/syncer/syncer.go: one sync of an account: the list of its scopes, with the folder table,
-- and the walk over them. The provider's answers are parameters (`AccountBox`).
pub mod Folders
pub mod Walk
use Prim.Native.String.{compare}
use text.Mathlib.Text.{is_le}
use unified_messaging.Prelude.{
  ℕ, String, Bool, true, false, not, ◌&&◌, ◌||◌, Option, none, some, List, [], ◌∷◌, ◌++◌, ◌==◌,
  if◌then◌else◌, select_rows, delete_rows, has_row, upsert_row,
}
use unified_messaging.Model.{Account, Event, Folder, account_ok}
use unified_messaging.Store.Accounts.{AccountDb, get_any_account, mark_synced}
use unified_messaging.Syncer.Scope.{
  MailScope, Round, changes, cursor_expired, round_failed, grant_dead, Mailbox, SyncDb, Trouble,
  Progress, get_cursor, set_cursor, sync_scope,
}

-- internal/store/store.go: the folders
abbrev pub is_folder : String → String → Folder → Bool
is_folder acc id f = f.account_id == acc && f.id == id

abbrev pub refreshed_folder : Folder → Folder → Folder
refreshed_folder new f = record f {
  name = new.name;
  parent_id = new.parent_id;
  role = new.role;
  total_count = new.total_count;
  unread_count = new.unread_count;
}

unfoldable pub upsert_folder : Folder → List Folder → List Folder
upsert_folder f rows = upsert_row (is_folder f.account_id f.id) (refreshed_folder f) f rows

abbrev pub insert_by_name : Folder → List Folder → List Folder
insert_by_name f [] = f ∷ []
insert_by_name f (g ∷ gs) =
    let rest = insert_by_name f gs in if is_le (compare f.name g.name) then f ∷ g ∷ gs else g ∷ rest

abbrev pub sort_by_name : List Folder → List Folder
sort_by_name [] = []
sort_by_name (f ∷ fs) = insert_by_name f (sort_by_name fs)

-- ORDER BY name, by bytes
unfoldable pub list_folders : String → List Folder → List Folder
list_folders acc rows = sort_by_name (select_rows (λ (f : Folder). f.account_id == acc) rows)

unfoldable pub delete_folder : String → String → List Folder → List Folder
delete_folder acc id rows = delete_rows (is_folder acc id) rows

-- `provider.ScopeSet`; RemovedFolders is not read.
pub record ScopeSet : Type 0 where
  pub scopes : List MailScope
  pub folders : List Folder
  pub cursor : String

-- What SyncScopes answers.
pub data Listing : Type 0 where
  listed : ScopeSet → Listing
  listing_expired listing_dead listing_failed : Listing

-- The provider, for one account, with the calls of the store that fail in each scope.
pub record AccountBox : Type 0 where
  pub sync_scopes : (cursor : String) → Listing
  pub mailbox : MailScope → Mailbox
  pub trouble : MailScope → Trouble

-- The mail and the cursors, and the accounts and the folders.
pub record RunDb : Type 0 where
  pub sync : SyncDb
  pub accounts : AccountDb

-- the reserved scope of the cursor of the listing itself
abbrev pub scope_list_cursor_key : String
scope_list_cursor_key = "__scopes__"

-- the folders of the listing are put in the table
unfoldable pub upsert_folders : List Folder → List Folder → List Folder
upsert_folders [] rows = rows
upsert_folders (f ∷ fs) rows = upsert_folders fs (upsert_folder f rows)

abbrev pub is_live : List Folder → String → Bool
is_live live id = has_row (λ (f : Folder). f.id == id) live

-- the folders that were known and are not in the listing are taken out
unfoldable pub delete_gone : String → List Folder → List Folder → List Folder → List Folder
delete_gone acc live [] rows = rows
delete_gone acc live (f ∷ known) rows =
    let kept = delete_gone acc live known rows in
    let cut = delete_gone acc live known (delete_folder acc f.id rows) in
    if is_live live f.id then kept else cut

unfoldable pub reconcile_folders : String → List Folder → List Folder → List Folder
reconcile_folders acc live rows =
    delete_gone acc live (list_folders acc rows) (upsert_folders live rows)

abbrev pub with_folders : List Folder → RunDb → RunDb
with_folders folders db = record db { accounts = record db.accounts { folders = folders } }

abbrev pub saved_listing : String → String → RunDb → RunDb
saved_listing acc cursor db =
    if cursor == ""
    then db
    else record db { sync = set_cursor acc scope_list_cursor_key cursor db.sync }

-- How the listing ends: the scopes to walk, or an error, ErrReauthRequired being told apart.
pub data Listed : Type 0 where
  scopes_of : List MailScope → Listed
  listed_dead listed_failed : Listed

abbrev pub store_listing : String → Listing → RunDb → RunDb × Listed
store_listing acc (listed set) db = (
  saved_listing acc set.cursor
      (with_folders (reconcile_folders acc set.folders db.accounts.folders) db),
  scopes_of set.scopes,
)
store_listing acc listing_dead db = (db, listed_dead)
store_listing acc listing_expired db = (db, listed_failed)
store_listing acc listing_failed db = (db, listed_failed)

abbrev pub relist : AccountBox → Listing → Listing
relist box listing_expired = box.sync_scopes ""
relist box (listed set) = listed set
relist box listing_dead = listing_dead
relist box listing_failed = listing_failed

-- `syncScopes`: an expired cursor is a listing from the start
unfoldable pub sync_scopes : AccountBox → String → RunDb → RunDb × Listed
sync_scopes box acc db =
    store_listing acc (relist box (box.sync_scopes (get_cursor acc scope_list_cursor_key db.sync)))
      db

abbrev pub is_dead : Round → Bool
is_dead grant_dead = true
is_dead (changes c) = false
is_dead cursor_expired = false
is_dead round_failed = false

abbrev pub answered : Mailbox → Round → Round
answered mailbox cursor_expired = mailbox.sync_messages ""
answered mailbox (changes c) = changes c
answered mailbox round_failed = round_failed
answered mailbox grant_dead = grant_dead

-- The error of the scope is ErrReauthRequired.
unfoldable pub is_reauth : AccountBox → String → MailScope → SyncDb → Bool
is_reauth box acc scope db =
    not (box.trouble scope).cursor
    && is_dead (
        answered (box.mailbox scope)
          ((box.mailbox scope).sync_messages (get_cursor acc scope.id db)))

-- The walk over the scopes: the database, the events, and whether it came to its end.
pub record Walked : Type 0 where
  pub db : SyncDb
  pub events : List Event
  pub finished : Bool

abbrev pub walking : List Event → Walked → Walked
walking events w = record w { events = events ++ w.events }

-- An error of one scope does not stop the others, unless the grant is dead.
unfoldable pub walk_scopes : AccountBox → ℕ → String → Bool → List MailScope → SyncDb → Walked
walk_scopes box now acc first_run [] db = record { db = db; events = []; finished = true }
walk_scopes box now acc first_run (scope ∷ scopes) db =
    let p = sync_scope (box.mailbox scope) (box.trouble scope) now acc scope first_run db in
    let rest = walk_scopes box now acc first_run scopes p.db in
    if is_reauth box acc scope db
    then record { db = p.db; events = p.events; finished = false }
    else walking p.events rest

-- How a sync ends: with the account marked as synced, quietly without, or in an error.
pub data RunEnd : Type 0 where
  synced skipped broke : RunEnd

pub record Run : Type 0 where
  pub db : RunDb
  pub events : List Event
  pub ending : RunEnd

abbrev pub ended_at : RunDb → List Event → RunEnd → Run
ended_at db events ending = record { db = db; events = events; ending = ending }

abbrev pub finish_walk : ℕ → String → RunDb → Walked → Run
finish_walk now acc db w =
    let after = record db { sync = w.db } in
    if w.finished
    then ended_at (record after { accounts = mark_synced now acc after.accounts }) w.events synced
    else ended_at after w.events skipped

abbrev pub walk_listed : AccountBox → ℕ → String → Bool → RunDb × Listed → Run
walk_listed box now acc first_run (db, scopes_of scopes) =
    finish_walk now acc db (walk_scopes box now acc first_run scopes db.sync)
walk_listed box now acc first_run (db, listed_dead) = ended_at db [] skipped
walk_listed box now acc first_run (db, listed_failed) = ended_at db [] broke

abbrev pub is_first : Option ℕ → Bool
is_first none = true
is_first (some at) = false

abbrev pub sync_with : ℕ → Account → RunDb → Option AccountBox → Run
sync_with now a db none = ended_at db [] broke
sync_with now a db (some box) =
    walk_listed box now a.id (is_first a.last_synced_at) (sync_scopes box a.id db)

abbrev pub sync_of : (String → Option AccountBox) → ℕ → RunDb → Option Account → Run
sync_of box_of now db none = ended_at db [] broke
sync_of box_of now db (some a) =
    if not (a.status == account_ok)
    then ended_at db [] skipped
    else sync_with now a db (box_of a.provider)

-- `syncAccount`, over the mailboxes of the registered providers
unfoldable pub sync_account : (String → Option AccountBox) → ℕ → String → RunDb → Run
sync_account box_of now acc db = sync_of box_of now db (get_any_account acc db.accounts)
