-- ===== src/Store/Developers.antt =====
-- internal/store/developers.go: developers, their sessions and their API keys. A session and a key
-- are kept by a hash of the secret. A JSON column holds the list that it encodes; times are whole
-- seconds. A foreign key refuses a row of a developer who is not there.
pub mod Sessions
pub mod Keys
use mathlib.Core.Option
use unified_messaging.Prelude.{
  ℕ, String, Char, Bool, true, false, not, ◌&&◌, ◌||◌, Option, none, some, List, [], ◌∷◌, ◌++◌,
  ◌==◌, ltb, if◌then◌else◌, find_row, select_rows, update_rows, delete_rows, has_row, Result, ok,
  failed, trim_space, to_lower,
}
use unified_messaging.Store.Tables.{DeveloperRow}

pub record SessionRow : Type 0 where
  pub id : String
  pub developer_id : String
  pub created_at : ℕ
  pub expires_at : ℕ

pub record ApiKeyRow : Type 0 where
  pub id : String
  pub developer_id : String
  pub name : String
  pub prefix : String
  pub hash : String
  pub created_at : ℕ
  pub last_used_at : Option ℕ
  pub revoked_at : Option ℕ

pub record AuthDb : Type 0 where
  pub developers : List DeveloperRow
  pub sessions : List SessionRow
  pub api_keys : List ApiKeyRow

pub data StoreError : Type 0 where
  not_found conflict refused : StoreError

abbrev pub is_developer : String → DeveloperRow → Bool
is_developer id d = d.id == id

abbrev pub has_email : String → DeveloperRow → Bool
has_email email d = d.email == email

-- The form of an address in the table, over the case table of Unicode.
abbrev pub stored_email : (Char → Char) → String → String
stored_email lower email = to_lower lower (trim_space email)

-- The primary key and UNIQUE on the address refuse a second row.
-- The primary key and UNIQUE on the address refuse a second row: ErrConflict. The columns that the
-- statement leaves out have their defaults. The caller sets the time of creation.
unfoldable pub create_developer : (Char → Char) → DeveloperRow → AuthDb → Result StoreError AuthDb
create_developer lower d db =
    let row = record d {
      email = stored_email lower d.email;
      redirect_domains = [];
      retention_max_age_secs = 0;
    } in
    if has_row (λ (r : DeveloperRow). is_developer d.id r || has_email row.email r) db.developers
    then failed conflict
    else ok (record db { developers = db.developers ++ row ∷ [] })

-- with the password hash, which is a column of the row
unfoldable pub developer_by_email : (Char → Char) → String → AuthDb → Option DeveloperRow
developer_by_email lower email db = find_row (has_email (stored_email lower email)) db.developers

unfoldable pub get_developer : String → AuthDb → Option DeveloperRow
get_developer id db = find_row (is_developer id) db.developers

unfoldable pub get_redirect_domains : String → AuthDb → Option (List String)
get_redirect_domains id db =
    Option.map (λ (d : DeveloperRow). d.redirect_domains) (find_row (is_developer id) db.developers)

-- UPDATE developers SET … WHERE id = ?; no row affected is ErrNotFound
abbrev pub update_developer :
    String → (DeveloperRow → DeveloperRow) → AuthDb → Result StoreError AuthDb
update_developer id f db =
    if has_row (is_developer id) db.developers
    then ok (record db { developers = update_rows (is_developer id) f db.developers })
    else failed not_found

unfoldable pub set_redirect_domains : String → List String → AuthDb → Result StoreError AuthDb
set_redirect_domains id domains db =
    update_developer id (λ (d : DeveloperRow). record d { redirect_domains = domains }) db

unfoldable pub set_retention_max_age : String → ℕ → AuthDb → Result StoreError AuthDb
set_retention_max_age id secs db =
    update_developer id (λ (d : DeveloperRow). record d { retention_max_age_secs = secs }) db

unfoldable pub developer_password_hash : String → AuthDb → Option String
developer_password_hash id db =
    Option.map (λ (d : DeveloperRow). d.password_hash) (find_row (is_developer id) db.developers)

abbrev pub with_password : String → DeveloperRow → DeveloperRow
with_password hash d = record d { password_hash = hash }

unfoldable pub update_password : String → String → AuthDb → AuthDb
update_password id hash db = record db {
  developers = update_rows (is_developer id) (with_password hash) db.developers;
}
