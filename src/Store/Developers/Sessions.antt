-- ===== src/Store/Developers/Sessions.antt =====
-- internal/store/developers.go: the statements on the sessions.
use unified_messaging.Prelude.{
  ℕ, String, Bool, not, ◌&&◌, ◌||◌, Option, none, some, [], ◌∷◌, ◌++◌, ◌==◌, ltb, if◌then◌else◌,
  find_row, update_rows, delete_rows, has_row, Result, ok, failed,
}
use unified_messaging.Store.Tables.{DeveloperRow}
use unified_messaging.Store.Developers.{
  AuthDb, SessionRow, StoreError, refused, is_developer, get_developer,
}

abbrev pub is_session : String → SessionRow → Bool
is_session hash s = s.id == hash

-- The primary key refuses a second row, the foreign key a developer that is not there.
unfoldable pub create_session : String → String → ℕ → ℕ → AuthDb → Result StoreError AuthDb
create_session hash dev expires_at now db =
    let row : SessionRow = record {
      id = hash;
      developer_id = dev;
      created_at = now;
      expires_at = expires_at;
    } in
    if has_row (is_session hash) db.sessions || not (has_row (is_developer dev) db.developers)
    then failed refused
    else ok (record db { sessions = db.sessions ++ row ∷ [] })

abbrev pub is_live_session : String → ℕ → SessionRow → Bool
is_live_session hash now s = is_session hash s && ltb now s.expires_at

abbrev pub with_owner : SessionRow → Option DeveloperRow → Option (DeveloperRow × SessionRow)
with_owner s none = none
with_owner s (some d) = some (d, s)

abbrev pub joined : Option SessionRow → AuthDb → Option (DeveloperRow × SessionRow)
joined none db = none
joined (some s) db = with_owner s (get_developer s.developer_id db)

-- the live session with its developer: the caller reads its two times
unfoldable pub session_developer : String → ℕ → AuthDb → Option (DeveloperRow × SessionRow)
session_developer hash now db = joined (find_row (is_live_session hash now) db.sessions) db

abbrev pub expiring : ℕ → SessionRow → SessionRow
expiring at s = record s { expires_at = at }

unfoldable pub set_session_created_at : String → ℕ → AuthDb → AuthDb
set_session_created_at hash at db = record db {
  sessions =
      update_rows (is_session hash) (λ (s : SessionRow). record s { created_at = at }) db.sessions;
}

unfoldable pub session_row_exists : String → AuthDb → Bool
session_row_exists hash db = has_row (is_session hash) db.sessions

unfoldable pub extend_session : String → ℕ → AuthDb → AuthDb
extend_session hash at db = record db {
  sessions = update_rows (is_session hash) (expiring at) db.sessions;
}

unfoldable pub delete_session : String → AuthDb → AuthDb
delete_session hash db = record db { sessions = delete_rows (is_session hash) db.sessions }

-- WHERE developer_id = ? AND id <> ?
abbrev pub is_other_session : String → String → SessionRow → Bool
is_other_session dev keep s = s.developer_id == dev && not (s.id == keep)

unfoldable pub delete_sessions_except : String → String → AuthDb → AuthDb
delete_sessions_except dev keep db = record db {
  sessions = delete_rows (is_other_session dev keep) db.sessions;
}
