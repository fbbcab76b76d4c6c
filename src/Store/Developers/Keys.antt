-- ===== src/Store/Developers/Keys.antt =====
-- internal/store/developers.go: the statements on the API keys.
use unified_messaging.Prelude.{
  ℕ, String, Bool, true, false, not, ◌&&◌, ◌||◌, Option, none, some, List, [], ◌∷◌, ◌++◌, ◌==◌, leb,
  if◌then◌else◌, find_row, select_rows, update_rows, has_row, Result, ok, failed,
}
use unified_messaging.Store.Tables.{DeveloperRow}
use unified_messaging.Store.Developers.{
  AuthDb, ApiKeyRow, StoreError, not_found, refused, is_developer, get_developer,
}

abbrev pub is_api_key : String → ApiKeyRow → Bool
is_api_key id k = k.id == id

abbrev pub has_hash : String → ApiKeyRow → Bool
has_hash hash k = k.hash == hash

-- The primary key, UNIQUE on the hash and the foreign key each refuse a row.
unfoldable pub create_api_key : ApiKeyRow → AuthDb → Result StoreError AuthDb
create_api_key k db =
    if has_row (λ (r : ApiKeyRow). is_api_key k.id r || has_hash k.hash r) db.api_keys
      || not (has_row (is_developer k.developer_id) db.developers)
    then failed refused
    else ok (record db { api_keys = db.api_keys ++ k ∷ [] })

abbrev pub is_unset : Option ℕ → Bool
is_unset none = true
is_unset (some at) = false

-- WHERE hash = ? AND revoked_at IS NULL
abbrev pub is_live_key : String → ApiKeyRow → Bool
is_live_key hash k = has_hash hash k && is_unset k.revoked_at

abbrev pub with_owner : ApiKeyRow → Option DeveloperRow → Option (DeveloperRow × ApiKeyRow)
with_owner k none = none
with_owner k (some d) = some (d, k)

abbrev pub joined : Option ApiKeyRow → AuthDb → Option (DeveloperRow × ApiKeyRow)
joined none db = none
joined (some k) db = with_owner k (get_developer k.developer_id db)

unfoldable pub developer_by_key_hash : String → AuthDb → Option (DeveloperRow × ApiKeyRow)
developer_by_key_hash hash db = joined (find_row (is_live_key hash) db.api_keys) db

abbrev pub touched : ℕ → ApiKeyRow → ApiKeyRow
touched at k = record k { last_used_at = some at }

unfoldable pub touch_api_key : String → ℕ → AuthDb → AuthDb
touch_api_key id at db = record db {
  api_keys = update_rows (is_api_key id) (touched at) db.api_keys;
}

abbrev insert_by_created : ApiKeyRow → List ApiKeyRow → List ApiKeyRow
insert_by_created k [] = k ∷ []
insert_by_created k (x ∷ xs) =
    let rest = insert_by_created k xs in
    if leb k.created_at x.created_at then k ∷ x ∷ xs else x ∷ rest

-- ORDER BY created_at
abbrev sort_by_created : List ApiKeyRow → List ApiKeyRow
sort_by_created [] = []
sort_by_created (k ∷ ks) = insert_by_created k (sort_by_created ks)

unfoldable pub list_api_keys : String → AuthDb → List ApiKeyRow
list_api_keys dev db =
    sort_by_created (select_rows (λ (k : ApiKeyRow). k.developer_id == dev) db.api_keys)

-- COALESCE(revoked_at, ?)
abbrev pub coalesce : Option ℕ → ℕ → Option ℕ
coalesce none at = some at
coalesce (some earlier) at = some earlier

abbrev pub revoked : ℕ → ApiKeyRow → ApiKeyRow
revoked at k = record k { revoked_at = coalesce k.revoked_at at }

abbrev pub is_own_key : String → String → ApiKeyRow → Bool
is_own_key dev id k = k.id == id && k.developer_id == dev

unfoldable pub revoke_api_key : String → String → ℕ → AuthDb → Result StoreError AuthDb
revoke_api_key dev id at db =
    if has_row (is_own_key dev id) db.api_keys
    then ok (record db { api_keys = update_rows (is_own_key dev id) (revoked at) db.api_keys })
    else failed not_found
