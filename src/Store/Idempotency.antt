-- ===== src/Store/Idempotency.antt =====
-- internal/store/chat.go: the idempotency keys of the API. A response is opaque; the reservation's
-- placeholder is the empty one.
pub mod Exclusive
use mathlib.Core.Option
use unified_messaging.Prelude.{
  ℕ, String, Bool, true, false, not, ◌&&◌, Option, none, some, List, [], ◌∷◌, ◌==◌, ltb, find_row,
  delete_rows, has_row, insert_row, upsert_row,
}

pub record KeyRow : Type 0 where
  pub developer_id : String
  pub key : String
  pub response : String
  pub created_at : ℕ

abbrev pub is_key : String → String → KeyRow → Bool
is_key dev key r = r.developer_id == dev && r.key == key

abbrev pub key_row : String → String → String → ℕ → KeyRow
key_row dev key response now = record {
  developer_id = dev;
  key = key;
  response = response;
  created_at = now;
}

abbrev pub answered : String → ℕ → KeyRow → KeyRow
answered response now r = record r { response = response; created_at = now }

unfoldable pub put_idempotency : String → String → String → ℕ → List KeyRow → List KeyRow
put_idempotency dev key response now rows =
    upsert_row (is_key dev key) (answered response now) (key_row dev key response now) rows

-- `none` is ErrNotFound.
unfoldable pub get_idempotency : String → String → List KeyRow → Option String
get_idempotency dev key rows =
    Option.map (λ (r : KeyRow). r.response) (find_row (is_key dev key) rows)

-- The flag says that this call inserted the row (RowsAffected = 1).
unfoldable pub reserve_idempotency : String → String → ℕ → List KeyRow → List KeyRow × Bool
reserve_idempotency dev key now rows =
    (insert_row (is_key dev key) (key_row dev key "" now) rows, not (has_row (is_key dev key) rows))

unfoldable pub delete_idempotency : String → String → List KeyRow → List KeyRow
delete_idempotency dev key rows = delete_rows (is_key dev key) rows

unfoldable pub purge_idempotency : ℕ → List KeyRow → List KeyRow
purge_idempotency older_than rows = delete_rows (λ (r : KeyRow). ltb r.created_at older_than) rows
