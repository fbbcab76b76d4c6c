-- ===== src/Auth/Keys.antt =====
-- internal/auth/auth.go: the API keys. A random key is made of the bytes of the random source.
pub mod Ops
pub mod Revoked
pub mod Format
use Prim.Native.String.{len, slice, char_at, ◌++◌ as ◌<>◌}
use text.Mathlib.Text.{starts_with}
use unified_messaging.Prelude.{
  ℕ, ◌+◌, ◌*◌, ◌/◌, ◌%◌, String, Char, Bool, true, false, not, ◌&&◌, Option, none, some, List, [],
  ◌∷◌, ◌==◌, ltb, eqb, if◌then◌else◌, Result, ok, failed, trim_space,
}
use unified_messaging.Store.Tables.{DeveloperRow}
use unified_messaging.Store.Developers.{AuthDb, ApiKeyRow, StoreError}
use unified_messaging.Store.Developers.Keys.{
  create_api_key, developer_by_key_hash, touch_api_key, revoke_api_key,
}
use unified_messaging.Auth.{Crypto, AuthError, invalid_input, invalid_credentials, other, second}

abbrev pub key_prefix : String
key_prefix = "um_"

abbrev pub key_random : ℕ
key_random = 40

abbrev pub key_alphabet : String
key_alphabet = "ABCDEFGHIJKLMNOPQRSTUVWXYZabcdefghijklmnopqrstuvwxyz0123456789"

abbrev pub prefix_len : ℕ
prefix_len = 12

-- a minute
abbrev pub touch_every : ℕ
touch_every = 60 * second

-- The service's state: the database, and when the last use of each key was written.
pub record KeyState : Type 0 where
  pub db : AuthDb
  pub last_touched : String → Option ℕ

-- keyAlphabet[int(v)%len(keyAlphabet)]
abbrev pub key_char : ℕ → Char
key_char v = char_at key_alphabet (v % len key_alphabet)

abbrev pub key_text : List ℕ → String
key_text [] = ""
key_text (v ∷ vs) = String.◌∷◌ (key_char v) (key_text vs)

-- over the 40 bytes of the random source
unfoldable pub random_key : List ℕ → String
random_key bytes = key_prefix <> key_text bytes

abbrev pub new_key_row : String → String → String → String → String → ℕ → ApiKeyRow
new_key_row id dev name full hash now = record {
  id = id;
  developer_id = dev;
  name = name;
  prefix = slice full 0 prefix_len;
  hash = hash;
  created_at = now / second;
  last_used_at = none;
  revoked_at = none;
}

abbrev pub created :
    String
    → ApiKeyRow
    → KeyState
    → Result StoreError AuthDb
    → KeyState × Result AuthError (String × ApiKeyRow)
created full k s (ok db) = (record s { db = db }, ok (full, k))
created full k s (failed e) = (s, failed other)

abbrev pub mint :
    Crypto
    → ℕ
    → String
    → String
    → KeyState
    → Option (List ℕ)
    → Option String
    → KeyState × Result AuthError (String × ApiKeyRow)
mint c now dev name s none id = (s, failed other)
mint c now dev name s (some bytes) none = (s, failed other)
mint c now dev name s (some bytes) (some id) =
    let full = random_key bytes in
    let k = new_key_row id dev name full (c.hash_key full) now in
    created full k s (create_api_key k s.db)

-- the key itself, shown once, and its row
unfoldable pub new_api_key :
    Crypto
    → ℕ
    → Option (List ℕ)
    → Option String
    → String
    → String
    → KeyState
    → KeyState × Result AuthError (String × ApiKeyRow)
new_api_key c now bytes minted dev name s =
    let name = trim_space name in
    if name == "" then (s, failed invalid_input) else mint c now dev name s bytes minted

abbrev pub is_well_formed : String → Bool
is_well_formed full = starts_with full key_prefix && eqb (len full) (len key_prefix + key_random)

-- `seen && now.Sub(last) < touchEvery`
abbrev pub is_recent : ℕ → Option ℕ → Bool
is_recent now none = false
is_recent now (some last) = ltb now (last + touch_every)

abbrev pub noted : String → ℕ → (String → Option ℕ) → String → Option ℕ
noted id now seen k = if k == id then some now else seen k

unfoldable pub touch : ℕ → String → KeyState → KeyState
touch now id s = if is_recent now (s.last_touched id) then s else record s {
  db = touch_api_key id (now / second) s.db;
  last_touched = noted id now s.last_touched;
}

abbrev pub found :
    ℕ
    → KeyState
    → Option (DeveloperRow × ApiKeyRow)
    → KeyState × Result AuthError (DeveloperRow × ApiKeyRow)
found now s none = (s, failed invalid_credentials)
found now s (some (d, k)) = (touch now k.id s, ok (d, k))

unfoldable pub key_developer :
    Crypto → ℕ → String → KeyState → KeyState × Result AuthError (DeveloperRow × ApiKeyRow)
key_developer c now full s =
    if not (is_well_formed full)
    then (s, failed invalid_credentials)
    else found now s (developer_by_key_hash (c.hash_key full) s.db)

abbrev pub revoked_or_not : KeyState → Result StoreError AuthDb → KeyState × Bool
revoked_or_not s (ok db) = (record s { db = db }, true)
revoked_or_not s (failed e) = (s, false)

-- the flag is false for ErrNotFound
unfoldable pub revoke_key : String → String → ℕ → KeyState → KeyState × Bool
revoke_key dev id now s = revoked_or_not s (revoke_api_key dev id (now / second) s.db)
