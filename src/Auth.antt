-- ===== src/Auth.antt =====
-- internal/auth/auth.go: developers and their passwords, over internal/store; browser sessions and
-- API keys are in the children. bcrypt and SHA-256 are parameters (`Crypto`), so are the random
-- bytes and the ids made of them, where `none` is an error of their source. A time is a number of
-- nanoseconds, each operation reads the clock once, and the database answers.
pub mod Passwords
pub mod Sessions
pub mod Keys
use Prim.Native.Char.{code}
use Prim.Native.String.{len}
use unified_messaging.Prelude.{
  ℕ, ◌*◌, ◌/◌, String, Char, Bool, true, false, not, ◌&&◌, ◌||◌, Option, none, some, [], ltb, eqb,
  if◌then◌else◌, Result, ok, failed, trim_space, to_lower,
}
use unified_messaging.Store.Tables.{DeveloperRow}
use unified_messaging.Store.Developers.{
  AuthDb, StoreError, conflict, not_found, refused, create_developer, developer_by_email,
  developer_password_hash, update_password,
}

pub record Crypto : Type 0 where
  -- bcrypt.GenerateFromPassword at the cost of this package
  pub hash_password : String → Option String
  -- bcrypt.CompareHashAndPassword answers no error
  pub matches : (hash password : String) → Bool
  -- the hex digits of SHA-256: HashKey
  pub hash_key : String → String
  -- unicode.ToLower
  pub lower : Char → Char

pub data AuthError : Type 0 where
  invalid_input email_taken invalid_credentials weak_password no_session : AuthError
  other : AuthError

abbrev pub second : ℕ
second = 1000000000

abbrev pub min_password : ℕ
min_password = 10

-- email[at:] for the first "@" of the address, "" without one
abbrev pub from_at : String → String
from_at String.[] = ""
from_at (String.◌∷◌ c s) = let rest = from_at s in if eqb (code c) 64 then String.◌∷◌ c s else rest

abbrev pub contains_dot : String → Bool
contains_dot String.[] = false
contains_dot (String.◌∷◌ c s) = eqb (code c) 46 || contains_dot s

-- not (at < 1 || !strings.Contains(email[at:], "."))
abbrev pub is_address : String → Bool
is_address String.[] = false
is_address (String.◌∷◌ c s) = not (eqb (code c) 64) && contains_dot (from_at s)

abbrev pub new_developer : String → String → String → String → ℕ → DeveloperRow
new_developer id email hash name now = record {
  id = id;
  email = email;
  password_hash = hash;
  name = name;
  created_at = now / second;
  redirect_domains = [];
  retention_max_age_secs = 0;
}

abbrev pub signed_up :
    DeveloperRow → Result StoreError AuthDb → Result AuthError (AuthDb × DeveloperRow)
signed_up d (ok db) = ok (db, d)
signed_up d (failed conflict) = failed email_taken
signed_up d (failed not_found) = failed other
signed_up d (failed refused) = failed other

abbrev pub sign_up_with :
    Crypto
    → ℕ
    → String
    → String
    → AuthDb
    → Option String
    → Option String
    → Result AuthError (AuthDb × DeveloperRow)
sign_up_with c now email name db none minted = failed other
sign_up_with c now email name db (some hash) none = failed other
sign_up_with c now email name db (some hash) (some id) =
    let d = new_developer id email hash (trim_space name) now in
    signed_up d (create_developer c.lower d db)

-- A signup that fails writes nothing.
unfoldable pub signup :
    Crypto
    → ℕ
    → Option String
    → (email password name : String) → AuthDb
    → Result AuthError (AuthDb × DeveloperRow)
signup c now minted email password name db =
    let email = to_lower c.lower (trim_space email) in
    if not (is_address email)
    then failed invalid_input
    else if ltb (len password) min_password
    then failed invalid_input
    else sign_up_with c now email name db (c.hash_password password) minted

abbrev pub checked : Crypto → String → Option DeveloperRow → Result AuthError DeveloperRow
checked c password none = failed invalid_credentials
checked c password (some d) =
    if c.matches d.password_hash password then ok d else failed invalid_credentials

-- The comparison with the dummy hash is for its time only.
unfoldable pub login : Crypto → (email password : String) → AuthDb → Result AuthError DeveloperRow
login c email password db =
    checked c password (developer_by_email c.lower (to_lower c.lower (trim_space email)) db)

abbrev rehashed : String → AuthDb → Option String → Result AuthError AuthDb
rehashed dev db none = failed other
rehashed dev db (some hash) = ok (update_password dev hash db)

abbrev pub change_known_password :
    Crypto → String → (current next : String) → AuthDb → Option String → Result AuthError AuthDb
change_known_password c dev current next db none = failed other
change_known_password c dev current next db (some hash) =
    if c.matches hash current
    then rehashed dev db (c.hash_password next)
    else failed invalid_credentials

-- A change that fails writes nothing.
unfoldable pub change_password :
    Crypto → String → (current next : String) → AuthDb → Result AuthError AuthDb
change_password c dev current next db =
    if ltb (len next) min_password
    then failed weak_password
    else change_known_password c dev current next db (developer_password_hash dev db)
