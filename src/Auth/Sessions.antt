-- ===== src/Auth/Sessions.antt =====
-- internal/auth/auth.go: the browser sessions. A session slides while it is used, up to an absolute
-- age.
pub mod Lifetime
pub mod Idle
pub mod Others
use unified_messaging.Prelude.{
  ℕ, ◌+◌, ◌*◌, ◌/◌, ℤ, pos, negsuc, zero, suc, String, Bool, true, false, ◌&&◌, Option, none, some,
  ◌==◌, ltb, if◌then◌else◌, Result, ok, failed,
}
use unified_messaging.Store.Tables.{DeveloperRow}
use unified_messaging.Store.Developers.{AuthDb, SessionRow, StoreError}
use unified_messaging.Store.Developers.Sessions.{
  create_session, session_developer, extend_session, delete_session, delete_sessions_except,
}
use unified_messaging.Auth.{Crypto, AuthError, no_session, other, second}

-- 24 hours
abbrev pub slide_after : ℕ
slide_after = 86400 * second

-- 90 days
abbrev pub default_session_max_age : ℕ
default_session_max_age = 7776000 * second

-- `Service.sessionTTL` and `Service.maxAge`
pub record Policy : Type 0 where
  pub session_ttl : ℕ
  pub max_age : ℕ

abbrev max_age_of : ℤ → ℕ
max_age_of (pos zero) = default_session_max_age
max_age_of (pos (suc n)) = suc n
max_age_of (negsuc n) = default_session_max_age

unfoldable pub new_policy : ℕ → ℤ → Policy
new_policy ttl max_age = record { session_ttl = ttl; max_age = max_age_of max_age }

abbrev pub created :
    String → ℕ → AuthDb → Result StoreError AuthDb → AuthDb × Result AuthError (String × ℕ)
created tok exp db (ok db') = (db', ok (tok, exp))
created tok exp db (failed e) = (db, failed other)

-- the token, and when the session expires
unfoldable pub new_session :
    Crypto → Policy → ℕ → Option String → String → AuthDb → AuthDb × Result AuthError (String × ℕ)
new_session c p now none dev db = (db, failed other)
new_session c p now (some tok) dev db =
    let exp = now + p.session_ttl in
    created tok exp db (create_session (c.hash_key tok) dev (exp / second) (now / second) db)

-- `now.Sub(created) > a.maxAge`
abbrev pub is_over_age : Policy → ℕ → SessionRow → Bool
is_over_age p now s = ltb (s.created_at * second + p.max_age) now

-- `exp.Sub(now) < a.sessionTTL - slideAfter`
abbrev pub is_sliding : Policy → ℕ → SessionRow → Bool
is_sliding p now s = ltb (s.expires_at * second + slide_after) (now + p.session_ttl)

abbrev pub resolved :
    Policy
    → ℕ
    → String
    → AuthDb
    → Option (DeveloperRow × SessionRow)
    → AuthDb × Result AuthError (DeveloperRow × ℕ)
resolved p now hash db none = (db, failed no_session)
resolved p now hash db (some (d, s)) =
    if is_over_age p now s
    then (delete_session hash db, failed no_session)
    else if is_sliding p now s
    then (extend_session hash ((now + p.session_ttl) / second) db, ok (d, now + p.session_ttl))
    else (db, ok (d, s.expires_at * second))

-- `SessionDeveloper`: the developer of a cookie, and when the session now expires
unfoldable pub use_session :
    Crypto → Policy → ℕ → String → AuthDb → AuthDb × Result AuthError (DeveloperRow × ℕ)
use_session c p now tok db =
    if tok == ""
    then (db, failed no_session)
    else let hash = c.hash_key tok in
      resolved p now hash db (session_developer hash (now / second) db)

unfoldable pub log_out : Crypto → String → AuthDb → AuthDb
log_out c tok db = delete_session (c.hash_key tok) db

unfoldable pub delete_other_sessions : Crypto → String → String → AuthDb → AuthDb
delete_other_sessions c dev keep db = delete_sessions_except dev (c.hash_key keep) db
