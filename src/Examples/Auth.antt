-- ===== src/Examples/Auth.antt =====
-- A developer with a password, two browsers and an API key. The hash of a secret is the secret.
use Prim.Native.String.{◌++◌ as ◌<>◌}
use unified_messaging.Prelude.{
  ℕ, zero, suc, ◌+◌, ◌*◌, ◌≤◌, ◌≡◌, refl, String, true, none, some, List, [], ◌∷◌, arith, leb→le,
  ok, failed, str_eq_refl, IsCaseTable, trim_space, trim_left, trim_right, is_space, to_lower,
  if◌then◌else◌, ◌==◌, ne_of_test,
}
use unified_messaging.Store.Tables.{DeveloperRow}
use unified_messaging.Store.Developers.{
  AuthDb, ApiKeyRow, get_developer, create_developer, developer_password_hash, update_password,
  with_password, developer_by_email,
}
use unified_messaging.Store.Developers.Sessions.{
  create_session, session_developer, extend_session, delete_sessions_except,
}
use unified_messaging.Store.Developers.Keys.{create_api_key, developer_by_key_hash}
use unified_messaging.Auth.{
  Crypto, signup, login, change_password, email_taken, invalid_credentials, second,
}
use unified_messaging.Auth.Passwords.{signup-login, change_password-login, signup_taken}
use unified_messaging.Auth.Sessions.{Policy, new_session, use_session, delete_other_sessions}
use unified_messaging.Auth.Sessions.Lifetime.{
  SessionOp, request, sign_out_others, run_session_op, run_session_ops, session_lifetime,
}
use unified_messaging.Auth.Sessions.Idle.{AllAnswered, stays_signed_in}
use unified_messaging.Auth.Keys.{KeyState, random_key, new_api_key, key_developer, revoke_key}
use unified_messaging.Auth.Keys.Ops.{ApiKeyOp, present, revoke, run_api_key_ops}
use unified_messaging.Auth.Keys.Revoked.{revoke_final}
use unified_messaging.Auth.Keys.Format.{new_api_key-key_developer}

abbrev plain : Crypto
plain = record {
  hash_password = λ p. some (p <> "!");
  matches = λ h p. h == (p <> "!");
  hash_key = λ t. t;
  lower = λ c. c;
}

plain_table : IsCaseTable plain.lower
plain_table = record { twice = λ c. refl; blank = λ c. refl }

plain_matches : (p h : String) → plain.hash_password p ≡ some h → plain.matches h p ≡ true
plain_matches p h e =
    let same : (p <> "!") ≡ h = ground arith in rw (← same) (str_eq_refl (p <> "!"))

abbrev ann : DeveloperRow
ann = record {
  id = "dev_1";
  email = "ann@example.com";
  password_hash = "correct horse!";
  name = "Ann";
  created_at = 1700000000;
  redirect_domains = [];
  retention_max_age_secs = 0;
}

abbrev empty_db : AuthDb
empty_db = record { developers = []; sessions = []; api_keys = [] }

abbrev ann_db : AuthDb
ann_db = record { developers = ann ∷ []; sessions = []; api_keys = [] }

abbrev start : ℕ
start = 1700000000 * second

signup_example : login plain " ann@example.com" "correct horse" ann_db ≡ ok ann
unfolding signup create_developer to_lower trim_space trim_right trim_left is_space
signup_example =
    signup-login plain start (some "dev_1") " ann@example.com" "correct horse" "Ann" empty_db ann_db
      ann plain_matches plain_table refl

change_password_example :
    (h : String) × (plain.hash_password "battery staple" ≡ some h)
    × ((password : String)
        → login plain "ann@example.com" password
            (record ann_db { developers = with_password "battery staple!" ann ∷ [] })
          ≡ (if plain.matches h password
              then ok (with_password h ann)
              else failed invalid_credentials))
unfolding change_password developer_password_hash update_password developer_by_email to_lower
    trim_space trim_right trim_left is_space
change_password_example =
    change_password-login plain "dev_1" "correct horse" "battery staple" "ann@example.com" ann_db
      (record ann_db { developers = with_password "battery staple!" ann ∷ [] }) ann refl refl refl

taken_address_example :
    signup plain start (some "dev_2") "ann@example.com " "another password" "Bo" ann_db
    ≡ failed email_taken
unfolding to_lower trim_space trim_right trim_left is_space
taken_address_example =
    signup_taken plain start "dev_2" "ann@example.com " "another password" "Bo" "another password!"
      ann_db plain_table refl refl refl refl

-- 30 days of idling, 90 days in all
abbrev policy : Policy
policy = record { session_ttl = 2592000 * second; max_age = 7776000 * second }

abbrev signed_in : AuthDb
signed_in = (new_session plain policy start (some "cookie") "dev_1" ann_db).0

abbrev week : ℕ
week = 604800 * second

abbrev browsing : List SessionOp
browsing =
    request (start + week) "cookie"
    ∷ sign_out_others "dev_1" "cookie"
    ∷ request (start + 4 * week) "cookie"
    ∷ []

lifetime_example : start + 8 * week ≤ start + policy.max_age
unfolding new_session create_session use_session session_developer extend_session run_session_ops
    run_session_op delete_other_sessions delete_sessions_except get_developer
lifetime_example =
    session_lifetime plain policy start (start + 8 * week) "cookie" "dev_1" browsing ann_db
      ("cookie", start + policy.session_ttl) (ann, start + 8 * week + policy.session_ttl) refl
      (tt, (tt, (tt, tt))) refl

abbrev weekly : List ℕ
weekly = (start + week) ∷ (start + 4 * week) ∷ (start + 8 * week) ∷ []

stays_example :
    AllAnswered plain policy "cookie" ann weekly
      (new_session plain policy start (some "cookie") "dev_1" ann_db).0
unfolding new_session create_session get_developer
stays_example =
    stays_signed_in plain policy "cookie" "dev_1" ann start weekly ann_db
      ("cookie", start + policy.session_ttl) (ne_of_test "cookie" "" refl) refl refl
      (omega arith, omega arith, (omega arith, omega arith, (omega arith, omega arith, tt)))

-- a second browser
abbrev twice_signed_in : AuthDb
twice_signed_in = (new_session plain policy start (some "other") "dev_1" signed_in).0

abbrev repeated : ℕ → List ℕ
repeated zero = []
repeated (suc n) = 7 ∷ repeated n

abbrev bytes : List ℕ
bytes = repeated 40

abbrev no_keys : KeyState
no_keys = record { db = ann_db; last_touched = λ k. none }

abbrev key_row : ApiKeyRow
key_row = record {
  id = "key_1";
  developer_id = "dev_1";
  name = "prod";
  prefix = "um_HHHHHHHHH";
  hash = "um_HHHHHHHHHHHHHHHHHHHHHHHHHHHHHHHHHHHHHHHH";
  created_at = 1700000000;
  last_used_at = none;
  revoked_at = none;
}

abbrev one_key : KeyState
one_key = record { db = record ann_db { api_keys = key_row ∷ [] }; last_touched = λ k. none }

minted_key_example :
    (d : DeveloperRow) × (get_developer "dev_1" ann_db ≡ some d)
    × ((key_developer plain (start + week) key_row.hash one_key).1 ≡ ok (d, key_row))
unfolding new_api_key create_api_key random_key trim_space trim_right trim_left is_space
minted_key_example =
    new_api_key-key_developer plain start (start + week) bytes (some "key_1") "dev_1" "prod" no_keys
      one_key key_row.hash key_row refl refl

abbrev later_ops : List ApiKeyOp
later_ops = present (start + week) key_row.hash ∷ revoke "dev_1" "key_1" (start + week) ∷ []

revoked_key_example :
    ((revoke_key "dev_1" "key_1" start one_key).1 ≡ true)
    × ((key_developer plain
          (start + 8 * week)
          key_row.hash
          (run_api_key_ops plain later_ops (revoke_key "dev_1" "key_1" start one_key).0)).1
        ≡ failed invalid_credentials)
unfolding key_developer developer_by_key_hash get_developer
revoked_key_example =
    revoke_final plain start start (start + 8 * week) key_row.hash later_ops one_key ann key_row
      (leb→le 1 1 refl) refl
