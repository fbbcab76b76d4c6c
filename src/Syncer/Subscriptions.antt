-- ===== src/Syncer/Subscriptions.antt =====
-- internal/syncer/subscriptions.go: push subscriptions with a provider. What the provider answers
-- is a parameter (`Pusher`), so are the secrets that are minted, `none` where the random source
-- fails. A time is a number of nanoseconds, an operation reads the clock once, and the database
-- answers.
use unified_messaging.Prelude.{
  ℕ, ◌+◌, ◌*◌, ◌/◌, String, Char, Bool, true, false, Option, none, some, List, [], ◌∷◌, ◌++◌, ◌==◌,
  ltb, if◌then◌else◌, find_row, select_rows, delete_rows, upsert_row,
}
use unified_messaging.Model.{Account}
use unified_messaging.Store.Accounts.{AccountDb, Subscription, get_any_account}
use unified_messaging.Accounts.{Manager, second}

-- internal/store/aux.go
abbrev pub is_subscription : String → Subscription → Bool
is_subscription id s = s.id == id

abbrev pub expiring : ℕ → Subscription → Subscription
expiring at s = record s { expires_at = at }

unfoldable pub save_subscription : Subscription → AccountDb → AccountDb
save_subscription s db = record db {
  subscriptions = upsert_row (is_subscription s.id) (expiring s.expires_at) s db.subscriptions;
}

unfoldable pub get_subscription : String → AccountDb → Option Subscription
get_subscription id db = find_row (is_subscription id) db.subscriptions

unfoldable pub subscriptions_for_account : String → AccountDb → List Subscription
subscriptions_for_account acc db =
    select_rows (λ (s : Subscription). s.account_id == acc) db.subscriptions

unfoldable pub delete_subscription : String → AccountDb → AccountDb
delete_subscription id db = record db {
  subscriptions = delete_rows (is_subscription id) db.subscriptions;
}

-- What Create answers: the subscription's id, resource and expiry, or an error.
pub data Created : Type 0 where
  created : (id resource : String) (expires_at : ℕ) → Created
  exists_already create_failed : Created

-- A provider's push for one account. The flag tells the second Create from the first.
pub record Pusher : Type 0 where
  pub create : (retried : Bool) (secret : String) → Created
  pub renew : (id : String) → Option ℕ
  pub listed : Option (List String)
  pub renew_before : ℕ

-- What is asked of the provider.
pub data PushCall : Type 0 where
  create_call : (secret : String) → PushCall
  renew_call delete_call : (id : String) → PushCall
  list_call : PushCall

-- The public origin, the clock, the secrets for the first and the second Create, and the providers:
-- `none` where one is not registered, `some none` where it has no push.
pub record Setup : Type 0 where
  pub public_base_url : String
  pub now : ℕ
  pub secret : (retried : Bool) → Option String
  pub push_of : (provider : String) → Option (Option Pusher)
  pub manager : Manager
  pub drawn : Option (List Char)

-- The database, the calls made and the syncs that were asked for, and whether there was no error.
pub record Pushed : Type 0 where
  pub db : AccountDb
  pub calls : List PushCall
  pub wakes : List String
  pub ok : Bool

abbrev pub pushed : AccountDb → Bool → Pushed
pushed db fine = record { db = db; calls = []; wakes = []; ok = fine }

abbrev pub calling : List PushCall → Pushed → Pushed
calling calls p = record p { calls = calls ++ p.calls }

abbrev pub subscription_row : ℕ → String → String → String → String → ℕ → Subscription
subscription_row now acc id resource secret expires = record {
  id = id;
  account_id = acc;
  resource = resource;
  client_state = secret;
  expires_at = expires / second;
  created_at = now / second;
}

abbrev pub stored_created : Setup → String → String → AccountDb → Pushed → Created → Pushed
stored_created e acc secret db again (created id resource expires) =
    pushed (save_subscription (subscription_row e.now acc id resource secret expires) db) true
stored_created e acc secret db again exists_already = again
stored_created e acc secret db again create_failed = pushed db false

-- the first Create, or the one after the provider's own subscriptions were deleted
abbrev pub create_as : Setup → Pusher → String → AccountDb → Bool → Pushed → Option String → Pushed
create_as e p acc db retried again none = pushed db false
create_as e p acc db retried again (some secret) =
    calling (create_call secret ∷ [])
      (stored_created e acc secret db again (p.create retried secret))

abbrev pub delete_calls : List String → List PushCall
delete_calls [] = []
delete_calls (id ∷ ids) = delete_call id ∷ delete_calls ids

abbrev pub adopt_listed : Setup → Pusher → String → AccountDb → Option (List String) → Pushed
adopt_listed e p acc db none = pushed db false
adopt_listed e p acc db (some []) = pushed db false
adopt_listed e p acc db (some (id ∷ ids)) =
    calling (delete_calls (id ∷ ids)) (create_as e p acc db true (pushed db false) (e.secret true))

unfoldable pub adopt_existing : Setup → Pusher → String → AccountDb → Pushed
adopt_existing e p acc db = calling (list_call ∷ []) (adopt_listed e p acc db p.listed)

-- a second Create that finds a duplicate again is an error
unfoldable pub create_subscription : Setup → Pusher → String → AccountDb → Pushed
create_subscription e p acc db =
    create_as e p acc db false (adopt_existing e p acc db) (e.secret false)

-- `time.Until(sub.ExpiresAt) > pusher.RenewBefore()`
abbrev pub is_healthy : Setup → Pusher → Subscription → Bool
is_healthy e p s = ltb (e.now + p.renew_before) (s.expires_at * second)

abbrev pub renewed : Setup → String → Subscription → AccountDb → Pushed → Option ℕ → Pushed
renewed e acc s db rest none = rest
renewed e acc s db rest (some expires) =
    pushed
      (save_subscription (subscription_row e.now acc s.id s.resource s.client_state expires) db)
      true

unfoldable pub ensure_each : Setup → Pusher → String → List Subscription → AccountDb → Pushed
ensure_each e p acc [] db = create_subscription e p acc db
ensure_each e p acc (s ∷ ss) db =
    let rest = ensure_each e p acc ss (delete_subscription s.id db) in
    if is_healthy e p s
    then pushed db true
    else calling (renew_call s.id ∷ []) (renewed e acc s db rest (p.renew s.id))

abbrev pub ensure_with : Setup → String → AccountDb → Option (Option Pusher) → Pushed
ensure_with e acc db none = pushed db false
ensure_with e acc db (some none) = pushed db true
ensure_with e acc db (some (some p)) = ensure_each e p acc (subscriptions_for_account acc db) db

abbrev pub ensure_of : Setup → String → AccountDb → Option Account → Pushed
ensure_of e acc db none = pushed db false
ensure_of e acc db (some a) = ensure_with e acc db (e.push_of a.provider)

unfoldable pub ensure_subscription : Setup → String → AccountDb → Pushed
ensure_subscription e acc db =
    if e.public_base_url == "" then pushed db true else ensure_of e acc db (get_any_account acc db)
