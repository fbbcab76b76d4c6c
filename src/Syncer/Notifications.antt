-- ===== src/Syncer/Notifications.antt =====
-- internal/syncer/subscriptions.go: inbound push notifications, the lifecycle of a subscription, and
-- the hourly reconcile. The payload is taken as the provider parsed it.
pub mod Secrets
pub mod Kept
pub mod Creates
pub mod Forged
use unified_messaging.Prelude.{
  ℕ, String, Bool, true, false, not, ◌&&◌, ◌||◌, Option, none, some, List, [], ◌∷◌, ◌++◌, ◌==◌,
  if◌then◌else◌, Result, ok, failed,
}
use unified_messaging.Model.{Account, account_ok}
use unified_messaging.Store.Accounts.{AccountDb, Subscription, get_any_account, list_all_accounts}
use unified_messaging.Accounts.{Manager, ManagerError, Step}
use unified_messaging.Accounts.Tokens.{access_token}
use unified_messaging.Syncer.Subscriptions.{
  Setup, Pusher, PushCall, renew_call, delete_call, Pushed, pushed, calling, get_subscription,
  delete_subscription, subscriptions_for_account, ensure_subscription,
}

pub data LifecycleAction : Type 0 where
  lifecycle_none lifecycle_reauthorize lifecycle_recreate : LifecycleAction

pub record Notification : Type 0 where
  pub subscription_id : String
  pub client_state : String
  pub lifecycle : LifecycleAction

abbrev pub waking : List String → Pushed → Pushed
waking accs p = record p { wakes = p.wakes ++ accs }

abbrev is_renewed : Option ℕ → Bool
is_renewed none = false
is_renewed (some expires) = true

-- the provider is asked to renew once the token could be refreshed; what it answers is not stored
abbrev pub reauthorized : Pusher → Subscription → AccountDb → Result ManagerError String → Pushed
reauthorized p s db (failed e) = pushed db false
reauthorized p s db (ok tok) =
    calling (renew_call s.id ∷ []) (pushed db (is_renewed (p.renew s.id)))

abbrev pub recreated : Subscription → Pushed → Pushed
recreated s ensured = if ensured.ok then waking (s.account_id ∷ []) ensured else ensured

abbrev pub act_on : Setup → Pusher → Subscription → AccountDb → LifecycleAction → Pushed
act_on e p s db lifecycle_none = pushed db true
act_on e p s db lifecycle_reauthorize =
    let step = access_token e.manager e.now e.drawn true s.account_id db in
    reauthorized p s step.db step.answer
act_on e p s db lifecycle_recreate =
    recreated s (ensure_subscription e s.account_id (delete_subscription s.id db))

abbrev pub lifecycle_with :
    Setup → Subscription → LifecycleAction → AccountDb → Option (Option Pusher) → Pushed
lifecycle_with e s action db none = pushed db false
lifecycle_with e s action db (some none) = pushed db true
lifecycle_with e s action db (some (some p)) = act_on e p s db action

abbrev pub lifecycle_of :
    Setup → Subscription → LifecycleAction → AccountDb → Option Account → Pushed
lifecycle_of e s action db none = pushed db false
lifecycle_of e s action db (some a) = lifecycle_with e s action db (e.push_of a.provider)

unfoldable pub handle_lifecycle : Setup → Subscription → LifecycleAction → AccountDb → Pushed
handle_lifecycle e s action db = lifecycle_of e s action db (get_any_account s.account_id db)

-- `sub.ClientState == "" || subtle.ConstantTimeCompare(…) != 1`
abbrev pub is_rejected : Subscription → Notification → Bool
is_rejected s n = s.client_state == "" || not (s.client_state == n.client_state)

abbrev pub is_lifecycle : LifecycleAction → Bool
is_lifecycle lifecycle_none = false
is_lifecycle lifecycle_reauthorize = true
is_lifecycle lifecycle_recreate = true

-- An unknown subscription and a wrong secret are passed over.
abbrev pub notified : Setup → Notification → AccountDb → Option Subscription → Pushed
notified e n db none = pushed db true
notified e n db (some s) =
    if is_rejected s n
    then pushed db true
    else if is_lifecycle n.lifecycle
    then handle_lifecycle e s n.lifecycle db
    else waking (s.account_id ∷ []) (pushed db true)

-- The loop over the notifications: an error of one is only logged.
unfoldable pub notify_each : Setup → List Notification → AccountDb → Pushed
notify_each e [] db = pushed db true
notify_each e (n ∷ ns) db =
    let first = notified e n db (get_subscription n.subscription_id db) in
    let rest = notify_each e ns first.db in
    record rest { calls = first.calls ++ rest.calls; wakes = first.wakes ++ rest.wakes }

abbrev pub parsed_with : Setup → AccountDb → Option (List Notification) → Pushed
parsed_with e db none = pushed db false
parsed_with e db (some ns) = notify_each e ns db

abbrev pub handled_by :
    Setup → AccountDb → Option (List Notification) → Option (Option Pusher) → Pushed
handled_by e db parsed none = pushed db false
handled_by e db parsed (some none) = pushed db false
handled_by e db parsed (some (some p)) = parsed_with e db parsed

-- the payload as ParseNotifications of the provider reads it, `none` where it refuses it
unfoldable pub handle_notifications :
    Setup → String → Option (List Notification) → AccountDb → Pushed
handle_notifications e provider parsed db = handled_by e db parsed (e.push_of provider)

abbrev pub remove_each : List Subscription → AccountDb → Pushed
remove_each [] db = pushed db true
remove_each (s ∷ ss) db =
    calling (delete_call s.id ∷ []) (remove_each ss (delete_subscription s.id db))

abbrev pub remove_with : String → AccountDb → Option (Option Pusher) → Pushed
remove_with acc db none = pushed db true
remove_with acc db (some none) = pushed db true
remove_with acc db (some (some p)) = remove_each (subscriptions_for_account acc db) db

abbrev pub remove_of : Setup → String → AccountDb → Option Account → Pushed
remove_of e acc db none = pushed db true
remove_of e acc db (some a) = remove_with acc db (e.push_of a.provider)

unfoldable pub remove_subscriptions : Setup → String → AccountDb → Pushed
remove_subscriptions e acc db = remove_of e acc db (get_any_account acc db)

-- The loop of the reconcile over the mail accounts that are in order; an error of one is only logged.
unfoldable pub reconcile_each : Setup → (Account → Bool) → List Account → AccountDb → Pushed
reconcile_each e is_mail [] db = pushed db true
reconcile_each e is_mail (a ∷ later) db =
    let skipped = reconcile_each e is_mail later db in
    let first = ensure_subscription e a.id db in
    let rest = reconcile_each e is_mail later first.db in
    if a.status == account_ok && is_mail a
    then record rest { calls = first.calls ++ rest.calls }
    else skipped

-- The test says that the account's provider is registered and handles mail.
unfoldable pub reconcile_subscriptions : Setup → (Account → Bool) → AccountDb → Pushed
reconcile_subscriptions e is_mail db = reconcile_each e is_mail (list_all_accounts db) db
