-- ===== src/Syncer/Notifications/Kept.antt =====
-- internal/syncer/subscriptions.go: the secrets over any sequence of what the syncer does with
-- subscriptions.
use unified_messaging.Prelude.{
  sym, subst, String, Bool, true, ◌&&◌, Option, none, some, List, [], ◌∷◌, ◌==◌, if_both, All,
  Result, ok, failed,
}
use unified_messaging.Model.{Account, account_ok}
use unified_messaging.Store.Accounts.{AccountDb, Subscription, get_any_account, list_all_accounts}
use unified_messaging.Accounts.{ManagerError}
use unified_messaging.Accounts.Tokens.{access_token}
use unified_messaging.Syncer.Subscriptions.{
  Setup, Pusher, Pushed, get_subscription, delete_subscription, subscriptions_for_account,
  ensure_subscription,
}
use unified_messaging.Syncer.Notifications.{
  Notification, LifecycleAction, lifecycle_none, lifecycle_reauthorize, lifecycle_recreate,
  reauthorized, recreated, act_on, lifecycle_with, lifecycle_of, handle_lifecycle, is_lifecycle,
  notified, notify_each, handled_by, handle_notifications, is_rejected, remove_each, remove_with,
  remove_of, remove_subscriptions, reconcile_each, reconcile_subscriptions,
}
use unified_messaging.Syncer.Notifications.Secrets.{
  HasSecret, AllSecret, MintsSecrets, access_token-subscriptions, deleted-AllSecret,
  ensure_subscription-AllSecret,
}

-- What the syncer does with subscriptions, each with its clock, its secrets and the provider's
-- answers.
pub data PushOp : Type 0 where
  ensure_op : Setup → (account : String) → PushOp
  notify_op : Setup → (provider : String) → Option (List Notification) → PushOp
  remove_op : Setup → (account : String) → PushOp
  reconcile_op : Setup → (Account → Bool) → PushOp

unfoldable pub run_push_op : PushOp → AccountDb → AccountDb
run_push_op (ensure_op e acc) db = (ensure_subscription e acc db).db
run_push_op (notify_op e provider parsed) db = (handle_notifications e provider parsed db).db
run_push_op (remove_op e acc) db = (remove_subscriptions e acc db).db
run_push_op (reconcile_op e is_mail) db = (reconcile_subscriptions e is_mail db).db

unfoldable pub run_push_ops : List PushOp → AccountDb → AccountDb
run_push_ops [] db = db
run_push_ops (op ∷ ops) db = run_push_ops ops (run_push_op op db)

abbrev pub OpMints : PushOp → Type 0
OpMints (ensure_op e acc) = MintsSecrets e
OpMints (notify_op e provider parsed) = MintsSecrets e
OpMints (remove_op e acc) = MintsSecrets e
OpMints (reconcile_op e is_mail) = MintsSecrets e

module _ (e : Setup) (minted : MintsSecrets e) where
  recreated-AllSecret :
      (s : Subscription) (p : Pushed) → AllSecret p.db → AllSecret (recreated s p).db
  recreated-AllSecret s p h = if_both (λ (x : Pushed). AllSecret x.db) p.ok (λ u. h) (λ u. h)

  reauthorized-AllSecret :
      (p : Pusher) (s : Subscription) (db : AccountDb) (r : Result ManagerError String)
      → AllSecret db
      → AllSecret (reauthorized p s db r).db
  reauthorized-AllSecret p s db (ok tok) h = h
  reauthorized-AllSecret p s db (failed err) h = h

  act_on-AllSecret :
      (p : Pusher) (s : Subscription) (db : AccountDb) (a : LifecycleAction)
      → AllSecret db
      → AllSecret (act_on e p s db a).db
  act_on-AllSecret p s db lifecycle_none h = h
  act_on-AllSecret p s db lifecycle_reauthorize h =
      let step = access_token e.manager e.now e.drawn true s.account_id db in
      reauthorized-AllSecret p s step.db step.answer (
        subst (All HasSecret)
          (sym (access_token-subscriptions e.manager e.now e.drawn true s.account_id db)) h)
  act_on-AllSecret p s db lifecycle_recreate h =
      recreated-AllSecret s (ensure_subscription e s.account_id (delete_subscription s.id db)) (
        ensure_subscription-AllSecret e minted s.account_id (delete_subscription s.id db)
          (deleted-AllSecret e minted s.id db h))

  lifecycle_with-AllSecret :
      (s : Subscription) (a : LifecycleAction) (db : AccountDb) (o : Option (Option Pusher))
      → AllSecret db
      → AllSecret (lifecycle_with e s a db o).db
  lifecycle_with-AllSecret s a db none h = h
  lifecycle_with-AllSecret s a db (some none) h = h
  lifecycle_with-AllSecret s a db (some (some p)) h = act_on-AllSecret p s db a h

  lifecycle_of-AllSecret :
      (s : Subscription) (a : LifecycleAction) (db : AccountDb) (o : Option Account)
      → AllSecret db
      → AllSecret (lifecycle_of e s a db o).db
  lifecycle_of-AllSecret s a db none h = h
  lifecycle_of-AllSecret s a db (some x) h =
      lifecycle_with-AllSecret s a db (e.push_of x.provider) h

  notified-AllSecret :
      (n : Notification) (db : AccountDb) (o : Option Subscription)
      → AllSecret db
      → AllSecret (notified e n db o).db
  unfolding handle_lifecycle
  notified-AllSecret n db none h = h
  notified-AllSecret n db (some s) h =
      if_both (λ (x : Pushed). AllSecret x.db) (is_rejected s n) (λ u. h)
        (λ u.
          if_both (λ (x : Pushed). AllSecret x.db) (is_lifecycle n.lifecycle)
            (λ v. lifecycle_of-AllSecret s n.lifecycle db (get_any_account s.account_id db) h)
            (λ v. h))

  notify_each-AllSecret :
      (ns : List Notification) (db : AccountDb) → AllSecret db → AllSecret (notify_each e ns db).db
  unfolding notify_each
  notify_each-AllSecret [] db h = h
  notify_each-AllSecret (n ∷ ns) db h =
      let o = get_subscription n.subscription_id db in
      notify_each-AllSecret ns (notified e n db o).db (notified-AllSecret n db o h)

  handled_by-AllSecret :
      (db : AccountDb) (parsed : Option (List Notification)) (o : Option (Option Pusher))
      → AllSecret db
      → AllSecret (handled_by e db parsed o).db
  handled_by-AllSecret db parsed none h = h
  handled_by-AllSecret db parsed (some none) h = h
  handled_by-AllSecret db none (some (some p)) h = h
  handled_by-AllSecret db (some ns) (some (some p)) h = notify_each-AllSecret ns db h

  remove_each-AllSecret :
      (ss : List Subscription) (db : AccountDb) → AllSecret db → AllSecret (remove_each ss db).db
  remove_each-AllSecret [] db h = h
  remove_each-AllSecret (s ∷ ss) db h =
      remove_each-AllSecret ss (delete_subscription s.id db) (deleted-AllSecret e minted s.id db h)

  remove_with-AllSecret :
      (acc : String) (db : AccountDb) (o : Option (Option Pusher))
      → AllSecret db
      → AllSecret (remove_with acc db o).db
  remove_with-AllSecret acc db none h = h
  remove_with-AllSecret acc db (some none) h = h
  remove_with-AllSecret acc db (some (some p)) h =
      remove_each-AllSecret (subscriptions_for_account acc db) db h

  remove_of-AllSecret :
      (acc : String) (db : AccountDb) (o : Option Account)
      → AllSecret db
      → AllSecret (remove_of e acc db o).db
  remove_of-AllSecret acc db none h = h
  remove_of-AllSecret acc db (some a) h = remove_with-AllSecret acc db (e.push_of a.provider) h

  reconcile_each-AllSecret :
      (is_mail : Account → Bool) (accounts : List Account) (db : AccountDb)
      → AllSecret db
      → AllSecret (reconcile_each e is_mail accounts db).db
  unfolding reconcile_each
  reconcile_each-AllSecret is_mail [] db h = h
  reconcile_each-AllSecret is_mail (a ∷ later) db h =
      if_both (λ (x : Pushed). AllSecret x.db) (a.status == account_ok && is_mail a)
        (λ u.
          reconcile_each-AllSecret is_mail later (ensure_subscription e a.id db).db
            (ensure_subscription-AllSecret e minted a.id db h))
        (λ u. reconcile_each-AllSecret is_mail later db h)

run_push_op-AllSecret :
    (op : PushOp) (db : AccountDb) → OpMints op → AllSecret db → AllSecret (run_push_op op db)
unfolding run_push_op handle_notifications remove_subscriptions reconcile_subscriptions
run_push_op-AllSecret (ensure_op e acc) db minted h =
    ensure_subscription-AllSecret e minted acc db h
run_push_op-AllSecret (notify_op e provider parsed) db minted h =
    handled_by-AllSecret e minted db parsed (e.push_of provider) h
run_push_op-AllSecret (remove_op e acc) db minted h =
    remove_of-AllSecret e minted acc db (get_any_account acc db) h
run_push_op-AllSecret (reconcile_op e is_mail) db minted h =
    reconcile_each-AllSecret e minted is_mail (list_all_accounts db) db h

-- Every stored subscription has a secret that is not empty, over any sequence of what the syncer
-- does with subscriptions, whatever the providers answer and whatever notifications come in, as
-- long as the secrets that are minted are not empty.
pub run_push_ops-AllSecret :
    (ops : List PushOp) (db : AccountDb)
    → All OpMints ops
    → AllSecret db
    → AllSecret (run_push_ops ops db)
unfolding run_push_ops
run_push_ops-AllSecret [] db minted h = h
run_push_ops-AllSecret (op ∷ ops) db minted h =
    run_push_ops-AllSecret ops (run_push_op op db) minted.1 (run_push_op-AllSecret op db minted.0 h)
