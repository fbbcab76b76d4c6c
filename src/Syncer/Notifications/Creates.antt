-- ===== src/Syncer/Notifications/Creates.antt =====
-- internal/syncer/subscriptions.go: replacing a subscription comes to an end.
use unified_messaging.Prelude.{
  ℕ, suc, ◌≤◌, ◌≡◌, refl, inl, inr, String, Bool, true, false, Option, none, some, List, [], ◌∷◌,
  ◌++◌, ◌==◌, arith, if_both, Option-cases,
}
use unified_messaging.Model.{Account}
use unified_messaging.Store.Accounts.{AccountDb, Subscription, get_any_account}
use unified_messaging.Syncer.Subscriptions.{
  Setup, Pusher, Created, created, exists_already, create_failed, PushCall, create_call, renew_call,
  delete_call, list_call, Pushed, pushed, delete_calls, stored_created, create_as, adopt_listed,
  adopt_existing, create_subscription, is_healthy, ensure_each, ensure_with, ensure_of,
  ensure_subscription, delete_subscription, subscriptions_for_account,
}

-- How often Create is asked for.
abbrev pub creates : List PushCall → ℕ
creates [] = 0
creates (create_call secret ∷ calls) = suc (creates calls)
creates (renew_call id ∷ calls) = creates calls
creates (delete_call id ∷ calls) = creates calls
creates (list_call ∷ calls) = creates calls

creates-delete_calls :
    (ids : List String) (calls : List PushCall)
    → creates (delete_calls ids ++ calls) ≡ creates calls
creates-delete_calls [] calls = refl
creates-delete_calls (id ∷ ids) calls = creates-delete_calls ids calls

module _ (e : Setup) (p : Pusher) (acc : String) where
  creates-stored :
      (secret : String) (db : AccountDb) (again : Pushed) (n : ℕ) (r : Created)
      → creates again.calls ≤ n
      → creates (stored_created e acc secret db again r).calls ≤ n
  creates-stored secret db again n (created id resource expires) h = omega arith
  creates-stored secret db again n exists_already h = h
  creates-stored secret db again n create_failed h = omega arith

  creates-create_as :
      (db : AccountDb) (retried : Bool) (again : Pushed) (n : ℕ) (o : Option String)
      → creates again.calls ≤ n
      → creates (create_as e p acc db retried again o).calls ≤ suc n
  creates-create_as db retried again n none h = omega arith
  creates-create_as db retried again n (some secret) h =
      omega (arith, creates-stored secret db again n (p.create retried secret) h)

  creates-adopt_listed :
      (db : AccountDb) (o : Option (List String)) → creates (adopt_listed e p acc db o).calls ≤ 1
  creates-adopt_listed db none = omega arith
  creates-adopt_listed db (some []) = omega arith
  creates-adopt_listed db (some (id ∷ ids)) =
      let again = create_as e p acc db true (pushed db false) (e.secret true) in
      omega (
        arith,
        creates-delete_calls (id ∷ ids) again.calls,
        creates-create_as db true (pushed db false) 0 (e.secret true) (omega arith),
      )

  creates-create_subscription :
      (db : AccountDb) → creates (create_subscription e p acc db).calls ≤ 2
  unfolding create_subscription adopt_existing
  creates-create_subscription db =
      creates-create_as db false (adopt_existing e p acc db) 1 (e.secret false)
        (creates-adopt_listed db p.listed)

  creates-ensure_each :
      (ss : List Subscription) (db : AccountDb) → creates (ensure_each e p acc ss db).calls ≤ 2
  unfolding ensure_each
  creates-ensure_each [] db = creates-create_subscription db
  creates-ensure_each (s ∷ ss) db =
      if_both (λ (x : Pushed). creates x.calls ≤ 2) (is_healthy e p s) (λ u. omega arith)
        (λ u. elim (Option-cases (p.renew s.id)) [
          | inl q ↦ rw q (creates-ensure_each ss (delete_subscription s.id db))
          | inr (expires, q) ↦ rw q (omega arith)
        ])

creates-ensure_with :
    (e : Setup) (acc : String) (db : AccountDb) (o : Option (Option Pusher))
    → creates (ensure_with e acc db o).calls ≤ 2
creates-ensure_with e acc db none = omega arith
creates-ensure_with e acc db (some none) = omega arith
creates-ensure_with e acc db (some (some p)) =
    creates-ensure_each e p acc (subscriptions_for_account acc db) db

creates-ensure_of :
    (e : Setup) (acc : String) (db : AccountDb) (o : Option Account)
    → creates (ensure_of e acc db o).calls ≤ 2
creates-ensure_of e acc db none = omega arith
creates-ensure_of e acc db (some a) = creates-ensure_with e acc db (e.push_of a.provider)

-- Whatever a provider answers, one call of EnsureSubscription asks it for a new subscription at most
-- twice, so a provider that reports a duplicate forever is given up.
pub ensure_subscription-creates :
    (e : Setup) (acc : String) (db : AccountDb) → creates (ensure_subscription e acc db).calls ≤ 2
unfolding ensure_subscription
ensure_subscription-creates e acc db =
    if_both (λ (x : Pushed). creates x.calls ≤ 2) (e.public_base_url == "") (λ u. omega arith)
      (λ u. creates-ensure_of e acc db (get_any_account acc db))
