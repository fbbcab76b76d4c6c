-- ===== src/Syncer/Notifications/Secrets.antt =====
-- internal/syncer/subscriptions.go: every subscription that is stored has a secret.
use unified_messaging.Prelude.{
  ℕ, ◌≡◌, refl, inl, inr, String, Char, Bool, true, false, Option, none, some, List, [], ◌∷◌, ◌==◌,
  if_both, Option-cases, All, All-upsert_row, All-delete_rows, All-select_rows,
}
use unified_messaging.Model.{Account}
use unified_messaging.Secretbox.{open_sealed, seal}
use unified_messaging.Store.Accounts.{
  AccountDb, Subscription, TokenRow, get_any_account, get_tokens, save_tokens, set_account_status,
}
use unified_messaging.Accounts.{
  Manager, Backend, Refreshed, refreshed, grant_is_dead, refresh_broke, Step, persist,
}
use unified_messaging.Accounts.Tokens.{
  mark_credentials, is_cached, rotated, redeemed, looked_up, refreshing, access_token,
}
use unified_messaging.Syncer.Subscriptions.{
  Setup, Pusher, Created, created, exists_already, create_failed, Pushed, pushed, is_subscription,
  expiring, save_subscription, delete_subscription, subscriptions_for_account, subscription_row,
  stored_created, create_as, adopt_listed, adopt_existing, create_subscription, is_healthy,
  ensure_each, ensure_with, ensure_of, ensure_subscription,
}

abbrev pub HasSecret : Subscription → Type 0
HasSecret s = (s.client_state == "") ≡ false

abbrev pub AllSecret : AccountDb → Type 0
AllSecret db = All HasSecret db.subscriptions

-- a request for a token leaves the subscriptions alone
redeemed-subscriptions :
    (m : Manager) (now : ℕ) (drawn : Option (List Char)) (acc held : String) (db : AccountDb)
    (r : Refreshed)
    → (redeemed m now drawn acc held db r).db.subscriptions ≡ db.subscriptions
unfolding mark_credentials set_account_status persist save_tokens
redeemed-subscriptions m now drawn acc held db grant_is_dead = refl
redeemed-subscriptions m now drawn acc held db refresh_broke = refl
redeemed-subscriptions m now drawn acc held db (refreshed tok) =
    elim (Option-cases (seal m.key drawn (rotated held tok).refresh_token)) [
      | inl q ↦ rw q refl
      | inr (sealed, q) ↦ rw q refl
    ]

looked_up-subscriptions :
    (m : Manager) (now : ℕ) (drawn : Option (List Char)) (acc : String) (t : TokenRow)
    (db : AccountDb) (o : Option Backend)
    → (looked_up m now drawn acc t db o).db.subscriptions ≡ db.subscriptions
looked_up-subscriptions m now drawn acc t db none = refl
looked_up-subscriptions m now drawn acc t db (some p) =
    elim (Option-cases (open_sealed m.key t.refresh_token_enc)) [
      | inl q ↦ rw q refl
      | inr (held, q) ↦ rw q (redeemed-subscriptions m now drawn acc held db (p.refresh held))
    ]

refreshing-subscriptions :
    (m : Manager) (now : ℕ) (drawn : Option (List Char)) (acc : String) (t : TokenRow)
    (db : AccountDb) (o : Option Account)
    → (refreshing m now drawn acc t db o).db.subscriptions ≡ db.subscriptions
refreshing-subscriptions m now drawn acc t db none = refl
refreshing-subscriptions m now drawn acc t db (some a) =
    looked_up-subscriptions m now drawn acc t db (m.registry a.provider)

pub access_token-subscriptions :
    (m : Manager) (now : ℕ) (drawn : Option (List Char)) (force : Bool) (acc : String)
    (db : AccountDb)
    → (access_token m now drawn force acc db).db.subscriptions ≡ db.subscriptions
unfolding access_token
access_token-subscriptions m now drawn force acc db = elim (Option-cases (get_tokens acc db)) [
  | inl q ↦ rw q refl
  | inr (t, q) ↦ rw q (
      if_both (λ (s : Step String). s.db.subscriptions ≡ db.subscriptions) (is_cached now force t)
        (λ u. refl) (λ u. refreshing-subscriptions m now drawn acc t db (get_any_account acc db)))
]

-- A secret that is minted is not empty.
abbrev pub MintsSecrets : Setup → Type 0
MintsSecrets e = (b : Bool) (s : String) → e.secret b ≡ some s → (s == "") ≡ false

module _ (e : Setup) (minted : MintsSecrets e) where
  saved-AllSecret :
      (s : Subscription) (db : AccountDb)
      → HasSecret s
      → AllSecret db
      → AllSecret (save_subscription s db)
  unfolding save_subscription
  saved-AllSecret s db mine h =
      All-upsert_row HasSecret (is_subscription s.id) (expiring s.expires_at) s db.subscriptions
        (λ r q u. u) mine h

  pub deleted-AllSecret :
      (id : String) (db : AccountDb) → AllSecret db → AllSecret (delete_subscription id db)
  unfolding delete_subscription
  deleted-AllSecret id db h = All-delete_rows HasSecret (is_subscription id) db.subscriptions h

  stored_created-AllSecret :
      (acc secret : String) (db : AccountDb) (again : Pushed) (r : Created)
      → (secret == "") ≡ false
      → AllSecret db
      → AllSecret again.db
      → AllSecret (stored_created e acc secret db again r).db
  stored_created-AllSecret acc secret db again (created id resource expires) named h next =
      saved-AllSecret (subscription_row e.now acc id resource secret expires) db named h
  stored_created-AllSecret acc secret db again exists_already named h next = next
  stored_created-AllSecret acc secret db again create_failed named h next = h

  create_as-AllSecret :
      (p : Pusher) (acc : String) (db : AccountDb) (retried : Bool) (again : Pushed)
      → AllSecret db
      → AllSecret again.db
      → AllSecret (create_as e p acc db retried again (e.secret retried)).db
  create_as-AllSecret p acc db retried again h next = elim (Option-cases (e.secret retried)) [
    | inl q ↦ rw q h
    | inr (secret, q) ↦ rw q (
        stored_created-AllSecret acc secret db again (p.create retried secret)
          (minted retried secret q) h next)
  ]

  adopt_listed-AllSecret :
      (p : Pusher) (acc : String) (db : AccountDb) (o : Option (List String))
      → AllSecret db
      → AllSecret (adopt_listed e p acc db o).db
  adopt_listed-AllSecret p acc db none h = h
  adopt_listed-AllSecret p acc db (some []) h = h
  adopt_listed-AllSecret p acc db (some (id ∷ ids)) h =
      create_as-AllSecret p acc db true (pushed db false) h h

  create_subscription-AllSecret :
      (p : Pusher) (acc : String) (db : AccountDb)
      → AllSecret db
      → AllSecret (create_subscription e p acc db).db
  unfolding create_subscription adopt_existing
  create_subscription-AllSecret p acc db h =
      create_as-AllSecret p acc db false (adopt_existing e p acc db) h
        (adopt_listed-AllSecret p acc db p.listed h)

  ensure_each-AllSecret :
      (p : Pusher) (acc : String) (ss : List Subscription) (db : AccountDb)
      → All HasSecret ss
      → AllSecret db
      → AllSecret (ensure_each e p acc ss db).db
  unfolding ensure_each
  ensure_each-AllSecret p acc [] db mine h = create_subscription-AllSecret p acc db h
  ensure_each-AllSecret p acc (s ∷ ss) db mine h =
      let rest =
        ensure_each-AllSecret p acc ss (delete_subscription s.id db) mine.1
          (deleted-AllSecret s.id db h) in
      if_both (λ (x : Pushed). AllSecret x.db) (is_healthy e p s) (λ u. h)
        (λ u. elim (Option-cases (p.renew s.id)) [
          | inl q ↦ rw q rest
          | inr (expires, q) ↦ rw q (
              saved-AllSecret (subscription_row e.now acc s.id s.resource s.client_state expires) db
                mine.0 h)
        ])

  ensure_with-AllSecret :
      (acc : String) (db : AccountDb) (o : Option (Option Pusher))
      → AllSecret db
      → AllSecret (ensure_with e acc db o).db
  unfolding subscriptions_for_account
  ensure_with-AllSecret acc db none h = h
  ensure_with-AllSecret acc db (some none) h = h
  ensure_with-AllSecret acc db (some (some p)) h =
      ensure_each-AllSecret p acc (subscriptions_for_account acc db) db
        (All-select_rows HasSecret (λ (s : Subscription). s.account_id == acc) db.subscriptions h) h

  ensure_of-AllSecret :
      (acc : String) (db : AccountDb) (o : Option Account)
      → AllSecret db
      → AllSecret (ensure_of e acc db o).db
  ensure_of-AllSecret acc db none h = h
  ensure_of-AllSecret acc db (some a) h = ensure_with-AllSecret acc db (e.push_of a.provider) h

  pub ensure_subscription-AllSecret :
      (acc : String) (db : AccountDb) → AllSecret db → AllSecret (ensure_subscription e acc db).db
  unfolding ensure_subscription
  ensure_subscription-AllSecret acc db h =
      if_both (λ (x : Pushed). AllSecret x.db) (e.public_base_url == "") (λ u. h)
        (λ u. ensure_of-AllSecret acc db (get_any_account acc db) h)
