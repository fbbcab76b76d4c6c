-- ===== src/Syncer/Notifications/Forged.antt =====
-- internal/syncer/subscriptions.go: a notification without the secret moves nothing.
use unified_messaging.Prelude.{
  ◌≡◌, ◌≢◌, refl, ◌⊎◌, inl, inr, String, true, Option, none, some, List, [], ◌∷◌, arith, eq_iff,
  Option-cases, All,
}
use unified_messaging.Store.Accounts.{AccountDb, Subscription}
use unified_messaging.Syncer.Subscriptions.{Setup, Pusher, Pushed, pushed, get_subscription}
use unified_messaging.Syncer.Notifications.{
  Notification, notified, notify_each, handled_by, handle_notifications, is_rejected,
}

-- The notification does not carry the secret of the subscription that it names.
abbrev pub IsForged : AccountDb → Notification → Type 0
IsForged db n =
    (s : Subscription)
    → get_subscription n.subscription_id db ≡ some s
    → (s.client_state ≡ "") ⊎ (s.client_state ≢ n.client_state)

forged_is_rejected :
    (s : Subscription) (n : Notification)
    → (s.client_state ≡ "") ⊎ (s.client_state ≢ n.client_state)
    → is_rejected s n ≡ true
forged_is_rejected s n (inl e) = ground (arith, eq_iff s.client_state "", e)
forged_is_rejected s n (inr e) = ground (arith, eq_iff s.client_state n.client_state, e)

notified-forged :
    (e : Setup) (n : Notification) (db : AccountDb)
    → IsForged db n
    → notified e n db (get_subscription n.subscription_id db) ≡ pushed db true
notified-forged e n db forged = elim (Option-cases (get_subscription n.subscription_id db)) [
  | inl q ↦ rw q refl
  | inr (s, q) ↦ rw (q, forged_is_rejected s n (forged s q)) refl
]

notify_each-forged :
    (e : Setup) (ns : List Notification) (db : AccountDb)
    → All (IsForged db) ns
    → notify_each e ns db ≡ pushed db true
unfolding notify_each
notify_each-forged e [] db forged = refl
notify_each-forged e (n ∷ ns) db forged =
    rw (notified-forged e n db forged.0, notify_each-forged e ns db forged.1) refl

-- no change, no call of a provider, no sync asked for
abbrev pub IsIgnored : AccountDb → Pushed → Type 0
IsIgnored db p = (p.db ≡ db) × (p.calls ≡ []) × (p.wakes ≡ [])

handled_by-forged :
    (e : Setup) (ns : List Notification) (db : AccountDb) (o : Option (Option Pusher))
    → All (IsForged db) ns
    → IsIgnored db (handled_by e db (some ns) o)
handled_by-forged e ns db none forged = (refl, refl, refl)
handled_by-forged e ns db (some none) forged = (refl, refl, refl)
handled_by-forged e ns db (some (some p)) forged =
    rw (notify_each-forged e ns db forged) (refl, refl, refl)

-- A payload in which no notification carries the secret of the subscription that it names, or in
-- which that subscription has none, changes nothing, calls no provider and asks for no sync.
pub handle_notifications-forged :
    (e : Setup) (provider : String) (ns : List Notification) (db : AccountDb)
    → All (IsForged db) ns
    → IsIgnored db (handle_notifications e provider (some ns) db)
unfolding handle_notifications
handle_notifications-forged e provider ns db forged =
    handled_by-forged e ns db (e.push_of provider) forged
