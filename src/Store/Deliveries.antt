-- ===== src/Store/Deliveries.antt =====
-- internal/store/aux.go: webhooks and the retry queue of their deliveries. The payload of a
-- delivery is opaque here. Every function is the statement that the Go method executes, on a
-- database that answers.

pub mod Queue
use mathlib.Core.Option
use unified_messaging.Prelude.{
  ℕ, ◌+◌, ◌-◌, String, Bool, true, false, not, ◌&&◌, ◌||◌, Option, none, some, List, [], ◌∷◌, ◌++◌,
  ◌==◌, ltb, leb, if◌then◌else◌, find_row, select_rows, update_rows, delete_rows, has_row,
  upsert_row, take, eqb, count_rows,
}
use unified_messaging.Model.{Account, Webhook}
use unified_messaging.Store.Tables.{DeveloperRow, Delivery}

-- The tables that the dispatcher reads and writes, but for the content tables.
pub record HookDb {ℓ} (P : Type ℓ) : Type ℓ where
  pub webhooks : List Webhook
  pub deliveries : List (Delivery P)
  pub developers : List DeveloperRow
  pub accounts : List Account

abbrev pub is_hook : String → Webhook → Bool
is_hook id w = w.id == id

abbrev pub owned_hook : String → String → Webhook → Bool
owned_hook dev id w = w.developer_id == dev && w.id == id

abbrev pub is_developer : String → DeveloperRow → Bool
is_developer id d = d.id == id

abbrev pub is_account : String → Account → Bool
is_account id a = a.id == id

-- the hooks bound to the account and the developer-wide ones of its owner
abbrev pub reaches : Option String → String → Webhook → Bool
reaches none acc w = false
reaches (some dev) acc w = w.developer_id == dev && (w.account_id == acc || w.account_id == "")

abbrev pub is_paused_hook : String → Webhook → Bool
is_paused_hook id w = w.id == id && w.paused

module _ {ℓ} {P : Type ℓ} where
  abbrev pub is_delivery : String → Delivery P → Bool
  is_delivery id d = d.id == id

  -- the developer of an account: the subquery of ListWebhooksFor
  unfoldable pub owner_of : String → HookDb P → Option String
  owner_of acc db =
      Option.map (λ (a : Account). a.developer_id) (find_row (is_account acc) db.accounts)

  unfoldable pub list_webhooks_for : String → HookDb P → List Webhook
  list_webhooks_for acc db = select_rows (reaches (owner_of acc db) acc) db.webhooks

  unfoldable pub get_any_webhook : String → HookDb P → Option Webhook
  get_any_webhook id db = find_row (is_hook id) db.webhooks

  -- the flag is false for ErrNotFound
  unfoldable pub set_webhook_paused : String → String → Bool → HookDb P → HookDb P × Bool
  set_webhook_paused dev id paused db = (
    record db {
      webhooks =
          update_rows (owned_hook dev id)
            (λ (w : Webhook). let v : Webhook = record w { paused = paused } in v) db.webhooks;
    },
    has_row (owned_hook dev id) db.webhooks,
  )

  -- the deliveries of a hook that is deleted go with it (ON DELETE CASCADE)
  unfoldable pub delete_webhook : String → String → HookDb P → HookDb P × Bool
  delete_webhook dev id db =
      if has_row (owned_hook dev id) db.webhooks
      then (
        record db {
          webhooks = delete_rows (owned_hook dev id) db.webhooks;
          deliveries = delete_rows (λ (d : Delivery P). d.webhook_id == id) db.deliveries;
        },
        true,
      )
      else (db, false)

  abbrev pub rescheduled : Delivery P → Delivery P → Delivery P
  rescheduled d r = record r {
    attempts = d.attempts;
    next_attempt_at = d.next_attempt_at;
    last_error = d.last_error;
    dead = d.dead;
  }

  unfoldable pub save_delivery : Delivery P → HookDb P → HookDb P
  save_delivery d db = record db {
    deliveries = upsert_row (is_delivery d.id) (rescheduled d) d db.deliveries;
  }

  -- the WHERE clause of DueDeliveries
  unfoldable pub is_due : ℕ → List Webhook → Delivery P → Bool
  is_due now hooks d =
      not d.dead && leb d.next_attempt_at now && not (has_row (is_paused_hook d.webhook_id) hooks)

  -- ORDER BY next_attempt_at
  unfoldable pub insert_by_next : Delivery P → List (Delivery P) → List (Delivery P)
  insert_by_next d [] = d ∷ []
  insert_by_next d (e ∷ es) =
      if leb d.next_attempt_at e.next_attempt_at then d ∷ e ∷ es else e ∷ insert_by_next d es

  unfoldable pub sort_by_next : List (Delivery P) → List (Delivery P)
  sort_by_next [] = []
  sort_by_next (d ∷ ds) = insert_by_next d (sort_by_next ds)

  unfoldable pub due_deliveries : ℕ → ℕ → HookDb P → List (Delivery P)
  due_deliveries now limit db =
      take limit (sort_by_next (select_rows (is_due now db.webhooks) db.deliveries))

  unfoldable pub get_delivery : String → String → HookDb P → Option (Delivery P)
  get_delivery hook id db =
      find_row (λ (d : Delivery P). d.webhook_id == hook && d.id == id) db.deliveries

  abbrev pub is_dead_delivery : String → Delivery P → Bool
  is_dead_delivery id d = d.id == id && d.dead

  abbrev pub leased : ℕ → Delivery P → Delivery P
  leased until d = record d { dead = false; next_attempt_at = until }

  -- one conditional write; the flag says that a row was claimed (RowsAffected = 1)
  unfoldable pub claim_dead_delivery : String → ℕ → HookDb P → HookDb P × Bool
  claim_dead_delivery id until db = (
    record db { deliveries = update_rows (is_dead_delivery id) (leased until) db.deliveries },
    eqb (count_rows (is_dead_delivery id) db.deliveries) 1,
  )

  unfoldable pub delete_delivery : String → HookDb P → HookDb P
  delete_delivery id db = record db { deliveries = delete_rows (is_delivery id) db.deliveries }

  -- the retention age in seconds of the developer who owns the hook, 0 where there is none
  unfoldable pub hook_max_age : String → HookDb P → ℕ
  hook_max_age hook db = elim (find_row (is_hook hook) db.webhooks) [
    | none ↦ 0
    | some w ↦ elim (find_row (is_developer w.developer_id) db.developers) [
      | none ↦ 0
      | some d ↦ d.retention_max_age_secs
    ]
  ]

  unfoldable pub is_purged : ℕ → ℕ → HookDb P → Delivery P → Bool
  is_purged now global db d =
      let age = hook_max_age d.webhook_id db in
      d.dead && (ltb d.created_at (now - global) || (ltb 0 age && ltb age (now - d.created_at)))

  -- `now - global` and `now - created_at` stop at 0 here; both are below the time since 1970
  unfoldable pub purge_dead_deliveries : ℕ → ℕ → HookDb P → HookDb P × ℕ
  purge_dead_deliveries now global db = (
    record db { deliveries = delete_rows (is_purged now global db) db.deliveries },
    count_rows (is_purged now global db) db.deliveries,
  )

  -- `none` is ErrNotFound (internal/store/developers.go)
  unfoldable pub retention_max_age : String → HookDb P → Option ℕ
  retention_max_age dev db =
      Option.map (λ (d : DeveloperRow). d.retention_max_age_secs)
        (find_row (is_developer dev) db.developers)

  -- DeleteAccount (internal/store/store.go): three deletes in one transaction
  unfoldable pub delete_account : String → HookDb P → HookDb P
  delete_account acc db = record db {
    deliveries =
        delete_rows
          (λ (d : Delivery P).
            d.account_id == acc
            || has_row (λ (w : Webhook). w.id == d.webhook_id && w.account_id == acc) db.webhooks)
          db.deliveries;
    webhooks = delete_rows (λ (w : Webhook). w.account_id == acc) db.webhooks;
    accounts = delete_rows (is_account acc) db.accounts;
  }
