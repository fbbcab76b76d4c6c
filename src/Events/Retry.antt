-- ===== src/Events/Retry.antt =====
-- internal/events/events.go: the retry tick, the test event and the redelivery by hand.
pub mod Closure
pub mod Held
pub mod Flights
pub mod Bounds
pub mod Turns
pub mod Redeliver
use unified_messaging.Prelude.{
  ℕ, ◌+◌, ◌-◌, suc, String, Bool, true, false, not, ◌&&◌, ◌||◌, Option, none, some, List, [], ◌∷◌,
  ◌==◌, ltb, leb, if◌then◌else◌,
}
use unified_messaging.Model.{Webhook, Event, webhook_test}
use unified_messaging.Store.Tables.{Delivery}
use unified_messaging.Store.Deliveries.{
  HookDb, due_deliveries, get_any_webhook, get_delivery, delete_delivery, claim_dead_delivery,
  retention_max_age,
}
use unified_messaging.Events.Sender.{Wire, SendError, send}
use unified_messaging.Events.Dispatch.{Luck, for_hook, schedule, enqueue, first_delivery}

abbrev pub retry_page : ℕ
retry_page = 100

-- `redeliverLease`, in seconds
abbrev pub redeliver_lease : ℕ
redeliver_lease = 600

-- What SendTest and Redeliver answer: an `Attempt`, or an error.
pub data Answer : Type 0 where
  accepted : (delivery_id : String) → Answer
  queued : (delivery_id error : String) → Answer
  no_delivery not_dead expired no_developer : Answer
  not_encoded not_minted : Answer

abbrev blank_event : Event
blank_event = record {
  event_type = webhook_test;
  account_id = "";
  timestamp = none;
  webhook = none;
  email = none;
  email_id = "";
  account = none;
  message = none;
  chat = none;
  message_ids = [];
  status = "";
  change = "";
  reaction = none;
}

abbrev pub test_event : ℕ → Webhook → Event
test_event now h =
    let e : Event = record blank_event { account_id = h.account_id; timestamp = some now } in
    for_hook h e

module _ {ℓ} {P : Type ℓ} where
  abbrev pub is_expired_delivery : ℕ → ℕ → Delivery P → Bool
  is_expired_delivery now age d = ltb 0 age && ltb age (now - d.created_at)

  -- a delete whose error is only logged
  abbrev pub try_clear : Bool → String → HookDb P → HookDb P
  try_clear true id db = db
  try_clear false id db = delete_delivery id db

  abbrev pub tried_again : Delivery P → Delivery P
  tried_again d = record d { attempts = suc d.attempts }

  abbrev pub restarted : Delivery P → Delivery P
  restarted d = record d { dead = false; attempts = 1 }

module _ {ℓ} {P : Type ℓ} (wire : Wire P) (schedule_of : List ℕ) where
  unfoldable pub retry_send : Luck → ℕ → Webhook → Delivery P → HookDb P → HookDb P
  retry_send luck now h d db = elim (send wire h d.payload d.attempts) [
    | none ↦ try_clear luck.clear_fails d.id db
    | some cause ↦ schedule wire schedule_of luck.save_fails now cause d db
  ]

  -- One delivery that was listed, on the database as it is when its turn comes.
  unfoldable pub retry_one : Luck → ℕ → Delivery P → HookDb P → HookDb P
  retry_one luck now d db = elim (get_any_webhook d.webhook_id db) [
    | none ↦ try_clear luck.clear_fails d.id db
    | some h ↦ if h.paused then db else retry_send luck now h (tried_again d) db
  ]

  -- A tick that the shutdown cuts off leaves this delivery and all later ones.
  unfoldable pub retry_all : (Delivery P → Luck) → ℕ → List (Delivery P) → HookDb P → HookDb P
  retry_all luck now [] db = db
  retry_all luck now (d ∷ ds) db =
      let rest = retry_all luck now ds (retry_one (luck d) now d db) in
      if (luck d).cut_off then db else rest

  unfoldable pub retry_due : (Delivery P → Luck) → ℕ → HookDb P → HookDb P
  retry_due luck now db = retry_all luck now (due_deliveries now retry_page db) db

  unfoldable pub send_test : Luck → ℕ → Webhook → HookDb P → HookDb P × Answer
  send_test luck now h db = elim (wire.encode (test_event now h)) [
    | none ↦ (db, not_encoded)
    | some payload ↦ elim luck.minted [
      | none ↦ (db, not_minted)
      | some id ↦ elim (send wire h payload 1) [
        | none ↦ (db, accepted id)
        | some cause ↦ (
          enqueue wire schedule_of luck now cause
              (first_delivery luck now h (test_event now h) payload) db,
          queued id (wire.error_text cause),
        )
      ]
    ]
  ]

  -- The attempt of a delivery that was claimed.
  unfoldable pub resend : Luck → ℕ → Webhook → Delivery P → HookDb P → HookDb P × Answer
  resend luck now h d db = elim (send wire h d.payload 1) [
    | none ↦ (try_clear luck.clear_fails d.id db, accepted d.id)
    | some cause ↦ (
      schedule wire schedule_of luck.save_fails now cause d db,
      queued d.id (wire.error_text cause),
    )
  ]

  abbrev pub claim_and_resend : Luck → ℕ → Webhook → Delivery P → HookDb P → HookDb P × Answer
  claim_and_resend luck now h d db =
      let (db', claimed) = claim_dead_delivery d.id (now + redeliver_lease) db in
      if not claimed then (db', not_dead) else resend luck now h (restarted d) db'

  -- `Redeliver`, with nothing else done between the claim and the end of its attempt; Flights has the
  -- two parts.
  unfoldable pub redeliver : Luck → ℕ → Webhook → String → HookDb P → HookDb P × Answer
  redeliver luck now h id db = elim (get_delivery h.id id db) [
    | none ↦ (db, no_delivery)
    | some d ↦ if not d.dead then (db, not_dead) else elim (retention_max_age h.developer_id db) [
      | none ↦ (db, no_developer)
      | some age ↦
          if is_expired_delivery now age d then (db, expired) else claim_and_resend luck now h d db
    ]
  ]
