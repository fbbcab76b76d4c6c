-- ===== src/Events/Retry/Turns.antt =====
-- The operations on the retry queue in any order: no delivery is tried without end.
use unified_messaging.Prelude.{ℕ, String, Bool, List, [], ◌∷◌}
use unified_messaging.Model.{Webhook, Event}
use unified_messaging.Store.Tables.{Delivery}
use unified_messaging.Store.Deliveries.{
  HookDb, list_webhooks_for, set_webhook_paused, delete_webhook, purge_dead_deliveries,
}
use unified_messaging.Events.Sender.{Wire}
use unified_messaging.Events.Dispatch.{Luck, fan_out, begin_fan_out}
use unified_messaging.Events.Retry.{retry_due, retry_one, send_test}
use unified_messaging.Events.Retry.Flights.{
  Desk, begin_redeliver, taken_off, is_open, crashed, land,
}
use unified_messaging.Events.Retry.Bounds.{IsSound}

-- What changes the queue: an event, a tick, an attempt on a copy that a tick listed before other work
-- was done, a test, the claim of a redelivery and the end of its attempt, the death of the process,
-- and the three calls of the API and of the hourly sweep that touch the queue.
pub data Turn {ℓ} (P : Type ℓ) : Type ℓ where
  emit : (luck : Webhook → Luck) (now : ℕ) → Event → Turn P
  tick : (luck : Delivery P → Luck) (now : ℕ) → Turn P
  late : (luck : Luck) (now : ℕ) → Delivery P → Turn P
  test : (luck : Luck) (now : ℕ) → Webhook → Turn P
  claim : (now : ℕ) → Webhook → (id : String) → Turn P
  answer : (luck : Luck) (now n : ℕ) → Turn P
  crash : Turn P
  pause : (developer id : String) → Bool → Turn P
  remove : (developer id : String) → Turn P
  purge : (now global : ℕ) → Turn P

abbrev with_db {ℓ} : {P : Type ℓ} → Desk P → HookDb P → Desk P
with_db desk db = record desk { db = db }

module _ {ℓ} {P : Type ℓ} (wire : Wire P) (schedule_of : List ℕ) where
  unfoldable pub turn : Turn P → Desk P → Desk P
  turn (emit luck now ev) desk =
      with_db desk
        (fan_out wire schedule_of luck now ev (list_webhooks_for ev.account_id desk.db)
          (begin_fan_out desk.db)).db
  turn (tick luck now) desk = with_db desk (retry_due wire schedule_of luck now desk.db)
  turn (late luck now d) desk = with_db desk (retry_one wire schedule_of luck now d desk.db)
  turn (test luck now h) desk = with_db desk (send_test wire schedule_of luck now h desk.db).0
  turn (claim now h id) desk = taken_off h desk (begin_redeliver now h id desk.db)
  turn (answer luck now n) desk = land wire schedule_of luck now n desk
  turn crash desk = crashed desk
  turn (pause dev id paused) desk = with_db desk (set_webhook_paused dev id paused desk.db).0
  turn (remove dev id) desk = with_db desk (delete_webhook dev id desk.db).0
  turn (purge now global) desk = with_db desk (purge_dead_deliveries now global desk.db).0

  unfoldable pub turns : List (Turn P) → Desk P → Desk P
  turns [] desk = desk
  turns (t ∷ ts) desk = turns ts (turn t desk)

  -- The ids of the queue are unique, and a live delivery, unless a claim of it has not been answered
  -- for, has made no more attempts than the schedule has waits.
  abbrev pub IsKept : Desk P → Type 0
  IsKept desk = IsSound wire schedule_of (is_open desk) desk.db
