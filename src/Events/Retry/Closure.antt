-- ===== src/Events/Retry/Closure.antt =====
-- An invariant of the tables that scheduling and clearing a delivery keep is an invariant of the
-- whole dispatcher.
use unified_messaging.Prelude.{
  ℕ, inl, inr, String, Bool, true, false, not, ◌||◌, List, [], ◌∷◌, if_both, Option-cases,
}
use unified_messaging.Model.{Webhook, Event, event_name}
use unified_messaging.Store.Tables.{Delivery}
use unified_messaging.Store.Deliveries.{HookDb, delete_delivery, get_any_webhook}
use unified_messaging.Events.Sender.{Wire, SendError, send, receives}
use unified_messaging.Events.Dispatch.{
  Luck, FanOut, for_hook, counted, first_attempt, visit, fan_out, enqueue, schedule,
  with_delivery_id,
}
use unified_messaging.Events.Retry.{
  retry_send, retry_one, retry_all, send_test, try_clear, tried_again, test_event,
}

module _ {ℓ κ} {P : Type ℓ} (wire : Wire P) (schedule_of : List ℕ) (I : HookDb P → Type κ)
    (on_schedule : (save_fails : Bool) (now : ℕ) (cause : SendError) (d : Delivery P)
        (db : HookDb P)
      → I db
      → I (schedule wire schedule_of save_fails now cause d db))
    (on_delete : (id : String) (db : HookDb P) → I db → I (delete_delivery id db)) where
  enqueue-keeps :
      (luck : Luck) (now : ℕ) (cause : SendError) (d : Delivery P) (db : HookDb P)
      → I db
      → I (enqueue wire schedule_of luck now cause d db)
  unfolding enqueue
  enqueue-keeps luck now cause d db h = elim (Option-cases (with_delivery_id luck.reminted d)) [
    | inl e ↦ rw (e, enqueue) h
    | inr (x, e) ↦ rw (e, enqueue) (on_schedule luck.save_fails now cause _ db h)
  ]

  pub clear-keeps : (fails : Bool) (id : String) (db : HookDb P) → I db → I (try_clear fails id db)
  unfolding delete_delivery
  clear-keeps true id db h = h
  clear-keeps false id db h = on_delete id db h

  send-keeps :
      (luck : Luck) (now : ℕ) (h : Webhook) (d : Delivery P) (db : HookDb P)
      → I db
      → I (retry_send wire schedule_of luck now h d db)
  unfolding retry_send
  send-keeps luck now h d db k = elim (Option-cases (send wire h d.payload d.attempts)) [
    | inl e ↦ rw (e, retry_send) (clear-keeps luck.clear_fails d.id db k)
    | inr (cause, e) ↦ rw (e, retry_send) (on_schedule luck.save_fails now cause d db k)
  ]

  pub retry_one-keeps :
      (luck : Luck) (now : ℕ) (d : Delivery P) (db : HookDb P)
      → I db
      → I (retry_one wire schedule_of luck now d db)
  unfolding retry_one
  retry_one-keeps luck now d db k = elim (Option-cases (get_any_webhook d.webhook_id db)) [
    | inl e ↦ rw (e, retry_one) (clear-keeps luck.clear_fails d.id db k)
    | inr (h, e) ↦
        rw (e, retry_one)
          (if_both I h.paused (λ _. k) (λ _. send-keeps luck now h (tried_again d) db k))
  ]

  pub retry_all-keeps :
      (luck : Delivery P → Luck) (now : ℕ) (ds : List (Delivery P)) (db : HookDb P)
      → I db
      → I (retry_all wire schedule_of luck now ds db)
  unfolding retry_all
  retry_all-keeps luck now [] db k = k
  retry_all-keeps luck now (d ∷ ds) db k =
      if_both I (luck d).cut_off (λ _. k)
        (λ _.
          retry_all-keeps luck now ds (retry_one wire schedule_of (luck d) now d db)
            (retry_one-keeps (luck d) now d db k))

  attempt-keeps :
      (luck : Luck) (now : ℕ) (h : Webhook) (ev : Event) (payload : P) (o : FanOut P)
      → I o.db
      → I (first_attempt wire schedule_of luck now h ev payload o).db
  unfolding first_attempt
  attempt-keeps luck now h ev payload o k = elim (Option-cases (send wire h payload 1)) [
    | inl e ↦ rw (e, first_attempt) k
    | inr (cause, e) ↦ rw (e, first_attempt) (enqueue-keeps luck now cause _ o.db k)
  ]

  visit-keeps :
      (luck : Webhook → Luck) (now : ℕ) (ev : Event) (h : Webhook) (o : FanOut P)
      → I o.db
      → I (visit wire schedule_of luck now ev h o).db
  unfolding visit
  visit-keeps luck now ev h o k =
      if_both (λ (x : FanOut P). I x.db) (o.cut || not (receives (event_name ev.event_type) h))
        (λ _. k)
        (λ _. elim (Option-cases (wire.encode (for_hook h ev))) [
          | inl e ↦ rw e k
          | inr (payload, e) ↦ rw e (
              if_both (λ (x : FanOut P). I x.db) (luck h).cut_off (λ _. k)
                (λ _. attempt-keeps (luck h) now h ev payload (counted h o) k))
        ])

  pub fan_out-keeps :
      (luck : Webhook → Luck) (now : ℕ) (ev : Event) (hs : List Webhook) (o : FanOut P)
      → I o.db
      → I (fan_out wire schedule_of luck now ev hs o).db
  unfolding fan_out
  fan_out-keeps luck now ev [] o k = k
  fan_out-keeps luck now ev (h ∷ hs) o k =
      fan_out-keeps luck now ev hs (visit wire schedule_of luck now ev h o)
        (visit-keeps luck now ev h o k)

  pub send_test-keeps :
      (luck : Luck) (now : ℕ) (h : Webhook) (db : HookDb P)
      → I db
      → I (send_test wire schedule_of luck now h db).0
  unfolding send_test
  send_test-keeps luck now h db k = elim (Option-cases (wire.encode (test_event now h))) [
    | inl e ↦ rw (e, send_test) k
    | inr (payload, e) ↦ elim (Option-cases luck.minted) [
      | inl m ↦ rw (e, m, send_test) k
      | inr (id, m) ↦ elim (Option-cases (send wire h payload 1)) [
        | inl s ↦ rw (e, m, s, send_test) k
        | inr (cause, s) ↦ rw (e, m, s, send_test) (enqueue-keeps luck now cause _ db k)
      ]
    ]
  ]
