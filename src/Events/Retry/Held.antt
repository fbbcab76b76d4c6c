-- ===== src/Events/Retry/Held.antt =====
-- The backlog of a paused hook.
use unified_messaging.Prelude.{
  ℕ, ◌≡◌, ◌≢◌, refl, ◌∙◌, sym, inl, inr, String, Bool, true, false, List, [], ◌∷◌, arith, eq_iff,
  str_ne, if_both, Option-cases, All, All-map, All-select_rows, find_row, has_row,
  find_row-delete_rows_ne, find_row-upsert_row_ne, select_rows,
}
use unified_messaging.Store.Tables.{Delivery}
use unified_messaging.Store.Deliveries.{
  HookDb, is_delivery, rescheduled, save_delivery, delete_delivery, get_any_webhook, is_due,
  due_deliveries, sort_by_next, is_paused_hook,
}
use unified_messaging.Store.Deliveries.Queue.{IsDue, select-IsDue, All-sort_by_next, All-take}
use unified_messaging.Events.Sender.{Wire, SendError, send}
use unified_messaging.Events.Dispatch.{Luck, schedule, plan}
use unified_messaging.Events.Retry.{
  retry_send, retry_one, retry_all, retry_due, retry_page, try_clear, tried_again,
}

module _ {ℓ} {P : Type ℓ} (wire : Wire P) (schedule_of : List ℕ) where
  apart :
      (id i : String) (r : Delivery P) → i ≢ id → is_delivery id r ≡ true → is_delivery i r ≡ false
  apart id i r ne h = ground (arith, eq_iff r.id id, eq_iff r.id i)

  schedule-other :
      (fails : Bool) (now : ℕ) (cause : SendError) (d : Delivery P) (id : String) (db : HookDb P)
      → d.id ≢ id
      → find_row (is_delivery id) (schedule wire schedule_of fails now cause d db).deliveries
        ≡ find_row (is_delivery id) db.deliveries
  unfolding schedule save_delivery plan
  schedule-other true now cause d id db ne = refl
  schedule-other false now cause d id db ne =
      let e = plan wire schedule_of now cause d in
      let same : e.id ≡ d.id = ground arith in
      let ne' : e.id ≢ id = λ q. ne (sym same ∙ q) in
      find_row-upsert_row_ne (is_delivery e.id) (is_delivery id) (rescheduled e) e db.deliveries
        (λ r h. apart id e.id r ne' h) (λ r. refl) (str_ne e.id id ne')

  clear-other :
      (fails : Bool) (i id : String) (db : HookDb P)
      → i ≢ id
      → find_row (is_delivery id) (try_clear fails i db).deliveries
        ≡ find_row (is_delivery id) db.deliveries
  unfolding delete_delivery
  clear-other true i id db ne = refl
  clear-other false i id db ne =
      find_row-delete_rows_ne (is_delivery id) (is_delivery i) db.deliveries
        (λ r h. apart id i r ne h)

  retry_one-other :
      (luck : Luck) (now : ℕ) (d : Delivery P) (id : String) (db : HookDb P)
      → d.id ≢ id
      → find_row (is_delivery id) (retry_one wire schedule_of luck now d db).deliveries
        ≡ find_row (is_delivery id) db.deliveries
  unfolding retry_one retry_send
  retry_one-other luck now d id db ne = elim (Option-cases (get_any_webhook d.webhook_id db)) [
    | inl e ↦ rw (e, retry_one) (clear-other luck.clear_fails d.id id db ne)
    | inr (h, e) ↦
        rw (e, retry_one)
          (if_both
            (λ (x : HookDb P).
              find_row (is_delivery id) x.deliveries ≡ find_row (is_delivery id) db.deliveries)
            h.paused (λ _. refl)
            (λ _. elim (Option-cases (send wire h d.payload (tried_again d).attempts)) [
              | inl s ↦ rw (s, retry_send) (clear-other luck.clear_fails d.id id db ne)
              | inr (cause, s) ↦
                  rw (s, retry_send)
                    (schedule-other luck.save_fails now cause (tried_again d) id db ne)
            ]))
  ]

  retry_all-other :
      (luck : Delivery P → Luck) (now : ℕ) (ds : List (Delivery P)) (id : String) (db : HookDb P)
      → All (λ (d : Delivery P). d.id ≢ id) ds
      → find_row (is_delivery id) (retry_all wire schedule_of luck now ds db).deliveries
        ≡ find_row (is_delivery id) db.deliveries
  unfolding retry_all
  retry_all-other luck now [] id db h = refl
  retry_all-other luck now (d ∷ ds) id db h =
      if_both
        (λ (x : HookDb P).
          find_row (is_delivery id) x.deliveries ≡ find_row (is_delivery id) db.deliveries)
        (luck d).cut_off (λ _. refl)
        (λ _.
          retry_all-other luck now ds id (retry_one wire schedule_of (luck d) now d db) h.1
          ∙ retry_one-other (luck d) now d id db h.0)

  All-and :
      (Q R : Delivery P → Type 0) (ds : List (Delivery P))
      → All Q ds
      → All R ds
      → All (λ d. Q d × R d) ds
  All-and Q R [] q r = tt
  All-and Q R (d ∷ ds) q r = ((q.0, r.0), All-and Q R ds q.1 r.1)

  -- A retry tick leaves the backlog of a paused hook alone, whatever else it does: a delivery of
  -- the hook is there afterwards with its attempts unspent and its time unmoved. Its id is taken to
  -- be in no row of another hook.
  pub retry_due-paused :
      (luck : Delivery P → Luck) (now : ℕ) (hook id : String) (db : HookDb P)
      → has_row (is_paused_hook hook) db.webhooks ≡ true
      → All (λ (d : Delivery P). d.id ≡ id → d.webhook_id ≡ hook) db.deliveries
      → find_row (is_delivery id) (retry_due wire schedule_of luck now db).deliveries
        ≡ find_row (is_delivery id) db.deliveries
  unfolding retry_due due_deliveries
  retry_due-paused luck now hook id db paused owned =
      let picked = select_rows (is_due now db.webhooks) db.deliveries in
      let R : Delivery P → Type 0 = λ d. d.id ≡ id → d.webhook_id ≡ hook in
      let both : Delivery P → Type 0 = λ d. IsDue now db d × R d in
      let ok : All both picked =
        All-and (IsDue now db) R picked (select-IsDue now db db.deliveries)
          (All-select_rows R (is_due now db.webhooks) db.deliveries owned) in
      let listed : All both (due_deliveries now retry_page db) =
        All-take both retry_page (sort_by_next picked) (All-sort_by_next both picked ok) in
      retry_all-other luck now (due_deliveries now retry_page db) id db (
        All-map (due_deliveries now retry_page db)
          (λ (d : Delivery P) b same. let resumed = rw (b.1 same) at b.0.resumed in ground arith)
          listed)
