-- ===== src/Events/Dispatch/Parks.antt =====
-- What a fan-out leaves in the retry queue.
use unified_messaging.Prelude.{
  ℕ, ◌+◌, ◌≡◌, ◌≢◌, ap, ◌∙◌, sym, inl, inr, String, false, Option, none, some, List, [], ◌∷◌, ◌++◌,
  arith, if◌then◌else◌, Bool-cases, Option-cases, All, eq_iff, str_ne, has_row, has_row-append,
  append-nil, append_assoc,
}
use unified_messaging.Model.{Webhook, Event, event_name}
use unified_messaging.Store.Tables.{Delivery}
use unified_messaging.Store.Deliveries.{save_delivery, is_delivery}
use unified_messaging.Events.Sender.{Wire, SendError, send, receives}
use unified_messaging.Events.Dispatch.{
  Luck, FanOut, for_hook, counted, first_attempt, visit, fan_out, enqueue, schedule, plan,
}

-- What is asked of the environment of one hook: an id, a slot and a database that takes the write.
pub record IsServed (luck : Luck) (id : String) : Type 0 where
  pub minted : luck.minted ≡ some id
  pub named : id ≢ ""
  pub in_time : luck.cut_off ≡ false
  pub saved : luck.save_fails ≡ false

module _ {ℓ} {P : Type ℓ} (wire : Wire P) (first_wait : ℕ) (waits : List ℕ) where
  -- The row of a delivery that was refused once.
  abbrev pub parked_row : ℕ → String → Event → Webhook → P → SendError → Delivery P
  parked_row now id ev h payload cause = record {
    id = id;
    webhook_id = h.id;
    account_id = ev.account_id;
    event_type = ev.event_type;
    payload = payload;
    attempts = 1;
    next_attempt_at = now + first_wait;
    last_error = wire.error_text cause;
    dead = false;
    created_at = now;
  }

  abbrev parked_by : ℕ → String → Event → Webhook → P → Option SendError → List (Delivery P)
  parked_by now id ev h payload none = []
  parked_by now id ev h payload (some cause) = parked_row now id ev h payload cause ∷ []

  abbrev parked_for : ℕ → String → Event → Webhook → Option P → List (Delivery P)
  parked_for now id ev h none = []
  parked_for now id ev h (some payload) = parked_by now id ev h payload (send wire h payload 1)

  -- One row for each hook that is sent the event and does not accept it, in the order of the hooks.
  abbrev pub refused_rows : ℕ → (Webhook → String) → Event → List Webhook → List (Delivery P)
  refused_rows now id_of ev [] = []
  refused_rows now id_of ev (h ∷ hs) =
      (if receives (event_name ev.event_type) h
        then parked_for now (id_of h) ev h (wire.encode (for_hook h ev))
        else [])
      ++ refused_rows now id_of ev hs

  -- ids that are in no row, and in no two hooks
  abbrev pub AreFresh : (Webhook → String) → List Webhook → List (Delivery P) → Type 0
  AreFresh id_of [] rows = Unit
  AreFresh id_of (h ∷ hs) rows =
      (has_row (is_delivery (id_of h)) rows ≡ false)
      × All (λ g. id_of g ≢ id_of h) hs
      × AreFresh id_of hs rows

  first_attempt-parks :
      (luck : Luck) (now : ℕ) (id : String) (ev : Event) (h : Webhook) (payload : P) (o : FanOut P)
      → IsServed luck id
      → has_row (is_delivery id) o.db.deliveries ≡ false
      → (first_attempt wire (first_wait ∷ waits) luck now h ev payload o).db.deliveries
        ≡ o.db.deliveries ++ parked_by now id ev h payload (send wire h payload 1)
  unfolding first_attempt enqueue schedule save_delivery plan
  first_attempt-parks luck now id ev h payload o served fresh =
      elim (Option-cases (send wire h payload 1)) [
        | inl e ↦ ground (arith, append-nil o.db.deliveries)
        | inr (cause, e) ↦ ground (arith, served.minted, served.saved, str_ne id "" served.named)
      ]

  first_attempt-cut :
      (luck : Luck) (now : ℕ) (h : Webhook) (ev : Event) (payload : P) (o : FanOut P)
      → (first_attempt wire (first_wait ∷ waits) luck now h ev payload o).cut ≡ o.cut
  unfolding first_attempt
  first_attempt-cut luck now h ev payload o = ground arith

  -- the row of a hook, if it is left one
  abbrev rows_of : ℕ → (Webhook → String) → Event → Webhook → List (Delivery P)
  rows_of now id_of ev h =
      if receives (event_name ev.event_type) h
      then parked_for now (id_of h) ev h (wire.encode (for_hook h ev))
      else []

  visit-parks :
      (luck : Webhook → Luck) (id_of : Webhook → String) (now : ℕ) (ev : Event) (h : Webhook)
      (o : FanOut P)
      → IsServed (luck h) (id_of h)
      → o.cut ≡ false
      → has_row (is_delivery (id_of h)) o.db.deliveries ≡ false
      → let o' = visit wire (first_wait ∷ waits) luck now ev h o in
        (o'.cut ≡ false) × (o'.db.deliveries ≡ o.db.deliveries ++ rows_of now id_of ev h)
  unfolding visit
  visit-parks luck id_of now ev h o served going fresh =
      elim (Bool-cases (receives (event_name ev.event_type) h)) [
        | inr e ↦ (ground arith, ground (arith, append-nil o.db.deliveries))
        | inl r ↦ elim (Option-cases (wire.encode (for_hook h ev))) [
          | inl e ↦ (ground arith, ground (arith, append-nil o.db.deliveries))
          | inr (payload, e) ↦ (
            ground
                (arith, served.in_time, first_attempt-cut (luck h) now h ev payload (counted h o)),
            ground (
              arith,
              served.in_time,
              first_attempt-parks (luck h) now (id_of h) ev h payload (counted h o) served fresh,
            ),
          )
        ]
      ]

  rows_of-other :
      (now : ℕ) (id_of : Webhook → String) (ev : Event) (h : Webhook) (id : String)
      → id ≢ id_of h
      → has_row (is_delivery id) (rows_of now id_of ev h) ≡ false
  rows_of-other now id_of ev h id ne = elim (Option-cases (wire.encode (for_hook h ev))) [
    | inl e ↦ ground arith
    | inr (payload, e) ↦ elim (Option-cases (send wire h payload 1)) [
      | inl k ↦ ground arith
      | inr (cause, k) ↦ ground (arith, eq_iff (id_of h) id)
    ]
  ]

  AreFresh-append :
      (now : ℕ) (id_of : Webhook → String) (ev : Event) (h : Webhook) (hs : List Webhook)
      (rows : List (Delivery P))
      → All (λ g. id_of g ≢ id_of h) hs
      → AreFresh id_of hs rows
      → AreFresh id_of hs (rows ++ rows_of now id_of ev h)
  AreFresh-append now id_of ev h [] rows apart fresh = tt
  AreFresh-append now id_of ev h (g ∷ hs) rows apart fresh = (
    ground (
      arith,
      fresh.0,
      has_row-append (is_delivery (id_of g)) rows (rows_of now id_of ev h),
      rows_of-other now id_of ev h (id_of g) apart.0,
    ),
    fresh.1,
    AreFresh-append now id_of ev h hs rows apart.1 fresh.2,
  )

  -- A fan-out adds to the retry queue one row for each hook that is sent the event, could be sent
  -- its payload and did not accept it: with one attempt made, due after the first wait of the
  -- schedule, live, and under the hook's own id. It adds nothing else and changes no row. Asked of
  -- the environment: ids that are minted fresh, slots in time, and a queue that takes the writes.
  pub fan_out-parks :
      (luck : Webhook → Luck) (id_of : Webhook → String) (now : ℕ) (ev : Event) (hs : List Webhook)
      (o : FanOut P)
      → All (λ h. IsServed (luck h) (id_of h)) hs
      → o.cut ≡ false
      → AreFresh id_of hs o.db.deliveries
      → (fan_out wire (first_wait ∷ waits) luck now ev hs o).db.deliveries
        ≡ o.db.deliveries ++ refused_rows now id_of ev hs
  unfolding fan_out
  fan_out-parks luck id_of now ev [] o served going fresh = sym (append-nil o.db.deliveries)
  fan_out-parks luck id_of now ev (h ∷ hs) o served going fresh =
      let (going', step) = visit-parks luck id_of now ev h o served.0 going fresh.0 in
      let o' = visit wire (first_wait ∷ waits) luck now ev h o in
      let fresh' : AreFresh id_of hs o'.db.deliveries =
        rw step (AreFresh-append now id_of ev h hs o.db.deliveries fresh.1 fresh.2) in
      fan_out-parks luck id_of now ev hs o' served.1 going' fresh'
      ∙ ap (λ rows. rows ++ refused_rows now id_of ev hs) step
      ∙ append_assoc o.db.deliveries (rows_of now id_of ev h) (refused_rows now id_of ev hs)
