-- ===== src/Events/Dispatch/Evicts.antt =====
-- Content is dropped on delivery only when every subscriber has it.
use unified_messaging.Prelude.{
  ℕ, ◌<◌, ◌≡◌, refl, ◌∙◌, ◌⊎◌, inl, inr, String, true, false, not, ◌&&◌, ◌||◌, none, some, List, [],
  ◌∷◌, arith, ltb, if_both, Bool-cases, Option-cases, All,
}
use unified_messaging.Model.{Webhook, Event, event_name}
use unified_messaging.Store.Deliveries.{HookDb, list_webhooks_for, retention_max_age, save_delivery}
use unified_messaging.Events.Sender.{Wire, send, receives, delivers_full_payload}
use unified_messaging.Events.Dispatch.{
  EventDb, Luck, FanOut, for_hook, counted, first_attempt, visit, fan_out, begin_fan_out, deliver,
  evict_delivered, enqueue, schedule,
}

module _ {ℓ} {P : Type ℓ} (wire : Wire P) (schedule_of : List ℕ) where
  -- The hook was sent the event and accepted it, if it is one that is sent it at all.
  abbrev pub HasAccepted : Event → Webhook → Type ℓ
  HasAccepted ev h =
      receives (event_name ev.event_type) h ≡ true
      → (payload : P) × (wire.encode (for_hook h ev) ≡ some payload)
        × (send wire h payload 1 ≡ none)

  abbrev pub TakesFullPayload : Event → List Webhook → Type 0
  TakesFullPayload ev [] = ⊥
  TakesFullPayload ev (h ∷ hs) =
      ((receives (event_name ev.event_type) h ≡ true) × (delivers_full_payload h.kind ≡ true))
      ⊎ TakesFullPayload ev hs

  -- a fan-out that failed or was cut off stays so
  pub fan_out-failed :
      (luck : Webhook → Luck) (now : ℕ) (ev : Event) (hs : List Webhook) (o : FanOut P)
      → (o.cut || o.failed) ≡ true
      → ((fan_out wire schedule_of luck now ev hs o).cut
          || (fan_out wire schedule_of luck now ev hs o).failed)
        ≡ true
  unfolding fan_out visit first_attempt
  fan_out-failed luck now ev [] o h = h
  fan_out-failed luck now ev (x ∷ hs) o h =
      fan_out-failed luck now ev hs (visit wire schedule_of luck now ev x o) (ground arith)

  first_attempt-ok :
      (luck : Luck) (now : ℕ) (h : Webhook) (ev : Event) (payload : P) (o : FanOut P)
      → (first_attempt wire schedule_of luck now h ev payload o).failed ≡ false
      → send wire h payload 1 ≡ none
  unfolding first_attempt
  first_attempt-ok luck now h ev payload o k = ground arith

  visit-HasAccepted :
      (luck : Webhook → Luck) (now : ℕ) (ev : Event) (h : Webhook) (o : FanOut P)
      → ((visit wire schedule_of luck now ev h o).cut
          || (visit wire schedule_of luck now ev h o).failed)
        ≡ false
      → HasAccepted ev h
  unfolding visit
  visit-HasAccepted luck now ev h o k r = elim (Option-cases (wire.encode (for_hook h ev))) [
    | inl e ↦ absurd (ground arith)
    | inr (payload, e) ↦
        (payload, e, first_attempt-ok (luck h) now h ev payload (counted h o) (ground arith))
  ]

  fan_out-HasAccepted :
      (luck : Webhook → Luck) (now : ℕ) (ev : Event) (hs : List Webhook) (o : FanOut P)
      → ((fan_out wire schedule_of luck now ev hs o).cut
          || (fan_out wire schedule_of luck now ev hs o).failed)
        ≡ false
      → All (HasAccepted ev) hs
  unfolding fan_out
  fan_out-HasAccepted luck now ev [] o k = tt
  fan_out-HasAccepted luck now ev (h ∷ hs) o k =
      let o' = visit wire schedule_of luck now ev h o in
      (
        visit-HasAccepted luck now ev h o (ground (arith, fan_out-failed luck now ev hs o')),
        fan_out-HasAccepted luck now ev hs o' k,
      )

  fan_out-matched :
      (luck : Webhook → Luck) (now : ℕ) (ev : Event) (hs : List Webhook) (o : FanOut P)
      → 0 < (fan_out wire schedule_of luck now ev hs o).matched
      → (0 < o.matched) ⊎ TakesFullPayload ev hs
  unfolding fan_out visit first_attempt
  fan_out-matched luck now ev [] o k = inl k
  fan_out-matched luck now ev (h ∷ hs) o k =
      elim (fan_out-matched luck now ev hs (visit wire schedule_of luck now ev h o) k) [
        | inr t ↦ inr (inr t)
        | inl m ↦ elim (Bool-cases (receives (event_name ev.event_type) h)) [
          | inl r ↦ elim (Bool-cases (delivers_full_payload h.kind)) [
            | inl d ↦ inr (inl (r, d))
            | inr d ↦ inl (ground arith)
          ]
          | inr r ↦ inl (ground arith)
        ]
      ]

  fan_out-developers :
      (luck : Webhook → Luck) (now : ℕ) (ev : Event) (hs : List Webhook) (o : FanOut P)
      → (fan_out wire schedule_of luck now ev hs o).db.developers ≡ o.db.developers
  unfolding fan_out visit first_attempt enqueue schedule save_delivery
  fan_out-developers luck now ev [] o = refl
  fan_out-developers luck now ev (h ∷ hs) o =
      fan_out-developers luck now ev hs (visit wire schedule_of luck now ev h o) ∙ ground arith

  -- Some developer of the deployment asked for content not to be kept.
  abbrev pub HasPolicy : HookDb P → Type 0
  HasPolicy db = (dev : String) × (age : ℕ) × (retention_max_age dev db ≡ some age) × (0 < age)

  -- Why content may be dropped on delivery.
  pub record IsForwarded (ev : Event) (db : HookDb P) : Type ℓ where
    pub accepted : All (HasAccepted ev) (list_webhooks_for ev.account_id db)
    pub full : TakesFullPayload ev (list_webhooks_for ev.account_id db)
    pub policy : HasPolicy db

  evict_delivered-policy :
      (now : ℕ) (ev : Event) (dev : String) (db : EventDb P)
      → ((evict_delivered now ev dev db).mail ≡ db.mail)
          × ((evict_delivered now ev dev db).chats ≡ db.chats)
        ⊎ HasPolicy db.hooks
  unfolding evict_delivered
  evict_delivered-policy now ev dev db = elim (Option-cases (retention_max_age dev db.hooks)) [
    | inl e ↦ inl (ground arith, ground arith)
    | inr (age, e) ↦ elim (Bool-cases (ltb 0 age)) [
      | inl l ↦ inr (dev, age, e, ground arith)
      | inr l ↦ inl (ground arith, ground arith)
    ]
  ]

  -- Dispatching an event leaves all mail and all chat content alone, unless every hook that the
  -- event goes to accepted its payload, one of them takes the full payload, and there is a
  -- developer with a retention policy. Hooks that are paused or not subscribed do not count.
  pub deliver-evicts :
      (luck : Webhook → Luck) (now : ℕ) (ev : Event) (db : EventDb P)
      → ((deliver wire schedule_of luck now ev db).mail ≡ db.mail)
          × ((deliver wire schedule_of luck now ev db).chats ≡ db.chats)
        ⊎ IsForwarded ev db.hooks
  unfolding deliver retention_max_age
  deliver-evicts luck now ev db =
      let hooks = list_webhooks_for ev.account_id db.hooks in
      let o = fan_out wire schedule_of luck now ev hooks (begin_fan_out db.hooks) in
      let db' : EventDb P = record db { hooks = o.db } in
      if_both
        (λ (r : EventDb P). ((r.mail ≡ db.mail) × (r.chats ≡ db.chats)) ⊎ IsForwarded ev db.hooks)
        (not o.cut && ltb 0 o.matched && not o.failed)
        (λ go. elim (evict_delivered-policy now ev o.developer_id db') [
          | inl same ↦ inl same
          | inr (dev, age, found, positive) ↦ inr (record {
            accepted =
                fan_out-HasAccepted luck now ev hooks (begin_fan_out db.hooks) (ground arith);
            full =
                elim (fan_out-matched luck now ev hooks (begin_fan_out db.hooks) (ground arith)) [
                  | inl none_yet ↦ absurd (ground arith)
                  | inr t ↦ t
                ];
            policy = (
              dev,
              age,
              ground (arith, found, fan_out-developers luck now ev hooks (begin_fan_out db.hooks)),
              positive,
            );
          })
        ])
        (λ stop. inl (refl, refl))
