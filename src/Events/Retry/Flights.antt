-- ===== src/Events/Retry/Flights.antt =====
-- internal/events/events.go: a redelivery in its two parts, the claim and the end of the attempt,
-- between which other work goes on.
use unified_messaging.Prelude.{
  ℕ, zero, suc, ◌+◌, ◌≡◌, refl, inl, inr, String, Bool, not, ◌||◌, Option, none, some, List, [],
  ◌∷◌, ◌++◌, ◌==◌, map, if◌then◌else◌, Bool-cases, Option-cases, get_elem?, has_row, delete_rows,
}
use unified_messaging.Model.{Webhook}
use unified_messaging.Store.Tables.{Delivery}
use unified_messaging.Store.Deliveries.{
  HookDb, get_delivery, claim_dead_delivery, retention_max_age,
}
use unified_messaging.Events.Sender.{Wire, send}
use unified_messaging.Events.Dispatch.{Luck}
use unified_messaging.Events.Retry.{
  redeliver_lease, is_expired_delivery, restarted, resend, redeliver, claim_and_resend,
}

-- What a handler holds while its attempt runs.
pub record Flight {ℓ} (P : Type ℓ) : Type ℓ where
  pub hook : Webhook
  pub delivery : Delivery P

-- The tables, the attempts that run, and the ids of the claims whose answer was not written down.
pub record Desk {ℓ} (P : Type ℓ) : Type ℓ where
  pub db : HookDb P
  pub flights : List (Flight P)
  pub unwritten : List String

module _ {ℓ} {P : Type ℓ} where
  abbrev pub begin_claimed : Delivery P → HookDb P × Bool → HookDb P × Option (Delivery P)
  begin_claimed d (db, claimed) = (db, if claimed then some (restarted d) else none)

  -- Redeliver up to the send; `none` is one of its errors.
  unfoldable pub begin_redeliver : ℕ → Webhook → String → HookDb P → HookDb P × Option (Delivery P)
  begin_redeliver now h id db = elim (get_delivery h.id id db) [
    | none ↦ (db, none)
    | some d ↦ if not d.dead then (db, none) else elim (retention_max_age h.developer_id db) [
      | none ↦ (db, none)
      | some age ↦
          if is_expired_delivery now age d
          then (db, none)
          else begin_claimed d (claim_dead_delivery d.id (now + redeliver_lease) db)
    ]
  ]

  abbrev pub taken_off : Webhook → Desk P → HookDb P × Option (Delivery P) → Desk P
  taken_off h desk (db, none) = record desk { db = db }
  taken_off h desk (db, some d) = record desk {
    db = db;
    flights = record { hook = h; delivery = d } ∷ desk.flights;
  }

  abbrev pub drop_at : ℕ → List (Flight P) → List (Flight P)
  drop_at n [] = []
  drop_at zero (f ∷ fs) = fs
  drop_at (suc n) (f ∷ fs) = f ∷ drop_at n fs

  abbrev pub is_flight : String → Flight P → Bool
  is_flight id f = f.delivery.id == id

  -- a claim of the delivery has not been answered for
  abbrev pub is_open : Desk P → String → Bool
  is_open desk id = has_row (is_flight id) desk.flights || has_row (λ s. s == id) desk.unwritten

  -- the process dies, and its attempts with it
  abbrev pub crashed : Desk P → Desk P
  crashed desk = record {
    db = desk.db;
    flights = [];
    unwritten = map (λ (f : Flight P). f.delivery.id) desk.flights ++ desk.unwritten;
  }

-- the write that the attempt ends with goes through
abbrev pub is_written {ℓ} : {P : Type ℓ} → Wire P → Luck → Flight P → Bool
is_written wire luck f = elim (send wire f.hook f.delivery.payload 1) [
  | none ↦ not luck.clear_fails
  | some cause ↦ not luck.save_fails
]

module _ {ℓ} {P : Type ℓ} (wire : Wire P) (schedule_of : List ℕ) where
  abbrev pub ended : Luck → ℕ → Webhook → HookDb P × Option (Delivery P) → HookDb P
  ended luck now h (db, none) = db
  ended luck now h (db, some d) = (resend wire schedule_of luck now h d db).0

  abbrev pub landed : Luck → ℕ → ℕ → Flight P → Desk P → Desk P
  landed luck now n f desk = record {
    db = (resend wire schedule_of luck now f.hook f.delivery desk.db).0;
    flights = drop_at n desk.flights;
    unwritten =
        if is_written wire luck f
        then delete_rows (λ s. s == f.delivery.id) desk.unwritten
        else f.delivery.id ∷ desk.unwritten;
  }

  -- the end of one of the attempts that run
  unfoldable pub land : Luck → ℕ → ℕ → Desk P → Desk P
  land luck now n desk = elim (get_elem? desk.flights n) [
    | none ↦ desk
    | some f ↦ landed luck now n f desk
  ]

  claim-ended :
      (luck : Luck) (now : ℕ) (h : Webhook) (d : Delivery P) (db : HookDb P)
      → (claim_and_resend wire schedule_of luck now h d db).0
        ≡ ended luck now h (begin_claimed d (claim_dead_delivery d.id (now + redeliver_lease) db))
  claim-ended luck now h d db =
      elim (Bool-cases (claim_dead_delivery d.id (now + redeliver_lease) db).1) [
        | inl e ↦ rw e refl
        | inr e ↦ rw e refl
      ]

  -- The two parts make up Redeliver.
  pub redeliver-ended :
      (luck : Luck) (now : ℕ) (h : Webhook) (id : String) (db : HookDb P)
      → (redeliver wire schedule_of luck now h id db).0
        ≡ ended luck now h (begin_redeliver now h id db)
  unfolding redeliver begin_redeliver
  redeliver-ended luck now h id db = elim (Option-cases (get_delivery h.id id db)) [
    | inl e ↦ rw (e, redeliver, begin_redeliver) refl
    | inr (d, e) ↦ elim (Bool-cases d.dead) [
      | inr live ↦ rw (e, live, redeliver, begin_redeliver) refl
      | inl dead ↦ elim (Option-cases (retention_max_age h.developer_id db)) [
        | inl a ↦ rw (e, dead, a, redeliver, begin_redeliver) refl
        | inr (age, a) ↦ elim (Bool-cases (is_expired_delivery now age d)) [
          | inl x ↦ rw (e, dead, a, x, redeliver, begin_redeliver) refl
          | inr x ↦ rw (e, dead, a, x, redeliver, begin_redeliver) (claim-ended luck now h d db)
        ]
      ]
    ]
  ]
