-- ===== src/Events/Retry/Bounds.antt =====
-- How often a delivery is attempted.
use unified_messaging.Prelude.{
  ℕ, ◌+◌, ◌-◌, ◌≤◌, ◌≡◌, refl, ap, inl, inr, String, Bool, true, false, ◌||◌, Option, none, some,
  List, [], ◌∷◌, ◌==◌, arith, if_both, Bool-cases, Option-cases, All, All-map, eq_iff, length,
  get_elem?, get_elem?-lt, All-upsert_row, All-append, All-delete_rows, All-update_rows,
  update_rows, delete_rows, has_row, count_rows, count_rows-upsert_row, count_rows-update_rows,
  count_rows-delete_rows, has_row-count_rows, update_rows-none, count_rows-le,
}
use unified_messaging.Model.{Webhook}
use unified_messaging.Store.Tables.{Delivery}
use unified_messaging.Store.Deliveries.{
  HookDb, save_delivery, is_delivery, rescheduled, delete_delivery, claim_dead_delivery,
  is_dead_delivery, leased, get_delivery, retention_max_age,
}
use unified_messaging.Events.Sender.{Wire, SendError, send}
use unified_messaging.Events.Dispatch.{Luck, schedule, plan}
use unified_messaging.Events.Retry.{resend, is_expired_delivery, redeliver_lease}
use unified_messaging.Events.Retry.Flights.{Flight, begin_claimed, begin_redeliver, is_written}

-- what holds of every row, where an UPDATE or a DELETE takes care of the rows of one id
module _ {ℓ κ} {P : Type ℓ} (Q : Delivery P → Type κ) (id : String) where
  abbrev pub But : Delivery P → Type κ
  But d = is_delivery id d ≡ false → Q d

  update-All :
      (f : Delivery P → Delivery P) (ds : List (Delivery P))
      → ((r : Delivery P) → Q (f r))
      → All But ds
      → All Q (update_rows (is_delivery id) f ds)
  update-All f [] ok h = tt
  update-All f (d ∷ ds) ok h = elim (Bool-cases (is_delivery id d)) [
    | inl e ↦ rw e (ok d, update-All f ds ok h.1)
    | inr e ↦ rw e (h.0 e, update-All f ds ok h.1)
  ]

  delete-All : (ds : List (Delivery P)) → All But ds → All Q (delete_rows (is_delivery id) ds)
  delete-All [] h = tt
  delete-All (d ∷ ds) h = elim (Bool-cases (is_delivery id d)) [
    | inl e ↦ rw e (delete-All ds h.1)
    | inr e ↦ rw e (h.0 e, delete-All ds h.1)
  ]

  none-All : (ds : List (Delivery P)) → has_row (is_delivery id) ds ≡ false → All But ds → All Q ds
  none-All [] e h = tt
  none-All (d ∷ ds) e h = (h.0 (ground arith), none-All ds (ground arith) h.1)

module _ {ℓ} {P : Type ℓ} (wire : Wire P) (schedule_of : List ℕ) where
  -- a delivery that is still being tried has an attempt left
  abbrev pub HasTriesLeft : Delivery P → Type 0
  HasTriesLeft d = d.dead ≡ false → d.attempts ≤ length schedule_of

  plan-HasTriesLeft :
      (now : ℕ) (cause : SendError) (d : Delivery P)
      → HasTriesLeft (plan wire schedule_of now cause d)
  unfolding plan
  plan-HasTriesLeft now cause d = elim (Option-cases (get_elem? schedule_of (d.attempts - 1))) [
    | inl e ↦ λ live. absurd (ground arith)
    | inr (w, e) ↦ λ live. ground (arith, get_elem?-lt schedule_of (d.attempts - 1) {x = w} e)
  ]

  plan-id :
      (now : ℕ) (cause : SendError) (d : Delivery P) → (plan wire schedule_of now cause d).id ≡ d.id
  unfolding plan
  plan-id now cause d = ground arith

  -- the primary key of the table
  abbrev pub HasUniqueIds : HookDb P → Type 0
  HasUniqueIds db = (id : String) → count_rows (is_delivery id) db.deliveries ≤ 1

  schedule-HasUniqueIds :
      (save_fails : Bool) (now : ℕ) (cause : SendError) (d : Delivery P) (db : HookDb P)
      → HasUniqueIds db
      → HasUniqueIds (schedule wire schedule_of save_fails now cause d db)
  unfolding schedule save_delivery
  schedule-HasUniqueIds true now cause d db h id = h id
  schedule-HasUniqueIds false now cause d db h id =
      let e = plan wire schedule_of now cause d in
      count_rows-upsert_row (is_delivery e.id) (is_delivery id) (rescheduled e) e db.deliveries
        (λ r. refl)
        (λ hit new.
          let q : e.id ≡ id = (eq_iff e.id id).0 hit in
          has_row-count_rows (is_delivery id) db.deliveries (rw q at new))
        (h id)

  delete-HasUniqueIds :
      (id : String) (db : HookDb P) → HasUniqueIds db → HasUniqueIds (delete_delivery id db)
  unfolding delete_delivery
  delete-HasUniqueIds id db h k =
      omega (arith, h k, count_rows-delete_rows (is_delivery k) (is_delivery id) db.deliveries)

  claim-HasUniqueIds :
      (id : String) (until : ℕ) (db : HookDb P)
      → HasUniqueIds db
      → HasUniqueIds (claim_dead_delivery id until db).0
  unfolding claim_dead_delivery
  claim-HasUniqueIds id until db h k = omega (
    arith,
    h k,
    count_rows-update_rows (is_delivery k) (is_dead_delivery id) (leased until) db.deliveries
        (λ r _. refl),
  )

  -- What the queue keeps to, but for the rows of some ids: they have a claim that was not answered for.
  abbrev pub Within : (String → Bool) → Delivery P → Type 0
  Within o d = o d.id ≡ false → HasTriesLeft d

  pub record IsSound (o : String → Bool) (db : HookDb P) : Type 0 where
    pub bounded : All (Within o) db.deliveries
    pub unique : HasUniqueIds db

  pub schedule-IsSound :
      (o : String → Bool) (save_fails : Bool) (now : ℕ) (cause : SendError) (d : Delivery P)
      (db : HookDb P)
      → IsSound o db
      → IsSound o (schedule wire schedule_of save_fails now cause d db)
  unfolding schedule save_delivery
  schedule-IsSound o true now cause d db s = s
  schedule-IsSound o false now cause d db s =
      let e = plan wire schedule_of now cause d in
      let ok = plan-HasTriesLeft now cause d in
      record {
        bounded =
            All-upsert_row (Within o) (is_delivery e.id) (rescheduled e) e db.deliveries
              (λ r _ _ _. ok) (λ _. ok) s.bounded;
        unique = schedule-HasUniqueIds false now cause d db s.unique;
      }

  pub delete_rows-IsSound :
      (o : String → Bool) (p : Delivery P → Bool) (db db' : HookDb P)
      → db'.deliveries ≡ delete_rows p db.deliveries
      → IsSound o db
      → IsSound o db'
  delete_rows-IsSound o p db db' e s = record {
    bounded = rw e (All-delete_rows (Within o) p db.deliveries s.bounded);
    unique = λ k. omega (
      arith,
      s.unique k,
      ap (count_rows (is_delivery k)) e,
      count_rows-delete_rows (is_delivery k) p db.deliveries,
    );
  }

  -- more ids may be open
  pub weaken-IsSound :
      (o o' : String → Bool) (db : HookDb P)
      → ((k : String) → o' k ≡ false → o k ≡ false)
      → IsSound o db
      → IsSound o' db
  weaken-IsSound o o' db more s = record {
    bounded = All-map db.deliveries (λ d w closed. w (more d.id closed)) s.bounded;
    unique = s.unique;
  }

  -- what the claim of a redelivery leaves
  abbrev pub IsBegun : (String → Bool) → HookDb P × Option (Delivery P) → Type 0
  IsBegun o (db, none) = IsSound o db
  IsBegun o (db, some d) = IsSound (λ k. (d.id == k) || o k) db

  unclaimed :
      (o : String → Bool) (id : String) (until : ℕ) (db : HookDb P)
      → IsSound o db
      → (claim_dead_delivery id until db).1 ≡ false
      → IsSound o (claim_dead_delivery id until db).0
  unfolding claim_dead_delivery
  unclaimed o id until db s lost =
      let few =
        count_rows-le (is_dead_delivery id) (is_delivery id) db.deliveries (λ r h. ground arith) in
      let one = s.unique id in
      record {
        bounded =
            rw (update_rows-none (is_dead_delivery id) (leased until) db.deliveries (ground arith))
              s.bounded;
        unique = claim-HasUniqueIds id until db s.unique;
      }

  won :
      (o : String → Bool) (id : String) (until : ℕ) (db : HookDb P)
      → IsSound o db
      → IsSound (λ k. (id == k) || o k) (claim_dead_delivery id until db).0
  unfolding claim_dead_delivery
  won o id until db s =
      let o' : String → Bool = λ k. (id == k) || o k in
      record {
        bounded =
            All-update_rows (Within o') (is_dead_delivery id) (leased until) db.deliveries
              (λ r hit w closed.
                absurd (ground (arith, hit, closed, eq_iff r.id id, eq_iff id r.id)))
              (weaken-IsSound o o' db (λ k c. ground (arith, c)) s).bounded;
        unique = claim-HasUniqueIds id until db s.unique;
      }

  pub begin_redeliver-IsSound :
      (o : String → Bool) (now : ℕ) (h : Webhook) (id : String) (db : HookDb P)
      → IsSound o db
      → IsBegun o (begin_redeliver now h id db)
  unfolding begin_redeliver
  begin_redeliver-IsSound o now h id db s = elim (Option-cases (get_delivery h.id id db)) [
    | inl e ↦ rw (e, begin_redeliver) s
    | inr (d, e) ↦ elim (Bool-cases d.dead) [
      | inr live ↦ rw (e, live, begin_redeliver) s
      | inl dead ↦ elim (Option-cases (retention_max_age h.developer_id db)) [
        | inl a ↦ rw (e, dead, a, begin_redeliver) s
        | inr (age, a) ↦ elim (Bool-cases (is_expired_delivery now age d)) [
          | inl x ↦ rw (e, dead, a, x, begin_redeliver) s
          | inr x ↦ rw (e, dead, a, x, begin_redeliver) (claimed d s)
        ]
      ]
    ]
  ]
    where
      claimed :
          (d : Delivery P)
          → IsSound o db
          → IsBegun o (begin_claimed d (claim_dead_delivery d.id (now + redeliver_lease) db))
      claimed d s = elim (Bool-cases (claim_dead_delivery d.id (now + redeliver_lease) db).1) [
        | inl c ↦ rw c (won o d.id (now + redeliver_lease) db s)
        | inr c ↦ rw c (unclaimed o d.id (now + redeliver_lease) db s c)
      ]

  -- an attempt whose answer was written down leaves no claim of its delivery open
  reschedule-IsSound :
      (o o' : String → Bool) (now : ℕ) (cause : SendError) (d : Delivery P) (db : HookDb P)
      → ((k : String) → (k == d.id) ≡ false → o' k ≡ false → o k ≡ false)
      → IsSound o db
      → IsSound o' (schedule wire schedule_of false now cause d db)
  unfolding schedule save_delivery
  reschedule-IsSound o o' now cause d db same s =
      let e = plan wire schedule_of now cause d in
      let ok = plan-HasTriesLeft now cause d in
      let others : All (But (Within o') e.id) db.deliveries =
        rw (plan-id now cause d)
          (All-map db.deliveries (λ x w ne c. w (same x.id ne c)) s.bounded) in
      record {
        bounded =
            if_both (All (Within o')) (has_row (is_delivery e.id) db.deliveries)
              (λ _. update-All (Within o') e.id (rescheduled e) db.deliveries (λ r c. ok) others)
              (λ new.
                All-append (Within o') db.deliveries (e ∷ [])
                  (none-All (Within o') e.id db.deliveries new others) ((λ c. ok), tt));
        unique = schedule-HasUniqueIds false now cause d db s.unique;
      }

  pub written-IsSound :
      (o o' : String → Bool) (luck : Luck) (now : ℕ) (f : Flight P) (db : HookDb P)
      → is_written wire luck f ≡ true
      → ((k : String) → (k == f.delivery.id) ≡ false → o' k ≡ false → o k ≡ false)
      → IsSound o db
      → IsSound o' (resend wire schedule_of luck now f.hook f.delivery db).0
  unfolding resend delete_delivery
  written-IsSound o o' luck now f db done same s =
      elim (Option-cases (send wire f.hook f.delivery.payload 1)) [
        | inl e ↦
            let cleared : luck.clear_fails ≡ false = ground (arith, rw (e, is_written) at done) in
            rw (e, cleared, resend)
              (record {
                bounded =
                    delete-All (Within o') f.delivery.id db.deliveries
                      (All-map db.deliveries (λ x w ne c. w (same x.id ne c)) s.bounded);
                unique = delete-HasUniqueIds f.delivery.id db s.unique;
              })
        | inr (cause, e) ↦
            let saved : luck.save_fails ≡ false = ground (arith, rw (e, is_written) at done) in
            rw (e, saved, resend) (reschedule-IsSound o o' now cause f.delivery db same s)
      ]
