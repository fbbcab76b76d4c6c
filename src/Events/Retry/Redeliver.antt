-- ===== src/Events/Retry/Redeliver.antt =====
-- What a redelivery by hand does to the queue.
use unified_messaging.Prelude.{
  ℕ, ◌+◌, ◌-◌, ◌≤◌, ◌≡◌, refl, ◌∙◌, subst, ◌⊎◌, inl, inr, String, Bool, true, false, not, ◌&&◌,
  some, List, ◌∷◌, ◌==◌, arith, eq_iff, if_both, Bool-cases, Option-cases, find_row, has_row,
  count_rows, find_row-holds, find_row-has_row_other, find_row-some, find_row-update_rows,
  has_row-count_rows_pos, has_row-delete_rows, has_row-update_rows, count_rows-le,
}
use unified_messaging.Model.{Webhook}
use unified_messaging.Store.Tables.{Delivery}
use unified_messaging.Store.Deliveries.{
  HookDb, is_delivery, is_dead_delivery, leased, rescheduled, get_delivery, save_delivery,
  delete_delivery, claim_dead_delivery, retention_max_age,
}
use unified_messaging.Events.Sender.{Wire, SendError, send}
use unified_messaging.Events.Dispatch.{Luck, schedule, plan}
use unified_messaging.Events.Retry.{
  Answer, accepted, queued, no_delivery, not_dead, expired, no_developer, resend, redeliver,
  restarted, claim_and_resend, is_expired_delivery, redeliver_lease,
}

-- the answers that send nothing
abbrev pub IsRefusal : Answer → Type 0
IsRefusal no_delivery = Unit
IsRefusal not_dead = Unit
IsRefusal expired = Unit
IsRefusal no_developer = Unit
IsRefusal _ = ⊥

module _ {ℓ} {P : Type ℓ} where
  -- A delivery of the hook that was given up on, and is within its developer's retention age.
  pub record IsDeliverable (now : ℕ) (h : Webhook) (id : String) (db : HookDb P) : Type ℓ where
    pub delivery : Delivery P
    pub found : get_delivery h.id id db ≡ some delivery
    pub dead : delivery.dead ≡ true
    pub age : ℕ
    pub policy : retention_max_age h.developer_id db ≡ some age
    pub fresh : (age ≡ 0) ⊎ (now - delivery.created_at ≤ age)

  -- The delivery is back at the start of the schedule.
  pub record IsRestarted (due : ℕ) (id : String) (db : HookDb P) : Type ℓ where
    pub row : Delivery P
    pub found : find_row (is_delivery id) db.deliveries ≡ some row
    pub live : row.dead ≡ false
    pub attempts : row.attempts ≡ 1
    pub next : row.next_attempt_at ≡ due

  claim-wins :
      (hook id : String) (until : ℕ) (db : HookDb P) (d : Delivery P)
      → get_delivery hook id db ≡ some d
      → d.dead ≡ true
      → count_rows (is_delivery id) db.deliveries ≤ 1
      → (d.id ≡ id) × ((claim_dead_delivery d.id until db).1 ≡ true)
  unfolding get_delivery claim_dead_delivery
  claim-wins hook id until db d found dead one =
      let p : Delivery P → Bool = λ x. x.webhook_id == hook && x.id == id in
      let hit = find_row-holds p db.deliveries {r = d} found in
      let same : d.id ≡ id = (eq_iff d.id id).0 (ground arith) in
      let there =
        find_row-has_row_other p (is_dead_delivery d.id) db.deliveries {r = d} found
          (ground (arith, eq_iff d.id d.id)) in
      let few =
        count_rows-le (is_dead_delivery d.id) (is_delivery d.id) db.deliveries
          (λ r h. ground arith) in
      let one' : count_rows (is_delivery d.id) db.deliveries ≤ 1 = rw same one in
      (same, ground (arith, has_row-count_rows_pos (is_dead_delivery d.id) db.deliveries there))

  claim-has_row :
      (id : String) (until : ℕ) (db : HookDb P)
      → has_row (is_delivery id) (claim_dead_delivery id until db).0.deliveries
        ≡ has_row (is_delivery id) db.deliveries
  unfolding claim_dead_delivery
  claim-has_row id until db =
      has_row-update_rows (is_dead_delivery id) (is_delivery id) (leased until) db.deliveries
        (λ r. refl)

module _ {ℓ} {P : Type ℓ} (wire : Wire P) (first_wait : ℕ) (waits : List ℕ) where
  -- An answer that was sent: accepted with the row gone, or refused with the row restarted.
  abbrev pub IsSettled : ℕ → String → HookDb P × Answer → Type ℓ
  IsSettled now id r =
      ((r.1 ≡ accepted id) × (has_row (is_delivery id) r.0.deliveries ≡ false))
      ⊎ ((cause : SendError) × (r.1 ≡ queued id (wire.error_text cause))
          × IsRestarted (now + first_wait) id r.0)

  reschedule-IsRestarted :
      (now : ℕ) (cause : SendError) (d : Delivery P) (db : HookDb P)
      → has_row (is_delivery d.id) db.deliveries ≡ true
      → IsRestarted
          (now + first_wait)
          d.id
          (schedule wire (first_wait ∷ waits) false now cause (restarted d) db)
  unfolding schedule save_delivery plan
  reschedule-IsRestarted now cause d db there =
      let e = plan wire (first_wait ∷ waits) now cause (restarted d) in
      let (old, found) = find_row-some (is_delivery d.id) db.deliveries there in
      record {
        row = rescheduled e old;
        found = ground (
          arith,
          there,
          found,
          find_row-update_rows (is_delivery d.id) (rescheduled e) db.deliveries (λ r. refl),
        );
        live = refl;
        attempts = refl;
        next = refl;
      }

  resend-IsSettled :
      (luck : Luck) (now : ℕ) (h : Webhook) (d : Delivery P) (db : HookDb P)
      → luck.save_fails ≡ false
      → luck.clear_fails ≡ false
      → has_row (is_delivery d.id) db.deliveries ≡ true
      → IsSettled now d.id (resend wire (first_wait ∷ waits) luck now h (restarted d) db)
  unfolding resend delete_delivery
  resend-IsSettled luck now h d db saved cleared there =
      elim (Option-cases (send wire h d.payload 1)) [
        | inl e ↦ inl (
          rw (e, resend) refl,
          rw (e, cleared, resend) (has_row-delete_rows (is_delivery d.id) db.deliveries),
        )
        | inr (cause, e) ↦ inr (
          cause,
          rw (e, resend) refl,
          rw (e, saved, resend) (reschedule-IsRestarted now cause d db there),
        )
      ]

  claimed-IsSettled :
      (luck : Luck) (now : ℕ) (h : Webhook) (id : String) (d : Delivery P) (db : HookDb P)
      → luck.save_fails ≡ false
      → luck.clear_fails ≡ false
      → count_rows (is_delivery id) db.deliveries ≤ 1
      → get_delivery h.id id db ≡ some d
      → d.dead ≡ true
      → IsSettled now id (claim_and_resend wire (first_wait ∷ waits) luck now h d db)
  unfolding get_delivery
  claimed-IsSettled luck now h id d db saved cleared one found dead =
      let (same, won) = claim-wins h.id id (now + redeliver_lease) db d found dead one in
      let claim = claim_dead_delivery d.id (now + redeliver_lease) db in
      let there : has_row (is_delivery d.id) db.deliveries ≡ true =
        find_row-has_row_other (λ x. x.webhook_id == h.id && x.id == id) (is_delivery d.id)
          db.deliveries {r = d} found (ground (arith, eq_iff d.id d.id)) in
      let there' = claim-has_row d.id (now + redeliver_lease) db ∙ there in
      let settled = resend-IsSettled luck now h d claim.0 saved cleared there' in
      subst (λ i. IsSettled now i (claim_and_resend wire (first_wait ∷ waits) luck now h d db)) same
        (if_both (IsSettled now d.id) (not claim.1) (λ lost. absurd (ground arith)) (λ _. settled))

  -- A redelivery either refuses, with the database as it was, or it takes a dead delivery of that
  -- hook which is within the retention age and settles it: accepted, its row is gone; not accepted,
  -- its row is live again with one attempt made and the first wait of the schedule ahead. The id is
  -- the primary key, and the writes that end the attempt succeed.
  pub redeliver_cases :
      (luck : Luck) (now : ℕ) (h : Webhook) (id : String) (db : HookDb P)
      → luck.save_fails ≡ false
      → luck.clear_fails ≡ false
      → count_rows (is_delivery id) db.deliveries ≤ 1
      → let r = redeliver wire (first_wait ∷ waits) luck now h id db in
        (IsRefusal r.1 × (r.0 ≡ db)) ⊎ (IsDeliverable now h id db × IsSettled now id r)
  unfolding redeliver
  redeliver_cases luck now h id db saved cleared one =
      elim (Option-cases (get_delivery h.id id db)) [
        | inl e ↦ inl (rw (e, redeliver) tt, rw (e, redeliver) refl)
        | inr (d, e) ↦ elim (Bool-cases d.dead) [
          | inr live ↦ inl (rw (e, live, redeliver) tt, rw (e, live, redeliver) refl)
          | inl dead ↦ elim (Option-cases (retention_max_age h.developer_id db)) [
            | inl a ↦ inl (rw (e, dead, a, redeliver) tt, rw (e, dead, a, redeliver) refl)
            | inr (age, a) ↦ elim (Bool-cases (is_expired_delivery now age d)) [
              | inl old ↦
                  inl (rw (e, dead, a, old, redeliver) tt, rw (e, dead, a, old, redeliver) refl)
              | inr young ↦ inr (
                record {
                  delivery = d;
                  found = e;
                  dead = dead;
                  age = age;
                  policy = a;
                  fresh = ground arith;
                },
                rw (e, dead, a, young, redeliver)
                    (claimed-IsSettled luck now h id d db saved cleared one e dead),
              )
            ]
          ]
        ]
      ]
