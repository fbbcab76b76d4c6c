-- ===== src/Store/Deliveries/Queue.antt =====
-- What the retry queue hands out, keeps and gives away.
use unified_messaging.Prelude.{
  ℕ, zero, suc, ◌-◌, ◌≤◌, ◌≡◌, refl, ◌⊎◌, inl, inr, String, Bool, true, false, not, List, [], ◌∷◌,
  arith, leb, if_both, Bool-cases, select_rows, update_rows, delete_rows, has_row, count_rows, take,
  length, All, length-take,
}
use unified_messaging.Store.Tables.{Delivery}
use unified_messaging.Store.Deliveries.{
  HookDb, is_due, insert_by_next, sort_by_next, due_deliveries, is_paused_hook, is_dead_delivery,
  leased, claim_dead_delivery, is_purged, purge_dead_deliveries, hook_max_age,
}

module _ {ℓ} {P : Type ℓ} where
  -- A delivery that DueDeliveries may return.
  pub record IsDue (now : ℕ) (db : HookDb P) (d : Delivery P) : Type 0 where
    pub live : d.dead ≡ false
    pub ready : d.next_attempt_at ≤ now
    pub resumed : has_row (is_paused_hook d.webhook_id) db.webhooks ≡ false

  is_due-IsDue :
      (now : ℕ) (db : HookDb P) (d : Delivery P) → is_due now db.webhooks d ≡ true → IsDue now db d
  unfolding is_due
  is_due-IsDue now db d h = record {
    live = ground arith;
    ready = ground arith;
    resumed = ground arith;
  }

  pub select-IsDue :
      (now : ℕ) (db : HookDb P) (ds : List (Delivery P))
      → All (IsDue now db) (select_rows (is_due now db.webhooks) ds)
  select-IsDue now db [] = tt
  select-IsDue now db (d ∷ ds) = elim (Bool-cases (is_due now db.webhooks d)) [
    | inl e ↦ rw e (is_due-IsDue now db d e, select-IsDue now db ds)
    | inr e ↦ rw e (select-IsDue now db ds)
  ]

  pub All-insert_by_next {κ} :
      (Q : Delivery P → Type κ) (d : Delivery P) (es : List (Delivery P))
      → Q d
      → All Q es
      → All Q (insert_by_next d es)
  unfolding insert_by_next
  All-insert_by_next Q d [] q h = (q, tt)
  All-insert_by_next Q d (e ∷ es) q h =
      if_both (All Q) (leb d.next_attempt_at e.next_attempt_at) (λ _. (q, h))
        (λ _. (h.0, All-insert_by_next Q d es q h.1))

  pub All-sort_by_next {κ} :
      (Q : Delivery P → Type κ) (ds : List (Delivery P)) → All Q ds → All Q (sort_by_next ds)
  unfolding sort_by_next
  All-sort_by_next Q [] h = tt
  All-sort_by_next Q (d ∷ ds) h =
      All-insert_by_next Q d (sort_by_next ds) h.0 (All-sort_by_next Q ds h.1)

  pub All-take {κ} :
      (Q : Delivery P → Type κ) (n : ℕ) (ds : List (Delivery P)) → All Q ds → All Q (take n ds)
  All-take Q zero ds h = tt
  All-take Q (suc n) [] h = tt
  All-take Q (suc n) (d ∷ ds) h = (h.0, All-take Q n ds h.1)

  -- no entry of the list is due before the given time
  abbrev pub NotBefore : ℕ → List (Delivery P) → Type 0
  NotBefore t ds = All (λ (d : Delivery P). t ≤ d.next_attempt_at) ds

  abbrev pub IsSorted : List (Delivery P) → Type 0
  IsSorted [] = Unit
  IsSorted (d ∷ ds) = NotBefore d.next_attempt_at ds × IsSorted ds

  NotBefore-le : (s t : ℕ) (ds : List (Delivery P)) → s ≤ t → NotBefore t ds → NotBefore s ds
  NotBefore-le s t [] h k = tt
  NotBefore-le s t (d ∷ ds) h k = (omega (arith, k.0), NotBefore-le s t ds h k.1)

  insert-IsSorted :
      (d : Delivery P) (es : List (Delivery P)) → IsSorted es → IsSorted (insert_by_next d es)
  unfolding insert_by_next
  insert-IsSorted d [] h = (tt, tt)
  insert-IsSorted d (e ∷ es) h =
      if_both IsSorted (leb d.next_attempt_at e.next_attempt_at)
        (λ le. (
          (ground arith, NotBefore-le d.next_attempt_at e.next_attempt_at es (ground arith) h.0),
          h,
        ))
        (λ gt. (
          All-insert_by_next (λ (x : Delivery P). e.next_attempt_at ≤ x.next_attempt_at) d es
              (ground arith) h.0,
          insert-IsSorted d es h.1,
        ))

  sort-IsSorted : (ds : List (Delivery P)) → IsSorted (sort_by_next ds)
  unfolding sort_by_next
  sort-IsSorted [] = tt
  sort-IsSorted (d ∷ ds) = insert-IsSorted d (sort_by_next ds) (sort-IsSorted ds)

  take-IsSorted : (n : ℕ) (ds : List (Delivery P)) → IsSorted ds → IsSorted (take n ds)
  take-IsSorted zero ds h = tt
  take-IsSorted (suc n) [] h = tt
  take-IsSorted (suc n) (d ∷ ds) h = (
    All-take (λ (x : Delivery P). d.next_attempt_at ≤ x.next_attempt_at) n ds h.0,
    take-IsSorted n ds h.1,
  )

  -- What the retry loop is handed: at most `limit` deliveries, oldest first, none of them dead, none
  -- before its time and none of a paused hook.
  pub due_deliveries_lem :
      (now limit : ℕ) (db : HookDb P)
      → let due = due_deliveries now limit db in
        All (IsDue now db) due × IsSorted due × (length due ≤ limit)
  unfolding due_deliveries
  due_deliveries_lem now limit db =
      let all = sort_by_next (select_rows (is_due now db.webhooks) db.deliveries) in
      (
        All-take (IsDue now db) limit all
            (All-sort_by_next (IsDue now db) _ (select-IsDue now db db.deliveries)),
        take-IsSorted limit all (sort-IsSorted _),
        omega (arith, length-take limit all),
      )

  count-cleared :
      (p : Delivery P → Bool) (f : Delivery P → Delivery P) (ds : List (Delivery P))
      → ((d : Delivery P) → p (f d) ≡ false)
      → count_rows p (update_rows p f ds) ≡ 0
  count-cleared p f [] h = refl
  count-cleared p f (d ∷ ds) h = ground (arith, h d, count-cleared p f ds h)

  -- Of two redeliveries of one delivery only one claims it: once a claim was made, whatever its
  -- answer, a second claim of the id is refused and leaves the queue as it is, whatever its lease.
  pub claim_once :
      (id : String) (until until' : ℕ) (db : HookDb P)
      → (claim_dead_delivery id until' (claim_dead_delivery id until db).0).1 ≡ false
  unfolding claim_dead_delivery
  claim_once id until until' db =
      let none_left =
        count-cleared (is_dead_delivery id) (leased until) db.deliveries (λ d. ground arith) in
      ground (arith, none_left)

  -- Both retention windows hold of a dead delivery: the deployment's and its developer's.
  pub record IsWithinRetention (now global : ℕ) (db : HookDb P) (d : Delivery P) : Type 0 where
    pub global_window : now - global ≤ d.created_at
    pub own_window :
        (hook_max_age d.webhook_id db ≡ 0) ⊎ (now - d.created_at ≤ hook_max_age d.webhook_id db)

  kept-IsWithin :
      (now global : ℕ) (db : HookDb P) (d : Delivery P)
      → is_purged now global db d ≡ false
      → d.dead ≡ true
      → IsWithinRetention now global db d
  unfolding is_purged
  kept-IsWithin now global db d h dead = record {
    global_window = ground arith;
    own_window = ground arith;
  }

  purged_rest :
      (now global : ℕ) (db : HookDb P) (ds : List (Delivery P))
      → All
          (λ (d : Delivery P). d.dead ≡ true → IsWithinRetention now global db d)
          (delete_rows (is_purged now global db) ds)
  purged_rest now global db [] = tt
  purged_rest now global db (d ∷ ds) = elim (Bool-cases (is_purged now global db d)) [
    | inl e ↦ rw e (purged_rest now global db ds)
    | inr e ↦ rw e (kept-IsWithin now global db d e, purged_rest now global db ds)
  ]

  live_kept :
      (now global : ℕ) (db : HookDb P) (ds : List (Delivery P))
      → select_rows (λ (d : Delivery P). not d.dead) (delete_rows (is_purged now global db) ds)
        ≡ select_rows (λ (d : Delivery P). not d.dead) ds
  unfolding is_purged
  live_kept now global db [] = refl
  live_kept now global db (d ∷ ds) = ground (arith, live_kept now global db ds)

  -- After a purge every dead delivery is within both retention windows, the deployment's and the
  -- one of the developer who owns its hook, and the live deliveries are all still there, in order.
  pub purge_dead_deliveries_lem :
      (now global : ℕ) (db : HookDb P)
      → let left = (purge_dead_deliveries now global db).0.deliveries in
        All (λ (d : Delivery P). d.dead ≡ true → IsWithinRetention now global db d) left
        × (select_rows (λ (d : Delivery P). not d.dead) left
            ≡ select_rows (λ (d : Delivery P). not d.dead) db.deliveries)
  unfolding purge_dead_deliveries
  purge_dead_deliveries_lem now global db =
      (purged_rest now global db db.deliveries, live_kept now global db db.deliveries)
