-- ===== src/Chatsync/Runtime/Steps.antt =====
-- Any interleaving of the supervisor's sections: the limit on live connections, one entry for each
-- account, and replacements that a slower actor cannot evict.
use unified_messaging.Prelude.{
  ℕ, suc, ◌≤◌, ◌<◌, ◌≡◌, refl, subst, inl, inr, String, Bool, true, false, none, List, [], ◌∷◌,
  ◌++◌, ◌==◌, arith, eq_iff, if_both, leb, Bool-cases, Option-cases, find_row, delete_rows,
  count_rows, count_rows-delete_rows, count_rows-le, count_rows-append, All, All-append,
  All-delete_rows,
}
use unified_messaging.Chatsync.Runtime.{
  Entry, Runtime, is_live, live_count, is_for, entry_of, Lookup, missing, not_chat, chatter,
  Attached, start_actor, attach_locked, attach, detach, is_entry, remove, end_actor, finish,
  shutdown, evict_entry,
}

-- One section under the lock, or one actor that ends.
pub data Step : Type 0 where
  attach_step : Bool → Lookup → String → Step
  detach_step : String → Step
  end_step : ℕ → Step
  finish_step : String → ℕ → Step
  shutdown_step : Step

unfoldable pub step : Step → Runtime → Runtime
step (attach_step b l acct) r = (attach b l acct r).0
step (detach_step acct) r = detach acct r
step (end_step a) r = end_actor a r
step (finish_step acct a) r = finish acct a r
step shutdown_step r = shutdown r

unfoldable pub steps : List Step → Runtime → Runtime
steps [] r = r
steps (s ∷ ss) r = steps ss (step s r)

-- The limit, and the freshness of the next serial.
pub record IsBounded (r : Runtime) : Type 0 where
  pub limit : live_count r ≤ r.max_accounts
  pub single : (acct : String) → count_rows (is_for acct) r.actors ≤ 1
  pub fresh : All (λ (e : Entry). e.serial < r.next_serial) r.actors

evict-IsBounded : (acct : String) (r : Runtime) → IsBounded r → IsBounded (evict_entry acct r)
unfolding live_count
evict-IsBounded acct r b = record {
  limit =
      omega (arith, b, count_rows-delete_rows (is_live r.cancelled r.ended) (is_for acct) r.actors);
  single = λ a. omega (arith, b.single a, count_rows-delete_rows (is_for a) (is_for acct) r.actors);
  fresh = All-delete_rows _ (is_for acct) r.actors b.fresh;
}

module _ {ℓ} {A : Type ℓ} where
  count_rows-delete_rows_all : (p : A → Bool) (xs : List A) → count_rows p (delete_rows p xs) ≡ 0
  count_rows-delete_rows_all p [] = refl
  count_rows-delete_rows_all p (x ∷ xs) = ground (arith, count_rows-delete_rows_all p xs)

  count_rows-none : (p : A → Bool) (xs : List A) → find_row p xs ≡ none → count_rows p xs ≡ 0
  count_rows-none p [] e = refl
  count_rows-none p (x ∷ xs) e = ground (arith, count_rows-none p xs)

All-fresh_suc :
    (n : ℕ) (es : List Entry)
    → All (λ (e : Entry). e.serial < n) es
    → All (λ (e : Entry). e.serial < suc n) es
All-fresh_suc n [] h = tt
All-fresh_suc n (e ∷ es) h = (omega (arith, h.0), All-fresh_suc n es h.1)

one_entry :
    (a acct : String) (n : ℕ) (r : Runtime)
    → count_rows (is_for acct) r.actors ≡ 0
    → count_rows (is_for a) r.actors ≤ 1
    → count_rows (is_for a) (r.actors ++ record { account = acct; serial = n } ∷ []) ≤ 1
one_entry a acct n r none_yet single = elim (Bool-cases (acct == a)) [
  | inl same ↦
      let q : count_rows (is_for a) r.actors ≡ 0 =
        subst (λ (x : String). count_rows (is_for x) r.actors ≡ 0) ((eq_iff acct a).0 same)
          none_yet in
      let new : Entry = record { account = acct; serial = n } in
      ground (arith, count_rows-append (is_for a) new r.actors, q)
  | inr other ↦
      let new : Entry = record { account = acct; serial = n } in
      ground (arith, count_rows-append (is_for a) new r.actors, single)
]

insert-IsBounded :
    (acct : String) (r : Runtime)
    → count_rows (is_for acct) r.actors ≡ 0
    → leb r.max_accounts (live_count r) ≡ false
    → IsBounded r
    → IsBounded (record r {
      actors = r.actors ++ record { account = acct; serial = r.next_serial } ∷ [];
      next_serial = suc r.next_serial;
      running = suc r.running;
    })
unfolding live_count
insert-IsBounded acct r none_yet room b =
    let new : Entry = record { account = acct; serial = r.next_serial } in
    record {
      limit = ground (arith, count_rows-append (is_live r.cancelled r.ended) new r.actors);
      single = λ a. one_entry a acct r.next_serial r none_yet (b.single a);
      fresh =
          All-append _ r.actors (new ∷ []) (All-fresh_suc r.next_serial r.actors b.fresh)
            (omega arith, tt);
    }

start_actor-IsBounded :
    (acct : String) (r : Runtime)
    → count_rows (is_for acct) r.actors ≡ 0
    → IsBounded r
    → IsBounded (start_actor acct r).0
unfolding start_actor
start_actor-IsBounded acct r none_yet b =
    if_both (λ (p : Runtime × Attached). IsBounded p.0) r.cancelled (λ _. b)
      (λ _.
        if_both (λ (p : Runtime × Attached). IsBounded p.0) (leb r.max_accounts (live_count r))
          (λ _. b) (λ room. insert-IsBounded acct r none_yet room b))

attach_locked-IsBounded :
    (acct : String) (r : Runtime) → IsBounded r → IsBounded (attach_locked acct r).0
unfolding attach_locked entry_of
attach_locked-IsBounded acct r b = elim (Option-cases (find_row (is_for acct) r.actors)) [
  | inl gone ↦
      rw (gone, attach_locked)
        (start_actor-IsBounded acct r (count_rows-none (is_for acct) r.actors gone) b)
  | inr (e, found) ↦
      rw (found, attach_locked)
        (if_both (λ (p : Runtime × Attached). IsBounded p.0) (is_live r.cancelled r.ended e)
          (λ _. b)
          (λ _.
            start_actor-IsBounded acct (evict_entry acct r)
              (count_rows-delete_rows_all (is_for acct) r.actors) (evict-IsBounded acct r b)))
]

attach-IsBounded :
    (early : Bool) (l : Lookup) (acct : String) (r : Runtime)
    → IsBounded r
    → IsBounded (attach early l acct r).0
unfolding attach
attach-IsBounded early missing acct r b = b
attach-IsBounded early not_chat acct r b = b
attach-IsBounded early chatter acct r b =
    if_both (λ (p : Runtime × Attached). IsBounded p.0) early (λ _. b)
      (λ _. attach_locked-IsBounded acct r b)

end-IsBounded : (a : ℕ) (r : Runtime) → IsBounded r → IsBounded (end_actor a r)
unfolding end_actor live_count
end-IsBounded a r b = record {
  limit = omega (
    arith,
    b,
    count_rows-le (is_live r.cancelled (a ∷ r.ended)) (is_live r.cancelled r.ended) r.actors
        (λ e k. ground arith),
  );
  single = b.single;
  fresh = b.fresh;
}

remove-IsBounded : (acct : String) (a : ℕ) (r : Runtime) → IsBounded r → IsBounded (remove acct a r)
unfolding remove live_count
remove-IsBounded acct a r b = record {
  limit =
      omega
        (arith, b, count_rows-delete_rows (is_live r.cancelled r.ended) (is_entry acct a) r.actors);
  single =
      λ x. omega (arith, b.single x, count_rows-delete_rows (is_for x) (is_entry acct a) r.actors);
  fresh = All-delete_rows _ (is_entry acct a) r.actors b.fresh;
}

shutdown-IsBounded : (r : Runtime) → IsBounded r → IsBounded (shutdown r)
unfolding shutdown live_count
shutdown-IsBounded r b = record {
  limit = omega (
    arith,
    b,
    count_rows-le (is_live true r.ended) (is_live r.cancelled r.ended) r.actors
        (λ e k. ground arith),
  );
  single = b.single;
  fresh = b.fresh;
}

detach-IsBounded : (acct : String) (r : Runtime) → IsBounded r → IsBounded (detach acct r)
unfolding detach entry_of
detach-IsBounded acct r b = elim (Option-cases (find_row (is_for acct) r.actors)) [
  | inl gone ↦ rw (gone, detach) b
  | inr (e, found) ↦
      rw (found, detach)
        (unfold end_actor in end-IsBounded e.serial (evict_entry acct r) (evict-IsBounded acct r b))
]

finish-IsBounded : (acct : String) (a : ℕ) (r : Runtime) → IsBounded r → IsBounded (finish acct a r)
unfolding finish live_count
finish-IsBounded acct a r b =
    let c = remove-IsBounded acct a (end_actor a r) (end-IsBounded a r b) in
    record { limit = c.limit; single = c.single; fresh = c.fresh }

-- Over every interleaving of attaches, detaches, actors that end and a shutdown: the connections
-- that are live never exceed the configured limit, the map holds at most one entry for each account
-- and the next serial is fresh, where this is so at the start.
pub steps-IsBounded : (ss : List Step) (r : Runtime) → IsBounded r → IsBounded (steps ss r)
unfolding steps step
steps-IsBounded [] r b = b
steps-IsBounded (attach_step early l acct ∷ ss) r b =
    steps-IsBounded ss (attach early l acct r).0 (attach-IsBounded early l acct r b)
steps-IsBounded (detach_step acct ∷ ss) r b =
    steps-IsBounded ss (detach acct r) (detach-IsBounded acct r b)
steps-IsBounded (end_step a ∷ ss) r b = steps-IsBounded ss (end_actor a r) (end-IsBounded a r b)
steps-IsBounded (finish_step acct a ∷ ss) r b =
    steps-IsBounded ss (finish acct a r) (finish-IsBounded acct a r b)
steps-IsBounded (shutdown_step ∷ ss) r b = steps-IsBounded ss (shutdown r) (shutdown-IsBounded r b)

-- Evicting an entry frees room, if anything.
pub evict_live : (acct : String) (r : Runtime) → live_count (evict_entry acct r) ≤ live_count r
unfolding live_count
evict_live acct r = count_rows-delete_rows (is_live r.cancelled r.ended) (is_for acct) r.actors
