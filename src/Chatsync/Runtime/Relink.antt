-- ===== src/Chatsync/Runtime/Relink.antt =====
-- A relink that arrives while the old actor is still on its way out.
use unified_messaging.Prelude.{
  ℕ, ◌<◌, ◌≡◌, ◌≢◌, ap, ◌∙◌, String, true, false, some, List, [], ◌∷◌, ◌++◌, arith, str_eq_refl,
  if_true, if_false, find_row, delete_rows, find_row-append, has_row-delete_rows, All, All-find_row,
}
use unified_messaging.Chatsync.Runtime.{
  Entry, Runtime, is_live, live_count, is_for, entry_of, chatter, Attached, started, already,
  member, start_actor, attach_locked, attach, is_entry, remove, end_actor, finish, evict_entry,
}
use unified_messaging.Chatsync.Runtime.Steps.{IsBounded, evict_live}

-- `remove` of an actor that the entry does not name leaves the entry.
find-remove_stale :
    (acct : String) (a : ℕ) (es : List Entry) (e : Entry)
    → find_row (is_for acct) es ≡ some e
    → e.serial ≢ a
    → find_row (is_for acct) (delete_rows (is_entry acct a) es) ≡ some e
find-remove_stale acct a [] e found other = found
find-remove_stale acct a (x ∷ es) e found other =
    ground (arith, find-remove_stale acct a es e, ap_serial)
  where
    ap_serial : x ≡ e → x.serial ≡ e.serial
    ap_serial p = ap (λ (y : Entry). y.serial) p

-- An actor that finishes late cannot take out the entry of its replacement.
pub finish_stale :
    (acct : String) (a : ℕ) (r : Runtime) (e : Entry)
    → entry_of acct r ≡ some e
    → e.serial ≢ a
    → entry_of acct (finish acct a r) ≡ some e
unfolding entry_of finish remove end_actor
finish_stale acct a r e found other = find-remove_stale acct a r.actors e found other

start_actor_lem :
    (acct : String) (r : Runtime)
    → r.cancelled ≡ false
    → live_count r < r.max_accounts
    → ((start_actor acct r).1 ≡ started r.next_serial)
      × ((start_actor acct r).0.actors
          ≡ r.actors ++ record { account = acct; serial = r.next_serial } ∷ [])
unfolding start_actor
start_actor_lem acct r live room = ground arith

attach_over :
    (acct : String) (r : Runtime) (e : Entry)
    → entry_of acct r ≡ some e
    → member e.serial r.ended ≡ true
    → attach false chatter acct r ≡ start_actor acct (evict_entry acct r)
unfolding attach attach_locked
attach_over acct r e found over =
    rw (found, attach_locked)
      (if_false (is_live r.cancelled r.ended e) (r, already) _ (ground arith))

serial_below :
    (acct : String) (n : ℕ) (es : List Entry) (e : Entry)
    → All (λ (x : Entry). x.serial < n) es
    → find_row (is_for acct) es ≡ some e
    → e.serial < n
serial_below acct n es e h found =
    All-find_row (λ (x : Entry). x.serial < n) (is_for acct) es h found

new_entry :
    (acct : String) (n : ℕ) (es : List Entry)
    → let new : Entry = record { account = acct; serial = n } in
      find_row (is_for acct) (delete_rows (is_for acct) es ++ new ∷ []) ≡ some new
new_entry acct n es =
    let new : Entry = record { account = acct; serial = n } in
    ground (
      arith,
      find_row-append (is_for acct) (delete_rows (is_for acct) es) (new ∷ []),
      has_row-delete_rows (is_for acct) es,
      str_eq_refl acct,
    )

-- A relink while the old actor is on its way out: with room below the limit, an attach to an
-- account whose actor has ended starts a new actor under a new serial, and when the old actor
-- finishes afterwards the entry is still the new one.
pub relink :
    (acct : String) (r : Runtime) (e : Entry)
    → IsBounded r
    → r.cancelled ≡ false
    → entry_of acct r ≡ some e
    → member e.serial r.ended ≡ true
    → live_count r < r.max_accounts
    → let (s, answer) = attach false chatter acct r in
      (answer ≡ started r.next_serial)
      × (entry_of acct (finish acct e.serial s)
          ≡ some (record { account = acct; serial = r.next_serial }))
unfolding entry_of
relink acct r e b live found over room =
    let r1 = evict_entry acct r in
    let (answer, map_is) = start_actor_lem acct r1 live (omega (arith, evict_live acct r, room)) in
    let step = attach_over acct r e found over in
    let new : Entry = record { account = acct; serial = r.next_serial } in
    let there : entry_of acct (start_actor acct r1).0 ≡ some new =
      ap (find_row (is_for acct)) map_is ∙ new_entry acct r.next_serial r.actors in
    let below = serial_below acct r.next_serial r.actors e b.fresh found in
    (
      ap (λ (p : Runtime × Attached). p.1) step ∙ answer,
      ap (λ (p : Runtime × Attached). entry_of acct (finish acct e.serial p.0)) step
          ∙ finish_stale acct e.serial (start_actor acct r1).0 new there (omega (arith, below)),
    )

-- Attaching an account that is being served changes nothing, whatever the limit.
pub attach_idempotent :
    (acct : String) (r : Runtime) (e : Entry)
    → entry_of acct r ≡ some e
    → is_live r.cancelled r.ended e ≡ true
    → attach false chatter acct r ≡ (r, already)
unfolding attach attach_locked
attach_idempotent acct r e found live = rw (found, attach_locked) (if_true _ _ _ live)
