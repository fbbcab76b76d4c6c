-- ===== src/Chatsync/Runtime.antt =====
-- internal/chatsync/runtime.go: the supervisor over the actors. An actor is a reference: a serial
-- number, with what can be seen of it through the reference (has it given its account up, or was
-- its own context cancelled) in the list `ended`. Each step below is one section under `r.mu`.
pub mod Steps
pub mod Relink
use unified_messaging.Prelude.{
  ℕ, suc, ◌+◌, ◌-◌, String, Bool, true, false, not, ◌&&◌, ◌||◌, Option, none, some, List, [], ◌∷◌,
  ◌++◌, ◌==◌, eqb, leb, if◌then◌else◌, find_row, delete_rows, count_rows, ℤ, pos, negsuc,
}

-- An entry of the map `actors`.
pub record Entry : Type 0 where
  pub account : String
  pub serial : ℕ

pub record Runtime : Type 0 where
  pub actors : List Entry
  pub ended : List ℕ
  pub next_serial : ℕ
  pub cancelled : Bool
  pub running : ℕ
  pub max_accounts : ℕ

abbrev pub default_max : ℕ
default_max = 200

-- `New`: a limit that is not positive is replaced by the default.
unfoldable pub max_of : ℤ → ℕ
max_of (pos n) = if eqb n 0 then default_max else n
max_of (negsuc n) = default_max

unfoldable pub new_runtime : ℤ → Runtime
new_runtime max = record {
  actors = [];
  ended = [];
  next_serial = 0;
  cancelled = false;
  running = 0;
  max_accounts = max_of max;
}

abbrev pub member : ℕ → List ℕ → Bool
member n [] = false
member n (m ∷ ms) = if eqb m n then true else member n ms

-- `isTerminating`: the flag, the actor's own context, or the runtime's, which is its parent.
abbrev pub is_terminating : Bool → List ℕ → ℕ → Bool
is_terminating cancelled ended a = cancelled || member a ended

abbrev pub is_live : Bool → List ℕ → Entry → Bool
is_live cancelled ended e = not (is_terminating cancelled ended e.serial)

unfoldable pub live_count : Runtime → ℕ
live_count r = count_rows (is_live r.cancelled r.ended) r.actors

abbrev pub is_for : String → Entry → Bool
is_for acct e = e.account == acct

unfoldable pub entry_of : String → Runtime → Option Entry
entry_of acct r = find_row (is_for acct) r.actors

-- What the store and the registry say of the account, before the lock is taken.
pub data Lookup : Type 0 where
  missing not_chat chatter : Lookup

pub data Attached : Type 0 where
  started : (serial : ℕ) → Attached
  already cancelled_err not_found not_a_chat_provider at_capacity : Attached

abbrev pub evict_entry : String → Runtime → Runtime
evict_entry acct r = record r { actors = delete_rows (is_for acct) r.actors }

-- The part of `Attach` that starts an actor: the checks repeated under the lock, and the insert.
unfoldable pub start_actor : String → Runtime → Runtime × Attached
start_actor acct r =
    if r.cancelled
    then (r, cancelled_err)
    else if leb r.max_accounts (live_count r)
    then (r, at_capacity)
    else (
      record r {
        actors = r.actors ++ record { account = acct; serial = r.next_serial } ∷ [];
        next_serial = suc r.next_serial;
        running = suc r.running;
      },
      started r.next_serial,
    )

-- The whole section under the lock: a live entry ends it, one that is terminating is evicted.
unfoldable pub attach_locked : String → Runtime → Runtime × Attached
attach_locked acct r = elim (entry_of acct r) [
  | none ↦ start_actor acct r
  | some e ↦
      if is_live r.cancelled r.ended e then (r, already) else start_actor acct (evict_entry acct r)
]

-- `Attach`, with the state at its first check and the state when it takes the lock: the calls of
-- the store and of the registry in between let other steps happen.
unfoldable pub attach : Bool → Lookup → String → Runtime → Runtime × Attached
attach cancelled_before missing acct r = (r, if cancelled_before then cancelled_err else not_found)
attach cancelled_before not_chat acct r =
    (r, if cancelled_before then cancelled_err else not_a_chat_provider)
attach cancelled_before chatter acct r =
    if cancelled_before then (r, cancelled_err) else attach_locked acct r

-- `Detach`: the entry is dropped, and its actor's context is cancelled.
unfoldable pub detach : String → Runtime → Runtime
detach acct r = elim (entry_of acct r) [
  | none ↦ r
  | some e ↦ record (evict_entry acct r) { ended = e.serial ∷ r.ended }
]

abbrev pub is_entry : String → ℕ → Entry → Bool
is_entry acct a e = e.account == acct && eqb e.serial a

-- `remove` takes the entry out only if it is still this actor's.
unfoldable pub remove : String → ℕ → Runtime → Runtime
remove acct a r = record r { actors = delete_rows (is_entry acct a) r.actors }

-- An actor gives its account up (`terminate`), or its context is cancelled when `run` returns.
unfoldable pub end_actor : ℕ → Runtime → Runtime
end_actor a r = record r { ended = a ∷ r.ended }

-- The goroutine of an actor finishes: `remove`, then `wg.Done`.
unfoldable pub finish : String → ℕ → Runtime → Runtime
finish acct a r = let s = remove acct a (end_actor a r) in record s { running = s.running - 1 }

-- The context that governs every actor is cancelled.
unfoldable pub shutdown : Runtime → Runtime
shutdown r = record r { cancelled = true }
