-- ===== src/Examples/Connection.antt =====
-- An actor that never connects, and a runtime with room for two accounts.
use unified_messaging.Prelude.{
  ℕ, zero, suc, ◌+◌, ◌*◌, ◌≤◌, ◌≡◌, refl, true, false, some, List, [], ◌∷◌, arith, pos, All, length,
  ltb→lt, leb→le,
}
use unified_messaging.Chatsync.Backoff.{base, next, draws, max_backoff, max_failures, second}
use unified_messaging.Chatsync.Backoff.Waits.{AreDraws, total_wait, next_bounds, total_wait-give_up}
use unified_messaging.Chatsync.Actor.{Turn, new_actor, run, refused, dropped, returned, connection}
use unified_messaging.Chatsync.Actor.Life.{IsSound, run-IsSound, run-gives_up}
use unified_messaging.Chatsync.Runtime.{Entry, Runtime, new_runtime, live_count, chatter}
use unified_messaging.Chatsync.Runtime.Steps.{
  Step, attach_step, end_step, finish_step, shutdown_step, steps, IsBounded, steps-IsBounded,
}

abbrev unreachable_turn : Turn
unreachable_turn = record {
  now = 10;
  device = some "1@device";
  dial = refused "no route";
  outlived = false;
  ending = dropped "eof";
  draw = 7;
  awake = true;
}

abbrev short_turn : Turn
short_turn = record unreachable_turn { dial = connection }

abbrev repeat : ℕ → Turn → List Turn
repeat zero t = []
repeat (suc n) t = t ∷ repeat n t

abbrev failing : List Turn
failing = short_turn ∷ repeat 29 unreachable_turn

never_outlived : (n : ℕ) → All (λ (t : Turn). t.outlived ≡ false) (repeat n unreachable_turn)
never_outlived zero = tt
never_outlived (suc n) = (refl, never_outlived n)

actor_example : IsSound (run failing (new_actor 0))
unfolding new_actor
actor_example = run-IsSound failing (new_actor 0) (omega arith) refl

gives_up_example : (run failing (new_actor 0)).2 ≡ returned
unfolding new_actor
gives_up_example =
    run-gives_up failing (new_actor 0) (omega arith) refl (refl, never_outlived 29)
      (leb→le max_failures ((new_actor 0).failures + length failing) refl)

backoff_example :
    (4 * base (pos 12) ≤ 5 * next 5 (pos 12) + 4)
    × (5 * next 5 (pos 12) ≤ 6 * base (pos 12))
    × (next 5 (pos 12) ≤ max_backoff)
    × (4 * second ≤ 5 * next 5 (pos 12) + 4)
    × ((n : ℕ) → pos 12 ≡ pos n → 9 ≤ n → 240 * second ≤ next 5 (pos 12))
backoff_example = next_bounds 5 (pos 12) (ltb→lt 5 draws refl)

abbrev draws_of : ℕ → List ℕ
draws_of zero = []
draws_of (suc n) = 5 ∷ draws_of n

are_draws : (n : ℕ) → AreDraws (draws_of n)
are_draws zero = tt
are_draws (suc n) = (ltb→lt 5 draws refl, are_draws n)

total_wait_example : total_wait 0 (draws_of 29) ≤ 6606 * second
total_wait_example = total_wait-give_up (draws_of 29) (are_draws 29) refl

abbrev two_accounts : Runtime
two_accounts = new_runtime (pos 2)

abbrev entry0 : Entry
entry0 = record { account = "acc1"; serial = 0 }

-- one live actor
abbrev serving : Runtime
serving = record {
  actors = entry0 ∷ [];
  ended = [];
  next_serial = 1;
  cancelled = false;
  running = 1;
  max_accounts = 2;
}

-- its actor has given the account up, but has not finished yet
abbrev ending_runtime : Runtime
ending_runtime = record serving { ended = 0 ∷ [] }

ending_runtime-IsBounded : IsBounded ending_runtime
unfolding live_count
ending_runtime-IsBounded = record {
  limit = omega arith;
  single = λ acct. ground arith;
  fresh = (omega arith, tt);
}

abbrev some_steps : List Step
some_steps =
    attach_step false chatter "acc1"
    ∷ attach_step false chatter "acc2"
    ∷ end_step 0
    ∷ attach_step false chatter "acc3"
    ∷ finish_step "acc1" 0
    ∷ shutdown_step
    ∷ []

bounded_example : IsBounded (steps some_steps ending_runtime)
bounded_example = steps-IsBounded some_steps ending_runtime ending_runtime-IsBounded
