-- ===== src/Syncer/Wakes.antt =====
-- internal/syncer/syncer.go: requests for a sync, and the one worker that serves them. A state
-- keeps beside the maps of the Syncer what its log records: the runs that started and the requests
-- that were dropped.
pub mod Coherent
pub mod Owed
pub mod Served
use unified_messaging.Prelude.{
  ℕ, suc, ◌+◌, String, Bool, true, false, not, ◌&&◌, Option, none, some, List, [], ◌∷◌, ◌++◌, ◌==◌,
  ltb, if◌then◌else◌, length,
}

-- the capacity of the channel
abbrev pub queue_size : ℕ
queue_size = 256

pub record WakeState : Type 0 where
  pub queue : List String
  pub inflight : String → Bool
  pub pending : String → Bool
  -- the account that the worker is syncing
  pub running : Option String
  pub cancelled : Bool
  pub started : List String
  pub dropped : List String

abbrev pub set_to : Bool → String → (String → Bool) → String → Bool
set_to b acc m k = if k == acc then b else m k

-- a Wake outside of a run: the channel takes it, or it is dropped
abbrev pub enqueue : String → WakeState → WakeState
enqueue acc s =
    if ltb (length s.queue) queue_size
    then record s { queue = s.queue ++ acc ∷ [] }
    else record s { dropped = s.dropped ++ acc ∷ [] }

-- `Wake`
unfoldable pub wake : String → WakeState → WakeState
wake acc s =
    if s.inflight acc then record s { pending = set_to true acc s.pending } else enqueue acc s

-- `runOnce` up to the sync
abbrev pub begin_run : String → WakeState → WakeState
begin_run acc s =
    if s.inflight acc then record s { pending = set_to true acc s.pending } else record s {
      inflight = set_to true acc s.inflight;
      running = some acc;
      started = s.started ++ acc ∷ [];
    }

abbrev pub receive : List String → WakeState → WakeState
receive [] s = s
receive (acc ∷ rest) s = begin_run acc (record s { queue = rest })

-- the worker receives a request when it is not running one
abbrev pub begin_when : Option String → WakeState → WakeState
begin_when none s = receive s.queue s
begin_when (some acc) s = s

abbrev pub ended_run : String → WakeState → WakeState
ended_run acc s = record s {
  inflight = set_to false acc s.inflight;
  pending = set_to false acc s.pending;
  running = none;
}

-- `runOnce` after the sync, whatever it answered
abbrev pub end_when : Option String → WakeState → WakeState
end_when none s = s
end_when (some acc) s =
    if s.pending acc && not s.cancelled then wake acc (ended_run acc s) else ended_run acc s

pub data WakeStep : Type 0 where
  wake_step : String → WakeStep
  begin_step end_step cancel_step : WakeStep

unfoldable pub wake_turn : WakeStep → WakeState → WakeState
wake_turn (wake_step acc) s = wake acc s
wake_turn begin_step s = begin_when s.running s
wake_turn end_step s = end_when s.running s
wake_turn cancel_step s = record s { cancelled = true }

unfoldable pub wake_turns : List WakeStep → WakeState → WakeState
wake_turns [] s = s
wake_turns (t ∷ ts) s = wake_turns ts (wake_turn t s)
