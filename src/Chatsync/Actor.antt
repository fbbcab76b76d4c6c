-- ===== src/Chatsync/Actor.antt =====
-- internal/chatsync/actor.go: the life of one account's connection. One turn of the loop of `run`
-- takes what the world answers in that turn (`Turn`); the log lines and the roster fetch are left
-- out. The clock gives each turn one time.

pub mod Life
use unified_messaging.Prelude.{
  ℕ, suc, ◌+◌, ◌-◌, String, Bool, true, false, Option, none, some, List, [], ◌∷◌, ◌++◌, leb, ◌==◌,
  if◌then◌else◌, ℤ, pos,
}
use unified_messaging.Model.{Connection}
use unified_messaging.Chatsync.Backoff.{max_failures, next}

pub data ConnState : Type 0 where
  connecting connected backoff stopped : ConnState

unfoldable pub state_name : ConnState → String
state_name connecting = "connecting"
state_name connected = "connected"
state_name backoff = "backoff"
state_name stopped = "stopped"

-- `disconnect`: why a connection ended.
pub data Disconnect : Type 0 where
  stop logged_out dropped : String → Disconnect

-- What `Connect` answers: a connection, or an error with its text that is ErrReauthRequired or not.
pub data Dial : Type 0 where
  connection : Dial
  reauth refused : String → Dial

-- One turn of the loop: the clock, the linked device if there is one, the answer to the dial,
-- whether the connection outlived `stableAfter`, how it ended, the draw of the jitter, and whether
-- the actor was still wanted after the wait.
pub record Turn : Type 0 where
  pub now : ℕ
  pub device : Option String
  pub dial : Dial
  pub outlived : Bool
  pub ending : Disconnect
  pub draw : ℕ
  pub awake : Bool

-- The health snapshot and the flag, under the actor's mutex.
pub record Actor : Type 0 where
  pub state : ConnState
  pub since : ℕ
  pub reconnects : ℕ
  pub failures : ℕ
  pub last_err : String
  pub terminating : Bool

-- What the actor does to the world.
pub data Effect : Type 0 where
  dialled : (device : String) → Effect
  closed : Effect
  waited : (nanoseconds : ℕ) → Effect
  marked_logged_out : (reason : String) → Effect

unfoldable pub new_actor : ℕ → Actor
new_actor now = record {
  state = connecting;
  since = now;
  reconnects = 0;
  failures = 0;
  last_err = "";
  terminating = false;
}

abbrev pub same_state : ConnState → ConnState → Bool
same_state connecting connecting = true
same_state connected connected = true
same_state backoff backoff = true
same_state stopped stopped = true
same_state _ _ = false

unfoldable pub set_state : ℕ → ConnState → Actor → Actor
set_state now s a = if same_state a.state s then a else record a { state = s; since = now }

unfoldable pub failed : String → Actor → Actor
failed err a = record a { failures = a.failures + 1; last_err = err }

unfoldable pub drop : String → Actor → Actor
drop reason a = record a {
  reconnects = a.reconnects + 1;
  failures = a.failures + 1;
  last_err = reason;
}

unfoldable pub terminate : Actor → Actor
terminate a = record a { terminating = true }

unfoldable pub stabilised : Actor → Actor
stabilised a = record a { failures = 0 }

unfoldable pub health : Actor → Connection
unfolding state_name
health a = record {
  state = state_name a.state;
  since = a.since;
  reconnects = a.reconnects;
  last_error = a.last_err;
}

-- How a turn leaves the loop: into the next turn, or out of `run`.
pub data Next : Type 0 where
  again returned : Next

abbrev pub Outcome : Type 0
Outcome = Actor × List Effect × Next

-- `markLoggedOut` and the return after it.
unfoldable pub give_account_up : String → Actor → List Effect → Outcome
unfolding terminate
give_account_up reason a done = (terminate a, done ++ marked_logged_out reason ∷ [], returned)

-- The wait before the next attempt: `sleep(next(n - 1))`.
unfoldable pub wait_turn : Turn → Actor → List Effect → Outcome
wait_turn t a done = (
  a,
  done ++ waited (next t.draw (pos (a.failures - 1))) ∷ [],
  if t.awake then again else returned,
)

unfoldable pub dial_failed : Turn → String → Bool → Actor → List Effect → Outcome
dial_failed t err dead a done =
    let b = failed err a in
    if dead
    then give_account_up "relink required" b done
    else if leb max_failures b.failures
    then give_account_up "unreachable" b done
    else wait_turn t (set_state t.now backoff b) done

unfoldable pub after_drop : Turn → String → Actor → List Effect → Outcome
after_drop t reason a done =
    let b = set_state t.now backoff (drop reason a) in
    if leb max_failures b.failures then give_account_up "unreachable" b done else wait_turn t b done

unfoldable pub ended : Turn → Disconnect → Actor → List Effect → Outcome
ended t (stop reason) a done = (a, done, returned)
ended t (logged_out reason) a done = give_account_up reason a done
ended t (dropped reason) a done = after_drop t reason a done

unfoldable pub served : Turn → Actor → List Effect → Outcome
served t a done =
    let b = set_state t.now connected a in
    ended t t.ending (if t.outlived then stabilised b else b) (done ++ closed ∷ [])

unfoldable pub dial_turn : Turn → Dial → Actor → List Effect → Outcome
dial_turn t connection a done = served t a done
dial_turn t (reauth err) a done = dial_failed t err true a done
dial_turn t (refused err) a done = dial_failed t err false a done

unfoldable pub device_turn : Turn → Option String → Actor → Outcome
device_turn t none a = give_account_up "no device" a []
device_turn t (some jid) a = dial_turn t t.dial (set_state t.now connecting a) (dialled jid ∷ [])

-- One turn of the loop of `run`.
unfoldable pub turn : Turn → Actor → Outcome
turn t a = device_turn t t.device a

-- `run` over the turns that the world has answered so far: `again` says that it still runs. On
-- every return the deferred call records `stopped`.
unfoldable pub run : List Turn → Actor → Outcome
run [] a = (a, [], again)
run (t ∷ ts) a =
    let (b, done, next_turn) = turn t a in
    let (c, rest, last) = run ts b in
    elim next_turn [
      | again ↦ (c, done ++ rest, last)
      | returned ↦ (set_state t.now stopped b, done, returned)
    ]
