-- ===== src/Api/Idempotency.antt =====
-- internal/api/handlers_chat.go: withIdempotency and replayOrConflict, over the keys of
-- Store/Idempotency. SHA-256 and encoding/json are parameters (`Codec`), the operation is one too.
pub mod Rows
pub mod Replay
pub mod Retries
use Prim.Native.String.{◌++◌}
use unified_messaging.Prelude.{
  ℕ, ◌-◌, String, Bool, true, false, not, ◌&&◌, ◌||◌, Option, none, some, List, [], ◌∷◌, ◌==◌, leb,
  ltb, eqb, if◌then◌else◌, Result, ok, failed,
}
use unified_messaging.Store.Idempotency.{
  KeyRow, put_idempotency, get_idempotency, reserve_idempotency, delete_idempotency,
  purge_idempotency,
}

-- `idempotencyRecord`
pub record KeptReply : Type 0 where
  pub hash : String
  pub status : ℕ
  pub body : String

pub record Reply : Type 0 where
  pub status : ℕ
  pub body : String

-- `encode_body` is what an Encoder writes of a body, `error_body` that of an apiError.
pub record Codec : Type 0 where
  pub sha256_hex : String → String
  pub marshal : KeptReply → Option String
  pub unmarshal : String → Option KeptReply
  pub encode_body : Result String String → String
  pub error_body : (code message : String) → String

pub record Request : Type 0 where
  pub method : String
  pub path : String
  pub body : String
  pub key : String
  pub developer_id : String
  pub account_id : String

-- Which calls of the store fail; the error of a reservation is shown.
pub record KeyFaults : Type 0 where
  pub reserve : Option String
  pub get : Bool
  pub put : Bool
  pub delete : Bool
  pub purge : Bool

-- What an operation answers: its status, and its body as JSON, or why it cannot be JSON.
pub record Answer : Type 0 where
  pub status : ℕ
  pub body : Result String String

-- One request: when its key is reserved and when its operation has ended, in seconds.
pub record Call (W : Type 0) : Type 0 where
  pub request : Request
  pub faults : KeyFaults
  pub reserved_at : ℕ
  pub ended_at : ℕ
  pub operation : W → W × Answer

pub record Served (W : Type 0) : Type 0 where
  pub world : W
  pub keys : List KeyRow
  pub reply : Reply

abbrev pub day : ℕ
day = 86400

unfoldable pub operation_hash : Codec → Request → String
operation_hash c r =
    c.sha256_hex (r.method ++ "\n" ++ r.path ++ "\n" ++ r.account_id ++ "\n" ++ r.body)

abbrev pub error_reply : Codec → ℕ → String → String → Reply
error_reply c status code message = record { status = status; body = c.error_body code message }

abbrev pub in_progress : Codec → Reply
in_progress c = error_reply c 409 "idempotency_conflict" "a request with this key is in progress"

abbrev pub replay_record : Codec → String → Option KeptReply → Reply
replay_record c hash none = in_progress c
replay_record c hash (some rec) =
    if eqb rec.status 0
    then in_progress c
    else if not (rec.hash == hash)
    then error_reply c 409 "idempotency_conflict"
        "this Idempotency-Key was already used with a different request"
    else record { status = rec.status; body = rec.body }

abbrev pub replay_stored : Codec → String → Option String → Reply
replay_stored c hash none = in_progress c
replay_stored c hash (some stored) =
    if stored == "" then in_progress c else replay_record c hash (c.unmarshal stored)

-- `replayOrConflict`
unfoldable pub replay_or_conflict : Codec → Bool → String → String → String → List KeyRow → Reply
replay_or_conflict c get_fails dev key hash keys =
    replay_stored c hash (if get_fails then none else get_idempotency dev key keys)

abbrev pub release : KeyFaults → String → String → List KeyRow → List KeyRow
release f dev key keys = if f.delete then keys else delete_idempotency dev key keys

abbrev pub purge : KeyFaults → ℕ → List KeyRow → List KeyRow
purge f now keys = if f.purge then keys else purge_idempotency (now - day) keys

abbrev pub put_record : KeyFaults → String → String → ℕ → Option String → List KeyRow → List KeyRow
put_record f dev key now none keys = keys
put_record f dev key now (some text) keys =
    let purged = purge f now keys in
    if f.put then purged else put_idempotency dev key text now purged

abbrev pub is_success : ℕ → Bool
is_success status = leb 200 status && ltb status 300

-- The end of the request that won the key.
abbrev pub complete :
    Codec → KeyFaults → Request → ℕ → ℕ → Result String String → List KeyRow → List KeyRow × Reply
complete c f r now status (failed why) keys =
    (release f r.developer_id r.key keys, error_reply c 500 "internal" why)
complete c f r now status (ok body) keys =
    let rec : KeptReply = record { hash = operation_hash c r; status = status; body = body } in
    let kept = put_record f r.developer_id r.key now (c.marshal rec) keys in
    let freed = release f r.developer_id r.key keys in
    (if is_success status then kept else freed, record { status = status; body = body })

module _ {W : Type 0} (c : Codec) where
  abbrev pub completed : Call W → List KeyRow → W × Answer → Served W
  completed call keys (w, answer) =
      let (after, reply) =
        complete c call.faults call.request call.ended_at answer.status answer.body keys in
      record { world = w; keys = after; reply = reply }

  abbrev pub won_or_lost : Call W → W → List KeyRow × Bool → Served W
  won_or_lost call w (keys, true) = completed call keys (call.operation w)
  won_or_lost call w (keys, false) =
      let r = call.request in
      record {
        world = w;
        keys = keys;
        reply = replay_or_conflict c call.faults.get r.developer_id r.key (operation_hash c r) keys;
      }

  abbrev pub reserving : Call W → W → List KeyRow → Option String → Served W
  reserving call w keys (some why) = record {
    world = w;
    keys = keys;
    reply = error_reply c 500 "internal" why;
  }
  reserving call w keys none =
      won_or_lost call w
        (reserve_idempotency call.request.developer_id call.request.key call.reserved_at keys)

  abbrev pub unkeyed : List KeyRow → W × Answer → Served W
  unkeyed keys (w, answer) = record {
    world = w;
    keys = keys;
    reply = record { status = answer.status; body = c.encode_body answer.body };
  }

  unfoldable pub with_idempotency : Call W → W → List KeyRow → Served W
  with_idempotency call w keys =
      if call.request.key == ""
      then unkeyed keys (call.operation w)
      else reserving call w keys call.faults.reserve

  -- requests that are served one after another
  unfoldable pub serve_calls : List (Call W) → W → List KeyRow → W × List KeyRow
  serve_calls [] w keys = (w, keys)
  serve_calls (call ∷ calls) w keys =
      let s = with_idempotency call w keys in serve_calls calls s.world s.keys
