-- ===== src/Examples/Api.antt =====
-- A message that is sent with a key, and sent again.
use unified_messaging.Prelude.{
  ℕ, suc, ◌≡◌, refl, String, false, arith, none, some, List, [], ◌∷◌, ok, ne_of_test, Result,
  failed,
}
use unified_messaging.Api.Idempotency.{
  KeptReply, Codec, Request, KeyFaults, Call, operation_hash, with_idempotency, serve_calls,
}
use unified_messaging.Api.Idempotency.Retries.{IsFirst, retry_replays, retry_conflicts}
use unified_messaging.Api.Misses.{no_misses}
use unified_messaging.Api.Misses.Bounds.{
  MissOp, ask_op, remember_op, run_miss_ops, IsWithin, run_miss_ops-IsWithin,
}

abbrev send_request : Request
send_request = record {
  method = "POST";
  path = "/api/v1/chats/c1/messages";
  body = "hello";
  key = "k1";
  developer_id = "dev1";
  account_id = "acc1";
}

abbrev text_of : Result String String → String
text_of (ok body) = body
text_of (failed why) = ""

abbrev sent_record : KeptReply
sent_record = record {
  hash = "POST\n/api/v1/chats/c1/messages\nacc1\nhello";
  status = 201;
  body = "{m1}";
}

-- what is hashed stands for its hash, and one reply is ever marshalled
abbrev codec : Codec
codec = record {
  sha256_hex = λ text. text;
  marshal = λ rec. some "the reply";
  unmarshal = λ text. some sent_record;
  encode_body = λ body. text_of body;
  error_body = λ code message. message;
}

abbrev no_faults : KeyFaults
no_faults = record { reserve = none; get = false; put = false; delete = false; purge = false }

-- the operation counts the messages that were sent
abbrev send_call : Call ℕ
send_call = record {
  request = send_request;
  faults = no_faults;
  reserved_at = 1000;
  ended_at = 1002;
  operation = λ sent. (suc sent, record { status = 201; body = ok "{m1}" });
}

abbrev other_call : Call ℕ
other_call = record send_call {
  request = record send_request { key = "k2" };
  reserved_at = 1500;
  ended_at = 1501;
}

abbrev clash_call : Call ℕ
clash_call = record send_call { request = record send_request { body = "bye" } }

send_call-IsFirst : IsFirst codec send_call 0 [] sent_record "the reply"
unfolding operation_hash
send_call-IsFirst = record {
  keyed = refl;
  reserved = refl;
  written = refl;
  new = refl;
  hashed = refl;
  answered = refl;
  succeeded = refl;
  marshalled = refl;
  filled = ne_of_test "the reply" "" refl;
  unmarshalled = refl;
}

replay_example :
    let first = with_idempotency codec send_call 0 [] in
    let between = serve_calls codec (other_call ∷ []) first.world first.keys in
    with_idempotency codec send_call between.0 between.1
    ≡ record { world = between.0; keys = between.1; reply = first.reply }
replay_example =
    retry_replays codec send_call send_call (other_call ∷ []) 0 [] sent_record "the reply"
      send_call-IsFirst (omega arith, tt) refl refl refl

conflict_example :
    let first = with_idempotency codec send_call 0 [] in
    let between = serve_calls codec (other_call ∷ []) first.world first.keys in
    let second = with_idempotency codec clash_call between.0 between.1 in
    (second.world ≡ between.0) × (second.keys ≡ between.1) × (second.reply.status ≡ 409)
unfolding operation_hash
conflict_example =
    retry_conflicts codec send_call clash_call (other_call ∷ []) 0 [] sent_record "the reply"
      send_call-IsFirst (omega arith, tt) refl refl
      (ne_of_test (operation_hash codec clash_call.request) (operation_hash codec send_call.request)
        refl)
      refl refl

abbrev miss_ops : List MissOp
miss_ops = remember_op 5 "m1" ∷ ask_op 7 "m1" ∷ remember_op 9 "m2" ∷ ask_op 90000000000 "m1" ∷ []

misses_example : IsWithin (run_miss_ops miss_ops no_misses)
misses_example = run_miss_ops-IsWithin miss_ops no_misses ((tt, refl), omega arith)
