-- ===== src/Api/Idempotency/Retries.antt =====
-- What a request answers whose key was used before.
use unified_messaging.Prelude.{
  ℕ, ◌≡◌, ◌≢◌, ◌≤◌, ◌+◌, refl, sym, ap, ◌∙◌, eqb, if◌then◌else◌, String, Bool, true, false, not,
  none, some, List, ◌==◌, arith, eq_iff, str_ne, All, has_row, find_row-has_row, ok,
}
use unified_messaging.Store.Idempotency.{KeyRow, is_key, get_idempotency, reserve_idempotency}
use unified_messaging.Api.Idempotency.{
  KeptReply, Reply, Request, Codec, Call, day, is_success, operation_hash, replay_or_conflict,
  replay_stored, error_reply, with_idempotency, serve_calls,
}
use unified_messaging.Api.Idempotency.Rows.{IsKept, put-IsKept}
use unified_messaging.Api.Idempotency.Replay.{serve_calls-IsKept}

if-not {ℓ} : {A : Type ℓ} (b : Bool) (x y : A) → (if not b then y else x) ≡ (if b then x else y)
if-not true x y = refl
if-not false x y = refl

stored_lem :
    (c : Codec) (rec : KeptReply) (hash text : String)
    → is_success rec.status ≡ true
    → text ≢ ""
    → c.unmarshal text ≡ some rec
    → replay_stored c hash (some text) ≡ (
        if rec.hash == hash
        then (let r : Reply = record { status = rec.status; body = rec.body } in r)
        else error_reply c 409 "idempotency_conflict"
            "this Idempotency-Key was already used with a different request")
stored_lem c rec hash text good filled reads =
    let real : eqb rec.status 0 ≡ false = ground arith in
    rw (str_ne text "" filled, reads, real) (if-not (rec.hash == hash) _ _)

module _ {W : Type 0} (c : Codec) where
  -- The first request of its key, whose operation goes through and whose reply is put in the table.
  pub record IsFirst (call : Call W) (w : W) (keys : List KeyRow) (rec : KeptReply) (text : String)
      : Type 0 where
    pub keyed : (call.request.key == "") ≡ false
    pub reserved : call.faults.reserve ≡ none
    pub written : call.faults.put ≡ false
    pub new : has_row (is_key call.request.developer_id call.request.key) keys ≡ false
    pub hashed : rec.hash ≡ operation_hash c call.request
    pub answered : (call.operation w).1 ≡ record { status = rec.status; body = ok rec.body }
    pub succeeded : is_success rec.status ≡ true
    pub marshalled : c.marshal rec ≡ some text
    pub filled : text ≢ ""
    pub unmarshalled : c.unmarshal text ≡ some rec

  first_lem :
      (call : Call W) (w : W) (keys : List KeyRow) (rec : KeptReply) (text : String)
      → IsFirst call w keys rec text
      → IsKept call.request.developer_id call.request.key text call.ended_at
          (with_idempotency c call w keys).keys
        × (with_idempotency c call w keys).reply ≡ record { status = rec.status; body = rec.body }
  unfolding with_idempotency reserve_idempotency
  first_lem call w keys rec text h =
      let same : record {
        hash = operation_hash c call.request;
        status = rec.status;
        body = rec.body;
      }
          ≡ rec =
        rw h.hashed refl in
      rw (h.keyed, h.reserved, h.new, h.answered, h.succeeded, same, h.marshalled, h.written)
        (put-IsKept call.request.developer_id call.request.key text call.ended_at _, refl)

  -- a request whose key is in the table reads what is there
  lost_lem :
      (call : Call W) (w : W) (keys : List KeyRow) (dev key text : String) (since : ℕ)
      → call.request.developer_id ≡ dev
      → call.request.key ≡ key
      → (key == "") ≡ false
      → call.faults.reserve ≡ none
      → call.faults.get ≡ false
      → IsKept dev key text since keys
      → with_idempotency c call w keys ≡ record {
        world = w;
        keys = keys;
        reply = replay_stored c (operation_hash c call.request) (some text);
      }
  unfolding with_idempotency reserve_idempotency replay_or_conflict get_idempotency
  lost_lem call w keys dev key text since d k keyed reserved read (r, found, same, at) =
      let there = find_row-has_row (is_key dev key) keys found in
      rw (k, d, keyed, reserved, there, read, found, same) refl

  kept_lem :
      (call : Call W) (calls : List (Call W)) (w : W) (keys : List KeyRow) (rec : KeptReply)
      (text : String)
      → IsFirst call w keys rec text
      → All (λ (x : Call W). x.ended_at ≤ call.ended_at + day) calls
      → let first = with_idempotency c call w keys in
        IsKept call.request.developer_id call.request.key text call.ended_at
          (serve_calls c calls first.world first.keys).1
  kept_lem call calls w keys rec text h soon =
      let first = with_idempotency c call w keys in
      serve_calls-IsKept c call.request.developer_id call.request.key text call.ended_at calls
        first.world first.keys soon (first_lem call w keys rec text h).0

  -- A request whose key is new, whose operation succeeds and whose reply is put in the table is
  -- answered once and for all: whatever requests are served after it, a request with the same
  -- developer, key, method, path, account and body gets the same status and body, and its operation is
  -- not run. That holds for a day after the first request's end, and as long as the reads of the table
  -- in the retry do not fail. What json.Marshal wrote of the reply is not empty and reads back as it.
  pub retry_replays :
      (call again : Call W) (calls : List (Call W)) (w : W) (keys : List KeyRow) (rec : KeptReply)
      (text : String)
      → IsFirst call w keys rec text
      → All (λ (x : Call W). x.ended_at ≤ call.ended_at + day) calls
      → again.request ≡ call.request
      → again.faults.reserve ≡ none
      → again.faults.get ≡ false
      → let first = with_idempotency c call w keys in
        let between = serve_calls c calls first.world first.keys in
        with_idempotency c again between.0 between.1
        ≡ record { world = between.0; keys = between.1; reply = first.reply }
  retry_replays call again calls w keys rec text h soon same reserved read =
      let first = with_idempotency c call w keys in
      let between = serve_calls c calls first.world first.keys in
      let lost =
        lost_lem again between.0 between.1 call.request.developer_id call.request.key text
          call.ended_at (ap (λ (r : Request). r.developer_id) same)
          (ap (λ (r : Request). r.key) same) h.keyed reserved read
          (kept_lem call calls w keys rec text h soon) in
      let hashes : (rec.hash == operation_hash c again.request) ≡ true =
        (eq_iff rec.hash (operation_hash c again.request)).1
          (h.hashed ∙ sym (ap (operation_hash c) same)) in
      rw
        (
          lost,
          stored_lem c rec (operation_hash c again.request) text h.succeeded h.filled
              h.unmarshalled,
          hashes,
          (first_lem call w keys rec text h).1,
        )
        refl

  -- A request that comes under that key with another operation, one whose hash differs, is answered
  -- with a conflict, and is not run.
  pub retry_conflicts :
      (call again : Call W) (calls : List (Call W)) (w : W) (keys : List KeyRow) (rec : KeptReply)
      (text : String)
      → IsFirst call w keys rec text
      → All (λ (x : Call W). x.ended_at ≤ call.ended_at + day) calls
      → again.request.developer_id ≡ call.request.developer_id
      → again.request.key ≡ call.request.key
      → operation_hash c again.request ≢ operation_hash c call.request
      → again.faults.reserve ≡ none
      → again.faults.get ≡ false
      → let first = with_idempotency c call w keys in
        let between = serve_calls c calls first.world first.keys in
        let second = with_idempotency c again between.0 between.1 in
        (second.world ≡ between.0) × (second.keys ≡ between.1) × (second.reply.status ≡ 409)
  retry_conflicts call again calls w keys rec text h soon dev key other reserved read =
      let first = with_idempotency c call w keys in
      let between = serve_calls c calls first.world first.keys in
      let lost =
        lost_lem again between.0 between.1 call.request.developer_id call.request.key text
          call.ended_at dev key h.keyed reserved read
          (kept_lem call calls w keys rec text h soon) in
      let hashes : (rec.hash == operation_hash c again.request) ≡ false =
        str_ne rec.hash (operation_hash c again.request) (λ e. other (sym e ∙ h.hashed)) in
      rw
        (
          lost,
          stored_lem c rec (operation_hash c again.request) text h.succeeded h.filled
              h.unmarshalled,
          hashes,
        )
        (refl, refl, refl)
