-- ===== src/Api/Idempotency/Replay.antt =====
-- A kept reply stays while other requests are served.
use unified_messaging.Prelude.{
  ℕ, ◌≡◌, ◌≤◌, ◌+◌, ◌-◌, refl, inl, inr, String, false, ◌&&◌, Option, none, some, List, [], ◌∷◌,
  ◌==◌, ltb, arith, Bool-cases, All, has_row, insert_row, find_row-has_row, find_row-insert_row,
  find_row-delete_rows_ne, find_row-upsert_row_ne, Result, ok, failed,
}
use unified_messaging.Store.Idempotency.{
  KeyRow, is_key, key_row, answered, put_idempotency, reserve_idempotency, delete_idempotency,
  purge_idempotency,
}
use unified_messaging.Api.Idempotency.{
  KeptReply, Codec, Request, KeyFaults, Call, day, operation_hash, release, purge, put_record,
  complete, reserving, with_idempotency, serve_calls, is_success,
}
use unified_messaging.Api.Idempotency.Rows.{IsKept, find_row-delete_rows_kept, apart, taken}

module _ (c : Codec) (dev key text : String) (since : ℕ) where
  release-IsKept :
      (f : KeyFaults) (d k : String) (keys : List KeyRow)
      → (d == dev && k == key) ≡ false
      → IsKept dev key text since keys
      → IsKept dev key text since (release f d k keys)
  unfolding delete_idempotency
  release-IsKept f d k keys ne (r, found, same, at) = (
    r,
    ground (
      arith,
      found,
      find_row-delete_rows_ne (is_key dev key) (is_key d k) keys (apart dev key d k ne),
    ),
    same,
    at,
  )

  purge-IsKept :
      (f : KeyFaults) (now : ℕ) (keys : List KeyRow)
      → now ≤ since + day
      → IsKept dev key text since keys
      → IsKept dev key text since (purge f now keys)
  unfolding purge_idempotency
  purge-IsKept f now keys soon (r, found, same, at) =
      let young : ltb r.created_at (now - day) ≡ false = ground arith in
      (
        r,
        ground (
          arith,
          found,
          young,
          find_row-delete_rows_kept (is_key dev key) (λ (x : KeyRow). ltb x.created_at (now - day))
              keys {r = r},
        ),
        same,
        at,
      )

  put-IsKept_other :
      (d k : String) (now : ℕ) (response : String) (keys : List KeyRow)
      → (d == dev && k == key) ≡ false
      → IsKept dev key text since keys
      → IsKept dev key text since (put_idempotency d k response now keys)
  unfolding put_idempotency
  put-IsKept_other d k now response keys ne (r, found, same, at) = (
    r,
    ground (
      arith,
      found,
      find_row-upsert_row_ne (is_key d k) (is_key dev key) (answered response now)
          (key_row d k response now) keys (apart dev key d k ne) (λ x. refl) ne,
    ),
    same,
    at,
  )

  -- what is stored at the end of another key's request
  record-IsKept :
      (f : KeyFaults) (d k : String) (now : ℕ) (found : Option String) (keys : List KeyRow)
      → (d == dev && k == key) ≡ false
      → now ≤ since + day
      → IsKept dev key text since keys
      → IsKept dev key text since (put_record f d k now found keys)
  record-IsKept f d k now none keys ne soon held = held
  record-IsKept f d k now (some response) keys ne soon held =
      let purged = purge-IsKept f now keys soon held in
      elim (Bool-cases f.put) [
        | inl e ↦ rw e purged
        | inr e ↦ rw e (put-IsKept_other d k now response (purge f now keys) ne purged)
      ]

  complete-IsKept :
      (f : KeyFaults) (r : Request) (now status : ℕ) (body : Result String String)
      (keys : List KeyRow)
      → (r.developer_id == dev && r.key == key) ≡ false
      → now ≤ since + day
      → IsKept dev key text since keys
      → IsKept dev key text since (complete c f r now status body keys).0
  complete-IsKept f r now status (failed why) keys ne soon held =
      release-IsKept f r.developer_id r.key keys ne held
  complete-IsKept f r now status (ok body) keys ne soon held =
      let rec : KeptReply = record { hash = operation_hash c r; status = status; body = body } in
      let kept = record-IsKept f r.developer_id r.key now (c.marshal rec) keys ne soon held in
      let freed = release-IsKept f r.developer_id r.key keys ne held in
      elim (Bool-cases (is_success status)) [ inl e ↦ rw e kept | inr e ↦ rw e freed ]

  module _ {W : Type 0} where
    reserving-IsKept :
        (call : Call W) (w : W) (keys : List KeyRow) (fault : Option String)
        → call.ended_at ≤ since + day
        → IsKept dev key text since keys
        → IsKept dev key text since (reserving c call w keys fault).keys
    unfolding reserve_idempotency
    reserving-IsKept call w keys (some why) soon held = held
    reserving-IsKept call w keys none soon held =
        let r = call.request in
        let row = key_row r.developer_id r.key "" call.reserved_at in
        let (x, found, same, at) = held in
        let still : IsKept dev key text since (insert_row (is_key r.developer_id r.key) row keys) =
          (
            x,
            find_row-insert_row (is_key dev key) (is_key r.developer_id r.key) row keys found,
            same,
            at,
          ) in
        elim (Bool-cases (has_row (is_key r.developer_id r.key) keys)) [
          | inl e ↦ rw e held
          | inr e ↦
              let answer = (call.operation w).1 in
              let ne =
                taken dev key r.developer_id r.key keys e
                  (find_row-has_row (is_key dev key) keys found) in
              let done =
                complete-IsKept call.faults r call.ended_at answer.status answer.body
                  (insert_row (is_key r.developer_id r.key) row keys) ne soon still in
              rw e (rw e at done)
        ]

    with_idempotency-IsKept :
        (call : Call W) (w : W) (keys : List KeyRow)
        → call.ended_at ≤ since + day
        → IsKept dev key text since keys
        → IsKept dev key text since (with_idempotency c call w keys).keys
    unfolding with_idempotency
    with_idempotency-IsKept call w keys soon held = elim (Bool-cases (call.request.key == "")) [
      | inl e ↦ rw e held
      | inr e ↦ rw e (reserving-IsKept call w keys call.faults.reserve soon held)
    ]

    pub serve_calls-IsKept :
        (calls : List (Call W)) (w : W) (keys : List KeyRow)
        → All (λ (call : Call W). call.ended_at ≤ since + day) calls
        → IsKept dev key text since keys
        → IsKept dev key text since (serve_calls c calls w keys).1
    unfolding serve_calls
    serve_calls-IsKept [] w keys soon held = held
    serve_calls-IsKept (call ∷ calls) w keys soon held =
        let s = with_idempotency c call w keys in
        serve_calls-IsKept calls s.world s.keys soon.1
          (with_idempotency-IsKept call w keys soon.0 held)
