-- ===== src/Store/Idempotency/Exclusive.antt =====
-- A key is won by one request.
use unified_messaging.Prelude.{
  ℕ, ◌≡◌, ◌≢◌, refl, ◌⊎◌, String, true, false, List, [], ◌∷◌, arith, eq_iff, All, has_row,
  delete_rows, has_row-update_rows, has_row-append, has_row-insert_row, has_row-insert_row_mono,
  str_eq_refl,
}
use unified_messaging.Store.Idempotency.{
  KeyRow, is_key, key_row, answered, put_idempotency, reserve_idempotency, delete_idempotency,
}

-- What requests do with the keys, but for the purge of old ones.
pub data KeyOp : Type 0 where
  put : (developer key response : String) → ℕ → KeyOp
  reserve : (developer key : String) → ℕ → KeyOp
  release : (developer key : String) → KeyOp

unfoldable pub run_key_op : KeyOp → List KeyRow → List KeyRow
run_key_op (put dev key response now) rows = put_idempotency dev key response now rows
run_key_op (reserve dev key now) rows = (reserve_idempotency dev key now rows).0
run_key_op (release dev key) rows = delete_idempotency dev key rows

unfoldable pub run_key_ops : List KeyOp → List KeyRow → List KeyRow
run_key_ops [] rows = rows
run_key_ops (op ∷ ops) rows = run_key_ops ops (run_key_op op rows)

-- The operation does not release the key.
abbrev pub Holds : String → String → KeyOp → Type 0
Holds dev key (release d k) = (dev ≢ d) ⊎ (key ≢ k)
Holds dev key _ = Unit

has_row-delete_other :
    (dev key d k : String) (rows : List KeyRow)
    → (dev ≢ d) ⊎ (key ≢ k)
    → has_row (is_key dev key) rows ≡ true
    → has_row (is_key dev key) (delete_rows (is_key d k) rows) ≡ true
has_row-delete_other dev key d k [] other h = h
has_row-delete_other dev key d k (r ∷ rows) other h = ground (
  arith,
  other,
  eq_iff r.developer_id dev,
  eq_iff r.developer_id d,
  eq_iff r.key key,
  eq_iff r.key k,
  has_row-delete_other dev key d k rows other,
)

run_key_op-has_row :
    (dev key : String) (op : KeyOp) (rows : List KeyRow)
    → Holds dev key op
    → has_row (is_key dev key) rows ≡ true
    → has_row (is_key dev key) (run_key_op op rows) ≡ true
unfolding run_key_op put_idempotency reserve_idempotency delete_idempotency
run_key_op-has_row dev key (put d k response now) rows held h = ground (
  arith,
  has_row-update_rows (is_key d k) (is_key dev key) (answered response now) rows (λ r. refl),
  has_row-append (is_key dev key) rows (key_row d k response now ∷ []),
)
run_key_op-has_row dev key (reserve d k now) rows held h =
    has_row-insert_row_mono (is_key dev key) (is_key d k) (key_row d k "" now) rows h
run_key_op-has_row dev key (release d k) rows held h = has_row-delete_other dev key d k rows held h

run_key_ops-has_row :
    (dev key : String) (ops : List KeyOp) (rows : List KeyRow)
    → All (Holds dev key) ops
    → has_row (is_key dev key) rows ≡ true
    → has_row (is_key dev key) (run_key_ops ops rows) ≡ true
unfolding run_key_ops
run_key_ops-has_row dev key [] rows held h = h
run_key_ops-has_row dev key (op ∷ ops) rows held h =
    run_key_ops-has_row dev key ops (run_key_op op rows) held.1
      (run_key_op-has_row dev key op rows held.0 h)

-- Of the requests that carry one key, one runs the operation: once a developer's key was reserved,
-- every later reservation of it loses, whatever other keys see and whatever is stored under this
-- one, until the key is released. The purge of old keys is left out.
pub reserve_once :
    (dev key : String) (now later : ℕ) (ops : List KeyOp) (rows : List KeyRow)
    → All (Holds dev key) ops
    → (reserve_idempotency dev key later
        (run_key_ops ops (reserve_idempotency dev key now rows).0)).1
      ≡ false
unfolding reserve_idempotency
reserve_once dev key now later ops rows held =
    let row = key_row dev key "" now in
    let mine : is_key dev key row ≡ true = ground (arith, str_eq_refl dev, str_eq_refl key) in
    let there = has_row-insert_row (is_key dev key) row rows mine in
    ground
      (arith, run_key_ops-has_row dev key ops (reserve_idempotency dev key now rows).0 held there)
