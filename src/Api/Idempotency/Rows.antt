-- ===== src/Api/Idempotency/Rows.antt =====
-- The row of a key that holds a reply, among the rows of other keys.
use unified_messaging.Prelude.{
  ℕ, ◌≡◌, refl, ap, inl, inr, String, Bool, true, false, ◌&&◌, some, List, [], ◌∷◌, ◌==◌, arith,
  Bool-cases, eq_iff, str_eq_refl, find_row, has_row, delete_rows, find_row-update_rows,
  find_row-append, find_row-some,
}
use unified_messaging.Store.Idempotency.{KeyRow, is_key, key_row, answered, put_idempotency}

-- The reply that is kept under a key since a time.
abbrev pub IsKept : String → String → String → ℕ → List KeyRow → Type 0
IsKept dev key text since keys =
    (r : KeyRow) × (find_row (is_key dev key) keys ≡ some r)
    × (r.response ≡ text)
    × (r.created_at ≡ since)

pub find_row-delete_rows_kept :
    (p q : KeyRow → Bool) (rows : List KeyRow) {r : KeyRow}
    → find_row p rows ≡ some r
    → q r ≡ false
    → find_row p (delete_rows q rows) ≡ some r
find_row-delete_rows_kept p q [] h e = ground (arith, h)
find_row-delete_rows_kept p q (x ∷ rows) {r} h e = elim (Bool-cases (p x)) [
  | inl t ↦
      let same : x ≡ r = ground arith in
      ground (arith, ap q same, find_row-delete_rows_kept p q rows {r = r})
  | inr t ↦ ground (arith, find_row-delete_rows_kept p q rows {r = r})
]

pub put-IsKept :
    (dev key text : String) (now : ℕ) (keys : List KeyRow)
    → IsKept dev key text now (put_idempotency dev key text now keys)
unfolding put_idempotency
put-IsKept dev key text now keys = elim (Bool-cases (has_row (is_key dev key) keys)) [
  | inl e ↦
      let (r, found) = find_row-some (is_key dev key) keys e in
      (
        answered text now r,
        ground (
          arith,
          found,
          find_row-update_rows (is_key dev key) (answered text now) keys (λ x. refl),
        ),
        refl,
        refl,
      )
  | inr e ↦ (
    key_row dev key text now,
    ground (
      arith,
      str_eq_refl dev,
      str_eq_refl key,
      find_row-append (is_key dev key) keys (key_row dev key text now ∷ []),
    ),
    refl,
    refl,
  )
]

-- another key is another row
pub apart :
    (dev key d k : String)
    → (d == dev && k == key) ≡ false
    → (x : KeyRow) → is_key dev key x ≡ true
    → is_key d k x ≡ false
apart dev key d k ne x h = ground (
  arith,
  eq_iff x.developer_id dev,
  eq_iff x.developer_id d,
  eq_iff x.key key,
  eq_iff x.key k,
  eq_iff d dev,
  eq_iff k key,
)

-- a row of the key that is there is not reserved
pub taken :
    (dev key d k : String) (keys : List KeyRow)
    → has_row (is_key d k) keys ≡ false
    → has_row (is_key dev key) keys ≡ true
    → (d == dev && k == key) ≡ false
taken dev key d k keys free there = elim (Bool-cases (d == dev && k == key)) [
  | inr e ↦ e
  | inl e ↦
      let a : d ≡ dev = (eq_iff d dev).0 (ground arith) in
      let b : k ≡ key = (eq_iff k key).0 (ground arith) in
      absurd (ground (arith, rw (a, b) at free))
]
