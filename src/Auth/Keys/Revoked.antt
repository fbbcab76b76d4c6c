-- ===== src/Auth/Keys/Revoked.antt =====
-- internal/auth/auth.go: the revocation of an API key is final.
use unified_messaging.Prelude.{
  ℕ, ◌/◌, ◌≤◌, ◌≡◌, refl, ap, ◌∙◌, inl, inr, String, true, false, Option, none, some, List, [], ◌∷◌,
  arith, eq_iff, str_eq_refl, Bool-cases, Option-cases, All, All-map, All-has_row, find_row,
  find_row-holds, find_row-has_row_other, update_rows, has_row, has_row-find_row,
  has_row-update_rows, count_rows, sole_row, ok, failed,
}
use unified_messaging.Store.Tables.{DeveloperRow}
use unified_messaging.Store.Developers.{AuthDb, ApiKeyRow, is_developer, get_developer}
use unified_messaging.Store.Developers.Keys.{
  has_hash, is_unset, is_live_key, is_own_key, developer_by_key_hash, revoke_api_key, revoked,
  joined,
}
use unified_messaging.Auth.{Crypto, invalid_credentials, second}
use unified_messaging.Auth.Keys.{KeyState, key_developer, revoke_key, found, is_well_formed}
use unified_messaging.Auth.Keys.Ops.{
  ApiKeyOp, run_api_key_ops, IsDead, IsRevoked, coalesce-set, run_api_key_ops-IsRevoked,
}

dead_is_not_live : (hash : String) (k : ApiKeyRow) → IsDead hash k → is_live_key hash k ≡ false
dead_is_not_live hash k d = elim (Bool-cases (has_hash hash k)) [
  | inl t ↦ ground (arith, d t)
  | inr t ↦ ground arith
]

-- A key whose rows are all revoked opens nothing.
key_developer-refused :
    (c : Crypto) (now : ℕ) (full : String) (s : KeyState)
    → IsRevoked (c.hash_key full) s.db.api_keys
    → (key_developer c now full s).1 ≡ failed invalid_credentials
unfolding key_developer developer_by_key_hash
key_developer-refused c now full s h =
    let live = is_live_key (c.hash_key full) in
    let none_live = has_row-find_row live s.db.api_keys (
      All-has_row live s.db.api_keys
        (All-map s.db.api_keys (λ k d. dead_is_not_live (c.hash_key full) k d) h.dead)) in
    elim (Bool-cases (is_well_formed full)) [ inl q ↦ rw (q, none_live) refl | inr q ↦ rw q refl ]

found-ok :
    (now : ℕ) (s : KeyState) (o : Option (DeveloperRow × ApiKeyRow)) {d : DeveloperRow}
    {k : ApiKeyRow}
    → (found now s o).1 ≡ ok (d, k)
    → o ≡ some (d, k)
found-ok now s none e = absurd (ground arith)
found-ok now s (some x) e = ground arith

joined-some :
    (db : AuthDb) (o : Option ApiKeyRow) {d : DeveloperRow} {k : ApiKeyRow}
    → joined o db ≡ some (d, k)
    → (o ≡ some k) × (get_developer k.developer_id db ≡ some d)
joined-some db none e = absurd (ground arith)
joined-some db (some x) {d} {k} e = elim (Option-cases (get_developer x.developer_id db)) [
  | inl q ↦ absurd (ground arith)
  | inr (y, q) ↦
      let same : x ≡ k = ground arith in
      let owner : y ≡ d = ground arith in (ap some same, rw same at (q ∙ ap some owner))
]

key_developer-ok :
    (c : Crypto) (now : ℕ) (full : String) (s : KeyState) {d : DeveloperRow} {k : ApiKeyRow}
    → (key_developer c now full s).1 ≡ ok (d, k)
    → (find_row (is_live_key (c.hash_key full)) s.db.api_keys ≡ some k) × (d.id ≡ k.developer_id)
unfolding key_developer developer_by_key_hash get_developer
key_developer-ok c now full s {d} {k} e = elim (Bool-cases (is_well_formed full)) [
  | inr q ↦ absurd (ground arith)
  | inl q ↦
      let at =
        found-ok now s (developer_by_key_hash (c.hash_key full) s.db) {d = d} {k = k}
          (ground arith) in
      let (row, owner) =
        joined-some s.db (find_row (is_live_key (c.hash_key full)) s.db.api_keys) at in
      (
        row,
        (eq_iff d.id k.developer_id).0
            (find_row-holds (is_developer k.developer_id) s.db.developers owner),
      )
]

not_own :
    (r k : ApiKeyRow) (dev : String)
    → dev ≡ k.developer_id
    → r ≡ k
    → is_own_key dev k.id r ≡ false
    → ⊥
not_own r k dev mine same q =
    let own : is_own_key dev k.id k ≡ true =
      ground (arith, str_eq_refl k.id, eq_iff k.developer_id dev, mine) in
    ground (arith, ap (is_own_key dev k.id) same)

revoked_rows :
    (hash dev : String) (at : ℕ) (k : ApiKeyRow) (rows : List ApiKeyRow)
    → dev ≡ k.developer_id
    → All (λ (r : ApiKeyRow). has_hash hash r ≡ true → r ≡ k) rows
    → All (IsDead hash) (update_rows (is_own_key dev k.id) (revoked at) rows)
revoked_rows hash dev at k [] mine sole = tt
revoked_rows hash dev at k (r ∷ rows) mine sole =
    let rest = revoked_rows hash dev at k rows mine sole.1 in
    elim (Bool-cases (is_own_key dev k.id r)) [
      | inl q ↦ rw q (λ t. coalesce-set r.revoked_at at, rest)
      | inr q ↦ rw q (λ t. absurd (not_own r k dev mine (sole.0 t) q), rest)
    ]

-- The revocation of a key is final: where a hash has at most one row, as the table's UNIQUE has it,
-- the developer whose key was answered can revoke it, and from then on the key is refused, whatever
-- keys are minted, presented and revoked in between.
pub revoke_final :
    (c : Crypto) (now at later : ℕ) (full : String) (ops : List ApiKeyOp) (s : KeyState)
    (d : DeveloperRow) (k : ApiKeyRow)
    → count_rows (has_hash (c.hash_key full)) s.db.api_keys ≤ 1
    → (key_developer c now full s).1 ≡ ok (d, k)
    → ((revoke_key d.id k.id at s).1 ≡ true)
      × ((key_developer c later full (run_api_key_ops c ops (revoke_key d.id k.id at s).0)).1
          ≡ failed invalid_credentials)
unfolding revoke_key revoke_api_key
revoke_final c now at later full ops s d k one e =
    let rows = s.db.api_keys in
    let (found, mine) = key_developer-ok c now full s {d = d} {k = k} e in
    let live = is_live_key (c.hash_key full) in
    let own = is_own_key d.id k.id in
    let hashed = find_row-holds live rows found in
    let owned : has_row own rows ≡ true =
      find_row-has_row_other live own rows found
        (ground (arith, str_eq_refl k.id, eq_iff k.developer_id d.id, mine)) in
    let sole = sole_row (has_hash (c.hash_key full)) (λ x. is_unset x.revoked_at) rows one found in
    let there =
      has_row-update_rows own (has_hash (c.hash_key full)) (revoked (at / second)) rows (λ r. refl)
      ∙ find_row-has_row_other live (has_hash (c.hash_key full)) rows found (ground arith) in
    let dead = revoked_rows (c.hash_key full) d.id (at / second) k rows mine sole in
    let gone : IsRevoked (c.hash_key full) (revoke_key d.id k.id at s).0.db.api_keys =
      rw (owned) (record { there = there; dead = dead }) in
    (
      rw owned refl,
      key_developer-refused c later full (run_api_key_ops c ops (revoke_key d.id k.id at s).0)
          (run_api_key_ops-IsRevoked c (c.hash_key full) ops (revoke_key d.id k.id at s).0 gone),
    )
