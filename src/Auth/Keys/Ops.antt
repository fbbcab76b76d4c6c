-- ===== src/Auth/Keys/Ops.antt =====
-- internal/auth/auth.go: what requests do with the API keys, and that a revoked key stays revoked.
use unified_messaging.Prelude.{
  ℕ, ◌/◌, ◌≡◌, refl, sym, ◌∙◌, inl, inr, String, Bool, true, false, not, ◌||◌, Option, none, some,
  List, [], ◌∷◌, ◌==◌, arith, eq_iff, if_both, Bool-cases, All, All-append, All-map, All-has_row,
  All-update_rows, update_rows, has_row, has_row-All, has_row-append, has_row-update_rows, Result,
  trim_space,
}
use unified_messaging.Store.Tables.{DeveloperRow}
use unified_messaging.Store.Developers.{AuthDb, ApiKeyRow, StoreError, is_developer}
use unified_messaging.Store.Developers.Keys.{
  is_api_key, has_hash, is_unset, is_own_key, create_api_key, developer_by_key_hash, touch_api_key,
  touched, revoke_api_key, revoked, coalesce,
}
use unified_messaging.Auth.{Crypto, AuthError, second}
use unified_messaging.Auth.Keys.{
  KeyState, key_developer, new_api_key, revoke_key, touch, found, is_well_formed, is_recent,
  revoked_or_not, mint, created, new_key_row, random_key,
}

-- What requests do with keys.
pub data ApiKeyOp : Type 0 where
  issue : (now : ℕ) → Option (List ℕ) → Option String → (developer name : String) → ApiKeyOp
  present : (now : ℕ) (key : String) → ApiKeyOp
  revoke : (developer id : String) (now : ℕ) → ApiKeyOp

unfoldable pub run_api_key_op : Crypto → ApiKeyOp → KeyState → KeyState
run_api_key_op c (issue now bytes minted dev name) s = (new_api_key c now bytes minted dev name s).0
run_api_key_op c (present now full) s = (key_developer c now full s).0
run_api_key_op c (revoke dev id now) s = (revoke_key dev id now s).0

unfoldable pub run_api_key_ops : Crypto → List ApiKeyOp → KeyState → KeyState
run_api_key_ops c [] s = s
run_api_key_ops c (op ∷ ops) s = run_api_key_ops c ops (run_api_key_op c op s)

-- A row of the hash is there, and every one is revoked.
abbrev pub IsDead : String → ApiKeyRow → Type 0
IsDead hash k = has_hash hash k ≡ true → is_unset k.revoked_at ≡ false

pub record IsRevoked (hash : String) (rows : List ApiKeyRow) : Type 0 where
  pub there : has_row (has_hash hash) rows ≡ true
  pub dead : All (IsDead hash) rows

update-IsRevoked :
    (hash : String) (q : ApiKeyRow → Bool) (f : ApiKeyRow → ApiKeyRow) (rows : List ApiKeyRow)
    → ((k : ApiKeyRow) → has_hash hash (f k) ≡ has_hash hash k)
    → ((k : ApiKeyRow) → is_unset k.revoked_at ≡ false → is_unset (f k).revoked_at ≡ false)
    → IsRevoked hash rows
    → IsRevoked hash (update_rows q f rows)
update-IsRevoked hash q f rows same dead h = record {
  there = has_row-update_rows q (has_hash hash) f rows same ∙ h.there;
  dead = All-update_rows (IsDead hash) q f rows (λ k t d u. dead k (d (sym (same k) ∙ u))) h.dead;
}

pub has_hash_apart :
    (id hash : String) (rows : List ApiKeyRow)
    → has_row (λ (r : ApiKeyRow). is_api_key id r || has_hash hash r) rows ≡ false
    → has_row (has_hash hash) rows ≡ false
has_hash_apart id hash rows h =
    All-has_row (has_hash hash) rows (All-map rows (λ r u. ground arith) (has_row-All _ rows h))

create-IsRevoked :
    (hash full : String) (k : ApiKeyRow) (s : KeyState)
    → IsRevoked hash s.db.api_keys
    → IsRevoked hash (created full k s (create_api_key k s.db)).0.db.api_keys
unfolding create_api_key
create-IsRevoked hash full k s h =
    let rows = s.db.api_keys in
    elim (Bool-cases (
      has_row (λ (r : ApiKeyRow). is_api_key k.id r || has_hash k.hash r) rows
      || not (has_row (is_developer k.developer_id) s.db.developers))) [
        | inl q ↦ rw q h
        | inr q ↦
            let free = has_hash_apart k.id k.hash rows (ground arith) in
            let other : has_hash hash k ≡ true → is_unset k.revoked_at ≡ false = λ t.
              let same : k.hash ≡ hash = (eq_iff k.hash hash).0 t in
              let taken = rw same at free in absurd (ground (arith, h.there)) in
            rw q (record {
              there = ground (arith, has_row-append (has_hash hash) rows (k ∷ []), h.there);
              dead = All-append (IsDead hash) rows (k ∷ []) h.dead (other, tt);
            })
      ]

mint-IsRevoked :
    (c : Crypto) (hash : String) (now : ℕ) (dev name : String) (s : KeyState)
    (bytes : Option (List ℕ)) (minted : Option String)
    → IsRevoked hash s.db.api_keys
    → IsRevoked hash (mint c now dev name s bytes minted).0.db.api_keys
mint-IsRevoked c hash now dev name s none minted h = h
mint-IsRevoked c hash now dev name s (some bytes) none h = h
mint-IsRevoked c hash now dev name s (some bytes) (some id) h =
    let full = random_key bytes in
    create-IsRevoked hash full (new_key_row id dev name full (c.hash_key full) now) s h

touch-IsRevoked :
    (hash id : String) (now : ℕ) (s : KeyState)
    → IsRevoked hash s.db.api_keys
    → IsRevoked hash (touch now id s).db.api_keys
unfolding touch touch_api_key
touch-IsRevoked hash id now s h = elim (Bool-cases (is_recent now (s.last_touched id))) [
  | inl q ↦ rw q h
  | inr q ↦ rw q (
      update-IsRevoked hash (is_api_key id) (touched (now / second)) s.db.api_keys (λ k. refl)
        (λ k u. u) h)
]

found-IsRevoked :
    (hash : String) (now : ℕ) (s : KeyState) (o : Option (DeveloperRow × ApiKeyRow))
    → IsRevoked hash s.db.api_keys
    → IsRevoked hash (found now s o).0.db.api_keys
found-IsRevoked hash now s none h = h
found-IsRevoked hash now s (some (d, k)) h = touch-IsRevoked hash k.id now s h

pub coalesce-set : (o : Option ℕ) (at : ℕ) → is_unset (coalesce o at) ≡ false
coalesce-set none at = refl
coalesce-set (some n) at = refl

run_api_key_op-IsRevoked :
    (c : Crypto) (hash : String) (op : ApiKeyOp) (s : KeyState)
    → IsRevoked hash s.db.api_keys
    → IsRevoked hash (run_api_key_op c op s).db.api_keys
unfolding run_api_key_op new_api_key key_developer revoke_key revoke_api_key
run_api_key_op-IsRevoked c hash (issue now bytes minted dev name) s h =
    if_both
      (λ (x : KeyState × Result AuthError (String × ApiKeyRow)). IsRevoked hash x.0.db.api_keys)
      (trim_space name == "") (λ q. h)
      (λ q. mint-IsRevoked c hash now dev (trim_space name) s bytes minted h)
run_api_key_op-IsRevoked c hash (present now full) s h =
    if_both
      (λ (x : KeyState × Result AuthError (DeveloperRow × ApiKeyRow)).
        IsRevoked hash x.0.db.api_keys)
      (not (is_well_formed full)) (λ q. h)
      (λ q. found-IsRevoked hash now s (developer_by_key_hash (c.hash_key full) s.db) h)
run_api_key_op-IsRevoked c hash (revoke dev id now) s h =
    if_both (λ (r : Result StoreError AuthDb). IsRevoked hash (revoked_or_not s r).0.db.api_keys)
      (has_row (is_own_key dev id) s.db.api_keys)
      (λ q.
        update-IsRevoked hash (is_own_key dev id) (revoked (now / second)) s.db.api_keys (λ k. refl)
          (λ k u. coalesce-set k.revoked_at (now / second)) h)
      (λ q. h)

pub run_api_key_ops-IsRevoked :
    (c : Crypto) (hash : String) (ops : List ApiKeyOp) (s : KeyState)
    → IsRevoked hash s.db.api_keys
    → IsRevoked hash (run_api_key_ops c ops s).db.api_keys
unfolding run_api_key_ops
run_api_key_ops-IsRevoked c hash [] s h = h
run_api_key_ops-IsRevoked c hash (op ∷ ops) s h =
    run_api_key_ops-IsRevoked c hash ops (run_api_key_op c op s)
      (run_api_key_op-IsRevoked c hash op s h)
