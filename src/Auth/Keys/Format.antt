-- ===== src/Auth/Keys/Format.antt =====
-- internal/auth/auth.go: a minted key has the form that the lookup asks for, and opens the door.
use Prim.Native.Char.{len_utf8}
use Prim.Native.String.len
use Prim.Native.String.{len, char_at, ◌++◌ as ◌<>◌}
use text.Mathlib.TextPositions.{len-append, starts_with-append}
use unified_messaging.Prelude.{
  ℕ, zero, suc, ◌+◌, ◌%◌, ◌<◌, ◌≡◌, refl, ◌∙◌, inl, inr, String, Bool, true, false, not, ◌||◌, ◌&&◌,
  Option, none, some, List, [], ◌∷◌, ◌++◌, eqb, arith, str_eq_refl, Bool-cases, length, find_row,
  find_row-append, find_row-some, has_row, has_row-All, All-has_row, All-map, ok, trim_space,
}
use unified_messaging.Store.Tables.{DeveloperRow}
use unified_messaging.Store.Developers.{ApiKeyRow, is_developer, get_developer}
use unified_messaging.Store.Developers.Keys.{
  is_api_key, has_hash, is_live_key, create_api_key, developer_by_key_hash,
}
use unified_messaging.Auth.{Crypto}
use unified_messaging.Auth.Keys.Ops.{has_hash_apart}
use unified_messaging.Auth.Keys.{
  KeyState, key_prefix, key_random, key_alphabet, key_char, key_text, random_key, is_well_formed,
  new_api_key, mint, created, new_key_row, key_developer,
}

-- a test of the numbers below a bound
all_below : ℕ → (ℕ → Bool) → Bool
all_below zero p = true
all_below (suc n) p = p n && all_below n p

all_below-lt : (n : ℕ) (p : ℕ → Bool) (i : ℕ) → all_below n p ≡ true → i < n → p i ≡ true
unfolding all_below
all_below-lt zero p i h lt = absurd (omega arith)
all_below-lt (suc n) p i h lt = elim (Bool-cases (eqb i n)) [
  | inl e ↦ let same : i ≡ n = ground arith in rw same (ground arith)
  | inr e ↦ all_below-lt n p i (ground arith) (ground arith)
]

-- every character of a key is one byte
key_char_byte : (v : ℕ) → len_utf8 (key_char v) ≡ 1
unfolding all_below
key_char_byte v =
    let one : ℕ → Bool = λ i. eqb (len_utf8 (char_at key_alphabet i)) 1 in
    let at = all_below-lt 62 one (v % 62) refl (omega arith) in ground arith

len-key_text : (bytes : List ℕ) → len (key_text bytes) ≡ length bytes
len-key_text [] = refl
len-key_text (v ∷ vs) =
    len.cons (key_char v) (key_text vs) ∙ omega (arith, key_char_byte v, len-key_text vs)

random_key_lem :
    (bytes : List ℕ) → length bytes ≡ key_random → is_well_formed (random_key bytes) ≡ true
unfolding random_key
random_key_lem bytes h =
    let prefixed = starts_with-append key_prefix (key_text bytes) in
    let size : len (key_prefix <> key_text bytes) ≡ len key_prefix + key_random =
      len-append key_prefix (key_text bytes) ∙ omega (arith, len-key_text bytes, h) in
    rw (prefixed, size) refl

created-ok :
    (full full' : String) (k k' : ApiKeyRow) (s s' : KeyState)
    → created full k s (create_api_key k s.db) ≡ (s', ok (full', k'))
    → (full ≡ full')
      × (k ≡ k')
      × (has_row (has_hash k.hash) s.db.api_keys ≡ false)
      × (has_row (is_developer k.developer_id) s.db.developers ≡ true)
      × (record s { db = record s.db { api_keys = s.db.api_keys ++ k ∷ [] } } ≡ s')
unfolding create_api_key
created-ok full full' k k' s s' e =
    let rows = s.db.api_keys in
    let owned = has_row (is_developer k.developer_id) s.db.developers in
    elim (Bool-cases
      (has_row (λ (r : ApiKeyRow). is_api_key k.id r || has_hash k.hash r) rows || not owned)) [
        | inl q ↦ absurd (ground arith)
        | inr q ↦ (
          ground arith,
          ground arith,
          has_hash_apart k.id k.hash rows (ground arith),
          ground arith,
          ground arith,
        )
      ]

find_row-new :
    (hash : String) (k : ApiKeyRow) (rows : List ApiKeyRow)
    → has_hash hash k ≡ true
    → k.revoked_at ≡ none
    → has_row (has_hash hash) rows ≡ false
    → find_row (is_live_key hash) (rows ++ k ∷ []) ≡ some k
find_row-new hash k rows hashed live free =
    let none_live =
      All-has_row (is_live_key hash) rows
        (All-map rows (λ r u. ground arith) (has_row-All (has_hash hash) rows free)) in
    rw (find_row-append (is_live_key hash) rows (k ∷ []), none_live, hashed, live) refl

minted_opens :
    (c : Crypto) (now later : ℕ) (bytes : List ℕ) (minted : Option String) (dev name : String)
    (s s' : KeyState) (full : String) (k : ApiKeyRow)
    → length bytes ≡ key_random
    → mint c now dev name s (some bytes) minted ≡ (s', ok (full, k))
    → (d : DeveloperRow) × (get_developer dev s.db ≡ some d)
      × ((key_developer c later full s').1 ≡ ok (d, k))
unfolding key_developer developer_by_key_hash get_developer
minted_opens c now later bytes none dev name s s' full k h e = absurd (ground arith)
minted_opens c now later bytes (some id) dev name s s' full k h e =
    let key = random_key bytes in
    let row = new_key_row id dev name key (c.hash_key key) now in
    let (text, same, free, owned, made) = created-ok key full row k s s' e in
    let (d, owner) = find_row-some (is_developer dev) s.db.developers owned in
    let formed = random_key_lem bytes h in
    let found =
      find_row-new (c.hash_key key) row s.db.api_keys (str_eq_refl (c.hash_key key)) refl free in
    (d, owner, rw (← made, ← text, ← same) (rw (formed, found, owner) refl))

-- A key that was minted from forty random bytes opens the door: presented to the service as it was
-- left, it is answered with the developer that it was minted for and with its row.
pub new_api_key-key_developer :
    (c : Crypto) (now later : ℕ) (bytes : List ℕ) (minted : Option String) (dev name : String)
    (s s' : KeyState) (full : String) (k : ApiKeyRow)
    → length bytes ≡ key_random
    → new_api_key c now (some bytes) minted dev name s ≡ (s', ok (full, k))
    → (d : DeveloperRow) × (get_developer dev s.db ≡ some d)
      × ((key_developer c later full s').1 ≡ ok (d, k))
unfolding new_api_key
new_api_key-key_developer c now later bytes minted dev name s s' full k h e =
    minted_opens c now later bytes minted dev (trim_space name) s s' full k h (ground arith)
