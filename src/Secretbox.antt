-- ===== src/Secretbox.antt =====
-- internal/secretbox/secretbox.go: sealing of secrets before they are stored. AES-GCM, base64 and
-- the bytes of a text are the parameter `Cipher`, a byte being held as a character; the nonce is what the random source drew, `none`
-- when it failed.
use unified_messaging.Prelude.{
  ℕ, ◌≡◌, ap, refl, String, Char, false, Option, none, some, List, [], ◌∷◌, ◌++◌, ltb, arith,
  if◌then◌else◌, length, length-append, take, drop,
}

-- `newGCM` over one key
pub record Cipher : Type 0 where
  pub nonce_size : ℕ
  pub gcm_seal : (nonce plaintext : List Char) → List Char
  pub gcm_open : (nonce ciphertext : List Char) → Option (List Char)
  pub encode : List Char → String
  pub decode : String → Option (List Char)
  pub bytes : String → List Char
  pub text : List Char → String

-- What is documented of them: what was sealed opens, what was encoded decodes, and a text is its
-- bytes.
pub record IsCipher (c : Cipher) : Type 0 where
  pub opens : (nonce plain : List Char) → c.gcm_open nonce (c.gcm_seal nonce plain) ≡ some plain
  pub decodes : (raw : List Char) → c.decode (c.encode raw) ≡ some raw
  pub reads : (s : String) → c.text (c.bytes s) ≡ s

-- The key is refused (`none`) or gives a cipher.
unfoldable pub seal : Option Cipher → Option (List Char) → String → Option String
seal none drawn plain = none
seal (some c) none plain = none
seal (some c) (some nonce) plain = some (c.encode (nonce ++ c.gcm_seal nonce (c.bytes plain)))

abbrev opened : Cipher → Option (List Char) → Option String
opened c none = none
opened c (some plain) = some (c.text plain)

abbrev open_raw : Cipher → Option (List Char) → Option String
open_raw c none = none
open_raw c (some raw) =
    if ltb (length raw) c.nonce_size
    then none
    else opened c (c.gcm_open (take c.nonce_size raw) (drop c.nonce_size raw))

-- named for `Open`
unfoldable pub open_sealed : Option Cipher → String → Option String
open_sealed none encoded = none
open_sealed (some c) encoded = open_raw c (c.decode encoded)

take_append : (xs ys : List Char) → take (length xs) (xs ++ ys) ≡ xs
take_append [] ys = refl
take_append (x ∷ xs) ys = ap (◌∷◌ x) (take_append xs ys)

drop_append : (xs ys : List Char) → drop (length xs) (xs ++ ys) ≡ ys
drop_append [] ys = refl
drop_append (x ∷ xs) ys = drop_append xs ys

-- A text that was sealed under a key, with a nonce of the cipher's size, opens under the same key
-- to the same text, for any cipher and encoding that keep their promises.
pub open_sealed-seal :
    (c : Cipher) (nonce : List Char) (plain sealed : String)
    → IsCipher c
    → length nonce ≡ c.nonce_size
    → seal (some c) (some nonce) plain ≡ some sealed
    → open_sealed (some c) sealed ≡ some plain
unfolding seal open_sealed
open_sealed-seal c nonce plain sealed law size e =
    let ct = c.gcm_seal nonce (c.bytes plain) in
    let made : c.encode (nonce ++ ct) ≡ sealed = ground arith in
    let long : ltb (length (nonce ++ ct)) c.nonce_size ≡ false =
      ground (arith, length-append nonce ct, size) in
    rw
      (
        ← made,
        law.decodes (nonce ++ ct),
        long,
        ← size,
        take_append nonce ct,
        drop_append nonce ct,
        law.opens nonce (c.bytes plain),
        law.reads plain,
      )
      refl
