-- ===== src/Accounts/Tokens/Refresh.antt =====
-- internal/accounts/accounts.go: what a request for an access token leaves behind.
use unified_messaging.Prelude.{
  ℕ, ◌/◌, ◌≡◌, ◌≢◌, refl, sym, ap, ◌∙◌, ◌⊎◌, inl, inr, String, Char, Bool, false, Option, none,
  some, List, [], ◌∷◌, ◌++◌, ◌==◌, arith, if◌then◌else◌, Bool-cases, Option-cases, eq_iff, length,
  find_row, has_row, upsert_row, find_row-append, find_row-update_rows, find_row-some, ok, failed,
}
use unified_messaging.Model.{Account, account_credentials}
use unified_messaging.Secretbox.{Cipher, IsCipher, seal, open_sealed, open_sealed-seal}
use unified_messaging.Store.Accounts.{
  AccountDb, TokenRow, is_token_of, retokened, get_any_account, get_tokens, save_tokens,
  set_account_status,
}
use unified_messaging.Accounts.{
  Manager, Backend, Token, Refreshed, refreshed, grant_is_dead, refresh_broke, ManagerError,
  status_changed, Step, persist, token_row, second, reauth_required,
}
use unified_messaging.Accounts.Tokens.{
  mark_credentials, is_cached, rotated, handed_out, redeemed, decrypted, looked_up, refreshing,
  token_of, access_token,
}

-- What the provider answered, where a call asks it for a refresh at all.
module _ (m : Manager) where
  abbrev asked_with : Backend → Option String → Option Refreshed
  asked_with p none = none
  asked_with p (some held) = some (p.refresh held)

  abbrev asked_by : TokenRow → Option Backend → Option Refreshed
  asked_by t none = none
  asked_by t (some p) = asked_with p (open_sealed m.key t.refresh_token_enc)

  abbrev asked_for : TokenRow → Option Account → Option Refreshed
  asked_for t none = none
  asked_for t (some a) = asked_by t (m.registry a.provider)

  abbrev asked_of : ℕ → Bool → String → AccountDb → Option TokenRow → Option Refreshed
  asked_of now force acc db none = none
  asked_of now force acc db (some t) =
      if is_cached now force t then none else asked_for t (get_any_account acc db)

  abbrev pub provider_answer : ℕ → Bool → String → AccountDb → Option Refreshed
  provider_answer now force acc db = asked_of now force acc db (get_tokens acc db)

-- What a call that answers an error leaves.
abbrev pub IsTold : Option Refreshed → ℕ → String → AccountDb → Step String → ManagerError → Type 0
IsTold asked now acc db s e =
    ((asked ≡ some grant_is_dead)
      × (e ≡ reauth_required)
      × (s.db ≡ set_account_status (now / second) acc account_credentials db)
      × (s.db.tokens ≡ db.tokens)
      × (s.notices ≡ status_changed acc account_credentials ∷ []))
    ⊎ ((asked ≢ some grant_is_dead) × (e ≢ reauth_required) × (s.db ≡ db) × (s.notices ≡ []))

module _ (m : Manager) (now : ℕ) (drawn : Option (List Char)) (acc : String) where
  redeemed-failed :
      (held : String) (db : AccountDb) (r : Refreshed) {e : ManagerError}
      → (redeemed m now drawn acc held db r).answer ≡ failed e
      → IsTold (some r) now acc db (redeemed m now drawn acc held db r) e
  unfolding mark_credentials set_account_status
  redeemed-failed held db grant_is_dead h = inl (refl, sym (ground arith), refl, refl, refl)
  redeemed-failed held db refresh_broke h =
      inr ((λ x. absurd (ground (arith, x))), (λ x. absurd (ground (arith, x))), refl, refl)
  redeemed-failed held db (refreshed tok) h =
      elim (Option-cases (persist m drawn acc (rotated held tok) db)) [
        | inl q ↦
            rw q
              (inr (λ x. absurd (ground (arith, x)), λ x. absurd (ground (arith, x)), refl, refl))
        | inr (db', q) ↦ absurd (ground arith)
      ]

  decrypted-failed :
      (p : Backend) (db : AccountDb) (o : Option String) {e : ManagerError}
      → (decrypted m now drawn acc p db o).answer ≡ failed e
      → IsTold (asked_with m p o) now acc db (decrypted m now drawn acc p db o) e
  decrypted-failed p db none h =
      inr ((λ x. absurd (ground (arith, x))), (λ x. absurd (ground (arith, x))), refl, refl)
  decrypted-failed p db (some held) {e} h = redeemed-failed held db (p.refresh held) {e = e} h

  looked_up-failed :
      (t : TokenRow) (db : AccountDb) (o : Option Backend) {e : ManagerError}
      → (looked_up m now drawn acc t db o).answer ≡ failed e
      → IsTold (asked_by m t o) now acc db (looked_up m now drawn acc t db o) e
  looked_up-failed t db none h =
      inr ((λ x. absurd (ground (arith, x))), (λ x. absurd (ground (arith, x))), refl, refl)
  looked_up-failed t db (some p) {e} h =
      decrypted-failed p db (open_sealed m.key t.refresh_token_enc) {e = e} h

  refreshing-failed :
      (t : TokenRow) (db : AccountDb) (o : Option Account) {e : ManagerError}
      → (refreshing m now drawn acc t db o).answer ≡ failed e
      → IsTold (asked_for m t o) now acc db (refreshing m now drawn acc t db o) e
  refreshing-failed t db none h =
      inr ((λ x. absurd (ground (arith, x))), (λ x. absurd (ground (arith, x))), refl, refl)
  refreshing-failed t db (some a) {e} h = looked_up-failed t db (m.registry a.provider) {e = e} h

  token_of-failed :
      (force : Bool) (db : AccountDb) (o : Option TokenRow) {e : ManagerError}
      → (token_of m now drawn force acc db o).answer ≡ failed e
      → IsTold (asked_of m now force acc db o) now acc db (token_of m now drawn force acc db o) e
  token_of-failed force db none h =
      inr ((λ x. absurd (ground (arith, x))), (λ x. absurd (ground (arith, x))), refl, refl)
  token_of-failed force db (some t) {e} h = elim (Bool-cases (is_cached now force t)) [
    | inl q ↦ absurd (ground arith)
    | inr q ↦ rw q (refreshing-failed t db (get_any_account acc db) {e = e} (ground arith))
  ]

  -- A request for an access token that answers an error has one of two outcomes. Where it asked the
  -- provider for a refresh and was told that the grant is dead, the error is that the account has
  -- to be connected again, the account is marked as needing its credentials, its status change is
  -- told once, and the tokens stay. Otherwise the error is another one, nothing changes and nobody
  -- is told.
  pub access_token-failed :
      (force : Bool) (db : AccountDb) (e : ManagerError)
      → (access_token m now drawn force acc db).answer ≡ failed e
      → IsTold
          (provider_answer m now force acc db)
          now
          acc
          db
          (access_token m now drawn force acc db)
          e
  unfolding access_token
  access_token-failed force db e h = token_of-failed force db (get_tokens acc db) {e = e} h

find_row-upserted :
    (acc : String) (t : TokenRow) (rows : List TokenRow)
    → t.account_id ≡ acc
    → (r : TokenRow) × (find_row
          (is_token_of acc)
          (upsert_row (is_token_of acc) (retokened t) t rows)
        ≡ some r)
      × (r.access_token ≡ t.access_token)
      × (r.access_expires_at ≡ t.access_expires_at)
      × (r.refresh_token_enc ≡ t.refresh_token_enc)
find_row-upserted acc t rows mine = elim (Bool-cases (has_row (is_token_of acc) rows)) [
  | inl q ↦
      let (r, found) = find_row-some (is_token_of acc) rows q in
      (
        retokened t r,
        rw (q, find_row-update_rows (is_token_of acc) (retokened t) rows (λ x. refl), found) refl,
        refl,
        refl,
        refl,
      )
  | inr q ↦ (
    t,
    rw q (ground (arith, find_row-append (is_token_of acc) rows (t ∷ []), eq_iff t.account_id acc)),
    refl,
    refl,
    refl,
  )
]

rotated-access_token :
    (held : String) (tok : Token) → (rotated held tok).access_token ≡ tok.access_token
rotated-access_token held tok = ground arith

pub rotated-refresh_token :
    (held : String) (tok : Token)
    → (rotated held tok).refresh_token
      ≡ (if tok.refresh_token == "" then held else tok.refresh_token)
rotated-refresh_token held tok = ground arith

-- what is sealed under a key that works opens again
pub seal-opens :
    (k : Option Cipher) (c : Cipher) (drawn : List Char) (plain : String)
    → k ≡ some c
    → IsCipher c
    → length drawn ≡ c.nonce_size
    → (sealed : String) × (seal k (some drawn) plain ≡ some sealed)
      × (open_sealed k sealed ≡ some plain)
unfolding seal
seal-opens k c drawn plain keyed law size =
    let sealed = c.encode (drawn ++ c.gcm_seal drawn (c.bytes plain)) in
    (sealed, rw keyed refl, rw keyed (open_sealed-seal c drawn plain sealed law size refl))

-- A refresh that the provider grants, be it forced or because no access token is held that is still
-- valid, loses no refresh token: where the account's stored token opens,
-- its provider is registered, and the sealing works, the call answers the new access token, and the
-- row then opens to the provider's new refresh token, or to the one that was held where the
-- provider sent none.
pub access_token-rotates :
    (m : Manager) (c : Cipher) (now : ℕ) (drawn : List Char) (force : Bool) (acc : String)
    (db : AccountDb) (t : TokenRow) (a : Account) (p : Backend) (held : String) (tok : Token)
    → is_cached now force t ≡ false
    → m.key ≡ some c
    → IsCipher c
    → length drawn ≡ c.nonce_size
    → get_tokens acc db ≡ some t
    → get_any_account acc db ≡ some a
    → m.registry a.provider ≡ some p
    → open_sealed m.key t.refresh_token_enc ≡ some held
    → p.refresh held ≡ refreshed tok
    → ((access_token m now (some drawn) force acc db).answer ≡ ok tok.access_token)
      × ((r : TokenRow) × (get_tokens acc (access_token m now (some drawn) force acc db).db
            ≡ some r)
          × (r.access_token ≡ tok.access_token)
          × (open_sealed m.key r.refresh_token_enc
              ≡ some (if tok.refresh_token == "" then held else tok.refresh_token)))
unfolding access_token persist save_tokens get_tokens
access_token-rotates m c now drawn force acc db t a p held tok stale keyed law size row account
      registered opens granted =
    let kept = rotated held tok in
    let (sealed, made, reopens) = seal-opens m.key c drawn kept.refresh_token keyed law size in
    let (r, found, access, expires, enc) =
      find_row-upserted acc (token_row acc sealed kept) db.tokens refl in
    let run : access_token m now (some drawn) force acc db
        ≡ handed_out tok db (some (save_tokens (token_row acc sealed kept) db)) =
      rw (row, stale, account, registered, opens, granted, made) refl in
    rw run (
      refl,
      (
        r,
        found,
        access ∙ rotated-access_token held tok,
        ap (open_sealed m.key) enc ∙ reopens ∙ ap some (rotated-refresh_token held tok),
      ),
    )
