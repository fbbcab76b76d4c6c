-- ===== src/Accounts/Custody.antt =====
-- internal/accounts: a request for an access token leaves every stored refresh token redeemable.
pub mod Runs
use unified_messaging.Prelude.{
  ℕ, ◌/◌, ◌≡◌, ◌≢◌, refl, sym, ap, ◌∙◌, inl, inr, subst, String, Char, Bool, true, false, not, ◌&&◌,
  Option, none, some, List, [], ◌∷◌, ◌==◌, arith, if◌then◌else◌, if_both, Bool-cases, Option-cases,
  length, All, All-upsert_row, All-delete_rows, All-find_row, find_row, Result, ok, failed,
}
use unified_messaging.Model.{Account}
use unified_messaging.Secretbox.{Cipher, IsCipher, seal, open_sealed}
use unified_messaging.Store.Accounts.{
  AccountDb, TokenRow, Refused, is_token_of, retokened, is_owned_by, is_account, get_any_account,
  get_tokens, save_tokens, set_account_status, upsert_account, account_id_by_email, delete_account,
  delete_chat_session, save_chat_session,
}
use unified_messaging.Accounts.{
  Manager, Backend, Token, Identity, Refreshed, refreshed, grant_is_dead, refresh_broke,
  ManagerError, Notice, Step, refuse, persist, saved, token_row, second, connect, connect_with,
  exchanged, identified, record_account, recorded, token_kept, persisted, found_account, known_or,
  new_account,
}
use unified_messaging.Accounts.Tokens.{
  mark_credentials, is_cached, rotated, handed_out, redeemed, decrypted, looked_up, refreshing,
  token_of, access_token,
}
use unified_messaging.Accounts.Tokens.Refresh.{seal-opens, rotated-refresh_token}
use unified_messaging.Accounts.Devices.{
  connect_linked, link_account, stored_link, linked_as, delete_linked, unlinked, mark_logged_out,
  logged_out,
}

-- The sealed refresh token of a row opens, and is not empty.
abbrev pub IsRedeemable : Option Cipher → TokenRow → Type 0
IsRedeemable k t =
    (held : String) × (open_sealed k t.refresh_token_enc ≡ some held) × ((held == "") ≡ false)

module _ (m : Manager) (c : Cipher) (keyed : m.key ≡ some c) (law : IsCipher c) where
  abbrev pub Redeemable : AccountDb → Type 0
  Redeemable db = All (IsRedeemable m.key) db.tokens

  pub saved-Redeemable :
      (drawn : List Char) (acc : String) (tok : Token) (db : AccountDb)
      → length drawn ≡ c.nonce_size
      → (tok.refresh_token == "") ≡ false
      → Redeemable db
      → (db' : AccountDb) × (persist m (some drawn) acc tok db ≡ some db') × Redeemable db'
  unfolding persist save_tokens
  saved-Redeemable drawn acc tok db size named h =
      let (sealed, made, opens) = seal-opens m.key c drawn tok.refresh_token keyed law size in
      let row = token_row acc sealed tok in
      (
        save_tokens row db,
        rw made refl,
        All-upsert_row (IsRedeemable m.key) (is_token_of acc) (retokened row) row db.tokens
            (λ r q u. (tok.refresh_token, opens, named)) (tok.refresh_token, opens, named) h,
      )

  rotated-named :
      (held : String) (tok : Token)
      → (held == "") ≡ false
      → ((rotated held tok).refresh_token == "") ≡ false
  rotated-named held tok h = ground arith

  redeemed-Redeemable :
      (now : ℕ) (drawn : List Char) (acc held : String) (db : AccountDb) (r : Refreshed)
      → length drawn ≡ c.nonce_size
      → (held == "") ≡ false
      → Redeemable db
      → Redeemable (redeemed m now (some drawn) acc held db r).db
  unfolding mark_credentials set_account_status
  redeemed-Redeemable now drawn acc held db grant_is_dead size named h = h
  redeemed-Redeemable now drawn acc held db refresh_broke size named h = h
  redeemed-Redeemable now drawn acc held db (refreshed tok) size named h =
      let (db', made, kept) =
        saved-Redeemable drawn acc (rotated held tok) db size (rotated-named held tok named) h in
      rw made kept

  looked_up-Redeemable :
      (now : ℕ) (drawn : List Char) (acc : String) (t : TokenRow) (db : AccountDb)
      (o : Option Backend)
      → length drawn ≡ c.nonce_size
      → IsRedeemable m.key t
      → Redeemable db
      → Redeemable (looked_up m now (some drawn) acc t db o).db
  looked_up-Redeemable now drawn acc t db none size mine h = h
  looked_up-Redeemable now drawn acc t db (some p) size (held, opens, named) h =
      rw opens (redeemed-Redeemable now drawn acc held db (p.refresh held) size named h)

  refreshing-Redeemable :
      (now : ℕ) (drawn : List Char) (acc : String) (t : TokenRow) (db : AccountDb)
      (o : Option Account)
      → length drawn ≡ c.nonce_size
      → IsRedeemable m.key t
      → Redeemable db
      → Redeemable (refreshing m now (some drawn) acc t db o).db
  refreshing-Redeemable now drawn acc t db none size mine h = h
  refreshing-Redeemable now drawn acc t db (some a) size mine h =
      looked_up-Redeemable now drawn acc t db (m.registry a.provider) size mine h

  pub access_token-Redeemable :
      (now : ℕ) (drawn : List Char) (force : Bool) (acc : String) (db : AccountDb)
      → length drawn ≡ c.nonce_size
      → Redeemable db
      → Redeemable (access_token m now (some drawn) force acc db).db
  unfolding access_token get_tokens
  access_token-Redeemable now drawn force acc db size h = elim (Option-cases (get_tokens acc db)) [
    | inl q ↦ rw q h
    | inr (t, q) ↦ rw q (
        if_both (λ (s : Step String). Redeemable s.db) (is_cached now force t) (λ u. h)
          (λ u.
            refreshing-Redeemable now drawn acc t db (get_any_account acc db) size
              (All-find_row (IsRedeemable m.key) (is_token_of acc) db.tokens h q) h))
  ]
