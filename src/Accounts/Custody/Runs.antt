-- ===== src/Accounts/Custody/Runs.antt =====
-- internal/accounts: every stored refresh token stays redeemable, whatever is done to accounts.
use unified_messaging.Prelude.{
  ℕ, ◌/◌, ◌≡◌, refl, inl, inr, subst, String, Char, Bool, false, Option, none, some, List, [], ◌∷◌,
  ◌==◌, arith, if_both, Bool-cases, Option-cases, length, All, All-delete_rows, has_row, Result, ok,
  failed,
}
use unified_messaging.Model.{Account, account_kind_chat}
use unified_messaging.Secretbox.{Cipher, IsCipher}
use unified_messaging.Store.Accounts.{
  AccountDb, Refused, is_token_of, is_owned_by, is_account, get_any_account, set_account_status,
  upsert_account, account_id_by_email, delete_account, delete_chat_session, save_chat_session,
}
use unified_messaging.Accounts.{
  Manager, Backend, Token, Identity, Step, second, connect, connect_with, exchanged, identified,
  record_account, recorded, found_account, known_or, new_account,
}
use unified_messaging.Accounts.Tokens.{mark_credentials, access_token}
use unified_messaging.Accounts.Devices.{
  connect_linked, is_some, link_account, stored_link, delete_linked, unlinked, mark_logged_out,
  logged_out,
}
use unified_messaging.Accounts.Custody.{
  IsRedeemable, Redeemable, saved-Redeemable, access_token-Redeemable,
}

-- What the program does with accounts.
pub data AccountOp : Type 0 where
  connect_op :
      (now : ℕ) (drawn : List Char)
      → Option String
      → (developer provider code verifier : String) → AccountOp
  token_op : (now : ℕ) (drawn : List Char) (force : Bool) (account : String) → AccountOp
  link_op :
      (now : ℕ)
      → Option String
      → (developer provider : String) → Identity
      → (jid : String) → AccountOp
  unlink_op : (account : String) → AccountOp
  log_out_op : (now : ℕ) (account : String) → AccountOp

unfoldable pub run_account_op : Manager → AccountOp → AccountDb → AccountDb
run_account_op m (connect_op now drawn minted dev provider code verifier) db =
    (connect m now (some drawn) minted dev provider code verifier db).db
run_account_op m (token_op now drawn force acc) db =
    (access_token m now (some drawn) force acc db).db
run_account_op m (link_op now minted dev provider who jid) db =
    (connect_linked m now minted dev provider who jid db).db
run_account_op m (unlink_op acc) db = (delete_linked m acc db).0
run_account_op m (log_out_op now acc) db = (mark_logged_out m now acc db).0

unfoldable pub run_account_ops : Manager → List AccountOp → AccountDb → AccountDb
run_account_ops m [] db = db
run_account_ops m (op ∷ ops) db = run_account_ops m ops (run_account_op m op db)

-- The nonce has the size that the cipher asks for.
abbrev pub IsDrawn : Cipher → AccountOp → Type 0
IsDrawn c (connect_op now drawn minted dev provider code verifier) = length drawn ≡ c.nonce_size
IsDrawn c (token_op now drawn force acc) = length drawn ≡ c.nonce_size
IsDrawn c _ = Unit

found_account-db : (db : AccountDb) (o : Option Account) → (found_account db o).db ≡ db
found_account-db db none = refl
found_account-db db (some a) = refl

upsert_account-tokens :
    (now : ℕ) (a : Account) (db : AccountDb) {db' : AccountDb}
    → upsert_account now a db ≡ ok db'
    → db.tokens ≡ db'.tokens
unfolding upsert_account
upsert_account-tokens now a db {db'} h =
    elim (Bool-cases (has_row (is_owned_by a.developer_id a.email) db.accounts)) [
      | inl q ↦ ground arith
      | inr q ↦ elim (Bool-cases (has_row (is_account a.id) db.accounts)) [
        | inl r ↦ absurd (ground arith)
        | inr r ↦ ground arith
      ]
    ]

module _ (m : Manager) (c : Cipher) (keyed : m.key ≡ some c) (law : IsCipher c) where
  abbrev Fine : AccountDb → Type 0
  Fine db = Redeemable m c keyed law db

  recorded-Redeemable :
      (drawn : List Char) (tok : Token) (dev email : String) (db : AccountDb)
      (r : Result Refused AccountDb)
      → length drawn ≡ c.nonce_size
      → (tok.refresh_token == "") ≡ false
      → Fine db
      → ((db' : AccountDb) → r ≡ ok db' → Fine db')
      → Fine (recorded m (some drawn) tok dev email db r).db
  recorded-Redeemable drawn tok dev email db (failed e) size named h next = h
  recorded-Redeemable drawn tok dev email db (ok db1) size named h next =
      elim (Option-cases (account_id_by_email dev email db1)) [
        | inl q ↦ rw q (next db1 refl)
        | inr (id, q) ↦
            let (db2, made, kept) =
              saved-Redeemable m c keyed law drawn id tok db1 size named (next db1 refl) in
            rw (q, made, found_account-db db2 (get_any_account id db2)) kept
      ]

  record_account-Redeemable :
      (now : ℕ) (drawn : List Char) (tok : Token) (dev provider : String) (who : Identity)
      (db : AccountDb) (o : Option String)
      → length drawn ≡ c.nonce_size
      → (tok.refresh_token == "") ≡ false
      → Fine db
      → Fine (record_account m now (some drawn) tok dev provider who db o).db
  record_account-Redeemable now drawn tok dev provider who db none size named h = h
  record_account-Redeemable now drawn tok dev provider who db (some id) size named h =
      let a = new_account id dev "" provider who.email who.name in
      recorded-Redeemable drawn tok dev who.email db (upsert_account (now / second) a db) size named
        h
        (λ db' q. subst (All (IsRedeemable m.key)) (upsert_account-tokens (now / second) a db q) h)

  identified-Redeemable :
      (now : ℕ) (drawn : List Char) (minted : Option String) (tok : Token) (dev provider : String)
      (db : AccountDb) (o : Option Identity)
      → length drawn ≡ c.nonce_size
      → (tok.refresh_token == "") ≡ false
      → Fine db
      → Fine (identified m now (some drawn) minted tok dev provider db o).db
  identified-Redeemable now drawn minted tok dev provider db none size named h = h
  identified-Redeemable now drawn minted tok dev provider db (some who) size named h =
      if_both (λ (s : Step Account). Fine s.db) (who.email == "") (λ u. h)
        (λ u.
          record_account-Redeemable now drawn tok dev provider who db
            (known_or (account_id_by_email dev who.email db) minted) size named h)

  exchanged-Redeemable :
      (now : ℕ) (drawn : List Char) (minted : Option String) (dev : String) (p : Backend)
      (db : AccountDb) (o : Option Token)
      → length drawn ≡ c.nonce_size
      → Fine db
      → Fine (exchanged m now (some drawn) minted dev p db o).db
  exchanged-Redeemable now drawn minted dev p db none size h = h
  exchanged-Redeemable now drawn minted dev p db (some tok) size h =
      if_both (λ (s : Step Account). Fine s.db) (tok.refresh_token == "") (λ u. h)
        (λ u.
          identified-Redeemable now drawn minted tok dev p.name db (p.identify tok.access_token)
            size u h)

  connect-Redeemable :
      (now : ℕ) (drawn : List Char) (minted : Option String) (dev code verifier : String)
      (db : AccountDb) (o : Option Backend)
      → length drawn ≡ c.nonce_size
      → Fine db
      → Fine (connect_with m now (some drawn) minted dev code verifier db o).db
  connect-Redeemable now drawn minted dev code verifier db none size h = h
  connect-Redeemable now drawn minted dev code verifier db (some p) size h =
      exchanged-Redeemable now drawn minted dev p db (p.exchange code verifier) size h

  stored_link-Redeemable :
      (now : ℕ) (relink : Bool) (dev provider : String) (who : Identity) (jid : String)
      (db : AccountDb) (r : Result Refused AccountDb)
      → Fine db
      → ((db' : AccountDb) → r ≡ ok db' → Fine db')
      → Fine (stored_link m now relink dev provider who jid db r).db
  unfolding save_chat_session
  stored_link-Redeemable now relink dev provider who jid db (failed e) h next = h
  stored_link-Redeemable now relink dev provider who jid db (ok db1) h next =
      elim (Option-cases (account_id_by_email dev who.identifier db1)) [
        | inl q ↦ rw q (next db1 refl)
        | inr (id, q) ↦
            let db2 = save_chat_session (now / second) id provider jid db1 in
            rw (q, found_account-db db2 (get_any_account id db2)) (next db1 refl)
      ]

  link-Redeemable :
      (now : ℕ) (relink : Bool) (dev provider : String) (who : Identity) (jid : String)
      (db : AccountDb) (o : Option String)
      → Fine db
      → Fine (link_account m now relink dev provider who jid db o).db
  link-Redeemable now relink dev provider who jid db none h = h
  link-Redeemable now relink dev provider who jid db (some id) h =
      let a = new_account id dev account_kind_chat provider who.identifier who.name in
      stored_link-Redeemable now relink dev provider who jid db (upsert_account (now / second) a db)
        h
        (λ db' q. subst (All (IsRedeemable m.key)) (upsert_account-tokens (now / second) a db q) h)

  unlinked-Redeemable :
      (acc : String) (db : AccountDb) (o : Option Account) → Fine db → Fine (unlinked m acc db o).0
  unfolding delete_account delete_chat_session
  unlinked-Redeemable acc db none h = h
  unlinked-Redeemable acc db (some a) h =
      All-delete_rows (IsRedeemable m.key) (is_token_of acc) db.tokens h

  logged_out-Redeemable :
      (now : ℕ) (acc : String) (db : AccountDb) (o : Option Account)
      → Fine db
      → Fine (logged_out m now acc db o).0
  unfolding mark_credentials set_account_status delete_chat_session
  logged_out-Redeemable now acc db none h = h
  logged_out-Redeemable now acc db (some a) h = h

  run_account_op-Redeemable :
      (op : AccountOp) (db : AccountDb) → IsDrawn c op → Fine db → Fine (run_account_op m op db)
  unfolding run_account_op connect connect_linked delete_linked mark_logged_out
  run_account_op-Redeemable (connect_op now drawn minted dev provider code verifier) db size h =
      connect-Redeemable now drawn minted dev code verifier db (m.registry provider) size h
  run_account_op-Redeemable (token_op now drawn force acc) db size h =
      access_token-Redeemable m c keyed law now drawn force acc db size h
  run_account_op-Redeemable (link_op now minted dev provider who jid) db size h =
      if_both (λ (s : Step Account). Fine s.db) (who.identifier == "") (λ u. h)
        (λ u.
          link-Redeemable now (is_some (account_id_by_email dev who.identifier db)) dev provider who
            jid db (known_or (account_id_by_email dev who.identifier db) minted) h)
  run_account_op-Redeemable (unlink_op acc) db size h =
      unlinked-Redeemable acc db (get_any_account acc db) h
  run_account_op-Redeemable (log_out_op now acc) db size h =
      logged_out-Redeemable now acc db (get_any_account acc db) h

  -- No account loses its refresh token: over any sequence of connects, token requests, links,
  -- unlinks and logouts, under a key and a cipher that keep their promises and nonces of its size,
  -- the refresh token of every row stays one that opens and is not empty.
  pub run_account_ops-Redeemable :
      (ops : List AccountOp) (db : AccountDb)
      → All (IsDrawn c) ops
      → All (IsRedeemable m.key) db.tokens
      → All (IsRedeemable m.key) (run_account_ops m ops db).tokens
  unfolding run_account_ops
  run_account_ops-Redeemable [] db size h = h
  run_account_ops-Redeemable (op ∷ ops) db size h =
      run_account_ops-Redeemable ops (run_account_op m op db) size.1
        (run_account_op-Redeemable op db size.0 h)
