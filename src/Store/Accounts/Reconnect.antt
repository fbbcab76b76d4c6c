-- ===== src/Store/Accounts/Reconnect.antt =====
-- internal/store/store.go: connecting an address again keeps its account, and is no other tenant's
-- business.
use unified_messaging.Prelude.{
  ℕ, ◌≡◌, ◌≢◌, refl, inl, inr, String, Bool, true, false, ◌&&◌, Option, none, some, List, [], ◌∷◌,
  ◌++◌, ◌==◌, arith, eq_iff, str_eq_refl, Bool-cases, find_row, has_row, update_rows,
  has_row-find_row, find_row-some, find_row-append, find_row-update_rows, find_row-update_rows_ne,
  ok,
}
use unified_messaging.Model.{Account}
use unified_messaging.Store.Accounts.{
  AccountDb, is_owned_by, is_account, reconnected, account_row, upsert_account, account_id_by_email,
  get_account,
}

-- the id that is kept, or the new one
abbrev pub kept_id : Option String → String → String
kept_id none new = new
kept_id (some id) new = id

abbrev is_held_by : String → String → Account → Bool
is_held_by dev id a = a.developer_id == dev && a.id == id

find_row-appended_ne :
    (dev id : String) (a : Account) (rows : List Account)
    → a.developer_id ≢ dev
    → find_row (is_held_by dev id) (rows ++ a ∷ []) ≡ find_row (is_held_by dev id) rows
find_row-appended_ne dev id a rows other = ground (
  arith,
  find_row-append (is_held_by dev id) rows (a ∷ []),
  has_row-find_row (is_held_by dev id) rows,
  eq_iff a.developer_id dev,
)

apart :
    (a r : Account) (dev id : String)
    → a.developer_id ≢ dev
    → is_held_by dev id r ≡ true
    → is_owned_by a.developer_id a.email r ≡ false
apart a r dev id other h =
    ground (arith, eq_iff r.developer_id dev, eq_iff r.developer_id a.developer_id)

-- An account that is connected is found by its developer and address: under the id that it had
-- before, or else under the new one. What any other developer reads under any id stays the same.
pub upsert_account_lem :
    (now : ℕ) (a : Account) (db db' : AccountDb)
    → upsert_account now a db ≡ ok db'
    → (account_id_by_email a.developer_id a.email db'
        ≡ some (kept_id (account_id_by_email a.developer_id a.email db) a.id))
      × ((dev id : String) → a.developer_id ≢ dev → get_account dev id db' ≡ get_account dev id db)
unfolding upsert_account account_id_by_email get_account
upsert_account_lem now a db db' h =
    let mine = is_owned_by a.developer_id a.email in
    elim (Bool-cases (has_row mine db.accounts)) [
      | inl q ↦
          let made : record db { accounts = update_rows mine (reconnected now a) db.accounts }
              ≡ db' =
            ground arith in
          let (r, found) = find_row-some mine db.accounts q in
          rw (← made) (
            rw (find_row-update_rows mine (reconnected now a) db.accounts (λ x. refl), found) refl,
            λ dev id other.
                find_row-update_rows_ne mine (is_held_by dev id) (reconnected now a) db.accounts
                  (λ x. apart a x dev id other) (λ x. refl),
          )
      | inr q ↦ elim (Bool-cases (has_row (is_account a.id) db.accounts)) [
        | inl r ↦ absurd (ground arith)
        | inr r ↦
            let made : record db { accounts = db.accounts ++ account_row now a ∷ [] } ≡ db' =
              ground arith in
            rw (← made) (
              rw
                  (
                    find_row-append mine db.accounts (account_row now a ∷ []),
                    q,
                    has_row-find_row mine db.accounts q,
                    str_eq_refl a.developer_id,
                    str_eq_refl a.email,
                  )
                  refl,
              λ dev id other. find_row-appended_ne dev id (account_row now a) db.accounts other,
            )
      ]
    ]
