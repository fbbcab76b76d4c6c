-- ===== src/Auth/Sessions/Others.antt =====
-- internal/auth/auth.go: signing out everywhere else.
use unified_messaging.Prelude.{
  ℕ, ◌/◌, ◌≡◌, ◌≢◌, refl, ap, ◌∙◌, inl, inr, String, false, Option, none, some, List, [], ◌∷◌, ◌==◌,
  arith, eq_iff, Bool-cases, delete_rows, find_row-delete_rows_ne, find_row-holds, All,
  All-find_row, ok,
}
use unified_messaging.Store.Tables.{DeveloperRow}
use unified_messaging.Store.Developers.{AuthDb, SessionRow, get_developer, is_developer}
use unified_messaging.Store.Developers.Sessions.{
  is_live_session, session_developer, delete_sessions_except, is_other_session, joined,
}
use unified_messaging.Auth.{Crypto, second}
use unified_messaging.Auth.Sessions.{Policy, use_session, delete_other_sessions, resolved}
use unified_messaging.Auth.Sessions.Lifetime.{use_session-ok}

module _ (c : Crypto) (p : Policy) where
  -- no row that is left is another one of the developer's
  kept :
      (dev keep : String) (rows : List SessionRow)
      → All
          (λ (s : SessionRow). is_other_session dev keep s ≡ false)
          (delete_rows (is_other_session dev keep) rows)
  kept dev keep [] = tt
  kept dev keep (s ∷ rows) = elim (Bool-cases (is_other_session dev keep s)) [
    | inl e ↦ rw e (kept dev keep rows)
    | inr e ↦ rw e (e, kept dev keep rows)
  ]

  resolved_same :
      (now : ℕ) (hash : String) (db db' : AuthDb) (o : Option (DeveloperRow × SessionRow))
      → (resolved p now hash db o).1 ≡ (resolved p now hash db' o).1
  resolved_same now hash db db' none = refl
  resolved_same now hash db db' (some (d, s)) = ground arith

  resolved_eq :
      (now : ℕ) (hash : String) (db db' : AuthDb) (o o' : Option (DeveloperRow × SessionRow))
      → o ≡ o'
      → (resolved p now hash db o).1 ≡ (resolved p now hash db' o').1
  resolved_eq now hash db db' o o' e = rw (e) (resolved_same now hash db db' o')

  joined_same :
      (db : AuthDb) (rows : List SessionRow) (o : Option SessionRow)
      → joined o (record db { sessions = rows }) ≡ joined o db
  unfolding get_developer
  joined_same db rows none = refl
  joined_same db rows (some s) = refl

  -- After a developer signs out everywhere else, the token that is kept is answered as before, and
  -- a token of another hash is answered, if at all, with another developer.
  pub delete_other_sessions_lem :
      (dev keep tok : String) (now : ℕ) (db : AuthDb)
      → c.hash_key tok ≢ c.hash_key keep
      → ((use_session c p now keep (delete_other_sessions c dev keep db)).1
          ≡ (use_session c p now keep db).1)
        × ((x : DeveloperRow × ℕ)
            → (use_session c p now tok (delete_other_sessions c dev keep db)).1 ≡ ok x
            → x.0.id ≢ dev)
  unfolding use_session session_developer delete_other_sessions delete_sessions_except get_developer
  delete_other_sessions_lem dev keep tok now db apart =
      let kept_hash = c.hash_key keep in
      let rows = delete_rows (is_other_session dev kept_hash) db.sessions in
      let same =
        find_row-delete_rows_ne (is_live_session kept_hash (now / second))
          (is_other_session dev kept_hash) db.sessions (λ r t. ground arith) in
      (
        elim (Bool-cases (keep == "")) [
          | inl q ↦ rw q refl
          | inr q ↦ rw q (
              resolved_eq now kept_hash (delete_other_sessions c dev keep db) db _ _
                (joined_same db rows _ ∙ ap (λ o. joined o db) same))
        ],
        λ x e mine.
            let (s, found, young, owner) =
              use_session-ok c p now tok (delete_other_sessions c dev keep db) {x = x} e in
            let other =
              All-find_row (λ (r : SessionRow). is_other_session dev kept_hash r ≡ false)
                (is_live_session (c.hash_key tok) (now / second)) rows
                (kept dev kept_hash db.sessions) found in
            let live =
              find_row-holds (is_live_session (c.hash_key tok) (now / second)) rows found in
            let named = find_row-holds (is_developer s.developer_id) db.developers owner in
            ground (
              arith,
              eq_iff x.0.id s.developer_id,
              eq_iff s.developer_id dev,
              eq_iff s.id (c.hash_key tok),
              eq_iff s.id kept_hash,
            ),
      )
