-- ===== src/Auth/Sessions/Lifetime.antt =====
-- internal/auth/auth.go: a session dies at its absolute age, however it is used.
use unified_messaging.Prelude.{
  ℕ, ◌+◌, ◌*◌, ◌/◌, ◌≤◌, ◌≡◌, ◌≢◌, refl, inl, inr, String, true, false, not, ◌||◌, Option, none,
  some, List, [], ◌∷◌, ◌==◌, ltb, arith, eq_iff, and_true, Bool-cases, All, All-append, All-map,
  All-update_rows, update_rows, All-delete_rows, All-find_row, find_row, find_row-holds, has_row,
  has_row-All, ok,
}
use unified_messaging.Store.Tables.{DeveloperRow}
use unified_messaging.Store.Developers.{AuthDb, SessionRow, is_developer, get_developer}
use unified_messaging.Store.Developers.Sessions.{
  is_session, is_live_session, create_session, session_developer, extend_session, expiring,
  delete_session, delete_sessions_except, is_other_session, joined, with_owner,
}
use unified_messaging.Auth.{Crypto, second}
use unified_messaging.Auth.Sessions.{
  Policy, new_session, use_session, log_out, delete_other_sessions, resolved, created, is_over_age,
  is_sliding,
}

-- What browsers do with sessions.
pub data SessionOp : Type 0 where
  sign_in : (now : ℕ) (token developer : String) → SessionOp
  request : (now : ℕ) (token : String) → SessionOp
  sign_out : (token : String) → SessionOp
  sign_out_others : (developer keep : String) → SessionOp

module _ (c : Crypto) (p : Policy) where
  unfoldable pub run_session_op : SessionOp → AuthDb → AuthDb
  run_session_op (sign_in now tok dev) db = (new_session c p now (some tok) dev db).0
  run_session_op (request now tok) db = (use_session c p now tok db).0
  run_session_op (sign_out tok) db = log_out c tok db
  run_session_op (sign_out_others dev keep) db = delete_other_sessions c dev keep db

  unfoldable pub run_session_ops : List SessionOp → AuthDb → AuthDb
  run_session_ops [] db = db
  run_session_ops (op ∷ ops) db = run_session_ops ops (run_session_op op db)

  -- No sign-in mints a token of this hash again.
  abbrev pub MintsOther : String → SessionOp → Type 0
  MintsOther hash (sign_in now tok dev) = c.hash_key tok ≢ hash
  MintsOther hash _ = Unit

  -- Every row of the session dates from the given second.
  abbrev IsDated : String → ℕ → SessionRow → Type 0
  IsDated hash at s = is_session hash s ≡ true → s.created_at ≡ at

  extend-IsDated :
      (hash h : String) (at e : ℕ) (rows : List SessionRow)
      → All (IsDated hash at) rows
      → All (IsDated hash at) (update_rows (is_session h) (expiring e) rows)
  extend-IsDated hash h at e rows =
      All-update_rows (IsDated hash at) (is_session h) (expiring e) rows (λ r t d. d)

  create_session-IsDated :
      (hash h dev : String) (at exp e now : ℕ) (db : AuthDb) (tok : String)
      → h ≢ hash
      → All (IsDated hash at) db.sessions
      → All (IsDated hash at) (created tok exp db (create_session h dev e now db)).0.sessions
  unfolding create_session
  create_session-IsDated hash h dev at exp e now db tok other dated =
      let row : SessionRow = record {
        id = h;
        developer_id = dev;
        created_at = now;
        expires_at = e;
      } in
      elim (Bool-cases
        (has_row (is_session h) db.sessions || not (has_row (is_developer dev) db.developers))) [
          | inl q ↦ rw q dated
          | inr q ↦ rw q (
              All-append (IsDated hash at) db.sessions (row ∷ []) dated
                (λ t. absurd (other ((eq_iff h hash).0 t)), tt))
        ]

  resolved-IsDated :
      (hash h : String) (at now : ℕ) (db : AuthDb) (o : Option (DeveloperRow × SessionRow))
      → All (IsDated hash at) db.sessions
      → All (IsDated hash at) (resolved p now h db o).0.sessions
  unfolding extend_session delete_session
  resolved-IsDated hash h at now db none dated = dated
  resolved-IsDated hash h at now db (some (d, s)) dated = elim (Bool-cases (is_over_age p now s)) [
    | inl q ↦ rw q (All-delete_rows (IsDated hash at) (is_session h) db.sessions dated)
    | inr q ↦ elim (Bool-cases (is_sliding p now s)) [
      | inl r ↦
          rw (q, r) (extend-IsDated hash h at ((now + p.session_ttl) / second) db.sessions dated)
      | inr r ↦ rw (q, r) dated
    ]
  ]

  use_session-IsDated :
      (hash : String) (at now : ℕ) (tok : String) (db : AuthDb)
      → All (IsDated hash at) db.sessions
      → All (IsDated hash at) (use_session c p now tok db).0.sessions
  unfolding use_session
  use_session-IsDated hash at now tok db dated = elim (Bool-cases (tok == "")) [
    | inl q ↦ rw q dated
    | inr q ↦ rw q (
        resolved-IsDated hash (c.hash_key tok) at now db
          (session_developer (c.hash_key tok) (now / second) db) dated)
  ]

  run_session_op-IsDated :
      (hash : String) (at : ℕ) (op : SessionOp) (db : AuthDb)
      → MintsOther hash op
      → All (IsDated hash at) db.sessions
      → All (IsDated hash at) (run_session_op op db).sessions
  unfolding run_session_op log_out delete_other_sessions delete_session delete_sessions_except
      new_session
  run_session_op-IsDated hash at (sign_in now tok dev) db other dated =
      create_session-IsDated hash (c.hash_key tok) dev at (now + p.session_ttl)
        ((now + p.session_ttl) / second) (now / second) db tok other dated
  run_session_op-IsDated hash at (request now tok) db other dated =
      use_session-IsDated hash at now tok db dated
  run_session_op-IsDated hash at (sign_out tok) db other dated =
      All-delete_rows (IsDated hash at) (is_session (c.hash_key tok)) db.sessions dated
  run_session_op-IsDated hash at (sign_out_others dev keep) db other dated =
      All-delete_rows (IsDated hash at) (is_other_session dev (c.hash_key keep)) db.sessions dated

  run_session_ops-IsDated :
      (hash : String) (at : ℕ) (ops : List SessionOp) (db : AuthDb)
      → All (MintsOther hash) ops
      → All (IsDated hash at) db.sessions
      → All (IsDated hash at) (run_session_ops ops db).sessions
  unfolding run_session_ops
  run_session_ops-IsDated hash at [] db other dated = dated
  run_session_ops-IsDated hash at (op ∷ ops) db other dated =
      run_session_ops-IsDated hash at ops (run_session_op op db) other.1
        (run_session_op-IsDated hash at op db other.0 dated)

  new_session-IsDated :
      (t0 : ℕ) (tok dev : String) (db : AuthDb) {start : String × ℕ}
      → (new_session c p t0 (some tok) dev db).1 ≡ ok start
      → All
          (IsDated (c.hash_key tok) (t0 / second))
          (new_session c p t0 (some tok) dev db).0.sessions
  unfolding new_session create_session
  new_session-IsDated t0 tok dev db h =
      let hash = c.hash_key tok in
      let row : SessionRow = record {
        id = hash;
        developer_id = dev;
        created_at = t0 / second;
        expires_at = (t0 + p.session_ttl) / second;
      } in
      elim (Bool-cases
        (has_row (is_session hash) db.sessions || not (has_row (is_developer dev) db.developers))) [
          | inl q ↦ absurd (ground arith)
          | inr q ↦
              let others = has_row-All (is_session hash) db.sessions (ground arith) in
              rw q (
                All-append (IsDated hash (t0 / second)) db.sessions (row ∷ [])
                  (All-map db.sessions (λ r u t. absurd (ground arith)) others) (λ t. refl, tt))
        ]

  resolved-young :
      (now : ℕ) (h : String) (db : AuthDb) (s : SessionRow) (o : Option DeveloperRow)
      {x : DeveloperRow × ℕ}
      → (resolved p now h db (with_owner s o)).1 ≡ ok x
      → (is_over_age p now s ≡ false) × (o ≡ some x.0)
  resolved-young now h db s none e = absurd (ground arith)
  resolved-young now h db s (some d) {x} e = elim (Bool-cases (is_over_age p now s)) [
    | inl q ↦ absurd (ground arith)
    | inr q ↦ elim (Bool-cases (is_sliding p now s)) [
      | inl r ↦ (q, ground arith)
      | inr r ↦ (q, ground arith)
    ]
  ]

  resolved-ok :
      (now : ℕ) (h : String) (db : AuthDb) (o : Option SessionRow) {x : DeveloperRow × ℕ}
      → (resolved p now h db (joined o db)).1 ≡ ok x
      → (s : SessionRow) × (o ≡ some s)
        × (is_over_age p now s ≡ false)
        × (get_developer s.developer_id db ≡ some x.0)
  resolved-ok now h db none e = absurd (ground arith)
  resolved-ok now h db (some s) {x} e =
      let (young, owner) = resolved-young now h db s (get_developer s.developer_id db) {x = x} e in
      (s, refl, young, owner)

  -- A request that is answered found a live row within its age.
  pub use_session-ok :
      (now : ℕ) (tok : String) (db : AuthDb) {x : DeveloperRow × ℕ}
      → (use_session c p now tok db).1 ≡ ok x
      → (s : SessionRow) × (find_row (is_live_session (c.hash_key tok) (now / second)) db.sessions
          ≡ some s)
        × (is_over_age p now s ≡ false)
        × (get_developer s.developer_id db ≡ some x.0)
  unfolding use_session session_developer
  use_session-ok now tok db {x} e = elim (Bool-cases (tok == "")) [
    | inl q ↦ absurd (ground arith)
    | inr q ↦
        resolved-ok now (c.hash_key tok) db
          (find_row (is_live_session (c.hash_key tok) (now / second)) db.sessions) {x = x}
          (ground arith)
  ]

  -- After a sign-in that went through no request with its token is answered once the session is
  -- older than the absolute age, whatever requests, sign-ins and sign-outs of any browsers came in
  -- between and however often the session was extended, as long as no later sign-in mints a token
  -- of the same hash.
  pub session_lifetime :
      (t0 now : ℕ) (tok dev : String) (ops : List SessionOp) (db : AuthDb) (start : String × ℕ)
      (answer : DeveloperRow × ℕ)
      → (new_session c p t0 (some tok) dev db).1 ≡ ok start
      → All (MintsOther (c.hash_key tok)) ops
      → (use_session c p now tok (run_session_ops ops (new_session c p t0 (some tok) dev db).0)).1
        ≡ ok answer
      → now ≤ t0 + p.max_age
  session_lifetime t0 now tok dev ops db start answer signed other e =
      let hash = c.hash_key tok in
      let later = run_session_ops ops (new_session c p t0 (some tok) dev db).0 in
      let dated =
        run_session_ops-IsDated hash (t0 / second) ops (new_session c p t0 (some tok) dev db).0
          other (new_session-IsDated t0 tok dev db {start = start} signed) in
      let (s, found, young, owner) = use_session-ok now tok later {x = answer} e in
      let live = find_row-holds (is_live_session hash (now / second)) later.sessions found in
      let born =
        All-find_row (IsDated hash (t0 / second)) (is_live_session hash (now / second))
          later.sessions dated found
          (and_true (is_session hash s) (ltb (now / second) s.expires_at) live).0 in
      let early : now ≤ s.created_at * second + p.max_age = ground arith in
      omega (arith, early, born)
