-- ===== src/Auth/Sessions/Idle.antt =====
-- internal/auth/auth.go: a session that is used stays signed in, up to its absolute age.
use mathlib.Core.Option
use unified_messaging.Prelude.{
  ℕ, ◌+◌, ◌*◌, ◌/◌, ◌≤◌, ◌<◌, ◌≡◌, ◌≢◌, refl, ap, ◌∙◌, inl, inr, String, true, false, not, ◌||◌,
  some, List, [], ◌∷◌, ◌==◌, ltb, lt→ltb, arith, str_ne, str_eq_refl, Bool-cases, find_row, has_row,
  find_row-append, find_row-update_rows, ok,
}
use unified_messaging.Store.Tables.{DeveloperRow}
use unified_messaging.Store.Developers.{AuthDb, SessionRow, get_developer, is_developer}
use unified_messaging.Store.Developers.Sessions.{
  is_session, is_live_session, create_session, session_developer, extend_session, expiring,
}
use unified_messaging.Auth.{Crypto, second}
use unified_messaging.Auth.Sessions.{
  Policy, new_session, use_session, is_over_age, is_sliding, slide_after,
}

module _ (c : Crypto) (p : Policy) where
  -- The uses of a session, each soon enough after the one before it and within the absolute age.
  abbrev pub IsBusy : ℕ → ℕ → List ℕ → Type 0
  IsBusy born last [] = Unit
  IsBusy born last (now ∷ later) =
      (now + slide_after + second ≤ last + p.session_ttl)
      × (now ≤ born * second + p.max_age)
      × IsBusy born now later

  -- Each use is answered with the developer.
  abbrev pub AllAnswered : String → DeveloperRow → List ℕ → AuthDb → Type 0
  AllAnswered tok d [] db = Unit
  AllAnswered tok d (now ∷ later) db =
      ((exp : ℕ) × ((use_session c p now tok db).1 ≡ ok (d, exp)))
      × AllAnswered tok d later (use_session c p now tok db).0

  -- The row of a session whose last use is known.
  pub record IsWarm (hash : String) (d : DeveloperRow) (born last : ℕ) (db : AuthDb) : Type 0 where
    pub row : SessionRow
    pub there : find_row (is_session hash) db.sessions ≡ some row
    pub dated : row.created_at ≡ born
    pub lasting : last + p.session_ttl < row.expires_at * second + slide_after + second
    pub owner : get_developer row.developer_id db ≡ some d

  find_row-live :
      (hash : String) (now : ℕ) (s : SessionRow) (rows : List SessionRow)
      → find_row (is_session hash) rows ≡ some s
      → ltb now s.expires_at ≡ true
      → find_row (is_live_session hash now) rows ≡ some s
  find_row-live hash now s [] h live = absurd (ground arith)
  find_row-live hash now s (r ∷ rows) h live = elim (Bool-cases (is_session hash r)) [
    | inl e ↦ let same : r ≡ s = ground arith in rw (e, same, live) refl
    | inr e ↦ rw (e) (find_row-live hash now s rows (ground arith) live)
  ]

  IsWarm-extend :
      (hash : String) (d : DeveloperRow) (born last now : ℕ) (db : AuthDb)
      → IsWarm hash d born last db
      → IsWarm hash d born now (extend_session hash ((now + p.session_ttl) / second) db)
  unfolding extend_session get_developer
  IsWarm-extend hash d born last now db warm =
      let at = (now + p.session_ttl) / second in
      record {
        row = expiring at warm.row;
        there =
            find_row-update_rows (is_session hash) (expiring at) db.sessions (λ r. refl)
            ∙ ap (Option.map (expiring at)) warm.there;
        dated = warm.dated;
        lasting = omega arith;
        owner = warm.owner;
      }

  IsWarm-use :
      (tok : String) (d : DeveloperRow) (born last now : ℕ) (db : AuthDb)
      → (tok == "") ≡ false
      → now + slide_after + second ≤ last + p.session_ttl
      → now ≤ born * second + p.max_age
      → IsWarm (c.hash_key tok) d born last db
      → ((exp : ℕ) × ((use_session c p now tok db).1 ≡ ok (d, exp)))
        × IsWarm (c.hash_key tok) d born now (use_session c p now tok db).0
  unfolding use_session session_developer
  IsWarm-use tok d born last now db named soon young warm =
      let hash = c.hash_key tok in
      let s = warm.row in
      let live : ltb (now / second) s.expires_at ≡ true =
        lt→ltb (now / second) s.expires_at (omega (arith, warm.lasting, soon)) in
      let found = find_row-live hash (now / second) s db.sessions warm.there live in
      let age : is_over_age p now s ≡ false = ground (arith, warm.dated, young) in
      elim (Bool-cases (is_sliding p now s)) [
        | inl q ↦
            rw (named, found, warm.owner, age, q)
              ((now + p.session_ttl, refl), IsWarm-extend hash d born last now db warm)
        | inr q ↦
            rw (named, found, warm.owner, age, q)
              (
                (s.expires_at * second, refl),
                record {
                  row = s;
                  there = warm.there;
                  dated = warm.dated;
                  lasting = ground arith;
                  owner = warm.owner;
                },
              )
      ]

  all_answered :
      (tok : String) (d : DeveloperRow) (born last : ℕ) (uses : List ℕ) (db : AuthDb)
      → (tok == "") ≡ false
      → IsBusy born last uses
      → IsWarm (c.hash_key tok) d born last db
      → AllAnswered tok d uses db
  all_answered tok d born last [] db named busy warm = tt
  all_answered tok d born last (now ∷ later) db named busy warm =
      let (answer, next) = IsWarm-use tok d born last now db named busy.0 busy.1 warm in
      (answer, all_answered tok d born now later (use_session c p now tok db).0 named busy.2 next)

  IsWarm-new_session :
      (tok dev : String) (d : DeveloperRow) (t0 : ℕ) (db : AuthDb) {start : String × ℕ}
      → (new_session c p t0 (some tok) dev db).1 ≡ ok start
      → get_developer dev db ≡ some d
      → IsWarm (c.hash_key tok) d (t0 / second) t0 (new_session c p t0 (some tok) dev db).0
  unfolding new_session create_session get_developer
  IsWarm-new_session tok dev d t0 db signed owner =
      let hash = c.hash_key tok in
      let row : SessionRow = record {
        id = hash;
        developer_id = dev;
        created_at = t0 / second;
        expires_at = (t0 + p.session_ttl) / second;
      } in
      elim (Bool-cases
        (has_row (is_session hash) db.sessions || not (has_row (is_developer dev) db.developers))) [
          | inl q ↦ absurd (ground arith)
          | inr q ↦ rw q (record {
            row = row;
            there =
                ground (
                  arith,
                  find_row-append (is_session hash) db.sessions (row ∷ []),
                  str_eq_refl hash,
                );
            dated = refl;
            lasting = omega arith;
            owner = owner;
          })
        ]

  -- A session that is used stays signed in: after a sign-in that went through, every request with
  -- its token is answered with its developer, as long as each comes at least 24 hours and a second
  -- before the idle window would close on the one before it, none comes after the absolute age,
  -- and nothing else is done to the session. The token is not empty.
  pub stays_signed_in :
      (tok dev : String) (d : DeveloperRow) (t0 : ℕ) (uses : List ℕ) (db : AuthDb)
      (start : String × ℕ)
      → tok ≢ ""
      → (new_session c p t0 (some tok) dev db).1 ≡ ok start
      → get_developer dev db ≡ some d
      → IsBusy (t0 / second) t0 uses
      → AllAnswered tok d uses (new_session c p t0 (some tok) dev db).0
  stays_signed_in tok dev d t0 uses db start named signed owner busy =
      all_answered tok d (t0 / second) t0 uses (new_session c p t0 (some tok) dev db).0
        (str_ne tok "" named) busy (IsWarm-new_session tok dev d t0 db {start = start} signed owner)
