-- ===== src/Auth/Passwords.antt =====
-- internal/auth/auth.go: what a signup and a change of the password promise to the login.
use Prim.Native.String.{len}
use unified_messaging.Prelude.{
  subst, List, Option-cases, ℕ, ◌≡◌, refl, ap, ◌∙◌, String, Char, true, false, Option, none, some,
  [], ◌∷◌, ◌++◌, arith, inl, inr, if◌then◌else◌, ltb, has_row, find_row, find_row-append,
  find_row-update_rows_if, Result, ok, failed, Bool-cases, trim_space, to_lower, IsCaseTable,
  lower_trimmed_idem, ◌||◌, has_row-All, All-has_row, All-map, eq_iff,
}
use unified_messaging.Store.Tables.{DeveloperRow}
use unified_messaging.Store.Developers.{
  AuthDb, StoreError, conflict, not_found, refused, is_developer, has_email, stored_email,
  create_developer, developer_by_email, developer_password_hash, update_password, with_password,
}
use unified_messaging.Auth.{
  Crypto, signup, sign_up_with, signed_up, change_known_password, login, change_password,
  email_taken, invalid_credentials, is_address, min_password, new_developer,
}

-- What a signup that went through stored.
record IsStored (c : Crypto) (email : String) (db db' : AuthDb) (d : DeveloperRow)
    (o : Option String) : Type 0 where
  pub hashed : o ≡ some d.password_hash
  pub address : d.email ≡ email
  pub domains : d.redirect_domains ≡ []
  pub retention : d.retention_max_age_secs ≡ 0
  pub made : create_developer c.lower d db ≡ ok db'

signed_up-ok :
    (d d' : DeveloperRow) (r : Result StoreError AuthDb) {db' : AuthDb}
    → signed_up d r ≡ ok (db', d')
    → (d ≡ d') × (r ≡ ok db')
signed_up-ok d d' (ok db) h = (ground arith, ground arith)
signed_up-ok d d' (failed conflict) h = absurd (ground arith)
signed_up-ok d d' (failed not_found) h = absurd (ground arith)
signed_up-ok d d' (failed refused) h = absurd (ground arith)

sign_up_with-IsStored :
    (c : Crypto) (now : ℕ) (email name : String) (db db' : AuthDb) (d : DeveloperRow)
    (o minted : Option String)
    → sign_up_with c now email name db o minted ≡ ok (db', d)
    → IsStored c email db db' d o
sign_up_with-IsStored c now email name db db' d none minted h = absurd (ground arith)
sign_up_with-IsStored c now email name db db' d (some hash) none h = absurd (ground arith)
sign_up_with-IsStored c now email name db db' d (some hash) (some id) h =
    let fresh = new_developer id email hash (trim_space name) now in
    let (same, made) = signed_up-ok fresh d (create_developer c.lower fresh db) {db' = db'} h in
    subst (λ x. IsStored c email db db' x (some hash)) same
      (record { hashed = refl; address = refl; domains = refl; retention = refl; made = made })

signup-IsStored :
    (c : Crypto) (now : ℕ) (minted : Option String) (email password name : String) (db db' : AuthDb)
    (d : DeveloperRow)
    → signup c now minted email password name db ≡ ok (db', d)
    → IsStored c (stored_email c.lower email) db db' d (c.hash_password password)
unfolding signup
signup-IsStored c now minted email password name db db' d h =
    sign_up_with-IsStored c now (stored_email c.lower email) name db db' d
      (c.hash_password password) minted (ground arith)

abbrev stored_row : (Char → Char) → DeveloperRow → DeveloperRow
stored_row lower d = record d {
  email = stored_email lower d.email;
  redirect_domains = [];
  retention_max_age_secs = 0;
}

apart :
    (id email : String) (rs : List DeveloperRow)
    → has_row (λ (r : DeveloperRow). is_developer id r || has_email email r) rs ≡ false
    → has_row (has_email email) rs ≡ false
apart id email rs h =
    All-has_row (has_email email) rs (All-map rs (λ r u. ground arith) (has_row-All _ rs h))

create_developer-ok :
    (lower : Char → Char) (d : DeveloperRow) (db db' : AuthDb)
    → create_developer lower d db ≡ ok db'
    → (has_row (has_email (stored_email lower d.email)) db.developers ≡ false)
      × (db.developers ++ stored_row lower d ∷ [] ≡ db'.developers)
unfolding create_developer
create_developer-ok lower d db db' h =
    let email = stored_email lower d.email in
    elim (Bool-cases
      (has_row (λ (r : DeveloperRow). is_developer d.id r || has_email email r) db.developers)) [
        | inl e ↦ absurd (ground arith)
        | inr e ↦
            let made : record db { developers = db.developers ++ stored_row lower d ∷ [] } ≡ db' =
              ground arith in
            (apart d.id email db.developers e, ap (λ (x : AuthDb). x.developers) made)
      ]

find_row-appended :
    (email : String) (d : DeveloperRow) (rs : List DeveloperRow)
    → has_row (has_email email) rs ≡ false
    → d.email ≡ email
    → find_row (has_email email) (rs ++ d ∷ []) ≡ some d
find_row-appended email d rs free mine =
    ground (arith, find_row-append (has_email email) rs (d ∷ []), eq_iff d.email email)

-- Once a signup went through, the same address and password log the new developer in, where the
-- password check accepts what was hashed and the case table neither makes nor unmakes blanks and
-- changes nothing twice.
pub signup-login :
    (c : Crypto) (now : ℕ) (minted : Option String) (email password name : String) (db db' : AuthDb)
    (d : DeveloperRow)
    → ((p h : String) → c.hash_password p ≡ some h → c.matches h p ≡ true)
    → IsCaseTable c.lower
    → signup c now minted email password name db ≡ ok (db', d)
    → login c email password db' ≡ ok d
unfolding login developer_by_email
signup-login c now minted email password name db db' d right table h =
    let w = signup-IsStored c now minted email password name db db' d h in
    let (free, rows) = create_developer-ok c.lower d db db' w.made in
    let same : stored_row c.lower d ≡ d =
      rw (w.address, w.domains, w.retention, lower_trimmed_idem c.lower table email) refl in
    let taken : has_row (has_email (stored_email c.lower email)) db.developers ≡ false =
      rw (w.address, lower_trimmed_idem c.lower table email) at free in
    let kept : db.developers ++ d ∷ [] ≡ db'.developers = rw same at rows in
    let found =
      rw kept at (find_row-appended (stored_email c.lower email) d db.developers taken w.address) in
    rw (lower_trimmed_idem c.lower table email, found, right password d.password_hash w.hashed) refl

rehashed-ok :
    (c : Crypto) (dev current next : String) (db db' : AuthDb) (o : Option String)
    → change_known_password c dev current next db o ≡ ok db'
    → (h : String) × (c.hash_password next ≡ some h) × (update_password dev h db ≡ db')
rehashed-ok c dev current next db db' none e = absurd (ground arith)
rehashed-ok c dev current next db db' (some old) e = elim (Option-cases (c.hash_password next)) [
  | inl q ↦ absurd (ground arith)
  | inr (h, q) ↦ (h, q, ground arith)
]

-- After a change of the password that went through, a login of that developer is decided by the
-- hash of the new password alone: it answers the developer with the new hash where the password
-- check accepts the password, and the one error of the login where it does not.
pub change_password-login :
    (c : Crypto) (dev current next email : String) (db db' : AuthDb) (d : DeveloperRow)
    → developer_by_email c.lower (to_lower c.lower (trim_space email)) db ≡ some d
    → d.id ≡ dev
    → change_password c dev current next db ≡ ok db'
    → (h : String) × (c.hash_password next ≡ some h)
      × ((password : String)
          → login c email password db'
            ≡ (if c.matches h password then ok (with_password h d) else failed invalid_credentials))
unfolding login developer_by_email change_password update_password
change_password-login c dev current next email db db' d known mine e =
    let key = stored_email c.lower (to_lower c.lower (trim_space email)) in
    let (h, q, stored) =
      rehashed-ok c dev current next db db' (developer_password_hash dev db) (ground arith) in
    (
      h,
      q,
      λ password.
          let moved =
            find_row-update_rows_if (has_email key) (is_developer dev) (with_password h)
              db.developers (λ r. ground arith) in
          let found : find_row (has_email key) db'.developers ≡ some (with_password h d) =
            rw (← stored) (moved ∙ ground (arith, known, eq_iff d.id dev)) in
          rw found refl,
    )

has_row_or :
    (id email : String) (rs : List DeveloperRow)
    → has_row (has_email email) rs ≡ true
    → has_row (λ (r : DeveloperRow). is_developer id r || has_email email r) rs ≡ true
has_row_or id email [] h = h
has_row_or id email (r ∷ rs) h = ground (arith, has_row_or id email rs)

-- A signup for an address that a developer has, in whatever case and with whatever blanks around
-- it, is refused as taken: the input being well formed, the hash and the id having been made, and
-- the case table being one that neither makes nor unmakes blanks and changes nothing twice.
pub signup_taken :
    (c : Crypto) (now : ℕ) (id email password name hash : String) (db : AuthDb)
    → IsCaseTable c.lower
    → is_address (stored_email c.lower email) ≡ true
    → ltb (len password) min_password ≡ false
    → c.hash_password password ≡ some hash
    → has_row (has_email (stored_email c.lower email)) db.developers ≡ true
    → signup c now (some id) email password name db ≡ failed email_taken
unfolding signup create_developer
signup_taken c now id email password name hash db table shaped long hashed held =
    let taken : has_row
          (λ (r : DeveloperRow). is_developer id r || has_email (stored_email c.lower email) r)
          db.developers
        ≡ true =
      has_row_or id (stored_email c.lower email) db.developers held in
    rw (shaped, long, hashed, lower_trimmed_idem c.lower table email, taken) refl
