-- ===== src/Syncer/Account/Walk.antt =====
-- The walk over the scopes of an account: one bad scope does not stop the others.
use unified_messaging.Prelude.{
  ℕ, ◌≡◌, ◌≢◌, refl, inl, inr, String, Bool, true, false, ◌||◌, ◌==◌, List, [], ◌∷◌, ◌++◌, arith,
  Bool-cases, eq_iff, All, find_row-upsert_row_ne,
}
use unified_messaging.Model.{Email}
use unified_messaging.Syncer.Scope.{
  MailScope, Mailbox, Round, changes, cursor_expired, round_failed, grant_dead, Changes, CursorRow,
  SyncDb, Trouble, is_cursor, get_cursor, set_cursor, sync_changed, sync_removed, save_cursor,
  apply_changes, apply_round, sync_scope, store_mail, forget_mail,
}
use unified_messaging.Syncer.Scope.Cursor.{changed-cursors, removed-cursors, apply_changes-cursor}
use unified_messaging.Syncer.Account.{AccountBox, is_dead, answered, is_reauth, walk_scopes}

-- another scope's cursor
get_cursor-set_cursor_ne :
    (acc scope other cursor : String) (db : SyncDb)
    → (scope == other) ≡ false
    → get_cursor acc other (set_cursor acc scope cursor db) ≡ get_cursor acc other db
unfolding get_cursor set_cursor
get_cursor-set_cursor_ne acc scope other cursor db ne =
    let apart : (r : CursorRow) → is_cursor acc other r ≡ true → is_cursor acc scope r ≡ false =
      λ r h. ground (arith, eq_iff r.scope_id other, eq_iff r.scope_id scope, eq_iff scope other) in
    let mine : is_cursor acc other (record { account_id = acc; scope_id = scope; cursor = cursor })
        ≡ false =
      ground (arith, ne) in
    let same =
      find_row-upsert_row_ne (is_cursor acc scope) (is_cursor acc other)
        (λ (c : CursorRow). record c { cursor = cursor })
        (record { account_id = acc; scope_id = scope; cursor = cursor }) db.cursors apart
        (λ r. refl) mine in
    rw same refl

-- every call of the store goes through
abbrev pub IsUntroubled : Trouble → Type 0
IsUntroubled t =
    (t.cursor ≡ false)
    × ((id : String) → t.exists id ≡ false)
    × ((id : String) → t.upsert id ≡ false)
    × ((id : String) → t.delete id ≡ false)
    × (t.save ≡ false)

module _ (mailbox : Mailbox) (t : Trouble) (now : ℕ) (acc : String) (scope : MailScope) where
  changed-ok :
      (quiet : Bool) (es : List Email) (db : SyncDb)
      → IsUntroubled t
      → (sync_changed mailbox t now acc scope quiet es db).ok ≡ true
  unfolding sync_changed
  changed-ok quiet [] db u = refl
  changed-ok quiet (e ∷ es) db u =
      ground (arith, u.1 e.id, u.2 e.id, changed-ok quiet es (store_mail now e db) u)

  removed-ok :
      (quiet : Bool) (ids : List String) (db : SyncDb)
      → IsUntroubled t
      → (sync_removed t acc quiet ids db).ok ≡ true
  unfolding sync_removed
  removed-ok quiet [] db u = refl
  removed-ok quiet (id ∷ ids) db u =
      ground (arith, u.3 id, removed-ok quiet ids (forget_mail acc id db) u)

  apply-ok :
      (quiet : Bool) (c : Changes) (db : SyncDb)
      → IsUntroubled t
      → (apply_changes mailbox t now acc scope quiet c db).ok ≡ true
  unfolding apply_changes save_cursor
  apply-ok quiet c db u = ground (
    arith,
    u.4,
    changed-ok quiet c.changed db u,
    removed-ok quiet c.removed (sync_changed mailbox t now acc scope quiet c.changed db).db u,
  )

  apply-others :
      (quiet : Bool) (c : Changes) (other : String) (db : SyncDb)
      → (scope.id == other) ≡ false
      → get_cursor acc other (apply_changes mailbox t now acc scope quiet c db).db
        ≡ get_cursor acc other db
  unfolding apply_changes save_cursor get_cursor
  apply-others quiet c other db ne = ground (
    arith,
    changed-cursors mailbox t now acc scope quiet c.changed db,
    removed-cursors mailbox t now acc scope quiet c.removed
        (sync_changed mailbox t now acc scope quiet c.changed db).db,
    get_cursor-set_cursor_ne acc scope.id other c.cursor
        (sync_removed t acc quiet c.removed
          (sync_changed mailbox t now acc scope quiet c.changed db).db).db
        ne,
  )

  module _ (first_run : Bool) (other : String) (db : SyncDb)
      (ne : (scope.id == other) ≡ false) where
    round-others :
        (r : Round)
        → get_cursor acc other (apply_round mailbox t now acc scope true r db).db
          ≡ get_cursor acc other db
    round-others (changes c) = apply-others true c other db ne
    round-others cursor_expired = refl
    round-others round_failed = refl
    round-others grant_dead = refl

    answer-others :
        (r : Round)
        → mailbox.sync_messages (get_cursor acc scope.id db) ≡ r
        → t.cursor ≡ false
        → get_cursor acc other (sync_scope mailbox t now acc scope first_run db).db
          ≡ get_cursor acc other db
    unfolding sync_scope
    answer-others (changes c) e f =
        rw (f, e, sync_scope)
          (apply-others ((get_cursor acc scope.id db == "") || first_run) c other db ne)
    answer-others cursor_expired e f =
        rw (f, e, sync_scope) (round-others (mailbox.sync_messages ""))
    answer-others round_failed e f = rw (f, e, sync_scope) refl
    answer-others grant_dead e f = rw (f, e, sync_scope) refl

    -- a round leaves the cursors of the other scopes
    sync_scope-others :
        get_cursor acc other (sync_scope mailbox t now acc scope first_run db).db
        ≡ get_cursor acc other db
    unfolding sync_scope
    sync_scope-others = elim (Bool-cases t.cursor) [
      | inl f ↦ rw (f, sync_scope) refl
      | inr f ↦ answer-others (mailbox.sync_messages (get_cursor acc scope.id db)) refl f
    ]

  -- a round in which all goes well moves its own cursor
  sync_scope-moves :
      (first_run : Bool) (c : Changes) (db : SyncDb)
      → IsUntroubled t
      → mailbox.sync_messages (get_cursor acc scope.id db) ≡ changes c
      → c.cursor ≢ ""
      → get_cursor acc scope.id (sync_scope mailbox t now acc scope first_run db).db ≡ c.cursor
  unfolding sync_scope
  sync_scope-moves first_run c db u e ne =
      let quiet = (get_cursor acc scope.id db == "") || first_run in
      rw (u.0, e, sync_scope)
        ((apply_changes-cursor mailbox t now acc scope quiet c db).1 (apply-ok quiet c db u) ne)

no_grant_dead : (r : Round) → r ≢ grant_dead → is_dead r ≡ false
no_grant_dead (changes c) n = refl
no_grant_dead cursor_expired n = refl
no_grant_dead round_failed n = refl
no_grant_dead grant_dead n = absurd (n refl)

module _ (box : AccountBox) (now : ℕ) (acc : String) (first_run : Bool) where
  -- the grant of the account is alive: no scope answers that it is not
  abbrev pub IsAlive : Type 0
  IsAlive = (x : MailScope) (cursor : String) → (box.mailbox x).sync_messages cursor ≢ grant_dead

  still_alive :
      (x : MailScope) (r : Round)
      → IsAlive
      → r ≢ grant_dead
      → is_dead (answered (box.mailbox x) r) ≡ false
  still_alive x (changes c) a n = refl
  still_alive x cursor_expired a n = no_grant_dead ((box.mailbox x).sync_messages "") (a x "")
  still_alive x round_failed a n = refl
  still_alive x grant_dead a n = absurd (n refl)

  goes_on : (x : MailScope) (db : SyncDb) → IsAlive → is_reauth box acc x db ≡ false
  unfolding is_reauth
  goes_on x db a =
      let cursor = get_cursor acc x.id db in
      ground (arith, still_alive x ((box.mailbox x).sync_messages cursor) a (a x cursor))

  -- the rest of the walk leaves the cursor of a scope that is not in it
  rest_others :
      (other : String) (xs : List MailScope) (db : SyncDb)
      → All (λ x. (x.id == other) ≡ false) xs
      → IsAlive
      → (walk_scopes box now acc first_run xs db).finished ≡ true
        × get_cursor acc other (walk_scopes box now acc first_run xs db).db
          ≡ get_cursor acc other db
  unfolding walk_scopes
  rest_others other [] db h a = (refl, refl)
  rest_others other (x ∷ xs) db h a =
      let next = (sync_scope (box.mailbox x) (box.trouble x) now acc x first_run db).db in
      let same =
        sync_scope-others (box.mailbox x) (box.trouble x) now acc x first_run other db h.0 in
      let rest = rest_others other xs next h.1 a in rw (goes_on x db a) (rest.0, rw same at rest.1)

  -- If no scope says that the grant is dead, the walk comes to its end, and a scope of it, whose
  -- calls of the store go through, which answers changes with a cursor and whose id no other scope
  -- of the listing has, is left at that cursor: whatever the other scopes answer, and whichever of
  -- their calls of the store fail.
  pub walk_scopes-healthy :
      (xs ys : List MailScope) (s : MailScope) (c : Changes) (db : SyncDb)
      → All (λ x. (x.id == s.id) ≡ false) xs
      → All (λ x. (x.id == s.id) ≡ false) ys
      → IsAlive
      → IsUntroubled (box.trouble s)
      → (box.mailbox s).sync_messages (get_cursor acc s.id db) ≡ changes c
      → c.cursor ≢ ""
      → (walk_scopes box now acc first_run (xs ++ s ∷ ys) db).finished ≡ true
        × get_cursor acc s.id (walk_scopes box now acc first_run (xs ++ s ∷ ys) db).db ≡ c.cursor
  unfolding walk_scopes
  walk_scopes-healthy [] ys s c db hx hy a u e ne =
      let next = (sync_scope (box.mailbox s) (box.trouble s) now acc s first_run db).db in
      let moved =
        sync_scope-moves (box.mailbox s) (box.trouble s) now acc s first_run c db u e ne in
      let rest = rest_others s.id ys next hy a in rw (goes_on s db a) (rest.0, rw moved at rest.1)
  walk_scopes-healthy (x ∷ xs) ys s c db hx hy a u e ne =
      let next = (sync_scope (box.mailbox x) (box.trouble x) now acc x first_run db).db in
      let same =
        sync_scope-others (box.mailbox x) (box.trouble x) now acc x first_run s.id db hx.0 in
      let rest = walk_scopes-healthy xs ys s c next hx.1 hy a u (rw same e) ne in
      rw (goes_on x db a) (rest.0, rest.1)
