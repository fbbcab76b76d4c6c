-- ===== src/Syncer/Scope/Quiet.antt =====
-- A first sync is silent.
use unified_messaging.Prelude.{
  ℕ, ◌≡◌, refl, ◌⊎◌, inl, inr, String, Bool, true, ◌||◌, List, [], ◌∷◌, ◌==◌, arith, Bool-cases,
  eq_iff,
}
use unified_messaging.Model.{Email}
use unified_messaging.Syncer.Scope.{
  MailScope, Changes, Round, changes, cursor_expired, round_failed, grant_dead, Mailbox, SyncDb,
  Trouble, get_cursor, sync_changed, sync_removed, save_cursor, apply_changes, apply_round,
  sync_scope, store_mail, forget_mail,
}

module _ (mailbox : Mailbox) (t : Trouble) (now : ℕ) (acc : String) (scope : MailScope) where
  changed-quiet :
      (es : List Email) (db : SyncDb)
      → (sync_changed mailbox t now acc scope true es db).events ≡ []
  unfolding sync_changed
  changed-quiet [] db = refl
  changed-quiet (e ∷ es) db = ground (arith, changed-quiet es (store_mail now e db))

  removed-quiet : (ids : List String) (db : SyncDb) → (sync_removed t acc true ids db).events ≡ []
  unfolding sync_removed
  removed-quiet [] db = refl
  removed-quiet (id ∷ ids) db = ground (arith, removed-quiet ids (forget_mail acc id db))

  apply-quiet :
      (c : Changes) (db : SyncDb) → (apply_changes mailbox t now acc scope true c db).events ≡ []
  unfolding apply_changes save_cursor
  apply-quiet c db = ground (
    arith,
    changed-quiet c.changed db,
    removed-quiet c.removed (sync_changed mailbox t now acc scope true c.changed db).db,
  )

  -- Why a round tells subscribers nothing.
  abbrev pub IsFirst : Bool → SyncDb → Type 0
  IsFirst first_run db =
      (first_run ≡ true)
      ⊎ (get_cursor acc scope.id db ≡ "")
      ⊎ (mailbox.sync_messages (get_cursor acc scope.id db) ≡ cursor_expired)

  round-quiet :
      (r : Round) (db : SyncDb) → (apply_round mailbox t now acc scope true r db).events ≡ []
  round-quiet (changes c) db = apply-quiet c db
  round-quiet cursor_expired db = refl
  round-quiet round_failed db = refl
  round-quiet grant_dead db = refl

  answered :
      (r : Round) (first_run : Bool) (db : SyncDb)
      → mailbox.sync_messages (get_cursor acc scope.id db) ≡ r
      → IsFirst first_run db
      → (sync_scope mailbox t now acc scope first_run db).events ≡ []
  unfolding sync_scope
  answered (changes c) first_run db e why =
      let quiet : ((get_cursor acc scope.id db == "") || first_run) ≡ true =
        ground (arith, why, e, eq_iff (get_cursor acc scope.id db) "") in
      elim (Bool-cases t.cursor) [
        | inl f ↦ rw (f, sync_scope) refl
        | inr f ↦ rw (f, e, quiet, sync_scope) (apply-quiet c db)
      ]
  answered cursor_expired first_run db e why = elim (Bool-cases t.cursor) [
    | inl f ↦ rw (f, sync_scope) refl
    | inr f ↦ rw (f, e, sync_scope) (round-quiet (mailbox.sync_messages "") db)
  ]
  answered round_failed first_run db e why = elim (Bool-cases t.cursor) [
    | inl f ↦ rw (f, sync_scope) refl
    | inr f ↦ rw (f, e, sync_scope) refl
  ]
  answered grant_dead first_run db e why = elim (Bool-cases t.cursor) [
    | inl f ↦ rw (f, sync_scope) refl
    | inr f ↦ rw (f, e, sync_scope) refl
  ]

  -- The first run of an account, the first round of a scope and a round whose cursor expired emit
  -- no event, whatever mail they bring, whatever leaves, and whichever calls of the store fail.
  pub sync_scope-quiet :
      (first_run : Bool) (db : SyncDb)
      → IsFirst first_run db
      → (sync_scope mailbox t now acc scope first_run db).events ≡ []
  sync_scope-quiet first_run db why =
      answered (mailbox.sync_messages (get_cursor acc scope.id db)) first_run db refl why
