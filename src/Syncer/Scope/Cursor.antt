-- ===== src/Syncer/Scope/Cursor.antt =====
-- When the cursor of a scope moves.
use unified_messaging.Prelude.{
  ℕ, ◌≡◌, ◌≢◌, refl, inl, inr, String, Bool, true, false, List, [], ◌∷◌, arith, Bool-cases, eq_iff,
  str_eq_refl, str_ne, has_row, find_row-update_rows, find_row-append, find_row-some,
}
use unified_messaging.Model.{Email}
use unified_messaging.Syncer.Scope.{
  MailScope, Mailbox, Changes, CursorRow, SyncDb, Trouble, is_cursor, get_cursor, set_cursor,
  sync_changed, sync_removed, save_cursor, apply_changes, store_mail, forget_mail,
}

-- what is written is read
pub get_cursor-set_cursor :
    (acc scope cursor : String) (db : SyncDb)
    → get_cursor acc scope (set_cursor acc scope cursor db) ≡ cursor
unfolding get_cursor set_cursor
get_cursor-set_cursor acc scope cursor db =
    elim (Bool-cases (has_row (is_cursor acc scope) db.cursors)) [
      | inl e ↦
          let (r, found) = find_row-some (is_cursor acc scope) db.cursors e in
          ground (
            arith,
            found,
            find_row-update_rows (is_cursor acc scope)
                (λ (c : CursorRow). record c { cursor = cursor }) db.cursors (λ r. refl),
          )
      | inr e ↦ ground (
        arith,
        str_eq_refl acc,
        str_eq_refl scope,
        find_row-append (is_cursor acc scope) db.cursors
            (record { account_id = acc; scope_id = scope; cursor = cursor } ∷ []),
      )
    ]

module _ (mailbox : Mailbox) (t : Trouble) (now : ℕ) (acc : String) (scope : MailScope)
    (quiet : Bool) where
  pub changed-cursors :
      (es : List Email) (db : SyncDb)
      → (sync_changed mailbox t now acc scope quiet es db).db.cursors ≡ db.cursors
  unfolding sync_changed
  changed-cursors [] db = refl
  changed-cursors (e ∷ es) db = ground (arith, changed-cursors es (store_mail now e db))

  pub removed-cursors :
      (ids : List String) (db : SyncDb) → (sync_removed t acc quiet ids db).db.cursors ≡ db.cursors
  unfolding sync_removed
  removed-cursors [] db = refl
  removed-cursors (id ∷ ids) db = ground (arith, removed-cursors ids (forget_mail acc id db))

  -- The cursor moves only after the whole round was stored: a round that ended in an error leaves
  -- every cursor as it was, so that the next one asks for the same changes again, and a round
  -- without one leaves the scope's cursor at the new one, unless the provider gave none.
  pub apply_changes-cursor :
      (c : Changes) (db : SyncDb)
      → let p = apply_changes mailbox t now acc scope quiet c db in
        (p.ok ≡ false → p.db.cursors ≡ db.cursors)
        × (p.ok ≡ true → c.cursor ≢ "" → get_cursor acc scope.id p.db ≡ c.cursor)
        × (c.cursor ≡ "" → p.db.cursors ≡ db.cursors)
  unfolding apply_changes save_cursor set_cursor
  apply_changes-cursor c db =
      let first = sync_changed mailbox t now acc scope quiet c.changed db in
      let second = sync_removed t acc quiet c.removed first.db in
      let same1 = changed-cursors c.changed db in
      let same2 = removed-cursors c.removed first.db in
      (
        λ bad. ground (arith, same1, same2),
        λ good ne.
            ground
              (arith, str_ne c.cursor "" ne, get_cursor-set_cursor acc scope.id c.cursor second.db),
        λ blank. ground (arith, same1, same2, eq_iff c.cursor ""),
      )
