-- ===== src/Syncer/Scope/Known.antt =====
-- A message is news once.
use unified_messaging.Prelude.{
  ℕ, ◌≡◌, refl, ap, String, Bool, true, ◌||◌, List, [], ◌∷◌, arith, if◌then◌else◌, All, All-append,
  has_row, has_row-update_rows, has_row-append, str_eq_refl, All-map, if_both,
}
use unified_messaging.Model.{Email, Event, mail_updated}
use unified_messaging.Store.Emails.{is_email, merge_email, email_row, upsert_email, email_exists}
use unified_messaging.Syncer.Scope.{
  MailScope, Mailbox, SyncDb, Trouble, Progress, news, sync_changed, store_mail,
}

abbrev pub IsKnown : String → SyncDb → Email → Type 0
IsKnown acc db e = email_exists acc e.id db.mail ≡ true

upsert-known :
    (acc id : String) (now : ℕ) (e : Email) (db : SyncDb)
    → email_exists acc id db.mail ≡ true
    → email_exists acc id (store_mail now e db).mail ≡ true
unfolding email_exists upsert_email
upsert-known acc id now e db h = ground (
  arith,
  has_row-update_rows (is_email e.account_id e.id) (is_email acc id) (merge_email e) db.mail
      (λ r. ground arith),
  has_row-append (is_email acc id) db.mail (email_row now e ∷ []),
)

upsert-IsKnown :
    (acc : String) (now : ℕ) (e : Email) (db : SyncDb)
    → e.account_id ≡ acc
    → IsKnown acc (store_mail now e db) e
unfolding email_exists upsert_email
upsert-IsKnown acc now e db own =
    let mine : is_email acc e.id (email_row now e) ≡ true =
      ground (arith, str_eq_refl e.id, str_eq_refl acc, own) in
    let same : has_row (is_email e.account_id e.id) db.mail ≡ has_row (is_email acc e.id) db.mail =
      ap (λ a. has_row (is_email a e.id) db.mail) own in
    ground (
      arith,
      mine,
      same,
      has_row-update_rows (is_email e.account_id e.id) (is_email acc e.id) (merge_email e) db.mail
          (λ r. ground arith),
      has_row-append (is_email acc e.id) db.mail (email_row now e ∷ []),
    )

module _ (mailbox : Mailbox) (t : Trouble) (now : ℕ) (acc : String) (scope : MailScope)
    (quiet : Bool) where
  changed-keeps :
      (id : String) (es : List Email) (db : SyncDb)
      → email_exists acc id db.mail ≡ true
      → email_exists acc id (sync_changed mailbox t now acc scope quiet es db).db.mail ≡ true
  unfolding sync_changed
  changed-keeps id [] db h = h
  changed-keeps id (e ∷ es) db h =
      if_both (λ (p : Progress). email_exists acc id p.db.mail ≡ true)
        (t.exists e.id || t.upsert e.id) (λ _. h)
        (λ _. changed-keeps id es (store_mail now e db) (upsert-known acc id now e db h))

  changed-IsKnown :
      (es : List Email) (db : SyncDb)
      → All (λ (e : Email). e.account_id ≡ acc) es
      → (sync_changed mailbox t now acc scope quiet es db).ok ≡ true
      → All (IsKnown acc (sync_changed mailbox t now acc scope quiet es db).db) es
  unfolding sync_changed
  changed-IsKnown [] db own ok = tt
  changed-IsKnown (e ∷ es) db own ok =
      if_both (λ (p : Progress). p.ok ≡ true → All (IsKnown acc p.db) (e ∷ es))
        (t.exists e.id || t.upsert e.id) (λ _ bad. absurd (ground arith))
        (λ _ good. (
          changed-keeps e.id es (store_mail now e db) (upsert-IsKnown acc now e db own.0),
          changed-IsKnown es (store_mail now e db) own.1 good,
        ))
        ok

  abbrev pub IsUpdate : Event → Type 0
  IsUpdate ev = ev.event_type ≡ mail_updated

  news-IsUpdate : (e : Email) → All IsUpdate (news mailbox acc scope true e)
  unfolding news
  news-IsUpdate e = (refl, tt)

  changed-IsUpdate :
      (es : List Email) (db : SyncDb)
      → All (IsKnown acc db) es
      → All IsUpdate (sync_changed mailbox t now acc scope quiet es db).events
  unfolding sync_changed
  changed-IsUpdate [] db known = tt
  changed-IsUpdate (e ∷ es) db known =
      if_both (λ (p : Progress). All IsUpdate p.events) (t.exists e.id || t.upsert e.id) (λ _. tt)
        (λ _.
          All-append IsUpdate
            (if quiet then [] else news mailbox acc scope (email_exists acc e.id db.mail) e)
            (sync_changed mailbox t now acc scope quiet es (store_mail now e db)).events
            (if_both (All IsUpdate) quiet (λ _. tt) (λ _. rw known.0 (news-IsUpdate e)))
            (changed-IsUpdate es (store_mail now e db)
              (All-map es (λ x h. upsert-known acc x.id now e db h) known.1)))

-- Mail that was stored once is never news again: when the same changes come a second time, after a
-- round that stored them all, every event of that pass is an update, whatever it is run with and
-- whatever fails. The adapter is taken to file the mail under the account that it syncs.
pub sync_changed_twice :
    (mailbox mailbox' : Mailbox) (t t' : Trouble) (now later : ℕ) (acc : String)
    (scope scope' : MailScope) (quiet quiet' : Bool) (es : List Email) (db : SyncDb)
    → All (λ (e : Email). e.account_id ≡ acc) es
    → (sync_changed mailbox t now acc scope quiet es db).ok ≡ true
    → let first = sync_changed mailbox t now acc scope quiet es db in
      All
        (λ (ev : Event). ev.event_type ≡ mail_updated)
        (sync_changed mailbox' t' later acc scope' quiet' es first.db).events
sync_changed_twice mailbox mailbox' t t' now later acc scope scope' quiet quiet' es db own ok =
    changed-IsUpdate mailbox' t' later acc scope' quiet' es
      (sync_changed mailbox t now acc scope quiet es db).db
      (changed-IsKnown mailbox t now acc scope quiet es db own ok)
