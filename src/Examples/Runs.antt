-- ===== src/Examples/Runs.antt =====
-- Runs over an account with three mail folders, the first of which cannot be read.
use unified_messaging.Prelude.{
  ◌≡◌, ◌≢◌, refl, String, Bool, true, false, none, List, [], ◌∷◌, ◌++◌, ◌==◌, arith, has_row,
  ne_of_test,
}
use unified_messaging.Model.{Folder}
use unified_messaging.Syncer.Scope.{
  MailScope, Changes, Round, changes, round_failed, grant_dead, SyncDb, get_cursor,
}
use unified_messaging.Syncer.Account.{
  AccountBox, listed, is_folder, is_live, reconcile_folders, walk_scopes,
}
use unified_messaging.Syncer.Account.Folders.{reconcile_folders-listing}
use unified_messaging.Syncer.Account.Walk.{walk_scopes-healthy}

abbrev folder : String → String → Folder
folder id name = record {
  id = id;
  account_id = "acc1";
  name = name;
  parent_id = "";
  role = "";
  total_count = 2;
  unread_count = 1;
}

abbrev listing_folders : List Folder
listing_folders = folder "inbox" "Inbox" ∷ folder "work" "Work" ∷ []

abbrev known_folders : List Folder
known_folders = folder "old" "Old" ∷ folder "inbox" "In" ∷ []

reconcile_example :
    has_row (is_folder "acc1" "old") (reconcile_folders "acc1" listing_folders known_folders)
    ≡ is_live listing_folders "old"
reconcile_example =
    reconcile_folders-listing "acc1" "old" listing_folders known_folders (refl, (refl, tt))

abbrev work_scope : MailScope
work_scope = record { id = "work"; name = "Work"; role = "" }

abbrev bad_scope : MailScope
bad_scope = record { id = "inbox"; name = "Inbox"; role = "inbox" }

abbrev sent_scope : MailScope
sent_scope = record { id = "sent"; name = "Sent"; role = "sentitems" }

abbrev new_work : Changes
new_work = record { changed = []; removed = "e1" ∷ []; cursor = "w2" }

abbrev round_of : Bool → Round
round_of true = changes new_work
round_of false = round_failed

abbrev partial_box : AccountBox
partial_box = record {
  sync_scopes = λ cursor.
      listed
        (record { scopes = bad_scope ∷ work_scope ∷ []; folders = listing_folders; cursor = "" });
  mailbox = λ scope. record {
    sync_messages = λ cursor. round_of (scope.id == "work");
    list_attachments = λ id. none;
  };
  trouble = λ scope. record {
    cursor = false;
    exists = λ id. false;
    upsert = λ id. false;
    delete = λ id. false;
    save = false;
  };
}

abbrev old_db : SyncDb
old_db = record {
  mail = [];
  cursors = record { account_id = "acc1"; scope_id = "work"; cursor = "w1" } ∷ [];
}

round_alive : (b : Bool) → round_of b ≢ grant_dead
round_alive true q = absurd (ground (arith, q))
round_alive false q = absurd (ground (arith, q))

healthy_example :
    let w =
      walk_scopes partial_box 900 "acc1" false
        ((bad_scope ∷ []) ++ work_scope ∷ sent_scope ∷ [])
        old_db in
    w.finished ≡ true × get_cursor "acc1" "work" w.db ≡ "w2"
healthy_example =
    walk_scopes-healthy partial_box 900 "acc1" false (bad_scope ∷ []) (sent_scope ∷ []) work_scope
      new_work old_db (refl, tt) (refl, tt) (λ x cursor. round_alive (x.id == "work"))
      (refl, λ id. refl, λ id. refl, λ id. refl, refl) refl (ne_of_test "w2" "" refl)
