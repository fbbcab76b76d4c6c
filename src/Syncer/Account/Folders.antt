-- ===== src/Syncer/Account/Folders.antt =====
-- The folder table of an account after a listing.
use unified_messaging.Prelude.{
  ◌≡◌, refl, ap, String, Bool, true, not, ◌&&◌, ◌||◌, List, [], ◌∷◌, ◌==◌, arith, eq_iff, All,
  has_row, select_rows, has_row-append, has_row-update_rows,
}
use unified_messaging.Model.{Folder}
use unified_messaging.Syncer.Account.{
  is_folder, refreshed_folder, upsert_folder, list_folders, delete_folder, upsert_folders, is_live,
  delete_gone, reconcile_folders, insert_by_name, sort_by_name,
}

abbrev is_named : String → Folder → Bool
is_named id f = f.id == id

-- the folders of one account
abbrev pub IsOf : String → Folder → Type 0
IsOf acc f = f.account_id ≡ acc

module _ (acc id : String) where
  deleted :
      (i : String) (rows : List Folder)
      → has_row (is_folder acc id) (delete_folder acc i rows)
        ≡ (has_row (is_folder acc id) rows && not (i == id))
  unfolding delete_folder
  deleted i [] = refl
  deleted i (f ∷ rows) = ground (arith, deleted i rows, eq_iff f.id i, eq_iff f.id id, eq_iff i id)

  inserted :
      (x : Folder) (fs : List Folder)
      → has_row (is_named id) (insert_by_name x fs) ≡ (is_named id x || has_row (is_named id) fs)
  inserted x [] = ground arith
  inserted x (f ∷ fs) = ground (arith, inserted x fs)

  sorted : (fs : List Folder) → has_row (is_named id) (sort_by_name fs) ≡ has_row (is_named id) fs
  sorted [] = refl
  sorted (f ∷ fs) = ground (arith, sorted fs, inserted f (sort_by_name fs))

  picked :
      (rows : List Folder)
      → has_row (is_named id) (select_rows (λ (f : Folder). f.account_id == acc) rows)
        ≡ has_row (is_folder acc id) rows
  picked [] = refl
  picked (f ∷ rows) = ground (arith, picked rows)

  listed_lem :
      (rows : List Folder)
      → has_row (is_named id) (list_folders acc rows) ≡ has_row (is_folder acc id) rows
  unfolding list_folders
  listed_lem rows =
      rw (sorted (select_rows (λ (f : Folder). f.account_id == acc) rows)) (picked rows)

  same_folder :
      (x : Folder) (rows : List Folder)
      → is_folder acc id x ≡ true
      → has_row (is_folder acc id) rows ≡ has_row (is_folder x.account_id x.id) rows
  same_folder x rows h =
      let a : x.account_id ≡ acc = (eq_iff x.account_id acc).0 (ground arith) in
      let b : x.id ≡ id = (eq_iff x.id id).0 (ground arith) in rw (a, b) refl

  upserted :
      (x : Folder) (rows : List Folder)
      → has_row (is_folder acc id) (upsert_folder x rows)
        ≡ (is_folder acc id x || has_row (is_folder acc id) rows)
  unfolding upsert_folder
  upserted x rows = ground (
    arith,
    same_folder x rows,
    has_row-append (is_folder acc id) rows (x ∷ []),
    has_row-update_rows (is_folder x.account_id x.id) (is_folder acc id) (refreshed_folder x) rows
        (λ r. refl),
  )

  each_upserted :
      (live : List Folder) (rows : List Folder)
      → All (IsOf acc) live
      → has_row (is_folder acc id) (upsert_folders live rows)
        ≡ (is_live live id || has_row (is_folder acc id) rows)
  unfolding upsert_folders
  each_upserted [] rows h = refl
  each_upserted (f ∷ live) rows h = ground (
    arith,
    upserted f rows,
    each_upserted live (upsert_folder f rows) h.1,
    (eq_iff f.account_id acc).1 h.0,
  )

  cut_down :
      (live known rows : List Folder)
      → has_row (is_folder acc id) (delete_gone acc live known rows) ≡ (
          has_row (is_folder acc id) rows && (is_live live id || not (has_row (is_named id) known)))
  unfolding delete_gone
  cut_down live [] rows = ground arith
  cut_down live (f ∷ known) rows =
      let same : f.id == id ≡ true → is_live live f.id ≡ is_live live id =
        λ e. ap (is_live live) ((eq_iff f.id id).0 e) in
      ground (
        arith,
        same,
        deleted f.id rows,
        cut_down live known rows,
        cut_down live known (delete_folder acc f.id rows),
      )

  -- After a listing the folders stored for the account are those of the listing: a folder that is in
  -- it is stored, whether it was known or not, and one that is not in it is stored no more. The
  -- listing's folders are of the account.
  pub reconcile_folders-listing :
      (live rows : List Folder)
      → All (IsOf acc) live
      → has_row (is_folder acc id) (reconcile_folders acc live rows) ≡ is_live live id
  unfolding reconcile_folders
  reconcile_folders-listing live rows h = ground (
    arith,
    cut_down live (list_folders acc rows) (upsert_folders live rows),
    listed_lem rows,
    each_upserted live rows h,
  )
