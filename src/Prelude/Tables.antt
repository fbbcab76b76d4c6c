-- ===== src/Prelude/Tables.antt =====
-- SQL statements over a table held as a list of rows: SELECT one, UPDATE … WHERE, DELETE … WHERE,
-- INSERT … ON CONFLICT DO UPDATE and INSERT … ON CONFLICT DO NOTHING, and RowsAffected.
use Prim.Native.Nat.{ℕ, suc}
use mathlib.Core.Path.{◌≡◌, refl, ap}
use mathlib.Core.Logic.{inl, inr}
use mathlib.Core.Bool.{Bool, true, false, ◌||◌}
use mathlib.Core.List.{List, [], ◌∷◌, ◌++◌}
use mathlib.Core.Option
use mathlib.Core.Option.{Option, none, some}
use native.Mathlib.Omega.{arith}
use unified_messaging.Prelude.Tests.{if◌then◌else◌, Bool-cases}
use unified_messaging.Prelude.Lists.{All, All-append}

module _ {ℓ} {R : Type ℓ} where
  -- the first row that satisfies the WHERE clause
  abbrev pub find_row : (R → Bool) → List R → Option R
  find_row p [] = none
  find_row p (r ∷ rs) = if p r then some r else find_row p rs

  -- all rows that satisfy the WHERE clause
  abbrev pub select_rows : (R → Bool) → List R → List R
  select_rows p [] = []
  select_rows p (r ∷ rs) = if p r then r ∷ select_rows p rs else select_rows p rs

  abbrev pub update_rows : (R → Bool) → (R → R) → List R → List R
  update_rows p f [] = []
  update_rows p f (r ∷ rs) = (if p r then f r else r) ∷ update_rows p f rs

  abbrev pub delete_rows : (R → Bool) → List R → List R
  delete_rows p [] = []
  delete_rows p (r ∷ rs) = if p r then delete_rows p rs else r ∷ delete_rows p rs

  abbrev pub count_rows : (R → Bool) → List R → ℕ
  count_rows p [] = 0
  count_rows p (r ∷ rs) = if p r then suc (count_rows p rs) else count_rows p rs

  abbrev pub has_row : (R → Bool) → List R → Bool
  has_row p [] = false
  has_row p (r ∷ rs) = if p r then true else has_row p rs

  -- INSERT … ON CONFLICT (the rows of p) DO UPDATE SET f
  abbrev pub upsert_row : (R → Bool) → (R → R) → R → List R → List R
  upsert_row p f r rs = if has_row p rs then update_rows p f rs else rs ++ r ∷ []

  -- INSERT … ON CONFLICT (the rows of p) DO NOTHING
  abbrev pub insert_row : (R → Bool) → R → List R → List R
  insert_row p r rs = if has_row p rs then rs else rs ++ r ∷ []

  pub find_row-append :
      (p : R → Bool) (rs ts : List R)
      → find_row p (rs ++ ts) ≡ (if has_row p rs then find_row p rs else find_row p ts)
  find_row-append p [] ts = refl
  find_row-append p (r ∷ rs) ts = ground (arith, find_row-append p rs ts)

  -- a row is found exactly when one is there
  pub has_row-find_row : (p : R → Bool) (rs : List R) → has_row p rs ≡ false → find_row p rs ≡ none
  has_row-find_row p [] h = refl
  has_row-find_row p (r ∷ rs) h = ground (arith, has_row-find_row p rs)

  pub find_row-some :
      (p : R → Bool) (rs : List R) → has_row p rs ≡ true → (r : R) × (find_row p rs ≡ some r)
  find_row-some p [] h = absurd (ground arith)
  find_row-some p (r ∷ rs) h = elim (Bool-cases (p r)) [
    | inl e ↦ (r, ground arith)
    | inr e ↦ let (x, q) = find_row-some p rs (ground arith) in (x, ground (arith, q))
  ]

  pub find_row-has_row :
      (p : R → Bool) (rs : List R) {r : R} → find_row p rs ≡ some r → has_row p rs ≡ true
  find_row-has_row p [] h = ground arith
  find_row-has_row p (x ∷ rs) {r} h = ground (arith, find_row-has_row p rs {r = r})

  pub find_row-holds : (p : R → Bool) (rs : List R) {r : R} → find_row p rs ≡ some r → p r ≡ true
  find_row-holds p [] h = ground arith
  find_row-holds p (x ∷ rs) {r} h = elim (Bool-cases (p x)) [
    | inl e ↦ let q : x ≡ r = ground arith in ground (arith, ap p q)
    | inr e ↦ find_row-holds p rs (ground arith)
  ]

  -- an update that keeps the key is seen by a lookup of the same key
  pub find_row-update_rows :
      (p : R → Bool) (f : R → R) (rs : List R)
      → ((r : R) → p (f r) ≡ p r)
      → find_row p (update_rows p f rs) ≡ Option.map f (find_row p rs)
  find_row-update_rows p f [] keep = refl
  find_row-update_rows p f (r ∷ rs) keep = ground (arith, keep r, find_row-update_rows p f rs keep)

  -- a lookup of rows that the update does not touch, under a key that the update keeps
  pub find_row-update_rows_ne :
      (p q : R → Bool) (f : R → R) (rs : List R)
      → ((r : R) → q r ≡ true → p r ≡ false)
      → ((r : R) → q (f r) ≡ q r)
      → find_row q (update_rows p f rs) ≡ find_row q rs
  find_row-update_rows_ne p q f [] apart keep = refl
  find_row-update_rows_ne p q f (r ∷ rs) apart keep =
      ground (arith, apart r, keep r, find_row-update_rows_ne p q f rs apart keep)

  pub find_row-delete_rows : (p : R → Bool) (rs : List R) → find_row p (delete_rows p rs) ≡ none
  find_row-delete_rows p [] = refl
  find_row-delete_rows p (r ∷ rs) = ground (arith, find_row-delete_rows p rs)

  pub has_row-update_rows :
      (p q : R → Bool) (f : R → R) (rs : List R)
      → ((r : R) → q (f r) ≡ q r)
      → has_row q (update_rows p f rs) ≡ has_row q rs
  has_row-update_rows p q f [] keep = refl
  has_row-update_rows p q f (r ∷ rs) keep =
      ground (arith, keep r, has_row-update_rows p q f rs keep)

  pub has_row-append :
      (p : R → Bool) (rs ts : List R) → has_row p (rs ++ ts) ≡ has_row p rs || has_row p ts
  has_row-append p [] ts = refl
  has_row-append p (r ∷ rs) ts = ground (arith, has_row-append p rs ts)

  -- invariants of rows
  pub All-update_rows {κ} :
      (P : R → Type κ) (p : R → Bool) (f : R → R) (rs : List R)
      → ((r : R) → p r ≡ true → P r → P (f r))
      → All P rs
      → All P (update_rows p f rs)
  All-update_rows P p f [] keep h = tt
  All-update_rows P p f (r ∷ rs) keep h = elim (Bool-cases (p r)) [
    | inl e ↦ (rw e (keep r e h.0), All-update_rows P p f rs keep h.1)
    | inr e ↦ (rw e h.0, All-update_rows P p f rs keep h.1)
  ]

  pub All-delete_rows {κ} :
      (P : R → Type κ) (p : R → Bool) (rs : List R) → All P rs → All P (delete_rows p rs)
  All-delete_rows P p [] h = tt
  All-delete_rows P p (r ∷ rs) h = elim (Bool-cases (p r)) [
    | inl e ↦ rw e (All-delete_rows P p rs h.1)
    | inr e ↦ rw e (h.0, All-delete_rows P p rs h.1)
  ]

  pub All-upsert_row {κ} :
      (P : R → Type κ) (p : R → Bool) (f : R → R) (x : R) (rs : List R)
      → ((r : R) → p r ≡ true → P r → P (f r))
      → P x
      → All P rs
      → All P (upsert_row p f x rs)
  All-upsert_row P p f x rs keep new h = elim (Bool-cases (has_row p rs)) [
    | inl e ↦ rw e (All-update_rows P p f rs keep h)
    | inr e ↦ rw e (All-append P rs (x ∷ []) h (new, tt))
  ]

  pub All-insert_row {κ} :
      (P : R → Type κ) (p : R → Bool) (x : R) (rs : List R)
      → P x
      → All P rs
      → All P (insert_row p x rs)
  All-insert_row P p x rs new h = elim (Bool-cases (has_row p rs)) [
    | inl e ↦ rw e h
    | inr e ↦ rw e (All-append P rs (x ∷ []) h (new, tt))
  ]

  pub All-find_row {κ} :
      (P : R → Type κ) (p : R → Bool) (rs : List R) {r : R}
      → All P rs
      → find_row p rs ≡ some r
      → P r
  All-find_row P p [] h e = absurd (ground arith)
  All-find_row P p (x ∷ rs) {r} h e = elim (Bool-cases (p x)) [
    | inl t ↦ let q : x ≡ r = ground arith in rw q at h.0
    | inr t ↦ All-find_row P p rs h.1 (ground arith)
  ]

  -- a lookup under a key that the update keeps sees the row updated, if the update reaches it
  pub find_row-update_rows_if :
      (p q : R → Bool) (f : R → R) (rs : List R)
      → ((r : R) → p (if q r then f r else r) ≡ p r)
      → find_row p (update_rows q f rs) ≡ Option.map (λ r. if q r then f r else r) (find_row p rs)
  find_row-update_rows_if p q f [] keep = refl
  find_row-update_rows_if p q f (r ∷ rs) keep =
      ground (arith, keep r, find_row-update_rows_if p q f rs keep)

  pub find_row-delete_rows_ne :
      (p q : R → Bool) (rs : List R)
      → ((r : R) → p r ≡ true → q r ≡ false)
      → find_row p (delete_rows q rs) ≡ find_row p rs
  find_row-delete_rows_ne p q [] apart = refl
  find_row-delete_rows_ne p q (r ∷ rs) apart =
      ground (arith, apart r, find_row-delete_rows_ne p q rs apart)

  -- an insert never hides a row that is there
  pub find_row-insert_row :
      (p q : R → Bool) (x : R) (rs : List R) {r : R}
      → find_row p rs ≡ some r
      → find_row p (insert_row q x rs) ≡ some r
  find_row-insert_row p q x rs {r} h =
      ground (arith, find_row-append p rs (x ∷ []), find_row-has_row p rs {r = r})

  -- what an UPDATE, an upsert and an INSERT of other rows leave of a selection
  pub select_rows-update_rows_ne :
      (p q : R → Bool) (f : R → R) (rs : List R)
      → ((r : R) → q r ≡ true → p r ≡ false)
      → ((r : R) → q (f r) ≡ q r)
      → select_rows q (update_rows p f rs) ≡ select_rows q rs
  select_rows-update_rows_ne p q f [] apart keep = refl
  select_rows-update_rows_ne p q f (r ∷ rs) apart keep =
      ground (arith, apart r, keep r, select_rows-update_rows_ne p q f rs apart keep)

  pub select_rows-append_ne :
      (q : R → Bool) (x : R) (rs : List R)
      → q x ≡ false
      → select_rows q (rs ++ x ∷ []) ≡ select_rows q rs
  select_rows-append_ne q x [] h = rw h
  select_rows-append_ne q x (r ∷ rs) h = ground (arith, select_rows-append_ne q x rs h)

  pub select_rows-upsert_row_ne :
      (p q : R → Bool) (f : R → R) (x : R) (rs : List R)
      → ((r : R) → q r ≡ true → p r ≡ false)
      → ((r : R) → q (f r) ≡ q r)
      → q x ≡ false
      → select_rows q (upsert_row p f x rs) ≡ select_rows q rs
  select_rows-upsert_row_ne p q f x rs apart keep h =
      ground (arith, select_rows-update_rows_ne p q f rs apart keep, select_rows-append_ne q x rs h)

  pub select_rows-insert_row_ne :
      (p q : R → Bool) (x : R) (rs : List R)
      → q x ≡ false
      → select_rows q (insert_row p x rs) ≡ select_rows q rs
  select_rows-insert_row_ne p q x rs h = ground (arith, select_rows-append_ne q x rs h)

  -- an INSERT or an upsert puts a row there, and hides none
  pub has_row-insert_row :
      (p : R → Bool) (x : R) (rs : List R) → p x ≡ true → has_row p (insert_row p x rs) ≡ true
  has_row-insert_row p x rs h = ground (arith, has_row-append p rs (x ∷ []))

  pub has_row-insert_row_mono :
      (p q : R → Bool) (x : R) (rs : List R)
      → has_row p rs ≡ true
      → has_row p (insert_row q x rs) ≡ true
  has_row-insert_row_mono p q x rs h = ground (arith, has_row-append p rs (x ∷ []))

  pub has_row-delete_rows : (p : R → Bool) (rs : List R) → has_row p (delete_rows p rs) ≡ false
  has_row-delete_rows p [] = refl
  has_row-delete_rows p (r ∷ rs) = ground (arith, has_row-delete_rows p rs)

  find_row_or_none :
      (q : R → Bool) (rs : List R) → (if has_row q rs then find_row q rs else none) ≡ find_row q rs
  find_row_or_none q rs = ground (arith, has_row-find_row q rs)

  pub All-select_rows {κ} :
      (P : R → Type κ) (p : R → Bool) (rs : List R) → All P rs → All P (select_rows p rs)
  All-select_rows P p [] h = tt
  All-select_rows P p (r ∷ rs) h = elim (Bool-cases (p r)) [
    | inl e ↦ rw e (h.0, All-select_rows P p rs h.1)
    | inr e ↦ rw e (All-select_rows P p rs h.1)
  ]

  pub find_row-upsert_row_ne :
      (p q : R → Bool) (f : R → R) (x : R) (rs : List R)
      → ((r : R) → q r ≡ true → p r ≡ false)
      → ((r : R) → q (f r) ≡ q r)
      → q x ≡ false
      → find_row q (upsert_row p f x rs) ≡ find_row q rs
  find_row-upsert_row_ne p q f x rs apart keep other = ground (
    arith,
    find_row-update_rows_ne p q f rs apart keep,
    find_row-append q rs (x ∷ []),
    has_row-find_row q rs,
    find_row_or_none q rs,
  )
