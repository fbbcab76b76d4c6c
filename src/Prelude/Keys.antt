-- ===== src/Prelude/Keys.antt =====
-- How many rows a statement leaves under a key, and rows found under another key.
use Prim.Native.Nat.{◌+◌, ◌≤◌}
use mathlib.Core.Path.{◌≡◌, refl, ap}
use mathlib.Core.Logic.{inl, inr}
use mathlib.Core.Bool.{Bool, true, false}
use mathlib.Core.List.{List, [], ◌∷◌, ◌++◌}
use mathlib.Core.Option.{some}
use native.Mathlib.Omega.{arith}
use unified_messaging.Prelude.Tests.{if◌then◌else◌, Bool-cases}
use unified_messaging.Prelude.Tables.{
  find_row, has_row, count_rows, update_rows, delete_rows, upsert_row,
}

module _ {ℓ} {R : Type ℓ} where
  -- a key that at most one row has
  pub count_rows-update_rows :
      (p q : R → Bool) (f : R → R) (rs : List R)
      → ((r : R) → q r ≡ true → p (f r) ≡ p r)
      → count_rows p (update_rows q f rs) ≡ count_rows p rs
  count_rows-update_rows p q f [] keep = refl
  count_rows-update_rows p q f (r ∷ rs) keep =
      ground (arith, keep r, count_rows-update_rows p q f rs keep)

  pub count_rows-delete_rows :
      (p q : R → Bool) (rs : List R) → count_rows p (delete_rows q rs) ≤ count_rows p rs
  count_rows-delete_rows p q [] = omega arith
  count_rows-delete_rows p q (r ∷ rs) = ground (arith, count_rows-delete_rows p q rs)

  pub count_rows-append :
      (p : R → Bool) (x : R) (rs : List R)
      → count_rows p (rs ++ x ∷ []) ≡ count_rows p rs + (if p x then 1 else 0)
  count_rows-append p x [] = ground arith
  count_rows-append p x (r ∷ rs) = ground (arith, count_rows-append p x rs)

  pub has_row-count_rows : (p : R → Bool) (rs : List R) → has_row p rs ≡ false → count_rows p rs ≡ 0
  has_row-count_rows p [] h = refl
  has_row-count_rows p (r ∷ rs) h = ground (arith, has_row-count_rows p rs)

  -- an upsert keeps at most one row under a key
  pub count_rows-upsert_row :
      (p q : R → Bool) (f : R → R) (x : R) (rs : List R)
      → ((r : R) → q (f r) ≡ q r)
      → (q x ≡ true → has_row p rs ≡ false → count_rows q rs ≡ 0)
      → count_rows q rs ≤ 1
      → count_rows q (upsert_row p f x rs) ≤ 1
  count_rows-upsert_row p q f x rs keep same h =
      ground
        (arith, same, count_rows-update_rows q p f rs (λ r _. keep r), count_rows-append q x rs)

  pub update_rows-none :
      (p : R → Bool) (f : R → R) (rs : List R) → count_rows p rs ≡ 0 → update_rows p f rs ≡ rs
  update_rows-none p f [] h = refl
  update_rows-none p f (r ∷ rs) h = ground (arith, update_rows-none p f rs)

  pub count_rows-le :
      (p q : R → Bool) (rs : List R)
      → ((r : R) → p r ≡ true → q r ≡ true)
      → count_rows p rs ≤ count_rows q rs
  count_rows-le p q [] h = omega arith
  count_rows-le p q (r ∷ rs) h = ground (arith, h r, count_rows-le p q rs h)

  pub has_row-count_rows_pos :
      (p : R → Bool) (rs : List R) → has_row p rs ≡ true → 1 ≤ count_rows p rs
  has_row-count_rows_pos p [] h = absurd (ground arith)
  has_row-count_rows_pos p (r ∷ rs) h = ground (arith, has_row-count_rows_pos p rs)

  pub find_row-has_row_other :
      (p q : R → Bool) (rs : List R) {r : R}
      → find_row p rs ≡ some r
      → q r ≡ true
      → has_row q rs ≡ true
  find_row-has_row_other p q [] h k = absurd (ground arith)
  find_row-has_row_other p q (x ∷ rs) {r} h k = elim (Bool-cases (p x)) [
    | inl e ↦ let same : x ≡ r = ground arith in ground (arith, ap q same)
    | inr e ↦ ground (arith, find_row-has_row_other p q rs {r = r} (ground arith) k)
  ]
