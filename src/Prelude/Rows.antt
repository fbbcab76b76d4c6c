-- ===== src/Prelude/Rows.antt =====
-- What holds of every row: rows that are not there, and the only row under a key.
use Prim.Native.Nat.{◌≤◌}
use mathlib.Core.Path.{◌≡◌, refl}
use mathlib.Core.Logic.{inl, inr}
use mathlib.Core.Bool.{Bool, true, false, ◌&&◌}
use mathlib.Core.List.{List, [], ◌∷◌}
use mathlib.Core.Option.{none, some}
use native.Mathlib.Omega.{arith}
use unified_messaging.Prelude.Tests.{Bool-cases}
use unified_messaging.Prelude.Lists.{All, All-map}
use unified_messaging.Prelude.Tables.{find_row, has_row, count_rows}

module _ {ℓ} {R : Type ℓ} where
  pub has_row-All : (p : R → Bool) (rs : List R) → has_row p rs ≡ false → All (λ r. p r ≡ false) rs
  has_row-All p [] h = tt
  has_row-All p (r ∷ rs) h = (ground arith, has_row-All p rs (ground arith))

  pub All-has_row : (p : R → Bool) (rs : List R) → All (λ r. p r ≡ false) rs → has_row p rs ≡ false
  All-has_row p [] h = refl
  All-has_row p (r ∷ rs) h = rw (h.0, All-has_row p rs h.1)

  pub count_rows-All :
      (p : R → Bool) (rs : List R) → count_rows p rs ≡ 0 → All (λ r. p r ≡ false) rs
  count_rows-All p [] h = tt
  count_rows-All p (r ∷ rs) h = (ground arith, count_rows-All p rs (ground arith))

  pub find_row-none :
      (p q : R → Bool) (rs : List R)
      → All (λ r. p r ≡ false) rs
      → find_row (λ r. p r && q r) rs ≡ none
  find_row-none p q [] h = refl
  find_row-none p q (r ∷ rs) h = rw (h.0, find_row-none p q rs h.1)

  -- the row under a key that at most one row has
  pub sole_row :
      (p q : R → Bool) (rs : List R) {k : R}
      → count_rows p rs ≤ 1
      → find_row (λ r. p r && q r) rs ≡ some k
      → All (λ r. p r ≡ true → r ≡ k) rs
  sole_row p q [] one h = tt
  sole_row p q (r ∷ rs) {k} one h = elim (Bool-cases (p r)) [
    | inr e ↦ (λ t. absurd (ground arith), sole_row p q rs (ground arith) (ground arith))
    | inl e ↦
        let others = count_rows-All p rs (ground arith) in
        elim (Bool-cases (q r)) [
          | inl f ↦ (λ t. ground arith, All-map rs (λ x u t. absurd (ground arith)) others)
          | inr f ↦ absurd (ground (arith, find_row-none p q rs others))
        ]
  ]
