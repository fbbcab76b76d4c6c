-- ===== src/Prelude/Trim.antt =====
-- strings.TrimSpace and strings.ToLower of Go, and what comes of applying them twice. The case
-- table of Unicode is a parameter.
use Prim.Native.Char.{Char, code}
use Prim.Native.String.{String, [], ◌∷◌}
use mathlib.Core.Path.{◌≡◌, refl, ap}
use mathlib.Core.Logic.{inl, inr}
use mathlib.Core.Bool.{Bool, false, ◌&&◌, ◌||◌}
use unified_messaging.Prelude.Tests.{if◌then◌else◌, Bool-cases, leb, eqb}

-- unicode.IsSpace
unfoldable pub is_space : Char → Bool
is_space c =
    (leb 9 (code c) && leb (code c) 13)
    || eqb (code c) 32
    || eqb (code c) 133
    || eqb (code c) 160
    || eqb (code c) 5760
    || (leb 8192 (code c) && leb (code c) 8202)
    || eqb (code c) 8232
    || eqb (code c) 8233
    || eqb (code c) 8239
    || eqb (code c) 8287
    || eqb (code c) 12288

unfoldable pub trim_left : String → String
trim_left [] = []
trim_left (c ∷ s) = if is_space c then trim_left s else c ∷ s

abbrev cons_unless_blank : Char → String → String
cons_unless_blank c [] = if is_space c then [] else c ∷ []
cons_unless_blank c (d ∷ s) = c ∷ d ∷ s

unfoldable pub trim_right : String → String
trim_right [] = []
trim_right (c ∷ s) = cons_unless_blank c (trim_right s)

unfoldable pub trim_space : String → String
trim_space s = trim_right (trim_left s)

unfoldable pub to_lower : (Char → Char) → String → String
to_lower lower [] = []
to_lower lower (c ∷ s) = lower c ∷ to_lower lower s

trim_right-cons :
    (c : Char) (s : String)
    → trim_right s ≡ s
    → trim_right (cons_unless_blank c s) ≡ cons_unless_blank c s
unfolding trim_right
trim_right-cons c [] h = elim (Bool-cases (is_space c)) [
  | inl e ↦ rw e refl
  | inr e ↦ rw (e, e) refl
]
trim_right-cons c (d ∷ s) h = ap (cons_unless_blank c) h

trim_right_idem : (s : String) → trim_right (trim_right s) ≡ trim_right s
unfolding trim_right
trim_right_idem [] = refl
trim_right_idem (c ∷ s) = trim_right-cons c (trim_right s) (trim_right_idem s)

trim_left_idem : (s : String) → trim_left (trim_left s) ≡ trim_left s
unfolding trim_left
trim_left_idem [] = refl
trim_left_idem (c ∷ s) = elim (Bool-cases (is_space c)) [
  | inl e ↦ rw (e, trim_left_idem s)
  | inr e ↦ rw (e, trim_left, e) refl
]

-- what is left of a text that begins with no blank begins with none
cons-trim_left :
    (c : Char) (s : String)
    → is_space c ≡ false
    → trim_left (cons_unless_blank c s) ≡ cons_unless_blank c s
unfolding trim_left
cons-trim_left c [] h = rw (h, trim_left, h) refl
cons-trim_left c (d ∷ s) h = rw (h) refl

trim_left-trim_right :
    (s : String) → trim_left (trim_right (trim_left s)) ≡ trim_right (trim_left s)
unfolding trim_left trim_right
trim_left-trim_right [] = refl
trim_left-trim_right (c ∷ s) = elim (Bool-cases (is_space c)) [
  | inl e ↦ rw (e, trim_left-trim_right s)
  | inr e ↦ rw (e, cons-trim_left c (trim_right s) e) refl
]

pub trim_space_idem : (s : String) → trim_space (trim_space s) ≡ trim_space s
unfolding trim_space
trim_space_idem s = rw (trim_left-trim_right s, trim_right_idem (trim_left s)) refl

-- A case table that neither makes nor unmakes blanks and that changes nothing twice.
pub record IsCaseTable (lower : Char → Char) : Type 0 where
  pub twice : (c : Char) → lower (lower c) ≡ lower c
  pub blank : (c : Char) → is_space (lower c) ≡ is_space c

module _ (lower : Char → Char) (table : IsCaseTable lower) where
  to_lower-trim_left : (s : String) → trim_left (to_lower lower s) ≡ to_lower lower (trim_left s)
  unfolding trim_left to_lower
  to_lower-trim_left [] = refl
  to_lower-trim_left (c ∷ s) = elim (Bool-cases (is_space c)) [
    | inl e ↦ rw (table.blank c, e, to_lower-trim_left s)
    | inr e ↦ rw (table.blank c, e) refl
  ]

  to_lower-cons_unless_blank :
      (c : Char) (s : String)
      → cons_unless_blank (lower c) (to_lower lower s) ≡ to_lower lower (cons_unless_blank c s)
  unfolding to_lower
  to_lower-cons_unless_blank c [] = elim (Bool-cases (is_space c)) [
    | inl e ↦ rw (table.blank c, e) refl
    | inr e ↦ rw (table.blank c, e) refl
  ]
  to_lower-cons_unless_blank c (d ∷ s) = refl

  to_lower-trim_right : (s : String) → trim_right (to_lower lower s) ≡ to_lower lower (trim_right s)
  unfolding trim_right to_lower
  to_lower-trim_right [] = refl
  to_lower-trim_right (c ∷ s) =
      rw (to_lower-trim_right s, to_lower-cons_unless_blank c (trim_right s)) refl

  to_lower_idem : (s : String) → to_lower lower (to_lower lower s) ≡ to_lower lower s
  unfolding to_lower
  to_lower_idem [] = refl
  to_lower_idem (c ∷ s) = rw (table.twice c, to_lower_idem s) refl

  to_lower-trim_space : (s : String) → trim_space (to_lower lower s) ≡ to_lower lower (trim_space s)
  unfolding trim_space
  to_lower-trim_space s = rw (to_lower-trim_left s, to_lower-trim_right (trim_left s)) refl

  -- the form in which an address is stored and looked up
  pub lower_trimmed_idem :
      (s : String)
      → to_lower lower (trim_space (to_lower lower (trim_space s))) ≡ to_lower lower (trim_space s)
  lower_trimmed_idem s =
      rw (to_lower-trim_space (trim_space s), trim_space_idem s, to_lower_idem (trim_space s)) refl
