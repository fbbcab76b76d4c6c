-- ===== src/Api/Misses/Counted.antt =====
-- The entries of the cache of misses and their count.
use unified_messaging.Prelude.{
  ℕ, ◌+◌, ◌≡◌, refl, inl, inr, String, true, false, List, [], ◌∷◌, ◌++◌, ◌==◌, ltb, arith,
  Bool-cases, eq_iff, length, length-append, has_row, delete_rows, update_rows, has_row-update_rows,
  has_row-append, if◌then◌else◌,
}
use unified_messaging.Api.Misses.{
  Miss, MissCache, is_miss, delete, sweep_each, sweep, swapped, miss_cache_ttl,
}

-- no key has two entries
abbrev pub IsUnique : List Miss → Type 0
IsUnique [] = Unit
IsUnique (e ∷ es) = (has_row (is_miss e.key) es ≡ false) × IsUnique es

-- the count is that of the entries
abbrev pub IsCounted : MissCache → Type 0
IsCounted c = IsUnique c.entries × (c.count ≡ length c.entries)

pub delete_none :
    (key : String) (es : List Miss)
    → has_row (is_miss key) es ≡ false
    → delete_rows (is_miss key) es ≡ es
delete_none key [] h = refl
delete_none key (e ∷ es) h = ground (arith, delete_none key es)

deleted_free :
    (key k : String) (es : List Miss)
    → has_row (is_miss k) es ≡ false
    → has_row (is_miss k) (delete_rows (is_miss key) es) ≡ false
deleted_free key k [] h = refl
deleted_free key k (e ∷ es) h = ground (arith, deleted_free key k es)

delete_rows-IsUnique :
    (key : String) (es : List Miss) → IsUnique es → IsUnique (delete_rows (is_miss key) es)
delete_rows-IsUnique key [] u = tt
delete_rows-IsUnique key (e ∷ es) u = elim (Bool-cases (e.key == key)) [
  | inl t ↦ rw t (delete_rows-IsUnique key es u.1)
  | inr t ↦ rw t (deleted_free key e.key es u.0, delete_rows-IsUnique key es u.1)
]

delete_one :
    (key : String) (es : List Miss)
    → IsUnique es
    → has_row (is_miss key) es ≡ true
    → length es ≡ length (delete_rows (is_miss key) es) + 1
delete_one key [] u h = absurd (ground arith)
delete_one key (e ∷ es) u h = elim (Bool-cases (e.key == key)) [
  | inl t ↦
      let same : e.key ≡ key = (eq_iff e.key key).0 t in
      let none_left = delete_none key es (rw same at u.0) in ground (arith, none_left)
  | inr t ↦ ground (arith, delete_one key es u.1)
]

pub delete-IsCounted : (key : String) (c : MissCache) → IsCounted c → IsCounted (delete key c)
unfolding delete
delete-IsCounted key c (u, n) = elim (Bool-cases (has_row (is_miss key) c.entries)) [
  | inl t ↦
      rw t (delete_rows-IsUnique key c.entries u, ground (arith, delete_one key c.entries u t))
  | inr t ↦ rw t (u, n)
]

expire-IsCounted :
    (now : ℕ) (e : Miss) (c : MissCache)
    → IsCounted c
    → IsCounted (if ltb e.expiry now then delete e.key c else c)
expire-IsCounted now e c h = elim (Bool-cases (ltb e.expiry now)) [
  | inl t ↦ rw t (delete-IsCounted e.key c h)
  | inr t ↦ rw t h
]

sweep_each-IsCounted :
    (now : ℕ) (es : List Miss) (c : MissCache) → IsCounted c → IsCounted (sweep_each now es c)
sweep_each-IsCounted now [] c h = h
sweep_each-IsCounted now (e ∷ es) c h =
    sweep_each-IsCounted now es (if ltb e.expiry now then delete e.key c else c)
      (expire-IsCounted now e c h)

pub sweep-IsCounted : (now : ℕ) (c : MissCache) → IsCounted c → IsCounted (sweep now c)
unfolding sweep
sweep-IsCounted now c h = sweep_each-IsCounted now c.entries c h

update_rows-IsUnique :
    (key : String) (at : ℕ) (es : List Miss)
    → IsUnique es
    → IsUnique (update_rows (is_miss key) (λ old. record old { expiry = at }) es)
      × length (update_rows (is_miss key) (λ old. record old { expiry = at }) es) ≡ length es
update_rows-IsUnique key at [] u = (tt, refl)
update_rows-IsUnique key at (e ∷ es) u =
    let rest = update_rows-IsUnique key at es u.1 in
    let same =
      has_row-update_rows (is_miss key) (is_miss e.key) (λ old. record old { expiry = at }) es
        (λ r. refl) in
    elim (Bool-cases (e.key == key)) [
      | inl t ↦ rw (t, same) ((u.0, rest.0), ground (arith, rest.1))
      | inr t ↦ rw (t, same) ((u.0, rest.0), ground (arith, rest.1))
    ]

append-IsUnique :
    (x : Miss) (es : List Miss)
    → has_row (is_miss x.key) es ≡ false
    → IsUnique es
    → IsUnique (es ++ x ∷ [])
append-IsUnique x [] h u = (refl, tt)
append-IsUnique x (e ∷ es) h u = (
  ground (
    arith,
    u.0,
    h,
    has_row-append (is_miss e.key) es (x ∷ []),
    eq_iff x.key e.key,
    eq_iff e.key x.key,
  ),
  append-IsUnique x es (ground (arith, h)) u.1,
)

pub swapped-IsCounted :
    (now : ℕ) (key : String) (c : MissCache) → IsCounted c → IsCounted (swapped now key c)
swapped-IsCounted now key c (u, n) =
    let x : Miss = record { key = key; expiry = now + miss_cache_ttl } in
    elim (Bool-cases (has_row (is_miss key) c.entries)) [
      | inl t ↦
          let changed = update_rows-IsUnique key (now + miss_cache_ttl) c.entries u in
          rw t (changed.0, ground (arith, changed.1, n))
      | inr t ↦
          rw t
            (append-IsUnique x c.entries t u, ground (arith, n, length-append c.entries (x ∷ [])))
    ]
