-- ===== src/Api/Misses/Bounds.antt =====
-- The size of the cache of misses.
use unified_messaging.Prelude.{
  ℕ, ◌%◌, ◌≡◌, ◌≤◌, refl, inl, inr, String, Option, none, some, List, [], ◌∷◌, eqb, leb, ltb, arith,
  Bool-cases, str_eq_refl, find_row,
}
use unified_messaging.Api.Misses.{
  Miss, MissCache, is_miss, delete, sweep, evict_each, evict_excess, swapped, trim_with, remember,
  hit_row, hit, miss_cache_max_entries, miss_sweep_every,
}
use unified_messaging.Api.Misses.Counted.{
  IsUnique, IsCounted, delete_none, delete-IsCounted, sweep-IsCounted, swapped-IsCounted,
}

head_gone :
    (x : Miss) (es : List Miss) (c : MissCache)
    → IsUnique c.entries
    → c.entries ≡ x ∷ es
    → (delete x.key c).entries ≡ es
unfolding delete
head_gone x es c u e =
    let alone : IsUnique (x ∷ es) = rw e at u in
    rw (e, str_eq_refl x.key) (delete_none x.key es alone.0)

-- an eviction that visits every entry leaves no more than the cache may hold
evict_each-bounds :
    (es : List Miss) (c : MissCache)
    → IsCounted c
    → c.entries ≡ es
    → IsCounted (evict_each es c) × ((evict_each es c).count ≤ miss_cache_max_entries)
evict_each-bounds [] c h e = (h, ground (arith, h.1, e))
evict_each-bounds (x ∷ es) c h e = elim (Bool-cases (leb c.count miss_cache_max_entries)) [
  | inl t ↦ rw t (h, ground arith)
  | inr t ↦
      rw t (
        evict_each-bounds es (delete x.key c) (delete-IsCounted x.key c h) (head_gone x es c h.0 e))
]

evict_excess-bounds :
    (c : MissCache)
    → IsCounted c
    → IsCounted (evict_excess c) × ((evict_excess c).count ≤ miss_cache_max_entries)
unfolding evict_excess
evict_excess-bounds c h = evict_each-bounds c.entries c h refl

trim_with-bounds :
    (now : ℕ) (c : MissCache)
    → IsCounted c
    → IsCounted (trim_with now c) × ((trim_with now c).count ≤ miss_cache_max_entries)
trim_with-bounds now c h = elim (Bool-cases (ltb miss_cache_max_entries c.count)) [
  | inr t ↦ rw t (h, ground arith)
  | inl t ↦
      let swept = sweep-IsCounted now c h in
      elim (Bool-cases (ltb miss_cache_max_entries (sweep now c).count)) [
        | inl o ↦ rw (t, o) (evict_excess-bounds (sweep now c) swept)
        | inr o ↦ rw (t, o) (swept, ground arith)
      ]
]

remember-bounds :
    (now : ℕ) (key : String) (c : MissCache)
    → IsCounted c
    → IsCounted (remember now key c) × ((remember now key c).count ≤ miss_cache_max_entries)
unfolding remember
remember-bounds now key c h =
    let kept = swapped now key c in
    let counted = swapped-IsCounted now key c h in
    elim (Bool-cases (eqb (kept.n % miss_sweep_every) 0)) [
      | inl t ↦ rw t (trim_with-bounds now (sweep now kept) (sweep-IsCounted now kept counted))
      | inr t ↦ rw t (trim_with-bounds now kept counted)
    ]

-- What the handlers do with the cache.
pub data MissOp : Type 0 where
  ask_op : ℕ → String → MissOp
  remember_op : ℕ → String → MissOp

abbrev run_miss_op : MissOp → MissCache → MissCache
run_miss_op (ask_op now key) c = (hit now key c).0
run_miss_op (remember_op now key) c = remember now key c

abbrev pub run_miss_ops : List MissOp → MissCache → MissCache
run_miss_ops [] c = c
run_miss_ops (op ∷ ops) c = run_miss_ops ops (run_miss_op op c)

-- Every key has one entry, the count is that of the entries, and there are not too many.
abbrev pub IsWithin : MissCache → Type 0
IsWithin c = IsCounted c × (c.count ≤ miss_cache_max_entries)

delete_shrinks : (key : String) (c : MissCache) → (delete key c).count ≤ c.count
unfolding delete
delete_shrinks key c = ground arith

hit_row-IsWithin :
    (now : ℕ) (key : String) (c : MissCache) (found : Option Miss)
    → IsWithin c
    → IsWithin (hit_row now key c found).0
hit_row-IsWithin now key c none h = h
hit_row-IsWithin now key c (some e) (h, b) = elim (Bool-cases (ltb e.expiry now)) [
  | inl t ↦ rw t (delete-IsCounted key c h, ground (arith, delete_shrinks key c, b))
  | inr t ↦ rw t (h, b)
]

run_miss_op-IsWithin : (op : MissOp) (c : MissCache) → IsWithin c → IsWithin (run_miss_op op c)
unfolding hit
run_miss_op-IsWithin (ask_op now key) c h =
    hit_row-IsWithin now key c (find_row (is_miss key) c.entries) h
run_miss_op-IsWithin (remember_op now key) c h = remember-bounds now key c h.0

-- Over any sequence of questions and misses, at whatever times, no key has two entries in the cache,
-- its counter says how many entries it has, and it has at most 10000 of them. The cache that the
-- sequence begins with is one of that kind, such as the empty one.
pub run_miss_ops-IsWithin :
    (ops : List MissOp) (c : MissCache) → IsWithin c → IsWithin (run_miss_ops ops c)
run_miss_ops-IsWithin [] c h = h
run_miss_ops-IsWithin (op ∷ ops) c h =
    run_miss_ops-IsWithin ops (run_miss_op op c) (run_miss_op-IsWithin op c h)
