-- ===== src/Api/Misses.antt =====
-- internal/api/api.go: missCache. The entries stand in the order in which Range visits them; times
-- are in nanoseconds.
pub mod Counted
pub mod Bounds
use unified_messaging.Prelude.{
  ℕ, ◌+◌, ◌-◌, ◌*◌, ◌%◌, String, Bool, true, false, Option, none, some, List, [], ◌∷◌, ◌==◌, ltb,
  leb, eqb, if◌then◌else◌, find_row, has_row, delete_rows, upsert_row,
}

pub record Miss : Type 0 where
  pub key : String
  pub expiry : ℕ

-- `n` counts the calls of remember, `count` the live entries.
pub record MissCache : Type 0 where
  pub entries : List Miss
  pub n : ℕ
  pub count : ℕ

abbrev pub no_misses : MissCache
no_misses = record { entries = []; n = 0; count = 0 }

abbrev pub miss_cache_ttl : ℕ
miss_cache_ttl = 60 * 1000000000

abbrev pub miss_sweep_every : ℕ
miss_sweep_every = 1000

abbrev pub miss_cache_max_entries : ℕ
miss_cache_max_entries = 10000

abbrev pub is_miss : String → Miss → Bool
is_miss key e = e.key == key

-- LoadAndDelete, and the count kept in step
unfoldable pub delete : String → MissCache → MissCache
delete key c =
    if has_row (is_miss key) c.entries
    then (let d : MissCache = record c {
      entries = delete_rows (is_miss key) c.entries;
      count = c.count - 1;
    } in
        d)
    else c

abbrev pub sweep_each : ℕ → List Miss → MissCache → MissCache
sweep_each now [] c = c
sweep_each now (e ∷ es) c = sweep_each now es (if ltb e.expiry now then delete e.key c else c)

unfoldable pub sweep : ℕ → MissCache → MissCache
sweep now c = sweep_each now c.entries c

abbrev pub evict_each : List Miss → MissCache → MissCache
evict_each [] c = c
evict_each (e ∷ es) c =
    let rest = evict_each es (delete e.key c) in
    if leb c.count miss_cache_max_entries then c else rest

unfoldable pub evict_excess : MissCache → MissCache
evict_excess c = evict_each c.entries c

abbrev pub trim_with : ℕ → MissCache → MissCache
trim_with now c =
    let swept = sweep now c in
    if ltb miss_cache_max_entries c.count
    then (if ltb miss_cache_max_entries swept.count then evict_excess swept else swept)
    else c

abbrev pub swapped : ℕ → String → MissCache → MissCache
swapped now key c =
    let e : Miss = record { key = key; expiry = now + miss_cache_ttl } in
    record c {
      entries = upsert_row (is_miss key) (λ old. record old { expiry = e.expiry }) e c.entries;
      n = c.n + 1;
      count = if has_row (is_miss key) c.entries then c.count else c.count + 1;
    }

unfoldable pub remember : ℕ → String → MissCache → MissCache
remember now key c =
    let kept = swapped now key c in
    let pruned = if eqb (kept.n % miss_sweep_every) 0 then sweep now kept else kept in
    trim_with now pruned

abbrev pub hit_row : ℕ → String → MissCache → Option Miss → MissCache × Bool
hit_row now key c none = (c, false)
hit_row now key c (some e) = if ltb e.expiry now then (delete key c, false) else (c, true)

unfoldable pub hit : ℕ → String → MissCache → MissCache × Bool
hit now key c = hit_row now key c (find_row (is_miss key) c.entries)
