-- ===== src/Chatsync/Backoff/Waits.antt =====
-- The bounds of the reconnect waits, one by one and up to the last attempt.
use unified_messaging.Prelude.{
  ap, ◌∙◌, ℕ, zero, suc, ◌+◌, ◌*◌, ◌≤◌, ◌<◌, ◌≡◌, min, List, [], ◌∷◌, arith, ℤ, pos, negsuc, All,
  length,
}
use unified_messaging.Chatsync.Backoff.{
  second, max_failures, max_backoff, draws, base, jitter, next,
}

scaled-le : (u d : ℕ) → u < draws → d * u ≤ d * draws
scaled-le u d h = grind arith

jitter_bounds : (u d : ℕ) → u < draws → (4 * d ≤ 5 * jitter u d + 4) × (5 * jitter u d ≤ 6 * d)
unfolding jitter
jitter_bounds u d h = omega (arith, scaled-le u d h)

-- From the ninth attempt on the wait before the jitter is the ceiling.
base_far : (n : ℕ) → 9 ≤ n → base (pos n) ≡ max_backoff
unfolding base
base_far n h = let e : min n 9 ≡ 9 = omega arith in rw e

base_bounds : (n : ℕ) → (second ≤ base (pos n)) × (base (pos n) ≤ max_backoff)
unfolding base
base_bounds zero = omega arith
base_bounds (suc (zero)) = omega arith
base_bounds (suc (suc (zero))) = omega arith
base_bounds (suc (suc (suc (zero)))) = omega arith
base_bounds (suc (suc (suc (suc (zero))))) = omega arith
base_bounds (suc (suc (suc (suc (suc (zero)))))) = omega arith
base_bounds (suc (suc (suc (suc (suc (suc (zero))))))) = omega arith
base_bounds (suc (suc (suc (suc (suc (suc (suc (zero)))))))) = omega arith
base_bounds (suc (suc (suc (suc (suc (suc (suc (suc (zero))))))))) = omega arith
base_bounds (suc (suc (suc (suc (suc (suc (suc (suc (suc (n)))))))))) =
    let e = base_far (suc (suc (suc (suc (suc (suc (suc (suc (suc (n)))))))))) (omega arith) in
    (omega (arith, e), omega (arith, e))

base_bounds_any : (attempt : ℤ) → (second ≤ base attempt) × (base attempt ≤ max_backoff)
unfolding base
base_bounds_any (pos n) = base_bounds n
base_bounds_any (negsuc n) = omega arith

next_within :
    (u : ℕ) (attempt : ℤ)
    → u < draws
    → (4 * base attempt ≤ 5 * next u attempt + 4)
      × (5 * next u attempt ≤ 6 * base attempt)
      × (next u attempt ≤ max_backoff)
unfolding next
next_within u attempt h =
    let j = jitter_bounds u (base attempt) h in
    let b = base_bounds_any attempt in ground (arith, j, b)

-- Every wait is at least 0.8 of the doubled and capped interval of its attempt (to a nanosecond),
-- at most 1.2 of it, never above the five minutes of the ceiling, and never below 0.8 seconds;
-- from the ninth attempt on it is at least four minutes.
pub next_bounds :
    (u : ℕ) (attempt : ℤ)
    → u < draws
    → (4 * base attempt ≤ 5 * next u attempt + 4)
      × (5 * next u attempt ≤ 6 * base attempt)
      × (next u attempt ≤ max_backoff)
      × (4 * second ≤ 5 * next u attempt + 4)
      × ((n : ℕ) → attempt ≡ pos n → 9 ≤ n → 240 * second ≤ next u attempt)
next_bounds u attempt h =
    let w = next_within u attempt h in
    let b = base_bounds_any attempt in
    (w.0, w.1, w.2, omega (arith, w, b), λ n e far. far_wait n e far)
  where
    far_wait : (n : ℕ) → attempt ≡ pos n → 9 ≤ n → 240 * second ≤ next u attempt
    far_wait n e far =
        let top : base attempt ≡ max_backoff = ap base e ∙ base_far n far in
        omega (arith, next_within u attempt h, top)

-- The waits of consecutive attempts from attempt k on, one draw for each.
unfoldable pub total_wait : ℕ → List ℕ → ℕ
total_wait k [] = 0
total_wait k (u ∷ us) = next u (pos k) + total_wait (suc k) us

abbrev pub AreDraws : List ℕ → Type 0
AreDraws us = All (λ u. u < draws) us

total_wait-le : (k : ℕ) (us : List ℕ) → AreDraws us → total_wait k us ≤ length us * max_backoff
unfolding total_wait
total_wait-le k [] h = omega arith
total_wait-le k (u ∷ us) h = omega (arith, next_within u (pos k) h.0, total_wait-le (suc k) us h.1)

total_wait-step :
    (k u : ℕ) (us : List ℕ)
    → u < draws
    → (5 * total_wait k (u ∷ us) ≤ 6 * base (pos k) + 5 * total_wait (suc k) us)
      × (total_wait k (u ∷ us) ≤ max_backoff + total_wait (suc k) us)
unfolding total_wait
total_wait-step k u us h = let w = next_within u (pos k) h in omega (arith, w)

-- The 29 waits between 30 attempts that fail one after the other, whatever is drawn for them, add up
-- to at most 6606 seconds: an hour, fifty minutes and six seconds.
pub total_wait-give_up :
    (us : List ℕ) → AreDraws us → length us + 1 ≡ max_failures → total_wait 0 us ≤ 6606 * second
unfolding base
total_wait-give_up (a ∷ b ∷ c ∷ d ∷ e ∷ f ∷ g ∷ h ∷ i ∷ us) all len = omega (
  arith,
  total_wait-step 0 a (b ∷ c ∷ d ∷ e ∷ f ∷ g ∷ h ∷ i ∷ us) all.0,
  total_wait-step 1 b (c ∷ d ∷ e ∷ f ∷ g ∷ h ∷ i ∷ us) all.1.0,
  total_wait-step 2 c (d ∷ e ∷ f ∷ g ∷ h ∷ i ∷ us) all.1.1.0,
  total_wait-step 3 d (e ∷ f ∷ g ∷ h ∷ i ∷ us) all.1.1.1.0,
  total_wait-step 4 e (f ∷ g ∷ h ∷ i ∷ us) all.1.1.1.1.0,
  total_wait-step 5 f (g ∷ h ∷ i ∷ us) all.1.1.1.1.1.0,
  total_wait-step 6 g (h ∷ i ∷ us) all.1.1.1.1.1.1.0,
  total_wait-step 7 h (i ∷ us) all.1.1.1.1.1.1.1.0,
  total_wait-step 8 i (us) all.1.1.1.1.1.1.1.1.0,
  total_wait-le 9 us all.1.1.1.1.1.1.1.1.1,
)
total_wait-give_up us all len = absurd (omega arith)
