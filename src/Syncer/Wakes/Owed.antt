-- ===== src/Syncer/Wakes/Owed.antt =====
-- internal/syncer/syncer.go: no request for a sync is lost unseen.
use unified_messaging.Prelude.{
  ℕ, ◌+◌, ◌<◌, ◌≤◌, subst, ◌≡◌, refl, ap, sym, ◌∙◌, ◌⊎◌, inl, inr, String, true, false, not, ◌&&◌,
  Option, none, some, List, [], ◌∷◌, ◌==◌, arith, ltb, eq_iff, str_eq_refl, if_both, Bool-cases,
  count_rows, count_rows-append, has_row, has_row-append, length,
}
use unified_messaging.Syncer.Wakes.{
  WakeState, set_to, enqueue, wake, receive, begin_when, ended_run, end_when, queue_size, WakeStep,
  wake_step, begin_step, end_step, cancel_step, wake_turn, wake_turns,
}
use unified_messaging.Syncer.Wakes.Coherent.{
  is_running, IsCoherent, wake-IsCoherent, ended_run-IsCoherent, begin-IsCoherent, end-IsCoherent,
}

-- how many runs of the account started, and how many requests of it were dropped
abbrev pub served : String → WakeState → ℕ
served acc s = count_rows (λ x. x == acc) s.started + count_rows (λ x. x == acc) s.dropped

-- The request was served since, or waits in the queue, or waits for the end of the run of its
-- account; or the service shuts down.
abbrev pub IsOwed : String → ℕ → WakeState → Type 0
IsOwed acc base s =
    (base < served acc s)
    ⊎ ((has_row (λ x. x == acc) s.queue ≡ true)
        ⊎ (((s.running ≡ some acc) × (s.pending acc ≡ true)) ⊎ (s.cancelled ≡ true)))

enqueue-IsOwed_new : (acc : String) (s : WakeState) → IsOwed acc (served acc s) (enqueue acc s)
enqueue-IsOwed_new acc s =
    if_both (IsOwed acc (served acc s)) (ltb (length s.queue) queue_size)
      (λ u.
        inr (
          inl (ground (arith, has_row-append (λ x. x == acc) s.queue (acc ∷ []), str_eq_refl acc))))
      (λ u. inl (ground (arith, count_rows-append (λ x. x == acc) acc s.dropped, str_eq_refl acc)))

is_running-some : (acc : String) (o : Option String) → is_running acc o ≡ true → o ≡ some acc
is_running-some acc none h = absurd (ground arith)
is_running-some acc (some x) h = ap some ((eq_iff x acc).0 h)

pub wake-IsOwed_new :
    (acc : String) (s : WakeState) → IsCoherent s → IsOwed acc (served acc s) (wake acc s)
unfolding wake
wake-IsOwed_new acc s h =
    if_both (IsOwed acc (served acc s)) (s.inflight acc)
      (λ u. inr (
        inr (
          inl (
            is_running-some acc s.running (sym (h.flying acc) ∙ u),
            ground (arith, str_eq_refl acc),
          ))))
      (λ u. enqueue-IsOwed_new acc s)

enqueue-IsOwed :
    (acc x : String) (base : ℕ) (s : WakeState) → IsOwed acc base s → IsOwed acc base (enqueue x s)
enqueue-IsOwed acc x base s h =
    if_both (IsOwed acc base) (ltb (length s.queue) queue_size)
      (λ u. elim h [
        | inl a ↦ inl a
        | inr (inl b) ↦ inr (inl (ground (arith, has_row-append (λ k. k == acc) s.queue (x ∷ []))))
        | inr (inr c) ↦ inr (inr c)
      ])
      (λ u. elim h [
        | inl a ↦ inl (ground (arith, count_rows-append (λ k. k == acc) x s.dropped))
        | inr b ↦ inr b
      ])

pend-IsOwed :
    (acc x : String) (base : ℕ) (s : WakeState)
    → IsOwed acc base s
    → IsOwed acc base (record s { pending = set_to true x s.pending })
pend-IsOwed acc x base s (inl a) = inl a
pend-IsOwed acc x base s (inr (inl b)) = inr (inl b)
pend-IsOwed acc x base s (inr (inr (inl (c, d)))) = inr (inr (inl (c, ground arith)))
pend-IsOwed acc x base s (inr (inr (inr e))) = inr (inr (inr e))

wake-IsOwed :
    (acc x : String) (base : ℕ) (s : WakeState) → IsOwed acc base s → IsOwed acc base (wake x s)
unfolding wake
wake-IsOwed acc x base s h =
    if_both (IsOwed acc base) (s.inflight x) (λ u. pend-IsOwed acc x base s h)
      (λ u. enqueue-IsOwed acc x base s h)

weaken :
    (acc : String) (low base : ℕ) (s : WakeState)
    → low ≤ base
    → IsOwed acc base s
    → IsOwed acc low s
weaken acc low base s le (inl a) = inl (omega arith)
weaken acc low base s le (inr b) = inr b

receive-IsOwed :
    (acc : String) (base : ℕ) (q : List String) (s : WakeState)
    → IsCoherent s
    → s.running ≡ none
    → s.queue ≡ q
    → base ≤ served acc s
    → IsOwed acc base s
    → IsOwed acc base (receive q s)
receive-IsOwed acc base [] s coherent idle same le h = h
receive-IsOwed acc base (x ∷ rest) s coherent idle same le h =
    let free : s.inflight x ≡ false = coherent.flying x ∙ ap (is_running x) idle in
    let count = count_rows-append (λ k. k == acc) x s.started in
    rw free (elim (Bool-cases (x == acc)) [
      | inl e ↦ inl (ground (arith, count))
      | inr e ↦ elim h [
        | inl a ↦ inl (ground (arith, count))
        | inr (inl b) ↦ inr (inl (ground (arith, ap (has_row (λ k. k == acc)) same)))
        | inr (inr (inl (c, d))) ↦ absurd (ground (arith, c, idle))
        | inr (inr (inr f)) ↦ inr (inr (inr f))
      ]
    ])

ended-IsOwed :
    (acc x : String) (base : ℕ) (s : WakeState)
    → IsCoherent s
    → s.running ≡ some x
    → base ≤ served acc s
    → IsOwed acc base s
    → IsOwed acc base (end_when (some x) s)
ended-IsOwed acc x base s coherent busy le h =
    let ended = ended_run x s in
    let fine = ended_run-IsCoherent x s busy coherent in
    if_both (IsOwed acc base) (s.pending x && not s.cancelled)
      (λ u. elim h [
        | inl a ↦ wake-IsOwed acc x base ended (inl a)
        | inr (inl b) ↦ wake-IsOwed acc x base ended (inr (inl b))
        | inr (inr (inl (c, d))) ↦
            let same : x ≡ acc = ground (arith, busy, c) in
            subst (λ k. IsOwed acc base (wake k ended)) (sym same)
              (weaken acc base (served acc ended) (wake acc ended) le
                (wake-IsOwed_new acc ended fine))
        | inr (inr (inr f)) ↦ wake-IsOwed acc x base ended (inr (inr (inr f)))
      ])
      (λ u. elim h [
        | inl a ↦ inl a
        | inr (inl b) ↦ inr (inl b)
        | inr (inr (inl (c, d))) ↦
            let same : x ≡ acc = ground (arith, busy, c) in
            inr (inr (inr (ground (arith, ap s.pending same, d))))
        | inr (inr (inr f)) ↦ inr (inr (inr f))
      ])

-- how the count of what was served only grows
enqueue-served : (acc x : String) (s : WakeState) → served acc s ≤ served acc (enqueue x s)
enqueue-served acc x s =
    if_both (λ t. served acc s ≤ served acc t) (ltb (length s.queue) queue_size) (λ u. omega arith)
      (λ u. ground (arith, count_rows-append (λ k. k == acc) x s.dropped))

pub wake-served_le : (acc x : String) (s : WakeState) → served acc s ≤ served acc (wake x s)
unfolding wake
wake-served_le acc x s =
    if_both (λ t. served acc s ≤ served acc t) (s.inflight x) (λ u. omega arith)
      (λ u. enqueue-served acc x s)

receive-served :
    (acc : String) (q : List String) (s : WakeState) → served acc s ≤ served acc (receive q s)
receive-served acc [] s = omega arith
receive-served acc (x ∷ rest) s =
    if_both (λ t. served acc s ≤ served acc t) (s.inflight x) (λ u. omega arith)
      (λ u. ground (arith, count_rows-append (λ k. k == acc) x s.started))

begin-served :
    (acc : String) (o : Option String) (s : WakeState) → served acc s ≤ served acc (begin_when o s)
begin-served acc none s = receive-served acc s.queue s
begin-served acc (some x) s = omega arith

end-served :
    (acc : String) (o : Option String) (s : WakeState) → served acc s ≤ served acc (end_when o s)
end-served acc none s = omega arith
end-served acc (some x) s =
    if_both (λ t. served acc s ≤ served acc t) (s.pending x && not s.cancelled)
      (λ u. wake-served_le acc x (ended_run x s)) (λ u. omega arith)

begin-IsOwed :
    (acc : String) (base : ℕ) (o : Option String) (s : WakeState)
    → IsCoherent s
    → s.running ≡ o
    → base ≤ served acc s
    → IsOwed acc base s
    → IsOwed acc base (begin_when o s)
begin-IsOwed acc base none s coherent q le h =
    receive-IsOwed acc base s.queue s coherent q refl le h
begin-IsOwed acc base (some x) s coherent q le h = h

end-IsOwed :
    (acc : String) (base : ℕ) (o : Option String) (s : WakeState)
    → IsCoherent s
    → s.running ≡ o
    → base ≤ served acc s
    → IsOwed acc base s
    → IsOwed acc base (end_when o s)
end-IsOwed acc base none s coherent q le h = h
end-IsOwed acc base (some x) s coherent q le h = ended-IsOwed acc x base s coherent q le h

cancel-IsOwed :
    (acc : String) (base : ℕ) (s : WakeState)
    → IsOwed acc base s
    → IsOwed acc base (record s { cancelled = true })
cancel-IsOwed acc base s h = inr (inr (inr refl))

pub wake_turns-IsOwed :
    (acc : String) (base : ℕ) (ts : List WakeStep) (s : WakeState)
    → IsCoherent s
    → base ≤ served acc s
    → IsOwed acc base s
    → IsOwed acc base (wake_turns ts s) × IsCoherent (wake_turns ts s)
unfolding wake_turns wake_turn
wake_turns-IsOwed acc base [] s coherent le h = (h, coherent)
wake_turns-IsOwed acc base (wake_step x ∷ ts) s coherent le h =
    wake_turns-IsOwed acc base ts (wake x s) (wake-IsCoherent x s coherent)
      (omega (arith, wake-served_le acc x s)) (wake-IsOwed acc x base s h)
wake_turns-IsOwed acc base (begin_step ∷ ts) s coherent le h =
    wake_turns-IsOwed acc base ts (begin_when s.running s)
      (begin-IsCoherent s.running s refl coherent) (omega (arith, begin-served acc s.running s))
      (begin-IsOwed acc base s.running s coherent refl le h)
wake_turns-IsOwed acc base (end_step ∷ ts) s coherent le h =
    wake_turns-IsOwed acc base ts (end_when s.running s) (end-IsCoherent s.running s refl coherent)
      (omega (arith, end-served acc s.running s))
      (end-IsOwed acc base s.running s coherent refl le h)
wake_turns-IsOwed acc base (cancel_step ∷ ts) s coherent le h =
    wake_turns-IsOwed acc base ts (record s { cancelled = true })
      (record { flying = coherent.flying; waiting = coherent.waiting }) le
      (cancel-IsOwed acc base s h)
