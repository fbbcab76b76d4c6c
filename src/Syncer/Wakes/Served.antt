-- ===== src/Syncer/Wakes/Served.antt =====
-- internal/syncer/syncer.go: the worker serves what it was asked for.
use unified_messaging.Prelude.{
  ℕ, zero, suc, ◌<◌, ◌++◌, ◌≡◌, refl, ap, ◌∙◌, inl, inr, String, true, false, not, ◌&&◌, Option,
  none, some, List, [], ◌∷◌, ◌==◌, arith, if_both, length, has_row,
}
use unified_messaging.Syncer.Wakes.{
  WakeState, set_to, wake, receive, begin_when, ended_run, end_when, WakeStep, begin_step, end_step,
  wake_turn, wake_turns,
}
use unified_messaging.Syncer.Wakes.Coherent.{
  is_running, IsCoherent, wake-IsCoherent, begin-IsCoherent, end-IsCoherent,
}
use unified_messaging.Syncer.Wakes.Owed.{
  served, IsOwed, wake-IsOwed_new, wake_turns-IsOwed, wake-served_le,
}

-- The worker takes requests one after the other and runs them, with no request in between.
abbrev pub rounds : ℕ → List WakeStep
rounds zero = []
rounds (suc n) = begin_step ∷ end_step ∷ rounds n

-- Nothing runs and nothing is queued.
abbrev pub IsAtRest : WakeState → Type 0
IsAtRest s = (s.queue ≡ []) × (s.running ≡ none)

wake-running : (acc : String) (s : WakeState) → (wake acc s).running ≡ s.running
unfolding wake
wake-running acc s = ground arith

end-idle : (o : Option String) (s : WakeState) → s.running ≡ o → (end_when o s).running ≡ none
end-idle none s q = q
end-idle (some acc) s q =
    if_both (λ (t : WakeState). t.running ≡ none) (s.pending acc && not s.cancelled)
      (λ u. wake-running acc (ended_run acc s)) (λ u. refl)

abbrev begun : String → List String → WakeState → WakeState
begun acc rest s = record s {
  queue = rest;
  inflight = set_to true acc s.inflight;
  running = some acc;
  started = s.started ++ acc ∷ [];
}

begin-begun :
    (acc : String) (rest : List String) (s : WakeState)
    → IsCoherent s
    → s.running ≡ none
    → s.queue ≡ acc ∷ rest
    → begin_when s.running s ≡ begun acc rest s
begin-begun acc rest s coherent idle same =
    let free : s.inflight acc ≡ false = coherent.flying acc ∙ ap (is_running acc) idle in
    let run : receive (acc ∷ rest) s ≡ begun acc rest s = rw free refl in
    ap (λ o. begin_when o s) idle ∙ ap (λ q. receive q s) same ∙ run

end-begun :
    (acc : String) (rest : List String) (s : WakeState)
    → IsCoherent s
    → s.running ≡ none
    → (end_when (some acc) (begun acc rest s)).queue ≡ rest
end-begun acc rest s coherent idle =
    let free : s.inflight acc ≡ false = coherent.flying acc ∙ ap (is_running acc) idle in
    let calm : s.pending acc ≡ false = ground (arith, coherent.waiting acc) in rw calm refl

rounds-IsAtRest :
    (q : List String) (s : WakeState)
    → IsCoherent s
    → s.running ≡ none
    → s.queue ≡ q
    → IsAtRest (wake_turns (rounds (length q)) s)
unfolding wake_turns wake_turn
rounds-IsAtRest [] s coherent idle same = (same, idle)
rounds-IsAtRest (acc ∷ rest) s coherent idle same =
    let s1 = begin_when s.running s in
    let s2 = end_when s1.running s1 in
    let fine1 = begin-IsCoherent s.running s refl coherent in
    let left : s2.queue ≡ rest =
      ap (λ (x : WakeState). (end_when x.running x).queue)
        (begin-begun acc rest s coherent idle same)
      ∙ end-begun acc rest s coherent idle in
    rounds-IsAtRest rest s2 (end-IsCoherent s1.running s1 refl fine1) (end-idle s1.running s1 refl)
      left

at_rest_served :
    (acc : String) (base : ℕ) (s : WakeState)
    → IsAtRest s
    → s.cancelled ≡ false
    → IsOwed acc base s
    → base < served acc s
at_rest_served acc base s rest alive (inl a) = a
at_rest_served acc base s rest alive (inr (inl b)) =
    absurd (ground (arith, b, ap (has_row (λ k. k == acc)) rest.0))
at_rest_served acc base s rest alive (inr (inr (inl (c, d)))) = absurd (ground (arith, c, rest.1))
at_rest_served acc base s rest alive (inr (inr (inr e))) = absurd (ground (arith, e, alive))

-- The state once the run that goes on has ended and the worker took what was queued then.
abbrev pub drained : WakeState → WakeState
drained s =
    let ended = wake_turns (end_step ∷ []) s in wake_turns (rounds (length ended.queue)) ended

drained-IsAtRest : (s : WakeState) → IsCoherent s → IsAtRest (drained s)
unfolding wake_turns wake_turn
drained-IsAtRest s coherent =
    let ended = end_when s.running s in
    rounds-IsAtRest ended.queue ended (end-IsCoherent s.running s refl coherent)
      (end-idle s.running s refl) refl

wake_turns-append :
    (ts us : List WakeStep) (s : WakeState)
    → wake_turns (ts ++ us) s ≡ wake_turns us (wake_turns ts s)
unfolding wake_turns
wake_turns-append [] us s = refl
wake_turns-append (t ∷ ts) us s = wake_turns-append ts us (wake_turn t s)

-- No request for a sync is lost. In any state that the steps reach, after a Wake and whatever steps
-- of other requests and of the worker, it is enough that the run in progress ends and the worker
-- takes as many requests as are queued then: the syncer is at rest, and since the Wake a run of the
-- account has started, or the log says that a request of it was dropped. The service is not shut
-- down meanwhile.
pub wake-served :
    (acc : String) (ts : List WakeStep) (s : WakeState)
    → IsCoherent s
    → (drained (wake_turns ts (wake acc s))).cancelled ≡ false
    → IsAtRest (drained (wake_turns ts (wake acc s)))
      × (served acc s < served acc (drained (wake_turns ts (wake acc s))))
unfolding wake_turns
wake-served acc ts s coherent alive =
    let woken = wake acc s in
    let later = wake_turns ts woken in
    let fine =
      (wake_turns-IsOwed acc (served acc s) ts woken (wake-IsCoherent acc s coherent)
        (wake-served_le acc acc s) (wake-IsOwed_new acc s coherent)).1 in
    let rest = end_step ∷ rounds (length (wake_turns (end_step ∷ []) later).queue) in
    let owed =
      (wake_turns-IsOwed acc (served acc s) (ts ++ rest) woken (wake-IsCoherent acc s coherent)
        (wake-served_le acc acc s) (wake-IsOwed_new acc s coherent)).0 in
    let quiet = drained-IsAtRest later fine in
    (
      quiet,
      at_rest_served acc (served acc s) (drained later) quiet alive
          (rw (wake_turns-append ts rest woken) at owed),
    )
