-- ===== src/Syncer/Wakes/Coherent.antt =====
-- internal/syncer/syncer.go: the maps of the Syncer agree with what its worker does.
use unified_messaging.Prelude.{
  ◌≡◌, refl, ap, ◌∙◌, String, Bool, true, false, not, ◌&&◌, Option, none, some, List, [], ◌∷◌, ◌==◌,
  arith, eq_iff, if_both,
}
use unified_messaging.Syncer.Wakes.{
  WakeState, wake, begin_run, receive, begin_when, ended_run, end_when, WakeStep, wake_step,
  begin_step, end_step, cancel_step, wake_turn,
}

abbrev pub is_running : String → Option String → Bool
is_running acc none = false
is_running acc (some x) = x == acc

-- The map of the accounts in flight names the account that is running, which alone can have a
-- request pending.
pub record IsCoherent (s : WakeState) : Type 0 where
  pub flying : (acc : String) → s.inflight acc ≡ is_running acc s.running
  pub waiting : (acc : String) → s.pending acc ≡ true → s.inflight acc ≡ true

pub wake-IsCoherent : (acc : String) (s : WakeState) → IsCoherent s → IsCoherent (wake acc s)
unfolding wake
wake-IsCoherent acc s h = record {
  flying = λ k. ground (arith, h.flying k);
  waiting = λ k t. ground (arith, h.waiting k, eq_iff k acc);
}

begin_run-IsCoherent :
    (acc : String) (s : WakeState) → s.running ≡ none → IsCoherent s → IsCoherent (begin_run acc s)
begin_run-IsCoherent acc s idle h =
    let free : s.inflight acc ≡ false = h.flying acc ∙ ap (is_running acc) idle in
    rw free (record {
      flying = λ k. ground (arith, h.flying k, idle, eq_iff k acc, eq_iff acc k);
      waiting = λ k t. ground (arith, h.waiting k);
    })

receive-IsCoherent :
    (q : List String) (s : WakeState) → s.running ≡ none → IsCoherent s → IsCoherent (receive q s)
receive-IsCoherent [] s idle h = h
receive-IsCoherent (acc ∷ rest) s idle h =
    begin_run-IsCoherent acc (record s { queue = rest }) idle
      (record { flying = h.flying; waiting = h.waiting })

pub ended_run-IsCoherent :
    (acc : String) (s : WakeState)
    → s.running ≡ some acc
    → IsCoherent s
    → IsCoherent (ended_run acc s)
ended_run-IsCoherent acc s busy h = record {
  flying = λ k. ground (arith, h.flying k, busy, eq_iff k acc, eq_iff acc k);
  waiting = λ k t. ground (arith, h.waiting k);
}

pub begin-IsCoherent :
    (o : Option String) (s : WakeState) → s.running ≡ o → IsCoherent s → IsCoherent (begin_when o s)
begin-IsCoherent none s q h = receive-IsCoherent s.queue s q h
begin-IsCoherent (some acc) s q h = h

pub end-IsCoherent :
    (o : Option String) (s : WakeState) → s.running ≡ o → IsCoherent s → IsCoherent (end_when o s)
end-IsCoherent none s q h = h
end-IsCoherent (some acc) s q h =
    let ended = ended_run-IsCoherent acc s q h in
    if_both IsCoherent (s.pending acc && not s.cancelled)
      (λ u. wake-IsCoherent acc (ended_run acc s) ended) (λ u. ended)

pub wake_turn-IsCoherent :
    (t : WakeStep) (s : WakeState) → IsCoherent s → IsCoherent (wake_turn t s)
unfolding wake_turn
wake_turn-IsCoherent (wake_step acc) s h = wake-IsCoherent acc s h
wake_turn-IsCoherent cancel_step s h = record { flying = h.flying; waiting = h.waiting }
wake_turn-IsCoherent begin_step s h = begin-IsCoherent s.running s refl h
wake_turn-IsCoherent end_step s h = end-IsCoherent s.running s refl h
