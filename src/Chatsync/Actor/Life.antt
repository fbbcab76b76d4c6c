-- ===== src/Chatsync/Actor/Life.antt =====
-- What holds of the life of an actor, over every sequence of answers of the world.
use unified_messaging.Prelude.{
  ℕ, suc, ◌+◌, ◌≤◌, ◌<◌, ◌≡◌, refl, ap, ◌∙◌, sym, subst, ◌⊎◌, inl, inr, Bool, true, false, List, [],
  ◌∷◌, ◌++◌, arith, All, length,
}
use unified_messaging.Chatsync.Backoff.{max_failures}
use unified_messaging.Chatsync.Actor.{
  Actor, Turn, Effect, dialled, closed, waited, marked_logged_out, Next, again, returned, Outcome,
  stopped, give_account_up, set_state, failed, drop, stabilised, wait_turn, dial_failed, after_drop,
  ended, served, dial_turn, device_turn, turn, run,
}

-- How often the account was given up, in a list of effects.
abbrev pub marks : List Effect → ℕ
marks [] = 0
marks (marked_logged_out r ∷ fx) = suc (marks fx)
marks (dialled d ∷ fx) = marks fx
marks (closed ∷ fx) = marks fx
marks (waited n ∷ fx) = marks fx

-- Nothing is done after the account is given up.
abbrev pub MarkIsLast : List Effect → Type 0
MarkIsLast [] = Unit
MarkIsLast (marked_logged_out r ∷ fx) = fx ≡ []
MarkIsLast (dialled d ∷ fx) = MarkIsLast fx
MarkIsLast (closed ∷ fx) = MarkIsLast fx
MarkIsLast (waited n ∷ fx) = MarkIsLast fx

abbrev pub marked_once : Bool → ℕ
marked_once true = 1
marked_once false = 0

-- What a turn, or a run, leaves behind.
pub record IsSound (o : Outcome) : Type 0 where
  pub marked : marks o.1 ≡ marked_once o.0.terminating
  pub last : MarkIsLast o.1
  pub alive : o.2 ≡ again → (o.0.failures < max_failures) × (o.0.terminating ≡ false)

turn-IsSound : (t : Turn) (a : Actor) → a.terminating ≡ false → IsSound (turn t a)
unfolding turn device_turn dial_turn served ended after_drop dial_failed wait_turn set_state failed
    drop stabilised give_account_up
turn-IsSound t a h = record { marked = ground arith; last = ground arith; alive = ground arith }

-- Without a connection that holds, a turn that the loop survives counts one failure.
turn_counts :
    (t : Turn) (a : Actor)
    → t.outlived ≡ false
    → (turn t a).2 ≡ again
    → (turn t a).0.failures ≡ suc a.failures
unfolding turn device_turn dial_turn served ended after_drop dial_failed wait_turn set_state failed
    drop stabilised give_account_up
turn_counts t a h k = ground arith

run-again :
    (t : Turn) (ts : List Turn) (a : Actor)
    → (turn t a).2 ≡ again
    → run (t ∷ ts) a
      ≡ ((run ts (turn t a).0).0, (turn t a).1 ++ (run ts (turn t a).0).1, (run ts (turn t a).0).2)
unfolding run
run-again t ts a e = rw (e, run)

run-returned :
    (t : Turn) (ts : List Turn) (a : Actor)
    → (turn t a).2 ≡ returned
    → run (t ∷ ts) a ≡ (set_state t.now stopped (turn t a).0, (turn t a).1, returned)
unfolding run
run-returned t ts a e = rw (e, run)

Next-cases : (n : Next) → (n ≡ again) ⊎ (n ≡ returned)
Next-cases again = inl refl
Next-cases returned = inr refl

marks-append : (fx gx : List Effect) → marks (fx ++ gx) ≡ marks fx + marks gx
marks-append [] gx = omega arith
marks-append (dialled d ∷ fx) gx = marks-append fx gx
marks-append (closed ∷ fx) gx = marks-append fx gx
marks-append (waited n ∷ fx) gx = marks-append fx gx
marks-append (marked_logged_out r ∷ fx) gx = omega (arith, marks-append fx gx)

MarkIsLast-append : (fx gx : List Effect) → marks fx ≡ 0 → MarkIsLast gx → MarkIsLast (fx ++ gx)
MarkIsLast-append [] gx h k = k
MarkIsLast-append (dialled d ∷ fx) gx h k = MarkIsLast-append fx gx h k
MarkIsLast-append (closed ∷ fx) gx h k = MarkIsLast-append fx gx h k
MarkIsLast-append (waited n ∷ fx) gx h k = MarkIsLast-append fx gx h k
MarkIsLast-append (marked_logged_out r ∷ fx) gx h k = absurd (omega arith)

stopped-IsSound :
    (now : ℕ) (o : Outcome) → IsSound o → IsSound (set_state now stopped o.0, o.1, returned)
unfolding set_state
stopped-IsSound now o s = record {
  marked = ground (arith, s.marked);
  last = s.last;
  alive = λ e. ground arith;
}

join-IsSound :
    (done : List Effect) (o : Outcome)
    → marks done ≡ 0
    → IsSound o
    → IsSound (o.0, done ++ o.1, o.2)
join-IsSound done o none_yet s = record {
  marked = marks-append done o.1 ∙ ap (λ (n : ℕ). n + marks o.1) none_yet ∙ omega (arith, s.marked);
  last = MarkIsLast-append done o.1 none_yet s.last;
  alive = s.alive;
}

-- However the world answers: the account is given up at most once, exactly when the actor ends up
-- marked as terminating, and nothing is done after it; an actor that still runs has failed less
-- than 30 times in a row and is not marked.
pub run-IsSound :
    (ts : List Turn) (a : Actor)
    → a.failures < max_failures
    → a.terminating ≡ false
    → IsSound (run ts a)
run-IsSound [] a few h = record {
  marked = unfold run in ground arith;
  last = unfold run in tt;
  alive = λ _. unfold run in (few, h);
}
run-IsSound (t ∷ ts) a few h =
    let s = turn-IsSound t a h in
    elim (Next-cases (turn t a).2) [
      | inl e ↦
          let (few', alive) = s.alive e in
          subst IsSound (sym (run-again t ts a e)) (
            join-IsSound (turn t a).1 (run ts (turn t a).0) (ground (arith, s.marked))
              (run-IsSound ts (turn t a).0 few' alive))
      | inr e ↦ subst IsSound (sym (run-returned t ts a e)) (stopped-IsSound t.now (turn t a) s)
    ]

set_stopped : (now : ℕ) (a : Actor) → (set_state now stopped a).state ≡ stopped
unfolding set_state
set_stopped now a = ground arith

-- When `run` returns, the last state that it recorded is `stopped`.
pub run-stopped :
    (ts : List Turn) (a : Actor) → (run ts a).2 ≡ returned → (run ts a).0.state ≡ stopped
run-stopped [] a e = absurd (unfold run in ground arith)
run-stopped (t ∷ ts) a e = elim (Next-cases (turn t a).2) [
  | inl k ↦
      let r = run-again t ts a k in
      ap (λ (o : Outcome). o.0.state) r
      ∙ run-stopped ts (turn t a).0 (sym (ap (λ (o : Outcome). o.2) r) ∙ e)
  | inr k ↦ ap (λ (o : Outcome). o.0.state) (run-returned t ts a k) ∙ set_stopped t.now (turn t a).0
]

-- An actor whose connections never hold gives its account up: after as many turns as are left to
-- the 30th failure, `run` has returned, whatever the answers.
pub run-gives_up :
    (ts : List Turn) (a : Actor)
    → a.failures < max_failures
    → a.terminating ≡ false
    → All (λ (t : Turn). t.outlived ≡ false) ts
    → max_failures ≤ a.failures + length ts
    → (run ts a).2 ≡ returned
run-gives_up [] a few h flaps enough = absurd (omega arith)
run-gives_up (t ∷ ts) a few h flaps enough = elim (Next-cases (turn t a).2) [
  | inl e ↦
      let (few', alive) = (turn-IsSound t a h).alive e in
      let one_more = turn_counts t a flaps.0 e in
      ap (λ (o : Outcome). o.2) (run-again t ts a e)
      ∙ run-gives_up ts (turn t a).0 few' alive flaps.1 (omega (arith, one_more))
  | inr e ↦ ap (λ (o : Outcome). o.2) (run-returned t ts a e)
]
