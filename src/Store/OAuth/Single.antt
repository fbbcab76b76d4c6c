-- ===== src/Store/OAuth/Single.antt =====
-- A connect attempt is used once.
use unified_messaging.Prelude.{
  ℕ, ◌≡◌, ◌≢◌, refl, subst, str_ne, inl, inr, String, true, false, none, some, List, [], ◌∷◌, arith,
  ltb, Bool-cases, Option-cases, All, find_row, has_row, delete_rows, All-delete_rows,
  All-update_rows, All-append,
}
use unified_messaging.Store.OAuth.{
  OAuthState, is_state, no_state, save_oauth_state, set_oauth_consent, set_oauth_state_expiry,
  take_oauth_state, purge_expired_oauth_states, claimable, bound_to, claim_oauth_state_browser,
}

-- The writes of the table.
pub data OAuthOp : Type 0 where
  save : OAuthState → OAuthOp
  consent : (state : String) → ℕ → OAuthOp
  expire_at : (state : String) → ℕ → OAuthOp
  take_state : (now : ℕ) → (state : String) → OAuthOp
  purge_states : ℕ → OAuthOp
  claim : (state hash : String) → OAuthOp

unfoldable pub run_oauth_op : OAuthOp → List OAuthState → List OAuthState
run_oauth_op (save o) rows = (save_oauth_state o rows).0
run_oauth_op (consent s at) rows = set_oauth_consent s at rows
run_oauth_op (expire_at s at) rows = set_oauth_state_expiry s at rows
run_oauth_op (take_state now s) rows = (take_oauth_state now s rows).0
run_oauth_op (purge_states now) rows = purge_expired_oauth_states now rows
run_oauth_op (claim s hash) rows = (claim_oauth_state_browser s hash rows).0

unfoldable pub run_oauth_ops : List OAuthOp → List OAuthState → List OAuthState
run_oauth_ops [] rows = rows
run_oauth_ops (op ∷ ops) rows = run_oauth_ops ops (run_oauth_op op rows)

-- The operation does not save the state anew: states are random.
abbrev pub SavesOther : String → OAuthOp → Type 0
SavesOther s (save o) = o.state ≢ s
SavesOther s _ = Unit

-- Every row satisfies P, where each statement keeps P.
pub run_oauth_op-All :
    (P : OAuthState → Type 0) (op : OAuthOp) (rows : List OAuthState)
    → ((o : OAuthState) (at : ℕ) → P o → P (record o { consented_at = some at }))
    → ((o : OAuthState) (at : ℕ) → P o → P (record o { expires_at = at }))
    → ((s hash : String) (o : OAuthState) → claimable s hash o ≡ true → P o → P (bound_to hash o))
    → ((o : OAuthState) → op ≡ save o → P (record o { consented_at = none; browser_hash = "" }))
    → All P rows
    → All P (run_oauth_op op rows)
unfolding run_oauth_op save_oauth_state set_oauth_consent set_oauth_state_expiry take_oauth_state
    purge_expired_oauth_states claim_oauth_state_browser
run_oauth_op-All P (save o) rows c x b n h = elim (Bool-cases (has_row (is_state o.state) rows)) [
  | inl e ↦ rw (e, run_oauth_op, save_oauth_state) h
  | inr e ↦ rw (e, run_oauth_op, save_oauth_state) (All-append P rows _ h (n o refl, tt))
]
run_oauth_op-All P (consent s at) rows c x b n h =
    All-update_rows P (is_state s) (λ (o : OAuthState). record o { consented_at = some at }) rows
      (λ o _. c o at) h
run_oauth_op-All P (expire_at s at) rows c x b n h =
    All-update_rows P (is_state s) (λ (o : OAuthState). record o { expires_at = at }) rows
      (λ o _. x o at) h
run_oauth_op-All P (take_state now s) rows c x b n h =
    elim (Option-cases (find_row (is_state s) rows)) [
      | inl e ↦ rw (e, run_oauth_op, take_oauth_state) h
      | inr (o, e) ↦ rw (e, run_oauth_op, take_oauth_state) (All-delete_rows P (is_state s) rows h)
    ]
run_oauth_op-All P (purge_states now) rows c x b n h =
    All-delete_rows P (λ (o : OAuthState). ltb o.expires_at now) rows h
run_oauth_op-All P (claim s hash) rows c x b n h =
    All-update_rows P (claimable s hash) (bound_to hash) rows (λ o hit. b s hash o hit) h

abbrev NotState : String → OAuthState → Type 0
NotState s o = is_state s o ≡ false

deleted-NotState :
    (s : String) (rows : List OAuthState) → All (NotState s) (delete_rows (is_state s) rows)
deleted-NotState s [] = tt
deleted-NotState s (o ∷ rows) = elim (Bool-cases (is_state s o)) [
  | inl e ↦ rw e (deleted-NotState s rows)
  | inr e ↦ rw e (e, deleted-NotState s rows)
]

absent-NotState :
    (s : String) (rows : List OAuthState)
    → find_row (is_state s) rows ≡ none
    → All (NotState s) rows
absent-NotState s [] h = tt
absent-NotState s (o ∷ rows) h = elim (Bool-cases (is_state s o)) [
  | inl e ↦ absurd (ground arith)
  | inr e ↦ (e, absent-NotState s rows (ground arith))
]

NotState-absent :
    (s : String) (rows : List OAuthState)
    → All (NotState s) rows
    → find_row (is_state s) rows ≡ none
NotState-absent s [] h = refl
NotState-absent s (o ∷ rows) h = rw h.0 (NotState-absent s rows h.1)

taken-NotState :
    (now : ℕ) (s : String) (rows : List OAuthState)
    → All (NotState s) (take_oauth_state now s rows).0
unfolding take_oauth_state
taken-NotState now s rows = elim (Option-cases (find_row (is_state s) rows)) [
  | inl e ↦ rw (e, take_oauth_state) (absent-NotState s rows e)
  | inr (o, e) ↦ rw (e, take_oauth_state) (deleted-NotState s rows)
]

run_op-NotState :
    (s : String) (op : OAuthOp) (rows : List OAuthState)
    → SavesOther s op
    → All (NotState s) rows
    → All (NotState s) (run_oauth_op op rows)
run_op-NotState s op rows k h =
    run_oauth_op-All (NotState s) op rows (λ o at p. p) (λ o at p. p) (λ s' hash o hit p. p)
      (λ o q. str_ne o.state s (subst (SavesOther s) q k)) h

run_ops-NotState :
    (s : String) (ops : List OAuthOp) (rows : List OAuthState)
    → All (SavesOther s) ops
    → All (NotState s) rows
    → All (NotState s) (run_oauth_ops ops rows)
unfolding run_oauth_ops
run_ops-NotState s [] rows k h = h
run_ops-NotState s (op ∷ ops) rows k h =
    run_ops-NotState s ops (run_oauth_op op rows) k.1 (run_op-NotState s op rows k.0 h)

-- A connect attempt is single-use: once it was taken, whatever the answer, and whatever else is done
-- to the table short of saving the same random state again, taking it finds nothing.
pub take_once :
    (now later : ℕ) (s : String) (ops : List OAuthOp) (rows : List OAuthState)
    → All (SavesOther s) ops
    → (take_oauth_state later s (run_oauth_ops ops (take_oauth_state now s rows).0)).1 ≡ no_state
unfolding take_oauth_state
take_once now later s ops rows k =
    let left = run_oauth_ops ops (take_oauth_state now s rows).0 in
    let gone =
      NotState-absent s left
        (run_ops-NotState s ops (take_oauth_state now s rows).0 k (taken-NotState now s rows)) in
    rw (gone, take_oauth_state) refl
