-- ===== src/Store/OAuth/Browser.antt =====
-- A connect attempt belongs to the first browser that claims it.
use unified_messaging.Prelude.{
  ◌≤◌, ◌≡◌, ◌≢◌, refl, subst, String, true, false, List, [], ◌∷◌, arith, eq_iff, All, count_rows,
  update_rows, count_rows-le,
}
use unified_messaging.Store.OAuth.{
  OAuthState, is_state, claimable, bound_to, claim_oauth_state_browser,
}
use unified_messaging.Store.OAuth.Single.{
  OAuthOp, SavesOther, run_oauth_op, run_oauth_ops, run_oauth_op-All,
}

-- The rows of the state carry the hash.
abbrev pub IsBound : String → String → OAuthState → Type 0
IsBound s hash o = is_state s o ≡ true → o.browser_hash ≡ hash

claim-IsBound :
    (s hash : String) (rows : List OAuthState)
    → count_rows (is_state s) rows ≤ count_rows (claimable s hash) rows
    → All (IsBound s hash) (update_rows (claimable s hash) (bound_to hash) rows)
claim-IsBound s hash [] h = tt
claim-IsBound s hash (o ∷ rows) h =
    let few = count_rows-le (claimable s hash) (is_state s) rows (λ r k. ground arith) in
    (λ hit. ground arith, claim-IsBound s hash rows (ground arith))

rebind :
    (s hash s' hash' : String) (o : OAuthState)
    → hash ≢ ""
    → claimable s' hash' o ≡ true
    → IsBound s hash o
    → IsBound s hash (bound_to hash' o)
rebind s hash s' hash' o ne hit h mine = ground (
  arith,
  h mine,
  eq_iff o.state s,
  eq_iff o.state s',
  eq_iff o.browser_hash "",
  eq_iff o.browser_hash hash',
  ne,
)

run_op-IsBound :
    (s hash : String) (op : OAuthOp) (rows : List OAuthState)
    → hash ≢ ""
    → SavesOther s op
    → All (IsBound s hash) rows
    → All (IsBound s hash) (run_oauth_op op rows)
run_op-IsBound s hash op rows ne k h =
    run_oauth_op-All (IsBound s hash) op rows (λ o at p. p) (λ o at p. p)
      (λ s' hash' o hit p. rebind s hash s' hash' o ne hit p)
      (λ o q mine. absurd (subst (SavesOther s) q k ((eq_iff o.state s).0 mine))) h

run_ops-IsBound :
    (s hash : String) (ops : List OAuthOp) (rows : List OAuthState)
    → hash ≢ ""
    → All (SavesOther s) ops
    → All (IsBound s hash) rows
    → All (IsBound s hash) (run_oauth_ops ops rows)
unfolding run_oauth_ops
run_ops-IsBound s hash [] rows ne k h = h
run_ops-IsBound s hash (op ∷ ops) rows ne k h =
    run_ops-IsBound s hash ops (run_oauth_op op rows) ne k.1
      (run_op-IsBound s hash op rows ne k.0 h)

bound-refuses :
    (s hash other : String) (rows : List OAuthState)
    → hash ≢ ""
    → other ≢ hash
    → All (IsBound s hash) rows
    → count_rows (claimable s other) rows ≡ 0
bound-refuses s hash other [] ne apart h = refl
bound-refuses s hash other (o ∷ rows) ne apart h = ground (
  arith,
  h.0,
  eq_iff o.browser_hash "",
  eq_iff o.browser_hash other,
  bound-refuses s hash other rows ne apart h.1,
)

-- The first browser wins: after a claim that succeeded, whatever else is done to the table short of
-- saving the same random state again, no other browser's claim of the state succeeds. The state is
-- the primary key, and a claim carries a hash that is not empty.
pub claim_first :
    (s hash other : String) (ops : List OAuthOp) (rows : List OAuthState)
    → hash ≢ ""
    → other ≢ hash
    → count_rows (is_state s) rows ≤ 1
    → All (SavesOther s) ops
    → (claim_oauth_state_browser s hash rows).1 ≡ true
    → (claim_oauth_state_browser s other
        (run_oauth_ops ops (claim_oauth_state_browser s hash rows).0)).1
      ≡ false
unfolding claim_oauth_state_browser
claim_first s hash other ops rows ne apart one k won =
    let claimed = update_rows (claimable s hash) (bound_to hash) rows in
    let bound = claim-IsBound s hash rows (ground arith) in
    let later = run_ops-IsBound s hash ops claimed ne k bound in
    let none_left = bound-refuses s hash other (run_oauth_ops ops claimed) ne apart later in
    ground (arith, none_left)
