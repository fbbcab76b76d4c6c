-- ===== src/Store/OAuth.antt =====
-- internal/store/aux.go: the pending connect attempts. The webhook of an attempt is kept as the
-- column that it is stored in; times are whole seconds.
pub mod Single
pub mod Browser
use unified_messaging.Prelude.{
  ℕ, String, Bool, true, false, not, ◌&&◌, ◌||◌, Option, none, some, List, [], ◌∷◌, ◌++◌, ◌==◌, ltb,
  eqb, if◌then◌else◌, find_row, update_rows, delete_rows, has_row, count_rows,
}

pub record OAuthState : Type 0 where
  pub state : String
  pub developer_id : String
  pub provider : String
  pub verifier : String
  pub success_url : String
  pub failure_url : String
  pub notify_url : String
  pub webhook_json : String
  pub expires_at : ℕ
  pub consented_at : Option ℕ
  pub browser_hash : String

abbrev pub is_state : String → OAuthState → Bool
is_state s o = o.state == s

abbrev fresh_state : OAuthState → OAuthState
fresh_state o = record o { consented_at = none; browser_hash = "" }

-- The flag is false where the primary key refuses the row.
unfoldable pub save_oauth_state : OAuthState → List OAuthState → List OAuthState × Bool
save_oauth_state o rows =
    if has_row (is_state o.state) rows then (rows, false) else (rows ++ fresh_state o ∷ [], true)

unfoldable pub set_oauth_consent : String → ℕ → List OAuthState → List OAuthState
set_oauth_consent s at rows =
    update_rows (is_state s) (λ (o : OAuthState). record o { consented_at = some at }) rows

unfoldable pub set_oauth_state_expiry : String → ℕ → List OAuthState → List OAuthState
set_oauth_state_expiry s at rows =
    update_rows (is_state s) (λ (o : OAuthState). record o { expires_at = at }) rows

pub data Taken : Type 0 where
  taken : OAuthState → Taken
  no_state state_expired : Taken

-- `none` is ErrNotFound.
unfoldable pub peek_oauth_state : String → List OAuthState → Option OAuthState
peek_oauth_state s rows = find_row (is_state s) rows

-- The read and the delete are two statements; with nothing between them this is the whole method.
unfoldable pub take_oauth_state : ℕ → String → List OAuthState → List OAuthState × Taken
take_oauth_state now s rows = elim (find_row (is_state s) rows) [
  | none ↦ (rows, no_state)
  | some o ↦
      (delete_rows (is_state s) rows, if ltb o.expires_at now then state_expired else taken o)
]

unfoldable pub purge_expired_oauth_states : ℕ → List OAuthState → List OAuthState
purge_expired_oauth_states now rows = delete_rows (λ o. ltb o.expires_at now) rows

-- WHERE state = ? AND (browser_hash = '' OR browser_hash = ?)
abbrev pub claimable : String → String → OAuthState → Bool
claimable s hash o = is_state s o && (o.browser_hash == "" || o.browser_hash == hash)

abbrev pub bound_to : String → OAuthState → OAuthState
bound_to hash o = record o { browser_hash = hash }

unfoldable pub claim_oauth_state_browser :
    String → String → List OAuthState → List OAuthState × Bool
claim_oauth_state_browser s hash rows = (
  update_rows (claimable s hash) (bound_to hash) rows,
  eqb (count_rows (claimable s hash) rows) 1,
)
