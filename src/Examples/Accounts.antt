-- ===== src/Examples/Accounts.antt =====
-- A mail account whose provider rotates its refresh tokens, and its push subscription. The cipher
-- leaves a text as it is.
use unified_messaging.Prelude.{
  ap, ℕ, ◌*◌, ◌<◌, ◌≤◌, ◌≡◌, ◌≢◌, ◌⊎◌, refl, inr, String, Char, Bool, true, false, none, some, List,
  [], ◌∷◌, ◌==◌, arith, All, if◌then◌else◌, ok, ne_of_test,
}
use unified_messaging.Model.{Account, account_ok}
use unified_messaging.Secretbox.{Cipher, IsCipher, seal, open_sealed, open_sealed-seal}
use unified_messaging.Store.Accounts.{
  AccountDb, TokenRow, Subscription, get_tokens, get_any_account,
}
use unified_messaging.Accounts.{Manager, Backend, refreshed, grant_is_dead, reauth_required, second}
use unified_messaging.Accounts.Tokens.{access_token}
use unified_messaging.Accounts.Tokens.Refresh.{
  IsTold, provider_answer, access_token-failed, access_token-rotates,
}
use unified_messaging.Accounts.Custody.{IsRedeemable}
use unified_messaging.Accounts.Custody.Runs.{
  AccountOp, token_op, log_out_op, run_account_ops, run_account_ops-Redeemable,
}
use unified_messaging.Syncer.Subscriptions.{
  Setup, Pusher, created, exists_already, get_subscription, ensure_subscription,
}
use unified_messaging.Syncer.Notifications.{
  Notification, lifecycle_none, lifecycle_recreate, handle_notifications,
}
use unified_messaging.Syncer.Notifications.Forged.{IsIgnored, handle_notifications-forged}
use unified_messaging.Syncer.Notifications.Kept.{
  PushOp, ensure_op, notify_op, run_push_ops, run_push_ops-AllSecret,
}
use unified_messaging.Syncer.Notifications.Secrets.{AllSecret}
use unified_messaging.Syncer.Notifications.Creates.{creates, ensure_subscription-creates}
use unified_messaging.Syncer.Wakes.{
  WakeState, WakeStep, wake_step, begin_step, wake, wake_turns, wake_turn,
}
use unified_messaging.Syncer.Wakes.Coherent.{IsCoherent}
use unified_messaging.Syncer.Wakes.Owed.{served}
use unified_messaging.Syncer.Wakes.Served.{IsAtRest, drained, wake-served}

abbrev chars : String → List Char
chars String.[] = []
chars (String.◌∷◌ c s) = c ∷ chars s

abbrev text_of : List Char → String
text_of [] = ""
text_of (c ∷ cs) = String.◌∷◌ c (text_of cs)

text_of-chars : (s : String) → text_of (chars s) ≡ s
text_of-chars String.[] = refl
text_of-chars (String.◌∷◌ c s) = ap (String.◌∷◌ c) (text_of-chars s)

chars-text_of : (cs : List Char) → chars (text_of cs) ≡ cs
chars-text_of [] = refl
chars-text_of (c ∷ cs) = ap (◌∷◌ c) (chars-text_of cs)

abbrev clear : Cipher
clear = record {
  nonce_size = 2;
  gcm_seal = λ n p. p;
  gcm_open = λ n ct. some ct;
  encode = text_of;
  decode = λ s. some (chars s);
  bytes = chars;
  text = text_of;
}

clear-IsCipher : IsCipher clear
clear-IsCipher = record {
  opens = λ n p. refl;
  decodes = λ raw. ap some (chars-text_of raw);
  reads = text_of-chars;
}

abbrev drawn : List Char
drawn = chars "no"

seal_example : open_sealed (some clear) "nosecret" ≡ some "secret"
unfolding seal
seal_example = open_sealed-seal clear drawn "secret" "nosecret" clear-IsCipher refl refl

abbrev rotating : Backend
rotating = record {
  name = "OUTLOOK";
  exchange = λ code verifier. none;
  identify = λ tok. none;
  refresh = λ held.
      if held == "old"
      then refreshed (record {
        access_token = "a2";
        refresh_token = "new";
        scope = "mail";
        expires_at = 9000 * second;
      })
      else grant_is_dead;
  is_chat = false;
}

abbrev manager : Manager
manager = record {
  registry = λ name. if name == "OUTLOOK" then some rotating else none;
  key = some clear;
}

abbrev mailbox : Account
mailbox = record {
  id = "acc_1";
  developer_id = "dev_1";
  provider = "OUTLOOK";
  email = "ann@example.com";
  kind = "mail";
  identifier = "ann@example.com";
  name = "Ann";
  status = account_ok;
  created_at = 1;
  updated_at = 1;
  last_synced_at = none;
  connection = none;
}

abbrev token : String → TokenRow
token held = record {
  account_id = "acc_1";
  access_token = "a1";
  access_expires_at = 5000;
  refresh_token_enc = held;
  scope = "mail";
}

abbrev pushing : Subscription
pushing = record {
  id = "sub_1";
  account_id = "acc_1";
  resource = "/me/messages";
  client_state = "cs_1";
  expires_at = 5000;
  created_at = 1;
}

abbrev account_db : String → AccountDb
account_db held = record {
  accounts = mailbox ∷ [];
  tokens = token held ∷ [];
  chat_sessions = [];
  folders = [];
  subscriptions = pushing ∷ [];
}

abbrev now : ℕ
now = 6000 * second

dead_grant_example :
    IsTold
      (provider_answer manager now false "acc_1" (account_db "nogone"))
      now
      "acc_1"
      (account_db "nogone")
      (access_token manager now (some drawn) false "acc_1" (account_db "nogone"))
      reauth_required
unfolding access_token get_tokens get_any_account open_sealed
dead_grant_example =
    access_token-failed manager now (some drawn) "acc_1" false (account_db "nogone") reauth_required
      refl

rotation_example :
    ((access_token manager now (some drawn) false "acc_1" (account_db "noold")).answer ≡ ok "a2")
    × ((r : TokenRow) × (get_tokens "acc_1"
            (access_token manager now (some drawn) false "acc_1" (account_db "noold")).db
          ≡ some r)
        × (r.access_token ≡ "a2")
        × (open_sealed manager.key r.refresh_token_enc ≡ some "new"))
unfolding get_tokens get_any_account open_sealed
rotation_example =
    access_token-rotates manager clear now drawn false "acc_1" (account_db "noold") (token "noold")
      mailbox rotating "old"
      (record {
        access_token = "a2";
        refresh_token = "new";
        scope = "mail";
        expires_at = 9000 * second;
      })
      refl refl clear-IsCipher refl refl refl refl refl refl

abbrev uses : List AccountOp
uses = token_op now drawn true "acc_1" ∷ log_out_op now "acc_1" ∷ []

kept_grants_example :
    All (IsRedeemable manager.key) (run_account_ops manager uses (account_db "noold")).tokens
unfolding open_sealed
kept_grants_example =
    run_account_ops-Redeemable manager clear refl clear-IsCipher uses (account_db "noold")
      (refl, (tt, tt)) (("old", refl, refl), tt)

abbrev graph : Pusher
graph = record {
  create = λ retried secret.
      if retried then created "sub_2" "/me/messages" (9000 * second) else exists_already;
  renew = λ id. none;
  listed = some ("sub_0" ∷ []);
  renew_before = 3600 * second;
}

abbrev setup : Setup
setup = record {
  public_base_url = "https://um.example.com";
  now = now;
  secret = λ retried. some (if retried then "cs_3" else "cs_2");
  push_of = λ name. some (some graph);
  manager = manager;
  drawn = some drawn;
}

abbrev forged : Notification
forged = record {
  subscription_id = "sub_1";
  client_state = "guess";
  lifecycle = lifecycle_recreate;
}

forged_secret :
    (s : Subscription)
    → get_subscription "sub_1" (account_db "noold") ≡ some s
    → (s.client_state ≡ "") ⊎ (s.client_state ≢ "guess")
unfolding get_subscription
forged_secret s e =
    let same : pushing ≡ s = ground arith in inr (rw (← same) (ne_of_test "cs_1" "guess" refl))

forged_example :
    IsIgnored
      (account_db "noold")
      (handle_notifications setup "outlook" (some (forged ∷ [])) (account_db "noold"))
forged_example =
    handle_notifications-forged setup "outlook" (forged ∷ []) (account_db "noold")
      (forged_secret, tt)

abbrev genuine : Notification
genuine = record { subscription_id = "sub_1"; client_state = "cs_1"; lifecycle = lifecycle_none }

minted : (b : Bool) (s : String) → setup.secret b ≡ some s → (s == "") ≡ false
minted true s e = let same : "cs_3" ≡ s = ground arith in rw (← same) refl
minted false s e = let same : "cs_2" ≡ s = ground arith in rw (← same) refl

abbrev push_ops : List PushOp
push_ops = notify_op setup "outlook" (some (genuine ∷ forged ∷ [])) ∷ ensure_op setup "acc_1" ∷ []

secrets_example : AllSecret (run_push_ops push_ops (account_db "noold"))
secrets_example =
    run_push_ops-AllSecret push_ops (account_db "noold") (minted, (minted, tt)) (refl, tt)

creates_example : creates (ensure_subscription setup "acc_1" (account_db "noold")).calls ≤ 2
creates_example = ensure_subscription-creates setup "acc_1" (account_db "noold")

abbrev idle : WakeState
idle = record {
  queue = [];
  inflight = λ k. false;
  pending = λ k. false;
  running = none;
  cancelled = false;
  started = [];
  dropped = [];
}

idle-IsCoherent : IsCoherent idle
idle-IsCoherent = record { flying = λ k. refl; waiting = λ k t. absurd (ground arith) }

abbrev busy_steps : List WakeStep
busy_steps = begin_step ∷ wake_step "acc_1" ∷ wake_step "acc_2" ∷ []

wake_example :
    IsAtRest (drained (wake_turns busy_steps (wake "acc_1" idle)))
    × (served "acc_1" idle < served "acc_1" (drained (wake_turns busy_steps (wake "acc_1" idle))))
unfolding wake_turns wake_turn wake
wake_example = wake-served "acc_1" busy_steps idle idle-IsCoherent refl
