-- ===== src/Examples/Hooks.antt =====
-- Two subscribers of one account, one that answers and one that does not, and a paused third.
use unified_messaging.Prelude.{
  ℕ, ◌≡◌, ◌≢◌, refl, ◌⊎◌, String, true, false, none, some, List, [], ◌∷◌, ◌++◌, ◌==◌, arith,
  if◌then◌else◌, All, ne_of_test,
}
use unified_messaging.Model.{Account, Webhook, Event, mail_received}
use unified_messaging.Store.Tables.{Delivery, DeveloperRow, empty_chat_db}
use unified_messaging.Store.Deliveries.{HookDb}
use unified_messaging.Events.Sender.{
  Wire, Request, Reply, post_payload, post_discord, post_telegram, answered, unreachable,
}
use unified_messaging.Events.Dispatch.{
  EventDb, Luck, begin_fan_out, fan_out, deliver, default_retry_schedule,
}
use unified_messaging.Events.Dispatch.Evicts.{IsForwarded, deliver-evicts}
use unified_messaging.Events.Dispatch.Parks.{IsServed, AreFresh, refused_rows, fan_out-parks}
use unified_messaging.Events.Retry.{redeliver}
use unified_messaging.Events.Retry.Flights.{Desk}
use unified_messaging.Events.Retry.Turns.{
  Turn, emit, tick, late, test, claim, answer, crash, pause, remove, purge,
}
use unified_messaging.Events.Retry.Redeliver.{IsRefusal, IsDeliverable, IsSettled, redeliver_cases}

-- a payload is the event itself; only the first endpoint is up
abbrev net : Request Event → Reply
net (post_payload url secret payload attempt) =
    if url == "https://up" then answered 204 "" else answered 503 ""
net (post_discord url ev) = answered 204 ""
net (post_telegram token chat ev) = unreachable "no route"

abbrev wire : Wire Event
wire = record {
  encode = λ ev. some ev;
  decode = λ ev. some ev;
  client = net;
  read_telegram = λ body. none;
  error_text = λ e. "failed";
}

abbrev hook_up : Webhook
hook_up = record {
  id = "w1";
  developer_id = "dev1";
  name = "up";
  account_id = "acc1";
  kind = "webhook";
  url = "https://up";
  secret = "s";
  telegram = none;
  events = [];
  paused = false;
  created_at = 1;
}

abbrev hook_down : Webhook
hook_down = record hook_up { id = "w2"; name = "down"; account_id = ""; url = "https://down" }

abbrev hook_paused : Webhook
hook_paused = record hook_down { id = "w3"; name = "paused"; paused = true }

abbrev received : Event
received = record {
  event_type = mail_received;
  account_id = "acc1";
  timestamp = some 1000;
  webhook = none;
  email = none;
  email_id = "e1";
  account = none;
  message = none;
  chat = none;
  message_ids = [];
  status = "";
  change = "";
  reaction = none;
}

abbrev dead_delivery : Delivery Event
dead_delivery = record {
  id = "d1";
  webhook_id = "w2";
  account_id = "acc1";
  event_type = mail_received;
  payload = received;
  attempts = 8;
  next_attempt_at = 900;
  last_error = "failed";
  dead = true;
  created_at = 800;
}

abbrev held_delivery : Delivery Event
held_delivery = record dead_delivery { id = "d2"; webhook_id = "w3"; attempts = 1; dead = false }

abbrev owner : Account
owner = record {
  id = "acc1";
  developer_id = "dev1";
  provider = "outlook";
  email = "bo@example.com";
  kind = "mail";
  identifier = "bo@example.com";
  name = "Bo";
  status = "OK";
  created_at = 1;
  updated_at = 1;
  last_synced_at = none;
  connection = none;
}

abbrev owner_row : DeveloperRow
owner_row = record {
  id = "dev1";
  email = "bo@example.com";
  password_hash = "";
  name = "Bo";
  created_at = 1;
  redirect_domains = [];
  retention_max_age_secs = 3600;
}

abbrev hook_db : HookDb Event
hook_db = record {
  webhooks = hook_up ∷ hook_down ∷ hook_paused ∷ [];
  deliveries = dead_delivery ∷ held_delivery ∷ [];
  developers = owner_row ∷ [];
  accounts = owner ∷ [];
}

abbrev event_db : EventDb Event
event_db = record { hooks = hook_db; mail = []; chats = empty_chat_db }

abbrev served : String → Luck
served id = record {
  minted = some id;
  reminted = none;
  cut_off = false;
  save_fails = false;
  clear_fails = false;
}

abbrev fresh_id : Webhook → String
fresh_id h = if h.id == "w1" then "n1" else if h.id == "w2" then "n2" else "n3"

abbrev luck_of : Webhook → Luck
luck_of h = served (fresh_id h)

abbrev three_hooks : List Webhook
three_hooks = hook_up ∷ hook_down ∷ hook_paused ∷ []

evicts_example :
    ((deliver wire default_retry_schedule luck_of 1000 received event_db).mail ≡ [])
      × ((deliver wire default_retry_schedule luck_of 1000 received event_db).chats ≡ empty_chat_db)
    ⊎ IsForwarded wire default_retry_schedule received hook_db
evicts_example = deliver-evicts wire default_retry_schedule luck_of 1000 received event_db

abbrev later_waits : List ℕ
later_waits = 120 ∷ 600 ∷ 1800 ∷ 7200 ∷ 21600 ∷ 43200 ∷ []

is_served : (id : String) → id ≢ "" → IsServed (served id) id
is_served id ne = record { minted = refl; named = ne; in_time = refl; saved = refl }

hooks-IsServed : All (λ (h : Webhook). IsServed (luck_of h) (fresh_id h)) three_hooks
hooks-IsServed = (
  is_served "n1" (ne_of_test "n1" "" refl),
  (is_served "n2" (ne_of_test "n2" "" refl), (is_served "n3" (ne_of_test "n3" "" refl), tt)),
)

ids-AreFresh : AreFresh wire 30 later_waits fresh_id three_hooks hook_db.deliveries
ids-AreFresh = (
  refl,
  (ne_of_test "n2" "n1" refl, (ne_of_test "n3" "n1" refl, tt)),
  (refl, (ne_of_test "n3" "n2" refl, tt), (refl, tt, tt)),
)

parks_example :
    (fan_out wire default_retry_schedule luck_of 1000 received three_hooks
      (begin_fan_out hook_db)).db.deliveries
    ≡ hook_db.deliveries ++ refused_rows wire 30 later_waits 1000 fresh_id received three_hooks
parks_example =
    fan_out-parks wire 30 later_waits luck_of fresh_id 1000 received three_hooks
      (begin_fan_out hook_db) hooks-IsServed refl ids-AreFresh

abbrev some_turns : List (Turn Event)
some_turns =
    emit luck_of 1000 received
    ∷ tick (λ d. served "") 1100
    ∷ test (served "n4") 1101 hook_down
    ∷ claim 1102 hook_down "d1"
    ∷ tick (λ d. served "") 1103
    ∷ answer (record (served "") { save_fails = true }) 1104 0
    ∷ claim 2102 hook_down "d1"
    ∷ crash
    ∷ late (served "") 2800 held_delivery
    ∷ pause "dev1" "w2" true
    ∷ purge 1200 604800
    ∷ remove "dev1" "w3"
    ∷ []

abbrev hook_desk : Desk Event
hook_desk = record { db = hook_db; flights = []; unwritten = [] }

redeliver_example :
    let r = redeliver wire default_retry_schedule (served "") 1102 hook_down "d1" hook_db in
    (IsRefusal r.1 × (r.0 ≡ hook_db))
    ⊎ (IsDeliverable 1102 hook_down "d1" hook_db × IsSettled wire 30 later_waits 1102 "d1" r)
redeliver_example =
    redeliver_cases wire 30 later_waits (served "") 1102 hook_down "d1" hook_db refl refl
      (omega arith)
