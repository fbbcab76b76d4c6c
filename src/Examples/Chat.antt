-- ===== src/Examples/Chat.antt =====
-- One chat account with a message, a neighbour's message, and what the store and the sink do to them.
use unified_messaging.Prelude.{
  ℕ, ◌+◌, ◌≡◌, refl, inr, true, false, none, some, List, [], ◌∷◌, if◌then◌else◌, All, ne_of_test,
}
use unified_messaging.Model.{Attendee, Chat, ChatMessage, Event}
use unified_messaging.Store.Tables.{ChatDb, MessageRow}
use unified_messaging.Store.Messages.{message_row, evict, revoked, edited as edited_row}
use unified_messaging.Store.Messages.Ops.{
  MessageOp, insert, status, edit, revoke, sweep, delete, run_ops, KeepsRow,
}
use unified_messaging.Store.Messages.Retention.{IsEvictedAt, run_ops-IsEvictedAt}
use unified_messaging.Chatsync.Sink.{
  Callback, Faults, no_faults, message, report, drain_inbox, on_message, on_edited, on_deleted,
  deleted,
}
use unified_messaging.Store.Neighbours.{SameFor}
use unified_messaging.Chatsync.Sink.Isolation.{drain_inbox-SameFor}
use unified_messaging.Chatsync.Sink.Replay.{report-message_once}
use unified_messaging.Chatsync.Sink.Counters.{HasCounters, on_message-counts}
use unified_messaging.Chatsync.Sink.Edits.{row_at, on_edited_twice, edit_after_delete}

abbrev ann : Attendee
ann = record { id = "p1"; phone = "+4711"; name = "Ann"; is_self = false }

abbrev hello : ChatMessage
hello = record {
  id = "m1";
  account_id = "acc1";
  chat_id = "c1";
  sender = ann;
  is_from_me = false;
  kind = "text";
  text = "hello";
  quoted_message_id = "";
  sent_at = 100;
  edited_at = none;
  deleted = false;
  status = "sent";
  content_evicted = false;
  reactions = [];
}

abbrev hello_again : ChatMessage
hello_again = record hello { text = "hello, again" }

abbrev second_message : ChatMessage
second_message = record hello { id = "m2"; text = "there?"; sent_at = 160 }

abbrev room : Chat
room = record {
  id = "c1";
  account_id = "acc1";
  kind = "direct";
  name = "Ann";
  unread_count = 2;
  last_message_at = some 100;
  archived = false;
  muted = false;
  members = [];
}

abbrev hello_row : MessageRow
hello_row = message_row hello 101

abbrev evicted_row : MessageRow
evicted_row = evict 500 hello_row

abbrev with_messages : List MessageRow → ChatDb
with_messages rows = record {
  chats = room ∷ [];
  attendees = [];
  chat_members = [];
  chat_messages = rows;
}

abbrev hello_db : ChatDb
hello_db = with_messages (hello_row ∷ [])

abbrev evicted_db : ChatDb
evicted_db = with_messages (evicted_row ∷ [])

abbrev ops : List MessageOp
ops =
    insert 600 hello_again
    ∷ edit "acc1" "m1" "hi" 601
    ∷ status "acc1" ("m1" ∷ []) "read"
    ∷ revoke "acc1" "m1"
    ∷ sweep (λ a. 60) 900
    ∷ delete "acc1" "m2"
    ∷ []

gone_row_500 : IsEvictedAt "acc1" "m1" 500 evicted_db
gone_row_500 = record { row = evicted_row; found = refl; evicted = refl; blank = refl }

m1_is_kept : All (KeepsRow "acc1" "m1") ops
m1_is_kept = (tt, (tt, (tt, (tt, (tt, (inr (ne_of_test "m1" "m2" refl), tt))))))

evicted_stays_example : IsEvictedAt "acc1" "m1" 500 (run_ops ops evicted_db)
evicted_stays_example = run_ops-IsEvictedAt "acc1" "m1" 500 ops evicted_db m1_is_kept gone_row_500

abbrev reports : List (Faults × ℕ × Callback)
reports =
    (no_faults, 300, message "acc1" second_message room ann)
    ∷ (no_faults, 301, message "acc2" second_message room ann)
    ∷ (no_faults, 302, deleted "acc1" "c1" "m1")
    ∷ []

isolation_example : SameFor "acc2" hello_db (drain_inbox "acc1" reports hello_db).0
isolation_example =
    drain_inbox-SameFor "acc1" "acc2" (ne_of_test "acc1" "acc2" refl) reports hello_db

abbrev first_db : ChatDb
first_db = with_messages []

abbrev after_first : ChatDb
after_first = (report "acc1" no_faults 101 (message "acc1" hello room ann) first_db).0

abbrev after_all : ChatDb
after_all = (drain_inbox "acc1" reports after_first).0

once_example :
    let again = report "acc1" no_faults 400 (message "acc1" hello_again room ann) after_all in
    (again.1 ≡ []) × (again.0.chat_messages ≡ after_all.chat_messages)
once_example =
    report-message_once "acc1" no_faults no_faults 101 400 hello hello_again room room ann ann
      reports first_db refl refl

room_counters : HasCounters "acc1" "c1" 2 (some 100) hello_db
room_counters = record { row = room; found = refl; unread_is = refl; last_is = refl }

counts_example :
    HasCounters "acc1" "c1"
      (2 + (if second_message.is_from_me then 0 else 1))
      (some 160)
      (on_message no_faults 170 "acc1" second_message room ann hello_db).0
counts_example =
    on_message-counts no_faults 170 "acc1" second_message room ann hello_db 2 (some 100) refl refl
      refl room_counters

abbrev edited_once : ChatDb
edited_once = (on_edited no_faults "acc1" "m1" "hi" 300 hello_db).0

edited_twice_example : on_edited no_faults "acc1" "m1" "hi" 310 edited_once ≡ (edited_once, [])
edited_twice_example =
    on_edited_twice no_faults no_faults "acc1" "m1" "hi" 300 310 hello_db refl refl

abbrev deleted_once : ChatDb
deleted_once = (on_deleted no_faults "acc1" "m1" hello_db).0

edit_after_delete_example :
    let after = on_edited no_faults "acc1" "m1" "hi" 300 deleted_once in
    (row_at "acc1" "m1" deleted_once ≡ some (revoked hello_row))
    × (row_at "acc1" "m1" after.0 ≡ some (edited_row "hi" 300 (revoked hello_row)))
    × ((ev : Event) × (full : ChatMessage) × (after.1 ≡ ev ∷ [])
        × (ev.message ≡ some full)
        × (full.text ≡ "hi")
        × (full.deleted ≡ true))
edit_after_delete_example =
    edit_after_delete "acc1" "m1" "hi" 300 hello_db hello_row refl refl refl
      (ne_of_test "hi" "" refl)
