-- ===== src/Events/Sender/Kinds.antt =====
-- The kinds of hooks and the names of events, as the API, the registry and the dispatcher see them.
use unified_messaging.Prelude.{
  ◌≡◌, ◌≢◌, refl, ◌⊎◌, ◌↔◌, inl, inr, String, true, none, some, ◌==◌, arith, eq_iff, Bool-cases,
}
use unified_messaging.Model.{
  EventType, event_name, known_event, known_webhook_kind, mail_received, mail_sent, mail_updated,
  mail_deleted, account_error, webhook_test, chat_received, chat_sent, chat_updated, chat_reaction,
  chat_deleted,
}
use unified_messaging.Events.Sender.{webhook_sender, sender_for, delivers_full_payload}

-- The test by which an eviction counts a hook agrees with the registry: a kind delivers the full
-- payload exactly when its sender is the one that posts the payload.
pub delivers_full_payload-sender :
    (kind : String) → delivers_full_payload kind ≡ true ↔ sender_for kind ≡ some webhook_sender
unfolding delivers_full_payload sender_for
delivers_full_payload-sender kind = (λ h. ground arith, λ h. ground arith)

-- Every kind that the API accepts has a sender, and the only other kind with one is the empty kind
-- of the old rows.
pub sender_for-known :
    (kind : String) → sender_for kind ≢ none ↔ (known_webhook_kind kind ≡ true) ⊎ (kind ≡ "")
unfolding sender_for known_webhook_kind
sender_for-known kind = (
  λ h. elim (Bool-cases (kind == "")) [
    | inl e ↦ inr ((eq_iff kind "").0 e)
    | inr e ↦ elim (Bool-cases (known_webhook_kind kind)) [
      | inl k ↦ inl k
      | inr k ↦ absurd (h (ground arith))
    ]
  ],
  λ h n. ground (arith, eq_iff kind ""),
)

-- Every event that the program emits can be subscribed to by its name, but for the test event.
pub known_event-emitted : (t : EventType) → known_event (event_name t) ≡ true ↔ t ≢ webhook_test
unfolding known_event event_name
known_event-emitted mail_received = (λ h q. ground arith, λ ne. refl)
known_event-emitted mail_sent = (λ h q. ground arith, λ ne. refl)
known_event-emitted mail_updated = (λ h q. ground arith, λ ne. refl)
known_event-emitted mail_deleted = (λ h q. ground arith, λ ne. refl)
known_event-emitted account_error = (λ h q. ground arith, λ ne. refl)
known_event-emitted chat_received = (λ h q. ground arith, λ ne. refl)
known_event-emitted chat_sent = (λ h q. ground arith, λ ne. refl)
known_event-emitted chat_updated = (λ h q. ground arith, λ ne. refl)
known_event-emitted chat_reaction = (λ h q. ground arith, λ ne. refl)
known_event-emitted chat_deleted = (λ h q. ground arith, λ ne. refl)
known_event-emitted webhook_test = (λ h q. ground arith, λ ne. absurd (ne refl))
