-- ===== src/Examples/Mail.antt =====
-- One mail, synced, evicted and synced again.
use unified_messaging.Prelude.{
  ℕ, ◌≡◌, refl, inr, true, false, none, some, List, [], ◌∷◌, All, ne_of_test,
}
use unified_messaging.Model.{Attachment, Email, Recipient}
use unified_messaging.Store.Emails.{EmailRow, email_row, blanked, email_exists, get_email_row}
use unified_messaging.Store.Emails.Latest.{
  upsert_emails, syncs_of, latest_list, IsLatest, upsert_emails-IsLatest,
}
use unified_messaging.Store.Emails.Frozen.{
  EmailOp, upsert, evict, sweep, delete, KeepsEmail, IsFrozen, run_email_ops,
  run_email_ops-IsFrozen,
}

abbrev someone : Recipient
someone = record { name = "Bo"; email = "bo@example.com" }

abbrev invoice : Attachment
invoice = record {
  id = "a1";
  name = "invoice.pdf";
  mime_type = "application/pdf";
  size = 1000;
  is_inline = false;
  content_id = "";
}

abbrev pub mail : Email
mail = record {
  id = "e1";
  account_id = "acc1";
  thread_id = "t1";
  folder_id = "inbox";
  subject = "Invoice";
  from = someone;
  to = someone ∷ [];
  cc = [];
  bcc = [];
  reply_to = [];
  date = 100;
  snippet = "Please find";
  body = "Please find attached";
  body_type = "text";
  body_plain = "";
  role = "inbox";
  read = false;
  flagged = false;
  draft = false;
  has_attachments = true;
  content_evicted = false;
  internet_message_id = "<1@example.com>";
  attachments = none;
}

abbrev pub cached_row : EmailRow
cached_row = email_row 100 (record mail { attachments = some (invoice ∷ []) })

abbrev gone_row : EmailRow
gone_row = blanked 500 cached_row

abbrev mail_ops : List EmailOp
mail_ops = upsert 600 mail ∷ evict "acc1" "e1" 700 ∷ sweep (λ a. 60) 800 ∷ delete "acc1" "e2" ∷ []

gone-IsFrozen : IsFrozen "acc1" "e1" 500 (gone_row ∷ [])
gone-IsFrozen = record {
  row = gone_row;
  found = refl;
  evicted = refl;
  blank = record {
    subject = refl;
    snippet = refl;
    body = refl;
    body_type = refl;
    from_name = refl;
    from_email = refl;
    to = refl;
    cc = refl;
    bcc = refl;
    reply_to = refl;
    attachments = refl;
  };
}

e1_is_kept : All (KeepsEmail "acc1" "e1") mail_ops
e1_is_kept = (tt, (tt, (tt, (inr (ne_of_test "e1" "e2" refl), tt))))

mail_stays_gone_example :
    IsFrozen "acc1" "e1" 500 (run_email_ops mail_ops (gone_row ∷ []))
    × (email_exists "acc1" "e1" (run_email_ops mail_ops (gone_row ∷ [])) ≡ true)
mail_stays_gone_example =
    run_email_ops-IsFrozen "acc1" "e1" 500 mail_ops (gone_row ∷ []) e1_is_kept gone-IsFrozen

-- a mail that is synced with an attachment, then with neither a text nor a list, then without
-- attachments; another mail in between
abbrev syncs : List (ℕ × Email)
syncs =
    (600, record mail { body = "New"; attachments = some (invoice ∷ []) })
    ∷ (610, record mail { id = "e2"; body = "Other" })
    ∷ (620, record mail { subject = "Re: Invoice"; body = "" })
    ∷ (630, record mail { body = ""; attachments = some [] })
    ∷ []

many_syncs_example :
    (s : EmailRow) × (get_email_row "acc1" "e1" (upsert_emails syncs (cached_row ∷ [])) ≡ some s)
    × IsLatest (syncs_of "acc1" "e1" syncs) cached_row s
unfolding get_email_row
many_syncs_example = upsert_emails-IsLatest "acc1" "e1" syncs cached_row (cached_row ∷ []) refl refl

-- the list is lost with the sync that carries none
lost_list_example : latest_list (some (invoice ∷ [])) (none ∷ some [] ∷ []) ≡ none
lost_list_example = refl
