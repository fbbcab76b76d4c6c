-- ===== src/Store/Emails/Frozen.antt =====
-- Evicted mail stays blank over every write of the mirror, and stays known to the sync.
use mathlib.Core.Option
use unified_messaging.Prelude.{
  ℕ, String, ◌≡◌, ◌≢◌, ap, ◌∙◌, ◌⊎◌, Bool, true, false, some, List, [], ◌∷◌, arith, eq_iff,
  if◌then◌else◌, if_both, find_row, update_rows, has_row, All, find_row-update_rows_if,
  find_row-delete_rows_ne, find_row-append, find_row-has_row,
}
use unified_messaging.Model.{Email}
use unified_messaging.Store.Emails.{
  EmailRow, is_email, email_row, merge_email, upsert_email, blanked, is_kept_email,
  evict_email_content, is_expired_email, evict_expired_emails, email_exists, delete_email,
}

-- The writes of the mail mirror.
pub data EmailOp : Type 0 where
  upsert : (now : ℕ) → Email → EmailOp
  evict : (account id : String) → ℕ → EmailOp
  sweep : (String → ℕ) → ℕ → EmailOp
  delete : (account id : String) → EmailOp

unfoldable pub run_email_op : EmailOp → List EmailRow → List EmailRow
run_email_op (upsert now e) rows = upsert_email now e rows
run_email_op (evict acc id at) rows = evict_email_content acc id at rows
run_email_op (sweep max_age now) rows = evict_expired_emails max_age now rows
run_email_op (delete acc id) rows = delete_email acc id rows

unfoldable pub run_email_ops : List EmailOp → List EmailRow → List EmailRow
run_email_ops [] rows = rows
run_email_ops (op ∷ ops) rows = run_email_ops ops (run_email_op op rows)

abbrev pub KeepsEmail : String → String → EmailOp → Type 0
KeepsEmail acc id (delete a i) = (acc ≢ a) ⊎ (id ≢ i)
KeepsEmail acc id _ = Unit

-- Nothing of the content or of the participants is left in the row.
pub record IsBlank (r : EmailRow) : Type 0 where
  pub subject : r.subject ≡ ""
  pub snippet : r.snippet ≡ ""
  pub body : r.body ≡ ""
  pub body_type : r.body_type ≡ ""
  pub from_name : r.from_name ≡ ""
  pub from_email : r.from_email ≡ ""
  pub to : r.to ≡ []
  pub cc : r.cc ≡ []
  pub bcc : r.bcc ≡ []
  pub reply_to : r.reply_to ≡ []
  pub attachments : r.attachments ≡ some []

pub record IsFrozen (acc id : String) (at : ℕ) (rows : List EmailRow) : Type 0 where
  pub row : EmailRow
  pub found : find_row (is_email acc id) rows ≡ some row
  pub evicted : row.content_evicted_at ≡ some at
  pub blank : IsBlank row

-- An UPDATE that keeps the key, the date and the blank columns of an evicted row.
update-IsFrozen :
    (acc id : String) (at : ℕ) (rows : List EmailRow) (q : EmailRow → Bool)
    (f : EmailRow → EmailRow)
    → ((r : EmailRow) → is_email acc id (if q r then f r else r) ≡ is_email acc id r)
    → ((r : EmailRow)
        → r.content_evicted_at ≡ some at
        → IsBlank r
        → ((if q r then f r else r).content_evicted_at ≡ some at)
          × IsBlank (if q r then f r else r))
    → IsFrozen acc id at rows
    → IsFrozen acc id at (update_rows q f rows)
update-IsFrozen acc id at rows q f key still e = record {
  row = if q e.row then f e.row else e.row;
  found =
      find_row-update_rows_if (is_email acc id) q f rows key
      ∙ ap (Option.map (λ r. if q r then f r else r)) e.found;
  evicted = (still e.row e.evicted e.blank).0;
  blank = (still e.row e.evicted e.blank).1;
}

merge-still :
    (e : Email) (at : ℕ) (q : EmailRow → Bool) (r : EmailRow)
    → r.content_evicted_at ≡ some at
    → IsBlank r
    → ((if q r then merge_email e r else r).content_evicted_at ≡ some at)
      × IsBlank (if q r then merge_email e r else r)
merge-still e at q r t b = (ground arith, ground arith)

upsert-IsFrozen :
    (acc id : String) (at now : ℕ) (e : Email) (rows : List EmailRow)
    → IsFrozen acc id at rows
    → IsFrozen acc id at (upsert_email now e rows)
unfolding upsert_email
upsert-IsFrozen acc id at now e rows f =
    if_both (IsFrozen acc id at) (has_row (is_email e.account_id e.id) rows)
      (λ _.
        update-IsFrozen acc id at rows (is_email e.account_id e.id) (merge_email e)
          (λ r. ground arith) (λ r t b. merge-still e at (is_email e.account_id e.id) r t b) f)
      (λ _. record {
        row = f.row;
        found = ground (
          arith,
          find_row-append (is_email acc id) rows (email_row now e ∷ []),
          find_row-has_row (is_email acc id) rows {r = f.row} f.found,
          f.found,
        );
        evicted = f.evicted;
        blank = f.blank;
      })

email_apart :
    (acc id a i : String) (r : EmailRow)
    → (acc ≢ a) ⊎ (id ≢ i)
    → is_email acc id r ≡ true
    → is_email a i r ≡ false
email_apart acc id a i r other h =
    ground (arith, eq_iff r.account_id acc, eq_iff r.id id, eq_iff r.account_id a, eq_iff r.id i)

run_email_op-IsFrozen :
    (acc id : String) (at : ℕ) (op : EmailOp) (rows : List EmailRow)
    → KeepsEmail acc id op
    → IsFrozen acc id at rows
    → IsFrozen acc id at (run_email_op op rows)
unfolding run_email_op evict_email_content evict_expired_emails is_expired_email delete_email
run_email_op-IsFrozen acc id at (upsert now e) rows k f = upsert-IsFrozen acc id at now e rows f
run_email_op-IsFrozen acc id at (evict a i t) rows k f =
    update-IsFrozen acc id at rows (is_kept_email a i) (blanked t) (λ r. ground arith)
      (λ r d b. (ground arith, ground arith)) f
run_email_op-IsFrozen acc id at (sweep max_age now) rows k f =
    update-IsFrozen acc id at rows (is_expired_email max_age now) (blanked now) (λ r. ground arith)
      (λ r d b. (ground arith, ground arith)) f
run_email_op-IsFrozen acc id at (delete a i) rows k f = record {
  row = f.row;
  found =
      find_row-delete_rows_ne (is_email acc id) (is_email a i) rows
        (λ r h. email_apart acc id a i r k h)
      ∙ f.found;
  evicted = f.evicted;
  blank = f.blank;
}

-- Once the content of a mail was evicted, no write of the mirror short of deleting the row brings
-- any of it back or moves the time of the eviction: not a resync with full message properties, not
-- a later eviction, not the sweep. The row stays, so the sync keeps taking the mail for known.
pub run_email_ops-IsFrozen :
    (acc id : String) (at : ℕ) (ops : List EmailOp) (rows : List EmailRow)
    → All (KeepsEmail acc id) ops
    → IsFrozen acc id at rows
    → IsFrozen acc id at (run_email_ops ops rows)
      × (email_exists acc id (run_email_ops ops rows) ≡ true)
unfolding run_email_ops email_exists
run_email_ops-IsFrozen acc id at [] rows k f =
    (f, find_row-has_row (is_email acc id) rows {r = f.row} f.found)
run_email_ops-IsFrozen acc id at (op ∷ ops) rows k f =
    run_email_ops-IsFrozen acc id at ops (run_email_op op rows) k.1
      (run_email_op-IsFrozen acc id at op rows k.0 f)
