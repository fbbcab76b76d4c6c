-- ===== src/Store/Emails/Latest.antt =====
-- What the mirror holds of a mail that was synced many times.
use mathlib.Core.Option
use unified_messaging.Prelude.{
  ℕ, String, ◌≡◌, refl, sym, ap, eq_iff, if_true, find_row-upsert_row_ne, ◌∙◌, Bool, true, false,
  not, ◌&&◌, Option, none, some, List, [], ◌∷◌, ◌==◌, arith, if◌then◌else◌, if_both, Bool-cases,
  inl, inr, find_row, has_row, find_row-has_row, find_row-update_rows_if, find_row-holds,
  select_rows, map,
}
use unified_messaging.Model.{Attachment, Email}
use unified_messaging.Store.Emails.{
  EmailRow, is_email, email_row, merge_email, upsert_email, get_email_row, unless_blank,
  unless_empty,
}

-- A sequence of syncs: the mails as they came, each with its time.
abbrev pub upsert_emails : List (ℕ × Email) → List EmailRow → List EmailRow
upsert_emails [] rows = rows
upsert_emails (u ∷ us) rows = upsert_emails us (upsert_email u.0 u.1 rows)

-- the syncs of one mail
abbrev pub syncs_of : String → String → List (ℕ × Email) → List Email
syncs_of acc id us =
    select_rows (λ (e : Email). e.account_id == acc && e.id == id) (map (λ (u : ℕ × Email). u.1) us)

-- the last of a list, or what was there before it
abbrev pub last_or {ℓ} : {A : Type ℓ} → A → List A → A
last_or a [] = a
last_or a (x ∷ xs) = last_or x xs

abbrev is_text : String → Bool
is_text s = not (s == "")

abbrev is_list : Option (List Attachment) → Bool
is_list none = true
is_list (some []) = false
is_list (some (a ∷ rest)) = true

-- The last text, and the last attachment list that is no empty one: a missing list counts.
abbrev pub latest_text : String → List String → String
latest_text old texts = last_or old (select_rows is_text texts)

abbrev pub latest_list :
    Option (List Attachment) → List (Option (List Attachment)) → Option (List Attachment)
latest_list old lists = last_or old (select_rows is_list lists)

-- What the row of a mail holds.
abbrev pub IsLatest : List Email → EmailRow → EmailRow → Type 0
IsLatest es r s =
    (s.body ≡ latest_text r.body (map (λ (e : Email). e.body) es))
    × (s.body_type ≡ latest_text r.body_type (map (λ (e : Email). e.body_type) es))
    × (s.attachments ≡ latest_list r.attachments (map (λ (e : Email). e.attachments) es))
    × (s.subject ≡ last_or r.subject (map (λ (e : Email). e.subject) es))
    × (s.folder_id ≡ last_or r.folder_id (map (λ (e : Email). e.folder_id) es))
    × (s.content_evicted_at ≡ none)

text_step :
    (new old : String) (texts : List String)
    → latest_text (unless_blank new old) texts ≡ latest_text old (new ∷ texts)
text_step new old texts = elim (Bool-cases (new == "")) [ inl e ↦ rw e refl | inr e ↦ rw e refl ]

list_step :
    (new old : Option (List Attachment)) (lists : List (Option (List Attachment)))
    → latest_list (unless_empty new old) lists ≡ latest_list old (new ∷ lists)
list_step none old lists = refl
list_step (some []) old lists = refl
list_step (some (a ∷ rest)) old lists = refl

merged :
    (e : Email) (es : List Email) (r s : EmailRow)
    → r.content_evicted_at ≡ none
    → IsLatest es (merge_email e r) s
    → IsLatest (e ∷ es) r s
merged e es r s kept h =
    let (body, body_type, attachments, subject, folder, still) = rw kept at h in
    (
      body ∙ text_step e.body r.body (map (λ (x : Email). x.body) es),
      body_type ∙ text_step e.body_type r.body_type (map (λ (x : Email). x.body_type) es),
      attachments ∙ list_step e.attachments r.attachments (map (λ (x : Email). x.attachments) es),
      subject,
      folder,
      still,
    )

-- a sync of the mail itself
found_mine :
    (now : ℕ) (e : Email) (r : EmailRow) (rows : List EmailRow)
    → get_email_row e.account_id e.id rows ≡ some r
    → get_email_row e.account_id e.id (upsert_email now e rows) ≡ some (merge_email e r)
unfolding upsert_email get_email_row
found_mine now e r rows found =
    let p = is_email e.account_id e.id in
    let there = find_row-has_row p rows {r = r} found in
    if_both (λ (rs : List EmailRow). find_row p rs ≡ some (merge_email e r)) (has_row p rows)
      (λ _.
        find_row-update_rows_if p p (merge_email e) rows (λ x. ground arith)
        ∙ ap (Option.map (λ x. if p x then merge_email e x else x)) found
        ∙ ap some (if_true (p r) (merge_email e r) r (find_row-holds p rows {r = r} found)))
      (λ gone. absurd (ground arith))

module _ (acc id : String) where
  -- a sync of another mail
  found_other :
      (now : ℕ) (e : Email) (rows : List EmailRow)
      → (e.account_id == acc && e.id == id) ≡ false
      → get_email_row acc id (upsert_email now e rows) ≡ get_email_row acc id rows
  unfolding upsert_email get_email_row
  found_other now e rows other =
      let apart : (x : EmailRow) → is_email acc id x ≡ true → is_email e.account_id e.id x ≡ false =
        λ x h. ground (
          arith,
          other,
          eq_iff x.account_id acc,
          eq_iff x.id id,
          eq_iff x.account_id e.account_id,
          eq_iff x.id e.id,
          eq_iff e.account_id acc,
          eq_iff e.id id,
        ) in
      find_row-upsert_row_ne (is_email e.account_id e.id) (is_email acc id) (merge_email e)
        (email_row now e) rows apart (λ x. ground arith) other

  found_same :
      (now : ℕ) (e : Email) (r : EmailRow) (rows : List EmailRow)
      → (e.account_id == acc && e.id == id) ≡ true
      → get_email_row acc id rows ≡ some r
      → get_email_row acc id (upsert_email now e rows) ≡ some (merge_email e r)
  found_same now e r rows same found =
      let a : acc ≡ e.account_id = sym ((eq_iff e.account_id acc).0 (ground arith)) in
      let b : id ≡ e.id = sym ((eq_iff e.id id).0 (ground arith)) in
      rw (a, b) (found_mine now e r rows (rw (a, b) at found))

  merged-kept :
      (e : Email) (r : EmailRow)
      → r.content_evicted_at ≡ none
      → (merge_email e r).content_evicted_at ≡ none
  merged-kept e r kept = ground (arith, kept)

  -- After any sequence of syncs, of this mail and of others, a mail that is stored and whose content is
  -- not evicted is stored still: its body and its body's type are the last ones that came for it and
  -- were not blank, its attachments the last list that came and was not an empty one, a missing list
  -- counting as one that came, and its subject and folder the last that came; what the row held
  -- at first stands where none came.
  pub upsert_emails-IsLatest :
      (us : List (ℕ × Email)) (r : EmailRow) (rows : List EmailRow)
      → get_email_row acc id rows ≡ some r
      → r.content_evicted_at ≡ none
      → (s : EmailRow) × (get_email_row acc id (upsert_emails us rows) ≡ some s)
        × IsLatest (syncs_of acc id us) r s
  upsert_emails-IsLatest [] r rows found kept = (r, found, (refl, refl, refl, refl, refl, kept))
  upsert_emails-IsLatest (u ∷ us) r rows found kept =
      let (now, e) = u in
      elim (Bool-cases (e.account_id == acc && e.id == id)) [
        | inr t ↦ rw t (
            upsert_emails-IsLatest us r (upsert_email now e rows) (found_other now e rows t ∙ found)
              kept)
        | inl t ↦
            let (s, there, latest) =
              upsert_emails-IsLatest us (merge_email e r) (upsert_email now e rows)
                (found_same now e r rows t found) (merged-kept e r kept) in
            (s, there, rw t (merged e (syncs_of acc id us) r s kept latest))
      ]
