-- ===== src/Worker/Recorded.antt =====
-- The preview that a run of internals/worker/process.go records.
use mathlib.Core.Path.{subst}
use sade_safe_media_delivery.Asset.{Asset, get_asset, preview, upsert_preview}
use sade_safe_media_delivery.Asset.Single.{SinglePreview, upsert_preview-SinglePreview}
use sade_safe_media_delivery.Asset.Upserted.{upsert_preview-row}
use sade_safe_media_delivery.Base.{
  >>>-eq_ok, >>>-ok_state, >>>-state, Bool-cases, List, Option-cases, Result, Result-cases, Text,
  Unique, ap, arith, codes, count_where, false, find_row, if_either, inl, inr, is_empty, length,
  lift_part-eq_ok, lift_part-state, ok, refl, some, str_eq, sym, ◌>>>◌, ◌∙◌, ◌≡◌,
}
use sade_safe_media_delivery.Job.{Job}
use sade_safe_media_delivery.Job.Service.{Blob}
use sade_safe_media_delivery.Worker.Preview.{process_job-err}
use sade_safe_media_delivery.Worker.Process.{
  Plant, ProbeResult, RunError, RunRequest, Wiring, engine_request, not_recorded,
}
use sade_safe_media_delivery.Worker.Run.{
  add_preview, email_preview, made_preview, notify, prepared, preview_key, preview_row, process_job,
  record_preview, record_sent, run_engine, signed_for,
}

-- The rows of the assets and the files of another plant.
abbrev SameFiles : Plant → Plant → Type 0
SameFiles st after = (after.assets ≡ st.assets) × (after.blobs ≡ st.blobs)

record_sent-SameFiles :
    (st : Plant) (req : RunRequest) (before : Plant) (recipient preview_id : Text)
    → SameFiles st before
    → SameFiles st (record_sent req before recipient preview_id)
unfolding record_sent
record_sent-SameFiles st req before recipient preview_id same =
    elim (Result-cases (get_asset req.asset_fails before.assets preview_id)) [
      | inl (a, found) ↦ rw (record_sent, found) same
      | inr (x, missing) ↦ rw (record_sent, missing) same
    ]

email_preview-SameFiles :
    (st : Plant) (e : Wiring) (req : RunRequest) (recipient preview_id : Text)
    → SameFiles st (email_preview e req st recipient preview_id).1
unfolding email_preview
email_preview-SameFiles st e req recipient preview_id =
    >>>-state (SameFiles st) (signed_for e req (codes "preview") preview_id, st) _ (refl, refl)
      (λ view st1 same1.
        >>>-state (SameFiles st) (signed_for e req (codes "download") preview_id, st1) _ same1
          (λ download st2 same2.
            if_either (λ (r : Result RunError (Unit {0}) × Plant). SameFiles st r.1) req.mail_fails
              same2 same2))

notify-SameFiles :
    (e : Wiring) (req : RunRequest) (st : Plant) (recipient preview_id : Text)
    → SameFiles st (notify e req st recipient preview_id).1
unfolding notify
notify-SameFiles e req st recipient preview_id =
    >>>-state (SameFiles st) (email_preview e req st recipient preview_id) _
      (email_preview-SameFiles st e req recipient preview_id)
      (λ t st1 same. record_sent-SameFiles st req st1 recipient preview_id same)

-- What a run that succeeds did: the file that it found, and the upsert that it made.
pub record Recorded (e : Wiring) (req : RunRequest) (before after : Plant) (j : Job)
    (key name : Text) : Type 0 where
  pub content : Text
  pub preview_id : Text
  pub is_filled : is_empty content ≡ false
  pub file : Blob
  pub in_store : find_row (λ b. str_eq b.key key) after.blobs ≡ some file
  pub is_content : file.content ≡ content
  pub is_id :
      (upsert_preview req.asset_fails req.asset_id req.now before.assets
        (preview_row e j key name content)).0
      ≡ ok preview_id
  pub is_table :
      after.assets
      ≡ (upsert_preview req.asset_fails req.asset_id req.now before.assets
          (preview_row e j key name content)).1

made_preview-ok :
    (req : RunRequest) (st : Plant) (key content : Text)
    → made_preview req st key ≡ ok content
    → (is_empty content ≡ false)
      × (file : Blob) × (find_row (λ b. str_eq b.key key) st.blobs ≡ some file)
      × (file.content ≡ content)
unfolding made_preview
made_preview-ok req st key content h = elim (Bool-cases req.stat_fails) [
  | inl down ↦ absurd (ground (arith, down, h))
  | inr up ↦ elim (Option-cases (find_row (λ b. str_eq b.key key) st.blobs)) [
    | inl missing ↦ absurd (ground (arith, up, missing, h))
    | inr (b, found) ↦ elim (Bool-cases (is_empty b.content)) [
      | inl blank ↦ absurd (ground (arith, up, found, blank, h))
      | inr filled ↦ elim (Bool-cases req.open_fails) [
        | inl shut ↦ absurd (ground (arith, up, found, filled, shut, h))
        | inr readable ↦
            let same : b.content ≡ content = ground (arith, up, found, filled, readable, h) in
            (subst (λ c. is_empty c ≡ false) same filled, b, found, same)
      ]
    ]
  ]
]

record_preview-ok :
    (e : Wiring) (req : RunRequest) (st : Plant) (j : Job) (key name : Text)
    → (record_preview e req st j key name).0 ≡ ok tt
    → Recorded e req st (record_preview e req st j key name).1 j key name
unfolding record_preview add_preview
record_preview-ok e req st j key name h =
    let chain = λ (content : Text) (st1 : Plant).
      add_preview e req st1 j key name content >>> λ preview_id st2.
      (ok tt, (notify e req st2 j.recipient_email preview_id).1) in
    let made = >>>-eq_ok (made_preview req st key, st) chain h in
    let content = made.0 in
    let stored =
      >>>-eq_ok (add_preview e req st j key name content)
        (λ preview_id st2. (ok tt, (notify e req st2 j.recipient_email preview_id).1)) made.2 in
    let r =
      upsert_preview req.asset_fails req.asset_id req.now st.assets
        (preview_row e j key name content) in
    let put = λ (rows : List Asset). record st { assets = rows } in
    let st2 = (add_preview e req st j key name content).1 in
    let told = notify-SameFiles e req st2 j.recipient_email stored.0 in
    let whole : (record_preview e req st j key name).1
        ≡ (notify e req st2 j.recipient_email stored.0).1 =
      ap (λ r. r.1)
        (>>>-ok_state (made_preview req st key, st) chain made.1
          ∙ >>>-ok_state (add_preview e req st j key name content)
              (λ preview_id st2. (ok tt, (notify e req st2 j.recipient_email preview_id).1))
              stored.1) in
    let file = made_preview-ok req st key content made.1 in
    let put_kept : st2 ≡ put r.1 = lift_part-state (λ x. not_recorded) put r in
    record {
      content = content;
      preview_id = stored.0;
      is_filled = file.0;
      file = file.1;
      in_store =
          subst (λ blobs. find_row (λ b. str_eq b.key key) blobs ≡ some file.1)
            (sym (ap (λ s. s.blobs) whole ∙ told.1 ∙ ap (λ s. s.blobs) put_kept)) file.2;
      is_content = file.3;
      is_id = lift_part-eq_ok (λ x. not_recorded) put r stored.1;
      is_table = ap (λ s. s.assets) whole ∙ told.0 ∙ ap (λ s. s.assets) put_kept;
    }

-- A run that succeeds prepared its request, and went to the end.
process_job-Recorded :
    (e : Wiring) (req : RunRequest) (st : Plant) (j : Job)
    → (process_job e req st j).0 ≡ ok tt
    → (p : ProbeResult × Text × Text × Text) × (prepared e req st j ≡ ok p)
      × Recorded e req st (process_job e req st j).1 j (preview_key j p.3) p.3
unfolding process_job run_engine
process_job-Recorded e req st j h =
    let engine = λ (p : ProbeResult × Text × Text × Text) (st1 : Plant).
      run_engine e st1 (preview_key j p.3) (engine_request e req st1 j p.0 p.1 p.2) in
    let rest = λ (p : ProbeResult × Text × Text × Text) (t : Unit {0}) (st2 : Plant).
      record_preview e req st2 j (preview_key j p.3) p.3 in
    let ready = >>>-eq_ok (prepared e req st j, st) (λ p st1. engine p st1 >>> rest p) h in
    let p = ready.0 in
    let ran = >>>-eq_ok (engine p st) (rest p) ready.2 in
    let whole : process_job e req st j ≡ rest p tt (engine p st).1 =
      >>>-ok_state (prepared e req st j, st) (λ p st1. engine p st1 >>> rest p) ready.1
      ∙ >>>-ok_state (engine p st) (rest p) ran.1 in
    let found = record_preview-ok e req (engine p st).1 j (preview_key j p.3) p.3 ran.2 in
    (
      p,
      ready.1,
      subst (λ after. Recorded e req st after j (preview_key j p.3) p.3) (sym (ap (λ r. r.1) whole))
          record {
            content = found.content;
            preview_id = found.preview_id;
            is_filled = found.is_filled;
            file = found.file;
            in_store = found.in_store;
            is_content = found.is_content;
            is_id = found.is_id;
            is_table = found.is_table;
          },
    )

-- The preview of a run: its row in the table, and its file in the store.
pub record Previewed (e : Wiring) (after : Plant) (j : Job) (key name : Text) : Type 0 where
  pub file : Blob
  pub is_stored : find_row (λ b. str_eq b.key key) after.blobs ≡ some file
  pub is_filled : is_empty file.content ≡ false
  pub preview_id : Text
  pub row : Asset
  pub is_row : find_row (λ a. str_eq a.id preview_id) after.assets ≡ some row
  pub is_of_job : row.job_id ≡ j.id
  pub is_preview : row.kind ≡ preview
  pub has_key : row.storage_key ≡ key
  pub has_name : row.filename ≡ name
  pub has_size : row.size_bytes ≡ length file.content
  pub has_checksum : row.checksum ≡ e.checksum file.content

Recorded-Previewed :
    (e : Wiring) (req : RunRequest) (before after : Plant) (j : Job) (key name : Text)
    → Unique (λ r. r.id) before.assets
    → count_where (λ r. str_eq r.id req.asset_id) before.assets ≡ 0
    → Recorded e req before after j key name
    → Previewed e after j key name
Recorded-Previewed e req before after j key name unique fresh r =
    let (since, there) =
      upsert_preview-row req.asset_fails req.asset_id req.now before.assets
        (preview_row e j key name r.content) r.preview_id unique fresh r.is_id in
    record {
      file = r.file;
      is_stored = r.in_store;
      is_filled = subst (λ c. is_empty c ≡ false) (sym r.is_content) r.is_filled;
      preview_id = r.preview_id;
      row = record (preview_row e j key name r.content) {
        kind = preview;
        id = r.preview_id;
        created_at = since;
      };
      is_row = ap (find_row (λ a. str_eq a.id r.preview_id)) r.is_table ∙ there;
      is_of_job = unfold preview_row in refl;
      is_preview = refl;
      has_key = unfold preview_row in refl;
      has_name = unfold preview_row in refl;
      has_size = unfold preview_row in ap length (sym r.is_content);
      has_checksum = unfold preview_row in ap e.checksum (sym r.is_content);
    }

-- A run that succeeds has left a preview: the table has a row of the job of the kind `preview`, and the row
-- names the file in the store under the job's preview key, with the number of bytes and the checksum that
-- this file has; and the file is not empty. The ids of the assets are unique, and the one that the
-- database would give is fresh. The mail need not have gone out.
pub process_job-ok :
    (e : Wiring) (req : RunRequest) (st : Plant) (j : Job)
    → Unique (λ r. r.id) st.assets
    → count_where (λ r. str_eq r.id req.asset_id) st.assets ≡ 0
    → (process_job e req st j).0 ≡ ok tt
    → (p : ProbeResult × Text × Text × Text) × (prepared e req st j ≡ ok p)
      × Previewed e (process_job e req st j).1 j (preview_key j p.3) p.3
process_job-ok e req st j unique fresh h =
    let (p, ready, done_so) = process_job-Recorded e req st j h in
    (
      p,
      ready,
      Recorded-Previewed e req st (process_job e req st j).1 j (preview_key j p.3) p.3 unique fresh
          done_so,
    )

-- If the ids of the assets are unique and no job has two previews, then no job has two after a run, however
-- often the job ran before and whatever the outcome.
pub process_job-SinglePreview :
    (e : Wiring) (req : RunRequest) (st : Plant) (j : Job)
    → Unique (λ r. r.id) st.assets
    → SinglePreview st.assets
    → SinglePreview (process_job e req st j).1.assets
process_job-SinglePreview e req st j unique single =
    elim (Result-cases (process_job e req st j).0) [
      | inr (x, erred) ↦
          subst SinglePreview (sym (ap (λ r. r.0) (process_job-err e req st j erred))) single
      | inl (t, went) ↦
          let found = process_job-Recorded e req st j went in
          let p = found.0 in
          subst SinglePreview (sym (found.2.is_table)) (
            upsert_preview-SinglePreview req.asset_fails req.asset_id req.now st.assets
              (preview_row e j (preview_key j p.3) p.3 found.2.content) unique single)
    ]
