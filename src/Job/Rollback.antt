-- ===== src/Job/Rollback.antt =====
-- A Create that fails leaves nothing behind (internals/app/job/service.go).
use sade_safe_media_delivery.Asset.{create_asset, insert_asset}
use sade_safe_media_delivery.Base.{
  Bool-cases, List, Result-cases, Text, [], ap, arith, count_where, count_where-last,
  delete_where-last, delete_where_absent, err, false, if◌then◌else◌, inl, inr, is_empty, length, ok,
  refl, str_eq, str_eq_refl, sym, true, ◌++◌, ◌∙◌, ◌∷◌, ◌≡◌, ◌⊎◌,
}
use sade_safe_media_delivery.Job.{Job, Usage}
use sade_safe_media_delivery.Job.Create.{
  add_original, admit, check_stored, create, keep_original, limited, new_original, original_key,
  put_blob, rollback, rolled, store_original, with_row,
}
use sade_safe_media_delivery.Job.Owned.{cascade, delete_blob}
use sade_safe_media_delivery.Job.Repo.{
  create_job, delete_job, delete_job_row, has_id, insert_job, job_internal,
}
use sade_safe_media_delivery.Job.Service.{Blob, JobError, JobRequest, JobService, NewUpload, Works}

-- No row refers to the id that the database is about to give, and no file has its key.
pub record IsFresh (req : JobRequest) (w : Works) : Type 0 where
  pub no_job : count_where (has_id req.job_id) w.jobs ≡ 0
  pub no_asset : count_where (λ a. str_eq a.job_id req.job_id) w.assets ≡ 0
  pub no_payment : count_where (λ p. str_eq p.job_id req.job_id) w.payments ≡ 0
  pub no_event : count_where (λ e. str_eq e.job_id req.job_id) w.events ≡ 0
  pub no_blob :
      (ext : Text) → count_where (λ b. str_eq b.key (original_key req.job_id ext)) w.blobs ≡ 0

-- The statements and deletions of rollback work.
pub record RollbackWorks (req : JobRequest) : Type 0 where
  pub delete_works : req.job_fails delete_job ≡ false
  pub files_go : (key : Text) → req.delete_fails key ≡ false

cascade-fresh : (req : JobRequest) (w : Works) → IsFresh req w → cascade req.job_id w ≡ w
unfolding cascade
cascade-fresh req w fresh =
    rw
      (
        cascade,
        delete_where_absent (λ a. str_eq a.job_id req.job_id) w.assets fresh.no_asset,
        delete_where_absent (λ p. str_eq p.job_id req.job_id) w.payments fresh.no_payment,
        delete_where_absent (λ e. str_eq e.job_id req.job_id) w.events fresh.no_event,
      )
      refl

module _ (req : JobRequest) (w : Works) (fresh : IsFresh req w) (undoes : RollbackWorks req)
    (j : Job) (own : str_eq j.id req.job_id ≡ true) where
  delete_job_row-last : delete_job_row req.job_fails (w.jobs ++ j ∷ []) req.job_id ≡ (ok tt, w.jobs)
  unfolding delete_job_row count_where
  delete_job_row-last =
      rw
        (
          delete_job_row,
          undoes.delete_works,
          count_where-last (has_id req.job_id) w.jobs j,
          fresh.no_job,
          own,
          delete_where-last (has_id req.job_id) w.jobs j fresh.no_job own,
        )
        refl

  -- A row and a file that were added are taken back.
  rollback_undoes :
      (blobs : List Blob) (key : Text)
      → (if is_empty key then blobs else delete_blob req key blobs) ≡ w.blobs
      → rollback req (record w { jobs = w.jobs ++ j ∷ []; blobs = blobs }) req.job_id key ≡ w
  unfolding rollback rolled cascade
  rollback_undoes blobs key gone =
      let w1 : Works = record w { jobs = w.jobs ++ j ∷ []; blobs = blobs } in
      ap (λ b. rolled w1 b req.job_id (delete_job_row req.job_fails w1.jobs req.job_id)) gone
      ∙ ap (rolled w1 w.blobs req.job_id) delete_job_row-last
      ∙ ap (λ (v : Works). record v { jobs = w.jobs; blobs = w.blobs }) (cascade-fresh req w fresh)

  -- The file that Create stored goes with it.
  delete_blob-put_blob :
      (ext content : Text)
      → delete_blob req
          (original_key req.job_id ext)
          (put_blob (record { key = original_key req.job_id ext; content = content }) w.blobs)
        ≡ w.blobs
  unfolding delete_blob put_blob
  delete_blob-put_blob ext content =
      let key = original_key req.job_id ext in
      rw
        (
          delete_blob,
          put_blob,
          undoes.files_go key,
          delete_where_absent (λ (b : Blob). str_eq b.key key) w.blobs (fresh.no_blob ext),
        )
        (delete_where-last (λ (b : Blob). str_eq b.key key) w.blobs
          (record { key = key; content = content }) (fresh.no_blob ext) (str_eq_refl key))

module _ (s : JobService) (req : JobRequest) (w : Works) (up : NewUpload) (j : Job)
    (ext content : Text) (u : Usage) (fresh : IsFresh req w) (undoes : RollbackWorks req) where
  -- The job as Create knows it, and as the table holds it.
  abbrev j1 : Job
  j1 = record j { id = req.job_id }

  abbrev row : Job
  row = record j { id = req.job_id; created_at = req.now; updated_at = req.now }

  abbrev key : Text
  key = original_key req.job_id ext

  abbrev full : Works
  full = record w {
    jobs = w.jobs ++ row ∷ [];
    blobs = put_blob (record { key = key; content = content }) w.blobs;
  }

  rollback-full : rollback req full req.job_id key ≡ w
  rollback-full = rollback_undoes req w fresh undoes row (str_eq_refl req.job_id) full.blobs key (
      unfold original_key in
      delete_blob-put_blob req w fresh undoes row (str_eq_refl req.job_id) ext content)

  add_original_undoes :
      (e : JobError)
      → (add_original s req full j1 (new_original s up req.job_id key ext content)).0 ≡ err e
      → (add_original s req full j1 (new_original s up req.job_id key ext content)).1 ≡ w
  unfolding add_original create_asset new_original
  add_original_undoes e h = elim (Bool-cases (req.asset_fails insert_asset)) [
    | inl fails ↦ rw (add_original, create_asset, fails) rollback-full
    | inr works ↦ absurd (ground (arith, works, h))
  ]

  keep_original_undoes :
      (e : JobError)
      → (keep_original s req full up j1 ext u content).0 ≡ err e
      → (keep_original s req full up j1 ext u content).1 ≡ w
  unfolding keep_original
  keep_original_undoes e h =
      elim (Result-cases (check_stored s u key j.media_type (length content))) [
        | inr (e1, bad) ↦ rw (keep_original, bad) rollback-full
        | inl (x, good) ↦
            let same : keep_original s req full up j1 ext u content
                ≡ add_original s req full j1 (new_original s up req.job_id key ext content) =
              rw (keep_original, good) refl in
            ap (λ r. r.1) same ∙ add_original_undoes e (sym (ap (λ r. r.0) same) ∙ h)
      ]

-- Create from an inserted row on.
with_row_undoes :
    (s : JobService) (req : JobRequest) (w : Works) (up : NewUpload) (j : Job) (ext : Text)
    (u : Usage)
    → IsFresh req w
    → RollbackWorks req
    → let jobs =
        w.jobs ++ record j { id = req.job_id; created_at = req.now; updated_at = req.now } ∷ [] in
      (e : JobError)
      → (with_row s req w up j ext u (ok req.job_id, jobs)).0 ≡ err e
      → (with_row s req w up j ext u (ok req.job_id, jobs)).1 ≡ w
unfolding with_row
with_row_undoes s req w up j ext u fresh undoes e h = elim (Bool-cases (req.put_fails)) [
  | inl broken ↦
      rw (with_row, broken)
        (rollback_undoes req w fresh undoes
          (record j { id = req.job_id; created_at = req.now; updated_at = req.now })
          (str_eq_refl req.job_id) w.blobs [] refl)
  | inr stored ↦
      let jobs =
        w.jobs ++ record j { id = req.job_id; created_at = req.now; updated_at = req.now } ∷ [] in
      let content = limited s up.file in
      let same : with_row s req w up j ext u (ok req.job_id, jobs)
          ≡ keep_original s req
              (record w {
                jobs = jobs;
                blobs =
                    put_blob (record { key = original_key req.job_id ext; content = content })
                      w.blobs;
              })
              up (record j { id = req.job_id }) ext u content =
        rw (with_row, stored) refl in
      ap (λ r. r.1) same
      ∙ keep_original_undoes s req w up j ext content u fresh undoes e
          (sym (ap (λ r. r.0) same) ∙ h)
]

create_job-cases :
    (req : JobRequest) (jobs : List Job) (j : Job)
    → (create_job req.job_fails req.job_id req.now jobs j ≡ (err job_internal, jobs))
      ⊎ (create_job req.job_fails req.job_id req.now jobs j ≡ (
        ok req.job_id,
        jobs ++ record j { id = req.job_id; created_at = req.now; updated_at = req.now } ∷ [],
      ))
unfolding create_job
create_job-cases req jobs j = elim (Bool-cases (req.job_fails insert_job)) [
  | inl fails ↦ inl (rw (create_job, fails) refl)
  | inr works ↦ inr (rw (create_job, works) refl)
]

store_original_undoes :
    (s : JobService) (req : JobRequest) (w : Works) (up : NewUpload) (j : Job) (ext : Text)
    (u : Usage)
    → IsFresh req w
    → RollbackWorks req
    → (e : JobError) → (store_original s req w up (j, ext, u)).0 ≡ err e
    → (store_original s req w up (j, ext, u)).1 ≡ w
unfolding store_original with_row
store_original_undoes s req w up j ext u fresh undoes e h = elim (create_job-cases req w.jobs j) [
  | inl failed_insert ↦ ap (λ r. (with_row s req w up j ext u r).1) failed_insert
  | inr inserted ↦
      ap (λ r. (with_row s req w up j ext u r).1) inserted
      ∙ with_row_undoes s req w up j ext u fresh undoes e
          (sym (ap (λ r. (with_row s req w up j ext u r).0) inserted) ∙ h)
]

-- Let the database give an id that no row and no file uses, and let the deletions of rollback
-- work. Then a Create that returns an error, for whatever reason, leaves every table and the store
-- as they were.
pub create_undoes :
    (s : JobService) (req : JobRequest) (w : Works) (user_id : Text) (up : NewUpload) (e : JobError)
    → IsFresh req w
    → RollbackWorks req
    → (create s req w user_id up).0 ≡ err e
    → (create s req w user_id up).1 ≡ w
unfolding create
create_undoes s req w user_id up e fresh undoes h = elim (Result-cases (admit s req w user_id up)) [
  | inr (e1, refused) ↦ rw (create, refused) refl
  | inl (found, admitted) ↦
      let same : create s req w user_id up ≡ store_original s req w up found =
        rw (create, admitted) refl in
      ap (λ r. r.1) same
      ∙ store_original_undoes s req w up found.0 found.1 found.2 fresh undoes e
          (sym (ap (λ r. r.0) same) ∙ h)
]
