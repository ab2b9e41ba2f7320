-- ===== src/Job/Create.antt =====
-- internals/app/job/service.go: Create with its rollback.
use sade_safe_media_delivery.Asset.{Asset, asset_responses, create_asset, original}
use sade_safe_media_delivery.Base.{
  List, Result, Text, [], codes, delete_where, err, if◌then◌else◌, is_empty, length, ltb, none, ok,
  some, str_eq, take, ℕ, ◌++◌, ◌+◌, ◌==◌, ◌>>=◌, ◌∷◌,
}
use sade_safe_media_delivery.Job.{Job, JobResponse, Media, Usage, media_eq, pending, to_response}
use sade_safe_media_delivery.Job.Owned.{cascade, delete_blob}
use sade_safe_media_delivery.Job.Repo.{JobRepoError, create_job, delete_job_row}
use sade_safe_media_delivery.Job.Service.{
  Blob, JobError, JobRequest, JobService, NewUpload, Works, branded, check_quota, corrupt_media,
  detect_media, empty_file, file_too_large, max_bytes, normalize_email, over_cap, over_quota,
  safe_filename, storage_quota, usage, watermark_kind_of, watermark_text_of, wrapped_error,
}

-- Create up to the row: the row to insert, the extension, and the usage that it was checked against.
unfoldable pub admit :
    JobService → JobRequest → Works → Text → NewUpload → Result JobError (Job × Text × Usage)
unfolding normalize_email watermark_text_of watermark_kind_of branded detect_media over_cap usage
    check_quota
admit s req w user_id up = normalize_email s up.recipient_email >>= λ recipient.
    watermark_text_of up.watermark_text >>= λ text. watermark_kind_of up.watermark_kind >>= λ kind.
    branded s user_id kind >>= λ brand. detect_media s up.filename >>= λ media.
    (if over_cap s up.declared_size then err file_too_large else usage s req w user_id) >>= λ u.
    check_quota u up.declared_size >>= λ _. ok (
      record {
        id = [];
        user_id = user_id;
        status = pending;
        media_type = media.0;
        recipient_email = recipient;
        watermark_kind = brand.0;
        watermark_text = text;
        watermark_opts = brand.1;
        attempts = 0;
        error = [];
        next_attempt_at = 0;
        created_at = 0;
        updated_at = 0;
        links_disabled = 0;
      },
      media.1,
      u,
    )

-- rollback, by what the Delete of the row said.
unfoldable pub rolled : Works → List Blob → Text → Result JobRepoError (Unit {0}) × List Job → Works
unfolding cascade
rolled w blobs job_id (err e, jobs) = record w { blobs = blobs }
rolled w blobs job_id (ok u, jobs) = record (cascade job_id w) { jobs = jobs; blobs = blobs }

-- rollback
unfoldable pub rollback : JobRequest → Works → Text → Text → Works
unfolding delete_blob delete_job_row rolled
rollback req w job_id key =
    rolled w (if is_empty key then w.blobs else delete_blob req key w.blobs) job_id
      (delete_job_row req.job_fails w.jobs job_id)

-- The Put of the store replaces the file of that key.
unfoldable pub put_blob : Blob → List Blob → List Blob
put_blob b blobs = delete_where (λ r. str_eq r.key b.key) blobs ++ b ∷ []

-- verifyMedia
unfoldable pub verify_media : JobService → Text → Media → Result JobError (Unit {0})
unfolding media_eq
verify_media s key media = elim (s.probe) [
  | none ↦ ok tt
  | some probe ↦ elim (s.local_path key) [
    | none ↦ ok tt
    | some path ↦ elim (probe path) [
      | none ↦ err corrupt_media
      | some found ↦ if media_eq found media then ok tt else err corrupt_media
    ]
  ]
]

-- Create, the checks of the stored file.
unfoldable pub check_stored : JobService → Usage → Text → Media → ℕ → Result JobError (Unit {0})
unfolding over_cap over_quota verify_media
check_stored s u key media size =
    if size == 0
    then err empty_file
    else if over_cap s size
    then err file_too_large
    else if over_quota u size
    then err storage_quota
    else verify_media s key media

-- Create, the asset row.
unfoldable pub new_original : JobService → NewUpload → Text → Text → Text → Text → Asset
unfolding safe_filename
new_original s up job_id key ext content = record {
  id = [];
  job_id = job_id;
  kind = original;
  storage_key = key;
  filename = safe_filename up.filename;
  mime =
      (let found = s.type_by_extension ext in
        if is_empty found then codes "application/octet-stream" else found);
  size_bytes = length content;
  checksum = s.checksum content;
  created_at = 0;
}

-- Create, from the asset row on.
unfoldable pub add_original :
    JobService → JobRequest → Works → Job → Asset → Result JobError JobResponse × Works
unfolding create_asset rollback to_response asset_responses
add_original s req w j a =
    let made = create_asset req.asset_fails req.asset_id req.now w.assets a in
    elim made.0 [
      | err e ↦ (err wrapped_error, rollback req w j.id a.storage_key)
      | ok id ↦ (
        ok (record (to_response j) { assets = asset_responses (a ∷ []) }),
        record w { assets = made.1 },
      )
    ]

-- What the store reads of the upload: one byte over the cap at most.
unfoldable pub limited : JobService → Text → Text
unfolding max_bytes
limited s file = if ltb 0 (max_bytes s) then take (max_bytes s + 1) file else file

unfoldable pub original_key : Text → Text → Text
original_key id ext = codes "originals/" ++ id ++ codes "/original" ++ ext

-- Create, from the stored file on.
unfoldable pub keep_original :
    JobService
    → JobRequest
    → Works
    → NewUpload
    → Job
    → Text
    → Usage
    → Text
    → Result JobError JobResponse × Works
unfolding check_stored rollback new_original add_original original_key
keep_original s req w up j ext u content =
    let key = original_key j.id ext in
    elim (check_stored s u key j.media_type (length content)) [
      | err e ↦ (err e, rollback req w j.id key)
      | ok _ ↦ add_original s req w j (new_original s up j.id key ext content)
    ]

-- Create, by what the insert of the row said.
unfoldable pub with_row :
    JobService
    → JobRequest
    → Works
    → NewUpload
    → Job
    → Text
    → Usage
    → Result JobRepoError Text × List Job
    → Result JobError JobResponse × Works
unfolding limited rollback put_blob keep_original original_key
with_row s req w up j ext u (err e, jobs) = (err wrapped_error, w)
with_row s req w up j ext u (ok id, jobs) =
    let content = limited s up.file in
    let blob : Blob = record { key = original_key id ext; content = content } in
    if req.put_fails
    then (err wrapped_error, rollback req (record w { jobs = jobs }) id [])
    else keep_original s req (record w { jobs = jobs; blobs = put_blob blob w.blobs }) up
        (record j { id = id }) ext u content

-- Create, from the row on.
unfoldable pub store_original :
    JobService
    → JobRequest
    → Works
    → NewUpload
    → Job × Text × Usage
    → Result JobError JobResponse × Works
unfolding create_job with_row
store_original s req w up (j, ext, u) =
    with_row s req w up j ext u (create_job req.job_fails req.job_id req.now w.jobs j)

-- Create
unfoldable pub create :
    JobService → JobRequest → Works → Text → NewUpload → Result JobError JobResponse × Works
unfolding admit store_original
create s req w user_id up = elim (admit s req w user_id up) [
  | err e ↦ (err e, w)
  | ok found ↦ store_original s req w up found
]
