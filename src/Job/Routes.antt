-- ===== src/Job/Routes.antt =====
-- internals/app/job/handler.go: the routes of an operator. The caller's id comes from the session.
use sade_safe_media_delivery.Asset.{Asset}
use sade_safe_media_delivery.Base.{
  Bool, List, Option, Result, Text, codes, count_where, delete_where, err, if◌then◌else◌, is_empty,
  none, ok, some, str_eq, ◌==◌,
}
use sade_safe_media_delivery.Http.{
  HttpReply, QueryNumber, page_limit, page_offset, refused, replied,
}
use sade_safe_media_delivery.Job.{JobResponse, Usage}
use sade_safe_media_delivery.Job.Create.{create}
use sade_safe_media_delivery.Job.Owned.{asset, delete, get, list}
use sade_safe_media_delivery.Job.Service.{
  JobError, JobRequest, JobService, NewUpload, Works, busy, corrupt_media, daily_limit, empty_file,
  file_too_large, invalid_input, no_such_job, paid_unlock, storage_quota, unsupported_media, usage,
}
use sade_safe_media_delivery.Share.Serve.{is_unsafe}

-- The multipart form of an upload: not readable, without a file, or whole.
pub data UploadForm : Type 0 where
  bad_form no_file : UploadForm
  filled : NewUpload → UploadForm

-- UserIDFrom
unfoldable pub operator_of : Option Text → Option Text
operator_of none = none
operator_of (some id) = if is_empty id then none else some id

-- The check that every route starts with.
unfoldable pub for_operator {ℓ} :
    {B : Type 0} {S : Type ℓ} → Option Text → S → (Text → HttpReply B × S) → HttpReply B × S
unfolding operator_of
for_operator caller s f = elim (operator_of caller) [
  | none ↦ refused 401 "not signed in" s
  | some user_id ↦ f user_id
]

-- Create, the reply.
unfoldable pub created_reply : Result JobError JobResponse × Works → HttpReply JobResponse × Works
created_reply (ok resp, w) = replied 201 resp w
created_reply (err invalid_input, w) =
    refused 400 "invalid recipient email, watermark kind, text or options" w
created_reply (err daily_limit, w) = refused 429 "daily job limit reached" w
created_reply (err storage_quota, w) = refused 413 "storage quota exceeded" w
created_reply (err unsupported_media, w) = refused 415 "unsupported file type" w
created_reply (err file_too_large, w) = refused 413 "file exceeds the size limit" w
created_reply (err empty_file, w) = refused 400 "the uploaded file is empty" w
created_reply (err corrupt_media, w) = refused 415 "file content does not match its extension" w
created_reply (err _, w) = refused 500 "could not create the job" w

-- Create
unfoldable pub create_route :
    JobService → JobRequest → Works → Option Text → UploadForm → HttpReply JobResponse × Works
unfolding for_operator create created_reply
create_route s req w caller form = for_operator caller w (λ user_id. elim form [
  | bad_form ↦ refused 400 "invalid multipart form" w
  | no_file ↦ refused 400 "missing \"file\" part" w
  | filled up ↦ created_reply (create s req w user_id up)
])

-- List
unfoldable pub list_route :
    JobRequest
    → Works
    → Option Text
    → QueryNumber
    → QueryNumber
    → HttpReply (List JobResponse) × Works
unfolding for_operator list page_offset page_limit
list_route req w caller offset limit = for_operator caller w (λ user_id.
    elim (list req w user_id (page_offset offset) (page_limit 50 200 limit)) [
      | ok jobs ↦ replied 200 jobs w
      | err e ↦ refused 500 "could not list jobs" w
    ])

-- Usage
unfoldable pub usage_route : JobService → JobRequest → Works → Option Text → HttpReply Usage × Works
unfolding for_operator usage
usage_route s req w caller = for_operator caller w (λ user_id. elim (usage s req w user_id) [
  | ok u ↦ replied 200 u w
  | err e ↦ refused 500 "could not load usage" w
])

-- Delete, the reply.
unfoldable pub removed_reply : Result JobError (Unit {0}) × Works → HttpReply (Unit {0}) × Works
removed_reply (ok t, w) = replied 204 tt w
removed_reply (err no_such_job, w) = refused 404 "job not found" w
removed_reply (err busy, w) = refused 409 "job is being processed" w
removed_reply (err paid_unlock, w) = refused 409 "job has a paid unlock" w
removed_reply (err _, w) = refused 500 "could not delete the job" w

-- Delete
unfoldable pub delete_route : JobRequest → Works → Option Text → Text → HttpReply (Unit {0}) × Works
unfolding for_operator delete removed_reply
delete_route req w caller id =
    for_operator caller w (λ user_id. removed_reply (delete req w user_id id))

-- Get, the reply.
unfoldable pub job_reply : Works → Result JobError JobResponse → HttpReply JobResponse × Works
job_reply w (ok resp) = replied 200 resp w
job_reply w (err no_such_job) = refused 404 "job not found" w
job_reply w (err _) = refused 500 "could not load the job" w

-- Get
unfoldable pub get_route : JobRequest → Works → Option Text → Text → HttpReply JobResponse × Works
unfolding for_operator get job_reply
get_route req w caller id = for_operator caller w (λ user_id. job_reply w (get req w user_id id))

-- sanitizeFilename
unfoldable pub clean_filename : Text → Text
unfolding is_unsafe delete_where
clean_filename name =
    let clean = delete_where is_unsafe name in if is_empty clean then codes "file" else clean

-- Content, up to the bytes: the type, the disposition and the name of the file, and its key.
pub record Delivered : Type 0 where
  pub content_type : Text
  pub disposition : Text
  pub filename : Text
  pub storage_key : Text

unfoldable pub delivered : Asset → Text → Delivered
unfolding clean_filename
delivered a dl = record {
  content_type = if is_empty a.mime then codes "application/octet-stream" else a.mime;
  disposition = if is_empty dl then codes "inline" else codes "attachment";
  filename = clean_filename a.filename;
  storage_key = a.storage_key;
}

-- Content, the file, for a store where every key has a local path.
unfoldable pub content_reply :
    Works → Bool → Text → Result JobError Asset → HttpReply Delivered × Works
unfolding delivered
content_reply w open_fails dl (err no_such_job) = refused 404 "not found" w
content_reply w open_fails dl (err _) = refused 500 "could not load the asset" w
content_reply w open_fails dl (ok a) =
    if count_where (λ b. str_eq b.key a.storage_key) w.blobs == 0
    then refused 404 "not found" w
    else if open_fails
    then refused 500 "could not load the asset" w
    else replied 200 (delivered a dl) w

-- Content
unfoldable pub content_route :
    JobRequest → Works → Option Text → Text → Text → Text → Bool → HttpReply Delivered × Works
unfolding for_operator asset content_reply
content_route req w caller id asset_id dl open_fails =
    for_operator caller w
      (λ user_id. content_reply w open_fails dl (asset req w user_id id asset_id))
