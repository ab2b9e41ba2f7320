-- ===== src/Job/Service.antt =====
-- internals/app/job/service.go: the checks of an upload. Address parsing, MIME types, the hash, the
-- probe of ffmpeg and the brand's JSON are parameters. Sizes are below 2^63.
use sade_safe_media_delivery.Asset.{Asset, AssetOutage}
use sade_safe_media_delivery.Base.{
  Bool, List, Option, Result, Text, [], codes, contains, err, false, if◌then◌else◌, is_empty, leb,
  length, ltb, map, none, not, ok, some, str_eq, take, true, ℕ, ◌&&◌, ◌*◌, ◌+◌, ◌-◌, ◌>>=◌, ◌^◌,
  ◌||◌,
}
use sade_safe_media_delivery.GoText.{path_base, path_ext, replace_all, to_lower, trim_space}
use sade_safe_media_delivery.Job.{Job, Media, Usage, audio, image, video}
use sade_safe_media_delivery.Job.Repo.{
  JobOutage, JobRepoError, count_created_since, job_internal, job_not_found, storage_bytes,
}
use sade_safe_media_delivery.JobEvent.{JobEvent}
use sade_safe_media_delivery.Payment.{Payment}

-- The errors of the package, and any other error.
pub data JobError : Type 0 where
  no_such_job invalid_input unsupported_media file_too_large empty_file : JobError
  corrupt_media daily_limit storage_quota busy paid_unlock wrapped_error : JobError

-- A stored file.
pub record Blob : Type 0 where
  pub key : Text
  pub content : Text

-- The tables and the store.
pub record Works : Type 0 where
  pub jobs : List Job
  pub assets : List Asset
  pub payments : List Payment
  pub events : List JobEvent
  pub blobs : List Blob

-- config.UploadConfig
pub record UploadConfig : Type 0 where
  pub max_size_mib : ℕ
  pub jobs_per_day : ℕ
  pub storage_quota_mib : ℕ
  pub allowed_video : List Text
  pub allowed_audio : List Text
  pub allowed_image : List Text

-- The fields of the service that do not change. `brands` is the Snapshot of a BrandSource, where
-- `none` is an error, `has_logo` is whether the decoded options name a logo, and `probe` gives the
-- media of a local file, when the engine is there.
pub record JobService : Type 0 where
  pub cfg : UploadConfig
  pub brands : Option (Text → Option Text)
  pub has_logo : Text → Bool
  pub parse_address : Text → Option Text
  pub type_by_extension : Text → Text
  pub checksum : Text → Text
  pub local_path : Text → Option Text
  pub probe : Option (Text → Option Media)

-- One request: what fails during it, its instant, and the ids that the database gives.
pub record JobRequest : Type 0 where
  pub job_fails : JobOutage
  pub asset_fails : AssetOutage
  pub put_fails : Bool
  pub delete_fails : Text → Bool
  pub now : ℕ
  pub job_id : Text
  pub asset_id : Text
  pub quota_exempt : Bool

pub record NewUpload : Type 0 where
  pub recipient_email : Text
  pub watermark_kind : Text
  pub watermark_text : Text
  pub filename : Text
  pub declared_size : ℕ
  pub file : Text

-- ffmpeg.MaxTextRunes
abbrev pub max_text_runes : ℕ
max_text_runes = 200

-- unicode.IsControl
unfoldable pub is_control : ℕ → Bool
is_control c = ltb c 32 || (leb 127 c && leb c 159)

-- ffmpeg.SanitizeText
unfoldable pub sanitize_text : Text → Text
unfolding is_control trim_space
sanitize_text s = trim_space (take max_text_runes (map (λ c. if is_control c then 32 else c) s))

-- normalizeEmail
unfoldable pub normalize_email : JobService → Text → Result JobError Text
unfolding trim_space to_lower
normalize_email s raw =
    let trimmed = trim_space raw in
    if is_empty trimmed then err invalid_input else elim (s.parse_address trimmed) [
      | none ↦ err invalid_input
      | some address ↦ ok (to_lower address)
    ]

-- validKind
unfoldable pub valid_kind : Text → Bool
unfolding str_eq
valid_kind k = str_eq k (codes "logo") || str_eq k (codes "text") || str_eq k (codes "both")

-- Create, the watermark text.
unfoldable pub watermark_text_of : Text → Result JobError Text
unfolding trim_space sanitize_text
watermark_text_of raw =
    let text = trim_space raw in
    if ltb max_text_runes (length text) then err invalid_input else ok (sanitize_text text)

-- Create, the watermark kind.
unfoldable pub watermark_kind_of : Text → Result JobError Text
unfolding trim_space valid_kind
watermark_kind_of raw =
    let trimmed = trim_space raw in
    let kind = if is_empty trimmed then codes "both" else trimmed in
    if valid_kind kind then ok kind else err invalid_input

-- Create, the frozen brand: the kind and the options of the job.
unfoldable pub branded : JobService → Text → Text → Result JobError (Text × Text)
unfolding str_eq
branded s user_id kind = elim (s.brands) [
  | none ↦ ok (kind, [])
  | some snapshot ↦ elim (snapshot user_id) [
    | none ↦ err wrapped_error
    | some snap ↦
        let text_only = not (s.has_logo snap) && not (str_eq kind (codes "text")) in
        ok (if text_only then codes "text" else kind, snap)
  ]
]

-- detectMedia
unfoldable pub detect_media : JobService → Text → Result JobError (Media × Text)
unfolding to_lower path_ext trim_space contains
detect_media s filename =
    let ext = to_lower (path_ext (trim_space filename)) in
    if is_empty ext
    then err unsupported_media
    else if contains (s.cfg.allowed_video) ext
    then ok (video, ext)
    else if contains (s.cfg.allowed_audio) ext
    then ok (audio, ext)
    else if contains (s.cfg.allowed_image) ext
    then ok (image, ext)
    else err unsupported_media

-- safeFilename
unfoldable pub safe_filename : Text → Text
unfolding replace_all path_base str_eq
safe_filename name =
    let base = path_base (replace_all name (codes "\\") (codes "/")) in
    if str_eq base (codes ".") || str_eq base (codes "/") || is_empty base
    then codes "upload"
    else base

-- The error of a repository read that the service returns as it is.
unfoldable pub job_error : JobRepoError → JobError
job_error job_not_found = no_such_job
job_error job_internal = wrapped_error

unfoldable pub lift {ℓ} : {A : Type ℓ} → Result JobRepoError A → Result JobError A
unfolding job_error
lift (ok a) = ok a
lift (err e) = err (job_error e)

abbrev pub day : ℕ
day = 24 * 3600 * 1_000_000_000

-- Usage
unfoldable pub usage : JobService → JobRequest → Works → Text → Result JobError Usage
unfolding lift count_created_since storage_bytes
usage s req w user_id =
    if req.quota_exempt
    then ok (record {
      jobs_last24h = 0;
      jobs_per_day = 0;
      storage_bytes = 0;
      storage_limit_bytes = 0;
      unlimited = true;
    })
    else lift (count_created_since req.job_fails w.jobs user_id (req.now - day)) >>= λ recent.
        lift (storage_bytes req.job_fails w.jobs w.assets user_id) >>= λ used. ok (record {
          jobs_last24h = recent;
          jobs_per_day = s.cfg.jobs_per_day;
          storage_bytes = used;
          storage_limit_bytes = s.cfg.storage_quota_mib * 2 ^ 20;
          unlimited = false;
        })

-- Whether `size` more bytes are over the quota.
unfoldable pub over_quota : Usage → ℕ → Bool
over_quota u size =
    not u.unlimited
    && (ltb 0 u.storage_limit_bytes && ltb u.storage_limit_bytes (u.storage_bytes + size))

-- Create, the quotas.
unfoldable pub check_quota : Usage → ℕ → Result JobError (Unit {0})
unfolding over_quota
check_quota u size =
    if not u.unlimited && (ltb 0 u.jobs_per_day && leb u.jobs_per_day u.jobs_last24h)
    then err daily_limit
    else if over_quota u size
    then err storage_quota
    else ok tt

-- Create: the cap in bytes, 0 for none.
unfoldable pub max_bytes : JobService → ℕ
max_bytes s = s.cfg.max_size_mib * 2 ^ 20

unfoldable pub over_cap : JobService → ℕ → Bool
unfolding max_bytes
over_cap s size = ltb 0 (max_bytes s) && ltb (max_bytes s) size
