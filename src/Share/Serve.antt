-- ===== src/Share/Serve.antt =====
-- internals/app/share/handler.go: the routes /p, /d and /o. The handler writes a response; streaming
-- the bytes is not modelled.
use sade_safe_media_delivery.Asset.{
  Asset, AssetError, AssetOutage, Kind, asset_internal, asset_not_found, get_asset, kind_eq,
  original, preview,
}
use sade_safe_media_delivery.Base.{
  Bool, List, Result, Text, codes, delete_where, err, if◌then◌else◌, is_empty, ltb, not, ok, ℕ,
  ◌&&◌, ◌*◌, ◌==◌, ◌>>=◌, ◌||◌,
}
use sade_safe_media_delivery.GoText.{has_prefix, trim_space}
use sade_safe_media_delivery.Job.{Job}
use sade_safe_media_delivery.Job.Repo.{JobOutage, links_disabled_of}
use sade_safe_media_delivery.JobEvent.{
  EventKind, EventOutage, JobEvent, downloaded, original_downloaded, record_once, viewed,
}
use sade_safe_media_delivery.Token.{Signer, SignerError, expired_token}

-- The errors of resolve, and any other error.
pub data ShareError : Type 0 where
  not_there link_gone link_disabled share_failure : ShareError

-- The first argument that Preview, Download and Original pass to serve.
pub data Purpose : Type 0 where
  for_preview for_download for_original : Purpose

unfoldable pub purpose_text : Purpose → Text
purpose_text for_preview = codes "preview"
purpose_text for_download = codes "download"
purpose_text for_original = codes "original"

-- The kind that the three routes ask for.
unfoldable pub want_kind : Purpose → Kind
want_kind for_preview = preview
want_kind for_download = preview
want_kind for_original = original

-- The disposition of the three routes.
unfoldable pub disposition : Purpose → Text
disposition for_preview = codes "inline"
disposition for_download = codes "attachment"
disposition for_original = codes "attachment"

-- One request: what fails during it, its instant, the id of a new event, its method and range.
-- `is_wired` is whether UseDelivery was called.
pub record Visit : Type 0 where
  pub asset_fails : AssetOutage
  pub job_fails : JobOutage
  pub event_fails : EventOutage
  pub now : ℕ
  pub event_id : Text
  pub is_wired : Bool
  pub is_get : Bool
  pub range : Text

-- resolve, the links switch.
unfoldable pub switch_of : Visit → List Job → Text → Result ShareError (Unit {0})
unfolding links_disabled_of
switch_of v jobs job_id =
    if not v.is_wired then ok tt else elim (links_disabled_of v.job_fails jobs job_id) [
      | err e ↦ err not_there
      | ok off ↦ if off then err link_disabled else ok tt
    ]

-- resolve, the error of GetByID.
unfoldable pub asset_error : AssetError → ShareError
asset_error asset_not_found = not_there
asset_error asset_internal = share_failure

-- resolve, the asset of the subject.
unfoldable pub load_asset : Visit → List Asset → Kind → Text → Result ShareError Asset
unfolding get_asset asset_error kind_eq
load_asset v assets kind subject = elim (get_asset v.asset_fails assets subject) [
  | err e ↦ err (asset_error e)
  | ok a ↦ if kind_eq a.kind kind then ok a else err not_there
]

-- resolve, the error of Verify.
unfoldable pub token_error : SignerError → ShareError
token_error expired_token = link_gone
token_error _ = not_there

-- resolve
unfoldable pub resolve :
    Signer → Visit → List Asset → List Job → Text → Purpose → Result ShareError Asset
unfolding trim_space purpose_text want_kind token_error load_asset switch_of
resolve signer v assets jobs tok purpose =
    if is_empty (trim_space tok)
    then err not_there
    else elim (signer.verify v.now (purpose_text purpose) tok) [
      | err e ↦ err (token_error e)
      | ok subject ↦ load_asset v assets (want_kind purpose) subject >>= λ a.
          switch_of v jobs a.job_id >>= λ _. ok a
    ]

abbrev minute : ℕ
minute = 60 * 1_000_000_000

-- recordAccess, the event of a purpose.
unfoldable pub access_kind : Purpose → EventKind
access_kind for_preview = viewed
access_kind for_download = downloaded
access_kind for_original = original_downloaded

-- recordAccess, the window in which repeats collapse.
unfoldable pub access_window : Purpose → ℕ
access_window for_preview = 30 * minute
access_window for_download = 10 * minute
access_window for_original = 10 * minute

-- recordAccess, its early returns.
unfoldable pub is_counted : Visit → Bool
unfolding has_prefix
is_counted v =
    v.is_wired && (v.is_get && (is_empty v.range || has_prefix v.range (codes "bytes=0-")))

-- recordAccess
unfoldable pub record_access : Visit → List JobEvent → Purpose → Text → List JobEvent
unfolding is_counted record_once access_kind access_window
record_access v events purpose job_id =
    if is_counted v
    then (record_once v.event_fails v.event_id v.now events job_id (access_kind purpose)
        (access_window purpose)).1
    else events

-- mimeOr
unfoldable pub mime_or : Text → Text
unfolding trim_space
mime_or mime = if is_empty (trim_space mime) then codes "application/octet-stream" else mime

-- sanitizeFilename, the runes that it drops.
unfoldable pub is_unsafe : ℕ → Bool
is_unsafe c = ltb c 32 || c == b'"' || c == b'\\' || c == b'/'

-- sanitizeFilename
unfoldable pub sanitize_filename : Text → Text
unfolding is_unsafe delete_where
sanitize_filename name =
    let kept = delete_where is_unsafe name in if is_empty kept then codes "preview" else kept

-- What serve answers: a status with an error, or a file with its headers.
pub data ShareResponse : Type 0 where
  refuse : ℕ → ShareResponse
  send : Text → Text → Text → Text → ShareResponse

-- serve, the status of an error.
unfoldable pub error_status : ShareError → ℕ
error_status link_gone = 410
error_status link_disabled = 410
error_status not_there = 404
error_status share_failure = 500

-- serve up to the file: the headers are the MIME type, the disposition and the file name; the last
-- field of `send` is the storage key.
unfoldable pub serve :
    Signer
    → Visit
    → List Asset
    → List Job
    → List JobEvent
    → Text
    → Purpose
    → ShareResponse × List JobEvent
unfolding resolve error_status record_access mime_or sanitize_filename disposition
serve signer v assets jobs events tok purpose = elim (resolve signer v assets jobs tok purpose) [
  | err e ↦ (refuse (error_status e), events)
  | ok a ↦ (
    send (mime_or a.mime) (disposition purpose) (sanitize_filename a.filename) a.storage_key,
    record_access v events purpose a.job_id,
  )
]
