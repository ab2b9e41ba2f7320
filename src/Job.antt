-- ===== src/Job.antt =====
-- internals/app/job: the rows of the jobs table, and what is computed from one row. Status and media
-- type are enums; the watermark kind is text, which the code normalises.
pub mod Repo
pub mod Claim
pub mod Service
pub mod Create
pub mod Owned
pub mod Routes
pub mod Rollback
pub mod Removal
use sade_safe_media_delivery.Asset.{AssetResponse}
use sade_safe_media_delivery.Base.{
  Bool, List, Option, Text, [], codes, false, if◌then◌else◌, is_empty, none, true, ℕ, ◌==◌,
}

pub data JobStatus : Type 0 where
  pending processing done failed : JobStatus

pub data Media : Type 0 where
  video audio image : Media

unfoldable pub media_eq : Media → Media → Bool
media_eq video video = true
media_eq audio audio = true
media_eq image image = true
media_eq _ _ = false

unfoldable pub status_eq : JobStatus → JobStatus → Bool
status_eq pending pending = true
status_eq processing processing = true
status_eq done done = true
status_eq failed failed = true
status_eq _ _ = false

pub record Job : Type 0 where
  pub id : Text
  pub user_id : Text
  pub status : JobStatus
  pub media_type : Media
  pub recipient_email : Text
  pub watermark_kind : Text
  pub watermark_text : Text
  pub watermark_opts : Text
  pub attempts : ℕ
  pub error : Text
  pub next_attempt_at : ℕ
  pub created_at : ℕ
  pub updated_at : ℕ
  pub links_disabled : ℕ

-- Response. A missing time (`nil`) is `none`.
pub record JobResponse : Type 0 where
  pub id : Text
  pub status : JobStatus
  pub media_type : Media
  pub recipient_email : Text
  pub watermark_kind : Text
  pub watermark_text : Text
  pub attempts : ℕ
  pub error : Text
  pub created_at : ℕ
  pub updated_at : ℕ
  pub assets : List AssetResponse
  pub links_disabled : Bool
  pub opened_at : Option ℕ
  pub is_paid_for : Bool

-- publicError
unfoldable pub public_error : Text → Text
public_error stored = if is_empty stored then codes "" else codes "processing failed"

-- toResponse
unfoldable pub to_response : Job → JobResponse
unfolding public_error
to_response j = record {
  id = j.id;
  status = j.status;
  media_type = j.media_type;
  recipient_email = j.recipient_email;
  watermark_kind = j.watermark_kind;
  watermark_text = j.watermark_text;
  attempts = j.attempts;
  error = public_error j.error;
  created_at = j.created_at;
  updated_at = j.updated_at;
  assets = [];
  links_disabled = j.links_disabled == 1;
  opened_at = none;
  is_paid_for = false;
}

-- Usage
pub record Usage : Type 0 where
  pub jobs_last24h : ℕ
  pub jobs_per_day : ℕ
  pub storage_bytes : ℕ
  pub storage_limit_bytes : ℕ
  pub unlimited : Bool

-- DeliverySummary; an `opened_at` of 0 is never.
pub record DeliverySummary : Type 0 where
  pub opened_at : ℕ
  pub is_paid_for : Bool
