-- ===== src/Examples/Uploading.antt =====
-- The use cases of internals/app/job at concrete tables.
use sade_safe_media_delivery.Asset.{original}
use sade_safe_media_delivery.Base.{
  Text, [], arith, codes, contains, contains_byte, count_where, delete_where, err, false, find_row,
  inr, none, ok, refl, some, str_eq, str_eq_iff, ◌∷◌, ◌≡◌, ◌⊎◌,
}
use sade_safe_media_delivery.Examples.Claiming.{job_row}
use sade_safe_media_delivery.Examples.Paying.{asset_row}
use sade_safe_media_delivery.Job.{JobResponse, pending, to_response, video}
use sade_safe_media_delivery.Job.Claim.{UniqueJobs}
use sade_safe_media_delivery.Job.Create.{create, original_key}
use sade_safe_media_delivery.Job.Owned.{asset, delete, get}
use sade_safe_media_delivery.Job.Removal.{Removed, delete-Removed, foreign_hidden}
use sade_safe_media_delivery.Job.Rollback.{IsFresh, create_undoes}
use sade_safe_media_delivery.Job.Service.{
  JobError, JobRequest, JobService, NewUpload, Works, empty_file, no_such_job,
}

abbrev uploads : JobService
uploads = record {
  cfg = record {
    max_size_mib = 1;
    jobs_per_day = 3;
    storage_quota_mib = 1;
    allowed_video = codes ".mp4" ∷ [];
    allowed_audio = [];
    allowed_image = [];
  };
  brands = none;
  has_logo = λ snap. false;
  parse_address = some;
  type_by_extension = λ ext. codes "video/mp4";
  checksum = λ content. content;
  local_path = some;
  probe = some (λ path. some video);
}

abbrev pub request : JobRequest
request = record {
  job_fails = λ s. false;
  asset_fails = λ s. false;
  put_fails = false;
  delete_fails = λ key. false;
  now = 9;
  job_id = codes "j2";
  asset_id = codes "a2";
  quota_exempt = false;
}

abbrev pub works : Works
works = record {
  jobs = job_row "j1" 1 ∷ [];
  assets = asset_row (codes "o") original ∷ [];
  payments = [];
  events = [];
  blobs = record { key = codes "o"; content = 1 ∷ [] } ∷ [];
}

abbrev upload : Text → NewUpload
upload file = record {
  recipient_email = codes "R@example.com ";
  watermark_kind = codes "text";
  watermark_text = codes "hello";
  filename = codes "clip.MP4";
  declared_size = 0;
  file = file;
}

-- An upload that passes is stored, and is pending.
accepted :
    (j : JobResponse) × ((create uploads request works (codes "u1") (upload (1 ∷ 2 ∷ []))).0 ≡ ok j)
    × (j.status ≡ pending)
unfolding create str_eq contains contains_byte count_where delete_where
accepted = (
  record (to_response (record (job_row "j2" 0) {
    recipient_email = codes "r@example.com";
    watermark_text = codes "hello";
  })) {
    assets =
        record {
          id = [];
          job_id = codes "j2";
          kind = original;
          filename = codes "clip.MP4";
          mime = codes "video/mp4";
          size_bytes = 2;
          checksum = 1 ∷ 2 ∷ [];
          created_at = 0;
        }
        ∷ [];
  },
  refl,
  refl,
)

works-IsFresh : IsFresh request works
unfolding count_where str_eq original_key
works-IsFresh = record {
  no_job = refl;
  no_asset = refl;
  no_payment = refl;
  no_event = refl;
  no_blob = λ ext. refl;
}

create_undoes_example : (create uploads request works (codes "u1") (upload [])).1 ≡ works
unfolding create str_eq contains contains_byte count_where delete_where
create_undoes_example =
    create_undoes uploads request works (codes "u1") (upload []) empty_file works-IsFresh
      (record { delete_works = refl; files_go = λ key. refl }) refl

foreign_hidden_example :
    (get request works (codes "u2") (codes "j1") ≡ err no_such_job)
    × (asset request works (codes "u2") (codes "j1") (codes "o") ≡ err no_such_job)
    × (delete request works (codes "u2") (codes "j1") ≡ (err no_such_job, works))
unfolding find_row str_eq
foreign_hidden_example =
    foreign_hidden request works (codes "u2") (codes "j1") (codes "o") refl
      (inr (job_row "j1" 1, refl, refl))

works-Unique : UniqueJobs works.jobs
unfolding count_where
works-Unique k = ground (arith, str_eq_iff (codes "j1") k)

delete-Removed_example :
    ((e : JobError) × (delete request works (codes "u1") (codes "j1") ≡ (err e, works)))
    ⊎ ((w' : Works) × (delete request works (codes "u1") (codes "j1") ≡ (ok tt, w'))
        × Removed works w' (codes "u1") (codes "j1"))
delete-Removed_example = delete-Removed request works (codes "u1") (codes "j1") works-Unique
