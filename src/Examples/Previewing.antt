-- ===== src/Examples/Previewing.antt =====
-- Runs of the worker at a small plant, with a toy engine.
use sade_safe_media_delivery.Asset.{Asset, kind_eq, original}
use sade_safe_media_delivery.Asset.Single.{SinglePreview}
use sade_safe_media_delivery.Base.{
  Text, Unique, [], arith, codes, contains_byte, count_where, delete_where, err, false, find_row,
  none, ok, refl, select, some, sort_by, str_eq, true, ◌∷◌, ◌≡◌,
}
use sade_safe_media_delivery.Job.{Job, image, processing}
use sade_safe_media_delivery.Token.{Signer}
use sade_safe_media_delivery.Worker.Preview.{process_job-err, records}
use sade_safe_media_delivery.Worker.Process.{Plant, ProbeResult, RunRequest, Wiring, no_original}
use sade_safe_media_delivery.Worker.Recorded.{Previewed, process_job-SinglePreview, process_job-ok}
use sade_safe_media_delivery.Worker.Run.{prepared, preview_key, process_job}

abbrev toy_signer : Signer
toy_signer = record {
  verify = λ now purpose tok. ok tok;
  sign = λ now purpose subject ttl. ok subject;
}

abbrev wiring : Wiring
wiring = record {
  local_path = λ key. some key;
  probe = λ path. some (record { media = image; width = 640; duration_sec = 0 });
  watermark = λ w. (true, some (codes "marked"));
  type_by_extension = λ ext. codes "image/png";
  checksum = λ content. content;
  unmarshal = λ s. none;
  signer = toy_signer;
  share_ttl = 100;
  text_template = [];
}

abbrev run_request : RunRequest
run_request = record {
  asset_fails = λ st. false;
  event_fails = λ st. false;
  stat_fails = false;
  open_fails = false;
  mail_fails = true;
  date = codes "2026-01-01";
  now = 9;
  unix_now = 9;
  asset_id = codes "a2";
  event_id = codes "e1";
}

abbrev claimed_job : Job
claimed_job = record {
  id = codes "j1";
  user_id = codes "u1";
  status = processing;
  media_type = image;
  recipient_email = codes "a@b.ro";
  watermark_kind = codes "both";
  watermark_text = codes "mine";
  watermark_opts = [];
  attempts = 1;
  error = [];
  next_attempt_at = 0;
  created_at = 1;
  updated_at = 1;
  links_disabled = 0;
}

abbrev uploaded : Asset
uploaded = record {
  id = codes "a1";
  job_id = codes "j1";
  kind = original;
  storage_key = codes "originals/j1.png";
  filename = codes "cat.png";
  mime = codes "image/png";
  size_bytes = 3;
  checksum = codes "c";
  created_at = 1;
}

abbrev plant : Plant
plant = record { assets = uploaded ∷ []; events = []; blobs = []; mails = [] }

abbrev bare_plant : Plant
bare_plant = record { assets = []; events = []; blobs = []; mails = [] }

run_errs : (process_job wiring run_request bare_plant claimed_job).0 ≡ err no_original
unfolding process_job sort_by select
run_errs = refl

process_job-err_example :
    records (process_job wiring run_request bare_plant claimed_job).1 ≡ records bare_plant
process_job-err_example = process_job-err wiring run_request bare_plant claimed_job run_errs

run_succeeds : (process_job wiring run_request plant claimed_job).0 ≡ ok tt
unfolding process_job sort_by select kind_eq find_row delete_where contains_byte
run_succeeds = refl

plant-Unique : Unique (λ r. r.id) plant.assets
unfolding count_where
plant-Unique k = ground arith

process_job-ok_example :
    (p : ProbeResult × Text × Text × Text) × (prepared wiring run_request plant claimed_job ≡ ok p)
    × Previewed wiring
        (process_job wiring run_request plant claimed_job).1
        claimed_job
        (preview_key claimed_job p.3)
        p.3
unfolding count_where str_eq
process_job-ok_example =
    process_job-ok wiring run_request plant claimed_job plant-Unique refl run_succeeds

plant-SinglePreview : SinglePreview plant.assets
unfolding count_where kind_eq
plant-SinglePreview k = ground arith

process_job-SinglePreview_example :
    SinglePreview (process_job wiring run_request plant claimed_job).1.assets
process_job-SinglePreview_example =
    process_job-SinglePreview wiring run_request plant claimed_job plant-Unique plant-SinglePreview
