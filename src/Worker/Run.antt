-- ===== src/Worker/Run.antt =====
-- internals/worker/process.go and notify.go: the steps of a run that write files, rows and mails.
use sade_safe_media_delivery.Asset.{
  Asset, get_asset, get_by_job_and_kind, original, preview, upsert_preview,
}
use sade_safe_media_delivery.Base.{
  List, Option, Result, Text, [], codes, err, find_row, if◌then◌else◌, is_empty, length, lift_part,
  map_error, none, ok, some, str_eq, ◌++◌, ◌>>=◌, ◌>>>◌, ◌∷◌,
}
use sade_safe_media_delivery.Job.{Job}
use sade_safe_media_delivery.Job.Create.{put_blob}
use sade_safe_media_delivery.Job.Service.{Blob}
use sade_safe_media_delivery.JobEvent.{record_event, sent}
use sade_safe_media_delivery.Share.Operator.{preview_id}
use sade_safe_media_delivery.Worker.Process.{
  Plant, ProbeResult, RunError, RunRequest, WatermarkRequest, Wiring, empty_preview, engine_request,
  no_checksum, no_local_path, no_original, no_preview_file, no_preview_path, not_mailed, not_probed,
  not_recorded, not_signed, not_watermarked, preview_filename, preview_mime,
}

-- What the engine left at the key of the preview.
unfoldable pub left_at : Text → Option Text → List Blob → List Blob
unfolding put_blob
left_at key none blobs = blobs
left_at key (some content) blobs = put_blob (record { key = key; content = content }) blobs

-- Watermark
unfoldable pub run_engine :
    Wiring → Plant → Text → WatermarkRequest → Result RunError (Unit {0}) × Plant
unfolding left_at
run_engine e st key w =
    let out = e.watermark w in
    (if out.0 then ok tt else err not_watermarked, record st { blobs = left_at key out.1 st.blobs })

-- Stat and checksum: the content of the preview, which is not empty.
unfoldable pub made_preview : RunRequest → Plant → Text → Result RunError Text
made_preview req st key =
    if req.stat_fails
    then err no_preview_file
    else elim (find_row (λ b. str_eq b.key key) st.blobs) [
      | none ↦ err no_preview_file
      | some b ↦
          if is_empty b.content
          then err empty_preview
          else if req.open_fails
          then err no_checksum
          else ok b.content
    ]

-- AddPreview of the adapter, its row.
unfoldable pub preview_row : Wiring → Job → Text → Text → Text → Asset
unfolding preview_mime
preview_row e j key name content = record {
  id = [];
  job_id = j.id;
  kind = preview;
  storage_key = key;
  filename = name;
  mime = preview_mime e name;
  size_bytes = length content;
  checksum = e.checksum content;
  created_at = 0;
}

-- AddPreview
unfoldable pub add_preview :
    Wiring → RunRequest → Plant → Job → Text → Text → Text → Result RunError Text × Plant
unfolding upsert_preview preview_row
add_preview e req st j key name content =
    lift_part (λ x. not_recorded) (λ rows. record st { assets = rows })
      (upsert_preview req.asset_fails req.asset_id req.now st.assets
        (preview_row e j key name content))

-- A token, or the error of Sign.
unfoldable pub signed_for : Wiring → RunRequest → Text → Text → Result RunError Text
signed_for e req purpose subject =
    map_error (λ x. not_signed) (e.signer.sign req.unix_now purpose subject e.share_ttl)

-- PreviewReady of EmailNotifier
unfoldable pub email_preview :
    Wiring → RunRequest → Plant → Text → Text → Result RunError (Unit {0}) × Plant
unfolding signed_for
email_preview e req st recipient preview_id =
    (signed_for e req (codes "preview") preview_id, st) >>> λ view st1.
    (signed_for e req (codes "download") preview_id, st1) >>> λ download st2.
    if req.mail_fails
    then (err not_mailed, st2)
    else (ok tt, record st2 { mails = (recipient, view, download) ∷ st2.mails })

-- PreviewReady of recordingNotifier, the event. What fails is logged only.
unfoldable pub record_sent : RunRequest → Plant → Text → Text → Plant
unfolding get_asset record_event
record_sent req st recipient preview_id = elim (get_asset req.asset_fails st.assets preview_id) [
  | err x ↦ st
  | ok a ↦ record st {
    events =
        (record_event req.event_fails req.event_id req.now st.events a.job_id sent recipient).1;
  }
]

-- PreviewReady of recordingNotifier
unfoldable pub notify :
    Wiring → RunRequest → Plant → Text → Text → Result RunError (Unit {0}) × Plant
unfolding email_preview record_sent
notify e req st recipient preview_id = email_preview e req st recipient preview_id >>> λ t st1.
    (ok tt, record_sent req st1 recipient preview_id)

-- process, from the preview's file on. A failed notification is logged only.
unfoldable pub record_preview :
    Wiring → RunRequest → Plant → Job → Text → Text → Result RunError (Unit {0}) × Plant
unfolding made_preview add_preview notify
record_preview e req st j key name = (made_preview req st key, st) >>> λ content st1.
    add_preview e req st1 j key name content >>> λ preview_id st2.
    (ok tt, (notify e req st2 j.recipient_email preview_id).1)

-- process, the local path of a key.
unfoldable pub path_of : Wiring → RunError → Text → Result RunError Text
path_of e x key = elim (e.local_path key) [ none ↦ err x | some path ↦ ok path ]

-- process, the key of the preview.
unfoldable pub preview_key : Job → Text → Text
preview_key j name = codes "previews/" ++ j.id ++ codes "/" ++ name

-- process, up to the engine: the probe, the paths of the source and of the output, and the name of the preview.
unfoldable pub prepared :
    Wiring → RunRequest → Plant → Job → Result RunError (ProbeResult × Text × Text × Text)
unfolding get_by_job_and_kind path_of preview_filename preview_key
prepared e req st j =
    map_error (λ x. no_original) (get_by_job_and_kind req.asset_fails st.assets j.id original)
    >>= λ orig. path_of e no_local_path orig.storage_key >>= λ src.
        (elim (e.probe src) [ none ↦ err not_probed | some found ↦ ok found ]) >>= λ probe.
        path_of e no_preview_path (preview_key j (preview_filename orig.filename probe.media))
        >>= λ out. ok (probe, src, out, preview_filename orig.filename probe.media)

-- process
unfoldable pub process_job : Wiring → RunRequest → Plant → Job → Result RunError (Unit {0}) × Plant
unfolding prepared run_engine engine_request record_preview
process_job e req st j = (prepared e req st j, st) >>> λ p st1.
    run_engine e st1 (preview_key j p.3) (engine_request e req st1 j p.0 p.1 p.2) >>> λ t st2.
    record_preview e req st2 j (preview_key j p.3) p.3
