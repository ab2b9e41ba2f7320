-- ===== src/Worker/Process.antt =====
-- internals/worker/process.go and notify.go: the run of one job, with the adapters of worker_wiring.go.
-- The engine, MIME types and SHA-256 are parameters; a file has its key, and the store says which keys
-- have a local path.
use sade_safe_media_delivery.Asset.{Asset, AssetOutage}
use sade_safe_media_delivery.Base.{
  Bool, List, Option, Text, [], codes, count_where, if◌then◌else◌, is_empty, ltb, none, not, some,
  str_eq, ℕ, ◌&&◌, ◌++◌, ◌==◌, ◌||◌,
}
use sade_safe_media_delivery.GoText.{path_base, path_ext, to_lower, trim_space, trim_suffix}
use sade_safe_media_delivery.Job.{Job, Media, audio, image, media_eq, video}
use sade_safe_media_delivery.Job.Service.{Blob}
use sade_safe_media_delivery.JobEvent.{EventOutage, JobEvent}
use sade_safe_media_delivery.Token.{Signer}
use sade_safe_media_delivery.Wmopts.{Opts, decode_opts, render_text_fit}

-- ffmpeg.Style
pub record Style : Type 0 where
  pub position : Text
  pub opacity_pct : ℕ
  pub logo_scale_pct : ℕ
  pub frame_width : ℕ
  pub logo_path : Text

-- ffmpeg.Request
pub record WatermarkRequest : Type 0 where
  pub source_path : Text
  pub output_path : Text
  pub media : Media
  pub overlay : Text
  pub text : Text
  pub text_for : ℕ → Text
  pub duration_sec : ℕ
  pub style : Style

-- What the pool uses of ffprobe's answer.
pub record ProbeResult : Type 0 where
  pub media : Media
  pub width : ℕ
  pub duration_sec : ℕ

-- What the pool is wired to. `probe` is `none` for an error. `watermark` says whether the engine
-- succeeded, and what it left at the output path, if anything.
pub record Wiring : Type 0 where
  pub local_path : Text → Option Text
  pub probe : Text → Option ProbeResult
  pub watermark : WatermarkRequest → Bool × Option Text
  pub type_by_extension : Text → Text
  pub checksum : Text → Text
  pub unmarshal : Text → Option Opts
  pub signer : Signer
  pub share_ttl : ℕ
  pub text_template : Text

-- The tables that a run reads or writes, the store, and the mails that were sent, newest first: to
-- whom, and the tokens of the two links.
pub record Plant : Type 0 where
  pub assets : List Asset
  pub events : List JobEvent
  pub blobs : List Blob
  pub mails : List (Text × Text × Text)

-- One run: what fails during it, its date, its instant (since Go's zero time, and since the Unix
-- epoch for the tokens), and the ids that the database gives.
pub record RunRequest : Type 0 where
  pub asset_fails : AssetOutage
  pub event_fails : EventOutage
  pub stat_fails : Bool
  pub open_fails : Bool
  pub mail_fails : Bool
  pub date : Text
  pub now : ℕ
  pub unix_now : ℕ
  pub asset_id : Text
  pub event_id : Text

-- The errors that process wraps.
pub data RunError : Type 0 where
  no_original no_local_path not_probed no_preview_path not_watermarked : RunError
  no_preview_file empty_preview no_checksum not_recorded not_signed not_mailed : RunError

-- overlayKind
unfoldable pub overlay_kind : Text → Text
unfolding str_eq
overlay_kind k =
    if str_eq k (codes "logo") || (str_eq k (codes "text") || str_eq k (codes "both"))
    then k
    else codes "both"

-- previewExt
unfoldable pub preview_ext : Media → Text → Text
preview_ext video src_ext = codes ".mp4"
preview_ext audio src_ext = codes ".m4a"
preview_ext image src_ext = if is_empty src_ext then codes ".png" else src_ext

-- previewFilename
unfoldable pub preview_filename : Text → Media → Text
unfolding trim_suffix path_base path_ext to_lower preview_ext str_eq
preview_filename uploaded media =
    let base = trim_suffix (path_base uploaded) (path_ext uploaded) in
    let stem = if is_empty base || str_eq base (codes ".") then codes "preview" else base in
    stem ++ codes "-preview" ++ preview_ext media (to_lower (path_ext uploaded))

-- previewMIME
unfoldable pub preview_mime : Wiring → Text → Text
unfolding to_lower path_ext
preview_mime e name =
    let t = e.type_by_extension (to_lower (path_ext name)) in
    if is_empty t then codes "application/octet-stream" else t

-- renderText
unfoldable pub watermark_line : Wiring → RunRequest → Job → Opts → ℕ → Text
unfolding trim_space render_text_fit
watermark_line e req j brand budget =
    let own = trim_space j.watermark_text in
    let template = if is_empty brand.text_template then e.text_template else brand.text_template in
    if not (is_empty own)
    then own
    else render_text_fit template brand.company j.recipient_email req.date budget

-- process, the width of the frame, with ffmpeg.FallbackFrameWidth.
unfoldable pub frame_width_of : ProbeResult → ℕ
unfolding media_eq
frame_width_of probe =
    if probe.width == 0 && not (media_eq probe.media audio) then 1280 else probe.width

-- process, the logo: its path, and the overlay, which is text alone when the brand's logo is gone.
unfoldable pub logo_for : Wiring → Plant → Opts → Text → Text × Text
logo_for e st brand overlay =
    if is_empty brand.logo_key then ([], overlay) else elim (e.local_path brand.logo_key) [
      | none ↦ ([], codes "text")
      | some path ↦
          if ltb 0 (count_where (λ b. str_eq b.key brand.logo_key) st.blobs)
          then (path, overlay)
          else ([], codes "text")
    ]

-- process, the request to the engine.
unfoldable pub engine_request :
    Wiring → RunRequest → Plant → Job → ProbeResult → Text → Text → WatermarkRequest
unfolding decode_opts overlay_kind logo_for frame_width_of watermark_line
engine_request e req st j probe src out =
    let brand = decode_opts e.unmarshal j.watermark_opts in
    let logo = logo_for e st brand (overlay_kind j.watermark_kind) in
    record {
      source_path = src;
      output_path = out;
      media = probe.media;
      overlay = logo.1;
      text = watermark_line e req j brand 0;
      text_for = watermark_line e req j brand;
      duration_sec = probe.duration_sec;
      style = record {
        position = brand.position;
        opacity_pct = brand.opacity_pct;
        logo_scale_pct = brand.logo_scale_pct;
        frame_width = frame_width_of probe;
        logo_path = logo.0;
      };
    }
