-- ===== src/Brand/Service.antt =====
-- internals/app/brand/service.go. Decoding and encoding a picture, and SHA-256, are parameters; the store
-- is the list of its files.
use sade_safe_media_delivery.Base.{
  Bool, List, Option, Result, Text, [], codes, contains, delete_where, err, find_row, if◌then◌else◌,
  is_empty, leb, length, lift_part, ltb, map, none, not, ok, some, str_eq, ℕ, ◌&&◌, ◌*◌, ◌++◌,
  ◌>>=◌, ◌>>>◌, ◌||◌, ◌∷◌,
}
use sade_safe_media_delivery.Brand.{
  Brand, BrandError, BrandOutage, BrandResponse, bad_logo, brand_internal, brand_invalid,
  brand_not_found, brand_response, defaults, get_by_user, logo_in_use, logo_too_large, save,
}
use sade_safe_media_delivery.GoText.{trim_space}
use sade_safe_media_delivery.Job.{Job}
use sade_safe_media_delivery.Job.Create.{put_blob}
use sade_safe_media_delivery.Job.Service.{Blob, is_control}
use sade_safe_media_delivery.Wmopts.{Opts}

-- The tables that the service reads, and the store.
pub record Looks : Type 0 where
  pub brands : List Brand
  pub jobs : List Job
  pub blobs : List Blob

-- What Go's image packages do, and the name of a file by its hash. `picture_size` is the format, the
-- width and the height; `encoded` scales a decoded picture down and writes it as a PNG; `none` is an
-- error.
pub record Pictures : Type 0 where
  pub picture_size : Text → Option (Text × ℕ × ℕ)
  pub decoded_picture : Text → Option Text
  pub encoded : Text → Option Text
  pub short_hash : Text → Text

-- One request: what fails during it, its instant, and the id that the database gives. `gives_up` says
-- that it ends before it gets a slot to decode a logo.
pub record BrandRequest : Type 0 where
  pub fails : BrandOutage
  pub put_fails : Bool
  pub delete_fails : Text → Bool
  pub gives_up : Bool
  pub now : ℕ
  pub new_id : Text

-- UpdateRequest
pub record UpdateRequest : Type 0 where
  pub company_name : Text
  pub position : Text
  pub opacity_pct : ℕ
  pub logo_scale_pct : ℕ
  pub text_template : Text

-- MaxLogoBytes, maxLogoDim, maxLogoPixels
abbrev pub max_logo_bytes : ℕ
max_logo_bytes = 3_145_728

abbrev pub max_logo_dim : ℕ
max_logo_dim = 6000

abbrev pub max_logo_pixels : ℕ
max_logo_pixels = 4_000_000

-- ffmpeg.ValidPosition
unfoldable pub valid_position : Text → Bool
unfolding contains
valid_position = contains (
    codes "top-left"
    ∷ codes "top-right"
    ∷ codes "bottom-left"
    ∷ codes "bottom-right"
    ∷ codes "center"
    ∷ codes "tiled"
    ∷ [])

-- load
unfoldable pub load_brand : BrandRequest → Looks → Text → Result BrandError Brand
unfolding get_by_user defaults
load_brand req l user_id = elim (get_by_user req.fails l.brands user_id) [
  | ok b ↦ ok b
  | err brand_not_found ↦ ok (defaults user_id)
  | err e ↦ err e
]

-- Get
unfoldable pub get_brand : BrandRequest → Looks → Text → Result BrandError BrandResponse
unfolding load_brand brand_response
get_brand req l user_id = load_brand req l user_id >>= λ b. ok (brand_response b)

-- cleanText
unfoldable pub clean_text : Text → Text
unfolding trim_space is_control
clean_text s = trim_space (map (λ c. if is_control c then 32 else c) s)

-- Update, its checks.
unfoldable pub is_valid_look : UpdateRequest → Bool
unfolding clean_text valid_position
is_valid_look u =
    leb (length (clean_text u.company_name)) 80
    && (leb (length (clean_text u.text_template)) 120
        && (valid_position u.position
            && (leb 10 u.opacity_pct && leb u.opacity_pct 100)
            && (leb 5 u.logo_scale_pct && leb u.logo_scale_pct 50)))

-- What follows a brand that is saved: its response.
unfoldable pub saved : BrandRequest → Looks → Brand → Result BrandError BrandResponse × Looks
unfolding save brand_response
saved req l b =
    lift_part (λ e. e) (λ rows. record l { brands = rows })
      (save req.fails req.new_id req.now l.brands b)
    >>> λ t l1. (ok (brand_response b), l1)

-- Update, the brand with the new settings.
abbrev pub with_look : Brand → UpdateRequest → Brand
with_look b u = record b {
  company_name = clean_text u.company_name;
  text_template = clean_text u.text_template;
  position = u.position;
  opacity_pct = u.opacity_pct;
  logo_scale_pct = u.logo_scale_pct;
}

-- Update
unfoldable pub update_look :
    BrandRequest → Looks → Text → UpdateRequest → Result BrandError BrandResponse × Looks
unfolding is_valid_look load_brand saved
update_look req l user_id u =
    if not (is_valid_look u)
    then (err brand_invalid, l)
    else (load_brand req l user_id, l) >>> λ b l1. saved req l1 (with_look b u)

-- dropLogo. Its failures are logged only.
unfoldable pub drop_logo : BrandRequest → Looks → Text → Text → Looks
unfolding logo_in_use str_eq
drop_logo req l old current =
    if is_empty old || str_eq old current then l else elim (logo_in_use req.fails l.jobs old) [
      | err e ↦ l
      | ok in_use ↦
          if in_use || req.delete_fails old
          then l
          else record l { blobs = delete_where (λ b. str_eq b.key old) l.blobs }
    ]

-- SetLogo, the limits of a picture.
unfoldable pub is_fit_logo : Text × ℕ × ℕ → Bool
unfolding str_eq
is_fit_logo (format, w, h) =
    (str_eq format (codes "png") || str_eq format (codes "jpeg"))
    && (leb 16 w && leb 16 h)
    && (leb w max_logo_dim && leb h max_logo_dim && leb (w * h) max_logo_pixels)

-- SetLogo and normalise: the checks of a file, and what is stored of it.
unfoldable pub checked_logo : Pictures → BrandRequest → Option Text → Result BrandError Text
unfolding is_fit_logo
checked_logo p req none = err brand_internal
checked_logo p req (some raw) =
    if ltb max_logo_bytes (length raw) then err logo_too_large else elim (p.picture_size raw) [
      | none ↦ err bad_logo
      | some size ↦
          if not (is_fit_logo size)
          then err bad_logo
          else if req.gives_up
          then err brand_internal
          else elim (p.decoded_picture raw) [
            | none ↦ err bad_logo
            | some picture ↦ elim (p.encoded picture) [
              | none ↦ err brand_internal
              | some out ↦ ok out
            ]
          ]
    ]

-- SetLogo, the key of the file.
unfoldable pub logo_key_of : Pictures → Text → Text → Text
logo_key_of p user_id out =
    codes "brands/" ++ user_id ++ codes "/" ++ p.short_hash out ++ codes ".png"

-- Points the brand at a logo, and drops the one before.
unfoldable pub point_at :
    BrandRequest → Looks → Brand → Text → Result BrandError BrandResponse × Looks
unfolding saved drop_logo
point_at req l b key =
    saved req l (record b { logo_key = key }) >>> λ r l1. (ok r, drop_logo req l1 b.logo_key key)

-- SetLogo, the store with the file.
abbrev pub with_logo : Pictures → Looks → Text → Text → Looks
with_logo p l user_id out = record l {
  blobs = put_blob (record { key = logo_key_of p user_id out; content = out }) l.blobs;
}

-- SetLogo
unfoldable pub set_logo :
    Pictures → BrandRequest → Looks → Text → Option Text → Result BrandError BrandResponse × Looks
unfolding checked_logo load_brand point_at
set_logo p req l user_id raw = (checked_logo p req raw, l) >>> λ out l1.
    if req.put_fails
    then (err brand_internal, l1)
    else (load_brand req (with_logo p l1 user_id out) user_id, with_logo p l1 user_id out)
      >>> λ b l2. point_at req l2 b (logo_key_of p user_id out)

-- RemoveLogo
unfoldable pub remove_logo : BrandRequest → Looks → Text → Result BrandError BrandResponse × Looks
unfolding load_brand brand_response point_at
remove_logo req l user_id = (load_brand req l user_id, l) >>> λ b l1.
    if is_empty b.logo_key then (ok (brand_response b), l1) else point_at req l1 b []

-- Logo
unfoldable pub open_logo : BrandRequest → Looks → Text → Result BrandError Text
unfolding load_brand
open_logo req l user_id = load_brand req l user_id >>= λ b.
    if is_empty b.logo_key
    then err brand_not_found
    else elim (find_row (λ r. str_eq r.key b.logo_key) l.blobs) [
      | none ↦ err brand_internal
      | some r ↦ ok r.content
    ]

-- CompleteOnboarding
unfoldable pub complete_onboarding :
    BrandRequest → Looks → Text → Result BrandError BrandResponse × Looks
unfolding load_brand saved
complete_onboarding req l user_id =
    (load_brand req l user_id, l) >>> λ b l1. saved req l1 (record b { onboarded = 1 })

-- Snapshot, before it becomes JSON.
unfoldable pub snapshot : BrandRequest → Looks → Text → Result BrandError Opts
unfolding load_brand
snapshot req l user_id = load_brand req l user_id >>= λ b. ok (record {
  company = b.company_name;
  logo_key = b.logo_key;
  position = b.position;
  opacity_pct = b.opacity_pct;
  logo_scale_pct = b.logo_scale_pct;
  text_template = b.text_template;
})
