-- ===== src/Brand/Routes.antt =====
-- internals/app/brand/handler.go: the routes of an account's brand. Uploads of a logo are limited.
use sade_safe_media_delivery.Base.{Option, Result, Text, err, if◌then◌else◌, none, not, ok, some}
use sade_safe_media_delivery.Brand.{
  BrandError, BrandResponse, bad_logo, brand_invalid, logo_too_large,
}
use sade_safe_media_delivery.Brand.Service.{
  BrandRequest, Looks, Pictures, UpdateRequest, complete_onboarding, get_brand, open_logo,
  remove_logo, set_logo, update_look,
}
use sade_safe_media_delivery.Http.{HttpReply, refused, replied}
use sade_safe_media_delivery.Job.Routes.{for_operator}
use sade_safe_media_delivery.Ratelimit.{Limiter, allow}

-- The state of the handler: the tables with the store, and the limiter of the uploads.
pub record BrandDesk : Type 0 where
  pub looks : Looks
  pub uploads : Limiter

-- A multipart form with a logo: too large, without one, or with one, `none` where reading it fails.
pub data LogoForm : Type 0 where
  oversized no_logo : LogoForm
  with_file : Option Text → LogoForm

-- reply
unfoldable pub brand_reply :
    Limiter → Result BrandError BrandResponse × Looks → HttpReply BrandResponse × BrandDesk
brand_reply u (ok resp, l) = replied 200 resp (record { looks = l; uploads = u })
brand_reply u (err brand_invalid, l) =
    refused 400 "invalid brand settings" (record { looks = l; uploads = u })
brand_reply u (err bad_logo, l) =
    refused 415 "logo must be a PNG or JPEG image" (record { looks = l; uploads = u })
brand_reply u (err logo_too_large, l) =
    refused 413 "logo file is too large" (record { looks = l; uploads = u })
brand_reply u (err _, l) =
    refused 500 "could not save the brand" (record { looks = l; uploads = u })

-- Get
unfoldable pub get_brand_route :
    BrandRequest → BrandDesk → Option Text → HttpReply BrandResponse × BrandDesk
unfolding for_operator get_brand brand_reply
get_brand_route req d caller =
    for_operator caller d
      (λ user_id. brand_reply d.uploads (get_brand req d.looks user_id, d.looks))

-- Update
unfoldable pub update_brand_route :
    BrandRequest
    → BrandDesk
    → Option Text
    → Option UpdateRequest
    → HttpReply BrandResponse × BrandDesk
unfolding for_operator update_look brand_reply
update_brand_route req d caller body = for_operator caller d (λ user_id. elim body [
  | none ↦ refused 400 "invalid request body" d
  | some u ↦ brand_reply d.uploads (update_look req d.looks user_id u)
])

-- UploadLogo, when the limiter allows it.
unfoldable pub upload_form :
    Pictures
    → BrandRequest
    → Looks
    → Limiter
    → Text
    → LogoForm
    → HttpReply BrandResponse × BrandDesk
unfolding set_logo brand_reply
upload_form p req l u user_id oversized = brand_reply u (err logo_too_large, l)
upload_form p req l u user_id no_logo =
    refused 400 "missing logo file" (record { looks = l; uploads = u })
upload_form p req l u user_id (with_file raw) = brand_reply u (set_logo p req l user_id raw)

-- UploadLogo
unfoldable pub upload_logo_route :
    Pictures
    → BrandRequest
    → BrandDesk
    → Option Text
    → LogoForm
    → HttpReply BrandResponse × BrandDesk
unfolding for_operator allow upload_form
upload_logo_route p req d caller form = for_operator caller d (λ user_id.
    let asked = allow d.uploads user_id req.now req.now in
    if not asked.1
    then refused 429 "too many logo uploads today" (record d { uploads = asked.0 })
    else upload_form p req d.looks asked.0 user_id form)

-- DeleteLogo
unfoldable pub delete_logo_route :
    BrandRequest → BrandDesk → Option Text → HttpReply BrandResponse × BrandDesk
unfolding for_operator remove_logo brand_reply
delete_logo_route req d caller =
    for_operator caller d (λ user_id. brand_reply d.uploads (remove_logo req d.looks user_id))

-- Logo, the picture.
unfoldable pub logo_route : BrandRequest → BrandDesk → Option Text → HttpReply Text × BrandDesk
unfolding for_operator open_logo
logo_route req d caller = for_operator caller d (λ user_id. elim (open_logo req d.looks user_id) [
  | err e ↦ refused 404 "no logo" d
  | ok picture ↦ replied 200 picture d
])

-- Onboarded
unfoldable pub onboarded_route :
    BrandRequest → BrandDesk → Option Text → HttpReply BrandResponse × BrandDesk
unfolding for_operator complete_onboarding brand_reply
onboarded_route req d caller =
    for_operator caller d
      (λ user_id. brand_reply d.uploads (complete_onboarding req d.looks user_id))
