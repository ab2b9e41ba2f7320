-- ===== src/Examples/Branding.antt =====
-- The brands and the watermark text at concrete inputs.
use sade_safe_media_delivery.Base.{
  Text, [], arith, codes, count_where, false, length, refl, some, str_eq, ◌∷◌, ◌≡◌, ◌≤◌,
}
use sade_safe_media_delivery.Brand.{defaults, uses_logo}
use sade_safe_media_delivery.Brand.Logos.{IsKept, after_brand_call, brand_calls-IsKept, sets_logo}
use sade_safe_media_delivery.Brand.Service.{BrandRequest, Looks, Pictures}
use sade_safe_media_delivery.GoText.{trim_space}
use sade_safe_media_delivery.Job.{Job, image, pending}
use sade_safe_media_delivery.Wmopts.{
  drop_date, give_up, render, render_text, render_text_fit, shorten, with_short,
}
use sade_safe_media_delivery.Wmopts.Fit.{render_text_fit-fits}

abbrev line : Text
line = codes "{company} {recipient}"

full_length : length (render_text line (codes "ACMECORP") (codes "a@b") (codes "d")) ≡ 12
unfolding render_text render
full_length = refl

bare_length : length (render line [] (codes "a@b") (codes "d")) ≡ 3
unfolding render
bare_length = refl

short_length :
    length (with_short line (trim_space (codes "ACMECORP")) (codes "a@b") (codes "d") 3) ≡ 10
unfolding with_short render trim_space
short_length = refl

name_length : length (trim_space (codes "ACMECORP")) ≡ 8
unfolding trim_space
name_length = refl

render_text_fit-fits_example :
    length (render_text_fit line (codes "ACMECORP") (codes "a@b") (codes "d") 11) ≤ 11
render_text_fit-fits_example =
    render_text_fit-fits line (codes "ACMECORP") (codes "a@b") (codes "d") 11 3 (omega arith)
      (omega arith) (omega (arith, name_length)) (omega (arith, bare_length, full_length))
      (omega (arith, short_length))

-- A budget that takes the name whole, and one that takes it away.
fitted : render_text_fit line (codes "ACMECORP") (codes "a@b") (codes "d") 5 ≡ codes "a@b"
unfolding render_text_fit give_up shorten with_short render trim_space drop_date
fitted = refl

abbrev pictures : Pictures
pictures = record {
  picture_size = λ raw. some (codes "png", 100, 100);
  decoded_picture = λ raw. some raw;
  encoded = λ picture. some picture;
  short_hash = λ out. out;
}

abbrev brand_request : BrandRequest
brand_request = record {
  fails = λ st. false;
  put_fails = false;
  delete_fails = λ key. false;
  gives_up = false;
  now = 7;
  new_id = codes "b2";
}

abbrev old_logo : Text
old_logo = codes "brands/u1/old.png"

abbrev waiting : Job
waiting = record {
  id = codes "j1";
  user_id = codes "u1";
  status = pending;
  media_type = image;
  recipient_email = codes "a@b.ro";
  watermark_kind = codes "both";
  watermark_text = [];
  watermark_opts = codes "{\"logoKey\":\"brands/u1/old.png\"}";
  attempts = 0;
  error = [];
  next_attempt_at = 0;
  created_at = 1;
  updated_at = 1;
  links_disabled = 0;
}

abbrev looks : Looks
looks = record {
  brands = record (defaults (codes "u1")) { id = codes "b1"; logo_key = old_logo } ∷ [];
  jobs = waiting ∷ [];
  blobs = record { key = old_logo; content = codes "png" } ∷ [];
}

old_logo-IsKept : IsKept old_logo looks
unfolding uses_logo count_where str_eq
old_logo-IsKept = (omega arith, omega arith)

brand_calls-IsKept_example :
    IsKept old_logo
      (after_brand_call pictures brand_request looks (codes "u1") (sets_logo (some (codes "new"))))
brand_calls-IsKept_example =
    brand_calls-IsKept pictures brand_request looks (codes "u1") (sets_logo (some (codes "new")))
      old_logo old_logo-IsKept
