-- ===== src/Brand.antt =====
-- internals/app/brand: the look of an operator, one row per account. The table is the list of its rows.
pub mod Service
pub mod Logos
pub mod Routes
use sade_safe_media_delivery.Base.{
  Bool, List, Result, Text, [], codes, count_where, err, find_row, if◌then◌else◌, is_empty, length,
  ltb, none, not, ok, some, str_eq, take, update_where, ℕ, ◌&&◌, ◌++◌, ◌-◌, ◌==◌, ◌||◌, ◌∷◌,
}
use sade_safe_media_delivery.GoText.{after_slash, has_substring}
use sade_safe_media_delivery.Job.{Job, pending, processing, status_eq}
use sade_safe_media_delivery.Payment.Status.{status}

pub record Brand : Type 0 where
  pub id : Text
  pub user_id : Text
  pub company_name : Text
  pub logo_key : Text
  pub position : Text
  pub opacity_pct : ℕ
  pub logo_scale_pct : ℕ
  pub text_template : Text
  pub onboarded : ℕ
  pub created_at : ℕ
  pub updated_at : ℕ

pub record BrandResponse : Type 0 where
  pub company_name : Text
  pub has_logo : Bool
  pub logo_version : Text
  pub position : Text
  pub opacity_pct : ℕ
  pub logo_scale_pct : ℕ
  pub text_template : Text
  pub onboarded : Bool

-- defaults
unfoldable pub defaults : Text → Brand
defaults user_id = record {
  id = [];
  user_id = user_id;
  company_name = [];
  logo_key = [];
  position = codes "bottom-right";
  opacity_pct = 40;
  logo_scale_pct = 18;
  text_template = codes "{company} · {recipient} · {date}";
  onboarded = 0;
  created_at = 0;
  updated_at = 0;
}

-- toResponse, the cache-buster.
unfoldable pub version_of : Text → Text
unfolding after_slash
version_of key =
    let k = after_slash key in
    if is_empty key then [] else if ltb 4 (length k) then take (length k - 4) k else []

-- toResponse
unfoldable pub brand_response : Brand → BrandResponse
unfolding version_of
brand_response b = record {
  company_name = b.company_name;
  has_logo = not (is_empty b.logo_key);
  logo_version = version_of b.logo_key;
  position = b.position;
  opacity_pct = b.opacity_pct;
  logo_scale_pct = b.logo_scale_pct;
  text_template = b.text_template;
  onboarded = b.onboarded == 1;
}

-- ErrNotFound and the errors of the service; any other error is the last.
pub data BrandError : Type 0 where
  brand_not_found brand_invalid bad_logo logo_too_large brand_internal : BrandError

-- The statements of the repository. The environment says which of them fail.
pub data BrandStmt : Type 0 where
  insert_brand read_brand update_brand count_logo : BrandStmt

abbrev pub BrandOutage : Type 0
BrandOutage = BrandStmt → Bool

abbrev pub brand_of_user : Text → Brand → Bool
brand_of_user user_id b = str_eq b.user_id user_id

-- GetByUser
unfoldable pub get_by_user : BrandOutage → List Brand → Text → Result BrandError Brand
get_by_user fails brands user_id =
    if fails read_brand
    then err brand_internal
    else elim (find_row (brand_of_user user_id) brands) [
      | none ↦ err brand_not_found
      | some b ↦ ok b
    ]

-- Save, for a brand without a row.
unfoldable pub insert_brand_row :
    BrandOutage → Text → ℕ → List Brand → Brand → Result BrandError (Unit {0}) × List Brand
insert_brand_row fails id now brands b =
    if fails insert_brand || ltb 0 (count_where (brand_of_user b.user_id) brands)
    then (err brand_internal, brands)
    else (ok tt, brands ++ record b { id = id; created_at = now; updated_at = now } ∷ [])

-- Save
unfoldable pub save :
    BrandOutage → Text → ℕ → List Brand → Brand → Result BrandError (Unit {0}) × List Brand
unfolding insert_brand_row
save fails id now brands b =
    if is_empty b.id
    then insert_brand_row fails id now brands b
    else if fails update_brand || count_where (λ r. str_eq r.id b.id) brands == 0
    then (err brand_internal, brands)
    else (
      ok tt,
      update_where (λ r. str_eq r.id b.id)
          (λ r. record b { created_at = r.created_at; updated_at = now }) brands,
    )

-- The WHERE clause of LogoInUse: the snapshot of an unfinished job names the key. A key has no
-- wildcard of LIKE.
unfoldable pub uses_logo : Text → Job → Bool
unfolding status_eq has_substring
uses_logo key j =
    (status_eq j.status pending || status_eq j.status processing)
    && has_substring j.watermark_opts (codes "\"logoKey\":\"" ++ key ++ codes "\"")

-- LogoInUse
unfoldable pub logo_in_use : BrandOutage → List Job → Text → Result BrandError Bool
unfolding uses_logo
logo_in_use fails jobs key =
    if fails count_logo then err brand_internal else ok (ltb 0 (count_where (uses_logo key) jobs))
