-- ===== src/Asset.antt =====
-- internals/app/asset: a stored file of a job. The table is the list of its rows.
pub mod Single
pub mod Upserted
use sade_safe_media_delivery.Base.{
  Bool, List, Result, Text, [], count_where, delete_where, err, false, find_row, if◌then◌else◌, ltb,
  map, none, ok, select, some, sort_by, str_eq, true, update_where, ℕ, ◌++◌, ◌==◌, ◌>>=◌, ◌∷◌,
}

-- KindOriginal, KindPreview
pub data Kind : Type 0 where
  original preview : Kind

unfoldable pub kind_eq : Kind → Kind → Bool
kind_eq original original = true
kind_eq preview preview = true
kind_eq _ _ = false

pub record Asset : Type 0 where
  pub id : Text
  pub job_id : Text
  pub kind : Kind
  pub storage_key : Text
  pub filename : Text
  pub mime : Text
  pub size_bytes : ℕ
  pub checksum : Text
  pub created_at : ℕ

pub record AssetResponse : Type 0 where
  pub id : Text
  pub job_id : Text
  pub kind : Kind
  pub filename : Text
  pub mime : Text
  pub size_bytes : ℕ
  pub checksum : Text
  pub created_at : ℕ

unfoldable pub asset_response : Asset → AssetResponse
asset_response a = record {
  id = a.id;
  job_id = a.job_id;
  kind = a.kind;
  filename = a.filename;
  mime = a.mime;
  size_bytes = a.size_bytes;
  checksum = a.checksum;
  created_at = a.created_at;
}

-- ToResponses
unfoldable pub asset_responses : List Asset → List AssetResponse
unfolding asset_response
asset_responses = map asset_response

-- ErrNotFound, and any other error of the database.
pub data AssetError : Type 0 where
  asset_not_found asset_internal : AssetError

-- The statements of the repository. The environment says which of them fail.
pub data AssetStmt : Type 0 where
  insert_asset read_asset read_assets delete_asset update_asset : AssetStmt

abbrev pub AssetOutage : Type 0
AssetOutage = AssetStmt → Bool

-- Create. The database gives the row its id and its time.
unfoldable pub create_asset :
    AssetOutage → Text → ℕ → List Asset → Asset → Result AssetError Text × List Asset
create_asset fails id now assets a =
    if fails insert_asset
    then (err asset_internal, assets)
    else (ok id, assets ++ record a { id = id; created_at = now } ∷ [])

-- GetByID
unfoldable pub get_asset : AssetOutage → List Asset → Text → Result AssetError Asset
get_asset fails assets id =
    if fails read_asset
    then err asset_internal
    else elim (find_row (λ a. str_eq a.id id) assets) [ none ↦ err asset_not_found | some a ↦ ok a ]

-- ListByJob, oldest first.
unfoldable pub list_assets : AssetOutage → List Asset → Text → Result AssetError (List Asset)
list_assets fails assets job_id =
    if fails read_assets
    then err asset_internal
    else ok (
        sort_by (λ a b. ltb a.created_at b.created_at)
          (select (λ a. str_eq a.job_id job_id) assets))

-- The loop of GetByJobAndKind.
unfoldable pub first_of_kind : Kind → List Asset → Result AssetError Asset
first_of_kind kind [] = err asset_not_found
first_of_kind kind (a ∷ rest) = if kind_eq a.kind kind then ok a else first_of_kind kind rest

-- GetByJobAndKind
unfoldable pub get_by_job_and_kind :
    AssetOutage → List Asset → Text → Kind → Result AssetError Asset
unfolding list_assets first_of_kind
get_by_job_and_kind fails assets job_id kind =
    list_assets fails assets job_id >>= first_of_kind kind

-- Delete
unfoldable pub delete_asset_row :
    AssetOutage → List Asset → Text → Result AssetError (Unit {0}) × List Asset
delete_asset_row fails assets id =
    if fails delete_asset
    then (err asset_internal, assets)
    else if count_where (λ a. str_eq a.id id) assets == 0
    then (err asset_not_found, assets)
    else (ok tt, delete_where (λ a. str_eq a.id id) assets)

-- The end of UpsertPreview, by what GetByJobAndKind said.
unfoldable pub upsert_found :
    AssetOutage
    → Text
    → ℕ
    → List Asset
    → Asset
    → Result AssetError Asset
    → Result AssetError Text × List Asset
unfolding create_asset
upsert_found fails id now assets a (ok existing) =
    if fails update_asset then (err asset_internal, assets) else (
      ok existing.id,
      update_where (λ r. str_eq r.id existing.id)
          (λ r. record a { id = existing.id; created_at = existing.created_at }) assets,
    )
upsert_found fails id now assets a (err asset_not_found) = create_asset fails id now assets a
upsert_found fails id now assets a (err asset_internal) = (err asset_internal, assets)

-- UpsertPreview
unfoldable pub upsert_preview :
    AssetOutage → Text → ℕ → List Asset → Asset → Result AssetError Text × List Asset
unfolding upsert_found
upsert_preview fails id now assets a =
    let p = record a { kind = preview } in
    upsert_found fails id now assets p (get_by_job_and_kind fails assets p.job_id preview)
