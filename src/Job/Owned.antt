-- ===== src/Job/Owned.antt =====
-- internals/app/job/service.go: Get, Asset, List and Delete, for the owner of a job.
use sade_safe_media_delivery.Asset.{
  Asset, AssetError, asset_internal, asset_not_found, asset_responses, get_asset, list_assets,
}
use sade_safe_media_delivery.Base.{
  Bool, List, Option, Result, Text, [], delete_where, err, false, if◌then◌else◌, map, none, not, ok,
  some, str_eq, true, ℕ, ◌==◌, ◌>>=◌, ◌∷◌,
}
use sade_safe_media_delivery.Job.{DeliverySummary, Job, JobResponse, to_response}
use sade_safe_media_delivery.Job.Repo.{
  JobRepoError, delete_if_not_processing, delivery_summary, get_job, has_paid_payment, list_by_user,
}
use sade_safe_media_delivery.Job.Service.{
  Blob, JobError, JobRequest, Works, busy, lift, no_such_job, paid_unlock, wrapped_error,
}

-- The job of the caller, else ErrNotFound.
unfoldable pub owned : JobRequest → Works → Text → Text → Result JobError Job
unfolding get_job lift str_eq
owned req w user_id job_id = lift (get_job req.job_fails w.jobs job_id) >>= λ j.
    if not (str_eq j.user_id user_id) then err no_such_job else ok j

-- An error of the asset repository, wrapped.
unfoldable pub wrap {ℓ} : {A : Type ℓ} → Result AssetError A → Result JobError A
wrap (ok a) = ok a
wrap (err e) = err wrapped_error

-- addDelivery, one response.
unfoldable pub with_summary : (Text → Option DeliverySummary) → JobResponse → JobResponse
with_summary sum r = elim (sum r.id) [
  | none ↦ r
  | some d ↦ record r {
    is_paid_for = d.is_paid_for;
    opened_at = if d.opened_at == 0 then r.opened_at else some d.opened_at;
  }
]

-- addDelivery
unfoldable pub add_delivery : JobRequest → Works → List JobResponse → List JobResponse
unfolding delivery_summary with_summary
add_delivery req w rs =
    elim (delivery_summary req.job_fails w.events w.payments (map (λ r. r.id) rs)) [
      | err e ↦ rs
      | ok sum ↦ map (with_summary sum) rs
    ]

-- The index 0 of the slice that Get built around `r`.
unfoldable pub first_of : JobResponse → List JobResponse → JobResponse
first_of r [] = r
first_of r (one ∷ rest) = one

-- Get
unfoldable pub get : JobRequest → Works → Text → Text → Result JobError JobResponse
unfolding owned wrap list_assets first_of add_delivery to_response asset_responses
get req w user_id job_id = owned req w user_id job_id >>= λ j.
    wrap (list_assets req.asset_fails w.assets job_id) >>= λ assets.
    let r : JobResponse = record (to_response j) { assets = asset_responses assets } in
    ok (first_of r (add_delivery req w (r ∷ [])))

-- Asset, what it does with the row.
unfoldable pub asset_of_job : Text → Result AssetError Asset → Result JobError Asset
unfolding str_eq
asset_of_job job_id (err asset_not_found) = err no_such_job
asset_of_job job_id (err asset_internal) = err wrapped_error
asset_of_job job_id (ok a) = if not (str_eq a.job_id job_id) then err no_such_job else ok a

-- Asset
unfoldable pub asset : JobRequest → Works → Text → Text → Text → Result JobError Asset
unfolding owned get_asset asset_of_job
asset req w user_id job_id asset_id = owned req w user_id job_id >>= λ j.
    asset_of_job job_id (get_asset req.asset_fails w.assets asset_id)

-- List
unfoldable pub list : JobRequest → Works → Text → ℕ → ℕ → Result JobError (List JobResponse)
unfolding lift list_by_user add_delivery to_response
list req w user_id offset limit =
    lift (list_by_user req.job_fails w.jobs user_id offset limit) >>= λ jobs.
    ok (add_delivery req w (map to_response jobs))

-- ON DELETE CASCADE of the tables that refer to a job.
unfoldable pub cascade : Text → Works → Works
cascade job_id w = record w {
  assets = delete_where (λ a. str_eq a.job_id job_id) w.assets;
  payments = delete_where (λ p. str_eq p.job_id job_id) w.payments;
  events = delete_where (λ e. str_eq e.job_id job_id) w.events;
}

-- The Delete of the store; a failure is logged only.
unfoldable pub delete_blob : JobRequest → Text → List Blob → List Blob
delete_blob req key blobs =
    if req.delete_fails key then blobs else delete_where (λ b. str_eq b.key key) blobs

-- Delete, the loop over the assets.
unfoldable pub delete_blobs : JobRequest → List Asset → List Blob → List Blob
unfolding delete_blob
delete_blobs req [] blobs = blobs
delete_blobs req (a ∷ assets) blobs = delete_blobs req assets (delete_blob req a.storage_key blobs)

-- Delete, by what DeleteIfNotProcessing said.
unfoldable pub after_delete :
    JobRequest
    → Works
    → Text
    → List Asset
    → Result JobRepoError Bool × List Job
    → Result JobError (Unit {0}) × Works
unfolding cascade delete_blobs
after_delete req w job_id assets (err e, jobs) = (err wrapped_error, w)
after_delete req w job_id assets (ok false, jobs) = (err busy, w)
after_delete req w job_id assets (ok true, jobs) =
    (ok tt, record (cascade job_id w) { jobs = jobs; blobs = delete_blobs req assets w.blobs })

-- Delete, from DeleteIfNotProcessing on.
unfoldable pub delete_rows :
    JobRequest → Works → Text → List Asset → Result JobError (Unit {0}) × Works
unfolding delete_if_not_processing after_delete
delete_rows req w job_id assets =
    after_delete req w job_id assets (delete_if_not_processing req.job_fails w.jobs job_id)

-- Delete, the checks before: the assets of a job that may go.
unfoldable pub deletable : JobRequest → Works → Text → Text → Result JobError (List Asset)
unfolding owned lift has_paid_payment wrap list_assets
deletable req w user_id job_id = owned req w user_id job_id >>= λ j.
    lift (has_paid_payment req.job_fails w.payments job_id) >>= λ is_bought.
    if is_bought then err paid_unlock else wrap (list_assets req.asset_fails w.assets job_id)

-- Delete
unfoldable pub delete : JobRequest → Works → Text → Text → Result JobError (Unit {0}) × Works
unfolding deletable delete_rows
delete req w user_id job_id = elim (deletable req w user_id job_id) [
  | err e ↦ (err e, w)
  | ok assets ↦ delete_rows req w job_id assets
]
