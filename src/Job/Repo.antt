-- ===== src/Job/Repo.antt =====
-- internals/app/job/repo.go. Each method is one statement, or two; the environment says which of
-- them fail, and a failed one changes nothing; but the rows that ClaimPending's statement returns are
-- read after it took effect, and reading them can fail too (`scan_claimed`).
use sade_safe_media_delivery.Asset.{Asset}
use sade_safe_media_delivery.Base.{
  Bool, List, Option, Result, Text, [], contains, count_where, delete_where, drop, err, find_row,
  if◌then◌else◌, is_empty, leb, length, ltb, map, none, not, ok, select, some, sort_by, str_eq,
  take, update_where, ℕ, ◌&&◌, ◌++◌, ◌+◌, ◌-◌, ◌==◌, ◌||◌, ◌∷◌,
}
use sade_safe_media_delivery.Job.{
  DeliverySummary, Job, done, failed, pending, processing, status_eq,
}
use sade_safe_media_delivery.JobEvent.{JobEvent, event_eq, viewed}
use sade_safe_media_delivery.Payment.{Payment, is_paid}

pub data JobStmt : Type 0 where
  insert_job read_job read_jobs update_job delete_job count_recent sum_storage : JobStmt
  check_payments summary_opened summary_paid set_links read_links delete_idle : JobStmt
  claim scan_claimed mark_done_stmt mark_failed_stmt mark_retry_stmt reset : JobStmt

abbrev pub JobOutage : Type 0
JobOutage = JobStmt → Bool

-- ErrNotFound, and any other error of the database.
pub data JobRepoError : Type 0 where
  job_not_found job_internal : JobRepoError

-- maxErrLen
abbrev pub max_err_len : ℕ
max_err_len = 1000

-- truncate
unfoldable pub truncate : Text → ℕ → Text
truncate s n = if leb (length s) n then s else take n s

abbrev pub has_id : Text → Job → Bool
has_id id j = str_eq j.id id

-- Create. The database gives the row its id and its times; NextAttemptAt is the zero time.
unfoldable pub create_job :
    JobOutage → Text → ℕ → List Job → Job → Result JobRepoError Text × List Job
create_job fails id now jobs j =
    if fails insert_job
    then (err job_internal, jobs)
    else (ok id, jobs ++ record j { id = id; created_at = now; updated_at = now } ∷ [])

-- GetByID
unfoldable pub get_job : JobOutage → List Job → Text → Result JobRepoError Job
get_job fails jobs id =
    if fails read_job
    then err job_internal
    else elim (find_row (has_id id) jobs) [ none ↦ err job_not_found | some j ↦ ok j ]

-- The window of ListByUser on the sorted rows.
unfoldable pub page : ℕ → ℕ → List Job → List Job
page offset limit jobs =
    if leb (length jobs) offset
    then []
    else let end = if ltb (length jobs) (offset + limit) then length jobs else offset + limit in
      take (end - offset) (drop offset jobs)

-- ListByUser, newest first.
unfoldable pub list_by_user : JobOutage → List Job → Text → ℕ → ℕ → Result JobRepoError (List Job)
unfolding page
list_by_user fails jobs user_id offset limit =
    if fails read_jobs
    then err job_internal
    else ok (
        page offset limit (
          sort_by (λ a b. ltb b.created_at a.created_at)
            (select (λ j. str_eq j.user_id user_id) jobs)))

-- Update writes every column of the row with the id of `j`.
unfoldable pub update_job_row :
    JobOutage → ℕ → List Job → Job → Result JobRepoError (Unit {0}) × List Job
update_job_row fails now jobs j =
    if fails update_job
    then (err job_internal, jobs)
    else if count_where (has_id j.id) jobs == 0
    then (err job_not_found, jobs)
    else (
      ok tt,
      update_where (has_id j.id) (λ r. record j { created_at = r.created_at; updated_at = now })
          jobs,
    )

-- Delete
unfoldable pub delete_job_row :
    JobOutage → List Job → Text → Result JobRepoError (Unit {0}) × List Job
delete_job_row fails jobs id =
    if fails delete_job
    then (err job_internal, jobs)
    else if count_where (has_id id) jobs == 0
    then (err job_not_found, jobs)
    else (ok tt, delete_where (has_id id) jobs)

-- CountCreatedSince
unfoldable pub count_created_since : JobOutage → List Job → Text → ℕ → Result JobRepoError ℕ
count_created_since fails jobs user_id since =
    if fails count_recent
    then err job_internal
    else ok (count_where (λ j. str_eq j.user_id user_id && leb since j.created_at) jobs)

-- The SUM over the assets of one job.
unfoldable pub job_bytes : Text → List Asset → ℕ
job_bytes job_id [] = 0
job_bytes job_id (a ∷ assets) =
    let rest = job_bytes job_id assets in
    if str_eq a.job_id job_id then a.size_bytes + rest else rest

-- The SUM over the JOIN with the jobs of the user.
unfoldable pub user_bytes : Text → List Job → List Asset → ℕ
unfolding job_bytes
user_bytes user_id [] assets = 0
user_bytes user_id (j ∷ jobs) assets =
    let rest = user_bytes user_id jobs assets in
    if str_eq j.user_id user_id then job_bytes j.id assets + rest else rest

-- StorageBytes
unfoldable pub storage_bytes : JobOutage → List Job → List Asset → Text → Result JobRepoError ℕ
unfolding user_bytes
storage_bytes fails jobs assets user_id =
    if fails sum_storage then err job_internal else ok (user_bytes user_id jobs assets)

-- HasPaidPayment
unfoldable pub has_paid_payment : JobOutage → List Payment → Text → Result JobRepoError Bool
unfolding is_paid
has_paid_payment fails payments job_id =
    if fails check_payments
    then err job_internal
    else ok (ltb 0 (count_where (λ p. str_eq p.job_id job_id && is_paid p.status) payments))

-- DeliverySummary, the latest view of one job: the loop over the first query.
unfoldable pub latest_view : Text → List JobEvent → ℕ → ℕ
latest_view job_id [] latest = latest
latest_view job_id (e ∷ events) latest = latest_view job_id events (
    if str_eq e.job_id job_id && event_eq e.kind viewed && ltb latest e.created_at
    then e.created_at
    else latest)

-- DeliverySummary, the entry of one job in the returned map.
unfoldable pub delivery_of : List JobEvent → List Payment → Text → Option DeliverySummary
unfolding latest_view is_paid
delivery_of events payments job_id =
    let seen = ltb 0 (count_where (λ e. str_eq e.job_id job_id && event_eq e.kind viewed) events) in
    let paid_for = ltb 0 (count_where (λ p. str_eq p.job_id job_id && is_paid p.status) payments) in
    if seen || paid_for
    then some (record { opened_at = latest_view job_id events 0; is_paid_for = paid_for })
    else none

-- DeliverySummary. The map is the list of its entries in the order of `job_ids`.
unfoldable pub delivery_summary :
    JobOutage
    → List JobEvent
    → List Payment
    → List Text
    → Result JobRepoError (Text → Option DeliverySummary)
unfolding delivery_of
delivery_summary fails events payments job_ids =
    if is_empty job_ids
    then ok (λ id. none)
    else if fails summary_opened || fails summary_paid
    then err job_internal
    else ok (λ id. if contains job_ids id then delivery_of events payments id else none)

-- SetLinksDisabled
unfoldable pub set_links_disabled :
    JobOutage → List Job → Text → Bool → Result JobRepoError (Unit {0}) × List Job
set_links_disabled fails jobs job_id disabled =
    if fails set_links
    then (err job_internal, jobs)
    else if count_where (has_id job_id) jobs == 0
    then (err job_not_found, jobs)
    else (
      ok tt,
      update_where (has_id job_id) (λ j. record j { links_disabled = if disabled then 1 else 0 })
          jobs,
    )

-- LinksDisabled
unfoldable pub links_disabled_of : JobOutage → List Job → Text → Result JobRepoError Bool
links_disabled_of fails jobs job_id =
    if fails read_links then err job_internal else elim (find_row (has_id job_id) jobs) [
      | none ↦ err job_not_found
      | some j ↦ ok (j.links_disabled == 1)
    ]

-- DeleteIfNotProcessing: the WHERE clause.
unfoldable pub is_idle : Text → Job → Bool
unfolding status_eq
is_idle job_id j = str_eq j.id job_id && not (status_eq j.status processing)

-- DeleteIfNotProcessing
unfoldable pub delete_if_not_processing :
    JobOutage → List Job → Text → Result JobRepoError Bool × List Job
unfolding is_idle
delete_if_not_processing fails jobs job_id =
    if fails delete_idle
    then (err job_internal, jobs)
    else (ok (ltb 0 (count_where (is_idle job_id) jobs)), delete_where (is_idle job_id) jobs)

-- ClaimPending: the WHERE clause of the inner SELECT.
unfoldable pub is_eligible : ℕ → Job → Bool
unfolding status_eq
is_eligible now j = status_eq j.status pending && leb j.next_attempt_at now

-- ClaimPending: the ids that the inner SELECT yields.
unfoldable pub eligible_ids : ℕ → ℕ → List Job → List Text
unfolding is_eligible
eligible_ids limit now jobs = take limit (
    map (λ j. j.id)
      (sort_by (λ a b. ltb a.created_at b.created_at) (select (is_eligible now) jobs)))

-- ClaimPending: the SET clause.
unfoldable pub claimed : ℕ → Job → Job
claimed now j = record j { status = processing; attempts = j.attempts + 1; updated_at = now }

-- ClaimPending: the row that the RETURNING clause is scanned into, claimColumns alone.
unfoldable pub scanned : Job → Job
scanned j = record j {
  error = [];
  next_attempt_at = 0;
  created_at = 0;
  updated_at = 0;
  links_disabled = 0;
}

-- ClaimPending. The rows come back in the order of the table, since RETURNING has no ORDER BY.
unfoldable pub claim_pending :
    JobOutage → List Job → ℕ → ℕ → Result JobRepoError (List Job) × List Job
unfolding eligible_ids claimed scanned
claim_pending fails jobs limit now =
    if fails claim
    then (err job_internal, jobs)
    else let ids = eligible_ids (if ltb limit 1 then 1 else limit) now jobs in
      let table = update_where (λ j. contains ids j.id) (claimed now) jobs in
      if fails scan_claimed
      then (err job_internal, table)
      else (ok (map (λ j. scanned (claimed now j)) (select (λ j. contains ids j.id) jobs)), table)

-- MarkDone
unfoldable pub mark_done :
    JobOutage → ℕ → List Job → Text → Result JobRepoError (Unit {0}) × List Job
unfolding status_eq
mark_done fails now jobs id = if fails mark_done_stmt then (err job_internal, jobs) else (
  ok tt,
  update_where (λ j. has_id id j && status_eq j.status processing)
      (λ j. record j { status = done; updated_at = now }) jobs,
)

-- MarkFailed
unfoldable pub mark_failed :
    JobOutage → ℕ → List Job → Text → Text → Result JobRepoError (Unit {0}) × List Job
unfolding truncate
mark_failed fails now jobs id err_msg =
    if fails mark_failed_stmt then (err job_internal, jobs) else (
      ok tt,
      update_where (has_id id)
          (λ j. record j {
            status = failed;
            error = truncate err_msg max_err_len;
            updated_at = now;
          })
          jobs,
    )

-- MarkForRetry
unfoldable pub mark_for_retry :
    JobOutage → ℕ → List Job → Text → Text → ℕ → Result JobRepoError (Unit {0}) × List Job
unfolding truncate
mark_for_retry fails now jobs id err_msg next =
    if fails mark_retry_stmt then (err job_internal, jobs) else (
      ok tt,
      update_where (has_id id)
          (λ j. record j {
            status = pending;
            error = truncate err_msg max_err_len;
            next_attempt_at = next;
            updated_at = now;
          })
          jobs,
    )

-- ResetStuck: the WHERE clause.
unfoldable pub is_stuck : ℕ → Job → Bool
unfolding status_eq
is_stuck cutoff j = status_eq j.status processing && ltb j.updated_at cutoff

-- ResetStuck
unfoldable pub reset_stuck : JobOutage → ℕ → List Job → ℕ → Result JobRepoError ℕ × List Job
unfolding is_stuck
reset_stuck fails now jobs cutoff = if fails reset then (err job_internal, jobs) else (
  ok (count_where (is_stuck cutoff) jobs),
  update_where (is_stuck cutoff)
      (λ j. record j { status = pending; next_attempt_at = 0; updated_at = now }) jobs,
)
