-- ===== src/Examples/Working.antt =====
-- The outcomes of internals/worker at a concrete job.
use sade_safe_media_delivery.Base.{
  List, Option, Text, [], arith, codes, contains, count_where, false, find_row, length, none, refl,
  select, some, sort_by, str_eq, str_eq_iff, true, update_where, ℕ, ◌*◌, ◌+◌, ◌<◌, ◌∷◌, ◌≡◌, ◌≢◌,
  ◌≤◌,
}
use sade_safe_media_delivery.Examples.Claiming.{job_row, job_works}
use sade_safe_media_delivery.Job.{Job, done, failed, pending, processing}
use sade_safe_media_delivery.Job.Claim.{UniqueJobs}
use sade_safe_media_delivery.Job.Repo.{
  claim_pending, claimed, has_id, is_eligible, max_err_len, scanned, truncate,
}
use sade_safe_media_delivery.Worker.{Config, with_defaults}
use sade_safe_media_delivery.Worker.Handle.{add_duration, backoff, handle}
use sade_safe_media_delivery.Worker.Retry.{backoff_exact, handle_outcome}
use sade_safe_media_delivery.Worker.Stuck.{crash_again, Crashes-pending, no_crash, requeue_stuck}
use sade_safe_media_delivery.Worker.Taken.{Taken}

abbrev worker_config : Config
worker_config = record {
  concurrency = 1;
  poll_interval = 5;
  claim_batch_size = 1;
  max_retries = 2;
  retry_backoff = 30_000_000_000;
  job_timeout = 1;
  stuck_job_timeout = 1;
  shutdown_grace = 1;
  text_template = codes "{recipient}";
}

defaults :
    (with_defaults
      (record worker_config { concurrency = 0; claim_batch_size = 0 })).claim_batch_size
    ≡ 1
unfolding with_defaults
defaults = refl

backoff_exact_example :
    (backoff worker_config 1 ≡ 30_000_000_000)
    × (1 ≤ 3 → 3 ≤ 16 → backoff worker_config (3 + 1) ≡ 2 * backoff worker_config 3)
    × (17 ≤ 3 → backoff worker_config 3 ≡ 65536 * 30_000_000_000)
    × (add_duration 7 (backoff worker_config 3) ≡ 7 + backoff worker_config 3)
backoff_exact_example = backoff_exact worker_config 3 7 (omega arith)

abbrev busy : Job
busy = record (job_row "a" 1) { status = processing; attempts = 1 }

handle_outcome_example :
    let after = λ (outcome : Option Text).
      find_row (has_id busy.id) (handle job_works worker_config 9 (busy ∷ []) busy outcome) in
    (busy.status ≡ processing → after none ≡ some (record busy { status = done; updated_at = 9 }))
    × (busy.status ≢ processing → after none ≡ some busy)
    × ((message : Text)
        → worker_config.max_retries < busy.attempts
        → after (some message)
          ≡ some (record busy {
            status = failed;
            error = truncate message max_err_len;
            updated_at = 9;
          }))
    × ((message : Text)
        → busy.attempts ≤ worker_config.max_retries
        → after (some message)
          ≡ some (record busy {
            status = pending;
            error = truncate message max_err_len;
            next_attempt_at = add_duration 9 (backoff worker_config busy.attempts);
            updated_at = 9;
          }))
    × ((message : Text) → length (truncate message max_err_len) ≤ max_err_len)
    × ((outcome : Option Text) (id : Text)
        → str_eq busy.id id ≡ false
        → find_row (has_id id) (handle job_works worker_config 9 (busy ∷ []) busy outcome)
          ≡ find_row (has_id id) (busy ∷ []))
unfolding find_row str_eq
handle_outcome_example =
    handle_outcome job_works worker_config 9 (busy ∷ []) busy busy (refl, refl, refl) refl

abbrev waiting_job : Job
waiting_job = job_row "a" 1

waiting_job-Unique : UniqueJobs (waiting_job ∷ [])
unfolding count_where
waiting_job-Unique k = ground (arith, str_eq_iff (codes "a") k)

abbrev no_retry : Config
no_retry = record worker_config { max_retries = 0 }

-- A claim of the one job of a table.
unfoldable taken_alone :
    Taken (codes "a") (waiting_job ∷ []) (claim_pending job_works (waiting_job ∷ []) 1 5).1
unfolding claim_pending select update_where sort_by contains str_eq find_row
taken_alone = record {
  before = waiting_job ∷ [];
  is_before = refl;
  is_unique = waiting_job-Unique;
  fails = job_works;
  limit = 1;
  claimed_at = 5;
  batch = scanned (claimed 5 waiting_job) ∷ [];
  is_batch = refl;
  c = scanned (claimed 5 waiting_job);
  is_handed_out = refl;
  is_between = refl;
}

abbrev after_run : List Job
after_run =
    handle job_works no_retry 7 (claim_pending job_works (waiting_job ∷ []) 1 5).1
      (scanned (claimed 5 waiting_job)) (some [])

abbrev after_crash : List Job
after_crash =
    (requeue_stuck job_works no_retry 9 (claim_pending job_works (waiting_job ∷ []) 1 5).1).1

Crashes-pending_example :
    (row : Job) × (find_row (has_id (codes "a")) after_crash ≡ some row)
    × (row.status ≡ pending)
    × (row.attempts ≡ 0 + 1)
    × (0 < 1 → (now : ℕ) → is_eligible now row ≡ true)
unfolding find_row str_eq taken_alone
Crashes-pending_example =
    Crashes-pending no_retry (codes "a") (waiting_job ∷ []) after_crash waiting_job 1 refl refl (
      crash_again after_crash no_crash (record {
        between = (claim_pending job_works (waiting_job ∷ []) 1 5).1;
        taken = taken_alone;
        fails = job_works;
        reset_works = refl;
        reset_at = 9;
        is_late = omega arith;
        is_end = refl;
      }))
