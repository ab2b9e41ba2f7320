-- ===== src/Worker/Runs.antt =====
-- The runs of a job that errs each time (internals/worker/worker.go over internals/app/job/repo.go).
use mathlib.Core.Option
use sade_safe_media_delivery.Base.{List, Text, some, suc, ℕ, ◌≡◌}
use sade_safe_media_delivery.Job.{Job}
use sade_safe_media_delivery.Job.Repo.{JobOutage}
use sade_safe_media_delivery.Worker.{Config}
use sade_safe_media_delivery.Worker.Handle.{handle}
use sade_safe_media_delivery.Worker.Retry.{Records}
use sade_safe_media_delivery.Worker.Taken.{Taken}

-- The job of the id is claimed, its run errs, and `handle` writes that down, while workers do what they do to
-- other jobs.
pub record FailedRun (cfg : Config) (id : Text) (jobs jobs' : List Job) : Type 0 where
  pub between : List Job
  pub taken : Taken id jobs between
  pub fails : JobOutage
  pub records : Records fails
  pub ended_at : ℕ
  pub message : Text
  pub is_end : jobs' ≡ handle fails cfg ended_at between taken.c (some message)

-- So many failed runs of the job, one after the other.
pub data FailedRuns (cfg : Config) (id : Text) (start : List Job) : ℕ → List Job → Type 0 where
  not_run : FailedRuns cfg id start 0 start
  run_again :
      {n : ℕ} {jobs : List Job} (jobs' : List Job)
      → FailedRuns cfg id start n jobs
      → FailedRun cfg id jobs jobs'
      → FailedRuns cfg id start (suc n) jobs'
