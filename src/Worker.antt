-- ===== src/Worker.antt =====
-- internals/worker: the pool that turns pending jobs into previews. What it is wired to (the engine,
-- the blob store, the notifier) is a parameter, as in the code; the job and asset stores are the
-- repositories of the modules Job.Repo and Asset, as worker_wiring.go binds them.
pub mod Handle
pub mod Process
pub mod Run
pub mod Preview
pub mod Recorded
pub mod Retry
pub mod Taken
pub mod Runs
pub mod Stuck
use sade_safe_media_delivery.Base.{Text, if◌then◌else◌, ℕ, ◌*◌, ◌==◌}

-- Config. A negative number and 0 are clamped alike, so both are 0.
pub record Config : Type 0 where
  pub concurrency : ℕ
  pub poll_interval : ℕ
  pub claim_batch_size : ℕ
  pub max_retries : ℕ
  pub retry_backoff : ℕ
  pub job_timeout : ℕ
  pub stuck_job_timeout : ℕ
  pub shutdown_grace : ℕ
  pub text_template : Text

abbrev pub second : ℕ
second = 1_000_000_000

-- A value, or its default where it is not positive.
abbrev pub or_default : ℕ → ℕ → ℕ
or_default n default = if n == 0 then default else n

-- withDefaults
unfoldable pub with_defaults : Config → Config
with_defaults c =
    let workers = or_default c.concurrency 1 in
    record c {
      concurrency = workers;
      poll_interval = or_default c.poll_interval (5 * second);
      claim_batch_size = or_default c.claim_batch_size workers;
      retry_backoff = or_default c.retry_backoff (30 * second);
      job_timeout = or_default c.job_timeout (1800 * second);
      stuck_job_timeout = or_default c.stuck_job_timeout (3600 * second);
      shutdown_grace = or_default c.shutdown_grace (60 * second);
    }
