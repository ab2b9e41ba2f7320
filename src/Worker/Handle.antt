-- ===== src/Worker/Handle.antt =====
-- `handle` of internals/worker/worker.go: what the outcome of a run does to the job's row.
use sade_safe_media_delivery.Base.{
  List, Option, Text, codes, if◌then◌else◌, ltb, none, some, ℕ, ◌%◌, ◌*◌, ◌++◌, ◌+◌, ◌-◌, ◌^◌,
}
use sade_safe_media_delivery.Job.{Job}
use sade_safe_media_delivery.Job.Repo.{JobOutage, mark_done, mark_failed, mark_for_retry}
use sade_safe_media_delivery.Worker.{Config}

-- time.Time.Add of a time.Duration, a signed 64-bit number given by its bits.
unfoldable pub add_duration : ℕ → ℕ → ℕ
add_duration t d = if ltb d (2 ^ 63) then t + d else t - (2 ^ 64 - d)

-- The shift of the back-off, 1x, 2x, 4x, ..., with its guard.
unfoldable pub backoff_shift : ℕ → ℕ
backoff_shift attempts = let shift = attempts - 1 in if ltb 16 shift then 16 else shift

-- `RetryBackoff << shift` on a 64-bit duration.
unfoldable pub backoff : Config → ℕ → ℕ
unfolding backoff_shift
backoff cfg attempts = (cfg.retry_backoff * 2 ^ backoff_shift attempts) % 2 ^ 64

-- handle, from the result of safeProcess on: the error's text, or none. A statement that fails is
-- only logged.
unfoldable pub handle : JobOutage → Config → ℕ → List Job → Job → Option Text → List Job
unfolding add_duration backoff mark_done mark_failed mark_for_retry
handle fails cfg now jobs j none = (mark_done fails now jobs j.id).1
handle fails cfg now jobs j (some message) =
    if ltb cfg.max_retries j.attempts
    then (mark_failed fails now jobs j.id message).1
    else (mark_for_retry fails now jobs j.id message (add_duration now (backoff cfg j.attempts))).1

-- safeProcess: a panic is an error like any other.
pub data Run : Type 0 where
  succeeded : Run
  errored panicked : Text → Run

unfoldable pub safe_process : Run → Option Text
safe_process succeeded = none
safe_process (errored message) = some message
safe_process (panicked value) = some (codes "internal error while processing: " ++ value)
