-- ===== src/Worker/Stuck.antt =====
-- Jobs whose worker died: ResetStuck (internals/app/job/repo.go), which internals/worker/worker.go calls at
-- its start and then from time to time.
use sade_safe_media_delivery.Base.{
  List, Result, Text, ap, arith, false, find_row, find_row-update_where_if, lt→ltb, refl, some, suc,
  true, update_where, ℕ, ◌+◌, ◌-◌, ◌<◌, ◌∙◌, ◌≡◌,
}
use sade_safe_media_delivery.Job.{Job, pending, status_eq}
use sade_safe_media_delivery.Job.Repo.{
  JobOutage, JobRepoError, claimed, has_id, is_eligible, is_stuck, reset, reset_stuck,
}
use sade_safe_media_delivery.Worker.{Config}
use sade_safe_media_delivery.Worker.Taken.{Taken, taken_row}

-- Start and dispatch, the reset.
unfoldable pub requeue_stuck : JobOutage → Config → ℕ → List Job → Result JobRepoError ℕ × List Job
unfolding reset_stuck
requeue_stuck fails cfg now jobs = reset_stuck fails now jobs (now - cfg.stuck_job_timeout)

-- The job of the id is claimed, the process dies, and when the timeout has passed, some process requeues what
-- is stuck. Meanwhile workers do what they do to other jobs.
pub record Crash (cfg : Config) (id : Text) (jobs jobs' : List Job) : Type 0 where
  pub between : List Job
  pub taken : Taken id jobs between
  pub fails : JobOutage
  pub reset_works : fails reset ≡ false
  pub reset_at : ℕ
  pub is_late : taken.claimed_at + cfg.stuck_job_timeout < reset_at
  pub is_end : jobs' ≡ (requeue_stuck fails cfg reset_at between).1

-- So many crashes of the job, one after the other.
pub data Crashes (cfg : Config) (id : Text) (start : List Job) : ℕ → List Job → Type 0 where
  no_crash : Crashes cfg id start 0 start
  crash_again :
      {n : ℕ} {jobs : List Job} (jobs' : List Job)
      → Crashes cfg id start n jobs
      → Crash cfg id jobs jobs'
      → Crashes cfg id start (suc n) jobs'

Crash-row :
    (cfg : Config) (id : Text) (jobs jobs' : List Job) (j : Job) (crash : Crash cfg id jobs jobs')
    → find_row (has_id id) jobs ≡ some j
    → (row : Job) × (find_row (has_id id) jobs' ≡ some row)
      × (row.attempts ≡ j.attempts + 1)
      × (row.status ≡ pending)
      × (row.next_attempt_at ≡ 0)
unfolding claimed
Crash-row cfg id jobs jobs' j crash found =
    let t = crash.taken in
    let (waits, from, own, there) = taken_row id jobs crash.between j t found in
    let cutoff = crash.reset_at - cfg.stuck_job_timeout in
    let put = λ (r : Job). record r {
      status = pending;
      next_attempt_at = 0;
      updated_at = crash.reset_at;
    } in
    let stuck : is_stuck cutoff (claimed t.claimed_at j) ≡ true =
      unfold is_stuck status_eq in lt→ltb t.claimed_at cutoff (omega (arith, crash.is_late)) in
    let table : (requeue_stuck crash.fails cfg crash.reset_at crash.between).1
        ≡ update_where (is_stuck cutoff) put crash.between =
      unfold requeue_stuck reset_stuck in rw crash.reset_works refl in
    (
      put (claimed t.claimed_at j),
      ap (find_row (has_id id)) (crash.is_end ∙ table)
          ∙ find_row-update_where_if (λ (r : Job). r.id) put (λ r. refl) id (is_stuck cutoff)
              crash.between
          ∙ rw (there, stuck) refl,
      refl,
      refl,
      refl,
    )

due_at_once :
    (now : ℕ) (row : Job)
    → row.status ≡ pending
    → row.next_attempt_at ≡ 0
    → is_eligible now row ≡ true
unfolding is_eligible status_eq
due_at_once now row waits zero_due = rw (waits, zero_due) (ground arith)

-- The reset has no bound: however often a job that waits brings its process down, and whatever the maximum of
-- retries, it waits again after the reset, with as many attempts more, never failed, and due at any instant.
-- Between its claims and resets the other rows may change in any way; each reset comes when the timeout
-- for stuck jobs has passed since the claim.
pub Crashes-pending :
    (cfg : Config) (id : Text) (start jobs : List Job) (j : Job) (n : ℕ)
    → find_row (has_id id) start ≡ some j
    → j.status ≡ pending
    → Crashes cfg id start n jobs
    → (row : Job) × (find_row (has_id id) jobs ≡ some row)
      × (row.status ≡ pending)
      × (row.attempts ≡ j.attempts + n)
      × (0 < n → (now : ℕ) → is_eligible now row ≡ true)
Crashes-pending cfg id start jobs j n found waits no_crash =
    (j, found, waits, omega arith, λ h. absurd (omega arith))
Crashes-pending cfg id start jobs j n found waits
      (crash_again {n = m} {jobs = mid} jobs' before crash) =
    let (old, there, still, count, due) = Crashes-pending cfg id start mid j m found waits before in
    let (row, written, more, again, at_once) = Crash-row cfg id mid jobs' old crash there in
    (row, written, again, omega (arith, more, count), λ h now. due_at_once now row again at_once)
