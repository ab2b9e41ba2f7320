-- ===== src/Worker/Retry.antt =====
-- The retries of the worker (internals/worker/worker.go) over the jobs table: what one outcome does,
-- and when the next run is due.
use mathlib.Core.Option
use native.Mathlib.Nat.{pow-le-pow_right, pow-succ', mod-eq_of_lt}
use sade_safe_media_delivery.Base.{
  &&-eq_true, Bool-cases, List, Option, Text, ap, arith, false, find_row, find_row-update_where,
  find_row-update_where_and, find_row-update_where_ne, if◌then◌else◌, inl, inr, length, length-take,
  le→ltb, ltb, lt→ltb, none, refl, some, str_eq, suc, true, ℕ, ◌*◌, ◌+◌, ◌<◌, ◌^◌, ◌∙◌, ◌≡◌, ◌≢◌,
  ◌≤◌,
}
use sade_safe_media_delivery.Job.{Job, JobStatus, done, failed, pending, processing, status_eq}
use sade_safe_media_delivery.Job.Repo.{
  JobOutage, has_id, mark_done, mark_done_stmt, mark_failed, mark_failed_stmt, mark_for_retry,
  mark_retry_stmt, max_err_len, truncate,
}
use sade_safe_media_delivery.Worker.{Config}
use sade_safe_media_delivery.Worker.Handle.{add_duration, backoff, backoff_shift, handle}

pow_bounded : (s : ℕ) → s ≤ 16 → (1 ≤ 2 ^ s) × (2 ^ s ≤ 65536)
pow_bounded s h = (
  pow-le-pow_right {n = 2} (omega arith) {i = 0} {j = s} (omega arith),
  pow-le-pow_right {n = 2} (omega arith) {i = s} {j = 16} h,
)

mul_bounded : (b p m : ℕ) → p ≤ m → b * p ≤ b * m
mul_bounded b p m h = grind arith

backoff_shift_bounds : (a : ℕ) → (backoff_shift a ≤ 16) × (backoff_shift a ≤ backoff_shift (a + 1))
unfolding backoff_shift
backoff_shift_bounds a = ground arith

backoff_no_wrap :
    (cfg : Config) (attempts : ℕ)
    → cfg.retry_backoff < 2 ^ 47
    → (backoff cfg attempts ≡ cfg.retry_backoff * 2 ^ backoff_shift attempts)
      × (backoff cfg attempts < 2 ^ 63)
      × (cfg.retry_backoff ≤ backoff cfg attempts)
backoff_no_wrap cfg attempts small = (
  exact,
  rw exact below,
  rw exact (omega (arith, mul_bounded cfg.retry_backoff 1 p (pow_bounded shift shift_bound).0)),
)
  where
    shift : ℕ
    shift = backoff_shift attempts

    shift_bound : shift ≤ 16
    shift_bound = (backoff_shift_bounds attempts).0

    p : ℕ
    p = 2 ^ shift

    below : cfg.retry_backoff * p < 2 ^ 63
    below = omega (arith, mul_bounded cfg.retry_backoff p 65536 (pow_bounded shift shift_bound).1)

    exact : backoff cfg attempts ≡ cfg.retry_backoff * p
    exact = unfold backoff in mod-eq_of_lt (omega (arith, below))

-- The delays of 1, 2, 3, ... attempts, from what they have to be: the shift counts up to 16 and stops.
backoff_shift-suc : (a : ℕ) → 1 ≤ a → a ≤ 16 → backoff_shift (a + 1) ≡ suc (backoff_shift a)
unfolding backoff_shift
backoff_shift-suc a low high = ground arith

mul_two : (b p : ℕ) → b * (2 * p) ≡ 2 * (b * p)
mul_two b p = grind arith

backoff_shift-last : (a : ℕ) → 17 ≤ a → backoff_shift a ≡ 16
unfolding backoff_shift
backoff_shift-last a past = ground arith

-- With a base below 2^47 nanoseconds (39 hours) the delay before the next run is the base after the first
-- attempt, twice the last delay after each of the following sixteen, and 65536 times the base after all the
-- later ones; and the instant when the job is due again is that much later, with no overflow.
pub backoff_exact :
    (cfg : Config) (attempts now : ℕ)
    → cfg.retry_backoff < 2 ^ 47
    → (backoff cfg 1 ≡ cfg.retry_backoff)
      × (1 ≤ attempts → attempts ≤ 16 → backoff cfg (attempts + 1) ≡ 2 * backoff cfg attempts)
      × (17 ≤ attempts → backoff cfg attempts ≡ 65536 * cfg.retry_backoff)
      × (add_duration now (backoff cfg attempts) ≡ now + backoff cfg attempts)
backoff_exact cfg attempts now small =
    let (exact, below, low) = backoff_no_wrap cfg attempts small in
    let (exact', below', low') = backoff_no_wrap cfg (attempts + 1) small in
    let first : backoff_shift 1 ≡ 0 = unfold backoff_shift in refl in
    let first_delay = (backoff_no_wrap cfg 1 small).0 in
    (
      rw (first_delay, first) (omega arith),
      (λ least most.
          rw (exact', exact, backoff_shift-suc attempts least most)
            (omega (
              arith,
              ap (λ p. cfg.retry_backoff * p) (pow-succ' 2 (backoff_shift attempts)),
              mul_two cfg.retry_backoff (2 ^ backoff_shift attempts),
            ))),
      (λ past. rw (exact, backoff_shift-last attempts past) (omega arith)),
      (unfold add_duration in rw (lt→ltb _ _ below) refl),
    )

-- No statement of the three fails.
abbrev pub Records : JobOutage → Type 0
Records fails =
    (fails mark_done_stmt ≡ false)
    × (fails mark_failed_stmt ≡ false)
    × (fails mark_retry_stmt ≡ false)

-- The row that an outcome leaves.
abbrev pub row_after : Config → ℕ → ℕ → Job → Option Text → Job
row_after cfg now attempts row none =
    if status_eq row.status processing then record row { status = done; updated_at = now } else row
row_after cfg now attempts row (some message) =
    if ltb cfg.max_retries attempts
    then record row { status = failed; error = truncate message max_err_len; updated_at = now }
    else record row {
      status = pending;
      error = truncate message max_err_len;
      next_attempt_at = add_duration now (backoff cfg attempts);
      updated_at = now;
    }

pub find_row-handle :
    (fails : JobOutage) (cfg : Config) (now : ℕ) (jobs : List Job) (j : Job) (outcome : Option Text)
    → Records fails
    → find_row (has_id j.id) (handle fails cfg now jobs j outcome)
      ≡ Option.map (λ row. row_after cfg now j.attempts row outcome) (find_row (has_id j.id) jobs)
unfolding handle mark_done mark_failed mark_for_retry
find_row-handle fails cfg now jobs j none (d, f, r) =
    rw (d, handle)
      (find_row-update_where_and (λ (x : Job). x.id)
        (λ x. record x { status = done; updated_at = now }) (λ x. refl) j.id
        (λ x. status_eq x.status processing) jobs)
find_row-handle fails cfg now jobs j (some message) (d, f, r) =
    elim (Bool-cases (ltb cfg.max_retries j.attempts)) [
      | inl last ↦
          rw (last, f, handle) (find_row-update_where (λ (x : Job). x.id) _ (λ x. refl) j.id jobs)
      | inr more ↦
          rw (more, r, handle) (find_row-update_where (λ (x : Job). x.id) _ (λ x. refl) j.id jobs)
    ]

length-truncate : (s : Text) (n : ℕ) → length (truncate s n) ≤ n
unfolding truncate
length-truncate s n = ground (arith, length-take n s)

is_busy : (s : JobStatus) → s ≡ processing → status_eq s processing ≡ true
unfolding status_eq
is_busy s e = ground arith

is_not_busy : (s : JobStatus) → s ≢ processing → status_eq s processing ≡ false
unfolding status_eq
is_not_busy s ne = ground arith

-- The outcome reaches no other row.
handle-other :
    (fails : JobOutage) (cfg : Config) (now : ℕ) (jobs : List Job) (j : Job) (outcome : Option Text)
    (id : Text)
    → str_eq j.id id ≡ false
    → find_row (has_id id) (handle fails cfg now jobs j outcome) ≡ find_row (has_id id) jobs
unfolding handle mark_done mark_failed mark_for_retry
handle-other fails cfg now jobs j none id ne = elim (Bool-cases (fails mark_done_stmt)) [
  | inl e ↦ rw (e, handle)
  | inr e ↦
      rw (e, handle)
        (find_row-update_where_ne (λ (x : Job). x.id) _ (λ x. refl) j.id _ id jobs
          (λ x p. (&&-eq_true (has_id j.id x) (status_eq x.status processing) p).0) ne)
]
handle-other fails cfg now jobs j (some message) id ne =
    elim (Bool-cases (ltb cfg.max_retries j.attempts)) [
      | inl last ↦ elim (Bool-cases (fails mark_failed_stmt)) [
        | inl e ↦ rw (last, e, handle)
        | inr e ↦
            rw (last, e, handle)
              (find_row-update_where_ne (λ (x : Job). x.id) _ (λ x. refl) j.id _ id jobs (λ x p. p)
                ne)
      ]
      | inr more ↦ elim (Bool-cases (fails mark_retry_stmt)) [
        | inl e ↦ rw (more, e, handle)
        | inr e ↦
            rw (more, e, handle)
              (find_row-update_where_ne (λ (x : Job). x.id) _ (λ x. refl) j.id _ id jobs (λ x p. p)
                ne)
      ]
    ]

-- The outcome of a run of the job `j` reaches the row with its id, if the statements succeed. A run
-- without error turns a processing row to done, and leaves any other. A run that erred ends the job as
-- failed if its attempts are past the maximum, whatever its status; else the job is pending again, and
-- due after the back-off. The message that is stored has at most 1000 bytes, and no other row changes.
pub handle_outcome :
    (fails : JobOutage) (cfg : Config) (now : ℕ) (jobs : List Job) (j row : Job)
    → Records fails
    → find_row (has_id j.id) jobs ≡ some row
    → let after =
        λ (outcome : Option Text). find_row (has_id j.id) (handle fails cfg now jobs j outcome) in
      (row.status ≡ processing → after none ≡ some (record row { status = done; updated_at = now }))
      × (row.status ≢ processing → after none ≡ some row)
      × ((message : Text)
          → cfg.max_retries < j.attempts
          → after (some message)
            ≡ some (record row {
              status = failed;
              error = truncate message max_err_len;
              updated_at = now;
            }))
      × ((message : Text)
          → j.attempts ≤ cfg.max_retries
          → after (some message)
            ≡ some (record row {
              status = pending;
              error = truncate message max_err_len;
              next_attempt_at = add_duration now (backoff cfg j.attempts);
              updated_at = now;
            }))
      × ((message : Text) → length (truncate message max_err_len) ≤ max_err_len)
      × ((outcome : Option Text) (id : Text)
          → str_eq j.id id ≡ false
          → find_row (has_id id) (handle fails cfg now jobs j outcome) ≡ find_row (has_id id) jobs)
handle_outcome fails cfg now jobs j row works found = (
  λ busy. final none ∙ ap some (after_success row busy),
  λ idle. final none ∙ ap some (after_idle row idle),
  λ m last. final (some m) ∙ rw (lt→ltb _ _ last),
  λ m more. final (some m) ∙ rw (le→ltb _ _ more),
  λ m. length-truncate m max_err_len,
  λ outcome id ne. handle-other fails cfg now jobs j outcome id ne,
)
  where
    final :
        (outcome : Option Text)
        → find_row (has_id j.id) (handle fails cfg now jobs j outcome)
          ≡ some (row_after cfg now j.attempts row outcome)
    final outcome =
        find_row-handle fails cfg now jobs j outcome works
        ∙ ap (Option.map (λ (r : Job). row_after cfg now j.attempts r outcome)) found

    after_success :
        (r : Job)
        → r.status ≡ processing
        → row_after cfg now j.attempts r none ≡ record r { status = done; updated_at = now }
    after_success r busy = rw (is_busy r.status busy)

    after_idle : (r : Job) → r.status ≢ processing → row_after cfg now j.attempts r none ≡ r
    after_idle r idle = rw (is_not_busy r.status idle)
