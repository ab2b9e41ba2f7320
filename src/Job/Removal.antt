-- ===== src/Job/Removal.antt =====
-- Who may read and remove a job, and what Delete leaves (internals/app/job/service.go).
use mathlib.Core.Path.{subst}
use sade_safe_media_delivery.Asset.{Asset}
use sade_safe_media_delivery.Base.{
  Bool-cases, List, Option-cases, Result-cases, Text, ap, arith, count_where,
  count_where-delete_some, delete_where, err, false, find_row, inl, inr, ltb, ltb→lt, none, ok,
  refl, some, str_eq, true, ◌&&◌, ◌∙◌, ◌≡◌, ◌≤◌, ◌⊎◌,
}
use sade_safe_media_delivery.Job.{Job}
use sade_safe_media_delivery.Job.Claim.{UniqueJobs}
use sade_safe_media_delivery.Job.Owned.{
  after_delete, asset, cascade, deletable, delete, delete_blobs, delete_rows, get, owned,
}
use sade_safe_media_delivery.Job.Repo.{
  JobOutage, check_payments, delete_idle, delete_if_not_processing, get_job, has_id,
  has_paid_payment, is_idle, job_internal, read_job,
}
use sade_safe_media_delivery.Job.Service.{
  JobError, JobRequest, Works, busy, job_error, lift, no_such_job, paid_unlock, wrapped_error,
}
use sade_safe_media_delivery.Payment.{Payment, is_paid}

-- The id names no job, or a job of somebody else.
abbrev pub IsForeign : Works → Text → Text → Type 0
IsForeign w user_id job_id =
    (find_row (has_id job_id) w.jobs ≡ none)
    ⊎ ((j : Job) × (find_row (has_id job_id) w.jobs ≡ some j) × (str_eq j.user_id user_id ≡ false))

owned-IsForeign :
    (req : JobRequest) (w : Works) (user_id job_id : Text)
    → req.job_fails read_job ≡ false
    → IsForeign w user_id job_id
    → owned req w user_id job_id ≡ err no_such_job
unfolding owned get_job lift job_error
owned-IsForeign req w user_id job_id reads (inl missing) = rw (owned, get_job, reads, missing) refl
owned-IsForeign req w user_id job_id reads (inr (j, found, other)) =
    rw (owned, get_job, reads, found, lift, other) refl

-- To a caller, the job of somebody else is a job that does not exist: Get, Asset and Delete answer
-- ErrNotFound in both cases, and Delete changes nothing. The jobs table is readable.
pub foreign_hidden :
    (req : JobRequest) (w : Works) (user_id job_id asset_id : Text)
    → req.job_fails read_job ≡ false
    → IsForeign w user_id job_id
    → (get req w user_id job_id ≡ err no_such_job)
      × (asset req w user_id job_id asset_id ≡ err no_such_job)
      × (delete req w user_id job_id ≡ (err no_such_job, w))
unfolding get asset delete deletable
foreign_hidden req w user_id job_id asset_id reads foreign =
    let no = owned-IsForeign req w user_id job_id reads foreign in
    (rw (get, no) refl, rw (asset, no) refl, rw (delete, deletable, no) refl)

-- What a Delete that succeeds tells of the tables before and after.
pub record Removed (w w' : Works) (user_id job_id : Text) : Type 0 where
  pub job : Job
  pub is_found : find_row (has_id job_id) w.jobs ≡ some job
  pub is_own : str_eq (job.user_id) user_id ≡ true
  pub was_idle : 1 ≤ count_where (is_idle job_id) w.jobs
  pub is_unpaid_for : count_where (λ p. str_eq p.job_id job_id && is_paid p.status) w.payments ≡ 0
  pub jobs_left : w'.jobs ≡ delete_where (is_idle job_id) w.jobs
  pub no_job_left : count_where (has_id job_id) w'.jobs ≡ 0
  pub assets_left : w'.assets ≡ delete_where (λ a. str_eq a.job_id job_id) w.assets
  pub payments_left : w'.payments ≡ delete_where (λ p. str_eq p.job_id job_id) w.payments
  pub events_left : w'.events ≡ delete_where (λ e. str_eq e.job_id job_id) w.events

get_job-ok :
    (fails : JobOutage) (jobs : List Job) (id : Text) (j : Job)
    → lift (get_job fails jobs id) ≡ ok j
    → find_row (has_id id) jobs ≡ some j
unfolding get_job lift
get_job-ok fails jobs id j h = elim (Bool-cases (fails read_job)) [
  | inl down ↦ absurd (ground (arith, down, h))
  | inr up ↦ elim (Option-cases (find_row (has_id id) jobs)) [
    | inl missing ↦ absurd (ground (arith, up, missing, h))
    | inr (k, found) ↦ ground (arith, up, found, h)
  ]
]

owned-ok :
    (req : JobRequest) (w : Works) (user_id job_id : Text) (j : Job)
    → owned req w user_id job_id ≡ ok j
    → (find_row (has_id job_id) w.jobs ≡ some j) × (str_eq j.user_id user_id ≡ true)
unfolding owned
owned-ok req w user_id job_id j h =
    elim (Result-cases (lift (get_job req.job_fails w.jobs job_id))) [
      | inr (e, bad) ↦
          absurd (let same : owned req w user_id job_id ≡ err e = rw (owned, bad) refl in cc)
      | inl (k, good) ↦ elim (Bool-cases (str_eq k.user_id user_id)) [
        | inr other ↦ absurd (
            let same : owned req w user_id job_id ≡ err no_such_job =
              rw (owned, good, other) refl in
            cc)
        | inl own ↦
            let same : owned req w user_id job_id ≡ ok k = rw (owned, good, own) refl in
            let is_it : k ≡ j = cc in
            subst
              (λ (x : Job).
                (find_row (has_id job_id) w.jobs ≡ some x) × (str_eq x.user_id user_id ≡ true))
              is_it (get_job-ok req.job_fails w.jobs job_id k good, own)
      ]
    ]

not_paid :
    (fails : JobOutage) (payments : List Payment) (job_id : Text)
    → lift (has_paid_payment fails payments job_id) ≡ ok false
    → count_where (λ p. str_eq p.job_id job_id && is_paid p.status) payments ≡ 0
unfolding lift has_paid_payment
not_paid fails payments job_id h = elim (Bool-cases (fails check_payments)) [
  | inl down ↦ absurd (ground (arith, down, h))
  | inr up ↦ ground (arith, up, h)
]

deletable-ok :
    (req : JobRequest) (w : Works) (user_id job_id : Text) (assets : List Asset)
    → deletable req w user_id job_id ≡ ok assets
    → (j : Job) × (owned req w user_id job_id ≡ ok j)
      × (count_where (λ p. str_eq p.job_id job_id && is_paid p.status) w.payments ≡ 0)
unfolding deletable
deletable-ok req w user_id job_id assets h = elim (Result-cases (owned req w user_id job_id)) [
  | inr (e, foreign) ↦
      absurd
        (let same : deletable req w user_id job_id ≡ err e = rw (deletable, foreign) refl in cc)
  | inl (j, own) ↦ elim (Result-cases (lift (has_paid_payment req.job_fails w.payments job_id))) [
    | inr (e, down) ↦
        absurd
          (let same : deletable req w user_id job_id ≡ err e = rw (deletable, own, down) refl in cc)
    | inl (true, bought) ↦ absurd (
        let same : deletable req w user_id job_id ≡ err paid_unlock =
          rw (deletable, own, bought) refl in
        cc)
    | inl (false, unbought) ↦ (j, own, not_paid req.job_fails w.payments job_id unbought)
  ]
]

delete_if-ends :
    (req : JobRequest) (jobs : List Job) (job_id : Text)
    → (delete_if_not_processing req.job_fails jobs job_id ≡ (err job_internal, jobs))
      ⊎ (delete_if_not_processing req.job_fails jobs job_id
          ≡ (ok false, delete_where (is_idle job_id) jobs))
      ⊎ ((1 ≤ count_where (is_idle job_id) jobs)
          × (delete_if_not_processing req.job_fails jobs job_id
              ≡ (ok true, delete_where (is_idle job_id) jobs)))
unfolding delete_if_not_processing
delete_if-ends req jobs job_id = elim (Bool-cases (req.job_fails delete_idle)) [
  | inl down ↦ inl (rw (delete_if_not_processing, down) refl)
  | inr up ↦ elim (Bool-cases (ltb 0 (count_where (is_idle job_id) jobs))) [
    | inl some_idle ↦ inr (
        inr (
          ltb→lt 0 (count_where (is_idle job_id) jobs) some_idle,
          rw (delete_if_not_processing, up, some_idle) refl,
        ))
    | inr none_idle ↦ inr (inl (rw (delete_if_not_processing, up, none_idle) refl))
  ]
]

idle_has_id : (job_id : Text) (j : Job) → is_idle job_id j ≡ true → has_id job_id j ≡ true
unfolding is_idle
idle_has_id job_id j h = ground arith

removed :
    (req : JobRequest) (w : Works) (user_id job_id : Text) (assets : List Asset)
    → UniqueJobs w.jobs
    → deletable req w user_id job_id ≡ ok assets
    → 1 ≤ count_where (is_idle job_id) w.jobs
    → Removed w
        (record (cascade job_id w) {
          jobs = delete_where (is_idle job_id) w.jobs;
          blobs = delete_blobs req assets w.blobs;
        })
        user_id
        job_id
unfolding cascade after_delete
removed req w user_id job_id assets unique may idle =
    let facts = deletable-ok req w user_id job_id assets may in
    let own = owned-ok req w user_id job_id facts.0 facts.1 in
    record {
      job = facts.0;
      is_found = own.0;
      is_own = own.1;
      was_idle = idle;
      is_unpaid_for = facts.2;
      jobs_left = refl;
      no_job_left = omega (
        arith,
        count_where-delete_some (has_id job_id) (is_idle job_id) (idle_has_id job_id) w.jobs,
        idle,
        unique job_id,
      );
      assets_left = refl;
      payments_left = refl;
      events_left = refl;
    }

-- When ids are unique, Delete returns an error and changes nothing, or it succeeds: the job was the
-- caller's, not paid for, and not being processed; it is gone with the rows that refer to it, and
-- the other rows stay.
pub delete-Removed :
    (req : JobRequest) (w : Works) (user_id job_id : Text)
    → UniqueJobs w.jobs
    → ((e : JobError) × (delete req w user_id job_id ≡ (err e, w)))
      ⊎ ((w' : Works) × (delete req w user_id job_id ≡ (ok tt, w')) × Removed w w' user_id job_id)
unfolding delete delete_rows after_delete
delete-Removed req w user_id job_id unique = elim (Result-cases (deletable req w user_id job_id)) [
  | inr (e, refused) ↦ inl (e, rw (delete, refused) refl)
  | inl (assets, may) ↦
      (let same : delete req w user_id job_id ≡ delete_rows req w job_id assets =
          rw (delete, may) refl in
        elim (delete_if-ends req w.jobs job_id) [
          | inl down ↦ inl (wrapped_error, same ∙ ap (after_delete req w job_id assets) down)
          | inr (inl none_idle) ↦ inl (busy, same ∙ ap (after_delete req w job_id assets) none_idle)
          | inr (inr (idle, gone)) ↦ inr (
            record (cascade job_id w) {
              jobs = delete_where (is_idle job_id) w.jobs;
              blobs = delete_blobs req assets w.blobs;
            },
            same ∙ ap (after_delete req w job_id assets) gone,
            removed req w user_id job_id assets unique may idle,
          )
        ])
]
