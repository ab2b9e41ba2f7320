-- ===== src/Share/Operator.antt =====
-- internals/app/share/operator.go: resending the e-mail, and switching the links of a job. The mailer
-- is a parameter of the request.
use sade_safe_media_delivery.Asset.{AssetResponse, kind_eq, preview}
use sade_safe_media_delivery.Base.{
  Bool, List, Option, Result, Text, [], err, false, if◌then◌else◌, inl, inr, is_empty, leb, none,
  not, ok, some, true, ℕ, ◌*◌, ◌-◌, ◌∷◌, ◌⊎◌,
}
use sade_safe_media_delivery.Job.{Job, JobResponse}
use sade_safe_media_delivery.Job.Owned.{get}
use sade_safe_media_delivery.Job.Repo.{JobRepoError, has_paid_payment, set_links_disabled}
use sade_safe_media_delivery.Job.Service.{JobError, JobRequest, Works, no_such_job}
use sade_safe_media_delivery.JobEvent.{
  EventKind, EventOutage, count_since, disabled_links, enabled_links, record_event, resent,
}
use sade_safe_media_delivery.Payment.Service.{enabled}

-- maxResendsPerHour
abbrev pub max_resends_per_hour : ℕ
max_resends_per_hour = 3

abbrev pub hour : ℕ
hour = 3600 * 1_000_000_000

-- One request: that of the job service, the statements of the history that fail, the id of a new
-- event, and whether the mailer fails.
pub record Order : Type 0 where
  pub job : JobRequest
  pub event_fails : EventOutage
  pub event_id : Text
  pub mail_fails : Bool

-- What the handlers change: the tables, and the recipients that were mailed, newest first.
pub record Desk : Type 0 where
  pub works : Works
  pub mailed : List Text

-- load, the loop over the assets: the id of the last preview.
unfoldable pub preview_id : Text → List AssetResponse → Text
unfolding kind_eq
preview_id found [] = found
preview_id found (a ∷ assets) = preview_id (if kind_eq a.kind preview then a.id else found) assets

-- load, the status of an error.
unfoldable pub load_status : JobError → ℕ
load_status no_such_job = 404
load_status _ = 500

-- load, with the caller's id when he is signed in. An error is the status of the answer.
unfoldable pub load : Order → Works → Option Text → Text → (JobResponse × Text) ⊎ ℕ
unfolding get preview_id load_status
load o w none job_id = inr 401
load o w (some user_id) job_id = elim (get o.job w user_id job_id) [
  | err e ↦ inr (load_status e)
  | ok j ↦ inl (j, preview_id [] j.assets)
]

-- Record, where a failed insert is logged only.
unfoldable pub note : Order → Works → Text → EventKind → Text → Works
unfolding record_event
note o w job_id kind detail = record w {
  events = (record_event o.event_fails o.event_id o.job.now w.events job_id kind detail).1;
}

-- Resend, from the count on.
unfoldable pub mail : Order → Desk → JobResponse → ℕ → ℕ × Desk
unfolding note
mail o d j n = if leb max_resends_per_hour n then (429, d) else if o.mail_fails then (502, d) else (
  204,
  record {
    works = note o d.works j.id resent j.recipient_email;
    mailed = j.recipient_email ∷ d.mailed;
  },
)

-- Resend, with the job and its preview.
unfoldable pub resend_job : Order → Desk → JobResponse → Text → ℕ × Desk
unfolding count_since mail
resend_job o d j found =
    if is_empty found
    then (409, d)
    else if j.links_disabled
    then (409, d)
    else elim (count_since o.event_fails d.works.events j.id resent (o.job.now - hour)) [
      | err e ↦ (500, d)
      | ok n ↦ mail o d j n
    ]

-- Resend
unfoldable pub resend : Order → Desk → Option Text → Text → ℕ × Desk
unfolding load resend_job
resend o d caller job_id = elim (load o d.works caller job_id) [
  | inr code ↦ (code, d)
  | inl found ↦ resend_job o d found.0 found.1
]

-- SetLinks, from SetLinksDisabled on.
unfoldable pub switched :
    Order → Desk → Text → Bool → Result JobRepoError (Unit {0}) × List Job → ℕ × Desk
unfolding note
switched o d job_id enabled (err e, jobs) = (500, d)
switched o d job_id enabled (ok u, jobs) = (
  204,
  record d {
    works =
        note o (record (d.works) { jobs = jobs }) job_id
          (if enabled then enabled_links else disabled_links) [];
  },
)

unfoldable pub switch_links : Order → Desk → Text → Bool → ℕ × Desk
unfolding set_links_disabled switched
switch_links o d job_id enabled =
    switched o d job_id enabled
      (set_links_disabled o.job.job_fails d.works.jobs job_id (not enabled))

-- SetLinks, with the job and the decoded body.
unfoldable pub set_links_of : Order → Desk → JobResponse → Bool → ℕ × Desk
unfolding has_paid_payment switch_links
set_links_of o d j true = if j.links_disabled then switch_links o d j.id true else (204, d)
set_links_of o d j false =
    if j.links_disabled
    then (204, d)
    else elim (has_paid_payment o.job.job_fails d.works.payments j.id) [
      | err e ↦ (500, d)
      | ok is_bought ↦ if is_bought then (409, d) else switch_links o d j.id false
    ]

-- SetLinks; `none` is a body that does not decode.
unfoldable pub set_links : Order → Desk → Option Text → Text → Option Bool → ℕ × Desk
unfolding load set_links_of
set_links o d caller job_id body = elim (load o d.works caller job_id) [
  | inr code ↦ (code, d)
  | inl found ↦ elim body [ none ↦ (400, d) | some enabled ↦ set_links_of o d found.0 enabled ]
]
