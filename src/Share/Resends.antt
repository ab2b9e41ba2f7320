-- ===== src/Share/Resends.antt =====
-- How often a recipient is mailed (internals/app/share/operator.go).
use mathlib.Core.Path.{subst}
use sade_safe_media_delivery.Base.{
  All, Bool-cases, List, Result-cases, Text, [], arith, count_where, count_where-last, false, inl,
  inr, is_empty, leb, length, ok, refl, str_eq_refl, suc, sym, ℕ, ◌+◌, ◌-◌, ◌<◌, ◌∷◌, ◌≡◌, ◌≤◌, ◌⊎◌,
}
use sade_safe_media_delivery.Job.{JobResponse}
use sade_safe_media_delivery.Job.Service.{Works}
use sade_safe_media_delivery.JobEvent.{
  JobEvent, count_events, count_since, in_window, insert_event, record_event, resent,
}
use sade_safe_media_delivery.Share.Operator.{
  Desk, Order, hour, mail, max_resends_per_hour, note, resend_job,
}

-- Requests to resend the e-mail of one job, one after the other, from the load of the job on.
unfoldable pub resends : JobResponse → Text → List Order → Desk → Desk
unfolding resend_job
resends j found [] d = d
resends j found (o ∷ os) d = resends j found os (resend_job o d j found).1

-- A request at an instant of the hour from `t` on, whose event is written.
abbrev pub InHour : ℕ → Order → Type 0
InHour t o = (o.event_fails insert_event ≡ false) × (t ≤ o.job.now) × (o.job.now ≤ t + hour)

-- The resends of the job since `t`.
abbrev pub resent_since : Text → ℕ → List JobEvent → ℕ
resent_since job_id t events = count_where (in_window job_id resent t) events

resent_since_mono :
    (job_id : Text) (t s : ℕ) (events : List JobEvent)
    → s ≤ t
    → resent_since job_id t events ≤ resent_since job_id s events
unfolding count_where in_window
resent_since_mono job_id t s [] h = omega arith
resent_since_mono job_id t s (e ∷ events) h = ground (arith, resent_since_mono job_id t s events h)

-- A step: nothing, or one mail with its event while there were fewer than three.
Step : Text → ℕ → Desk → Desk → Type 0
Step job_id t d d' =
    (d' ≡ d)
    ⊎ ((resent_since job_id t d.works.events < max_resends_per_hour)
        × (length d'.mailed ≡ suc (length d.mailed))
        × (resent_since job_id t d'.works.events ≡ suc (resent_since job_id t d.works.events)))

note-counts :
    (o : Order) (w : Works) (job_id detail : Text) (t : ℕ)
    → InHour t o
    → resent_since job_id t (note o w job_id resent detail).events
      ≡ suc (resent_since job_id t w.events)
unfolding note record_event in_window count_where
note-counts o w job_id detail t h =
    let e : JobEvent = record {
      id = o.event_id;
      job_id = job_id;
      kind = resent;
      detail = detail;
      created_at = o.job.now;
    } in
    rw (note, record_event, h.0, count_where-last (in_window job_id resent t) w.events e)
      (ground (arith, str_eq_refl job_id, h.1))

count_since-resent_since :
    (o : Order) (events : List JobEvent) (job_id : Text) (t n : ℕ)
    → InHour t o
    → count_since o.event_fails events job_id resent (o.job.now - hour) ≡ ok n
    → resent_since job_id t events ≤ n
unfolding count_since
count_since-resent_since o events job_id t n h counted =
    let wide = resent_since_mono job_id t (o.job.now - hour) events (omega (arith, h.2)) in
    elim (Bool-cases (o.event_fails count_events)) [
      | inl down ↦ absurd (ground (arith, down, counted))
      | inr up ↦ ground (arith, up, counted, wide)
    ]

-- The count and the mail, for a count `n` that has every resend since `t`.
mail-Step :
    (o : Order) (d : Desk) (j : JobResponse) (t n : ℕ)
    → InHour t o
    → resent_since j.id t d.works.events ≤ n
    → Step j.id t d (mail o d j n).1
unfolding Step mail
mail-Step o d j t n h counted = elim (Bool-cases (leb max_resends_per_hour n)) [
  | inl full ↦ inl (rw (mail, full) refl)
  | inr room ↦ elim (Bool-cases (o.mail_fails)) [
    | inl down ↦ inl (rw (mail, room, down) refl)
    | inr up ↦
        let same : mail o d j n ≡ (
          204,
          record {
            works = note o d.works j.id resent j.recipient_email;
            mailed = j.recipient_email ∷ d.mailed;
          },
        ) =
          rw (mail, room, up) refl in
        inr (
          subst
            (λ (r : ℕ × Desk).
              (resent_since j.id t d.works.events < max_resends_per_hour)
              × (length r.1.mailed ≡ suc (length d.mailed))
              × (resent_since j.id t r.1.works.events ≡ suc (resent_since j.id t d.works.events)))
            (sym same)
            (ground (arith, room, counted), refl, note-counts o d.works j.id j.recipient_email t h))
  ]
]

resend_job-Step :
    (o : Order) (d : Desk) (j : JobResponse) (found : Text) (t : ℕ)
    → InHour t o
    → Step j.id t d (resend_job o d j found).1
unfolding Step resend_job
resend_job-Step o d j found t h = elim (Bool-cases (is_empty found)) [
  | inl none_yet ↦ inl (rw (resend_job, none_yet) refl)
  | inr ready ↦ elim (Bool-cases (j.links_disabled)) [
    | inl off ↦ inl (rw (resend_job, ready, off) refl)
    | inr on ↦
        elim (Result-cases
          (count_since o.event_fails d.works.events j.id resent (o.job.now - hour))) [
            | inr (e, down) ↦ inl (rw (resend_job, ready, on, down) refl)
            | inl (n, counted) ↦
                (let same : resend_job o d j found ≡ mail o d j n =
                    rw (resend_job, ready, on, counted) refl in
                  unfold Step in
                  subst (λ (r : ℕ × Desk). Step j.id t d r.1) (sym same)
                    (mail-Step o d j t n h
                      (count_since-resent_since o d.works.events j.id t n h counted)))
          ]
  ]
]

-- Let requests to resend the e-mail of one job follow each other within an hour that starts at `t`,
-- with the inserts of their events working. Together they mail the recipient at most three times,
-- less the resends that the history already had from `t` on, whatever else fails.
pub resends_bounded :
    (j : JobResponse) (found : Text) (t : ℕ) (os : List Order) (d : Desk)
    → All (InHour t) os
    → length (resends j found os d).mailed
      ≤ length d.mailed + (max_resends_per_hour - resent_since j.id t d.works.events)
unfolding resends Step
resends_bounded j found t [] d h = omega arith
resends_bounded j found t (o ∷ os) d h =
    let later = resends_bounded j found t os (resend_job o d j found).1 h.1 in
    elim (resend_job-Step o d j found t h.0) [
      | inl same ↦
          subst
            (λ (d1 : Desk).
              length (resends j found os d1).mailed
              ≤ length d.mailed + (max_resends_per_hour - resent_since j.id t d.works.events))
            (sym same) (resends_bounded j found t os d h.1)
      | inr facts ↦ omega (arith, later, facts.0, facts.1, facts.2)
    ]
