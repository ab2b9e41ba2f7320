-- ===== src/Examples/Mailing.antt =====
-- The resends of internals/app/share at a concrete job.
use sade_safe_media_delivery.Base.{
  List, [], arith, codes, count_where, false, length, refl, str_eq, ℕ, ◌+◌, ◌-◌, ◌∷◌, ◌≡◌, ◌≤◌,
}
use sade_safe_media_delivery.Examples.Claiming.{job_row}
use sade_safe_media_delivery.Examples.Uploading.{request, works}
use sade_safe_media_delivery.Job.{to_response}
use sade_safe_media_delivery.JobEvent.{in_window}
use sade_safe_media_delivery.Share.Operator.{Desk, Order}
use sade_safe_media_delivery.Share.Resends.{resends, resends_bounded}

abbrev pub order : ℕ → Order
order now = record {
  job = record request { now = now };
  event_fails = λ s. false;
  event_id = codes "e1";
  mail_fails = false;
}

abbrev pub desk : Desk
desk = record { works = works; mailed = [] }

abbrev five : List Order
five = order 5 ∷ order 6 ∷ order 7 ∷ order 8 ∷ order 9 ∷ []

three_mails : length (resends (to_response (job_row "j1" 1)) (codes "p") five desk).mailed ≡ 3
unfolding resends count_where str_eq to_response in_window
three_mails = refl

resends_bounded_example :
    length (resends (to_response (job_row "j1" 1)) (codes "p") five desk).mailed ≤ 0 + (3 - 0)
unfolding count_where
resends_bounded_example = resends_bounded (to_response (job_row "j1" 1)) (codes "p") 5 five desk (
  (refl, omega arith, omega arith),
  (
    (refl, omega arith, omega arith),
    (
      (refl, omega arith, omega arith),
      ((refl, omega arith, omega arith), ((refl, omega arith, omega arith), tt)),
    ),
  ),
)
