-- ===== src/Share/Hidden.antt =====
-- The routes of an operator (internals/app/job/handler.go and internals/app/share/operator.go) on the job of
-- somebody else.
use sade_safe_media_delivery.Base.{Bool, Option, Text, false, is_empty, none, refl, some, ℕ, ◌≡◌}
use sade_safe_media_delivery.Http.{refused}
use sade_safe_media_delivery.Job.Removal.{IsForeign, foreign_hidden}
use sade_safe_media_delivery.Job.Repo.{read_job}
use sade_safe_media_delivery.Job.Routes.{
  content_route, delete_route, for_operator, get_route, operator_of,
}
use sade_safe_media_delivery.Share.Delivery.{Links, delivery_route}
use sade_safe_media_delivery.Share.Operator.{Desk, Order, load, resend, set_links}

-- To a signed-in operator, the job of somebody else is one that does not exist: each of the six routes under
-- its id, which read it, delete it, stream its files, show its delivery, resend its mail and switch its
-- links, answers 404 in both cases, and nothing changes and nobody is mailed. The jobs table is readable.
pub routes_hide :
    (o : Order) (d : Desk) (links : Links) (unix_now : ℕ) (user_id job_id asset_id dl : Text)
    (open_fails : Bool) (body : Option Bool)
    → is_empty user_id ≡ false
    → o.job.job_fails read_job ≡ false
    → IsForeign d.works user_id job_id
    → (get_route o.job d.works (some user_id) job_id ≡ refused 404 "job not found" d.works)
      × (delete_route o.job d.works (some user_id) job_id ≡ refused 404 "job not found" d.works)
      × (content_route o.job d.works (some user_id) job_id asset_id dl open_fails
          ≡ refused 404 "not found" d.works)
      × (delivery_route links unix_now o d.works (some user_id) job_id ≡ (404, none))
      × (resend o d (some user_id) job_id ≡ (404, d))
      × (set_links o d (some user_id) job_id body ≡ (404, d))
unfolding get_route delete_route content_route for_operator operator_of delivery_route resend
    set_links load
routes_hide o d links unix_now user_id job_id asset_id dl open_fails body named reads foreign =
    let hidden = foreign_hidden o.job d.works user_id job_id asset_id reads foreign in
    (
      rw (get_route, for_operator, operator_of, named, hidden.0) refl,
      rw (delete_route, for_operator, operator_of, named, hidden.2) refl,
      rw (content_route, for_operator, operator_of, named, hidden.1) refl,
      rw (delivery_route, load, hidden.0) refl,
      rw (resend, load, hidden.0) refl,
      rw (set_links, load, hidden.0) refl,
    )
