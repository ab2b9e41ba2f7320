-- ===== src/Share/Delivery.antt =====
-- internals/app/share/operator.go: Delivery, the operator's view of a delivery.
use sade_safe_media_delivery.Auth.Store.{view}
use sade_safe_media_delivery.Base.{
  Bool, List, Option, Result, Text, [], codes, err, if◌then◌else◌, inl, inr, is_empty, map, none,
  not, ok, some, ℕ, ◌&&◌, ◌++◌, ◌+◌,
}
use sade_safe_media_delivery.Job.{JobResponse}
use sade_safe_media_delivery.Job.Repo.{has_paid_payment}
use sade_safe_media_delivery.Job.Service.{Works}
use sade_safe_media_delivery.JobEvent.{EventKind, JobEvent, list_by_job}
use sade_safe_media_delivery.Share.Operator.{Order, load}
use sade_safe_media_delivery.Token.{Signer, SignerError}

-- What the handler holds for links: the signer, the public URL without its last slashes, and the time that a
-- link lives.
pub record Links : Type 0 where
  pub signer : Signer
  pub public_url : Text
  pub share_ttl : ℕ

-- Delivery, the body. `expires_at` is the zero time while there is no link.
pub record DeliveryView : Type 0 where
  pub are_links_on : Bool
  pub is_paid_for : Bool
  pub is_ready : Bool
  pub preview_url : Text
  pub expires_at : ℕ
  pub timeline : List (EventKind × Text × ℕ)

unfoldable pub event_view : JobEvent → EventKind × Text × ℕ
event_view e = (e.kind, e.detail, e.created_at)

-- Delivery, with the job, its preview, its payment and its history. `unix_now` is the instant for the token.
unfoldable pub delivery_view :
    Links → ℕ → ℕ → JobResponse → Text → Bool → List JobEvent → Result SignerError DeliveryView
unfolding event_view
delivery_view links now unix_now j found is_bought events =
    let view : DeliveryView = record {
      are_links_on = not j.links_disabled;
      is_paid_for = is_bought;
      is_ready = not (is_empty found);
      preview_url = [];
      expires_at = 0;
      timeline = map event_view events;
    } in
    if view.is_ready && view.are_links_on
    then elim (links.signer.sign unix_now (codes "preview") found links.share_ttl) [
      | err e ↦ err e
      | ok tok ↦ ok (record view {
        preview_url = links.public_url ++ codes "/preview/" ++ tok;
        expires_at = now + links.share_ttl;
      })
    ]
    else ok view

-- Delivery. The answer is a status, with a body when it is 200.
unfoldable pub delivery_route :
    Links → ℕ → Order → Works → Option Text → Text → ℕ × Option DeliveryView
unfolding load has_paid_payment list_by_job delivery_view
delivery_route links unix_now o w caller job_id = elim (load o w caller job_id) [
  | inr code ↦ (code, none)
  | inl (j, found) ↦ elim (has_paid_payment o.job.job_fails w.payments j.id) [
    | err e ↦ (500, none)
    | ok is_bought ↦ elim (list_by_job o.event_fails w.events j.id) [
      | err e ↦ (500, none)
      | ok events ↦ elim (delivery_view links o.job.now unix_now j found is_bought events) [
        | err e ↦ (500, none)
        | ok view ↦ (200, some view)
      ]
    ]
  ]
]
