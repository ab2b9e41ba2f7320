-- ===== src/Payment/Service.antt =====
-- internals/app/payment/service.go: what the use cases share. The Stripe client, the verification of
-- a webhook payload and its JSON decoding are parameters; the log is not modelled.
use sade_safe_media_delivery.Asset.{
  Asset, AssetOutage, get_asset, get_by_job_and_kind, kind_eq, original, preview,
}
use sade_safe_media_delivery.Base.{
  Bool, List, Option, Result, Text, [], codes, err, false, find_row, if◌then◌else◌, is_empty, leb,
  not, ok, str_eq, true, ℕ, ◌&&◌, ◌==◌, ◌>>=◌,
}
use sade_safe_media_delivery.GoText.{to_lower}
use sade_safe_media_delivery.Job.{Job}
use sade_safe_media_delivery.Job.Repo.{JobOutage, links_disabled_of}
use sade_safe_media_delivery.JobEvent.{EventOutage, JobEvent, paid_event, record_event}
use sade_safe_media_delivery.Payment.{
  Payment, PaymentOutage, PaymentRepoError, is_paid, is_unpaid, list_payments, paid,
  update_payment_row,
}
use sade_safe_media_delivery.Token.{Signer}

-- stripe.PaymentIntentStatus
pub data IntentStatus : Type 0 where
  requires_payment_method requires_confirmation requires_action requires_capture : IntentStatus
  intent_processing canceled succeeded : IntentStatus

-- The fields of stripe.PaymentIntent that the service reads.
pub record PaymentIntent : Type 0 where
  pub id : Text
  pub client_secret : Text
  pub status : IntentStatus
  pub amount : ℕ
  pub amount_received : ℕ
  pub currency : Text

-- stripe.Event
pub record StripeEvent : Type 0 where
  pub event_type : Text
  pub raw : Text

-- The calls of stripe-go. `none` is an error. `create_intent` takes the metadata, the amount and the
-- currency, `construct_event` the payload, the header and the secret.
pub record Gateway : Type 0 where
  pub retrieve : Text → Option PaymentIntent
  pub create : Text → Text → ℕ → Text → Option PaymentIntent
  pub construct_event : Text → Text → Text → Option StripeEvent
  pub decode_intent : Text → Option PaymentIntent

-- config.PaymentConfig
pub record PaymentConfig : Type 0 where
  pub stripe_secret_key : Text
  pub stripe_publishable_key : Text
  pub stripe_webhook_secret : Text
  pub price_cents : ℕ
  pub currency : Text

-- The sentinel errors, and any other error.
pub data PaymentError : Type 0 where
  payment_disabled invalid_token already_paid shut_links wrapped_failure : PaymentError

pub record StatusResult : Type 0 where
  pub is_enabled : Bool
  pub has_paid : Bool
  pub original_url : Text
  pub amount_cents : ℕ
  pub currency : Text
  pub publishable_key : Text

-- The tables that the use cases read and write.
pub record Shop : Type 0 where
  pub assets : List Asset
  pub jobs : List Job
  pub payments : List Payment
  pub events : List JobEvent

-- One request: the statements that fail during it, its instant, and the ids that the database gives.
-- `is_wired` is whether UseDelivery was called.
pub record Request : Type 0 where
  pub asset_fails : AssetOutage
  pub job_fails : JobOutage
  pub payment_fails : PaymentOutage
  pub event_fails : EventOutage
  pub now : ℕ
  pub payment_id : Text
  pub event_id : Text
  pub is_wired : Bool

-- The fields of the service that do not change.
pub record PaymentService : Type 0 where
  pub signer : Signer
  pub gateway : Gateway
  pub cfg : PaymentConfig
  pub public_url : Text
  pub share_ttl : ℕ

-- enabled
unfoldable pub enabled : PaymentService → Bool
enabled s = not (is_empty (s.cfg.stripe_secret_key))

-- recordPaid. A failed insert is logged only.
unfoldable pub record_paid : Request → Shop → Text → Shop
unfolding record_event
record_paid req shop job_id = if not req.is_wired then shop else record shop {
  events = (record_event req.event_fails req.event_id req.now shop.events job_id paid_event []).1;
}

-- resolvePreview, the preview asset.
unfoldable pub load_preview : PaymentService → Request → Shop → Text → Result PaymentError Asset
unfolding get_asset kind_eq
load_preview s req shop tok = elim (s.signer.verify req.now (codes "preview") tok) [
  | err e ↦ err invalid_token
  | ok subject ↦ elim (get_asset req.asset_fails shop.assets subject) [
    | err e ↦ err invalid_token
    | ok a ↦ if kind_eq a.kind preview then ok a else err invalid_token
  ]
]

-- resolvePreview, the links switch.
unfoldable pub check_links : Request → Shop → Text → Result PaymentError (Unit {0})
unfolding links_disabled_of
check_links req shop job_id =
    if not req.is_wired then ok tt else elim (links_disabled_of req.job_fails shop.jobs job_id) [
      | err e ↦ err invalid_token
      | ok off ↦ if off then err shut_links else ok tt
    ]

-- resolvePreview, the original asset.
unfoldable pub load_original : Request → Shop → Text → Result PaymentError Asset
unfolding get_by_job_and_kind
load_original req shop job_id =
    elim (get_by_job_and_kind req.asset_fails shop.assets job_id original) [
      | err e ↦ err wrapped_failure
      | ok a ↦ ok a
    ]

-- resolvePreview
unfoldable pub resolve_preview :
    PaymentService → Request → Shop → Text → Result PaymentError (Asset × Asset)
unfolding load_preview check_links load_original
resolve_preview s req shop tok = load_preview s req shop tok >>= λ pa.
    check_links req shop pa.job_id >>= λ _. load_original req shop pa.job_id >>= λ oa. ok (pa, oa)

-- The rows of a job, the error wrapped.
unfoldable pub job_payments : Request → Shop → Text → Result PaymentError (List Payment)
unfolding list_payments
job_payments req shop job_id = elim (list_payments req.payment_fails shop.payments job_id) [
  | err e ↦ err wrapped_failure
  | ok payments ↦ ok payments
]

-- coversPayment
unfoldable pub covers_payment : PaymentIntent → Payment → Bool
unfolding str_eq to_lower
covers_payment intent p =
    let received = if intent.amount_received == 0 then intent.amount else intent.amount_received in
    leb p.amount_cents received && str_eq (to_lower intent.currency) (to_lower p.currency)

-- paidPayment
unfoldable pub paid_payment : List Payment → Option Payment
unfolding is_paid find_row
paid_payment payments = find_row (λ p. is_paid p.status) payments

-- The statuses under which reusableIntent hands an intent back.
unfoldable pub is_open : IntentStatus → Bool
is_open requires_payment_method = true
is_open requires_confirmation = true
is_open requires_action = true
is_open _ = false

-- The status test of reconcile and Webhook.
unfoldable pub is_succeeded : IntentStatus → Bool
is_succeeded succeeded = true
is_succeeded _ = false

-- A pending payment with a PaymentIntent.
unfoldable pub is_underway : Payment → Bool
unfolding is_unpaid
is_underway p = is_unpaid p.status && not (is_empty p.provider_ref)

-- The end of reconcile and Webhook, by what Update said: recordPaid follows a written row alone.
unfoldable pub paid_shop :
    Request → Shop → Text → Result PaymentRepoError (Unit {0}) × List Payment → Shop
unfolding record_paid
paid_shop req shop job_id (err e, rows) = record shop { payments = rows }
paid_shop req shop job_id (ok u, rows) = record_paid req (record shop { payments = rows }) job_id

-- The Update of reconcile and Webhook.
unfoldable pub mark_paid :
    Request → Shop → Payment → Result PaymentRepoError (Unit {0}) × List Payment
unfolding update_payment_row
mark_paid req shop p =
    update_payment_row req.payment_fails req.now shop.payments (record p { status = paid })
