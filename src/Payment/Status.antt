-- ===== src/Payment/Status.antt =====
-- internals/app/payment/service.go: Status and Webhook, which mark a payment as paid.
use sade_safe_media_delivery.Asset.{Asset}
use sade_safe_media_delivery.Base.{
  List, Result, Text, [], codes, err, false, if◌then◌else◌, is_empty, none, not, ok, some, str_eq,
  true, ℕ, ◌++◌, ◌∷◌,
}
use sade_safe_media_delivery.Payment.{Payment, PaymentRepoError, by_provider_ref, is_paid, paid}
use sade_safe_media_delivery.Payment.Service.{
  PaymentError, PaymentIntent, PaymentService, Request, Shop, StatusResult, covers_payment, enabled,
  is_succeeded, is_underway, job_payments, mark_paid, paid_payment, paid_shop, payment_disabled,
  resolve_preview, shut_links, wrapped_failure,
}

-- reconcile, with the intent: the payment as the caller sees it afterwards, and the tables.
unfoldable pub reconcile_with : Request → Shop → Payment → PaymentIntent → Payment × Shop
unfolding is_succeeded covers_payment mark_paid paid_shop
reconcile_with req shop p intent =
    if not (is_succeeded intent.status)
    then (p, shop)
    else if not (covers_payment intent p)
    then (p, shop)
    else (record p { status = paid }, paid_shop req shop p.job_id (mark_paid req shop p))

-- reconcile
unfoldable pub reconcile : PaymentService → Request → Shop → Payment → Payment × Shop
unfolding reconcile_with
reconcile s req shop p = elim (s.gateway.retrieve p.provider_ref) [
  | none ↦ (p, shop)
  | some intent ↦ reconcile_with req shop p intent
]

-- Status, the result of an open payment.
unfoldable pub offer : PaymentService → ℕ → Text → StatusResult
offer s amount currency = record {
  is_enabled = true;
  has_paid = false;
  original_url = [];
  amount_cents = amount;
  currency = currency;
  publishable_key = s.cfg.stripe_publishable_key;
}

-- Status, from the chosen payment on.
unfoldable pub report :
    PaymentService → Request → Asset → Payment → Result PaymentError StatusResult
unfolding is_paid offer
report s req original_asset p =
    if not (is_paid p.status)
    then ok (offer s p.amount_cents p.currency)
    else elim (s.signer.sign req.now (codes "original") original_asset.id s.share_ttl) [
      | err e ↦ err wrapped_failure
      | ok tok ↦ ok (record {
        is_enabled = true;
        has_paid = true;
        original_url = s.public_url ++ codes "/o/" ++ tok;
        amount_cents = p.amount_cents;
        currency = p.currency;
        publishable_key = [];
      })
    ]

-- Status, the choice of the payment: a paid one, else the newest, reconciled when it is underway.
unfoldable pub choose : PaymentService → Request → Shop → Payment → List Payment → Payment × Shop
unfolding paid_payment is_underway reconcile
choose s req shop first rest = elim (paid_payment (first ∷ rest)) [
  | some p ↦ (p, shop)
  | none ↦ if is_underway first then reconcile s req shop first else (first, shop)
]

-- Status, from the rows of the job on.
unfoldable pub status_of :
    PaymentService → Request → Shop → Asset → List Payment → Result PaymentError StatusResult × Shop
unfolding offer choose report
status_of s req shop original_asset [] = (ok (offer s (s.cfg.price_cents) (s.cfg.currency)), shop)
status_of s req shop original_asset (first ∷ rest) =
    let chosen = choose s req shop first rest in (report s req original_asset chosen.0, chosen.1)

-- Status without a Stripe key.
unfoldable pub disabled_status :
    Result PaymentError (Asset × Asset) → Result PaymentError StatusResult
disabled_status (err shut_links) = err shut_links
disabled_status _ = ok (record {
  is_enabled = false;
  has_paid = false;
  original_url = [];
  amount_cents = 0;
  currency = [];
  publishable_key = [];
})

-- Status
unfoldable pub status :
    PaymentService → Request → Shop → Text → Result PaymentError StatusResult × Shop
unfolding enabled disabled_status resolve_preview job_payments status_of
status s req shop tok =
    if not (enabled s)
    then (disabled_status (resolve_preview s req shop tok), shop)
    else elim (resolve_preview s req shop tok) [
      | err e ↦ (err e, shop)
      | ok found ↦ elim (job_payments req shop ((found.0).job_id)) [
        | err e ↦ (err e, shop)
        | ok payments ↦ status_of s req shop (found.1) payments
      ]
    ]

-- The answer of Webhook, by what Update said.
unfoldable pub answer : Result PaymentRepoError (Unit {0}) → Result PaymentError (Unit {0})
answer (err e) = err wrapped_failure
answer (ok u) = ok tt

-- Webhook, from the payment on.
unfoldable pub settle :
    Request → Shop → PaymentIntent → Payment → Result PaymentError (Unit {0}) × Shop
unfolding is_paid covers_payment mark_paid paid_shop answer
settle req shop intent p =
    if is_paid p.status
    then (ok tt, shop)
    else if not (covers_payment intent p)
    then (ok tt, shop)
    else (answer (mark_paid req shop p).0, paid_shop req shop p.job_id (mark_paid req shop p))

-- Webhook, from the intent on.
unfoldable pub notice : Request → Shop → PaymentIntent → Result PaymentError (Unit {0}) × Shop
unfolding is_succeeded by_provider_ref settle
notice req shop intent =
    if not (is_succeeded intent.status)
    then (ok tt, shop)
    else elim (by_provider_ref req.payment_fails shop.payments intent.id) [
      | err e ↦ (err wrapped_failure, shop)
      | ok p ↦ settle req shop intent p
    ]

-- Webhook
unfoldable pub webhook :
    PaymentService → Request → Shop → Text → Text → Result PaymentError (Unit {0}) × Shop
unfolding notice str_eq
webhook s req shop payload sig_header =
    if is_empty (s.cfg.stripe_webhook_secret)
    then (err payment_disabled, shop)
    else elim (s.gateway.construct_event payload sig_header (s.cfg.stripe_webhook_secret)) [
      | none ↦ (err wrapped_failure, shop)
      | some event ↦
          if not (str_eq event.event_type (codes "payment_intent.succeeded"))
          then (ok tt, shop)
          else elim (s.gateway.decode_intent event.raw) [
            | none ↦ (err wrapped_failure, shop)
            | some intent ↦ notice req shop intent
          ]
    ]
