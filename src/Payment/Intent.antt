-- ===== src/Payment/Intent.antt =====
-- internals/app/payment/service.go: CreateIntent.
use sade_safe_media_delivery.Base.{
  List, Option, Result, Text, [], err, if◌then◌else◌, is_empty, none, not, ok, some, str_eq, ◌&&◌,
  ◌==◌, ◌∷◌,
}
use sade_safe_media_delivery.Payment.{Payment, create_payment, unpaid, update_payment_row}
use sade_safe_media_delivery.Payment.Service.{
  PaymentError, PaymentIntent, PaymentService, Request, Shop, already_paid, enabled, is_open,
  is_underway, job_payments, paid_payment, payment_disabled, resolve_preview, wrapped_failure,
}

-- reusableIntent, what it does with the intent.
unfoldable pub reuse : PaymentService → PaymentIntent → Option Text
unfolding is_open str_eq
reuse s intent =
    if is_open intent.status
      && (not (is_empty intent.client_secret)
          && (intent.amount == s.cfg.price_cents && str_eq intent.currency (s.cfg.currency)))
    then some intent.client_secret
    else none

-- reusableIntent
unfoldable pub reusable_intent : PaymentService → List Payment → Option Text
unfolding is_underway reuse
reusable_intent s [] = none
reusable_intent s (p ∷ ps) =
    if not (is_underway p)
    then none
    else elim (s.gateway.retrieve p.provider_ref) [ none ↦ none | some intent ↦ reuse s intent ]

-- CreateIntent, the row that it inserts.
unfoldable pub new_payment : PaymentService → Text → Payment
new_payment s job_id = record {
  id = [];
  job_id = job_id;
  provider_ref = [];
  status = unpaid;
  amount_cents = s.cfg.price_cents;
  currency = s.cfg.currency;
  created_at = 0;
  updated_at = 0;
}

-- CreateIntent, from the PaymentIntent on. A failed Update is logged only.
unfoldable pub record_intent :
    Request → Shop → Payment → Option PaymentIntent → Result PaymentError Text × Shop
unfolding update_payment_row
record_intent req shop p none = (err wrapped_failure, shop)
record_intent req shop p (some intent) =
    let written =
      update_payment_row req.payment_fails req.now shop.payments
        (record p { provider_ref = intent.id }) in
    (ok intent.client_secret, record shop { payments = written.1 })

-- CreateIntent, from the row on.
unfoldable pub start_payment :
    PaymentService → Request → Shop → Text → Result PaymentError Text × Shop
unfolding new_payment create_payment record_intent
start_payment s req shop job_id =
    let p = new_payment s job_id in
    let made = create_payment req.payment_fails req.payment_id req.now shop.payments p in
    let shop1 : Shop = record shop { payments = made.1 } in
    elim made.0 [
      | err e ↦ (err wrapped_failure, shop1)
      | ok id ↦
          record_intent req shop1 (record p { id = id })
            (s.gateway.create id job_id (s.cfg.price_cents) (s.cfg.currency))
    ]

-- CreateIntent, from the rows of the job on.
unfoldable pub with_payments :
    PaymentService → Request → Shop → Text → List Payment → Result PaymentError Text × Shop
unfolding paid_payment reusable_intent start_payment
with_payments s req shop job_id payments = elim (paid_payment payments) [
  | some p ↦ (err already_paid, shop)
  | none ↦ elim (reusable_intent s payments) [
    | some secret ↦ (ok secret, shop)
    | none ↦ start_payment s req shop job_id
  ]
]

-- CreateIntent
unfoldable pub create_intent :
    PaymentService → Request → Shop → Text → Result PaymentError Text × Shop
unfolding enabled resolve_preview job_payments with_payments
create_intent s req shop tok =
    if not (enabled s)
    then (err payment_disabled, shop)
    else elim (resolve_preview s req shop tok) [
      | err e ↦ (err e, shop)
      | ok found ↦ elim (job_payments req shop ((found.0).job_id)) [
        | err e ↦ (err e, shop)
        | ok payments ↦ with_payments s req shop ((found.0).job_id) payments
      ]
    ]
