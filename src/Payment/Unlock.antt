-- ===== src/Payment/Unlock.antt =====
-- What marks a payment as paid, and what unlocks the original file
-- (internals/app/payment/service.go).
use sade_safe_media_delivery.Auth.Start.{decoded}
use sade_safe_media_delivery.Base.{
  Bool-cases, List, Option-cases, Result, Result-cases, Text, ap, arith, codes, eq_of_str_eq, err,
  false, inl, inr, is_empty, ok, refl, some, str_eq, true, ◌∙◌, ◌≡◌, ◌≢◌, ◌≤◌, ◌⊎◌,
}
use sade_safe_media_delivery.GoText.{to_lower}
use sade_safe_media_delivery.Payment.{Payment, PaymentRepoError, by_provider_ref, is_paid}
use sade_safe_media_delivery.Payment.Service.{
  PaymentIntent, PaymentService, Request, Shop, StripeEvent, covers_payment, is_succeeded,
  mark_paid, paid_shop, record_paid,
}
use sade_safe_media_delivery.Payment.Status.{answer, notice, settle, webhook}

-- Webhook honours an event: its payload carries Stripe's signature, it tells of an intent that
-- succeeded, and the intent is that of the stored payment `p`, which is not yet paid, and covers it.
pub record Honoured (s : PaymentService) (req : Request) (shop : Shop) (payload sig_header : Text)
    : Type 0 where
  pub event : StripeEvent
  pub intent : PaymentIntent
  pub p : Payment
  pub has_secret : is_empty (s.cfg.stripe_webhook_secret) ≡ false
  pub has_signature :
      s.gateway.construct_event payload sig_header (s.cfg.stripe_webhook_secret) ≡ some event
  pub is_success_event : str_eq (event.event_type) (codes "payment_intent.succeeded") ≡ true
  pub is_decoded : s.gateway.decode_intent (event.raw) ≡ some intent
  pub has_succeeded : is_succeeded (intent.status) ≡ true
  pub is_stored : by_provider_ref req.payment_fails shop.payments (intent.id) ≡ ok p
  pub is_open_still : is_paid (p.status) ≡ false
  pub is_covered : covers_payment intent p ≡ true
  pub is_enough : intent.amount_received ≢ 0 → p.amount_cents ≤ intent.amount_received
  pub is_enough_asked : intent.amount_received ≡ 0 → p.amount_cents ≤ intent.amount
  pub is_in_currency : to_lower intent.currency ≡ to_lower p.currency

covers :
    (intent : PaymentIntent) (p : Payment)
    → covers_payment intent p ≡ true
    → (intent.amount_received ≢ 0 → p.amount_cents ≤ intent.amount_received)
      × (intent.amount_received ≡ 0 → p.amount_cents ≤ intent.amount)
      × (to_lower intent.currency ≡ to_lower p.currency)
unfolding covers_payment
covers intent p h = (
  λ ne. ground (arith, h, ne),
  λ e. ground (arith, h, e),
  eq_of_str_eq (to_lower intent.currency) (to_lower p.currency) (ground (arith, h)),
)

record_paid-payments :
    (req : Request) (shop : Shop) (job_id : Text)
    → (record_paid req shop job_id).payments ≡ shop.payments
unfolding record_paid
record_paid-payments req shop job_id = ground arith

pub paid_shop-payments :
    (req : Request) (shop : Shop) (job_id : Text)
    (written : Result PaymentRepoError (Unit {0}) × List Payment)
    → (paid_shop req shop job_id written).payments ≡ written.1
unfolding paid_shop
paid_shop-payments req shop job_id (err e, rows) = refl
paid_shop-payments req shop job_id (ok u, rows) =
    record_paid-payments req (record shop { payments = rows }) job_id

pub settle-eq_paid :
    (req : Request) (shop : Shop) (intent : PaymentIntent) (p : Payment)
    → is_paid p.status ≡ true
    → settle req shop intent p ≡ (ok tt, shop)
unfolding settle
settle-eq_paid req shop intent p e = rw (settle, e) refl

pub settle-uncovered :
    (req : Request) (shop : Shop) (intent : PaymentIntent) (p : Payment)
    → is_paid p.status ≡ false
    → covers_payment intent p ≡ false
    → settle req shop intent p ≡ (ok tt, shop)
unfolding settle
settle-uncovered req shop intent p e short = rw (settle, e, short) refl

pub settle-covered :
    (req : Request) (shop : Shop) (intent : PaymentIntent) (p : Payment)
    → is_paid p.status ≡ false
    → covers_payment intent p ≡ true
    → settle req shop intent p
      ≡ (answer (mark_paid req shop p).0, paid_shop req shop p.job_id (mark_paid req shop p))
unfolding settle
settle-covered req shop intent p e covered = rw (settle, e, covered) refl

module _ (s : PaymentService) (req : Request) (shop : Shop) (payload sig_header : Text) where
  -- What Webhook does with an event that it honours.
  Settled : Type 0
  Settled =
      (h : Honoured s req shop payload sig_header) × (webhook s req shop payload sig_header ≡ (
        answer (mark_paid req shop h.p).0,
        paid_shop req shop (h.p.job_id) (mark_paid req shop h.p),
      ))

  Ends : Type 0
  Ends = ((webhook s req shop payload sig_header).1 ≡ shop) ⊎ Settled

  module _ (event : StripeEvent) (intent : PaymentIntent)
      (secret : is_empty (s.cfg.stripe_webhook_secret) ≡ false)
      (signature : s.gateway.construct_event payload sig_header (s.cfg.stripe_webhook_secret)
        ≡ some event)
      (kind : str_eq event.event_type (codes "payment_intent.succeeded") ≡ true)
      (decoded : s.gateway.decode_intent event.raw ≡ some intent) where
    webhook-eq_notice : webhook s req shop payload sig_header ≡ notice req shop intent
    unfolding webhook
    webhook-eq_notice = rw (webhook, secret, signature, kind, decoded) refl

    to_settle :
        (p : Payment)
        → is_succeeded intent.status ≡ true
        → by_provider_ref req.payment_fails shop.payments intent.id ≡ ok p
        → webhook s req shop payload sig_header ≡ settle req shop intent p
    unfolding notice
    to_settle p success stored = webhook-eq_notice ∙ rw (notice, success, stored) refl

    settle_ends :
        (p : Payment)
        → is_succeeded intent.status ≡ true
        → by_provider_ref req.payment_fails shop.payments intent.id ≡ ok p
        → Ends
    unfolding Ends Settled
    settle_ends p success stored = elim (Bool-cases (is_paid p.status)) [
      | inl e ↦
          inl (ap (λ r. r.1) (to_settle p success stored ∙ settle-eq_paid req shop intent p e))
      | inr e ↦ elim (Bool-cases (covers_payment intent p)) [
        | inr short ↦ inl (
            ap (λ r. r.1) (to_settle p success stored ∙ settle-uncovered req shop intent p e short))
        | inl covered ↦ inr (
          record {
            event = event;
            intent = intent;
            p = p;
            has_secret = secret;
            has_signature = signature;
            is_success_event = kind;
            is_decoded = decoded;
            has_succeeded = success;
            is_stored = stored;
            is_open_still = e;
            is_covered = covered;
            is_enough = (covers intent p covered).0;
            is_enough_asked = (covers intent p covered).1;
            is_in_currency = (covers intent p covered).2;
          },
          to_settle p success stored ∙ settle-covered req shop intent p e covered,
        )
      ]
    ]

    notice_ends : Ends
    unfolding Ends notice
    notice_ends = elim (Bool-cases (is_succeeded intent.status)) [
      | inr e ↦ inl (ap (λ r. r.1) webhook-eq_notice ∙ rw (notice, e) refl)
      | inl success ↦
          elim (Result-cases (by_provider_ref req.payment_fails shop.payments intent.id)) [
            | inr (e, missing) ↦
                inl (ap (λ r. r.1) webhook-eq_notice ∙ rw (notice, success, missing) refl)
            | inl (p, stored) ↦ settle_ends p success stored
          ]
    ]

  webhook_ends : Ends
  unfolding Ends webhook
  webhook_ends = elim (Bool-cases (is_empty (s.cfg.stripe_webhook_secret))) [
    | inl off ↦ inl (rw (webhook, off) refl)
    | inr secret ↦
        elim (Option-cases
          (s.gateway.construct_event payload sig_header (s.cfg.stripe_webhook_secret))) [
            | inl forged ↦ inl (rw (webhook, secret, forged) refl)
            | inr (event, signature) ↦
                elim (Bool-cases (str_eq event.event_type (codes "payment_intent.succeeded"))) [
                  | inr other ↦ inl (rw (webhook, secret, signature, other) refl)
                  | inl kind ↦ elim (Option-cases (s.gateway.decode_intent event.raw)) [
                    | inl broken ↦ inl (rw (webhook, secret, signature, kind, broken) refl)
                    | inr (intent, decoded) ↦ notice_ends event intent secret signature kind decoded
                  ]
                ]
          ]
  ]

-- Webhook leaves every table as it was, unless it honours the event; then it answers by what the
-- Update of that payment said, which marks the row as paid, and records the purchase only when the
-- row was written.
pub webhook-Settled :
    (s : PaymentService) (req : Request) (shop : Shop) (payload sig_header : Text)
    → ((webhook s req shop payload sig_header).1 ≡ shop)
      ⊎ ((h : Honoured s req shop payload sig_header) × (webhook s req shop payload sig_header ≡ (
        answer (mark_paid req shop h.p).0,
        paid_shop req shop (h.p.job_id) (mark_paid req shop h.p),
      )))
unfolding Ends Settled
webhook-Settled = webhook_ends
