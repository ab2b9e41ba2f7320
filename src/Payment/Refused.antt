-- ===== src/Payment/Refused.antt =====
-- A webhook delivery that is refused (internals/app/payment).
use sade_safe_media_delivery.Auth.Store.{kept}
use sade_safe_media_delivery.Base.{
  Bool-cases, List, Option, Option-cases, Result, Result-cases, Text, ap, arith, codes, count_where,
  err, false, inl, inr, is_empty, length, ltb, none, not, ok, refl, some, str_eq, sym, ℕ, ◌==◌, ◌∙◌,
  ◌≡◌,
}
use sade_safe_media_delivery.Payment.{
  Payment, PaymentOutage, PaymentRepoError, by_provider_ref, is_paid, paid, update_payment,
  update_payment_row,
}
use sade_safe_media_delivery.Payment.Routes.{max_webhook_body, webhook_reply, webhook_route}
use sade_safe_media_delivery.Payment.Service.{
  PaymentError, PaymentIntent, PaymentService, Request, Shop, already_paid, covers_payment,
  invalid_token, is_succeeded, mark_paid, paid_shop, payment_disabled, shut_links, wrapped_failure,
}
use sade_safe_media_delivery.Payment.Status.{answer, notice, settle, webhook}

update_payment_row-err :
    (fails : PaymentOutage) (now : ℕ) (payments : List Payment) (p : Payment) {e : PaymentRepoError}
    → (update_payment_row fails now payments p).0 ≡ err e
    → (update_payment_row fails now payments p).1 ≡ payments
unfolding update_payment_row
update_payment_row-err fails now payments p h = elim (Bool-cases (fails update_payment)) [
  | inl down ↦ rw (update_payment_row, down) refl
  | inr up ↦ elim (Bool-cases (count_where (λ r. str_eq r.id p.id) payments == 0)) [
    | inl gone ↦ rw (update_payment_row, up, gone) refl
    | inr there ↦ absurd (ground (arith, up, there, h))
  ]
]

-- The tables after an Update that failed.
kept_shop :
    (req : Request) (shop : Shop) (job_id : Text)
    (out : Result PaymentRepoError (Unit {0}) × List Payment) {x : PaymentError}
    → ((e : PaymentRepoError) → out.0 ≡ err e → out.1 ≡ shop.payments)
    → answer out.0 ≡ err x
    → paid_shop req shop job_id out ≡ shop
unfolding answer paid_shop
kept_shop req shop job_id (ok u, rows) kept h = cc
kept_shop req shop job_id (err e, rows) kept h =
    ap (λ ps. record shop { payments = ps }) (kept e refl)

settle-err :
    (req : Request) (shop : Shop) (intent : PaymentIntent) (p : Payment) {x : PaymentError}
    → (settle req shop intent p).0 ≡ err x
    → (settle req shop intent p).1 ≡ shop
unfolding settle mark_paid
settle-err req shop intent p h = elim (Bool-cases (is_paid p.status)) [
  | inl before ↦ rw (settle, before) refl
  | inr not_yet ↦ elim (Bool-cases (not (covers_payment intent p))) [
    | inl short ↦ rw (settle, not_yet, short) refl
    | inr enough ↦
        rw (settle, not_yet, enough)
          (kept_shop req shop p.job_id (mark_paid req shop p)
            (λ e bad.
              update_payment_row-err req.payment_fails req.now shop.payments
                (record p { status = paid }) bad)
            (let same : (settle req shop intent p).0 ≡ answer (mark_paid req shop p).0 =
                rw (settle, not_yet, enough) refl in
              sym same ∙ h))
  ]
]

notice-err :
    (req : Request) (shop : Shop) (intent : PaymentIntent) {x : PaymentError}
    → (notice req shop intent).0 ≡ err x
    → (notice req shop intent).1 ≡ shop
unfolding notice
notice-err req shop intent h = elim (Bool-cases (not (is_succeeded intent.status))) [
  | inl pending_intent ↦ rw (notice, pending_intent) refl
  | inr over ↦ elim (Result-cases (by_provider_ref req.payment_fails shop.payments intent.id)) [
    | inr (e, missing) ↦ rw (notice, over, missing) refl
    | inl (p, found) ↦
        let same : notice req shop intent ≡ settle req shop intent p =
          rw (notice, over, found) refl in
        ap (λ r. r.1) same ∙ settle-err req shop intent p (sym (ap (λ r. r.0) same) ∙ h)
  ]
]

webhook-err :
    (s : PaymentService) (req : Request) (shop : Shop) (payload sig_header : Text)
    {x : PaymentError}
    → (webhook s req shop payload sig_header).0 ≡ err x
    → (webhook s req shop payload sig_header).1 ≡ shop
unfolding webhook
webhook-err s req shop payload sig_header h =
    elim (Bool-cases (is_empty (s.cfg.stripe_webhook_secret))) [
      | inl off ↦ rw (webhook, off) refl
      | inr on ↦
          elim (Option-cases
            (s.gateway.construct_event payload sig_header (s.cfg.stripe_webhook_secret))) [
              | inl forged ↦ rw (webhook, on, forged) refl
              | inr (event, genuine) ↦
                  elim (Bool-cases
                    (not (str_eq event.event_type (codes "payment_intent.succeeded")))) [
                      | inl other ↦ rw (webhook, on, genuine, other) refl
                      | inr wanted ↦ elim (Option-cases (s.gateway.decode_intent event.raw)) [
                        | inl unread ↦ rw (webhook, on, genuine, wanted, unread) refl
                        | inr (intent, read) ↦
                            let same : webhook s req shop payload sig_header
                                ≡ notice req shop intent =
                              rw (webhook, on, genuine, wanted, read) refl in
                            ap (λ r. r.1) same
                            ∙ notice-err req shop intent (sym (ap (λ r. r.0) same) ∙ h)
                      ]
                    ]
            ]
    ]

webhook_reply-refused :
    (out : Result PaymentError (Unit {0}) × Shop) (shop : Shop)
    → ((x : PaymentError) → out.0 ≡ err x → out.1 ≡ shop)
    → ((webhook_reply out).0.0 == 200) ≡ false
    → (webhook_reply out).1 ≡ shop
unfolding webhook_reply
webhook_reply-refused (ok t, after) shop kept h = absurd (ground (arith, h))
webhook_reply-refused (err payment_disabled, after) shop kept h = kept payment_disabled refl
webhook_reply-refused (err invalid_token, after) shop kept h = kept invalid_token refl
webhook_reply-refused (err already_paid, after) shop kept h = kept already_paid refl
webhook_reply-refused (err shut_links, after) shop kept h = kept shut_links refl
webhook_reply-refused (err wrapped_failure, after) shop kept h = kept wrapped_failure refl

-- A delivery that is answered with anything but 200, so that Stripe will repeat it, has changed nothing:
-- whether its body was unreadable or too large, its signature wrong, or a statement failed.
pub webhook_route-refused :
    (s : PaymentService) (req : Request) (shop : Shop) (payload : Option Text) (sig_header : Text)
    → ((webhook_route s req shop payload sig_header).0.0 == 200) ≡ false
    → (webhook_route s req shop payload sig_header).1 ≡ shop
unfolding webhook_route
webhook_route-refused s req shop none sig_header h = refl
webhook_route-refused s req shop (some payload) sig_header h =
    elim (Bool-cases (ltb max_webhook_body (length payload))) [
      | inl large ↦ rw (webhook_route, large) refl
      | inr small ↦
          let same : webhook_route s req shop (some payload) sig_header
              ≡ webhook_reply (webhook s req shop payload sig_header) =
            rw (webhook_route, small) refl in
          ap (λ r. r.1) same
          ∙ webhook_reply-refused (webhook s req shop payload sig_header) shop
              (λ x bad. webhook-err s req shop payload sig_header bad)
              (ap (λ r. r.0.0 == 200) (sym same) ∙ h)
    ]
