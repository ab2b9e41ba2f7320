-- ===== src/Payment/Once.antt =====
-- A job that has been paid for (internals/app/payment/service.go).
use sade_safe_media_delivery.Asset.{Asset}
use sade_safe_media_delivery.Base.{
  Bool, List, Option-cases, Text, [], ap, arith, codes, count_where, count_where-none,
  count_where-select, count_where-sort_by, err, false, find_row, find_row-holds, inl, inr, ltb, ok,
  refl, select, some, sort_by, str_eq, true, ◌&&◌, ◌++◌, ◌∙◌, ◌∷◌, ◌≡◌,
}
use sade_safe_media_delivery.Job.Repo.{JobOutage, has_paid_payment}
use sade_safe_media_delivery.Payment.{Payment, is_paid, list_payments, read_payments}
use sade_safe_media_delivery.Payment.Intent.{create_intent, with_payments}
use sade_safe_media_delivery.Payment.Service.{
  PaymentService, Request, Shop, StatusResult, already_paid, enabled, job_payments, paid_payment,
  resolve_preview,
}
use sade_safe_media_delivery.Payment.Status.{choose, report, status, status_of}

-- The condition of HasPaidPayment on a row.
is_paid_for : Text → Payment → Bool
is_paid_for job_id p = str_eq p.job_id job_id && is_paid p.status

has_paid_payment-count :
    (fails : JobOutage) (payments : List Payment) (job_id : Text)
    → has_paid_payment fails payments job_id ≡ ok true
    → ltb 0 (count_where (is_paid_for job_id) payments) ≡ true
unfolding has_paid_payment is_paid_for
has_paid_payment-count fails payments job_id has = ground arith

-- The rows of a job that CreateIntent and Status read.
abbrev rows_of : List Payment → Text → List Payment
rows_of payments job_id =
    sort_by (λ a b. ltb b.created_at a.created_at) (select (λ p. str_eq p.job_id job_id) payments)

rows_of-count :
    (payments : List Payment) (job_id : Text)
    → count_where (λ p. is_paid p.status) (rows_of payments job_id)
      ≡ count_where (is_paid_for job_id) payments
unfolding is_paid_for
rows_of-count payments job_id =
    count_where-sort_by (λ p. is_paid p.status) (λ a b. ltb b.created_at a.created_at)
      (select (λ p. str_eq p.job_id job_id) payments)
    ∙ count_where-select (λ p. is_paid p.status) (λ p. str_eq p.job_id job_id) payments

job_payments-ok :
    (req : Request) (shop : Shop) (job_id : Text)
    → req.payment_fails read_payments ≡ false
    → job_payments req shop job_id ≡ ok (rows_of shop.payments job_id)
unfolding job_payments list_payments
job_payments-ok req shop job_id reads = rw (job_payments, list_payments, reads) refl

-- When HasPaidPayment says so, there is a paid row among those of the job.
pub paid_payment-has_paid_payment :
    (fails : JobOutage) (payments : List Payment) (job_id : Text)
    → has_paid_payment fails payments job_id ≡ ok true
    → (p : Payment) × (paid_payment (rows_of payments job_id) ≡ some p)
unfolding paid_payment
paid_payment-has_paid_payment fails payments job_id has =
    elim (Option-cases (paid_payment (rows_of payments job_id))) [
      | inl nothing ↦ absurd (
          ground (
            arith,
            has_paid_payment-count fails payments job_id has,
            rows_of-count payments job_id,
            count_where-none (λ p. is_paid p.status) (rows_of payments job_id) nothing,
          ))
      | inr found ↦ found
    ]

-- Let the preview token resolve, let HasPaidPayment say that its job is paid for, and let the
-- payments be readable. Then CreateIntent, with Stripe configured, refuses with ErrAlreadyPaid,
-- whatever Stripe would answer, and changes no table.
pub create_intent-has_paid_payment :
    (s : PaymentService) (req : Request) (shop : Shop) (tok : Text) (pa oa : Asset)
    → enabled s ≡ true
    → req.payment_fails read_payments ≡ false
    → resolve_preview s req shop tok ≡ ok (pa, oa)
    → has_paid_payment req.job_fails shop.payments pa.job_id ≡ ok true
    → create_intent s req shop tok ≡ (err already_paid, shop)
unfolding create_intent with_payments
create_intent-has_paid_payment s req shop tok pa oa on reads found has =
    let paid_row = paid_payment-has_paid_payment req.job_fails shop.payments pa.job_id has in
    rw (create_intent, on, found, job_payments-ok req shop pa.job_id reads)
      (rw (with_payments, paid_row.1) refl)

report-IsPaid :
    (s : PaymentService) (req : Request) (oa : Asset) (p : Payment) (link : Text)
    → is_paid p.status ≡ true
    → s.signer.sign req.now (codes "original") oa.id s.share_ttl ≡ ok link
    → (r : StatusResult) × (report s req oa p ≡ ok r)
      × (r.has_paid ≡ true)
      × (r.original_url ≡ s.public_url ++ codes "/o/" ++ link)
unfolding report
report-IsPaid s req oa p link is_bought made =
    rw (is_bought, made)
      (
        record {
          is_enabled = true;
          has_paid = true;
          original_url = s.public_url ++ codes "/o/" ++ link;
          amount_cents = p.amount_cents;
          currency = p.currency;
          publishable_key = [];
        },
        refl,
        refl,
        refl,
      )

choose_paid :
    (s : PaymentService) (req : Request) (shop : Shop) (first : Payment) (rest : List Payment)
    (p : Payment)
    → paid_payment (first ∷ rest) ≡ some p
    → choose s req shop first rest ≡ (p, shop)
unfolding choose
choose_paid s req shop first rest p h = rw (choose, h) refl

-- The choice of Status is a paid row when there is one.
status_of-paid :
    (s : PaymentService) (req : Request) (shop : Shop) (oa : Asset) (rows : List Payment)
    (p : Payment)
    → paid_payment rows ≡ some p
    → status_of s req shop oa rows ≡ (report s req oa p, shop)
unfolding status_of
status_of-paid s req shop oa [] p h = absurd (unfold paid_payment find_row in ground arith)
status_of-paid s req shop oa (first ∷ rest) p h =
    ap (λ (c : Payment × Shop). (report s req oa c.0, c.1)) (choose_paid s req shop first rest p h)

-- Let the preview token resolve, let HasPaidPayment say that its job is paid for, let the payments be
-- readable, and let the signer make a token for the original file of the job. Then Status, with Stripe
-- configured, reports the job as paid for, hands out the link with that token, and changes no table.
pub status-has_paid_payment :
    (s : PaymentService) (req : Request) (shop : Shop) (tok link : Text) (pa oa : Asset)
    → enabled s ≡ true
    → req.payment_fails read_payments ≡ false
    → resolve_preview s req shop tok ≡ ok (pa, oa)
    → has_paid_payment req.job_fails shop.payments pa.job_id ≡ ok true
    → s.signer.sign req.now (codes "original") oa.id s.share_ttl ≡ ok link
    → (r : StatusResult) × (status s req shop tok ≡ (ok r, shop))
      × (r.has_paid ≡ true)
      × (r.original_url ≡ s.public_url ++ codes "/o/" ++ link)
unfolding status
status-has_paid_payment s req shop tok link pa oa on reads found has signed_link =
    let paid_row = paid_payment-has_paid_payment req.job_fails shop.payments pa.job_id has in
    let p = paid_row.0 in
    let bought : is_paid p.status ≡ true =
      unfold paid_payment in
      find_row-holds (λ r. is_paid r.status) (rows_of shop.payments pa.job_id) p paid_row.1 in
    let answer = report-IsPaid s req oa p link bought signed_link in
    (
      answer.0,
      rw
          (
            status,
            on,
            found,
            job_payments-ok req shop pa.job_id reads,
            status_of-paid s req shop oa (rows_of shop.payments pa.job_id) p paid_row.1,
            answer.1,
          )
          refl,
      answer.2,
      answer.3,
    )
