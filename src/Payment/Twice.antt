-- ===== src/Payment/Twice.antt =====
-- A second delivery of an event changes nothing (internals/app/payment/service.go).
use mathlib.Core.Path.{subst}
use sade_safe_media_delivery.Base.{
  Bool, Bool-cases, List, Result, Result-cases, Text, [], ap, arith, err, false, find_row,
  find_row-holds, inl, inr, ok, refl, some, str_eq, str_eq_refl, sym, true, update_where, ℕ, ◌∙◌,
  ◌∷◌, ◌≡◌,
}
use sade_safe_media_delivery.Payment.{
  Payment, PaymentOutage, by_provider_ref, is_paid, paid, read_by_ref, update_payment_row,
}
use sade_safe_media_delivery.Payment.Service.{
  PaymentError, PaymentIntent, Request, Shop, covers_payment, is_succeeded, mark_paid, paid_shop,
  wrapped_failure,
}
use sade_safe_media_delivery.Payment.Status.{answer, notice, settle}
use sade_safe_media_delivery.Payment.Unlock.{
  paid_shop-payments, settle-covered, settle-eq_paid, settle-uncovered,
}

by_ref : Text → Payment → Bool
by_ref ref p = str_eq p.provider_ref ref

by_provider_ref-found :
    (fails : PaymentOutage) (rows : List Payment) (ref : Text) (p : Payment)
    → by_provider_ref fails rows ref ≡ ok p
    → find_row (by_ref ref) rows ≡ some p
unfolding by_provider_ref by_ref
by_provider_ref-found fails rows ref p h = ground arith

found-by_provider_ref :
    (fails : PaymentOutage) (rows : List Payment) (ref : Text) (p : Payment)
    → fails read_by_ref ≡ false
    → find_row (by_ref ref) rows ≡ some p
    → by_provider_ref fails rows ref ≡ ok p
unfolding by_provider_ref by_ref
found-by_provider_ref fails rows ref p reads h = rw (by_provider_ref, reads, h) refl

-- The row of Update with the status paid.
paid_row : ℕ → Payment → Payment → Payment
paid_row now p r = record p { status = paid; created_at = r.created_at; updated_at = now }

-- The first row with the reference of a payment is paid once that payment is marked.
find_row-marked :
    (now : ℕ) (ref : Text) (p : Payment)
    → str_eq p.provider_ref ref ≡ true
    → (rows : List Payment) (first : Payment) → find_row (by_ref ref) rows ≡ some first
    → str_eq first.id p.id ≡ true
    → (r : Payment) × (find_row
          (by_ref ref)
          (update_where (λ r. str_eq r.id p.id) (paid_row now p) rows)
        ≡ some r)
      × (is_paid r.status ≡ true)
unfolding find_row update_where by_ref paid_row is_paid
find_row-marked now ref p own [] first found same = absurd (ground arith)
find_row-marked now ref p own (x ∷ rows) first found same = elim (Bool-cases (str_eq x.id p.id)) [
  | inl hit ↦ (paid_row now p x, rw (hit, own) refl, refl)
  | inr miss ↦ elim (Bool-cases (by_ref ref x)) [
    | inl here ↦ absurd (
        let is_first : x ≡ first = ground arith in
        let no : str_eq first.id p.id ≡ false =
          subst (λ (q : Payment). str_eq q.id p.id ≡ false) is_first miss in
        ground arith)
    | inr there ↦
        (let rest = find_row-marked now ref p own rows first (ground arith) same in
          rw (miss, there) rest)
  ]
]

-- A written Update.
mark_paid-ok :
    (req : Request) (shop : Shop) (p : Payment)
    → answer (mark_paid req shop p).0 ≡ ok tt
    → mark_paid req shop p
      ≡ (ok tt, update_where (λ r. str_eq r.id p.id) (paid_row req.now p) shop.payments)
unfolding mark_paid answer paid_row update_payment_row
mark_paid-ok req shop p went = ground arith

-- A delivery whose payment is stored is settled.
notice-found :
    (req : Request) (shop : Shop) (intent : PaymentIntent) (p : Payment)
    → req.payment_fails read_by_ref ≡ false
    → is_succeeded intent.status ≡ true
    → find_row (by_ref intent.id) shop.payments ≡ some p
    → notice req shop intent ≡ settle req shop intent p
unfolding notice
notice-found req shop intent p reads success found =
    rw
      (
        notice,
        success,
        found-by_provider_ref req.payment_fails shop.payments intent.id p reads found,
      )
      refl

-- What settles a delivery leaves nothing for the next one.
module _ (req again : Request) (shop : Shop) (intent : PaymentIntent) (p : Payment)
    (reads : again.payment_fails read_by_ref ≡ false) (success : is_succeeded intent.status ≡ true)
    (found : find_row (by_ref intent.id) shop.payments ≡ some p)
    (went : (settle req shop intent p).0 ≡ ok tt) where
  Idle : Result PaymentError (Unit {0}) × Shop → Type 0
  Idle out = notice again out.1 intent ≡ (ok tt, out.1)

  settle-marked :
      is_paid p.status ≡ false → covers_payment intent p ≡ true → Idle (settle req shop intent p)
  unfolding Idle
  settle-marked e covered =
      let ends = settle-covered req shop intent p e covered in
      let written = mark_paid-ok req shop p (sym (ap (λ r. r.0) ends) ∙ went) in
      let later = paid_shop req shop p.job_id (mark_paid req shop p) in
      let own : str_eq p.provider_ref intent.id ≡ true =
        unfold by_ref in find_row-holds (by_ref intent.id) shop.payments p found in
      let first =
        find_row-marked req.now intent.id p own shop.payments p found (str_eq_refl p.id) in
      let stored : find_row (by_ref intent.id) later.payments ≡ some first.0 =
        ap (find_row (by_ref intent.id))
          (paid_shop-payments req shop p.job_id (mark_paid req shop p) ∙ ap (λ r. r.1) written)
        ∙ first.1 in
      subst Idle (sym ends) (
        notice-found again later intent first.0 reads success stored
        ∙ settle-eq_paid again later intent first.0 first.2)

  settle-twice : Idle (settle req shop intent p)
  unfolding Idle
  settle-twice = elim (Bool-cases (is_paid p.status)) [
    | inl e ↦ subst Idle (sym (settle-eq_paid req shop intent p e)) (
        notice-found again shop intent p reads success found ∙ settle-eq_paid again shop intent p e)
    | inr e ↦ elim (Bool-cases (covers_payment intent p)) [
      | inl covered ↦ settle-marked e covered
      | inr short ↦ subst Idle (sym (settle-uncovered req shop intent p e short)) (
          notice-found again shop intent p reads success found
          ∙ settle-uncovered again shop intent p e short)
    ]
  ]

-- Webhook from the intent on: once a delivery is acknowledged, a later one of the same intent,
-- whose rows can be read, is acknowledged too and changes no table.
pub notice-twice :
    (req again : Request) (shop : Shop) (intent : PaymentIntent)
    → again.payment_fails read_by_ref ≡ false
    → (notice req shop intent).0 ≡ ok tt
    → notice again (notice req shop intent).1 intent ≡ (ok tt, (notice req shop intent).1)
unfolding notice
notice-twice req again shop intent reads went = elim (Bool-cases (is_succeeded intent.status)) [
  | inr e ↦
      subst (λ out. notice again out.1 intent ≡ (ok tt, out.1))
        (sym (let ends : notice req shop intent ≡ (ok tt, shop) = rw (notice, e) refl in ends))
        (rw (notice, e) refl)
  | inl success ↦ elim (Result-cases (by_provider_ref req.payment_fails shop.payments intent.id)) [
    | inr (e, missing) ↦ absurd (
        let ends : notice req shop intent ≡ (err wrapped_failure, shop) =
          rw (notice, success, missing) refl in
        let bad = sym (ap (λ (r : Result PaymentError (Unit {0}) × Shop). r.0) ends) ∙ went in cc)
    | inl (p, stored) ↦
        let ends : notice req shop intent ≡ settle req shop intent p =
          rw (notice, success, stored) refl in
        subst (λ out. notice again out.1 intent ≡ (ok tt, out.1)) (sym ends)
          (unfold Idle in
            settle-twice req again shop intent p reads success
              (by_provider_ref-found req.payment_fails shop.payments intent.id p stored)
              (sym (ap (λ r. r.0) ends) ∙ went))
  ]
]
