-- ===== src/Payment.antt =====
-- internals/app/payment: the rows of the payments table and its repository. The service is in the
-- module Payment.Service.
pub mod Service
pub mod Status
pub mod Routes
pub mod Refused
pub mod Intent
pub mod Once
pub mod Unlock
pub mod Twice
use sade_safe_media_delivery.Base.{
  Bool, List, Result, Text, [], count_where, err, false, find_row, if◌then◌else◌, ltb, none, ok,
  select, some, sort_by, str_eq, true, update_where, ℕ, ◌++◌, ◌==◌, ◌>>=◌, ◌∷◌,
}

pub data PaymentStatus : Type 0 where
  unpaid paid failed_payment refunded : PaymentStatus

unfoldable pub is_paid : PaymentStatus → Bool
is_paid paid = true
is_paid _ = false

unfoldable pub is_unpaid : PaymentStatus → Bool
is_unpaid unpaid = true
is_unpaid _ = false

-- The provider is always ProviderStripe.
pub record Payment : Type 0 where
  pub id : Text
  pub job_id : Text
  pub provider_ref : Text
  pub status : PaymentStatus
  pub amount_cents : ℕ
  pub currency : Text
  pub created_at : ℕ
  pub updated_at : ℕ

pub data PaymentStmt : Type 0 where
  insert_payment read_payments read_by_ref update_payment : PaymentStmt

abbrev pub PaymentOutage : Type 0
PaymentOutage = PaymentStmt → Bool

-- ErrNotFound, and any other error of the database.
pub data PaymentRepoError : Type 0 where
  payment_not_found payment_internal : PaymentRepoError

-- Create. The database gives the row its id and its times.
unfoldable pub create_payment :
    PaymentOutage → Text → ℕ → List Payment → Payment → Result PaymentRepoError Text × List Payment
create_payment fails id now payments p =
    if fails insert_payment
    then (err payment_internal, payments)
    else (ok id, payments ++ record p { id = id; created_at = now; updated_at = now } ∷ [])

-- ListByJob, newest first.
unfoldable pub list_payments :
    PaymentOutage → List Payment → Text → Result PaymentRepoError (List Payment)
list_payments fails payments job_id =
    if fails read_payments
    then err payment_internal
    else ok (
        sort_by (λ a b. ltb b.created_at a.created_at)
          (select (λ p. str_eq p.job_id job_id) payments))

-- The end of LatestByJob.
unfoldable pub newest : List Payment → Result PaymentRepoError Payment
newest [] = err payment_not_found
newest (p ∷ ps) = ok p

-- LatestByJob
unfoldable pub latest_by_job : PaymentOutage → List Payment → Text → Result PaymentRepoError Payment
unfolding list_payments newest
latest_by_job fails payments job_id = list_payments fails payments job_id >>= newest

-- ByProviderRef. A failed read leaves the slice empty, so it is reported as a missing row too.
unfoldable pub by_provider_ref :
    PaymentOutage → List Payment → Text → Result PaymentRepoError Payment
by_provider_ref fails payments ref =
    if fails read_by_ref
    then err payment_not_found
    else elim (find_row (λ p. str_eq p.provider_ref ref) payments) [
      | none ↦ err payment_not_found
      | some p ↦ ok p
    ]

-- Update writes every column of the row with the id of `p`.
unfoldable pub update_payment_row :
    PaymentOutage → ℕ → List Payment → Payment → Result PaymentRepoError (Unit {0}) × List Payment
update_payment_row fails now payments p =
    if fails update_payment
    then (err payment_internal, payments)
    else if count_where (λ r. str_eq r.id p.id) payments == 0
    then (err payment_not_found, payments)
    else (
      ok tt,
      update_where (λ r. str_eq r.id p.id)
          (λ r. record p { created_at = r.created_at; updated_at = now }) payments,
    )
