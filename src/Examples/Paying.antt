-- ===== src/Examples/Paying.antt =====
-- The use cases of internals/app/payment at a concrete shop.
use sade_safe_media_delivery.Asset.{Asset, Kind, original, preview}
use sade_safe_media_delivery.Base.{
  Text, [], codes, count_where, err, false, find_row, none, ok, refl, select, some, sort_by, str_eq,
  true, update_where, ◌++◌, ◌∷◌, ◌≡◌, ◌⊎◌,
}
use sade_safe_media_delivery.Examples.Claiming.{job_row}
use sade_safe_media_delivery.Job.{done}
use sade_safe_media_delivery.Job.Repo.{has_paid_payment}
use sade_safe_media_delivery.Payment.{Payment, PaymentStatus, paid, unpaid}
use sade_safe_media_delivery.Payment.Intent.{create_intent}
use sade_safe_media_delivery.Payment.Once.{create_intent-has_paid_payment, status-has_paid_payment}
use sade_safe_media_delivery.Payment.Refused.{webhook_route-refused}
use sade_safe_media_delivery.Payment.Routes.{webhook_route}
use sade_safe_media_delivery.Payment.Service.{
  Gateway, PaymentIntent, PaymentService, Request, Shop, StatusResult, already_paid, enabled,
  mark_paid, paid_shop, resolve_preview, succeeded,
}
use sade_safe_media_delivery.Payment.Status.{answer, notice, status, webhook}
use sade_safe_media_delivery.Payment.Twice.{notice-twice}
use sade_safe_media_delivery.Payment.Unlock.{Honoured, webhook-Settled}
use sade_safe_media_delivery.Token.{Signer}

-- A signer whose tokens are their subjects.
abbrev pub open_signer : Signer
open_signer = record {
  verify = λ now purpose tok. ok tok;
  sign = λ now purpose subject ttl. ok subject;
}

abbrev intent : PaymentIntent
intent = record {
  id = codes "pi1";
  client_secret = codes "secret";
  status = succeeded;
  amount = 500;
  amount_received = 500;
  currency = codes "EUR";
}

abbrev gateway : Gateway
gateway = record {
  retrieve = λ ref. some intent;
  create = λ payment_id job_id amount currency. some intent;
  construct_event = λ payload sig_header secret.
      some (record { event_type = codes "payment_intent.succeeded"; raw = payload });
  decode_intent = λ raw. some intent;
}

abbrev pub service : PaymentService
service = record {
  signer = open_signer;
  gateway = gateway;
  cfg = record {
    stripe_secret_key = codes "sk";
    stripe_publishable_key = codes "pk";
    stripe_webhook_secret = codes "wh";
    price_cents = 500;
    currency = codes "eur";
  };
  public_url = codes "https://sade";
  share_ttl = 60;
}

abbrev pub asset_row : Text → Kind → Asset
asset_row id kind = record {
  id = id;
  job_id = codes "j1";
  kind = kind;
  storage_key = id;
  filename = codes "a.mp4";
  mime = codes "video/mp4";
  size_bytes = 9;
  checksum = [];
  created_at = 1;
}

abbrev pending_row : Payment
pending_row = record {
  id = codes "p1";
  job_id = codes "j1";
  provider_ref = codes "pi1";
  status = unpaid;
  amount_cents = 500;
  currency = codes "eur";
  created_at = 1;
  updated_at = 1;
}

abbrev shop_with : PaymentStatus → Shop
shop_with status = record {
  assets = asset_row (codes "o") original ∷ asset_row (codes "p") preview ∷ [];
  jobs = record (job_row "j1" 1) { status = done } ∷ [];
  payments = record pending_row { status = status } ∷ [];
  events = [];
}

abbrev request : Request
request = record {
  asset_fails = λ s. false;
  job_fails = λ s. false;
  payment_fails = λ s. false;
  event_fails = λ s. false;
  now = 7;
  payment_id = codes "p2";
  event_id = codes "e1";
  is_wired = true;
}

create_intent-has_paid_payment_example :
    create_intent service request (shop_with paid) (codes "p") ≡ (err already_paid, shop_with paid)
unfolding enabled resolve_preview has_paid_payment find_row sort_by select str_eq count_where
create_intent-has_paid_payment_example =
    create_intent-has_paid_payment service request (shop_with paid) (codes "p")
      (asset_row (codes "p") preview) (asset_row (codes "o") original) refl refl refl refl

status-has_paid_payment_example :
    (r : StatusResult) × (status service request (shop_with paid) (codes "p")
      ≡ (ok r, shop_with paid))
    × (r.has_paid ≡ true)
    × (r.original_url ≡ codes "https://sade" ++ codes "/o/" ++ codes "o")
unfolding enabled resolve_preview has_paid_payment find_row sort_by select str_eq count_where
status-has_paid_payment_example =
    status-has_paid_payment service request (shop_with paid) (codes "p") (codes "o")
      (asset_row (codes "p") preview) (asset_row (codes "o") original) refl refl refl refl refl

notice-twice_example :
    notice request (notice request (shop_with unpaid) intent).1 intent
    ≡ (ok tt, (notice request (shop_with unpaid) intent).1)
unfolding notice find_row str_eq count_where update_where
notice-twice_example = notice-twice request request (shop_with unpaid) intent refl refl

webhook-Settled_example :
    ((webhook service request (shop_with unpaid) [] []).1 ≡ shop_with unpaid)
    ⊎ ((h : Honoured service request (shop_with unpaid) [] []) × (webhook service request
            (shop_with unpaid)
            []
            []
          ≡ (
            answer (mark_paid request (shop_with unpaid) h.p).0,
            paid_shop request
                (shop_with unpaid)
                (h.p.job_id)
                (mark_paid request (shop_with unpaid) h.p),
          )))
webhook-Settled_example = webhook-Settled service request (shop_with unpaid) [] []

-- The service of a gateway that takes every signature for a forgery.
abbrev strict : PaymentService
strict = record service {
  gateway = record gateway { construct_event = λ payload sig_header secret. none };
}

webhook_route-refused_example :
    (webhook_route strict request (shop_with unpaid) (some (codes "{}")) (codes "t=1")).1
    ≡ shop_with unpaid
unfolding webhook webhook_route
webhook_route-refused_example =
    webhook_route-refused strict request (shop_with unpaid) (some (codes "{}")) (codes "t=1") refl
