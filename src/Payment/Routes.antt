-- ===== src/Payment/Routes.antt =====
-- internals/app/payment/handler.go: the routes of a recipient, and that of Stripe.
use sade_safe_media_delivery.Base.{
  Option, Result, Text, codes, err, if◌then◌else◌, length, ltb, none, ok, some, ℕ,
}
use sade_safe_media_delivery.Http.{HttpReply, refused, replied}
use sade_safe_media_delivery.Payment.Intent.{create_intent}
use sade_safe_media_delivery.Payment.Service.{
  PaymentError, PaymentService, Request, Shop, StatusResult, already_paid, invalid_token,
  payment_disabled, shut_links, wrapped_failure,
}
use sade_safe_media_delivery.Payment.Status.{status, webhook}

-- maxWebhookBody
abbrev pub max_webhook_body : ℕ
max_webhook_body = 1_048_576

-- Checkout, the reply: the client secret.
unfoldable pub checkout_reply : Result PaymentError Text × Shop → HttpReply Text × Shop
checkout_reply (ok client_secret, shop) = replied 200 client_secret shop
checkout_reply (err payment_disabled, shop) = refused 503 "payment is not configured" shop
checkout_reply (err shut_links, shop) = refused 410 "this link has been disabled" shop
checkout_reply (err invalid_token, shop) = refused 404 "not found" shop
checkout_reply (err already_paid, shop) = refused 409 "already paid" shop
checkout_reply (err wrapped_failure, shop) = refused 500 "could not start checkout" shop

-- Checkout
unfoldable pub checkout_route :
    PaymentService → Request → Shop → Option Text → HttpReply Text × Shop
unfolding create_intent checkout_reply
checkout_route s req shop none = refused 400 "invalid request body" shop
checkout_route s req shop (some tok) = checkout_reply (create_intent s req shop tok)

-- Status, the reply.
unfoldable pub payment_status_reply :
    Result PaymentError StatusResult × Shop → HttpReply StatusResult × Shop
payment_status_reply (ok result, shop) = replied 200 result shop
payment_status_reply (err shut_links, shop) = refused 410 "this link has been disabled" shop
payment_status_reply (err invalid_token, shop) = refused 404 "not found" shop
payment_status_reply (err _, shop) = refused 500 "could not load payment status" shop

-- Status
unfoldable pub payment_status_route :
    PaymentService → Request → Shop → Text → HttpReply StatusResult × Shop
unfolding status payment_status_reply
payment_status_route s req shop tok = payment_status_reply (status s req shop tok)

-- Webhook, the reply.
unfoldable pub webhook_reply : Result PaymentError (Unit {0}) × Shop → HttpReply Text × Shop
webhook_reply (ok t, shop) = replied 200 (codes "ok") shop
webhook_reply (err payment_disabled, shop) = refused 501 "webhook not configured" shop
webhook_reply (err _, shop) = refused 400 "invalid webhook" shop

-- Webhook, for the payload that was read.
unfoldable pub webhook_route :
    PaymentService → Request → Shop → Option Text → Text → HttpReply Text × Shop
unfolding webhook webhook_reply
webhook_route s req shop none sig_header = refused 400 "could not read request body" shop
webhook_route s req shop (some payload) sig_header =
    if ltb max_webhook_body (length payload)
    then refused 413 "payload too large" shop
    else webhook_reply (webhook s req shop payload sig_header)
