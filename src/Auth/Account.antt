-- ===== src/Auth/Account.antt =====
-- internals/app/auth/handler.go: the passkey routes, and those of a signed-in account.
use sade_safe_media_delivery.Auth.Handler.{
  Body, HandlerConfig, HttpRequest, Reply, account_of, challenge_of, clear_cookie, login_list,
  new_passkey_of, nothing, only_error, passkey_list, reply_with, session_cookie, session_list,
  status_text,
}
use sade_safe_media_delivery.Auth.Live.{activity, list_sessions, revoke_session}
use sade_safe_media_delivery.Auth.Passkeys.{
  begin_passkey_login, begin_registration, delete_passkey, finish_passkey_login,
  finish_registration, list_passkeys, set_requirement,
}
use sade_safe_media_delivery.Auth.Start.{SignIn, challenged, opened}
use sade_safe_media_delivery.Auth.State.{
  Accounts, AuthError, AuthService, invalid_passkey, no_passkey, nothing_found, passkeys_disabled,
}
use sade_safe_media_delivery.Base.{
  Bool, Option, Result, Text, [], codes, err, if◌then◌else◌, is_empty, none, ok, some, str_eq, ◌∷◌,
}
use sade_safe_media_delivery.User.{UserResponse}

-- passkeyError
unfoldable pub passkey_error : AuthError → Reply
passkey_error passkeys_disabled = only_error 501 (codes "passkeys are not available")
passkey_error invalid_passkey = only_error 400 (codes "passkey verification failed")
passkey_error _ = only_error 500 (codes "passkey operation failed")

-- The challenge that a passkey route answers with.
unfoldable pub challenge_reply : Result AuthError SignIn → Reply
unfolding passkey_error
challenge_reply (ok (challenged id options)) = reply_with 200 (challenge_of id options)
challenge_reply (ok (opened secret exp)) = reply_with 200 nothing
challenge_reply (err e) = passkey_error e

-- PasskeyLoginBegin
unfoldable pub passkey_login_begin_route : AuthService → HttpRequest → Accounts → Reply × Accounts
unfolding begin_passkey_login challenge_reply
passkey_login_begin_route s r a =
    let out = begin_passkey_login s r.auth a in (challenge_reply out.0, out.1)

-- PasskeyLoginFinish, the reply.
unfoldable pub finish_reply : HandlerConfig → HttpRequest → Result AuthError SignIn → Reply
unfolding session_cookie passkey_error
finish_reply cfg r (ok (opened secret exp)) = record {
  status = 200;
  body = status_text (codes "signed_in");
  cookies = session_cookie cfg r.auth.now secret exp ∷ [];
}
finish_reply cfg r (ok (challenged id options)) = reply_with 200 nothing
finish_reply cfg r (err e) = passkey_error e

-- PasskeyLoginFinish
unfoldable pub passkey_login_finish_route :
    HandlerConfig → AuthService → HttpRequest → Accounts → Option (Text × Text) → Reply × Accounts
unfolding finish_passkey_login finish_reply
passkey_login_finish_route cfg s r a none = (only_error 400 (codes "invalid request body"), a)
passkey_login_finish_route cfg s r a (some (ceremony_id, response)) =
    let out = finish_passkey_login s r.auth a ceremony_id response r.client in
    (finish_reply cfg r out.0, out.1)

-- callerFrom
unfoldable pub caller_of : HttpRequest → Option (Text × Text)
caller_of r = elim (r.caller) [
  | none ↦ none
  | some (user_id, session_id) ↦ if is_empty user_id then none else some (user_id, session_id)
]

-- The check that every route of an account starts with: the id of the account and of the session.
unfoldable pub signed_in {ℓ} :
    {S : Type ℓ} → HttpRequest → S → (Text → Text → Reply × S) → Reply × S
unfolding caller_of
signed_in r a f = elim (caller_of r) [
  | none ↦ (only_error 401 (codes "not signed in"), a)
  | some (user_id, session_id) ↦ f user_id session_id
]

-- A list, or an error that is logged.
unfoldable pub list_reply {ℓ} : {A : Type ℓ} → (A → Body) → Text → Result AuthError A → Reply
list_reply body message (ok rows) = reply_with 200 (body rows)
list_reply body message (err e) = only_error 500 message

-- Sessions
unfoldable pub sessions_route : HttpRequest → Accounts → Reply × Accounts
unfolding signed_in list_sessions list_reply
sessions_route r a = signed_in r a (λ user_id session_id. (
  list_reply session_list (codes "could not list sessions")
      (list_sessions r.auth a user_id session_id),
  a,
))

-- RevokeSession, the reply.
unfoldable pub ended_reply : HandlerConfig → Bool → Result AuthError (Unit {0}) → Reply
unfolding clear_cookie
ended_reply cfg is_current (ok t) = record {
  status = 204;
  body = nothing;
  cookies = if is_current then clear_cookie cfg ∷ [] else [];
}
ended_reply cfg is_current (err nothing_found) = only_error 404 (codes "session not found")
ended_reply cfg is_current (err _) = only_error 500 (codes "could not end the session")

-- RevokeSession
unfoldable pub revoke_session_route :
    HandlerConfig → HttpRequest → Accounts → Text → Reply × Accounts
unfolding signed_in revoke_session ended_reply str_eq
revoke_session_route cfg r a id = signed_in r a (λ user_id session_id.
    let out = revoke_session r.auth a user_id id in
    (ended_reply cfg (str_eq id session_id) out.0, out.1))

-- Activity
unfoldable pub activity_route : AuthService → HttpRequest → Accounts → Reply × Accounts
unfolding signed_in activity list_reply
activity_route s r a = signed_in r a (λ user_id session_id.
    (list_reply login_list (codes "could not list activity") (activity s r.auth a user_id), a))

-- Passkeys
unfoldable pub passkeys_route : AuthService → HttpRequest → Accounts → Reply × Accounts
unfolding signed_in list_passkeys list_reply
passkeys_route s r a = signed_in r a (λ user_id session_id. (
  list_reply passkey_list (codes "could not list passkeys") (list_passkeys s r.auth a user_id),
  a,
))

-- PasskeyRegisterBegin
unfoldable pub register_begin_route : AuthService → HttpRequest → Accounts → Reply × Accounts
unfolding signed_in begin_registration challenge_reply
register_begin_route s r a = signed_in r a (λ user_id session_id.
    let out = begin_registration s r.auth a user_id in (challenge_reply out.0, out.1))

-- PasskeyRegisterFinish, the reply.
unfoldable pub registered_reply : Result AuthError (Text × Text) → Reply
unfolding passkey_error
registered_reply (ok (id, name)) = reply_with 201 (new_passkey_of id name)
registered_reply (err e) = passkey_error e

-- PasskeyRegisterFinish, for a body that was read: the ceremony, the name and the credential.
unfoldable pub register_finish_route :
    AuthService → HttpRequest → Accounts → Option (Text × Text × Text) → Reply × Accounts
unfolding signed_in finish_registration registered_reply
register_finish_route s r a body = signed_in r a (λ user_id session_id. elim body [
  | none ↦ (only_error 400 (codes "invalid request body"), a)
  | some (ceremony_id, name, response) ↦
      let out = finish_registration s r.auth a user_id ceremony_id name response in
      (registered_reply out.0, out.1)
])

-- DeletePasskey, the reply.
unfoldable pub deleted_reply : Result AuthError (Unit {0}) → Reply
unfolding passkey_error
deleted_reply (ok t) = reply_with 204 nothing
deleted_reply (err nothing_found) = only_error 404 (codes "passkey not found")
deleted_reply (err e) = passkey_error e

-- DeletePasskey
unfoldable pub delete_passkey_route : AuthService → HttpRequest → Accounts → Text → Reply × Accounts
unfolding signed_in delete_passkey deleted_reply
delete_passkey_route s r a id = signed_in r a (λ user_id session_id.
    let out = delete_passkey s r.auth a user_id id in (deleted_reply out.0, out.1))

-- RequirePasskey, the reply.
unfoldable pub required_reply : Result AuthError UserResponse → Reply
unfolding passkey_error
required_reply (ok u) = reply_with 200 (account_of u)
required_reply (err no_passkey) = only_error 409 (codes "add a passkey first")
required_reply (err e) = passkey_error e

-- RequirePasskey
unfoldable pub require_passkey_route :
    AuthService → HttpRequest → Accounts → Option Bool → Reply × Accounts
unfolding signed_in set_requirement required_reply
require_passkey_route s r a body = signed_in r a (λ user_id session_id. elim body [
  | none ↦ (only_error 400 (codes "invalid request body"), a)
  | some on ↦ let out = set_requirement s r.auth a user_id on in (required_reply out.0, out.1)
])
