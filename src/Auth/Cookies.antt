-- ===== src/Auth/Cookies.antt =====
-- The session cookie of the sign-in routes (internals/app/auth/handler.go).
use mathlib.Core.Path.{subst}
use sade_safe_media_delivery.Auth.Account.{finish_reply, passkey_error, passkey_login_finish_route}
use sade_safe_media_delivery.Auth.Handler.{
  Cookie, HandlerConfig, HttpRequest, Reply, browser_nonce_of, clear_browser_cookie, code_reply,
  code_route, complete_reply, complete_route, session_cookie, write_sign_in,
}
use sade_safe_media_delivery.Auth.Login.{complete, complete_with_code}
use sade_safe_media_delivery.Auth.Passkeys.{finish_passkey_login}
use sade_safe_media_delivery.Auth.Second.{complete-opened}
use sade_safe_media_delivery.Auth.Start.{SignIn, challenged, opened}
use sade_safe_media_delivery.Auth.State.{
  Accounts, AuthError, AuthService, WebAuthn, auth_failure, invalid_code, invalid_email,
  invalid_link, invalid_passkey, no_passkey, no_session, nothing_found, passkeys_disabled,
  session_expired, wrong_browser,
}
use sade_safe_media_delivery.Base.{
  Bool, Option, Result, Text, arith, err, false, find_row, none, ok, refl, some, true, ℕ, ◌∙◌, ◌≡◌,
}
use sade_safe_media_delivery.MagicToken.{consume}
use sade_safe_media_delivery.Share.Operator.{load}
use sade_safe_media_delivery.User.{UserResponse}
use sade_safe_media_delivery.User.Service.{get_user}

-- A sign-in: by the link, by the code of the mail, or by a passkey.
pub data Attempt : Type 0 where
  with_link : Text → Attempt
  with_mailed_code : Text → Text → Attempt
  with_passkey : Text → Text → Attempt

-- The route of a sign-in.
unfoldable pub login_route :
    HandlerConfig → AuthService → HttpRequest → Accounts → Attempt → Reply × Accounts
unfolding complete_route code_route passkey_login_finish_route
login_route cfg s r a (with_link tok) = complete_route cfg s r a (some tok)
login_route cfg s r a (with_mailed_code email code) = code_route cfg s r a (some (email, code))
login_route cfg s r a (with_passkey id response) =
    passkey_login_finish_route cfg s r a (some (id, response))

-- What the service answers to it.
unfoldable pub login_answer :
    AuthService → HttpRequest → Accounts → Attempt → Result AuthError SignIn
unfolding complete complete_with_code finish_passkey_login browser_nonce_of
login_answer s r a (with_link tok) = (complete s r.auth a tok (browser_nonce_of r) r.client).0
login_answer s r a (with_mailed_code email code) =
    (complete_with_code s r.auth a email code (browser_nonce_of r) r.client).0
login_answer s r a (with_passkey id response) =
    (finish_passkey_login s r.auth a id response r.client).0

-- Whether a cookie is to be kept by the browser.
abbrev pub is_live : Cookie → Bool
is_live c = elim (c.max_age) [ none ↦ false | some seconds ↦ true ]

-- The cookie that a reply gives the browser, if any.
abbrev pub live_cookie : Reply → Option Cookie
live_cookie reply = find_row is_live reply.cookies

-- The cookie of the session that the service opened, if it did.
abbrev pub session_of : HandlerConfig → HttpRequest → Result AuthError SignIn → Option Cookie
session_of cfg r (ok (opened secret exp)) = some (session_cookie cfg r.auth.now secret exp)
session_of cfg r (ok (challenged id options)) = none
session_of cfg r (err e) = none

complete_reply-live :
    (cfg : HandlerConfig) (r : HttpRequest) (out : Result AuthError SignIn)
    → live_cookie (complete_reply cfg r out) ≡ session_of cfg r out
unfolding complete_reply find_row write_sign_in clear_browser_cookie session_cookie
complete_reply-live cfg r (ok (opened secret exp)) = refl
complete_reply-live cfg r (ok (challenged id options)) = refl
complete_reply-live cfg r (err invalid_email) = refl
complete_reply-live cfg r (err invalid_link) = refl
complete_reply-live cfg r (err no_session) = refl
complete_reply-live cfg r (err session_expired) = refl
complete_reply-live cfg r (err wrong_browser) = refl
complete_reply-live cfg r (err invalid_code) = refl
complete_reply-live cfg r (err passkeys_disabled) = refl
complete_reply-live cfg r (err invalid_passkey) = refl
complete_reply-live cfg r (err no_passkey) = refl
complete_reply-live cfg r (err nothing_found) = refl
complete_reply-live cfg r (err auth_failure) = refl

code_reply-live :
    (cfg : HandlerConfig) (r : HttpRequest) (out : Result AuthError SignIn)
    → live_cookie (code_reply cfg r out) ≡ session_of cfg r out
unfolding code_reply find_row write_sign_in clear_browser_cookie session_cookie
code_reply-live cfg r (ok (opened secret exp)) = refl
code_reply-live cfg r (ok (challenged id options)) = refl
code_reply-live cfg r (err invalid_email) = refl
code_reply-live cfg r (err invalid_link) = refl
code_reply-live cfg r (err no_session) = refl
code_reply-live cfg r (err session_expired) = refl
code_reply-live cfg r (err wrong_browser) = refl
code_reply-live cfg r (err invalid_code) = refl
code_reply-live cfg r (err passkeys_disabled) = refl
code_reply-live cfg r (err invalid_passkey) = refl
code_reply-live cfg r (err no_passkey) = refl
code_reply-live cfg r (err nothing_found) = refl
code_reply-live cfg r (err auth_failure) = refl

finish_reply-live :
    (cfg : HandlerConfig) (r : HttpRequest) (out : Result AuthError SignIn)
    → live_cookie (finish_reply cfg r out) ≡ session_of cfg r out
unfolding finish_reply find_row session_cookie passkey_error
finish_reply-live cfg r (ok (opened secret exp)) = refl
finish_reply-live cfg r (ok (challenged id options)) = refl
finish_reply-live cfg r (err invalid_email) = refl
finish_reply-live cfg r (err invalid_link) = refl
finish_reply-live cfg r (err no_session) = refl
finish_reply-live cfg r (err session_expired) = refl
finish_reply-live cfg r (err wrong_browser) = refl
finish_reply-live cfg r (err invalid_code) = refl
finish_reply-live cfg r (err passkeys_disabled) = refl
finish_reply-live cfg r (err invalid_passkey) = refl
finish_reply-live cfg r (err no_passkey) = refl
finish_reply-live cfg r (err nothing_found) = refl
finish_reply-live cfg r (err auth_failure) = refl

-- A sign-in route gives the browser a cookie to keep exactly when the service opened a session, and it is
-- the cookie of that session: a failed attempt, or one that waits for a passkey, gives none.
pub login_route-live :
    (cfg : HandlerConfig) (s : AuthService) (r : HttpRequest) (a : Accounts) (t : Attempt)
    → live_cookie (login_route cfg s r a t).0 ≡ session_of cfg r (login_answer s r a t)
unfolding login_route login_answer complete_route code_route passkey_login_finish_route
login_route-live cfg s r a (with_link tok) =
    complete_reply-live cfg r (complete s r.auth a tok (browser_nonce_of r) r.client).0
login_route-live cfg s r a (with_mailed_code email code) =
    code_reply-live cfg r (complete_with_code s r.auth a email code (browser_nonce_of r) r.client).0
login_route-live cfg s r a (with_passkey id response) =
    finish_reply-live cfg r (finish_passkey_login s r.auth a id response r.client).0

not_opened :
    (cfg : HandlerConfig) (r : HttpRequest) (out : Result AuthError SignIn)
    → ((secret : Text) (exp : ℕ) → out ≡ ok (opened secret exp) → ⊥)
    → session_of cfg r out ≡ none
not_opened cfg r (ok (opened secret exp)) h = absurd (h secret exp refl)
not_opened cfg r (ok (challenged id options)) h = refl
not_opened cfg r (err e) h = refl

-- One account cannot both ask for a passkey and not.
asks_once :
    {E F : Type 0} {A B : Type 0} (spent : Result E A) (load : A → Result F B) (flag : B → Bool)
    {id id' : A} {u u' : B}
    → spent ≡ ok id
    → spent ≡ ok id'
    → load id ≡ ok u
    → load id' ≡ ok u'
    → flag u ≡ true
    → flag u' ≡ false
    → ⊥
asks_once spent load flag {id} {id'} {u} {u'} a b c d e f =
    let same : id ≡ id' = cc in
    let loaded : load id' ≡ ok u = subst (λ k. load k ≡ ok u) same c in
    let account : u ≡ u' = cc in
    let asked : flag u' ≡ true = subst (λ v. flag v ≡ true) account e in ground (arith, asked, f)

-- When passkeys are on, the link of an account that asks for one gives the browser no cookie to keep.
pub complete_route-guarded :
    (cfg : HandlerConfig) (s : AuthService) (w : WebAuthn) (r : HttpRequest) (a : Accounts)
    (tok id : Text) (u : UserResponse)
    → s.webauthn ≡ some w
    → (consume r.auth.token_fails a.tokens (s.hash tok) (s.hash (browser_nonce_of r)) r.auth.now).0
      ≡ ok id
    → get_user r.auth.user_request a.users id ≡ ok u
    → u.require_passkey ≡ true
    → live_cookie (complete_route cfg s r a (some tok)).0 ≡ none
unfolding login_route login_answer
complete_route-guarded cfg s w r a tok id u on spent found asked =
    login_route-live cfg s r a (with_link tok)
    ∙ not_opened cfg r (login_answer s r a (with_link tok)) (λ secret exp h.
      let other = complete-opened s w r.auth a tok (browser_nonce_of r) r.client on h in
      asks_once
        (consume r.auth.token_fails a.tokens (s.hash tok) (s.hash (browser_nonce_of r))
          r.auth.now).0
        (get_user r.auth.user_request a.users) (λ v. v.require_passkey) spent other.1 found other.3
        asked other.4)
