-- ===== src/Auth/Handler.antt =====
-- internals/app/auth/handler.go: the cookies and the sign-in routes. A body that httpx.DecodeJSON refuses
-- is `none`; what a route logs, and the headers other than Set-Cookie and Location, are left out.
use sade_safe_media_delivery.Auth.Live.{LoginView, SessionView, logout, revoke_from_alert}
use sade_safe_media_delivery.Auth.Login.{complete, complete_with_code, peek_link, request_link}
use sade_safe_media_delivery.Auth.Start.{SignIn, challenged, opened}
use sade_safe_media_delivery.Auth.State.{
  Accounts, AuthError, AuthRequest, AuthService, Client, drawn, invalid_code, invalid_email,
  invalid_link, passkeys_enabled, wrong_browser,
}
use sade_safe_media_delivery.Base.{
  Bool, List, Option, Result, Text, [], codes, err, false, if◌then◌else◌, is_empty, leb, length,
  ltb, none, not, ok, some, true, ℕ, ◌&&◌, ◌++◌, ◌+◌, ◌-◌, ◌/◌, ◌==◌, ◌||◌, ◌∷◌,
}
use sade_safe_media_delivery.Passkey.{Passkey}
use sade_safe_media_delivery.User.{UserResponse}

-- http.SameSite
pub data SameSite : Type 0 where
  strict lax : SameSite

-- http.Cookie. A MaxAge of -1, which deletes the cookie, is `none`; no Expires is 0.
pub record Cookie : Type 0 where
  pub name : Text
  pub value : Text
  pub path : Text
  pub max_age : Option ℕ
  pub expires : ℕ
  pub http_only : Bool
  pub secure : Bool
  pub same_site : SameSite

-- What a route answers with.
pub data Body : Type 0 where
  nothing : Body
  error_text status_text address : Text → Body
  redirect_to : Text → Body
  passkeys_on : Bool → Body
  peeked : Text → Bool → Body
  challenge_of : Text → Text → Body
  second_step : Text → Text → Body
  session_list : List SessionView → Body
  login_list : List LoginView → Body
  passkey_list : List Passkey → Body
  new_passkey_of : Text → Text → Body
  account_of : UserResponse → Body
  user_list : List UserResponse → Body

pub record Reply : Type 0 where
  pub status : ℕ
  pub body : Body
  pub cookies : List Cookie

-- What the handler is built with: of config.AuthConfig, the names of the cookies and the lifetime of a
-- link, and url.QueryEscape.
pub record HandlerConfig : Type 0 where
  pub session_cookie_name : Text
  pub session_cookie_secure : Bool
  pub frontend_url : Text
  pub escape : Text → Text

-- One HTTP request: its cookies, its client, the caller of a signed-in route with his session, the
-- secret that a new browser cookie gets, and what the service does during it.
pub record HttpRequest : Type 0 where
  pub auth : AuthRequest
  pub login_cookie : Option Text
  pub session_cookie_value : Option Text
  pub fresh_nonce : Option Text
  pub client : Client
  pub caller : Option (Text × Text)

-- browserCookie, the name
abbrev pub browser_cookie_name : Text
browser_cookie_name = codes "sade_login"

abbrev pub only_error : ℕ → Text → Reply
only_error status message = record { status = status; body = error_text message; cookies = [] }

abbrev pub reply_with : ℕ → Body → Reply
reply_with status body = record { status = status; body = body; cookies = [] }

-- wellFormedToken, one character.
unfoldable pub is_token_char : ℕ → Bool
is_token_char c =
    (leb b'a' c && leb c b'z')
    || ((leb b'A' c && leb c b'Z') || ((leb b'0' c && leb c b'9') || (c == b'-' || c == b'_')))

unfoldable pub all_token_chars : Text → Bool
unfolding is_token_char
all_token_chars [] = true
all_token_chars (c ∷ s) = is_token_char c && all_token_chars s

-- wellFormedToken
unfoldable pub well_formed_token : Text → Bool
unfolding all_token_chars
well_formed_token t = if ltb (length t) 16 || ltb 128 (length t) then false else all_token_chars t

-- browserNonce
unfoldable pub browser_nonce_of : HttpRequest → Text
unfolding well_formed_token
browser_nonce_of r = elim (r.login_cookie) [
  | none ↦ []
  | some value ↦ if well_formed_token value then value else []
]

-- browserCookie
unfoldable pub browser_cookie : HandlerConfig → AuthService → ℕ → Text → Cookie
browser_cookie cfg s now value = record {
  name = browser_cookie_name;
  value = value;
  path = codes "/api/auth";
  max_age = some (s.magic_link_ttl / 1_000_000_000);
  expires = now + s.magic_link_ttl;
  http_only = true;
  secure = cfg.session_cookie_secure;
  same_site = strict;
}

-- clearBrowserCookie
unfoldable pub clear_browser_cookie : HandlerConfig → Cookie
clear_browser_cookie cfg = record {
  name = browser_cookie_name;
  value = [];
  path = codes "/api/auth";
  max_age = none;
  expires = 0;
  http_only = true;
  secure = cfg.session_cookie_secure;
  same_site = strict;
}

-- sessionCookie
unfoldable pub session_cookie : HandlerConfig → ℕ → Text → ℕ → Cookie
session_cookie cfg now value exp = record {
  name = cfg.session_cookie_name;
  value = value;
  path = codes "/";
  max_age = some ((exp - now) / 1_000_000_000);
  expires = exp;
  http_only = true;
  secure = cfg.session_cookie_secure;
  same_site = lax;
}

-- clearCookie
unfoldable pub clear_cookie : HandlerConfig → Cookie
clear_cookie cfg = record {
  name = cfg.session_cookie_name;
  value = [];
  path = codes "/";
  max_age = none;
  expires = 0;
  http_only = true;
  secure = cfg.session_cookie_secure;
  same_site = lax;
}

-- Config
unfoldable pub config_route : AuthService → Reply
unfolding passkeys_enabled
config_route s = reply_with 200 (passkeys_on (passkeys_enabled s))

-- RequestLink, the browser's nonce: the one that it has, or a new one.
unfoldable pub nonce_for : HttpRequest → Result AuthError Text
unfolding browser_nonce_of drawn
nonce_for r = if is_empty (browser_nonce_of r) then drawn r.fresh_nonce else ok (browser_nonce_of r)

-- RequestLink, the reply.
unfoldable pub request_reply :
    HandlerConfig → AuthService → HttpRequest → Text → Result AuthError (Unit {0}) → Reply
unfolding browser_cookie
request_reply cfg s r nonce (ok t) = record {
  status = 202;
  body = status_text (codes "sent");
  cookies = browser_cookie cfg s r.auth.now nonce ∷ [];
}
request_reply cfg s r nonce (err invalid_email) = only_error 400 (codes "invalid email address")
request_reply cfg s r nonce (err _) = only_error 500 (codes "could not send the sign-in link")

-- RequestLink
unfoldable pub request_link_route :
    HandlerConfig → AuthService → HttpRequest → Accounts → Option Text → Reply × Accounts
unfolding nonce_for request_link request_reply
request_link_route cfg s r a none = (only_error 400 (codes "invalid request body"), a)
request_link_route cfg s r a (some email) = elim (nonce_for r) [
  | err e ↦ (only_error 500 (codes "could not send the sign-in link"), a)
  | ok nonce ↦
      let out = request_link s r.auth a email nonce in (request_reply cfg s r nonce out.0, out.1)
]

-- Callback, with ConfirmURL.
unfoldable pub callback_route : HandlerConfig → Text → Reply
unfolding well_formed_token
callback_route cfg tok =
    if not (well_formed_token tok)
    then reply_with 303 (redirect_to (cfg.frontend_url ++ codes "/login?error=invalid_link"))
    else reply_with 303
        (redirect_to (cfg.frontend_url ++ codes "/auth/confirm#token=" ++ cfg.escape tok))

-- Verify, the reply.
unfoldable pub verify_reply : Result AuthError (Text × Bool) → Reply
verify_reply (ok (email, same)) = reply_with 200 (peeked email same)
verify_reply (err invalid_link) = only_error 400 (codes "invalid or expired link")
verify_reply (err _) = only_error 500 (codes "could not check the link")

-- Verify
unfoldable pub verify_route : AuthService → HttpRequest → Accounts → Option Text → Reply
unfolding peek_link verify_reply browser_nonce_of
verify_route s r a none = only_error 400 (codes "invalid request body")
verify_route s r a (some tok) = verify_reply (peek_link s r.auth a tok (browser_nonce_of r))

-- writeSignIn
unfoldable pub write_sign_in : HandlerConfig → HttpRequest → SignIn → Reply
unfolding clear_browser_cookie session_cookie
write_sign_in cfg r (challenged id options) = record {
  status = 200;
  body = second_step id options;
  cookies = clear_browser_cookie cfg ∷ [];
}
write_sign_in cfg r (opened secret exp) = record {
  status = 200;
  body = status_text (codes "signed_in");
  cookies = clear_browser_cookie cfg ∷ session_cookie cfg r.auth.now secret exp ∷ [];
}

-- Complete, the reply.
unfoldable pub complete_reply : HandlerConfig → HttpRequest → Result AuthError SignIn → Reply
unfolding write_sign_in
complete_reply cfg r (ok res) = write_sign_in cfg r res
complete_reply cfg r (err wrong_browser) = only_error 409 (codes "other_browser")
complete_reply cfg r (err invalid_link) = only_error 400 (codes "invalid or expired link")
complete_reply cfg r (err _) = only_error 500 (codes "could not sign in")

-- Complete
unfoldable pub complete_route :
    HandlerConfig → AuthService → HttpRequest → Accounts → Option Text → Reply × Accounts
unfolding complete complete_reply browser_nonce_of
complete_route cfg s r a none = (only_error 400 (codes "invalid request body"), a)
complete_route cfg s r a (some tok) =
    let out = complete s r.auth a tok (browser_nonce_of r) r.client in
    (complete_reply cfg r out.0, out.1)

-- CompleteCode, the reply.
unfoldable pub code_reply : HandlerConfig → HttpRequest → Result AuthError SignIn → Reply
unfolding write_sign_in
code_reply cfg r (ok res) = write_sign_in cfg r res
code_reply cfg r (err invalid_code) = only_error 400 (codes "invalid or expired code")
code_reply cfg r (err _) = only_error 500 (codes "could not sign in")

-- CompleteCode
unfoldable pub code_route :
    HandlerConfig → AuthService → HttpRequest → Accounts → Option (Text × Text) → Reply × Accounts
unfolding complete_with_code code_reply browser_nonce_of
code_route cfg s r a none = (only_error 400 (codes "invalid request body"), a)
code_route cfg s r a (some (email, code)) =
    let out = complete_with_code s r.auth a email code (browser_nonce_of r) r.client in
    (code_reply cfg r out.0, out.1)

-- RevokeFromAlert, the reply.
unfoldable pub revoke_reply : HandlerConfig → Result AuthError Text → Reply
unfolding clear_cookie
revoke_reply cfg (ok email) = record {
  status = 200;
  body = address email;
  cookies = clear_cookie cfg ∷ [];
}
revoke_reply cfg (err invalid_link) = only_error 400 (codes "invalid or expired link")
revoke_reply cfg (err _) = only_error 500 (codes "could not sign out")

-- RevokeFromAlert
unfoldable pub revoke_from_alert_route :
    HandlerConfig → AuthService → HttpRequest → Accounts → Option Text → Reply × Accounts
unfolding revoke_from_alert revoke_reply
revoke_from_alert_route cfg s r a none = (only_error 400 (codes "invalid request body"), a)
revoke_from_alert_route cfg s r a (some tok) =
    let out = revoke_from_alert s r.auth a tok in (revoke_reply cfg out.0, out.1)

-- Logout. A failed service call is logged only.
unfoldable pub logout_route :
    HandlerConfig → AuthService → HttpRequest → Accounts → Reply × Accounts
unfolding logout clear_cookie
logout_route cfg s r a = (
  record { status = 204; body = nothing; cookies = clear_cookie cfg ∷ [] },
  elim (r.session_cookie_value) [ none ↦ a | some value ↦ (logout s r.auth a value).1 ],
)
