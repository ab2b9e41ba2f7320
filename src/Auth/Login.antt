-- ===== src/Auth/Login.antt =====
-- internals/app/auth/service.go: the e-mailed link and code.
use sade_safe_media_delivery.Auth.Policy.{
  code_mac, is_six_digits, matches, normal_addr, signup_allowed,
}
use sade_safe_media_delivery.Auth.Start.{SignIn, after_email_step}
use sade_safe_media_delivery.Auth.State.{
  Accounts, AuthError, AuthRequest, AuthService, Client, auth_failure, drawn, invalid_code,
  invalid_email, invalid_link, sign_in_mail, wrapped, wrong_browser,
}
use sade_safe_media_delivery.Base.{
  Bool, Option, Result, Text, err, if◌then◌else◌, is_empty, lift_part, map_error, none, not, ok,
  some, str_eq, ℕ, ◌&&◌, ◌+◌, ◌>>=◌, ◌>>>◌, ◌||◌, ◌∷◌,
}
use sade_safe_media_delivery.GoText.{trim_space}
use sade_safe_media_delivery.LoginEvent.{by_code, by_link}
use sade_safe_media_delivery.MagicToken.{
  MagicToken, TokenError, bad_code, consume, consume_by_code, create, expired, not_found,
  other_browser, peek,
}
use sade_safe_media_delivery.Ratelimit.{allow_optional}
use sade_safe_media_delivery.User.{
  UserError, UserResponse, user_internal, user_invalid, user_not_found,
}
use sade_safe_media_delivery.User.Service.{ensure_by_email, find_by_email, get_user}

-- maxCodeAttempts
abbrev pub max_code_attempts : ℕ
max_code_attempts = 5

-- RequestLink, the account of the address: `none` when the sign-up policy refuses.
unfoldable pub account_for :
    AuthService → AuthRequest → Accounts → Text → Result AuthError (Option UserResponse) × Accounts
unfolding find_by_email normal_addr signup_allowed ensure_by_email wrapped
account_for s req a email = elim (find_by_email s.parse req.user_request a.users email) [
  | ok u ↦ (ok (some u), a)
  | err user_invalid ↦ (err invalid_email, a)
  | err user_internal ↦ (err auth_failure, a)
  | err user_not_found ↦
      if not (signup_allowed s (normal_addr s email))
      then (ok none, a)
      else lift_part wrapped (λ rows. record a { users = rows })
          (ensure_by_email s.parse req.user_request a.users (normal_addr s email))
        >>> λ u a1. (ok (some u), a1)
]

-- RequestLink, the row of the link.
unfoldable pub new_token :
    AuthService → AuthRequest → UserResponse → Text → Text → Text → MagicToken
unfolding code_mac
new_token s req u browser_nonce raw code = record {
  id = req.new_id;
  user_id = u.id;
  token_hash = s.hash raw;
  expires_at = req.now + s.magic_link_ttl;
  created_at = req.now;
  browser_hash = s.hash browser_nonce;
  code_hash = code_mac s (s.hash raw) code;
  attempts = 0;
}

-- RequestLink, the mail.
unfoldable pub send_link :
    AuthRequest → Accounts → UserResponse → Text → Text → Result AuthError (Unit {0}) × Accounts
send_link req a u raw code =
    if req.mail_fails
    then (err auth_failure, a)
    else (ok tt, record a { sent = sign_in_mail u.email raw code ∷ a.sent })

-- RequestLink, from the secrets on.
unfoldable pub issue :
    AuthService
    → AuthRequest
    → Accounts
    → UserResponse
    → Text
    → Result AuthError (Unit {0}) × Accounts
unfolding drawn create new_token send_link wrapped
issue s req a u browser_nonce = (drawn req.secret, a) >>> λ raw a1.
    (drawn req.code, a1) >>> λ code a2.
    lift_part wrapped (λ rows. record a2 { tokens = rows })
      (create req.token_fails a2.tokens (new_token s req u browser_nonce raw code))
    >>> λ id a3. send_link req a3 u raw code

-- RequestLink, the limit of the address.
unfoldable pub limited_issue :
    AuthService
    → AuthRequest
    → Accounts
    → UserResponse
    → Text
    → Result AuthError (Unit {0}) × Accounts
unfolding allow_optional issue
limited_issue s req a u browser_nonce =
    let asked = allow_optional a.limiter u.email req.now req.now in
    let a1 : Accounts = record a { limiter = asked.0 } in
    if asked.1 then issue s req a1 u browser_nonce else (ok tt, a1)

-- RequestLink, for the account or its absence.
unfoldable pub link_for :
    AuthService
    → AuthRequest
    → Text
    → Option UserResponse
    → Accounts
    → Result AuthError (Unit {0}) × Accounts
unfolding limited_issue
link_for s req browser_nonce none a = (ok tt, a)
link_for s req browser_nonce (some u) a = limited_issue s req a u browser_nonce

-- RequestLink
unfoldable pub request_link :
    AuthService → AuthRequest → Accounts → Text → Text → Result AuthError (Unit {0}) × Accounts
unfolding account_for link_for
request_link s req a email browser_nonce =
    if is_empty browser_nonce
    then (err auth_failure, a)
    else account_for s req a email >>> λ account a1. link_for s req browser_nonce account a1

-- The error of a link that Peek and Complete report.
unfoldable pub link_error : TokenError → AuthError
link_error not_found = invalid_link
link_error expired = invalid_link
link_error other_browser = wrong_browser
link_error _ = auth_failure

-- Peek, the errors of the repository.
unfoldable pub peek_error : TokenError → AuthError
peek_error not_found = invalid_link
peek_error expired = invalid_link
peek_error _ = auth_failure

-- Peek, the error of the account.
unfoldable pub owner_error : UserError → AuthError
owner_error user_not_found = invalid_link
owner_error _ = auth_failure

-- Peek
unfoldable pub peek_link :
    AuthService → AuthRequest → Accounts → Text → Text → Result AuthError (Text × Bool)
unfolding peek peek_error get_user owner_error str_eq
peek_link s req a raw browser_nonce =
    if is_empty raw
    then err invalid_link
    else map_error peek_error (peek req.token_fails a.tokens (s.hash raw) req.now) >>= λ mt.
        map_error owner_error (get_user req.user_request a.users mt.user_id) >>= λ u. ok (
          u.email,
          not (is_empty browser_nonce)
              && (not (is_empty mt.browser_hash) && str_eq mt.browser_hash (s.hash browser_nonce)),
        )

-- Complete
unfoldable pub complete :
    AuthService → AuthRequest → Accounts → Text → Text → Client → Result AuthError SignIn × Accounts
unfolding consume link_error after_email_step
complete s req a raw browser_nonce c =
    if is_empty browser_nonce
    then (err wrong_browser, a)
    else lift_part link_error (λ rows. record a { tokens = rows })
        (consume req.token_fails a.tokens (s.hash raw) (s.hash browser_nonce) req.now)
      >>> λ user_id a1. after_email_step s req a1 user_id by_link c

-- CompleteWithCode, the error of the account.
unfoldable pub find_error : UserError → AuthError
find_error user_internal = auth_failure
find_error _ = invalid_code

-- CompleteWithCode, the error of the code.
unfoldable pub code_error : TokenError → AuthError
code_error bad_code = invalid_code
code_error not_found = invalid_code
code_error _ = auth_failure

-- CompleteWithCode, for a code of six digits.
unfoldable pub with_code :
    AuthService
    → AuthRequest
    → Accounts
    → Text
    → Text
    → Text
    → Client
    → Result AuthError SignIn × Accounts
unfolding find_by_email find_error consume_by_code matches code_error after_email_step
with_code s req a email code browser_nonce c =
    (map_error find_error (find_by_email s.parse req.user_request a.users email), a) >>> λ u a1.
    lift_part code_error (λ rows. record a1 { tokens = rows })
      (consume_by_code req.token_fails a1.tokens u.id (s.hash browser_nonce) (matches s code)
        max_code_attempts req.now)
    >>> λ t a2. after_email_step s req a2 u.id by_code c

-- CompleteWithCode
unfoldable pub complete_with_code :
    AuthService
    → AuthRequest
    → Accounts
    → Text
    → Text
    → Text
    → Client
    → Result AuthError SignIn × Accounts
unfolding trim_space is_six_digits with_code
complete_with_code s req a email raw_code browser_nonce c =
    let code = trim_space raw_code in
    if not (is_six_digits code) || is_empty browser_nonce
    then (err invalid_code, a)
    else with_code s req a email code browser_nonce c
