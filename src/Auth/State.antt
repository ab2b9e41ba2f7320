-- ===== src/Auth/State.antt =====
-- internals/app/auth: the fields of the service, the tables that it works on, and one request. The
-- instants that a request reads from the clock are one instant here.
use sade_safe_media_delivery.Base.{
  Bool, List, Option, Result, Text, err, false, none, ok, some, true, ℕ,
}
use sade_safe_media_delivery.LoginEvent.{LoginEvent, LoginOutage}
use sade_safe_media_delivery.MagicToken.{MagicToken, Outage}
use sade_safe_media_delivery.Passkey.{Passkey, PasskeyOutage}
use sade_safe_media_delivery.Ratelimit.{Limiter}
use sade_safe_media_delivery.Session.{Session, SessionOutage}
use sade_safe_media_delivery.Token.{Signer}
use sade_safe_media_delivery.User.{User, UserResponse}
use sade_safe_media_delivery.User.Service.{UserRequest}

-- The errors of the package, and any other error.
pub data AuthError : Type 0 where
  invalid_email invalid_link no_session session_expired wrong_browser invalid_code : AuthError
  passkeys_disabled invalid_passkey no_passkey nothing_found auth_failure : AuthError

pub record Client : Type 0 where
  pub user_agent : Text
  pub ip : Text

-- ceremonyKind
pub data CeremonyKind : Type 0 where
  registering signing_in second_factor : CeremonyKind

-- ceremony, with the key that it has in the map.
pub record Ceremony : Type 0 where
  pub id : Text
  pub kind : CeremonyKind
  pub user_id : Text
  pub session_data : Text
  pub expires : ℕ

-- An e-mail of the package: the sign-in link with its code, or the new-device alert with the token
-- of its link.
pub data Mail : Type 0 where
  sign_in_mail : Text → Text → Text → Mail
  alert_mail : Text → Option Text → Mail

-- The account that go-webauthn sees, with its credentials.
pub record WaUser : Type 0 where
  pub account : UserResponse
  pub credentials : List Text

-- The calls of go-webauthn. `none` is an error. A challenge is the options for the browser and the
-- session data; a credential is its id and its JSON. A discoverable login calls back for the account
-- of the user handle that the assertion names, and gives that handle back.
pub record WebAuthn : Type 0 where
  pub begin_registration : WaUser → Option (Text × Text)
  pub create_credential : WaUser → Text → Text → Option (Text × Text)
  pub begin_login : WaUser → Option (Text × Text)
  pub begin_discoverable : Option (Text × Text)
  pub parse_creation : Text → Option Text
  pub parse_assertion : Text → Option Text
  pub validate_login : WaUser → Text → Text → Option (Text × Text)
  pub validate_discoverable : (Text → Option WaUser) → Text → Text → Option (Text × Text × Text)
  pub decode_credential : Text → Option Text

-- What the service is built with. `hash` is SHA-256 in hexadecimal, `mac` the HMAC with the server's
-- secret, `parse` net/mail's ParseAddress. `webauthn` is there when passkeys are on, `has_events`
-- says that the history is.
pub record AuthService : Type 0 where
  pub hash : Text → Text
  pub mac : Text → Text
  pub parse : Text → Option Text
  pub webauthn : Option WebAuthn
  pub signer : Option Signer
  pub has_events : Bool
  pub magic_link_ttl : ℕ
  pub session_ttl : ℕ
  pub signup_mode : Text
  pub allowed_emails : List Text
  pub allowed_domains : List Text

-- The tables, the open ceremonies, the limiter of the addresses, and the mails that were sent, newest
-- first.
pub record Accounts : Type 0 where
  pub users : List User
  pub tokens : List MagicToken
  pub sessions : List Session
  pub logins : List LoginEvent
  pub passkeys : List Passkey
  pub ceremonies : List Ceremony
  pub limiter : Option Limiter
  pub sent : List Mail

-- One request: what fails during it, its instant, the secrets that it draws (`none` when the source
-- of randomness fails), and the ids that the database gives.
pub record AuthRequest : Type 0 where
  pub user_request : UserRequest
  pub token_fails : Outage
  pub session_fails : SessionOutage
  pub login_fails : LoginOutage
  pub passkey_fails : PasskeyOutage
  pub mail_fails : Bool
  pub now : ℕ
  pub secret : Option Text
  pub code : Option Text
  pub new_id : Text

-- An error of another package, wrapped.
unfoldable pub wrapped {ℓ} : {E : Type ℓ} → E → AuthError
wrapped e = auth_failure

-- PasskeysEnabled
unfoldable pub passkeys_enabled : AuthService → Bool
passkeys_enabled s = elim (s.webauthn) [ none ↦ false | some w ↦ true ]

-- The result of `secret` and `sixDigits`.
unfoldable pub drawn : Option Text → Result AuthError Text
drawn none = err auth_failure
drawn (some s) = ok s
