-- ===== src/Auth/Start.antt =====
-- internals/app/auth: the session that ends a sign-in (service.go), its record and alert (devices.go),
-- and the passkey step in front of it (passkeys.go). The alert is sent before the request ends.
use sade_safe_media_delivery.Auth.Ceremony.{put}
use sade_safe_media_delivery.Auth.State.{
  Accounts, AuthError, AuthRequest, AuthService, CeremonyKind, Client, WaUser, WebAuthn, alert_mail,
  auth_failure, drawn, second_factor, wrapped,
}
use sade_safe_media_delivery.Base.{
  Bool, List, Option, Result, Text, [], codes, err, false, if◌then◌else◌, is_empty, leb, length,
  lift_part, map_error, none, not, ok, some, take, true, ℕ, ◌*◌, ◌+◌, ◌-◌, ◌>>=◌, ◌>>>◌, ◌||◌, ◌∷◌,
}
use sade_safe_media_delivery.LoginEvent.{Method, create_login, recent, seen_user_agent}
use sade_safe_media_delivery.Passkey.{Passkey, passkeys_of}
use sade_safe_media_delivery.Session.{Session, create_session}
use sade_safe_media_delivery.User.{UserResponse}
use sade_safe_media_delivery.User.Service.{get_user}

-- knownDeviceWindow
abbrev pub known_device_window : ℕ
known_device_window = 90 * 24 * 3600 * 1_000_000_000

-- revokeLinkTTL
abbrev pub revoke_link_ttl : ℕ
revoke_link_ttl = 7 * 24 * 3600 * 1_000_000_000

-- truncate
unfoldable pub cut_off : Text → ℕ → Text
cut_off s n = if leb (length s) n then s else take n s

-- The user agent that the tables hold.
unfoldable pub agent_of : Client → Text
unfolding cut_off
agent_of c = cut_off c.user_agent 512

-- The link of the alert.
unfoldable pub revoke_token : AuthService → AuthRequest → Text → Option Text
revoke_token s req user_id = elim (s.signer) [
  | none ↦ none
  | some sg ↦ elim (sg.sign req.now (codes "revoke-sessions") user_id revoke_link_ttl) [
    | err e ↦ none
    | ok tok ↦ some tok
  ]
]

-- sendNewDeviceAlert
unfoldable pub send_alert : AuthService → AuthRequest → Accounts → UserResponse → Accounts
unfolding revoke_token
send_alert s req a u =
    if req.mail_fails
    then a
    else record a { sent = alert_mail u.email (revoke_token s req u.id) ∷ a.sent }

-- recordSignIn: whether the browser is known; a failed read counts as known.
unfoldable pub is_known : AuthRequest → Accounts → Text → Text → Bool
unfolding seen_user_agent
is_known req a user_id agent =
    elim (seen_user_agent req.login_fails a.logins user_id agent (req.now - known_device_window)) [
      | err e ↦ true
      | ok seen ↦ seen
    ]

-- recordSignIn: whether the account has no sign-in yet.
unfoldable pub is_first : AuthRequest → Accounts → Text → Bool
unfolding recent
is_first req a user_id = elim (recent req.login_fails a.logins user_id 1) [
  | err e ↦ false
  | ok events ↦ is_empty events
]

-- recordSignIn, the row.
unfoldable pub write_login : AuthRequest → Accounts → UserResponse → Method → Client → Accounts
unfolding create_login agent_of
write_login req a u method c = record a {
  logins =
      (create_login req.login_fails req.new_id req.now a.logins (record {
        id = [];
        user_id = u.id;
        method = method;
        user_agent = agent_of c;
        ip = c.ip;
        created_at = 0;
      })).1;
}

-- recordSignIn
unfoldable pub record_sign_in :
    AuthService → AuthRequest → Accounts → UserResponse → Method → Client → Accounts
unfolding is_known is_first write_login send_alert agent_of
record_sign_in s req a u method c =
    let quiet = is_known req a u.id (agent_of c) || is_first req a u.id in
    let written = write_login req a u method c in
    if not s.has_events then a else if quiet then written else send_alert s req written u

-- SignIn: a session with its secret and expiry, or a challenge with its id and options.
pub data SignIn : Type 0 where
  opened : Text → ℕ → SignIn
  challenged : Text → Text → SignIn

-- startSession, the row.
unfoldable pub new_session : AuthService → AuthRequest → UserResponse → Client → Text → Session
unfolding agent_of
new_session s req u c secret = record {
  id = [];
  user_id = u.id;
  token_hash = s.hash secret;
  expires_at = req.now + s.session_ttl;
  created_at = 0;
  user_agent = agent_of c;
  ip = c.ip;
  last_seen_at = req.now;
}

-- startSession, with its secret.
unfoldable pub open_session :
    AuthService
    → AuthRequest
    → Accounts
    → UserResponse
    → Method
    → Client
    → Text
    → Result AuthError SignIn × Accounts
unfolding create_session new_session record_sign_in wrapped
open_session s req a u method c secret =
    lift_part wrapped (λ rows. record a { sessions = rows })
      (create_session req.session_fails req.new_id req.now a.sessions
        (new_session s req u c secret))
    >>> λ id a1. (ok (opened secret (req.now + s.session_ttl)), record_sign_in s req a1 u method c)

-- startSession
unfoldable pub start_session :
    AuthService
    → AuthRequest
    → Accounts
    → UserResponse
    → Method
    → Client
    → Result AuthError SignIn × Accounts
unfolding drawn open_session
start_session s req a u method c =
    (drawn req.secret, a) >>> λ secret a1. open_session s req a1 u method c secret

-- loadWAUser, the loop over the rows: a corrupt record is left out.
unfoldable pub decoded : WebAuthn → List Passkey → List Text
decoded w [] = []
decoded w (p ∷ ps) = elim (w.decode_credential p.credential) [
  | none ↦ decoded w ps
  | some c ↦ c ∷ decoded w ps
]

-- loadWAUser
unfoldable pub load_wa_user :
    WebAuthn → AuthRequest → Accounts → Text → Result AuthError (WaUser × List Passkey)
unfolding get_user passkeys_of decoded wrapped
load_wa_user w req a user_id =
    map_error wrapped (get_user req.user_request a.users user_id) >>= λ u.
    map_error wrapped (passkeys_of req.passkey_fails a.passkeys user_id) >>= λ rows.
    ok (record { account = u; credentials = decoded w rows }, rows)

-- A challenge whose ceremony is kept under the id that is drawn for it.
unfoldable pub keep_ceremony :
    AuthRequest → Accounts → CeremonyKind → Text → Text × Text → Result AuthError SignIn × Accounts
unfolding drawn put
keep_ceremony req a kind user_id (options, session_data) = (drawn req.secret, a) >>> λ id a1. (
  ok (challenged id options),
  record a1 {
    ceremonies = put a1.ceremonies req.now id (record {
      id = id;
      kind = kind;
      user_id = user_id;
      session_data = session_data;
      expires = 0;
    });
  },
)

-- What go-webauthn gives, or its error.
unfoldable pub given {ℓ} : {A : Type ℓ} → AuthError → Option A → Result AuthError A
given e none = err e
given e (some x) = ok x

-- beginSecondFactor
unfoldable pub begin_second_factor :
    WebAuthn → AuthRequest → Accounts → Text → Result AuthError SignIn × Accounts
unfolding load_wa_user given keep_ceremony
begin_second_factor w req a user_id =
    (load_wa_user w req a user_id >>= (λ found. given auth_failure (w.begin_login found.0)), a)
    >>> λ challenge a1. keep_ceremony req a1 second_factor user_id challenge

-- afterEmailStep, with the account.
unfoldable pub with_account :
    AuthService
    → AuthRequest
    → Accounts
    → Text
    → UserResponse
    → Method
    → Client
    → Result AuthError SignIn × Accounts
unfolding begin_second_factor start_session
with_account s req a user_id u method c = elim (s.webauthn) [
  | none ↦ start_session s req a u method c
  | some w ↦
      if u.require_passkey
      then begin_second_factor w req a user_id
      else start_session s req a u method c
]

-- afterEmailStep
unfoldable pub after_email_step :
    AuthService
    → AuthRequest
    → Accounts
    → Text
    → Method
    → Client
    → Result AuthError SignIn × Accounts
unfolding get_user with_account wrapped
after_email_step s req a user_id method c =
    (map_error wrapped (get_user req.user_request a.users user_id), a) >>> λ u a1.
    with_account s req a1 user_id u method c
