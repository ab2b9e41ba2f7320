-- ===== src/Auth/Live.antt =====
-- internals/app/auth: live sessions (service.go) and the account's devices (devices.go).
use sade_safe_media_delivery.Auth.Device.{describe_user_agent}
use sade_safe_media_delivery.Auth.Start.{known_device_window}
use sade_safe_media_delivery.Auth.State.{
  Accounts, AuthError, AuthRequest, AuthService, auth_failure, invalid_link, no_session,
  nothing_found, session_expired, wrapped,
}
use sade_safe_media_delivery.Base.{
  Bool, List, Result, Text, [], codes, delete_where, err, if◌then◌else◌, is_empty, lift_part, ltb,
  map, map_error, none, not, ok, some, str_eq, ℕ, ◌&&◌, ◌*◌, ◌-◌, ◌==◌, ◌>>=◌, ◌>>>◌,
}
use sade_safe_media_delivery.LoginEvent.{LoginEvent, Method, delete_before, recent}
use sade_safe_media_delivery.MagicToken.{delete_expired}
use sade_safe_media_delivery.Session.{
  Session, SessionError, delete_by_id, delete_by_user, delete_over, delete_session, get_by_hash,
  is_over, session_internal, session_not_found, sessions_of, touch,
}
use sade_safe_media_delivery.User.{UserError, UserResponse, user_not_found}
use sade_safe_media_delivery.User.Service.{get_user}

-- touchEvery
abbrev pub touch_every : ℕ
touch_every = 5 * 60 * 1_000_000_000

-- AuthenticateSession, the error of the session.
unfoldable pub session_error : SessionError → AuthError
session_error session_not_found = no_session
session_error session_internal = auth_failure

-- AuthenticateSession, the error of the account.
unfoldable pub session_user_error : UserError → AuthError
session_user_error user_not_found = no_session
session_user_error _ = auth_failure

-- AuthenticateSession: the time that is kept fresh. A failed Touch is logged only.
unfoldable pub refresh : AuthRequest → Accounts → Session → Text → Accounts
unfolding touch
refresh req a sess ip =
    if not (is_empty ip) && ltb touch_every (req.now - sess.last_seen_at)
    then record a { sessions = (touch req.session_fails a.sessions sess.id ip req.now).1 }
    else a

-- AuthenticateSession, with the session. A failed Delete is left.
unfoldable pub with_session :
    AuthService
    → AuthRequest
    → Accounts
    → Text
    → Text
    → Session
    → Result AuthError (UserResponse × Text) × Accounts
unfolding is_over delete_session get_user session_user_error refresh
with_session s req a secret ip sess =
    if is_over sess req.now
    then (
      err session_expired,
      record a { sessions = (delete_session req.session_fails a.sessions (s.hash secret)).1 },
    )
    else (map_error session_user_error (get_user req.user_request a.users sess.user_id), a)
      >>> λ u a1. (ok (u, sess.id), refresh req a1 sess ip)

-- AuthenticateSession
unfoldable pub authenticate_session :
    AuthService
    → AuthRequest
    → Accounts
    → Text
    → Text
    → Result AuthError (UserResponse × Text) × Accounts
unfolding get_by_hash session_error with_session
authenticate_session s req a secret ip =
    if is_empty secret
    then (err no_session, a)
    else (map_error session_error (get_by_hash req.session_fails a.sessions (s.hash secret)), a)
      >>> λ sess a1. with_session s req a1 secret ip sess

-- Authenticate
unfoldable pub authenticate :
    AuthService → AuthRequest → Accounts → Text → Result AuthError UserResponse × Accounts
unfolding authenticate_session
authenticate s req a secret =
    authenticate_session s req a secret [] >>> λ found a1. (ok (found.0), a1)

-- Logout
unfoldable pub logout :
    AuthService → AuthRequest → Accounts → Text → Result AuthError (Unit {0}) × Accounts
unfolding delete_session wrapped
logout s req a secret =
    if is_empty secret
    then (ok tt, a)
    else lift_part wrapped (λ rows. record a { sessions = rows })
        (delete_session req.session_fails a.sessions (s.hash secret))

-- RevokeAll
unfoldable pub revoke_all : AuthRequest → Accounts → Text → Result AuthError (Unit {0}) × Accounts
unfolding delete_by_user wrapped
revoke_all req a user_id =
    lift_part wrapped (λ rows. record a { sessions = rows })
      (delete_by_user req.session_fails a.sessions user_id)

-- PurgeExpired, the history.
unfoldable pub purge_logins :
    AuthService → AuthRequest → Accounts → Result AuthError (Unit {0}) × Accounts
unfolding delete_before wrapped
purge_logins s req a =
    if not s.has_events
    then (ok tt, a)
    else lift_part wrapped (λ rows. record a { logins = rows })
        (delete_before req.login_fails a.logins (req.now - known_device_window))
      >>> λ n a1. (ok tt, a1)

-- PurgeExpired
unfoldable pub purge_expired :
    AuthService → AuthRequest → Accounts → Result AuthError (Unit {0}) × Accounts
unfolding delete_expired delete_over purge_logins wrapped
purge_expired s req a =
    lift_part wrapped (λ rows. record a { tokens = rows })
      (delete_expired req.token_fails a.tokens req.now)
    >>> λ m a1.
        lift_part wrapped (λ rows. record a1 { sessions = rows })
          (delete_over req.session_fails a1.sessions req.now)
        >>> λ n a2. purge_logins s req a2

pub record SessionView : Type 0 where
  pub id : Text
  pub device : Text
  pub ip : Text
  pub created_at : ℕ
  pub last_seen_at : ℕ
  pub is_current : Bool

-- ListSessions, the view of one row. A time of 0 is Go's zero time.
unfoldable pub session_view : Text → Session → SessionView
unfolding describe_user_agent str_eq
session_view current_id r = record {
  id = r.id;
  device = describe_user_agent r.user_agent;
  ip = r.ip;
  created_at = r.created_at;
  last_seen_at = if r.last_seen_at == 0 then r.created_at else r.last_seen_at;
  is_current = str_eq r.id current_id;
}

-- ListSessions
unfoldable pub list_sessions :
    AuthRequest → Accounts → Text → Text → Result AuthError (List SessionView)
unfolding sessions_of session_view is_over wrapped
list_sessions req a user_id current_id =
    map_error wrapped (sessions_of req.session_fails a.sessions user_id) >>= λ rows.
    ok (map (session_view current_id) (delete_where (λ r. is_over r req.now) rows))

-- The error of RevokeSession.
unfoldable pub revoke_error : SessionError → AuthError
revoke_error session_not_found = nothing_found
revoke_error session_internal = auth_failure

-- RevokeSession
unfoldable pub revoke_session :
    AuthRequest → Accounts → Text → Text → Result AuthError (Unit {0}) × Accounts
unfolding delete_by_id revoke_error
revoke_session req a user_id session_id =
    lift_part revoke_error (λ rows. record a { sessions = rows })
      (delete_by_id req.session_fails a.sessions user_id session_id)

pub record LoginView : Type 0 where
  pub method : Method
  pub device : Text
  pub ip : Text
  pub created_at : ℕ

-- Activity, the view of one row.
unfoldable pub login_view : LoginEvent → LoginView
unfolding describe_user_agent
login_view e = record {
  method = e.method;
  device = describe_user_agent e.user_agent;
  ip = e.ip;
  created_at = e.created_at;
}

-- Activity
unfoldable pub activity :
    AuthService → AuthRequest → Accounts → Text → Result AuthError (List LoginView)
unfolding recent login_view wrapped
activity s req a user_id =
    if not s.has_events
    then ok []
    else map_error wrapped (recent req.login_fails a.logins user_id 20) >>= λ rows.
        ok (map login_view rows)

-- RevokeFromAlert: the id that the token names, and the address of its account.
unfoldable pub alert_account :
    AuthService → AuthRequest → Accounts → Text → Result AuthError (Text × Text)
unfolding get_user
alert_account s req a raw = elim (s.signer) [
  | none ↦ err invalid_link
  | some sg ↦ elim (sg.verify req.now (codes "revoke-sessions") raw) [
    | err e ↦ err invalid_link
    | ok user_id ↦ elim (get_user req.user_request a.users user_id) [
      | err e ↦ err invalid_link
      | ok u ↦ ok (user_id, u.email)
    ]
  ]
]

-- RevokeFromAlert
unfoldable pub revoke_from_alert :
    AuthService → AuthRequest → Accounts → Text → Result AuthError Text × Accounts
unfolding alert_account revoke_all
revoke_from_alert s req a raw = (alert_account s req a raw, a) >>> λ named a1.
    revoke_all req a1 (named.0) >>> λ t a2. (ok (named.1), a2)
