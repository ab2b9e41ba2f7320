-- ===== src/Auth/Store.antt =====
-- What the sessions of internals/app/auth promise: a map from the hash of a secret to a session, and
-- the calls on it.
use sade_safe_media_delivery.Auth.Live.{authenticate_session, logout, revoke_all, revoke_session}
use sade_safe_media_delivery.Auth.Start.{open_session}
use sade_safe_media_delivery.Auth.State.{Accounts, AuthRequest, AuthService, Client}
use sade_safe_media_delivery.Base.{
  Bool, List, Option, Text, [], find_row, if◌then◌else◌, is_empty, ltb, none, not, some, str_eq, ℕ,
  ◌&&◌, ◌+◌, ◌∷◌,
}
use sade_safe_media_delivery.LoginEvent.{Method}
use sade_safe_media_delivery.Session.{Session, has_token}
use sade_safe_media_delivery.User.{UserResponse}

-- A session as a caller sees it: its id, its account and its expiry.
pub record Login : Type 0 where
  pub id : Text
  pub user_id : Text
  pub expires_at : ℕ

abbrev pub Store : Type 0
Store = Text → Option Login

-- A call at an instant, with the id that the database gives. An opening comes with its secret.
pub data Call : Type 0 where
  opens : UserResponse → Method → Client → Text → Call
  logs_out : Text → Call
  revokes_all : Text → Call
  revokes_one : Text → Text → Call
  authenticates : Text → Text → Call

-- The calls on the tables, as the service makes them.
unfoldable pub after_call : AuthService → AuthRequest → Accounts → Call → Accounts
unfolding open_session logout revoke_all revoke_session authenticate_session
after_call s req a (opens u method c secret) = (open_session s req a u method c secret).1
after_call s req a (logs_out secret) = (logout s req a secret).1
after_call s req a (revokes_all user_id) = (revoke_all req a user_id).1
after_call s req a (revokes_one user_id id) = (revoke_session req a user_id id).1
after_call s req a (authenticates secret ip) = (authenticate_session s req a secret ip).1

abbrev pub kept : (Login → Bool) → Option Login → Option Login
kept q none = none
kept q (some l) = if q l then some l else none

abbrev pub or_new : Option Login → Login → Option Login
or_new none l = some l
or_new (some old) l = some old

-- What the calls promise of the map.
unfoldable pub promised : AuthService → AuthRequest → Store → Call → Store
unfolding str_eq
promised s req m (opens u method c secret) h =
    if str_eq (s.hash secret) h
    then or_new (m h)
        (record { id = req.new_id; user_id = u.id; expires_at = req.now + s.session_ttl })
    else m h
promised s req m (logs_out secret) h =
    if not (is_empty secret) && str_eq (s.hash secret) h then none else m h
promised s req m (revokes_all user_id) h = kept (λ l. not (str_eq l.user_id user_id)) (m h)
promised s req m (revokes_one user_id id) h =
    kept (λ l. not (str_eq l.id id && str_eq l.user_id user_id)) (m h)
promised s req m (authenticates secret ip) h =
    if not (is_empty secret) && str_eq (s.hash secret) h
    then kept (λ l. not (ltb l.expires_at req.now)) (m h)
    else m h

abbrev pub login_of : Option Session → Option Login
login_of none = none
login_of (some s) = some (record { id = s.id; user_id = s.user_id; expires_at = s.expires_at })

-- The map that the table stands for.
unfoldable pub view : Accounts → Store
unfolding find_row
view a h = login_of (find_row (has_token h) a.sessions)

-- A history of calls.
unfoldable pub after_calls : AuthService → Accounts → List (AuthRequest × Call) → Accounts
unfolding after_call
after_calls s a [] = a
after_calls s a ((req, c) ∷ cs) = after_calls s (after_call s req a c) cs

unfoldable pub promised_calls : AuthService → Store → List (AuthRequest × Call) → Store
unfolding promised
promised_calls s m [] = m
promised_calls s m ((req, c) ∷ cs) = promised_calls s (promised s req m c) cs
