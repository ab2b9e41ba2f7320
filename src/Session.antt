-- ===== src/Session.antt =====
-- internals/app/session: the server-side login sessions. The table is the list of its rows, where the
-- hash of the cookie value is unique. An instant is a number of nanoseconds since Go's zero time.
use sade_safe_media_delivery.Base.{
  Bool, List, Result, Text, [], count_where, delete_where, err, find_row, if◌then◌else◌, ltb, none,
  ok, select, some, sort_by, str_eq, update_where, ℕ, ◌&&◌, ◌++◌, ◌==◌, ◌||◌, ◌∷◌,
}

pub record Session : Type 0 where
  pub id : Text
  pub user_id : Text
  pub token_hash : Text
  pub expires_at : ℕ
  pub created_at : ℕ
  pub user_agent : Text
  pub ip : Text
  pub last_seen_at : ℕ

-- ErrNotFound, and any other error of the database.
pub data SessionError : Type 0 where
  session_not_found session_internal : SessionError

-- The statements of the repository. The environment says which of them fail.
pub data SessionStmt : Type 0 where
  insert_session read_session delete_by_hash delete_of_user purge_sessions : SessionStmt
  read_sessions delete_one touch_one : SessionStmt

abbrev pub SessionOutage : Type 0
SessionOutage = SessionStmt → Bool

-- Expired
unfoldable pub is_over : Session → ℕ → Bool
is_over s now = ltb s.expires_at now

abbrev pub has_token : Text → Session → Bool
has_token hash s = str_eq s.token_hash hash

abbrev pub of_user : Text → Session → Bool
of_user user_id s = str_eq s.user_id user_id

-- Create. The database gives the row its id and its time, and refuses a hash that it has.
unfoldable pub create_session :
    SessionOutage → Text → ℕ → List Session → Session → Result SessionError Text × List Session
create_session fails id now sessions s =
    if fails insert_session || ltb 0 (count_where (has_token s.token_hash) sessions)
    then (err session_internal, sessions)
    else (ok id, sessions ++ record s { id = id; created_at = now } ∷ [])

-- GetByHash
unfoldable pub get_by_hash : SessionOutage → List Session → Text → Result SessionError Session
get_by_hash fails sessions hash =
    if fails read_session
    then err session_internal
    else elim (find_row (has_token hash) sessions) [ none ↦ err session_not_found | some s ↦ ok s ]

-- Delete
unfoldable pub delete_session :
    SessionOutage → List Session → Text → Result SessionError (Unit {0}) × List Session
delete_session fails sessions hash =
    if fails delete_by_hash
    then (err session_internal, sessions)
    else (ok tt, delete_where (has_token hash) sessions)

-- DeleteByUser
unfoldable pub delete_by_user :
    SessionOutage → List Session → Text → Result SessionError (Unit {0}) × List Session
delete_by_user fails sessions user_id =
    if fails delete_of_user
    then (err session_internal, sessions)
    else (ok tt, delete_where (of_user user_id) sessions)

-- DeleteExpired
unfoldable pub delete_over : SessionOutage → List Session → ℕ → Result SessionError ℕ × List Session
delete_over fails sessions now =
    if fails purge_sessions then (err session_internal, sessions) else (
      ok (count_where (λ s. ltb s.expires_at now) sessions),
      delete_where (λ s. ltb s.expires_at now) sessions,
    )

-- ListByUser, newest first.
unfoldable pub sessions_of :
    SessionOutage → List Session → Text → Result SessionError (List Session)
sessions_of fails sessions user_id =
    if fails read_sessions
    then err session_internal
    else ok (sort_by (λ a b. ltb b.created_at a.created_at) (select (of_user user_id) sessions))

-- The WHERE clause of DeleteByID.
unfoldable pub is_own : Text → Text → Session → Bool
is_own user_id id s = str_eq s.id id && str_eq s.user_id user_id

-- DeleteByID
unfoldable pub delete_by_id :
    SessionOutage → List Session → Text → Text → Result SessionError (Unit {0}) × List Session
unfolding is_own
delete_by_id fails sessions user_id id =
    if fails delete_one
    then (err session_internal, sessions)
    else if count_where (is_own user_id id) sessions == 0
    then (err session_not_found, sessions)
    else (ok tt, delete_where (is_own user_id id) sessions)

-- Touch
unfoldable pub touch :
    SessionOutage → List Session → Text → Text → ℕ → Result SessionError (Unit {0}) × List Session
touch fails sessions id ip at = if fails touch_one then (err session_internal, sessions) else (
  ok tt,
  update_where (λ s. str_eq s.id id) (λ s. record s { last_seen_at = at; ip = ip }) sessions,
)
