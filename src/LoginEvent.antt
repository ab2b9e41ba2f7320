-- ===== src/LoginEvent.antt =====
-- internals/app/login_event: the sign-in history. The table is the list of its rows.
use sade_safe_media_delivery.Base.{
  Bool, List, Result, Text, [], count_where, delete_where, err, if◌then◌else◌, leb, ltb, ok, select,
  sort_by, str_eq, take, ℕ, ◌&&◌, ◌++◌, ◌∷◌,
}

-- MethodLink, MethodCode, MethodPasskey
pub data Method : Type 0 where
  by_link by_code by_passkey : Method

pub record LoginEvent : Type 0 where
  pub id : Text
  pub user_id : Text
  pub method : Method
  pub user_agent : Text
  pub ip : Text
  pub created_at : ℕ

-- The statements of the repository. The environment says which of them fail.
pub data LoginStmt : Type 0 where
  insert_login read_recent count_agent drop_old : LoginStmt

abbrev pub LoginOutage : Type 0
LoginOutage = LoginStmt → Bool

-- A failed statement, wrapped.
pub data LoginError : Type 0 where
  login_internal : LoginError

-- Create. The database gives the row its id and its time.
unfoldable pub create_login :
    LoginOutage
    → Text
    → ℕ
    → List LoginEvent
    → LoginEvent
    → Result LoginError (Unit {0}) × List LoginEvent
create_login fails id now logins e =
    if fails insert_login
    then (err login_internal, logins)
    else (ok tt, logins ++ record e { id = id; created_at = now } ∷ [])

-- Recent, newest first.
unfoldable pub recent :
    LoginOutage → List LoginEvent → Text → ℕ → Result LoginError (List LoginEvent)
recent fails logins user_id limit =
    if fails read_recent
    then err login_internal
    else ok (
        take limit (
          sort_by (λ a b. ltb b.created_at a.created_at)
            (select (λ e. str_eq e.user_id user_id) logins)))

-- The WHERE clause of SeenUserAgent.
unfoldable pub is_agent : Text → Text → ℕ → LoginEvent → Bool
is_agent user_id agent since e =
    str_eq e.user_id user_id && (str_eq e.user_agent agent && leb since e.created_at)

-- SeenUserAgent
unfoldable pub seen_user_agent :
    LoginOutage → List LoginEvent → Text → Text → ℕ → Result LoginError Bool
unfolding is_agent
seen_user_agent fails logins user_id agent since =
    if fails count_agent
    then err login_internal
    else ok (ltb 0 (count_where (is_agent user_id agent since) logins))

-- DeleteBefore
unfoldable pub delete_before :
    LoginOutage → List LoginEvent → ℕ → Result LoginError ℕ × List LoginEvent
delete_before fails logins cutoff = if fails drop_old then (err login_internal, logins) else (
  ok (count_where (λ e. ltb e.created_at cutoff) logins),
  delete_where (λ e. ltb e.created_at cutoff) logins,
)
