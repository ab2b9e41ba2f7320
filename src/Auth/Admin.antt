-- ===== src/Auth/Admin.antt =====
-- internals/app/user/handler.go, the routes of an administrator, with RevokeAll of internals/app/auth as
-- the OnRoleChanged that app.go gives them.
use sade_safe_media_delivery.Auth.Handler.{Reply, account_of, only_error, reply_with, user_list}
use sade_safe_media_delivery.Auth.Live.{revoke_all}
use sade_safe_media_delivery.Auth.State.{Accounts, AuthRequest}
use sade_safe_media_delivery.Base.{
  List, Option, Result, Text, codes, count_where, count_where-delete_where, err, false, none, ok,
  refl, some, ◌≡◌,
}
use sade_safe_media_delivery.Http.{QueryNumber, page_limit, page_offset}
use sade_safe_media_delivery.Session.{delete_by_user, delete_of_user, of_user}
use sade_safe_media_delivery.User.{
  UserError, UserResponse, user_internal, user_invalid, user_not_found,
}
use sade_safe_media_delivery.User.Service.{get_user, list_users, set_role}

-- List, the reply.
unfoldable pub users_reply : Result UserError (List UserResponse) → Reply
users_reply (ok users) = reply_with 200 (user_list users)
users_reply (err e) = only_error 500 (codes "could not list users")

-- List
unfoldable pub list_users_route : AuthRequest → Accounts → QueryNumber → QueryNumber → Reply
unfolding list_users page_limit page_offset users_reply
list_users_route req a offset limit =
    users_reply (list_users req.user_request a.users (page_offset offset) (page_limit 50 200 limit))

-- Get. A failed OnRoleChanged is logged only.
unfoldable pub get_user_route : AuthRequest → Accounts → Text → Reply × Accounts
unfolding get_user revoke_all
get_user_route req a id = elim (get_user req.user_request a.users id) [
  | err user_not_found ↦ (only_error 404 (codes "user not found"), a)
  | err _ ↦ (only_error 500 (codes "could not load user"), a)
  | ok u ↦ (reply_with 200 (account_of u), (revoke_all req a u.id).1)
]

-- SetRole, the reply.
unfoldable pub role_reply : Result UserError UserResponse → Reply
role_reply (ok u) = reply_with 200 (account_of u)
role_reply (err user_not_found) = only_error 404 (codes "user not found")
role_reply (err user_invalid) = only_error 400 (codes "unknown role")
role_reply (err user_internal) = only_error 500 (codes "could not update user")

-- SetRole
unfoldable pub set_role_route : AuthRequest → Accounts → Text → Option Text → Reply × Accounts
unfolding set_role role_reply
set_role_route req a id none = (only_error 400 (codes "invalid request body"), a)
set_role_route req a id (some role) =
    let out = set_role req.user_request a.users id role in
    (role_reply out.0, record a { users = out.1 })

-- Reading an account ends all its sessions, when the database works; changing its role ends none, whatever
-- the outcome of the change.
pub get_user_route-revokes :
    (req : AuthRequest) (a : Accounts) (id : Text) (u : UserResponse) (body : Option Text)
    → get_user req.user_request a.users id ≡ ok u
    → req.session_fails delete_of_user ≡ false
    → (count_where (of_user u.id) (get_user_route req a id).1.sessions ≡ 0)
      × ((set_role_route req a id body).1.sessions ≡ a.sessions)
unfolding get_user_route set_role_route revoke_all delete_by_user
get_user_route-revokes req a id u none found works = (
  rw (get_user_route, found, revoke_all, delete_by_user, works)
      (count_where-delete_where (of_user u.id) a.sessions),
  refl,
)
get_user_route-revokes req a id u (some role) found works = (
  rw (get_user_route, found, revoke_all, delete_by_user, works)
      (count_where-delete_where (of_user u.id) a.sessions),
  refl,
)
