-- ===== src/User/Service.antt =====
-- internals/app/user/service.go. Address parsing is a parameter.
use sade_safe_media_delivery.Base.{
  Bool, List, Option, Result, Text, [], codes, err, if◌then◌else◌, is_empty, map, none, not, ok,
  some, str_eq, ℕ, ◌++◌, ◌==◌, ◌>>=◌, ◌||◌,
}
use sade_safe_media_delivery.GoText.{to_lower, trim_space}
use sade_safe_media_delivery.User.{
  User, UserError, UserOutage, UserResponse, create_user, has_email, one_user, read_again,
  update_user_row, user_by_email, user_by_id, user_internal, user_invalid, user_not_found,
  user_response, users_page,
}

-- One request: what fails during it, its instant, the id of a new row, and the rows that other
-- requests insert between the read and the insert of EnsureByEmail.
pub record UserRequest : Type 0 where
  pub fails : UserOutage
  pub now : ℕ
  pub new_id : Text
  pub meanwhile : List User

-- normalizeEmail, with net/mail's ParseAddress.
unfoldable pub normal_address : (Text → Option Text) → Text → Result UserError Text
unfolding trim_space to_lower
normal_address parse raw =
    let trimmed = trim_space raw in
    if is_empty trimmed
    then err user_invalid
    else elim (parse trimmed) [ none ↦ err user_invalid | some address ↦ ok (to_lower address) ]

-- validRole
unfoldable pub valid_role : Text → Bool
unfolding str_eq
valid_role role = str_eq role (codes "operator") || str_eq role (codes "admin")

-- The row that EnsureByEmail inserts.
unfoldable pub new_user : Text → User
new_user email = record {
  id = [];
  email = email;
  role = codes "operator";
  created_at = 0;
  updated_at = 0;
  require_passkey = 0;
}

-- EnsureByEmail, by what the insert said.
unfoldable pub after_insert :
    UserRequest
    → Text
    → Result UserError Text × List User
    → Result UserError UserResponse × List User
unfolding one_user new_user user_response
after_insert req email (ok id, users) =
    (ok (user_response (record (new_user email) { id = id })), users)
after_insert req email (err e, users) =
    elim (one_user (req.fails read_again) (has_email email) users) [
      | ok u ↦ (ok (user_response u), users)
      | err e' ↦ (err user_internal, users)
    ]

-- EnsureByEmail, by what the read said.
unfoldable pub after_read :
    UserRequest
    → Text
    → List User
    → Result UserError User
    → Result UserError UserResponse × List User
unfolding after_insert create_user new_user user_response
after_read req email users (ok u) = (ok (user_response u), users)
after_read req email users (err user_not_found) =
    after_insert req email
      (create_user req.fails req.new_id req.now (users ++ req.meanwhile) (new_user email))
after_read req email users (err _) = (err user_internal, users)

-- EnsureByEmail
unfoldable pub ensure_by_email :
    (Text → Option Text)
    → UserRequest
    → List User
    → Text
    → Result UserError UserResponse × List User
unfolding normal_address after_read user_by_email
ensure_by_email parse req users raw = elim (normal_address parse raw) [
  | err e ↦ (err e, users)
  | ok email ↦ after_read req email users (user_by_email req.fails users email)
]

-- FindByEmail
unfoldable pub find_by_email :
    (Text → Option Text) → UserRequest → List User → Text → Result UserError UserResponse
unfolding normal_address user_by_email user_response
find_by_email parse req users raw = normal_address parse raw >>= λ email.
    user_by_email req.fails users email >>= λ u. ok (user_response u)

-- GetByID
unfoldable pub get_user : UserRequest → List User → Text → Result UserError UserResponse
unfolding user_by_id user_response
get_user req users id = user_by_id req.fails users id >>= λ u. ok (user_response u)

-- List
unfoldable pub list_users : UserRequest → List User → ℕ → ℕ → Result UserError (List UserResponse)
unfolding users_page user_response
list_users req users offset limit =
    users_page req.fails users offset limit >>= λ page. ok (map user_response page)

-- The answer of SetRole and SetRequirePasskey, by what Update said.
unfoldable pub after_update :
    User → Result UserError (Unit {0}) × List User → Result UserError UserResponse × List User
unfolding user_response
after_update u (ok t, users) = (ok (user_response u), users)
after_update u (err e, users) = (err user_internal, users)

-- SetRole
unfoldable pub set_role :
    UserRequest → List User → Text → Text → Result UserError UserResponse × List User
unfolding valid_role user_by_id update_user_row after_update user_response str_eq
set_role req users id role =
    if not (valid_role role)
    then (err user_invalid, users)
    else elim (user_by_id req.fails users id) [
      | err e ↦ (err e, users)
      | ok u ↦
          if str_eq u.role role
          then (ok (user_response u), users)
          else after_update (record u { role = role })
              (update_user_row req.fails req.now users (record u { role = role }))
    ]

-- SetRequirePasskey
unfoldable pub set_require_passkey :
    UserRequest → List User → Text → Bool → Result UserError UserResponse × List User
unfolding user_by_id update_user_row after_update user_response
set_require_passkey req users id on = elim (user_by_id req.fails users id) [
  | err e ↦ (err e, users)
  | ok u ↦
      let v = if on then 1 else 0 in
      if u.require_passkey == v
      then (ok (user_response u), users)
      else after_update (record u { require_passkey = v })
          (update_user_row req.fails req.now users (record u { require_passkey = v }))
]
