-- ===== src/User.antt =====
-- internals/app/user: the accounts. The table is the list of its rows, where the address is unique.
pub mod Service
use sade_safe_media_delivery.Base.{
  Bool, List, Result, Text, [], count_where, delete_where, drop, err, find_row, if◌then◌else◌, ltb,
  none, ok, some, str_eq, take, update_where, ℕ, ◌++◌, ◌==◌, ◌||◌, ◌∷◌,
}

pub record User : Type 0 where
  pub id : Text
  pub email : Text
  pub role : Text
  pub created_at : ℕ
  pub updated_at : ℕ
  pub require_passkey : ℕ

pub record UserResponse : Type 0 where
  pub id : Text
  pub email : Text
  pub role : Text
  pub created_at : ℕ
  pub updated_at : ℕ
  pub require_passkey : Bool

-- toResponse
unfoldable pub user_response : User → UserResponse
user_response u = record {
  id = u.id;
  email = u.email;
  role = u.role;
  created_at = u.created_at;
  updated_at = u.updated_at;
  require_passkey = u.require_passkey == 1;
}

-- ErrNotFound, ErrInvalidInput, and any other error.
pub data UserError : Type 0 where
  user_not_found user_invalid user_internal : UserError

-- The statements of the repository. The environment says which of them fail; `read_again` is the
-- second read of EnsureByEmail.
pub data UserStmt : Type 0 where
  insert_user read_by_id read_by_email read_again read_users update_user delete_user : UserStmt

abbrev pub UserOutage : Type 0
UserOutage = UserStmt → Bool

abbrev pub has_email : Text → User → Bool
has_email email u = str_eq u.email email

-- Create. The database gives the row its id and its times, and refuses an address that it has.
unfoldable pub create_user :
    UserOutage → Text → ℕ → List User → User → Result UserError Text × List User
create_user fails id now users u =
    if fails insert_user || ltb 0 (count_where (has_email u.email) users)
    then (err user_internal, users)
    else (ok id, users ++ record u { id = id; created_at = now; updated_at = now } ∷ [])

-- one, for a read that may fail.
unfoldable pub one_user : Bool → (User → Bool) → List User → Result UserError User
one_user down p users =
    if down
    then err user_internal
    else elim (find_row p users) [ none ↦ err user_not_found | some u ↦ ok u ]

-- GetByID
unfoldable pub user_by_id : UserOutage → List User → Text → Result UserError User
unfolding one_user
user_by_id fails users id = one_user (fails read_by_id) (λ u. str_eq u.id id) users

-- GetByEmail
unfoldable pub user_by_email : UserOutage → List User → Text → Result UserError User
unfolding one_user
user_by_email fails users email = one_user (fails read_by_email) (has_email email) users

-- List, in the order of the table.
unfoldable pub users_page : UserOutage → List User → ℕ → ℕ → Result UserError (List User)
users_page fails users offset limit =
    if fails read_users then err user_internal else ok (take limit (drop offset users))

-- Update writes every column of the row with the id of `u`.
unfoldable pub update_user_row :
    UserOutage → ℕ → List User → User → Result UserError (Unit {0}) × List User
update_user_row fails now users u =
    if fails update_user
    then (err user_internal, users)
    else if count_where (λ r. str_eq r.id u.id) users == 0
    then (err user_not_found, users)
    else (
      ok tt,
      update_where (λ r. str_eq r.id u.id)
          (λ r. record u { created_at = r.created_at; updated_at = now }) users,
    )

-- Delete
unfoldable pub delete_user_row :
    UserOutage → List User → Text → Result UserError (Unit {0}) × List User
delete_user_row fails users id =
    if fails delete_user
    then (err user_internal, users)
    else if count_where (λ r. str_eq r.id id) users == 0
    then (err user_not_found, users)
    else (ok tt, delete_where (λ r. str_eq r.id id) users)
