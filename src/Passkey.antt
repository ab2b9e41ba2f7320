-- ===== src/Passkey.antt =====
-- internals/app/passkey: the WebAuthn credentials of the accounts. The table is the list of its rows,
-- where the id of a credential is unique.
use sade_safe_media_delivery.Base.{
  Bool, List, Result, Text, [], count_where, delete_where, err, find_row, if◌then◌else◌, ltb, none,
  ok, select, some, str_eq, update_where, ℕ, ◌&&◌, ◌++◌, ◌==◌, ◌||◌, ◌∷◌,
}

pub record Passkey : Type 0 where
  pub id : Text
  pub user_id : Text
  pub credential_id : Text
  pub credential : Text
  pub name : Text
  pub created_at : ℕ
  pub last_used_at : ℕ

-- ErrNotFound, and any other error of the database.
pub data PasskeyError : Type 0 where
  passkey_not_found passkey_internal : PasskeyError

-- The statements of the repository. The environment says which of them fail.
pub data PasskeyStmt : Type 0 where
  insert_passkey read_passkeys read_credential mark_used drop_passkey : PasskeyStmt

abbrev pub PasskeyOutage : Type 0
PasskeyOutage = PasskeyStmt → Bool

-- Create. The database gives the row its id and its time, and refuses a credential that it has.
unfoldable pub create_passkey :
    PasskeyOutage → Text → ℕ → List Passkey → Passkey → Result PasskeyError Text × List Passkey
create_passkey fails id now passkeys p =
    if fails insert_passkey
      || ltb 0 (count_where (λ r. str_eq r.credential_id p.credential_id) passkeys)
    then (err passkey_internal, passkeys)
    else (ok id, passkeys ++ record p { id = id; created_at = now } ∷ [])

-- ListByUser, in the order of the table.
unfoldable pub passkeys_of :
    PasskeyOutage → List Passkey → Text → Result PasskeyError (List Passkey)
passkeys_of fails passkeys user_id =
    if fails read_passkeys
    then err passkey_internal
    else ok (select (λ p. str_eq p.user_id user_id) passkeys)

-- GetByCredentialID
unfoldable pub by_credential : PasskeyOutage → List Passkey → Text → Result PasskeyError Passkey
by_credential fails passkeys credential_id =
    if fails read_credential
    then err passkey_internal
    else elim (find_row (λ p. str_eq p.credential_id credential_id) passkeys) [
      | none ↦ err passkey_not_found
      | some p ↦ ok p
    ]

-- Used
unfoldable pub used :
    PasskeyOutage → List Passkey → Text → Text → ℕ → Result PasskeyError (Unit {0}) × List Passkey
used fails passkeys id credential at =
    if fails mark_used then (err passkey_internal, passkeys) else (
      ok tt,
      update_where (λ p. str_eq p.id id)
          (λ p. record p { credential = credential; last_used_at = at }) passkeys,
    )

-- The WHERE clause of Delete.
unfoldable pub is_passkey_of : Text → Text → Passkey → Bool
is_passkey_of user_id id p = str_eq p.id id && str_eq p.user_id user_id

-- Delete
unfoldable pub remove_passkey :
    PasskeyOutage → List Passkey → Text → Text → Result PasskeyError (Unit {0}) × List Passkey
unfolding is_passkey_of
remove_passkey fails passkeys user_id id =
    if fails drop_passkey
    then (err passkey_internal, passkeys)
    else if count_where (is_passkey_of user_id id) passkeys == 0
    then (err passkey_not_found, passkeys)
    else (ok tt, delete_where (is_passkey_of user_id id) passkeys)
