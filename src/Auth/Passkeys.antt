-- ===== src/Auth/Passkeys.antt =====
-- internals/app/auth/passkeys.go: an account's passkeys.
use sade_safe_media_delivery.Auth.Ceremony.{same_kind, take_ceremony}
use sade_safe_media_delivery.Auth.Start.{
  SignIn, cut_off, given, keep_ceremony, load_wa_user, start_session,
}
use sade_safe_media_delivery.Auth.State.{
  Accounts, AuthError, AuthRequest, AuthService, Ceremony, Client, WaUser, WebAuthn, auth_failure,
  invalid_passkey, no_passkey, nothing_found, passkeys_disabled, registering, second_factor,
  signing_in, wrapped,
}
use sade_safe_media_delivery.Base.{
  Bool, List, Option, Result, Text, [], codes, err, false, if◌then◌else◌, is_empty, leb, length,
  lift_part, map_error, none, not, ok, some, str_eq, ℕ, ◌>>=◌, ◌>>>◌, ◌∷◌,
}
use sade_safe_media_delivery.LoginEvent.{by_passkey}
use sade_safe_media_delivery.Passkey.{
  Passkey, PasskeyError, by_credential, create_passkey, passkey_internal, passkey_not_found,
  passkeys_of, remove_passkey, used,
}
use sade_safe_media_delivery.User.{UserResponse}
use sade_safe_media_delivery.User.Service.{set_require_passkey}
use sade_safe_media_delivery.Worker.Handle.{handle}

-- maxPasskeys
abbrev pub max_passkeys : ℕ
max_passkeys = 10

-- The service with passkeys on, else ErrPasskeysDisabled.
unfoldable pub with_passkeys {ℓ} :
    {A : Type ℓ}
    → AuthService
    → Accounts
    → (WebAuthn → Result AuthError A × Accounts)
    → Result AuthError A × Accounts
with_passkeys s a f = elim (s.webauthn) [ none ↦ (err passkeys_disabled, a) | some w ↦ f w ]

-- BeginPasskeyRegistration, with the account.
unfoldable pub registration_of : WebAuthn → WaUser × List Passkey → Result AuthError (Text × Text)
unfolding given
registration_of w (wu, rows) =
    if leb max_passkeys (length rows)
    then err invalid_passkey
    else given auth_failure (w.begin_registration wu)

-- BeginPasskeyRegistration
unfoldable pub begin_registration :
    AuthService → AuthRequest → Accounts → Text → Result AuthError SignIn × Accounts
unfolding with_passkeys load_wa_user registration_of keep_ceremony
begin_registration s req a user_id = with_passkeys s a (λ w.
    (load_wa_user w req a user_id >>= registration_of w, a) >>> λ challenge a1.
    keep_ceremony req a1 registering user_id challenge)

-- FinishPasskeyRegistration, the row.
unfoldable pub new_passkey : Text → Text → Text × Text → Passkey
unfolding cut_off
new_passkey user_id name (credential_id, credential) =
    let short = cut_off name 60 in
    record {
      id = [];
      user_id = user_id;
      credential_id = credential_id;
      credential = credential;
      name = if is_empty short then codes "Passkey" else short;
      created_at = 0;
      last_used_at = 0;
    }

-- FinishPasskeyRegistration, from the ceremony on.
unfoldable pub attest :
    WebAuthn → AuthRequest → Accounts → Text → Text → Text → Ceremony → Result AuthError Passkey
unfolding load_wa_user given new_passkey str_eq
attest w req a user_id name response cer =
    if not (str_eq cer.user_id user_id)
    then err invalid_passkey
    else load_wa_user w req a user_id >>= λ found.
        given invalid_passkey (w.parse_creation response) >>= λ parsed.
        given invalid_passkey (w.create_credential found.0 cer.session_data parsed) >>= λ cred.
        ok (new_passkey user_id name cred)

-- FinishPasskeyRegistration: its result is the id and the name of the passkey.
unfoldable pub finish_registration :
    AuthService
    → AuthRequest
    → Accounts
    → Text
    → Text
    → Text
    → Text
    → Result AuthError (Text × Text) × Accounts
unfolding with_passkeys take_ceremony given attest create_passkey wrapped
finish_registration s req a user_id ceremony_id name response = with_passkeys s a (λ w.
    let taken = take_ceremony a.ceremonies req.now ceremony_id (registering ∷ []) in
    let left : Accounts = record a { ceremonies = taken.1 } in
    (given invalid_passkey taken.0 >>= attest w req left user_id name response, left) >>> λ p a1.
    lift_part wrapped (λ rows. record a1 { passkeys = rows })
      (create_passkey req.passkey_fails req.new_id req.now a1.passkeys p)
    >>> λ id a2. (ok (id, p.name), a2))

-- ListPasskeys
unfoldable pub list_passkeys :
    AuthService → AuthRequest → Accounts → Text → Result AuthError (List Passkey)
unfolding passkeys_of wrapped
list_passkeys s req a user_id = elim (s.webauthn) [
  | none ↦ ok []
  | some w ↦ map_error wrapped (passkeys_of req.passkey_fails a.passkeys user_id)
]

-- The error of DeletePasskey.
unfoldable pub delete_error : PasskeyError → AuthError
delete_error passkey_not_found = nothing_found
delete_error passkey_internal = auth_failure

-- SetRequirePasskey of the accounts.
unfoldable pub write_require :
    AuthRequest → Accounts → Text → Bool → Result AuthError UserResponse × Accounts
unfolding set_require_passkey wrapped
write_require req a user_id on =
    lift_part wrapped (λ rows. record a { users = rows })
      (set_require_passkey req.user_request a.users user_id on)

-- DeletePasskey, with the passkeys that are left.
unfoldable pub after_removal :
    AuthRequest → Text → List Passkey → Accounts → Result AuthError (Unit {0}) × Accounts
unfolding write_require
after_removal req user_id [] a = write_require req a user_id false >>> λ u a1. (ok tt, a1)
after_removal req user_id (p ∷ ps) a = (ok tt, a)

-- DeletePasskey
unfoldable pub delete_passkey :
    AuthService → AuthRequest → Accounts → Text → Text → Result AuthError (Unit {0}) × Accounts
unfolding with_passkeys remove_passkey delete_error passkeys_of after_removal wrapped
delete_passkey s req a user_id id = with_passkeys s a (λ w.
    lift_part delete_error (λ rows. record a { passkeys = rows })
      (remove_passkey req.passkey_fails a.passkeys user_id id)
    >>> λ t a1.
        (map_error wrapped (passkeys_of req.passkey_fails a1.passkeys user_id), a1) >>> λ rest a2.
        after_removal req user_id rest a2)

-- SetRequirePasskey, what turning it on asks for.
unfoldable pub may_require :
    AuthService → AuthRequest → Accounts → Text → Result AuthError (Unit {0})
unfolding passkeys_of wrapped
may_require s req a user_id = elim (s.webauthn) [
  | none ↦ err passkeys_disabled
  | some w ↦ map_error wrapped (passkeys_of req.passkey_fails a.passkeys user_id) >>= λ rows.
      if is_empty rows then err no_passkey else ok tt
]

-- SetRequirePasskey
unfoldable pub set_requirement :
    AuthService → AuthRequest → Accounts → Text → Bool → Result AuthError UserResponse × Accounts
unfolding may_require write_require
set_requirement s req a user_id on =
    (if on then may_require s req a user_id else ok tt, a) >>> λ t a1.
    write_require req a1 user_id on

-- BeginPasskeyLogin
unfoldable pub begin_passkey_login :
    AuthService → AuthRequest → Accounts → Result AuthError SignIn × Accounts
unfolding with_passkeys given keep_ceremony
begin_passkey_login s req a = with_passkeys s a (λ w.
    (given auth_failure (w.begin_discoverable), a) >>> λ challenge a1.
    keep_ceremony req a1 signing_in [] challenge)

-- The callback of ValidateDiscoverableLogin.
unfoldable pub handle_user : WebAuthn → AuthRequest → Accounts → Text → Option WaUser
unfolding load_wa_user
handle_user w req a handle = elim (load_wa_user w req a handle) [
  | err e ↦ none
  | ok found ↦ some (found.0)
]

-- FinishPasskeyLogin, the validation: the account and the credential that signed.
unfoldable pub validated :
    WebAuthn
    → AuthRequest
    → Accounts
    → Ceremony
    → Text
    → Result AuthError (UserResponse × Text × Text)
unfolding same_kind load_wa_user given handle_user
validated w req a cer parsed =
    if same_kind cer.kind second_factor
    then elim (load_wa_user w req a cer.user_id) [
      | err e ↦ err invalid_passkey
      | ok found ↦
          given invalid_passkey (w.validate_login found.0 cer.session_data parsed) >>= λ cred.
          ok (found.0.account, cred.0, cred.1)
    ]
    else given invalid_passkey
        (w.validate_discoverable (handle_user w req a) cer.session_data parsed)
      >>= λ answer. given invalid_passkey (handle_user w req a answer.0) >>= λ wu.
          ok (wu.account, answer.1, answer.2)

-- FinishPasskeyLogin, the stored row of the credential, which must be the account's.
unfoldable pub own_row : AuthRequest → Accounts → UserResponse → Text → Result AuthError Passkey
unfolding by_credential str_eq
own_row req a u credential_id = elim (by_credential req.passkey_fails a.passkeys credential_id) [
  | err e ↦ err invalid_passkey
  | ok row ↦ if str_eq row.user_id u.id then ok row else err invalid_passkey
]

-- FinishPasskeyLogin, up to the session: the account, the row, and the credential to store.
unfoldable pub assert_passkey :
    WebAuthn
    → AuthRequest
    → Accounts
    → Text
    → Ceremony
    → Result AuthError (UserResponse × Passkey × Text)
unfolding given validated own_row
assert_passkey w req a response cer =
    given invalid_passkey (w.parse_assertion response) >>= λ parsed.
    validated w req a cer parsed >>= λ found.
    own_row req a found.0 found.1 >>= λ row. ok (found.0, row, found.2)

-- FinishPasskeyLogin. A failed Used is logged only.
unfoldable pub finish_passkey_login :
    AuthService → AuthRequest → Accounts → Text → Text → Client → Result AuthError SignIn × Accounts
unfolding with_passkeys take_ceremony given assert_passkey used start_session
finish_passkey_login s req a ceremony_id response c = with_passkeys s a (λ w.
    let taken = take_ceremony a.ceremonies req.now ceremony_id (signing_in ∷ second_factor ∷ []) in
    let left : Accounts = record a { ceremonies = taken.1 } in
    (given invalid_passkey taken.0 >>= assert_passkey w req left response, left) >>> λ found a1.
    start_session s req
      (record a1 {
        passkeys = (used req.passkey_fails a1.passkeys (found.1.id) (found.2) req.now).1;
      })
      (found.0) by_passkey c)
