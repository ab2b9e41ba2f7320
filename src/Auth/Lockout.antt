-- ===== src/Auth/Lockout.antt =====
-- An account that asks for a passkey has one (internals/app/auth/passkeys.go).
use mathlib.Core.Path.{subst}
use sade_safe_media_delivery.Auth.Ceremony.{take_ceremony}
use sade_safe_media_delivery.Auth.Passkeys.{
  after_removal, attest, delete_passkey, finish_registration, may_require, set_requirement,
  with_passkeys, write_require,
}
use sade_safe_media_delivery.Auth.Requirement.{
  Answered, Answered-Covered, Answered-off, Covered, Covered-But, CoveredBut, NoLockout, held,
  held_already, not_written, required_row, requires, rewritten, set_require_passkey-Answered,
}
use sade_safe_media_delivery.Auth.Start.{given}
use sade_safe_media_delivery.Auth.State.{
  Accounts, AuthError, AuthRequest, AuthService, invalid_passkey, registering, wrapped,
}
use sade_safe_media_delivery.Base.{
  >>>-answer, >>>-eq_ok, Bool, Bool-cases, List, Option-cases, Result, Result-cases, Text, [], ap,
  arith, count_where, count_where-delete_others, count_where-eq-length, count_where-last,
  delete_where, err, false, inl, inr, is_empty, length, lift_part, lift_part-eq_ok, lift_part-state,
  ltb, ok, refl, select, str_eq, str_eq_iff, sym, true, update_where, ℕ, ◌==◌, ◌>>=◌, ◌>>>◌, ◌||◌,
  ◌∙◌, ◌∷◌, ◌≡◌, ◌≤◌,
}
use sade_safe_media_delivery.Passkey.{
  Passkey, PasskeyOutage, create_passkey, drop_passkey, insert_passkey, is_passkey_of, passkeys_of,
  read_passkeys, remove_passkey,
}
use sade_safe_media_delivery.User.{User, UserError, UserResponse, user_internal, user_response}
use sade_safe_media_delivery.User.Service.{set_require_passkey}

write_require-NoLockout :
    (req : AuthRequest) (a : Accounts) (id : Text) (on : Bool)
    → CoveredBut id a.users a.passkeys
    → (requires id (set_require_passkey req.user_request a.users id on).1 ≡ true
        → 1 ≤ held id a.passkeys)
    → NoLockout (write_require req a id on).1
unfolding write_require
write_require-NoLockout req a id on others own =
    subst NoLockout
      (sym (
        lift_part-state wrapped (λ rows. record a { users = rows })
          (set_require_passkey req.user_request a.users id on)))
      (Answered-Covered a.passkeys (set_require_passkey-Answered req.user_request a.users id on)
        others own)

after_removal-NoLockout :
    (req : AuthRequest) (id : Text) (rest : List Passkey) (a : Accounts)
    → rest ≡ select (λ p. str_eq p.user_id id) a.passkeys
    → CoveredBut id a.users a.passkeys
    → (after_removal req id rest a).0 ≡ ok tt
    → NoLockout (after_removal req id rest a).1
unfolding after_removal
after_removal-NoLockout req id [] a none_left others h =
    let out = set_require_passkey req.user_request a.users id false in
    let switched = >>>-eq_ok (write_require req a id false) (λ u a1. (ok tt, a1)) h in
    let off : requires id out.1 ≡ false =
      Answered-off (set_require_passkey-Answered req.user_request a.users id false)
        (lift_part-eq_ok wrapped (λ rows. record a { users = rows }) out switched.1) in
    subst NoLockout (sym (>>>-answer (write_require req a id false) (λ u. tt)))
      (write_require-NoLockout req a id false others (λ asked. absurd (ground (arith, off, asked))))
after_removal-NoLockout req id (p ∷ ps) a left others h =
    Answered-Covered {id = id} {v = 0} {now = 0} {out = (err user_internal, a.users)} a.passkeys
      (not_written user_internal) others
      (λ asked.
        omega (arith, count_where-eq-length (λ p. str_eq p.user_id id) a.passkeys, ap length left))

remove_passkey-others :
    (id pid : Text) (users : List User) (ps : List Passkey)
    → Covered users ps
    → CoveredBut id users (delete_where (is_passkey_of id pid) ps)
unfolding is_passkey_of
remove_passkey-others id pid users ps safe k apart asked =
    rw
      (count_where-delete_others (λ p. str_eq p.user_id k) (is_passkey_of id pid)
        (λ p own.
          ground
            (arith, str_eq_iff p.user_id k, str_eq_iff p.user_id id, str_eq_iff id k, own, apart))
        ps)
      (safe k asked)

-- DeletePasskey that answers keeps every account out of a lockout.
delete_passkey-NoLockout :
    (s : AuthService) (req : AuthRequest) (a : Accounts) (id pid : Text)
    → NoLockout a
    → (delete_passkey s req a id pid).0 ≡ ok tt
    → NoLockout (delete_passkey s req a id pid).1
unfolding delete_passkey with_passkeys remove_passkey passkeys_of
delete_passkey-NoLockout s req a id pid safe h = elim (Option-cases s.webauthn) [
  | inl off ↦ absurd (ground (arith, off, h))
  | inr (w, on) ↦ elim (Bool-cases (req.passkey_fails drop_passkey)) [
    | inl down ↦ absurd (ground (arith, on, down, h))
    | inr up ↦ elim (Bool-cases (count_where (is_passkey_of id pid) a.passkeys == 0)) [
      | inl missing ↦ absurd (ground (arith, on, up, missing, h))
      | inr there ↦ elim (Bool-cases (req.passkey_fails read_passkeys)) [
        | inl down ↦ absurd (ground (arith, on, up, there, down, h))
        | inr read ↦
            let left = delete_where (is_passkey_of id pid) a.passkeys in
            let a1 : Accounts = record a { passkeys = left } in
            let same : delete_passkey s req a id pid
                ≡ after_removal req id (select (λ p. str_eq p.user_id id) left) a1 =
              rw (delete_passkey, with_passkeys, on, remove_passkey, up, there, passkeys_of, read)
                refl in
            subst NoLockout (sym (ap (λ r. r.1) same)) (
              after_removal-NoLockout req id (select (λ p. str_eq p.user_id id) left) a1 refl
                (remove_passkey-others id pid a.users a.passkeys safe)
                (sym (ap (λ r. r.0) same) ∙ h))
      ]
    ]
  ]
]

-- Switching off asks for nothing.
Answered-own :
    {users : List User} {id : Text} {now : ℕ} {out : Result UserError UserResponse × List User}
    → Answered users id 0 now out
    → requires id out.1 ≡ true
    → requires id users ≡ true
Answered-own (not_written e) asked = asked
Answered-own (held_already u found same) asked = asked
Answered-own {users} {id} {now} (rewritten u found) asked =
    let answer : Answered users id 0 now (
      ok (user_response (record u { require_passkey = 0 })),
      update_where (λ r. str_eq r.id u.id) (required_row u 0 now) users,
    ) =
      rewritten u found in
    let off = Answered-off answer refl in absurd (ground (arith, off, asked))

length-filled : {A : Type 0} (xs : List A) → is_empty xs ≡ false → 1 ≤ length xs
length-filled [] filled = absurd (ground (arith, filled))
length-filled (x ∷ xs) filled = omega arith

may_require-held :
    (s : AuthService) (req : AuthRequest) (a : Accounts) (id : Text)
    → may_require s req a id ≡ ok tt
    → 1 ≤ held id a.passkeys
unfolding may_require passkeys_of
may_require-held s req a id h = elim (Option-cases s.webauthn) [
  | inl off ↦ absurd (ground (arith, off, h))
  | inr (w, on) ↦ elim (Bool-cases (req.passkey_fails read_passkeys)) [
    | inl down ↦ absurd (ground (arith, on, down, h))
    | inr up ↦ elim (Bool-cases (is_empty (select (λ p. str_eq p.user_id id) a.passkeys))) [
      | inl none_there ↦ absurd (ground (arith, on, up, none_there, h))
      | inr some_there ↦ omega (
        arith,
        count_where-eq-length (λ p. str_eq p.user_id id) a.passkeys,
        length-filled (select (λ p. str_eq p.user_id id) a.passkeys) some_there,
      )
    ]
  ]
]

-- SetRequirePasskey does so whatever its outcome.
set_requirement-NoLockout :
    (s : AuthService) (req : AuthRequest) (a : Accounts) (id : Text) (on : Bool)
    → NoLockout a
    → NoLockout (set_requirement s req a id on).1
unfolding set_requirement
set_requirement-NoLockout s req a id false safe =
    write_require-NoLockout req a id false (Covered-But id a.users a.passkeys safe) (λ asked.
      safe id (Answered-own (set_require_passkey-Answered req.user_request a.users id false) asked))
set_requirement-NoLockout s req a id true safe = elim (Result-cases (may_require s req a id)) [
  | inr (e, refused) ↦ rw (set_requirement, refused) safe
  | inl (t, allowed) ↦
      rw (set_requirement, allowed)
        (write_require-NoLockout req a id true (Covered-But id a.users a.passkeys safe)
          (λ asked. may_require-held s req a id allowed))
]

create_passkey-Covered :
    (fails : PasskeyOutage) (id : Text) (now : ℕ) (users : List User) (ps : List Passkey)
    (p : Passkey)
    → Covered users ps
    → Covered users (create_passkey fails id now ps p).1
unfolding create_passkey
create_passkey-Covered fails id now users ps p safe k asked =
    elim (Bool-cases (
      fails insert_passkey
      || ltb 0 (count_where (λ r. str_eq r.credential_id p.credential_id) ps))) [
        | inl refused ↦ rw (create_passkey, refused) (safe k asked)
        | inr stored ↦
            rw (create_passkey, stored)
              (omega (
                arith,
                safe k asked,
                count_where-last (λ q. str_eq q.user_id k) ps
                    (record p { id = id; created_at = now }),
              ))
      ]

-- So does FinishPasskeyRegistration.
finish_registration-NoLockout :
    (s : AuthService) (req : AuthRequest) (a : Accounts) (id ceremony_id name response : Text)
    → NoLockout a
    → NoLockout (finish_registration s req a id ceremony_id name response).1
unfolding finish_registration with_passkeys
finish_registration-NoLockout s req a id ceremony_id name response safe =
    elim (Option-cases s.webauthn) [
      | inl off ↦ rw (finish_registration, with_passkeys, off) safe
      | inr (w, on) ↦
          let taken = take_ceremony a.ceremonies req.now ceremony_id (registering ∷ []) in
          let left : Accounts = record a { ceremonies = taken.1 } in
          elim (Result-cases
            (given invalid_passkey taken.0 >>= attest w req left id name response)) [
              | inr (e, refused) ↦ rw (finish_registration, with_passkeys, on, refused) safe
              | inl (p, made) ↦
                  rw (finish_registration, with_passkeys, on, made)
                    (let stored =
                        create_passkey req.passkey_fails req.new_id req.now a.passkeys p in
                      let put = λ (rows : List Passkey). record left { passkeys = rows } in
                      let step = lift_part wrapped put stored in
                      subst NoLockout
                        (sym (
                          >>>-answer step (λ pid. (pid, p.name))
                          ∙ lift_part-state wrapped put stored))
                        (create_passkey-Covered req.passkey_fails req.new_id req.now a.users
                          a.passkeys p safe))
            ]
    ]

-- A change to the passkeys of an account.
pub data PasskeyCall : Type 0 where
  registers : Text → Text → Text → PasskeyCall
  removes : Text → PasskeyCall
  switches : Bool → PasskeyCall

-- The answer and the tables after it.
unfoldable pub after_passkey_call :
    AuthService
    → AuthRequest
    → Accounts
    → Text
    → PasskeyCall
    → Result AuthError (Unit {0}) × Accounts
unfolding finish_registration delete_passkey set_requirement
after_passkey_call s req a id (registers ceremony_id name response) =
    finish_registration s req a id ceremony_id name response >>> λ p a1. (ok tt, a1)
after_passkey_call s req a id (removes pid) = delete_passkey s req a id pid
after_passkey_call s req a id (switches on) = set_requirement s req a id on >>> λ u a1. (ok tt, a1)

-- If no account asks for a passkey that it does not have, then none does after a call that answers
-- without an error: a registration, the removal of a passkey, or the requirement switched on or off.
pub passkey_calls-NoLockout :
    (s : AuthService) (req : AuthRequest) (a : Accounts) (id : Text) (c : PasskeyCall)
    → NoLockout a
    → (after_passkey_call s req a id c).0 ≡ ok tt
    → NoLockout (after_passkey_call s req a id c).1
unfolding after_passkey_call
passkey_calls-NoLockout s req a id (registers ceremony_id name response) safe h =
    subst NoLockout
      (sym (>>>-answer (finish_registration s req a id ceremony_id name response) (λ p. tt)))
      (finish_registration-NoLockout s req a id ceremony_id name response safe)
passkey_calls-NoLockout s req a id (removes pid) safe h =
    delete_passkey-NoLockout s req a id pid safe h
passkey_calls-NoLockout s req a id (switches on) safe h =
    subst NoLockout (sym (>>>-answer (set_requirement s req a id on) (λ u. tt)))
      (set_requirement-NoLockout s req a id on safe)
