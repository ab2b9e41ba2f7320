-- ===== src/Auth/Requirement.antt =====
-- Which accounts ask for a passkey, and what SetRequirePasskey (internals/app/user/service.go) does to that.
use mathlib.Core.Path.{subst}
use sade_safe_media_delivery.Auth.State.{Accounts}
use sade_safe_media_delivery.Base.{
  Bool, Bool-cases, List, Option, Option-cases, Result, Text, [], ap, arith, count_where,
  eq_of_str_eq, err, false, find_row, find_row-holds, if◌then◌else◌, inl, inr, none, ok, refl, some,
  str_eq, str_eq_iff, str_eq_refl, sym, true, update_where, with_key, ℕ, ◌==◌, ◌∙◌, ◌∷◌, ◌≡◌, ◌≤◌,
}
use sade_safe_media_delivery.Passkey.{Passkey}
use sade_safe_media_delivery.Payment.Status.{answer}
use sade_safe_media_delivery.User.{
  User, UserError, UserResponse, one_user, read_by_id, update_user, update_user_row, user_by_id,
  user_internal, user_not_found, user_response,
}
use sade_safe_media_delivery.User.Service.{UserRequest, after_update, set_require_passkey}

-- The passkeys of an account.
abbrev pub held : Text → List Passkey → ℕ
held k ps = count_where (λ p. str_eq p.user_id k) ps

abbrev pub asks : Option User → Bool
asks none = false
asks (some u) = u.require_passkey == 1

-- Whether an account asks for a passkey.
abbrev pub requires : Text → List User → Bool
requires k users = asks (find_row (with_key (λ u. u.id) k) users)

abbrev pub Covered : List User → List Passkey → Type 0
Covered users ps = (k : Text) → requires k users ≡ true → 1 ≤ held k ps

-- No account asks for a passkey that it does not have.
abbrev pub NoLockout : Accounts → Type 0
NoLockout a = Covered a.users a.passkeys

-- The accounts other than one.
abbrev pub CoveredBut : Text → List User → List Passkey → Type 0
CoveredBut id users ps = (k : Text) → str_eq id k ≡ false → requires k users ≡ true → 1 ≤ held k ps

-- The row that SetRequirePasskey writes.
abbrev pub required_row : User → ℕ → ℕ → User → User
required_row u v now r = record u {
  require_passkey = v;
  created_at = r.created_at;
  updated_at = now;
}

-- How SetRequirePasskey of the accounts ends: it fails, or the row has the value, or gets it.
pub data Answered (users : List User) (id : Text) (v now : ℕ)
    : Result UserError UserResponse × List User → Type 0 where
  not_written : (e : UserError) → Answered users id v now (err e, users)
  held_already :
      (u : User)
      → find_row (λ r. str_eq r.id id) users ≡ some u
      → (u.require_passkey == v) ≡ true
      → Answered users id v now (ok (user_response u), users)
  rewritten :
      (u : User)
      → find_row (λ r. str_eq r.id id) users ≡ some u
      → Answered users id v now (
        ok (user_response (record u { require_passkey = v })),
        update_where (λ r. str_eq r.id u.id) (required_row u v now) users,
      )

update_user_row-Answered :
    (req : UserRequest) (users : List User) (id : Text) (v : ℕ) (u : User)
    → find_row (λ r. str_eq r.id id) users ≡ some u
    → Answered users id v req.now (
        after_update
          (record u { require_passkey = v })
          (update_user_row req.fails req.now users (record u { require_passkey = v })))
unfolding update_user_row after_update
update_user_row-Answered req users id v u found = elim (Bool-cases (req.fails update_user)) [
  | inl down ↦ rw (update_user_row, down, after_update) (not_written user_internal)
  | inr up ↦ elim (Bool-cases (count_where (λ r. str_eq r.id u.id) users == 0)) [
    | inl gone ↦ rw (update_user_row, up, gone, after_update) (not_written user_internal)
    | inr there ↦ rw (update_user_row, up, there, after_update) (rewritten u found)
  ]
]

pub set_require_passkey-Answered :
    (req : UserRequest) (users : List User) (id : Text) (on : Bool)
    → Answered users id (if on then 1 else 0) req.now (set_require_passkey req users id on)
unfolding set_require_passkey user_by_id one_user
set_require_passkey-Answered req users id on =
    let v : ℕ = if on then 1 else 0 in
    elim (Bool-cases (req.fails read_by_id)) [
      | inl down ↦ rw (set_require_passkey, down) (not_written user_internal)
      | inr up ↦ elim (Option-cases (find_row (λ r. str_eq r.id id) users)) [
        | inl missing ↦ rw (set_require_passkey, up, missing) (not_written user_not_found)
        | inr (u, found) ↦ elim (Bool-cases (u.require_passkey == v)) [
          | inl same ↦ rw (set_require_passkey, up, found, same) (held_already u found same)
          | inr apart ↦
              rw (set_require_passkey, up, found, apart)
                (update_user_row-Answered req users id v u found)
        ]
      ]
    ]

module _ (u : User) (v now : ℕ) where
  find_row-rewritten_ne :
      (k : Text) (users : List User)
      → str_eq u.id k ≡ false
      → find_row
          (λ r. str_eq r.id k)
          (update_where (λ r. str_eq r.id u.id) (required_row u v now) users)
        ≡ find_row (λ r. str_eq r.id k) users
  unfolding find_row update_where
  find_row-rewritten_ne k [] apart = refl
  find_row-rewritten_ne k (r ∷ rs) apart = ground (
    arith,
    str_eq_iff r.id u.id,
    str_eq_iff r.id k,
    str_eq_iff u.id k,
    find_row-rewritten_ne k rs apart,
  )

  requires-rewritten :
      (users : List User)
      → (v == 1) ≡ false
      → requires u.id (update_where (λ r. str_eq r.id u.id) (required_row u v now) users) ≡ false
  unfolding find_row update_where
  requires-rewritten [] off = refl
  requires-rewritten (r ∷ rs) off = elim (Bool-cases (str_eq r.id u.id)) [
    | inl e ↦ rw (e, str_eq_refl u.id, off) refl
    | inr e ↦ rw (e, e) (requires-rewritten rs off)
  ]

-- Another account is left as it was.
Answered-others :
    {users : List User} {id : Text} {v now : ℕ} {out : Result UserError UserResponse × List User}
    (k : Text)
    → Answered users id v now out
    → str_eq id k ≡ false
    → requires k out.1 ≡ requires k users
Answered-others k (not_written e) apart = refl
Answered-others k (held_already u found same) apart = refl
Answered-others {users} {id} {v} {now} k (rewritten u found) apart =
    let own = eq_of_str_eq u.id id (find_row-holds (λ r. str_eq r.id id) users u found) in
    ap asks
      (find_row-rewritten_ne u v now k users (subst (λ j. str_eq j k ≡ false) (sym own) apart))

-- What is switched off is off.
pub Answered-off :
    {users : List User} {id : Text} {now : ℕ} {out : Result UserError UserResponse × List User}
    {r : UserResponse}
    → Answered users id 0 now out
    → out.0 ≡ ok r
    → requires id out.1 ≡ false
Answered-off (not_written e) h = cc
Answered-off (held_already u found same) h = ground (arith, found, same)
Answered-off {users} {id} {now} (rewritten u found) h =
    let own = eq_of_str_eq u.id id (find_row-holds (λ r. str_eq r.id id) users u found) in
    subst
      (λ j. requires j (update_where (λ r. str_eq r.id u.id) (required_row u 0 now) users) ≡ false)
      own (requires-rewritten u 0 now users refl)

pub Answered-Covered :
    {users : List User} {id : Text} {v now : ℕ} {out : Result UserError UserResponse × List User}
    (ps : List Passkey)
    → Answered users id v now out
    → CoveredBut id users ps
    → (requires id out.1 ≡ true → 1 ≤ held id ps)
    → Covered out.1 ps
Answered-Covered {users} {id} {out = out} ps answer others own k asked =
    elim (Bool-cases (str_eq id k)) [
      | inr apart ↦ others k apart (sym (Answered-others k answer apart) ∙ asked)
      | inl same ↦
          let e = eq_of_str_eq id k same in
          subst (λ j. 1 ≤ held j ps) e (own (subst (λ j. requires j out.1 ≡ true) (sym e) asked))
    ]

pub Covered-But :
    (id : Text) (users : List User) (ps : List Passkey) → Covered users ps → CoveredBut id users ps
Covered-But id users ps safe k apart asked = safe k asked
