-- ===== src/Auth/Uniform.antt =====
-- RequestLink of internals/app/auth answers alike, whoever has the address.
use mathlib.Core.Path.{subst}
use sade_safe_media_delivery.Auth.Ceremony.{put}
use sade_safe_media_delivery.Auth.Login.{
  account_for, issue, limited_issue, link_for, new_token, request_link, send_link,
}
use sade_safe_media_delivery.Auth.Policy.{normal_addr, signup_allowed}
use sade_safe_media_delivery.Auth.State.{
  Accounts, AuthError, AuthRequest, AuthService, auth_failure, drawn, wrapped,
}
use sade_safe_media_delivery.Base.{
  >>>-ok_state, Bool, Bool-cases, List, Option, Option-cases, Result, Text, [], ap, arith,
  count_where, err, false, find_row, if_either, inl, inr, is_empty, lift_part, ltb, none, ok, refl,
  some, sym, true, ◌++◌, ◌>>>◌, ◌∙◌, ◌∷◌, ◌≡◌, ◌⊎◌,
}
use sade_safe_media_delivery.MagicToken.{MagicToken, Stmt, create, has_hash, insert_row}
use sade_safe_media_delivery.Ratelimit.{allow_optional}
use sade_safe_media_delivery.User.{
  User, UserError, UserResponse, UserStmt, create_user, has_email, insert_user, one_user,
  read_again, read_by_email, user_by_email, user_response,
}
use sade_safe_media_delivery.User.Service.{
  UserRequest, after_insert, after_read, ensure_by_email, find_by_email, new_user, normal_address,
}

-- Nothing fails during a request, and the secret that is drawn for the link is new.
pub record Smooth (s : AuthService) (req : AuthRequest) (tokens : List MagicToken) : Type 0 where
  pub users_work : (st : UserStmt) → req.user_request.fails st ≡ false
  pub tokens_work : (st : Stmt) → req.token_fails st ≡ false
  pub mail_works : req.mail_fails ≡ false
  pub raw : Text
  pub is_raw : req.secret ≡ some raw
  pub is_fresh : count_where (has_hash (s.hash raw)) tokens ≡ 0
  pub digits : Text
  pub is_digits : req.code ≡ some digits

-- An address with the normal form `norm` that need not get a new account, or can: its normal form parses, or
-- an account has it, or the sign-up policy refuses it.
abbrev pub IsAnswerable : AuthService → Accounts → Text → Text → Type 0
IsAnswerable s a email norm =
    ((again : Text) × (normal_address s.parse (normal_addr s email) ≡ ok again))
    ⊎ (((u : User) × (find_row (has_email norm) a.users ≡ some u))
        ⊎ (signup_allowed s (normal_addr s email) ≡ false))

count_where-missing :
    (p : User → Bool) (users : List User) → find_row p users ≡ none → count_where p users ≡ 0
unfolding find_row count_where
count_where-missing p [] h = refl
count_where-missing p (u ∷ users) h = ground (arith, h, count_where-missing p users)

-- EnsureByEmail finds or makes an account.
ensure_by_email-ok :
    (parse : Text → Option Text) (req : UserRequest) (users : List User) (raw norm : Text)
    → ((st : UserStmt) → req.fails st ≡ false)
    → normal_address parse raw ≡ ok norm
    → (u : UserResponse) × ((ensure_by_email parse req users raw).0 ≡ ok u)
unfolding ensure_by_email after_read user_by_email after_insert create_user one_user
ensure_by_email-ok parse req users raw norm works is_norm =
    let all = users ++ req.meanwhile in
    elim (Option-cases (find_row (has_email norm) users)) [
      | inr (u, found) ↦ (
        user_response u,
        rw (ensure_by_email, is_norm, user_by_email, one_user, works read_by_email, found) refl,
      )
      | inl missing ↦ elim (Bool-cases (ltb 0 (count_where (has_email norm) all))) [
        | inr fresh ↦ (
          user_response (record (new_user norm) { id = req.new_id }),
          rw
              (
                ensure_by_email,
                is_norm,
                user_by_email,
                one_user,
                works read_by_email,
                missing,
                create_user,
                works insert_user,
                fresh,
              )
              refl,
        )
        | inl raced ↦ elim (Option-cases (find_row (has_email norm) all)) [
          | inl never ↦
              absurd (ground (arith, raced, count_where-missing (has_email norm) all never))
          | inr (u, found) ↦ (
            user_response u,
            rw
                (
                  ensure_by_email,
                  is_norm,
                  user_by_email,
                  one_user,
                  works read_by_email,
                  missing,
                  create_user,
                  works insert_user,
                  raced,
                  after_insert,
                  one_user,
                  works read_again,
                  found,
                )
                refl,
          )
        ]
      ]
    ]

lifted_ok :
    (m : Result UserError UserResponse × List User) (put : List User → Accounts) {u : UserResponse}
    → m.0 ≡ ok u
    → (lift_part wrapped put m >>> λ u a1. (ok (some u), a1)).0 ≡ ok (some u)
lifted_ok (ok v, rows) put h = cc
lifted_ok (err e, rows) put h = cc

lifted_err :
    (a : Accounts) (m : Result UserError UserResponse × List User)
    (step : Option UserResponse → Accounts → Result AuthError (Unit {0}) × Accounts) {e : UserError}
    → m.0 ≡ err e
    → ((lift_part wrapped (λ rows. record a { users = rows }) m >>> λ u a1. (ok (some u), a1))
        >>> step).0
      ≡ err auth_failure
unfolding wrapped
lifted_err a (ok v, rows) step h = cc
lifted_err a (err x, rows) step h = refl

ensure_by_email-unread :
    (parse : Text → Option Text) (req : UserRequest) (users : List User) (raw : Text)
    {e : UserError}
    → normal_address parse raw ≡ err e
    → (ensure_by_email parse req users raw).0 ≡ err e
unfolding ensure_by_email
ensure_by_email-unread parse req users raw h = rw (ensure_by_email, h) refl

lifted_tokens :
    (a : Accounts) (m : Result UserError UserResponse × List User)
    → (lift_part wrapped (λ rows. record a { users = rows }) m >>> λ u a1.
        (ok (some u), a1)).1.tokens
      ≡ a.tokens
lifted_tokens a (ok v, rows) = refl
lifted_tokens a (err e, rows) = refl

-- The account of an address, or the silence of the policy, or the error of an account that cannot be made.
module _ (s : AuthService) (req : AuthRequest) (a : Accounts) (email norm : Text)
    (works : (st : UserStmt) → req.user_request.fails st ≡ false)
    (is_norm : normal_address s.parse email ≡ ok norm) where
  account_for-known :
      (u : User)
      → find_row (has_email norm) a.users ≡ some u
      → account_for s req a email ≡ (ok (some (user_response u)), a)
  unfolding account_for find_by_email user_by_email one_user
  account_for-known u found =
      rw (account_for, find_by_email, is_norm, user_by_email, one_user, works read_by_email, found)
        refl

  account_for-refused :
      find_row (has_email norm) a.users ≡ none
      → signup_allowed s (normal_addr s email) ≡ false
      → account_for s req a email ≡ (ok none, a)
  unfolding account_for find_by_email user_by_email one_user
  account_for-refused missing refused_one =
      rw
        (
          account_for,
          find_by_email,
          is_norm,
          user_by_email,
          one_user,
          works read_by_email,
          missing,
          refused_one,
        )
        refl

  account_for-new :
      find_row (has_email norm) a.users ≡ none
      → signup_allowed s (normal_addr s email) ≡ true
      → account_for s req a email ≡ (
          lift_part wrapped
            (λ rows. record a { users = rows })
            (ensure_by_email s.parse req.user_request a.users (normal_addr s email))
          >>> λ u a1. (ok (some u), a1))
  unfolding account_for find_by_email user_by_email one_user
  account_for-new missing allowed =
      rw
        (
          account_for,
          find_by_email,
          is_norm,
          user_by_email,
          one_user,
          works read_by_email,
          missing,
          allowed,
        )
        refl

-- The tokens are those of before.
abbrev Finds : AuthService → AuthRequest → Accounts → Text → Type 0
Finds s req a email =
    (u : Option UserResponse) × ((account_for s req a email).0 ≡ ok u)
    × ((account_for s req a email).1.tokens ≡ a.tokens)

account_for-ok :
    (s : AuthService) (req : AuthRequest) (a : Accounts) (email norm : Text)
    → Smooth s req a.tokens
    → normal_address s.parse email ≡ ok norm
    → IsAnswerable s a email norm
    → Finds s req a email
account_for-ok s req a email norm smooth is_norm can =
    elim (Option-cases (find_row (has_email norm) a.users)) [
      | inr (u, found) ↦
          let same = account_for-known s req a email norm smooth.users_work is_norm u found in
          (some (user_response u), ap (λ r. r.0) same, ap (λ r. r.1.tokens) same)
      | inl missing ↦ elim (Bool-cases (signup_allowed s (normal_addr s email))) [
        | inr refused_one ↦
            let same =
              account_for-refused s req a email norm smooth.users_work is_norm missing
                refused_one in
            (none, ap (λ r. r.0) same, ap (λ r. r.1.tokens) same)
        | inl allowed ↦ elim can [
          | inr (inr refused_one) ↦ absurd (ground (arith, allowed, refused_one))
          | inr (inl (u, found)) ↦ cc
          | inl (again, is_again) ↦
              let same =
                account_for-new s req a email norm smooth.users_work is_norm missing allowed in
              let made =
                ensure_by_email-ok s.parse req.user_request a.users (normal_addr s email) again
                  smooth.users_work is_again in
              let m = ensure_by_email s.parse req.user_request a.users (normal_addr s email) in
              (
                some made.0,
                ap (λ r. r.0) same ∙ lifted_ok m (λ rows. record a { users = rows }) made.1,
                ap (λ r. r.1.tokens) same ∙ lifted_tokens a m,
              )
        ]
      ]
    ]

issue-ok :
    (s : AuthService) (req : AuthRequest) (a : Accounts) (u : UserResponse) (browser_nonce : Text)
    → Smooth s req a.tokens
    → (issue s req a u browser_nonce).0 ≡ ok tt
unfolding issue drawn create send_link new_token
issue-ok s req a u browser_nonce smooth =
    rw
      (
        issue,
        smooth.is_raw,
        smooth.is_digits,
        create,
        smooth.tokens_work insert_row,
        smooth.is_fresh,
        send_link,
        smooth.mail_works,
      )
      refl

link_for-ok :
    (s : AuthService) (req : AuthRequest) (a : Accounts) (u : Option UserResponse)
    (browser_nonce : Text)
    → Smooth s req a.tokens
    → (link_for s req browser_nonce u a).0 ≡ ok tt
unfolding link_for limited_issue
link_for-ok s req a none browser_nonce smooth = refl
link_for-ok s req a (some u) browser_nonce smooth =
    let asked = allow_optional a.limiter u.email req.now req.now in
    let a1 : Accounts = record a { limiter = asked.0 } in
    if_either (λ (r : Result AuthError (Unit {0}) × Accounts). r.0 ≡ ok tt) asked.1
      (issue-ok s req a1 u browser_nonce smooth) refl

-- Let an address parse, and let nothing fail during the request of a browser with a nonce. RequestLink answers
-- without an error when the normal form of the address parses too, or an account has it, or the sign-up policy
-- refuses it; so whether an address of the first sort has an account, may have one, or has used up its
-- limit does not show. In the one case that is left, of a normal form that does not parse, no account,
-- and a policy that allows it, RequestLink answers with an error.
pub request_link-uniform :
    (s : AuthService) (req : AuthRequest) (a : Accounts) (email browser_nonce norm : Text)
    → Smooth s req a.tokens
    → normal_address s.parse email ≡ ok norm
    → is_empty browser_nonce ≡ false
    → (IsAnswerable s a email norm → (request_link s req a email browser_nonce).0 ≡ ok tt)
      × ((e : UserError)
          → normal_address s.parse (normal_addr s email) ≡ err e
          → find_row (has_email norm) a.users ≡ none
          → signup_allowed s (normal_addr s email) ≡ true
          → (request_link s req a email browser_nonce).0 ≡ err auth_failure)
unfolding request_link
request_link-uniform s req a email browser_nonce norm smooth is_norm nonce =
    let step = λ (u : Option UserResponse) (a1 : Accounts). link_for s req browser_nonce u a1 in
    let same : request_link s req a email browser_nonce ≡ (account_for s req a email >>> step) =
      rw (request_link, nonce) refl in
    (
      λ can.
          let account = account_for-ok s req a email norm smooth is_norm can in
          ap (λ r. r.0) (same ∙ >>>-ok_state (account_for s req a email) step account.1)
          ∙ link_for-ok s req (account_for s req a email).1 account.0 browser_nonce
              (subst (Smooth s req) (sym account.2) smooth),
      λ e unread missing allowed.
          ap (λ r. r.0)
            (same
              ∙ ap (λ m. m >>> step)
                  (account_for-new s req a email norm smooth.users_work is_norm missing allowed))
          ∙ lifted_err a (ensure_by_email s.parse req.user_request a.users (normal_addr s email))
              step
              (ensure_by_email-unread s.parse req.user_request a.users (normal_addr s email)
                unread),
    )
