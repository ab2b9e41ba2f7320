-- ===== src/Auth/Second.antt =====
-- An account that asks for a passkey is not opened by an e-mail alone (internals/app/auth).
use sade_safe_media_delivery.Auth.Login.{
  code_error, complete, complete_with_code, find_error, link_error, max_code_attempts, with_code,
}
use sade_safe_media_delivery.Auth.Policy.{is_six_digits, matches}
use sade_safe_media_delivery.Auth.Start.{
  after_email_step, begin_second_factor, given, keep_ceremony, load_wa_user, opened, with_account,
}
use sade_safe_media_delivery.Auth.State.{
  Accounts, AuthError, AuthRequest, AuthService, CeremonyKind, Client, WebAuthn, auth_failure,
  drawn, second_factor, wrapped,
}
use sade_safe_media_delivery.Base.{
  >>>-eq_ok, Bool-cases, List, Option-cases, Result, Text, ap, arith, err, false, inl, inr,
  is_empty, lift_part, map_error, map_error-eq_ok, not, ok, refl, some, sym, ℕ, ◌>>=◌, ◌>>>◌, ◌||◌,
  ◌∙◌, ◌≡◌, ◌≢◌,
}
use sade_safe_media_delivery.GoText.{trim_space}
use sade_safe_media_delivery.LoginEvent.{Method, by_code, by_link}
use sade_safe_media_delivery.MagicToken.{MagicToken, TokenError, consume, consume_by_code}
use sade_safe_media_delivery.Payment.Service.{enabled}
use sade_safe_media_delivery.User.{UserResponse}
use sade_safe_media_delivery.User.Service.{find_by_email, get_user}

keep_ceremony-never_opened :
    (req : AuthRequest) (a : Accounts) (k : CeremonyKind) (id : Text) (challenge : Text × Text)
    (secret : Text) (exp : ℕ)
    → (keep_ceremony req a k id challenge).0 ≢ ok (opened secret exp)
unfolding keep_ceremony drawn
keep_ceremony-never_opened req a k id challenge secret exp h = elim (Option-cases (req.secret)) [
  | inl dry ↦ ground (arith, dry, h)
  | inr (drawn_id, some_id) ↦ ground (arith, some_id, h)
]

begin_second_factor-never_opened :
    (w : WebAuthn) (req : AuthRequest) (a : Accounts) (id secret : Text) (exp : ℕ)
    → (begin_second_factor w req a id).0 ≢ ok (opened secret exp)
unfolding begin_second_factor
begin_second_factor-never_opened w req a id secret exp h =
    let found =
      >>>-eq_ok
        (load_wa_user w req a id >>= (λ found. given auth_failure (w.begin_login found.0)), a)
        (λ challenge a1. keep_ceremony req a1 second_factor id challenge) h in
    keep_ceremony-never_opened req a second_factor id found.0 secret exp found.2

-- What the e-mail step opens belongs to an account that asks for no passkey.
after_email_step-opened :
    (s : AuthService) (w : WebAuthn) (req : AuthRequest) (a : Accounts) (id : Text) (m : Method)
    (c : Client) (secret : Text) (exp : ℕ)
    → s.webauthn ≡ some w
    → (after_email_step s req a id m c).0 ≡ ok (opened secret exp)
    → (u : UserResponse) × (get_user req.user_request a.users id ≡ ok u)
      × (u.require_passkey ≡ false)
unfolding after_email_step with_account
after_email_step-opened s w req a id m c secret exp enabled h =
    let loaded =
      >>>-eq_ok (map_error wrapped (get_user req.user_request a.users id), a)
        (λ u a1. with_account s req a1 id u m c) h in
    let u = loaded.0 in
    elim (Bool-cases (u.require_passkey)) [
      | inr e ↦ (u, map_error-eq_ok wrapped (get_user req.user_request a.users id) loaded.1, e)
      | inl asks ↦ absurd (
          let same : with_account s req a id u m c ≡ begin_second_factor w req a id =
            rw (with_account, enabled, asks) refl in
          begin_second_factor-never_opened w req a id secret exp
            (sym (ap (λ r. r.0) same) ∙ loaded.2))
    ]

-- What follows a link or a code that was spent.
spent-opened :
    {A : Type 0} (s : AuthService) (w : WebAuthn) (req : AuthRequest) (a : Accounts)
    (to_error : TokenError → AuthError) (spent : Result TokenError A × List MagicToken)
    (id_of : A → Text) (m : Method) (c : Client) {secret : Text} {exp : ℕ}
    → s.webauthn ≡ some w
    → (lift_part to_error (λ rows. record a { tokens = rows }) spent >>> λ t a1.
        after_email_step s req a1 (id_of t) m c).0
      ≡ ok (opened secret exp)
    → (t : A) × (spent.0 ≡ ok t)
      × (u : UserResponse) × (get_user req.user_request a.users (id_of t) ≡ ok u)
      × (u.require_passkey ≡ false)
spent-opened s w req a to_error (ok t, rows) id_of m c {secret} {exp} on h =
    let u =
      after_email_step-opened s w req (record a { tokens = rows }) (id_of t) m c secret exp on h in
    (t, refl, u.0, u.1, u.2)
spent-opened s w req a to_error (err e, rows) id_of m c on h = absurd (ground (arith, h))

-- When passkeys are on and Complete opens a session, the link was live and of this browser, and the account
-- that it names is there and asks for no passkey: one that asks is only given a challenge.
pub complete-opened :
    (s : AuthService) (w : WebAuthn) (req : AuthRequest) (a : Accounts) (raw browser_nonce : Text)
    (c : Client) {secret : Text} {exp : ℕ}
    → s.webauthn ≡ some w
    → (complete s req a raw browser_nonce c).0 ≡ ok (opened secret exp)
    → (id : Text) × ((consume req.token_fails a.tokens
          (s.hash raw)
          (s.hash browser_nonce)
          req.now).0
        ≡ ok id)
      × (u : UserResponse) × (get_user req.user_request a.users id ≡ ok u)
      × (u.require_passkey ≡ false)
unfolding complete
complete-opened s w req a raw browser_nonce c on h = elim (Bool-cases (is_empty browser_nonce)) [
  | inl blank ↦ absurd (ground (arith, blank, h))
  | inr filled ↦
      let spent = consume req.token_fails a.tokens (s.hash raw) (s.hash browser_nonce) req.now in
      let same : complete s req a raw browser_nonce c ≡ (
          lift_part link_error (λ rows. record a { tokens = rows }) spent >>> λ id a1.
          after_email_step s req a1 id by_link c) =
        rw (complete, filled) refl in
      spent-opened s w req a link_error spent (λ id. id) by_link c on (sym (ap (λ r. r.0) same) ∙ h)
]

-- When passkeys are on and CompleteWithCode opens a session, the address is that of an account, the code
-- was right for a live link of this browser, and the account asks for no passkey.
pub complete_with_code-opened :
    (s : AuthService) (w : WebAuthn) (req : AuthRequest) (a : Accounts)
    (email raw_code browser_nonce : Text) (c : Client) {secret : Text} {exp : ℕ}
    → s.webauthn ≡ some w
    → (complete_with_code s req a email raw_code browser_nonce c).0 ≡ ok (opened secret exp)
    → (u : UserResponse) × (find_by_email s.parse req.user_request a.users email ≡ ok u)
      × ((consume_by_code req.token_fails a.tokens u.id
            (s.hash browser_nonce)
            (matches s (trim_space raw_code))
            max_code_attempts
            req.now).0
          ≡ ok tt)
      × (v : UserResponse) × (get_user req.user_request a.users u.id ≡ ok v)
      × (v.require_passkey ≡ false)
unfolding complete_with_code with_code
complete_with_code-opened s w req a email raw_code browser_nonce c on h =
    elim (Bool-cases (not (is_six_digits (trim_space raw_code)) || is_empty browser_nonce)) [
      | inl refused ↦ absurd (ground (arith, refused, h))
      | inr taken ↦
          let code = trim_space raw_code in
          let same : complete_with_code s req a email raw_code browser_nonce c
              ≡ with_code s req a email code browser_nonce c =
            rw (complete_with_code, taken) refl in
          let step =
            >>>-eq_ok
              (map_error find_error (find_by_email s.parse req.user_request a.users email), a)
              (λ u a1.
                lift_part code_error (λ rows. record a1 { tokens = rows })
                  (consume_by_code req.token_fails a1.tokens u.id (s.hash browser_nonce)
                    (matches s code) max_code_attempts req.now)
                >>> λ t a2. after_email_step s req a2 u.id by_code c)
              (sym (ap (λ r. r.0) same) ∙ h) in
          let u = step.0 in
          let rest =
            spent-opened s w req a code_error
              (consume_by_code req.token_fails a.tokens u.id (s.hash browser_nonce) (matches s code)
                max_code_attempts req.now)
              (λ t. u.id) by_code c on step.2 in
          (u, map_error-eq_ok find_error _ step.1, rest.1, rest.2, rest.3, rest.4)
    ]
