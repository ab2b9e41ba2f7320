-- ===== src/Examples/Sessions.antt =====
-- The sign-in service of internals/app/auth on a small database, with toy primitives.
use sade_safe_media_delivery.Auth.Histories.{calls_refine}
use sade_safe_media_delivery.Auth.Lockout.{after_passkey_call, passkey_calls-NoLockout, removes}
use sade_safe_media_delivery.Auth.Login.{complete, complete_with_code, max_code_attempts}
use sade_safe_media_delivery.Auth.Policy.{matches}
use sade_safe_media_delivery.Auth.Requirement.{NoLockout}
use sade_safe_media_delivery.Auth.Second.{complete-opened, complete_with_code-opened}
use sade_safe_media_delivery.Auth.Start.{after_email_step, opened, start_session, with_account}
use sade_safe_media_delivery.Auth.State.{Accounts, AuthRequest, AuthService, Client, WebAuthn}
use sade_safe_media_delivery.Auth.Store.{
  Call, after_calls, authenticates, opens, promised_calls, revokes_all, view,
}
use sade_safe_media_delivery.Base.{
  Bool-cases, List, Text, [], arith, codes, count_where, delete_where, false, find_row, inl, inr,
  none, ok, refl, select, some, str_eq, true, ℕ, ◌∷◌, ◌≡◌,
}
use sade_safe_media_delivery.GoText.{trim_space}
use sade_safe_media_delivery.LoginEvent.{by_code, by_link}
use sade_safe_media_delivery.MagicToken.{MagicToken, consume, consume_by_code}
use sade_safe_media_delivery.Passkey.{Passkey}
use sade_safe_media_delivery.User.{User, UserResponse, user_response}
use sade_safe_media_delivery.User.Service.{find_by_email, get_user}

-- The hash and the HMAC of a toy service are the identity, every text is its own address.
abbrev pub toy_wa : WebAuthn
toy_wa = record {
  begin_registration = λ wu. some (codes "opts", codes "data");
  create_credential = λ wu session parsed. some (codes "cred", codes "{}");
  begin_login = λ wu. some (codes "opts", codes "data");
  begin_discoverable = some (codes "opts", codes "data");
  parse_creation = λ r. some r;
  parse_assertion = λ r. some r;
  validate_login = λ wu session parsed. some (codes "cred", codes "{}");
  validate_discoverable = λ handler kept parsed. none;
  decode_credential = λ c. some c;
}

abbrev pub toy_service : AuthService
toy_service = record {
  hash = λ t. t;
  mac = λ t. t;
  parse = λ t. some t;
  webauthn = some toy_wa;
  signer = none;
  has_events = true;
  magic_link_ttl = 50;
  session_ttl = 100;
  signup_mode = codes "open";
  allowed_emails = [];
  allowed_domains = [];
}

abbrev pub requester : Text → ℕ → AuthRequest
requester id now = record {
  user_request = record { fails = λ st. false; now = now; new_id = id; meanwhile = [] };
  token_fails = λ st. false;
  session_fails = λ st. false;
  login_fails = λ st. false;
  passkey_fails = λ st. false;
  mail_fails = false;
  now = now;
  secret = some (codes "cookie");
  code = some (codes "123456");
  new_id = id;
}

abbrev account : User
account = record {
  id = codes "u1";
  email = codes "a@b.ro";
  role = codes "operator";
  created_at = 0;
  updated_at = 0;
  require_passkey = 0;
}

abbrev pub mailed : MagicToken
mailed = record {
  id = codes "t1";
  user_id = codes "u1";
  token_hash = codes "raw";
  expires_at = 100;
  created_at = 0;
  browser_hash = codes "nonce";
  code_hash = codes "signin-code:raw:123456";
  attempts = 0;
}

abbrev pub database : Accounts
database = record {
  users = account ∷ [];
  tokens = mailed ∷ [];
  sessions = [];
  logins = [];
  passkeys = [];
  ceremonies = [];
  limiter = none;
  sent = [];
}

abbrev pub laptop : Client
laptop = record { user_agent = codes "Firefox/1 (Linux)"; ip = codes "10.0.0.1" }

-- A sign-in, a use of its session, a sign-in on another device, and a sign-out everywhere.
abbrev history : List (AuthRequest × Call)
history =
    (requester (codes "s1") 5, opens (user_response account) by_link laptop (codes "one"))
    ∷ (requester (codes "x") 9, authenticates (codes "one") (codes "10.0.0.2"))
    ∷ (requester (codes "s2") 10, opens (user_response account) by_code laptop (codes "two"))
    ∷ (requester (codes "x") 20, revokes_all (codes "u1"))
    ∷ []

calls_refine_example :
    view (after_calls toy_service database history)
    ≡ promised_calls toy_service (view database) history
unfolding count_where
calls_refine_example =
    calls_refine toy_service database history
      (λ st. refl, (λ st. refl, (λ st. refl, (λ st. refl, tt)))) (λ k. omega arith)

complete_opens :
    (complete toy_service
      (requester (codes "s1") 5)
      database
      (codes "raw")
      (codes "nonce")
      laptop).0
    ≡ ok (opened (codes "cookie") 105)
unfolding complete consume find_row str_eq count_where after_email_step get_user with_account
    start_session
complete_opens = refl

complete-opened_example :
    (id : Text) × ((consume (λ st. false) database.tokens (codes "raw") (codes "nonce") 5).0
      ≡ ok id)
    × (u : UserResponse) × (get_user (requester (codes "s1") 5).user_request database.users id
        ≡ ok u)
    × (u.require_passkey ≡ false)
complete-opened_example =
    complete-opened toy_service toy_wa (requester (codes "s1") 5) database (codes "raw")
      (codes "nonce") laptop refl complete_opens

complete_with_code_opens :
    (complete_with_code toy_service
      (requester (codes "s1") 5)
      database
      (codes "a@b.ro")
      (codes "123456")
      (codes "nonce")
      laptop).0
    ≡ ok (opened (codes "cookie") 105)
unfolding complete_with_code find_row select count_where
complete_with_code_opens = refl

complete_with_code-opened_example :
    (u : UserResponse) × (find_by_email
        (λ t. some t)
        (requester (codes "s1") 5).user_request
        database.users
        (codes "a@b.ro")
      ≡ ok u)
    × ((consume_by_code
          (λ st. false)
          database.tokens
          u.id
          (codes "nonce")
          (matches toy_service (trim_space (codes "123456")))
          max_code_attempts
          5).0
        ≡ ok tt)
    × (v : UserResponse) × (get_user (requester (codes "s1") 5).user_request database.users u.id
        ≡ ok v)
    × (v.require_passkey ≡ false)
complete_with_code-opened_example =
    complete_with_code-opened toy_service toy_wa (requester (codes "s1") 5) database
      (codes "a@b.ro") (codes "123456") (codes "nonce") laptop refl complete_with_code_opens

-- The same account, with a passkey that it asks for.
abbrev pub guarded : User
guarded = record account { require_passkey = 1 }

abbrev phone_key : Passkey
phone_key = record {
  id = codes "p1";
  user_id = codes "u1";
  credential_id = codes "cred";
  credential = codes "{}";
  name = codes "Phone";
  created_at = 0;
  last_used_at = 0;
}

abbrev pub guarded_database : Accounts
guarded_database = record database { users = guarded ∷ []; passkeys = phone_key ∷ [] }

guarded-NoLockout : NoLockout guarded_database
unfolding count_where find_row str_eq
guarded-NoLockout k asked = elim (Bool-cases (str_eq (codes "u1") k)) [
  | inl own ↦ ground (arith, own)
  | inr apart ↦ absurd (ground (arith, apart, asked))
]

removal_answers :
    (after_passkey_call toy_service
      (requester (codes "x") 5)
      guarded_database
      (codes "u1")
      (removes (codes "p1"))).0
    ≡ ok tt
unfolding after_passkey_call count_where find_row str_eq select delete_where
removal_answers = refl

passkey_calls-NoLockout_example :
    NoLockout
      (after_passkey_call toy_service
        (requester (codes "x") 5)
        guarded_database
        (codes "u1")
        (removes (codes "p1"))).1
passkey_calls-NoLockout_example =
    passkey_calls-NoLockout toy_service (requester (codes "x") 5) guarded_database (codes "u1")
      (removes (codes "p1")) guarded-NoLockout removal_answers
