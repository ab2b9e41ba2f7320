-- ===== src/Examples/Routes.antt =====
-- The sign-in routes at the small database.
use sade_safe_media_delivery.Auth.Admin.{get_user_route, get_user_route-revokes, set_role_route}
use sade_safe_media_delivery.Auth.Cookies.{
  complete_route-guarded, live_cookie, login_answer, login_route, login_route-live, session_of,
  with_link,
}
use sade_safe_media_delivery.Auth.Handler.{
  HandlerConfig, HttpRequest, browser_nonce_of, complete_route,
}
use sade_safe_media_delivery.Auth.Login.{request_link}
use sade_safe_media_delivery.Auth.Policy.{normal_addr, signup_allowed}
use sade_safe_media_delivery.Auth.State.{Accounts, auth_failure}
use sade_safe_media_delivery.Auth.Uniform.{IsAnswerable, Smooth, request_link-uniform}
use sade_safe_media_delivery.Base.{
  Text, [], codes, count_where, err, false, find_row, none, ok, refl, some, str_eq, true, ◌∷◌, ◌≡◌,
}
use sade_safe_media_delivery.Examples.Sessions.{
  database, guarded, guarded_database, laptop, mailed, requester, toy_service, toy_wa,
}
use sade_safe_media_delivery.MagicToken.{consume}
use sade_safe_media_delivery.Session.{Session, of_user}
use sade_safe_media_delivery.User.{UserError, has_email, user_response}
use sade_safe_media_delivery.User.Service.{get_user, normal_address}

abbrev cfg : HandlerConfig
cfg = record {
  session_cookie_name = codes "sade";
  session_cookie_secure = true;
  frontend_url = codes "https://sade";
  escape = λ t. t;
}

abbrev nonce : Text
nonce = codes "0123456789abcdef"

abbrev browser : HttpRequest
browser = record {
  auth = requester (codes "s1") 5;
  login_cookie = some nonce;
  session_cookie_value = none;
  fresh_nonce = none;
  client = laptop;
  caller = none;
}

-- The database with the link mailed to this browser.
abbrev mailed_database : Accounts
mailed_database = record guarded_database { tokens = record mailed { browser_hash = nonce } ∷ [] }

login_route-live_example :
    live_cookie (login_route cfg toy_service browser database (with_link (codes "raw"))).0
    ≡ session_of cfg browser (login_answer toy_service browser database (with_link (codes "raw")))
login_route-live_example =
    login_route-live cfg toy_service browser database (with_link (codes "raw"))

spent_link :
    (consume (λ st. false) mailed_database.tokens (codes "raw") (browser_nonce_of browser) 5).0
    ≡ ok (codes "u1")
unfolding consume find_row str_eq count_where browser_nonce_of
spent_link = refl

found_account :
    get_user browser.auth.user_request mailed_database.users (codes "u1")
    ≡ ok (user_response guarded)
unfolding get_user find_row str_eq
found_account = refl

complete_route-guarded_example :
    live_cookie (complete_route cfg toy_service browser mailed_database (some (codes "raw"))).0
    ≡ none
unfolding user_response
complete_route-guarded_example =
    complete_route-guarded cfg toy_service toy_wa browser mailed_database (codes "raw") (codes "u1")
      (user_response guarded) refl spent_link found_account refl

new_request-Smooth : Smooth toy_service (requester (codes "s1") 5) database.tokens
unfolding count_where str_eq
new_request-Smooth = record {
  users_work = λ st. refl;
  tokens_work = λ st. refl;
  mail_works = refl;
  raw = codes "cookie";
  is_raw = refl;
  is_fresh = refl;
  digits = codes "123456";
  is_digits = refl;
}

request_link-uniform_example :
    (IsAnswerable toy_service database (codes "new@b.ro") (codes "new@b.ro")
      → (request_link toy_service (requester (codes "s1") 5) database (codes "new@b.ro") nonce).0
        ≡ ok tt)
    × ((e : UserError)
        → normal_address toy_service.parse (normal_addr toy_service (codes "new@b.ro")) ≡ err e
        → find_row (has_email (codes "new@b.ro")) database.users ≡ none
        → signup_allowed toy_service (normal_addr toy_service (codes "new@b.ro")) ≡ true
        → (request_link toy_service (requester (codes "s1") 5) database (codes "new@b.ro") nonce).0
          ≡ err auth_failure)
unfolding normal_address
request_link-uniform_example =
    request_link-uniform toy_service (requester (codes "s1") 5) database (codes "new@b.ro") nonce
      (codes "new@b.ro") new_request-Smooth refl refl

-- A signed-in account, whose role an administrator reads and changes.
abbrev open_session_row : Session
open_session_row = record {
  id = codes "s1";
  user_id = codes "u1";
  token_hash = codes "cookie";
  expires_at = 100;
  created_at = 1;
  user_agent = [];
  ip = [];
  last_seen_at = 1;
}

abbrev signed_in_database : Accounts
signed_in_database = record mailed_database { sessions = open_session_row ∷ [] }

get_user_route-revokes_example :
    (count_where
        (of_user (codes "u1"))
        (get_user_route browser.auth signed_in_database (codes "u1")).1.sessions
      ≡ 0)
    × ((set_role_route browser.auth signed_in_database
          (codes "u1")
          (some (codes "admin"))).1.sessions
        ≡ open_session_row ∷ [])
unfolding user_response
get_user_route-revokes_example =
    get_user_route-revokes browser.auth signed_in_database (codes "u1") (user_response guarded)
      (some (codes "admin")) found_account refl
