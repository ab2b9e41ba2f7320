-- ===== src/Auth/Rows.antt =====
-- What the statements on the sessions of internals/app/auth do to the rows that a hash finds.
use mathlib.Core.Path.{subst}
use sade_safe_media_delivery.Auth.Start.{agent_of, record_sign_in, send_alert, write_login}
use sade_safe_media_delivery.Auth.State.{Accounts, AuthRequest, AuthService, Client}
use sade_safe_media_delivery.Auth.Store.{kept, login_of}
use sade_safe_media_delivery.Base.{
  Bool, Bool-cases, List, Option, Text, Unique, ap, arith, delete_where, eq_of_str_eq, false,
  find_row, find_row-delete_others, find_row-delete_where, find_row-update_kept, if◌then◌else◌, inl,
  inr, none, not, refl, some, str_eq, str_eq_of_eq, sym, true, update_where, ◌&&◌, ◌+◌, ◌∙◌, ◌≡◌,
}
use sade_safe_media_delivery.LoginEvent.{Method}
use sade_safe_media_delivery.Session.{Session, SessionStmt, has_token, is_own, of_user}
use sade_safe_media_delivery.User.{UserResponse}

-- Every statement on the sessions works.
abbrev pub SessionsWork : AuthRequest → Type 0
SessionsWork req = (st : SessionStmt) → req.session_fails st ≡ false

abbrev pub UniqueHashes : Accounts → Type 0
UniqueHashes a = Unique (λ s. s.token_hash) a.sessions

pub record_sign_in-sessions :
    (s : AuthService) (req : AuthRequest) (a : Accounts) (u : UserResponse) (m : Method)
    (c : Client)
    → (record_sign_in s req a u m c).sessions ≡ a.sessions
unfolding record_sign_in write_login send_alert
record_sign_in-sessions s req a u m c = ground arith

-- The row that is left under a hash.
pub left_by_user :
    (user_id : Text) (o : Option Session)
    → login_of (elim o [ none ↦ none | some r ↦ if of_user user_id r then none else some r ])
      ≡ kept (λ l. not (str_eq l.user_id user_id)) (login_of o)
left_by_user user_id none = refl
left_by_user user_id (some r) = ground arith

pub left_by_id :
    (user_id id : Text) (o : Option Session)
    → login_of (elim o [ none ↦ none | some r ↦ if is_own user_id id r then none else some r ])
      ≡ kept (λ l. not (str_eq l.id id && str_eq l.user_id user_id)) (login_of o)
unfolding is_own
left_by_id user_id id none = refl
left_by_id user_id id (some r) = ground arith

-- Another hash keeps its row.
other_hash :
    (h k : Text) (r : Session) → str_eq k h ≡ false → has_token h r ≡ true → has_token k r ≡ false
other_hash h k r apart hit = elim (Bool-cases (has_token k r)) [
  | inr e ↦ e
  | inl e ↦ absurd (
      let both : k ≡ h = sym (eq_of_str_eq r.token_hash k e) ∙ eq_of_str_eq r.token_hash h hit in
      let same : str_eq k h ≡ true = str_eq_of_eq k h both in ground (arith, same, apart))
]

pub delete_token :
    (h k : Text) (rows : List Session)
    → login_of (find_row (has_token h) (delete_where (has_token k) rows))
      ≡ (if str_eq k h then none else login_of (find_row (has_token h) rows))
delete_token h k rows = elim (Bool-cases (str_eq k h)) [
  | inl e ↦ rw e (
      ap login_of (
        subst (λ j. find_row (has_token h) (delete_where (has_token j) rows) ≡ none)
          (sym (eq_of_str_eq k h e)) (find_row-delete_where (has_token h) rows)))
  | inr e ↦ rw e (
      ap login_of
        (find_row-delete_others (has_token h) (has_token k) (λ r hit. other_hash h k r e hit) rows))
]

pub update_logins :
    (h : Text) (q : Session → Bool) (f : Session → Session)
    → ((r : Session) → has_token h (f r) ≡ has_token h r)
    → ((r : Session) → login_of (some (f r)) ≡ login_of (some r))
    → (rows : List Session)
    → login_of (find_row (has_token h) (update_where q f rows))
      ≡ login_of (find_row (has_token h) rows)
update_logins h q f kept_hash kept_login rows =
    ap login_of (find_row-update_kept (has_token h) q f kept_hash rows)
    ∙ by_cases (find_row (has_token h) rows)
  where
    by_cases :
        (o : Option Session)
        → login_of (elim o [ some r ↦ some (if q r then f r else r) | none ↦ none ]) ≡ login_of o
    by_cases none = refl
    by_cases (some r) = elim (Bool-cases (q r)) [ inl e ↦ rw e (kept_login r) | inr e ↦ rw e refl ]

-- The row of a new session.
abbrev pub new_row : AuthService → AuthRequest → UserResponse → Client → Text → Session
new_row s req u c secret = record {
  id = req.new_id;
  user_id = u.id;
  token_hash = s.hash secret;
  expires_at = req.now + s.session_ttl;
  created_at = req.now;
  user_agent = agent_of c;
  ip = c.ip;
  last_seen_at = req.now;
}
