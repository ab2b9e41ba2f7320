-- ===== src/Auth/Refines.antt =====
-- The sessions of internals/app/auth refine their map.
use mathlib.Core.Path.{subst}
use sade_safe_media_delivery.Auth.Live.{
  authenticate_session, logout, refresh, revoke_all, revoke_session, session_user_error,
  touch_every, with_session,
}
use sade_safe_media_delivery.Auth.Rows.{
  SessionsWork, UniqueHashes, delete_token, left_by_id, left_by_user, new_row,
  record_sign_in-sessions, update_logins,
}
use sade_safe_media_delivery.Auth.Start.{new_session, open_session}
use sade_safe_media_delivery.Auth.State.{Accounts, AuthRequest, AuthService, Client}
use sade_safe_media_delivery.Auth.Store.{
  Login, authenticates, kept, login_of, logs_out, opens, or_new, promised, revokes_all, revokes_one,
  view,
}
use sade_safe_media_delivery.Base.{
  Bool-cases, Option-cases, Result-cases, Text, [], ap, arith, count_where, count_where-none,
  delete_where_absent, eq_of_str_eq, false, find_row, find_row-delete_where_one, find_row-last,
  if◌then◌else◌, inl, inr, is_empty, ltb, map_error, none, not, refl, some, str_eq, sym, true, ◌&&◌,
  ◌++◌, ◌+◌, ◌-◌, ◌==◌, ◌∙◌, ◌∷◌, ◌≡◌,
}
use sade_safe_media_delivery.LoginEvent.{Method}
use sade_safe_media_delivery.Session.{
  Session, create_session, delete_by_hash, delete_by_id, delete_by_user, delete_of_user, delete_one,
  delete_session, get_by_hash, has_token, insert_session, is_over, is_own, of_user, read_session,
  touch, touch_one,
}
use sade_safe_media_delivery.User.{UserResponse}
use sade_safe_media_delivery.User.Service.{get_user}

module _ (s : AuthService) (req : AuthRequest) (a : Accounts) (works : SessionsWork req)
    (unique : UniqueHashes a) (h : Text) where
  pub logs_out-promised :
      (secret : Text)
      → view (logout s req a secret).1 h ≡ promised s req (view a) (logs_out secret) h
  unfolding logout delete_session promised view
  logs_out-promised secret = elim (Bool-cases (is_empty secret)) [
    | inl e ↦ rw (logout, e) refl
    | inr e ↦
        rw (logout, e, delete_session, works delete_by_hash)
          (delete_token h (s.hash secret) a.sessions)
  ]

  pub revokes_all-promised :
      (user_id : Text)
      → view (revoke_all req a user_id).1 h ≡ promised s req (view a) (revokes_all user_id) h
  unfolding revoke_all delete_by_user promised view
  revokes_all-promised user_id = rw (works delete_of_user) (
      ap login_of (find_row-delete_where_one (has_token h) (of_user user_id) a.sessions (unique h))
      ∙ left_by_user user_id (find_row (has_token h) a.sessions))

  pub revokes_one-promised :
      (user_id id : Text)
      → view (revoke_session req a user_id id).1 h
        ≡ promised s req (view a) (revokes_one user_id id) h
  unfolding revoke_session delete_by_id promised view
  revokes_one-promised user_id id =
      let gone =
        ap login_of
          (find_row-delete_where_one (has_token h) (is_own user_id id) a.sessions (unique h))
        ∙ left_by_id user_id id (find_row (has_token h) a.sessions) in
      elim (Bool-cases (count_where (is_own user_id id) a.sessions == 0)) [
        | inr some_own ↦ rw (revoke_session, delete_by_id, works delete_one, some_own) gone
        | inl none_own ↦
            rw (revoke_session, delete_by_id, works delete_one, none_own)
              (subst
                (λ rows.
                  login_of (find_row (has_token h) rows)
                  ≡ kept (λ l. not (str_eq l.id id && str_eq l.user_id user_id))
                      (login_of (find_row (has_token h) a.sessions)))
                (delete_where_absent (is_own user_id id) a.sessions (ground (arith, none_own)))
                gone)
      ]

  pub open_session-rows :
      (u : UserResponse) (m : Method) (c : Client) (secret : Text)
      → (open_session s req a u m c secret).1.sessions ≡ (
          if ltb 0 (count_where (has_token (s.hash secret)) a.sessions)
          then a.sessions
          else a.sessions ++ new_row s req u c secret ∷ [])
  unfolding open_session create_session new_session
  open_session-rows u m c secret =
      elim (Bool-cases (ltb 0 (count_where (has_token (s.hash secret)) a.sessions))) [
        | inl old ↦ rw (open_session, create_session, works insert_session, old) refl
        | inr fresh ↦
            rw (open_session, create_session, works insert_session, fresh)
              (record_sign_in-sessions s req
                (record a { sessions = a.sessions ++ new_row s req u c secret ∷ [] }) u m c)
      ]

  -- A hash that the table has keeps its login.
  old_login :
      (l : Login) (k : Text)
      → ltb 0 (count_where (has_token k) a.sessions) ≡ true
      → or_new (login_of (find_row (has_token k) a.sessions)) l
        ≡ login_of (find_row (has_token k) a.sessions)
  old_login l k old = elim (Option-cases (find_row (has_token k) a.sessions)) [
    | inl nothing ↦ absurd (ground (arith, old, count_where-none (has_token k) a.sessions nothing))
    | inr (r, found) ↦ rw found refl
  ]

  -- A hash that the table does not have gets the new login.
  new_login :
      (u : UserResponse) (c : Client) (secret : Text)
      → ltb 0 (count_where (has_token (s.hash secret)) a.sessions) ≡ false
      → login_of (elim (find_row (has_token h) a.sessions) [
        | some r ↦ some r
        | none ↦
            if has_token h (new_row s req u c secret) then some (new_row s req u c secret) else none
      ])
        ≡ (if str_eq (s.hash secret) h
            then or_new
                (login_of (find_row (has_token h) a.sessions))
                (record { id = req.new_id; user_id = u.id; expires_at = req.now + s.session_ttl })
            else login_of (find_row (has_token h) a.sessions))
  new_login u c secret fresh = elim (Bool-cases (str_eq (s.hash secret) h)) [
    | inr apart ↦ elim (Option-cases (find_row (has_token h) a.sessions)) [
      | inl nothing ↦ rw (nothing, apart) refl
      | inr (r, found) ↦ rw (found, apart) refl
    ]
    | inl same ↦ elim (Option-cases (find_row (has_token h) a.sessions)) [
      | inl nothing ↦ rw (nothing, same) refl
      | inr (r, found) ↦ rw (found, same) refl
    ]
  ]

  pub opens-promised :
      (u : UserResponse) (m : Method) (c : Client) (secret : Text)
      → view (open_session s req a u m c secret).1 h
        ≡ promised s req (view a) (opens u m c secret) h
  unfolding promised view new_session
  opens-promised u m c secret =
      let k = s.hash secret in
      let l : Login = record {
        id = req.new_id;
        user_id = u.id;
        expires_at = req.now + s.session_ttl;
      } in
      ap (λ rows. login_of (find_row (has_token h) rows)) (open_session-rows u m c secret)
      ∙ elim (Bool-cases (ltb 0 (count_where (has_token k) a.sessions))) [
        | inl old ↦ elim (Bool-cases (str_eq k h)) [
          | inr apart ↦ rw (old, apart) refl
          | inl same ↦
              rw (old, same)
                (subst
                  (λ j.
                    login_of (find_row (has_token j) a.sessions)
                    ≡ or_new (login_of (find_row (has_token j) a.sessions)) l)
                  (eq_of_str_eq k h same) (sym (old_login l k old)))
        ]
        | inr fresh ↦ rw fresh (
            ap login_of (find_row-last (has_token h) a.sessions (new_row s req u c secret))
            ∙ new_login u c secret fresh)
      ]

  refresh-login :
      (sess : Session) (ip : Text)
      → login_of (find_row (has_token h) (refresh req a sess ip).sessions)
        ≡ login_of (find_row (has_token h) a.sessions)
  unfolding refresh touch
  refresh-login sess ip =
      elim (Bool-cases (not (is_empty ip) && ltb touch_every (req.now - sess.last_seen_at))) [
        | inr fresh ↦ rw (refresh, fresh) refl
        | inl stale ↦
            rw (refresh, stale, touch, works touch_one)
              (update_logins h (λ r. str_eq r.id sess.id)
                (λ r. record r { last_seen_at = req.now; ip = ip }) (λ r. refl) (λ r. refl)
                a.sessions)
      ]

  -- What AuthenticateSession does to the login of a session that is over, or is not.
  with_session-over :
      (secret ip : Text) (sess : Session)
      → is_over sess req.now ≡ true
      → login_of (find_row (has_token h) (with_session s req a secret ip sess).1.sessions)
        ≡ (if str_eq (s.hash secret) h then none else login_of (find_row (has_token h) a.sessions))
  unfolding with_session delete_session
  with_session-over secret ip sess over =
      rw (with_session, over, delete_session, works delete_by_hash)
        (delete_token h (s.hash secret) a.sessions)

  with_session-live :
      (secret ip : Text) (sess : Session)
      → is_over sess req.now ≡ false
      → login_of (find_row (has_token h) (with_session s req a secret ip sess).1.sessions)
        ≡ login_of (find_row (has_token h) a.sessions)
  unfolding with_session
  with_session-live secret ip sess live =
      elim (Result-cases
        (map_error session_user_error (get_user req.user_request a.users sess.user_id))) [
          | inl (u, loaded) ↦ rw (with_session, live, loaded) (refresh-login sess ip)
          | inr (e, missing) ↦ rw (with_session, live, missing) refl
        ]

  nothing_kept :
      (secret : Text)
      → find_row (has_token (s.hash secret)) a.sessions ≡ none
      → login_of (find_row (has_token h) a.sessions) ≡ (
          if str_eq (s.hash secret) h
          then kept
              (λ l. not (ltb l.expires_at req.now))
              (login_of (find_row (has_token h) a.sessions))
          else login_of (find_row (has_token h) a.sessions))
  nothing_kept secret nothing = elim (Bool-cases (str_eq (s.hash secret) h)) [
    | inr apart ↦ rw apart refl
    | inl same ↦
        (let here : find_row (has_token h) a.sessions ≡ none =
            subst (λ k. find_row (has_token k) a.sessions ≡ none)
              (eq_of_str_eq (s.hash secret) h same) nothing in
          rw (same, here) refl)
  ]

  -- Of a session that is found under the hash of the secret.
  found-promised :
      (secret ip : Text) (sess : Session)
      → find_row (has_token (s.hash secret)) a.sessions ≡ some sess
      → login_of (find_row (has_token h) (with_session s req a secret ip sess).1.sessions) ≡ (
          if str_eq (s.hash secret) h
          then kept
              (λ l. not (ltb l.expires_at req.now))
              (login_of (find_row (has_token h) a.sessions))
          else login_of (find_row (has_token h) a.sessions))
  unfolding is_over
  found-promised secret ip sess found = elim (Bool-cases (str_eq (s.hash secret) h)) [
    | inr apart ↦ elim (Bool-cases (is_over sess req.now)) [
      | inl over ↦ with_session-over secret ip sess over ∙ rw apart refl
      | inr live ↦ with_session-live secret ip sess live ∙ rw apart refl
    ]
    | inl same ↦
        (let here : find_row (has_token h) a.sessions ≡ some sess =
            subst (λ k. find_row (has_token k) a.sessions ≡ some sess)
              (eq_of_str_eq (s.hash secret) h same) found in
          elim (Bool-cases (is_over sess req.now)) [
            | inl over ↦
                with_session-over secret ip sess over ∙ rw (same, here) (ground (arith, over))
            | inr live ↦
                with_session-live secret ip sess live ∙ rw (same, here) (ground (arith, live))
          ])
  ]

  pub authenticates-promised :
      (secret ip : Text)
      → view (authenticate_session s req a secret ip).1 h
        ≡ promised s req (view a) (authenticates secret ip) h
  unfolding authenticate_session get_by_hash promised view
  authenticates-promised secret ip = elim (Bool-cases (is_empty secret)) [
    | inl blank ↦ rw (authenticate_session, blank) refl
    | inr filled ↦ elim (Option-cases (find_row (has_token (s.hash secret)) a.sessions)) [
      | inr (sess, found) ↦
          rw (authenticate_session, filled, get_by_hash, works read_session, found)
            (found-promised secret ip sess found)
      | inl nothing ↦
          rw (authenticate_session, filled, get_by_hash, works read_session, nothing)
            (nothing_kept secret nothing)
    ]
  ]
