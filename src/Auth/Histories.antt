-- ===== src/Auth/Histories.antt =====
-- Histories of calls on the sessions of internals/app/auth.
use mathlib.Core.Path.{subst}
use sade_safe_media_delivery.Auth.Live.{
  authenticate_session, logout, refresh, revoke_all, revoke_session, session_error,
  session_user_error, touch_every, with_session,
}
use sade_safe_media_delivery.Auth.Refines.{
  authenticates-promised, logs_out-promised, open_session-rows, opens-promised,
  revokes_all-promised, revokes_one-promised,
}
use sade_safe_media_delivery.Auth.Rows.{SessionsWork, UniqueHashes, new_row}
use sade_safe_media_delivery.Auth.Start.{open_session}
use sade_safe_media_delivery.Auth.State.{Accounts, AuthRequest, AuthService, Client}
use sade_safe_media_delivery.Auth.Store.{
  Call, after_call, after_calls, authenticates, logs_out, opens, promised, promised_calls,
  revokes_all, revokes_one, view,
}
use sade_safe_media_delivery.Base.{
  All, Bool, Bool-cases, List, Result-cases, Text, Unique, [], ap, arith, count_where,
  count_where-delete_le, count_where-last, delete_where, eq_of_str_eq, false, inl, inr, is_empty,
  ltb, map_error, not, refl, str_eq, sym, update_where, update_where-Unique, with_key, ◌&&◌, ◌++◌,
  ◌-◌, ◌==◌, ◌∙◌, ◌∷◌, ◌≡◌,
}
use sade_safe_media_delivery.LoginEvent.{Method}
use sade_safe_media_delivery.Session.{
  Session, delete_by_hash, delete_by_id, delete_by_user, delete_of_user, delete_one, delete_session,
  get_by_hash, has_token, is_over, is_own, of_user, touch, touch_one,
}
use sade_safe_media_delivery.User.{UserResponse}
use sade_safe_media_delivery.User.Service.{get_user}

UniqueRows : List Session → Type 0
UniqueRows rows = Unique (λ s. s.token_hash) rows

delete-UniqueRows :
    (q : Session → Bool) (rows : List Session) → UniqueRows rows → UniqueRows (delete_where q rows)
unfolding UniqueRows
delete-UniqueRows q rows unique k =
    omega (arith, count_where-delete_le (with_key (λ s. s.token_hash) k) q rows, unique k)

update-UniqueRows :
    (q : Session → Bool) (f : Session → Session) (rows : List Session)
    → ((r : Session) → (f r).token_hash ≡ r.token_hash)
    → UniqueRows rows
    → UniqueRows (update_where q f rows)
unfolding UniqueRows
update-UniqueRows q f rows same = update_where-Unique (λ s. s.token_hash) q f rows same

last-UniqueRows :
    (r : Session) (rows : List Session)
    → ltb 0 (count_where (has_token r.token_hash) rows) ≡ false
    → UniqueRows rows
    → UniqueRows (rows ++ r ∷ [])
unfolding UniqueRows count_where
last-UniqueRows r rows fresh unique k = elim (Bool-cases (str_eq r.token_hash k)) [
  | inr apart ↦ ground (arith, count_where-last (has_token k) rows r, apart, unique k)
  | inl same ↦
      (let none_yet : ltb 0 (count_where (has_token k) rows) ≡ false =
          subst (λ j. ltb 0 (count_where (has_token j) rows) ≡ false)
            (eq_of_str_eq r.token_hash k same) fresh in
        ground (arith, count_where-last (has_token k) rows r, same, none_yet))
]

module _ (s : AuthService) (req : AuthRequest) (a : Accounts) (works : SessionsWork req)
    (unique : UniqueRows a.sessions) where
  opens-UniqueRows :
      (u : UserResponse) (m : Method) (c : Client) (secret : Text)
      → UniqueRows (open_session s req a u m c secret).1.sessions
  unfolding UniqueRows
  opens-UniqueRows u m c secret =
      subst UniqueRows (sym (open_session-rows s req a works unique [] u m c secret))
        (elim (Bool-cases (ltb 0 (count_where (has_token (s.hash secret)) a.sessions))) [
          | inl old ↦ rw old unique
          | inr fresh ↦
              rw fresh (last-UniqueRows (new_row s req u c secret) a.sessions fresh unique)
        ])

  refresh-UniqueRows : (sess : Session) (ip : Text) → UniqueRows (refresh req a sess ip).sessions
  unfolding refresh touch
  refresh-UniqueRows sess ip =
      elim (Bool-cases (not (is_empty ip) && ltb touch_every (req.now - sess.last_seen_at))) [
        | inr fresh ↦ rw (refresh, fresh) unique
        | inl stale ↦
            rw (refresh, stale, touch, works touch_one)
              (update-UniqueRows (λ r. str_eq r.id sess.id)
                (λ r. record r { last_seen_at = req.now; ip = ip }) a.sessions (λ r. refl) unique)
      ]

  with_session-UniqueRows :
      (secret ip : Text) (sess : Session)
      → UniqueRows (with_session s req a secret ip sess).1.sessions
  unfolding with_session delete_session
  with_session-UniqueRows secret ip sess = elim (Bool-cases (is_over sess req.now)) [
    | inl over ↦
        rw (with_session, over, delete_session, works delete_by_hash)
          (delete-UniqueRows (has_token (s.hash secret)) a.sessions unique)
    | inr live ↦
        elim (Result-cases
          (map_error session_user_error (get_user req.user_request a.users sess.user_id))) [
            | inl (u, loaded) ↦ rw (with_session, live, loaded) (refresh-UniqueRows sess ip)
            | inr (e, missing) ↦ rw (with_session, live, missing) unique
          ]
  ]

  authenticates-UniqueRows :
      (secret ip : Text) → UniqueRows (authenticate_session s req a secret ip).1.sessions
  unfolding authenticate_session
  authenticates-UniqueRows secret ip = elim (Bool-cases (is_empty secret)) [
    | inl blank ↦ rw (authenticate_session, blank) unique
    | inr filled ↦
        elim (Result-cases
          (map_error session_error (get_by_hash req.session_fails a.sessions (s.hash secret)))) [
            | inl (sess, found) ↦
                rw (authenticate_session, filled, found) (with_session-UniqueRows secret ip sess)
            | inr (e, missing) ↦ rw (authenticate_session, filled, missing) unique
          ]
  ]

  after_call-UniqueRows : (c : Call) → UniqueRows (after_call s req a c).sessions
  unfolding after_call logout revoke_all revoke_session delete_session delete_by_user delete_by_id
  after_call-UniqueRows (opens u m c secret) = opens-UniqueRows u m c secret
  after_call-UniqueRows (authenticates secret ip) = authenticates-UniqueRows secret ip
  after_call-UniqueRows (logs_out secret) = elim (Bool-cases (is_empty secret)) [
    | inl e ↦ rw (after_call, logout, e) unique
    | inr e ↦
        rw (after_call, logout, e, delete_session, works delete_by_hash)
          (delete-UniqueRows (has_token (s.hash secret)) a.sessions unique)
  ]
  after_call-UniqueRows (revokes_all user_id) =
      rw (after_call, revoke_all, delete_by_user, works delete_of_user)
        (delete-UniqueRows (of_user user_id) a.sessions unique)
  after_call-UniqueRows (revokes_one user_id id) =
      elim (Bool-cases (count_where (is_own user_id id) a.sessions == 0)) [
        | inl e ↦ rw (after_call, revoke_session, delete_by_id, works delete_one, e) unique
        | inr e ↦
            rw (after_call, revoke_session, delete_by_id, works delete_one, e)
              (delete-UniqueRows (is_own user_id id) a.sessions unique)
      ]

-- One call keeps the promise.
after_call-promised :
    (s : AuthService) (req : AuthRequest) (a : Accounts) (c : Call)
    → SessionsWork req
    → UniqueRows a.sessions
    → view (after_call s req a c) ≡ promised s req (view a) c
unfolding after_call UniqueRows
after_call-promised s req a (opens u m c secret) works unique =
    λ i h. opens-promised s req a works unique h u m c secret i
after_call-promised s req a (logs_out secret) works unique =
    λ i h. logs_out-promised s req a works unique h secret i
after_call-promised s req a (revokes_all user_id) works unique =
    λ i h. revokes_all-promised s req a works unique h user_id i
after_call-promised s req a (revokes_one user_id id) works unique =
    λ i h. revokes_one-promised s req a works unique h user_id id i
after_call-promised s req a (authenticates secret ip) works unique =
    λ i h. authenticates-promised s req a works unique h secret ip i

-- Let the hashes of the sessions be unique, and let the statements on the sessions work. After any
-- history of sign-ins, sign-outs, revocations and authentications, the sessions table stands for the
-- map that the calls promise: from each hash to the id, the account and the expiry of its session.
pub calls_refine :
    (s : AuthService) (a : Accounts) (cs : List (AuthRequest × Call))
    → All (λ c. SessionsWork c.0) cs
    → UniqueHashes a
    → view (after_calls s a cs) ≡ promised_calls s (view a) cs
unfolding after_calls promised_calls UniqueRows
calls_refine s a [] works unique = refl
calls_refine s a ((req, c) ∷ cs) works unique =
    calls_refine s (after_call s req a c) cs works.1
      (after_call-UniqueRows s req a works.0 unique c)
    ∙ ap (λ m. promised_calls s m cs) (after_call-promised s req a c works.0 unique)
