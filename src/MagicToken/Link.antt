-- ===== src/MagicToken/Link.antt =====
-- The link: Consume and Peek of internals/app/magic_token/repo.go.
use sade_safe_media_delivery.Base.{
  Bool-cases, List, Option-cases, Result, Text, ap, arith, count_where, count_where-delete_where,
  count_where-found, delete_where, eq_of_str_eq, err, false, find_row, find_row-delete_where, inl,
  inr, is_empty, ltb, none, ok, some, str_eq, str_eq_of_eq, true, ℕ, ◌==◌, ◌∙◌, ◌≡◌, ◌≢◌, ◌≤◌,
}
use sade_safe_media_delivery.MagicToken.{
  MagicToken, Outage, TokenError, consume, consume_row, delete_row, has_hash, peek, read_one,
}

-- The row that Consume spends was valid, and was asked for by this browser.
pub record Spends (tokens : List MagicToken) (hash browser_hash : Text) (now : ℕ) (user_id : Text)
    : Type 0 where
  pub row : MagicToken
  pub found : find_row (has_hash hash) tokens ≡ some row
  pub owner : row.user_id ≡ user_id
  pub in_time : now ≤ row.expires_at
  pub asked_here : row.browser_hash ≡ browser_hash
  pub bound : is_empty browser_hash ≡ false

consume-keeps :
    (fails : Outage) (tokens : List MagicToken) (hash browser : Text) (now : ℕ) (e : TokenError)
    → (consume fails tokens hash browser now).0 ≡ err e
    → (consume fails tokens hash browser now).1 ≡ tokens
unfolding consume
consume-keeps fails tokens hash browser now e h = ground arith

consume-reads :
    (fails : Outage) (tokens : List MagicToken) (hash browser : Text) (now : ℕ) (u : Text)
    → (consume fails tokens hash browser now).0 ≡ ok u
    → (row : MagicToken) × (find_row (has_hash hash) tokens ≡ some row)
      × (consume fails tokens hash browser now ≡ consume_row fails tokens hash browser now row)
unfolding consume
consume-reads fails tokens hash browser now u h = elim (Bool-cases (fails read_one)) [
  | inl e ↦ absurd (ground arith)
  | inr e ↦ elim (Option-cases (find_row (has_hash hash) tokens)) [
    | inl missing ↦ absurd (ground arith)
    | inr (row, found) ↦ (row, found, rw (e, found))
  ]
]

consume_row-tests :
    (fails : Outage) (tokens : List MagicToken) (hash browser : Text) (now : ℕ) (row : MagicToken)
    (u : Text)
    → (consume_row fails tokens hash browser now row).0 ≡ ok u
    → (row.user_id ≡ u)
      × (now ≤ row.expires_at)
      × (is_empty row.browser_hash ≡ false)
      × (str_eq row.browser_hash browser ≡ true)
      × ((consume_row fails tokens hash browser now row).1 ≡ delete_where (has_hash hash) tokens)
unfolding consume_row
consume_row-tests fails tokens hash browser now row u h = ground arith

consume-missing :
    (fails : Outage) (tokens : List MagicToken) (hash browser : Text) (now : ℕ) (u : Text)
    → find_row (has_hash hash) tokens ≡ none
    → (consume fails tokens hash browser now).0 ≢ ok u
unfolding consume
consume-missing fails tokens hash browser now u none_left h = ground arith

consume-Spends :
    (fails : Outage) (tokens : List MagicToken) (hash browser : Text) (now : ℕ) (u : Text)
    → (consume fails tokens hash browser now).0 ≡ ok u
    → Spends tokens hash browser now u
      × ((consume fails tokens hash browser now).1 ≡ delete_where (has_hash hash) tokens)
consume-Spends fails tokens hash browser now u h =
    let (row, found, same) = consume-reads fails tokens hash browser now u h in
    let (owner, in_time, bound, asked, left) =
      consume_row-tests fails tokens hash browser now row u (rw same at h) in
    let here : row.browser_hash ≡ browser = eq_of_str_eq row.browser_hash browser asked in
    (
      record {
        row = row;
        found = found;
        owner = owner;
        in_time = in_time;
        asked_here = here;
        bound = rw here at bound;
      },
      ap (λ (p : Result TokenError Text × List MagicToken). p.1) same ∙ left,
    )

-- A successful Consume found a row with the hash, not past its expiry and bound to the browser that
-- asks, returned its user, and left no row with that hash; no later Consume of it, from any browser
-- and at any time, returns a user. An error leaves the table as it was.
pub consume_once :
    (fails fails' : Outage) (tokens : List MagicToken) (hash browser other : Text) (now later : ℕ)
    → let (r, tokens') = consume fails tokens hash browser now in
      ((e : TokenError) → r ≡ err e → tokens' ≡ tokens)
      × ((user_id : Text)
          → r ≡ ok user_id
          → Spends tokens hash browser now user_id
            × (count_where (has_hash hash) tokens' ≡ 0)
            × ((u : Text) → (consume fails' tokens' hash other later).0 ≢ ok u))
consume_once fails fails' tokens hash browser other now later = (
  consume-keeps fails tokens hash browser now,
  λ user_id h.
      let (spends, left) = consume-Spends fails tokens hash browser now user_id h in
      (
        spends,
        rw left (count_where-delete_where (has_hash hash) tokens),
        λ u. rw left (
            consume-missing fails' (delete_where (has_hash hash) tokens) hash other later u
              (find_row-delete_where (has_hash hash) tokens)),
      ),
)

peek-reads :
    (fails : Outage) (tokens : List MagicToken) (hash : Text) (now : ℕ) (row : MagicToken)
    → peek fails tokens hash now ≡ ok row
    → (fails read_one ≡ false)
      × (find_row (has_hash hash) tokens ≡ some row)
      × (ltb row.expires_at now ≡ false)
unfolding peek
peek-reads fails tokens hash now row seen = ground arith

-- What Peek shows is the row that a Consume at the same instant by the browser that asked for it
-- would spend: if Peek finds a row bound to `browser`, and the statements succeed, Consume returns
-- its user.
pub peek-consume :
    (fails : Outage) (tokens : List MagicToken) (hash browser : Text) (now : ℕ) (row : MagicToken)
    → peek fails tokens hash now ≡ ok row
    → row.browser_hash ≡ browser
    → is_empty browser ≡ false
    → fails delete_row ≡ false
    → (consume fails tokens hash browser now).0 ≡ ok row.user_id
peek-consume fails tokens hash browser now row seen here bound works =
    let (up, found, fresh) = peek-reads fails tokens hash now row seen in
    let asked : str_eq row.browser_hash browser ≡ true =
      str_eq_of_eq row.browser_hash browser here in
    let bound' : is_empty row.browser_hash ≡ false = rw here bound in
    let there : (count_where (has_hash hash) tokens == 0) ≡ false =
      count_where-found (has_hash hash) tokens row found in
    unfold consume in rw (up, found) (ground arith)
