-- ===== src/MagicToken.antt =====
-- internals/app/magic_token: single-use sign-in links and their 6-digit codes. The table is the
-- list of its rows; a transaction is one step, and one that fails leaves the table as it was.
pub mod Link
pub mod Code
use sade_safe_media_delivery.Base.{
  Bool, List, Result, Text, [], count_where, delete_where, err, false, find_row, if◌then◌else◌,
  is_empty, leb, ltb, none, not, ok, select, some, str_eq, update_where, ℕ, ◌&&◌, ◌++◌, ◌+◌, ◌==◌,
  ◌||◌, ◌∷◌,
}

pub record MagicToken : Type 0 where
  pub id : Text
  pub user_id : Text
  pub token_hash : Text
  pub expires_at : ℕ
  pub created_at : ℕ
  pub browser_hash : Text
  pub code_hash : Text
  pub attempts : ℕ

-- Err also has the errors that are wrapped, as `internal`.
pub data TokenError : Type 0 where
  not_found expired other_browser bad_code internal : TokenError

-- The statements of the operations. The environment says which of them fail.
pub data Stmt : Type 0 where
  insert_row read_one delete_row begin_tx candidates spend count_attempt commit_tx purge : Stmt

abbrev pub Outage : Type 0
Outage = Stmt → Bool

-- Expired
unfoldable pub has_expired : MagicToken → ℕ → Bool
has_expired t now = ltb t.expires_at now

abbrev pub has_hash : Text → MagicToken → Bool
has_hash hash t = str_eq t.token_hash hash

-- Create. The hash of a token is unique.
unfoldable pub create :
    Outage → List MagicToken → MagicToken → Result TokenError Text × List MagicToken
create fails tokens t =
    if fails insert_row || ltb 0 (count_where (has_hash t.token_hash) tokens)
    then (err internal, tokens)
    else (ok t.id, tokens ++ t ∷ [])

-- The body of the transaction in Consume, at the row that was read.
unfoldable pub consume_row :
    Outage
    → List MagicToken
    → Text
    → Text
    → ℕ
    → MagicToken
    → Result TokenError Text × List MagicToken
consume_row fails tokens hash browser_hash now mt =
    if ltb mt.expires_at now
    then (err expired, tokens)
    else if is_empty mt.browser_hash || not (str_eq mt.browser_hash browser_hash)
    then (err other_browser, tokens)
    else if fails delete_row
    then (err internal, tokens)
    else if count_where (has_hash hash) tokens == 0
    then (err not_found, tokens)
    else (ok mt.user_id, delete_where (has_hash hash) tokens)

-- Consume
unfoldable pub consume :
    Outage → List MagicToken → Text → Text → ℕ → Result TokenError Text × List MagicToken
unfolding consume_row
consume fails tokens hash browser_hash now =
    if fails read_one then (err internal, tokens) else elim (find_row (has_hash hash) tokens) [
      | none ↦ (err not_found, tokens)
      | some mt ↦ consume_row fails tokens hash browser_hash now mt
    ]

-- Peek
unfoldable pub peek : Outage → List MagicToken → Text → ℕ → Result TokenError MagicToken
unfolding has_expired
peek fails tokens hash now =
    if fails read_one then err internal else elim (find_row (has_hash hash) tokens) [
      | none ↦ err not_found
      | some mt ↦ if has_expired mt now then err expired else ok mt
    ]

-- The WHERE clause of the candidates.
unfoldable pub is_candidate : Text → Text → ℕ → MagicToken → Bool
is_candidate user_id browser_hash now t =
    str_eq t.user_id user_id && str_eq t.browser_hash browser_hash && ltb now t.expires_at

-- The test of the loop that looks for the code.
unfoldable pub any_match : (MagicToken → Bool) → List MagicToken → Bool
any_match match [] = false
any_match match (t ∷ ts) = not (is_empty t.code_hash) && match t || any_match match ts

-- One round of the loop that counts a wrong code.
unfoldable pub count_wrong : ℕ → List MagicToken → MagicToken → List MagicToken
count_wrong max_attempts tokens t =
    if leb max_attempts (t.attempts + 1)
    then delete_where (λ r. str_eq t.id r.id) tokens
    else update_where (λ r. str_eq t.id r.id) (λ r. record r { attempts = r.attempts + 1 }) tokens

unfoldable pub count_wrongs : ℕ → List MagicToken → List MagicToken → List MagicToken
unfolding count_wrong
count_wrongs max_attempts tokens [] = tokens
count_wrongs max_attempts tokens (t ∷ ts) =
    count_wrongs max_attempts (count_wrong max_attempts tokens t) ts

-- The WHERE clause that spends every token of the browser.
unfoldable pub of_browser : Text → Text → MagicToken → Bool
of_browser user_id browser_hash t = str_eq t.user_id user_id && str_eq t.browser_hash browser_hash

-- What follows the read of the candidates in ConsumeByCode.
unfoldable pub try_code :
    Outage
    → List MagicToken
    → Text
    → Text
    → (MagicToken → Bool)
    → ℕ
    → List MagicToken
    → Result TokenError (Unit {0}) × List MagicToken
unfolding any_match count_wrongs of_browser
try_code fails tokens user_id browser_hash match max_attempts cands =
    if is_empty cands
    then (err not_found, tokens)
    else if any_match match cands
    then (if fails spend
        then (err internal, tokens)
        else if count_where (of_browser user_id browser_hash) tokens == 0
        then (err not_found, tokens)
        else if fails commit_tx
        then (err internal, tokens)
        else (ok tt, delete_where (of_browser user_id browser_hash) tokens))
    else if fails count_attempt || fails commit_tx
    then (err internal, tokens)
    else (err bad_code, count_wrongs max_attempts tokens cands)

-- ConsumeByCode
unfoldable pub consume_by_code :
    Outage
    → List MagicToken
    → Text
    → Text
    → (MagicToken → Bool)
    → ℕ
    → ℕ
    → Result TokenError (Unit {0}) × List MagicToken
unfolding try_code is_candidate
consume_by_code fails tokens user_id browser_hash match max_attempts now =
    if is_empty browser_hash
    then (err not_found, tokens)
    else if fails begin_tx || fails candidates
    then (err internal, tokens)
    else try_code fails tokens user_id browser_hash match max_attempts
        (select (is_candidate user_id browser_hash now) tokens)

-- DeleteExpired
unfoldable pub delete_expired : Outage → List MagicToken → ℕ → Result TokenError ℕ × List MagicToken
delete_expired fails tokens now = if fails purge then (err internal, tokens) else (
  ok (count_where (λ t. ltb t.expires_at now) tokens),
  delete_where (λ t. ltb t.expires_at now) tokens,
)
