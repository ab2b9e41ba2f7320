-- ===== src/Examples/SignInTokens.antt =====
-- The sign-in tokens of internals/app/magic_token at a concrete table.
use sade_safe_media_delivery.Base.{
  List, Text, [], arith, codes, count_where, delete_where, err, false, find_row, ok, refl, select,
  str_eq, true, update_where, ℕ, ◌∷◌, ◌≡◌, ◌≢◌,
}
use sade_safe_media_delivery.MagicToken.{
  MagicToken, Outage, TokenError, consume, consume_by_code, has_hash, peek,
}
use sade_safe_media_delivery.MagicToken.Code.{Guess, after_guesses, codes_exhausted}
use sade_safe_media_delivery.MagicToken.Link.{Spends, consume_once, peek-consume}

abbrev all_works : Outage
all_works s = false

abbrev token : MagicToken
token = record {
  id = codes "t1";
  user_id = codes "u1";
  token_hash = codes "h1";
  expires_at = 100;
  created_at = 0;
  browser_hash = codes "b1";
  code_hash = codes "c1";
  attempts = 0;
}

abbrev table : List MagicToken
table = token ∷ []

consume_ok : (consume all_works table (codes "h1") (codes "b1") 100).0 ≡ ok (codes "u1")
unfolding consume find_row str_eq count_where
consume_ok = refl

consume_once_example :
    let (r, tokens') = consume all_works table (codes "h1") (codes "b1") 100 in
    ((e : TokenError) → r ≡ err e → tokens' ≡ table)
    × ((user_id : Text)
        → r ≡ ok user_id
        → Spends table (codes "h1") (codes "b1") 100 user_id
          × (count_where (has_hash (codes "h1")) tokens' ≡ 0)
          × ((u : Text) → (consume all_works tokens' (codes "h1") (codes "b1") 101).0 ≢ ok u))
consume_once_example =
    consume_once all_works all_works table (codes "h1") (codes "b1") (codes "b1") 100 101

peek-consume_example : (consume all_works table (codes "h1") (codes "b1") 100).0 ≡ ok (codes "u1")
unfolding peek find_row str_eq
peek-consume_example =
    peek-consume all_works table (codes "h1") (codes "b1") 100 token refl refl refl refl

abbrev wrong : ℕ → Guess
wrong now = record { fails = all_works; match = λ t. false; now = now }

abbrev two_wrong : List Guess
two_wrong = wrong 1 ∷ wrong 2 ∷ []

codes_exhausted_example :
    (consume_by_code all_works
      (after_guesses (codes "u1") (codes "b1") 2 table two_wrong)
      (codes "u1")
      (codes "b1")
      (λ t. true)
      2
      3).0
    ≢ ok tt
unfolding consume_by_code select str_eq update_where count_where delete_where
codes_exhausted_example =
    codes_exhausted all_works (codes "u1") (codes "b1") (λ t. true) 2 3 table two_wrong
      (omega arith) refl (omega arith) (refl, (refl, tt))
