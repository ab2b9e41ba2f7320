-- ===== src/MagicToken/Code.antt =====
-- The 6-digit code: ConsumeByCode of internals/app/magic_token/repo.go. A wrong code counts against
-- every link of the browser, and a link that reaches the maximum is deleted.
use mathlib.Core.Path.{subst}
use native.Mathlib.Nat.{add-zero, zero-add, add-suc, suc-add}
use sade_safe_media_delivery.Base.{
  All, All-intro, All-map, All-zip, Bool, Bool-cases, List, Result, Text, [], arith, contains,
  delete_where-All, empty_select, err, inl, inr, leb, length, map, ok, refl, select,
  select-contains, select-holds, str_eq, suc, true, update_where-All, ℕ, ◌+◌, ◌<◌, ◌∙◌, ◌∷◌, ◌≡◌,
  ◌≢◌, ◌≤◌, ◌⊎◌,
}
use sade_safe_media_delivery.MagicToken.{
  MagicToken, Outage, TokenError, bad_code, consume_by_code, count_wrong, count_wrongs,
  is_candidate, try_code,
}

-- The tokens that the loop has still to count, and what is known of a row until then.
abbrev Waiting : ℕ → List MagicToken → MagicToken → Type 0
Waiting n rest r = (n ≤ r.attempts) × (contains (map (λ t. t.id) rest) r.id ≡ true)

abbrev Counted : ℕ → ℕ → MagicToken → Type 0
Counted max n r = (n + 1 ≤ r.attempts) × (n + 1 < max)

-- Of a candidate row, in the middle of the loop.
abbrev Midway : Text → Text → ℕ → ℕ → ℕ → List MagicToken → MagicToken → Type 0
Midway user browser now max n rest r =
    is_candidate user browser now r ≡ true → Counted max n r ⊎ Waiting n rest r

module _ (user browser : Text) (now max n : ℕ) where
  count_wrong-Midway :
      (t : MagicToken) (rest tokens : List MagicToken)
      → n ≤ t.attempts
      → All (Midway user browser now max n (t ∷ rest)) tokens
      → All (Midway user browser now max n rest) (count_wrong max tokens t)
  unfolding count_wrong contains is_candidate
  count_wrong-Midway t rest tokens low h = elim (Bool-cases (leb max (t.attempts + 1))) [
    | inl last ↦ rw last (
        delete_where-All (Midway user browser now max n (t ∷ rest))
          (Midway user browser now max n rest) (λ r. str_eq t.id r.id)
          (λ r other before candidate. ground (arith, before candidate)) tokens h)
    | inr more ↦ rw more (
        update_where-All (Midway user browser now max n (t ∷ rest))
          (Midway user browser now max n rest) (λ r. str_eq t.id r.id)
          (λ r. record r { attempts = r.attempts + 1 })
          (λ r this before candidate. ground (arith, before candidate))
          (λ r other before candidate. ground (arith, before candidate)) tokens h)
  ]

  count_wrongs-Midway :
      (cs tokens : List MagicToken)
      → All (λ t. n ≤ t.attempts) cs
      → All (Midway user browser now max n cs) tokens
      → All (Midway user browser now max n []) (count_wrongs max tokens cs)
  unfolding count_wrongs
  count_wrongs-Midway [] tokens low h = h
  count_wrongs-Midway (t ∷ cs) tokens low h =
      count_wrongs-Midway cs (count_wrong max tokens t) low.1
        (count_wrong-Midway t cs tokens low.0 h)

-- After `n` wrong codes every token that is a candidate has counted them, and lives on because they
-- are fewer than the maximum.
abbrev pub Survives : Text → Text → ℕ → ℕ → ℕ → MagicToken → Type 0
Survives user browser max n now r =
    is_candidate user browser now r ≡ true → (n ≤ r.attempts) × ((n ≡ 0) ⊎ (n < max))

module _ (user browser : Text) (max : ℕ) where
  refused-table :
      (fails : Outage) (tokens : List MagicToken) (match : MagicToken → Bool) (now : ℕ)
      → (consume_by_code fails tokens user browser match max now).0 ≡ err bad_code
      → (consume_by_code fails tokens user browser match max now).1
        ≡ count_wrongs max tokens (select (is_candidate user browser now) tokens)
  unfolding consume_by_code try_code
  refused-table fails tokens match now h = ground arith

  counted-Survives :
      (n now : ℕ) (tokens : List MagicToken)
      → All (Survives user browser max n now) tokens
      → All
          (Survives user browser max (suc n) now)
          (count_wrongs max tokens (select (is_candidate user browser now) tokens))
  unfolding contains
  counted-Survives n now tokens h =
      All-map (Midway user browser now max n []) (Survives user browser max (suc n) now)
        (λ r m q. elim (m q) [ inl done ↦ (omega arith, inr (omega arith)) | inr left ↦ cc ])
        counted (count_wrongs-Midway user browser now max n cands tokens low start)
    where
      cands : List MagicToken
      cands = select (is_candidate user browser now) tokens

      counted : List MagicToken
      counted = count_wrongs max tokens cands

      low : All (λ (t : MagicToken). n ≤ t.attempts) cands
      low =
          select-holds (λ (t : MagicToken). n ≤ t.attempts) (is_candidate user browser now) tokens
            (All-map (Survives user browser max n now)
              (λ t. is_candidate user browser now t ≡ true → n ≤ t.attempts) (λ t f q. (f q).0)
              tokens h)

      start : All (Midway user browser now max n cands) tokens
      start =
          All-zip (Survives user browser max n now)
            (λ (t : MagicToken).
              is_candidate user browser now t ≡ true → contains (map (λ t. t.id) cands) t.id ≡ true)
            (Midway user browser now max n cands) (λ t f g q. inr ((f q).0, g q)) tokens h
            (select-contains (λ t. t.id) (is_candidate user browser now) tokens)

  later-Survives :
      (n now later : ℕ) (tokens : List MagicToken)
      → now ≤ later
      → All (Survives user browser max n now) tokens
      → All (Survives user browser max n later) tokens
  unfolding is_candidate
  later-Survives n now later tokens o h =
      All-map (Survives user browser max n now) (Survives user browser max n later)
        (λ t f q. f (ground arith)) tokens h

-- One call of ConsumeByCode: what fails, which tokens the code matches, and when.
pub record Guess : Type 0 where
  pub fails : Outage
  pub match : MagicToken → Bool
  pub now : ℕ

abbrev pub guess :
    Text → Text → ℕ → List MagicToken → Guess → Result TokenError (Unit {0}) × List MagicToken
guess user browser max tokens g = consume_by_code g.fails tokens user browser g.match max g.now

-- The table after the guesses, one after the other.
abbrev pub after_guesses : Text → Text → ℕ → List MagicToken → List Guess → List MagicToken
after_guesses user browser max tokens [] = tokens
after_guesses user browser max tokens (g ∷ gs) =
    after_guesses user browser max (guess user browser max tokens g).1 gs

-- Every guess is answered by `bad_code`.
abbrev pub AllWrong : Text → Text → ℕ → List MagicToken → List Guess → Type 0
AllWrong user browser max tokens [] = Unit
AllWrong user browser max tokens (g ∷ gs) =
    ((guess user browser max tokens g).0 ≡ err bad_code)
    × AllWrong user browser max (guess user browser max tokens g).1 gs

-- The clock does not go back, and ends at `last`.
abbrev pub InOrder : ℕ → List Guess → ℕ → Type 0
InOrder t [] last = t ≤ last
InOrder t (g ∷ gs) last = (t ≤ g.now) × InOrder g.now gs last

guesses-Survives :
    (user browser : Text) (max n t last : ℕ) (tokens : List MagicToken) (gs : List Guess)
    → AllWrong user browser max tokens gs
    → InOrder t gs last
    → All (Survives user browser max n t) tokens
    → All
        (Survives user browser max (n + length gs) last)
        (after_guesses user browser max tokens gs)
guesses-Survives user browser max n t last tokens [] wrong o h =
    rw add-zero (later-Survives user browser max n t last tokens o h)
guesses-Survives user browser max n t last tokens (g ∷ gs) wrong o h =
    let tokens' = (guess user browser max tokens g).1 in
    let counted : All (Survives user browser max (suc n) g.now) tokens' =
      rw (refused-table user browser max g.fails tokens g.match g.now wrong.0) (
        counted-Survives user browser max n g.now tokens
          (later-Survives user browser max n t g.now tokens o.0 h)) in
    rw (add-suc, ← suc-add)
      (guesses-Survives user browser max (suc n) g.now last tokens' gs wrong.1 o.1 counted)

no_candidates :
    (fails : Outage) (user browser : Text) (match : MagicToken → Bool) (max now : ℕ)
    (tokens : List MagicToken)
    → 0 < max
    → All (Survives user browser max max now) tokens
    → (consume_by_code fails tokens user browser match max now).0 ≢ ok tt
unfolding consume_by_code try_code
no_candidates fails user browser match max now tokens positive h =
    rw
      (empty_select (is_candidate user browser now) tokens (
        All-map (Survives user browser max max now)
          (λ t. is_candidate user browser now t ≡ true → ⊥) (λ t f q. absurd (ground (arith, f q)))
          tokens h))
      (ground arith)

-- After as many wrong codes as the maximum, with any statements failing in between that still let
-- the code be refused, no code signs the browser in: not even the right one.
pub codes_exhausted :
    (fails : Outage) (user browser : Text) (match : MagicToken → Bool) (max last : ℕ)
    (tokens : List MagicToken) (gs : List Guess)
    → 0 < max
    → length gs ≡ max
    → InOrder 0 gs last
    → AllWrong user browser max tokens gs
    → (consume_by_code fails
        (after_guesses user browser max tokens gs)
        user
        browser
        match
        max
        last).0
      ≢ ok tt
codes_exhausted fails user browser match max last tokens gs positive count o wrong =
    no_candidates fails user browser match max last (after_guesses user browser max tokens gs)
      positive
      (subst
        (λ n. All (Survives user browser max n last) (after_guesses user browser max tokens gs))
        (zero-add (length gs) ∙ count)
        (guesses-Survives user browser max 0 0 last tokens gs wrong o
          (All-intro (Survives user browser max 0 0) (λ t q. (omega arith, inl refl)) tokens)))
