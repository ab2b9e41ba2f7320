-- ===== src/Wmopts/Fit.antt =====
-- RenderTextFit of internals/wmopts/wmopts.go: what it gives up, and when it fits.
use mathlib.Core.Path.{subst}
use sade_safe_media_delivery.Auth.Store.{kept}
use sade_safe_media_delivery.Base.{
  Bool-cases, Option-cases, Text, [], arith, false, inl, inr, is_empty, leb, length, ltb, none, not,
  some, suc, true, zero, ℕ, ◌-◌, ◌<◌, ◌==◌, ◌||◌, ◌∷◌, ◌≡◌, ◌≢◌, ◌≤◌,
}
use sade_safe_media_delivery.GoText.{trim_space}
use sade_safe_media_delivery.Job.Create.{limited}
use sade_safe_media_delivery.Wmopts.{
  drop_date, give_up, render, render_text, render_text_fit, shorten, with_short,
}

module _ (template company recipient date : Text) (budget : ℕ) where
  shorten-fits :
      (k : ℕ) (t : Text)
      → shorten template company recipient date budget k ≡ some t
      → length t ≤ budget
  unfolding shorten
  shorten-fits zero t h = cc
  shorten-fits (suc k) t h = ground (arith, shorten-fits k t, h)

  shorten-finds :
      (k n : ℕ)
      → 3 ≤ n
      → n ≤ k
      → length (with_short template company recipient date n) ≤ budget
      → shorten template company recipient date budget k ≢ none
  unfolding shorten
  shorten-finds zero n low high fits h = omega (arith, low, high)
  shorten-finds (suc k) n low high fits h = elim (Bool-cases (leb n k)) [
    | inl below ↦ ground (arith, shorten-finds k n low (ground (arith, below)) fits, h)
    | inr top ↦
        let same : n ≡ suc k = ground (arith, top, high) in
        ground (
          arith,
          subst (λ m. length (with_short template company recipient date m) ≤ budget) same fits,
          subst (λ m. 3 ≤ m) same low,
          h,
        )
  ]

drop_date-length :
    (template company recipient full : Text)
    → length (drop_date template company recipient full) ≤ length full
unfolding drop_date
drop_date-length template company recipient full = ground arith

-- The text that is cut is not longer.
give_up-length :
    (template company recipient date : Text) (budget : ℕ) (full : Text)
    → budget < length full
    → length (give_up template company recipient date budget full) ≤ length full
unfolding give_up
give_up-length template company recipient date budget full long =
    let without = render template [] recipient date in
    elim (Bool-cases (is_empty company || not (ltb (length without) (length full)))) [
      | inl kept ↦ rw (give_up, kept) (drop_date-length template company recipient full)
      | inr dropped ↦
          elim (Option-cases
            (shorten template company recipient date budget (length company - 1))) [
              | inr (t, found) ↦
                  rw (give_up, dropped, found)
                    (omega (
                      arith,
                      long,
                      shorten-fits template company recipient date budget (length company - 1) t
                          found,
                    ))
              | inl missing ↦ elim (Bool-cases (leb (length without) budget)) [
                | inl fits ↦ rw (give_up, dropped, missing, fits) (ground (arith, fits, long))
                | inr over ↦
                    rw (give_up, dropped, missing, over)
                      (ground (arith, dropped, drop_date-length template [] recipient without))
              ]
            ]
    ]

-- The text that fits a budget is never longer than the one without a budget.
render_text_fit-length :
    (template company recipient date : Text) (budget : ℕ)
    → length (render_text_fit template company recipient date budget)
      ≤ length (render_text template company recipient date)
unfolding render_text_fit render_text
render_text_fit-length template company recipient date budget =
    let full = render template (trim_space company) recipient date in
    elim (Bool-cases (budget == 0 || leb (length full) budget)) [
      | inl fits ↦ rw (render_text_fit, fits) (omega arith)
      | inr over ↦
          rw (render_text_fit, over)
            (give_up-length template (trim_space company) recipient date budget full
              (ground (arith, over)))
    ]

within : (l b : ℕ) → 1 ≤ b → (b == 0 || leb l b) ≡ true → l ≤ b
within l b low h = ground (arith, low, h)

shows_company :
    (name : Text) (n a b : ℕ) → n < length name → a < b → (is_empty name || not (ltb a b)) ≡ false
shows_company [] n a b high less = absurd (omega (arith, high))
shows_company (c ∷ name) n a b high less = ground (arith, less)

-- When the template shows the company, and some shortening of the company to at least three letters
-- makes the text fit the budget, RenderTextFit finds a text that fits.
pub render_text_fit-fits :
    (template company recipient date : Text) (budget n : ℕ)
    → 1 ≤ budget
    → 3 ≤ n
    → n < length (trim_space company)
    → length (render template [] recipient date)
      < length (render_text template company recipient date)
    → length (with_short template (trim_space company) recipient date n) ≤ budget
    → length (render_text_fit template company recipient date budget) ≤ budget
unfolding render_text_fit render_text give_up
render_text_fit-fits template company recipient date budget n limited low high shows fits =
    let name = trim_space company in
    let full = render template name recipient date in
    elim (Bool-cases (budget == 0 || leb (length full) budget)) [
      | inl short ↦ rw (render_text_fit, short) (within (length full) budget limited short)
      | inr over ↦
          elim (Option-cases (shorten template name recipient date budget (length name - 1))) [
            | inl missing ↦ absurd (
                shorten-finds template name recipient date budget (length name - 1) n low
                  (omega (arith, high)) fits missing)
            | inr (t, found) ↦
                let hidden : is_empty name
                      || not (ltb (length (render template [] recipient date)) (length full))
                    ≡ false =
                  shows_company name n (length (render template [] recipient date)) (length full)
                    high shows in
                rw (render_text_fit, over, give_up, hidden, found)
                  (shorten-fits template name recipient date budget (length name - 1) t found)
          ]
    ]
