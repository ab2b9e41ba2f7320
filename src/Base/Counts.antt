-- ===== src/Base/Counts.antt =====
-- Counting the rows of a selected or sorted table.
use mathlib.Core.Path.{◌≡◌, refl}
use mathlib.Core.Bool.{Bool, ◌&&◌}
use mathlib.Core.Option.{none}
use mathlib.Core.List.{List, [], ◌∷◌}
use native.Mathlib.Omega.{arith}
use sade_safe_media_delivery.Base.Table.{count_where, find_row, select}
use sade_safe_media_delivery.Base.Sort.{insert_sorted, sort_by}

module _ {ℓ} {A : Type ℓ} (p : A → Bool) where
  pub count_where-none : (xs : List A) → find_row p xs ≡ none → count_where p xs ≡ 0
  unfolding find_row count_where
  count_where-none [] h = refl
  count_where-none (x ∷ xs) h = ground (arith, count_where-none xs)

  count_where-insert_sorted :
      (before : A → A → Bool) (x : A) (xs : List A)
      → count_where p (insert_sorted before x xs) ≡ count_where p (x ∷ xs)
  unfolding count_where insert_sorted
  count_where-insert_sorted before x [] = refl
  count_where-insert_sorted before x (y ∷ ys) =
      ground (arith, count_where-insert_sorted before x ys)

  pub count_where-sort_by :
      (before : A → A → Bool) (xs : List A) → count_where p (sort_by before xs) ≡ count_where p xs
  unfolding count_where sort_by
  count_where-sort_by before [] = refl
  count_where-sort_by before (x ∷ xs) =
      ground (
        arith,
        count_where-sort_by before xs,
        count_where-insert_sorted before x (sort_by before xs),
      )

  pub count_where-select :
      (q : A → Bool) (xs : List A) → count_where p (select q xs) ≡ count_where (λ x. q x && p x) xs
  unfolding count_where select
  count_where-select q [] = refl
  count_where-select q (x ∷ xs) = ground (arith, count_where-select q xs)
