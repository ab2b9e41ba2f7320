-- ===== src/Base/Finding.antt =====
-- The row that a statement finds after another one has inserted or deleted rows.
use Prim.Native.Nat.{◌≤◌}
use mathlib.Core.Path.{◌≡◌, refl}
use mathlib.Core.Logic.{inl, inr}
use mathlib.Core.Bool.{Bool, true, false}
use mathlib.Core.Option.{none, some}
use mathlib.Core.List.{List, [], ◌∷◌, ◌++◌}
use native.Mathlib.Omega.{arith}
use sade_safe_media_delivery.Base.Tests.{if◌then◌else◌, Bool-cases}
use sade_safe_media_delivery.Base.Table.{count_where, delete_where, find_row, update_where}

module _ {ℓ} {A : Type ℓ} (p : A → Bool) where
  -- A new last row is found when no row before it is.
  pub find_row-last :
      (xs : List A) (x : A)
      → find_row p (xs ++ x ∷ [])
        ≡ elim (find_row p xs) [ some r ↦ some r | none ↦ if p x then some x else none ]
  unfolding find_row
  find_row-last [] x = ground arith
  find_row-last (y ∷ xs) x = elim (Bool-cases (p y)) [
    | inl e ↦ rw e refl
    | inr e ↦ rw e (find_row-last xs x)
  ]

  -- Rows of another condition can go.
  pub find_row-delete_others :
      (q : A → Bool)
      → ((x : A) → p x ≡ true → q x ≡ false)
      → (xs : List A) → find_row p (delete_where q xs) ≡ find_row p xs
  unfolding find_row delete_where
  find_row-delete_others q apart [] = refl
  find_row-delete_others q apart (x ∷ xs) = elim (Bool-cases (p x)) [
    | inl e ↦ rw (apart x e, e) refl
    | inr e ↦ elim (Bool-cases (q x)) [
      | inl t ↦ rw (t, e) (find_row-delete_others q apart xs)
      | inr t ↦ rw (t, e) (find_row-delete_others q apart xs)
    ]
  ]

  pub find_row-absent : (xs : List A) → count_where p xs ≡ 0 → find_row p xs ≡ none
  unfolding find_row count_where
  find_row-absent [] h = refl
  find_row-absent (x ∷ xs) h = ground (arith, find_row-absent xs)

  pub count_where-delete_none :
      (q : A → Bool) (xs : List A) → count_where p xs ≡ 0 → count_where p (delete_where q xs) ≡ 0
  unfolding count_where delete_where
  count_where-delete_none q [] h = refl
  count_where-delete_none q (x ∷ xs) h = ground (arith, count_where-delete_none q xs)

  pub count_where-delete_others :
      (q : A → Bool)
      → ((x : A) → p x ≡ true → q x ≡ false)
      → (xs : List A) → count_where p (delete_where q xs) ≡ count_where p xs
  unfolding count_where delete_where
  count_where-delete_others q apart [] = refl
  count_where-delete_others q apart (x ∷ xs) =
      ground (arith, apart x, count_where-delete_others q apart xs)

  -- No statement that deletes makes rows.
  pub count_where-delete_le :
      (q : A → Bool) (xs : List A) → count_where p (delete_where q xs) ≤ count_where p xs
  unfolding count_where delete_where
  count_where-delete_le q [] = omega arith
  count_where-delete_le q (x ∷ xs) = ground (arith, count_where-delete_le q xs)

  -- An update that keeps what the condition reads finds the same row, updated.
  pub find_row-update_kept :
      (q : A → Bool) (f : A → A)
      → ((x : A) → p (f x) ≡ p x)
      → (xs : List A)
      → find_row p (update_where q f xs)
        ≡ elim (find_row p xs) [ some r ↦ some (if q r then f r else r) | none ↦ none ]
  unfolding find_row update_where
  find_row-update_kept q f kept [] = refl
  find_row-update_kept q f kept (x ∷ xs) = elim (Bool-cases (p x)) [
    | inl e ↦ elim (Bool-cases (q x)) [
      | inl t ↦ rw (t, kept x, e) (rw t refl)
      | inr t ↦ rw (t, e) (rw t refl)
    ]
    | inr e ↦ elim (Bool-cases (q x)) [
      | inl t ↦ rw (t, kept x, e) (find_row-update_kept q f kept xs)
      | inr t ↦ rw (t, e) (find_row-update_kept q f kept xs)
    ]
  ]

  -- When one row at most meets the condition, it is found unless it goes.
  pub find_row-delete_where_one :
      (q : A → Bool) (xs : List A)
      → count_where p xs ≤ 1
      → find_row p (delete_where q xs)
        ≡ elim (find_row p xs) [ some r ↦ if q r then none else some r | none ↦ none ]
  unfolding find_row delete_where count_where
  find_row-delete_where_one q [] h = refl
  find_row-delete_where_one q (x ∷ xs) h = elim (Bool-cases (p x)) [
    | inl e ↦ elim (Bool-cases (q x)) [
      | inl t ↦
          rw (t, e, t)
            (find_row-absent (delete_where q xs)
              (count_where-delete_none q xs (ground (arith, e, h))))
      | inr t ↦ rw (t, e) (rw t refl)
    ]
    | inr e ↦ elim (Bool-cases (q x)) [
      | inl t ↦ rw (t, e) (find_row-delete_where_one q xs (ground (arith, e, h)))
      | inr t ↦ rw (t, e) (find_row-delete_where_one q xs (ground (arith, e, h)))
    ]
  ]
