-- ===== src/Base/Removal.antt =====
-- Deleting rows: of a row that was just inserted, and of one condition that implies another.
use Prim.Native.Nat.{◌+◌}
use mathlib.Core.Path.{◌≡◌, refl}
use mathlib.Core.Bool.{Bool, true}
use mathlib.Core.List.{List, [], ◌∷◌, ◌++◌}
use native.Mathlib.Omega.{arith}
use mathlib.Core.Logic.{inl, inr}
use sade_safe_media_delivery.Base.Tests.{Bool-cases}
use sade_safe_media_delivery.Base.Table.{count_where, delete_where}

module _ {ℓ} {A : Type ℓ} (p : A → Bool) where
  pub delete_where_absent : (xs : List A) → count_where p xs ≡ 0 → delete_where p xs ≡ xs
  unfolding count_where delete_where
  delete_where_absent [] h = refl
  delete_where_absent (x ∷ xs) h = elim (Bool-cases (p x)) [
    | inl e ↦ absurd (ground arith)
    | inr e ↦ rw e (λ i. x ∷ delete_where_absent xs (ground arith) i)
  ]

  pub delete_where-last :
      (xs : List A) (x : A) → count_where p xs ≡ 0 → p x ≡ true → delete_where p (xs ++ x ∷ []) ≡ xs
  unfolding count_where delete_where
  delete_where-last [] x h t = rw t refl
  delete_where-last (y ∷ xs) x h t = elim (Bool-cases (p y)) [
    | inl e ↦ absurd (ground arith)
    | inr e ↦ rw e (λ i. y ∷ delete_where-last xs x (ground arith) t i)
  ]

  pub count_where-last :
      (xs : List A) (x : A)
      → count_where p (xs ++ x ∷ []) ≡ count_where p xs + count_where p (x ∷ [])
  unfolding count_where
  count_where-last [] x = omega arith
  count_where-last (y ∷ xs) x = ground (arith, count_where-last xs x)

  pub count_where-delete_some :
      (q : A → Bool)
      → ((x : A) → q x ≡ true → p x ≡ true)
      → (xs : List A) → count_where p (delete_where q xs) + count_where q xs ≡ count_where p xs
  unfolding count_where delete_where
  count_where-delete_some q implies [] = refl
  count_where-delete_some q implies (x ∷ xs) = elim (Bool-cases (q x)) [
    | inl e ↦ rw (e, implies x e) (omega (arith, count_where-delete_some q implies xs))
    | inr e ↦ rw e (ground (arith, count_where-delete_some q implies xs))
  ]
