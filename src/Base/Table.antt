-- ===== src/Base/Table.antt =====
-- A database table as the list of its rows, and the statements on it.
use Prim.Native.Nat.{◌≤◌, ℕ, suc}
use mathlib.Core.Path.{◌≡◌, refl, sym, subst}
use mathlib.Core.Logic.{inl, inr}
use mathlib.Core.Bool.{Bool, true, false}
use mathlib.Core.Option.{Option, none, some}
use mathlib.Core.List.{map, List, [], ◌∷◌}
use native.Mathlib.Omega.{arith}
use sade_safe_media_delivery.Base.Tests.{◌==◌, if◌then◌else◌, Bool-cases}
use sade_safe_media_delivery.Base.Strings.{Text, str_eq_refl, contains}
use sade_safe_media_delivery.Base.Lists.{All-map, length, All}

module _ {ℓ} {A : Type ℓ} where
  -- SELECT * WHERE p
  unfoldable pub select : (A → Bool) → List A → List A
  select p [] = []
  select p (x ∷ xs) = let rest = select p xs in if p x then x ∷ rest else rest

  -- SELECT COUNT(*) WHERE p; also the RowsAffected of a statement with that condition.
  unfoldable pub count_where : (A → Bool) → List A → ℕ
  count_where p [] = 0
  count_where p (x ∷ xs) = let rest = count_where p xs in if p x then suc rest else rest

  -- UPDATE SET f WHERE p
  unfoldable pub update_where : (A → Bool) → (A → A) → List A → List A
  update_where p f [] = []
  update_where p f (x ∷ xs) = (if p x then f x else x) ∷ update_where p f xs

  -- DELETE WHERE p
  unfoldable pub delete_where : (A → Bool) → List A → List A
  delete_where p [] = []
  delete_where p (x ∷ xs) = let rest = delete_where p xs in if p x then rest else x ∷ rest

  -- SELECT * WHERE p LIMIT 1
  unfoldable pub find_row : (A → Bool) → List A → Option A
  find_row p [] = none
  find_row p (x ∷ xs) = if p x then some x else find_row p xs

  pub count_where-eq-length : (p : A → Bool) (xs : List A) → count_where p xs ≡ length (select p xs)
  unfolding count_where select
  count_where-eq-length p [] = refl
  count_where-eq-length p (x ∷ xs) = ground (arith, count_where-eq-length p xs)

  pub select-All : (p : A → Bool) (xs : List A) → All (λ x. p x ≡ true) (select p xs)
  unfolding select
  select-All p [] = tt
  select-All p (x ∷ xs) = elim (Bool-cases (p x)) [
    | inl e ↦ rw e (e, select-All p xs)
    | inr e ↦ rw e (select-All p xs)
  ]

  pub find_row-holds : (p : A → Bool) (xs : List A) (r : A) → find_row p xs ≡ some r → p r ≡ true
  unfolding find_row
  find_row-holds p [] r h = cc
  find_row-holds p (x ∷ xs) r h = ground (arith, find_row-holds p xs r)

  pub find_row-delete_where : (p : A → Bool) (xs : List A) → find_row p (delete_where p xs) ≡ none
  unfolding find_row delete_where
  find_row-delete_where p [] = refl
  find_row-delete_where p (x ∷ xs) = ground (arith, find_row-delete_where p xs)

  pub count_where-delete_where :
      (p : A → Bool) (xs : List A) → count_where p (delete_where p xs) ≡ 0
  unfolding count_where delete_where
  count_where-delete_where p [] = refl
  count_where-delete_where p (x ∷ xs) = ground (arith, count_where-delete_where p xs)

  pub empty_select : (p : A → Bool) (xs : List A) → All (λ x. p x ≡ true → ⊥) xs → select p xs ≡ []
  unfolding select
  empty_select p [] h = refl
  empty_select p (x ∷ xs) h = elim (Bool-cases (p x)) [
    | inl e ↦ absurd (h.0 e)
    | inr e ↦ rw e (empty_select p xs h.1)
  ]

  pub count_where-found :
      (p : A → Bool) (xs : List A) (r : A)
      → find_row p xs ≡ some r
      → (count_where p xs == 0) ≡ false
  unfolding find_row count_where
  count_where-found p [] r h = cc
  count_where-found p (x ∷ xs) r h = elim (Bool-cases (p x)) [
    | inl e ↦ rw e (ground arith)
    | inr e ↦ rw e (count_where-found p xs r (ground arith))
  ]

  pub count_where-positive :
      (p : A → Bool) (xs : List A) (r : A) → find_row p xs ≡ some r → 1 ≤ count_where p xs
  unfolding find_row count_where
  count_where-positive p [] r h = cc
  count_where-positive p (x ∷ xs) r h = elim (Bool-cases (p x)) [
    | inl e ↦ rw e (omega arith)
    | inr e ↦ rw e (count_where-positive p xs r (ground arith))
  ]

  pub length-update_where :
      (p : A → Bool) (f : A → A) (xs : List A) → length (update_where p f xs) ≡ length xs
  unfolding update_where
  length-update_where p f [] = refl
  length-update_where p f (x ∷ xs) = ground (arith, length-update_where p f xs)

module _ {ℓ κ} {A : Type ℓ} (P : A → Type κ) where
  pub select-keeps-All : (p : A → Bool) (xs : List A) → All P xs → All P (select p xs)
  unfolding select
  select-keeps-All p [] h = tt
  select-keeps-All p (x ∷ xs) h = elim (Bool-cases (p x)) [
    | inl e ↦ rw e (h.0, select-keeps-All p xs h.1)
    | inr e ↦ rw e (select-keeps-All p xs h.1)
  ]

  pub delete_where-keeps-All : (p : A → Bool) (xs : List A) → All P xs → All P (delete_where p xs)
  unfolding delete_where
  delete_where-keeps-All p [] h = tt
  delete_where-keeps-All p (x ∷ xs) h = elim (Bool-cases (p x)) [
    | inl e ↦ rw e (delete_where-keeps-All p xs h.1)
    | inr e ↦ rw e (h.0, delete_where-keeps-All p xs h.1)
  ]

  pub update_where-keeps-All :
      (p : A → Bool) (f : A → A)
      → ((x : A) → p x ≡ true → P x → P (f x))
      → (xs : List A) → All P xs
      → All P (update_where p f xs)
  unfolding update_where
  update_where-keeps-All p f keep [] h = tt
  update_where-keeps-All p f keep (x ∷ xs) h = elim (Bool-cases (p x)) [
    | inl e ↦ rw e (keep x e h.0, update_where-keeps-All p f keep xs h.1)
    | inr e ↦ rw e (h.0, update_where-keeps-All p f keep xs h.1)
  ]

  pub find_row-All : (p : A → Bool) (xs : List A) (r : A) → All P xs → find_row p xs ≡ some r → P r
  unfolding find_row
  find_row-All p [] r h e = cc
  find_row-All p (x ∷ xs) r h e = elim (Bool-cases (p x)) [
    | inl t ↦ (let same : x ≡ r = ground arith in subst P same h.0)
    | inr t ↦ find_row-All p xs r h.1 (ground arith)
  ]

module _ {ℓ κ μ} {A : Type ℓ} (P : A → Type κ) (Q : A → Type μ) where
  -- A statement that turns what holds of each row into something else.
  pub update_where-All :
      (p : A → Bool) (f : A → A)
      → ((x : A) → p x ≡ true → P x → Q (f x))
      → ((x : A) → p x ≡ false → P x → Q x)
      → (xs : List A) → All P xs
      → All Q (update_where p f xs)
  unfolding update_where
  update_where-All p f hit miss [] h = tt
  update_where-All p f hit miss (x ∷ xs) h = elim (Bool-cases (p x)) [
    | inl e ↦ rw e (hit x e h.0, update_where-All p f hit miss xs h.1)
    | inr e ↦ rw e (miss x e h.0, update_where-All p f hit miss xs h.1)
  ]

  pub delete_where-All :
      (p : A → Bool)
      → ((x : A) → p x ≡ false → P x → Q x)
      → (xs : List A) → All P xs
      → All Q (delete_where p xs)
  unfolding delete_where
  delete_where-All p miss [] h = tt
  delete_where-All p miss (x ∷ xs) h = elim (Bool-cases (p x)) [
    | inl e ↦ rw e (delete_where-All p miss xs h.1)
    | inr e ↦ rw e (miss x e h.0, delete_where-All p miss xs h.1)
  ]

module _ {ℓ κ} {A : Type ℓ} (P : A → Type κ) where
  -- What holds of the rows that meet the condition holds of those that it selects.
  pub select-holds :
      (p : A → Bool) (xs : List A) → All (λ x. p x ≡ true → P x) xs → All P (select p xs)
  unfolding select
  select-holds p [] h = tt
  select-holds p (x ∷ xs) h = elim (Bool-cases (p x)) [
    | inl e ↦ rw e (h.0 e, select-holds p xs h.1)
    | inr e ↦ rw e (select-holds p xs h.1)
  ]

module _ {ℓ} {A : Type ℓ} (key : A → Text) where
  -- The keys of the selected rows contain that of each row that meets the condition.
  HasKeys : (A → Bool) → List A → List A → Type 0
  HasKeys p rows = All (λ x. p x ≡ true → contains (map key rows) (key x) ≡ true)

  HasKeys-cons :
      (p : A → Bool) (x : A) (rows xs : List A) → HasKeys p rows xs → HasKeys p (x ∷ rows) xs
  unfolding HasKeys contains
  HasKeys-cons p x rows =
      All-map (λ y. p y ≡ true → contains (map key rows) (key y) ≡ true)
        (λ y. p y ≡ true → contains (map key (x ∷ rows)) (key y) ≡ true)
        (λ y h q. ground (arith, h q))

  HasKeys-select : (p : A → Bool) (xs : List A) → HasKeys p (select p xs) xs
  unfolding HasKeys select contains
  HasKeys-select p [] = tt
  HasKeys-select p (x ∷ xs) = elim (Bool-cases (p x)) [
    | inl e ↦
        subst (λ rows. HasKeys p rows (x ∷ xs))
          (sym (let kept : select p (x ∷ xs) ≡ x ∷ select p xs = rw e in kept))
          (
            (λ _. ground (arith, str_eq_refl (key x))),
            HasKeys-cons p x (select p xs) xs (HasKeys-select p xs),
          )
    | inr e ↦
        subst (λ rows. HasKeys p rows (x ∷ xs))
          (sym (let same : select p (x ∷ xs) ≡ select p xs = rw e in same))
          ((λ q. ground arith), HasKeys-select p xs)
  ]

  -- The key of a row that meets the condition is among those of the rows that it selects.
  pub select-contains :
      (p : A → Bool) (xs : List A)
      → All (λ x. p x ≡ true → contains (map key (select p xs)) (key x) ≡ true) xs
  unfolding HasKeys
  select-contains p xs = HasKeys-select p xs
