-- ===== src/Base/Keys.antt =====
-- Tables whose rows have a unique key.
use Prim.Native.Nat.{◌+◌, ◌≤◌}
use mathlib.Core.Path.{◌≡◌, refl, ap, fun_ext}
use mathlib.Core.Logic.{inl, inr}
use mathlib.Core.Bool.{Bool, true, false, ◌||◌, ◌&&◌}
use mathlib.Core.Option
use mathlib.Core.Option.{some}
use mathlib.Core.List.{List, [], ◌∷◌}
use native.Mathlib.Omega.{arith}
use sade_safe_media_delivery.Base.Tests.{Bool-cases, if◌then◌else◌}
use sade_safe_media_delivery.Base.Lists.{length, All, All-map}
use sade_safe_media_delivery.Base.Strings.{
  Text, str_eq, str_eq_refl, str_eq_comm, str_eq_iff, contains,
}
use sade_safe_media_delivery.Base.Table.{count_where, find_row, update_where, count_where-positive}

module _ {ℓ} {A : Type ℓ} (key : A → Text) where
  abbrev pub with_key : Text → A → Bool
  with_key k x = str_eq (key x) k

  -- No two rows have the same key.
  abbrev pub Unique : List A → Type 0
  Unique xs = (k : Text) → count_where (with_key k) xs ≤ 1

  Unique-tail : (x : A) (xs : List A) → Unique (x ∷ xs) → Unique xs
  unfolding count_where
  Unique-tail x xs u k = ground (arith, u k)

  -- A row is the one that is found under its key.
  pub find_row-Unique :
      (xs : List A) → Unique xs → All (λ r. find_row (with_key (key r)) xs ≡ some r) xs
  unfolding find_row count_where
  find_row-Unique [] u = tt
  find_row-Unique (x ∷ xs) u = (
    ground (arith, str_eq_refl (key x)),
    All-map (λ r. find_row (with_key (key r)) xs ≡ some r)
        (λ r. (if str_eq (key x) (key r) then some x else find_row (with_key (key r)) xs) ≡ some r)
        (λ r found. ground (arith, u (key r), count_where-positive (with_key (key r)) xs r found))
        xs (find_row-Unique xs (Unique-tail x xs u)),
  )

  count_where-or :
      (p q : A → Bool) (xs : List A)
      → count_where (λ x. p x || q x) xs ≤ count_where p xs + count_where q xs
  unfolding count_where
  count_where-or p q [] = omega arith
  count_where-or p q (x ∷ xs) = ground (arith, count_where-or p q xs)

  count_where-none : (xs : List A) → count_where (λ x. false) xs ≡ 0
  unfolding count_where
  count_where-none [] = refl
  count_where-none (x ∷ xs) = count_where-none xs

  -- At most one row for each of the keys.
  pub count_where-contains :
      (ks : List Text) (xs : List A)
      → Unique xs
      → count_where (λ x. contains ks (key x)) xs ≤ length ks
  unfolding contains
  count_where-contains [] xs u = omega (arith, count_where-none xs)
  count_where-contains (k ∷ ks) xs u = omega (
    arith,
    count_where-or (λ x. str_eq k (key x)) (λ x. contains ks (key x)) xs,
    ap (λ p. count_where p xs) (fun_ext (λ x. str_eq_comm k (key x))),
    u k,
    count_where-contains ks xs u,
  )

  count_where-update_where :
      (p : A → Bool) (f : A → A) (k : Text) (xs : List A)
      → ((x : A) → key (f x) ≡ key x)
      → count_where (with_key k) (update_where p f xs) ≡ count_where (with_key k) xs
  unfolding count_where update_where
  count_where-update_where p f k [] same = refl
  count_where-update_where p f k (x ∷ xs) same =
      ground (arith, same x, count_where-update_where p f k xs same)

  -- An update that keeps the keys keeps them unique.
  pub update_where-Unique :
      (p : A → Bool) (f : A → A) (xs : List A)
      → ((x : A) → key (f x) ≡ key x)
      → Unique xs
      → Unique (update_where p f xs)
  update_where-Unique p f xs same u k = rw (count_where-update_where p f k xs same) (u k)

  module _ (f : A → A) (same : (x : A) → key (f x) ≡ key x) (k : Text) where
    -- The row under a key, after an update of the rows with that key.
    pub find_row-update_where :
        (xs : List A)
        → find_row (with_key k) (update_where (with_key k) f xs)
          ≡ Option.map f (find_row (with_key k) xs)
    unfolding find_row update_where
    find_row-update_where [] = refl
    find_row-update_where (x ∷ xs) = elim (Bool-cases (str_eq (key x) k)) [
      | inl e ↦ rw e (rw (same x, e) refl)
      | inr e ↦ rw e (rw e (find_row-update_where xs))
    ]

    pub find_row-update_where_and :
        (q : A → Bool) (xs : List A)
        → find_row (with_key k) (update_where (λ x. with_key k x && q x) f xs)
          ≡ Option.map (λ x. if q x then f x else x) (find_row (with_key k) xs)
    unfolding find_row update_where
    find_row-update_where_and q [] = refl
    find_row-update_where_and q (x ∷ xs) = elim (Bool-cases (str_eq (key x) k)) [
      | inl e ↦ elim (Bool-cases (q x)) [
        | inl t ↦ rw (e, t) (rw (same x, e) refl)
        | inr t ↦ rw (e, t) (rw e refl)
      ]
      | inr e ↦ rw e (rw e (find_row-update_where_and q xs))
    ]

    -- The row under a key, after an update of any rows.
    pub find_row-update_where_if :
        (q : A → Bool) (xs : List A)
        → find_row (with_key k) (update_where q f xs)
          ≡ Option.map (λ x. if q x then f x else x) (find_row (with_key k) xs)
    unfolding find_row update_where
    find_row-update_where_if q [] = refl
    find_row-update_where_if q (x ∷ xs) = elim (Bool-cases (str_eq (key x) k)) [
      | inl e ↦ elim (Bool-cases (q x)) [
        | inl t ↦ rw (e, t) (rw (same x, e) refl)
        | inr t ↦ rw (e, t) (rw e refl)
      ]
      | inr e ↦ elim (Bool-cases (q x)) [
        | inl t ↦ rw (e, t) (rw (same x, e) (find_row-update_where_if q xs))
        | inr t ↦ rw (e, t) (rw e (find_row-update_where_if q xs))
      ]
    ]

    -- An update of rows with the key `k` alone leaves the row under another key.
    pub find_row-update_where_ne :
        (p : A → Bool) (j : Text) (xs : List A)
        → ((x : A) → p x ≡ true → str_eq (key x) k ≡ true)
        → str_eq k j ≡ false
        → find_row (with_key j) (update_where p f xs) ≡ find_row (with_key j) xs
    unfolding find_row update_where
    find_row-update_where_ne p j [] only ne = refl
    find_row-update_where_ne p j (x ∷ xs) only ne = ground (
      arith,
      same x,
      only x,
      str_eq_iff (key x) k,
      str_eq_iff (key x) j,
      str_eq_iff k j,
      find_row-update_where_ne p j xs only ne,
    )
