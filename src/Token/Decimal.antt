-- ===== src/Token/Decimal.antt =====
-- fmt's `%d` and strconv.ParseInt in base 10, on the numbers below 2^63.
use sade_safe_media_delivery.Base.{
  All, Bool-cases, Option, Text, [], ap, arith, false, if◌then◌else◌, inl, inr, is_empty, leb,
  le→leb, ltb, ltb→lt, lt→ltb, none, refl, some, suc, zero, ℕ, ◌%◌, ◌&&◌, ◌*◌, ◌++◌, ◌+◌, ◌-◌, ◌/◌,
  ◌<◌, ◌^◌, ◌∙◌, ◌∷◌, ◌≡◌, ◌≤◌,
}

-- The digits of `n` in front of `acc`; the fuel is more than the number.
unfoldable pub digits_from : ℕ → ℕ → Text → Text
digits_from zero n acc = acc
digits_from (suc fuel) n acc =
    let more = digits_from fuel (n / 10) ((48 + n % 10) ∷ acc) in
    if ltb n 10 then (48 + n) ∷ acc else more

unfoldable pub print_decimal : ℕ → Text
unfolding digits_from
print_decimal n = digits_from (suc n) n []

unfoldable pub read_digits : ℕ → Text → Option ℕ
read_digits acc [] = some acc
read_digits acc (c ∷ s) =
    let rest = read_digits (acc * 10 + (c - 48)) s in if leb 48 c && leb c 57 then rest else none

-- ParseInt; a sign is refused, which no token that Sign makes has.
unfoldable pub parse_decimal : Text → Option ℕ
unfolding read_digits
parse_decimal s =
    if is_empty s
    then none
    else elim (read_digits 0 s) [ none ↦ none | some n ↦ if ltb n (2 ^ 63) then some n else none ]

read_digits-append :
    (acc n : ℕ) (s t : Text)
    → read_digits acc s ≡ some n
    → read_digits acc (s ++ t) ≡ read_digits n t
unfolding read_digits
read_digits-append acc n [] t h = ground arith
read_digits-append acc n (c ∷ s) t h = elim (Bool-cases (leb 48 c && leb c 57)) [
  | inl e ↦ rw e (read_digits-append (acc * 10 + (c - 48)) n s t (ground arith))
  | inr e ↦ absurd (ground arith)
]

read_digit :
    (acc d : ℕ) (s : Text) → d < 10 → read_digits acc ((48 + d) ∷ s) ≡ read_digits (acc * 10 + d) s
read_digit acc d s h =
    unfold read_digits in
    rw (le→leb 48 (48 + d) (omega arith), le→leb (48 + d) 57 (omega arith))
      (ap (λ n. read_digits n s) (omega arith))

-- The digits in front of `acc` are read to `n` before `acc` is.
read_digits-digits_from :
    (fuel n : ℕ) (acc : Text)
    → n < fuel
    → read_digits 0 (digits_from fuel n acc) ≡ read_digits n acc
unfolding digits_from
read_digits-digits_from zero n acc h = elim h [ ]
read_digits-digits_from (suc fuel) n acc h = elim (Bool-cases (ltb n 10)) [
  | inl small ↦
      rw small (read_digit 0 n acc (ltb→lt n 10 small) ∙ ap (λ m. read_digits m acc) (omega arith))
  | inr large ↦ rw large (
      read_digits-digits_from fuel (n / 10) ((48 + n % 10) ∷ acc) (ground arith)
      ∙ (read_digit (n / 10) (n % 10) acc (omega arith)
          ∙ ap (λ m. read_digits m acc) (omega arith)))
]

-- Whether all the bytes are digits.
abbrev pub AllDigits : Text → Type 0
AllDigits = All (λ c. (48 ≤ c) × (c ≤ 57))

digits_from-AllDigits :
    (fuel n : ℕ) (acc : Text) → AllDigits acc → AllDigits (digits_from fuel n acc)
unfolding digits_from
digits_from-AllDigits zero n acc h = h
digits_from-AllDigits (suc fuel) n acc h = elim (Bool-cases (ltb n 10)) [
  | inl small ↦ rw small ((omega arith, omega (arith, ltb→lt n 10 small)), h)
  | inr large ↦
      rw large
        (digits_from-AllDigits fuel (n / 10) ((48 + n % 10) ∷ acc) ((omega arith, omega arith), h))
]

pub print_decimal-AllDigits : (n : ℕ) → AllDigits (print_decimal n)
unfolding print_decimal
print_decimal-AllDigits n = digits_from-AllDigits (suc n) n [] tt

digits_from-filled : (fuel n c : ℕ) (acc : Text) → is_empty (digits_from fuel n (c ∷ acc)) ≡ false
unfolding digits_from
digits_from-filled zero n c acc = refl
digits_from-filled (suc fuel) n c acc = elim (Bool-cases (ltb n 10)) [
  | inl small ↦ rw small refl
  | inr large ↦ rw large (digits_from-filled fuel (n / 10) (48 + n % 10) (c ∷ acc))
]

digits-filled : (n : ℕ) → is_empty (print_decimal n) ≡ false
unfolding print_decimal
digits-filled n = elim (Bool-cases (ltb n 10)) [
  | inl small ↦ unfold digits_from in rw small refl
  | inr large ↦
      (ap is_empty (
          let more : digits_from (suc n) n [] ≡ digits_from n (n / 10) ((48 + n % 10) ∷ []) =
            (unfold digits_from in rw large refl) in
          more)
        ∙ digits_from-filled n (n / 10) (48 + n % 10) [])
]

-- What is printed is read back.
pub parse-print_decimal : (n : ℕ) → n < 2 ^ 63 → parse_decimal (print_decimal n) ≡ some n
unfolding parse_decimal
parse-print_decimal n h = rw (filled, read) (rw (lt→ltb n (2 ^ 63) h) refl)
  where
    read : read_digits 0 (print_decimal n) ≡ some n
    read =
        unfold print_decimal in
        (read_digits-digits_from (suc n) n [] (omega arith) ∙ unfold read_digits in refl)

    filled : is_empty (print_decimal n) ≡ false
    filled = digits-filled n
