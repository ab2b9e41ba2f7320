-- ===== src/Base/Outcomes.antt =====
-- The pair `(value, error)` that a Go function returns, as a sum.
use mathlib.Core.Bool.{Bool, true, false}
use sade_safe_media_delivery.Base.Tests.{if◌then◌else◌}
use mathlib.Core.Path.{◌≡◌, refl}
use mathlib.Core.Logic.{◌⊎◌, inl, inr}

pub data Result {ℓ} (E : Type 0) (A : Type ℓ) : Type ℓ where
  ok : A → Result E A
  err : E → Result E A

infixl 5 ◌>>=◌
abbrev pub ◌>>=◌ {ℓ κ} :
    {E : Type 0} {A : Type ℓ} {B : Type κ} → Result E A → (A → Result E B) → Result E B
ok a >>= f = f a
err e >>= f = err e

pub Result-cases {ℓ} :
    {E : Type 0} {A : Type ℓ} (r : Result E A) → ((a : A) × (r ≡ ok a)) ⊎ ((e : E) × (r ≡ err e))
Result-cases (ok a) = inl (a, refl)
Result-cases (err e) = inr (e, refl)

-- A step on a state that may fail: what follows a failure is left out, and the state is kept.
infixl 5 ◌>>>◌
abbrev pub ◌>>>◌ {ℓ κ σ} :
    {E : Type 0} {A : Type ℓ} {B : Type κ} {S : Type σ}
    → Result E A × S
    → (A → S → Result E B × S)
    → Result E B × S
(ok a, s) >>> f = f a s
(err e, s) >>> f = (err e, s)

-- The outcome of an operation on a part of the state.
abbrev pub lift_part {ℓ σ τ} :
    {E F : Type 0} {A : Type ℓ} {S : Type σ} {T : Type τ}
    → (E → F)
    → (T → S)
    → Result E A × T
    → Result F A × S
lift_part wrap put (ok a, t) = (ok a, put t)
lift_part wrap put (err e, t) = (err (wrap e), put t)

abbrev pub map_error {ℓ} : {E F : Type 0} {A : Type ℓ} → (E → F) → Result E A → Result F A
map_error wrap (ok a) = ok a
map_error wrap (err e) = err (wrap e)

-- Inversion of a chain that succeeds.
pub >>=-eq_ok {ℓ κ} :
    {E : Type 0} {A : Type ℓ} {B : Type κ} (m : Result E A) (f : A → Result E B) {b : B}
    → (m >>= f) ≡ ok b
    → (a : A) × (m ≡ ok a) × (f a ≡ ok b)
>>=-eq_ok (ok a) f h = (a, refl, h)
>>=-eq_ok (err e) f h = cc

pub >>>-eq_ok {ℓ κ σ} :
    {E : Type 0} {A : Type ℓ} {B : Type κ} {S : Type σ} (m : Result E A × S)
    (f : A → S → Result E B × S) {b : B}
    → (m >>> f).0 ≡ ok b
    → (a : A) × (m.0 ≡ ok a) × ((f a m.1).0 ≡ ok b)
>>>-eq_ok (ok a, s) f h = (a, refl, h)
>>>-eq_ok (err e, s) f h = cc

pub lift_part-eq_ok {ℓ σ τ} :
    {E F : Type 0} {A : Type ℓ} {S : Type σ} {T : Type τ} (wrap : E → F) (put : T → S)
    (r : Result E A × T) {a : A}
    → (lift_part wrap put r).0 ≡ ok a
    → r.0 ≡ ok a
lift_part-eq_ok wrap put (ok b, t) h = cc
lift_part-eq_ok wrap put (err e, t) h = cc

pub lift_part-state {ℓ σ τ} :
    {E F : Type 0} {A : Type ℓ} {S : Type σ} {T : Type τ} (wrap : E → F) (put : T → S)
    (r : Result E A × T)
    → (lift_part wrap put r).1 ≡ put r.1
lift_part-state wrap put (ok b, t) = refl
lift_part-state wrap put (err e, t) = refl

pub map_error-eq_ok {ℓ} :
    {E F : Type 0} {A : Type ℓ} (wrap : E → F) (r : Result E A) {a : A}
    → map_error wrap r ≡ ok a
    → r ≡ ok a
map_error-eq_ok wrap (ok b) h = cc
map_error-eq_ok wrap (err e) h = cc

-- What only answers keeps the state.
pub >>>-answer {ℓ κ σ} :
    {E : Type 0} {A : Type ℓ} {B : Type κ} {S : Type σ} (m : Result E A × S) (f : A → B)
    → (m >>> λ a s. (ok (f a), s)).1 ≡ m.1
>>>-answer (ok a, s) f = refl
>>>-answer (err e, s) f = refl

-- What holds of the state, and what each step keeps, holds after the chain.
pub >>>-state {ℓ κ σ ρ} :
    {E : Type 0} {A : Type ℓ} {B : Type κ} {S : Type σ} (P : S → Type ρ) (m : Result E A × S)
    (f : A → S → Result E B × S)
    → P m.1
    → ((a : A) (s : S) → P s → P (f a s).1)
    → P (m >>> f).1
>>>-state P (ok a, s) f p keep = keep a s p
>>>-state P (err e, s) f p keep = p

-- What both branches have, whichever is taken.
pub if_either {ℓ κ} :
    {A : Type ℓ} (P : A → Type κ) (b : Bool) {x y : A} → P x → P y → P (if b then x else y)
if_either P true p q = p
if_either P false p q = q

-- Inversion of a chain that fails: its first step does, or what follows it.
pub >>>-eq_err {ℓ κ σ} :
    {E : Type 0} {A : Type ℓ} {B : Type κ} {S : Type σ} (m : Result E A × S)
    (f : A → S → Result E B × S) {e : E}
    → (m >>> f).0 ≡ err e
    → ((m.0 ≡ err e) × ((m >>> f).1 ≡ m.1))
      ⊎ ((a : A) × (m.0 ≡ ok a) × ((f a m.1).0 ≡ err e) × ((m >>> f).1 ≡ (f a m.1).1))
>>>-eq_err (ok a, s) f h = inr (a, refl, h, refl)
>>>-eq_err (err e, s) f h = inl (cc, refl)

pub lift_part-eq_err {ℓ σ τ} :
    {E F : Type 0} {A : Type ℓ} {S : Type σ} {T : Type τ} (wrap : E → F) (put : T → S)
    (r : Result E A × T) {x : F}
    → (lift_part wrap put r).0 ≡ err x
    → (e : E) × (r.0 ≡ err e)
lift_part-eq_err wrap put (ok a, t) h = cc
lift_part-eq_err wrap put (err e, t) h = (e, refl)

-- The end of a chain that succeeds.
pub >>>-ok_state {ℓ κ σ} :
    {E : Type 0} {A : Type ℓ} {B : Type κ} {S : Type σ} (m : Result E A × S)
    (f : A → S → Result E B × S) {a : A}
    → m.0 ≡ ok a
    → (m >>> f) ≡ f a m.1
>>>-ok_state (ok b, s) f h = cc
>>>-ok_state (err e, s) f h = cc
