-- ===== src/GoText/Laws.antt =====
-- Laws of the string functions.
use sade_safe_media_delivery.Base.{
  Text, [], arith, contains_byte, false, refl, some, ℕ, ◌++◌, ◌∷◌, ◌≡◌,
}
use sade_safe_media_delivery.GoText.{cut, split}

-- Of a text with no separator in front of one, both halves are found.
pub cut-append :
    (sep : ℕ) (a b : Text) → contains_byte sep a ≡ false → cut sep (a ++ sep ∷ b) ≡ some (a, b)
unfolding cut contains_byte
cut-append sep [] b h = ground arith
cut-append sep (c ∷ a) b h = ground (arith, cut-append sep a b)

pub split_whole : (sep : ℕ) (a : Text) → contains_byte sep a ≡ false → split sep a ≡ a ∷ []
unfolding split contains_byte
split_whole sep [] h = refl
split_whole sep (c ∷ a) h = ground (arith, split_whole sep a)

pub split-append :
    (sep : ℕ) (a b : Text)
    → contains_byte sep a ≡ false
    → split sep (a ++ sep ∷ b) ≡ a ∷ split sep b
unfolding split contains_byte
split-append sep [] b h = ground arith
split-append sep (c ∷ a) b h = ground (arith, split-append sep a b)
