-- ===== src/Examples/Signing.antt =====
-- The tokens of internals/token with toy primitives that the laws hold of.
use sade_safe_media_delivery.Base.{
  Text, [], ap, arith, codes, contains_byte, err, false, is_empty, map, ok, refl, some, ℕ, ◌*◌, ◌+◌,
  ◌-◌, ◌<◌, ◌∷◌, ◌≡◌, ◌≤◌,
}
use sade_safe_media_delivery.Token.{
  Primitives, bad_signature, dot, expired_token, nanos, payload_of, sign, signed, verify,
}
use sade_safe_media_delivery.Token.RoundTrip.{IsEncoding, IsGenuine, verify-sign}

abbrev shift : ℕ
shift = 1000

shift_up : Text → Text
shift_up s = map (λ c. c + shift) s

shift_down : Text → Text
shift_down s = map (λ c. c - shift) s

shift_down-shift_up : (s : Text) → shift_down (shift_up s) ≡ s
unfolding shift_down shift_up
shift_down-shift_up [] = refl
shift_down-shift_up (c ∷ s) = ground (arith, shift_down-shift_up s)

shift_up-dotless : (s : Text) → contains_byte dot (shift_up s) ≡ false
unfolding shift_up contains_byte
shift_up-dotless [] = refl
shift_up-dotless (c ∷ s) = ground (arith, shift_up-dotless s)

shift_up-filled : (s : Text) → is_empty s ≡ false → is_empty (shift_up s) ≡ false
unfolding shift_up
shift_up-filled [] h = h
shift_up-filled (c ∷ s) h = refl

abbrev toy : Primitives
toy = record { mac = λ s. 7 ∷ s; encode = shift_up; decode = λ s. some (shift_down s) }

toy-IsEncoding : IsEncoding toy
toy-IsEncoding = record {
  decode-encode = λ s. ap some (shift_down-shift_up s);
  encode_dotless = shift_up-dotless;
  encode_filled = shift_up-filled;
  mac_filled = λ s. refl;
}

abbrev made : Text
made = signed toy (payload_of (codes "preview") (codes "a1") 12)

verify-sign_example :
    (5 ≤ 12 * nanos → verify toy 5 (codes "preview") made ≡ ok (codes "a1"))
    × (12 * nanos < 5 → verify toy 5 (codes "preview") made ≡ err expired_token)
    × (verify toy 5 (codes "original") made ≡ err bad_signature)
    × ((any who : Text)
        → verify toy 5 (codes "preview") any ≡ ok who
        → IsGenuine toy 5 (codes "preview") who any)
unfolding sign signed contains_byte payload_of
verify-sign_example =
    verify-sign toy 5 (12 * nanos) 5 (codes "preview") (codes "original") (codes "a1") made
      toy-IsEncoding (omega arith) (λ e. ground (arith, e)) refl
