-- ===== src/Token.antt =====
-- internals/token/main.go: stateless signed tokens. HMAC-SHA256 and unpadded URL-safe base64 are
-- parameters. An instant is a number of nanoseconds since the Unix epoch.
pub mod Decimal
pub mod RoundTrip
use Decimal.{print_decimal, parse_decimal}
use sade_safe_media_delivery.Base.{
  List, Option, Result, Text, [], contains_byte, err, if◌then◌else◌, is_empty, ltb, none, not, ok,
  some, str_eq, ℕ, ◌*◌, ◌++◌, ◌+◌, ◌/◌, ◌||◌, ◌∷◌,
}
use sade_safe_media_delivery.GoText.{cut, split, trim_space}

-- ErrMalformed, ErrBadSignature, ErrExpired, and what Sign refuses.
pub data SignerError : Type 0 where
  malformed bad_signature expired_token refused_field : SignerError

-- What the other packages use of a Signer: `verify now purpose tok`, `sign now purpose subject ttl`.
pub record Signer : Type 0 where
  pub verify : ℕ → Text → Text → Result SignerError Text
  pub sign : ℕ → Text → Text → ℕ → Result SignerError Text

-- crypto/hmac with the secret, and encoding/base64's RawURLEncoding.
pub record Primitives : Type 0 where
  pub mac : Text → Text
  pub encode : Text → Text
  pub decode : Text → Option Text

abbrev pub nanos : ℕ
nanos = 1_000_000_000

abbrev pub dot : ℕ
dot = b'.'

-- The payload `purpose.subject.exp`.
unfoldable pub payload_of : Text → Text → ℕ → Text
unfolding print_decimal
payload_of purpose subject exp = purpose ++ dot ∷ (subject ++ dot ∷ print_decimal exp)

module _ (prims : Primitives) where
  open prims use {mac, encode, decode}

  -- What Sign puts together: the body, a dot and its MAC.
  unfoldable pub signed : Text → Text
  signed payload = encode payload ++ dot ∷ encode (mac (encode payload))

  -- Sign
  unfoldable pub sign : ℕ → Text → Text → ℕ → Result SignerError Text
  unfolding signed payload_of contains_byte
  sign now purpose subject ttl =
      if is_empty purpose || is_empty subject
      then err refused_field
      else if contains_byte dot purpose || contains_byte dot subject
      then err refused_field
      else ok (signed (payload_of purpose subject ((now + ttl) / nanos)))

  -- The checks of Verify on the three fields.
  unfoldable pub check_fields : ℕ → Text → List Text → Result SignerError Text
  unfolding parse_decimal str_eq
  check_fields now purpose (got_purpose ∷ got_subject ∷ exp_str ∷ []) =
      if not (str_eq got_purpose purpose) then err bad_signature else elim (parse_decimal exp_str) [
        | none ↦ err malformed
        | some exp ↦ if ltb (exp * nanos) now then err expired_token else ok got_subject
      ]
  check_fields now purpose _ = err malformed

  -- Verify, from the two halves of the token on.
  unfoldable pub check_halves : ℕ → Text → Text × Text → Result SignerError Text
  unfolding check_fields split str_eq
  check_halves now purpose (body, sig) =
      if is_empty body || is_empty sig then err malformed else elim (decode sig) [
        | none ↦ err malformed
        | some want ↦
            if not (str_eq want (mac body)) then err bad_signature else elim (decode body) [
              | none ↦ err malformed
              | some raw ↦ check_fields now purpose (split dot raw)
            ]
      ]

  -- Verify
  unfoldable pub verify : ℕ → Text → Text → Result SignerError Text
  unfolding check_halves cut
  verify now purpose tok = elim (cut dot tok) [
    | none ↦ err malformed
    | some halves ↦ check_halves now purpose halves
  ]

  -- New. `prims` are those of the secret.
  unfoldable pub new_signer : Text → Option Signer
  unfolding trim_space
  new_signer secret =
      if is_empty (trim_space secret) then none else some (record { verify = verify; sign = sign })
