-- ===== src/Token/RoundTrip.antt =====
-- What Sign makes, Verify accepts, for the purpose and until the expiry alone
-- (internals/token/main.go).
use sade_safe_media_delivery.Base.{
  Bool-cases, List, Option-cases, Text, [], ap, arith, contains_byte, eq_of_str_eq, err, false, inl,
  inr, is_empty, ltb, ok, refl, some, str_eq, str_eq_refl, sym, ℕ, ◌*◌, ◌++◌, ◌+◌, ◌/◌, ◌<◌, ◌^◌,
  ◌||◌, ◌∙◌, ◌∷◌, ◌≡◌, ◌≢◌, ◌≤◌,
}
use sade_safe_media_delivery.GoText.{cut, split}
use sade_safe_media_delivery.GoText.Laws.{cut-append, split-append, split_whole}
use sade_safe_media_delivery.Token.{
  Primitives, bad_signature, check_fields, check_halves, dot, expired_token, nanos, payload_of,
  sign, signed, verify,
}
use sade_safe_media_delivery.Token.Decimal.{
  AllDigits, parse-print_decimal, parse_decimal, print_decimal, print_decimal-AllDigits,
}

-- The documented behaviour of the two encodings that the tokens rely on.
pub record IsEncoding (prims : Primitives) : Type 0 where
  pub decode-encode : (s : Text) → prims.decode (prims.encode s) ≡ some s
  pub encode_dotless : (s : Text) → contains_byte dot (prims.encode s) ≡ false
  pub encode_filled : (s : Text) → is_empty s ≡ false → is_empty (prims.encode s) ≡ false
  pub mac_filled : (s : Text) → is_empty (prims.mac s) ≡ false

digits_dotless : (s : Text) → AllDigits s → contains_byte dot s ≡ false
unfolding contains_byte
digits_dotless [] h = refl
digits_dotless (c ∷ s) h = ground (arith, digits_dotless s)

fields_of :
    (purpose subject : Text) (exp : ℕ)
    → contains_byte dot purpose ≡ false
    → contains_byte dot subject ≡ false
    → split dot (payload_of purpose subject exp) ≡ purpose ∷ subject ∷ print_decimal exp ∷ []
unfolding payload_of
fields_of purpose subject exp p s =
    split-append dot purpose (subject ++ dot ∷ print_decimal exp) p
    ∙ ap (λ (l : List Text). purpose ∷ l)
        (split-append dot subject (print_decimal exp) s
          ∙ ap (λ (l : List Text). subject ∷ l)
              (split_whole dot (print_decimal exp)
                (digits_dotless (print_decimal exp) (print_decimal-AllDigits exp))))

payload_filled :
    (purpose subject : Text) (exp : ℕ) → is_empty (payload_of purpose subject exp) ≡ false
unfolding payload_of
payload_filled [] subject exp = refl
payload_filled (c ∷ purpose) subject exp = refl

-- Verify of a signed payload is the check of its fields.
verify-signed :
    (prims : Primitives) (now : ℕ) (purpose payload : Text)
    → IsEncoding prims
    → is_empty payload ≡ false
    → verify prims now purpose (signed prims payload)
      ≡ check_fields prims now purpose (split dot payload)
unfolding verify signed check_halves
verify-signed prims now purpose payload laws filled =
    rw
      (
        verify,
        signed,
        cut-append dot (prims.encode payload) (prims.encode (prims.mac (prims.encode payload)))
            (laws.encode_dotless payload),
        check_halves,
      )
      (rw
        (
          laws.encode_filled payload filled,
          laws.encode_filled (prims.mac (prims.encode payload))
              (laws.mac_filled (prims.encode payload)),
          laws.decode-encode (prims.mac (prims.encode payload)),
        )
        (rw (str_eq_refl (prims.mac (prims.encode payload)), laws.decode-encode payload) refl))

sign-payload :
    (prims : Primitives) (now ttl : ℕ) (purpose subject tok : Text)
    → sign prims now purpose subject ttl ≡ ok tok
    → (contains_byte dot purpose ≡ false)
      × (contains_byte dot subject ≡ false)
      × (tok ≡ signed prims (payload_of purpose subject ((now + ttl) / nanos)))
unfolding sign
sign-payload prims now ttl purpose subject tok h = ground arith

check_fields_ok :
    (prims : Primitives) (later exp : ℕ) (purpose subject : Text)
    → exp < 2 ^ 63
    → later ≤ exp * nanos
    → check_fields prims later purpose (purpose ∷ subject ∷ print_decimal exp ∷ []) ≡ ok subject
unfolding check_fields
check_fields_ok prims later exp purpose subject fits early =
    rw (str_eq_refl purpose, parse-print_decimal exp fits) (ground arith)

check_fields_expired :
    (prims : Primitives) (later exp : ℕ) (purpose subject : Text)
    → exp < 2 ^ 63
    → exp * nanos < later
    → check_fields prims later purpose (purpose ∷ subject ∷ print_decimal exp ∷ [])
      ≡ err expired_token
unfolding check_fields
check_fields_expired prims later exp purpose subject fits late =
    rw (str_eq_refl purpose, parse-print_decimal exp fits) (ground arith)

check_fields_purpose :
    (prims : Primitives) (later exp : ℕ) (purpose other subject : Text)
    → other ≢ purpose
    → check_fields prims later other (purpose ∷ subject ∷ print_decimal exp ∷ [])
      ≡ err bad_signature
unfolding check_fields
check_fields_purpose prims later exp purpose other subject differ =
    elim (Bool-cases (str_eq purpose other)) [
      | inl same ↦ absurd (differ (sym (eq_of_str_eq purpose other same)))
      | inr e ↦ rw e refl
    ]

-- Verify of what Sign made is the check of the three fields.
verify_fields :
    (prims : Primitives) (now ttl later : ℕ) (purpose asked subject tok : Text)
    → IsEncoding prims
    → sign prims now purpose subject ttl ≡ ok tok
    → verify prims later asked tok
      ≡ check_fields prims later asked
          (purpose ∷ subject ∷ print_decimal ((now + ttl) / nanos) ∷ [])
verify_fields prims now ttl later purpose asked subject tok laws made =
    let facts = sign-payload prims now ttl purpose subject tok made in
    let exp = (now + ttl) / nanos in
    let payload = payload_of purpose subject exp in
    ap (verify prims later asked) facts.2
    ∙ verify-signed prims later asked payload laws (payload_filled purpose subject exp)
    ∙ ap (check_fields prims later asked) (fields_of purpose subject exp facts.0 facts.1)

-- What a token has to be for Verify to give `subject`: two halves, of which the second decodes to the MAC of
-- the first, and the first to the purpose, the subject and a number of seconds that are not past.
pub record IsGenuine (prims : Primitives) (now : ℕ) (purpose subject tok : Text) : Type 0 where
  pub body : Text
  pub sig : Text
  pub is_halves : cut dot tok ≡ some (body, sig)
  pub is_mac : prims.decode sig ≡ some (prims.mac body)
  pub raw : Text
  pub is_raw : prims.decode body ≡ some raw
  pub exp_str : Text
  pub is_fields : split dot raw ≡ purpose ∷ subject ∷ exp_str ∷ []
  pub exp : ℕ
  pub is_exp : parse_decimal exp_str ≡ some exp
  pub is_live : now ≤ exp * nanos

check_fields-ok :
    (prims : Primitives) (now : ℕ) (purpose subject : Text) (fields : List Text)
    → check_fields prims now purpose fields ≡ ok subject
    → (exp_str : Text) × (exp : ℕ) × (fields ≡ purpose ∷ subject ∷ exp_str ∷ [])
      × (parse_decimal exp_str ≡ some exp)
      × (now ≤ exp * nanos)
unfolding check_fields
check_fields-ok prims now purpose subject [] h = cc
check_fields-ok prims now purpose subject (p ∷ []) h = cc
check_fields-ok prims now purpose subject (p ∷ s ∷ []) h = cc
check_fields-ok prims now purpose subject (p ∷ s ∷ e ∷ x ∷ more) h = cc
check_fields-ok prims now purpose subject (p ∷ s ∷ exp_str ∷ []) h =
    elim (Bool-cases (str_eq p purpose)) [
      | inr other ↦ absurd (ground (arith, other, h))
      | inl asked ↦ elim (Option-cases (parse_decimal exp_str)) [
        | inl unread ↦ absurd (ground (arith, asked, unread, h))
        | inr (exp, read) ↦ elim (Bool-cases (ltb (exp * nanos) now)) [
          | inl late ↦ absurd (ground (arith, asked, read, late, h))
          | inr early ↦
              let same_purpose = eq_of_str_eq p purpose asked in
              let same_subject : s ≡ subject = ground (arith, asked, read, early, h) in
              (exp_str, exp, cc, read, ground (arith, early))
        ]
      ]
    ]

check_halves-ok :
    (prims : Primitives) (now : ℕ) (purpose subject tok body sig : Text)
    → cut dot tok ≡ some (body, sig)
    → check_halves prims now purpose (body, sig) ≡ ok subject
    → IsGenuine prims now purpose subject tok
unfolding check_halves
check_halves-ok prims now purpose subject tok body sig halves h =
    elim (Bool-cases (is_empty body || is_empty sig)) [
      | inl blank ↦ absurd (ground (arith, blank, h))
      | inr filled ↦ elim (Option-cases (prims.decode sig)) [
        | inl unread ↦ absurd (ground (arith, filled, unread, h))
        | inr (want, read) ↦ elim (Bool-cases (str_eq want (prims.mac body))) [
          | inr forged ↦ absurd (ground (arith, filled, read, forged, h))
          | inl genuine ↦ elim (Option-cases (prims.decode body)) [
            | inl blurred ↦ absurd (ground (arith, filled, read, genuine, blurred, h))
            | inr (raw, clear) ↦
                let checked : check_fields prims now purpose (split dot raw) ≡ ok subject =
                  ground (arith, filled, read, genuine, clear, h) in
                let found = check_fields-ok prims now purpose subject (split dot raw) checked in
                record {
                  body = body;
                  sig = sig;
                  is_halves = halves;
                  is_mac = read ∙ ap some (eq_of_str_eq want (prims.mac body) genuine);
                  raw = raw;
                  is_raw = clear;
                  exp_str = found.0;
                  is_fields = found.2;
                  exp = found.1;
                  is_exp = found.3;
                  is_live = found.4;
                }
          ]
        ]
      ]
    ]

verify-IsGenuine :
    (prims : Primitives) (now : ℕ) (purpose subject tok : Text)
    → verify prims now purpose tok ≡ ok subject
    → IsGenuine prims now purpose subject tok
unfolding verify
verify-IsGenuine prims now purpose subject tok h = elim (Option-cases (cut dot tok)) [
  | inl whole ↦ absurd (ground (arith, whole, h))
  | inr ((body, sig), halves) ↦
      check_halves-ok prims now purpose subject tok body sig halves (ground (arith, halves, h))
]

-- Let Sign make a token, and let its expiry fit 63 bits of seconds. Up to the start of the
-- second in which it expires, Verify for the same purpose gives back the subject; after that
-- instant, it refuses the token as expired; and for any other purpose, it refuses the token at
-- every instant. The encoding is one whose decoder undoes it and that prints no dot. And whoever made
-- it, a token for which Verify gives a subject is genuine: it carries the MAC of its body under the
-- secret, and its body names that purpose, that subject and an expiry that is not past.
pub verify-sign :
    (prims : Primitives) (now ttl later : ℕ) (purpose other subject tok : Text)
    → IsEncoding prims
    → (now + ttl) / nanos < 2 ^ 63
    → other ≢ purpose
    → sign prims now purpose subject ttl ≡ ok tok
    → (later ≤ (now + ttl) / nanos * nanos → verify prims later purpose tok ≡ ok subject)
      × ((now + ttl) / nanos * nanos < later → verify prims later purpose tok ≡ err expired_token)
      × (verify prims later other tok ≡ err bad_signature)
      × ((any who : Text)
          → verify prims later purpose any ≡ ok who
          → IsGenuine prims later purpose who any)
verify-sign prims now ttl later purpose other subject tok laws fits differ made =
    let exp = (now + ttl) / nanos in
    let same = verify_fields prims now ttl later purpose purpose subject tok laws made in
    (
      (λ early. same ∙ check_fields_ok prims later exp purpose subject fits early),
      (λ late. same ∙ check_fields_expired prims later exp purpose subject fits late),
      verify_fields prims now ttl later purpose other subject tok laws made
          ∙ check_fields_purpose prims later exp purpose other subject differ,
      λ any who accepted. verify-IsGenuine prims later purpose who any accepted,
    )
