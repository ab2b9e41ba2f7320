-- ===== src/Auth/Policy.antt =====
-- internals/app/auth/service.go: the sign-up policy, addresses and codes.
use sade_safe_media_delivery.Auth.State.{AuthService}
use sade_safe_media_delivery.Base.{
  Bool, List, Option, Text, [], codes, false, if◌then◌else◌, is_empty, leb, length, none, not, some,
  str_eq, true, ℕ, ◌&&◌, ◌++◌, ◌==◌, ◌||◌, ◌∷◌,
}
use sade_safe_media_delivery.GoText.{to_lower, trim_space}
use sade_safe_media_delivery.MagicToken.{MagicToken}

-- strings.LastIndexByte and the rest behind it, or none.
unfoldable pub after_last : ℕ → Text → Option Text
after_last sep [] = none
after_last sep (c ∷ s) =
    let rest = after_last sep s in
    elim rest [ some found ↦ some found | none ↦ if c == sep then some s else none ]

-- domainOf
unfoldable pub domain_of : Text → Text
unfolding after_last to_lower
domain_of email = elim (after_last b'@' email) [ none ↦ [] | some domain ↦ to_lower domain ]

-- normalizeAddr
unfoldable pub normal_addr : AuthService → Text → Text
unfolding trim_space to_lower
normal_addr s email = elim (s.parse (trim_space email)) [
  | some address ↦ to_lower address
  | none ↦ to_lower (trim_space email)
]

-- strings.EqualFold
unfoldable pub equal_fold : Text → Text → Bool
unfolding to_lower str_eq
equal_fold a b = str_eq (to_lower a) (to_lower b)

-- signupAllowed, the loop over the addresses.
unfoldable pub lists_email : List Text → Text → Bool
unfolding equal_fold trim_space
lists_email [] email = false
lists_email (e ∷ es) email = equal_fold (trim_space e) email || lists_email es email

-- strings.TrimPrefix of an `@`.
unfoldable pub trim_at : Text → Text
trim_at [] = []
trim_at (c ∷ s) = if c == b'@' then s else c ∷ s

-- signupAllowed, the loop over the domains.
unfoldable pub lists_domain : List Text → Text → Bool
unfolding equal_fold trim_at trim_space
lists_domain [] domain = false
lists_domain (d ∷ ds) domain =
    (not (is_empty domain) && equal_fold (trim_at (trim_space d)) domain) || lists_domain ds domain

-- signupAllowed
unfoldable pub signup_allowed : AuthService → Text → Bool
unfolding lists_email lists_domain domain_of str_eq
signup_allowed s email =
    if is_empty s.signup_mode || str_eq s.signup_mode (codes "open")
    then true
    else if str_eq s.signup_mode (codes "allowlist")
    then lists_email s.allowed_emails email || lists_domain s.allowed_domains (domain_of email)
    else false

-- isSixDigits, its loop.
unfoldable pub all_digits : Text → Bool
all_digits [] = true
all_digits (c ∷ s) = (leb b'0' c && leb c b'9') && all_digits s

-- isSixDigits
unfoldable pub is_six_digits : Text → Bool
unfolding all_digits
is_six_digits s = length s == 6 && all_digits s

-- codeMAC
unfoldable pub code_mac : AuthService → Text → Text → Text
code_mac s token_hash code = s.mac (codes "signin-code:" ++ token_hash ++ codes ":" ++ code)

-- The match of CompleteWithCode.
unfoldable pub matches : AuthService → Text → MagicToken → Bool
unfolding code_mac str_eq
matches s code t = str_eq (code_mac s t.token_hash code) t.code_hash
