-- ===== src/Auth/Device.antt =====
-- internals/app/auth/devices.go: DescribeUserAgent.
use sade_safe_media_delivery.Base.{
  Bool, List, Option, Text, [], codes, false, if◌then◌else◌, is_empty, none, some, str_eq, ◌++◌,
  ◌||◌, ◌∷◌,
}
use sade_safe_media_delivery.GoText.{has_substring}

-- Whether one of the marks stands in the header.
unfoldable pub any_mark : Text → List Text → Bool
unfolding has_substring
any_mark ua [] = false
any_mark ua (mark ∷ marks) = has_substring ua mark || any_mark ua marks

-- A switch: the first name one of whose marks stands in the header.
unfoldable pub first_named : Text → List (List Text × Text) → Option Text
unfolding any_mark
first_named ua [] = none
first_named ua ((marks, name) ∷ rest) = if any_mark ua marks then some name else first_named ua rest

-- The switch on the browser.
abbrev pub browsers : List (List Text × Text)
browsers =
    (codes "Edg/" ∷ [], codes "Edge")
    ∷ (codes "OPR/" ∷ codes "Opera" ∷ [], codes "Opera")
    ∷ (codes "SamsungBrowser/" ∷ [], codes "Samsung Internet")
    ∷ (codes "Firefox/" ∷ codes "FxiOS/" ∷ [], codes "Firefox")
    ∷ (codes "Chrome/" ∷ codes "CriOS/" ∷ [], codes "Chrome")
    ∷ (codes "Safari/" ∷ [], codes "Safari")
    ∷ (codes "curl/" ∷ [], codes "curl")
    ∷ []

-- The switch on the system.
abbrev pub systems : List (List Text × Text)
systems =
    (codes "iPhone" ∷ [], codes "iPhone")
    ∷ (codes "iPad" ∷ [], codes "iPad")
    ∷ (codes "Android" ∷ [], codes "Android")
    ∷ (codes "Windows" ∷ [], codes "Windows")
    ∷ (codes "Mac OS X" ∷ codes "Macintosh" ∷ [], codes "macOS")
    ∷ (codes "CrOS" ∷ [], codes "ChromeOS")
    ∷ (codes "Linux" ∷ [], codes "Linux")
    ∷ []

-- The browser and its system.
unfoldable pub on_system : Text → Text → Text
unfolding first_named
on_system ua browser = elim (first_named ua systems) [
  | none ↦ browser
  | some os ↦ browser ++ codes " on " ++ os
]

-- DescribeUserAgent. curl is named alone.
unfoldable pub describe_user_agent : Text → Text
unfolding first_named on_system str_eq
describe_user_agent ua =
    if is_empty ua then codes "Unknown device" else elim (first_named ua browsers) [
      | none ↦ on_system ua (codes "Browser")
      | some browser ↦ if str_eq browser (codes "curl") then browser else on_system ua browser
    ]
