-- ===== src/Share/Filename.antt =====
-- The file name of a Content-Disposition header (internals/app/share/handler.go).
use sade_safe_media_delivery.Base.{All, Text, count_where, false, is_empty, ℕ, ◌≡◌, ◌≢◌, ◌≤◌}
use sade_safe_media_delivery.Share.Serve.{is_unsafe}

-- A rune that can stand between the quotes of the header: from the space up, and no quote, backslash or slash.
pub record IsSafe (c : ℕ) : Type 0 where
  pub printed : 32 ≤ c
  pub no_quote : c ≢ 34
  pub no_backslash : c ≢ 92
  pub no_slash : c ≢ 47

-- A name that is fit for the header.
abbrev IsFit : Text → Type 0
IsFit s = All IsSafe s × (is_empty s ≡ false) × (count_where is_unsafe s ≡ 0)
