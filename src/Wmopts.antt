-- ===== src/Wmopts.antt =====
-- internals/wmopts/wmopts.go: the brand snapshot of a job, and the text of the watermark. The JSON is a
-- parameter; a date comes as text, and a length is a number of code points.
pub mod Fit
use sade_safe_media_delivery.Base.{
  Option, Text, [], codes, if◌then◌else◌, is_empty, leb, length, ltb, none, not, some, suc, take,
  zero, ℕ, ◌++◌, ◌-◌, ◌==◌, ◌||◌,
}
use sade_safe_media_delivery.GoText.{has_prefix, has_substring, replace_all, trim_space}

-- Opts, without its version, which Encode writes and nothing reads.
pub record Opts : Type 0 where
  pub company : Text
  pub logo_key : Text
  pub position : Text
  pub opacity_pct : ℕ
  pub logo_scale_pct : ℕ
  pub text_template : Text

-- The server defaults: every field is zero.
abbrev pub no_opts : Opts
no_opts = record {
  company = [];
  logo_key = [];
  position = [];
  opacity_pct = 0;
  logo_scale_pct = 0;
  text_template = [];
}

-- Decode, with json.Unmarshal.
unfoldable pub decode_opts : (Text → Option Opts) → Text → Opts
unfolding trim_space has_prefix has_substring
decode_opts unmarshal s = if is_empty (trim_space s) then no_opts else elim (unmarshal s) [
  | none ↦ no_opts
  | some o ↦
      if not (has_prefix o.logo_key (codes "brands/")) || has_substring o.logo_key (codes "..")
      then record o { logo_key = [] }
      else o
]

-- DefaultTemplate
abbrev pub default_template : Text
default_template = codes "{recipient} · {date}"

-- Ellipsis
abbrev pub ellipsis : Text
ellipsis = codes "..."

-- minCompanyRunes
abbrev pub min_company_runes : ℕ
min_company_runes = 3

-- dropPlaceholder
unfoldable pub drop_placeholder : Text → Text → Text
unfolding replace_all
drop_placeholder t ph =
    let a = replace_all t (ph ++ codes " · ") [] in
    let b = replace_all a (codes " · " ++ ph) [] in
    let c = replace_all b (ph ++ codes " - ") [] in
    let d = replace_all c (codes " - " ++ ph) [] in replace_all d ph []

-- render, the template with the separators of what is empty removed.
unfoldable pub shown : Text → Text → Text → Text
unfolding trim_space drop_placeholder
shown template company date =
    let t = if is_empty (trim_space template) then default_template else trim_space template in
    let u = if is_empty company then drop_placeholder t (codes "{company}") else t in
    if is_empty date then drop_placeholder u (codes "{date}") else u

-- render
unfoldable pub render : Text → Text → Text → Text → Text
unfolding shown replace_all trim_space
render template company recipient date =
    let t = replace_all (shown template company date) (codes "{company}") company in
    let u = replace_all t (codes "{recipient}") recipient in
    trim_space (replace_all u (codes "{date}") date)

-- RenderText
unfoldable pub render_text : Text → Text → Text → Text → Text
unfolding render trim_space
render_text template company recipient date = render template (trim_space company) recipient date

-- RenderTextFit, the text with a shortened company.
unfoldable pub with_short : Text → Text → Text → Text → ℕ → Text
unfolding render trim_space
with_short template company recipient date n =
    render template (trim_space (take n company) ++ ellipsis) recipient date

-- RenderTextFit, the loop: the longest company of at most that many letters whose text fits.
unfoldable pub shorten : Text → Text → Text → Text → ℕ → ℕ → Option Text
unfolding with_short
shorten template company recipient date budget zero = none
shorten template company recipient date budget (suc n) =
    let rest = shorten template company recipient date budget n in
    let t = with_short template company recipient date (suc n) in
    if ltb (suc n) min_company_runes then none else if leb (length t) budget then some t else rest

-- RenderTextFit, its end.
unfoldable pub drop_date : Text → Text → Text → Text → Text
unfolding render
drop_date template company recipient full =
    let t = render template company recipient [] in if ltb (length t) (length full) then t else full

-- RenderTextFit, for a text that is too long.
unfoldable pub give_up : Text → Text → Text → Text → ℕ → Text → Text
unfolding render shorten drop_date
give_up template company recipient date budget full =
    let without = render template [] recipient date in
    if is_empty company || not (ltb (length without) (length full))
    then drop_date template company recipient full
    else elim (shorten template company recipient date budget (length company - 1)) [
      | some t ↦ t
      | none ↦
          if leb (length without) budget then without else drop_date template [] recipient without
    ]

-- RenderTextFit
unfoldable pub render_text_fit : Text → Text → Text → Text → ℕ → Text
unfolding render give_up trim_space
render_text_fit template company recipient date budget =
    let full = render template (trim_space company) recipient date in
    if budget == 0 || leb (length full) budget
    then full
    else give_up template (trim_space company) recipient date budget full
