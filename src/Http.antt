-- ===== src/Http.antt =====
-- internals/httpx/httpx.go: the replies that Error and WriteJSON write, and the page of a list.
use sade_safe_media_delivery.Base.{String, Text, codes, if◌then◌else◌, inl, inr, ltb, ℕ, ◌⊎◌}
use sade_safe_media_delivery.Payment.Status.{status}

-- A status with an error's message, or with a body.
abbrev pub HttpReply : Type 0 → Type 0
HttpReply B = ℕ × (Text ⊎ B)

abbrev pub refused {ℓ} : {B : Type 0} {S : Type ℓ} → ℕ → String → S → HttpReply B × S
refused status message s = ((status, inl (codes message)), s)

abbrev pub replied {ℓ} : {B : Type 0} {S : Type ℓ} → ℕ → B → S → HttpReply B × S
replied status body s = ((status, inr body), s)

-- A query parameter as strconv.Atoi reads it.
pub data QueryNumber : Type 0 where
  no_number below_zero : QueryNumber
  number : ℕ → QueryNumber

-- Page, its limit.
unfoldable pub page_limit : ℕ → ℕ → QueryNumber → ℕ
page_limit default_limit max_limit q =
    let asked : ℕ = elim q [ no_number ↦ default_limit | below_zero ↦ 0 | number n ↦ n ] in
    let raised = if ltb asked 1 then 1 else asked in
    if ltb max_limit raised then max_limit else raised

-- Page, its offset.
unfoldable pub page_offset : QueryNumber → ℕ
page_offset no_number = 0
page_offset below_zero = 0
page_offset (number n) = n
