-- ===== src/Ratelimit.antt =====
-- internals/ratelimit/limiter.go: a sliding-window limiter per key. An instant is a number of
-- nanoseconds since Go's zero time, and a window reaches back no further than that. A limit of 0
-- stands for every `limit <= 0`.
pub mod Window
pub mod Sweep
use sade_safe_media_delivery.Base.{
  Bool, List, Option, Text, [], drop, false, if◌then◌else◌, is_empty, leb, length, ltb, none, some,
  str_eq, true, ℕ, ◌++◌, ◌-◌, ◌==◌, ◌∷◌,
}

pub record Limiter : Type 0 where
  pub limit : ℕ
  pub window : ℕ
  pub hits : Text → Option (List ℕ)
  pub swept_at : ℕ

-- New
unfoldable pub new : ℕ → ℕ → Limiter
new limit window = record { limit = limit; window = window; hits = λ k. none; swept_at = 0 }

-- keepAfter: what it returns.
unfoldable pub keep_after : List ℕ → ℕ → List ℕ
keep_after [] cutoff = []
keep_after (t ∷ hits) cutoff =
    let rest = keep_after hits cutoff in if ltb cutoff t then t ∷ rest else rest

-- keepAfter: what it leaves in the backing array of its argument. The kept times are written
-- over the front (`out := hits[:0]`), and the slot keeps its length.
unfoldable pub overwritten : List ℕ → ℕ → List ℕ
overwritten hits cutoff = let kept = keep_after hits cutoff in kept ++ drop (length kept) hits

-- A map read: a missing key reads as the empty slice.
abbrev pub slot_times : Option (List ℕ) → List ℕ
slot_times none = []
slot_times (some ts) = ts

unfoldable pub times : (Text → Option (List ℕ)) → Text → List ℕ
times hits key = slot_times (hits key)

unfoldable pub store : (Text → Option (List ℕ)) → Text → List ℕ → Text → Option (List ℕ)
store hits key ts j = if str_eq key j then some ts else hits j

-- The loop of sweep, at one key.
unfoldable pub sweep_key : ℕ → Option (List ℕ) → Option (List ℕ)
sweep_key cutoff none = none
sweep_key cutoff (some ts) =
    if is_empty (keep_after ts cutoff) then none else some (overwritten ts cutoff)

-- sweep, where `now` is the clock that it reads itself.
unfoldable pub sweep : Limiter → ℕ → ℕ → Limiter
sweep l cutoff now =
    if ltb (now - l.swept_at) l.window
    then l
    else record l { swept_at = now; hits = λ k. sweep_key cutoff (l.hits k) }

-- Allow, for a limiter that is not nil: `now` is its own clock, `later` the one that sweep reads.
unfoldable pub allow : Limiter → Text → ℕ → ℕ → Limiter × Bool
allow l key now later =
    let cutoff = now - l.window in
    let kept = keep_after (times l.hits key) cutoff in
    if l.limit == 0
    then (l, true)
    else if leb l.limit (length kept)
    then (record l { hits = store l.hits key kept }, false)
    else (sweep (record l { hits = store l.hits key (kept ++ now ∷ []) }) cutoff later, true)

-- `l == nil` allows everything.
unfoldable pub allow_optional : Option Limiter → Text → ℕ → ℕ → Option Limiter × Bool
allow_optional none key now later = (none, true)
allow_optional (some l) key now later =
    let (l', allowed) = allow l key now later in (some l', allowed)
