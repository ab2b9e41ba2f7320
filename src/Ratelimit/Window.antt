-- ===== src/Ratelimit/Window.antt =====
-- The promise of the limiter (internals/ratelimit/limiter.go): no window holds more granted calls
-- than the limit, whatever keys are called in between.
use mathlib.Core.Path.{subst₂}
use sade_safe_media_delivery.Base.{
  Bool, Bool-cases, List, Option, Text, [], ap, arith, drop, eq_of_str_eq, false, if◌then◌else◌,
  inl, inr, is_empty, leb, length, length-append, ltb, none, refl, some, str_eq, suc, true, ℕ, ◌++◌,
  ◌+◌, ◌-◌, ◌<◌, ◌==◌, ◌∙◌, ◌∷◌, ◌≡◌, ◌≤◌,
}
use sade_safe_media_delivery.Ratelimit.{
  Limiter, allow, keep_after, new, overwritten, slot_times, store, sweep, sweep_key, times,
}

-- How many of the times are after `c`.
abbrev pub count_after : ℕ → List ℕ → ℕ
count_after c [] = 0
count_after c (t ∷ ts) = let rest = count_after c ts in if ltb c t then suc rest else rest

count_after-append :
    (c : ℕ) (xs ys : List ℕ) → count_after c (xs ++ ys) ≡ count_after c xs + count_after c ys
count_after-append c [] ys = omega arith
count_after-append c (x ∷ xs) ys = ground (arith, count_after-append c xs ys)

count_after-le-length : (c : ℕ) (xs : List ℕ) → count_after c xs ≤ length xs
count_after-le-length c [] = omega arith
count_after-le-length c (x ∷ xs) = ground (arith, count_after-le-length c xs)

count_after_anti : (c d : ℕ) (xs : List ℕ) → c ≤ d → count_after d xs ≤ count_after c xs
count_after_anti c d [] h = omega arith
count_after_anti c d (x ∷ xs) h = ground (arith, count_after_anti c d xs h)

-- Dropping what is not after `cutoff` loses nothing after a later instant.
count_after-keep_after :
    (xs : List ℕ) (cutoff c : ℕ)
    → cutoff ≤ c
    → count_after c (keep_after xs cutoff) ≡ count_after c xs
unfolding keep_after
count_after-keep_after [] cutoff c h = refl
count_after-keep_after (x ∷ xs) cutoff c h = ground (arith, count_after-keep_after xs cutoff c h)

count_after-overwritten :
    (xs : List ℕ) (cutoff c : ℕ)
    → cutoff ≤ c
    → count_after c xs ≤ count_after c (overwritten xs cutoff)
unfolding overwritten
count_after-overwritten xs cutoff c h = omega (
  arith,
  count_after-keep_after xs cutoff c h,
  count_after-append c (keep_after xs cutoff) (drop (length (keep_after xs cutoff)) xs),
)

count_after-sweep_key :
    (slot : Option (List ℕ)) (cutoff c : ℕ)
    → cutoff ≤ c
    → count_after c (slot_times slot) ≤ count_after c (slot_times (sweep_key cutoff slot))
unfolding sweep_key
count_after-sweep_key none cutoff c h = omega arith
count_after-sweep_key (some ts) cutoff c h = emptied (keep_after ts cutoff) refl
  where
    emptied :
        (kept : List ℕ)
        → keep_after ts cutoff ≡ kept
        → count_after c ts
          ≤ count_after c (
              slot_times
                (if is_empty (keep_after ts cutoff) then none else some (overwritten ts cutoff)))
    emptied [] e = rw e (omega (arith, count_after-keep_after ts cutoff c h, ap (count_after c) e))
    emptied (k ∷ ks) e = rw e (count_after-overwritten ts cutoff c h)

times-store :
    (hits : Text → Option (List ℕ)) (key k : Text) (ts : List ℕ)
    → times (store hits key ts) k ≡ (if str_eq key k then ts else times hits k)
unfolding times store
times-store hits key k ts = ground arith

-- A call, and the clocks that it reads.
pub record Call : Type 0 where
  pub key : Text
  pub now : ℕ
  pub later : ℕ

-- The calls granted so far, newest first.
abbrev pub Grants : Type 0
Grants = List Call

-- When `key` was granted.
unfoldable pub granted : Text → Grants → List ℕ
granted key [] = []
granted key (c ∷ cs) = let rest = granted key cs in if str_eq c.key key then c.now ∷ rest else rest

-- The clock never goes back.
abbrev pub InOrder : ℕ → List Call → Type 0
InOrder t [] = Unit
InOrder t (c ∷ cs) = (t ≤ c.now) × InOrder c.now cs

-- What holds between calls, at the instant `t` of the last one.
record Accounts (t : ℕ) (l : Limiter) (grants : Grants) : Type 0 where
  enabled : 0 < l.limit
  recorded :
      (k : Text) (c : ℕ)
      → t - l.window ≤ c
      → count_after c (granted k grants) ≤ count_after c (times l.hits k)
  bounded : (k : Text) → count_after (t - l.window) (granted k grants) ≤ l.limit

sweep-Accounts :
    (t : ℕ) (l : Limiter) (grants : Grants) (now : ℕ)
    → Accounts t l grants
    → Accounts t (sweep l (t - l.window) now) grants
unfolding sweep times
sweep-Accounts t l grants now a = elim (Bool-cases (ltb (now - l.swept_at) l.window)) [
  | inl e ↦ rw e a
  | inr e ↦ rw e (record {
    enabled = a.enabled;
    recorded = λ k c h.
        omega (arith, a.recorded k c h, count_after-sweep_key (l.hits k) (t - l.window) c h);
    bounded = a.bounded;
  })
]

-- The times that a granted call stores for its key.
abbrev stored : Limiter → Call → List ℕ
stored l c = keep_after (times l.hits c.key) (c.now - l.window) ++ c.now ∷ []

granted-cons_same :
    (k : Text) (call : Call) (grants : Grants) (c : ℕ)
    → str_eq call.key k ≡ true
    → count_after c (granted k (call ∷ grants))
      ≡ count_after c (call.now ∷ []) + count_after c (granted k grants)
unfolding granted
granted-cons_same k call grants c e = rw e (count_after-append c (call.now ∷ []) (granted k grants))

granted-cons_other :
    (k : Text) (call : Call) (grants : Grants)
    → str_eq call.key k ≡ false
    → granted k (call ∷ grants) ≡ granted k grants
unfolding granted
granted-cons_other k call grants e = rw e

stored_recorded :
    (l : Limiter) (call : Call) (grants : Grants) (k : Text) (c : ℕ)
    → call.now - l.window ≤ c
    → count_after c (granted k grants) ≤ count_after c (times l.hits k)
    → count_after c (granted k (call ∷ grants))
      ≤ count_after c (times (store l.hits call.key (stored l call)) k)
stored_recorded l call grants k c h r = rw times-store (elim (Bool-cases (str_eq call.key k)) [
  | inl e ↦ rw e (
      omega (
        arith,
        granted-cons_same k call grants c e,
        ap (λ (j : Text). count_after c (times l.hits j)) (eq_of_str_eq call.key k e),
        count_after-append c (keep_after (times l.hits call.key) (call.now - l.window))
            (call.now ∷ []),
        count_after-keep_after (times l.hits call.key) (call.now - l.window) c h,
      ))
  | inr e ↦ rw (e, granted-cons_other k call grants e) r
])

stored_bounded :
    (l : Limiter) (call : Call) (grants : Grants) (k : Text)
    → length (keep_after (times l.hits call.key) (call.now - l.window)) < l.limit
    → count_after (call.now - l.window) (granted k grants)
      ≤ count_after (call.now - l.window) (times l.hits k)
    → count_after (call.now - l.window) (granted k grants) ≤ l.limit
    → count_after (call.now - l.window) (granted k (call ∷ grants)) ≤ l.limit
stored_bounded l call grants k room r b = elim (Bool-cases (str_eq call.key k)) [
  | inl e ↦ omega (
    arith,
    stored_recorded l call grants k (call.now - l.window) (omega arith) r,
    ap (count_after (call.now - l.window)) (
        times-store l.hits call.key k (stored l call)
        ∙ ap (λ (x : Bool). if x then stored l call else times l.hits k) e),
    count_after-le-length (call.now - l.window) (stored l call),
    length-append (keep_after (times l.hits call.key) (call.now - l.window)) (call.now ∷ []),
  )
  | inr e ↦ rw (granted-cons_other k call grants e) b
]

-- A refused call stores what it kept.
refused_recorded :
    (l : Limiter) (call : Call) (k : Text) (c : ℕ)
    → call.now - l.window ≤ c
    → count_after c (times l.hits k)
      ≤ count_after c (
          times
            (store l.hits call.key (keep_after (times l.hits call.key) (call.now - l.window)))
            k)
refused_recorded l call k c h = rw times-store (elim (Bool-cases (str_eq call.key k)) [
  | inl e ↦ rw e (
      omega (
        arith,
        ap (λ (j : Text). count_after c (times l.hits j)) (eq_of_str_eq call.key k e),
        count_after-keep_after (times l.hits call.key) (call.now - l.window) c h,
      ))
  | inr e ↦ rw e (omega arith)
])

-- The limiter and the grants after one call.
unfoldable pub after_call : Limiter → Grants → Call → Limiter × Grants
after_call l grants call =
    let (l', allowed) = allow l call.key call.now call.later in
    (l', if allowed then call ∷ grants else grants)

-- One call, granted or refused, at an instant that is no earlier than the last.
allow-Accounts :
    (t : ℕ) (l : Limiter) (grants : Grants) (call : Call)
    → t ≤ call.now
    → Accounts t l grants
    → Accounts call.now (after_call l grants call).0 (after_call l grants call).1
unfolding after_call allow
allow-Accounts t l grants call later a = rw nonzero (elim (Bool-cases (leb l.limit (length kept))) [
  | inl full ↦ rw full (record {
    enabled = a.enabled;
    recorded = λ k c h. omega (arith, earlier k c h, refused_recorded l call k c h);
    bounded = within;
  })
  | inr room ↦ rw room (
      sweep-Accounts call.now (record l { hits = store l.hits call.key (stored l call) })
        (call ∷ grants) call.later
        (record {
          enabled = a.enabled;
          recorded = λ k c h. stored_recorded l call grants k c h (earlier k c h);
          bounded = λ k.
              stored_bounded l call grants k (ground arith)
                (earlier k (call.now - l.window) (omega arith)) (within k);
        }))
])
  where
    kept : List ℕ
    kept = keep_after (times l.hits call.key) (call.now - l.window)

    nonzero : (l.limit == 0) ≡ false
    nonzero = let on : 0 < l.limit = a.enabled in ground arith

    earlier :
        (k : Text) (c : ℕ)
        → call.now - l.window ≤ c
        → count_after c (granted k grants) ≤ count_after c (times l.hits k)
    earlier k c h = a.recorded k c (omega arith)

    within : (k : Text) → count_after (call.now - l.window) (granted k grants) ≤ l.limit
    within k = omega (
      arith,
      a.bounded k,
      count_after_anti (t - l.window) (call.now - l.window) (granted k grants) (omega arith),
    )

unfoldable pub serve : Limiter → Grants → List Call → Limiter × Grants
serve l grants [] = (l, grants)
serve l grants (c ∷ cs) = let (l', grants') = after_call l grants c in serve l' grants' cs

-- The instant of the last call.
abbrev pub last_instant : ℕ → List Call → ℕ
last_instant t [] = t
last_instant t (c ∷ cs) = last_instant c.now cs

serve-Accounts :
    (t : ℕ) (l : Limiter) (grants : Grants) (calls : List Call)
    → InOrder t calls
    → Accounts t l grants
    → Accounts (last_instant t calls) (serve l grants calls).0 (serve l grants calls).1
unfolding serve
serve-Accounts t l grants [] o a = a
serve-Accounts t l grants (c ∷ cs) o a =
    let (l', grants') = after_call l grants c in
    serve-Accounts c.now l' grants' cs o.1 (allow-Accounts t l grants c o.0 a)

config-after_call :
    (l : Limiter) (grants : Grants) (call : Call)
    → ((after_call l grants call).0.limit ≡ l.limit)
      × ((after_call l grants call).0.window ≡ l.window)
unfolding after_call allow sweep
config-after_call l grants call = ground arith

config-serve :
    (l : Limiter) (grants : Grants) (calls : List Call)
    → ((serve l grants calls).0.limit ≡ l.limit) × ((serve l grants calls).0.window ≡ l.window)
unfolding serve
config-serve l grants [] = (refl, refl)
config-serve l grants (c ∷ cs) =
    let (l', grants') = after_call l grants c in
    let (same_limit, same_window) = config-after_call l grants c in
    let (limits, windows) = config-serve l' grants' cs in
    (limits ∙ same_limit, windows ∙ same_window)

-- Of a new limiter with a positive limit that serves any calls, whose instants do not go back, each
-- window that ends at the last call has granted every key at most `limit` calls.
pub serve-new_bounded :
    (limit window : ℕ) (calls : List Call) (key : Text)
    → 0 < limit
    → InOrder 0 calls
    → count_after
        (last_instant 0 calls - window)
        (granted key (serve (new limit window) [] calls).1)
      ≤ limit
unfolding new granted
serve-new_bounded limit window calls key positive o =
    let (limits, windows) = config-serve (new limit window) [] calls in
    let final = serve-Accounts 0 (new limit window) [] calls o (record {
      enabled = positive;
      recorded = λ k c h. omega arith;
      bounded = λ k. omega arith;
    }) in
    subst₂
      (λ w m.
        count_after (last_instant 0 calls - w) (granted key (serve (new limit window) [] calls).1)
        ≤ m)
      windows limits (final.bounded key)
