-- ===== src/Ratelimit/Sweep.antt =====
-- sweep and the slices of the other keys (internals/ratelimit/limiter.go). keepAfter writes into
-- the backing array of its argument, and sweep drops its result, so a key with both expired and
-- live times keeps a slice of the old length whose front was overwritten.
use sade_safe_media_delivery.Base.{
  All, All-append, List, Text, [], arith, drop, false, length, length-append, le→ltb, ltb, refl,
  some, suc, true, ℕ, ◌++◌, ◌-◌, ◌<◌, ◌∷◌, ◌≡◌, ◌≤◌,
}
use sade_safe_media_delivery.Ratelimit.{
  Limiter, allow, keep_after, overwritten, sweep, sweep_key, times,
}

-- All the times are after `cutoff`.
abbrev pub Live : ℕ → List ℕ → Type 0
Live cutoff = All (λ t. cutoff < t)

keep_after-Live : (ts : List ℕ) (cutoff : ℕ) → Live cutoff ts → keep_after ts cutoff ≡ ts
unfolding keep_after
keep_after-Live [] cutoff h = refl
keep_after-Live (t ∷ ts) cutoff h = ground (arith, keep_after-Live ts cutoff)

-- What is left of the slot behind the front that was overwritten is its last time.
drop-cons_length : (t x : ℕ) (ts : List ℕ) → length (drop (length (t ∷ ts)) (x ∷ t ∷ ts)) ≡ 1
drop-cons_length t x [] = refl
drop-cons_length t x (u ∷ ts) = drop-cons_length u t ts

drop-cons-Live :
    (cutoff t x : ℕ) (ts : List ℕ)
    → Live cutoff (t ∷ ts)
    → Live cutoff (drop (length (t ∷ ts)) (x ∷ t ∷ ts))
drop-cons-Live cutoff t x [] h = h
drop-cons-Live cutoff t x (u ∷ ts) h = drop-cons-Live cutoff u t ts h.1

keep_after_expired :
    (cutoff old : ℕ) (ts : List ℕ)
    → old ≤ cutoff
    → Live cutoff ts
    → keep_after (old ∷ ts) cutoff ≡ ts
keep_after_expired cutoff old ts expired live =
    unfold keep_after in rw (le→ltb cutoff old expired) (keep_after-Live ts cutoff live)

overwritten_overcounts :
    (cutoff old t : ℕ) (ts : List ℕ)
    → old ≤ cutoff
    → Live cutoff (t ∷ ts)
    → length (keep_after (overwritten (old ∷ t ∷ ts) cutoff) cutoff) ≡ suc (length (t ∷ ts))
unfolding overwritten
overwritten_overcounts cutoff old t ts expired live =
    rw (keep_after_expired cutoff old (t ∷ ts) expired live) (
      rw
        (keep_after-Live (t ∷ ts ++ rest) cutoff (
          All-append (λ (u : ℕ). cutoff < u) (t ∷ ts) rest live
            (drop-cons-Live cutoff t old ts live)))
        (omega (arith, length-append (t ∷ ts) rest, drop-cons_length t old ts)))
  where
    rest : List ℕ
    rest = drop (length (t ∷ ts)) (old ∷ t ∷ ts)

-- Let a key's slot hold one expired time in front of live ones, one fewer than the limit. A call
-- with the key is granted; but after a sweep that any other call triggers first, it is refused.
pub sweep-refuses :
    (l : Limiter) (key : Text) (now later old t : ℕ) (ts : List ℕ)
    → l.hits key ≡ some (old ∷ t ∷ ts)
    → old ≤ now - l.window
    → Live (now - l.window) (t ∷ ts)
    → l.limit ≡ suc (length (t ∷ ts))
    → l.window ≤ later - l.swept_at
    → ((allow l key now later).1 ≡ true)
      × ((allow (sweep l (now - l.window) later) key now later).1 ≡ false)
sweep-refuses l key now later old t ts slot expired live full due = (granted, refused)
  where
    due_test : ltb (later - l.swept_at) l.window ≡ false
    due_test = le→ltb (later - l.swept_at) l.window due

    before : keep_after (times l.hits key) (now - l.window) ≡ t ∷ ts
    before = unfold times in rw slot (keep_after_expired (now - l.window) old (t ∷ ts) expired live)

    granted : (allow l key now later).1 ≡ true
    granted = unfold allow in rw (before, full) (ground arith)

    swept :
        sweep_key (now - l.window) (some (old ∷ t ∷ ts))
        ≡ some (overwritten (old ∷ t ∷ ts) (now - l.window))
    swept = unfold sweep_key in rw (keep_after_expired (now - l.window) old (t ∷ ts) expired live)

    refused : (allow (sweep l (now - l.window) later) key now later).1 ≡ false
    refused =
        unfold allow sweep times in
        rw (due_test) (
          rw (slot) (
            rw (swept)
              (ground (arith, overwritten_overcounts (now - l.window) old t ts expired live))))
