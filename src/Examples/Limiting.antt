-- ===== src/Examples/Limiting.antt =====
-- The limiter of internals/ratelimit at concrete calls.
use sade_safe_media_delivery.Base.{
  List, String, [], arith, codes, false, if◌then◌else◌, none, refl, some, str_eq, true, ℕ, ◌-◌, ◌∷◌,
  ◌≡◌, ◌≤◌,
}
use sade_safe_media_delivery.Ratelimit.{
  Limiter, allow, keep_after, new, overwritten, store, sweep, sweep_key, times,
}
use sade_safe_media_delivery.Ratelimit.Sweep.{sweep-refuses}
use sade_safe_media_delivery.Ratelimit.Window.{
  Call, after_call, count_after, granted, last_instant, serve, serve-new_bounded,
}

abbrev call_at : String → ℕ → Call
call_at key now = record { key = codes key; now = now; later = now }

abbrev burst : List Call
burst = call_at "a" 100 ∷ call_at "a" 101 ∷ call_at "a" 102 ∷ call_at "b" 103 ∷ call_at "a" 115 ∷ []

burst-granted : granted (codes "a") (serve (new 2 10) [] burst).1 ≡ 115 ∷ 101 ∷ 100 ∷ []
unfolding serve after_call allow sweep sweep_key overwritten new granted times store keep_after
    str_eq
burst-granted = refl

serve-new_bounded_example :
    count_after (last_instant 0 burst - 10) (granted (codes "a") (serve (new 2 10) [] burst).1) ≤ 2
serve-new_bounded_example = serve-new_bounded 2 10 burst (codes "a") (omega arith) (omega arith)

abbrev half_expired : Limiter
half_expired = record {
  limit = 2;
  window = 10;
  hits = λ k. if str_eq (codes "a") k then some (95 ∷ 101 ∷ []) else none;
  swept_at = 0;
}

sweep-refuses_example :
    ((allow half_expired (codes "a") 108 108).1 ≡ true)
    × ((allow (sweep half_expired (108 - 10) 108) (codes "a") 108 108).1 ≡ false)
unfolding str_eq
sweep-refuses_example =
    sweep-refuses half_expired (codes "a") 108 108 95 101 [] refl (omega arith) (omega arith) refl
      (omega arith)
