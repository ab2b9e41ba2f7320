-- ===== src/Brand/Logos.antt =====
-- The logo of an unfinished job stays in the store (internals/app/brand/service.go).
use mathlib.Core.Path.{subst}
use sade_safe_media_delivery.Auth.Store.{kept}
use sade_safe_media_delivery.Base.{
  >>>-answer, >>>-state, Bool, Bool-cases, List, Option, Result, Text, [], arith, count_where,
  count_where-delete_others, count_where-last, delete_where, eq_of_str_eq, false, if_either, inl,
  inr, is_empty, lift_part, lift_part-state, ltb, not, ok, str_eq, str_eq_iff, sym, ◌||◌, ◌∙◌, ◌≡◌,
  ◌≤◌,
}
use sade_safe_media_delivery.Brand.{
  Brand, BrandError, BrandResponse, brand_response, count_logo, logo_in_use, save, uses_logo,
}
use sade_safe_media_delivery.Brand.Service.{
  BrandRequest, Looks, Pictures, UpdateRequest, checked_logo, complete_onboarding, drop_logo,
  is_valid_look, load_brand, logo_key_of, point_at, remove_logo, saved, set_logo, update_look,
  with_logo, with_look,
}
use sade_safe_media_delivery.Job.{Job}
use sade_safe_media_delivery.Job.Create.{put_blob}
use sade_safe_media_delivery.Job.Service.{Blob}
use sade_safe_media_delivery.Passkey.{used}

abbrev pub is_blob : Text → Blob → Bool
is_blob key b = str_eq b.key key

-- A pending or processing job names the file, and it is there.
abbrev pub IsKept : Text → Looks → Type 0
IsKept key l = (1 ≤ count_where (uses_logo key) l.jobs) × (1 ≤ count_where (is_blob key) l.blobs)

-- A change to a brand, of an account.
pub data BrandCall : Type 0 where
  updates : UpdateRequest → BrandCall
  sets_logo : Option Text → BrandCall
  removes_logo : BrandCall
  onboards : BrandCall

unfoldable pub after_brand_call : Pictures → BrandRequest → Looks → Text → BrandCall → Looks
unfolding update_look set_logo remove_logo complete_onboarding
after_brand_call p req l user_id (updates u) = (update_look req l user_id u).1
after_brand_call p req l user_id (sets_logo raw) = (set_logo p req l user_id raw).1
after_brand_call p req l user_id removes_logo = (remove_logo req l user_id).1
after_brand_call p req l user_id onboards = (complete_onboarding req l user_id).1

-- A key that no unfinished job names is not that of a kept file.
unused_apart :
    (old key : Text) (jobs : List Job)
    → ltb 0 (count_where (uses_logo old) jobs) ≡ false
    → 1 ≤ count_where (uses_logo key) jobs
    → str_eq old key ≡ false
unused_apart old key jobs unused used = elim (Bool-cases (str_eq old key)) [
  | inr apart ↦ apart
  | inl same ↦
      let used_old : 1 ≤ count_where (uses_logo old) jobs =
        subst (λ k. 1 ≤ count_where (uses_logo k) jobs) (sym (eq_of_str_eq old key same)) used in
      absurd (ground (arith, unused, used_old))
]

delete_blob-present :
    (old key : Text) (blobs : List Blob)
    → str_eq old key ≡ false
    → 1 ≤ count_where (is_blob key) blobs
    → 1 ≤ count_where (is_blob key) (delete_where (is_blob old) blobs)
delete_blob-present old key blobs apart present =
    rw
      (count_where-delete_others (is_blob key) (is_blob old)
        (λ b own.
          ground
            (arith, str_eq_iff b.key key, str_eq_iff b.key old, str_eq_iff old key, own, apart))
        blobs)
      present

put_blob-present :
    (key : Text) (b : Blob) (blobs : List Blob)
    → 1 ≤ count_where (is_blob key) blobs
    → 1 ≤ count_where (is_blob key) (put_blob b blobs)
unfolding put_blob count_where
put_blob-present key b blobs present =
    let rest = delete_where (is_blob b.key) blobs in
    elim (Bool-cases (str_eq b.key key)) [
      | inl same ↦ ground (arith, count_where-last (is_blob key) rest b, same)
      | inr apart ↦ ground (
        arith,
        count_where-last (is_blob key) rest b,
        delete_blob-present b.key key blobs apart present,
      )
    ]

module _ (key : Text) (req : BrandRequest) where
  saved-IsKept : (l : Looks) (b : Brand) → IsKept key l → IsKept key (saved req l b).1
  unfolding saved
  saved-IsKept l b kept =
      let out = save req.fails req.new_id req.now l.brands b in
      subst (IsKept key)
        (sym (
          >>>-answer (lift_part (λ e. e) (λ rows. record l { brands = rows }) out)
            (λ t. brand_response b)
          ∙ lift_part-state (λ e. e) (λ rows. record l { brands = rows }) out))
        kept

  drop_logo-IsKept :
      (l : Looks) (old current : Text) → IsKept key l → IsKept key (drop_logo req l old current)
  unfolding drop_logo logo_in_use
  drop_logo-IsKept l old current kept = elim (Bool-cases (is_empty old || str_eq old current)) [
    | inl left ↦ rw (drop_logo, left) kept
    | inr gone ↦ elim (Bool-cases (req.fails count_logo)) [
      | inl down ↦ rw (drop_logo, gone, logo_in_use, down) kept
      | inr up ↦
          elim (Bool-cases (ltb 0 (count_where (uses_logo old) l.jobs) || req.delete_fails old)) [
            | inl in_use ↦ rw (drop_logo, gone, logo_in_use, up, in_use) kept
            | inr unused ↦
                rw (drop_logo, gone, logo_in_use, up, unused)
                  (let idle : ltb 0 (count_where (uses_logo old) l.jobs) ≡ false =
                      ground (arith, unused) in
                    (
                      kept.0,
                      delete_blob-present old key l.blobs (unused_apart old key l.jobs idle kept.0)
                          kept.1,
                    ))
          ]
    ]
  ]

  point_at-IsKept :
      (l : Looks) (b : Brand) (new_key : Text)
      → IsKept key l
      → IsKept key (point_at req l b new_key).1
  unfolding point_at
  point_at-IsKept l b new_key kept =
      >>>-state (IsKept key) (saved req l (record b { logo_key = new_key }))
        (λ r l1. (ok r, drop_logo req l1 b.logo_key new_key))
        (saved-IsKept l (record b { logo_key = new_key }) kept)
        (λ r l1 k. drop_logo-IsKept l1 b.logo_key new_key k)

-- A logo that a pending or processing job names is still in the store after any change to a brand: new
-- settings, a new logo, a removal, or the end of the welcome setup, with whatever fails on the way.
pub brand_calls-IsKept :
    (p : Pictures) (req : BrandRequest) (l : Looks) (user_id : Text) (c : BrandCall) (key : Text)
    → IsKept key l
    → IsKept key (after_brand_call p req l user_id c)
unfolding after_brand_call update_look set_logo remove_logo complete_onboarding
brand_calls-IsKept p req l user_id (updates u) key kept =
    if_either (λ (r : Result BrandError BrandResponse × Looks). IsKept key r.1)
      (not (is_valid_look u)) kept
      (>>>-state (IsKept key) (load_brand req l user_id, l) _ kept
        (λ b l1 k. saved-IsKept key req l1 (with_look b u) k))
brand_calls-IsKept p req l user_id (sets_logo raw) key kept =
    >>>-state (IsKept key) (checked_logo p req raw, l) _ kept
      (λ out l1 k.
        if_either (λ (r : Result BrandError BrandResponse × Looks). IsKept key r.1) req.put_fails k
          (>>>-state (IsKept key)
            (load_brand req (with_logo p l1 user_id out) user_id, with_logo p l1 user_id out) _
            (
              k.0,
              put_blob-present key (record { key = logo_key_of p user_id out; content = out })
                  l1.blobs k.1,
            )
            (λ b l2 k2. point_at-IsKept key req l2 b (logo_key_of p user_id out) k2)))
brand_calls-IsKept p req l user_id removes_logo key kept =
    >>>-state (IsKept key) (load_brand req l user_id, l) _ kept
      (λ b l1 k.
        if_either (λ (r : Result BrandError BrandResponse × Looks). IsKept key r.1)
          (is_empty b.logo_key) k (point_at-IsKept key req l1 b [] k))
brand_calls-IsKept p req l user_id onboards key kept =
    >>>-state (IsKept key) (load_brand req l user_id, l) _ kept
      (λ b l1 k. saved-IsKept key req l1 (record b { onboarded = 1 }) k)
