-- ===== src/Asset/Single.antt =====
-- A job has one preview (UpsertPreview of internals/app/asset/repo.go).
use mathlib.Core.Path.{subst}
use sade_safe_media_delivery.Asset.{
  Asset, AssetError, AssetOutage, Kind, asset_internal, asset_not_found, create_asset,
  first_of_kind, get_by_job_and_kind, insert_asset, kind_eq, list_assets, preview, read_assets,
  update_asset, upsert_found, upsert_preview,
}
use sade_safe_media_delivery.Base.{
  All, All-map, Bool, Bool-cases, List, Result-cases, Text, Unique, [], ap, arith, count_where,
  count_where-last, count_where-select, count_where-sort_by, eq_of_str_eq, err, find_row,
  find_row-Unique, inl, inr, ltb, ok, refl, select, select-All, select-keeps-All, some, sort_by,
  sort_by-All, str_eq, str_eq_iff, sym, true, update_where, with_key, ℕ, ◌&&◌, ◌∙◌, ◌∷◌, ◌≡◌, ◌≤◌,
}

abbrev pub is_preview_of : Text → Asset → Bool
is_preview_of job_id a = str_eq a.job_id job_id && kind_eq a.kind preview

-- No job has two previews.
abbrev pub SinglePreview : List Asset → Type 0
SinglePreview assets = (job_id : Text) → count_where (is_preview_of job_id) assets ≤ 1

first_of_kind-missing :
    (k : Kind) (xs : List Asset) {x : AssetError}
    → first_of_kind k xs ≡ err x
    → count_where (λ a. kind_eq a.kind k) xs ≡ 0
unfolding first_of_kind count_where
first_of_kind-missing k [] h = refl
first_of_kind-missing k (a ∷ xs) {x} h = elim (Bool-cases (kind_eq a.kind k)) [
  | inl t ↦ absurd (ground (arith, t, h))
  | inr t ↦ rw t (first_of_kind-missing k xs {x = x} (ground (arith, t, h)))
]

-- What holds of every row holds of the one that is found, which has the kind.
first_of_kind-All :
    (P : Asset → Type 0) (k : Kind) (xs : List Asset) (a : Asset)
    → All P xs
    → first_of_kind k xs ≡ ok a
    → P a × (kind_eq a.kind k ≡ true)
unfolding first_of_kind
first_of_kind-All P k [] a h e = cc
first_of_kind-All P k (b ∷ xs) a h e = elim (Bool-cases (kind_eq b.kind k)) [
  | inl t ↦
      let same : b ≡ a = ground (arith, t, e) in
      (subst P same h.0, subst (λ c. kind_eq c.kind k ≡ true) same t)
  | inr t ↦ first_of_kind-All P k xs a h.1 (ground (arith, t, e))
]

module _ (fails : AssetOutage) (assets : List Asset) (job_id : Text) where
  -- The preview that the job has: its row, which is that of its id.
  pub get_by_job_and_kind-found :
      (a : Asset)
      → Unique (λ r. r.id) assets
      → get_by_job_and_kind fails assets job_id preview ≡ ok a
      → (find_row (with_key (λ r. r.id) a.id) assets ≡ some a) × (is_preview_of job_id a ≡ true)
  unfolding get_by_job_and_kind list_assets
  get_by_job_and_kind-found a unique h = elim (Bool-cases (fails read_assets)) [
    | inl down ↦ absurd (ground (arith, down, h))
    | inr up ↦
        let of_job = λ (a : Asset). str_eq a.job_id job_id in
        let before = λ (a b : Asset). ltb a.created_at b.created_at in
        let rows = sort_by before (select of_job assets) in
        let same : get_by_job_and_kind fails assets job_id preview ≡ first_of_kind preview rows =
          rw (get_by_job_and_kind, list_assets, up) refl in
        let of_the_job =
          first_of_kind-All (λ r. of_job r ≡ true) preview rows a
            (sort_by-All (λ r. of_job r ≡ true) before (select of_job assets)
              (select-All of_job assets))
            (sym same ∙ h) in
        let in_table = λ (r : Asset). find_row (with_key (λ r. r.id) r.id) assets ≡ some r in
        let there =
          first_of_kind-All in_table preview rows a
            (sort_by-All in_table before (select of_job assets)
              (select-keeps-All in_table of_job assets (find_row-Unique (λ r. r.id) assets unique)))
            (sym same ∙ h) in
        (there.0, ground (arith, of_the_job.0, there.1))
  ]

  get_by_job_and_kind-missing :
      get_by_job_and_kind fails assets job_id preview ≡ err asset_not_found
      → count_where (is_preview_of job_id) assets ≡ 0
  unfolding get_by_job_and_kind list_assets
  get_by_job_and_kind-missing h = elim (Bool-cases (fails read_assets)) [
    | inl down ↦ absurd (ground (arith, down, h))
    | inr up ↦
        let of_job = λ (a : Asset). str_eq a.job_id job_id in
        let before = λ (a b : Asset). ltb a.created_at b.created_at in
        let same : get_by_job_and_kind fails assets job_id preview
            ≡ first_of_kind preview (sort_by before (select of_job assets)) =
          rw (get_by_job_and_kind, list_assets, up) refl in
        sym (
          count_where-sort_by (λ a. kind_eq a.kind preview) before (select of_job assets)
          ∙ count_where-select (λ a. kind_eq a.kind preview) of_job assets)
        ∙ first_of_kind-missing preview (sort_by before (select of_job assets)) (sym same ∙ h)
  ]

-- Rewriting the one row of an id, for the same job and kind, does not change how many previews a job has.
count_where-rewritten :
    (old a : Asset) (job_id : Text) (xs : List Asset)
    → is_preview_of job_id a ≡ is_preview_of job_id old
    → All (λ r. str_eq r.id old.id ≡ true → r ≡ old) xs
    → count_where (is_preview_of job_id) (
        update_where
          (λ r. str_eq r.id old.id)
          (λ r. record a { id = old.id; created_at = old.created_at })
          xs)
      ≡ count_where (is_preview_of job_id) xs
unfolding count_where update_where
count_where-rewritten old a job_id [] same only = refl
count_where-rewritten old a job_id (r ∷ xs) same only = elim (Bool-cases (str_eq r.id old.id)) [
  | inl e ↦
      let rest = count_where-rewritten old a job_id xs same only.1 in
      let was : is_preview_of job_id r ≡ is_preview_of job_id old =
        ap (is_preview_of job_id) (only.0 e) in
      rw e (ground (arith, rest, was, same))
  | inr e ↦ rw e (ground (arith, count_where-rewritten old a job_id xs same only.1))
]

only_row :
    (assets : List Asset) (old : Asset)
    → Unique (λ r. r.id) assets
    → find_row (with_key (λ r. r.id) old.id) assets ≡ some old
    → All (λ r. str_eq r.id old.id ≡ true → r ≡ old) assets
only_row assets old unique found =
    All-map (λ r. find_row (with_key (λ r. r.id) r.id) assets ≡ some r)
      (λ r. str_eq r.id old.id ≡ true → r ≡ old)
      (λ r own e.
        let moved : find_row (with_key (λ r. r.id) old.id) assets ≡ some r =
          subst (λ k. find_row (with_key (λ r. r.id) k) assets ≡ some r)
            (eq_of_str_eq r.id old.id e) own in
        cc)
      assets (find_row-Unique (λ r. r.id) assets unique)

create_asset-SinglePreview :
    (fails : AssetOutage) (id : Text) (now : ℕ) (assets : List Asset) (a : Asset)
    → count_where (is_preview_of a.job_id) assets ≡ 0
    → SinglePreview assets
    → SinglePreview (create_asset fails id now assets a).1
unfolding create_asset count_where
create_asset-SinglePreview fails id now assets a missing single k =
    elim (Bool-cases (fails insert_asset)) [
      | inl down ↦ rw (create_asset, down) (single k)
      | inr up ↦
          let row : Asset = record a { id = id; created_at = now } in
          rw (create_asset, up, count_where-last (is_preview_of k) assets row)
            (elim (Bool-cases (str_eq a.job_id k)) [
              | inl same ↦
                  let none_yet =
                    subst (λ j. count_where (is_preview_of j) assets ≡ 0)
                      (eq_of_str_eq a.job_id k same) missing in
                  ground (arith, none_yet, same)
              | inr apart ↦ ground (arith, single k, apart)
            ])
    ]

same_preview :
    (old a : Asset) (k : Text)
    → is_preview_of a.job_id old ≡ true
    → is_preview_of k (record a { kind = preview }) ≡ is_preview_of k old
unfolding kind_eq
same_preview old a k h =
    ground
      (arith, h, str_eq_iff old.job_id a.job_id, str_eq_iff a.job_id k, str_eq_iff old.job_id k)

-- UpsertPreview keeps it so, when the ids are unique.
pub upsert_preview-SinglePreview :
    (fails : AssetOutage) (id : Text) (now : ℕ) (assets : List Asset) (a : Asset)
    → Unique (λ r. r.id) assets
    → SinglePreview assets
    → SinglePreview (upsert_preview fails id now assets a).1
unfolding upsert_preview upsert_found
upsert_preview-SinglePreview fails id now assets a unique single k =
    let p : Asset = record a { kind = preview } in
    elim (Result-cases (get_by_job_and_kind fails assets a.job_id preview)) [
      | inr (asset_internal, down) ↦ rw (upsert_preview, down) (single k)
      | inr (asset_not_found, missing) ↦
          rw (upsert_preview, missing)
            (create_asset-SinglePreview fails id now assets p
              (get_by_job_and_kind-missing fails assets a.job_id missing) single k)
      | inl (old, there) ↦ elim (Bool-cases (fails update_asset)) [
        | inl down ↦ rw (upsert_preview, there, down) (single k)
        | inr up ↦
            let row = get_by_job_and_kind-found fails assets a.job_id old unique there in
            let same : is_preview_of k p ≡ is_preview_of k old = same_preview old a k row.1 in
            rw
              (
                upsert_preview,
                there,
                up,
                count_where-rewritten old p k assets same (only_row assets old unique row.0),
              )
              (single k)
      ]
    ]
