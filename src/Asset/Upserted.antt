-- ===== src/Asset/Upserted.antt =====
-- The row that UpsertPreview leaves (internals/app/asset/repo.go).
use mathlib.Core.Path.{subst}
use sade_safe_media_delivery.Asset.{
  Asset, AssetOutage, asset_internal, asset_not_found, create_asset, get_by_job_and_kind,
  insert_asset, preview, update_asset, upsert_found, upsert_preview,
}
use sade_safe_media_delivery.Asset.Single.{get_by_job_and_kind-found}
use sade_safe_media_delivery.Base.{
  Bool-cases, List, Result-cases, Text, Unique, [], arith, count_where, find_row, find_row-absent,
  find_row-last, inl, inr, ok, refl, some, str_eq, str_eq_refl, update_where, with_key, ℕ, ◌++◌,
  ◌∙◌, ◌∷◌, ◌≡◌,
}

find_row-rewritten :
    (old a : Asset) (assets : List Asset)
    → find_row (with_key (λ r. r.id) old.id) assets ≡ some old
    → find_row (with_key (λ r. r.id) old.id) (
        update_where
          (λ r. str_eq r.id old.id)
          (λ r. record a { kind = preview; id = old.id; created_at = old.created_at })
          assets)
      ≡ some (record a { kind = preview; id = old.id; created_at = old.created_at })
unfolding find_row update_where
find_row-rewritten old a [] h = cc
find_row-rewritten old a (r ∷ rest) h = elim (Bool-cases (str_eq r.id old.id)) [
  | inl e ↦ rw e (rw (str_eq_refl old.id) refl)
  | inr e ↦ rw e (rw e (find_row-rewritten old a rest (ground (arith, e, h))))
]

-- When UpsertPreview gives an id, the table has a row under it, with every column of the preview that was
-- handed in but its id and its time, and the kind `preview`. The id that the database would give is fresh.
pub upsert_preview-row :
    (fails : AssetOutage) (id : Text) (now : ℕ) (assets : List Asset) (a : Asset) (found_id : Text)
    → Unique (λ r. r.id) assets
    → count_where (with_key (λ r. r.id) id) assets ≡ 0
    → (upsert_preview fails id now assets a).0 ≡ ok found_id
    → (since : ℕ) × (find_row
          (with_key (λ r. r.id) found_id)
          (upsert_preview fails id now assets a).1
        ≡ some (record a { kind = preview; id = found_id; created_at = since }))
unfolding upsert_preview upsert_found create_asset
upsert_preview-row fails id now assets a found_id unique fresh h =
    elim (Result-cases (get_by_job_and_kind fails assets a.job_id preview)) [
      | inr (asset_internal, down) ↦ absurd (ground (arith, down, h))
      | inr (asset_not_found, missing) ↦ elim (Bool-cases (fails insert_asset)) [
        | inl down ↦ absurd (ground (arith, missing, down, h))
        | inr up ↦
            let own : id ≡ found_id = ground (arith, missing, up, h) in
            let row : Asset = record a { kind = preview; id = id; created_at = now } in
            (
              now,
              rw (upsert_preview, missing, up)
                  (subst
                    (λ i.
                      find_row (with_key (λ (r : Asset). r.id) i) (assets ++ row ∷ [])
                      ≡ some (record a { kind = preview; id = i; created_at = now }))
                    own
                    (find_row-last (with_key (λ (r : Asset). r.id) id) assets row
                      ∙ rw
                          (
                            find_row-absent (with_key (λ (r : Asset). r.id) id) assets fresh,
                            str_eq_refl id,
                          )
                          refl)),
            )
      ]
      | inl (old, there) ↦ elim (Bool-cases (fails update_asset)) [
        | inl down ↦ absurd (ground (arith, there, down, h))
        | inr up ↦
            let own : old.id ≡ found_id = ground (arith, there, up, h) in
            let row = get_by_job_and_kind-found fails assets a.job_id old unique there in
            (
              old.created_at,
              rw (upsert_preview, there, up)
                  (subst
                    (λ i.
                      find_row (with_key (λ (r : Asset). r.id) i) (
                        update_where (λ r. str_eq r.id old.id)
                          (λ r. record a {
                            kind = preview;
                            id = old.id;
                            created_at = old.created_at;
                          })
                          assets)
                      ≡ some (record a { kind = preview; id = i; created_at = old.created_at }))
                    own (find_row-rewritten old a assets row.0)),
            )
      ]
    ]
