-- ===== src/Worker/Preview.antt =====
-- What a failed run of internals/worker/process.go leaves behind.
use sade_safe_media_delivery.Asset.{
  Asset, AssetError, AssetOutage, asset_internal, asset_not_found, create_asset,
  get_by_job_and_kind, insert_asset, preview, update_asset, upsert_found, upsert_preview,
}
use sade_safe_media_delivery.Auth.Store.{kept}
use sade_safe_media_delivery.Base.{
  >>>-eq_err, Bool-cases, List, Result, Text, ap, arith, err, inl, inr, lift_part-eq_err,
  lift_part-state, ok, refl, ℕ, ◌>>>◌, ◌∙◌, ◌≡◌,
}
use sade_safe_media_delivery.Job.{Job}
use sade_safe_media_delivery.JobEvent.{JobEvent}
use sade_safe_media_delivery.Share.Operator.{preview_id}
use sade_safe_media_delivery.Worker.Process.{
  Plant, RunError, RunRequest, Wiring, engine_request, not_recorded,
}
use sade_safe_media_delivery.Worker.Run.{
  add_preview, made_preview, notify, prepared, preview_key, preview_row, process_job,
  record_preview, run_engine,
}

-- The rows and the mails of a plant.
abbrev pub records : Plant → List Asset × List JobEvent × List (Text × Text × Text)
records st = (st.assets, st.events, st.mails)

upsert_found-err :
    (fails : AssetOutage) (id : Text) (now : ℕ) (assets : List Asset) (a : Asset)
    (found : Result AssetError Asset) {x : AssetError}
    → (upsert_found fails id now assets a found).0 ≡ err x
    → (upsert_found fails id now assets a found).1 ≡ assets
unfolding upsert_found create_asset
upsert_found-err fails id now assets a (ok old) h = elim (Bool-cases (fails update_asset)) [
  | inl down ↦ rw (upsert_found, down) refl
  | inr up ↦ absurd (ground (arith, up, h))
]
upsert_found-err fails id now assets a (err asset_internal) h = refl
upsert_found-err fails id now assets a (err asset_not_found) h =
    elim (Bool-cases (fails insert_asset)) [
      | inl down ↦ rw (upsert_found, create_asset, down) refl
      | inr up ↦ absurd (ground (arith, up, h))
    ]

add_preview-err :
    (e : Wiring) (req : RunRequest) (st : Plant) (j : Job) (key name content : Text) {x : RunError}
    → (add_preview e req st j key name content).0 ≡ err x
    → records (add_preview e req st j key name content).1 ≡ records st
unfolding add_preview upsert_preview
add_preview-err e req st j key name content h =
    let a = preview_row e j key name content in
    let r = upsert_preview req.asset_fails req.asset_id req.now st.assets a in
    let put = λ (rows : List Asset). record st { assets = rows } in
    let kept : r.1 ≡ st.assets =
      upsert_found-err req.asset_fails req.asset_id req.now st.assets (record a { kind = preview })
        (get_by_job_and_kind req.asset_fails st.assets a.job_id preview)
        (lift_part-eq_err (λ x. not_recorded) put r h).1 in
    ap records (lift_part-state (λ x. not_recorded) put r)
    ∙ ap (λ rows. (rows, st.events, st.mails)) kept

record_preview-err :
    (e : Wiring) (req : RunRequest) (st : Plant) (j : Job) (key name : Text) {x : RunError}
    → (record_preview e req st j key name).0 ≡ err x
    → records (record_preview e req st j key name).1 ≡ records st
unfolding record_preview
record_preview-err e req st j key name h =
    elim (>>>-eq_err (made_preview req st key, st)
      (λ content st1. add_preview e req st1 j key name content >>> λ preview_id st2.
        (ok tt, (notify e req st2 j.recipient_email preview_id).1))
      h) [
        | inl (bad, same) ↦ ap records same
        | inr (content, good, late, same) ↦
            ap records same
            ∙ (elim (>>>-eq_err (add_preview e req st j key name content)
                (λ preview_id st2. (ok tt, (notify e req st2 j.recipient_email preview_id).1))
                late) [
                  | inl (bad, kept) ↦
                      ap records kept ∙ add_preview-err e req st j key name content bad
                  | inr (preview_id, there, never, kept) ↦ absurd (ground (arith, never))
                ])
      ]

-- A run that ends with an error leaves the rows and the mails as they were: no preview is recorded, and
-- nobody is told of one. It may leave a file in the store.
pub process_job-err :
    (e : Wiring) (req : RunRequest) (st : Plant) (j : Job) {x : RunError}
    → (process_job e req st j).0 ≡ err x
    → records (process_job e req st j).1 ≡ records st
unfolding process_job run_engine
process_job-err e req st j h =
    elim (>>>-eq_err (prepared e req st j, st)
      (λ p st1.
        run_engine e st1 (preview_key j p.3) (engine_request e req st1 j p.0 p.1 p.2) >>> λ t st2.
        record_preview e req st2 j (preview_key j p.3) p.3)
      h) [
        | inl (bad, same) ↦ ap records same
        | inr (p, ready, late, same) ↦
            ap records same
            ∙ (let ran =
                  run_engine e st (preview_key j p.3) (engine_request e req st j p.0 p.1 p.2) in
                elim (>>>-eq_err ran (λ t st2. record_preview e req st2 j (preview_key j p.3) p.3)
                  late) [
                    | inl (bad, kept) ↦ ap records kept
                    | inr (t, made, later, kept) ↦
                        ap records kept
                        ∙ record_preview-err e req ran.1 j (preview_key j p.3) p.3 later
                  ])
      ]
