-- ===== src/Share/Closed.antt =====
-- A job whose links are off has no open route: internals/app/share and internals/app/payment.
use mathlib.Core.Path.{subst}
use sade_safe_media_delivery.Asset.{Asset}
use sade_safe_media_delivery.Base.{
  All-intro, Bool, Bool-cases, List, Option-cases, Result, Result-cases, Text, ap, arith,
  count_where, err, false, find_row, find_row-All, find_row-holds, inl, inr, is_empty, ok, refl,
  some, sym, true, update_where, update_where-All, ℕ, ◌==◌, ◌∙◌, ◌≡◌, ◌≢◌,
}
use sade_safe_media_delivery.GoText.{trim_space}
use sade_safe_media_delivery.Job.{Job}
use sade_safe_media_delivery.Job.Repo.{
  JobOutage, JobRepoError, has_id, job_internal, job_not_found, links_disabled_of, read_links,
  set_links, set_links_disabled,
}
use sade_safe_media_delivery.Payment.Service.{
  PaymentService, Request, Shop, check_links, enabled, invalid_token, load_original, load_preview,
  resolve_preview, shut_links,
}
use sade_safe_media_delivery.Share.Operator.{Desk, Order, note, switch_links, switched}
use sade_safe_media_delivery.Share.Serve.{
  Purpose, Visit, link_disabled, load_asset, not_there, purpose_text, resolve, switch_of,
  token_error, want_kind,
}
use sade_safe_media_delivery.Token.{Signer}

-- The row of the job, when there is one, has its links off.
IsClosed : List Job → Text → Type 0
IsClosed jobs job_id = (r : Job) → find_row (has_id job_id) jobs ≡ some r → r.links_disabled ≡ 1

links_disabled_of-IsClosed :
    (fails : JobOutage) (jobs : List Job) (job_id : Text)
    → IsClosed jobs job_id
    → links_disabled_of fails jobs job_id ≢ ok false
unfolding IsClosed links_disabled_of
links_disabled_of-IsClosed fails jobs job_id closed h = elim (Bool-cases (fails read_links)) [
  | inl down ↦ ground (arith, down, h)
  | inr up ↦ elim (Option-cases (find_row (has_id job_id) jobs)) [
    | inl missing ↦ ground (arith, up, missing, h)
    | inr (r, found) ↦ ground (arith, up, found, h, closed r found)
  ]
]

update_where-IsClosed :
    (jobs : List Job) (job_id : Text)
    → IsClosed (update_where (has_id job_id) (λ j. record j { links_disabled = 1 }) jobs) job_id
unfolding IsClosed
update_where-IsClosed jobs job_id r found =
    let p = has_id job_id in
    let rows = update_where p (λ (j : Job). record j { links_disabled = 1 }) jobs in
    find_row-All (λ (j : Job). p j ≡ true → j.links_disabled ≡ 1) p rows r
      (update_where-All (λ (j : Job). Unit {0}) (λ (j : Job). p j ≡ true → j.links_disabled ≡ 1) p
        (λ j. record j { links_disabled = 1 }) (λ j t u k. refl)
        (λ j f u k. absurd (ground (arith, f, k))) jobs
        (All-intro (λ (j : Job). Unit {0}) (λ j. tt) jobs))
      found (find_row-holds p rows r found)

-- SetLinksDisabled closes the job.
set_links_disabled-IsClosed :
    (fails : JobOutage) (jobs jobs' : List Job) (job_id : Text)
    → set_links_disabled fails jobs job_id true ≡ (ok tt, jobs')
    → IsClosed jobs' job_id
unfolding set_links_disabled
set_links_disabled-IsClosed fails jobs jobs' job_id h = elim (Bool-cases (fails set_links)) [
  | inl down ↦ absurd (
      let same : set_links_disabled fails jobs job_id true ≡ (err job_internal, jobs) =
        rw (set_links_disabled, down) refl in
      let bad : err job_internal ≡ ok tt =
        ap (λ (x : Result JobRepoError (Unit {0}) × List Job). x.0) (sym same ∙ h) in
      cc)
  | inr up ↦ elim (Bool-cases (count_where (has_id job_id) jobs == 0)) [
    | inl missing ↦ absurd (
        let same : set_links_disabled fails jobs job_id true ≡ (err job_not_found, jobs) =
          rw (set_links_disabled, up, missing) refl in
        let bad : err job_not_found ≡ ok tt =
          ap (λ (x : Result JobRepoError (Unit {0}) × List Job). x.0) (sym same ∙ h) in
        cc)
    | inr there ↦
        let same : set_links_disabled fails jobs job_id true
            ≡ (ok tt, update_where (has_id job_id) (λ j. record j { links_disabled = 1 }) jobs) =
          rw (set_links_disabled, up, there) refl in
        subst (λ rows. IsClosed rows job_id) (ap (λ x. x.1) (sym same ∙ h))
          (update_where-IsClosed jobs job_id)
  ]
]

switch_of-open :
    (v : Visit) (jobs : List Job) (job_id : Text)
    → v.is_wired ≡ true
    → switch_of v jobs job_id ≡ ok tt
    → links_disabled_of v.job_fails jobs job_id ≡ ok false
unfolding switch_of
switch_of-open v jobs job_id wired h =
    elim (Result-cases (links_disabled_of v.job_fails jobs job_id)) [
      | inr (e, bad) ↦ absurd (
          let same : switch_of v jobs job_id ≡ err not_there = rw (switch_of, wired, bad) refl in
          cc)
      | inl (true, off) ↦ absurd (
          let same : switch_of v jobs job_id ≡ err link_disabled =
            rw (switch_of, wired, off) refl in
          cc)
      | inl (false, on) ↦ on
    ]

check_links-open :
    (req : Request) (shop : Shop) (job_id : Text)
    → req.is_wired ≡ true
    → check_links req shop job_id ≡ ok tt
    → links_disabled_of req.job_fails shop.jobs job_id ≡ ok false
unfolding check_links
check_links-open req shop job_id wired h =
    elim (Result-cases (links_disabled_of req.job_fails shop.jobs job_id)) [
      | inr (e, bad) ↦ absurd (
          let same : check_links req shop job_id ≡ err invalid_token =
            rw (check_links, wired, bad) refl in
          cc)
      | inl (true, off) ↦ absurd (
          let same : check_links req shop job_id ≡ err shut_links =
            rw (check_links, wired, off) refl in
          cc)
      | inl (false, on) ↦ on
    ]

-- What resolves has an open switch.
resolve-open :
    (signer : Signer) (v : Visit) (assets : List Asset) (jobs : List Job) (tok : Text)
    (purpose : Purpose) (a : Asset)
    → resolve signer v assets jobs tok purpose ≡ ok a
    → switch_of v jobs a.job_id ≡ ok tt
unfolding resolve
resolve-open signer v assets jobs tok purpose a h = elim (Bool-cases (is_empty (trim_space tok))) [
  | inl blank ↦ absurd (
      let same : resolve signer v assets jobs tok purpose ≡ err not_there =
        rw (resolve, blank) refl in
      cc)
  | inr filled ↦ elim (Result-cases (signer.verify v.now (purpose_text purpose) tok)) [
    | inr (e, bad) ↦ absurd (
        let same : resolve signer v assets jobs tok purpose ≡ err (token_error e) =
          rw (resolve, filled, bad) refl in
        cc)
    | inl (subject, good) ↦ elim (Result-cases (load_asset v assets (want_kind purpose) subject)) [
      | inr (e, bad) ↦ absurd (
          let same : resolve signer v assets jobs tok purpose ≡ err e =
            rw (resolve, filled, good, bad) refl in
          cc)
      | inl (b, loaded) ↦ elim (Result-cases (switch_of v jobs b.job_id)) [
        | inr (e, bad) ↦ absurd (
            let same : resolve signer v assets jobs tok purpose ≡ err e =
              rw (resolve, filled, good, loaded, bad) refl in
            cc)
        | inl (u, open_switch) ↦
            let same : resolve signer v assets jobs tok purpose ≡ ok b =
              rw (resolve, filled, good, loaded, open_switch) refl in
            let is_it : b ≡ a = cc in
            subst (λ (x : Asset). switch_of v jobs x.job_id ≡ ok tt) is_it open_switch
      ]
    ]
  ]
]

resolve_preview-open :
    (s : PaymentService) (req : Request) (shop : Shop) (tok : Text) (pa oa : Asset)
    → resolve_preview s req shop tok ≡ ok (pa, oa)
    → check_links req shop pa.job_id ≡ ok tt
unfolding resolve_preview
resolve_preview-open s req shop tok pa oa h = elim (Result-cases (load_preview s req shop tok)) [
  | inr (e, bad) ↦
      absurd
        (let same : resolve_preview s req shop tok ≡ err e = rw (resolve_preview, bad) refl in cc)
  | inl (b, loaded) ↦ elim (Result-cases (check_links req shop b.job_id)) [
    | inr (e, bad) ↦ absurd (
        let same : resolve_preview s req shop tok ≡ err e =
          rw (resolve_preview, loaded, bad) refl in
        cc)
    | inl (u, open_switch) ↦ elim (Result-cases (load_original req shop b.job_id)) [
      | inr (e, bad) ↦ absurd (
          let same : resolve_preview s req shop tok ≡ err e =
            rw (resolve_preview, loaded, open_switch, bad) refl in
          cc)
      | inl (c, found) ↦
          let same : resolve_preview s req shop tok ≡ ok (b, c) =
            rw (resolve_preview, loaded, open_switch, found) refl in
          let pair : (b, c) ≡ (pa, oa) = cc in
          subst (λ (x : Asset). check_links req shop x.job_id ≡ ok tt)
            (ap (λ (x : Asset × Asset). x.0) pair) open_switch
    ]
  ]
]

-- Only a written SetLinksDisabled makes SetLinks answer 204.
switched-written :
    (o : Order) (d d' : Desk) (job_id : Text) (enabled : Bool)
    (written : Result JobRepoError (Unit {0}) × List Job)
    → switched o d job_id enabled written ≡ (204, d')
    → written ≡ (ok tt, d'.works.jobs)
unfolding switched note
switched-written o d d' job_id enabled (err e, jobs) h =
    let bad : 500 ≡ 204 = ap (λ (x : ℕ × Desk). x.0) h in absurd (omega (arith, bad))
switched-written o d d' job_id enabled (ok u, jobs) h = λ i. (ok tt, (h i).1.works.jobs)

-- What switch_links leaves when it answers 204.
switch_links-IsClosed :
    (o : Order) (d d' : Desk) (job_id : Text)
    → switch_links o d job_id false ≡ (204, d')
    → IsClosed d'.works.jobs job_id
unfolding switch_links
switch_links-IsClosed o d d' job_id h =
    set_links_disabled-IsClosed o.job.job_fails d.works.jobs d'.works.jobs job_id (
      switched-written o d d' job_id false
        (set_links_disabled o.job.job_fails d.works.jobs job_id true) h)

-- Let SetLinks switch the links of a job off. Then no token resolves to a file of that job on the
-- public routes, for any purpose and at any instant, and no preview token of that job resolves in
-- the payment service, as long as the tables stay as they are and the switch is wired.
pub switch_links_closes :
    (o : Order) (d d' : Desk) (job_id tok : Text) (signer : Signer) (v : Visit) (purpose : Purpose)
    (s : PaymentService) (req : Request) (shop : Shop)
    → v.is_wired ≡ true
    → req.is_wired ≡ true
    → shop.jobs ≡ d'.works.jobs
    → switch_links o d job_id false ≡ (204, d')
    → ((a : Asset)
        → resolve signer v d'.works.assets d'.works.jobs tok purpose ≡ ok a
        → a.job_id ≢ job_id)
      × ((pa oa : Asset) → resolve_preview s req shop tok ≡ ok (pa, oa) → pa.job_id ≢ job_id)
switch_links_closes o d d' job_id tok signer v purpose s req shop v_wired r_wired same_jobs off =
    let closed = switch_links-IsClosed o d d' job_id off in
    (
      (λ a found same. links_disabled_of-IsClosed v.job_fails d'.works.jobs job_id closed (
          switch_of-open v d'.works.jobs job_id v_wired (
            subst (λ id. switch_of v d'.works.jobs id ≡ ok tt) same
              (resolve-open signer v d'.works.assets d'.works.jobs tok purpose a found)))),
      (λ pa oa found same.
          links_disabled_of-IsClosed req.job_fails shop.jobs job_id
            (subst (λ rows. IsClosed rows job_id) (sym same_jobs) closed)
            (check_links-open req shop job_id r_wired (
              subst (λ id. check_links req shop id ≡ ok tt) same
                (resolve_preview-open s req shop tok pa oa found)))),
    )
