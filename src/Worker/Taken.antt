-- ===== src/Worker/Taken.antt =====
-- A job that a claim hands out, among whatever else happens to the jobs table (internals/worker, and
-- internals/app/job/repo.go).
use mathlib.Core.Path.{subst}
use sade_safe_media_delivery.Base.{List, Text, arith, find_row, ok, some, ℕ, ◌∙◌, ◌≡◌}
use sade_safe_media_delivery.Job.{Job, pending, status_eq}
use sade_safe_media_delivery.Job.Claim.{UniqueJobs, handed_out}
use sade_safe_media_delivery.Job.Repo.{
  JobOutage, claim_pending, claimed, has_id, is_eligible, scanned,
}

-- Since the table `jobs`, other rows may have changed; then a claim handed out the job of the id; and other
-- rows may have changed again, up to the table `between`.
pub record Taken (id : Text) (jobs between : List Job) : Type 0 where
  pub before : List Job
  pub is_before : find_row (has_id id) before ≡ find_row (has_id id) jobs
  pub is_unique : UniqueJobs before
  pub fails : JobOutage
  pub limit : ℕ
  pub claimed_at : ℕ
  pub batch : List Job
  pub is_batch : (claim_pending fails before limit claimed_at).0 ≡ ok batch
  pub c : Job
  pub is_handed_out : find_row (has_id id) batch ≡ some c
  pub is_between :
      find_row (has_id id) between
      ≡ find_row (has_id id) (claim_pending fails before limit claimed_at).1

-- The row that was taken was waiting, and is processing with one attempt more.
pub taken_row :
    (id : Text) (jobs between : List Job) (j : Job) (t : Taken id jobs between)
    → find_row (has_id id) jobs ≡ some j
    → (j.status ≡ pending)
      × (t.c ≡ scanned (claimed t.claimed_at j))
      × (t.c.id ≡ id)
      × (find_row (has_id id) between ≡ some (claimed t.claimed_at j))
taken_row id jobs between j t found =
    let (k, found', el, from, own, after) =
      handed_out t.fails t.before t.batch t.limit t.claimed_at id t.c t.is_unique t.is_batch
        t.is_handed_out in
    let there : find_row (has_id id) t.before ≡ some j = t.is_before ∙ found in
    let same : k ≡ j = cc in
    (
      unfold is_eligible status_eq in ground (arith, el, same),
      subst (λ r. t.c ≡ scanned (claimed t.claimed_at r)) same from,
      own,
      subst (λ r. find_row (has_id id) between ≡ some (claimed t.claimed_at r)) same
          (t.is_between ∙ after),
    )
