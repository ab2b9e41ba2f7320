-- ===== src/Examples/Claiming.antt =====
-- Claims of internals/app/job at a concrete table.
use sade_safe_media_delivery.Base.{
  All, List, String, [], arith, codes, contains, count_where, false, refl, select, sort_by, str_eq,
  str_eq_iff, update_where, ℕ, ◌∷◌, ◌≡◌,
}
use sade_safe_media_delivery.Job.{Job, pending, video}
use sade_safe_media_delivery.Job.Claim.{UniqueJobs, claims_disjoint}
use sade_safe_media_delivery.Job.Repo.{JobOutage, claim_pending, claimed, scanned}

abbrev pub job_works : JobOutage
job_works s = false

abbrev pub job_row : String → ℕ → Job
job_row id created = record {
  id = codes id;
  user_id = codes "u1";
  status = pending;
  media_type = video;
  recipient_email = codes "r@example.com";
  watermark_kind = codes "text";
  watermark_text = [];
  watermark_opts = [];
  attempts = 0;
  error = [];
  next_attempt_at = 0;
  created_at = created;
  updated_at = created;
  links_disabled = 0;
}

abbrev queue : List Job
queue = job_row "b" 2 ∷ job_row "a" 1 ∷ []

queue-Unique : UniqueJobs queue
unfolding count_where
queue-Unique k = ground (arith, str_eq_iff (codes "b") k, str_eq_iff (codes "a") k)

claims_disjoint_example :
    All (λ c. contains (codes "a" ∷ []) c.id ≡ false) (scanned (claimed 6 (job_row "b" 2)) ∷ [])
unfolding claim_pending select update_where sort_by contains str_eq
claims_disjoint_example =
    claims_disjoint job_works job_works queue 1 1 5 6 (scanned (claimed 5 (job_row "a" 1)) ∷ [])
      (scanned (claimed 6 (job_row "b" 2)) ∷ []) queue-Unique refl refl
