-- ===== src/Job/Claim.antt =====
-- ClaimPending of internals/app/job/repo.go: what one claim takes, and that two do not collide.
use mathlib.Core.Path.{subst}
use sade_safe_media_delivery.Base.{
  All, All-intro, All-map, All-take, All-zip, Bool, Bool-cases, List, Option-cases, Text, Unique,
  [], ap, arith, contains, contains-All, count_where-contains, count_where-eq-length, eq_of_str_eq,
  false, find_row, find_row-All, find_row-Unique, find_row-holds, find_row-update_where_if,
  if◌then◌else◌, inl, inr, length, length-take, ltb, map, ok, refl, select, select-All,
  select-keeps-All, some, sort_by, sort_by-All, sym, true, update_where, update_where-All,
  update_where-Unique, ℕ, ◌∙◌, ◌∷◌, ◌≡◌, ◌≢◌, ◌≤◌, ◌⊎◌,
}
use sade_safe_media_delivery.Job.{Job, processing}
use sade_safe_media_delivery.Job.Repo.{
  JobOutage, claim, claim_pending, claimed, eligible_ids, has_id, is_eligible, scan_claimed,
  scanned,
}
use sade_safe_media_delivery.Worker.{second}

-- The primary key of the jobs table.
abbrev pub UniqueJobs : List Job → Type 0
UniqueJobs = Unique (λ j. j.id)

-- There is an eligible row under the id.
abbrev HasEligible : List Job → ℕ → Text → Type 0
HasEligible jobs now id =
    (j : Job) × (find_row (has_id id) jobs ≡ some j) × (is_eligible now j ≡ true)

All-of-map :
    (P : Text → Type 0) (jobs : List Job) → All (λ j. P j.id) jobs → All P (map (λ j. j.id) jobs)
All-of-map P [] h = tt
All-of-map P (j ∷ jobs) h = (h.0, All-of-map P jobs h.1)

length-map : (f : Job → Job) (jobs : List Job) → length (map f jobs) ≡ length jobs
length-map f [] = refl
length-map f (j ∷ jobs) = omega (arith, length-map f jobs)

-- Every id of the inner SELECT is that of an eligible row.
eligible_ids-HasEligible :
    (limit now : ℕ) (jobs : List Job)
    → UniqueJobs jobs
    → All (HasEligible jobs now) (eligible_ids limit now jobs)
unfolding eligible_ids
eligible_ids-HasEligible limit now jobs u =
    All-take (HasEligible jobs now) limit (map (λ j. j.id) sorted) (
      All-of-map (HasEligible jobs now) sorted (
        sort_by-All (λ j. HasEligible jobs now j.id) earlier rows
          (All-zip (λ j. find_row (has_id j.id) jobs ≡ some j) (λ j. is_eligible now j ≡ true)
            (λ j. HasEligible jobs now j.id) (λ j found el. (j, found, el)) rows
            (select-keeps-All (λ j. find_row (has_id j.id) jobs ≡ some j) (is_eligible now) jobs
              (find_row-Unique (λ j. j.id) jobs u))
            (select-All (is_eligible now) jobs))))
  where
    earlier : Job → Job → Bool
    earlier a b = ltb a.created_at b.created_at

    rows : List Job
    rows = select (is_eligible now) jobs

    sorted : List Job
    sorted = sort_by earlier rows

-- The limit that the statement gets.
abbrev pub at_least_one : ℕ → ℕ
at_least_one limit = if ltb limit 1 then 1 else limit

claim-result :
    (fails : JobOutage) (jobs : List Job) (limit now : ℕ) (batch : List Job)
    → (claim_pending fails jobs limit now).0 ≡ ok batch
    → let ids = eligible_ids (at_least_one limit) now jobs in
      (batch ≡ map (λ j. scanned (claimed now j)) (select (λ j. contains ids j.id) jobs))
      × ((claim_pending fails jobs limit now).1
          ≡ update_where (λ j. contains ids j.id) (claimed now) jobs)
unfolding claim_pending
claim-result fails jobs limit now batch h = ground arith

-- The table after a claim, whatever it answers.
claim-table :
    (fails : JobOutage) (jobs : List Job) (limit now : ℕ)
    → ((claim_pending fails jobs limit now).1 ≡ jobs)
      ⊎ ((claim_pending fails jobs limit now).1
          ≡ update_where
              (λ j. contains (eligible_ids (at_least_one limit) now jobs) j.id)
              (claimed now)
              jobs)
unfolding claim_pending
claim-table fails jobs limit now = elim (Bool-cases (fails claim)) [
  | inl down ↦ inl (rw (claim_pending, down) refl)
  | inr up ↦ elim (Bool-cases (fails scan_claimed)) [
    | inl torn ↦ inr (rw (claim_pending, up, torn) refl)
    | inr whole ↦ inr (rw (claim_pending, up, whole) refl)
  ]
]

-- A claimed row is an eligible row of the table, with one attempt more.
abbrev pub ClaimedFrom : List Job → ℕ → Job → Type 0
ClaimedFrom jobs now c =
    (j : Job) × (find_row (has_id c.id) jobs ≡ some j)
    × (is_eligible now j ≡ true)
    × (c ≡ scanned (claimed now j))

All-map-claimed :
    (P : Job → Type 0) (f : Job → Job) (rows : List Job)
    → All (λ j. P (f j)) rows
    → All P (map f rows)
All-map-claimed P f [] h = tt
All-map-claimed P f (j ∷ rows) h = (h.0, All-map-claimed P f rows h.1)

length-claim :
    (limit now : ℕ) (jobs : List Job)
    → UniqueJobs jobs
    → let ids = eligible_ids limit now jobs in
      length (map (λ j. scanned (claimed now j)) (select (λ j. contains ids j.id) jobs)) ≤ limit
unfolding eligible_ids
length-claim limit now jobs u = omega (
  arith,
  length-map (λ j. scanned (claimed now j)) (select (λ j. contains ids j.id) jobs),
  count_where-eq-length (λ (j : Job). contains ids j.id) jobs,
  count_where-contains (λ (j : Job). j.id) ids jobs u,
  length-take limit (
      map (λ (j : Job). j.id)
        (sort_by (λ (a b : Job). ltb a.created_at b.created_at) (select (is_eligible now) jobs))),
)
  where
    ids : List Text
    ids = eligible_ids limit now jobs

ClaimedFrom-claim :
    (limit now : ℕ) (jobs : List Job)
    → UniqueJobs jobs
    → let ids = eligible_ids limit now jobs in
      All
        (ClaimedFrom jobs now)
        (map (λ j. scanned (claimed now j)) (select (λ j. contains ids j.id) jobs))
unfolding scanned claimed
ClaimedFrom-claim limit now jobs u =
    All-map-claimed (ClaimedFrom jobs now) (λ j. scanned (claimed now j)) rows
      (All-zip (λ j. find_row (has_id j.id) jobs ≡ some j) (λ j. contains ids j.id ≡ true)
        (λ j. ClaimedFrom jobs now (scanned (claimed now j)))
        (λ j found listed.
          let (k, found', el) =
            contains-All (HasEligible jobs now) ids j.id (eligible_ids-HasEligible limit now jobs u)
              listed in
          let same : k ≡ j = cc in (j, found, subst (λ r. is_eligible now r ≡ true) same el, refl))
        rows
        (select-keeps-All (λ j. find_row (has_id j.id) jobs ≡ some j) (λ j. contains ids j.id) jobs
          (find_row-Unique (λ j. j.id) jobs u))
        (select-All (λ j. contains ids j.id) jobs))
  where
    ids : List Text
    ids = eligible_ids limit now jobs

    rows : List Job
    rows = select (λ (j : Job). contains ids j.id) jobs

-- What a claim does to the row of an id: nothing, or it was eligible and is claimed.
abbrev pub LeftOrClaimed : List Job → List Job → ℕ → Text → Type 0
LeftOrClaimed jobs jobs' now id =
    (find_row (has_id id) jobs' ≡ find_row (has_id id) jobs)
    ⊎ ((j : Job) × (find_row (has_id id) jobs ≡ some j)
        × (is_eligible now j ≡ true)
        × (find_row (has_id id) jobs' ≡ some (claimed now j)))

claim-LeftOrClaimed :
    (limit now : ℕ) (jobs : List Job) (id : Text)
    → UniqueJobs jobs
    → LeftOrClaimed jobs
        (update_where (λ j. contains (eligible_ids limit now jobs) j.id) (claimed now) jobs)
        now
        id
unfolding claimed
claim-LeftOrClaimed limit now jobs id u =
    let ids = eligible_ids limit now jobs in
    let listed = λ (j : Job). contains ids j.id in
    let after =
      find_row-update_where_if (λ (j : Job). j.id) (claimed now) (λ j. refl) id listed jobs in
    elim (Option-cases (find_row (has_id id) jobs)) [
      | inl missing ↦ inl (after ∙ rw missing refl)
      | inr (j, found) ↦ elim (Bool-cases (listed j)) [
        | inr unlisted ↦ inl (after ∙ rw (found, unlisted) refl)
        | inl taken ↦
            let (k, found', el) =
              contains-All (HasEligible jobs now) ids j.id
                (eligible_ids-HasEligible limit now jobs u) taken in
            let own = eq_of_str_eq j.id id (find_row-holds (has_id id) jobs j found) in
            let here = subst (λ i. find_row (has_id i) jobs ≡ some k) own found' in
            let same : k ≡ j = cc in
            inr (
              j,
              found,
              subst (λ r. is_eligible now r ≡ true) same el,
              after ∙ rw (found, taken) refl,
            )
      ]
    ]

pub claim_pending_claims :
    (fails : JobOutage) (jobs : List Job) (limit now : ℕ)
    → UniqueJobs jobs
    → let (r, jobs') = claim_pending fails jobs limit now in
      ((batch : List Job)
        → r ≡ ok batch
        → (length batch ≤ at_least_one limit) × All (ClaimedFrom jobs now) batch)
      × ((id : Text) → LeftOrClaimed jobs jobs' now id)
claim_pending_claims fails jobs limit now u = (
  λ batch h.
      let same = sym (claim-result fails jobs limit now batch h).0 in
      (
        subst (λ rows. length rows ≤ at_least_one limit) same
            (length-claim (at_least_one limit) now jobs u),
        subst (All (ClaimedFrom jobs now)) same (ClaimedFrom-claim (at_least_one limit) now jobs u),
      ),
  λ id. elim (claim-table fails jobs limit now) [
    | inl same ↦ inl (ap (find_row (has_id id)) same)
    | inr taken ↦
        subst (λ t. LeftOrClaimed jobs t now id) (sym taken)
          (claim-LeftOrClaimed (at_least_one limit) now jobs id u)
  ],
)

-- The rows of a batch have ids of the inner SELECT.
claim-listed :
    (limit now : ℕ) (jobs : List Job)
    → let ids = eligible_ids limit now jobs in
      All
        (λ c. contains ids c.id ≡ true)
        (map (λ j. scanned (claimed now j)) (select (λ j. contains ids j.id) jobs))
unfolding scanned claimed
claim-listed limit now jobs =
    let ids = eligible_ids limit now jobs in
    All-map-claimed (λ c. contains ids c.id ≡ true) (λ j. scanned (claimed now j))
      (select (λ j. contains ids j.id) jobs) (select-All (λ j. contains ids j.id) jobs)

-- After a claim, the rows that it took are processing.
claim-processing :
    (ids : List Text) (now : ℕ) (jobs : List Job)
    → All
        (λ j. contains ids j.id ≡ true → j.status ≡ processing)
        (update_where (λ j. contains ids j.id) (claimed now) jobs)
unfolding claimed
claim-processing ids now jobs =
    update_where-All (λ j. Unit {0}) (λ j. contains ids j.id ≡ true → j.status ≡ processing)
      (λ j. contains ids j.id) (claimed now) (λ j e h q. refl) (λ j e h q. cc (e, q)) jobs
      (All-intro (λ j. Unit {0}) (λ j. tt) jobs)

eligible-pending : (now : ℕ) (j : Job) → is_eligible now j ≡ true → j.status ≢ processing
unfolding is_eligible
eligible-pending now j el e = ground arith

claim-Unique :
    (ids : List Text) (now : ℕ) (jobs : List Job)
    → UniqueJobs jobs
    → UniqueJobs (update_where (λ j. contains ids j.id) (claimed now) jobs)
unfolding claimed
claim-Unique ids now jobs u =
    update_where-Unique (λ j. j.id) (λ j. contains ids j.id) (claimed now) jobs (λ j. refl) u

-- Two claims, one after the other by whatever workers and at whatever times, never hand out the same
-- job: no row of the second batch has the id of a row of the first.
pub claims_disjoint :
    (fails fails' : JobOutage) (jobs : List Job) (limit limit' now later : ℕ)
    (first second : List Job)
    → UniqueJobs jobs
    → (claim_pending fails jobs limit now).0 ≡ ok first
    → (claim_pending fails' (claim_pending fails jobs limit now).1 limit' later).0 ≡ ok second
    → All (λ c. contains (map (λ j. j.id) first) c.id ≡ false) second
claims_disjoint fails fails' jobs limit limit' now later first second u one two =
    All-map (ClaimedFrom jobs' later) (λ c. contains (map (λ j. j.id) first) c.id ≡ false) apart
      second ((claim_pending_claims fails' jobs' limit' later u').0 second two).1
  where
    ids : List Text
    ids = eligible_ids (at_least_one limit) now jobs

    jobs' : List Job
    jobs' = (claim_pending fails jobs limit now).1

    table : jobs' ≡ update_where (λ (j : Job). contains ids j.id) (claimed now) jobs
    table = (claim-result fails jobs limit now first one).1

    u' : UniqueJobs jobs'
    u' = subst UniqueJobs (sym table) (claim-Unique ids now jobs u)

    listed : All (λ (i : Text). contains ids i ≡ true) (map (λ (j : Job). j.id) first)
    listed =
        All-of-map (λ i. contains ids i ≡ true) first
          (subst (All (λ (c : Job). contains ids c.id ≡ true))
            (sym (claim-result fails jobs limit now first one).0)
            (claim-listed (at_least_one limit) now jobs))

    apart :
        (c : Job)
        → ClaimedFrom jobs' later c
        → contains (map (λ (j : Job). j.id) first) c.id ≡ false
    apart c (j, found, el, e) = elim (Bool-cases (contains (map (λ (k : Job). k.id) first) c.id)) [
      | inr no_such ↦ no_such
      | inl again ↦
          let taken : contains ids c.id ≡ true =
            contains-All (λ i. contains ids i ≡ true) (map (λ (k : Job). k.id) first) c.id listed
              again in
          let busy : contains ids j.id ≡ true → j.status ≡ processing =
            find_row-All (λ k. contains ids k.id ≡ true → k.status ≡ processing) (has_id c.id) jobs'
              j
              (subst (All (λ (k : Job). contains ids k.id ≡ true → k.status ≡ processing))
                (sym table) (claim-processing ids now jobs))
              found in
          let same : j.id ≡ c.id =
            eq_of_str_eq j.id c.id (find_row-holds (has_id c.id) jobs' j found) in
          absurd (eligible-pending later j el (busy (rw same taken)))
    ]

-- The row of a job that a claim handed out, before and after.
pub handed_out :
    (fails : JobOutage) (jobs batch : List Job) (limit now : ℕ) (id : Text) (c : Job)
    → UniqueJobs jobs
    → (claim_pending fails jobs limit now).0 ≡ ok batch
    → find_row (has_id id) batch ≡ some c
    → (j : Job) × (find_row (has_id id) jobs ≡ some j)
      × (is_eligible now j ≡ true)
      × (c ≡ scanned (claimed now j))
      × (c.id ≡ id)
      × (find_row (has_id id) (claim_pending fails jobs limit now).1 ≡ some (claimed now j))
unfolding claimed
handed_out fails jobs batch limit now id c u h got =
    let ids = eligible_ids (at_least_one limit) now jobs in
    let listed = λ (j : Job). contains ids j.id in
    let result = claim-result fails jobs limit now batch h in
    let own = eq_of_str_eq c.id id (find_row-holds (has_id id) batch c got) in
    let (j, found', el, from) =
      find_row-All (ClaimedFrom jobs now) (has_id id) batch c
        ((claim_pending_claims fails jobs limit now u).0 batch h).1 got in
    let found = subst (λ i. find_row (has_id i) jobs ≡ some j) own found' in
    let taken : contains ids c.id ≡ true =
      find_row-All (λ r. contains ids r.id ≡ true) (has_id id) batch c
        (subst (All (λ (r : Job). contains ids r.id ≡ true)) (sym result.0)
          (claim-listed (at_least_one limit) now jobs))
        got in
    let same_id : c.id ≡ j.id = ap (λ (r : Job). r.id) from ∙ unfold scanned in refl in
    let hit : listed j ≡ true = subst (λ i. contains ids i ≡ true) same_id taken in
    (
      j,
      found,
      el,
      from,
      own,
      ap (find_row (has_id id)) result.1
          ∙ find_row-update_where_if (λ (r : Job). r.id) (claimed now) (λ r. refl) id listed jobs
          ∙ rw (found, hit) refl,
    )
