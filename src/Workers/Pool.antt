-- ===== src/Workers/Pool.antt =====
-- src/workers.ts: no job is done twice, whatever the workers' order.
use nodejs_advanced_homework.Prelude.{
  ==_iff, if◌then◌else◌, none, ap, sort_by, ==_self, leb, refl, Has-sort_by, [], sum_by-append, not,
  inr, ◌+◌, suc, arith, find?-passes, inl, Bool-cases, ◌++◌, ◌&&◌, All, count-and-le, ◌∷◌, false,
  true, ◌⊎◌, ◌==◌, String, ◌≤◌, sum_by, some, any, Has, find?, ◌≡◌, List, Bool, count, ℕ,
}
use nodejs_advanced_homework.Workers.{
  throws, moves, completes, stays, idles, Steps, claims, is_pending, finished, holds, pending,
  complete_job, claim_next_job, Job, Worker, WorkerPool, Step,
}

-- A job that is pending has not been processed; one that is done has been, once.
abbrev pub IsOnce : Job → Type 0
IsOnce job =
    ((job.status ≡ pending) × (job.processed ≡ 0)) ⊎ ((job.status ≡ finished) × (job.processed ≡ 1))

abbrev pub waits_as : ℕ → Job → Bool
waits_as id job = job.id == id && is_pending job

pub record IsPool (p : WorkerPool) : Type 0 where
  pub keyed : (id : ℕ) → count (λ (job : Job). job.id == id) p.jobs ≤ 1
  -- a job is held by one worker at most, and only while it is pending
  pub held : (id : ℕ) → count (holds id) p.workers ≤ count (waits_as id) p.jobs
  pub once : All IsOnce p.jobs
  pub tally :
      sum_by (λ (w : Worker). w.processed) p.workers ≡ sum_by (λ (j : Job). j.processed) p.jobs

find?-Has : (q : Job → Bool) (jobs : List Job) (job : Job) → find? q jobs ≡ some job → Has job jobs
find?-Has q [] job h = cc
find?-Has q (j ∷ js) job h = elim (Bool-cases (q j)) [
  | inl t ↦ inl (ground arith)
  | inr f ↦ inr (find?-Has q js job (ground arith))
]

Has-count :
    (q : Job → Bool) (jobs : List Job) (job : Job) → Has job jobs → q job ≡ true → 1 ≤ count q jobs
Has-count q [] job h t = absurd h
Has-count q (j ∷ js) job (inl e) t = ground arith
Has-count q (j ∷ js) job (inr m) t = ground (arith, Has-count q js job m t)

any-count_zero : (q : Worker → Bool) (ws : List Worker) → any q ws ≡ false → count q ws ≡ 0
any-count_zero q [] h = refl
any-count_zero q (w ∷ ws) h = ground (arith, any-count_zero q ws)

-- A job that is claimed is pending, and no one holds it.
claim_next_job-free :
    (workers : List Worker) (jobs : List Job) (job : Job)
    → claim_next_job workers jobs ≡ some job
    → (count (holds job.id) workers ≡ 0) × (1 ≤ count (waits_as job.id) jobs)
unfolding claim_next_job
claim_next_job-free workers jobs job h =
    let free =
      find?-passes (λ j. is_pending j && not (any (holds j.id) workers))
        (sort_by (λ (a b : Job). leb a.id b.id) jobs) job h in
    let there =
      Has-sort_by (λ (a b : Job). leb a.id b.id) jobs job
        (find?-Has (λ j. is_pending j && not (any (holds j.id) workers))
          (sort_by (λ (a b : Job). leb a.id b.id) jobs) job h) in
    (
      any-count_zero (holds job.id) workers (ground arith),
      Has-count (waits_as job.id) jobs job there (ground (arith, ==_self job.id)),
    )

-- What one worker's change makes of a sum over all.
sum_by-change :
    (f : Worker → ℕ) (before after : List Worker) (w v : Worker)
    → sum_by f (before ++ v ∷ after) + f w ≡ sum_by f (before ++ w ∷ after) + f v
sum_by-change f before after w v =
    omega (arith, sum_by-append f before (w ∷ after), sum_by-append f before (v ∷ after))

complete_job-keyed :
    (id k : ℕ) (w : String) (now : ℕ) (jobs : List Job)
    → count (λ (job : Job). job.id == k) (complete_job id w now jobs)
      ≡ count (λ (job : Job). job.id == k) jobs
unfolding complete_job
complete_job-keyed id k w now [] = refl
complete_job-keyed id k w now (j ∷ js) = ground (arith, complete_job-keyed id k w now js)

complete_job-waits :
    (id k : ℕ) (w : String) (now : ℕ) (jobs : List Job)
    → (id == k) ≡ false
    → count (waits_as k) (complete_job id w now jobs) ≡ count (waits_as k) jobs
unfolding complete_job
complete_job-waits id k w now [] h = refl
complete_job-waits id k w now (j ∷ js) h = ground (arith, complete_job-waits id k w now js)

complete_job-zero :
    (id : ℕ) (w : String) (now : ℕ) (jobs : List Job)
    → count (λ (job : Job). job.id == id) jobs ≡ 0
    → complete_job id w now jobs ≡ jobs
unfolding complete_job
complete_job-zero id w now [] h = refl
complete_job-zero id w now (j ∷ js) h = ground (arith, complete_job-zero id w now js)

waits-le :
    (id : ℕ) (jobs : List Job) → count (waits_as id) jobs ≤ count (λ (job : Job). job.id == id) jobs
waits-le id jobs = count-and-le (λ (job : Job). job.id == id) is_pending jobs

pending-zero : (j : Job) → IsOnce j → is_pending j ≡ true → j.processed ≡ 0
pending-zero j (inl (p, z)) h = z
pending-zero j (inr (d, z)) h = absurd (ground arith)

complete_job-once :
    (id : ℕ) (w : String) (now : ℕ) (jobs : List Job)
    → count (λ (job : Job). job.id == id) jobs ≤ 1
    → 1 ≤ count (waits_as id) jobs
    → All IsOnce jobs
    → All IsOnce (complete_job id w now jobs)
      × (sum_by (λ (j : Job). j.processed) (complete_job id w now jobs)
          ≡ suc (sum_by (λ (j : Job). j.processed) jobs))
unfolding complete_job
complete_job-once id w now [] u h a = absurd (omega arith)
complete_job-once id w now (j ∷ js) u h (o, a) = elim (Bool-cases (j.id == id)) [
  | inl t ↦
      let rest = complete_job-zero id w now js (ground arith) in
      let p : is_pending j ≡ true = ground (arith, waits-le id js) in
      let zero_so_far : j.processed ≡ 0 = pending-zero j o p in
      rw (t, rest) ((inr (refl, ap suc zero_so_far), a), omega arith)
  | inr f ↦
      let (once, sum) = complete_job-once id w now js (ground arith) (ground arith) a in
      rw f ((o, once), omega (arith, sum))
]

module _ (limit : ℕ) where
  -- The end of a worker's work, on the job that it holds.
  completes-IsPool :
      (jobs : List Job) (before after : List Worker) (w : Worker) (id now : ℕ)
      → w.claimed ≡ some id
      → IsPool (record { jobs = jobs; workers = before ++ w ∷ after })
      → IsPool (record {
        jobs = complete_job id w.worker_id now jobs;
        workers =
            before
            ++ (record w { claimed = none; idle_polls = 0; processed = suc w.processed }) ∷ after;
      })
  completes-IsPool jobs before after w id now c i =
      let v : Worker = record w { claimed = none; idle_polls = 0; processed = suc w.processed } in
      let holder : holds id w ≡ true = ground (arith, ==_self id) in
      let mine = sum_by-change (λ x. if holds id x then 1 else 0) before after w v in
      let (once, sum) =
        complete_job-once id w.worker_id now jobs (i.keyed id) (ground (arith, i.held id, mine))
          i.once in
      record {
        keyed = λ k. omega (arith, i.keyed k, complete_job-keyed id k w.worker_id now jobs);
        held = λ k.
            let change = sum_by-change (λ x. if holds k x then 1 else 0) before after w v in
            elim (Bool-cases (id == k)) [
              | inl t ↦ ground (arith, i.held k, i.keyed k, waits-le k jobs, change)
              | inr f ↦
                  ground (arith, i.held k, complete_job-waits id k w.worker_id now jobs f, change)
            ];
        once = once;
        tally =
            omega
              (arith, i.tally, sum, sum_by-change (λ (x : Worker). x.processed) before after w v);
      }

  Step-IsPool : (p q : WorkerPool) → Step limit p q → IsPool p → IsPool q
  Step-IsPool p q (claims jobs before after w job c l found) i =
      let v : Worker = record w { claimed = some job.id } in
      let (free, waiting) = claim_next_job-free (before ++ w ∷ after) jobs job found in
      record {
        keyed = i.keyed;
        held = λ k.
            let change = sum_by-change (λ x. if holds k x then 1 else 0) before after w v in
            elim (Bool-cases (job.id == k)) [
              | inl t ↦
                  let e = (==_iff job.id k).0 t in
                  ground (
                    arith,
                    change,
                    free,
                    waiting,
                    ap (λ n. count (holds n) (before ++ w ∷ after)) e,
                    ap (λ n. count (waits_as n) jobs) e,
                  )
              | inr f ↦ ground (arith, change, i.held k)
            ];
        once = i.once;
        tally =
            omega (arith, i.tally, sum_by-change (λ (x : Worker). x.processed) before after w v);
      }
  Step-IsPool p q (idles jobs before after w c l none_left) i =
      let v : Worker = record w { idle_polls = suc w.idle_polls } in
      record {
        keyed = i.keyed;
        held = λ k.
            omega
              (arith, i.held k, sum_by-change (λ x. if holds k x then 1 else 0) before after w v);
        once = i.once;
        tally =
            omega (arith, i.tally, sum_by-change (λ (x : Worker). x.processed) before after w v);
      }
  Step-IsPool p q (completes jobs before after w id now c) i =
      completes-IsPool jobs before after w id now c i
  Step-IsPool p q (throws jobs before after w) i =
      let v : Worker = record w { claimed = none; idle_polls = limit } in
      record {
        keyed = i.keyed;
        held = λ k.
            omega
              (arith, i.held k, sum_by-change (λ x. if holds k x then 1 else 0) before after w v);
        once = i.once;
        tally =
            omega (arith, i.tally, sum_by-change (λ (x : Worker). x.processed) before after w v);
      }

  -- However the workers' turns interleave, and whichever of their transactions throw: if it is so at the
  -- start, a job is done exactly once or not at all, no two workers hold the same job, and the workers
  -- together count as many jobs as were done.
  pub Steps-IsPool : (p q : WorkerPool) → Steps limit p q → IsPool p → IsPool q
  Steps-IsPool p q (stays x) i = i
  Steps-IsPool p q (moves x y z s ss) i = Steps-IsPool y z ss (Step-IsPool x y s i)
