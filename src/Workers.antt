-- ===== src/Workers.antt =====
-- src/workers.ts: workers that take jobs from one table. Each holds the lock of the row it works on until
-- its transaction ends, and the others skip it; what the workers do interleaves in any order. `id` is a
-- bigint.
pub mod Tests
pub mod Pool
use nodejs_advanced_homework.Prelude.{
  ℕ, zero, suc, ◌+◌, ◌≡◌, ◌<◌, Bool, true, false, not, ◌&&◌, Option, none, some, List, [], ◌∷◌,
  ◌++◌, String, ◌==◌, leb, if◌then◌else◌, any, find?, update_where, sort_by,
}
use nodejs_advanced_homework.Prelude.Json.{Json}

pub data JobStatus : Type 0 where
  pending finished : JobStatus

pub record Job : Type 0 where
  pub id : ℕ
  pub type : String
  pub payload : Json
  pub order_id : Option String
  pub status : JobStatus
  pub processed : ℕ
  pub worker_id : Option String
  pub processed_at : Option ℕ

-- A worker of the pool: `claimed` is the job whose row its transaction has locked.
pub record Worker : Type 0 where
  pub worker_id : String
  pub processed : ℕ
  pub idle_polls : ℕ
  pub claimed : Option ℕ

pub record WorkerPool : Type 0 where
  pub jobs : List Job
  pub workers : List Worker

abbrev pub is_pending : Job → Bool
is_pending job = elim job.status [ pending ↦ true | finished ↦ false ]

abbrev pub holds : ℕ → Worker → Bool
holds id worker = elim worker.claimed [ none ↦ false | some k ↦ k == id ]

-- `SELECT … WHERE status = 'pending' ORDER BY id FOR UPDATE SKIP LOCKED LIMIT 1`
unfoldable pub claim_next_job : List Worker → List Job → Option Job
claim_next_job workers jobs =
    find? (λ job. is_pending job && not (any (holds job.id) workers))
      (sort_by (λ a b. leb a.id b.id) jobs)

unfoldable pub complete_job : ℕ → String → ℕ → List Job → List Job
complete_job id worker_id now jobs =
    update_where (λ job. job.id == id)
      (λ job. record job {
        status = finished;
        processed = suc job.processed;
        worker_id = some worker_id;
        processed_at = some now;
      })
      jobs

-- One worker's turn: a poll that finds a job, one that finds none, the end of its work, and a
-- transaction that throws, which ends the worker.
pub data Step (idle_polls_before_exit : ℕ) : WorkerPool → WorkerPool → Type 0 where
  claims :
      (jobs : List Job) (before after : List Worker) (w : Worker) (job : Job)
      → w.claimed ≡ none
      → w.idle_polls < idle_polls_before_exit
      → claim_next_job (before ++ w ∷ after) jobs ≡ some job
      → Step idle_polls_before_exit
          (record { jobs = jobs; workers = before ++ w ∷ after })
          (record { jobs = jobs; workers = before ++ (record w { claimed = some job.id }) ∷ after })
  idles :
      (jobs : List Job) (before after : List Worker) (w : Worker)
      → w.claimed ≡ none
      → w.idle_polls < idle_polls_before_exit
      → claim_next_job (before ++ w ∷ after) jobs ≡ none
      → Step idle_polls_before_exit
          (record { jobs = jobs; workers = before ++ w ∷ after })
          (record {
            jobs = jobs;
            workers = before ++ (record w { idle_polls = suc w.idle_polls }) ∷ after;
          })
  completes :
      (jobs : List Job) (before after : List Worker) (w : Worker) (id now : ℕ)
      → w.claimed ≡ some id
      → Step idle_polls_before_exit
          (record { jobs = jobs; workers = before ++ w ∷ after })
          (record {
            jobs = complete_job id w.worker_id now jobs;
            workers =
                before
                ++ (record w { claimed = none; idle_polls = 0; processed = suc w.processed })
                  ∷ after;
          })
  throws :
      (jobs : List Job) (before after : List Worker) (w : Worker)
      → Step idle_polls_before_exit
          (record { jobs = jobs; workers = before ++ w ∷ after })
          (record {
            jobs = jobs;
            workers =
                before
                ++ (record w { claimed = none; idle_polls = idle_polls_before_exit }) ∷ after;
          })

pub data Steps (idle_polls_before_exit : ℕ) : WorkerPool → WorkerPool → Type 0 where
  stays : (p : WorkerPool) → Steps idle_polls_before_exit p p
  moves :
      (p q r : WorkerPool)
      → Step idle_polls_before_exit p q
      → Steps idle_polls_before_exit q r
      → Steps idle_polls_before_exit p r
