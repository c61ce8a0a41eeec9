-- ===== src/Workers/Tests.antt =====
-- src/workers.ts: two workers and one job.
use nodejs_advanced_homework.Prelude.{refl, inl, [], none, ◌∷◌, arith, some, String}
use nodejs_advanced_homework.Prelude.Json.{null}
use nodejs_advanced_homework.Workers.{
  stays, completes, idles, claims, moves, complete_job, pending, claim_next_job, finished, Job,
  Worker, WorkerPool, Steps,
}
use nodejs_advanced_homework.Workers.Pool.{IsPool, Steps-IsPool}

abbrev receipt_job : Job
receipt_job = record {
  id = 1;
  type = "send_receipt";
  payload = null;
  order_id = some "41";
  status = pending;
  processed = 0;
  worker_id = none;
  processed_at = none;
}

abbrev idle : String → Worker
idle id = record { worker_id = id; processed = 0; idle_polls = 0; claimed = none }

abbrev waiting : WorkerPool
waiting = record { jobs = receipt_job ∷ []; workers = idle "worker-1" ∷ idle "worker-2" ∷ [] }

abbrev worked : WorkerPool
worked = record {
  jobs =
      (record receipt_job {
        status = finished;
        processed = 1;
        worker_id = some "worker-1";
        processed_at = some 9;
      })
      ∷ [];
  workers =
      (record (idle "worker-1") { processed = 1 })
      ∷ (record (idle "worker-2") { idle_polls = 1 })
      ∷ [];
}

abbrev busy : Worker
busy = record (idle "worker-1") { claimed = some 1 }

one_claims_one_idles : Steps 3 waiting worked
unfolding claim_next_job complete_job
one_claims_one_idles =
    moves waiting (record { jobs = receipt_job ∷ []; workers = busy ∷ idle "worker-2" ∷ [] }) worked
      (claims (receipt_job ∷ []) [] (idle "worker-2" ∷ []) (idle "worker-1") receipt_job refl
        (omega arith) refl)
      (moves _
        (record {
          jobs = receipt_job ∷ [];
          workers = busy ∷ (record (idle "worker-2") { idle_polls = 1 }) ∷ [];
        })
        worked (idles (receipt_job ∷ []) (busy ∷ []) [] (idle "worker-2") refl (omega arith) refl)
        (moves _ worked worked
          (completes (receipt_job ∷ []) [] ((record (idle "worker-2") { idle_polls = 1 }) ∷ []) busy
            1 9 refl)
          (stays worked)))

waiting-IsPool : IsPool waiting
waiting-IsPool = record {
  keyed = λ id. ground arith;
  held = λ id. ground arith;
  once = (inl (refl, refl), tt);
  tally = refl;
}

Steps-IsPool_example : IsPool worked
Steps-IsPool_example = Steps-IsPool 3 waiting worked one_claims_one_idles waiting-IsPool
