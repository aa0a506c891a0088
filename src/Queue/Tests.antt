-- ===== src/Queue/Tests.antt =====
-- The job queue (voclyp/queueing.py) on a queue of two jobs.
use voclyp_dev.Prelude.{◌≡◌, refl, some, [], ◌∷◌, arith, find, ◌==◌}
use voclyp_dev.Queue.{Payload, pending, Job, JobQueue, Lease, init, enqueue, dequeue}
use voclyp_dev.Queue.Budget.{IsValid, dequeued, enqueued, Reach, here, next, Reach-IsValid}

abbrev payload : Payload
payload = record {
  audio_paths = "a.wav" ∷ [];
  industry = "auto";
  agent_id = "a1";
  store_id = "s1";
  customer_name = "";
}

abbrev one_job : JobQueue
one_job = (enqueue 1 "t1" "c1" payload (init 3)).0

abbrev two_jobs : JobQueue
two_jobs = (enqueue 2 "t1" "c2" payload one_job).0

abbrev first_lease : Lease
first_lease = record {
  id = 1;
  tenant_id = "t1";
  conversation_id = "c1";
  payload = payload;
  attempts = 1;
}

reached : Reach (init 3) two_jobs
reached =
    next (next here (enqueued 1 "t1" "c1" payload (init 3))) (enqueued 2 "t1" "c2" payload one_job)

two_jobs-IsValid : IsValid two_jobs
two_jobs-IsValid = Reach-IsValid (omega arith) reached

leases_first : (dequeue 3 two_jobs).1 ≡ some first_lease
unfolding dequeue enqueue
leases_first = refl

Reach-IsValid_example : IsValid (dequeue 3 two_jobs).0
Reach-IsValid_example = Reach-IsValid (omega arith) (next reached (dequeued 3 two_jobs))

abbrev second : Job
second = record {
  id = 2;
  tenant_id = "t1";
  conversation_id = "c2";
  payload = payload;
  status = pending;
  attempts = 0;
  created_at = 2;
  updated_at = 2;
}

has_second : find (λ x. x.id == 2) two_jobs.jobs ≡ some second
unfolding enqueue
has_second = refl
