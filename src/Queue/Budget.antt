-- ===== src/Queue/Budget.antt =====
-- The retry budget of the job queue (voclyp/queueing.py) under every interleaving of its callers.
use voclyp_dev.Prelude.{
  ℕ, ◌+◌, ◌≤◌, ◌<◌, String, ◌≡◌, refl, inl, inr, Bool-cases, Option, none, some, arith, ◌==◌, All,
  find, find_last, update, All-append, All-find, find-holds, true, ltb, ltb→lt, ◌&&◌, str_eq, subst,
}
use voclyp_dev.Prelude.Ids.{
  Ascending, Ascending-append, Ascending-update, All-update_at, find-id, find_last-id,
}
use voclyp_dev.Queue.{
  Job, JobQueue, Payload, Status, pending, leased, done, dead, is_pending, is_dead, init, enqueue,
  dequeue, complete, fail, requeue_dead, lease, with_status, rearm, oldest_pending, lease_row,
  requeue_row,
}

-- The attempts that a job of each status has behind it.
abbrev pub Budget : Status → ℕ → ℕ → Type 0
Budget pending max n = n < max
Budget leased max n = (0 < n) × (n ≤ max)
Budget done max n = n ≤ max
Budget dead max n = n ≡ max

pub record IsValid (q : JobQueue) : Type 0 where
  pub some_attempt : 0 < q.max_attempts
  pub ids : Ascending Job.id 0 q.jobs q.last_id
  pub budgets : All (λ j. Budget j.status q.max_attempts j.attempts) q.jobs

-- One call by some caller: an upload, a worker that takes a job, the worker that holds a lease and
-- reports how the job ended, an operator who re-arms a dead job.
pub data Step : JobQueue → JobQueue → Type 0 where
  enqueued : (now : ℕ) (t c : String) (p : Payload) (q : JobQueue) → Step q (enqueue now t c p q).0
  dequeued : (now : ℕ) (q : JobQueue) → Step q (dequeue now q).0
  completed :
      (now : ℕ) (j : Job) (q : JobQueue)
      → find (λ x. x.id == j.id) q.jobs ≡ some j
      → j.status ≡ leased
      → Step q (complete now j.id q)
  failed :
      (now : ℕ) (j : Job) (q : JobQueue)
      → find (λ x. x.id == j.id) q.jobs ≡ some j
      → j.status ≡ leased
      → Step q (fail now j.id j.attempts q).0
  requeued : (now : ℕ) (c : String) (q : JobQueue) → Step q (requeue_dead now c q).0

pub data Reach (s : JobQueue) : JobQueue → Type 0 where
  here : Reach s s
  next : {q r : JobQueue} → Reach s q → Step q r → Reach s r

pub pending-Budget :
    (s : Status) (max n : ℕ) → is_pending s ≡ true → Budget s max n → Budget leased max (n + 1)
pending-Budget pending max n h b = omega arith
pending-Budget leased max n h b = cc
pending-Budget done max n h b = cc
pending-Budget dead max n h b = cc

leased-Budget : (s : Status) {max n : ℕ} → s ≡ leased → Budget s max n → Budget leased max n
leased-Budget s {max} {n} h b = subst (λ s. Budget s max n) h b

failed-Budget :
    (now id n : ℕ) (q : JobQueue) → n ≤ q.max_attempts → Budget (fail now id n q).1 q.max_attempts n
unfolding fail
failed-Budget now id n q h = elim (Bool-cases (ltb n q.max_attempts)) [
  | inl t ↦ rw t (ltb→lt n q.max_attempts t)
  | inr t ↦ rw t (ground arith)
]

module _ (now : ℕ) (q : JobQueue) (v : IsValid q) where
  enqueue-IsValid : (t c : String) (p : Payload) → IsValid (enqueue now t c p q).0
  unfolding enqueue
  enqueue-IsValid t c p = record {
    some_attempt = v.some_attempt;
    ids = Ascending-append Job.id 0 q.last_id q.jobs _ v.ids (omega arith);
    budgets = All-append _ q.jobs _ v.budgets (v.some_attempt, tt);
  }

  update-IsValid :
      (f : Job → Job) (j : Job)
      → ((x : Job) → (f x).id ≡ x.id)
      → find (λ x. x.id == j.id) q.jobs ≡ some j
      → Budget (f j).status q.max_attempts (f j).attempts
      → IsValid (record q { jobs = update (λ x. x.id == j.id) f q.jobs })
  update-IsValid f j same found b = record {
    some_attempt = v.some_attempt;
    ids = Ascending-update Job.id 0 q.last_id _ f q.jobs same v.ids;
    budgets = All-update_at _ Job.id j.id 0 q.last_id f q.jobs v.ids found b v.budgets;
  }

  lease-IsValid : (o : Option Job) → oldest_pending q ≡ o → IsValid (lease_row now q o).0
  unfolding lease_row
  lease-IsValid none e = v
  lease-IsValid (some row) e =
      let fits = find-holds _ q.jobs e in
      let budget = All-find _ _ q.jobs v.budgets e in
      update-IsValid (lease now) row (λ x. refl) (find-id Job.id 0 q.last_id _ q.jobs v.ids e)
        (pending-Budget row.status q.max_attempts row.attempts fits budget)

  dequeue-IsValid : IsValid (dequeue now q).0
  unfolding dequeue
  dequeue-IsValid = lease-IsValid (oldest_pending q) refl

  module _ (j : Job) (found : find (λ x. x.id == j.id) q.jobs ≡ some j)
      (held : j.status ≡ leased) where
    held-Budget : (0 < j.attempts) × (j.attempts ≤ q.max_attempts)
    held-Budget = leased-Budget j.status held (All-find _ _ q.jobs v.budgets found)

    complete-IsValid : IsValid (complete now j.id q)
    unfolding complete
    complete-IsValid = update-IsValid (with_status now done) j (λ x. refl) found held-Budget.1

    fail-IsValid : IsValid (fail now j.id j.attempts q).0
    unfolding fail
    fail-IsValid =
        update-IsValid (with_status now (fail now j.id j.attempts q).1) j (λ x. refl) found
          (failed-Budget now j.id j.attempts q held-Budget.1)

  requeue-IsValid :
      (c : String) (o : Option Job)
      → find_last (λ j. str_eq j.conversation_id c && is_dead j.status) q.jobs ≡ o
      → IsValid (requeue_row now q o).0
  unfolding requeue_row
  requeue-IsValid c none e = v
  requeue-IsValid c (some row) e =
      update-IsValid (rearm now) row (λ x. refl) (find_last-id Job.id 0 q.last_id _ q.jobs v.ids e)
        v.some_attempt

-- Every call keeps the queue valid.
pub Step-IsValid : {q r : JobQueue} → Step q r → IsValid q → IsValid r
unfolding requeue_dead
Step-IsValid (enqueued now t c p q) v = enqueue-IsValid now q v t c p
Step-IsValid (dequeued now q) v = dequeue-IsValid now q v
Step-IsValid (completed now j q found held) v = complete-IsValid now q v j found held
Step-IsValid (failed now j q found held) v = fail-IsValid now q v j found held
Step-IsValid (requeued now c q) v = requeue-IsValid now q v c _ refl

-- Starting from a new queue that allows at least one attempt, after any sequence of `enqueue`,
-- `dequeue` and `requeue_dead`, and of `complete` and `fail` by the holder of a lease, on a job that is
-- leased and with the attempts that it has: row ids are unique and ascending, a pending job has
-- attempts left, no job has been attempted more often than allowed, and a job is dead only if it has
-- used exactly all its attempts.
pub Reach-IsValid : {max : ℕ} {q : JobQueue} → 0 < max → Reach (init max) q → IsValid q
Reach-IsValid h here = record { some_attempt = h; ids = omega arith; budgets = tt }
Reach-IsValid h (next r st) = Step-IsValid st (Reach-IsValid h r)
