-- ===== src/Queue/Laws.antt =====
-- What one call of a queue method does (voclyp/queueing.py).
use text.Mathlib.TextPositions.{eq_refl}
use voclyp_dev.Prelude.{
  ℕ, ◌+◌, ◌≤◌, ◌<◌, String, ◌≡◌, refl, ◌↔◌, Option, none, some, List, [], ◌∷◌, arith, ◌==◌, All,
  find, true, select, count, if◌then◌else◌, Bool-cases, inl, inr, find_last-append,
}
use voclyp_dev.Prelude.Ids.{find-least, find-id, find-update_self, find-update_ne}
use voclyp_dev.Queue.{
  Job, JobQueue, Payload, Lease, pending, leased, dead, is_pending, enqueue, dequeue, fail, lease,
  with_status, oldest_pending, lease_row, pending_count, lookup_job,
}
use voclyp_dev.Queue.Budget.{IsValid}

-- `l.id` is the least id of the jobs that were pending. Its row is now leased and counts the attempt
-- that `l` reports; every other row is as before.
abbrev pub IsOldestLease : JobQueue → JobQueue → Lease → Type 0
IsOldestLease q q' l =
    All (λ j. l.id ≤ j.id) (select (λ j. is_pending j.status) q.jobs)
    × ((row : Job) × (row.status ≡ leased)
        × (row.attempts ≡ l.attempts)
        × ((id : ℕ)
            → find (λ j. j.id == id) q'.jobs
              ≡ (if id == l.id then some row else find (λ j. j.id == id) q.jobs)))

select-least :
    (n : ℕ) (jobs : List Job)
    → All (λ j. is_pending j.status ≡ true → n ≤ j.id) jobs
    → All (λ j. n ≤ j.id) (select (λ j. is_pending j.status) jobs)
select-least n [] h = tt
select-least n (j ∷ jobs) h = elim (Bool-cases (is_pending j.status)) [
  | inl t ↦ rw t (h.0 t, select-least n jobs h.1)
  | inr t ↦ rw t (select-least n jobs h.1)
]

-- `dequeue` finds a job exactly if some job counts as pending.
find-count :
    (jobs : List Job)
    → (find (λ j. is_pending j.status) jobs ≡ none) ↔ (count (λ j. is_pending j.status) jobs ≡ 0)
find-count [] = (λ h. refl, λ h. refl)
find-count (j ∷ jobs) =
    (λ h. ground (arith, (find-count jobs).0), λ h. ground (arith, (find-count jobs).1))

module _ (now : ℕ) (q : JobQueue) (v : IsValid q) where
  lease-IsOldestLease :
      (o : Option Job) (l : Lease)
      → oldest_pending q ≡ o
      → (lease_row now q o).1 ≡ some l
      → IsOldestLease q (lease_row now q o).0 l
  unfolding lease_row
  lease-IsOldestLease none l e h = cc
  lease-IsOldestLease (some row) l e h =
      let same : row.id ≡ l.id = ground arith in
      let counted : row.attempts + 1 ≡ l.attempts = ground arith in
      let found = find-id Job.id 0 q.last_id _ q.jobs v.ids e in
      (
        rw (← same) (select-least row.id q.jobs (find-least Job.id 0 q.last_id _ q.jobs v.ids e)),
        (
          lease now row,
          refl,
          counted,
          λ id. elim (Bool-cases (id == l.id)) [
            | inl t ↦
                let at : id ≡ row.id = ground arith in
                rw (t, at)
                  (ground (arith, find-update_self Job.id row.id (lease now) q.jobs (λ x. refl)))
            | inr t ↦
                rw t (
                  find-update_ne Job.id id row.id (lease now) q.jobs (λ n. ground arith)
                    (λ x. refl))
          ],
        ),
      )

  -- In a valid queue, the job that `dequeue` gives out is the oldest of those pending: its row is
  -- now leased and counts the attempt that the lease reports, and no other row has changed.
  pub dequeue_oldest :
      (l : Lease) → (dequeue now q).1 ≡ some l → IsOldestLease q (dequeue now q).0 l
  unfolding dequeue
  dequeue_oldest l h = lease-IsOldestLease (oldest_pending q) l refl h

-- `dequeue` returns nothing exactly if the count of pending jobs is zero, which is what the workers
-- test, and then it leaves the queue as it was.
pub dequeue_idle :
    (now : ℕ) (q : JobQueue)
    → (((dequeue now q).1 ≡ none) ↔ (pending_count q ≡ 0))
      × ((dequeue now q ≡ (q, none)) ↔ (pending_count q ≡ 0))
unfolding dequeue lease_row pending_count
dequeue_idle now q = (
  (λ h. (find-count q.jobs).0 (ground arith), λ h. ground (arith, (find-count q.jobs).1 h)),
  (λ h. (find-count q.jobs).0 (ground arith), λ h. ground (arith, (find-count q.jobs).1 h)),
)

-- A job that was just enqueued is what a lookup of its conversation finds: pending, not attempted.
pub lookup_job-enqueue :
    (now : ℕ) (t c : String) (p : Payload) (q : JobQueue)
    → lookup_job t c (enqueue now t c p q).0 ≡ some (pending, 0)
unfolding lookup_job enqueue
lookup_job-enqueue now t c p q = rw find_last-append (rw (eq_refl t, eq_refl c))

-- When the row of the job is there, `fail` parks it as dead if its attempts have reached the
-- maximum and returns it to the queue otherwise; the status it returns is the status stored.
pub fail_status :
    (now id attempts : ℕ) (j : Job) (q : JobQueue)
    → find (λ x. x.id == id) q.jobs ≡ some j
    → (((fail now id attempts q).1 ≡ dead) ↔ (q.max_attempts ≤ attempts))
      × (((fail now id attempts q).1 ≡ pending) ↔ (attempts < q.max_attempts))
      × (find (λ x. x.id == id) (fail now id attempts q).0.jobs
          ≡ some (record j { status = (fail now id attempts q).1; updated_at = now }))
unfolding fail
fail_status now id attempts j q found = (
  (λ h. ground arith, λ h. ground arith),
  (λ h. ground arith, λ h. ground arith),
  cc (
    found,
    find-update_self Job.id id (with_status now (fail now id attempts q).1) q.jobs (λ x. refl),
  ),
)
