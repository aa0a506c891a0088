-- ===== src/Queue/Cost.antt =====
-- What is left to do in a queue (voclyp/queueing.py): the attempts that its pending jobs have left.
use voclyp_dev.Prelude.{
  ℕ, ◌+◌, ◌-◌, ◌≤◌, ◌<◌, ◌≡◌, refl, sym, ap, ◌∙◌, inl, inr, Bool-cases, Option-cases, true, Option,
  none, some, List, [], ◌∷◌, arith, if◌then◌else◌, ltb, ◌==◌, find, find-holds, update, subst,
  All-find, All, count, ◌↔◌,
}
use voclyp_dev.Prelude.Ids.{Ascending, update_above, find-id, find-update_self}
use voclyp_dev.Queue.{
  Job, JobQueue, Status, pending, leased, done, dead, Lease, pending_count, is_pending, dequeue,
  complete, fail, lease, with_status, oldest_pending, lease_row, set_status, lease_of,
}
use voclyp_dev.Queue.Budget.{
  IsValid, Budget, pending-Budget, Step-IsValid, dequeued, completed, failed,
}

-- The attempts that a job has left, if it waits for one.
abbrev pub left : ℕ → Job → ℕ
left max j = if is_pending j.status then max - j.attempts else 0

abbrev pub all_left : ℕ → List Job → ℕ
all_left max [] = 0
all_left max (j ∷ jobs) = left max j + all_left max jobs

abbrev pub cost : JobQueue → ℕ
cost q = all_left q.max_attempts q.jobs

left-le : (max : ℕ) (j : Job) → left max j ≤ max - j.attempts
left-le max j = ground arith

all_left-update :
    (max k lo hi : ℕ) (f : Job → Job) (xs : List Job) (j : Job)
    → Ascending Job.id lo xs hi
    → find (λ x. x.id == k) xs ≡ some j
    → all_left max (update (λ x. x.id == k) f xs) + left max j ≡ all_left max xs + left max (f j)
all_left-update max k lo hi f [] j h e = cc e
all_left-update max k lo hi f (x ∷ xs) j h e = elim (Bool-cases (x.id == k)) [
  | inl here ↦
      let same : x ≡ j = ground arith in
      let rest : update (λ x. x.id == k) f xs ≡ xs =
        update_above Job.id k hi f xs (subst (λ i. Ascending Job.id i xs hi) (ground arith) h.1) in
      rw (here, rest, same) (omega arith)
  | inr later ↦
      let rest = all_left-update max k x.id hi f xs j h.1 (ground arith) in
      rw later (omega (arith, rest))
]

-- A job that was taken is settled: either way the queue stays valid, and has less left to do.
pub record Settles (now : ℕ) (q q' : JobQueue) (l : Lease) : Type 0 where
  pub completed_valid : IsValid (complete now l.id q')
  pub completed_cost : cost (complete now l.id q') < cost q
  pub failed_valid : IsValid (fail now l.id l.attempts q').0
  pub failed_cost : cost (fail now l.id l.attempts q').0 < cost q

module _ (now : ℕ) (q : JobQueue) (v : IsValid q) where
  -- The lease of the row that is the oldest pending.
  taken :
      (row : Job)
      → oldest_pending q ≡ some row
      → Settles now q (lease_row now q (some row)).0 (lease_of row)
  unfolding complete fail set_status lease_row dequeue
  taken row e =
      let waits : is_pending row.status ≡ true = find-holds _ q.jobs e in
      let own = find-id Job.id 0 q.last_id _ q.jobs v.ids e in
      let q' = (lease_row now q (some row)).0 in
      let there : find (λ x. x.id == row.id) q'.jobs ≡ some (lease now row) =
        find-update_self Job.id row.id (lease now) q.jobs (λ x. refl) ∙ rw own refl in
      let v' : IsValid q' =
        subst (λ o. IsValid (lease_row now q o).0) e (Step-IsValid (dequeued now q) v) in
      let room =
        pending-Budget row.status q.max_attempts row.attempts waits
          (All-find _ _ q.jobs v.budgets e) in
      let had : left q.max_attempts row ≡ q.max_attempts - row.attempts = rw waits refl in
      let leasing =
        all_left-update q.max_attempts row.id 0 q.last_id (lease now) q.jobs row v.ids own in
      let completing =
        all_left-update q.max_attempts row.id 0 q.last_id (with_status now done) q'.jobs
          (lease now row) v'.ids there in
      let status = if ltb (row.attempts + 1) q.max_attempts then pending else dead in
      let failing =
        all_left-update q.max_attempts row.id 0 q.last_id (with_status now status) q'.jobs
          (lease now row) v'.ids there in
      record {
        completed_valid = Step-IsValid (completed now (lease now row) q' there refl) v';
        completed_cost = omega (arith, room, had, leasing, completing);
        failed_valid = Step-IsValid (failed now (lease now row) q' there refl) v';
        failed_cost = omega (
          arith,
          room,
          had,
          leasing,
          failing,
          left-le q.max_attempts (with_status now status (lease now row)),
        );
      }

pub dequeue-Settles :
    (now : ℕ) (q q' : JobQueue) (l : Lease)
    → IsValid q
    → dequeue now q ≡ (q', some l)
    → Settles now q q' l
unfolding dequeue lease_row
dequeue-Settles now q q' l v h = elim (Option-cases (oldest_pending q)) [
  | inl none_left ↦ ground (arith, none_left)
  | inr (row, e) ↦
      let same : lease_row now q (some row) ≡ (q', some l) = ap (lease_row now q) (sym e) ∙ h in
      subst
        (λ (p : JobQueue × Option Lease). elim p.1 [
          | none ↦ IsValid q
          | some m ↦ Settles now q p.0 m
        ])
        same (taken now q v row e)
]

none_left :
    (max : ℕ) (jobs : List Job) → count (λ j. is_pending j.status) jobs ≡ 0 → all_left max jobs ≡ 0
none_left max [] h = refl
none_left max (j ∷ jobs) h = elim (Bool-cases (is_pending j.status)) [
  | inl t ↦ absurd (ground (arith, t))
  | inr t ↦ ground (arith, t, none_left max jobs)
]

waiting-left : (s : Status) (max n : ℕ) → Budget s max n → is_pending s ≡ true → 0 < max - n
waiting-left pending max n b h = omega arith
waiting-left leased max n b h = cc
waiting-left done max n b h = cc
waiting-left dead max n b h = cc

none_waits :
    (max : ℕ) (jobs : List Job)
    → All (λ j. Budget j.status max j.attempts) jobs
    → all_left max jobs ≡ 0
    → count (λ j. is_pending j.status) jobs ≡ 0
none_waits max [] b h = refl
none_waits max (j ∷ jobs) b h = elim (Bool-cases (is_pending j.status)) [
  | inl t ↦ let some_left = waiting-left j.status max j.attempts b.0 t in absurd (ground (arith, t))
  | inr t ↦ ground (arith, t, none_waits max jobs b.1)
]

-- In a valid queue no attempt is left exactly when no job is pending.
pub cost-pending_count : (q : JobQueue) → IsValid q → (cost q ≡ 0) ↔ (pending_count q ≡ 0)
unfolding pending_count
cost-pending_count q v =
    (none_waits q.max_attempts q.jobs v.budgets, none_left q.max_attempts q.jobs)
