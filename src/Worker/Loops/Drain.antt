-- ===== src/Worker/Loops/Drain.antt =====
-- Draining the queue comes to an end (voclyp/worker.py, `drain`).
use voclyp_dev.Prelude.{
  ℕ, zero, suc, ◌+◌, ◌<◌, String, ◌≡◌, refl, sym, ap, ◌∙◌, inl, inr, Bool-cases, Option, none, some,
  List, arith, if◌then◌else◌, ◌==◌,
}
use voclyp_dev.Queue.{JobQueue, Lease, dequeue, pending_count}
use voclyp_dev.Queue.Budget.{IsValid}
use voclyp_dev.Queue.Cost.{cost, Settles, dequeue-Settles}
use voclyp_dev.Queue.Laws.{dequeue_idle}
use voclyp_dev.Contracts.Context.{Context}
use voclyp_dev.Worker.{
  World, Tick, Site, Outcome, idle, stored, returned, dead_lettered, Files, give_up, finish, Fault,
  saving, deleting, closing, metering, using, auditing_audio, auditing_insight, dispatching,
  delivering, completing, finish_unless, done_before, dispatch_some, after_stages, run_job,
  take_job, dispatch, process_one,
}
use voclyp_dev.Worker.Loops.{Drained, emptied, raised, next_round, drain}

-- A round found nothing to do, or left less to do.
pub data Moves (q : JobQueue) : Site × Outcome → Type 0 where
  rested : (s : Site) → IsValid s.queue → pending_count s.queue ≡ 0 → Moves q (s, idle)
  moved : (s : Site) (o : Outcome) → IsValid s.queue → cost s.queue < cost q → Moves q (s, o)

module _ (w : World) (tick : Tick) (q : JobQueue) (l : Lease) where
  -- Nothing that is done before `queue.complete` changes the queue.
  finish-Moves :
      (fault : Option Fault) (ctx : Context) (s : Site)
      → Settles tick.now q s.queue l
      → Moves q (finish_unless w fault tick l ctx s)
  unfolding finish_unless give_up done_before dispatch dispatch_some
  finish-Moves none ctx s h = moved _ _ h.completed_valid h.completed_cost
  finish-Moves (some saving) ctx s h = moved _ _ h.failed_valid h.failed_cost
  finish-Moves (some (deleting n bytes)) ctx s h = moved _ _ h.failed_valid h.failed_cost
  finish-Moves (some closing) ctx s h = moved _ _ h.failed_valid h.failed_cost
  finish-Moves (some metering) ctx s h = moved _ _ h.failed_valid h.failed_cost
  finish-Moves (some using) ctx s h = moved _ _ h.failed_valid h.failed_cost
  finish-Moves (some auditing_audio) ctx s h = moved _ _ h.failed_valid h.failed_cost
  finish-Moves (some auditing_insight) ctx s h = moved _ _ h.failed_valid h.failed_cost
  finish-Moves (some dispatching) ctx s h = moved _ _ h.failed_valid h.failed_cost
  finish-Moves (some (delivering n)) ctx s h = moved _ _ h.failed_valid h.failed_cost
  finish-Moves (some completing) ctx s h = moved _ _ h.failed_valid h.failed_cost

  after_stages-Moves :
      (o : Option Context) (s : Site)
      → Settles tick.now q s.queue l
      → Moves q (after_stages w tick l o s)
  unfolding after_stages give_up finish
  after_stages-Moves none s h = moved _ _ h.failed_valid h.failed_cost
  after_stages-Moves (some ctx) s h = finish-Moves tick.fault ctx s h

  run_job-Moves :
      (r : Files × Option (List String)) (s : Site)
      → Settles tick.now q s.queue l
      → Moves q (run_job w tick l r s)
  unfolding run_job give_up
  run_job-Moves (files, none) s h = moved _ _ h.failed_valid h.failed_cost
  run_job-Moves (files, some paths) s h = after_stages-Moves _ _ h

take_job-Moves :
    (w : World) (tick : Tick) (o : Option Lease) (q : JobQueue) (s : Site)
    → IsValid q
    → dequeue tick.now q ≡ (s.queue, o)
    → Moves q (take_job w tick o s)
unfolding take_job
take_job-Moves w tick (some l) q s v h =
    run_job-Moves w tick q l _ s (dequeue-Settles tick.now q s.queue l v h)
take_job-Moves w tick none q s v h =
    let empty : pending_count q ≡ 0 = (dequeue_idle tick.now q).0.0 (ap (λ p. p.1) h) in
    let same : s.queue ≡ q = ap (λ p. p.0) (sym h ∙ (dequeue_idle tick.now q).1.1 empty) in
    rested s (rw same v) (rw same empty)

pub process_one-Moves :
    (w : World) (tick : Tick) (s : Site) → IsValid s.queue → Moves s.queue (process_one w tick s)
unfolding process_one
process_one-Moves w tick s v = take_job-Moves w tick (dequeue tick.now s.queue).1 s.queue _ v refl

-- How a drain ends: with no pending job left, or with a job that has used up its attempts.
pub data Ends : Site × Drained → Type 0 where
  all_done : (s : Site) (n : ℕ) → pending_count s.queue ≡ 0 → Ends (s, emptied n)
  gave_up : (s : Site) → Ends (s, raised)

empty_or_next :
    (go : ℕ → Site → Site × Drained) (n : ℕ) (s : Site)
    → Ends (go n s)
    → Ends (if pending_count s.queue == 0 then (s, emptied n) else go n s)
empty_or_next go n s h = elim (Bool-cases (pending_count s.queue == 0)) [
  | inl empty ↦ rw empty (all_done s n (ground arith))
  | inr more ↦ rw more h
]

next_round-Ends :
    (go : ℕ → Site → Site × Drained) (n : ℕ) (q : JobQueue) (r : Site × Outcome)
    → ((m : ℕ) (s : Site) → IsValid s.queue → cost s.queue < cost q → Ends (go m s))
    → Moves q r
    → Ends (next_round go n r)
unfolding next_round
next_round-Ends go n q _ next (rested s v empty) = rw empty (all_done s n empty)
next_round-Ends go n q _ next (moved s idle v less) = empty_or_next go n s (next n s v less)
next_round-Ends go n q _ next (moved s returned v less) = empty_or_next go n s (next n s v less)
next_round-Ends go n q _ next (moved s dead_lettered v less) = gave_up s
next_round-Ends go n q _ next (moved s (stored doc) v less) = next (n + 1) s v less

-- On a valid queue, whatever the stages and the network do, and whatever the times are, as many
-- rounds as the pending jobs have attempts left, and one more, are enough for a drain to end: no
-- job is pending then, or one was dead-lettered and what its last attempt raised goes on.
pub drain-Ends :
    (w : World) (fuel : ℕ) (ticks : ℕ → Tick) (n : ℕ) (s : Site)
    → IsValid s.queue
    → cost s.queue < fuel
    → Ends (drain w fuel ticks n s)
unfolding drain
drain-Ends w zero ticks n s v h = absurd (omega arith)
drain-Ends w (suc fuel) ticks n s v h =
    next_round-Ends (λ m s'. drain w fuel ticks m s') n s.queue (process_one w (ticks fuel) s)
      (λ m s' v' less. drain-Ends w fuel ticks m s' v' (omega arith))
      (process_one-Moves w (ticks fuel) s v)
