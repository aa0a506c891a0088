-- ===== src/Worker/Loops/Serving.antt =====
-- A worker that keeps serving (voclyp/worker.py, `run_forever`).
use voclyp_dev.Prelude.{
  ℕ, ◌+◌, ◌≤◌, ◌≡◌, inl, inr, Bool-cases, Option, none, some, List, [], ◌∷◌, arith, if◌then◌else◌,
  ◌==◌, length, String,
}
use voclyp_dev.Queue.{JobQueue, Lease, pending_count}
use voclyp_dev.Queue.Budget.{IsValid}
use voclyp_dev.Queue.Cost.{cost, cost-pending_count}
use voclyp_dev.Contracts.Context.{Context}
use voclyp_dev.Webhooks.Dispatch.Budget.{
  Ledger, run_once-Ledger, deliver_due-Ledger, fan_out-Ledger,
}
use voclyp_dev.Worker.{
  World, Tick, Site, Outcome, idle, stored, returned, dead_lettered, Files, give_up, finish, Fault,
  saving, deleting, closing, metering, using, auditing_audio, auditing_insight, dispatching,
  delivering, completing, finish_unless, done_before, dispatch_some, after_stages, run_job,
  take_job, dispatch, process_one,
}
use voclyp_dev.Worker.Loops.{after_round, run_forever}
use voclyp_dev.Worker.Loops.Drain.{Moves, rested, moved, process_one-Moves}

-- A round leaves less to do, or there was nothing left to do.
record Served (q : JobQueue) (s : Site) : Type 0 where
  valid : IsValid s.queue
  less : (n : ℕ) → cost q ≤ n + 1 → cost s.queue ≤ n

dispatched :
    (w : World) (now : ℕ) (q : JobQueue) (s : Site)
    → Served q s
    → Served q (if pending_count s.queue == 0 then dispatch w now s else s)
unfolding dispatch
dispatched w now q s h = elim (Bool-cases (pending_count s.queue == 0)) [
  | inl empty ↦ rw empty (record { valid = h.valid; less = h.less })
  | inr more ↦ rw more h
]

after_round-Served :
    (w : World) (tick : Tick) (q : JobQueue) (r : Site × Outcome)
    → Moves q r
    → Served q (after_round w tick r)
unfolding after_round
after_round-Served w tick q _ (rested s v empty) =
    dispatched w tick.now q s
      (record { valid = v; less = λ n h. omega (arith, (cost-pending_count s.queue v).1 empty) })
after_round-Served w tick q _ (moved s idle v less) =
    dispatched w tick.now q s (record { valid = v; less = λ n h. omega arith })
after_round-Served w tick q _ (moved s returned v less) =
    dispatched w tick.now q s (record { valid = v; less = λ n h. omega arith })
after_round-Served w tick q _ (moved s dead_lettered v less) =
    dispatched w tick.now q s (record { valid = v; less = λ n h. omega arith })
after_round-Served w tick q _ (moved s (stored doc) v less) = record {
  valid = v;
  less = λ n h. omega arith;
}

-- On a valid queue, whatever the stages and the network do, and whatever the times are, no job is
-- pending once a worker that keeps serving has made as many rounds as the pending jobs have attempts
-- left, also where some of them were dead-lettered.
pub run_forever-empties :
    (w : World) (ticks : List Tick) (s : Site)
    → IsValid s.queue
    → cost s.queue ≤ length ticks
    → pending_count (run_forever w ticks s).queue ≡ 0
unfolding run_forever
run_forever-empties w [] s v h = (cost-pending_count s.queue v).0 (omega arith)
run_forever-empties w (tick ∷ ticks) s v h =
    let round = after_round-Served w tick s.queue _ (process_one-Moves w tick s v) in
    run_forever-empties w ticks _ round.valid (round.less (length ticks) (omega arith))

module _ (w : World) (tick : Tick) where
  dispatch-Ledger : (now : ℕ) (s : Site) → Ledger s.hooks → Ledger (dispatch w now s).hooks
  unfolding dispatch
  dispatch-Ledger now s h =
      run_once-Ledger w.network now now (record s.hooks { outbox = s.ledger.outbox }) h

  finish-Ledger :
      (fault : Option Fault) (l : Lease) (ctx : Context) (s : Site)
      → Ledger s.hooks
      → Ledger (finish_unless w fault tick l ctx s).0.hooks
  unfolding finish_unless give_up done_before dispatch_some
  finish-Ledger none l ctx s h = run_once-Ledger w.network tick.now tick.now _ h
  finish-Ledger (some saving) l ctx s h = h
  finish-Ledger (some (deleting n bytes)) l ctx s h = h
  finish-Ledger (some closing) l ctx s h = h
  finish-Ledger (some metering) l ctx s h = h
  finish-Ledger (some using) l ctx s h = h
  finish-Ledger (some auditing_audio) l ctx s h = h
  finish-Ledger (some auditing_insight) l ctx s h = h
  finish-Ledger (some dispatching) l ctx s h = h
  finish-Ledger (some (delivering n)) l ctx s h =
      deliver_due-Ledger w.network tick.now tick.now n _ (fan_out-Ledger tick.now tick.now _ h)
  finish-Ledger (some completing) l ctx s h = run_once-Ledger w.network tick.now tick.now _ h

  after_stages-Ledger :
      (l : Lease) (o : Option Context) (s : Site)
      → Ledger s.hooks
      → Ledger (after_stages w tick l o s).0.hooks
  unfolding after_stages give_up finish
  after_stages-Ledger l none s h = h
  after_stages-Ledger l (some ctx) s h = finish-Ledger tick.fault l ctx s h

  run_job-Ledger :
      (l : Lease) (r : Files × Option (List String)) (s : Site)
      → Ledger s.hooks
      → Ledger (run_job w tick l r s).0.hooks
  unfolding run_job give_up
  run_job-Ledger l (files, none) s h = h
  run_job-Ledger l (files, some paths) s h = after_stages-Ledger l _ _ h

  take_job-Ledger :
      (o : Option Lease) (s : Site) → Ledger s.hooks → Ledger (take_job w tick o s).0.hooks
  unfolding take_job
  take_job-Ledger none s h = h
  take_job-Ledger (some l) s h = run_job-Ledger l _ s h

  idle_round-Ledger :
      (s : Site)
      → Ledger s.hooks
      → Ledger (if pending_count s.queue == 0 then dispatch w tick.now s else s).hooks
  idle_round-Ledger s h = elim (Bool-cases (pending_count s.queue == 0)) [
    | inl empty ↦ rw empty (dispatch-Ledger tick.now s h)
    | inr more ↦ rw more h
  ]

  after_round-Ledger :
      (s : Site) (o : Outcome) → Ledger s.hooks → Ledger (after_round w tick (s, o)).hooks
  unfolding after_round
  after_round-Ledger s (stored doc) h = h
  after_round-Ledger s idle h = idle_round-Ledger s h
  after_round-Ledger s returned h = idle_round-Ledger s h
  after_round-Ledger s dead_lettered h = idle_round-Ledger s h

-- However long a worker serves, the queue and the webhook ledger stay valid.
pub run_forever-IsValid :
    (w : World) (ticks : List Tick) (s : Site)
    → IsValid s.queue
    → Ledger s.hooks
    → IsValid (run_forever w ticks s).queue × Ledger (run_forever w ticks s).hooks
unfolding run_forever process_one
run_forever-IsValid w [] s v h = (v, h)
run_forever-IsValid w (tick ∷ ticks) s v h =
    let round = after_round-Served w tick s.queue _ (process_one-Moves w tick s v) in
    run_forever-IsValid w ticks _ round.valid
      (after_round-Ledger w tick _ _ (take_job-Ledger w tick _ _ h))
