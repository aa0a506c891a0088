-- ===== src/Worker/Loops.antt =====
-- The loops of voclyp/worker.py over `process_one`: `drain`, and `run_forever` without its sleeps.
pub mod Drain
pub mod Serving
use voclyp_dev.Prelude.{ℕ, zero, suc, ◌+◌, List, [], ◌∷◌, if◌then◌else◌, ◌==◌}
use voclyp_dev.Queue.{pending_count}
use voclyp_dev.Worker.{
  World, Tick, Site, Outcome, idle, stored, returned, dead_lettered, dispatch, process_one,
}

-- `drain`, on fuel: it returns with the number of insights, or what `process_one` raises goes on
pub data Drained : Type 0 where
  emptied : ℕ → Drained
  raised : Drained
  out_of_fuel : Drained

-- the end of a round of `drain`; `go` is the next one
next_round : (ℕ → Site → Site × Drained) → ℕ → Site × Outcome → Site × Drained
next_round go n (s, idle) = if pending_count s.queue == 0 then (s, emptied n) else go n s
next_round go n (s, returned) = if pending_count s.queue == 0 then (s, emptied n) else go n s
next_round go n (s, dead_lettered) = (s, raised)
next_round go n (s, stored doc) = go (n + 1) s

-- `drain`; the ticks are those of the rounds
pub drain : World → ℕ → (ℕ → Tick) → ℕ → Site → Site × Drained
unfolding next_round
drain w zero ticks n s = (s, out_of_fuel)
drain w (suc fuel) ticks n s =
    next_round (λ m s'. drain w fuel ticks m s') n (process_one w (ticks fuel) s)

-- the end of a round of `run_forever`: where no insight came and nothing waits, the webhook retries
-- that are due are made
after_round : World → Tick → Site × Outcome → Site
unfolding dispatch
after_round w tick (s, stored doc) = s
after_round w tick (s, idle) = if pending_count s.queue == 0 then dispatch w tick.now s else s
after_round w tick (s, returned) = if pending_count s.queue == 0 then dispatch w tick.now s else s
after_round w tick (s, dead_lettered) =
    if pending_count s.queue == 0 then dispatch w tick.now s else s

-- `run_forever`, as long as it runs: a round for each tick. What `process_one` raises is caught.
pub run_forever : World → List Tick → Site → Site
unfolding after_round
run_forever w [] s = s
run_forever w (tick ∷ ticks) s = run_forever w ticks (after_round w tick (process_one w tick s))
