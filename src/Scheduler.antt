-- ===== src/Scheduler.antt =====
-- internal/server/scheduler.go: Run. The state is what the mutex guards, with the phase of the one
-- goroutine that runs the chain and what has been counted; a step is a run of code between locks.
pub mod Invariant
mod Tests
use backuper.Prelude.{
  ℕ, suc, ◌+◌, ◌-◌, ◌≡◌, Bool, true, false, not, ◌&&◌, List, [], ◌∷◌, if◌then◌else◌,
}

pub record Scheduler : Type 0 where
  pub running : Bool
  pub pending : Bool
  pub chains : ℕ  -- goroutines in runChain
  pub cycles : ℕ  -- calls of RunCycle that have begun
  pub asked : ℕ  -- calls of trigger
  pub dropped : ℕ  -- calls of trigger that changed nothing
  pub overlaps : ℕ  -- alerts of an overlap
  pub stopped : Bool  -- ctx is done

unfoldable pub start : Scheduler
start = record {
  running = false;
  pending = false;
  chains = 0;
  cycles = 0;
  asked = 0;
  dropped = 0;
  overlaps = 0;
  stopped = false;
}

-- trigger: a chain is started, a cycle is queued (one at most), or nothing is done. A chain's first
-- RunCycle is counted when the chain is started.
unfoldable pub trigger : Scheduler → Scheduler
trigger s =
    if s.running
    then if not s.pending
      then record s { pending = true; asked = s.asked + 1; overlaps = s.overlaps + 1 }
      else record s { asked = s.asked + 1; dropped = s.dropped + 1 }
    else record s {
      running = true;
      chains = s.chains + 1;
      cycles = s.cycles + 1;
      asked = s.asked + 1;
    }

-- runChain, when a RunCycle has returned: the queued cycle is run, or the chain ends
unfoldable pub cycle_done : Scheduler → Scheduler
cycle_done s =
    if s.pending && not s.stopped
    then record s { pending = false; cycles = s.cycles + 1 }
    else record s { running = false; chains = s.chains - 1 }

-- the context is cancelled
unfoldable pub stop : Scheduler → Scheduler
stop s = record s { stopped = true }

-- The main loop calls trigger at the start and at each tick until it sees that the context is done;
-- it may take one more tick (select chooses either). A RunCycle returns only while a chain runs.
pub data Step (s : Scheduler) : Scheduler → Type 0 where
  ticked : Step s (trigger s)
  finished : (n : ℕ) → s.chains ≡ suc n → Step s (cycle_done s)
  cancelled : Step s (stop s)

pub data Reachable : Scheduler → Type 0 where
  started : Reachable (trigger start)
  stepped : {s s' : Scheduler} → Reachable s → Step s s' → Reachable s'
