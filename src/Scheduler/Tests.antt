-- ===== src/Scheduler/Tests.antt =====
-- A tick while the first cycle runs.
use backuper.Scheduler.{start, trigger, Reachable, started, stepped, ticked}
use backuper.Scheduler.Invariant.{IsSound, Reachable-IsSound}

second_tick : Reachable (trigger (trigger start))
second_tick = stepped started ticked

Reachable-IsSound_example : IsSound (trigger (trigger start))
Reachable-IsSound_example = Reachable-IsSound second_tick
