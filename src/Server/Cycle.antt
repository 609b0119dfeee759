-- ===== src/Server/Cycle.antt =====
-- internal/server/cycle.go: RunCycle from the first pass on. The calls that a pass makes of other
-- components are the operations of an interface over their common state.
pub mod Guarded
pub mod Passes
use Prim.Native.Nat.{zero, suc}
use backuper.Prelude.{ℕ, ◌+◌, Bool, true, false, ◌&&◌, ◌||◌, Bytes, ltb, ◌==◌, if◌then◌else◌}
use backuper.Prelude.Steps.{Done, stopped, went, Steps, ◌>>=◌, pure, stop, change}

-- The operations, over the state S of the store, the storage and the connection: ctx.Err, loadList,
-- the event of a list that has failed, handleCollisions, the second result of CountNewChanged,
-- EnqueueDiffDownloads, MoveDeleted (whose error is only logged), RunDownloadQueue (the number of
-- skipped files, and whether it has failed), cleanupTrashIfDue, the tasks that are pending or in
-- progress, and the deletes that end the cycle.
pub record CycleOps (S : Type 0) : Type 0 where
  pub is_cancelled : S → Bool
  pub load_list : S → Done Bytes ℕ × S
  pub list_failed : Bytes → S → S
  pub handle_collisions : S → S
  pub count_changed : S → ℕ
  pub enqueue : S → Done Bytes ℕ × S
  pub move_deleted : S → ℕ × S
  pub run_queue : S → ℕ × Bool × S
  pub cleanup : S → S
  pub count_pending : S → ℕ
  pub count_in_progress : S → ℕ
  pub clear_queue : S → S

pub data CycleStatus : Type 0 where
  ok partial failed : CycleStatus

-- The local variables of RunCycle.
pub record Run (S : Type 0) : Type 0 where
  pub world : S
  pub status : CycleStatus
  pub passes : ℕ
  pub changed_first : ℕ
  pub trashed_total : ℕ
  pub skipped_files : ℕ

-- `if status == "OK" { status = "PARTIAL" }`
unfoldable pub lower_status : CycleStatus → CycleStatus
lower_status ok = partial
lower_status partial = partial
lower_status failed = failed

unfoldable pub is_ok : CycleStatus → Bool
is_ok ok = true
is_ok partial = false
is_ok failed = false

module _ {S : Type 0} (ops : CycleOps S) where
  -- A step of a pass: it goes on, or stops with `break`.
  abbrev pub Pass : Type 0 → Type 0
  Pass A = Steps (Run S) Unit A

  unfoldable pub check_cancelled : Pass Unit
  check_cancelled r =
      if ops.is_cancelled r.world then (stopped tt, record r { status = partial }) else (went tt, r)

  abbrev after_list : Run S → Done Bytes ℕ × S → Done Unit Unit × Run S
  after_list r (went n, s) = (went tt, record r { world = s })
  after_list r (stopped e, s) =
      (stopped tt, record r { world = ops.list_failed e s; status = failed })

  unfoldable pub receive_list : Pass Unit
  receive_list r = after_list r (ops.load_list r.world)

  -- handleCollisions and CountNewChanged; the first pass keeps the number
  unfoldable pub compare : ℕ → Pass Unit
  compare pass r =
      let s = ops.handle_collisions r.world in
      (
        went tt,
        record r {
          world = s;
          changed_first = if pass == 1 then ops.count_changed s else r.changed_first;
        },
      )

  abbrev after_enqueue : Run S → Done Bytes ℕ × S → Done Unit ℕ × Run S
  after_enqueue r (went n, s) = (went n, record r { world = s })
  after_enqueue r (stopped e, s) = (stopped tt, record r { world = s; status = failed })

  unfoldable pub enqueue_diff : Pass ℕ
  enqueue_diff r = after_enqueue r (ops.enqueue r.world)

  abbrev after_moves : Run S → ℕ × S → Done Unit ℕ × Run S
  after_moves r (n, s) = (went n, record r { world = s; trashed_total = r.trashed_total + n })

  unfoldable pub move_to_trash : Pass ℕ
  move_to_trash r = after_moves r (ops.move_deleted r.world)

  abbrev after_transfer : Run S → ℕ × Bool × S → Done Unit Unit × Run S
  after_transfer r (skipped, true, s) =
      (stopped tt, record r { world = s; skipped_files = skipped; status = lower_status r.status })
  after_transfer r (skipped, false, s) = (went tt, record r { world = s; skipped_files = skipped })

  unfoldable pub transfer_queue : Pass Unit
  unfolding lower_status
  transfer_queue r = after_transfer r (ops.run_queue r.world)

  -- one pass; it stops when nothing was left to do
  unfoldable pub one_pass : ℕ → Pass Unit
  unfolding ◌>>=◌ check_cancelled receive_list compare enqueue_diff move_to_trash transfer_queue
      change
  one_pass pass = do
    a ← check_cancelled
    b ← change (λ r. record r { passes = pass })
    c ← receive_list
    d ← compare pass
    enq ← enqueue_diff
    moved ← move_to_trash
    e ← transfer_queue
    if (enq == 0) && (moved == 0) then stop tt else pure tt

  -- `left` passes from the given one on
  unfoldable pub run_passes : ℕ → ℕ → Pass Unit
  unfolding ◌>>=◌ one_pass
  run_passes zero pass = pure tt
  run_passes (suc left) pass = do u ← one_pass pass; run_passes left (pass + 1)

  -- the status once tasks, or skipped files, are left
  unfoldable pub final_status : Run S → S → CycleStatus
  unfolding is_ok
  final_status r s =
      if is_ok r.status
        && (ltb 0 (ops.count_pending s)
            || (ltb 0 (ops.count_in_progress s) || ltb 0 r.skipped_files))
      then partial
      else r.status

  -- cleanupTrashIfDue, the status, and the queue's rows that are of no use any more
  unfoldable pub end_cycle : Run S → Run S
  unfolding final_status
  end_cycle r =
      let s = ops.cleanup r.world in
      record r { world = ops.clear_queue s; status = final_status r s }

  -- the passes, SYNC_MAX_PASSES of them, and the end; the status is "OK" before them
  unfoldable pub run_cycle : ℕ → S → Run S
  unfolding run_passes end_cycle
  run_cycle max_passes s =
      end_cycle
        (run_passes max_passes 1 (record {
          world = s;
          status = ok;
          passes = 0;
          changed_first = 0;
          trashed_total = 0;
          skipped_files = 0;
        })).1
