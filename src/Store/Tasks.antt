-- ===== src/Store/Tasks.antt =====
-- internal/store/tasks.go: the persistent transfer queue.
pub mod Lookup
pub mod Paging
pub mod Queue
use backuper.Prelude.{
  ℕ, zero, suc, ◌+◌, List, [], ◌∷◌, ◌++◌, map, Bool, true, false, ◌&&◌, not, Option, none, some,
  Bytes, if◌then◌else◌, where_rows, length, take, ltb, ◌==◌,
}
use backuper.Prelude.Int.{ℤ, pos}
use backuper.Store.{
  Task, Kind, download, restore, Status, pending, in_progress, done, failed, skipped,
}
use backuper.Store.Diff.{is_runnable, max_id}

abbrev pub same_kind : Kind → Kind → Bool
same_kind download download = true
same_kind restore restore = true
same_kind _ _ = false

abbrev pub same_status : Status → Status → Bool
same_status pending pending = true
same_status in_progress in_progress = true
same_status done done = true
same_status failed failed = true
same_status skipped skipped = true
same_status _ _ = false

-- The new row's id is the result, beside the table.
unfoldable pub insert_task : Bytes → Kind → ℤ → ℤ → Status → ℤ → ℤ → List Task → List Task × ℕ
insert_task relpath kind size offset status cycle now tasks =
    let id = suc (max_id tasks) in
    (
      tasks
          ++ record {
            id = id;
            relpath = relpath;
            kind = kind;
            size = size;
            offset = offset;
            status = status;
            attempts = 0;
            last_err = [];
            cycle_id = cycle;
            created_at = now;
            updated_at = now;
          }
            ∷ [],
      id,
    )

-- WHERE kind=? AND status IN ('pending','in_progress')
abbrev pub runs_as : Kind → Task → Bool
runs_as kind t = same_kind t.kind kind && is_runnable t.status

unfoldable pub list_runnable_tasks : Kind → List Task → List Task
list_runnable_tasks kind tasks = where_rows (runs_as kind) tasks

-- ... AND id>? ORDER BY id LIMIT ?
unfoldable pub list_runnable_tasks_page : Kind → ℕ → ℕ → List Task → List Task
list_runnable_tasks_page kind after limit tasks =
    take limit (where_rows (λ t. runs_as kind t && ltb after t.id) tasks)

unfoldable pub list_tasks_by_status : Status → ℕ → List Task → List Task
list_tasks_by_status status limit tasks =
    take limit (where_rows (λ t. same_status t.status status) tasks)

unfoldable pub count_tasks : Status → List Task → ℕ
count_tasks status tasks = length (where_rows (λ t. same_status t.status status) tasks)

unfoldable pub reset_stale_in_progress : ℤ → List Task → List Task
reset_stale_in_progress now tasks =
    map
      (λ t.
        if same_status t.status in_progress
        then record t { status = pending; updated_at = now }
        else t)
      tasks

-- UPDATE tasks SET ... WHERE id=?
abbrev pub update_task : ℕ → (Task → Task) → List Task → List Task
update_task id f tasks = map (λ t. if t.id == id then f t else t) tasks

unfoldable pub mark_task_in_progress : ℕ → ℤ → List Task → List Task
mark_task_in_progress id now =
    update_task id (λ t. record t { status = in_progress; updated_at = now })

unfoldable pub update_task_offset : ℕ → ℤ → ℤ → List Task → List Task
update_task_offset id offset now =
    update_task id (λ t. record t { offset = offset; updated_at = now })

unfoldable pub mark_task_done : ℕ → ℤ → List Task → List Task
mark_task_done id now = update_task id (λ t. record t { status = done; updated_at = now })

abbrev pub find_task : ℕ → List Task → Option Task
find_task id [] = none
find_task id (t ∷ ts) = if t.id == id then some t else find_task id ts

-- The new number of attempts is the result; `none` stands for sql.ErrNoRows.
unfoldable pub inc_task_attempt : ℕ → Bytes → ℤ → List Task → List Task × Option ℕ
inc_task_attempt id msg now tasks =
    let after =
      update_task id
        (λ t. record t {
          status = failed;
          attempts = t.attempts + 1;
          last_err = msg;
          updated_at = now;
        })
        tasks in
    (after, elim (find_task id after) [ none ↦ none | some t ↦ some t.attempts ])

unfoldable pub set_task_status : ℕ → Status → ℤ → List Task → List Task
set_task_status id status now = update_task id (λ t. record t { status = status; updated_at = now })

unfoldable pub set_task_reset_offset : ℕ → ℤ → List Task → List Task
set_task_reset_offset id now = update_task id (λ t. record t { offset = pos 0; updated_at = now })

unfoldable pub delete_done_tasks : List Task → List Task
delete_done_tasks tasks = where_rows (λ t. not (same_status t.status done)) tasks

unfoldable pub delete_tasks_by_kind : Kind → List Task → List Task
delete_tasks_by_kind kind tasks = where_rows (λ t. not (same_kind t.kind kind)) tasks

unfoldable pub delete_tasks_by_status : Status → List Task → List Task
delete_tasks_by_status status tasks = where_rows (λ t. not (same_status t.status status)) tasks
