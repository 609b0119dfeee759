-- ===== src/Store/Tests.antt =====
-- The store's theorems at concrete tables.
use backuper.Prelude.{
  ℕ, ◌≡◌, ◌<◌, ◌≢◌, refl, List, [], ◌∷◌, ◌++◌, Bool, true, false, Option, none, some, Bytes, utf8,
  bytes_eq, length, ap, exists_row, where_rows, not, ◌&&◌, take, ◌/◌, ◌*◌, map,
}
use backuper.Prelude.Int.{ℤ, pos, negsuc}
use backuper.Store.{FileRow, ClientRow, Task, Kind, download, restore, Status, pending, in_progress}
use backuper.Store.Diff.{count_new_changed, enqueue_diff_downloads}
use backuper.Store.Diff.Stale.{is_stale, downloads, count_new_changed-stale}
use backuper.Store.Diff.Convergence.{mirror, DistinctKeys, count_new_changed-mirror}
use backuper.Store.Tasks.{list_runnable_tasks, reset_stale_in_progress, count_tasks}
use backuper.Store.Tasks.Queue.{resume_key, enqueue_twice, reset_stale_in_progress_resumes}
use backuper.Store.Cycles.{Cycle, create_cycle, finalize_cycle, get_cycle}
use backuper.Store.Cycles.Laws.{get_cycle-finalize_cycle}
use backuper.Store.Events.{EventRow, of_cycle, list_events_for_cycle, mark_events_sent}
use backuper.Store.Events.Laws.{event_ids, mark_events_sent-list_events_for_cycle}
use backuper.Store.Writers.{
  begin_rows, add_rows, commit_rows, count_rows, rollback_rows, append_row,
}
use backuper.Store.Writers.Laws.{insert_all, add_rows-commit-rollback}

-- the index has docs and Notes; the client's list has another docs and a new file
abbrev old_docs : FileRow
old_docs = record {
  relpath = utf8 "docs";
  relpath_norm = utf8 "docs";
  size = pos 10;
  mtime = pos 1;
  updated_at = pos 1;
}

abbrev new_docs : ClientRow
new_docs = record {
  relpath = utf8 "docs";
  relpath_norm = utf8 "docs";
  size = pos 20;
  mtime = pos 9;
}

abbrev extra : ClientRow
extra = record { relpath = utf8 "extra"; relpath_norm = utf8 "extra"; size = pos 5; mtime = pos 9 }

abbrev renamed_docs : ClientRow
renamed_docs = record {
  relpath = utf8 "Docs";
  relpath_norm = utf8 "docs";
  size = pos 20;
  mtime = pos 9;
}

abbrev same : Bytes → Bytes
same b = b

docs-DistinctKeys : DistinctKeys (new_docs ∷ extra ∷ [])
docs-DistinctKeys = (((λ e. cc), tt), (tt, tt))

count_new_changed-mirror_example :
    count_new_changed
      (pos 2)
      (mirror (pos 100) (new_docs ∷ extra ∷ []) (old_docs ∷ []))
      (new_docs ∷ extra ∷ [])
    ≡ (0, 0)
count_new_changed-mirror_example =
    count_new_changed-mirror same (pos 100) 2 (new_docs ∷ extra ∷ []) (old_docs ∷ []) (tt, tt)
      (refl, tt) (refl, (refl, tt)) docs-DistinctKeys (((λ e. e), tt), (((λ e. e), tt), tt))

docs_stale : exists_row (is_stale (pos 2) renamed_docs) (old_docs ∷ []) ≡ true
unfolding bytes_eq backuper.Prelude.Int.int_eq
docs_stale = refl

-- after two downloads
abbrev downloaded : List FileRow
downloaded = downloads renamed_docs (pos 100 ∷ pos 200 ∷ []) (old_docs ∷ [])

count_new_changed-stale_example :
    (exists_row (is_stale (pos 2) renamed_docs) downloaded ≡ true)
    × (0 < (count_new_changed (pos 2) downloaded ([] ++ renamed_docs ∷ extra ∷ [])).1)
count_new_changed-stale_example =
    count_new_changed-stale (pos 2) (pos 100 ∷ pos 200 ∷ []) renamed_docs [] (extra ∷ [])
      (old_docs ∷ []) docs_stale

abbrev task_of : ℕ → Kind → Bytes → Status → Task
task_of id kind relpath status = record {
  id = id;
  relpath = relpath;
  kind = kind;
  size = pos 20;
  offset = pos 0;
  status = status;
  attempts = 0;
  last_err = [];
  cycle_id = pos 1;
  created_at = pos 1;
  updated_at = pos 1;
}

abbrev queue : List Task
queue =
    task_of 1 download (utf8 "docs") pending
    ∷ task_of 2 restore (utf8 "docs") pending
    ∷ task_of 3 download (utf8 "extra") in_progress
    ∷ []

enqueue_twice_example :
    (enqueue_diff_downloads
      (pos 1)
      (pos 2)
      (pos 8)
      (enqueue_diff_downloads
        (pos 1)
        (pos 2)
        (pos 7)
        queue
        (old_docs ∷ [])
        (new_docs ∷ extra ∷ [])).0
      (old_docs ∷ [])
      (new_docs ∷ extra ∷ [])).1
    ≡ 0
enqueue_twice_example =
    enqueue_twice (pos 1) (pos 2) (pos 7) (pos 8) queue (old_docs ∷ []) (new_docs ∷ extra ∷ [])

reset_stale_in_progress_resumes_example :
    (count_tasks in_progress (reset_stale_in_progress (pos 9) queue) ≡ 0)
    × (map resume_key (list_runnable_tasks download (reset_stale_in_progress (pos 9) queue))
        ≡ map resume_key (list_runnable_tasks download queue))
    × (length (reset_stale_in_progress (pos 9) queue) ≡ length queue)
reset_stale_in_progress_resumes_example = reset_stale_in_progress_resumes download (pos 9) queue

-- the workers leave the table as it is
abbrev untouched : ℕ → List Task → List Task
untouched after tasks = tasks

abbrev finished : Cycle
finished = record {
  id = 0;
  started_at = pos 0;
  finished_at = pos 9;
  status = utf8 "OK";
  passes_used = pos 1;
  downloaded_files = pos 2;
  downloaded_bytes = pos 25;
  changed_files = pos 0;
  trashed_files = pos 0;
  purged_files = pos 0;
  skipped_files = pos 0;
  error_summary = [];
}

get_cycle-finalize_cycle_example :
    get_cycle (create_cycle (pos 3) (finished ∷ [])).1 (
      finalize_cycle
        (record finished { id = (create_cycle (pos 3) (finished ∷ [])).1 })
        (create_cycle (pos 3) (finished ∷ [])).0)
    ≡ some (record finished { id = (create_cycle (pos 3) (finished ∷ [])).1; started_at = pos 3 })
get_cycle-finalize_cycle_example = get_cycle-finalize_cycle (pos 3) finished (finished ∷ [])

abbrev event_of : ℕ → ℤ → EventRow
event_of id cycle = record {
  id = id;
  cycle_id = some cycle;
  severity = utf8 "WARN";
  typ = utf8 "io";
  relpath = [];
  message = [];
  created_at = pos 1;
  sent = false;
}

mark_events_sent-list_events_for_cycle_example :
    where_rows
      (λ r. of_cycle (pos 1) r && not r.sent)
      (mark_events_sent
        (event_ids (list_events_for_cycle (pos 1) (event_of 1 (pos 1) ∷ event_of 2 (pos 2) ∷ [])))
        (event_of 1 (pos 1) ∷ event_of 2 (pos 2) ∷ []))
    ≡ []
mark_events_sent-list_events_for_cycle_example =
    mark_events_sent-list_events_for_cycle (pos 1) (event_of 1 (pos 1) ∷ event_of 2 (pos 2) ∷ [])

-- two numbers for rows
abbrev two_rows : List ℕ
two_rows = 4 ∷ 5 ∷ []

abbrev one_row : List ℕ
one_row = 3 ∷ []

add_rows-commit-rollback_example :
    (commit_rows (add_rows append_row two_rows (begin_rows one_row))
      ≡ insert_all append_row two_rows one_row)
    × (count_rows (add_rows append_row two_rows (begin_rows one_row)) ≡ length two_rows)
    × (rollback_rows (add_rows append_row two_rows (begin_rows one_row))
        ≡ insert_all append_row (take (length two_rows / 5000 * 5000) two_rows) one_row)
add_rows-commit-rollback_example = add_rows-commit-rollback append_row two_rows one_row
