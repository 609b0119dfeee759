-- ===== src/Store/Diff.antt =====
-- internal/store/diff.go: the comparison of the client's list with the index.
pub mod Convergence
pub mod Stale
use backuper.Prelude.{
  ℕ, zero, suc, ◌+◌, List, [], ◌∷◌, ◌++◌, map, Bool, true, false, ◌&&◌, ◌||◌, not, Option, none,
  some, Bytes, bytes_eq, if◌then◌else◌, find_row, where_rows, exists_row, length, take, ltb,
}
use backuper.Prelude.Int.{ℤ, pos, int_eq, abs_diff, ltb_ℤ}
use backuper.Store.{
  FileRow, ClientRow, Task, Kind, download, restore, Status, pending, in_progress, done, failed,
  skipped,
}
use backuper.Store.Files.{has_norm, client_has_norm}

-- LEFT JOIN files f ON f.relpath_norm=c.relpath_norm: the partners of one client row
abbrev pub partners : List FileRow → ClientRow → List FileRow
partners files c = where_rows (has_norm c.relpath_norm) files

pub record JoinRow : Type 0 where
  pub client : ClientRow
  pub file : Option FileRow

abbrev pub join_rows : ClientRow → List FileRow → List JoinRow
join_rows c [] = []
join_rows c (f ∷ fs) = record { client = c; file = some f } ∷ join_rows c fs

abbrev pub or_null : ClientRow → List FileRow → List JoinRow
or_null c [] = record { client = c; file = none } ∷ []
or_null c (f ∷ fs) = join_rows c (f ∷ fs)

unfoldable pub left_join : List FileRow → List ClientRow → List JoinRow
left_join files [] = []
left_join files (c ∷ cs) = or_null c (partners files c) ++ left_join files cs

-- f.size<>c.size OR ABS(f.mtime-c.mtime)>tol
abbrev pub changed : ℤ → ClientRow → FileRow → Bool
changed tol c f = not (int_eq f.size c.size) || ltb_ℤ tol (pos (abs_diff f.mtime c.mtime))

abbrev pub is_new_row : JoinRow → Bool
is_new_row j = elim j.file [ none ↦ true | some f ↦ false ]

abbrev pub is_changed_row : ℤ → JoinRow → Bool
is_changed_row tol j = elim j.file [ none ↦ false | some f ↦ changed tol j.client f ]

unfoldable pub count_new_changed : ℤ → List FileRow → List ClientRow → ℕ × ℕ
unfolding left_join
count_new_changed tol files cs =
    let rows = left_join files cs in
    (length (where_rows is_new_row rows), length (where_rows (is_changed_row tol) rows))

-- f.relpath_norm IS NULL OR f.size<>c.size OR ABS(f.mtime-c.mtime)>tol
abbrev pub to_download : ℤ → JoinRow → Bool
to_download tol j = elim j.file [ none ↦ true | some f ↦ changed tol j.client f ]

abbrev pub is_download : Kind → Bool
is_download download = true
is_download restore = false

-- t.status IN ('pending','in_progress')
abbrev pub is_runnable : Status → Bool
is_runnable pending = true
is_runnable in_progress = true
is_runnable _ = false

abbrev pub is_skipped : Status → Bool
is_skipped skipped = true
is_skipped _ = false

-- the task that keeps a path out of the queue: queued already, or skipped in this cycle
abbrev pub blocks : Bytes → ℤ → Task → Bool
blocks relpath cycle t =
    bytes_eq t.relpath relpath
    && is_download t.kind
    && (is_runnable t.status || is_skipped t.status && int_eq t.cycle_id cycle)

abbrev pub is_blocked : List Task → ℤ → Bytes → Bool
is_blocked tasks cycle relpath = exists_row (blocks relpath cycle) tasks

abbrev pub max_id : List Task → ℕ
max_id [] = 0
max_id (t ∷ ts) = let m = max_id ts in if ltb m t.id then t.id else m

-- the rows that the INSERT ... SELECT makes, numbered from `id`
abbrev pub new_tasks : ℕ → ℤ → ℤ → List JoinRow → List Task
new_tasks id cycle now [] = []
new_tasks id cycle now (j ∷ js) =
    record {
      id = id;
      relpath = j.client.relpath;
      kind = download;
      size = j.client.size;
      offset = pos 0;
      status = pending;
      attempts = 0;
      last_err = [];
      cycle_id = cycle;
      created_at = now;
      updated_at = now;
    }
    ∷ new_tasks (suc id) cycle now js

abbrev pub to_enqueue : ℤ → ℤ → List Task → List FileRow → List ClientRow → List JoinRow
to_enqueue cycle tol tasks files cs =
    where_rows (λ j. to_download tol j && not (is_blocked tasks cycle j.client.relpath))
      (left_join files cs)

-- The tasks afterwards, and the number of rows that were added.
unfoldable pub enqueue_diff_downloads :
    ℤ → ℤ → ℤ → List Task → List FileRow → List ClientRow → List Task × ℕ
unfolding left_join
enqueue_diff_downloads cycle tol now tasks files cs =
    let rows = to_enqueue cycle tol tasks files cs in
    (tasks ++ new_tasks (suc (max_id tasks)) cycle now rows, length rows)

-- SELECT ... GROUP BY relpath_norm HAVING COUNT(*)>1: how often a key occurs
unfoldable pub count_norm : Bytes → List ClientRow → ℕ
count_norm norm cs = length (where_rows (client_has_norm norm) cs)

abbrev pub is_colliding : List ClientRow → ClientRow → Bool
is_colliding cs c = ltb 1 (count_norm c.relpath_norm cs)

-- DELETE ... WHERE rowid NOT IN (SELECT MIN(rowid) ... GROUP BY relpath_norm): the first row of
-- each key stays. `seen` holds the keys of the rows above.
unfoldable pub dedup_from : List Bytes → List ClientRow → List ClientRow
unfolding bytes_eq
dedup_from seen [] = []
dedup_from seen (c ∷ cs) =
    if exists_row (λ k. bytes_eq k c.relpath_norm) seen
    then dedup_from seen cs
    else c ∷ dedup_from (c.relpath_norm ∷ seen) cs

unfoldable pub dedup_client_files : List ClientRow → List ClientRow
unfolding dedup_from
dedup_client_files cs = dedup_from [] cs

-- SELECT COUNT(*) FROM (... GROUP BY ... HAVING COUNT(*)>1): the keys that occur twice or more
unfoldable pub count_client_collisions : List ClientRow → ℕ
unfolding dedup_client_files
count_client_collisions cs = length (where_rows (is_colliding cs) (dedup_client_files cs))

-- LEFT JOIN client_files c ... WHERE c.relpath_norm IS NULL
abbrev pub is_gone : List ClientRow → FileRow → Bool
is_gone cs f = not (exists_row (client_has_norm f.relpath_norm) cs)

pub record TrashCandidate : Type 0 where
  pub relpath : Bytes
  pub size : ℤ

abbrev pub to_candidate : FileRow → TrashCandidate
to_candidate f = record { relpath = f.relpath; size = f.size }

unfoldable pub count_to_trash : List FileRow → List ClientRow → ℕ
count_to_trash files cs = length (where_rows (is_gone cs) files)

unfoldable pub select_trash_batch : ℕ → List FileRow → List ClientRow → List TrashCandidate
select_trash_batch limit files cs = map to_candidate (take limit (where_rows (is_gone cs) files))

pub record DownloadCandidate : Type 0 where
  pub relpath : Bytes
  pub size : ℤ
  pub mtime : ℤ
  pub is_new : Bool

abbrev pub to_preview : JoinRow → DownloadCandidate
to_preview j = record {
  relpath = j.client.relpath;
  size = j.client.size;
  mtime = j.client.mtime;
  is_new = is_new_row j;
}

unfoldable pub list_download_preview :
    ℤ → ℕ → List FileRow → List ClientRow → List DownloadCandidate
unfolding left_join
list_download_preview tol limit files cs =
    map to_preview (take limit (where_rows (to_download tol) (left_join files cs)))

unfoldable pub list_trash_preview : ℕ → List FileRow → List ClientRow → List TrashCandidate
unfolding select_trash_batch
list_trash_preview limit files cs = select_trash_batch limit files cs
