-- ===== src/Store/Tasks/Queue.antt =====
-- The queue: enqueueing twice adds nothing, and a restart makes interrupted tasks wait again.
use backuper.Prelude.{
  ℕ, suc, ◌≡◌, refl, ap, List, [], ◌∷◌, ◌++◌, map, Bool, true, false, not, ◌&&◌, ◌||◌, arith, All,
  Bytes, bytes_eq, bytes_eq_refl, where_rows, exists_row, length,
}
use backuper.Prelude.Int.{ℤ}
use backuper.Store.{FileRow, ClientRow, Task, Kind, in_progress}
use backuper.Store.Diff.{
  JoinRow, left_join, to_download, is_blocked, new_tasks, to_enqueue, max_id,
  enqueue_diff_downloads,
}
use backuper.Store.Tasks.{list_runnable_tasks, reset_stale_in_progress, count_tasks}

is_blocked-append :
    (old new : List Task) (cycle : ℤ) (relpath : Bytes)
    → is_blocked (old ++ new) cycle relpath
      ≡ (is_blocked old cycle relpath || is_blocked new cycle relpath)
is_blocked-append [] new cycle relpath = refl
is_blocked-append (t ∷ ts) new cycle relpath =
    ground (arith, is_blocked-append ts new cycle relpath)

-- a row's path is among those of the rows
abbrev named : Bytes → List JoinRow → Bool
named relpath js = exists_row (λ k. bytes_eq k.client.relpath relpath) js

-- A new task keeps its path out of the queue, in every cycle.
is_blocked-new_tasks :
    (id : ℕ) (cycle cycle' now : ℤ) (js : List JoinRow) (relpath : Bytes)
    → is_blocked (new_tasks id cycle now js) cycle' relpath ≡ named relpath js
is_blocked-new_tasks id cycle cycle' now [] relpath = refl
is_blocked-new_tasks id cycle cycle' now (j ∷ js) relpath =
    ground (arith, is_blocked-new_tasks (suc id) cycle cycle' now js relpath)

named_grows :
    (p : JoinRow → Bool) (j : JoinRow) (js : List JoinRow) (r : Bytes)
    → named r (where_rows p js) ≡ true
    → named r (where_rows p (j ∷ js)) ≡ true
named_grows p j js r h = ground arith

named_self :
    (p : JoinRow → Bool) (j : JoinRow) (js : List JoinRow)
    → p j ≡ true
    → named j.client.relpath (where_rows p (j ∷ js)) ≡ true
named_self p j js e = rw (e, bytes_eq_refl j.client.relpath)

-- The path of a row that is kept is among those of the rows that are kept.
named-where_rows :
    (p : JoinRow → Bool) (js : List JoinRow)
    → All (λ j. p j ≡ true → named j.client.relpath (where_rows p js) ≡ true) js
named-where_rows p [] = tt
named-where_rows p (j ∷ js) = (named_self p j js, weaken js (named-where_rows p js))
  where
    weaken :
        (ks : List JoinRow)
        → All (λ k. p k ≡ true → named k.client.relpath (where_rows p js) ≡ true) ks
        → All (λ k. p k ≡ true → named k.client.relpath (where_rows p (j ∷ js)) ≡ true) ks
    weaken [] h = tt
    weaken (k ∷ ks) h = (λ e. named_grows p j js k.client.relpath (h.0 e), weaken ks h.1)

none_left :
    (q p : JoinRow → Bool) (js : List JoinRow)
    → All (λ j. q j ≡ true → p j ≡ false) js
    → where_rows (λ j. q j && p j) js ≡ []
none_left q p [] h = refl
none_left q p (j ∷ js) h = ground (arith, h.0, none_left q p js h.1)

-- Enqueueing a second time in the cycle adds no task, whatever the queue, the index and the client's
-- list: EnqueueDiffDownloads leaves nothing out that it would still take.
pub enqueue_twice :
    (cycle tol now now' : ℤ) (tasks : List Task) (files : List FileRow) (cs : List ClientRow)
    → (enqueue_diff_downloads cycle tol now'
        (enqueue_diff_downloads cycle tol now tasks files cs).0
        files
        cs).1
      ≡ 0
unfolding enqueue_diff_downloads
enqueue_twice cycle tol now now' tasks files cs = ap length (
    none_left (to_download tol) (λ j. not (is_blocked after cycle j.client.relpath))
      (left_join files cs)
      (all_blocked (left_join files cs) (named-where_rows kept (left_join files cs))))
  where
    kept : JoinRow → Bool
    kept j = to_download tol j && not (is_blocked tasks cycle j.client.relpath)

    rows : List JoinRow
    rows = to_enqueue cycle tol tasks files cs

    after : List Task
    after = tasks ++ new_tasks (suc (max_id tasks)) cycle now rows

    all_blocked :
        (js : List JoinRow)
        → All (λ j. kept j ≡ true → named j.client.relpath rows ≡ true) js
        → All
            (λ j. to_download tol j ≡ true → not (is_blocked after cycle j.client.relpath) ≡ false)
            js
    all_blocked [] h = tt
    all_blocked (j ∷ js) h =
        (blocked_after (to_download tol j) j.client.relpath h.0, all_blocked js h.1)
      where
        blocked_after :
            (wanted : Bool) (r : Bytes)
            → ((wanted && not (is_blocked tasks cycle r)) ≡ true → named r rows ≡ true)
            → wanted ≡ true
            → not (is_blocked after cycle r) ≡ false
        blocked_after wanted r named_if w = ground (
          arith,
          is_blocked-append tasks (new_tasks (suc (max_id tasks)) cycle now rows) cycle r,
          is_blocked-new_tasks (suc (max_id tasks)) cycle cycle now rows r,
        )

-- what a worker resumes from
abbrev pub resume_key : Task → ℕ × Bytes × ℤ
resume_key t = (t.id, t.relpath, t.offset)

-- After a restart no task is in progress, the runnable tasks are the same ones (by id, path and
-- offset, in order), and no task was lost.
pub reset_stale_in_progress_resumes :
    (kind : Kind) (now : ℤ) (tasks : List Task)
    → (count_tasks in_progress (reset_stale_in_progress now tasks) ≡ 0)
      × (map resume_key (list_runnable_tasks kind (reset_stale_in_progress now tasks))
          ≡ map resume_key (list_runnable_tasks kind tasks))
      × (length (reset_stale_in_progress now tasks) ≡ length tasks)
unfolding count_tasks reset_stale_in_progress list_runnable_tasks
reset_stale_in_progress_resumes kind now [] = (refl, refl, refl)
reset_stale_in_progress_resumes kind now (t ∷ ts) =
    ground (arith, reset_stale_in_progress_resumes kind now ts)
