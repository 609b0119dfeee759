-- ===== src/Server/Restore/Worker/Counts.antt =====
-- What restoreWorker makes of its jobs when nobody cancels it.
use Prim.Native.Nat.{zero, suc}
use backuper.Prelude.{
  ℕ, ◌+◌, ◌≡◌, refl, sym, ap, ◌∙◌, Bool, true, false, ◌&&◌, ◌||◌, List, [], ◌∷◌, ◌++◌, length, ltb,
  arith, if◌then◌else◌, map, map-append, append_assoc, append-nil, Bytes, Bool-cases, inl, inr,
}
use backuper.Prelude.Int.{ℤ}
use backuper.Store.Events.{EventRow, insert_event}
use backuper.Server.Restore.Worker.{
  RestoreJob, Try, finished, aborted, restore_attempts, WorkerState, count_job, restore_jobs,
}

-- whether one of the attempts from the given one on both connects and sends
abbrev pub succeeds : (ℕ → Try) → ℕ → ℕ → Bool
succeeds tries zero attempt = false
succeeds tries (suc left) attempt =
    ((tries attempt).dials && (tries attempt).sends) || succeeds tries left (attempt + 1)

abbrev pub NoCancel : (ℕ → Try) → Type 0
NoCancel tries = (k : ℕ) → (tries k).cancelled ≡ false

-- one attempt, by what happens in it
attempt-cases :
    (conn dials sends cancelled later late : Bool)
    → cancelled ≡ false
    → (if conn || dials
        then (if sends
            then finished true true
            else if late && cancelled
            then aborted
            else finished later later)
        else if cancelled
        then aborted
        else finished later later)
      ≡ finished (((conn || dials) && sends) || later) (((conn || dials) && sends) || later)
attempt-cases true dials true cancelled later late h = refl
attempt-cases true dials false cancelled later true h = rw h refl
attempt-cases true dials false cancelled later false h = refl
attempt-cases false true true cancelled later late h = refl
attempt-cases false true false cancelled later true h = rw h refl
attempt-cases false true false cancelled later false h = refl
attempt-cases false false sends cancelled later late h = rw h refl

restore_attempts-succeeds :
    (retry_count : ℕ) (tries : ℕ → Try) (left attempt : ℕ)
    → NoCancel tries
    → restore_attempts retry_count tries left attempt false
      ≡ finished (succeeds tries left attempt) (succeeds tries left attempt)
unfolding restore_attempts
restore_attempts-succeeds retry_count tries zero attempt h = refl
restore_attempts-succeeds retry_count tries (suc left) attempt h =
    rw (restore_attempts-succeeds retry_count tries left (attempt + 1) h) (
      attempt-cases false (tries attempt).dials (tries attempt).sends (tries attempt).cancelled
        (succeeds tries left (attempt + 1)) (ltb attempt retry_count) (h attempt))

-- A file is restored exactly when one of its RETRY_COUNT attempts connects and sends it. The first attempt
-- can take the connection of the file before; any later one needs a new one. The worker then has a
-- connection exactly when the file was restored. Nobody cancels the worker in a pause.
pub restore_attempts-first :
    (retry_count left : ℕ) (tries : ℕ → Try) (conn : Bool)
    → NoCancel tries
    → let ok = ((conn || (tries 1).dials) && (tries 1).sends) || succeeds tries left 2 in
      restore_attempts retry_count tries (suc left) 1 conn ≡ finished ok ok
unfolding restore_attempts
restore_attempts-first retry_count left tries conn h =
    rw (restore_attempts-succeeds retry_count tries left 2 h) (
      attempt-cases conn (tries 1).dials (tries 1).sends (tries 1).cancelled (succeeds tries left 2)
        (ltb 1 retry_count) (h 1))

-- How the jobs of a worker end, by what happens in the attempts of each: `suc left` is RETRY_COUNT, and
-- a job's first attempt has the connection exactly when the job before was restored.
module _ (left : ℕ) (tries : ℕ → ℕ → Try) where
  abbrev pub is_restored : ℕ → Bool → Bool
  is_restored i conn =
      ((conn || (tries i 1).dials) && (tries i 1).sends) || succeeds (tries i) left 2

  abbrev pub restored_jobs : List RestoreJob → ℕ → Bool → List RestoreJob
  restored_jobs [] i conn = []
  restored_jobs (j ∷ jobs) i conn =
      let ok = is_restored i conn in
      let rest = restored_jobs jobs (i + 1) ok in if ok then j ∷ rest else rest

  abbrev pub failed_jobs : List RestoreJob → ℕ → Bool → List RestoreJob
  failed_jobs [] i conn = []
  failed_jobs (j ∷ jobs) i conn =
      let ok = is_restored i conn in
      let rest = failed_jobs jobs (i + 1) ok in if ok then rest else j ∷ rest

  all_jobs :
      (jobs : List RestoreJob) (i : ℕ) (conn : Bool)
      → length (restored_jobs jobs i conn) + length (failed_jobs jobs i conn) ≡ length jobs
  all_jobs [] i conn = refl
  all_jobs (j ∷ jobs) i conn = elim (Bool-cases (is_restored i conn)) [
    | inl e ↦ rw e (omega (arith, all_jobs jobs (i + 1) true))
    | inr e ↦ rw e (omega (arith, all_jobs jobs (i + 1) false))
  ]

-- the paths of jobs, and those of events
abbrev pub job_paths : List RestoreJob → List Bytes
job_paths jobs = map (λ j. j.rel) jobs

abbrev pub event_paths : List EventRow → List Bytes
event_paths events = map (λ e. e.relpath) events

-- What jobs that end in the given way add to the counters.
record Counted (restored failed : List RestoreJob) (s s' : WorkerState) : Type 0 where
  restored_counted : s'.restored ≡ s.restored + length restored
  failed_counted : s'.failed ≡ s.failed + length failed
  reported : event_paths s'.events ≡ event_paths s.events ++ job_paths failed

-- one more restored job before the others, or one more failed job
count_job-restored :
    (now : ℤ) (j : RestoreJob) (restored failed : List RestoreJob) (s s' : WorkerState)
    → Counted restored failed (count_job now j true true s) s'
    → Counted (j ∷ restored) failed s s'
unfolding count_job
count_job-restored now j restored failed s s' c = record {
  restored_counted = omega (arith, c.restored_counted);
  failed_counted = c.failed_counted;
  reported = c.reported;
}

count_job-failed :
    (now : ℤ) (j : RestoreJob) (restored failed : List RestoreJob) (s s' : WorkerState)
    → Counted restored failed (count_job now j false false s) s'
    → Counted restored (j ∷ failed) s s'
unfolding count_job insert_event
count_job-failed now j restored failed s s' c = record {
  restored_counted = c.restored_counted;
  failed_counted = omega (arith, c.failed_counted);
  reported =
      c.reported
      ∙ ap (λ l. l ++ job_paths failed) (map-append _ s.events (_ ∷ []))
      ∙ append_assoc (event_paths s.events) (j.rel ∷ []) (job_paths failed);
}

module _ (left : ℕ) (tries : ℕ → ℕ → Try) (cancelled : ℕ → Bool) (now : ℕ → ℤ) where
  restore_jobs-step :
      (j : RestoreJob) (jobs : List RestoreJob) (i : ℕ) (ok : Bool) (s : WorkerState)
      → cancelled i ≡ false
      → restore_attempts (suc left) (tries i) (suc left) 1 s.conn ≡ finished ok ok
      → restore_jobs (suc left) tries cancelled now (j ∷ jobs) i s
        ≡ restore_jobs (suc left) tries cancelled now jobs (i + 1) (count_job (now i) j ok ok s)
  unfolding restore_jobs
  restore_jobs-step j jobs i ok s runs e = rw (runs, e, restore_jobs) refl

  restore_jobs-Counted :
      (jobs : List RestoreJob) (i : ℕ) (s : WorkerState)
      → ((k : ℕ) → cancelled k ≡ false)
      → ((k : ℕ) → NoCancel (tries k))
      → Counted
          (restored_jobs left tries jobs i s.conn)
          (failed_jobs left tries jobs i s.conn)
          s
          (restore_jobs (suc left) tries cancelled now jobs i s)
  unfolding count_job
  restore_jobs-Counted [] i s runs pauses =
      unfold restore_jobs in
      (record {
        restored_counted = omega arith;
        failed_counted = omega arith;
        reported = sym (append-nil (event_paths s.events));
      })
  restore_jobs-Counted (j ∷ jobs) i s runs pauses =
      by_end (is_restored left tries i s.conn) refl
        (λ t. restore_jobs-Counted jobs (i + 1) t runs pauses)
    where
      run :
          (ok : Bool)
          → is_restored left tries i s.conn ≡ ok
          → restore_jobs (suc left) tries cancelled now (j ∷ jobs) i s
            ≡ restore_jobs (suc left) tries cancelled now jobs (i + 1) (count_job (now i) j ok ok s)
      run ok e = restore_jobs-step j jobs i ok s (runs i) (
          restore_attempts-first (suc left) left (tries i) s.conn (pauses i)
          ∙ ap (λ b. finished b b) e)

      by_end :
          (ok : Bool)
          → is_restored left tries i s.conn ≡ ok
          → ((t : WorkerState)
              → Counted
                  (restored_jobs left tries jobs (i + 1) t.conn)
                  (failed_jobs left tries jobs (i + 1) t.conn)
                  t
                  (restore_jobs (suc left) tries cancelled now jobs (i + 1) t))
          → Counted
              (restored_jobs left tries (j ∷ jobs) i s.conn)
              (failed_jobs left tries (j ∷ jobs) i s.conn)
              s
              (restore_jobs (suc left) tries cancelled now (j ∷ jobs) i s)
      by_end true e next =
          let c = next (count_job (now i) j true true s) in
          rw (run true e, e) (count_job-restored (now i) j _ _ s _ c)
      by_end false e next =
          let c = next (count_job (now i) j false false s) in
          rw (run false e, e) (count_job-failed (now i) j _ _ s _ c)

  -- A worker that nobody cancels counts every job once: it counts as restored exactly the files
  -- for which one of RETRY_COUNT attempts connects and sends, and as failed the others; and it leaves one
  -- event for each file that failed and none else, in the order of the jobs, with the file's
  -- path. The first attempt of a job needs no new connection when the job before was restored; the
  -- first job's may find one. RETRY_COUNT is above 0.
  pub restore_jobs-counts :
      (jobs : List RestoreJob) (conn : Bool)
      → ((k : ℕ) → cancelled k ≡ false)
      → ((k : ℕ) → NoCancel (tries k))
      → let s : WorkerState = record { conn = conn; restored = 0; failed = 0; events = [] } in
        let s' = restore_jobs (suc left) tries cancelled now jobs 0 s in
        (s'.restored ≡ length (restored_jobs left tries jobs 0 conn))
        × ((s'.failed ≡ length (failed_jobs left tries jobs 0 conn))
            × ((event_paths s'.events ≡ job_paths (failed_jobs left tries jobs 0 conn))
                × (s'.restored + s'.failed ≡ length jobs)))
  restore_jobs-counts jobs conn runs pauses =
      let s : WorkerState = record { conn = conn; restored = 0; failed = 0; events = [] } in
      let c = restore_jobs-Counted jobs 0 s runs pauses in
      (
        omega (arith, c.restored_counted),
        (
          omega (arith, c.failed_counted),
          (
            c.reported,
            omega (arith, c.restored_counted, c.failed_counted, all_jobs left tries jobs 0 conn),
          ),
        ),
      )
