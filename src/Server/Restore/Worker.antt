-- ===== src/Server/Restore/Worker.antt =====
-- internal/server/restore.go: restoreWorker, which sends one file after another and tries each up to
-- RETRY_COUNT times.
pub mod Counts
use Prim.Native.Nat.{zero, suc}
use backuper.Prelude.{
  ℕ, ◌+◌, Bool, true, false, ◌&&◌, ◌||◌, Bytes, utf8, List, [], ◌∷◌, ltb, if◌then◌else◌,
}
use backuper.Prelude.Int.{ℤ, pos}
use backuper.Store.Events.{EventRow, insert_event}

pub record RestoreJob : Type 0 where
  pub rel : Bytes
  pub size : ℤ
  pub mtime : ℤ

-- What happens in one attempt: whether Dial gives a connection, whether sendRestoreFile returns no
-- error, and whether the context is cancelled in the pause after the attempt.
pub record Try : Type 0 where
  pub dials : Bool
  pub sends : Bool
  pub cancelled : Bool

-- How the attempts of a file end: with or without success, and with a connection or none; or the worker
-- returns.
pub data JobEnd : Type 0 where
  finished : Bool → Bool → JobEnd
  aborted : JobEnd

-- `left` attempts from the given one on; the first has the number 1.
module _ (retry_count : ℕ) (tries : ℕ → Try) where
  unfoldable pub restore_attempts : ℕ → ℕ → Bool → JobEnd
  restore_attempts zero attempt conn = finished false conn
  restore_attempts (suc left) attempt conn =
      let t = tries attempt in
      let again = restore_attempts left (attempt + 1) false in
      if conn || t.dials
      then (if t.sends
          then finished true true
          else if ltb attempt retry_count && t.cancelled
          then aborted
          else again)
      else if t.cancelled
      then aborted
      else again

pub record WorkerState : Type 0 where
  pub conn : Bool
  pub restored : ℕ
  pub failed : ℕ
  pub events : List EventRow

-- the counters once a file is done
unfoldable pub count_job : ℤ → RestoreJob → Bool → Bool → WorkerState → WorkerState
unfolding insert_event
count_job now j true conn s = record s { conn = conn; restored = s.restored + 1 }
count_job now j false conn s = record s {
  conn = conn;
  failed = s.failed + 1;
  events =
      (insert_event (pos 0) (utf8 "ERROR") (utf8 "io") j.rel (utf8 "restore не удался") now
        s.events).0;
}

-- The jobs of the channel: `tries i` are the attempts of the i-th, `cancelled i` says that the context is
-- done before it, and `now i` is the time after it.
module _ (retry_count : ℕ) (tries : ℕ → ℕ → Try) (cancelled : ℕ → Bool) (now : ℕ → ℤ) where
  unfoldable pub restore_jobs : List RestoreJob → ℕ → WorkerState → WorkerState
  unfolding restore_attempts count_job
  restore_jobs [] i s = s
  restore_jobs (j ∷ jobs) i s = elim (cancelled i) [
    | true ↦ s
    | false ↦ elim (restore_attempts retry_count (tries i) retry_count 1 s.conn) [
      | aborted ↦ s
      | finished ok conn ↦ restore_jobs jobs (i + 1) (count_job (now i) j ok conn s)
    ]
  ]
