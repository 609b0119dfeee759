-- ===== src/Transfer.antt =====
-- internal/transfer/transfer.go: a task with its attempts. processTask, dial, failAttempt and skip;
-- what one attempt of downloadOne comes to and does to the queue is given for each attempt.
pub mod Retries
pub mod Local
pub mod Download
pub mod Delta
mod Tests
use backuper.Prelude.{
  ℕ, zero, suc, ◌+◌, Bool, true, false, not, ◌&&◌, List, [], ◌∷◌, ◌++◌, Option, none, some, Bytes,
  utf8, leb, ltb, if◌then◌else◌,
}
use backuper.Prelude.Int.{ℤ}
use backuper.Protocol.Err
use backuper.Store.{Task, Status, pending, skipped}
use backuper.Store.Tasks.{inc_task_attempt, set_task_status, mark_task_in_progress}
use backuper.Store.Events.{EventRow, insert_event}

pub record Skip : Type 0 where
  pub relpath : Bytes
  pub reason : Bytes
  pub attempts : ℕ

-- Err of transfer.go
pub record TransferErr : Type 0 where
  pub code : ℕ
  pub relpath : Bytes
  pub message : Bytes

pub record Result : Type 0 where
  pub downloaded_files : ℕ
  pub downloaded_bytes : ℕ
  pub skipped_files : ℕ
  pub skips : List Skip
  pub errors : List TransferErr

pub record Outcome : Type 0 where
  pub is_ok : Bool
  pub bytes : ℕ
  pub drop_conn : Bool
  pub code : ℕ
  pub message : Bytes
  pub skip_now : Bool

-- The manager with the tables it writes. `cancelled` is the run's own context.
pub record Manager : Type 0 where
  pub tasks : List Task
  pub events : List EventRow
  pub res : Result
  pub conn_lost : Bool
  pub cancelled : Bool

-- What the world does in one turn of processTask's loop: the clock, NewConn and the context at each
-- attempt to connect, downloadOne's outcome and its writes to the queue, the context in the pause.
pub record Turn : Type 0 where
  pub now : ℤ
  pub new_conn : ℕ → Option Bytes
  pub cancelled_before : ℕ → Bool
  pub cancelled_after : ℕ → Bool
  pub outcome : Outcome
  pub writes : List Task → List Task
  pub cancelled_in_pause : Bool
  pub cancelled_then : Bool

pub data Dialled : Type 0 where
  connected : Dialled
  dial_cancelled : Dialled
  unreachable : Bytes → Dialled

-- the attempts to connect: `left` of them are left, `attempt` is the next
unfoldable pub dial_attempts : Turn → ℕ → ℕ → Bytes → Dialled
dial_attempts turn zero attempt last_err = unreachable last_err
dial_attempts turn (suc left) attempt last_err = elim (turn.cancelled_before attempt) [
  | true ↦ dial_cancelled
  | false ↦ elim (turn.new_conn attempt) [
    | none ↦ connected
    | some e ↦ elim (ltb 0 left && turn.cancelled_after attempt) [
      | true ↦ dial_cancelled
      | false ↦ dial_attempts turn left (suc attempt) e
    ]
  ]
]

-- How a turn of the loop ends: processTask returns (with the connection or without), or goes on.
pub data Next : Type 0 where
  return : Bool → Manager → Next
  again : Bool → Task → Manager → Next

-- `retry_count` is Cfg.RetryCount, `cycle` the cycle's id.
module _ (retry_count : ℕ) (cycle : ℤ) where
  -- the first to lose the connection reports it and cancels the queue
  unfoldable pub lose_connection : ℤ → Bytes → Manager → Manager
  lose_connection now last_err m =
      if m.conn_lost
      then m
      else let message = utf8 "связь с клиентом потеряна во время передачи: " ++ last_err in
        record m {
          conn_lost = true;
          res = record m.res {
            errors =
                m.res.errors
                ++ record { code = Err.io_error; relpath = []; message = message } ∷ [];
          };
          events = (insert_event cycle (utf8 "ERROR") (utf8 "io") [] message now m.events).0;
          cancelled = true;
        }

  unfoldable pub after_dial : Turn → Dialled → Manager → Manager × Bool
  unfolding lose_connection
  after_dial turn connected m = (m, true)
  after_dial turn dial_cancelled m = (m, false)
  after_dial turn (unreachable e) m = (lose_connection turn.now e m, false)

  unfoldable pub dial : Turn → Manager → Manager × Bool
  unfolding dial_attempts after_dial
  dial turn m = after_dial turn (dial_attempts turn retry_count 1 []) m

  unfoldable pub skip : ℤ → Task → ℕ → Bytes → ℕ → Manager → Manager
  skip now t code msg attempts m =
      let reason = Err.name code ++ utf8 ": " ++ msg in
      record m {
        tasks = set_task_status t.id skipped now m.tasks;
        res = record m.res {
          skipped_files = m.res.skipped_files + 1;
          skips =
              m.res.skips
              ++ record { relpath = t.relpath; reason = reason; attempts = attempts } ∷ [];
        };
        events =
            (insert_event cycle (utf8 "WARN") (utf8 "io") t.relpath (utf8 "пропущен: " ++ reason)
              now m.events).0;
      }

  -- `attempts, _ := IncTaskAttempt(...)`: 0 where the task is gone
  unfoldable pub count_attempt : ℤ → Task → ℕ → Bytes → Manager → Task × Manager
  count_attempt now t code msg m =
      let (tasks', counted) =
        inc_task_attempt t.id (Err.name code ++ utf8 ": " ++ msg) now m.tasks in
      let attempts : ℕ = elim counted [ none ↦ 0 | some n ↦ n ] in
      (
        record t { attempts = attempts },
        record m {
          tasks = tasks';
          res = record m.res {
            errors =
                m.res.errors ++ record { code = code; relpath = t.relpath; message = msg } ∷ [];
          };
        },
      )

  -- what failAttempt does once the attempt is counted: stop, or wait and go on
  unfoldable pub after_count : Turn → Bool → ℕ → Bytes → Task × Manager → Next
  unfolding skip
  after_count turn conn code msg (t, m) =
      if leb retry_count t.attempts
      then return conn (skip turn.now t code msg t.attempts m)
      else let waiting = record m { tasks = set_task_status t.id pending turn.now m.tasks } in
        if turn.cancelled_in_pause
        then return conn waiting
        else let resumed = record waiting {
          tasks = mark_task_in_progress t.id turn.now waiting.tasks;
        } in
          if turn.cancelled_then then return conn resumed else again conn t resumed

  unfoldable pub fail_attempt : Turn → Bool → Task → ℕ → Bytes → Manager → Next
  unfolding count_attempt after_count
  fail_attempt turn conn t code msg m =
      after_count turn conn code msg (count_attempt turn.now t code msg m)

  -- what follows downloadOne
  unfoldable pub after_download : Turn → Task → Manager → Next
  unfolding skip fail_attempt
  after_download turn t m =
      let oc = turn.outcome in
      let conn = not oc.drop_conn in
      if oc.is_ok
      then return conn (record m {
        res = record m.res {
          downloaded_files = m.res.downloaded_files + 1;
          downloaded_bytes = m.res.downloaded_bytes + oc.bytes;
        };
      })
      else if oc.skip_now
      then return conn (skip turn.now t oc.code oc.message t.attempts m)
      else fail_attempt turn conn t oc.code oc.message m

  -- downloadOne, over a connection that is there
  unfoldable pub download : Turn → Task → Manager × Bool → Next
  unfolding after_download
  download turn t (m, conn) =
      if conn
      then after_download turn t (record m { tasks = turn.writes m.tasks })
      else return false m

  unfoldable pub turn_of : Turn → Bool → Task → Manager → Next
  unfolding download dial
  turn_of turn conn t m = download turn t (if conn then (m, true) else dial turn m)

  -- the loop, one unit of fuel for a turn; `none` when there is not enough
  unfoldable pub process_turns :
      ℕ → (ℕ → Turn) → ℕ → Bool → Task → Manager → Option (Manager × Bool)
  unfolding turn_of
  process_turns zero turns k conn t m = none
  process_turns (suc fuel) turns k conn t m = elim (turn_of (turns k) conn t m) [
    | return conn' m' ↦ some (m', conn')
    | again conn' t' m' ↦ process_turns fuel turns (suc k) conn' t' m'
  ]

  unfoldable pub process_task : ℕ → (ℕ → Turn) → ℤ → Bool → Task → Manager → Option (Manager × Bool)
  unfolding process_turns
  process_task fuel turns now conn t m =
      process_turns fuel turns 0 conn t
        (record m { tasks = mark_task_in_progress t.id now m.tasks })
