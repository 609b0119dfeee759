-- ===== src/Transfer/Local.antt =====
-- What one attempt of downloadOne works on: the files of the server, the index and the queue, and the
-- messages on the connection.
use backuper.Prelude.{ℕ, Bool, false, Option, none, some, Bytes, List, [], ◌∷◌, ◌++◌}
use backuper.Files.{StoredFile, PartMeta, put}
use backuper.Prelude.Int.{ℤ}
use backuper.Prelude.Steps.{stopped, went, Steps}
use backuper.Protocol.Frame.{IoError, FrameRead, Message}
use backuper.Protocol.Paths.{JoinError}
use backuper.Store.{FileRow, Task}
use backuper.Transfer.{Outcome}

pub record Local : Type 0 where
  pub files : Bytes → Option StoredFile
  pub metas : Bytes → Option PartMeta
  pub index : List FileRow
  pub tasks : List Task
  pub incoming : List Message
  pub sent : List Message

-- Config of the manager, with what it takes from the system: the names of the .part and .meta files
-- (a SHA-1 digest), the hash of a block, strings.ToLower, and the texts of errors.
pub record TransferConfig : Type 0 where
  pub storage_dir : Bytes
  pub cwd : Option Bytes
  pub mtime_tolerance : ℤ
  pub max_frame : ℕ
  pub delta_min_size : ℕ
  pub delta_block_size : ℕ
  pub part_path : Bytes → Bytes
  pub meta_path : Bytes → Bytes
  pub sha256 : Bytes → Bytes
  pub lower : Bytes → Bytes
  pub join_text : JoinError → Bytes
  pub io_text : IoError → Bytes

-- What the system refuses during the attempt, with the text of the error. `write position n` is a
-- write of n bytes, which has written some of them; `closed` is the error of ReadMsg once the
-- connection has nothing more. `open_old` and `read_old i` say that the old copy cannot be opened,
-- and that block i of it cannot be read whole.
pub record Faults : Type 0 where
  pub send : Option IoError
  pub closed : IoError
  pub make_temp : Option Bytes
  pub open_part : Option Bytes
  pub truncate : Option Bytes
  pub seek : Option Bytes
  pub wait : ℕ → ℕ → Bool
  pub write : ℕ → ℕ → Option (ℕ × Bytes)
  pub sync : Option Bytes
  pub stat_part : Option Bytes
  pub make_dir : Option Bytes
  pub rename : Option Bytes
  pub index : Option Bytes
  pub open_old : Bool
  pub read_old : ℕ → Bool

-- Nothing is refused.
abbrev pub no_faults : IoError → Faults
no_faults e = record {
  send = none;
  closed = e;
  make_temp = none;
  open_part = none;
  truncate = none;
  seek = none;
  wait = λ position n. false;
  write = λ position n. none;
  sync = none;
  stat_part = none;
  make_dir = none;
  rename = none;
  index = none;
  open_old = false;
  read_old = λ i. false;
}

-- outcome{dropConn: drop, code: code, message: message}
abbrev pub failure : Bool → ℕ → Bytes → Outcome
failure drop code message = record {
  is_ok = false;
  bytes = 0;
  drop_conn = drop;
  code = code;
  message = message;
  skip_now = false;
}

abbrev pub Run : Type 0 → Type 0
Run A = Steps Local Outcome A

-- os.Remove, whose error is ignored
unfoldable pub remove : Bytes → Run Unit
unfolding put
remove p s = (went tt, record s { files = put p none s.files })

unfoldable pub remove_meta : Bytes → Run Unit
unfolding put
remove_meta p s = (went tt, record s { metas = put p none s.metas })

unfoldable pub on_tasks : (List Task → List Task) → Run Unit
on_tasks f s = (went tt, record s { tasks = f s.tasks })

-- c.ReadMsg: the next message, or the error of a connection that is closed
unfoldable pub read_msg : Faults → Run FrameRead
read_msg faults s = elim s.incoming [
  | [] ↦ (went (record { msg_type = 0; payload = []; err = some faults.closed; left = [] }), s)
  | m ∷ ms ↦ (
    went (record { msg_type = m.msg_type; payload = m.payload; err = none; left = [] }),
    record s { incoming = ms },
  )
]

unfoldable pub send_msg : Faults → (IoError → Outcome) → ℕ → Bytes → Run Unit
send_msg faults f msg_type payload s = elim faults.send [
  | some e ↦ (stopped (f e), s)
  | none ↦ (
    went tt,
    record s { sent = s.sent ++ record { msg_type = msg_type; payload = payload } ∷ [] },
  )
]
