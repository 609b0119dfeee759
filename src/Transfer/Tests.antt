-- ===== src/Transfer/Tests.antt =====
-- A task that fails twice and is skipped, and attempts that answer a client's file.
use backuper.Prelude.{
  ℕ, ◌≡◌, refl, Bytes, utf8, dec, [], ◌∷◌, Bool, true, false, none, some, arith, bytes_eq,
  if◌then◌else◌,
}
use backuper.Prelude.Int.{pos, abs_int64}
use backuper.Prelude.Steps.{stopped, went}
use backuper.Protocol.Err
use backuper.Protocol.Frame.{eof}
use backuper.Protocol.Paths.{kind, ok, safe_join}
use backuper.Protocol.Paths.Absolute.{absolute}
use backuper.Store.{Task, download, pending}
use backuper.Blocks.{block_count, read_block}
use backuper.Client.{ClientConfig, Opens, plain_file, append_message}
use backuper.Client.Get.Sends.{no_wait}
use backuper.Client.Delta.{handle_delta}
use backuper.Prelude.{List}
use backuper.Prelude.Steps.{Done}
use backuper.Transfer.{Outcome, Manager, Turn, process_task}
use backuper.Transfer.Retries.{Fails, SkippedAfter, process_task-SkippedAfter}
use backuper.Transfer.Local.{Local, TransferConfig, no_faults, failure}
use backuper.Transfer.Download.{success}
use backuper.Transfer.Download.Completes.{request_message, Completed}
use backuper.Transfer.Download.Client.{
  attempt, attempts, bad_offset, download-Completed, download-bad_offset,
}
use backuper.Transfer.Delta.{delta_download}
use backuper.Transfer.Delta.Completes.{hashes, request, delta_download-Completed}

abbrev docs : Bytes
docs = utf8 "docs"

abbrev task : Task
task = record {
  id = 4;
  relpath = docs;
  kind = download;
  size = pos 20;
  offset = pos 0;
  status = pending;
  attempts = 1;
  last_err = [];
  cycle_id = pos 1;
  created_at = pos 1;
  updated_at = pos 1;
}

abbrev manager : Manager
manager = record {
  tasks = task ∷ [];
  events = [];
  res = record {
    downloaded_files = 0;
    downloaded_bytes = 0;
    skipped_files = 0;
    skips = [];
    errors = [];
  };
  conn_lost = false;
  cancelled = false;
}

-- a turn in which the client reports an input error
abbrev io_turn : ℕ → Turn
io_turn k = record {
  now = pos 100;
  new_conn = λ n. none;
  cancelled_before = λ n. false;
  cancelled_after = λ n. false;
  outcome = record {
    is_ok = false;
    bytes = 0;
    drop_conn = true;
    code = 4;
    message = utf8 "io";
    skip_now = false;
  };
  writes = λ ts. ts;
  cancelled_in_pause = false;
  cancelled_then = false;
}

io_turn-Fails : (k : ℕ) → Fails 4 (io_turn k)
io_turn-Fails k = record {
  connects = refl;
  starts = refl;
  fails = refl;
  goes_on = refl;
  no_cancel = refl;
  no_cancel_then = refl;
  writes_keep = λ ts row h. (row, (h, refl));
}

process_task-SkippedAfter_example :
    (m' : Manager) × ((conn' : Bool) × ((process_task 3
            (pos 1)
            5
            io_turn
            (pos 90)
            false
            task
            manager
          ≡ some (m', conn'))
        × SkippedAfter 3 (pos 1) 4 2 manager m'))
process_task-SkippedAfter_example =
    process_task-SkippedAfter 3 (pos 1) 2 1 5 io_turn (pos 90) false task task manager refl
      io_turn-Fails refl refl (omega arith)

abbrev storage : Bytes
storage = absolute (utf8 "s" ∷ [])

abbrev target : Bytes
target = absolute (utf8 "s" ∷ docs ∷ [])

abbrev part_name : Bytes
part_name = utf8 "part"

-- the sizes of the configuration are small, and a hash is the block itself
abbrev config : TransferConfig
config = record {
  storage_dir = storage;
  cwd = none;
  mtime_tolerance = pos 2;
  max_frame = 65536;
  delta_min_size = 4;
  delta_block_size = 2;
  part_path = λ p. part_name;
  meta_path = λ p. p;
  sha256 = λ b. b;
  lower = λ c. c;
  join_text = λ e. [];
  io_text = λ e. [];
}

abbrev client : ClientConfig
client = record {
  backup_dir = absolute (utf8 "data" ∷ []);
  chunk_size = 4;
  cwd = none;
  join_text = λ e. [];
}

abbrev contents : Bytes
contents = utf8 "abcxef"

abbrev old_copy : Bytes
old_copy = utf8 "abcdef"

abbrev opens : Opens
opens p = went (plain_file contents (pos 5) 6)

abbrev full : Bytes
full = absolute (utf8 "data" ∷ docs ∷ [])

joined : safe_join none (absolute (utf8 "data" ∷ [])) docs ≡ ok full
unfolding safe_join kind
joined = refl

-- a server whose part file has some bytes
abbrev server : Bytes → Local
server bytes = record {
  files =
      λ p. if bytes_eq p part_name then some (record { contents = bytes; mtime = pos 1 }) else none;
  metas = λ p. some (record { relpath = docs; total = 6; mtime = pos 5 });
  index = [];
  tasks = task ∷ [];
  incoming = [];
  sent = [];
}

abbrev empty : Bytes
empty = []

abbrev short_part : Bytes
short_part = utf8 "ab"

download-Completed_example :
    (s' : Local) × ((attempt eof config (pos 9) task client opens 9 target (server short_part)
        ≡ (stopped (success 4), s'))
      × (Completed eof config (pos 9) task target contents (pos 5) [] (server short_part) s'
          × (s'.sent ≡ request_message eof config (pos 9) task 2 ∷ [])))
unfolding bytes_eq abs_int64
download-Completed_example =
    download-Completed eof config (pos 9) task client opens target full contents (pos 5) 9
      (server short_part) (omega arith) joined refl (omega arith) refl (omega arith) (omega arith)
      refl (omega arith) refl (task, refl)

abbrev long_part : Bytes
long_part = utf8 "abcdefgh"

abbrev offset_outcome : Done Outcome Unit
offset_outcome =
    stopped
      (failure false Err.bad_offset (bad_offset eof config (pos 9) task client opens 8 6).message)

-- the state after two attempts
abbrev twice : List (Done Outcome Unit) × Local
twice = attempts eof config (pos 9) task client opens 2 9 target (server long_part)

download-bad_offset_example :
    (twice.0 ≡ offset_outcome ∷ offset_outcome ∷ [])
    × ((twice.1.sent
          ≡ request_message eof config (pos 9) task 8
            ∷ request_message eof config (pos 9) task 8
            ∷ [])
        × ((twice.1.files ≡ (server long_part).files)
            × ((twice.1.metas ≡ (server long_part).metas)
                × ((twice.1.index ≡ []) × (twice.1.tasks ≡ task ∷ [])))))
unfolding bytes_eq dec
download-bad_offset_example =
    download-bad_offset eof config (pos 9) task client opens 2 target full contents (pos 5) 9
      (server long_part) joined refl (omega arith)
      (record { code_fits = omega arith; message_fits = omega arith })

-- the client's answer to a request for a delta
abbrev delta_server : Local
delta_server = record (server empty) {
  incoming =
      (handle_delta append_message client opens no_wait (λ b. b)
        (record {
          path = docs;
          block_size = 2;
          hashes = hashes eof config (pos 9) task old_copy contents;
        })
        []).1;
}

delta_download-Completed_example :
    (s' : Local) × ((delta_download (no_faults eof) config (pos 9) task target old_copy delta_server
        ≡ (stopped (success 2), s'))
      × (Completed eof config (pos 9) task target contents (pos 5) [] delta_server s'
          × (s'.sent ≡ request eof config (pos 9) task old_copy contents ∷ [])))
unfolding bytes_eq block_count read_block
delta_download-Completed_example =
    delta_download-Completed eof config (pos 9) task old_copy contents client opens target full
      (pos 5) delta_server (omega arith) (omega arith) refl (λ i h. h) joined refl (omega arith)
      (omega arith) refl (task, refl) refl
