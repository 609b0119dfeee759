-- ===== src/Server/Restore/Tests.antt =====
-- A file that is restored to a client that has its beginning, and a worker with two jobs.
use backuper.Prelude.{
  ℕ, ◌+◌, ◌≡◌, refl, true, false, none, some, Bytes, utf8, bytes_eq, List, [], ◌∷◌, length, arith,
  if◌then◌else◌,
}
use backuper.Prelude.Int.{pos, abs_int64}
use backuper.Prelude.Steps.{stopped, went}
use backuper.Protocol.Frame.{eof, Message}
use backuper.Protocol.Paths.{kind, ok, safe_join}
use backuper.Protocol.Paths.Absolute.{absolute}
use backuper.Client.{Opens, plain_file, returned}
use backuper.Client.Put.{Receiver, PutConfig, handle_put}
use backuper.Client.Put.Restored.{no_faults, Restored}
use backuper.Server.Restore.Send.{Link, RestoreConfig, restored, send_restore_file}
use backuper.Server.Restore.Send.Client.{
  no_refusal, put_req, req_message, send_restore_file-handle_put,
}
use backuper.Server.Restore.Worker.{
  RestoreJob, Try, finished, restore_attempts, WorkerState, restore_jobs,
}
use backuper.Server.Restore.Worker.Counts.{
  restore_attempts-first, restored_jobs, failed_jobs, event_paths, job_paths, restore_jobs-counts,
}

abbrev docs : Bytes
docs = utf8 "docs"

abbrev contents : Bytes
contents = utf8 "abcxef"

abbrev part_name : Bytes
part_name = utf8 "part"

abbrev server_config : RestoreConfig
server_config = record {
  storage_dir = absolute (utf8 "s" ∷ []);
  cwd = none;
  chunk_size = 2;
  join_text = λ e. [];
}

abbrev client_config : PutConfig
client_config = record {
  base = record {
    backup_dir = absolute (utf8 "data" ∷ []);
    chunk_size = 2;
    cwd = none;
    join_text = λ e. [];
  };
  mtime_tolerance = pos 2;
  part_path = λ p. part_name;
  meta_path = λ p. p;
}

abbrev opens : Opens
opens p = went (plain_file contents (pos 5) 6)

-- the client has the first three bytes
abbrev receiver : Receiver
receiver = record {
  files = λ p.
      if bytes_eq p part_name then some (record { contents = utf8 "abc"; mtime = pos 1 }) else none;
  metas = λ p. some (record { relpath = docs; total = 6; mtime = pos 6 });
  incoming = [];
  sent = [];
}

stored : safe_join none (absolute (utf8 "s" ∷ [])) docs ≡ ok (absolute (utf8 "s" ∷ docs ∷ []))
unfolding safe_join kind
stored = refl

placed : safe_join none (absolute (utf8 "data" ∷ [])) docs ≡ ok (absolute (utf8 "data" ∷ docs ∷ []))
unfolding safe_join kind
placed = refl

abbrev req_parts : List Message → Link
req_parts ms = record {
  incoming = [];
  sent = req_message eof server_config opens docs contents (pos 5) ∷ ms;
}

send_restore_file-handle_put_example :
    (to_client to_server : List Message) × (s' : Receiver) × ((send_restore_file eof no_refusal
          server_config opens 9 docs
          (record { incoming = to_server; sent = [] })
        ≡ (stopped restored, req_parts to_client))
      × ((handle_put
              (no_faults eof)
              client_config
              (pos 9)
              (put_req eof server_config opens docs contents (pos 5))
              (record receiver { incoming = to_client })
            ≡ (stopped (returned none), s'))
          × ((s'.sent ≡ to_server)
              × Restored eof client_config
                  (pos 9)
                  (put_req eof server_config opens docs contents (pos 5))
                  (absolute (utf8 "data" ∷ docs ∷ []))
                  contents
                  []
                  (record receiver { incoming = to_client })
                  s')))
unfolding bytes_eq abs_int64
send_restore_file-handle_put_example =
    send_restore_file-handle_put eof server_config opens eof client_config (pos 9) docs
      (absolute (utf8 "s" ∷ docs ∷ [])) (absolute (utf8 "data" ∷ docs ∷ [])) contents (pos 5) 9
      receiver (omega arith) stored refl (omega arith) (omega arith) placed refl refl (omega arith)
      refl

-- the third attempt is the first that connects and sends
abbrev tries : ℕ → ℕ → Try
tries i k = record {
  dials = true;
  sends = if bytes_eq (k ∷ []) (3 ∷ []) then true else false;
  cancelled = false;
}

abbrev job : RestoreJob
job = record { rel = docs; size = pos 6; mtime = pos 5 }

restore_attempts-first_example : restore_attempts 3 (tries 0) 3 1 true ≡ finished true true
unfolding bytes_eq
restore_attempts-first_example = restore_attempts-first 3 2 (tries 0) true (λ k. refl)

abbrev result : WorkerState
result =
    restore_jobs 3 tries (λ i. false) (λ i. pos 9) (job ∷ job ∷ []) 0
      (record { conn = false; restored = 0; failed = 0; events = [] })

restore_jobs-counts_example :
    (result.restored ≡ length (restored_jobs 2 tries (job ∷ job ∷ []) 0 false))
    × ((result.failed ≡ length (failed_jobs 2 tries (job ∷ job ∷ []) 0 false))
        × ((event_paths result.events ≡ job_paths (failed_jobs 2 tries (job ∷ job ∷ []) 0 false))
            × (result.restored + result.failed ≡ 2)))
restore_jobs-counts_example =
    restore_jobs-counts 2 tries (λ i. false) (λ i. pos 9) (job ∷ job ∷ []) false (λ k. refl)
      (λ i k. refl)
