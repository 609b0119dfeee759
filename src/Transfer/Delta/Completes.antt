-- ===== src/Transfer/Delta/Completes.antt =====
-- deltaDownload against handleDelta: the client's file takes the place of the old copy.
use Prim.Native.Nat.{zero, suc}
use backuper.Prelude.{
  ℕ, ◌+◌, ◌-◌, ◌*◌, ◌%◌, ◌^◌, ◌≡◌, ◌<◌, refl, sym, ap, ◌∙◌, subst, true, false, ◌||◌, none, some,
  Bytes, List, [], ◌∷◌, ◌++◌, length, drop, ltb, ◌==◌, ==_iff, arith, bytes_eq, bytes_eq_comm,
  if◌then◌else◌, append-nil,
}
use native.Mathlib.Nat.{zero-mul}
use backuper.Prelude.Int.{ℤ, IsInt64}
use backuper.Prelude.Steps.{stopped, went, Steps, ◌>>=◌, pure, stop, check, step-went}
use backuper.Protocol.Msg
use backuper.Protocol.Frame.{IoError, Message}
use backuper.Protocol.Messages.{DeltaResp, encode_delta_resp, parse_delta_resp}
use backuper.Protocol.Messages.RoundTrip.{DeltaRespIsValid, parse_delta_resp-encode}
use backuper.Protocol.Messages.Lists.{Hash, encode_delta_req}
use backuper.Protocol.Paths.{ok, safe_join}
use backuper.Store.{Task}
use backuper.Store.Files.{upsert_file}
use backuper.Store.Tasks.{mark_task_done}
use backuper.Blocks.{block_count, read_block}
use backuper.Blocks.Laws.{block_count-Rounds}
use backuper.Client.{ClientConfig, Opens, plain_file, append_message}
use backuper.Client.Get.Sends.{no_wait}
use backuper.Client.Delta.{handle_delta}
use backuper.Client.Delta.Answers.{
  hash_list, get_elem?-hash_list, HashesOld, NoCollision, answers, payload_bytes, all_answers,
  handle_delta-answers,
}
use backuper.Transfer.{Outcome}
use backuper.Files.{put, put-same, put-other}
use backuper.Transfer.Local.{
  Local, TransferConfig, Faults, no_faults, on_tasks, remove_meta, send_msg, read_msg,
}
use backuper.Transfer.Download.{contents_of, set_part, install, upsert_index, success}
use backuper.Transfer.Download.Completes.{part, HasRow, Completed, mark_task_done-status, new_row}
use backuper.Transfer.Delta.{
  rounds, old_hashes, hashes_to_send, ask_delta, on_answer, on_delta_resp, take_blocks, expect_end,
  check_delta_size, receive_delta, after_answer, with_hashes, delta_download,
}
use backuper.Transfer.Delta.Rebuilds.{take_blocks-Rebuilt}

module _ (closed : IoError) (cfg : TransferConfig) (now : ℤ) (t : Task) (old new : Bytes) where
  abbrev faults : Faults
  faults = no_faults closed

  abbrev bs : ℕ
  bs = cfg.delta_block_size

  -- the hashes that are sent
  abbrev pub hashes : List Hash
  hashes = hash_list cfg.sha256 bs old new (block_count bs (length old)) 0

  old_hashes-hash_list :
      (left i : ℕ)
      → old_hashes faults cfg now t old left i ≡ some (hash_list cfg.sha256 bs old new left i)
  unfolding old_hashes
  old_hashes-hash_list zero i = refl
  old_hashes-hash_list (suc left) i = rw (old_hashes-hash_list left (i + 1)) refl

  -- the frame of the hashes is not too large
  abbrev pub HashesFit : Type 0
  HashesFit = ltb cfg.max_frame (block_count bs (length old) * 32 + length t.relpath + 16) ≡ false

  hashes_to_send-hashes : HashesFit → hashes_to_send faults cfg now t old ≡ some hashes
  unfolding hashes_to_send
  hashes_to_send-hashes fit =
      ap
        (λ b.
          if b || false
          then none
          else old_hashes faults cfg now t old (block_count bs (length old)) 0)
        fit
      ∙ old_hashes-hash_list (block_count bs (length old)) 0

  hashes-HashesOld : HashesOld cfg.sha256 bs old new hashes
  hashes-HashesOld i h e =
      let at_i : 0 + i ≡ i = omega arith in
      get_elem?-hash_list cfg.sha256 bs old new (block_count bs (length old)) 0 i h e
      ∙ ap (λ j. cfg.sha256 (read_block bs (length old) j old)) at_i

  abbrev pub request : Message
  request = record {
    msg_type = Msg.get_delta;
    payload =
        encode_delta_req (record { path = t.relpath; block_size = bs % 2 ^ 32; hashes = hashes });
  }

  abbrev resp : ℤ → DeltaResp
  resp mtime = record { status = 0; total_size = length new; mtime = mtime }

  -- the state once GET_DELTA is sent and DELTA_RESP is read
  abbrev asked : List Message → Local → Local
  asked ms s = record s { incoming = ms; sent = s.sent ++ request ∷ [] }

  ask_delta-asked :
      (mtime : ℤ) (ms : List Message) (s : Local)
      → DeltaRespIsValid (resp mtime)
      → s.incoming
        ≡ record { msg_type = Msg.delta_resp; payload = encode_delta_resp (resp mtime) } ∷ ms
      → ask_delta faults cfg now t hashes s ≡ (went (some (resp mtime)), asked ms s)
  unfolding ask_delta ◌>>=◌ send_msg read_msg on_answer on_delta_resp pure
  ask_delta-asked mtime ms s valid e =
      rw
        (
          e,
          ap parse_delta_resp (sym (append-nil (encode_delta_resp (resp mtime))))
              ∙ parse_delta_resp-encode (resp mtime) [] valid,
        )
        refl

  abbrev end_message : Message
  end_message = record { msg_type = Msg.file_end; payload = [] }

  -- the state in which the blocks are taken
  abbrev emptied : Local → Local
  emptied s = record s {
    metas = put (cfg.meta_path t.relpath) none s.metas;
    files = put (part closed cfg now t) (some (record { contents = []; mtime = now })) s.files;
  }

  abbrev finished : Bytes → ℤ → List Message → Local → Local
  finished target mtime rest s = record s {
    incoming = rest;
    files =
        put target
          (some (record {
            contents = contents_of faults cfg now t (s.files (part closed cfg now t));
            mtime = mtime;
          }))
          (put (part closed cfg now t) none s.files);
    index = upsert_file (new_row closed cfg now t (length new) mtime) s.index;
    tasks = mark_task_done t.id now s.tasks;
  }

  -- from the last block on
  delta_end : Bytes → ℤ → ℕ → Steps Local Outcome Unit
  unfolding receive_delta
  delta_end target mtime literal = do
    f ← read_msg faults
    e ← expect_end faults cfg now t f
    h ← check_delta_size faults cfg now t (length new)
    j ← install faults cfg now t target mtime
    k ← upsert_index faults cfg now t (length new) mtime
    l ← on_tasks (mark_task_done t.id now)
    stop (success literal)

  delta_end-finished :
      (target : Bytes) (mtime : ℤ) (literal : ℕ) (rest : List Message) (s : Local)
      → s.incoming ≡ end_message ∷ rest
      → (length (contents_of faults cfg now t (s.files (part closed cfg now t))) == length new)
        ≡ true
      → delta_end target mtime literal s ≡ (stopped (success literal), finished target mtime rest s)
  unfolding delta_end ◌>>=◌ read_msg expect_end check_delta_size install upsert_index on_tasks stop
      pure
  delta_end-finished target mtime literal rest s e sized = rw (e, sized) refl

  rounds-block_count :
      length new + bs < 2 ^ 63 → rounds faults cfg now t (length new) ≡ block_count bs (length new)
  unfolding rounds
  rounds-block_count h =
      let small : ltb (length new + bs - 1) (2 ^ 63) ≡ true = ground arith in rw small refl

  receive_delta-begins :
      (target : Bytes) (mtime : ℤ) (s : Local)
      → receive_delta faults cfg now t target old (resp mtime) s
        ≡ (take_blocks faults cfg now t old (length new) (rounds faults cfg now t (length new)) 0 0
              >>= λ literal. delta_end target mtime literal)
            (emptied s)
  unfolding receive_delta remove_meta set_part check delta_end ◌>>=◌
  receive_delta-begins target mtime s = refl

  -- from the answer on
  receive_delta-Completed :
      (target : Bytes) (mtime : ℤ) (rest : List Message) (s : Local)
      → 0 < bs
      → length new + bs < 2 ^ 63
      → NoCollision cfg.sha256 bs old new
      → bytes_eq target (part closed cfg now t) ≡ false
      → s.incoming
        ≡ answers cfg.sha256 bs old new hashes (block_count bs (length new)) 0 ++ end_message ∷ rest
      → HasRow t.id s.tasks
      → (s' : Local) × ((receive_delta faults cfg now t target old (resp mtime) s ≡ (
        stopped (
            success (
              payload_bytes
                (answers cfg.sha256 bs old new hashes (block_count bs (length new)) 0))),
        s',
      ))
          × (Completed closed cfg now t target new mtime rest s s' × (s'.sent ≡ s.sent)))
  receive_delta-Completed target mtime rest s some_size fits apart other e row =
      let n = block_count bs (length new) in
      let literal = payload_bytes (answers cfg.sha256 bs old new hashes n 0) in
      let (s3, (run, w)) =
        take_blocks-Rebuilt closed cfg now t old new hashes (end_message ∷ rest) n 0 0 []
          (emptied s) hashes-HashesOld apart (block_count-Rounds bs (length new) some_size) e
          (ap (contents_of faults cfg now t) (put-same (part closed cfg now t) _ s.files)) in
      let whole : contents_of faults cfg now t (s3.files (part closed cfg now t)) ≡ new =
        w.in_part ∙ ap (λ n. drop n new) (zero-mul bs) in
      let sized = (==_iff _ (length new)).1 (ap length whole) in
      let s' = finished target mtime rest s3 in
      (
        s',
        (
          receive_delta-begins target mtime s
              ∙ ap
                  (λ k.
                    (take_blocks faults cfg now t old (length new) k 0 0 >>= λ l.
                    delta_end target mtime l)
                      (emptied s))
                  (rounds-block_count fits)
              ∙ step-went (take_blocks faults cfg now t old (length new) n 0 0)
                  (λ l. delta_end target mtime l) (emptied s) s3 (0 + literal) run
              ∙ delta_end-finished target mtime (0 + literal) rest s3 w.rest_left sized
              ∙ ap (λ k. (stopped (success k), s')) (omega arith),
          (
            record {
              at_target =
                  put-same target _ (put (part closed cfg now t) none s3.files)
                  ∙ ap (λ b. some (record { contents = b; mtime = mtime })) whole;
              no_part =
                  put-other target (part closed cfg now t) _
                    (put (part closed cfg now t) none s3.files)
                    (bytes_eq_comm (part closed cfg now t) target ∙ other)
                  ∙ put-same (part closed cfg now t) none s3.files;
              no_meta =
                  ap (λ m. m (cfg.meta_path t.relpath)) w.same_metas
                  ∙ put-same (cfg.meta_path t.relpath) none s.metas;
              other_files = λ q p g.
                  put-other target q _ (put (part closed cfg now t) none s3.files) g
                  ∙ put-other (part closed cfg now t) q none s3.files p
                  ∙ w.other_files q p
                  ∙ put-other (part closed cfg now t) q _ s.files p;
              indexed = ap (upsert_file (new_row closed cfg now t (length new) mtime)) w.same_index;
              is_done =
                  mark_task_done-status t.id now s3.tasks
                    (subst (λ ts. HasRow t.id ts) (sym w.same_tasks) row);
              rest_left = refl;
            },
            w.same_sent,
          ),
        ),
      )

  -- A delta completes. When the client answers GET_DELTA for its file, deltaDownload with an old copy
  -- succeeds: the target has the client's bytes and time, the index has the file's row, the task is done,
  -- every other file but the part is as it was, and what is counted is the bytes of
  -- the blocks that came. Conditions: the block size is above 0 and below 2^32, the frame of the hashes
  -- fits, SHA-256 gives no two different blocks at one place one hash, the client finds the
  -- file and reads it without an error, the size and a block stay below 2^63, the time fits its field, the server refuses nothing
  -- and has the task in the queue, and the part is not the target.
  pub delta_download-Completed :
      (ccfg : ClientConfig) (opens : Opens) (target full : Bytes) (mtime : ℤ) (s : Local)
      → 0 < bs
      → bs < 2 ^ 32
      → HashesFit
      → NoCollision cfg.sha256 bs old new
      → safe_join ccfg.cwd ccfg.backup_dir t.relpath ≡ ok full
      → opens full ≡ went (plain_file new mtime (length new))
      → length new + bs < 2 ^ 63
      → IsInt64 mtime
      → bytes_eq target (part closed cfg now t) ≡ false
      → HasRow t.id s.tasks
      → s.incoming
        ≡ (handle_delta append_message ccfg opens no_wait cfg.sha256
            (record { path = t.relpath; block_size = bs % 2 ^ 32; hashes = hashes })
            []).1
      → (s' : Local) × ((delta_download faults cfg now t target old s ≡ (
        stopped (
            success (
              payload_bytes
                (answers cfg.sha256 bs old new hashes (block_count bs (length new)) 0))),
        s',
      ))
          × (Completed closed cfg now t target new mtime [] s s'
              × (s'.sent ≡ s.sent ++ request ∷ [])))
  unfolding delta_download with_hashes after_answer
  delta_download-Completed ccfg opens target full mtime s some_size small fit apart joined there
        fits time other row e =
      let n = block_count bs (length new) in
      let valid : DeltaRespIsValid (resp mtime) = record {
        status_fits = omega arith;
        total_size_fits = omega arith;
        mtime_fits = time;
      } in
      let word : bs % 2 ^ 32 ≡ bs = omega arith in
      let answered : s.incoming ≡ all_answers cfg.sha256 bs old new ccfg opens mtime hashes =
        e
        ∙ ap
            (λ b.
              (handle_delta append_message ccfg opens no_wait cfg.sha256
                (record { path = t.relpath; block_size = b; hashes = hashes }) []).1)
            word
        ∙ ap (λ q. q.1)
            (handle_delta-answers cfg.sha256 bs old new ccfg opens mtime t.relpath full hashes
              some_size joined there) in
      let ms = answers cfg.sha256 bs old new hashes n 0 ++ end_message ∷ [] in
      let (s', (run, (w, sent))) =
        receive_delta-Completed target mtime [] (asked ms s) some_size fits apart other refl row in
      (
        s',
        (
          ap (λ o. with_hashes faults cfg now t target old o s) (hashes_to_send-hashes fit)
              ∙ step-went (ask_delta faults cfg now t hashes)
                  (λ a. after_answer faults cfg now t target old a) s (asked ms s)
                  (some (resp mtime)) (ask_delta-asked mtime ms s valid answered)
              ∙ run,
          (
            record {
              at_target = w.at_target;
              no_part = w.no_part;
              no_meta = w.no_meta;
              other_files = w.other_files;
              indexed = w.indexed;
              is_done = w.is_done;
              rest_left = w.rest_left;
            },
            sent,
          ),
        ),
      )
