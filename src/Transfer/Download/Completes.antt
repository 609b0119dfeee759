-- ===== src/Transfer/Download/Completes.antt =====
-- A download whose messages all come, and whose writes succeed, leaves the client's file.
use backuper.Prelude.{
  ℕ, ◌+◌, ◌-◌, ◌≡◌, ◌≤◌, ◌<◌, ◌^◌, refl, sym, ap, ◌∙◌, true, false, Option, none, some, Bytes, List,
  [], ◌∷◌, ◌++◌, map, length, length-append, take, take_all, ltb, leb, ◌==◌, ◌&&◌, arith, bytes_eq,
  bytes_eq_comm, ==_iff, Bool-cases, inl, inr, append_assoc, append-nil,
}
use backuper.Prelude.Int.{ℤ, pos, of_word, IsInt64}
use backuper.Prelude.Steps.{stopped, went, ◌>>=◌, pure, stop, check, step-went}
use backuper.Protocol.Msg
use backuper.Protocol.Frame.{IoError, Message}
use backuper.Protocol.Messages.{encode_get_req, GetResp, encode_get_resp, parse_get_resp}
use backuper.Protocol.Messages.RoundTrip.{GetRespIsValid, parse_get_resp-encode}
use backuper.Protocol.Conn.{expect}
use backuper.Protocol.Paths.{clean_rel, norm_key}
use backuper.Store.Files.{upsert_file}
use backuper.Store.{FileRow, Task, done}
use backuper.Store.Tasks.{find_task, update_task_offset, mark_task_done}
use backuper.Store.Tasks.Lookup.{find_task-update_task}
use backuper.Chunks.Laws.{data_message, joined_parts}
use backuper.Files.{StoredFile, put, put-same, put-other}
use backuper.Transfer.Local.{
  Local, TransferConfig, Faults, no_faults, on_tasks, remove_meta, send_msg, read_msg,
}
use backuper.Transfer.Download.{
  contents_of, set_part, write_part, wait_part, check_total, persist, persist_every, take_data,
  next_last, part_kind, receive, receive_all, check_size, install, upsert_index, finish, request,
  full_download, success, part_size, has_changed, read_expect, expect_payload, read_resp,
  check_changed, write_meta, open_part,
}

-- the task's row is in the table
abbrev pub HasRow : ℕ → List Task → Type 0
HasRow id ts = (row : Task) × (find_task id ts ≡ some row)

HasRow-update_task_offset :
    (id : ℕ) (o now : ℤ) (ts : List Task)
    → HasRow id ts
    → HasRow id (update_task_offset id o now ts)
unfolding update_task_offset
HasRow-update_task_offset id o now ts (row, h) =
    (_, find_task-update_task id _ row ts (λ u. refl) h)

pub mark_task_done-status :
    (id : ℕ) (now : ℤ) (ts : List Task)
    → HasRow id ts
    → (row : Task) × ((find_task id (mark_task_done id now ts) ≡ some row) × (row.status ≡ done))
unfolding mark_task_done
mark_task_done-status id now ts (row, h) =
    (_, (find_task-update_task id _ row ts (λ u. refl) h, refl))

module _ (closed : IoError) (cfg : TransferConfig) (now : ℤ) (t : Task) where
  abbrev faults : Faults
  faults = no_faults closed

  abbrev pub part : Bytes
  part = cfg.part_path t.relpath

  -- The state once the bytes of a FILE_DATA are written.
  abbrev written_to : Bytes → List Task → Local → Local
  written_to bytes tasks s = record s {
    files =
        put part
          (some (record {
            contents = contents_of faults cfg now t (s.files part) ++ bytes;
            mtime = now;
          }))
          s.files;
    tasks = tasks;
  }

  take_data-takes :
      (total written last : ℕ) (bytes : Bytes) (s : Local)
      → written + length bytes ≤ total
      → HasRow t.id s.tasks
      → (tasks : List Task) × ((take_data faults cfg now t total written last bytes s
            ≡ (went tt, written_to bytes tasks s))
          × HasRow t.id tasks)
  unfolding take_data ◌>>=◌ wait_part write_part set_part check_total persist on_tasks pure
  take_data-takes total written last bytes s fits row =
      let within : ltb total (written + length bytes) ≡ false = ground arith in
      elim (Bool-cases (leb (last + persist_every) (written + length bytes))) [
        | inl e ↦ (
          update_task_offset t.id (pos (written + length bytes)) now s.tasks,
          (rw (within, e) refl, HasRow-update_task_offset t.id _ now s.tasks row),
        )
        | inr e ↦ (s.tasks, (rw (within, e) refl, row))
      ]

  -- What the loop leaves when it has written `bytes` to a part that held `before`.
  record Received (before bytes : Bytes) (rest : List Message) (s s' : Local) : Type 0 where
    in_part : contents_of faults cfg now t (s'.files part) ≡ before ++ bytes
    other_files : (q : Bytes) → bytes_eq q part ≡ false → s'.files q ≡ s.files q
    same_metas : s'.metas ≡ s.metas
    same_index : s'.index ≡ s.index
    same_sent : s'.sent ≡ s.sent
    rest_left : s'.incoming ≡ rest
    has_row : HasRow t.id s'.tasks

  abbrev pub end_message : Message
  end_message = record { msg_type = Msg.file_end; payload = [] }

  receive-data :
      (d : Bytes) (ms : List Message) (total written last : ℕ) (s s2 : Local)
      → take_data faults cfg now t total written last d (record s { incoming = ms }) ≡ (went tt, s2)
      → receive faults cfg now t (data_message d ∷ ms) total written last s
        ≡ receive faults cfg now t ms total
            (written + length d)
            (next_last faults cfg now t (written + length d) last)
            s2
  unfolding receive part_kind
  receive-data d ms total written last s s2 h =
      step-went (take_data faults cfg now t total written last d)
        (λ u.
          receive faults cfg now t ms total (written + length d)
            (next_last faults cfg now t (written + length d) last))
        (record s { incoming = ms }) s2 tt h

  receive-end :
      (rest : List Message) (total written last : ℕ) (s : Local)
      → receive faults cfg now t (end_message ∷ rest) total written last s
        ≡ (went written, record s { incoming = rest })
  unfolding receive part_kind
  receive-end rest total written last s = refl

  receive-Received :
      (ds : List Bytes) (rest : List Message) (total written last : ℕ) (before : Bytes) (s : Local)
      → contents_of faults cfg now t (s.files part) ≡ before
      → HasRow t.id s.tasks
      → written + length (joined_parts ds) ≤ total
      → (s' : Local) × ((receive faults cfg now t
              (map data_message ds ++ end_message ∷ rest)
              total
              written
              last
              s
            ≡ (went (written + length (joined_parts ds)), s'))
          × Received before (joined_parts ds) rest s s')
  receive-Received [] rest total written last before s e row fits = (
    record s { incoming = rest },
    (
      receive-end rest total written last s
          ∙ ap (λ n. (went n, record s { incoming = rest })) (omega arith),
      record {
        in_part = e ∙ sym (append-nil before);
        other_files = λ q h. refl;
        same_metas = refl;
        same_index = refl;
        same_sent = refl;
        rest_left = refl;
        has_row = row;
      },
    ),
  )
  receive-Received (d ∷ ds) rest total written last before s e row fits =
      let ms = map data_message ds ++ end_message ∷ rest in
      let lengths = length-append d (joined_parts ds) in
      let (tasks, (taken, row')) =
        take_data-takes total written last d (record s { incoming = ms }) (omega (arith, lengths))
          row in
      let s2 = written_to d tasks (record s { incoming = ms }) in
      let now_there : contents_of faults cfg now t (s2.files part) ≡ before ++ d =
        ap (contents_of faults cfg now t) (put-same part _ s.files) ∙ ap (λ b. b ++ d) e in
      let (s', (run, w)) =
        receive-Received ds rest total (written + length d)
          (next_last faults cfg now t (written + length d) last) (before ++ d) s2 now_there row'
          (omega (arith, lengths)) in
      (
        s',
        (
          receive-data d ms total written last s s2 taken
              ∙ run
              ∙ ap (λ n. (went n, s')) (omega (arith, lengths)),
          record {
            in_part = w.in_part ∙ append_assoc before d (joined_parts ds);
            other_files = λ q h. w.other_files q h ∙ put-other part q _ s.files h;
            same_metas = w.same_metas;
            same_index = w.same_index;
            same_sent = w.same_sent;
            rest_left = w.rest_left;
            has_row = w.has_row;
          },
        ),
      )

  -- The row that the download leaves in the index.
  abbrev pub new_row : ℕ → ℤ → FileRow
  new_row total mtime = record {
    relpath = clean_rel t.relpath;
    relpath_norm = norm_key cfg.lower t.relpath;
    size = of_word total;
    mtime = mtime;
    updated_at = now;
  }

  abbrev pub request_message : ℕ → Message
  request_message offset = record {
    msg_type = Msg.get_req;
    payload = encode_get_req (record { path = t.relpath; offset = offset });
  }

  -- What a finished attempt leaves: the client's bytes and time at the target and no part, a row in
  -- the index, the task done, and what follows on the connection.
  pub record Completed (target contents : Bytes) (mtime : ℤ) (rest : List Message) (s s' : Local)
      : Type 0 where
    pub at_target : s'.files target ≡ some (record { contents = contents; mtime = mtime })
    pub no_part : s'.files part ≡ none
    pub no_meta : s'.metas (cfg.meta_path t.relpath) ≡ none
    pub other_files :
        (q : Bytes) → bytes_eq q part ≡ false → bytes_eq q target ≡ false → s'.files q ≡ s.files q
    pub indexed : s'.index ≡ upsert_file (new_row (length contents) mtime) s.index
    pub is_done : (row : Task) × ((find_task t.id s'.tasks ≡ some row) × (row.status ≡ done))
    pub rest_left : s'.incoming ≡ rest

  -- the state when the last step has been made
  abbrev finished : Bytes → GetResp → Local → Local
  finished target resp s = record s {
    files =
        put target
          (some
            (record { contents = contents_of faults cfg now t (s.files part); mtime = resp.mtime }))
          (put part none s.files);
    metas = put (cfg.meta_path t.relpath) none s.metas;
    index = upsert_file (new_row resp.total_size resp.mtime) s.index;
    tasks = mark_task_done t.id now s.tasks;
  }

  finish-finished :
      (target : Bytes) (resp : GetResp) (offset written : ℕ) (s : Local)
      → (length (contents_of faults cfg now t (s.files part)) == resp.total_size) ≡ true
      → finish faults cfg now t target resp offset written s
        ≡ (stopped (success (written - offset)), finished target resp s)
  unfolding finish ◌>>=◌ check check_size install remove_meta upsert_index on_tasks stop pure
  finish-finished target resp offset written s h = rw (h, finish) refl

  part_size-contents_of :
      (f : Option StoredFile)
      → part_size faults cfg now t f ≡ length (contents_of faults cfg now t f)
  part_size-contents_of none = refl
  part_size-contents_of (some f) = refl

  abbrev pub resp_message : GetResp → Message
  resp_message resp = record { msg_type = Msg.get_resp; payload = encode_get_resp resp }

  -- the state once GET_REQ is sent and GET_RESP is read
  abbrev requested : ℕ → List Message → Local → Local
  requested offset ms s = record s { incoming = ms; sent = s.sent ++ request_message offset ∷ [] }

  request-requested :
      (offset : ℕ) (resp : GetResp) (ms : List Message) (s : Local)
      → GetRespIsValid resp
      → (resp.status == 0) ≡ true
      → s.incoming ≡ resp_message resp ∷ ms
      → request faults cfg now t offset s ≡ (went resp, requested offset ms s)
  unfolding request ◌>>=◌ send_msg read_expect read_msg expect expect_payload read_resp pure
  request-requested offset resp ms s valid good e =
      rw
        (
          e,
          ap parse_get_resp (sym (append-nil (encode_get_resp resp)))
              ∙ parse_get_resp-encode resp [] valid,
          good,
        )
        refl

  -- the state once the part is open at the offset
  abbrev opened : GetResp → ℕ → Local → Local
  opened resp offset s =
      let files1 =
        put part
          (some (record { contents = contents_of faults cfg now t (s.files part); mtime = now }))
          s.files in
      record s {
        files =
            put part
              (some (record {
                contents = take offset (contents_of faults cfg now t (files1 part));
                mtime = now;
              }))
              files1;
        metas =
            put (cfg.meta_path t.relpath)
              (some (record { relpath = t.relpath; total = resp.total_size; mtime = resp.mtime }))
              s.metas;
      }

  -- from the answer on: what the rest of the function is given
  begins :
      (target : Bytes) (resp : GetResp) (ms : List Message) (s : Local)
      → GetRespIsValid resp
      → (resp.status == 0) ≡ true
      → s.incoming ≡ resp_message resp ∷ ms
      → let offset = part_size faults cfg now t (s.files part) in
        (ltb 0 offset && has_changed faults cfg now t (s.metas (cfg.meta_path t.relpath)) resp)
          ≡ false
        → full_download faults cfg now t target s
          ≡ (receive_all faults cfg now t resp.total_size offset >>= λ written.
                finish faults cfg now t target resp offset written)
              (opened resp offset (requested offset ms s))
  unfolding full_download check_changed write_meta open_part set_part check pure ◌>>=◌
  begins target resp ms s valid good e same =
      let offset = part_size faults cfg now t (s.files part) in
      rw (request-requested offset resp ms s valid good e, same) refl

  finished-Completed :
      (target contents before bytes : Bytes) (resp : GetResp) (ms rest : List Message)
      (s s' : Local)
      → let offset = part_size faults cfg now t (s.files part) in
        bytes_eq target part ≡ false
        → before ++ bytes ≡ contents
        → resp.total_size ≡ length contents
        → Received before bytes rest (opened resp offset (requested offset ms s)) s'
        → Completed target contents resp.mtime rest s (finished target resp s')
  finished-Completed target contents before bytes resp ms rest s s' apart whole total w =
      let offset = part_size faults cfg now t (s.files part) in
      let opened_other = λ (q : Bytes) (h : bytes_eq q part ≡ false).
        put-other part q _ _ h ∙ put-other part q _ s.files h in
      record {
        at_target =
            put-same target _ (put part none s'.files)
            ∙ ap (λ b. some (record { contents = b; mtime = resp.mtime })) (w.in_part ∙ whole);
        no_part =
            put-other target part _ (put part none s'.files) (bytes_eq_comm part target ∙ apart)
            ∙ put-same part none s'.files;
        no_meta = put-same (cfg.meta_path t.relpath) none s'.metas;
        other_files = λ q p g.
            put-other target q _ (put part none s'.files) g
            ∙ put-other part q none s'.files p
            ∙ w.other_files q p
            ∙ opened_other q p;
        indexed =
            ap (λ n. upsert_file (new_row n resp.mtime) s'.index) total
            ∙ ap (upsert_file (new_row (length contents) resp.mtime)) w.same_index;
        is_done = mark_task_done-status t.id now s'.tasks w.has_row;
        rest_left = w.rest_left;
      }

  -- A download completes. When the messages of the client are GET_RESP with the size and time of a
  -- file, parts that continue what the part file holds to the whole file, and FILE_END, then
  -- the attempt succeeds, counts the bytes that came, and leaves the client's bytes with the client's
  -- time at the target, no part and no .meta file, every other file as it was, the file's row in the
  -- index, and the task done. It has asked for the file from the end of the part on, and leaves what
  -- follows on the connection. Conditions: nothing is refused, the part file is not the target, the
  -- size and time fit their fields, an older .meta file agrees with the answer where there is a part,
  -- and the task is in the queue.
  pub full_download-Completed :
      (target contents : Bytes) (mtime : ℤ) (ds : List Bytes) (rest : List Message) (s : Local)
      → let resp : GetResp = record { status = 0; total_size = length contents; mtime = mtime } in
        bytes_eq target part ≡ false
        → length contents < 2 ^ 64
        → IsInt64 mtime
        → s.incoming ≡ resp_message resp ∷ (map data_message ds ++ end_message ∷ rest)
        → contents_of faults cfg now t (s.files part) ++ joined_parts ds ≡ contents
        → (ltb 0 (part_size faults cfg now t (s.files part))
            && has_changed faults cfg now t (s.metas (cfg.meta_path t.relpath)) resp)
          ≡ false
        → HasRow t.id s.tasks
        → (s' : Local) × ((full_download faults cfg now t target s
              ≡ (stopped (success (length (joined_parts ds))), s'))
            × (Completed target contents mtime rest s s'
                × (s'.sent
                    ≡ s.sent ++ request_message (part_size faults cfg now t (s.files part)) ∷ [])))
  full_download-Completed target contents mtime ds rest s apart small time e whole same row =
      let resp : GetResp = record { status = 0; total_size = length contents; mtime = mtime } in
      let valid : GetRespIsValid resp = record {
        status_fits = omega arith;
        total_size_fits = small;
        mtime_fits = time;
      } in
      let before = contents_of faults cfg now t (s.files part) in
      let offset = part_size faults cfg now t (s.files part) in
      let ms = map data_message ds ++ end_message ∷ rest in
      let s3 = opened resp offset (requested offset ms s) in
      let is_offset : offset ≡ length before = part_size-contents_of (s.files part) in
      let lengths : length contents ≡ length before + length (joined_parts ds) =
        ap length (sym whole) ∙ length-append before (joined_parts ds) in
      let kept : contents_of faults cfg now t (s3.files part) ≡ before =
        ap (contents_of faults cfg now t) (put-same part _ _)
        ∙ ap (λ f. take offset (contents_of faults cfg now t f)) (put-same part _ s.files)
        ∙ ap (λ n. take n before) is_offset
        ∙ take_all before in
      let (s', (run, w)) =
        receive-Received ds rest (length contents) offset offset before s3 kept row
          (omega (arith, lengths, is_offset)) in
      let sized : (length (contents_of faults cfg now t (s'.files part)) == length contents)
          ≡ true =
        (==_iff _ (length contents)).1 (ap length (w.in_part ∙ whole)) in
      (
        finished target resp s',
        (
          begins target resp ms s valid refl e same
              ∙ step-went (receive_all faults cfg now t (length contents) offset)
                  (λ written. finish faults cfg now t target resp offset written) s3 s'
                  (offset + length (joined_parts ds)) (unfold receive_all in run)
              ∙ finish-finished target resp offset (offset + length (joined_parts ds)) s' sized
              ∙ ap (λ n. (stopped (success n), finished target resp s')) (omega arith),
          (
            finished-Completed target contents before (joined_parts ds) resp ms rest s s' apart
                whole refl w,
            w.same_sent,
          ),
        ),
      )
