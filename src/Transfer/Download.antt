-- ===== src/Transfer/Download.antt =====
-- internal/transfer/transfer.go: downloadOne after its choice of a delta, with the resumption of a
-- file that is partly there.
pub mod Completes
pub mod Client
use backuper.Prelude.{
  ℕ, ◌+◌, ◌-◌, ◌*◌, Bool, true, false, not, ◌&&◌, ◌||◌, Option, none, some, Bytes, utf8, List, [],
  ◌∷◌, ◌++◌, length, take, ltb, leb, ◌==◌, if◌then◌else◌,
}
use backuper.Prelude.Int.{ℤ, pos, abs_int64, sub_int64, ltb_ℤ, of_word}
use backuper.Prelude.Steps.{Done, stopped, went, Steps, ◌>>=◌, pure, stop, check}
use backuper.Protocol.Msg
use backuper.Protocol.Err
use backuper.Protocol.Err.{ProtoError}
use backuper.Protocol.Frame.{IoError, eof, unexpected_eof, broken, proto, FrameRead, Message}
use backuper.Protocol.Conn.{Expected, refused_with, got, expect}
use backuper.Protocol.Messages.{
  GetReq, encode_get_req, GetResp, parse_get_resp, ErrorMsg, parse_error_msg,
}
use backuper.Protocol.Paths.{Joined, ok, err, safe_join, clean_rel, norm_key}
use backuper.Store.{FileRow, Task}
use backuper.Store.Files.{upsert_file}
use backuper.Store.Tasks.{update_task_offset, set_task_reset_offset, mark_task_done}
use backuper.Transfer.{Outcome}
use backuper.Files.{StoredFile, PartMeta, put}
use backuper.Transfer.Local.{
  Local, TransferConfig, Faults, failure, Run, remove, remove_meta, on_tasks, read_msg, send_msg,
}

-- outcome{ok: true, bytes: n}
abbrev pub success : ℕ → Outcome
success n = record {
  is_ok = true;
  bytes = n;
  drop_conn = false;
  code = 0;
  message = [];
  skip_now = false;
}

abbrev pub persist_every : ℕ
persist_every = 16 * 1048576

-- The three kinds of frame that the loop tells apart, and the others.
pub data Part : Type 0 where
  data_part end_part error_part other_part : Part

unfoldable pub part_kind : ℕ → Part
part_kind t =
    if t == Msg.file_data
    then data_part
    else if t == Msg.file_end
    then end_part
    else if t == Msg.error
    then error_part
    else other_part

-- a protocol error's outcome, and every other error's
unfoldable pub refused_outcome : (IoError → Bytes) → IoError → Outcome
refused_outcome text (proto e) = record (failure false e.code e.msg) {
  skip_now = e.code == Err.not_found;
}
refused_outcome text eof = failure true Err.io_error (text eof)
refused_outcome text unexpected_eof = failure true Err.io_error (text unexpected_eof)
refused_outcome text (broken t) = failure true Err.io_error (text (broken t))

module _ (faults : Faults) (cfg : TransferConfig) (now : ℤ) (t : Task) where
  unfoldable pub expect_payload : Expected → Run Bytes
  unfolding refused_outcome
  expect_payload (refused_with e) = stop (refused_outcome cfg.io_text e)
  expect_payload (got payload) = pure payload

  unfoldable pub read_expect : ℕ → Run Bytes
  unfolding ◌>>=◌ read_msg expect expect_payload
  read_expect expected = do f ← read_msg faults; expect_payload (expect expected f)

  -- ParseGetResp, and a status that is 0
  unfoldable pub read_resp : GetResp × Option ProtoError → Run GetResp
  read_resp (resp, some e) = stop (failure true Err.protocol_error (cfg.io_text (proto e)))
  read_resp (resp, none) =
      if resp.status == 0
      then pure resp
      else stop (failure false Err.io_error (utf8 "GET_RESP status != 0"))

  -- the size of the part file, where there is one
  abbrev pub part_size : Option StoredFile → ℕ
  part_size none = 0
  part_size (some f) = length f.contents

  -- `!hasMeta || prevMeta.Total != resp.TotalSize || absInt64(...) > tolerance`
  abbrev pub has_changed : Option PartMeta → GetResp → Bool
  has_changed none resp = true
  has_changed (some m) resp =
      not (m.total == resp.total_size)
      || ltb_ℤ cfg.mtime_tolerance (abs_int64 (sub_int64 m.mtime resp.mtime))

  -- the part is dropped and the task starts anew
  unfoldable pub start_anew : Outcome → Run Unit
  unfolding ◌>>=◌ remove remove_meta on_tasks set_task_reset_offset
  start_anew oc = do
    u ← remove (cfg.part_path t.relpath)
    v ← remove_meta (cfg.meta_path t.relpath)
    w ← on_tasks (set_task_reset_offset t.id now)
    stop oc

  unfoldable pub check_changed : ℕ → Option PartMeta → GetResp → Run Unit
  unfolding start_anew
  check_changed offset prev resp =
      if ltb 0 offset && has_changed prev resp
      then start_anew (failure true Err.bad_offset (utf8 "changed during resume"))
      else pure tt

  unfoldable pub write_meta : GetResp → Run Unit
  unfolding put
  write_meta resp s = (
    went tt,
    record s {
      metas =
          put (cfg.meta_path t.relpath)
            (some (record { relpath = t.relpath; total = resp.total_size; mtime = resp.mtime }))
            s.metas;
    },
  )

  abbrev pub contents_of : Option StoredFile → Bytes
  contents_of none = []
  contents_of (some f) = f.contents

  -- the contents of the part file are set; its time is the system's, `now`
  unfoldable pub set_part : (Bytes → Bytes) → Run Unit
  unfolding put
  set_part f s =
      let p = cfg.part_path t.relpath in
      (
        went tt,
        record s {
          files =
              put p (some (record { contents = f (contents_of (s.files p)); mtime = now })) s.files;
        },
      )

  -- OpenFile with O_CREATE, Truncate and Seek
  unfoldable pub open_part : ℕ → Run Unit
  unfolding ◌>>=◌ check set_part
  open_part offset = do
    a ← check faults.make_temp (failure false Err.io_error)
    b ← check faults.open_part (failure false Err.io_error)
    c ← set_part (λ b. b)
    d ← check faults.truncate (failure false Err.io_error)
    e ← set_part (take offset)
    check faults.seek (failure false Err.io_error)

  -- f.Write
  unfoldable pub write_part : ℕ → Bytes → Run Unit
  unfolding set_part ◌>>=◌
  write_part written bytes = elim (faults.write written (length bytes)) [
    | none ↦ set_part (λ b. b ++ bytes)
    | some x ↦ set_part (λ b. b ++ take x.0 bytes) >>= λ u. stop (failure false Err.io_error x.1)
  ]

  unfoldable pub wait_part : ℕ → Bytes → Run Unit
  unfolding ◌>>=◌ on_tasks update_task_offset
  wait_part written bytes =
      if faults.wait written (length bytes)
      then (do
        u ← on_tasks (update_task_offset t.id (pos written) now)
        stop (failure true Err.io_error (utf8 "отменено")))
      else pure tt

  unfoldable pub check_total : ℕ → ℕ → Run Unit
  unfolding start_anew
  check_total written total =
      if ltb total written
      then start_anew (failure true Err.size_mismatch (utf8 "превышение total_size"))
      else pure tt

  unfoldable pub persist : ℕ → ℕ → Run Unit
  unfolding on_tasks update_task_offset
  persist written last =
      if leb (last + persist_every) written
      then on_tasks (update_task_offset t.id (pos written) now)
      else pure tt

  -- one FILE_DATA
  unfoldable pub take_data : ℕ → ℕ → ℕ → Bytes → Run Unit
  unfolding ◌>>=◌ wait_part write_part check_total persist
  take_data total written last bytes = do
    a ← wait_part written bytes
    b ← write_part written bytes
    c ← check_total (written + length bytes) total
    persist (written + length bytes) last

  unfoldable pub lost : ℕ → Run ℕ
  unfolding ◌>>=◌ on_tasks update_task_offset
  lost written = do
    u ← on_tasks (update_task_offset t.id (pos written) now)
    stop (failure true Err.io_error (cfg.io_text faults.closed))

  abbrev pub next_last : ℕ → ℕ → ℕ
  next_last written last = if leb (last + persist_every) written then written else last

  -- the loop over the messages: the bytes that are written once FILE_END has come
  unfoldable pub receive : List Message → ℕ → ℕ → ℕ → Run ℕ
  unfolding ◌>>=◌ take_data lost part_kind
  receive [] total written last s = lost written s
  receive (m ∷ ms) total written last s =
      let s1 = record s { incoming = ms } in
      elim (part_kind m.msg_type) [
        | data_part ↦
            (take_data total written last m.payload >>= λ u.
            receive ms total (written + length m.payload)
              (next_last (written + length m.payload) last))
              s1
        | end_part ↦ (went written, s1)
        | error_part ↦
            let em = (parse_error_msg m.payload).0 in
            (stopped (failure false em.code em.message), s1)
        | other_part ↦ (
          stopped
              (failure true Err.protocol_error (utf8 "неожиданный кадр " ++ Msg.name m.msg_type)),
          s1,
        )
      ]

  unfoldable pub receive_all : ℕ → ℕ → Run ℕ
  unfolding receive
  receive_all total offset s = receive s.incoming total offset offset s

  -- Stat, and the size of the part
  unfoldable pub check_size : ℕ → Run Unit
  unfolding start_anew
  check_size total s =
      if length (contents_of (s.files (cfg.part_path t.relpath))) == total
      then (went tt, s)
      else start_anew (failure false Err.size_mismatch (utf8 "размер после передачи не совпал")) s

  -- Rename and Chtimes: the target is the part's contents with the client's time
  unfoldable pub install : Bytes → ℤ → Run Unit
  unfolding put
  install target mtime s =
      let p = cfg.part_path t.relpath in
      (
        went tt,
        record s {
          files =
              put target (some (record { contents = contents_of (s.files p); mtime = mtime }))
                (put p none s.files);
        },
      )

  unfoldable pub upsert_index : ℕ → ℤ → Run Unit
  unfolding clean_rel norm_key
  upsert_index total mtime s = elim faults.index [
    | some e ↦ (stopped (failure false Err.io_error (utf8 "индекс: " ++ e)), s)
    | none ↦ (
      went tt,
      record s {
        index =
            upsert_file
              (record {
                relpath = clean_rel t.relpath;
                relpath_norm = norm_key cfg.lower t.relpath;
                size = of_word total;
                mtime = mtime;
                updated_at = now;
              })
              s.index;
      },
    )
  ]

  -- from FILE_END to the outcome
  unfoldable pub finish : Bytes → GetResp → ℕ → ℕ → Run Unit
  unfolding ◌>>=◌ check check_size install remove_meta upsert_index on_tasks mark_task_done
  finish target resp offset written = do
    a ← check faults.sync (failure false Err.io_error)
    b ← check faults.stat_part (failure false Err.io_error)
    c ← check_size resp.total_size
    d ← check faults.make_dir (failure false Err.io_error)
    e ← check faults.rename (λ x. failure false Err.io_error (utf8 "rename: " ++ x))
    f ← install target resp.mtime
    g ← remove_meta (cfg.meta_path t.relpath)
    h ← upsert_index resp.total_size resp.mtime
    i ← on_tasks (mark_task_done t.id now)
    stop (success (written - offset))

  -- GET_REQ and GET_RESP
  unfoldable pub request : ℕ → Run GetResp
  unfolding ◌>>=◌ send_msg read_expect read_resp
  request offset = do
    a ←
        send_msg faults (λ e. failure true Err.io_error (cfg.io_text e)) Msg.get_req
          (encode_get_req (record { path = t.relpath; offset = offset }))
    payload ← read_expect Msg.get_resp
    read_resp (parse_get_resp payload)

  unfoldable pub full_download : Bytes → Run Unit
  unfolding ◌>>=◌ request check_changed write_meta open_part receive_all finish
  full_download target s =
      let offset = part_size (s.files (cfg.part_path t.relpath)) in
      let prev = s.metas (cfg.meta_path t.relpath) in
      (do
        resp ← request offset
        a ← check_changed offset prev resp
        b ← write_meta resp
        c ← open_part offset
        written ← receive_all resp.total_size offset
        finish target resp offset written)
        s
