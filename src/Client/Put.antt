-- ===== src/Client/Put.antt =====
-- internal/client/fileserver.go: handlePut, which takes a file that the server restores.
pub mod Restored
pub mod Keeps
use backuper.Prelude.{
  ℕ, ◌+◌, Bool, true, false, not, ◌&&◌, ◌||◌, Option, none, some, Bytes, utf8, List, [], ◌∷◌, ◌++◌,
  length, take, ltb, ◌==◌, if◌then◌else◌,
}
use backuper.Prelude.Int.{ℤ, ltb_ℤ, abs_int64, sub_int64}
use backuper.Prelude.Steps.{Done, stopped, went, Steps, ◌>>=◌, pure, stop, change, check}
use backuper.Protocol.Msg
use backuper.Protocol.Err
use backuper.Protocol.Frame.{IoError, Message}
use backuper.Protocol.Messages.{PutReq, PutResp, encode_put_resp}
use backuper.Protocol.Paths.{Joined, safe_join}
use backuper.Files.{StoredFile, PartMeta, put}
use backuper.Client.{
  ClientConfig, Ended, returned, write_msg, finish_with, finish_error, path_or_error,
}

-- The client's files and .meta files, and the messages that come and are sent.
pub record Receiver : Type 0 where
  pub files : Bytes → Option StoredFile
  pub metas : Bytes → Option PartMeta
  pub incoming : List Message
  pub sent : List Message

-- The part of Config for a restore, with the names of the .part and .meta files (a SHA-1 digest).
pub record PutConfig : Type 0 where
  pub base : ClientConfig
  pub mtime_tolerance : ℤ
  pub part_path : Bytes → Bytes
  pub meta_path : Bytes → Bytes

-- What the system refuses, with the text of the error: `send` after the messages that were sent,
-- `wait position n` the limiter, `write position n` a write of n bytes that has written some of
-- them. `meta` says that the .meta file is not written, and `closed` is the error of ReadMsg once
-- the connection has nothing more.
pub record PutFaults : Type 0 where
  pub send : List Message → Option IoError
  pub closed : IoError
  pub make_temp : Option Bytes
  pub meta : Bool
  pub open_part : Option Bytes
  pub truncate : Option Bytes
  pub seek : Option Bytes
  pub wait : ℕ → ℕ → Option IoError
  pub write : ℕ → ℕ → Option (ℕ × Bytes)
  pub sync : Option Bytes
  pub stat_part : Bool
  pub make_dir : Option Bytes
  pub rename : Option Bytes

-- The frames that the loop tells apart.
pub data PutFrame : Type 0 where
  data_frame end_frame error_frame other_frame : PutFrame

unfoldable pub frame_kind : ℕ → PutFrame
frame_kind t =
    if t == Msg.file_data
    then data_frame
    else if t == Msg.file_end
    then end_frame
    else if t == Msg.error
    then error_frame
    else other_frame

abbrev pub send_outcome : Message → Receiver → Option IoError → Receiver × Option IoError
send_outcome m s none = (record s { sent = s.sent ++ m ∷ [] }, none)
send_outcome m s (some e) = (s, some e)

unfoldable pub send : PutFaults → Message → Receiver → Receiver × Option IoError
send faults m s = send_outcome m s (faults.send s.sent)

module _ (faults : PutFaults) (cfg : PutConfig) (now : ℤ) (req : PutReq) where
  abbrev pub Run : Type 0 → Type 0
  Run A = Steps Receiver Ended A

  abbrev pub part : Bytes
  part = cfg.part_path req.path

  abbrev pub meta : Bytes
  meta = cfg.meta_path req.path

  -- `if err != nil { return conn.SendError(protocol.ErrIOError, label + "%v", err) }`
  unfoldable pub refuse_if : Option Bytes → Bytes → Run Unit
  unfolding send
  refuse_if none label = pure tt
  refuse_if (some t) label = finish_error (send faults) Err.io_error (label ++ t)

  unfoldable pub remove_both : Run Unit
  unfolding put
  remove_both s =
      (went tt, record s { files = put part none s.files; metas = put meta none s.metas })

  abbrev pub contents_of : Option StoredFile → Bytes
  contents_of none = []
  contents_of (some f) = f.contents

  -- `!ok || pm.Total != req.TotalSize || absI64(...) > tolerance`
  abbrev pub has_changed : Option PartMeta → Bool
  has_changed none = true
  has_changed (some m) =
      not (m.total == req.total_size)
      || ltb_ℤ cfg.mtime_tolerance (abs_int64 (sub_int64 m.mtime req.mtime))

  -- the part is of no use for this file
  abbrev pub is_stale : Receiver → Bool
  is_stale s =
      let size = length (contents_of (s.files part)) in
      ltb 0 size && (has_changed (s.metas meta) || ltb req.total_size size)

  -- where the server shall go on: the part's size, or 0 once it is dropped
  unfoldable pub resume_offset : Run ℕ
  unfolding remove_both ◌>>=◌
  resume_offset s =
      if is_stale s
      then (remove_both >>= λ u. pure 0) s
      else (went (length (contents_of (s.files part))), s)

  unfoldable pub answer : ℕ → ℕ → Run Unit
  unfolding send
  answer status resume =
      write_msg (send faults) Msg.put_resp
        (encode_put_resp (record { status = status; resume_offset = resume }))

  -- `return conn.WriteMsg(protocol.MsgPutResp, ...)`
  unfoldable pub finish_answer : {A : Type 0} → ℕ → Run A
  unfolding send
  finish_answer status =
      finish_with (send faults) Msg.put_resp
        (encode_put_resp (record { status = status; resume_offset = 0 }))

  unfoldable pub save_meta : Run Unit
  unfolding put
  save_meta s = if faults.meta then (went tt, s) else (
    went tt,
    record s {
      metas =
          put meta (some (record { relpath = req.path; total = req.total_size; mtime = req.mtime }))
            s.metas;
    },
  )

  -- the part's contents change; its time is the system's, `now`
  unfoldable pub set_part : (Bytes → Bytes) → Run Unit
  unfolding put
  set_part f s = (
    went tt,
    record s {
      files =
          put part (some (record { contents = f (contents_of (s.files part)); mtime = now }))
            s.files;
    },
  )

  -- OpenFile with O_CREATE, Truncate and Seek
  unfoldable pub open_part : ℕ → Run Unit
  unfolding ◌>>=◌ refuse_if set_part
  open_part resume = do
    a ← refuse_if faults.open_part (utf8 "open part: ")
    b ← set_part (λ c. c)
    d ← refuse_if faults.truncate (utf8 "truncate: ")
    e ← set_part (take resume)
    refuse_if faults.seek (utf8 "seek: ")

  unfoldable pub write_part : ℕ → Bytes → Run Unit
  unfolding ◌>>=◌ set_part send
  write_part written bytes = elim (faults.write written (length bytes)) [
    | none ↦ set_part (λ b. b ++ bytes)
    | some x ↦ set_part (λ b. b ++ take x.0 bytes) >>= λ u.
        finish_error (send faults) Err.io_error (utf8 "запись: " ++ x.1)
  ]

  -- the size is wrong: the part is dropped, and the server hears of it
  unfoldable pub reject : {A : Type 0} → Run A
  unfolding ◌>>=◌ remove_both finish_answer
  reject = remove_both >>= λ u. finish_answer 1

  -- one FILE_DATA
  unfoldable pub take_data : ℕ → Bytes → Run Unit
  unfolding ◌>>=◌ write_part reject
  take_data written bytes = do
    a ← check (faults.wait written (length bytes)) (λ e. returned (some e))
    b ← write_part written bytes
    if ltb req.total_size (written + length bytes) then reject else pure tt

  -- the loop over the messages
  unfoldable pub receive : List Message → ℕ → Run Unit
  unfolding ◌>>=◌ take_data frame_kind send
  receive [] written s = (stopped (returned (some faults.closed)), record s { incoming = [] })
  receive (m ∷ ms) written s =
      let s1 = record s { incoming = ms } in
      elim (frame_kind m.msg_type) [
        | data_frame ↦
            (take_data written m.payload >>= λ u. receive ms (written + length m.payload)) s1
        | end_frame ↦ (went tt, s1)
        | error_frame ↦ (stopped (returned none), s1)
        | other_frame ↦
            finish_error (send faults) Err.protocol_error
              (utf8 "неожиданный кадр " ++ Msg.name m.msg_type) s1
      ]

  unfoldable pub receive_all : ℕ → Run Unit
  unfolding receive
  receive_all resume s = receive s.incoming resume s

  -- Stat of the part
  unfoldable pub check_size : Run Unit
  unfolding reject
  check_size s =
      if faults.stat_part || not (length (contents_of (s.files part)) == req.total_size)
      then reject s
      else (went tt, s)

  -- Rename and Chtimes
  unfoldable pub install : Bytes → Run Unit
  unfolding put
  install full s = (
    went tt,
    record s {
      files =
          put full (some (record { contents = contents_of (s.files part); mtime = req.mtime }))
            (put part none s.files);
      metas = put meta none s.metas;
    },
  )

  -- from FILE_END on
  unfoldable pub finish : Bytes → Run Unit
  unfolding ◌>>=◌ refuse_if check_size install finish_answer
  finish full = do
    a ← refuse_if faults.sync (utf8 "fsync: ")
    b ← check_size
    c ← refuse_if faults.make_dir (utf8 "mkdir: ")
    d ← refuse_if faults.rename (utf8 "rename: ")
    e ← install full
    finish_answer 0

  unfoldable pub handle_put : Run Unit
  unfolding ◌>>=◌ send refuse_if resume_offset answer save_meta open_part receive_all finish
  handle_put = do
    full ←
        path_or_error (send faults) cfg.base.join_text (utf8 "PUT path: ")
          (safe_join cfg.base.cwd cfg.base.backup_dir req.path)
    a ← refuse_if faults.make_temp (utf8 "temp: ")
    resume ← resume_offset
    b ← answer 0 resume
    c ← save_meta
    d ← open_part resume
    e ← receive_all resume
    finish full
