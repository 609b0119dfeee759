-- ===== src/Server/Restore/Send.antt =====
-- internal/server/restore.go: sendRestoreFile, which offers a file to the client and sends what is
-- missing there.
pub mod Client
use backuper.Prelude.{
  ℕ, ◌-◌, Bool, true, false, Option, none, some, Bytes, utf8, dec, List, [], ◌∷◌, ◌++◌, ltb, ◌==◌,
  if◌then◌else◌,
}
use backuper.Prelude.Steps.{Done, stopped, went, Steps, ◌>>=◌, pure, stop}
use backuper.Protocol.Msg
use backuper.Protocol.Frame.{IoError, broken, Message, FrameRead}
use backuper.Protocol.Conn.{Expected, refused_with, got, expect}
use backuper.Protocol.Messages.{PutReq, encode_put_req, PutResp, parse_put_resp}
use backuper.Protocol.Paths.{Joined, ok, err, JoinError, safe_join}
use backuper.Client.{OpenError, open_text, FileStat, OpenFile, Opens}
use backuper.Chunks.{chunk_loop}

-- The messages that come and are sent on a data connection.
pub record Link : Type 0 where
  pub incoming : List Message
  pub sent : List Message

pub record RestoreConfig : Type 0 where
  pub storage_dir : Bytes
  pub cwd : Option Bytes
  pub chunk_size : ℕ
  pub join_text : JoinError → Bytes

-- How sendRestoreFile ends: with an error, which is its text or the connection's, with none, or its
-- loop has run out of fuel.
pub data SendEnd : Type 0 where
  restored : SendEnd
  failed : IoError → SendEnd
  out_of_fuel : SendEnd

-- `closed` is the error of a connection that has nothing more to read, `refused` the error of a
-- write after the messages that were sent, if it fails.
module _ (closed : IoError) (refused : List Message → Option IoError) (cfg : RestoreConfig)
    (opens : Opens) where
  abbrev pub Sending : Type 0 → Type 0
  Sending A = Steps Link SendEnd A

  abbrev write_outcome : Message → Option IoError → Sending Unit
  write_outcome m none l = (went tt, record l { sent = l.sent ++ m ∷ [] })
  write_outcome m (some e) l = (stopped (failed e), l)

  unfoldable pub write_msg : ℕ → Bytes → Sending Unit
  write_msg msg_type payload l =
      write_outcome (record { msg_type = msg_type; payload = payload }) (refused l.sent) l

  abbrev frame : Message → FrameRead
  frame m = record { msg_type = m.msg_type; payload = m.payload; err = none; left = [] }

  abbrev parsed : Expected → Link → Done SendEnd PutResp × Link
  parsed (refused_with e) l = (stopped (failed e), l)
  parsed (got payload) l = (went (parse_put_resp payload).0, l)

  -- ReadExpect of PUT_RESP; an error of ParsePutResp is ignored
  unfoldable pub read_put_resp : Sending PutResp
  unfolding expect
  read_put_resp l = elim l.incoming [
    | [] ↦ (stopped (failed closed), l)
    | m ∷ ms ↦ parsed (expect Msg.put_resp (frame m)) (record l { incoming = ms })
  ]

  unfoldable pub storage_path : Joined → Sending Bytes
  storage_path (ok path) = pure path
  storage_path (err e) = stop (failed (broken (cfg.join_text e)))

  unfoldable pub open_stored : Done OpenError OpenFile → Sending OpenFile
  open_stored (went f) = pure f
  open_stored (stopped e) = stop (failed (broken (open_text e)))

  unfoldable pub stat_stored : Done Bytes FileStat → Sending FileStat
  stat_stored (went st) = pure st
  stat_stored (stopped t) = stop (failed (broken t))

  -- the client's offset, 0 for one behind the end of the file
  unfoldable pub resume_from : PutResp → ℕ → ℕ
  resume_from resp total = if ltb total resp.resume_offset then 0 else resp.resume_offset

  -- `if resume > 0 { f.Seek ... }`
  unfoldable pub seek_stored : OpenFile → ℕ → Sending Unit
  seek_stored f resume = elim (ltb 0 resume) [
    | false ↦ pure tt
    | true ↦ elim (f.seek resume) [ none ↦ pure tt | some t ↦ stop (failed (broken t)) ]
  ]

  unfoldable pub send_part : ℕ → Bytes → Sending Unit
  unfolding write_msg
  send_part position bytes = write_msg Msg.file_data bytes

  unfoldable pub read_failure : Bytes → Sending Unit
  read_failure t = stop (failed (broken t))

  unfoldable pub restore_loop : ℕ → OpenFile → ℕ → ℕ → Sending Unit
  unfolding send_part read_failure chunk_loop
  restore_loop fuel = chunk_loop cfg.chunk_size out_of_fuel send_part read_failure fuel

  -- the client's verdict
  unfoldable pub final_answer : PutResp → Sending Unit
  final_answer resp =
      if resp.status == 0
      then stop restored
      else stop
          (failed (broken (utf8 "клиент отверг файл (status=" ++ dec resp.status ++ utf8 ")")))

  unfoldable pub send_restore_file : ℕ → Bytes → Sending Unit
  unfolding ◌>>=◌ storage_path open_stored stat_stored write_msg read_put_resp resume_from
      seek_stored restore_loop final_answer
  send_restore_file fuel rel = do
    path ← storage_path (safe_join cfg.cwd cfg.storage_dir rel)
    f ← open_stored (opens path)
    st ← stat_stored f.stat
    a ←
        write_msg Msg.put_req (
          encode_put_req
            (record { path = rel; total_size = st.size; offset = 0; mtime = st.mtime }))
    resp ← read_put_resp
    b ← seek_stored f (resume_from resp st.size)
    c ← restore_loop fuel f (st.size - resume_from resp st.size) (resume_from resp st.size)
    d ← write_msg Msg.file_end []
    final ← read_put_resp
    final_answer final
