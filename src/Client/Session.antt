-- ===== src/Client/Session.antt =====
-- internal/client/client.go: handleConn after the exchange of passwords, and dispatch;
-- internal/client/fileserver.go: handleDisk.
pub mod Answers
pub mod Confined
pub mod Tests
use Prim.Native.Nat.{zero, suc}
use backuper.Prelude.{
  ℕ, Bool, true, false, Option, none, some, Bytes, utf8, List, [], ◌∷◌, ◌++◌, ◌==◌, if◌then◌else◌,
}
use backuper.Prelude.Int.{ℤ}
use backuper.Prelude.Steps.{Done, stopped, went, Steps}
use backuper.Protocol.Msg
use backuper.Protocol.Err
use backuper.Protocol.Err.{ProtoError, error_text}
use backuper.Protocol.Frame.{IoError, Message}
use backuper.Protocol.Messages.{
  ListReq, parse_list_req, GetReq, parse_get_req, PutReq, parse_put_req,
}
use backuper.Protocol.Messages.Lists.{
  DeltaReq, parse_delta_req, Hash, MountInfo, DiskResp, encode_disk_resp,
}
use backuper.Files.{StoredFile}
use backuper.Client.{Opens, Ended, returned, out_of_fuel, finish_with, finish_error}
use backuper.Client.Get.{handle_get}
use backuper.Client.Delta.{handle_delta}
use backuper.Client.Scan.{ScanConfig, Tree, handle_list}
use backuper.Client.Put.{Receiver, PutConfig, PutFaults, send, handle_put}

-- diskinfo.Usage
pub record Usage : Type 0 where
  pub total : ℕ  -- uint64
  pub free : ℕ  -- uint64

-- What the commands need: the configuration, the files and the walks that the system gives for the
-- client's files, diskinfo.Get of the directory, sha256.Sum256, the time, and the fuel of a GET.
-- `is_cancelled` is the context's state after the messages that were sent.
pub record SessionConfig : Type 0 where
  pub put : PutConfig
  pub scan : ScanConfig
  pub opens : (Bytes → Option StoredFile) → Opens
  pub trees : (Bytes → Option StoredFile) → Bytes → Tree
  pub usage : Done Bytes Usage
  pub sha256 : Bytes → Hash
  pub now : ℤ
  pub get_fuel : ℕ
  pub is_cancelled : List Message → Bool

-- Why the loop of handleConn returns.
pub data Closing : Type 0 where
  cancelled : Closing
  read_error : IoError → Closing
  command_error : IoError → Closing
  command_out_of_fuel : Closing
  session_out_of_fuel : Closing

module _ (faults : PutFaults) (cfg : SessionConfig) where
  abbrev pub disk_answer : Done Bytes Usage → Steps Receiver Ended Unit
  disk_answer (stopped t) = finish_error (send faults) Err.io_error (utf8 "diskinfo: " ++ t)
  disk_answer (went u) = finish_with (send faults) Msg.disk_resp (
      encode_disk_resp (record {
        mounts = record { mount = cfg.put.base.backup_dir; total = u.total; free = u.free } ∷ [];
      }))

  unfoldable pub handle_disk : Steps Receiver Ended Unit
  unfolding finish_error finish_with send
  handle_disk = disk_answer cfg.usage

  -- `req, err := protocol.Parse...(payload); if err != nil { return conn.SendError(...) }`
  unfoldable pub with_request :
      {R : Type 0}
      → Bytes
      → R × Option ProtoError
      → (R → Steps Receiver Ended Unit)
      → Steps Receiver Ended Unit
  unfolding finish_error finish_with send
  with_request label (req, none) handle = handle req
  with_request label (req, some e) handle =
      finish_error (send faults) Err.protocol_error (label ++ error_text e)

  unfoldable pub list_command : Bytes → Steps Receiver Ended Unit
  unfolding with_request handle_list
  list_command payload s =
      with_request (utf8 "LIST_REQ: ") (parse_list_req payload)
        (handle_list (send faults) cfg.put.base cfg.scan (cfg.trees s.files)) s

  unfoldable pub get_command : Bytes → Steps Receiver Ended Unit
  unfolding with_request handle_get
  get_command payload s =
      with_request (utf8 "GET_REQ: ") (parse_get_req payload)
        (handle_get (send faults) cfg.put.base (cfg.opens s.files) faults.wait cfg.get_fuel) s

  unfoldable pub delta_command : Bytes → Steps Receiver Ended Unit
  unfolding with_request handle_delta
  delta_command payload s =
      with_request (utf8 "GET_DELTA: ") (parse_delta_req payload)
        (handle_delta (send faults) cfg.put.base (cfg.opens s.files) faults.wait cfg.sha256) s

  unfoldable pub put_command : Bytes → Steps Receiver Ended Unit
  unfolding with_request handle_put
  put_command payload =
      with_request (utf8 "PUT_REQ: ") (parse_put_req payload) (handle_put faults cfg.put cfg.now)

  unfoldable pub dispatch : Message → Steps Receiver Ended Unit
  unfolding handle_disk list_command get_command delta_command put_command finish_error finish_with
      send
  dispatch m =
      if m.msg_type == Msg.ping
      then finish_with (send faults) Msg.pong []
      else if m.msg_type == Msg.list_req
      then list_command m.payload
      else if m.msg_type == Msg.get_req
      then get_command m.payload
      else if m.msg_type == Msg.get_delta
      then delta_command m.payload
      else if m.msg_type == Msg.put_req
      then put_command m.payload
      else if m.msg_type == Msg.disk_req
      then handle_disk
      else finish_error (send faults) Err.unsupported
          (utf8 "неизвестный тип " ++ Msg.name m.msg_type)

  -- `if err := s.dispatch(...); err != nil { return }`, and the next turn
  abbrev pub after_command :
      (Receiver → Closing × Receiver) → Done Ended Unit × Receiver → Closing × Receiver
  after_command next (went u, s) = next s
  after_command next (stopped (returned none), s) = next s
  after_command next (stopped (returned (some e)), s) = (command_error e, s)
  after_command next (stopped out_of_fuel, s) = (command_out_of_fuel, s)

  -- ReadMsg and dispatch
  abbrev pub turn : (Receiver → Closing × Receiver) → Receiver → List Message → Closing × Receiver
  turn next s [] = (read_error faults.closed, s)
  turn next s (m ∷ ms) = after_command next (dispatch m (record s { incoming = ms }))

  -- the loop, one unit of fuel for a turn
  unfoldable pub serve : ℕ → Receiver → Closing × Receiver
  unfolding dispatch
  serve zero s = (session_out_of_fuel, s)
  serve (suc fuel) s =
      let next = serve fuel in
      if cfg.is_cancelled s.sent then (cancelled, s) else turn next s s.incoming
