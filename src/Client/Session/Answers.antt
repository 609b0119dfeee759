-- ===== src/Client/Session/Answers.antt =====
-- The commands that the client answers with one message: the turns of the loop for them.
use Prim.Native.Nat.{zero, suc}
use backuper.Prelude.{
  ℕ, ◌≡◌, refl, sym, ◌<◌, false, none, some, Bytes, utf8, List, [], ◌∷◌, ◌++◌, length, ◌==◌, arith,
  append_assoc, append-nil,
}
use backuper.Prelude.Steps.{Done, stopped, went}
use backuper.Protocol.Msg
use backuper.Protocol.Err
use backuper.Protocol.Err.{ProtoError, error_text}
use backuper.Protocol.Frame.{Message}
use backuper.Protocol.Messages.{
  ListReq, parse_list_req, GetReq, parse_get_req, PutReq, parse_put_req, encode_error_msg,
}
use backuper.Protocol.Messages.Lists.{DeltaReq, parse_delta_req, encode_disk_resp}
use backuper.Client.{returned, finish_with, finish_error}
use backuper.Client.Put.{Receiver, PutFaults, send}
use backuper.Client.Session.{
  Usage, SessionConfig, read_error, disk_answer, handle_disk, with_request, list_command,
  get_command, delta_command, put_command, dispatch, serve,
}

abbrev pub error_message : ℕ → Bytes → Message
error_message code text = record {
  msg_type = Msg.error;
  payload = encode_error_msg (record { code = code; message = text });
}

abbrev pub pong_message : Message
pong_message = record { msg_type = Msg.pong; payload = [] }

-- the answer to DISK_REQ
abbrev pub disk_message : Bytes → Done Bytes Usage → Message
disk_message dir (stopped t) = error_message Err.io_error (utf8 "diskinfo: " ++ t)
disk_message dir (went u) = record {
  msg_type = Msg.disk_resp;
  payload =
      encode_disk_resp
        (record { mounts = record { mount = dir; total = u.total; free = u.free } ∷ [] });
}

-- A type that is none of the commands.
pub record IsUnknown (t : ℕ) : Type 0 where
  pub not_ping : (t == Msg.ping) ≡ false
  pub not_list : (t == Msg.list_req) ≡ false
  pub not_get : (t == Msg.get_req) ≡ false
  pub not_delta : (t == Msg.get_delta) ≡ false
  pub not_put : (t == Msg.put_req) ≡ false
  pub not_disk : (t == Msg.disk_req) ≡ false

-- A command and the message that answers it: PING, DISK_REQ, a type that is no command, and a
-- payload that is not read.
pub data Answered (dir : Bytes) (usage : Done Bytes Usage) : Message → Message → Type 0 where
  ping_answered :
      (p : Bytes) → Answered dir usage (record { msg_type = Msg.ping; payload = p }) pong_message
  disk_answered :
      (p : Bytes)
      → Answered dir usage
          (record { msg_type = Msg.disk_req; payload = p })
          (disk_message dir usage)
  unknown_answered :
      (t : ℕ) (p : Bytes)
      → IsUnknown t
      → Answered dir usage
          (record { msg_type = t; payload = p })
          (error_message Err.unsupported (utf8 "неизвестный тип " ++ Msg.name t))
  list_answered :
      (p : Bytes) (req : ListReq) (e : ProtoError)
      → parse_list_req p ≡ (req, some e)
      → Answered dir usage
          (record { msg_type = Msg.list_req; payload = p })
          (error_message Err.protocol_error (utf8 "LIST_REQ: " ++ error_text e))
  get_answered :
      (p : Bytes) (req : GetReq) (e : ProtoError)
      → parse_get_req p ≡ (req, some e)
      → Answered dir usage
          (record { msg_type = Msg.get_req; payload = p })
          (error_message Err.protocol_error (utf8 "GET_REQ: " ++ error_text e))
  delta_answered :
      (p : Bytes) (req : DeltaReq) (e : ProtoError)
      → parse_delta_req p ≡ (req, some e)
      → Answered dir usage
          (record { msg_type = Msg.get_delta; payload = p })
          (error_message Err.protocol_error (utf8 "GET_DELTA: " ++ error_text e))
  put_answered :
      (p : Bytes) (req : PutReq) (e : ProtoError)
      → parse_put_req p ≡ (req, some e)
      → Answered dir usage
          (record { msg_type = Msg.put_req; payload = p })
          (error_message Err.protocol_error (utf8 "PUT_REQ: " ++ error_text e))

-- Commands, each with its answer.
pub data AllAnswered (dir : Bytes) (usage : Done Bytes Usage)
    : List Message → List Message → Type 0 where
  no_commands : AllAnswered dir usage [] []
  command_answered :
      (m r : Message) (ms rs : List Message)
      → Answered dir usage m r
      → AllAnswered dir usage ms rs
      → AllAnswered dir usage (m ∷ ms) (r ∷ rs)

module _ (faults : PutFaults) (cfg : SessionConfig)
    (taken : (ms : List Message) → faults.send ms ≡ none) where
  abbrev with_sent : Message → Receiver → Receiver
  with_sent m s = record s { sent = s.sent ++ m ∷ [] }

  finish_with-sent :
      (t : ℕ) (p : Bytes) (s : Receiver)
      → finish_with (send faults) {A = Unit} t p s
        ≡ (stopped (returned none), with_sent (record { msg_type = t; payload = p }) s)
  unfolding finish_with send
  finish_with-sent t p s = rw (taken s.sent) refl

  finish_error-sent :
      (code : ℕ) (text : Bytes) (s : Receiver)
      → finish_error (send faults) {A = Unit} code text s
        ≡ (stopped (returned none), with_sent (error_message code text) s)
  unfolding finish_error
  finish_error-sent code text s = finish_with-sent Msg.error _ s

  disk_answer-sent :
      (u : Done Bytes Usage) (s : Receiver)
      → disk_answer faults cfg u s
        ≡ (stopped (returned none), with_sent (disk_message cfg.put.base.backup_dir u) s)
  disk_answer-sent (went u) s = finish_with-sent Msg.disk_resp _ s
  disk_answer-sent (stopped t) s = finish_error-sent Err.io_error _ s

  handle_disk-sent :
      (s : Receiver)
      → handle_disk faults cfg s
        ≡ (stopped (returned none), with_sent (disk_message cfg.put.base.backup_dir cfg.usage) s)
  unfolding handle_disk
  handle_disk-sent s = disk_answer-sent cfg.usage s

  dispatch-Answered :
      (m r : Message) (s : Receiver)
      → Answered cfg.put.base.backup_dir cfg.usage m r
      → dispatch faults cfg m s ≡ (stopped (returned none), with_sent r s)
  unfolding dispatch with_request list_command get_command delta_command put_command
  dispatch-Answered _ _ s (ping_answered p) = finish_with-sent Msg.pong [] s
  dispatch-Answered _ _ s (disk_answered p) = handle_disk-sent s
  dispatch-Answered _ _ s (unknown_answered t p h) =
      rw (h.not_ping, h.not_list, h.not_get, h.not_delta, h.not_put, h.not_disk)
        (finish_error-sent Err.unsupported _ s)
  dispatch-Answered _ _ s (list_answered p req e h) =
      rw h (finish_error-sent Err.protocol_error _ s)
  dispatch-Answered _ _ s (get_answered p req e h) = rw h (finish_error-sent Err.protocol_error _ s)
  dispatch-Answered _ _ s (delta_answered p req e h) =
      rw h (finish_error-sent Err.protocol_error _ s)
  dispatch-Answered _ _ s (put_answered p req e h) = rw h (finish_error-sent Err.protocol_error _ s)

  -- With nothing that refuses a message or ends the session, each of the commands PING, DISK_REQ,
  -- one of an unknown type and one whose payload is not read is answered by its one message, in
  -- the order of the commands and whatever came before; the session ends with the connection.
  pub serve-AllAnswered :
      (ms rs : List Message) (fuel : ℕ) (s : Receiver)
      → AllAnswered cfg.put.base.backup_dir cfg.usage ms rs
      → ((sent : List Message) → cfg.is_cancelled sent ≡ false)
      → length ms < fuel
      → serve faults cfg fuel (record s { incoming = ms })
        ≡ (read_error faults.closed, record s { incoming = []; sent = s.sent ++ rs })
  unfolding serve
  serve-AllAnswered ms rs zero s h going enough = absurd (omega arith)
  serve-AllAnswered _ _ (suc fuel) s no_commands going enough = rw (going s.sent, append-nil) refl
  serve-AllAnswered _ _ (suc fuel) s (command_answered m r ms rs a h) going enough =
      rw
        (
          going s.sent,
          dispatch-Answered m r (record s { incoming = ms }) a,
          sym (append_assoc s.sent (r ∷ []) rs),
        )
        (serve-AllAnswered ms rs fuel (with_sent r s) h going (omega arith))
