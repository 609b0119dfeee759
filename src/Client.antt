-- ===== src/Client.antt =====
-- internal/client: the listener on the client, which answers the server's requests. This file holds
-- what the handlers share: the configuration, the files they open, and the messages they send.
pub mod Get
pub mod Delta
pub mod Scan
pub mod Put
pub mod Session
pub mod Keeps
mod Tests
use backuper.Prelude.{
  ℕ, Bool, Option, none, some, Bytes, utf8, List, [], ◌∷◌, ◌++◌, ◌+◌, ◌-◌, ltb, take, drop,
  if◌then◌else◌,
}
use backuper.Prelude.Int.{ℤ}
use backuper.Prelude.Steps.{Done, stopped, went, Steps, pure}
use backuper.Protocol.Msg
use backuper.Protocol.Err
use backuper.Protocol.Frame.{IoError, Message}
use backuper.Protocol.Messages.{ErrorMsg, encode_error_msg}
use backuper.Protocol.Paths.{JoinError, Joined, ok, err}

-- The part of Config that the handlers use, with the directory that filepath.Abs asks for, and the
-- text of SafeJoin's errors.
pub record ClientConfig : Type 0 where
  pub backup_dir : Bytes
  pub chunk_size : ℕ
  pub cwd : Option Bytes
  pub join_text : JoinError → Bytes

-- Why os.Open fails; each with the error's text.
pub data OpenError : Type 0 where
  not_exist : Bytes → OpenError
  no_permission : Bytes → OpenError
  other : Bytes → OpenError

unfoldable pub map_open_err : OpenError → ℕ
map_open_err (not_exist t) = Err.not_found
map_open_err (no_permission t) = Err.permission_denied
map_open_err (other t) = Err.io_error

unfoldable pub open_text : OpenError → Bytes
open_text (not_exist t) = t
open_text (no_permission t) = t
open_text (other t) = t

pub record FileStat : Type 0 where
  pub is_dir : Bool
  pub size : ℕ
  pub mtime : ℤ

-- What a read of n bytes at a position gives: the bytes, and an error if there is one.
pub data ReadError : Type 0 where
  at_eof : ReadError
  read_failed : Bytes → ReadError

pub record OpenFile : Type 0 where
  pub stat : Done Bytes FileStat
  pub seek : ℕ → Option Bytes
  pub read : ℕ → ℕ → Bytes × Option ReadError

-- A file that the system reads without an error, and whose reads are as long as they can be.
unfoldable pub plain_file : Bytes → ℤ → ℕ → OpenFile
plain_file contents mtime size = record {
  stat = went (record { is_dir = Bool.false; size = size; mtime = mtime });
  seek = λ n. none;
  read = λ position n. (take n (drop position contents), none);
}

-- os.Open on the client
abbrev pub Opens : Type 0
Opens = Bytes → Done OpenError OpenFile

-- How a handler ends: it returns an error or none, or its loop has run out of fuel.
pub data Ended : Type 0 where
  returned : Option IoError → Ended
  out_of_fuel : Ended

-- `send m w` writes a message to the connection.
module _ {W : Type 0} (send : Message → W → W × Option IoError) where
  abbrev pub after_send : W × Option IoError → Done Ended Unit × W
  after_send (w, none) = (went tt, w)
  after_send (w, some e) = (stopped (returned (some e)), w)

  -- `if err := conn.WriteMsg(...); err != nil { return err }`
  unfoldable pub write_msg : ℕ → Bytes → Steps W Ended Unit
  write_msg msg_type payload w =
      after_send (send (record { msg_type = msg_type; payload = payload }) w)

  abbrev pub last_sent : {A : Type 0} → W × Option IoError → Done Ended A × W
  last_sent (w, e) = (stopped (returned e), w)

  -- `return conn.WriteMsg(...)`
  unfoldable pub finish_with : {A : Type 0} → ℕ → Bytes → Steps W Ended A
  finish_with msg_type payload w =
      last_sent (send (record { msg_type = msg_type; payload = payload }) w)

  -- `return conn.SendError(...)`
  unfoldable pub finish_error : {A : Type 0} → ℕ → Bytes → Steps W Ended A
  unfolding finish_with
  finish_error code text =
      finish_with Msg.error (encode_error_msg (record { code = code; message = text }))

  -- `_ = conn.SendError(...); return err`
  unfoldable pub fail_error : {A : Type 0} → ℕ → Bytes → IoError → Steps W Ended A
  fail_error code text e w =
      let (w', sent) =
        send
          (record {
            msg_type = Msg.error;
            payload = encode_error_msg (record { code = code; message = text });
          })
          w in
      (stopped (returned (some e)), w')

  -- The steps that the handlers of a file share: `name` is the path in the request.
  unfoldable pub path_or_error : (JoinError → Bytes) → Bytes → Joined → Steps W Ended Bytes
  unfolding finish_error
  path_or_error join_text label (ok full) = pure full
  path_or_error join_text label (err e) = finish_error Err.protocol_error (label ++ join_text e)

  unfoldable pub file_or_error : Bytes → Done OpenError OpenFile → Steps W Ended OpenFile
  unfolding finish_error
  file_or_error name (went f) = pure f
  file_or_error name (stopped e) = finish_error (map_open_err e) (name ++ utf8 ": " ++ open_text e)

  unfoldable pub stat_or_error : Bytes → Done Bytes FileStat → Steps W Ended FileStat
  unfolding finish_error
  stat_or_error name (went st) = pure st
  stat_or_error name (stopped t) =
      finish_error Err.io_error (utf8 "stat " ++ name ++ utf8 ": " ++ t)

  -- `if test { return conn.SendError(...) }`
  unfoldable pub finish_if : Bool → ℕ → Bytes → Steps W Ended Unit
  unfolding finish_error
  finish_if test code text = if test then finish_error code text else pure tt

-- A connection in memory takes every message.
unfoldable pub append_message : Message → List Message → List Message × Option IoError
append_message m sent = (sent ++ m ∷ [], none)
