-- ===== src/Client/Get.antt =====
-- internal/client/fileserver.go: handleGet, the contents of a file from an offset on.
pub mod Sends
use Prim.Native.Nat.{zero, suc}
use backuper.Prelude.{
  ℕ, ◌+◌, ◌-◌, Bool, true, false, Option, none, some, Bytes, utf8, dec, ◌++◌, [], ◌∷◌, length, ltb,
  if◌then◌else◌,
}
use backuper.Prelude.Steps.{Done, stopped, went, Steps, ◌>>=◌, pure, stop, check}
use backuper.Protocol.Msg
use backuper.Protocol.Err
use backuper.Protocol.Frame.{Message, IoError, broken}
use backuper.Protocol.Messages.{GetReq, GetResp, encode_get_resp}
use backuper.Protocol.Paths.{Joined, ok, err, JoinError, safe_join}
use backuper.Chunks.{chunk_loop}
use backuper.Client.{
  ClientConfig, OpenError, map_open_err, open_text, FileStat, ReadError, at_eof, read_failed,
  OpenFile, Opens, Ended, returned, out_of_fuel, write_msg, finish_with, finish_error, fail_error,
  path_or_error, file_or_error, stat_or_error, finish_if,
}

-- `wait position n` is the limiter's wait for n bytes, which fails when the context is done.
module _ {W : Type 0} (send : Message → W → W × Option IoError) (cfg : ClientConfig) (opens : Opens)
    (wait : ℕ → ℕ → Option IoError) where
  unfoldable pub wait_for : ℕ → ℕ → Steps W Ended Unit
  wait_for position n = check (wait position n) (λ e. returned (some e))

  -- what is done with the bytes of a read
  unfoldable pub send_data : ℕ → Bytes → Steps W Ended Unit
  unfolding wait_for
  send_data position bytes = do
    u ← wait_for position (length bytes)
    write_msg send Msg.file_data bytes

  -- a read that has failed
  unfoldable pub read_error : Bytes → Bytes → Steps W Ended Unit
  read_error name t =
      fail_error send Err.io_error (utf8 "чтение " ++ name ++ utf8 ": " ++ t) (broken t)

  unfoldable pub get_loop : ℕ → Bytes → OpenFile → ℕ → ℕ → Steps W Ended Unit
  unfolding send_data read_error chunk_loop
  get_loop fuel name = chunk_loop cfg.chunk_size out_of_fuel send_data (read_error name) fuel

  -- `if req.Offset > 0 { f.Seek ... }`
  unfoldable pub seek_to : OpenFile → ℕ → Steps W Ended Unit
  seek_to f offset = elim (ltb 0 offset) [
    | false ↦ pure tt
    | true ↦ elim (f.seek offset) [
      | none ↦ pure tt
      | some t ↦ fail_error send Err.io_error (utf8 "seek: " ++ t) (broken t)
    ]
  ]

  unfoldable pub handle_get : ℕ → GetReq → Steps W Ended Unit
  unfolding get_loop seek_to
  handle_get fuel req = do
    full ←
        path_or_error send cfg.join_text (utf8 "GET path: ")
          (safe_join cfg.cwd cfg.backup_dir req.path)
    f ← file_or_error send req.path (opens full)
    st ← stat_or_error send req.path f.stat
    u ← finish_if send st.is_dir Err.not_found (req.path ++ utf8 " — директория")
    v ←
        finish_if send (ltb st.size req.offset) Err.bad_offset
          (utf8 "offset " ++ dec req.offset ++ utf8 " > размера " ++ dec st.size)
    x ←
        write_msg send Msg.get_resp
          (encode_get_resp (record { status = 0; total_size = st.size; mtime = st.mtime }))
    y ← seek_to f req.offset
    z ← get_loop fuel req.path f (st.size - req.offset) req.offset
    finish_with send Msg.file_end []
