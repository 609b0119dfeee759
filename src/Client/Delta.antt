-- ===== src/Client/Delta.antt =====
-- internal/client/fileserver.go: handleDelta, the blocks that the server's old copy lacks.
pub mod Answers
use Prim.Native.Nat.{zero, suc}
use backuper.Prelude.{
  ℕ, ◌+◌, ◌*◌, Bool, true, false, not, Option, none, some, Bytes, utf8, ◌++◌, [], List, length,
  get_elem?, bytes_eq, ◌==◌, if◌then◌else◌,
}
use backuper.Prelude.Steps.{Done, stopped, went, Steps, ◌>>=◌, pure, check}
use backuper.Protocol.Msg
use backuper.Protocol.Err
use backuper.Protocol.Frame.{IoError, unexpected_eof, Message}
use backuper.Protocol.Messages.{DeltaResp, encode_delta_resp}
use backuper.Protocol.Messages.Lists.{DeltaReq, Hash}
use backuper.Protocol.Paths.{Joined, safe_join}
use backuper.Blocks.{block_count, block_len}
use backuper.Client.{
  ClientConfig, FileStat, ReadError, at_eof, read_failed, OpenFile, Opens, Ended, returned,
  write_msg, finish_with, fail_error, path_or_error, file_or_error, stat_or_error, finish_if,
}

-- the text of the error beside the bytes of ReadAt
unfoldable pub read_text : Option ReadError → Bytes
read_text none = utf8 "<nil>"
read_text (some at_eof) = utf8 "EOF"
read_text (some (read_failed t)) = t

-- `sha256` is sha256.Sum256.
module _ {W : Type 0} (send : Message → W → W × Option IoError) (cfg : ClientConfig) (opens : Opens)
    (wait : ℕ → ℕ → Option IoError) (sha256 : Bytes → Hash) where
  -- `i < len(req.Hashes) && h == req.Hashes[i]`
  unfoldable pub keeps : Option Hash → Bytes → Bool
  keeps none bytes = false
  keeps (some h) bytes = bytes_eq (sha256 bytes) h

  -- BLOCK_KEEP, or the block itself
  unfoldable pub send_block : ℕ → Option Hash → Bytes → Steps W Ended Unit
  unfolding keeps ◌>>=◌
  send_block position h bytes = if keeps h bytes then write_msg send Msg.block_keep [] else (do
    u ← check (wait position (length bytes)) (λ e. returned (some e))
    write_msg send Msg.file_data bytes)

  -- a block that is not read whole ends the answer
  unfoldable pub whole_block : Bytes → ℕ → Bytes × Option ReadError → Steps W Ended Bytes
  unfolding read_text
  whole_block name bl (bytes, e) =
      if length bytes == bl
      then pure bytes
      else fail_error send Err.io_error (utf8 "чтение блока " ++ name ++ utf8 ": " ++ read_text e)
          unexpected_eof

  -- the loop: `left` blocks from block i on
  unfoldable pub delta_blocks : DeltaReq → OpenFile → ℕ → ℕ → ℕ → Steps W Ended Unit
  unfolding ◌>>=◌ whole_block send_block
  delta_blocks req f size zero i = pure tt
  delta_blocks req f size (suc left) i = do
    bytes ←
        whole_block req.path (block_len req.block_size size i)
          (f.read (i * req.block_size) (block_len req.block_size size i))
    u ← send_block (i * req.block_size) (get_elem? req.hashes i) bytes
    delta_blocks req f size left (i + 1)

  unfoldable pub handle_delta : DeltaReq → Steps W Ended Unit
  unfolding ◌>>=◌ delta_blocks
  handle_delta req = do
    full ←
        path_or_error send cfg.join_text (utf8 "delta path: ")
          (safe_join cfg.cwd cfg.backup_dir req.path)
    a ← finish_if send (req.block_size == 0) Err.protocol_error (utf8 "delta block_size")
    f ← file_or_error send req.path (opens full)
    st ← stat_or_error send req.path f.stat
    b ← finish_if send st.is_dir Err.not_found (req.path ++ utf8 " — директория")
    c ←
        write_msg send Msg.delta_resp
          (encode_delta_resp (record { status = 0; total_size = st.size; mtime = st.mtime }))
    d ← delta_blocks req f st.size (block_count req.block_size st.size) 0
    finish_with send Msg.file_end []
