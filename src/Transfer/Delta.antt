-- ===== src/Transfer/Delta.antt =====
-- internal/transfer/transfer.go: deltaDownload, which asks for the blocks that differ from the old
-- copy, and the choice that downloadOne makes. An end without an outcome (`went`) stands for fallback = true.
pub mod Rebuilds
pub mod Completes
use Prim.Native.Nat.{zero, suc}
use backuper.Prelude.{
  ℕ, ◌+◌, ◌-◌, ◌*◌, ◌%◌, ◌^◌, Bool, true, false, not, ◌&&◌, ◌||◌, Option, none, some, Bytes, utf8,
  List, [], ◌∷◌, ◌++◌, length, take, drop, ltb, leb, ◌==◌, if◌then◌else◌,
}
use backuper.Prelude.Int.{ℤ}
use backuper.Prelude.Steps.{Done, stopped, went, Steps, ◌>>=◌, pure, stop, check}
use backuper.Protocol.Msg
use backuper.Protocol.Err
use backuper.Protocol.Err.{ProtoError}
use backuper.Protocol.Frame.{IoError, FrameRead}
use backuper.Protocol.Messages.{DeltaResp, parse_delta_resp, parse_error_msg}
use backuper.Protocol.Messages.Lists.{DeltaReq, Hash, encode_delta_req}
use backuper.Protocol.Paths.{Joined, ok, err, safe_join}
use backuper.Store.{Task}
use backuper.Store.Tasks.{mark_task_done}
use backuper.Blocks.{block_count, block_len, read_block}
use backuper.Transfer.{Outcome}
use backuper.Files.{StoredFile}
use backuper.Transfer.Local.{
  Local, TransferConfig, Faults, failure, Run, remove, remove_meta, on_tasks, read_msg, send_msg,
}
use backuper.Transfer.Download.{
  success, contents_of, set_part, write_part, install, upsert_index, full_download,
}

module _ (faults : Faults) (cfg : TransferConfig) (now : ℤ) (t : Task) where
  -- the hashes of the old copy's blocks, `left` of them from block i on; none where a block cannot
  -- be read whole
  unfoldable pub old_hashes : Bytes → ℕ → ℕ → Option (List Hash)
  old_hashes old zero i = some []
  old_hashes old (suc left) i =
      let rest = old_hashes old left (i + 1) in
      if faults.read_old i then none else elim rest [
        | none ↦ none
        | some hs ↦ some (cfg.sha256 (read_block cfg.delta_block_size (length old) i old) ∷ hs)
      ]

  -- the checks before GET_DELTA: the frame of the hashes fits, the old copy can be read
  unfoldable pub hashes_to_send : Bytes → Option (List Hash)
  unfolding old_hashes
  hashes_to_send old =
      let n = block_count cfg.delta_block_size (length old) in
      if ltb cfg.max_frame (n * 32 + length t.relpath + 16) || faults.open_old
      then none
      else old_hashes old n 0

  -- what is made of the answer: `none` for a client that knows no delta
  unfoldable pub on_error_frame : Bytes → Run (Option DeltaResp)
  on_error_frame payload =
      let em = (parse_error_msg payload).0 in
      if em.code == Err.unsupported
      then pure none
      else stop (record (failure false em.code em.message) { skip_now = em.code == Err.not_found })

  unfoldable pub on_delta_resp : DeltaResp × Option ProtoError → Run (Option DeltaResp)
  on_delta_resp (resp, some e) = stop (failure true Err.protocol_error (utf8 "DELTA_RESP"))
  on_delta_resp (resp, none) =
      if resp.status == 0
      then pure (some resp)
      else stop (failure true Err.protocol_error (utf8 "DELTA_RESP"))

  unfoldable pub on_answer : FrameRead → Run (Option DeltaResp)
  unfolding on_error_frame on_delta_resp
  on_answer f = elim f.err [
    | some e ↦ stop (failure true Err.io_error (cfg.io_text e))
    | none ↦
        if f.msg_type == Msg.error
        then on_error_frame f.payload
        else if f.msg_type == Msg.delta_resp
        then on_delta_resp (parse_delta_resp f.payload)
        else stop (failure true Err.protocol_error (utf8 "ожидался DELTA_RESP"))
  ]

  unfoldable pub ask_delta : List Hash → Run (Option DeltaResp)
  unfolding ◌>>=◌ send_msg read_msg on_answer
  ask_delta hashes = do
    a ←
        send_msg faults (λ e. failure true Err.io_error (cfg.io_text e)) Msg.get_delta
          (encode_delta_req (record {
            path = t.relpath;
            block_size = cfg.delta_block_size % 2 ^ 32;
            hashes = hashes;
          }))
    f ← read_msg faults
    on_answer f

  -- BLOCK_KEEP: the old copy's bytes at the block's place, as many as the new file has there
  unfoldable pub keep_block : Bytes → ℕ → ℕ → ℕ → Run ℕ
  unfolding ◌>>=◌ write_part
  keep_block old size i position =
      let bytes =
        take (block_len cfg.delta_block_size size i) (drop (i * cfg.delta_block_size) old) in
      if faults.read_old i || not (length bytes == block_len cfg.delta_block_size size i)
      then stop (failure false Err.io_error (utf8 "чтение старого блока"))
      else (do u ← write_part faults cfg now t position bytes; pure 0)

  -- FILE_DATA: the block's bytes
  unfoldable pub literal_block : ℕ → ℕ → ℕ → Bytes → Run ℕ
  unfolding ◌>>=◌ write_part
  literal_block size i position bytes =
      if not (length bytes == block_len cfg.delta_block_size size i)
      then stop (failure true Err.protocol_error (utf8 "размер литерального блока"))
      else if faults.wait position (length bytes)
      then stop (failure true Err.io_error (utf8 "отменено"))
      else (do u ← write_part faults cfg now t position bytes; pure (length bytes))

  -- one block's message; the result is the number of bytes that came
  unfoldable pub take_block : Bytes → ℕ → ℕ → FrameRead → Run ℕ
  unfolding keep_block literal_block
  take_block old size i f = elim f.err [
    | some e ↦ stop (failure true Err.io_error (cfg.io_text e))
    | none ↦
        if f.msg_type == Msg.block_keep
        then keep_block old size i (i * cfg.delta_block_size)
        else if f.msg_type == Msg.file_data
        then literal_block size i (i * cfg.delta_block_size) f.payload
        else if f.msg_type == Msg.error
        then (let em = (parse_error_msg f.payload).0 in stop (failure false em.code em.message))
        else stop
            (failure true Err.protocol_error (utf8 "неожиданный кадр " ++ Msg.name f.msg_type))
  ]

  unfoldable pub take_blocks : Bytes → ℕ → ℕ → ℕ → ℕ → Run ℕ
  unfolding ◌>>=◌ read_msg take_block
  take_blocks old size zero i literal = pure literal
  take_blocks old size (suc left) i literal = do
    f ← read_msg faults
    n ← take_block old size i f
    take_blocks old size left (i + 1) (literal + n)

  unfoldable pub expect_end : FrameRead → Run Unit
  expect_end f = elim f.err [
    | some e ↦ stop (failure true Err.io_error (cfg.io_text e))
    | none ↦
        if f.msg_type == Msg.file_end
        then pure tt
        else stop (failure true Err.protocol_error (utf8 "ожидался FILE_END"))
  ]

  abbrev is_none : Option Bytes → Bool
  is_none none = true
  is_none (some e) = false

  -- `serr != nil || st.Size() != total`
  unfoldable pub check_delta_size : ℕ → Run Unit
  unfolding ◌>>=◌ remove
  check_delta_size total s =
      if is_none faults.stat_part
        && (length (contents_of faults cfg now t (s.files (cfg.part_path t.relpath))) == total)
      then (went tt, s)
      else (do
        u ← remove (cfg.part_path t.relpath)
        stop (failure false Err.size_mismatch (utf8 "размер после дельты не совпал")))
          s

  -- the rounds of the loop: none where the sum, or the size itself, is too large for an int64
  unfoldable pub rounds : ℕ → ℕ
  unfolding block_count
  rounds total =
      if ltb (total + cfg.delta_block_size - 1) (2 ^ 63)
      then block_count cfg.delta_block_size total
      else 0

  -- the blocks, FILE_END, and the new copy in the old one's place
  unfoldable pub receive_delta : Bytes → Bytes → DeltaResp → Run Unit
  unfolding ◌>>=◌ check remove_meta set_part rounds take_blocks read_msg expect_end check_delta_size
      install upsert_index on_tasks mark_task_done
  receive_delta old_path old resp = do
    a ← remove_meta (cfg.meta_path t.relpath)
    b ← check faults.make_temp (failure false Err.io_error)
    c ← check faults.open_part (failure false Err.io_error)
    d ← set_part faults cfg now t (λ b. [])
    literal ← take_blocks old resp.total_size (rounds resp.total_size) 0 0
    f ← read_msg faults
    e ← expect_end f
    g ← check faults.sync (failure false Err.io_error)
    h ← check_delta_size resp.total_size
    i ← check faults.rename (λ x. failure false Err.io_error (utf8 "rename: " ++ x))
    j ← install faults cfg now t old_path resp.mtime
    k ← upsert_index faults cfg now t resp.total_size resp.mtime
    l ← on_tasks (mark_task_done t.id now)
    stop (success literal)

  unfoldable pub after_answer : Bytes → Bytes → Option DeltaResp → Run Unit
  unfolding receive_delta
  after_answer old_path old none = pure tt
  after_answer old_path old (some resp) = receive_delta old_path old resp

  unfoldable pub with_hashes : Bytes → Bytes → Option (List Hash) → Run Unit
  unfolding ◌>>=◌ ask_delta after_answer
  with_hashes old_path old none = pure tt
  with_hashes old_path old (some hashes) = do
    answer ← ask_delta hashes
    after_answer old_path old answer

  -- `went tt`: go on with the full download
  unfoldable pub delta_download : Bytes → Bytes → Run Unit
  unfolding hashes_to_send with_hashes
  delta_download old_path old = with_hashes old_path old (hashes_to_send old)

  -- the old copy is there, and large enough
  unfoldable pub try_delta : Bytes → Run Unit
  unfolding delta_download
  try_delta target s = elim (s.files target) [
    | none ↦ (went tt, s)
    | some f ↦
        if ltb 0 cfg.delta_min_size
          && ltb 0 cfg.delta_block_size
          && leb cfg.delta_min_size (length f.contents)
        then delta_download target f.contents s
        else (went tt, s)
  ]

  unfoldable pub at_target : Joined → Run Unit
  unfolding ◌>>=◌ try_delta full_download
  at_target (err e) =
      stop (record (failure false Err.protocol_error (cfg.join_text e)) { skip_now = true })
  at_target (ok target) = do a ← try_delta target; full_download faults cfg now t target

  unfoldable pub download_one : Run Unit
  unfolding at_target
  download_one = at_target (safe_join cfg.cwd cfg.storage_dir t.relpath)
