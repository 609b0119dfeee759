-- ===== src/Client/Get/Sends.antt =====
-- What handleGet sends of a file that it can read.
use backuper.Prelude.{
  ℕ, ◌-◌, ◌≡◌, ◌≤◌, ◌<◌, refl, ◌∙◌, false, Option, none, Bytes, ◌++◌, [], ◌∷◌, List, map, length,
  drop, ltb, arith, All, Bool-cases, inl, inr,
}
use backuper.Prelude.Int.{ℤ}
use backuper.Prelude.Steps.{stopped, went, ◌>>=◌, pure, check, step-went}
use backuper.Protocol.Msg
use backuper.Protocol.Frame.{Message, IoError}
use backuper.Protocol.Messages.{GetReq, encode_get_resp}
use backuper.Protocol.Paths.{ok, safe_join}
use backuper.Client.{
  ClientConfig, Opens, plain_file, returned, out_of_fuel, append_message, write_msg, finish_with,
  path_or_error, file_or_error, stat_or_error, finish_if,
}
use backuper.Client.Get.{send_data, read_error, get_loop, seek_to, handle_get, wait_for}
use backuper.Chunks.Laws.{data_message, joined_parts, chunk_loop-Sends}

abbrev pub no_wait : ℕ → ℕ → Option IoError
no_wait position n = none

module _ (cfg : ClientConfig) (opens : Opens) where
  send_data-sends :
      (position : ℕ) (bytes : Bytes) (sent : List Message)
      → send_data append_message cfg opens no_wait position bytes sent
        ≡ (went tt, sent ++ data_message bytes ∷ [])
  unfolding send_data wait_for check write_msg append_message ◌>>=◌
  send_data-sends position bytes sent = refl

  abbrev pub get_resp_message : Bytes → ℤ → Message
  get_resp_message contents mtime = record {
    msg_type = Msg.get_resp;
    payload = encode_get_resp (record { status = 0; total_size = length contents; mtime = mtime });
  }

  abbrev pub end_message : Message
  end_message = record { msg_type = Msg.file_end; payload = [] }

  seek_to-plain_file :
      (contents : Bytes) (mtime : ℤ) (size offset : ℕ) (sent : List Message)
      → seek_to append_message cfg opens no_wait (plain_file contents mtime size) offset sent
        ≡ (went tt, sent)
  unfolding seek_to plain_file pure
  seek_to-plain_file contents mtime size offset sent = elim (Bool-cases (ltb 0 offset)) [
    | inl e ↦ rw (e, seek_to) refl
    | inr e ↦ rw (e, seek_to) refl
  ]

  -- before the loop: the checks pass, and the size and the time are sent
  handle_get-begins :
      (contents : Bytes) (mtime : ℤ) (fuel : ℕ) (req : GetReq) (full : Bytes) (sent : List Message)
      → safe_join cfg.cwd cfg.backup_dir req.path ≡ ok full
      → opens full ≡ went (plain_file contents mtime (length contents))
      → ltb (length contents) req.offset ≡ false
      → handle_get append_message cfg opens no_wait fuel req sent
        ≡ (seek_to append_message cfg opens no_wait
                (plain_file contents mtime (length contents))
                req.offset
              >>= λ y.
                  get_loop append_message cfg opens no_wait fuel req.path
                    (plain_file contents mtime (length contents))
                    (length contents - req.offset)
                    req.offset
                  >>= λ z. finish_with append_message Msg.file_end [])
            (sent ++ get_resp_message contents mtime ∷ [])
  unfolding handle_get ◌>>=◌ path_or_error file_or_error stat_or_error finish_if write_msg
      append_message pure plain_file
  handle_get-begins contents mtime fuel req full sent joined opened within =
      rw (joined, opened, within) refl

  -- A file that the client can read is sent whole from the offset on: GET_RESP with its size and
  -- time, its bytes in parts no longer than CHUNK_SIZE, FILE_END, and no error. CHUNK_SIZE is not 0,
  -- the path is below the client's directory, the offset is not behind the end of the file, and the
  -- fuel is more than the file is long.
  pub handle_get-sends :
      (contents : Bytes) (mtime : ℤ) (fuel : ℕ) (req : GetReq) (full : Bytes)
      → 0 < cfg.chunk_size
      → safe_join cfg.cwd cfg.backup_dir req.path ≡ ok full
      → opens full ≡ went (plain_file contents mtime (length contents))
      → req.offset ≤ length contents
      → length contents < fuel
      → (parts : List Bytes) × ((handle_get append_message cfg opens no_wait fuel req [] ≡ (
        stopped (returned none),
        get_resp_message contents mtime ∷ (map data_message parts ++ end_message ∷ []),
      ))
          × ((joined_parts parts ≡ drop req.offset contents)
              × All (λ d. length d ≤ cfg.chunk_size) parts))
  handle_get-sends contents mtime fuel req full c joined opened within enough =
      let f = plain_file contents mtime (length contents) in
      let first : List Message = get_resp_message contents mtime ∷ [] in
      let not_behind : ltb (length contents) req.offset ≡ false = ground arith in
      let w =
        chunk_loop-Sends cfg.chunk_size out_of_fuel (send_data append_message cfg opens no_wait)
          (read_error append_message cfg opens no_wait req.path) (λ l. l) send_data-sends contents
          mtime (length contents) fuel (length contents - req.offset) req.offset first c
          (omega arith) (omega arith) in
      let sent : List Message = first ++ map data_message w.parts in
      (
        w.parts,
        (
          handle_get-begins contents mtime fuel req full [] joined opened not_behind
              ∙ step-went (seek_to append_message cfg opens no_wait f req.offset) _ first first tt
                  (seek_to-plain_file contents mtime (length contents) req.offset first)
              ∙ step-went
                  (get_loop append_message cfg opens no_wait fuel req.path f
                    (length contents - req.offset) req.offset)
                  _ first sent tt (unfold get_loop in w.outcome)
              ∙ unfold finish_with append_message in refl,
          (w.complete, w.in_chunks),
        ),
      )
