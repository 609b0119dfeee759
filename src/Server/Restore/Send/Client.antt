-- ===== src/Server/Restore/Send/Client.antt =====
-- sendRestoreFile against handlePut: the server's copy comes back to the client.
use backuper.Prelude.{
  ℕ, ◌-◌, ◌≡◌, ◌≤◌, ◌<◌, ◌^◌, refl, sym, ap, ◌∙◌, false, Option, none, Bytes, List, [], ◌∷◌, ◌++◌,
  map, length, take, drop, take-append-drop, ltb, arith, bytes_eq, Bool-cases, inl, inr, append-nil,
}
use backuper.Prelude.Int.{ℤ}
use backuper.Prelude.Steps.{stopped, went, Steps, ◌>>=◌, pure, stop, step-went}
use backuper.Protocol.Msg
use backuper.Protocol.Frame.{IoError, Message}
use backuper.Protocol.Conn.{expect}
use backuper.Protocol.Messages.{PutReq, encode_put_req, PutResp, encode_put_resp, parse_put_resp}
use backuper.Protocol.Messages.RoundTrip.{PutRespIsValid, parse_put_resp-encode}
use backuper.Protocol.Paths.{ok, safe_join}
use backuper.Chunks.Laws.{data_message, joined_parts, chunk_loop-Sends}
use backuper.Client.{OpenFile, Opens, plain_file, returned}
use backuper.Client.Put.{Receiver, PutConfig, handle_put}
use backuper.Client.Put.Restored.{
  no_faults, answer_message, end_message, part, kept, Restored, handle_put-Restored,
}
use backuper.Server.Restore.Send.{
  Link, RestoreConfig, SendEnd, restored, out_of_fuel, write_msg, read_put_resp, storage_path,
  open_stored, stat_stored, resume_from, seek_stored, send_part, read_failure, restore_loop,
  final_answer, send_restore_file,
}

-- no write is refused
abbrev pub no_refusal : List Message → Option IoError
no_refusal sent = none

module _ (closed : IoError) (cfg : RestoreConfig) (opens : Opens) where
  abbrev link : List Message → List Message → Link
  link incoming sent = record { incoming = incoming; sent = sent }

  read_put_resp-answer :
      (resp : PutResp) (ms sent : List Message)
      → PutRespIsValid resp
      → read_put_resp closed no_refusal cfg opens
          (link (record { msg_type = Msg.put_resp; payload = encode_put_resp resp } ∷ ms) sent)
        ≡ (went resp, link ms sent)
  unfolding read_put_resp expect
  read_put_resp-answer resp ms sent valid =
      rw
        (ap parse_put_resp (sym (append-nil (encode_put_resp resp)))
          ∙ parse_put_resp-encode resp [] valid)
        refl

  send_part-sends :
      (ms : List Message) (position : ℕ) (bytes : Bytes) (sent : List Message)
      → send_part closed no_refusal cfg opens position bytes (link ms sent)
        ≡ (went tt, link ms (sent ++ data_message bytes ∷ []))
  unfolding send_part write_msg
  send_part-sends ms position bytes sent = refl

  seek_stored-plain_file :
      (contents : Bytes) (mtime : ℤ) (size offset : ℕ) (l : Link)
      → seek_stored closed no_refusal cfg opens (plain_file contents mtime size) offset l
        ≡ (went tt, l)
  unfolding seek_stored plain_file pure
  seek_stored-plain_file contents mtime size offset l = elim (Bool-cases (ltb 0 offset)) [
    | inl e ↦ rw (e, seek_stored) refl
    | inr e ↦ rw (e, seek_stored) refl
  ]

  abbrev pub put_req : Bytes → Bytes → ℤ → PutReq
  put_req rel contents mtime = record {
    path = rel;
    total_size = length contents;
    offset = 0;
    mtime = mtime;
  }

  abbrev pub req_message : Bytes → Bytes → ℤ → Message
  req_message rel contents mtime = record {
    msg_type = Msg.put_req;
    payload = encode_put_req (put_req rel contents mtime);
  }

  abbrev the_file : Bytes → ℤ → OpenFile
  the_file contents mtime = plain_file contents mtime (length contents)

  -- from FILE_END on
  abbrev send_end : Steps Link SendEnd Unit
  send_end = write_msg closed no_refusal cfg opens Msg.file_end [] >>= λ d.
      read_put_resp closed no_refusal cfg opens >>= λ final.
      final_answer closed no_refusal cfg opens final

  -- from the loop on
  abbrev send_rest : ℕ → Bytes → ℤ → ℕ → Steps Link SendEnd Unit
  send_rest fuel contents mtime resume =
      restore_loop closed no_refusal cfg opens fuel (the_file contents mtime)
        (length contents - resume) resume
      >>= λ c. send_end

  -- from the client's answer on
  abbrev send_missing : ℕ → Bytes → ℤ → PutResp → Steps Link SendEnd Unit
  send_missing fuel contents mtime resp =
      let resume = resume_from closed no_refusal cfg opens resp (length contents) in
      seek_stored closed no_refusal cfg opens (the_file contents mtime) resume >>= λ b.
      send_rest fuel contents mtime resume

  offers :
      (rel path contents : Bytes) (mtime : ℤ) (fuel : ℕ) (ms : List Message)
      → safe_join cfg.cwd cfg.storage_dir rel ≡ ok path
      → opens path ≡ went (the_file contents mtime)
      → send_restore_file closed no_refusal cfg opens fuel rel (link ms [])
        ≡ (read_put_resp closed no_refusal cfg opens >>= λ resp.
              send_missing fuel contents mtime resp)
            (link ms (req_message rel contents mtime ∷ []))
  unfolding send_restore_file storage_path open_stored stat_stored write_msg ◌>>=◌ pure plain_file
  offers rel path contents mtime fuel ms joined there = rw (joined, there) refl

  begins :
      (rel path contents : Bytes) (mtime : ℤ) (fuel resume : ℕ) (ms : List Message)
      → safe_join cfg.cwd cfg.storage_dir rel ≡ ok path
      → opens path ≡ went (the_file contents mtime)
      → resume ≤ length contents
      → length contents < 2 ^ 64
      → send_restore_file closed no_refusal cfg opens fuel rel
          (link (answer_message 0 resume ∷ ms) [])
        ≡ send_rest fuel contents mtime resume (link ms (req_message rel contents mtime ∷ []))
  unfolding resume_from
  begins rel path contents mtime fuel resume ms joined there within small =
      let not_behind : ltb (length contents) resume ≡ false = ground arith in
      let resp : PutResp = record { status = 0; resume_offset = resume } in
      let valid : PutRespIsValid resp = record {
        status_fits = omega arith;
        resume_offset_fits = omega arith;
      } in
      let l = link ms (req_message rel contents mtime ∷ []) in
      offers rel path contents mtime fuel (answer_message 0 resume ∷ ms) joined there
      ∙ step-went (read_put_resp closed no_refusal cfg opens)
          (λ r. send_missing fuel contents mtime r)
          (link (answer_message 0 resume ∷ ms) (req_message rel contents mtime ∷ [])) l resp
          (read_put_resp-answer resp ms (req_message rel contents mtime ∷ []) valid)
      ∙ rw not_behind (
          step-went (seek_stored closed no_refusal cfg opens (the_file contents mtime) resume)
            (λ b. send_rest fuel contents mtime resume) l l tt
            (seek_stored-plain_file contents mtime (length contents) resume l))

  send_end-restored :
      (sent : List Message)
      → send_end (link (answer_message 0 0 ∷ []) sent)
        ≡ (stopped restored, link [] (sent ++ end_message ∷ []))
  unfolding write_msg final_answer stop ◌>>=◌
  send_end-restored sent =
      let valid : PutRespIsValid (record { status = 0; resume_offset = 0 }) = record {
        status_fits = omega arith;
        resume_offset_fits = omega arith;
      } in
      rw
        (read_put_resp-answer (record { status = 0; resume_offset = 0 }) []
          (sent ++ end_message ∷ []) valid)
        refl

  -- What the server sends when the client answers with an offset and then with success.
  pub send_restore_file-sends :
      (rel path contents : Bytes) (mtime : ℤ) (fuel resume : ℕ)
      → 0 < cfg.chunk_size
      → safe_join cfg.cwd cfg.storage_dir rel ≡ ok path
      → opens path ≡ went (the_file contents mtime)
      → resume ≤ length contents
      → length contents < 2 ^ 64
      → length contents < fuel
      → (parts : List Bytes) × ((send_restore_file closed no_refusal cfg opens fuel rel
              (link (answer_message 0 resume ∷ answer_message 0 0 ∷ []) [])
            ≡ (
              stopped restored,
              link []
                  (req_message rel contents mtime ∷ (map data_message parts ++ end_message ∷ [])),
            ))
          × (joined_parts parts ≡ drop resume contents))
  send_restore_file-sends rel path contents mtime fuel resume c joined there within small enough =
      let ms : List Message = answer_message 0 0 ∷ [] in
      let first : List Message = req_message rel contents mtime ∷ [] in
      let w =
        chunk_loop-Sends cfg.chunk_size out_of_fuel (send_part closed no_refusal cfg opens)
          (read_failure closed no_refusal cfg opens) (link ms) (send_part-sends ms) contents mtime
          (length contents) fuel (length contents - resume) resume first c (omega arith)
          (omega arith) in
      (
        w.parts,
        (
          begins rel path contents mtime fuel resume ms joined there within small
              ∙ step-went
                  (restore_loop closed no_refusal cfg opens fuel (the_file contents mtime)
                    (length contents - resume) resume)
                  (λ u. send_end) (link ms first) (link ms (first ++ map data_message w.parts)) tt
                  (unfold restore_loop in w.outcome)
              ∙ send_end-restored (first ++ map data_message w.parts),
          w.complete,
        ),
      )

  -- A restore brings the server's copy back. When sendRestoreFile and handlePut talk to each other and
  -- the client keeps of an earlier part the beginning of the server's copy (or nothing), there is one
  -- exchange of messages in which each side reads exactly what the other sends; the server ends with success,
  -- and the client's file has the bytes and the time of the server's copy, the part and its .meta file are gone, and every other file is as it was.
  -- Conditions: CHUNK_SIZE is not 0, each side finds its path, the server reads its copy
  -- without an error, the fuel is more than the copy is long, its size fits, the client's part is
  -- not the file itself, and nothing is refused.
  pub send_restore_file-handle_put :
      (client_closed : IoError) (ccfg : PutConfig) (now : ℤ) (rel path full contents : Bytes)
      (mtime : ℤ) (fuel : ℕ) (s : Receiver)
      → let req = put_req rel contents mtime in
        let kept_bytes = kept client_closed ccfg now req s in
        0 < cfg.chunk_size
        → safe_join cfg.cwd cfg.storage_dir rel ≡ ok path
        → opens path ≡ went (the_file contents mtime)
        → length contents < 2 ^ 64
        → length contents < fuel
        → safe_join ccfg.base.cwd ccfg.base.backup_dir rel ≡ ok full
        → bytes_eq full (part client_closed ccfg now req) ≡ false
        → kept_bytes ≡ take (length kept_bytes) contents
        → length kept_bytes ≤ length contents
        → s.sent ≡ []
        → (to_client to_server : List Message) × (s' : Receiver) × ((send_restore_file closed
                no_refusal cfg opens fuel rel
                (link to_server [])
              ≡ (stopped restored, link [] (req_message rel contents mtime ∷ to_client)))
            × ((handle_put
                    (no_faults client_closed)
                    ccfg
                    now
                    req
                    (record s { incoming = to_client })
                  ≡ (stopped (returned none), s'))
                × ((s'.sent ≡ to_server)
                    × Restored client_closed ccfg now req full contents []
                        (record s { incoming = to_client })
                        s')))
  send_restore_file-handle_put client_closed ccfg now rel path full contents mtime fuel s c joined
        there small enough joined_there apart prefix within unsent =
      let req = put_req rel contents mtime in
      let k = kept client_closed ccfg now req s in
      let (parts, (sends, complete)) =
        send_restore_file-sends rel path contents mtime fuel (length k) c joined there within small
          enough in
      let to_client : List Message = map data_message parts ++ end_message ∷ [] in
      let (s', (takes, w)) =
        handle_put-Restored client_closed ccfg now req full contents parts []
          (record s { incoming = to_client }) joined_there apart refl
          (ap (λ b. b ++ joined_parts parts) prefix
            ∙ ap (λ b. take (length k) contents ++ b) complete
            ∙ take-append-drop (length k) contents)
          refl in
      (
        to_client,
        answer_message 0 (length k) ∷ answer_message 0 0 ∷ [],
        s',
        (
          sends,
          (
            takes,
            (
              w.answers
                  ∙ ap (λ l. l ++ answer_message 0 (length k) ∷ answer_message 0 0 ∷ []) unsent,
              w,
            ),
          ),
        ),
      )
