-- ===== src/Transfer/Download/Client.antt =====
-- A download against the client's handleGet: the file arrives, and a part that is too long stays.
use backuper.Prelude.{
  ℕ, ◌-◌, ◌≡◌, ◌≤◌, ◌<◌, ◌^◌, refl, sym, ap, ◌∙◌, false, none, Bytes, utf8, dec, List, [], ◌∷◌,
  ◌++◌, length, length-drop, take, ltb, ◌&&◌, lt→ltb, bytes_eq, append-nil, append_assoc,
  take-append-drop, zero, suc,
}
use backuper.Prelude.Int.{ℤ, IsInt64}
use backuper.Prelude.Steps.{Done, stopped, went, ◌>>=◌, pure, stop, step-stopped}
use backuper.Protocol.Err
use backuper.Protocol.Msg
use backuper.Protocol.Frame.{IoError, Message}
use backuper.Protocol.Conn.{expect, error_of}
use backuper.Protocol.Messages.{GetResp, ErrorMsg, encode_error_msg, parse_error_msg}
use backuper.Protocol.Messages.RoundTrip.{ErrorMsgIsValid, parse_error_msg-encode}
use backuper.Protocol.Paths.{ok, safe_join}
use backuper.Store.{Task}
use backuper.Client.{
  ClientConfig, Opens, plain_file, returned, append_message, finish_with, finish_error,
  path_or_error, file_or_error, stat_or_error, finish_if,
}
use backuper.Client.Get.{handle_get}
use backuper.Chunks.Laws.{joined_parts}
use backuper.Client.Get.Sends.{no_wait, handle_get-sends}
use backuper.Transfer.{Outcome}
use backuper.Transfer.Local.{Local, TransferConfig, no_faults, failure, send_msg, read_msg}
use backuper.Transfer.Download.{
  contents_of, part_size, has_changed, full_download, success, request, read_expect, expect_payload,
  refused_outcome,
}
use backuper.Transfer.Download.Completes.{
  request_message, HasRow, part, Completed, full_download-Completed,
}

-- a list of n times the same
abbrev pub repeat : {A : Type 0} → ℕ → A → List A
repeat zero x = []
repeat (suc n) x = x ∷ repeat n x

module _ (closed : IoError) (cfg : TransferConfig) (now : ℤ) (t : Task) (ccfg : ClientConfig)
    (opens : Opens) where
  -- what the client sends to a request from an offset on
  abbrev pub answer : ℕ → ℕ → List Message
  answer fuel offset =
      (handle_get append_message ccfg opens no_wait fuel
        (record { path = t.relpath; offset = offset }) []).1

  -- the attempt, with the client's answer on the connection
  abbrev pub attempt : ℕ → Bytes → Local → Done Outcome Unit × Local
  attempt fuel target s = full_download (no_faults closed) cfg now t target (record s {
    incoming =
        answer fuel (part_size (no_faults closed) cfg now t (s.files (part closed cfg now t)));
  })

  -- A download from the client ends with the client's file. When the part file holds the beginning
  -- of the client's file, or is not there, the attempt sends one GET_REQ, from the end of the part on,
  -- succeeds and counts the bytes that were missing; the target has the bytes and the time of the
  -- client's file, the part and its .meta file are gone, the index has the file's row, the task is
  -- done, and every other file is as it was. Conditions: CHUNK_SIZE is not 0, the client finds the
  -- file at the path and reads it without an error, the fuel of its loop is more than the file is
  -- long, and the server refuses nothing, has another path for the part than for the target, has a
  -- .meta file of the same version where there is a part that is not empty, and has the task in the
  -- queue. The size and the time fit their fields.
  pub download-Completed :
      (target full contents : Bytes) (mtime : ℤ) (fuel : ℕ) (s : Local)
      → let offset = part_size (no_faults closed) cfg now t (s.files (part closed cfg now t)) in
        let resp : GetResp = record { status = 0; total_size = length contents; mtime = mtime } in
        0 < ccfg.chunk_size
        → safe_join ccfg.cwd ccfg.backup_dir t.relpath ≡ ok full
        → opens full ≡ went (plain_file contents mtime (length contents))
        → length contents < fuel
        → bytes_eq target (part closed cfg now t) ≡ false
        → length contents < 2 ^ 64
        → IsInt64 mtime
        → contents_of (no_faults closed) cfg now t (s.files (part closed cfg now t))
          ≡ take offset contents
        → offset ≤ length contents
        → (ltb 0 offset
            && has_changed (no_faults closed) cfg now t (s.metas (cfg.meta_path t.relpath)) resp)
          ≡ false
        → HasRow t.id s.tasks
        → (s' : Local) × ((attempt fuel target s
              ≡ (stopped (success (length contents - offset)), s'))
            × (Completed closed cfg now t target contents mtime [] s s'
                × (s'.sent ≡ s.sent ++ request_message closed cfg now t offset ∷ [])))
  download-Completed target full contents mtime fuel s chunk joined there enough apart small time
        prefix within same row =
      let offset = part_size (no_faults closed) cfg now t (s.files (part closed cfg now t)) in
      let (parts, (sent, (complete, in_chunks))) =
        handle_get-sends ccfg opens contents mtime fuel
          (record { path = t.relpath; offset = offset }) full chunk joined there within enough in
      let (s', (run, (w, asked))) =
        full_download-Completed closed cfg now t target contents mtime parts []
          (record s { incoming = answer fuel offset }) apart small time (ap (λ q. q.1) sent)
          (ap (λ b. b ++ joined_parts parts) prefix
            ∙ ap (λ b. take offset contents ++ b) complete
            ∙ take-append-drop offset contents)
          same row in
      let count : length (joined_parts parts) ≡ length contents - offset =
        ap length complete ∙ length-drop offset contents in
      (
        s',
        (
          run ∙ ap (λ n. (stopped (success n), s')) count,
          (
            record {
              at_target = w.at_target;
              no_part = w.no_part;
              no_meta = w.no_meta;
              other_files = w.other_files;
              indexed = w.indexed;
              is_done = w.is_done;
              rest_left = w.rest_left;
            },
            asked,
          ),
        ),
      )

  abbrev pub bad_offset : ℕ → ℕ → ErrorMsg
  bad_offset offset size = record {
    code = Err.bad_offset;
    message = utf8 "offset " ++ dec offset ++ utf8 " > размера " ++ dec size;
  }

  abbrev refusal : ℕ → ℕ → Message
  refusal offset size = record {
    msg_type = Msg.error;
    payload = encode_error_msg (bad_offset offset size);
  }

  -- the client refuses an offset behind the end of its file
  handle_get-bad_offset :
      (full contents : Bytes) (mtime : ℤ) (fuel offset : ℕ)
      → safe_join ccfg.cwd ccfg.backup_dir t.relpath ≡ ok full
      → opens full ≡ went (plain_file contents mtime (length contents))
      → length contents < offset
      → handle_get append_message ccfg opens no_wait fuel
          (record { path = t.relpath; offset = offset })
          []
        ≡ (stopped (returned none), refusal offset (length contents) ∷ [])
  unfolding handle_get ◌>>=◌ path_or_error file_or_error stat_or_error finish_if finish_error
      finish_with append_message pure plain_file
  handle_get-bad_offset full contents mtime fuel offset joined there behind =
      rw (joined, there, lt→ltb (length contents) offset behind) refl

  request_state : ℕ → Local → Local
  request_state offset s = record s {
    incoming = [];
    sent = s.sent ++ request_message closed cfg now t offset ∷ [];
  }

  request-refused :
      (offset size : ℕ) (s : Local)
      → ErrorMsgIsValid (bad_offset offset size)
      → request
          (no_faults closed)
          cfg
          now
          t
          offset
          (record s { incoming = refusal offset size ∷ [] })
        ≡ (
          stopped (failure false Err.bad_offset (bad_offset offset size).message),
          request_state offset s,
        )
  unfolding request ◌>>=◌ send_msg read_expect read_msg expect error_of expect_payload
      refused_outcome pure stop request_state
  request-refused offset size s valid =
      rw
        (ap parse_error_msg (sym (append-nil (encode_error_msg (bad_offset offset size))))
          ∙ parse_error_msg-encode (bad_offset offset size) [] valid)
        refl

  -- one attempt with a part that is too long
  refused_once :
      (target full contents : Bytes) (mtime : ℤ) (fuel : ℕ) (s : Local)
      → let offset = part_size (no_faults closed) cfg now t (s.files (part closed cfg now t)) in
        safe_join ccfg.cwd ccfg.backup_dir t.relpath ≡ ok full
        → opens full ≡ went (plain_file contents mtime (length contents))
        → length contents < offset
        → ErrorMsgIsValid (bad_offset offset (length contents))
        → attempt fuel target s ≡ (
          stopped (failure false Err.bad_offset (bad_offset offset (length contents)).message),
          request_state offset s,
        )
  unfolding full_download request_state
  refused_once target full contents mtime fuel s joined there behind valid =
      let offset = part_size (no_faults closed) cfg now t (s.files (part closed cfg now t)) in
      step-stopped (request (no_faults closed) cfg now t offset) _
        (record s { incoming = answer fuel offset }) (request_state offset s)
        (failure false Err.bad_offset (bad_offset offset (length contents)).message)
        (ap (λ l. request (no_faults closed) cfg now t offset (record s { incoming = l }))
            (ap (λ q. q.1)
              (handle_get-bad_offset full contents mtime fuel offset joined there behind))
          ∙ request-refused offset (length contents) s valid)

  -- The attempts that are made on the state s, one after another: their outcomes, and the last state.
  abbrev pub attempts : ℕ → ℕ → Bytes → Local → List (Done Outcome Unit) × Local
  attempts zero fuel target s = ([], s)
  attempts (suc n) fuel target s =
      let (o, s1) = attempt fuel target s in
      let (os, s2) = attempts n fuel target s1 in (o ∷ os, s2)

  -- A part that is longer than the client's file is never downloaded and stays. However often the
  -- download is attempted, each attempt asks from the end of the part on, the client answers
  -- BAD_OFFSET, and the attempt fails with that error; the files, the .meta files, the index and the
  -- queue's tasks are as they were, and one GET_REQ with the same offset was sent for each attempt.
  -- The client finds the file and reads it without an error, the server refuses nothing, and the
  -- message of the error fits its field.
  pub download-bad_offset :
      (n : ℕ) (target full contents : Bytes) (mtime : ℤ) (fuel : ℕ) (s : Local)
      → let offset = part_size (no_faults closed) cfg now t (s.files (part closed cfg now t)) in
        safe_join ccfg.cwd ccfg.backup_dir t.relpath ≡ ok full
        → opens full ≡ went (plain_file contents mtime (length contents))
        → length contents < offset
        → ErrorMsgIsValid (bad_offset offset (length contents))
        → let (outcomes, s') = attempts n fuel target s in
          (outcomes
            ≡ repeat n (
                stopped
                  (failure false Err.bad_offset (bad_offset offset (length contents)).message)))
          × ((s'.sent ≡ s.sent ++ repeat n (request_message closed cfg now t offset))
              × ((s'.files ≡ s.files)
                  × ((s'.metas ≡ s.metas) × ((s'.index ≡ s.index) × (s'.tasks ≡ s.tasks)))))
  unfolding request_state
  download-bad_offset zero target full contents mtime fuel s joined there behind valid =
      (refl, (sym (append-nil s.sent), (refl, (refl, (refl, refl)))))
  download-bad_offset (suc n) target full contents mtime fuel s joined there behind valid =
      let offset = part_size (no_faults closed) cfg now t (s.files (part closed cfg now t)) in
      let s1 = request_state offset s in
      let more =
        download-bad_offset n target full contents mtime fuel s1 joined there behind valid in
      rw (refused_once target full contents mtime fuel s joined there behind valid) (
        ap
            (λ os.
              stopped (failure false Err.bad_offset (bad_offset offset (length contents)).message)
              ∷ os)
            more.0,
        (more.1.0 ∙ append_assoc s.sent (request_message closed cfg now t offset ∷ []) _, more.1.1),
      )
