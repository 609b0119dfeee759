-- ===== src/Client/Put/Restored.antt =====
-- A restore whose messages all come leaves the server's file on the client.
use backuper.Prelude.{
  ℕ, ◌+◌, ◌≡◌, ◌≤◌, refl, sym, ap, ◌∙◌, true, false, none, some, Bytes, List, [], ◌∷◌, ◌++◌, map,
  length, length-append, take, take_all, ltb, ◌==◌, arith, bytes_eq, bytes_eq_comm, ==_iff,
  Bool-cases, inl, inr, if◌then◌else◌, append_assoc, append-nil,
}
use backuper.Prelude.Int.{ℤ}
use backuper.Prelude.Steps.{stopped, went, ◌>>=◌, pure, check, step-went}
use backuper.Protocol.Msg
use backuper.Protocol.Frame.{IoError, Message}
use backuper.Protocol.Messages.{PutReq, encode_put_resp}
use backuper.Protocol.Paths.{ok, safe_join}
use backuper.Files.{put, put-same, put-other}
use backuper.Chunks.Laws.{data_message, joined_parts}
use backuper.Client.{returned, write_msg, finish_with, path_or_error}
use backuper.Client.Put.{
  Receiver, PutConfig, PutFaults, frame_kind, send, refuse_if, remove_both, contents_of, is_stale,
  resume_offset, answer, finish_answer, save_meta, set_part, open_part, write_part, take_data,
  receive, receive_all, check_size, install, finish, handle_put,
}

-- Nothing is refused; `closed` is the error of a connection with nothing more to read.
abbrev pub no_faults : IoError → PutFaults
no_faults closed = record {
  send = λ sent. none;
  closed = closed;
  make_temp = none;
  meta = false;
  open_part = none;
  truncate = none;
  seek = none;
  wait = λ position n. none;
  write = λ position n. none;
  sync = none;
  stat_part = false;
  make_dir = none;
  rename = none;
}

abbrev pub end_message : Message
end_message = record { msg_type = Msg.file_end; payload = [] }

abbrev pub answer_message : ℕ → ℕ → Message
answer_message status resume = record {
  msg_type = Msg.put_resp;
  payload = encode_put_resp (record { status = status; resume_offset = resume });
}

module _ (closed : IoError) (cfg : PutConfig) (now : ℤ) (req : PutReq) where
  abbrev faults : PutFaults
  faults = no_faults closed

  abbrev pub part : Bytes
  part = cfg.part_path req.path

  abbrev pub meta : Bytes
  meta = cfg.meta_path req.path

  abbrev pub part_bytes : Receiver → Bytes
  part_bytes s = contents_of faults cfg now req (s.files part)

  -- what the client keeps of an earlier part
  abbrev pub kept : Receiver → Bytes
  kept s = if is_stale faults cfg now req s then [] else part_bytes s

  -- What the loop leaves when it has written `bytes` behind `before`.
  record Received (before bytes : Bytes) (rest : List Message) (s s' : Receiver) : Type 0 where
    in_part : part_bytes s' ≡ before ++ bytes
    other_files : (q : Bytes) → bytes_eq q part ≡ false → s'.files q ≡ s.files q
    same_metas : s'.metas ≡ s.metas
    same_sent : s'.sent ≡ s.sent
    rest_left : s'.incoming ≡ rest

  abbrev written_to : Bytes → Receiver → Receiver
  written_to bytes s = record s {
    files = put part (some (record { contents = part_bytes s ++ bytes; mtime = now })) s.files;
  }

  take_data-takes :
      (written : ℕ) (bytes : Bytes) (s : Receiver)
      → written + length bytes ≤ req.total_size
      → take_data faults cfg now req written bytes s ≡ (went tt, written_to bytes s)
  unfolding take_data ◌>>=◌ check write_part set_part pure
  take_data-takes written bytes s fits =
      let within : ltb req.total_size (written + length bytes) ≡ false = ground arith in
      rw within refl

  receive-data :
      (d : Bytes) (ms : List Message) (written : ℕ) (s : Receiver)
      → written + length d ≤ req.total_size
      → receive faults cfg now req (data_message d ∷ ms) written s
        ≡ receive faults cfg now req ms
            (written + length d)
            (written_to d (record s { incoming = ms }))
  unfolding receive frame_kind
  receive-data d ms written s fits =
      step-went (take_data faults cfg now req written d)
        (λ u. receive faults cfg now req ms (written + length d)) (record s { incoming = ms })
        (written_to d (record s { incoming = ms })) tt
        (take_data-takes written d (record s { incoming = ms }) fits)

  receive-end :
      (rest : List Message) (written : ℕ) (s : Receiver)
      → receive faults cfg now req (end_message ∷ rest) written s
        ≡ (went tt, record s { incoming = rest })
  unfolding receive frame_kind
  receive-end rest written s = refl

  receive-Received :
      (ds : List Bytes) (rest : List Message) (written : ℕ) (before : Bytes) (s : Receiver)
      → part_bytes s ≡ before
      → written + length (joined_parts ds) ≤ req.total_size
      → (s' : Receiver) × ((receive faults cfg now req
              (map data_message ds ++ end_message ∷ rest)
              written
              s
            ≡ (went tt, s'))
          × Received before (joined_parts ds) rest s s')
  receive-Received [] rest written before s e fits = (
    record s { incoming = rest },
    (
      receive-end rest written s,
      record {
        in_part = e ∙ sym (append-nil before);
        other_files = λ q h. refl;
        same_metas = refl;
        same_sent = refl;
        rest_left = refl;
      },
    ),
  )
  receive-Received (d ∷ ds) rest written before s e fits =
      let ms = map data_message ds ++ end_message ∷ rest in
      let lengths = length-append d (joined_parts ds) in
      let s2 = written_to d (record s { incoming = ms }) in
      let now_there : part_bytes s2 ≡ before ++ d =
        ap (contents_of faults cfg now req) (put-same part _ s.files) ∙ ap (λ b. b ++ d) e in
      let (s', (run, w)) =
        receive-Received ds rest (written + length d) (before ++ d) s2 now_there
          (omega (arith, lengths)) in
      (
        s',
        (
          receive-data d ms written s (omega (arith, lengths)) ∙ run,
          record {
            in_part = w.in_part ∙ append_assoc before d (joined_parts ds);
            other_files = λ q h. w.other_files q h ∙ put-other part q _ s.files h;
            same_metas = w.same_metas;
            same_sent = w.same_sent;
            rest_left = w.rest_left;
          },
        ),
      )

  abbrev dropped : Receiver → Receiver
  dropped s = record s { files = put part none s.files; metas = put meta none s.metas }

  -- the state once a part of no use is dropped
  record Resumed (s s' : Receiver) : Type 0 where
    run : resume_offset faults cfg now req s ≡ (went (length (kept s)), s')
    in_part : part_bytes s' ≡ kept s
    other_files : (q : Bytes) → bytes_eq q part ≡ false → s'.files q ≡ s.files q
    same_incoming : s'.incoming ≡ s.incoming
    same_sent : s'.sent ≡ s.sent

  resume_offset-Resumed : (s : Receiver) → (s' : Receiver) × Resumed s s'
  unfolding resume_offset remove_both ◌>>=◌ pure
  resume_offset-Resumed s = elim (Bool-cases (is_stale faults cfg now req s)) [
    | inl e ↦ (
      dropped s,
      record {
        run = rw e refl;
        in_part = ap (contents_of faults cfg now req) (put-same part none s.files) ∙ rw e refl;
        other_files = λ q h. put-other part q none s.files h;
        same_incoming = refl;
        same_sent = refl;
      },
    )
    | inr e ↦ (
      s,
      record {
        run = rw e refl;
        in_part = rw e refl;
        other_files = λ q h. refl;
        same_incoming = refl;
        same_sent = refl;
      },
    )
  ]

  -- the state once PUT_RESP is sent and the part is open at the offset
  abbrev opened : ℕ → Receiver → Receiver
  opened resume s =
      let files1 = put part (some (record { contents = part_bytes s; mtime = now })) s.files in
      record s {
        files =
            put part
              (some (record {
                contents = take resume (contents_of faults cfg now req (files1 part));
                mtime = now;
              }))
              files1;
        metas =
            put meta
              (some (record { relpath = req.path; total = req.total_size; mtime = req.mtime }))
              s.metas;
        sent = s.sent ++ answer_message 0 resume ∷ [];
      }

  -- the state when the last step has been made
  abbrev installed : Bytes → Receiver → Receiver
  installed full s = record s {
    files =
        put full (some (record { contents = part_bytes s; mtime = req.mtime }))
          (put part none s.files);
    metas = put meta none s.metas;
    sent = s.sent ++ answer_message 0 0 ∷ [];
  }

  finish-installed :
      (full : Bytes) (s : Receiver)
      → (length (part_bytes s) == req.total_size) ≡ true
      → finish faults cfg now req full s ≡ (stopped (returned none), installed full s)
  unfolding finish ◌>>=◌ refuse_if check_size install finish_answer finish_with send pure
  finish-installed full s sized = rw sized refl

  begins :
      (full : Bytes) (s s1 : Receiver)
      → safe_join cfg.base.cwd cfg.base.backup_dir req.path ≡ ok full
      → Resumed s s1
      → handle_put faults cfg now req s
        ≡ (receive_all faults cfg now req (length (kept s)) >>= λ u. finish faults cfg now req full)
            (opened (length (kept s)) s1)
  unfolding handle_put path_or_error refuse_if answer write_msg send save_meta open_part set_part
      pure ◌>>=◌
  begins full s s1 joined r = rw (joined, r.run) refl

  -- What a finished restore leaves on the client.
  pub record Restored (full contents : Bytes) (rest : List Message) (s s' : Receiver) : Type 0 where
    pub at_target : s'.files full ≡ some (record { contents = contents; mtime = req.mtime })
    pub no_part : s'.files part ≡ none
    pub no_meta : s'.metas meta ≡ none
    pub other_files :
        (q : Bytes) → bytes_eq q part ≡ false → bytes_eq q full ≡ false → s'.files q ≡ s.files q
    pub rest_left : s'.incoming ≡ rest
    pub answers : s'.sent ≡ s.sent ++ answer_message 0 (length (kept s)) ∷ answer_message 0 0 ∷ []

  installed-Restored :
      (full contents bytes : Bytes) (rest : List Message) (s s1 s2 : Receiver)
      → bytes_eq full part ≡ false
      → kept s ++ bytes ≡ contents
      → Resumed s s1
      → Received (kept s) bytes rest (opened (length (kept s)) s1) s2
      → Restored full contents rest s (installed full s2)
  installed-Restored full contents bytes rest s s1 s2 apart whole r w = record {
    at_target =
        put-same full _ (put part none s2.files)
        ∙ ap (λ b. some (record { contents = b; mtime = req.mtime })) (w.in_part ∙ whole);
    no_part =
        put-other full part _ (put part none s2.files) (bytes_eq_comm part full ∙ apart)
        ∙ put-same part none s2.files;
    no_meta = put-same meta none s2.metas;
    other_files = λ q p f.
        put-other full q _ (put part none s2.files) f
        ∙ put-other part q none s2.files p
        ∙ w.other_files q p
        ∙ put-other part q _ _ p
        ∙ put-other part q _ s1.files p
        ∙ r.other_files q p;
    rest_left = w.rest_left;
    answers =
        ap (λ l. l ++ answer_message 0 0 ∷ [])
          (w.same_sent ∙ ap (λ l. l ++ answer_message 0 (length (kept s)) ∷ []) r.same_sent)
        ∙ append_assoc s.sent (answer_message 0 (length (kept s)) ∷ []) (answer_message 0 0 ∷ []);
  }

  -- handlePut takes a file whole. When what comes after PUT_REQ continues what the client keeps of an
  -- earlier part to the file's contents, and FILE_END follows, the file is in its place with these contents and
  -- the server's time, the part and its .meta file are gone, every other file is as it was, and the client
  -- has answered with the length that it kept and then with success. It keeps a part whose .meta file
  -- agrees with the request in size and, up to the tolerance, in time, and which is not longer than the file; any other is dropped.
  -- Conditions: the path is below the client's directory, the contents have the announced size, the part
  -- is not the file itself, and nothing is refused.
  pub handle_put-Restored :
      (full contents : Bytes) (ds : List Bytes) (rest : List Message) (s : Receiver)
      → safe_join cfg.base.cwd cfg.base.backup_dir req.path ≡ ok full
      → bytes_eq full part ≡ false
      → length contents ≡ req.total_size
      → kept s ++ joined_parts ds ≡ contents
      → s.incoming ≡ map data_message ds ++ end_message ∷ rest
      → (s' : Receiver) × ((handle_put faults cfg now req s ≡ (stopped (returned none), s'))
          × Restored full contents rest s s')
  unfolding receive_all
  handle_put-Restored full contents ds rest s joined apart size whole e =
      let (s1, r) = resume_offset-Resumed s in
      let before = kept s in
      let lengths : length contents ≡ length before + length (joined_parts ds) =
        ap length (sym whole) ∙ length-append before (joined_parts ds) in
      let s2 = opened (length before) s1 in
      let at_offset : part_bytes s2 ≡ before =
        ap (contents_of faults cfg now req) (
          put-same part _
            (put part (some (record { contents = part_bytes s1; mtime = now })) s1.files))
        ∙ ap (λ f. take (length before) (contents_of faults cfg now req f))
            (put-same part _ s1.files)
        ∙ ap (take (length before)) r.in_part
        ∙ take_all before in
      let (s3, (run, w)) =
        receive-Received ds rest (length before) before s2 at_offset
          (omega (arith, lengths, size)) in
      let sized : (length (part_bytes s3) == req.total_size) ≡ true =
        (==_iff _ req.total_size).1 (ap length (w.in_part ∙ whole) ∙ size) in
      (
        installed full s3,
        (
          begins full s s1 joined r
              ∙ step-went (receive_all faults cfg now req (length before))
                  (λ u. finish faults cfg now req full) s2 s3 tt
                  (ap (λ ms. receive faults cfg now req ms (length before) s2) (r.same_incoming ∙ e)
                    ∙ run)
              ∙ finish-installed full s3 sized,
          installed-Restored full contents (joined_parts ds) rest s s1 s3 apart whole r w,
        ),
      )
