-- ===== src/Client/Put/Keeps.antt =====
-- Where handlePut (internal/client/fileserver.go) writes: to its .part and .meta files, and to the
-- file that is restored.
use backuper.Prelude.{
  ℕ, ◌+◌, ◌≡◌, ◌≤◌, refl, Option, none, some, Bytes, utf8, List, [], ◌∷◌, ◌++◌, length, arith, take,
}
use backuper.Prelude.Int.{ℤ}
use backuper.Prelude.Steps.{stopped, went, Steps, ◌>>=◌, pure, Ends, Ends-then, Ends-map}
use backuper.Protocol.Msg
use backuper.Protocol.Err
use backuper.Protocol.Frame.{IoError, Message}
use backuper.Protocol.Messages.{PutReq}
use backuper.Protocol.Paths.{JoinError, Joined, ok, err, safe_join}
use backuper.Files.{StoredFile, PartMeta, put}
use backuper.Client.{Ended, returned, finish_with, finish_error, path_or_error}
use backuper.Client.Keeps.{
  Keeps, then-Keeps, pure-Keeps, check-Keeps, if-Keeps, if-Ends, option-Keeps, write_msg-Keeps,
  finish_with-Keeps, finish_error-Keeps,
}
use backuper.Client.Put.{
  Receiver, PutConfig, PutFaults, PutFrame, data_frame, end_frame, error_frame, other_frame,
  frame_kind, send_outcome, send, refuse_if, remove_both, contents_of, part, is_stale,
  resume_offset, answer, finish_answer, save_meta, set_part, open_part, write_part, reject,
  take_data, receive, receive_all, check_size, install, finish, handle_put,
}

-- P stays true when a message is sent, and when a .part or .meta file changes.
pub record Writes (cfg : PutConfig) (P : Receiver → Type 0) : Type 0 where
  pub on_sent : (s : Receiver) (ms : List Message) → P s → P (record s { sent = ms })
  pub on_part :
      (s : Receiver) (rel : Bytes) (f : Option StoredFile)
      → P s
      → P (record s { files = put (cfg.part_path rel) f s.files })
  pub on_meta :
      (s : Receiver) (rel : Bytes) (m : Option PartMeta)
      → P s
      → P (record s { metas = put (cfg.meta_path rel) m s.metas })

-- P stays true when messages are read, and when a file is replaced whose path SafeJoin gives.
pub record Commands (cfg : PutConfig) (P : Receiver → Type 0) : Type 0 where
  pub writes : Writes cfg P
  pub on_read :
      (s : Receiver) (ms : List Message)
      → length ms ≤ length s.incoming
      → P s
      → P (record s { incoming = ms })
  pub on_file :
      (s : Receiver) (rel full : Bytes) (f : Option StoredFile)
      → safe_join cfg.base.cwd cfg.base.backup_dir rel ≡ ok full
      → P s
      → P (record s { files = put full f s.files })

module _ (faults : PutFaults) (cfg : PutConfig) where
  pub send-Writes :
      (P : Receiver → Type 0)
      → Writes cfg P
      → (m : Message) (s : Receiver) → P s
      → P (send faults m s).0
  unfolding send
  send-Writes P w m s p = from (faults.send s.sent)
    where
      from : (x : Option IoError) → P (send_outcome m s x).0
      from none = w.on_sent s _ p
      from (some e) = p

  module _ (now : ℤ) (req : PutReq) where
    module _ (P : Receiver → Type 0) (w : Writes cfg P) where
      refuse_if-Keeps :
          (x : Option Bytes) (label : Bytes) → Keeps P (refuse_if faults cfg now req x label)
      unfolding refuse_if
      refuse_if-Keeps none label = pure-Keeps P tt
      refuse_if-Keeps (some t) label = finish_error-Keeps (send faults) P (send-Writes P w) _ _

      remove_both-Keeps : Keeps P (remove_both faults cfg now req)
      unfolding remove_both
      remove_both-Keeps = record {
        holds = λ s p. w.on_meta _ req.path none (w.on_part s req.path none p);
      }

      set_part-Keeps : (f : Bytes → Bytes) → Keeps P (set_part faults cfg now req f)
      unfolding set_part
      set_part-Keeps f = record { holds = λ s p. w.on_part s req.path _ p }

      answer-Keeps : (status resume : ℕ) → Keeps P (answer faults cfg now req status resume)
      unfolding answer
      answer-Keeps status resume = write_msg-Keeps (send faults) P (send-Writes P w) _ _

      finish_answer-Keeps :
          {A : Type 0} (status : ℕ) → Keeps P (finish_answer faults cfg now req {A = A} status)
      unfolding finish_answer
      finish_answer-Keeps status = finish_with-Keeps (send faults) P (send-Writes P w) _ _

      reject-Keeps : {A : Type 0} → Keeps P (reject faults cfg now req {A = A})
      unfolding reject
      reject-Keeps = then-Keeps P _ _ remove_both-Keeps (λ u. finish_answer-Keeps 1)

      write_part-Keeps :
          (written : ℕ) (b : Bytes) → Keeps P (write_part faults cfg now req written b)
      unfolding write_part
      write_part-Keeps written b =
          option-Keeps P (faults.write written (length b)) _ _ (set_part-Keeps (λ c. c ++ b)) (λ x.
            then-Keeps P _ _ (set_part-Keeps (λ c. c ++ take x.0 b)) (λ u.
              finish_error-Keeps (send faults) P (send-Writes P w) Err.io_error
                (utf8 "запись: " ++ x.1)))

      take_data-Keeps : (written : ℕ) (b : Bytes) → Keeps P (take_data faults cfg now req written b)
      unfolding take_data
      take_data-Keeps written b = then-Keeps P _ _ (check-Keeps P _ _) (λ u.
          then-Keeps P _ _ (write_part-Keeps written b)
            (λ v. if-Keeps P _ _ _ reject-Keeps (pure-Keeps P tt)))

      resume_offset-Keeps : Keeps P (resume_offset faults cfg now req)
      unfolding resume_offset
      resume_offset-Keeps = record {
        holds = λ s p.
            let drop = remove_both faults cfg now req >>= λ u. pure 0 in
            let drops : Keeps P drop = then-Keeps P _ _ remove_both-Keeps (λ u. pure-Keeps P 0) in
            if-Ends P (is_stale faults cfg now req s) (drop s)
              (
                went (length (contents_of faults cfg now req (s.files (part faults cfg now req)))),
                s,
              )
              (drops.holds s p) p;
      }

      save_meta-Keeps : Keeps P (save_meta faults cfg now req)
      unfolding save_meta
      save_meta-Keeps = record {
        holds = λ s p.
            if-Ends P faults.meta (went tt, s)
              (
                went tt,
                record s {
                  metas =
                      put (cfg.meta_path req.path)
                        (some (record {
                          relpath = req.path;
                          total = req.total_size;
                          mtime = req.mtime;
                        }))
                        s.metas;
                },
              )
              p (w.on_meta s req.path _ p);
      }

      open_part-Keeps : (resume : ℕ) → Keeps P (open_part faults cfg now req resume)
      unfolding open_part
      open_part-Keeps resume = then-Keeps P _ _ (refuse_if-Keeps _ _) (λ a.
          then-Keeps P _ _ (set_part-Keeps (λ c. c)) (λ b.
            then-Keeps P _ _ (refuse_if-Keeps faults.truncate (utf8 "truncate: ")) (λ d.
              then-Keeps P _ _ (set_part-Keeps (take resume))
                (λ e. refuse_if-Keeps faults.seek (utf8 "seek: ")))))

      check_size-Keeps : Keeps P (check_size faults cfg now req)
      unfolding check_size
      check_size-Keeps = record {
        holds = λ s p.
            if-Ends P _ (reject faults cfg now req s) (went tt, s) (reject-Keeps.holds s p) p;
      }

    module _ (P : Receiver → Type 0) (c : Commands cfg P) where
      abbrev Leaving : List Message → Receiver → Type 0
      Leaving ms s = P s × (s.incoming ≡ ms)

      Leaving-Writes : (ms : List Message) → Writes cfg (Leaving ms)
      Leaving-Writes ms = record {
        on_sent = λ s l h. (c.writes.on_sent s l h.0, h.1);
        on_part = λ s rel f h. (c.writes.on_part s rel f h.0, h.1);
        on_meta = λ s rel m h. (c.writes.on_meta s rel m h.0, h.1);
      }

      take_data-Leaving :
          (written : ℕ) (b : Bytes) (ms : List Message) (s : Receiver)
          → P s
          → s.incoming ≡ ms
          → Ends P (Leaving ms) (take_data faults cfg now req written b s)
      take_data-Leaving written b ms s p h =
          Ends-map (Leaving ms) P (Leaving ms) (Leaving ms) _ (λ s' l. l.0) (λ s' l. l)
            ((take_data-Keeps (Leaving ms) (Leaving-Writes ms) written b).holds s (p, h))

      by_kind :
          (k : PutFrame) (m n : Steps Receiver Ended Unit) (s : Receiver)
          → P s
          → Ends P P (m s)
          → Ends P P (n s)
          → Ends {E = Ended} {A = Unit} P P (elim k [
            | data_frame ↦ m s
            | end_frame ↦ (went tt, s)
            | error_frame ↦ (stopped (returned none), s)
            | other_frame ↦ n s
          ])
      by_kind data_frame m n s p h k = h
      by_kind end_frame m n s p h k = p
      by_kind error_frame m n s p h k = p
      by_kind other_frame m n s p h k = k

      receive-Ends :
          (ms : List Message) (written : ℕ) (s : Receiver)
          → length ms ≤ length s.incoming
          → P s
          → Ends P P (receive faults cfg now req ms written s)
      unfolding receive
      receive-Ends [] written s fits p = c.on_read s [] (omega arith) p
      receive-Ends (m ∷ ms) written s fits p =
          let s1 = record s { incoming = ms } in
          let p1 = c.on_read s ms (omega arith) p in
          let takes : Steps Receiver Ended Unit =
            take_data faults cfg now req written m.payload >>= λ u.
            receive faults cfg now req ms (written + length m.payload) in
          let refuses : Steps Receiver Ended Unit =
            finish_error (send faults) Err.protocol_error
              (utf8 "неожиданный кадр " ++ Msg.name m.msg_type) in
          by_kind (frame_kind m.msg_type) takes refuses s1 p1
            (Ends-then P (Leaving ms) P (take_data faults cfg now req written m.payload) _ s1
              (take_data-Leaving written m.payload ms s1 p1 refl)
              (λ u s2 l. receive-Ends ms _ s2 (rw l.1 (omega arith)) l.0))
            ((finish_error-Keeps (send faults) P (send-Writes P c.writes) Err.protocol_error
                (utf8 "неожиданный кадр " ++ Msg.name m.msg_type)).holds
              s1 p1)

      receive_all-Keeps : (resume : ℕ) → Keeps P (receive_all faults cfg now req resume)
      unfolding receive_all
      receive_all-Keeps resume = record {
        holds = λ s p. receive-Ends s.incoming resume s (omega arith) p;
      }

      install-Keeps :
          (rel full : Bytes)
          → safe_join cfg.base.cwd cfg.base.backup_dir rel ≡ ok full
          → Keeps P (install faults cfg now req full)
      unfolding install
      install-Keeps rel full joined = record {
        holds = λ s p.
            c.writes.on_meta _ req.path none
              (c.on_file _ rel full _ joined (c.writes.on_part s req.path none p));
      }

      finish-Keeps :
          (rel full : Bytes)
          → safe_join cfg.base.cwd cfg.base.backup_dir rel ≡ ok full
          → Keeps P (finish faults cfg now req full)
      unfolding finish
      finish-Keeps rel full joined = then-Keeps P _ _ (refuse_if-Keeps P c.writes _ _) (λ a.
          then-Keeps P _ _ (check_size-Keeps P c.writes) (λ b.
            then-Keeps P _ _ (refuse_if-Keeps P c.writes faults.make_dir (utf8 "mkdir: ")) (λ d.
              then-Keeps P _ _ (refuse_if-Keeps P c.writes faults.rename (utf8 "rename: ")) (λ e.
                then-Keeps P _ _ (install-Keeps rel full joined)
                  (λ f. finish_answer-Keeps P c.writes 0)))))

      path-Keeps :
          {A : Type 0} (text : JoinError → Bytes) (label : Bytes) (j : Joined)
          (next : Bytes → Steps Receiver Ended A)
          → ((full : Bytes) → j ≡ ok full → Keeps P (next full))
          → Keeps P (path_or_error (send faults) text label j >>= next)
      unfolding path_or_error finish_error finish_with ◌>>=◌ pure
      path-Keeps text label (ok full) next h = record { holds = λ s p. (h full refl).holds s p }
      path-Keeps text label (err e) next h = record { holds = λ s p. send-Writes P c.writes _ s p }

      pub handle_put-Keeps : Keeps P (handle_put faults cfg now req)
      unfolding handle_put
      handle_put-Keeps = path-Keeps _ _ _ _ (λ full joined.
          then-Keeps P _ _ (refuse_if-Keeps P c.writes faults.make_temp (utf8 "temp: ")) (λ a.
            then-Keeps P _ _ (resume_offset-Keeps P c.writes) (λ resume.
              then-Keeps P _ _ (answer-Keeps P c.writes 0 resume) (λ b.
                then-Keeps P _ _ (save_meta-Keeps P c.writes) (λ d.
                  then-Keeps P _ _ (open_part-Keeps P c.writes resume) (λ e.
                    then-Keeps P _ _ (receive_all-Keeps resume)
                      (λ f. finish-Keeps req.path full joined)))))))
