-- ===== src/Server/Control/Session.antt =====
-- The control connection (internal/server/control.go) and the client's session
-- (internal/client/client.go): DISK_REQ and PING with both sides.
use backuper.Prelude.{
  ℕ, ◌≡◌, refl, ap, subst, ◌<◌, ◌^◌, false, none, Bytes, utf8, List, [], ◌∷◌, ◌++◌, length,
  append-nil, arith,
}
use backuper.Prelude.Steps.{Done, stopped, went, ◌>>=◌, pure}
use backuper.Protocol.Msg
use backuper.Protocol.Err
use backuper.Protocol.Frame.{IoError, proto, Message}
use backuper.Protocol.Conn.{error_of, expect}
use backuper.Protocol.Messages.{ErrorMsg, encode_error_msg, parse_error_msg}
use backuper.Protocol.Messages.Lists.{DiskResp, encode_disk_resp, parse_disk_resp}
use backuper.Protocol.Messages.RoundTrip.{parse_error_msg-encode}
use backuper.Protocol.Messages.Lists.RoundTrip.{parse_disk_resp-encode}
use backuper.Client.Put.{Receiver, PutFaults}
use backuper.Client.Session.{Usage, SessionConfig, serve}
use backuper.Client.Session.Answers.{
  disk_message, Answered, ping_answered, disk_answered, no_commands, command_answered,
  serve-AllAnswered,
}
use backuper.Server.Control.{Control, Disk, write_msg, read_expect, first_disk, ping, disk}

abbrev pub request : ℕ → Message
request t = record { msg_type = t; payload = [] }

-- What fits the fields of the answer.
abbrev pub UsageFits : Bytes → Done Bytes Usage → Type 0
UsageFits dir (went u) = (length dir < 2 ^ 32) × ((u.total < 2 ^ 64) × (u.free < 2 ^ 64))
UsageFits dir (stopped t) = length (utf8 "diskinfo: " ++ t) < 2 ^ 32

-- the disk that the server shall see
abbrev pub reported : Bytes → Done Bytes Usage → Done IoError Disk
reported dir (went u) =
    went (record { name = utf8 "клиент:" ++ dir; total = u.total; free = u.free })
reported dir (stopped t) =
    stopped (proto (record { code = Err.io_error; msg = utf8 "diskinfo: " ++ t }))

-- the connection once a request has been sent and its answer read
abbrev pub asked : ℕ → Control → Control
asked t s = record s { incoming = []; sent = s.sent ++ request t ∷ [] }

-- what the client's session sends for a request
abbrev pub replies : PutFaults → SessionConfig → ℕ → Receiver → ℕ → List Message
replies faults cfg fuel r t =
    (serve faults cfg fuel (record r { incoming = request t ∷ []; sent = [] })).1.sent

module _ (closed : IoError) (lower : Bytes → Bytes) (faults : PutFaults) (cfg : SessionConfig)
    (taken : (ms : List Message) → faults.send ms ≡ none)
    (going : (sent : List Message) → cfg.is_cancelled sent ≡ false) where
  replies-one :
      (fuel : ℕ) (r : Receiver) (t : ℕ) (m : Message)
      → Answered cfg.put.base.backup_dir cfg.usage (request t) m
      → 1 < fuel
      → replies faults cfg fuel r t ≡ m ∷ []
  replies-one fuel r t m a enough =
      ap (λ q. q.1.sent)
        (serve-AllAnswered faults cfg taken (request t ∷ []) (m ∷ []) fuel (record r { sent = [] })
          (command_answered _ _ _ _ a no_commands) going enough)

  abbrev one_disk : Bytes → Usage → DiskResp
  one_disk dir u = record { mounts = record { mount = dir; total = u.total; free = u.free } ∷ [] }

  parse_disk_resp-one :
      (u : Usage)
      → UsageFits cfg.put.base.backup_dir (went u)
      → parse_disk_resp (encode_disk_resp (one_disk cfg.put.base.backup_dir u))
        ≡ (one_disk cfg.put.base.backup_dir u, none)
  parse_disk_resp-one u fits =
      let m = one_disk cfg.put.base.backup_dir u in
      subst (λ b. parse_disk_resp b ≡ (m, none)) (append-nil (encode_disk_resp m))
        (parse_disk_resp-encode m [] (record {
          count_fits = omega arith;
          mounts_fit =
              (record { mount_fits = fits.0; total_fits = fits.1.0; free_fits = fits.1.1 }, tt);
        }))

  disk-reads :
      (usage : Done Bytes Usage) (s : Control)
      → UsageFits cfg.put.base.backup_dir usage
      → disk closed none lower
          (record s { incoming = disk_message cfg.put.base.backup_dir usage ∷ [] })
        ≡ (reported cfg.put.base.backup_dir usage, asked Msg.disk_req s)
  unfolding disk ◌>>=◌ write_msg read_expect first_disk expect error_of pure
  disk-reads (went u) s fits = rw (parse_disk_resp-one u fits) refl
  disk-reads (stopped t) s fits =
      let m : ErrorMsg = record { code = Err.io_error; message = utf8 "diskinfo: " ++ t } in
      let read : parse_error_msg (encode_error_msg m) ≡ (m, none) =
        subst (λ b. parse_error_msg b ≡ (m, none)) (append-nil (encode_error_msg m))
          (parse_error_msg-encode m [] (record { code_fits = omega arith; message_fits = fits })) in
      rw read refl

  -- The two sides of the control connection, with a client that answers every message: disk gets
  -- what diskinfo.Get gives on the client for its BackupDir, or the error that it gives there, for a directory,
  -- numbers and a text that fit their fields, and ping succeeds. Each has sent one message.
  pub disk-serve :
      (fuel : ℕ) (r : Receiver) (s : Control)
      → 1 < fuel
      → UsageFits cfg.put.base.backup_dir cfg.usage
      → (disk closed none lower (record s { incoming = replies faults cfg fuel r Msg.disk_req })
          ≡ (reported cfg.put.base.backup_dir cfg.usage, asked Msg.disk_req s))
        × (ping closed none lower (record s { incoming = replies faults cfg fuel r Msg.ping })
            ≡ (went tt, asked Msg.ping s))
  unfolding ping ◌>>=◌ write_msg read_expect expect pure
  disk-serve fuel r s enough fits = (
    rw (replies-one fuel r Msg.disk_req _ (disk_answered []) enough) (disk-reads cfg.usage s fits),
    rw (replies-one fuel r Msg.ping _ (ping_answered []) enough) refl,
  )
