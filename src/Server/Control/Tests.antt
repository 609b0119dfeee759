-- ===== src/Server/Control/Tests.antt =====
-- The disk of a client with 100 free bytes.
use backuper.Prelude.{◌≡◌, refl, none, utf8, [], ◌∷◌, ◌++◌, arith}
use backuper.Prelude.Steps.{went}
use backuper.Protocol.Msg
use backuper.Protocol.Frame.{eof}
use backuper.Client.Put.Restored.{no_faults}
use backuper.Server.Control.{Control, ping, disk}
use backuper.Server.Control.Session.{request, UsageFits, replies, disk-serve}
use backuper.Protocol.Paths.{join}
use backuper.Client.Session.Tests.{config, receiver}

abbrev control : Control
control = record { incoming = []; sent = []; client = [] }

fits : UsageFits config.put.base.backup_dir config.usage
unfolding join
fits = (omega arith, (omega arith, omega arith))

disk-serve_example :
    (disk eof none
        (λ c. c)
        (record control { incoming = replies (no_faults eof) config 2 receiver Msg.disk_req })
      ≡ (
        went (record {
          name = utf8 "клиент:" ++ config.put.base.backup_dir;
          total = 400;
          free = 100;
        }),
        record control { sent = request Msg.disk_req ∷ [] },
      ))
    × (ping eof none
          (λ c. c)
          (record control { incoming = replies (no_faults eof) config 2 receiver Msg.ping })
        ≡ (went tt, record control { sent = request Msg.ping ∷ [] }))
disk-serve_example =
    disk-serve eof (λ c. c) (no_faults eof) config (λ ms. refl) (λ ms. refl) 2 receiver control
      (omega arith) fits
