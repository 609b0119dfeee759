-- ===== src/Client/Session/Tests.antt =====
-- A client with a directory of 100 free bytes: four commands that it answers at once, and a file that
-- the server restores.
use backuper.Prelude.{ℕ, ◌≡◌, refl, false, some, none, Bytes, utf8, List, [], ◌∷◌, ◌++◌, arith, dec}
use backuper.Prelude.Int.{pos}
use backuper.Prelude.Steps.{went}
use backuper.Protocol.Msg
use backuper.Protocol.Scanner
use backuper.Protocol.Err
use backuper.Protocol.Err.{ProtoError, error_text}
use backuper.Protocol.Frame.{eof, Message}
use backuper.Protocol.Messages.{parse_get_req}
use backuper.Client.{plain_file}
use backuper.Client.Scan.{nothing}
use backuper.Client.Put.{Receiver}
use backuper.Client.Put.Restored.{no_faults}
use backuper.Client.Session.{Usage, SessionConfig, read_error, serve}
use backuper.Client.Session.Answers.{
  error_message, pong_message, disk_message, AllAnswered, no_commands, command_answered,
  ping_answered, disk_answered, unknown_answered, get_answered, serve-AllAnswered,
}
use backuper.Protocol.Messages.{encode_put_req}
use backuper.Protocol.Paths.Absolute.{absolute}

-- a message without a payload
abbrev pub request : ℕ → Message
request t = record { msg_type = t; payload = [] }

abbrev pub dir : Bytes
dir = absolute (utf8 "data" ∷ [])

abbrev pub usage : Usage
usage = record { total = 400; free = 100 }

abbrev pub config : SessionConfig
config = record {
  put = record {
    base = record { backup_dir = dir; chunk_size = 4; cwd = none; join_text = λ e. [] };
    mtime_tolerance = pos 2;
    part_path = λ p. utf8 "part";
    meta_path = λ p. utf8 "meta";
  };
  scan = record {
    include_masks = [];
    exclude_masks = [];
    matches = λ p name. false;
    to_rel = λ base p. some p;
  };
  opens = λ files p. went (plain_file [] (pos 5) 0);
  trees = λ files root. nothing;
  usage = went usage;
  sha256 = λ b. b;
  now = pos 7;
  get_fuel = 3;
  is_cancelled = λ sent. false;
}

abbrev pub receiver : Receiver
receiver = record { files = λ p. none; metas = λ p. none; incoming = []; sent = [] }

-- a GET_REQ that ends in its path
abbrev cut : Bytes
cut = 0 ∷ 0 ∷ 0 ∷ 9 ∷ 65 ∷ []

abbrev too_short : ProtoError
too_short = record { code = Err.protocol_error; msg = utf8 "payload underflow: need 9 at 4 of 5" }

cut_parsed : parse_get_req cut ≡ (record { path = []; offset = 0 }, some too_short)
unfolding parse_get_req Scanner.◌>>=◌ Scanner.pure Scanner.str Scanner.u64 Scanner.need
    Scanner.new_scanner Scanner.of_big_endian dec
cut_parsed = refl

abbrev commands : List Message
commands =
    request Msg.ping
    ∷ request 0x77
    ∷ record { msg_type = Msg.get_req; payload = cut }
    ∷ request Msg.disk_req
    ∷ []

abbrev answers : List Message
answers =
    pong_message
    ∷ error_message Err.unsupported (utf8 "неизвестный тип UNKNOWN(0x77)")
    ∷ error_message Err.protocol_error (utf8 "GET_REQ: " ++ error_text too_short)
    ∷ disk_message dir (went usage)
    ∷ []

all_answered : AllAnswered dir (went usage) commands answers
unfolding Msg.name
all_answered = command_answered _ _ _ _ (ping_answered []) (
    command_answered _ _ _ _
      (unknown_answered 0x77 [] (record {
        not_ping = refl;
        not_list = refl;
        not_get = refl;
        not_delta = refl;
        not_put = refl;
        not_disk = refl;
      }))
      (command_answered _ _ _ _ (get_answered cut _ too_short cut_parsed)
        (command_answered _ _ _ _ (disk_answered []) no_commands)))

serve-AllAnswered_example :
    serve (no_faults eof) config 5 (record receiver { incoming = commands })
    ≡ (read_error eof, record receiver { incoming = []; sent = answers })
serve-AllAnswered_example =
    serve-AllAnswered (no_faults eof) config (λ ms. refl) commands answers 5 receiver all_answered
      (λ ms. refl) (omega arith)

abbrev docs : Bytes
docs = utf8 "docs"

-- the messages of a restore, and a PING
abbrev restore : List Message
restore =
    record {
      msg_type = Msg.put_req;
      payload = encode_put_req (record { path = docs; total_size = 3; mtime = pos 5; offset = 0 });
    }
    ∷ record { msg_type = Msg.file_data; payload = utf8 "abc" }
    ∷ request Msg.file_end
    ∷ request Msg.ping
    ∷ []

abbrev system_file : Bytes
system_file = utf8 "/etc/passwd"

abbrev after_restore : Receiver
after_restore = (serve (no_faults eof) config 5 (record receiver { incoming = restore })).1
