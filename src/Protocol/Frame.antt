-- ===== src/Protocol/Frame.antt =====
-- internal/protocol/protocol.go: WriteFrame and ReadFrame. A connection that is read is the bytes
-- that are still to come before it is closed; a connection that is written is any writer.
pub mod RoundTrip
use backuper.Prelude.{
  ℕ, zero, suc, ◌%◌, ◌^◌, ◌+◌, ◌-◌, ◌++◌, [], ◌∷◌, List, Option, none, some, true, Bytes, utf8, dec,
  length, take, drop, get_elem?, ltb, leb, ◌==◌, not, if◌then◌else◌,
}
use backuper.Protocol.Scanner.{big_endian, of_big_endian}
use backuper.Protocol.Err
use backuper.Protocol.Err.{ProtoError}

abbrev pub proto_version : ℕ
proto_version = 1

abbrev pub header_size : ℕ
header_size = 10

-- What a read or a write can fail with: the stream's own errors, and the protocol's.
pub data IoError : Type 0 where
  eof : IoError
  unexpected_eof : IoError
  broken : Bytes → IoError
  proto : ProtoError → IoError

-- the first ten bytes of a frame
unfoldable pub header : ℕ → ℕ → Bytes
header msg_type size = proto_version ∷ msg_type ∷ big_endian 8 (size % 2 ^ 64)

-- `write p w` is w.Write(p): the writer afterwards, and its error.
module _ {W : Type 0} (write : Bytes → W → W × Option IoError) where
  unfoldable pub write_frame : ℕ → Bytes → W → W × Option IoError
  write_frame msg_type payload w =
      let (w', e) = write (header msg_type (length payload)) w in
      elim e [
        | some x ↦ (w', some x)
        | none ↦ if ltb 0 (length payload) then write payload w' else (w', none)
      ]

-- A buffer in memory takes every write.
unfoldable pub append_write : Bytes → Bytes → Bytes × Option IoError
append_write p w = (w ++ p, none)

-- A frame as WriteMsg and ReadMsg see it.
pub record Message : Type 0 where
  pub msg_type : ℕ
  pub payload : Bytes

-- io.ReadFull(r, buf) for a buffer of n > 0 bytes: what was read, what is left, the error.
pub record FullRead : Type 0 where
  pub got : Bytes
  pub left : Bytes
  pub err : Option IoError

unfoldable pub read_full : ℕ → Bytes → FullRead
read_full n input =
    if leb n (length input)
    then record { got = take n input; left = drop n input; err = none }
    else if length input == 0
    then record { got = []; left = []; err = some eof }
    else record { got = input; left = []; err = some unexpected_eof }

-- What ReadFrame returns (type, payload, error), and what is left of the stream.
pub record FrameRead : Type 0 where
  pub msg_type : ℕ
  pub payload : Bytes
  pub err : Option IoError
  pub left : Bytes

-- the byte `hdr[i]`
abbrev byte_at : Bytes → ℕ → ℕ
byte_at b i = elim (get_elem? b i) [ some x ↦ x | none ↦ 0 ]

abbrev wrong_version : ℕ → ProtoError
wrong_version v = record {
  code = Err.protocol_error;
  msg = utf8 "unsupported proto version " ++ dec v;
}

abbrev pub too_large : ℕ → ℕ → ProtoError
too_large size max_frame = record {
  code = Err.protocol_error;
  msg = utf8 "frame too large: " ++ dec size ++ utf8 " > " ++ dec max_frame;
}

-- what follows the second io.ReadFull
unfoldable pub after_payload : ℕ → FullRead → FrameRead
after_payload msg_type r = elim r.err [
  | some x ↦ record { msg_type = msg_type; payload = []; err = some x; left = r.left }
  | none ↦ record { msg_type = msg_type; payload = r.got; err = none; left = r.left }
]

-- the payload, once the header has passed its checks
unfoldable pub read_payload : ℕ → ℕ → Bytes → FrameRead
read_payload msg_type size input =
    if ltb 0 size
    then after_payload msg_type (read_full size input)
    else record { msg_type = msg_type; payload = []; err = none; left = input }

-- the checks of the header: version, then length
unfoldable pub check_header : ℕ → Bytes → Bytes → FrameRead
check_header max_frame hdr input =
    let version = byte_at hdr 0 in
    let msg_type = byte_at hdr 1 in
    let size = of_big_endian 0 (drop 2 hdr) in
    if not (version == proto_version)
    then record {
      msg_type = msg_type;
      payload = [];
      err = some (proto (wrong_version version));
      left = input;
    }
    else if ltb max_frame size
    then record {
      msg_type = msg_type;
      payload = [];
      err = some (proto (too_large size max_frame));
      left = input;
    }
    else read_payload msg_type size input

-- what follows the first io.ReadFull
unfoldable pub after_header : ℕ → FullRead → FrameRead
after_header max_frame r = elim r.err [
  | some x ↦ record { msg_type = 0; payload = []; err = some x; left = r.left }
  | none ↦ check_header max_frame r.got r.left
]

unfoldable pub read_frame : ℕ → Bytes → FrameRead
read_frame max_frame input = after_header max_frame (read_full header_size input)
