-- ===== src/Protocol/Msg.antt =====
-- internal/protocol/protocol.go: the message types (the constants Msg*) and MsgName.
use backuper.Prelude.{ℕ, ◌+◌, ◌/◌, ◌%◌, ◌++◌, [], ◌∷◌, Bytes, utf8, ltb, ◌==◌, if◌then◌else◌}

abbrev pub auth_req : ℕ
auth_req = 0x01

abbrev pub auth_resp : ℕ
auth_resp = 0x02

abbrev pub list_req : ℕ
list_req = 0x10

abbrev pub list_batch : ℕ
list_batch = 0x11

abbrev pub get_req : ℕ
get_req = 0x20

abbrev pub get_resp : ℕ
get_resp = 0x21

abbrev pub file_data : ℕ
file_data = 0x22

abbrev pub file_end : ℕ
file_end = 0x23

abbrev pub get_delta : ℕ
get_delta = 0x24

abbrev pub delta_resp : ℕ
delta_resp = 0x25

abbrev pub block_keep : ℕ
block_keep = 0x26

abbrev pub put_req : ℕ
put_req = 0x30

abbrev pub put_resp : ℕ
put_resp = 0x31

abbrev pub disk_req : ℕ
disk_req = 0x40

abbrev pub disk_resp : ℕ
disk_resp = 0x41

abbrev pub ping : ℕ
ping = 0xf0

abbrev pub pong : ℕ
pong = 0xf1

abbrev pub error : ℕ
error = 0xff

hex_digit : ℕ → ℕ
hex_digit d = if ltb d 10 then b'0' + d else b'a' + d % 10

-- MsgName
unfoldable pub name : ℕ → Bytes
unfolding hex_digit
name t =
    if t == auth_req
    then utf8 "AUTH_REQ"
    else if t == auth_resp
    then utf8 "AUTH_RESP"
    else if t == list_req
    then utf8 "LIST_REQ"
    else if t == list_batch
    then utf8 "LIST_BATCH"
    else if t == get_req
    then utf8 "GET_REQ"
    else if t == get_resp
    then utf8 "GET_RESP"
    else if t == file_data
    then utf8 "FILE_DATA"
    else if t == file_end
    then utf8 "FILE_END"
    else if t == get_delta
    then utf8 "GET_DELTA"
    else if t == delta_resp
    then utf8 "DELTA_RESP"
    else if t == block_keep
    then utf8 "BLOCK_KEEP"
    else if t == put_req
    then utf8 "PUT_REQ"
    else if t == put_resp
    then utf8 "PUT_RESP"
    else if t == disk_req
    then utf8 "DISK_REQ"
    else if t == disk_resp
    then utf8 "DISK_RESP"
    else if t == ping
    then utf8 "PING"
    else if t == pong
    then utf8 "PONG"
    else if t == error
    then utf8 "ERROR"
    else utf8 "UNKNOWN(0x" ++ (hex_digit (t / 16) ∷ hex_digit (t % 16) ∷ []) ++ utf8 ")"
