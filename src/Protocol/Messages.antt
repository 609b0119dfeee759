-- ===== src/Protocol/Messages.antt =====
-- internal/protocol/messages.go: the messages with a fixed list of fields, their encoders and
-- parsers. A parser returns what it read beside the scanner's error, as the code does.
pub mod Lists
pub mod RoundTrip
use backuper.Prelude.{ℕ, [], Option, Bytes}
use backuper.Prelude.Int.{ℤ}
use backuper.Protocol.Err.{ProtoError}
use backuper.Protocol.Scanner.{
  put_u8, put_u16, put_u64, put_i64, put_str, Reader, ◌>>=◌, pure, u8, u16, u64, i64, str,
  parse_with,
}

pub record AuthReq : Type 0 where
  pub proto_version : ℕ  -- uint8
  pub password : Bytes  -- string

unfoldable pub encode_auth_req : AuthReq → Bytes
encode_auth_req m = put_str m.password (put_u8 m.proto_version [])

unfoldable pub read_auth_req : Reader AuthReq
read_auth_req = do
  proto_version ← u8
  password ← str
  pure (record { proto_version = proto_version; password = password })

unfoldable pub parse_auth_req : Bytes → AuthReq × Option ProtoError
unfolding read_auth_req
parse_auth_req = parse_with read_auth_req

pub record AuthResp : Type 0 where
  pub password : Bytes  -- string
  pub status : ℕ  -- uint8

unfoldable pub encode_auth_resp : AuthResp → Bytes
encode_auth_resp m = put_u8 m.status (put_str m.password [])

unfoldable pub read_auth_resp : Reader AuthResp
read_auth_resp = do
  password ← str
  status ← u8
  pure (record { password = password; status = status })

unfoldable pub parse_auth_resp : Bytes → AuthResp × Option ProtoError
unfolding read_auth_resp
parse_auth_resp = parse_with read_auth_resp

pub record ListReq : Type 0 where
  pub root : Bytes  -- string

unfoldable pub encode_list_req : ListReq → Bytes
encode_list_req m = put_str m.root []

unfoldable pub read_list_req : Reader ListReq
read_list_req = do root ← str; pure (record { root = root })

unfoldable pub parse_list_req : Bytes → ListReq × Option ProtoError
unfolding read_list_req
parse_list_req = parse_with read_list_req

pub record GetReq : Type 0 where
  pub path : Bytes  -- string
  pub offset : ℕ  -- uint64

unfoldable pub encode_get_req : GetReq → Bytes
encode_get_req m = put_u64 m.offset (put_str m.path [])

unfoldable pub read_get_req : Reader GetReq
read_get_req = do path ← str; offset ← u64; pure (record { path = path; offset = offset })

unfoldable pub parse_get_req : Bytes → GetReq × Option ProtoError
unfolding read_get_req
parse_get_req = parse_with read_get_req

pub record GetResp : Type 0 where
  pub status : ℕ  -- uint8
  pub total_size : ℕ  -- uint64
  pub mtime : ℤ  -- int64

unfoldable pub encode_get_resp : GetResp → Bytes
encode_get_resp m = put_i64 m.mtime (put_u64 m.total_size (put_u8 m.status []))

unfoldable pub read_get_resp : Reader GetResp
read_get_resp = do
  status ← u8
  total_size ← u64
  mtime ← i64
  pure (record { status = status; total_size = total_size; mtime = mtime })

unfoldable pub parse_get_resp : Bytes → GetResp × Option ProtoError
unfolding read_get_resp
parse_get_resp = parse_with read_get_resp

pub record PutReq : Type 0 where
  pub path : Bytes  -- string
  pub total_size : ℕ  -- uint64
  pub offset : ℕ  -- uint64
  pub mtime : ℤ  -- int64

unfoldable pub encode_put_req : PutReq → Bytes
encode_put_req m = put_i64 m.mtime (put_u64 m.offset (put_u64 m.total_size (put_str m.path [])))

unfoldable pub read_put_req : Reader PutReq
read_put_req = do
  path ← str
  total_size ← u64
  offset ← u64
  mtime ← i64
  pure (record { path = path; total_size = total_size; offset = offset; mtime = mtime })

unfoldable pub parse_put_req : Bytes → PutReq × Option ProtoError
unfolding read_put_req
parse_put_req = parse_with read_put_req

pub record PutResp : Type 0 where
  pub status : ℕ  -- uint8
  pub resume_offset : ℕ  -- uint64

unfoldable pub encode_put_resp : PutResp → Bytes
encode_put_resp m = put_u64 m.resume_offset (put_u8 m.status [])

unfoldable pub read_put_resp : Reader PutResp
read_put_resp = do
  status ← u8
  resume_offset ← u64
  pure (record { status = status; resume_offset = resume_offset })

unfoldable pub parse_put_resp : Bytes → PutResp × Option ProtoError
unfolding read_put_resp
parse_put_resp = parse_with read_put_resp

pub record DeltaResp : Type 0 where
  pub status : ℕ  -- uint8
  pub total_size : ℕ  -- uint64
  pub mtime : ℤ  -- int64

unfoldable pub encode_delta_resp : DeltaResp → Bytes
encode_delta_resp m = put_i64 m.mtime (put_u64 m.total_size (put_u8 m.status []))

unfoldable pub read_delta_resp : Reader DeltaResp
read_delta_resp = do
  status ← u8
  total_size ← u64
  mtime ← i64
  pure (record { status = status; total_size = total_size; mtime = mtime })

unfoldable pub parse_delta_resp : Bytes → DeltaResp × Option ProtoError
unfolding read_delta_resp
parse_delta_resp = parse_with read_delta_resp

pub record ErrorMsg : Type 0 where
  pub code : ℕ  -- uint16
  pub message : Bytes  -- string

unfoldable pub encode_error_msg : ErrorMsg → Bytes
encode_error_msg m = put_str m.message (put_u16 m.code [])

unfoldable pub read_error_msg : Reader ErrorMsg
read_error_msg = do code ← u16; message ← str; pure (record { code = code; message = message })

unfoldable pub parse_error_msg : Bytes → ErrorMsg × Option ProtoError
unfolding read_error_msg
parse_error_msg = parse_with read_error_msg
