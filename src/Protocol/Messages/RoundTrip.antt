-- ===== src/Protocol/Messages/RoundTrip.antt =====
-- Each message with a fixed list of fields is read back from its encoding.
use backuper.Prelude.{◌^◌, ◌<◌, ◌≡◌, ◌++◌, [], ◌∷◌, none, Bytes, length, append_assoc, append-nil}
use backuper.Prelude.Int.{IsInt64, to_word}
use backuper.Protocol.Scanner.{big_endian, put_u8, put_u16, put_u32, put_u64, put_i64, put_str}
use backuper.Protocol.Scanner.Reads.{
  parse_with-Reads, u8-Reads, u16-Reads, u64-Reads, i64-Reads, str_bytes, str-Reads, bind-Reads,
  pure-Reads,
}
use backuper.Protocol.Messages.{
  AuthReq, encode_auth_req, read_auth_req, parse_auth_req, AuthResp, encode_auth_resp,
  read_auth_resp, parse_auth_resp, ListReq, encode_list_req, read_list_req, parse_list_req, GetReq,
  encode_get_req, read_get_req, parse_get_req, GetResp, encode_get_resp, read_get_resp,
  parse_get_resp, PutReq, encode_put_req, read_put_req, parse_put_req, PutResp, encode_put_resp,
  read_put_resp, parse_put_resp, DeltaResp, encode_delta_resp, read_delta_resp, parse_delta_resp,
  ErrorMsg, encode_error_msg, read_error_msg, parse_error_msg,
}

-- The values that the fields of the Go structs can hold.

pub record AuthReqIsValid (m : AuthReq) : Type 0 where
  pub proto_version_fits : m.proto_version < 2 ^ 8
  pub password_fits : length m.password < 2 ^ 32

pub record AuthRespIsValid (m : AuthResp) : Type 0 where
  pub password_fits : length m.password < 2 ^ 32
  pub status_fits : m.status < 2 ^ 8

pub record ListReqIsValid (m : ListReq) : Type 0 where
  pub root_fits : length m.root < 2 ^ 32

pub record GetReqIsValid (m : GetReq) : Type 0 where
  pub path_fits : length m.path < 2 ^ 32
  pub offset_fits : m.offset < 2 ^ 64

pub record GetRespIsValid (m : GetResp) : Type 0 where
  pub status_fits : m.status < 2 ^ 8
  pub total_size_fits : m.total_size < 2 ^ 64
  pub mtime_fits : IsInt64 m.mtime

pub record PutReqIsValid (m : PutReq) : Type 0 where
  pub path_fits : length m.path < 2 ^ 32
  pub total_size_fits : m.total_size < 2 ^ 64
  pub offset_fits : m.offset < 2 ^ 64
  pub mtime_fits : IsInt64 m.mtime

pub record PutRespIsValid (m : PutResp) : Type 0 where
  pub status_fits : m.status < 2 ^ 8
  pub resume_offset_fits : m.resume_offset < 2 ^ 64

pub record DeltaRespIsValid (m : DeltaResp) : Type 0 where
  pub status_fits : m.status < 2 ^ 8
  pub total_size_fits : m.total_size < 2 ^ 64
  pub mtime_fits : IsInt64 m.mtime

pub record ErrorMsgIsValid (m : ErrorMsg) : Type 0 where
  pub code_fits : m.code < 2 ^ 16
  pub message_fits : length m.message < 2 ^ 32

encode_auth_req_flat :
    (m : AuthReq) → encode_auth_req m ≡ (m.proto_version ∷ []) ++ ((str_bytes m.password) ++ [])
unfolding encode_auth_req put_str put_u8 put_u32
encode_auth_req_flat m = simp (append_assoc, append-nil)

-- AuthReq is read back from its encoding, whatever bytes follow.
pub parse_auth_req-encode :
    (m : AuthReq) (rest : Bytes)
    → AuthReqIsValid m
    → parse_auth_req (encode_auth_req m ++ rest) ≡ (m, none)
unfolding parse_auth_req
parse_auth_req-encode m rest h = rw (encode_auth_req_flat m) (
    parse_with-Reads read_auth_req _ rest m (
      bind-Reads _ (u8-Reads m.proto_version h.proto_version_fits)
        (bind-Reads _ (str-Reads m.password h.password_fits) (pure-Reads m))))

encode_auth_resp_flat :
    (m : AuthResp) → encode_auth_resp m ≡ (str_bytes m.password) ++ ((m.status ∷ []) ++ [])
unfolding encode_auth_resp put_str put_u8 put_u32
encode_auth_resp_flat m = simp (append_assoc, append-nil)

-- AuthResp is read back from its encoding, whatever bytes follow.
pub parse_auth_resp-encode :
    (m : AuthResp) (rest : Bytes)
    → AuthRespIsValid m
    → parse_auth_resp (encode_auth_resp m ++ rest) ≡ (m, none)
unfolding parse_auth_resp
parse_auth_resp-encode m rest h = rw (encode_auth_resp_flat m) (
    parse_with-Reads read_auth_resp _ rest m (
      bind-Reads _ (str-Reads m.password h.password_fits)
        (bind-Reads _ (u8-Reads m.status h.status_fits) (pure-Reads m))))

encode_list_req_flat : (m : ListReq) → encode_list_req m ≡ str_bytes m.root ++ []
unfolding encode_list_req put_str put_u32
encode_list_req_flat m = simp (append_assoc, append-nil)

-- ListReq is read back from its encoding, whatever bytes follow.
pub parse_list_req-encode :
    (m : ListReq) (rest : Bytes)
    → ListReqIsValid m
    → parse_list_req (encode_list_req m ++ rest) ≡ (m, none)
unfolding parse_list_req
parse_list_req-encode m rest h = rw (encode_list_req_flat m) (
    parse_with-Reads read_list_req _ rest m
      (bind-Reads _ (str-Reads m.root h.root_fits) (pure-Reads m)))

encode_get_req_flat :
    (m : GetReq) → encode_get_req m ≡ (str_bytes m.path) ++ ((big_endian 8 m.offset) ++ [])
unfolding encode_get_req put_str put_u64 put_u32
encode_get_req_flat m = simp (append_assoc, append-nil)

-- GetReq is read back from its encoding, whatever bytes follow.
pub parse_get_req-encode :
    (m : GetReq) (rest : Bytes)
    → GetReqIsValid m
    → parse_get_req (encode_get_req m ++ rest) ≡ (m, none)
unfolding parse_get_req
parse_get_req-encode m rest h = rw (encode_get_req_flat m) (
    parse_with-Reads read_get_req _ rest m (
      bind-Reads _ (str-Reads m.path h.path_fits)
        (bind-Reads _ (u64-Reads m.offset h.offset_fits) (pure-Reads m))))

encode_get_resp_flat :
    (m : GetResp)
    → encode_get_resp m
      ≡ (m.status ∷ []) ++ ((big_endian 8 m.total_size) ++ ((big_endian 8 (to_word m.mtime)) ++ []))
unfolding encode_get_resp put_i64 put_u64 put_u8
encode_get_resp_flat m = simp (append_assoc, append-nil)

-- GetResp is read back from its encoding, whatever bytes follow.
pub parse_get_resp-encode :
    (m : GetResp) (rest : Bytes)
    → GetRespIsValid m
    → parse_get_resp (encode_get_resp m ++ rest) ≡ (m, none)
unfolding parse_get_resp
parse_get_resp-encode m rest h = rw (encode_get_resp_flat m) (
    parse_with-Reads read_get_resp _ rest m (
      bind-Reads _ (u8-Reads m.status h.status_fits) (
        bind-Reads _ (u64-Reads m.total_size h.total_size_fits)
          (bind-Reads _ (i64-Reads m.mtime h.mtime_fits) (pure-Reads m)))))

encode_put_req_flat :
    (m : PutReq)
    → encode_put_req m
      ≡ (str_bytes m.path)
        ++ ((big_endian 8 m.total_size)
            ++ ((big_endian 8 m.offset) ++ ((big_endian 8 (to_word m.mtime)) ++ [])))
unfolding encode_put_req put_i64 put_str put_u64 put_u32
encode_put_req_flat m = simp (append_assoc, append-nil)

-- PutReq is read back from its encoding, whatever bytes follow.
pub parse_put_req-encode :
    (m : PutReq) (rest : Bytes)
    → PutReqIsValid m
    → parse_put_req (encode_put_req m ++ rest) ≡ (m, none)
unfolding parse_put_req
parse_put_req-encode m rest h = rw (encode_put_req_flat m) (
    parse_with-Reads read_put_req _ rest m (
      bind-Reads _ (str-Reads m.path h.path_fits) (
        bind-Reads _ (u64-Reads m.total_size h.total_size_fits) (
          bind-Reads _ (u64-Reads m.offset h.offset_fits)
            (bind-Reads _ (i64-Reads m.mtime h.mtime_fits) (pure-Reads m))))))

encode_put_resp_flat :
    (m : PutResp) → encode_put_resp m ≡ (m.status ∷ []) ++ ((big_endian 8 m.resume_offset) ++ [])
unfolding encode_put_resp put_u64 put_u8
encode_put_resp_flat m = simp (append_assoc, append-nil)

-- PutResp is read back from its encoding, whatever bytes follow.
pub parse_put_resp-encode :
    (m : PutResp) (rest : Bytes)
    → PutRespIsValid m
    → parse_put_resp (encode_put_resp m ++ rest) ≡ (m, none)
unfolding parse_put_resp
parse_put_resp-encode m rest h = rw (encode_put_resp_flat m) (
    parse_with-Reads read_put_resp _ rest m (
      bind-Reads _ (u8-Reads m.status h.status_fits)
        (bind-Reads _ (u64-Reads m.resume_offset h.resume_offset_fits) (pure-Reads m))))

encode_delta_resp_flat :
    (m : DeltaResp)
    → encode_delta_resp m
      ≡ (m.status ∷ []) ++ ((big_endian 8 m.total_size) ++ ((big_endian 8 (to_word m.mtime)) ++ []))
unfolding encode_delta_resp put_i64 put_u64 put_u8
encode_delta_resp_flat m = simp (append_assoc, append-nil)

-- DeltaResp is read back from its encoding, whatever bytes follow.
pub parse_delta_resp-encode :
    (m : DeltaResp) (rest : Bytes)
    → DeltaRespIsValid m
    → parse_delta_resp (encode_delta_resp m ++ rest) ≡ (m, none)
unfolding parse_delta_resp
parse_delta_resp-encode m rest h = rw (encode_delta_resp_flat m) (
    parse_with-Reads read_delta_resp _ rest m (
      bind-Reads _ (u8-Reads m.status h.status_fits) (
        bind-Reads _ (u64-Reads m.total_size h.total_size_fits)
          (bind-Reads _ (i64-Reads m.mtime h.mtime_fits) (pure-Reads m)))))

encode_error_msg_flat :
    (m : ErrorMsg) → encode_error_msg m ≡ (big_endian 2 m.code) ++ ((str_bytes m.message) ++ [])
unfolding encode_error_msg put_str put_u16 put_u32
encode_error_msg_flat m = simp (append_assoc, append-nil)

-- ErrorMsg is read back from its encoding, whatever bytes follow.
pub parse_error_msg-encode :
    (m : ErrorMsg) (rest : Bytes)
    → ErrorMsgIsValid m
    → parse_error_msg (encode_error_msg m ++ rest) ≡ (m, none)
unfolding parse_error_msg
parse_error_msg-encode m rest h = rw (encode_error_msg_flat m) (
    parse_with-Reads read_error_msg _ rest m (
      bind-Reads _ (u16-Reads m.code h.code_fits)
        (bind-Reads _ (str-Reads m.message h.message_fits) (pure-Reads m))))
