-- ===== src/Protocol/Conn.antt =====
-- internal/tlsconn/conn.go: messages over a connection, and the exchange of passwords. A connection is
-- the bytes that are still to come and a writer; deadlines are the system's.
pub mod Handshake
use backuper.Prelude.{
  ℕ, Bool, true, false, not, ◌||◌, ◌==◌, [], ◌++◌, Option, none, some, Bytes, utf8, dec, bytes_eq,
  if◌then◌else◌,
}
use backuper.Protocol.Msg
use backuper.Protocol.Err
use backuper.Protocol.Err.{ProtoError}
use backuper.Protocol.Frame.{IoError, proto, proto_version, write_frame, FrameRead, read_frame}
use backuper.Protocol.Messages.{
  AuthReq, encode_auth_req, parse_auth_req, AuthResp, encode_auth_resp, parse_auth_resp, ErrorMsg,
  encode_error_msg, parse_error_msg,
}

pub record Conn (W : Type 0) : Type 0 where
  pub incoming : Bytes
  pub raw : W
  pub max_frame : ℕ

unfoldable pub read_msg : {W : Type 0} → Conn W → FrameRead × Conn W
read_msg c = let f = read_frame c.max_frame c.incoming in (f, record c { incoming = f.left })

-- What ReadExpect returns.
pub data Expected : Type 0 where
  refused_with : IoError → Expected
  got : Bytes → Expected

-- the ERROR frame as an error
unfoldable pub error_of : Bytes → IoError
error_of payload =
    let em = (parse_error_msg payload).0 in proto (record { code = em.code; msg = em.message })

unfoldable pub expect : ℕ → FrameRead → Expected
unfolding error_of
expect expected f = elim f.err [
  | some e ↦ refused_with e
  | none ↦
      if f.msg_type == Msg.error
      then refused_with (error_of f.payload)
      else if not (f.msg_type == expected)
      then refused_with (
          proto (record {
            code = Err.protocol_error;
            msg = utf8 "ожидался " ++ Msg.name expected ++ utf8 ", получен " ++ Msg.name f.msg_type;
          }))
      else got f.payload
]

unfoldable pub read_expect : {W : Type 0} → ℕ → Conn W → Expected × Conn W
unfolding read_msg expect
read_expect expected c = let (f, c') = read_msg c in (expect expected f, c')

abbrev auth_failed : Bytes → IoError
auth_failed m = proto (record { code = Err.auth_failed; msg = m })

-- `write p w` is w.Write(p), as for WriteFrame.
module _ {W : Type 0} (write : Bytes → W → W × Option IoError) where
  unfoldable pub write_msg : ℕ → Bytes → Conn W → Conn W × Option IoError
  write_msg msg_type payload c =
      let (w, e) = write_frame write msg_type payload c.raw in (record c { raw = w }, e)

  unfoldable pub send_error : ℕ → Bytes → Conn W → Conn W × Option IoError
  unfolding write_msg
  send_error code message c =
      write_msg Msg.error (encode_error_msg (record { code = code; message = message })) c

  unfoldable pub ping : Conn W → Conn W × Option IoError
  unfolding write_msg
  ping c = write_msg Msg.ping [] c

  unfoldable pub pong : Conn W → Conn W × Option IoError
  unfolding write_msg
  pong c = write_msg Msg.pong [] c

  -- the initiator, once it has the answer's payload
  unfoldable pub check_auth_resp :
      Bytes → AuthResp × Option ProtoError → Conn W → Conn W × Option IoError
  unfolding send_error
  check_auth_resp peer_password (resp, err) c = elim err [
    | some e ↦ (c, some (proto e))
    | none ↦
        if not (resp.status == 0) || not (bytes_eq resp.password peer_password)
        then (
          (send_error Err.auth_failed (utf8 "несовпадение пароля собеседника") c).0,
          some (auth_failed (utf8 "несовпадение пароля клиента")),
        )
        else (c, none)
  ]

  unfoldable pub on_auth_resp : Bytes → Expected × Conn W → Conn W × Option IoError
  unfolding check_auth_resp
  on_auth_resp peer_password (refused_with e, c) = (c, some e)
  on_auth_resp peer_password (got payload, c) =
      check_auth_resp peer_password (parse_auth_resp payload) c

  unfoldable pub auth_as_initiator : Bytes → Bytes → Conn W → Conn W × Option IoError
  unfolding write_msg on_auth_resp read_expect
  auth_as_initiator own_password peer_password c =
      let (c', e) =
        write_msg Msg.auth_req
          (encode_auth_req (record { proto_version = proto_version; password = own_password })) c in
      elim e [
        | some x ↦ (c', some x)
        | none ↦ on_auth_resp peer_password (read_expect Msg.auth_resp c')
      ]

  unfoldable pub refuse_password : Bytes → Conn W → Conn W
  unfolding send_error write_msg
  refuse_password own_password c =
      let c' =
        (write_msg Msg.auth_resp (encode_auth_resp (record { password = own_password; status = 1 }))
          c).0 in
      (send_error Err.auth_failed (utf8 "несовпадение пароля сервера") c').0

  -- the responder, once it has the request's payload
  unfoldable pub check_auth_req :
      Bytes → Bytes → AuthReq × Option ProtoError → Conn W → Conn W × Option IoError
  unfolding send_error write_msg refuse_password
  check_auth_req own_password peer_password (req, err) c = elim err [
    | some e ↦ (c, some (proto e))
    | none ↦
        if not (req.proto_version == proto_version)
        then (
          (send_error Err.protocol_error
              (utf8 "неподдерживаемая версия протокола " ++ dec req.proto_version) c).0,
          some (
              proto (record {
                code = Err.protocol_error;
                msg = utf8 "версия протокола " ++ dec req.proto_version;
              })),
        )
        else if not (bytes_eq req.password peer_password)
        then (
          refuse_password own_password c,
          some (auth_failed (utf8 "несовпадение пароля инициатора")),
        )
        else write_msg Msg.auth_resp
            (encode_auth_resp (record { password = own_password; status = 0 })) c
  ]

  unfoldable pub on_auth_req : Bytes → Bytes → Expected × Conn W → Conn W × Option IoError
  unfolding check_auth_req
  on_auth_req own_password peer_password (refused_with e, c) = (c, some e)
  on_auth_req own_password peer_password (got payload, c) =
      check_auth_req own_password peer_password (parse_auth_req payload) c

  unfoldable pub auth_as_responder : Bytes → Bytes → Conn W → Conn W × Option IoError
  unfolding on_auth_req read_expect
  auth_as_responder own_password peer_password c =
      on_auth_req own_password peer_password (read_expect Msg.auth_req c)
