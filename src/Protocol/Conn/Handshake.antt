-- ===== src/Protocol/Conn/Handshake.antt =====
-- The exchange of passwords between the two sides.
use backuper.Prelude.{
  ℕ, ◌^◌, ◌≤◌, ◌<◌, ◌≡◌, refl, sym, ap, ◌∙◌, Bool, true, false, ◌&&◌, ◌==◌, [], ◌++◌, Option, none,
  some, arith, Bytes, utf8, length, ltb, bytes_eq, Bool-cases, inl, inr, if◌then◌else◌, append-nil,
}
use backuper.Protocol.Msg
use backuper.Protocol.Err
use backuper.Protocol.Frame.{IoError, proto, proto_version, append_write, read_frame}
use backuper.Protocol.Frame.RoundTrip.{
  frame_bytes, refused, write_frame-frame_bytes, read_frame-write_frame,
}
use backuper.Protocol.Messages.{
  encode_error_msg, AuthReq, encode_auth_req, parse_auth_req, AuthResp, encode_auth_resp,
  parse_auth_resp,
}
use backuper.Protocol.Messages.RoundTrip.{parse_auth_req-encode, parse_auth_resp-encode}
use backuper.Protocol.Conn.{
  Conn, read_msg, got, expect, read_expect, write_msg, send_error, auth_as_initiator,
  auth_as_responder, check_auth_req, check_auth_resp, on_auth_req, on_auth_resp, refuse_password,
}

abbrev pub conn : ℕ → Bytes → Bytes → Conn Bytes
conn max raw incoming = record { incoming = incoming; raw = raw; max_frame = max }

abbrev pub auth_req : Bytes → AuthReq
auth_req password = record { proto_version = proto_version; password = password }

abbrev pub auth_resp : Bytes → ℕ → AuthResp
auth_resp password status = record { password = password; status = status }

-- no error
abbrev pub accepted : Conn Bytes × Option IoError → Bool
accepted (c, none) = true
accepted (c, some e) = false

abbrev pub request : Bytes → Bytes
request password = frame_bytes Msg.auth_req (encode_auth_req (auth_req password))

abbrev pub response : Bytes → ℕ → Bytes
response password status = frame_bytes Msg.auth_resp (encode_auth_resp (auth_resp password status))

write_msg-frame_bytes :
    (t : ℕ) (p : Bytes) (c : Conn Bytes)
    → write_msg append_write t p c ≡ (record c { raw = c.raw ++ frame_bytes t p }, none)
unfolding write_msg
write_msg-frame_bytes t p c =
    ap (λ q. (record c { raw = q.0 }, q.1)) (write_frame-frame_bytes t p c.raw)

read_frame-frame_bytes :
    (max t : ℕ) (p rest : Bytes)
    → length p ≤ max
    → length p < 2 ^ 64
    → read_frame max (frame_bytes t p ++ rest)
      ≡ record { msg_type = t; payload = p; err = none; left = rest }
read_frame-frame_bytes max t p rest small h =
    let within : ltb max (length p) ≡ false = ground arith in
    ap (λ q. read_frame max (q.0 ++ rest)) (sym (write_frame-frame_bytes t p []))
    ∙ read_frame-write_frame max t p rest h
    ∙ ap
        (λ b.
          if b
          then refused max t (length p) (p ++ rest)
          else record { msg_type = t; payload = p; err = none; left = rest })
        within

read_expect-frame_bytes :
    (max t : ℕ) (w p rest : Bytes)
    → length p ≤ max
    → max < 2 ^ 64
    → (t == Msg.error) ≡ false
    → (t == t) ≡ true
    → read_expect t (conn max w (frame_bytes t p ++ rest)) ≡ (got p, conn max w rest)
unfolding read_expect read_msg
read_expect-frame_bytes max t w p rest small h other same =
    ap (λ f. (expect t f, record { incoming = f.left; raw = w; max_frame = max }))
      (read_frame-frame_bytes max t p rest small (omega arith))
    ∙ unfold expect in rw (other, same) refl

responder_reads :
    (max : ℕ) (own peer pw rest : Bytes)
    → length pw < 2 ^ 32
    → length (encode_auth_req (auth_req pw)) ≤ max
    → max < 2 ^ 64
    → auth_as_responder append_write own peer (conn max [] (request pw ++ rest))
      ≡ check_auth_req append_write own peer (auth_req pw, none) (conn max [] rest)
unfolding auth_as_responder on_auth_req
responder_reads max own peer pw rest short small h =
    ap (on_auth_req append_write own peer) (
      read_expect-frame_bytes max Msg.auth_req [] (encode_auth_req (auth_req pw)) rest small h refl
        refl)
    ∙ ap (λ m. check_auth_req append_write own peer m (conn max [] rest))
        (ap parse_auth_req (sym (append-nil (encode_auth_req (auth_req pw))))
          ∙ parse_auth_req-encode (auth_req pw) []
              (record { proto_version_fits = omega arith; password_fits = short }))

initiator_sends :
    (max : ℕ) (own peer input : Bytes)
    → auth_as_initiator append_write own peer (conn max [] input)
      ≡ on_auth_resp append_write peer (read_expect Msg.auth_resp (conn max (request own) input))
unfolding auth_as_initiator
initiator_sends max own peer input =
    ap
      (λ q. elim q.1 [
        | some x ↦ (q.0, some x)
        | none ↦ on_auth_resp append_write peer (read_expect Msg.auth_resp q.0)
      ])
      (write_msg-frame_bytes Msg.auth_req (encode_auth_req (auth_req own)) (conn max [] input))

refuse_password-response :
    (max : ℕ) (own rest : Bytes)
    → (more : Bytes) × (refuse_password append_write own (conn max [] rest)
        ≡ conn max (response own 1 ++ more) rest)
unfolding refuse_password send_error
refuse_password-response max own rest =
    let resp = encode_auth_resp (auth_resp own 1) in
    let em =
      encode_error_msg
        (record { code = Err.auth_failed; message = utf8 "несовпадение пароля сервера" }) in
    (
      frame_bytes Msg.error em,
      ap (λ q. (write_msg append_write Msg.error em q.0).0)
            (write_msg-frame_bytes Msg.auth_resp resp (conn max [] rest))
          ∙ ap (λ q. q.0) (write_msg-frame_bytes Msg.error em (conn max (response own 1) rest)),
    )

-- The responder's answer to a request: it accepts just the password that it expects.
check_auth_req-accepts :
    (max : ℕ) (own peer pw rest : Bytes)
    → bytes_eq pw peer ≡ true
    → check_auth_req append_write own peer (auth_req pw, none) (conn max [] rest)
      ≡ (conn max (response own 0) rest, none)
unfolding check_auth_req
check_auth_req-accepts max own peer pw rest e =
    rw e
      (write_msg-frame_bytes Msg.auth_resp (encode_auth_resp (auth_resp own 0)) (conn max [] rest))

abbrev wrong_password : IoError
wrong_password =
    proto (record { code = Err.auth_failed; msg = utf8 "несовпадение пароля инициатора" })

check_auth_req-refuses :
    (max : ℕ) (own peer pw rest : Bytes)
    → bytes_eq pw peer ≡ false
    → (more : Bytes) × ((x : IoError) × (check_auth_req append_write own peer
            (auth_req pw, none)
            (conn max [] rest)
          ≡ (conn max (response own 1 ++ more) rest, some x)))
unfolding check_auth_req
check_auth_req-refuses max own peer pw rest e =
    let (more, sent) = refuse_password-response max own rest in
    (more, (wrong_password, rw e (ap (λ c. (c, some wrong_password)) sent)))

-- The initiator's verdict on an answer.
initiator_checks :
    (max : ℕ) (w own peer q rest : Bytes) (status : ℕ)
    → accepted (check_auth_resp append_write peer (auth_resp q status, none) (conn max w rest))
      ≡ ((status == 0) && bytes_eq q peer)
unfolding check_auth_resp
initiator_checks max w own peer q rest status = ground arith

initiator_reads :
    (max : ℕ) (w peer q rest : Bytes) (status : ℕ)
    → length q < 2 ^ 32
    → status < 2 ^ 8
    → length (encode_auth_resp (auth_resp q status)) ≤ max
    → max < 2 ^ 64
    → on_auth_resp append_write peer
        (read_expect Msg.auth_resp (conn max w (response q status ++ rest)))
      ≡ check_auth_resp append_write peer (auth_resp q status, none) (conn max w rest)
unfolding on_auth_resp
initiator_reads max w peer q rest status short fits small h =
    ap (on_auth_resp append_write peer) (
      read_expect-frame_bytes max Msg.auth_resp w (encode_auth_resp (auth_resp q status)) rest small
        h refl refl)
    ∙ ap (λ m. check_auth_resp append_write peer m (conn max w rest))
        (ap parse_auth_resp (sym (append-nil (encode_auth_resp (auth_resp q status))))
          ∙ parse_auth_resp-encode (auth_resp q status) []
              (record { password_fits = short; status_fits = fits }))

-- the initiator, given the bytes of an answer
initiator_verdict :
    (max : ℕ) (own peer q rest : Bytes) (status : ℕ)
    → length q < 2 ^ 32
    → status < 2 ^ 8
    → length (encode_auth_resp (auth_resp q status)) ≤ max
    → max < 2 ^ 64
    → accepted (auth_as_initiator append_write own peer (conn max [] (response q status ++ rest)))
      ≡ ((status == 0) && bytes_eq q peer)
initiator_verdict max own peer q rest status short fits small h =
    ap accepted (
      initiator_sends max own peer (response q status ++ rest)
      ∙ initiator_reads max (request own) peer q rest status short fits small h)
    ∙ initiator_checks max (request own) own peer q rest status

-- the two sides over one connection: the responder reads the initiator's request, the initiator reads
-- what the responder has written
abbrev pub responder_side : ℕ → Bytes → Bytes → Bytes → Conn Bytes × Option IoError
responder_side max own peer pw =
    auth_as_responder append_write own peer (conn max [] (request pw ++ []))

abbrev pub initiator_side : ℕ → Bytes → Bytes → Bytes → Conn Bytes × Option IoError
initiator_side max own peer answer = auth_as_initiator append_write own peer (conn max [] answer)

-- The exchange of passwords authenticates both sides. The responder accepts if and only if the
-- initiator's password is the one it expects; the initiator accepts if and only if, beside that, the
-- responder's password is the one the initiator expects. The responder is given the request with the
-- initiator's password. Passwords are shorter than 2^32 bytes and their messages fit the limit of
-- a frame; no write fails.
pub auth_handshake :
    (max : ℕ) (server_own client_expects client_own server_expects : Bytes)
    → length server_own < 2 ^ 32
    → length client_own < 2 ^ 32
    → length (encode_auth_req (auth_req server_own)) ≤ max
    → ((status : ℕ) → length (encode_auth_resp (auth_resp client_own status)) ≤ max)
    → max < 2 ^ 64
    → (accepted (responder_side max client_own client_expects server_own)
        ≡ bytes_eq server_own client_expects)
      × (accepted (
            initiator_side max server_own server_expects
              (responder_side max client_own client_expects server_own).0.raw)
          ≡ (bytes_eq server_own client_expects && bytes_eq client_own server_expects))
auth_handshake max so ce co se short_s short_c small_s small_c h =
    elim (Bool-cases (bytes_eq so ce)) [
      | inl e ↦
          let answered = reads ∙ check_auth_req-accepts max co ce so [] e in
          (
            ap accepted answered ∙ sym e,
            ap (λ r. accepted (initiator_side max so se r.0.raw)) answered
                ∙ ap (λ x. accepted (initiator_side max so se x)) (sym (append-nil (response co 0)))
                ∙ initiator_verdict max so se co [] 0 short_c (omega arith) (small_c 0) h
                ∙ sym (ap (λ b. b && bytes_eq co se) e),
          )
      | inr e ↦
          let (more, (x, sent)) = check_auth_req-refuses max co ce so [] e in
          let answered = reads ∙ sent in
          (
            ap accepted answered ∙ sym e,
            ap (λ r. accepted (initiator_side max so se r.0.raw)) answered
                ∙ initiator_verdict max so se co more 1 short_c (omega arith) (small_c 1) h
                ∙ sym (ap (λ b. b && bytes_eq co se) e),
          )
    ]
  where
    reads :
        responder_side max co ce so
        ≡ check_auth_req append_write co ce (auth_req so, none) (conn max [] [])
    reads = responder_reads max co ce so [] short_s small_s h
