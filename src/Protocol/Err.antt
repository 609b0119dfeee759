-- ===== src/Protocol/Err.antt =====
-- internal/protocol/protocol.go: the error codes (the constants Err*), ErrName and ProtoError.
use backuper.Prelude.{ℕ, ◌++◌, Bytes, utf8, dec, ◌==◌, if◌then◌else◌}

abbrev pub auth_failed : ℕ
auth_failed = 1

abbrev pub not_found : ℕ
not_found = 2

abbrev pub permission_denied : ℕ
permission_denied = 3

abbrev pub io_error : ℕ
io_error = 4

abbrev pub disk_full : ℕ
disk_full = 5

abbrev pub bad_offset : ℕ
bad_offset = 6

abbrev pub busy : ℕ
busy = 7

abbrev pub protocol_error : ℕ
protocol_error = 8

abbrev pub size_mismatch : ℕ
size_mismatch = 9

abbrev pub unsupported : ℕ
unsupported = 10

-- ErrName
unfoldable pub name : ℕ → Bytes
name code =
    if code == auth_failed
    then utf8 "AUTH_FAILED"
    else if code == not_found
    then utf8 "NOT_FOUND"
    else if code == permission_denied
    then utf8 "PERMISSION_DENIED"
    else if code == io_error
    then utf8 "IO_ERROR"
    else if code == disk_full
    then utf8 "DISK_FULL"
    else if code == bad_offset
    then utf8 "BAD_OFFSET"
    else if code == busy
    then utf8 "BUSY"
    else if code == protocol_error
    then utf8 "PROTOCOL_ERROR"
    else if code == size_mismatch
    then utf8 "SIZE_MISMATCH"
    else if code == unsupported
    then utf8 "UNSUPPORTED"
    else utf8 "ERR(" ++ dec code ++ utf8 ")"

pub record ProtoError : Type 0 where
  pub code : ℕ  -- uint16
  pub msg : Bytes

-- (*ProtoError).Error
unfoldable pub error_text : ProtoError → Bytes
error_text e = name e.code ++ utf8 ": " ++ e.msg
