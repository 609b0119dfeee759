-- ===== src/Protocol/Messages/Lists.antt =====
-- internal/protocol/messages.go: the messages that hold a counted list, LIST_BATCH, GET_DELTA and
-- DISK_RESP.
pub mod RoundTrip
use Prim.Native.Nat.{zero, suc}
use backuper.Prelude.{
  ℕ, ◌%◌, ◌^◌, ◌==◌, [], ◌∷◌, List, Bool, Option, none, some, Bytes, length, if◌then◌else◌,
}
use backuper.Prelude.Int.{ℤ}
use backuper.Protocol.Err.{ProtoError}
use backuper.Protocol.Scanner.{
  put_u8, put_u32, put_u64, put_i64, put_str, put_raw, Builder, Scanner, Reader, ◌>>=◌, pure, u8,
  u32, u64, i64, str, raw, parse_with,
}

-- `for i := 0; i < count; i++ { x := ...; if s.Err() != nil { return m, s.Err() }; append }`
unfoldable pub repeat {ℓ} : {A : Type ℓ} → ℕ → Reader A → Reader (List A)
repeat zero r s = ([], s)
repeat (suc n) r s =
    let (x, s') = r s in
    elim s'.err [ some _ ↦ ([], s') | none ↦ let (xs, s'') = repeat n r s' in (x ∷ xs, s'') ]

-- `if s.Err() != nil { return m, s.Err() }` before the loop
unfoldable pub repeat_unless_err {ℓ} : {A : Type ℓ} → ℕ → Reader A → Reader (List A)
unfolding repeat
repeat_unless_err n r s = elim s.err [ some _ ↦ ([], s) | none ↦ repeat n r s ]

-- `for _, x := range xs { ... }` over a builder
unfoldable pub put_each {ℓ} : {A : Type ℓ} → (A → Builder → Builder) → List A → Builder → Builder
put_each put [] b = b
put_each put (x ∷ xs) b = put_each put xs (put x b)

pub record FileEntry : Type 0 where
  pub path : Bytes
  pub size : ℕ  -- uint64
  pub mtime : ℤ  -- int64

pub record ListBatch : Type 0 where
  pub is_last : Bool
  pub entries : List FileEntry

unfoldable pub put_entry : FileEntry → Builder → Builder
put_entry e b = put_i64 e.mtime (put_u64 e.size (put_str e.path b))

unfoldable pub encode_list_batch : ListBatch → Bytes
unfolding put_entry put_each
encode_list_batch m =
    put_each put_entry m.entries
      (put_u32 (length m.entries % 2 ^ 32) (if m.is_last then put_u8 1 [] else put_u8 0 []))

unfoldable pub read_entry : Reader FileEntry
read_entry = do
  path ← str
  size ← u64
  mtime ← i64
  pure (record { path = path; size = size; mtime = mtime })

unfoldable pub read_list_batch : Reader ListBatch
unfolding read_entry repeat_unless_err
read_list_batch = do
  last ← u8
  count ← u32
  entries ← repeat_unless_err count read_entry
  pure (record { is_last = last == 1; entries = entries })

unfoldable pub parse_list_batch : Bytes → ListBatch × Option ProtoError
unfolding read_list_batch
parse_list_batch = parse_with read_list_batch

-- a sha256 sum: 32 bytes
abbrev pub Hash : Type 0
Hash = Bytes

pub record DeltaReq : Type 0 where
  pub path : Bytes
  pub block_size : ℕ  -- uint32
  pub hashes : List Hash

unfoldable pub encode_delta_req : DeltaReq → Bytes
unfolding put_each
encode_delta_req m =
    put_each put_raw m.hashes
      (put_u32 (length m.hashes % 2 ^ 32) (put_u32 m.block_size (put_str m.path [])))

unfoldable pub read_delta_req : Reader DeltaReq
unfolding repeat_unless_err
read_delta_req = do
  path ← str
  block_size ← u32
  count ← u32
  hashes ← repeat_unless_err count (raw 32)
  pure (record { path = path; block_size = block_size; hashes = hashes })

unfoldable pub parse_delta_req : Bytes → DeltaReq × Option ProtoError
unfolding read_delta_req
parse_delta_req = parse_with read_delta_req

pub record MountInfo : Type 0 where
  pub mount : Bytes
  pub total : ℕ  -- uint64
  pub free : ℕ  -- uint64

pub record DiskResp : Type 0 where
  pub mounts : List MountInfo

unfoldable pub put_mount : MountInfo → Builder → Builder
put_mount m b = put_u64 m.free (put_u64 m.total (put_str m.mount b))

-- uint8(len(m.Mounts)) keeps the low 8 bits of the count
unfoldable pub encode_disk_resp : DiskResp → Bytes
unfolding put_mount put_each
encode_disk_resp m = put_each put_mount m.mounts (put_u8 (length m.mounts % 2 ^ 8) [])

unfoldable pub read_mount : Reader MountInfo
read_mount = do
  mount ← str
  total ← u64
  free ← u64
  pure (record { mount = mount; total = total; free = free })

unfoldable pub read_disk_resp : Reader DiskResp
unfolding read_mount repeat_unless_err
read_disk_resp = do
  count ← u8
  mounts ← repeat_unless_err count read_mount
  pure (record { mounts = mounts })

unfoldable pub parse_disk_resp : Bytes → DiskResp × Option ProtoError
unfolding read_disk_resp
parse_disk_resp = parse_with read_disk_resp
