-- ===== src/Blocks.antt =====
-- The blocks that both sides of a delta cut a file into (internal/transfer/transfer.go,
-- internal/client/fileserver.go): how many there are, how long each is, and its bytes.
pub mod Laws
use backuper.Prelude.{ℕ, ◌+◌, ◌-◌, ◌*◌, ◌/◌, Bytes, take, drop, ltb, if◌then◌else◌}

-- (size + bs - 1) / bs
unfoldable pub block_count : ℕ → ℕ → ℕ
block_count bs size = (size + bs - 1) / bs

-- `bl := bs; if size-i*bs < bl { bl = size - i*bs }`
unfoldable pub block_len : ℕ → ℕ → ℕ → ℕ
block_len bs size i = if ltb (size - i * bs) bs then size - i * bs else bs

-- f.ReadAt(buf[:bl], i*bs)
unfoldable pub read_block : ℕ → ℕ → ℕ → Bytes → Bytes
unfolding block_len
read_block bs size i contents = take (block_len bs size i) (drop (i * bs) contents)
