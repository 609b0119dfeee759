-- ===== src/Config/Server/Usable.antt =====
-- What Validate promises to the rest of the program: when it is silent, and only then, the files and
-- directories are such that it accepts them, and the numbers are in the ranges that the cycle, the
-- transfer and the delta rely on.
use backuper.Prelude.{◌≡◌, ◌⊎◌, false, utf8, arith}
use backuper.Prelude.Int.{ℤ, pos, ltb_ℤ, ◌<ℤ◌, ◌≤ℤ◌}
use backuper.Config.Server.{ServerSettings}

abbrev pub IsPositive : ℤ → Type 0
IsPositive v = pos 0 <ℤ v

pub record IsUsable (c : ServerSettings) : Type 0 where
  pub some_worker : IsPositive c.parallel_transfers
  pub some_pass : IsPositive c.sync_max_passes
  pub some_chunk : IsPositive c.chunk_size
  pub chunk_fits : c.chunk_size ≤ℤ c.max_frame_bytes
  pub some_block : pos 0 <ℤ c.delta_min_size → IsPositive c.delta_block_size
  pub block_fits : pos 0 <ℤ c.delta_min_size → c.delta_block_size ≤ℤ c.max_frame_bytes
  pub some_attempt : IsPositive c.retry_count
  pub known_security :
      (c.smtp_security ≡ utf8 "none")
      ⊎ ((c.smtp_security ≡ utf8 "starttls") ⊎ (c.smtp_security ≡ utf8 "tls"))

test-not-less : (a b : ℤ) → ltb_ℤ a b ≡ false → ¬ (a <ℤ b)
test-not-less a b h lt = ground arith

-- the blocks of a delta
abbrev DeltaUsable : ServerSettings → Type 0
DeltaUsable c =
    pos 0 <ℤ c.delta_min_size
    → IsPositive c.delta_block_size × (c.delta_block_size ≤ℤ c.max_frame_bytes)
