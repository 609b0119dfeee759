-- ===== src/Chunks.antt =====
-- The loop in which both sides send a file in chunks (internal/client/fileserver.go, handleGet;
-- internal/server/restore.go, sendRestoreFile).
pub mod Laws
use Prim.Native.Nat.{zero, suc}
use backuper.Prelude.{
  ℕ, ◌+◌, ◌-◌, Bool, true, false, Option, none, some, Bytes, length, ltb, if◌then◌else◌,
}
use backuper.Prelude.Steps.{Done, stopped, went, Steps, ◌>>=◌, pure, stop}
use backuper.Client.{ReadError, at_eof, read_failed, OpenFile}

-- `send_part position bytes` sends what was read, `on_error` ends the function after a read that has
-- failed, and `exhausted` is the end of a loop that is out of fuel.
module _ {W E : Type 0} (chunk : ℕ) (exhausted : E) (send_part : ℕ → Bytes → Steps W E Unit)
    (on_error : Bytes → Steps W E Unit) where
  -- `if n > 0 { ... }` in the loop
  unfoldable pub send_read : ℕ → Bytes → Steps W E Unit
  send_read position bytes = if ltb 0 (length bytes) then send_part position bytes else pure tt

  -- the size of the next read
  unfoldable pub to_read : ℕ → ℕ
  to_read remaining = if ltb remaining chunk then remaining else chunk

  -- the end of a round: `break` at the end of the file, an error, or the next round
  unfoldable pub after_read : Option ReadError → Steps W E Unit → Steps W E Unit
  after_read none next = next
  after_read (some at_eof) next = pure tt
  after_read (some (read_failed t)) next = on_error t

  -- the loop, one unit of fuel for a read
  unfoldable pub chunk_loop : ℕ → OpenFile → ℕ → ℕ → Steps W E Unit
  unfolding send_read to_read after_read
  chunk_loop zero f remaining position = stop exhausted
  chunk_loop (suc fuel) f remaining position = elim (ltb 0 remaining) [
    | false ↦ pure tt
    | true ↦
        let (bytes, e) = f.read position (to_read remaining) in
        send_read position bytes >>= λ u.
        after_read e (chunk_loop fuel f (remaining - length bytes) (position + length bytes))
  ]
