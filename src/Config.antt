-- ===== src/Config.antt =====
-- internal/config: the .env file, its values, and what is required of them. This file holds what the
-- parts share: the functions of the standard library that they take, the problems that they
-- report, and a value as an int64.
pub mod Env
pub mod Values
pub mod Shared
pub mod Server
pub mod Client
mod Tests
use backuper.Prelude.{ℕ, Bool, Option, Bytes}
use backuper.Prelude.Int.{ℤ}

-- The standard library's functions on text: strings.TrimSpace, ToUpper and ToLower, time.ParseDuration
-- (nanoseconds), `int64(f * float64(m))` for the f of strconv.ParseFloat, and whether
-- time.LoadLocation knows a name.
pub record TextLibrary : Type 0 where
  pub trim_space : Bytes → Bytes
  pub to_upper : Bytes → Bytes
  pub to_lower : Bytes → Bytes
  pub parse_duration : Bytes → Option ℤ
  pub parse_scaled : Bytes → ℕ → Option ℤ
  pub has_location : Bytes → Bool

-- What parsing reports, with the key and the value; the texts are formatted from these.
pub data Problem : Type 0 where
  missing : Bytes → Problem
  bad_number bad_duration bad_size bad_perms bad_tls bad_level bad_timezone :
      Bytes → Bytes → Problem
