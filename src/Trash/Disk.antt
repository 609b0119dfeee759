-- ===== src/Trash/Disk.antt =====
-- moveFile and fileExists of internal/trash/trash.go, over a file system whose operations can fail.
use backuper.Prelude.{Bool, true, false, Option, none, some, Bytes, utf8, if◌then◌else◌}
use backuper.Protocol.Paths.{JoinError}
use backuper.Files.{put}

-- The files by their paths.
abbrev pub FileSystem : Type 0
FileSystem = Bytes → Option Bytes

unfoldable pub file_exists : Bytes → FileSystem → Bool
file_exists p fs = elim (fs p) [ none ↦ false | some b ↦ true ]

-- What the operating system refuses: each operation's error, if it has one. A copy that fails has
-- written some bytes before.
pub record Faults : Type 0 where
  pub rename : Bytes → Bytes → Option Bytes
  pub open_out : Bytes → Option Bytes
  pub copy : Bytes → Option (Bytes × Bytes)
  pub sync : Bytes → Option Bytes
  pub remove : Bytes → Option Bytes
  pub make_dir : Bytes → Option Bytes

pub data TrashError : Type 0 where
  os_error : Bytes → TrashError
  path_error : JoinError → TrashError

abbrev pub missing : TrashError
missing = os_error (utf8 "no such file or directory")

module _ (faults : Faults) where
  -- os.Remove
  unfoldable pub remove_file : Bytes → FileSystem → FileSystem × Option TrashError
  remove_file p fs = elim (faults.remove p) [
    | some e ↦ (fs, some (os_error e))
    | none ↦ if file_exists p fs then (put p none fs, none) else (fs, some missing)
  ]

  -- the copy, once both files are open: the bytes, Sync, then the source is removed
  unfoldable pub copy_and_remove :
      Bytes → Bytes → Bytes → FileSystem → FileSystem × Option TrashError
  unfolding remove_file put
  copy_and_remove src dst contents fs = elim (faults.copy dst) [
    | some (part, e) ↦ (put dst (some part) fs, some (os_error e))
    | none ↦
        let copied = put dst (some contents) fs in
        elim (faults.sync dst) [
          | some e ↦ (copied, some (os_error e))
          | none ↦ remove_file src copied
        ]
  ]

  unfoldable pub copy_over : Bytes → Bytes → FileSystem → FileSystem × Option TrashError
  unfolding copy_and_remove
  copy_over src dst fs = elim (fs src) [
    | none ↦ (fs, some missing)
    | some contents ↦ elim (faults.open_out dst) [
      | some e ↦ (fs, some (os_error e))
      | none ↦ copy_and_remove src dst contents fs
    ]
  ]

  unfoldable pub rename_or_copy : Bytes → Bytes → FileSystem → FileSystem × Option TrashError
  unfolding copy_over put
  rename_or_copy src dst fs = elim (fs src) [
    | none ↦ copy_over src dst fs
    | some contents ↦ elim (faults.rename src dst) [
      | some e ↦ copy_over src dst fs
      | none ↦ (put dst (some contents) (put src none fs), none)
    ]
  ]

  unfoldable pub move_file : Bytes → Bytes → FileSystem → FileSystem × Option TrashError
  unfolding remove_file rename_or_copy
  move_file src dst fs =
      rename_or_copy src dst (if file_exists dst fs then (remove_file dst fs).0 else fs)
