-- ===== src/Trash.antt =====
-- internal/trash/trash.go: the files that the client has deleted, moved to the trash with their
-- versions (moveOne), over a file system whose operations can fail.
pub mod Disk
pub mod Names
pub mod Loops
pub mod Moves
mod Tests
use backuper.Prelude.{
  ℕ, zero, suc, ◌+◌, Bool, true, false, not, ◌||◌, List, [], ◌∷◌, ◌++◌, Option, none, some, Bytes,
  utf8, dec, bytes_eq, ltb, ◌==◌, length, if◌then◌else◌,
}
use backuper.Prelude.Int.{ℤ, pos}
use backuper.Protocol.Paths.{
  slash, clean, Joined, ok, err, JoinError, safe_join, clean_rel, norm_key,
}
use backuper.Store.{FileRow, ClientRow, TrashItem}
use backuper.Store.Files.{delete_file_by_norm}
use backuper.Store.Diff.{TrashCandidate, count_to_trash, select_trash_batch}
use backuper.Store.TrashRows.{
  has_canonical_trash, max_trash_version, bump_canonical_to_version, insert_trash, select_trash_due,
  delete_trash,
}
use backuper.Store.Events.{EventRow, insert_event}
use backuper.Prelude.Steps.{Done, stopped, went, Steps, ◌>>=◌}
use backuper.Trash.Disk.{
  FileSystem, Faults, TrashError, os_error, path_error, missing, file_exists, remove_file,
  move_file,
}
use backuper.Trash.Names.{version_rel}

-- What the trash works on: the files, the index, the trash's rows, the events.
pub record Tables : Type 0 where
  pub fs : FileSystem
  pub files : List FileRow
  pub trash : List TrashItem
  pub events : List EventRow

abbrev pub Run : Type 0 → Type 0
Run A = Steps Tables TrashError A

unfoldable pub joined : Joined → Run Bytes
joined (ok p) s = (went p, s)
joined (err e) s = (stopped (path_error e), s)

-- Config, with the directory that filepath.Abs asks for, strings.ToLower, the parent
-- of a path (filepath.Dir), and the text of an error.
pub record TrashConfig : Type 0 where
  pub storage_dir : Bytes
  pub trash_dir : Bytes
  pub retention_days : ℤ
  pub mass_delete_threshold : ℕ
  pub cwd : Option Bytes
  pub lower : Bytes → Bytes
  pub text : TrashError → Bytes

module _ (faults : Faults) (cfg : TrashConfig) where
  unfoldable pub version_path : Bytes → ℕ → Joined
  unfolding version_rel
  version_path relpath seq = safe_join cfg.cwd cfg.trash_dir (version_rel relpath seq)

  unfoldable pub trash_path_for : Bytes → ℕ → Joined
  unfolding version_path
  trash_path_for relpath version =
      if version == 0 then safe_join cfg.cwd cfg.trash_dir relpath else version_path relpath version

  -- os.MkdirAll(filepath.Dir(p))
  unfoldable pub make_dir_of : Bytes → Run Unit
  make_dir_of p s = elim (faults.make_dir p) [
    | some e ↦ (stopped (os_error e), s)
    | none ↦ (went tt, s)
  ]

  unfoldable pub move : Bytes → Bytes → Run Unit
  unfolding move_file
  move src dst s =
      let (fs', e) = move_file faults src dst s.fs in
      (elim e [ none ↦ went tt | some x ↦ stopped x ], record s { fs = fs' })

  unfoldable pub drop_index : Bytes → Run Unit
  unfolding norm_key
  drop_index relpath s =
      (went tt, record s { files = delete_file_by_norm (norm_key cfg.lower relpath) s.files })

  -- the file of the earlier deletion, where it is there
  unfoldable pub move_if_there : Bytes → Bytes → Run Unit
  unfolding move
  move_if_there canonical vp s =
      if file_exists canonical s.fs then move canonical vp s else (went tt, s)

  unfoldable pub bump : Bytes → ℕ → Run Unit
  bump relpath seq s = (went tt, record s { trash = bump_canonical_to_version relpath seq s.trash })

  unfoldable pub next_version : Bytes → Run ℕ
  next_version relpath s = (went (max_trash_version relpath s.trash + 1), s)

  -- an earlier deletion of the path is made a version
  unfoldable pub keep_version : Bytes → Bytes → Run Unit
  unfolding ◌>>=◌ joined version_path make_dir_of move_if_there bump next_version
  keep_version relpath canonical = do
    seq ← next_version relpath
    vp ← joined (version_path relpath seq)
    made ← make_dir_of vp
    moved ← move_if_there canonical vp
    bump relpath seq

  unfoldable pub keep_earlier : Bytes → Bytes → Run Unit
  unfolding keep_version
  keep_earlier relpath canonical s =
      if has_canonical_trash relpath s.trash || file_exists canonical s.fs
      then keep_version relpath canonical s
      else (went tt, s)

  unfoldable pub record_trash : Bytes → ℤ → ℤ → Run Unit
  record_trash relpath size now s =
      (went tt, record s { trash = (insert_trash (clean_rel relpath) 0 size now s.trash).0 })

  unfoldable pub move_existing : Bytes → ℤ → ℤ → Bytes → Bytes → Run Unit
  unfolding ◌>>=◌ keep_earlier make_dir_of move drop_index record_trash
  move_existing relpath size now src canonical = do
    kept ← keep_earlier relpath canonical
    made ← make_dir_of canonical
    moved ← move src canonical
    dropped ← drop_index relpath
    record_trash relpath size now

  -- a file that is not in the storage only leaves the index
  unfoldable pub move_or_drop : Bytes → ℤ → ℤ → Bytes → Bytes → Run Unit
  unfolding move_existing drop_index
  move_or_drop relpath size now src canonical s =
      if file_exists src s.fs
      then move_existing relpath size now src canonical s
      else drop_index relpath s

  unfoldable pub move_one : Bytes → ℤ → ℤ → Run Unit
  unfolding ◌>>=◌ joined move_or_drop
  move_one relpath size now = do
    src ← joined (safe_join cfg.cwd cfg.storage_dir relpath)
    canonical ← joined (safe_join cfg.cwd cfg.trash_dir relpath)
    move_or_drop relpath size now src canonical
