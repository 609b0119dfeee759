-- ===== src/Trash/Tests.antt =====
-- A move between two file systems that runs out of space, and a trash with an item that is due.
use backuper.Prelude.Int.{ℤ, pos}
use backuper.Store.{TrashItem}
use backuper.Trash.{Tables, TrashConfig}
use backuper.Trash.Loops.{cleanup}
use backuper.Trash.Loops.Removes.{Removed}
use backuper.Trash.Loops.Purges.{cleanup-purges}
use backuper.Prelude.{
  ℕ, List, [], ◌∷◌, arith, ◌≡◌, refl, false, none, some, Bytes, utf8, bytes_eq, if◌then◌else◌,
}
use backuper.Trash.Disk.{FileSystem, Faults, move_file}
use backuper.Trash.Moves.{Moved, move_file-Moved}

abbrev docs : Bytes
docs = utf8 "/data/docs"

abbrev docs_trash : Bytes
docs_trash = utf8 "/trash/docs"

abbrev contents : Bytes
contents = utf8 "text"

abbrev one_file : FileSystem
one_file p = if bytes_eq p docs then some contents else none

abbrev full_disk : Faults
full_disk = record {
  rename = λ p q. some (utf8 "cross-device link");
  open_out = λ p. none;
  copy = λ p. some (utf8 "te", utf8 "no space left");
  sync = λ p. none;
  remove = λ p. none;
  make_dir = λ p. none;
}

docs_ne : bytes_eq docs docs_trash ≡ false
unfolding bytes_eq
docs_ne = refl

docs_there : one_file docs ≡ some contents
unfolding bytes_eq
docs_there = refl

move_file-Moved_example :
    Moved docs docs_trash contents one_file
      (move_file full_disk docs docs_trash one_file).0
      (move_file full_disk docs docs_trash one_file).1
move_file-Moved_example =
    move_file-Moved full_disk docs docs_trash contents one_file docs_ne docs_there

abbrev item : ℕ → ℤ → TrashItem
item id trashed_at = record {
  id = id;
  relpath = utf8 "docs";
  version = id;
  size = pos 4;
  trashed_at = trashed_at;
}

-- one item that is due and one that is not
abbrev two_items : List TrashItem
two_items = item 1 (pos 5) ∷ item 2 (pos 50) ∷ []

abbrev tables : Tables
tables = record { fs = one_file; files = []; trash = two_items; events = [] }

abbrev config : TrashConfig
config = record {
  storage_dir = utf8 "/data";
  trash_dir = utf8 "/trash";
  retention_days = pos 30;
  mass_delete_threshold = 100;
  cwd = none;
  lower = λ c. c;
  text = λ e. [];
}

cleanup-purges_example :
    (s : Tables) × (cleanup full_disk config 2 (pos 10) 0 tables ≡ some (1, s))
    × (s.trash ≡ item 2 (pos 50) ∷ [])
    × Removed full_disk config (item 1 (pos 5) ∷ []) one_file s.fs
cleanup-purges_example =
    cleanup-purges full_disk config (pos 10) 2 0 tables ((refl, tt), (tt, tt)) (omega arith)
