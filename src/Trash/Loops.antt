-- ===== src/Trash/Loops.antt =====
-- MoveDeleted and Cleanup of internal/trash/trash.go.
pub mod Purges
pub mod Removes
use backuper.Prelude.{
  ℕ, zero, suc, ◌+◌, Bool, true, false, not, ◌||◌, List, [], ◌∷◌, ◌++◌, Option, none, some, Bytes,
  utf8, dec, bytes_eq, ltb, ◌==◌, length, if◌then◌else◌,
}
use backuper.Prelude.Int.{ℤ, pos}
use backuper.Protocol.Paths.{
  slash, clean, Joined, ok, err, JoinError, safe_join, clean_rel, norm_key,
}
use backuper.Store.{FileRow, ClientRow, TrashItem}
use backuper.Store.Files.{delete_file_by_norm}
use backuper.Store.Diff.{TrashCandidate, count_to_trash, select_trash_batch}
use backuper.Store.TrashRows.{
  has_canonical_trash, max_trash_version, bump_canonical_to_version, insert_trash, select_trash_due,
  delete_trash,
}
use backuper.Store.Events.{EventRow, insert_event}
use backuper.Prelude.Steps.{Done, stopped, went, Steps, ◌>>=◌}
use backuper.Trash.Disk.{
  FileSystem, Faults, TrashError, os_error, path_error, missing, file_exists, remove_file,
  move_file,
}
use backuper.Trash.Names.{version_rel}
use backuper.Trash.{Tables, TrashConfig, trash_path_for, move_one}

module _ (faults : Faults) (cfg : TrashConfig) where
  -- the event of a file that could not be moved; its row leaves the index so that the loop goes on
  unfoldable pub give_up : ℤ → ℤ → Bytes → TrashError → Tables → Tables
  unfolding norm_key
  give_up cycle now relpath e s = record s {
    files = delete_file_by_norm (norm_key cfg.lower relpath) s.files;
    events =
        (insert_event cycle (utf8 "ERROR") (utf8 "io") relpath
          (utf8 "ошибка переноса в корзину: " ++ cfg.text e) now s.events).0;
  }

  -- one candidate: whether it was moved, and the tables
  unfoldable pub move_candidate : ℤ → ℤ → TrashCandidate → Tables → ℕ × Tables
  unfolding move_one give_up
  move_candidate cycle now c s =
      let (r, s') = move_one faults cfg c.relpath c.size now s in
      elim r [ went u ↦ (1, s') | stopped e ↦ (0, give_up cycle now c.relpath e s') ]

  unfoldable pub move_batch : ℤ → ℤ → List TrashCandidate → Tables → ℕ × Tables
  unfolding move_candidate
  move_batch cycle now [] s = (0, s)
  move_batch cycle now (c ∷ cs) s =
      let (one, s1) = move_candidate cycle now c s in
      let (more, s2) = move_batch cycle now cs s1 in (one + more, s2)

  -- the loop over the batches, one unit of fuel for a batch; `none` when there is not enough
  unfoldable pub move_batches : ℕ → ℤ → ℤ → ℕ → List ClientRow → ℕ → Tables → Option (ℕ × Tables)
  unfolding move_batch
  move_batches zero cycle now limit clients moved s = none
  move_batches (suc fuel) cycle now limit clients moved s =
      elim (select_trash_batch limit s.files clients) [
        | [] ↦ some (moved, s)
        | c ∷ cs ↦
            let (progress, s') = move_batch cycle now (c ∷ cs) s in
            elim progress [
              | zero ↦ some (moved, s')
              | suc n ↦ move_batches fuel cycle now limit clients (moved + suc n) s'
            ]
      ]

  -- the warning of a mass deletion
  unfoldable pub warn_mass : ℤ → ℤ → ℕ → Tables → Tables
  warn_mass cycle now total s =
      if ltb cfg.mass_delete_threshold total
      then record s {
        events =
            (insert_event cycle (utf8 "WARN") (utf8 "mass_delete") []
              (utf8 "массовое удаление: "
                ++ dec total
                ++ utf8 " файлов в корзину (порог "
                ++ dec cfg.mass_delete_threshold
                ++ utf8 ")")
              now s.events).0;
      }
      else s

  unfoldable pub move_deleted : ℕ → ℤ → ℤ → ℕ → List ClientRow → Tables → Option (ℕ × Tables)
  unfolding move_batches warn_mass
  move_deleted fuel cycle now limit clients s =
      let total = count_to_trash s.files clients in
      if total == 0
      then some (0, s)
      else move_batches fuel cycle now limit clients 0 (warn_mass cycle now total s)

  -- a due item: its file is removed where its path is one, an error is only logged; its row goes
  unfoldable pub purge_file : Joined → FileSystem → FileSystem
  unfolding remove_file
  purge_file (ok p) fs = (remove_file faults p fs).0
  purge_file (err e) fs = fs

  unfoldable pub purge_all : List TrashItem → Tables → Tables
  unfolding purge_file trash_path_for
  purge_all [] s = s
  purge_all (t ∷ ts) s = purge_all ts (record s {
    fs = purge_file (trash_path_for faults cfg t.relpath t.version) s.fs;
    trash = delete_trash t.id s.trash;
  })

  -- the loop of Cleanup over the items that are due before `cutoff`
  unfoldable pub cleanup : ℕ → ℤ → ℕ → Tables → Option (ℕ × Tables)
  unfolding purge_all
  cleanup zero cutoff purged s = none
  cleanup (suc fuel) cutoff purged s = elim (select_trash_due cutoff 1000 s.trash) [
    | [] ↦ some (purged, s)
    | t ∷ ts ↦ cleanup fuel cutoff (purged + length (t ∷ ts)) (purge_all (t ∷ ts) s)
  ]
