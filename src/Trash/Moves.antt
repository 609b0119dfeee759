-- ===== src/Trash/Moves.antt =====
-- A move between the storage and the trash never loses the file that is moved.
use backuper.Prelude.{
  ◌≡◌, refl, ◌∙◌, ◌⊎◌, inl, inr, false, Option, none, some, Bytes, bytes_eq, bytes_eq_comm,
  Bool-cases, Option-cases,
}
use backuper.Files.{put, put-same, put-other}
use backuper.Trash.Disk.{
  FileSystem, file_exists, Faults, TrashError, remove_file, copy_and_remove, copy_over,
  rename_or_copy, move_file,
}

-- What a move of the contents `b` leaves: they are at the source or at the target, they are at the
-- target if there is no error, and every other file is as it was.
pub record Moved (src dst b : Bytes) (fs fs' : FileSystem) (e : Option TrashError) : Type 0 where
  pub kept : (fs' src ≡ some b) ⊎ (fs' dst ≡ some b)
  pub arrived : e ≡ none → fs' dst ≡ some b
  pub others : (q : Bytes) → bytes_eq q src ≡ false → bytes_eq q dst ≡ false → fs' q ≡ fs q

module _ (faults : Faults) where
  pub remove_file-other :
      (p q : Bytes) (fs : FileSystem) → bytes_eq q p ≡ false → (remove_file faults p fs).0 q ≡ fs q
  unfolding remove_file
  remove_file-other p q fs h = elim (Option-cases (faults.remove p)) [
    | inr (e, refused) ↦ rw (refused, remove_file) refl
    | inl allowed ↦ elim (Bool-cases (file_exists p fs)) [
      | inl e ↦ rw (allowed, e, remove_file) (put-other p q none fs h)
      | inr e ↦ rw (allowed, e, remove_file) refl
    ]
  ]

  copy_and_remove-Moved :
      (src dst b : Bytes) (fs : FileSystem)
      → bytes_eq src dst ≡ false
      → fs src ≡ some b
      → Moved src dst b fs
          (copy_and_remove faults src dst b fs).0
          (copy_and_remove faults src dst b fs).1
  unfolding copy_and_remove
  copy_and_remove-Moved src dst b fs apart h = elim (Option-cases (faults.copy dst)) [
    | inr ((part, e), failed) ↦
        rw (failed, copy_and_remove)
          (record {
            kept = inl (put-other dst src (some part) fs apart ∙ h);
            arrived = λ q. absurd (cc q);
            others = λ q _ d. put-other dst q (some part) fs d;
          })
    | inl copied ↦ elim (Option-cases (faults.sync dst)) [
      | inr (e, failed) ↦
          rw (copied, failed, copy_and_remove)
            (record {
              kept = inr (put-same dst (some b) fs);
              arrived = λ q. absurd (cc q);
              others = λ q _ d. put-other dst q (some b) fs d;
            })
      | inl synced ↦
          let at_dst : (remove_file faults src (put dst (some b) fs)).0 dst ≡ some b =
            remove_file-other src dst (put dst (some b) fs) (bytes_eq_comm dst src ∙ apart)
            ∙ put-same dst (some b) fs in
          rw (copied, synced, copy_and_remove)
            (record {
              kept = inr at_dst;
              arrived = λ _. at_dst;
              others = λ q s d.
                  remove_file-other src q (put dst (some b) fs) s ∙ put-other dst q (some b) fs d;
            })
    ]
  ]

  copy_over-Moved :
      (src dst b : Bytes) (fs : FileSystem)
      → bytes_eq src dst ≡ false
      → fs src ≡ some b
      → Moved src dst b fs (copy_over faults src dst fs).0 (copy_over faults src dst fs).1
  unfolding copy_over
  copy_over-Moved src dst b fs apart h = elim (Option-cases (faults.open_out dst)) [
    | inr (e, failed) ↦
        rw (h, failed, copy_over)
          (record { kept = inl h; arrived = λ q. absurd (cc q); others = λ _ _ _. refl })
    | inl opened ↦ rw (h, opened, copy_over) (copy_and_remove-Moved src dst b fs apart h)
  ]

  rename_or_copy-Moved :
      (src dst b : Bytes) (fs : FileSystem)
      → bytes_eq src dst ≡ false
      → fs src ≡ some b
      → Moved src dst b fs (rename_or_copy faults src dst fs).0 (rename_or_copy faults src dst fs).1
  unfolding rename_or_copy
  rename_or_copy-Moved src dst b fs apart h = elim (Option-cases (faults.rename src dst)) [
    | inr (e, failed) ↦ rw (h, failed, rename_or_copy) (copy_over-Moved src dst b fs apart h)
    | inl renamed ↦
        rw (h, renamed, rename_or_copy)
          (record {
            kept = inr (put-same dst (some b) (put src none fs));
            arrived = λ _. put-same dst (some b) (put src none fs);
            others =
                λ q s d. put-other dst q (some b) (put src none fs) d ∙ put-other src q none fs s;
          })
  ]

  -- Whatever the operating system refuses, a move of a file to another path keeps its contents at the
  -- source or at the target, has them at the target if it reports no error, and changes no other file.
  pub move_file-Moved :
      (src dst b : Bytes) (fs : FileSystem)
      → bytes_eq src dst ≡ false
      → fs src ≡ some b
      → Moved src dst b fs (move_file faults src dst fs).0 (move_file faults src dst fs).1
  unfolding move_file
  move_file-Moved src dst b fs apart h = elim (Bool-cases (file_exists dst fs)) [
    | inr e ↦ rw e (rename_or_copy-Moved src dst b fs apart h)
    | inl e ↦
        let fs1 = (remove_file faults dst fs).0 in
        let w = rename_or_copy-Moved src dst b fs1 apart (remove_file-other dst src fs apart ∙ h) in
        rw e (record {
          kept = w.kept;
          arrived = w.arrived;
          others = λ q s d. w.others q s d ∙ remove_file-other dst q fs d;
        })
  ]
