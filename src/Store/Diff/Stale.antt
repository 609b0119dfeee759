-- ===== src/Store/Diff/Stale.antt =====
-- A file that has changed the case of its path stays changed.
use backuper.Prelude.{
  ◌≡◌, sym, ap, ◌∙◌, subst, List, [], ◌∷◌, ◌++◌, Bool, true, false, not, ◌&&◌, ◌<◌, arith, All,
  bytes_eq, Bool-cases, inl, inr, if◌then◌else◌, exists_row, where_rows, where_rows-append, length,
  length-append,
}
use backuper.Prelude.Int.{ℤ}
use backuper.Store.{FileRow, ClientRow}
use backuper.Store.Files.{has_norm, upsert_file}
use backuper.Store.Files.Laws.{exists-upsert_file}
use backuper.Store.Diff.{
  partners, join_rows, or_null, left_join, changed, is_changed_row, count_new_changed,
}
use backuper.Store.Diff.Convergence.{row_of, or_null-join_rows}

-- An index row with the client row's key, another spelling of its path, and other contents.
abbrev pub is_stale : ℤ → ClientRow → FileRow → Bool
is_stale tol c f =
    has_norm c.relpath_norm f && not (bytes_eq f.relpath c.relpath) && changed tol c f

stale-upsert_file :
    (tol now : ℤ) (c : ClientRow) (files : List FileRow)
    → exists_row (is_stale tol c) files ≡ true
    → exists_row (is_stale tol c) (upsert_file (row_of now c) files) ≡ true
stale-upsert_file tol now c files h =
    exists-upsert_file (is_stale tol c) (row_of now c) files (overwritten files) h
  where
    overwritten :
        (fs : List FileRow)
        → All
            (λ f.
              bytes_eq f.relpath c.relpath ≡ true
              → is_stale tol c f ≡ true
              → is_stale tol c (row_of now c) ≡ true)
            fs
    overwritten [] = tt
    overwritten (f ∷ fs) = (λ e s. ground arith, overwritten fs)

not_stale_norm :
    (tol : ℤ) (c : ClientRow) (f : FileRow)
    → has_norm c.relpath_norm f ≡ false
    → is_stale tol c f ≡ false
not_stale_norm tol c f e = ground arith

not_stale_same :
    (tol : ℤ) (c : ClientRow) (f : FileRow) → changed tol c f ≡ false → is_stale tol c f ≡ false
not_stale_same tol c f e = ground arith

stale-counted :
    (tol : ℤ) (c : ClientRow) (files : List FileRow)
    → exists_row (is_stale tol c) files ≡ true
    → 0 < length (where_rows (is_changed_row tol) (join_rows c (partners files c)))
stale-counted tol c [] h = cc
stale-counted tol c (f ∷ fs) h = elim (Bool-cases (has_norm c.relpath_norm f)) [
  | inr e ↦ rw e (stale-counted tol c fs (later (not_stale_norm tol c f e)))
  | inl e ↦ elim (Bool-cases (changed tol c f)) [
    | inl d ↦ rw (e, d) (omega arith)
    | inr d ↦ rw (e, d) (stale-counted tol c fs (later (not_stale_same tol c f d)))
  ]
]
  where
    later : is_stale tol c f ≡ false → exists_row (is_stale tol c) fs ≡ true
    later q = sym (ap (λ b. if b then true else exists_row (is_stale tol c) fs) q) ∙ h

changed_somewhere :
    (tol : ℤ) (c : ClientRow) (above below : List ClientRow) (files : List FileRow)
    → 0 < length (where_rows (is_changed_row tol) (or_null c (partners files c)))
    → 0 < length (where_rows (is_changed_row tol) (left_join files (above ++ c ∷ below)))
unfolding left_join
changed_somewhere tol c [] below files h =
    let p = is_changed_row tol in
    let own = or_null c (partners files c) in
    omega (
      arith,
      ap length (where_rows-append p own (left_join files below)),
      length-append (where_rows p own) (where_rows p (left_join files below)),
    )
changed_somewhere tol c (a ∷ above) below files h =
    let p = is_changed_row tol in
    let own = or_null a (partners files a) in
    let more = left_join files (above ++ c ∷ below) in
    omega (
      arith,
      ap length (where_rows-append p own more),
      length-append (where_rows p own) (where_rows p more),
      changed_somewhere tol c above below files h,
    )

-- the index after downloads of the client's file at the given times
abbrev pub downloads : ClientRow → List ℤ → List FileRow → List FileRow
downloads c [] files = files
downloads c (now ∷ times) files = downloads c times (upsert_file (row_of now c) files)

stale-downloads :
    (tol : ℤ) (times : List ℤ) (c : ClientRow) (files : List FileRow)
    → exists_row (is_stale tol c) files ≡ true
    → exists_row (is_stale tol c) (downloads c times files) ≡ true
stale-downloads tol [] c files h = h
stale-downloads tol (now ∷ times) c files h =
    stale-downloads tol times c (upsert_file (row_of now c) files)
      (stale-upsert_file tol now c files h)

-- The index never comes into step with a client whose file has changed the case of its path: when
-- the index has a row with the file's key, another spelling, and other contents, then after any
-- number of downloads of the file, at any times, it still has such a row, and the comparison with the
-- client's list still counts a changed file. The other client rows, above and below the file's, are
-- arbitrary.
pub count_new_changed-stale :
    (tol : ℤ) (times : List ℤ) (c : ClientRow) (above below : List ClientRow) (files : List FileRow)
    → exists_row (is_stale tol c) files ≡ true
    → let files' = downloads c times files in
      (exists_row (is_stale tol c) files' ≡ true)
      × (0 < (count_new_changed tol files' (above ++ c ∷ below)).1)
unfolding count_new_changed
count_new_changed-stale tol times c above below files h =
    let files' = downloads c times files in
    let still = stale-downloads tol times c files h in
    (
      still,
      changed_somewhere tol c above below files' (
          subst (λ l. 0 < length l) (sym (or_null-join_rows tol c (partners files' c)))
            (stale-counted tol c files' still)),
    )
