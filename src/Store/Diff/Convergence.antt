-- ===== src/Store/Diff/Convergence.antt =====
-- When the files of the client's list have been downloaded, there is nothing left to download.
use backuper.Prelude.{
  ℕ, ◌≡◌, ◌≢◌, refl, sym, ap, ◌∙◌, List, [], ◌∷◌, true, false, Bytes, arith, All, bytes_eq,
  bytes_eq_refl, bytes_eq→eq, bytes_eq-ne, Bool-cases, inl, inr, exists_row, where_rows,
  where_rows-append, length,
}
use backuper.Prelude.Int.{ℤ, pos, int_eq_iff}
use backuper.Store.{FileRow, ClientRow}
use backuper.Store.Files.{has_norm, upsert_file}
use backuper.Store.Files.Laws.{
  Unique, upsert_file-All, upsert_file-Unique, exists-upsert_file, exists-upsert_file_self,
}
use backuper.Store.Diff.{
  partners, join_rows, or_null, left_join, changed, is_new_row, is_changed_row, count_new_changed,
}

-- The row that a completed download leaves in the index.
abbrev pub row_of : ℤ → ClientRow → FileRow
row_of now c = record {
  relpath = c.relpath;
  relpath_norm = c.relpath_norm;
  size = c.size;
  mtime = c.mtime;
  updated_at = now;
}

-- A client row is in step with the index: its key is there, and every row with the key agrees.
pub record Synced (tol : ℤ) (files : List FileRow) (c : ClientRow) : Type 0 where
  pub present : exists_row (has_norm c.relpath_norm) files ≡ true
  pub agree : All (λ f. has_norm c.relpath_norm f ≡ true → changed tol c f ≡ false) files

-- The row that a download leaves agrees with the client's row.
unchanged-row_of : (t : ℕ) (now : ℤ) (c : ClientRow) → changed (pos t) c (row_of now c) ≡ false
unchanged-row_of t now c = ground (arith, int_eq_iff c.size c.size)

-- Keys are a function of paths, and each index row that shares a key with a client row has its path.
abbrev pub Keyed : (Bytes → Bytes) → FileRow → Type 0
Keyed key f = f.relpath_norm ≡ key f.relpath

abbrev pub SameCase : List FileRow → ClientRow → Type 0
SameCase files c = All (λ f. f.relpath_norm ≡ c.relpath_norm → f.relpath ≡ c.relpath) files

upsert_file-Synced_self :
    (t : ℕ) (now : ℤ) (c : ClientRow) (files : List FileRow)
    → Unique files
    → SameCase files c
    → Synced (pos t) (upsert_file (row_of now c) files) c
upsert_file-Synced_self t now c files u same = record {
  present =
      exists-upsert_file_self (has_norm c.relpath_norm) (row_of now c) files
        (bytes_eq_refl c.relpath_norm);
  agree =
      upsert_file-All (λ f. has_norm c.relpath_norm f ≡ true → changed (pos t) c f ≡ false)
        (row_of now c) files u (λ _. unchanged-row_of t now c) (others files same);
}
  where
    others :
        (fs : List FileRow)
        → SameCase fs c
        → All
            (λ f.
              bytes_eq f.relpath c.relpath ≡ false
              → has_norm c.relpath_norm f ≡ true
              → changed (pos t) c f ≡ false)
            fs
    others [] h = tt
    others (f ∷ fs) h = (
      λ ne e. absurd (bytes_eq-ne f.relpath c.relpath ne (h.0 (bytes_eq→eq _ _ e))),
      others fs h.1,
    )

-- A download of another file leaves a client row in step.
upsert_file-Synced :
    (key : Bytes → Bytes) (tol now : ℤ) (c d : ClientRow) (files : List FileRow)
    → Unique files
    → All (Keyed key) files
    → d.relpath_norm ≡ key d.relpath
    → d.relpath_norm ≢ c.relpath_norm
    → Synced tol files c
    → Synced tol (upsert_file (row_of now d) files) c
upsert_file-Synced key tol now c d files u keyed dk apart h = record {
  present =
      exists-upsert_file (has_norm c.relpath_norm) (row_of now d) files (kept files keyed)
        h.present;
  agree =
      upsert_file-All (λ f. has_norm c.relpath_norm f ≡ true → changed tol c f ≡ false)
        (row_of now d) files u (λ e. absurd (apart (bytes_eq→eq _ _ e))) (weaken files h.agree);
}
  where
    kept :
        (fs : List FileRow)
        → All (Keyed key) fs
        → All
            (λ f.
              bytes_eq f.relpath d.relpath ≡ true
              → has_norm c.relpath_norm f ≡ true
              → has_norm c.relpath_norm (row_of now d) ≡ true)
            fs
    kept [] k = tt
    kept (f ∷ fs) k = (
      λ e n. absurd (
          apart (
            dk
            ∙ ap key (sym (bytes_eq→eq f.relpath d.relpath e))
            ∙ sym k.0
            ∙ bytes_eq→eq f.relpath_norm c.relpath_norm n)),
      kept fs k.1,
    )

    weaken :
        (fs : List FileRow)
        → All (λ f. has_norm c.relpath_norm f ≡ true → changed tol c f ≡ false) fs
        → All
            (λ f.
              bytes_eq f.relpath d.relpath ≡ false
              → has_norm c.relpath_norm f ≡ true
              → changed tol c f ≡ false)
            fs
    weaken [] a = tt
    weaken (f ∷ fs) a = (λ _. a.0, weaken fs a.1)

-- All files of a client list are downloaded, one after the other.
unfoldable pub mirror : ℤ → List ClientRow → List FileRow → List FileRow
mirror now [] files = files
mirror now (c ∷ cs) files = mirror now cs (upsert_file (row_of now c) files)

-- No two rows of the client's list share a key: what DedupClientFiles leaves.
abbrev pub DistinctKeys : List ClientRow → Type 0
DistinctKeys [] = Unit
DistinctKeys (c ∷ cs) = All (λ d. d.relpath_norm ≢ c.relpath_norm) cs × DistinctKeys cs

module _ (key : Bytes → Bytes) (now : ℤ) where
  abbrev pub KeyedClient : ClientRow → Type 0
  KeyedClient c = c.relpath_norm ≡ key c.relpath

  upsert_file-Keyed :
      (c : ClientRow) (files : List FileRow)
      → Unique files
      → KeyedClient c
      → All (Keyed key) files
      → All (Keyed key) (upsert_file (row_of now c) files)
  upsert_file-Keyed c files u k h =
      upsert_file-All (Keyed key) (row_of now c) files u k (weaken files h)
    where
      weaken :
          (fs : List FileRow)
          → All (Keyed key) fs
          → All (λ f. bytes_eq f.relpath c.relpath ≡ false → Keyed key f) fs
      weaken [] a = tt
      weaken (f ∷ fs) a = (λ _. a.0, weaken fs a.1)

  upsert_file-SameCase :
      (c d : ClientRow) (files : List FileRow)
      → Unique files
      → d.relpath_norm ≢ c.relpath_norm
      → SameCase files d
      → SameCase (upsert_file (row_of now c) files) d
  upsert_file-SameCase c d files u apart h =
      upsert_file-All (λ f. f.relpath_norm ≡ d.relpath_norm → f.relpath ≡ d.relpath) (row_of now c)
        files u (λ e. absurd (apart (sym e))) (weaken files h)
    where
      weaken :
          (fs : List FileRow)
          → SameCase fs d
          → All
              (λ f.
                bytes_eq f.relpath c.relpath ≡ false
                → f.relpath_norm ≡ d.relpath_norm
                → f.relpath ≡ d.relpath)
              fs
      weaken [] a = tt
      weaken (f ∷ fs) a = (λ _. a.0, weaken fs a.1)

  mirror-keeps :
      (tol : ℤ) (c : ClientRow) (cs : List ClientRow) (files : List FileRow)
      → Unique files
      → All (Keyed key) files
      → All KeyedClient cs
      → All (λ d. d.relpath_norm ≢ c.relpath_norm) cs
      → Synced tol files c
      → Synced tol (mirror now cs files) c
  unfolding mirror
  mirror-keeps tol c [] files u k kc apart h = h
  mirror-keeps tol c (d ∷ ds) files u k kc apart h =
      mirror-keeps tol c ds (upsert_file (row_of now d) files) (upsert_file-Unique _ files u)
        (upsert_file-Keyed d files u kc.0 k) kc.1 apart.1
        (upsert_file-Synced key tol now c d files u k kc.0 apart.0 h)

  mirror-Synced :
      (t : ℕ) (cs : List ClientRow) (files : List FileRow)
      → Unique files
      → All (Keyed key) files
      → All KeyedClient cs
      → DistinctKeys cs
      → All (SameCase files) cs
      → All (Synced (pos t) (mirror now cs files)) cs
  unfolding mirror
  mirror-Synced t [] files u k kc apart same = tt
  mirror-Synced t (c ∷ cs) files u k kc apart same =
      let files' = upsert_file (row_of now c) files in
      let u' = upsert_file-Unique (row_of now c) files u in
      let k' = upsert_file-Keyed c files u kc.0 k in
      (
        mirror-keeps (pos t) c cs files' u' k' kc.1 apart.0
            (upsert_file-Synced_self t now c files u same.0),
        mirror-Synced t cs files' u' k' kc.1 apart.1 (later cs apart.0 same.1),
      )
    where
      later :
          (ds : List ClientRow)
          → All (λ d. d.relpath_norm ≢ c.relpath_norm) ds
          → All (SameCase files) ds
          → All (SameCase (upsert_file (row_of now c) files)) ds
      later [] a s = tt
      later (d ∷ ds) a s = (upsert_file-SameCase c d files u a.0 s.0, later ds a.1 s.1)

join_rows-no_new : (c : ClientRow) (ps : List FileRow) → where_rows is_new_row (join_rows c ps) ≡ []
join_rows-no_new c [] = refl
join_rows-no_new c (p ∷ ps) = join_rows-no_new c ps

no_new :
    (c : ClientRow) (files : List FileRow)
    → exists_row (has_norm c.relpath_norm) files ≡ true
    → where_rows is_new_row (or_null c (partners files c)) ≡ []
no_new c [] h = cc
no_new c (f ∷ fs) h = elim (Bool-cases (has_norm c.relpath_norm f)) [
  | inl e ↦ rw e (join_rows-no_new c (partners fs c))
  | inr e ↦ rw e (no_new c fs (rw e at h))
]

join_rows-unchanged :
    (tol : ℤ) (c : ClientRow) (files : List FileRow)
    → All (λ f. has_norm c.relpath_norm f ≡ true → changed tol c f ≡ false) files
    → where_rows (is_changed_row tol) (join_rows c (partners files c)) ≡ []
join_rows-unchanged tol c [] h = refl
join_rows-unchanged tol c (f ∷ fs) h = elim (Bool-cases (has_norm c.relpath_norm f)) [
  | inl e ↦ rw (e, h.0 e) (join_rows-unchanged tol c fs h.1)
  | inr e ↦ rw e (join_rows-unchanged tol c fs h.1)
]

pub or_null-join_rows :
    (tol : ℤ) (c : ClientRow) (ps : List FileRow)
    → where_rows (is_changed_row tol) (or_null c ps)
      ≡ where_rows (is_changed_row tol) (join_rows c ps)
or_null-join_rows tol c [] = refl
or_null-join_rows tol c (p ∷ ps) = refl

where_rows-left_join :
    (tol : ℤ) (files : List FileRow) (cs : List ClientRow)
    → All (Synced tol files) cs
    → (where_rows is_new_row (left_join files cs) ≡ [])
      × (where_rows (is_changed_row tol) (left_join files cs) ≡ [])
unfolding left_join
where_rows-left_join tol files [] h = (refl, refl)
where_rows-left_join tol files (c ∷ cs) h =
    let (rest_new, rest_changed) = where_rows-left_join tol files cs h.1 in
    (
      where_rows-append is_new_row (or_null c (partners files c)) (left_join files cs)
          ∙ cc (no_new c files h.0.present, rest_new),
      where_rows-append (is_changed_row tol) (or_null c (partners files c)) (left_join files cs)
          ∙ cc (
            or_null-join_rows tol c (partners files c),
            join_rows-unchanged tol c files h.0.agree,
            rest_changed,
          ),
    )

-- Convergence. When every file of a deduplicated client list has been downloaded, the comparison
-- counts no new and no changed file, for every tolerance and every index before. Conditions: the
-- relpaths of the index are unique, keys are a function of paths, and no index row has the key of a
-- client row under another spelling.
pub count_new_changed-mirror :
    (key : Bytes → Bytes) (now : ℤ) (t : ℕ) (cs : List ClientRow) (files : List FileRow)
    → Unique files
    → All (Keyed key) files
    → All (KeyedClient key now) cs
    → DistinctKeys cs
    → All (SameCase files) cs
    → count_new_changed (pos t) (mirror now cs files) cs ≡ (0, 0)
unfolding count_new_changed
count_new_changed-mirror key now t cs files u k kc apart same =
    let (no_new_rows, no_changed_rows) =
      where_rows-left_join (pos t) (mirror now cs files) cs
        (mirror-Synced key now t cs files u k kc apart same) in
    cc (ap length no_new_rows, ap length no_changed_rows)
