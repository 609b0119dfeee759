-- ===== src/Store/Files/Laws.antt =====
-- The index as a table with a primary key: what an upsert keeps and changes.
use backuper.Prelude.{
  ◌≡◌, ◌∙◌, subst, List, [], ◌∷◌, Bool, true, false, arith, All, bytes_eq, bytes_eq_comm,
  bytes_eq→eq, Bool-cases, inl, inr, exists_row,
}
use backuper.Store.{FileRow}
use backuper.Store.Files.{upsert_file}

-- No two rows have one relpath.
abbrev pub Unique : List FileRow → Type 0
Unique [] = Unit
Unique (f ∷ fs) = All (λ g. bytes_eq g.relpath f.relpath ≡ false) fs × Unique fs

-- A predicate holds of all rows after an upsert, if it holds of the new row and of the rows with
-- another relpath.
pub upsert_file-All {κ} :
    (Q : FileRow → Type κ) (r : FileRow) (files : List FileRow)
    → Unique files
    → Q r
    → All (λ f. bytes_eq f.relpath r.relpath ≡ false → Q f) files
    → All Q (upsert_file r files)
unfolding upsert_file
upsert_file-All Q r [] u q h = (q, tt)
upsert_file-All Q r (f ∷ fs) u q h = elim (Bool-cases (bytes_eq f.relpath r.relpath)) [
  | inl e ↦ rw e (
    q,
    others fs h.1 (subst (λ k. All (λ g. bytes_eq g.relpath k ≡ false) fs) (bytes_eq→eq _ _ e) u.0),
  )
  | inr e ↦ rw e (h.0 e, upsert_file-All Q r fs u.1 q h.1)
]
  where
    others :
        (gs : List FileRow)
        → All (λ g. bytes_eq g.relpath r.relpath ≡ false → Q g) gs
        → All (λ g. bytes_eq g.relpath r.relpath ≡ false) gs
        → All Q gs
    others [] h d = tt
    others (g ∷ gs) h d = (h.0 d.0, others gs h.1 d.1)

-- An upsert keeps the relpaths apart.
pub upsert_file-Unique :
    (r : FileRow) (files : List FileRow) → Unique files → Unique (upsert_file r files)
unfolding upsert_file
upsert_file-Unique r [] u = (tt, tt)
upsert_file-Unique r (f ∷ fs) u = elim (Bool-cases (bytes_eq f.relpath r.relpath)) [
  | inl e ↦
      rw e (subst (λ k. All (λ g. bytes_eq g.relpath k ≡ false) fs) (bytes_eq→eq _ _ e) u.0, u.1)
  | inr e ↦ rw e (
    upsert_file-All (λ g. bytes_eq g.relpath f.relpath ≡ false) r fs u.1
        (bytes_eq_comm r.relpath f.relpath ∙ e) (weaken fs u.0),
    upsert_file-Unique r fs u.1,
  )
]
  where
    weaken :
        (gs : List FileRow)
        → All (λ g. bytes_eq g.relpath f.relpath ≡ false) gs
        → All (λ g. bytes_eq g.relpath r.relpath ≡ false → bytes_eq g.relpath f.relpath ≡ false) gs
    weaken [] h = tt
    weaken (g ∷ gs) h = (λ _. h.0, weaken gs h.1)

-- A row with the key is there after an upsert, if it was there and was not overwritten, or is new.
pub exists-upsert_file :
    (p : FileRow → Bool) (r : FileRow) (files : List FileRow)
    → All (λ f. bytes_eq f.relpath r.relpath ≡ true → p f ≡ true → p r ≡ true) files
    → exists_row p files ≡ true
    → exists_row p (upsert_file r files) ≡ true
unfolding upsert_file
exists-upsert_file p r [] h e = cc
exists-upsert_file p r (f ∷ fs) h e = ground (arith, exists-upsert_file p r fs h.1)

pub exists-upsert_file_self :
    (p : FileRow → Bool) (r : FileRow) (files : List FileRow)
    → p r ≡ true
    → exists_row p (upsert_file r files) ≡ true
unfolding upsert_file
exists-upsert_file_self p r [] e = rw e
exists-upsert_file_self p r (f ∷ fs) e = ground (arith, exists-upsert_file_self p r fs e)
