-- ===== src/Trash/Loops/Removes.antt =====
-- The files that Cleanup (internal/trash/trash.go) removes with their rows.
use backuper.Prelude.{
  ◌≡◌, ◌⊎◌, Option, All-append, All-append-left, All-append-right, All-map, refl, ◌∙◌, true, false,
  none, some, Bytes, bytes_eq, bytes_eq→eq, List, [], ◌∷◌, ◌++◌, All, Bool-cases, Option-cases, inl,
  inr, subst, sym,
}
use backuper.Files.{put-same}
use backuper.Protocol.Paths.{Joined, ok, err}
use backuper.Store.{TrashItem}
use backuper.Trash.{Tables, TrashConfig, trash_path_for}
use backuper.Trash.Disk.{FileSystem, Faults, file_exists, remove_file}
use backuper.Trash.Moves.{remove_file-other}
use backuper.Trash.Loops.{purge_file, purge_all}

file_exists-none : (p : Bytes) (fs : FileSystem) → file_exists p fs ≡ false → fs p ≡ none
unfolding file_exists
file_exists-none p fs h = absent (fs p) h
  where
    absent : (x : Option Bytes) → elim x [ none ↦ false | some b ↦ true ] ≡ false → x ≡ none
    absent none h = refl
    absent (some b) h = cc

ok-eq : (p q : Bytes) → ok p ≡ ok q → p ≡ q
ok-eq p q h = cc

module _ (faults : Faults) (cfg : TrashConfig) where
  -- what stands for the row on the disk
  abbrev pub StandsAt : TrashItem → Bytes → Type 0
  StandsAt t p = trash_path_for faults cfg t.relpath t.version ≡ ok p

  -- The files of the rows are gone where the system lets them be removed; no other file changes.
  pub record Removed (ts : List TrashItem) (fs fs' : FileSystem) : Type 0 where
    pub gone : All (λ t. (p : Bytes) → StandsAt t p → faults.remove p ≡ none → fs' p ≡ none) ts
    pub stays_gone : (q : Bytes) → fs q ≡ none → fs' q ≡ none
    pub others :
        (q : Bytes) → All (λ t. (p : Bytes) → StandsAt t p → bytes_eq q p ≡ false) ts → fs' q ≡ fs q

  remove_file-gone :
      (p : Bytes) (fs : FileSystem) → faults.remove p ≡ none → (remove_file faults p fs).0 p ≡ none
  unfolding remove_file
  remove_file-gone p fs allowed = elim (Bool-cases (file_exists p fs)) [
    | inl e ↦ rw (allowed, e, remove_file) (put-same p none fs)
    | inr e ↦ rw (allowed, e, remove_file) (file_exists-none p fs e)
  ]

  remove_file-absent :
      (p : Bytes) (fs : FileSystem) → fs p ≡ none → (remove_file faults p fs).0 p ≡ none
  unfolding remove_file
  remove_file-absent p fs h = elim (Option-cases (faults.remove p)) [
    | inr (e, refused) ↦ rw (refused, remove_file) h
    | inl allowed ↦ remove_file-gone p fs allowed
  ]

  remove_file-stays :
      (p q : Bytes) (fs : FileSystem) → fs q ≡ none → (remove_file faults p fs).0 q ≡ none
  remove_file-stays p q fs h = by_path (Bool-cases (bytes_eq q p))
    where
      by_path :
          (bytes_eq q p ≡ true) ⊎ (bytes_eq q p ≡ false) → (remove_file faults p fs).0 q ≡ none
      by_path (inr apart) = remove_file-other faults p q fs apart ∙ h
      by_path (inl same) =
          let e : q ≡ p = bytes_eq→eq q p same in
          subst (λ x. (remove_file faults x fs).0 q ≡ none) e (remove_file-absent q fs h)

  pub none-Removed : (fs : FileSystem) → Removed [] fs fs
  none-Removed fs = record { gone = tt; stays_gone = λ q h. h; others = λ q h. refl }

  one-Removed :
      (t : TrashItem) (fs : FileSystem)
      → Removed
          (t ∷ [])
          fs
          (purge_file faults cfg (trash_path_for faults cfg t.relpath t.version) fs)
  unfolding purge_file
  one-Removed t fs = by_path (trash_path_for faults cfg t.relpath t.version) refl
    where
      by_path :
          (j : Joined)
          → trash_path_for faults cfg t.relpath t.version ≡ j
          → Removed (t ∷ []) fs (purge_file faults cfg j fs)
      by_path (err e) h = record {
        gone = (λ p at allowed. cc, tt);
        stays_gone = λ q a. a;
        others = λ q apart. refl;
      }
      by_path (ok p) h = record {
        gone = (
          λ q at allowed.
              let e : p ≡ q = ok-eq p q (sym h ∙ at) in
              subst (λ x. (remove_file faults x fs).0 q ≡ none) (sym e)
                (remove_file-gone q fs allowed),
          tt,
        );
        stays_gone = λ q a. remove_file-stays p q fs a;
        others = λ q apart. remove_file-other faults p q fs (apart.0 p h);
      }

  pub then-Removed :
      (ts us : List TrashItem) (fs fs1 fs2 : FileSystem)
      → Removed ts fs fs1
      → Removed us fs1 fs2
      → Removed (ts ++ us) fs fs2
  then-Removed ts us fs fs1 fs2 a b = record {
    gone =
        All-append _ ts us
          (All-map _ _ ts (λ t h p at allowed. b.stays_gone p (h p at allowed)) a.gone) b.gone;
    stays_gone = λ q h. b.stays_gone q (a.stays_gone q h);
    others =
        λ q h. b.others q (All-append-right _ ts us h) ∙ a.others q (All-append-left _ ts us h);
  }

  pub purge_all-Removed :
      (ts : List TrashItem) (s : Tables) → Removed ts s.fs (purge_all faults cfg ts s).fs
  unfolding purge_all
  purge_all-Removed [] s = none-Removed s.fs
  purge_all-Removed (t ∷ ts) s =
      then-Removed (t ∷ []) ts s.fs _ _ (one-Removed t s.fs) (purge_all-Removed ts _)
