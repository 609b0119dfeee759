-- ===== src/Trash/Loops/Purges.antt =====
-- Cleanup (internal/trash/trash.go) purges what is due, and nothing else.
use Prim.Native.Nat.{zero, suc}
use backuper.Prelude.{
  ℕ, ◌+◌, ◌≡◌, ◌<◌, refl, sym, ap, subst, ◌∙◌, not, some, List, [], ◌∷◌, ◌++◌, length, take, drop,
  length-append, take-append-drop, where_rows, arith,
}
use backuper.Prelude.Int.{ℤ, ltb_ℤ}
use backuper.Store.{TrashItem}
use backuper.Store.TrashRows.{select_trash_due}
use backuper.Store.TrashRows.Laws.{
  UniqueIds, delete_each, where_rows-none, UniqueIds-delete_each, where_rows-delete_each,
  delete_each-take, delete_each-others, UniqueIds-where_rows,
}
use backuper.Trash.{Tables, TrashConfig}
use backuper.Trash.Disk.{Faults}
use backuper.Trash.Loops.{purge_all, cleanup}
use backuper.Trash.Loops.Removes.{Removed, none-Removed, then-Removed, purge_all-Removed}

take-none : {A : Type 0} (n : ℕ) (xs : List A) → take (suc n) xs ≡ [] → xs ≡ []
take-none n [] h = refl
take-none n (x ∷ xs) h = cc

module _ (faults : Faults) (cfg : TrashConfig) (cutoff : ℤ) where
  -- the rows that are due, and the others
  abbrev pub due : List TrashItem → List TrashItem
  due = where_rows (λ t. ltb_ℤ t.trashed_at cutoff)

  abbrev pub not_due : List TrashItem → List TrashItem
  not_due = where_rows (λ t. not (ltb_ℤ t.trashed_at cutoff))

  purge_all-trash :
      (ts : List TrashItem) (s : Tables)
      → (purge_all faults cfg ts s).trash ≡ delete_each ts s.trash
  unfolding purge_all
  purge_all-trash [] s = refl
  purge_all-trash (t ∷ ts) s = purge_all-trash ts _

  -- what a batch leaves
  record Batch (s s' : Tables) : Type 0 where
    unique : UniqueIds s'.trash
    rest_due : due s'.trash ≡ drop 1000 (due s.trash)
    same_others : not_due s'.trash ≡ not_due s.trash
    removed : Removed faults cfg (select_trash_due cutoff 1000 s.trash) s.fs s'.fs

  purge_all-Batch :
      (s : Tables)
      → UniqueIds s.trash
      → Batch s (purge_all faults cfg (select_trash_due cutoff 1000 s.trash) s)
  unfolding select_trash_due
  purge_all-Batch s u =
      let ts = take 1000 (due s.trash) in
      let e = purge_all-trash ts s in
      record {
        unique = subst UniqueIds (sym e) (UniqueIds-delete_each ts s.trash u);
        rest_due =
            ap due e
            ∙ where_rows-delete_each _ ts s.trash
            ∙ delete_each-take 1000 (due s.trash) (UniqueIds-where_rows _ s.trash u);
        same_others = ap not_due e ∙ delete_each-others _ 1000 s.trash u;
        removed = purge_all-Removed faults cfg ts s;
      }

  cleanup-nothing :
      (fuel purged : ℕ) (s : Tables)
      → select_trash_due cutoff 1000 s.trash ≡ []
      → cleanup faults cfg (suc fuel) cutoff purged s ≡ some (purged, s)
  unfolding cleanup
  cleanup-nothing fuel purged s h = rw (h, cleanup) refl

  cleanup-more :
      (fuel purged : ℕ) (t : TrashItem) (ts : List TrashItem) (s : Tables)
      → select_trash_due cutoff 1000 s.trash ≡ t ∷ ts
      → cleanup faults cfg (suc fuel) cutoff purged s
        ≡ cleanup faults cfg fuel cutoff
            (purged + length (t ∷ ts))
            (purge_all faults cfg (t ∷ ts) s)
  unfolding cleanup
  cleanup-more fuel purged t ts s h = rw (h, cleanup) refl

  selected-rest :
      (s : Tables) → select_trash_due cutoff 1000 s.trash ++ drop 1000 (due s.trash) ≡ due s.trash
  unfolding select_trash_due
  selected-rest s = take-append-drop 1000 (due s.trash)

  rest_size :
      (ts : List TrashItem) (s : Tables)
      → select_trash_due cutoff 1000 s.trash ≡ ts
      → Batch s (purge_all faults cfg ts s)
      → length ts + length (due (purge_all faults cfg ts s).trash) ≡ length (due s.trash)
  unfolding select_trash_due
  rest_size ts s h b =
      rw (b.rest_due, sym h)
        (sym (length-append (take 1000 (due s.trash)) (drop 1000 (due s.trash)))
          ∙ ap length (take-append-drop 1000 (due s.trash)))

  -- the result of the loop
  abbrev Purged : ℕ → ℕ → Tables → Type 0
  Purged fuel purged s =
      (s' : Tables) × (cleanup faults cfg fuel cutoff purged s
        ≡ some (purged + length (due s.trash), s'))
      × (s'.trash ≡ not_due s.trash)
      × Removed faults cfg (due s.trash) s.fs s'.fs

  turn-Purged :
      (fuel purged : ℕ) (s : Tables) (ts : List TrashItem)
      → select_trash_due cutoff 1000 s.trash ≡ ts
      → UniqueIds s.trash
      → length (due s.trash) < suc fuel
      → ((n : ℕ) (s1 : Tables)
          → UniqueIds s1.trash
          → length (due s1.trash) < fuel
          → Purged fuel n s1)
      → Purged (suc fuel) purged s
  turn-Purged fuel purged s [] e u enough next =
      let none_due : due s.trash ≡ [] =
        take-none 999 (due s.trash) (unfold select_trash_due in e) in
      let count : purged ≡ purged + length (due s.trash) = rw none_due (omega arith) in
      (
        s,
        cleanup-nothing fuel purged s e ∙ ap (λ n. some (n, s)) count,
        sym (where_rows-none _ s.trash none_due),
        subst (λ l. Removed faults cfg l s.fs s.fs) (sym none_due) (none-Removed faults cfg s.fs),
      )
  turn-Purged fuel purged s (t ∷ ts) e u enough next =
      let s1 = purge_all faults cfg (t ∷ ts) s in
      let b : Batch s s1 =
        subst (λ l. Batch s (purge_all faults cfg l s)) e (purge_all-Batch s u) in
      let sizes : suc (length ts) + length (due s1.trash) ≡ length (due s.trash) =
        rest_size (t ∷ ts) s e b in
      let (s', runs, left, cleared) = next (purged + length (t ∷ ts)) s1 b.unique (omega arith) in
      let count : purged + suc (length ts) + length (due s1.trash) ≡ purged + length (due s.trash) =
        omega arith in
      (
        s',
        cleanup-more fuel purged t ts s e ∙ runs ∙ ap (λ n. some (n, s')) count,
        left ∙ b.same_others,
        subst (λ l. Removed faults cfg l s.fs s'.fs) (selected-rest s)
            (then-Removed faults cfg (select_trash_due cutoff 1000 s.trash)
              (drop 1000 (due s.trash)) s.fs s1.fs s'.fs b.removed
              (subst (λ l. Removed faults cfg l s1.fs s'.fs) b.rest_due cleared)),
      )

  -- Cleanup ends and purges exactly what is due. With more fuel than there are due rows, the rows that
  -- are left are those that were not due, in their order, and the count has grown by the number of the
  -- due ones. The file of each due row, at the path that trashPathFor gives, is gone where the system
  -- lets it be removed, and every file that is at none of these paths is as it was. The ids are a
  -- primary key; a file that cannot be removed does not keep its row.
  pub cleanup-purges :
      (fuel purged : ℕ) (s : Tables)
      → UniqueIds s.trash
      → length (due s.trash) < fuel
      → (s' : Tables) × (cleanup faults cfg fuel cutoff purged s
          ≡ some (purged + length (due s.trash), s'))
        × (s'.trash ≡ not_due s.trash)
        × Removed faults cfg (due s.trash) s.fs s'.fs
  cleanup-purges zero purged s u enough = absurd (omega arith)
  cleanup-purges (suc fuel) purged s u enough =
      turn-Purged fuel purged s (select_trash_due cutoff 1000 s.trash) refl u enough
        (λ n s1. cleanup-purges fuel n s1)
