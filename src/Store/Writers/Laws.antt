-- ===== src/Store/Writers/Laws.antt =====
-- The batched writers insert every row once, and lose at most the last incomplete batch.
use backuper.Prelude.{
  ℕ, ◌+◌, ◌*◌, ◌/◌, ◌%◌, ◌≡◌, ◌≢◌, refl, sym, ap, ◌∙◌, subst, List, [], ◌∷◌, ◌++◌, true, false,
  arith, Bool-cases, inl, inr, length, length-append, take, take_all, take-append_le, append_assoc,
  append-nil, ◌==◌, ==_iff,
}
use backuper.Store.Writers.{
  Writer, begin_rows, add_row, add_rows, commit_rows, rollback_rows, count_rows,
}

full_batch : (n b : ℕ) → b ≡ 5000 → ((n + 1) % b == 0) ≡ true → (n + 1) / 5000 * 5000 ≡ n + 1
full_batch n b e h =
    let z : (n + 1) % 5000 ≡ 0 = (==_iff _ 0).0 (subst (λ k. ((n + 1) % k == 0) ≡ true) e h) in
    omega arith

open_batch :
    (n b : ℕ) → b ≡ 5000 → ((n + 1) % b == 0) ≡ false → (n + 1) / 5000 * 5000 ≡ n / 5000 * 5000
open_batch n b e h =
    let z : (n + 1) % 5000 ≢ 0 =
      λ q. cc (subst (λ k. ((n + 1) % k == 0) ≡ false) e h, (==_iff ((n + 1) % 5000) 0).1 q) in
    omega arith

module _ {ℓ} {R : Type ℓ} (insert : R → List R → List R) where
  -- the rows inserted one by one
  abbrev pub insert_all : List R → List R → List R
  insert_all [] rows = rows
  insert_all (r ∷ rs) rows = insert_all rs (insert r rows)

  insert_all-snoc :
      (rs : List R) (r : R) (rows : List R)
      → insert_all (rs ++ r ∷ []) rows ≡ insert r (insert_all rs rows)
  insert_all-snoc [] r rows = refl
  insert_all-snoc (x ∷ xs) r rows = insert_all-snoc xs r (insert x rows)

  -- What a writer holds once it has been given the rows `given`.
  record Holds (rows given : List R) (w : Writer R) : Type ℓ where
    counted : w.n ≡ length given
    batched : w.batch ≡ 5000
    inserted : w.current ≡ insert_all given rows
    kept : w.committed ≡ insert_all (take (w.n / 5000 * 5000) given) rows

  add_row-Holds :
      (rows given : List R) (r : R) (w : Writer R)
      → Holds rows given w
      → Holds rows (given ++ r ∷ []) (add_row insert r w)
  unfolding add_row
  add_row-Holds rows given r w h = elim (Bool-cases ((w.n + 1) % w.batch == 0)) [
    | inl e ↦ rw e (record {
      counted = grown;
      batched = h.batched;
      inserted = entered;
      kept =
          entered ∙ ap (λ l. insert_all l rows) (sym (whole (full_batch w.n w.batch h.batched e)));
    })
    | inr e ↦ rw e (record {
      counted = grown;
      batched = h.batched;
      inserted = entered;
      kept = h.kept ∙ ap (λ l. insert_all l rows) (sym (part (open_batch w.n w.batch h.batched e)));
    })
  ]
    where
      grown : w.n + 1 ≡ length (given ++ r ∷ [])
      grown = omega (arith, length-append given (r ∷ []), h.counted)

      entered : insert r w.current ≡ insert_all (given ++ r ∷ []) rows
      entered = ap (insert r) h.inserted ∙ sym (insert_all-snoc given r rows)

      whole :
          (w.n + 1) / 5000 * 5000 ≡ w.n + 1
          → take ((w.n + 1) / 5000 * 5000) (given ++ r ∷ []) ≡ given ++ r ∷ []
      whole q = ap (λ k. take k (given ++ r ∷ [])) (q ∙ grown) ∙ take_all (given ++ r ∷ [])

      part :
          (w.n + 1) / 5000 * 5000 ≡ w.n / 5000 * 5000
          → take ((w.n + 1) / 5000 * 5000) (given ++ r ∷ []) ≡ take (w.n / 5000 * 5000) given
      part q =
          ap (λ k. take k (given ++ r ∷ [])) q
          ∙ take-append_le (w.n / 5000 * 5000) given (r ∷ []) (omega (arith, h.counted))

  add_rows-Holds :
      (rows given rs : List R) (w : Writer R)
      → Holds rows given w
      → Holds rows (given ++ rs) (add_rows insert rs w)
  unfolding add_rows
  add_rows-Holds rows given [] w h = subst (λ l. Holds rows l w) (sym (append-nil given)) h
  add_rows-Holds rows given (r ∷ rs) w h =
      subst (λ l. Holds rows l (add_rows insert rs (add_row insert r w)))
        (append_assoc given (r ∷ []) rs)
        (add_rows-Holds rows (given ++ r ∷ []) rs (add_row insert r w)
          (add_row-Holds rows given r w h))

  begin-Holds : (rows : List R) → Holds rows [] (begin_rows rows)
  unfolding begin_rows
  begin-Holds rows = record { counted = refl; batched = refl; inserted = refl; kept = refl }

  -- A writer that is committed has inserted all its rows, once and in order, whatever the batches. A
  -- writer that is rolled back keeps exactly the rows of its full batches of 5000, which were
  -- committed on the way: the writer is one transaction for each batch and not, as the comment at its
  -- type says, one for all rows.
  pub add_rows-commit-rollback :
      (rs rows : List R)
      → let w = add_rows insert rs (begin_rows rows) in
        (commit_rows w ≡ insert_all rs rows)
        × (count_rows w ≡ length rs)
        × (rollback_rows w ≡ insert_all (take (length rs / 5000 * 5000) rs) rows)
  unfolding commit_rows rollback_rows count_rows
  add_rows-commit-rollback rs rows =
      let h = add_rows-Holds rows [] rs (begin_rows rows) (begin-Holds rows) in
      (
        h.inserted,
        h.counted,
        h.kept ∙ ap (λ n. insert_all (take (n / 5000 * 5000) rs) rows) h.counted,
      )
