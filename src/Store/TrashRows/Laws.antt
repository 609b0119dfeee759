-- ===== src/Store/TrashRows/Laws.antt =====
-- Rows of the trash that are deleted one by one (internal/store/trashstore.go), with ids that are a
-- primary key.
use backuper.Prelude.{
  ℕ, zero, suc, ◌≡◌, refl, sym, ap, subst, ◌∙◌, Bool, true, false, not, List, [], ◌∷◌, ◌++◌, All,
  where_rows, take, drop, take-append-drop, ◌==◌, arith, Bool-cases, inl, inr,
}
use backuper.Store.{TrashItem}
use backuper.Store.TrashRows.{delete_trash}

abbrev pub UniqueIds : List TrashItem → Type 0
UniqueIds [] = Unit
UniqueIds (t ∷ ts) = All (λ u. (u.id == t.id) ≡ false) ts × UniqueIds ts

-- the rows of `ts` are deleted, one after another
abbrev pub delete_each : List TrashItem → List TrashItem → List TrashItem
delete_each [] rows = rows
delete_each (t ∷ ts) rows = delete_each ts (delete_trash t.id rows)

-- No row of the first list has the id of one of the second.
abbrev pub Apart : List TrashItem → List TrashItem → Type 0
Apart ts rows = All (λ t. All (λ u. (u.id == t.id) ≡ false) rows) ts

module _ {A : Type 0} (p : A → Bool) where
  All-where_rows : (P : A → Type 0) (xs : List A) → All P xs → All P (where_rows p xs)
  All-where_rows P [] h = tt
  All-where_rows P (x ∷ xs) h = elim (Bool-cases (p x)) [
    | inl e ↦ rw e (h.0, All-where_rows P xs h.1)
    | inr e ↦ rw e (All-where_rows P xs h.1)
  ]

  where_rows-keeps : (xs : List A) → All (λ x. p x ≡ true) xs → where_rows p xs ≡ xs
  where_rows-keeps [] h = refl
  where_rows-keeps (x ∷ xs) h = rw (h.0, where_rows-keeps xs h.1) refl

  pub where_rows-none : (xs : List A) → where_rows p xs ≡ [] → where_rows (λ x. not (p x)) xs ≡ xs
  where_rows-none [] h = refl
  where_rows-none (x ∷ xs) h = ground (arith, where_rows-none xs)

  where_rows_comm :
      (q : A → Bool) (xs : List A) → where_rows p (where_rows q xs) ≡ where_rows q (where_rows p xs)
  where_rows_comm q [] = refl
  where_rows_comm q (x ∷ xs) = ground (arith, where_rows_comm q xs)

All-take : {A : Type 0} (P : A → Type 0) (n : ℕ) (xs : List A) → All P xs → All P (take n xs)
All-take P zero xs h = tt
All-take P (suc n) [] h = tt
All-take P (suc n) (x ∷ xs) h = (h.0, All-take P n xs h.1)

pub UniqueIds-where_rows :
    (p : TrashItem → Bool) (rows : List TrashItem) → UniqueIds rows → UniqueIds (where_rows p rows)
UniqueIds-where_rows p [] u = tt
UniqueIds-where_rows p (r ∷ rows) u = elim (Bool-cases (p r)) [
  | inl e ↦
      rw e
        (All-where_rows p (λ t. (t.id == r.id) ≡ false) rows u.0, UniqueIds-where_rows p rows u.1)
  | inr e ↦ rw e (UniqueIds-where_rows p rows u.1)
]

pub UniqueIds-delete_each :
    (ts rows : List TrashItem) → UniqueIds rows → UniqueIds (delete_each ts rows)
unfolding delete_trash
UniqueIds-delete_each [] rows u = u
UniqueIds-delete_each (t ∷ ts) rows u =
    UniqueIds-delete_each ts (delete_trash t.id rows)
      (UniqueIds-where_rows (λ r. not (r.id == t.id)) rows u)

-- Which rows are chosen and which are deleted are independent.
pub where_rows-delete_each :
    (p : TrashItem → Bool) (ts rows : List TrashItem)
    → where_rows p (delete_each ts rows) ≡ delete_each ts (where_rows p rows)
unfolding delete_trash
where_rows-delete_each p [] rows = refl
where_rows-delete_each p (t ∷ ts) rows =
    where_rows-delete_each p ts _
    ∙ ap (delete_each ts) (where_rows_comm p (λ r. not (r.id == t.id)) rows)

delete_trash-absent :
    (id : ℕ) (rows : List TrashItem)
    → All (λ u. (u.id == id) ≡ false) rows
    → delete_trash id rows ≡ rows
unfolding delete_trash
delete_trash-absent id [] h = refl
delete_trash-absent id (r ∷ rows) h = rw (h.0, delete_trash-absent id rows h.1) refl

delete_each-absent : (ts rows : List TrashItem) → Apart ts rows → delete_each ts rows ≡ rows
delete_each-absent [] rows h = refl
delete_each-absent (t ∷ ts) rows h =
    ap (delete_each ts) (delete_trash-absent t.id rows h.0) ∙ delete_each-absent ts rows h.1

delete_trash-first :
    (t : TrashItem) (rows : List TrashItem)
    → All (λ u. (u.id == t.id) ≡ false) rows
    → delete_trash t.id (t ∷ rows) ≡ rows
unfolding delete_trash
delete_trash-first t rows h =
    let same : (t.id == t.id) ≡ true = ground arith in rw same (delete_trash-absent t.id rows h)

delete_each-front :
    (ts rest : List TrashItem) → UniqueIds (ts ++ rest) → delete_each ts (ts ++ rest) ≡ rest
delete_each-front [] rest u = refl
delete_each-front (t ∷ ts) rest u =
    ap (delete_each ts) (delete_trash-first t (ts ++ rest) u.0) ∙ delete_each-front ts rest u.1

-- The first rows of a list with unique ids are deleted: the others are left.
pub delete_each-take :
    (n : ℕ) (rows : List TrashItem) → UniqueIds rows → delete_each (take n rows) rows ≡ drop n rows
delete_each-take n rows u =
    ap (delete_each (take n rows)) (sym (take-append-drop n rows))
    ∙ delete_each-front (take n rows) (drop n rows)
        (subst UniqueIds (sym (take-append-drop n rows)) u)

Apart-cons :
    (r : TrashItem) (ts rows : List TrashItem)
    → All (λ t. (t.id == r.id) ≡ false) ts
    → Apart ts rows
    → Apart ts (r ∷ rows)
Apart-cons r [] rows h a = tt
Apart-cons r (t ∷ ts) rows h a = ((ground (arith, h.0), a.0), Apart-cons r ts rows h.1 a.1)

where_rows-Apart :
    (p : TrashItem → Bool) (rows : List TrashItem)
    → UniqueIds rows
    → Apart (where_rows p rows) (where_rows (λ t. not (p t)) rows)
where_rows-Apart p [] u = tt
where_rows-Apart p (r ∷ rows) u = elim (Bool-cases (p r)) [
  | inl e ↦ rw e (
    All-where_rows (λ t. not (p t)) (λ t. (t.id == r.id) ≡ false) rows u.0,
    where_rows-Apart p rows u.1,
  )
  | inr e ↦ rw e (
      Apart-cons r (where_rows p rows) (where_rows (λ t. not (p t)) rows)
        (All-where_rows p (λ t. (t.id == r.id) ≡ false) rows u.0) (where_rows-Apart p rows u.1))
]

-- Deleting the first of the rows that p chooses leaves the rows that it does not choose.
pub delete_each-others :
    (p : TrashItem → Bool) (n : ℕ) (rows : List TrashItem)
    → UniqueIds rows
    → where_rows (λ t. not (p t)) (delete_each (take n (where_rows p rows)) rows)
      ≡ where_rows (λ t. not (p t)) rows
delete_each-others p n rows u =
    let ts = take n (where_rows p rows) in
    where_rows-delete_each (λ t. not (p t)) ts rows
    ∙ delete_each-absent ts (where_rows (λ t. not (p t)) rows)
        (All-take _ n (where_rows p rows) (where_rows-Apart p rows u))
