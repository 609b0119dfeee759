-- ===== src/Protocol/Paths/Absolute.antt =====
-- Absolute paths by their names, and the test that one is below another (SafeJoin of
-- internal/protocol/paths.go).
use mathlib.Core.List.{cons-ne-nil, reverse, reverse-append, reverse-reverse}
use backuper.Prelude.{
  ◌||◌, ◌≡◌, ◌≢◌, refl, sym, ap, ◌∙◌, ◌++◌, [], ◌∷◌, List, Bool, true, arith, Bytes, All,
  All-append, append_assoc, append-nil, bytes_eq, bytes_eq_refl,
}
use backuper.Protocol.Paths.{
  slash, split, join, kind, Resolved, resolve, empty, render, clean, join_path, has_prefix, within,
}
use backuper.Protocol.Paths.Cleaning.{
  IsName, split-join, split-join-append, resolve-names, resolve-append,
}

-- An absolute path, spelled by its names.
abbrev pub absolute : List Bytes → Bytes
absolute ns = slash ∷ join ns

-- A directory that is not "/" itself, in the form that path.Clean gives.
pub record IsRoot (ns : List Bytes) : Type 0 where
  pub all_names : All IsName ns
  pub below_top : ns ≢ []

-- the state of path.Clean once it has read the names of an absolute path
abbrev pub at_names : List Bytes → Resolved
at_names ns = record { ups = 0; names = reverse ns }

pub resolve-absolute :
    (ns : List Bytes) (ss : List Bytes)
    → All IsName ns
    → resolve true empty ([] ∷ (ns ++ ss)) ≡ resolve true (at_names ns) ss
resolve-absolute ns ss h =
    unfold resolve kind in
    resolve-append true empty ns ss
    ∙ ap (λ r. resolve true r ss)
        (resolve-names true empty ns h
          ∙ ap (λ l. record empty { names = l }) (append-nil (reverse ns)))

-- path.Clean of a root, a slash, and more
pub clean-below :
    (ns : List Bytes) (y : Bytes)
    → IsRoot ns
    → clean (absolute ns ++ slash ∷ y) ≡ render true (resolve true (at_names ns) (split y))
clean-below [] y h = absurd (h.below_top refl)
clean-below (n ∷ ns) y h =
    unfold clean split in
    ap (λ ss. render true (resolve true empty ([] ∷ ss))) (split-join-append n ns y h.all_names)
    ∙ ap (render true) (resolve-absolute (n ∷ ns) (split y) h.all_names)

pub render-at_names : (ns : List Bytes) → render true (at_names ns) ≡ absolute ns
unfolding render
render-at_names ns = ap absolute (reverse-reverse ns)

-- path.Clean leaves an absolute path of names as it is.
pub clean-absolute : (ns : List Bytes) → IsRoot ns → clean (absolute ns) ≡ absolute ns
clean-absolute [] h = absurd (h.below_top refl)
clean-absolute (n ∷ ns) h =
    unfold clean split in
    ap (λ ss. render true (resolve true empty ([] ∷ ss)))
      (split-join n ns h.all_names ∙ sym (append-nil (n ∷ ns)))
    ∙ ap (render true) (resolve-absolute (n ∷ ns) [] h.all_names)
    ∙ unfold resolve in render-at_names (n ∷ ns)

-- filepath.Join of a root and names, or of a root and "."
pub join_path-names :
    (rs : List Bytes) (n : Bytes) (ns : List Bytes)
    → IsRoot rs
    → All IsName (n ∷ ns)
    → join_path (absolute rs) (join (n ∷ ns)) ≡ absolute (rs ++ n ∷ ns)
join_path-names rs n ns h hn =
    unfold join_path in
    clean-below rs (join (n ∷ ns)) h
    ∙ ap (λ ss. render true (resolve true (at_names rs) ss)) (split-join n ns hn)
    ∙ ap (render true) (resolve-names true (at_names rs) (n ∷ ns) hn)
    ∙ ap (λ l. render true (record { ups = 0; names = l })) (sym (reverse-append rs (n ∷ ns)))
    ∙ render-at_names (rs ++ n ∷ ns)

pub join_path-dot :
    (rs : List Bytes) → IsRoot rs → join_path (absolute rs) (b'.' ∷ []) ≡ absolute (rs ++ [])
join_path-dot rs h =
    unfold join_path in
    clean-below rs (b'.' ∷ []) h
    ∙ unfold split resolve kind in render-at_names rs ∙ ap absolute (sym (append-nil rs))

pub or-left : (a b : Bool) → a ≡ true → (a || b) ≡ true
or-left a b h = ground arith

pub or-right : (a b : Bool) → b ≡ true → (a || b) ≡ true
or-right a b h = ground arith

pub has_prefix-append : (x y : Bytes) → has_prefix (x ++ y) x ≡ true
has_prefix-append [] [] = refl
has_prefix-append [] (b ∷ y) = refl
has_prefix-append (a ∷ x) y = ground (arith, has_prefix-append x y)

pub join-append :
    (r : Bytes) (rs : List Bytes) (n : Bytes) (ns : List Bytes)
    → join ((r ∷ rs) ++ n ∷ ns) ≡ (join (r ∷ rs) ++ slash ∷ []) ++ join (n ∷ ns)
unfolding join
join-append r [] n ns = sym (append_assoc r (slash ∷ []) (join (n ∷ ns)))
join-append r (s ∷ rs) n ns = ap (λ t. r ++ slash ∷ t) (join-append s rs n ns) ∙ simp append_assoc

pub within-below :
    (rs ns : List Bytes) → IsRoot rs → within (absolute rs) (absolute (rs ++ ns)) ≡ true
within-below [] ns h = absurd (h.below_top refl)
within-below (r ∷ rs) [] h = rw (append-nil (r ∷ rs)) (
    or-left (bytes_eq (absolute (r ∷ rs)) (absolute (r ∷ rs))) _
      (bytes_eq_refl (absolute (r ∷ rs))))
within-below (r ∷ rs) (n ∷ ns) h =
    or-right (bytes_eq (absolute ((r ∷ rs) ++ n ∷ ns)) (absolute (r ∷ rs))) _ (
      ap (λ t. has_prefix (slash ∷ t) (absolute (r ∷ rs) ++ slash ∷ [])) (join-append r rs n ns)
      ∙ has_prefix-append (absolute (r ∷ rs) ++ slash ∷ []) (join (n ∷ ns)))

pub IsRoot-append : (rs ns : List Bytes) → IsRoot rs → All IsName ns → IsRoot (rs ++ ns)
IsRoot-append [] ns h hn = absurd (h.below_top refl)
IsRoot-append (r ∷ rs) ns h hn = record {
  all_names = All-append IsName (r ∷ rs) ns h.all_names hn;
  below_top = cons-ne-nil r (rs ++ ns);
}
