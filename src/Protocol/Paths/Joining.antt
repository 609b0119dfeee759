-- ===== src/Protocol/Paths/Joining.antt =====
-- SafeJoin keeps below its root, and refuses nothing that stays there.
use mathlib.Core.List.{cons-ne-nil}
use backuper.Prelude.{
  ◌≡◌, ◌≢◌, refl, ap, ◌∙◌, ◌++◌, [], ◌∷◌, List, true, false, Option, arith, Bytes, All, bytes_eq,
  if◌then◌else◌,
}
use backuper.Protocol.Paths.{
  slash, join, kind, name, clean, clean_rel, join_path, abs, ok, err, escapes, empty_path, within,
  check_full, leaves_root, join_clean, safe_join,
}
use backuper.Protocol.Paths.Cleaning.{NoSlash, IsName}
use backuper.Protocol.Paths.Forms.{
  Form, clean_rel-Form, clean_rel-join, nothing, leaving, here, below,
}
use backuper.Protocol.Paths.Absolute.{
  absolute, IsRoot, clean-absolute, join_path-names, join_path-dot, within-below, IsRoot-append,
}

-- A path that is absolute, or that ".." leads out of, is refused.
join_clean-leaving :
    (cwd : Option Bytes) (root rel c : Bytes)
    → leaves_root c ≡ true
    → join_clean cwd root rel c ≡ err (escapes rel)
join_clean-leaving cwd root rel [] h = absurd (unfold bytes_eq in (cc h))
join_clean-leaving cwd root rel (b ∷ c) h =
    unfold join_clean in
    ap (λ t. if t then err (escapes rel) else check_full cwd root rel (join_path root (b ∷ c))) h

-- The second test lets every path below the root pass.
check_full-below :
    (cwd : Option Bytes) (rs ns : List Bytes) (rel : Bytes)
    → IsRoot rs
    → All IsName ns
    → check_full cwd (absolute rs) rel (absolute (rs ++ ns)) ≡ ok (absolute (rs ++ ns))
check_full-below cwd rs ns rel h hn =
    unfold check_full abs in
    ap
      (λ d.
        if within d (clean (absolute (rs ++ ns)))
        then ok (absolute (rs ++ ns))
        else err (escapes rel))
      (clean-absolute rs h)
    ∙ ap (λ d. if within (absolute rs) d then ok (absolute (rs ++ ns)) else err (escapes rel))
        (clean-absolute (rs ++ ns) (IsRoot-append rs ns h hn))
    ∙ ap (λ t. if t then ok (absolute (rs ++ ns)) else err (escapes rel)) (within-below rs ns h)

join_clean-below :
    (cwd : Option Bytes) (rs ns : List Bytes) (rel c : Bytes)
    → IsRoot rs
    → All IsName ns
    → c ≢ []
    → leaves_root c ≡ false
    → join_path (absolute rs) c ≡ absolute (rs ++ ns)
    → join_clean cwd (absolute rs) rel c ≡ ok (absolute (rs ++ ns))
join_clean-below cwd rs ns rel [] h hn some_path stays e = absurd (some_path refl)
join_clean-below cwd rs ns rel (b ∷ c) h hn some_path stays e =
    unfold join_clean in
    ap
      (λ t.
        if t
        then err (escapes rel)
        else check_full cwd (absolute rs) rel (join_path (absolute rs) (b ∷ c)))
      stays
    ∙ ap (check_full cwd (absolute rs) rel) e
    ∙ check_full-below cwd rs ns rel h hn

pub nil-IsName : ¬ (kind [] ≡ name)
unfolding kind
nil-IsName e = cc

stays-end : (n : Bytes) → kind n ≡ name → NoSlash n → leaves_root n ≡ false
unfolding bytes_eq kind
stays-end [] k h = cc
stays-end (a ∷ []) k h = ground arith
stays-end (a ∷ b ∷ []) k h = ground arith
stays-end (a ∷ b ∷ c ∷ n) k h = ground arith

stays-more : (n t : Bytes) → kind n ≡ name → NoSlash n → leaves_root (n ++ slash ∷ t) ≡ false
unfolding bytes_eq kind
stays-more [] t k h = cc
stays-more (a ∷ []) t k h = ground arith
stays-more (a ∷ b ∷ []) t k h = ground arith
stays-more (a ∷ b ∷ c ∷ n) t k h = ground arith

-- A relative path of names is not taken for one that leaves the root.
pub stays-names :
    (n : Bytes) (ns : List Bytes) → All IsName (n ∷ ns) → leaves_root (join (n ∷ ns)) ≡ false
unfolding join
stays-names n [] h = stays-end n h.0.keeps h.0.no_slash
stays-names n (m ∷ ms) h = stays-more n (join (m ∷ ms)) h.0.keeps h.0.no_slash

pub names-ne-nil : (n : Bytes) (ns : List Bytes) → All IsName (n ∷ ns) → join (n ∷ ns) ≢ []
unfolding join
names-ne-nil [] [] h e = nil-IsName h.0.keeps
names-ne-nil [] (m ∷ ms) h e = nil-IsName h.0.keeps
names-ne-nil (a ∷ n) [] h e = cc
names-ne-nil (a ∷ n) (m ∷ ms) h e = cc

-- What is left of a path of names once it is cleaned is joined to the root.
safe_join-cleaned :
    (cwd : Option Bytes) (rs : List Bytes) (n : Bytes) (ns : List Bytes) (rel : Bytes)
    → IsRoot rs
    → All IsName (n ∷ ns)
    → clean_rel rel ≡ join (n ∷ ns)
    → safe_join cwd (absolute rs) rel ≡ ok (absolute (rs ++ n ∷ ns))
safe_join-cleaned cwd rs n ns rel h hn e =
    unfold safe_join in
    ap (join_clean cwd (absolute rs) rel) e
    ∙ join_clean-below cwd rs (n ∷ ns) rel (join (n ∷ ns)) h hn (names-ne-nil n ns hn)
        (stays-names n ns hn) (join_path-names rs n ns h hn)

-- SafeJoin accepts every relative path of names (the names joined by slashes, none of them empty, ".",
-- or ".."), and returns the path of those names below the root, for every root that is absolute,
-- clean, and not "/".
pub safe_join-names :
    (cwd : Option Bytes) (rs : List Bytes) (n : Bytes) (ns : List Bytes)
    → IsRoot rs
    → All IsName (n ∷ ns)
    → safe_join cwd (absolute rs) (join (n ∷ ns)) ≡ ok (absolute (rs ++ n ∷ ns))
safe_join-names cwd rs n ns h hn =
    safe_join-cleaned cwd rs n ns (join (n ∷ ns)) h hn (clean_rel-join n ns hn)

safe_join-here :
    (cwd : Option Bytes) (rs : List Bytes) (rel : Bytes)
    → IsRoot rs
    → clean_rel rel ≡ b'.' ∷ []
    → safe_join cwd (absolute rs) rel ≡ ok (absolute (rs ++ []))
safe_join-here cwd rs rel h e =
    unfold safe_join in
    ap (join_clean cwd (absolute rs) rel) e
    ∙ join_clean-below cwd rs [] rel (b'.' ∷ []) h tt (cons-ne-nil b'.' [])
        (unfold bytes_eq in refl) (join_path-dot rs h)

safe_join-empty :
    (cwd : Option Bytes) (root rel : Bytes)
    → clean_rel rel ≡ []
    → safe_join cwd root rel ≡ err empty_path
safe_join-empty cwd root rel q =
    unfold safe_join in ap (join_clean cwd root rel) q ∙ unfold join_clean in refl

safe_join-leaving :
    (cwd : Option Bytes) (root rel : Bytes)
    → leaves_root (clean_rel rel) ≡ true
    → safe_join cwd root rel ≡ err (escapes rel)
safe_join-leaving cwd root rel q =
    unfold safe_join in join_clean-leaving cwd root rel (clean_rel rel) q

-- The path that SafeJoin returns is the root, or names below it: it has no ".." and does not leave
-- the root. This holds of every relative path, for a root that is absolute, clean, and not "/".
pub safe_join-inside :
    (cwd : Option Bytes) (rs : List Bytes) (rel full : Bytes)
    → IsRoot rs
    → safe_join cwd (absolute rs) rel ≡ ok full
    → (ns : List Bytes) × All IsName ns × (full ≡ absolute (rs ++ ns))
safe_join-inside cwd rs rel full h e = by_form (clean_rel-Form rel)
  where
    ok-eq : (x : Bytes) → safe_join cwd (absolute rs) rel ≡ ok x → full ≡ x
    ok-eq x q = cc

    by_form :
        Form (clean_rel rel) → (ns : List Bytes) × All IsName ns × (full ≡ absolute (rs ++ ns))
    by_form (nothing q) = cc (safe_join-empty cwd (absolute rs) rel q)
    by_form (leaving q) = cc (safe_join-leaving cwd (absolute rs) rel q)
    by_form (here q) = ([], tt, ok-eq _ (safe_join-here cwd rs rel h q))
    by_form (below n ns hn q) = (n ∷ ns, hn, ok-eq _ (safe_join-cleaned cwd rs n ns rel h hn q))
