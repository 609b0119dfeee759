-- ===== src/Protocol/Paths/Top.antt =====
-- SafeJoin below the root "/".
use mathlib.Core.List.{cons-ne-nil}
use backuper.Prelude.{
  ◌≡◌, ◌≢◌, refl, sym, ap, ◌∙◌, ◌++◌, [], ◌∷◌, List, true, false, Option, arith, Bytes, All,
  append-nil, bytes_eq, if◌then◌else◌,
}
use backuper.Protocol.Paths.{
  slash, split, join, kind, resolve, empty, render, clean, clean_rel, join_path, abs, ok, err,
  escapes, within, check_full, leaves_root, join_clean, safe_join,
}
use backuper.Protocol.Paths.Cleaning.{IsName, split-join}
use backuper.Protocol.Paths.Absolute.{clean-absolute, absolute, resolve-absolute, render-at_names}
use backuper.Protocol.Paths.Joining.{nil-IsName, stays-names, names-ne-nil}

-- the root "/"
abbrev pub top : Bytes
top = slash ∷ []

clean-double :
    (n : Bytes) (ns : List Bytes)
    → All IsName (n ∷ ns)
    → clean (top ++ slash ∷ join (n ∷ ns)) ≡ absolute (n ∷ ns)
clean-double n ns hn =
    unfold clean split resolve kind in
    ap (λ ss. render true (resolve true empty ([] ∷ [] ∷ ss)))
      (split-join n ns hn ∙ sym (append-nil (n ∷ ns)))
    ∙ ap (render true) (resolve-absolute (n ∷ ns) [] hn)
    ∙ render-at_names (n ∷ ns)

not-within-top :
    (n : Bytes) (ns : List Bytes) → All IsName (n ∷ ns) → within top (absolute (n ∷ ns)) ≡ false
unfolding join bytes_eq
not-within-top [] [] hn = absurd (nil-IsName hn.0.keeps)
not-within-top [] (m ∷ ms) hn = absurd (nil-IsName hn.0.keeps)
not-within-top (a ∷ n) [] hn = ground (arith, hn.0.no_slash)
not-within-top (a ∷ n) (m ∷ ms) hn = ground (arith, hn.0.no_slash)

-- With the root "/" SafeJoin refuses every relative path of names: the prefix that the second test
-- asks for is "//", which no clean path has.
pub safe_join-top :
    (cwd : Option Bytes) (n : Bytes) (ns : List Bytes) (rel : Bytes)
    → All IsName (n ∷ ns)
    → clean_rel rel ≡ join (n ∷ ns)
    → safe_join cwd top rel ≡ err (escapes rel)
safe_join-top cwd n ns rel hn e =
    unfold safe_join in
    ap (join_clean cwd top rel) e
    ∙ refused (join (n ∷ ns)) (names-ne-nil n ns hn) (stays-names n ns hn) joined
  where
    joined : join_path top (join (n ∷ ns)) ≡ absolute (n ∷ ns)
    joined = unfold join_path in clean-double n ns hn

    top_outside : within (clean top) (absolute (n ∷ ns)) ≡ false
    top_outside = unfold clean split resolve kind render in not-within-top n ns hn

    refused :
        (c : Bytes)
        → c ≢ []
        → leaves_root c ≡ false
        → join_path top c ≡ absolute (n ∷ ns)
        → join_clean cwd top rel c ≡ err (escapes rel)
    refused [] some_path stays q = absurd (some_path refl)
    refused (b ∷ c) some_path stays q =
        unfold join_clean in
        ap (λ t. if t then err (escapes rel) else check_full cwd top rel (join_path top (b ∷ c)))
          stays
        ∙ ap (check_full cwd top rel) q
        ∙ unfold check_full abs in
          ap (λ d. if within (clean top) d then ok (absolute (n ∷ ns)) else err (escapes rel))
            (clean-absolute (n ∷ ns) (record { all_names = hn; below_top = cons-ne-nil n ns }))
          ∙ ap (λ t. if t then ok (absolute (n ∷ ns)) else err (escapes rel)) top_outside
