-- ===== src/Protocol/Paths/Forms.antt =====
-- What CleanRel of internal/protocol/paths.go can return.
use mathlib.Core.List.{reverse, reverse-append, reverse-reverse}
use backuper.Prelude.{
  ℕ, zero, suc, ◌≡◌, ◌≢◌, refl, sym, ap, ◌∙◌, ◌++◌, append-nil, ◌==◌, if◌then◌else◌, arith, subst,
  [], ◌∷◌, List, Bool, true, false, Bytes, All, All-append, bytes_eq,
}
use backuper.Protocol.Paths.{
  slash, dot_dot, split, join, Resolved, resolve, repeat_up, is_abs, empty, render, render_relative,
  clean, trim_slash, clean_unless_empty, clean_rel, leaves_root, kind,
}
use backuper.Protocol.Paths.Cleaning.{
  IsName, split-join, resolve-names, split-NoSlash, resolve-IsName,
}

pub All-reverse : (ns : List Bytes) → All IsName ns → All IsName (reverse ns)
All-reverse [] h = tt
All-reverse (n ∷ ns) h =
    subst (All IsName) (sym (reverse-append (n ∷ []) ns))
      (All-append IsName (reverse ns) (n ∷ []) (All-reverse ns h.1) (h.0, tt))

-- What CleanRel can return.
pub data Form (c : Bytes) : Type 0 where
  nothing : c ≡ [] → Form c
  leaving : leaves_root c ≡ true → Form c
  here : c ≡ b'.' ∷ [] → Form c
  below : (n : Bytes) (ns : List Bytes) → All IsName (n ∷ ns) → c ≡ join (n ∷ ns) → Form c

pub leaves-up : (ss : List Bytes) → leaves_root (join (dot_dot ∷ ss)) ≡ true
unfolding join bytes_eq
leaves-up [] = refl
leaves-up (s ∷ ss) = refl

pub leaves-absolute : (s : Bytes) → leaves_root (slash ∷ s) ≡ true
unfolding bytes_eq
leaves-absolute s = refl

pub render_relative-Form :
    (ups : ℕ) (ss : List Bytes) → All IsName ss → Form (render_relative (repeat_up ups ss))
render_relative-Form zero [] h = here refl
render_relative-Form zero (s ∷ ss) h = below s ss h refl
render_relative-Form (suc ups) ss h = leaving (leaves-up (repeat_up ups ss))

pub render-Form : (rooted : Bool) (r : Resolved) → All IsName r.names → Form (render rooted r)
unfolding render
render-Form true r h = leaving (leaves-absolute (join (repeat_up r.ups (reverse r.names))))
render-Form false r h = render_relative-Form r.ups (reverse r.names) (All-reverse r.names h)

pub clean_rel-Form : (rel : Bytes) → Form (clean_rel rel)
unfolding clean_rel
clean_rel-Form rel = of_trimmed (trim_slash rel)
  where
    of_trimmed : (t : Bytes) → Form (clean_unless_empty t)
    of_trimmed [] = nothing refl
    of_trimmed (c ∷ t) =
        unfold clean in
        render-Form (is_abs (c ∷ t)) (resolve (is_abs (c ∷ t)) empty (split (c ∷ t)))
          (resolve-IsName (is_abs (c ∷ t)) empty (split (c ∷ t)) (split-NoSlash (c ∷ t)) tt)

-- A path that begins with no slash is cleaned as a relative one.
clean_rel-relative :
    (c : ℕ) (t : Bytes)
    → c ≢ slash
    → clean_rel (c ∷ t) ≡ render false (resolve false empty (split (c ∷ t)))
clean_rel-relative c t h =
    let e : (c == slash) ≡ false = ground arith in
    unfold clean_rel clean in
    ap (λ b. clean_unless_empty (if b then t else c ∷ t)) e
    ∙ ap (λ b. render b (resolve b empty (split (c ∷ t)))) e

-- the first byte of a path of names
join-first :
    (n : Bytes) (ns : List Bytes)
    → All IsName (n ∷ ns)
    → (c : ℕ) × ((t : Bytes) × ((c ≢ slash) × (join (n ∷ ns) ≡ c ∷ t)))
unfolding join kind
join-first [] ns h = cc (h.0.keeps)
join-first (c ∷ n) [] h = (c, (n, (h.0.no_slash.0, refl)))
join-first (c ∷ n) (m ∷ ms) h = (c, (n ++ slash ∷ join (m ∷ ms), (h.0.no_slash.0, refl)))

-- CleanRel leaves a relative path of names as it is.
pub clean_rel-join :
    (n : Bytes) (ns : List Bytes) → All IsName (n ∷ ns) → clean_rel (join (n ∷ ns)) ≡ join (n ∷ ns)
clean_rel-join n ns h =
    let (c, (t, (no_slash, e))) = join-first n ns h in
    ap clean_rel e
    ∙ clean_rel-relative c t no_slash
    ∙ ap (λ p. render false (resolve false empty (split p))) (sym e)
    ∙ ap (λ ss. render false (resolve false empty ss)) (split-join n ns h)
    ∙ ap (render false) (resolve-names false empty (n ∷ ns) h)
    ∙ unfold render in
      ap render_relative (ap reverse (append-nil (reverse (n ∷ ns))) ∙ reverse-reverse (n ∷ ns))
