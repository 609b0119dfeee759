-- ===== src/Protocol/Paths/Cleaning.antt =====
-- path.Clean, through the parts of a path.
use mathlib.Core.List.{reverse, reverse-append}
use backuper.Prelude.{
  ℕ, ◌≡◌, ◌≢◌, refl, sym, ap, ◌∙◌, ◌++◌, [], ◌∷◌, List, Bool, false, arith, Bytes, ◌==◌, All,
  append_assoc, Bool-cases, inl, inr,
}
use backuper.Protocol.Paths.{
  slash, prepend, split, join, Kind, skip, up, name, kind, Resolved, step_kind, step, resolve,
  go_up,
}

abbrev pub NoSlash : Bytes → Type 0
NoSlash = All (λ c. c ≢ slash)

-- A part of a path that path.Clean keeps.
pub record IsName (s : Bytes) : Type 0 where
  pub keeps : kind s ≡ name
  pub no_slash : NoSlash s

pub split_single : (x : Bytes) → NoSlash x → split x ≡ x ∷ []
unfolding split
split_single [] h = refl
split_single (c ∷ x) h = ground (arith, split_single x h.1)

split-append : (x y : Bytes) → NoSlash x → split (x ++ slash ∷ y) ≡ x ∷ split y
unfolding split
split-append [] y h = refl
split-append (c ∷ x) y h = ground (arith, split-append x y h.1)

prepend-NoSlash :
    (c : ℕ) (ss : List Bytes) → c ≢ slash → All NoSlash ss → All NoSlash (prepend c ss)
prepend-NoSlash c [] h hs = ((h, tt), tt)
prepend-NoSlash c (x ∷ xs) h hs = ((h, hs.0), hs.1)

not_slash : (c : ℕ) → (c == slash) ≡ false → c ≢ slash
not_slash c e = ground arith

pub split-NoSlash : (s : Bytes) → All NoSlash (split s)
unfolding split
split-NoSlash [] = (tt, tt)
split-NoSlash (c ∷ s) = elim (Bool-cases (c == slash)) [
  | inl e ↦ rw e (tt, split-NoSlash s)
  | inr e ↦ rw e (prepend-NoSlash c (split s) (not_slash c e) (split-NoSlash s))
]

names-NoSlash : (ss : List Bytes) → All IsName ss → All NoSlash ss
names-NoSlash [] h = tt
names-NoSlash (x ∷ xs) h = (h.0.no_slash, names-NoSlash xs h.1)

pub split-join :
    (x : Bytes) (xs : List Bytes) → All IsName (x ∷ xs) → split (join (x ∷ xs)) ≡ x ∷ xs
unfolding join
split-join x [] h = split_single x h.0.no_slash
split-join x (y ∷ r) h =
    split-append x (join (y ∷ r)) h.0.no_slash ∙ ap (λ l. x ∷ l) (split-join y r h.1)

step-name :
    (rooted : Bool) (r : Resolved) (s : Bytes)
    → kind s ≡ name
    → step rooted r s ≡ record r { names = s ∷ r.names }
step-name rooted r s e = ap (step_kind rooted r s) e

-- Splitting at a slash that stands behind names.
pub split-join-append :
    (x : Bytes) (xs : List Bytes) (y : Bytes)
    → All IsName (x ∷ xs)
    → split (join (x ∷ xs) ++ slash ∷ y) ≡ (x ∷ xs) ++ split y
unfolding join
split-join-append x [] y h = split-append x y h.0.no_slash
split-join-append x (z ∷ zs) y h =
    ap split (append_assoc x (slash ∷ join (z ∷ zs)) (slash ∷ y))
    ∙ split-append x (join (z ∷ zs) ++ slash ∷ y) h.0.no_slash
    ∙ ap (λ l. x ∷ l) (split-join-append z zs y h.1)

-- Names are pushed one by one.
pub resolve-names :
    (rooted : Bool) (r : Resolved) (ss : List Bytes)
    → All IsName ss
    → resolve rooted r ss ≡ record r { names = reverse ss ++ r.names }
unfolding resolve
resolve-names rooted r [] h = refl
resolve-names rooted r (s ∷ ss) h =
    ap (λ q. resolve rooted q ss) (step-name rooted r s h.0.keeps)
    ∙ resolve-names rooted (record r { names = s ∷ r.names }) ss h.1
    ∙ ap (λ l. record r { names = l })
        (sym (append_assoc (reverse ss) (s ∷ []) r.names)
          ∙ ap (λ l. l ++ r.names) (sym (reverse-append (s ∷ []) ss)))

pub resolve-append :
    (rooted : Bool) (r : Resolved) (ss ts : List Bytes)
    → resolve rooted r (ss ++ ts) ≡ resolve rooted (resolve rooted r ss) ts
unfolding resolve
resolve-append rooted r [] ts = refl
resolve-append rooted r (s ∷ ss) ts = resolve-append rooted (step rooted r s) ss ts

go_up-IsName :
    (rooted : Bool) (ups : ℕ) (names : List Bytes)
    → All IsName names
    → All IsName (go_up rooted ups names).names
go_up-IsName rooted ups [] h = tt
go_up-IsName rooted ups (x ∷ xs) h = h.1

step-IsName :
    (rooted : Bool) (r : Resolved) (s : Bytes)
    → NoSlash s
    → All IsName r.names
    → All IsName (step rooted r s).names
step-IsName rooted r s h hs = on_kind (kind s) refl
  where
    on_kind : (k : Kind) → kind s ≡ k → All IsName (step_kind rooted r s k).names
    on_kind skip e = hs
    on_kind up e = go_up-IsName rooted r.ups r.names hs
    on_kind name e = (record { keeps = e; no_slash = h }, hs)

-- The names that are left are names, and nothing is above "/".
pub resolve-IsName :
    (rooted : Bool) (r : Resolved) (ss : List Bytes)
    → All NoSlash ss
    → All IsName r.names
    → All IsName (resolve rooted r ss).names
unfolding resolve
resolve-IsName rooted r [] h hr = hr
resolve-IsName rooted r (s ∷ ss) h hr =
    resolve-IsName rooted (step rooted r s) ss h.1 (step-IsName rooted r s h.0 hr)
