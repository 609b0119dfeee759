-- ===== src/Protocol/Paths.antt =====
-- internal/protocol/paths.go: CleanRel, NormKey, SafeJoin, on a Unix build, where ToSlash and
-- FromSlash change nothing and package filepath is package path.
pub mod Cleaning
pub mod Forms
pub mod Absolute
pub mod Joining
pub mod Top
use mathlib.Core.List.{reverse}
use backuper.Prelude.{
  ℕ, zero, suc, ◌+◌, ◌++◌, [], ◌∷◌, List, map, Bool, true, false, ◌&&◌, ◌||◌, not, Option, none,
  some, Bytes, utf8, bytes_eq, ◌==◌, if◌then◌else◌,
}

abbrev pub slash : ℕ
slash = b'/'

abbrev pub dot_dot : Bytes
dot_dot = b'.' ∷ b'.' ∷ []

-- The parts of a path between slashes; there is always at least one.
abbrev pub prepend : ℕ → List Bytes → List Bytes
prepend c [] = (c ∷ []) ∷ []
prepend c (x ∷ xs) = (c ∷ x) ∷ xs

unfoldable pub split : Bytes → List Bytes
split [] = [] ∷ []
split (c ∷ s) = if c == slash then [] ∷ split s else prepend c (split s)

unfoldable pub join : List Bytes → Bytes
join [] = []
join (x ∷ []) = x
join (x ∷ y ∷ r) = x ++ slash ∷ join (y ∷ r)

-- path.Clean skips an empty part and ".", and resolves "..".
pub data Kind : Type 0 where
  skip up name : Kind

unfoldable pub kind : Bytes → Kind
unfolding bytes_eq
kind [] = skip
kind (c ∷ s) =
    if bytes_eq (c ∷ s) (b'.' ∷ []) then skip else if bytes_eq (c ∷ s) dot_dot then up else name

-- What is left of a path: how many ".." it begins with, and its names, the last one first.
pub record Resolved : Type 0 where
  pub ups : ℕ
  pub names : List Bytes

-- ".." removes the name before it; at the front it stays, but above "/" there is nothing.
abbrev pub go_up : Bool → ℕ → List Bytes → Resolved
go_up rooted ups (x ∷ xs) = record { ups = ups; names = xs }
go_up rooted ups [] = record { ups = if rooted then ups else suc ups; names = [] }

abbrev pub step_kind : Bool → Resolved → Bytes → Kind → Resolved
step_kind rooted r s skip = r
step_kind rooted r s up = go_up rooted r.ups r.names
step_kind rooted r s name = record r { names = s ∷ r.names }

abbrev pub step : Bool → Resolved → Bytes → Resolved
step rooted r s = step_kind rooted r s (kind s)

unfoldable pub resolve : Bool → Resolved → List Bytes → Resolved
resolve rooted r [] = r
resolve rooted r (s ∷ ss) = resolve rooted (step rooted r s) ss

abbrev pub repeat_up : ℕ → List Bytes → List Bytes
repeat_up zero ss = ss
repeat_up (suc n) ss = dot_dot ∷ repeat_up n ss

abbrev pub is_abs : Bytes → Bool
is_abs [] = false
is_abs (c ∷ s) = c == slash

abbrev pub empty : Resolved
empty = record { ups = 0; names = [] }

-- the text of a resolved path: "." or "/" where nothing is left
abbrev pub render_relative : List Bytes → Bytes
render_relative [] = b'.' ∷ []
render_relative (s ∷ ss) = join (s ∷ ss)

unfoldable pub render : Bool → Resolved → Bytes
unfolding join
render true r = slash ∷ join (repeat_up r.ups (reverse r.names))
render false r = render_relative (repeat_up r.ups (reverse r.names))

-- path.Clean
unfoldable pub clean : Bytes → Bytes
unfolding split resolve render
clean p = render (is_abs p) (resolve (is_abs p) empty (split p))

-- strings.TrimPrefix(rel, "/")
abbrev pub trim_slash : Bytes → Bytes
trim_slash [] = []
trim_slash (c ∷ s) = if c == slash then s else c ∷ s

abbrev pub clean_unless_empty : Bytes → Bytes
clean_unless_empty [] = []
clean_unless_empty (c ∷ s) = clean (c ∷ s)

unfoldable pub clean_rel : Bytes → Bytes
unfolding clean
clean_rel rel = clean_unless_empty (trim_slash rel)

-- NormKey; `lower` is strings.ToLower.
unfoldable pub norm_key : (Bytes → Bytes) → Bytes → Bytes
unfolding clean_rel
norm_key lower rel = lower (clean_rel rel)

-- filepath.Join(a, b)
unfoldable pub join_path : Bytes → Bytes → Bytes
unfolding clean
join_path [] [] = []
join_path [] (c ∷ b) = clean (c ∷ b)
join_path (c ∷ a) b = clean ((c ∷ a) ++ slash ∷ b)

-- filepath.Abs, over the working directory; os.Getwd may fail
unfoldable pub abs : Option Bytes → Bytes → Option Bytes
unfolding join_path
abs cwd p =
    if is_abs p then some (clean p) else elim cwd [ none ↦ none | some d ↦ some (join_path d p) ]

pub data JoinError : Type 0 where
  empty_path : JoinError
  escapes : Bytes → JoinError
  no_cwd : JoinError

pub data Joined : Type 0 where
  ok : Bytes → Joined
  err : JoinError → Joined

-- strings.HasPrefix
abbrev pub has_prefix : Bytes → Bytes → Bool
has_prefix s [] = true
has_prefix [] (p ∷ ps) = false
has_prefix (c ∷ s) (p ∷ ps) = (c == p) && has_prefix s ps

-- the second test of SafeJoin, on the absolute paths of the root and of the result
abbrev pub within : Bytes → Bytes → Bool
within root_abs full_abs =
    bytes_eq full_abs root_abs || has_prefix full_abs (root_abs ++ slash ∷ [])

unfoldable pub check_full : Option Bytes → Bytes → Bytes → Bytes → Joined
unfolding abs bytes_eq
check_full cwd root rel full = elim (abs cwd root) [
  | none ↦ err no_cwd
  | some root_abs ↦ elim (abs cwd full) [
    | none ↦ err no_cwd
    | some full_abs ↦ if within root_abs full_abs then ok full else err (escapes rel)
  ]
]

-- the first test: "..", "../" or an absolute path
abbrev pub leaves_root : Bytes → Bool
leaves_root c = has_prefix c (b'.' ∷ b'.' ∷ slash ∷ []) || bytes_eq c dot_dot || is_abs c

unfoldable pub join_clean : Option Bytes → Bytes → Bytes → Bytes → Joined
unfolding check_full join_path bytes_eq
join_clean cwd root rel [] = err empty_path
join_clean cwd root rel (c ∷ s) =
    if leaves_root (c ∷ s)
    then err (escapes rel)
    else check_full cwd root rel (join_path root (c ∷ s))

unfoldable pub safe_join : Option Bytes → Bytes → Bytes → Joined
unfolding join_clean clean_rel
safe_join cwd root rel = join_clean cwd root rel (clean_rel rel)
