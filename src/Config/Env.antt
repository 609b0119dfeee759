-- ===== src/Config/Env.antt =====
-- internal/config/parse.go: loadEnvFile, which reads KEY=VALUE lines, and the map that it fills.
pub mod Laws
use backuper.Prelude.{
  ℕ, Bool, true, false, not, ◌&&◌, ◌||◌, Option, none, some, Bytes, utf8, bytes_eq, List, [], ◌∷◌,
  ◌++◌, length, take, drop, ◌==◌, if◌then◌else◌,
}
use backuper.Config.{TextLibrary}

-- A map of strings: the key that was set last stands for all, so an entry is overwritten in place.
abbrev pub Env : Type 0
Env = List (Bytes × Bytes)

unfoldable pub set_key : Bytes → Bytes → Env → Env
set_key k v [] = (k, v) ∷ []
set_key k v ((k', v') ∷ m) = if bytes_eq k' k then (k, v) ∷ m else (k', v') ∷ set_key k v m

unfoldable pub get_key : Bytes → Env → Option Bytes
get_key k [] = none
get_key k ((k', v') ∷ m) = if bytes_eq k' k then some v' else get_key k m

-- the three bytes of the byte order mark
abbrev bom : Bytes
bom = 239 ∷ 187 ∷ 191 ∷ []

unfoldable pub has_prefix : Bytes → Bytes → Bool
has_prefix [] s = true
has_prefix (a ∷ p) [] = false
has_prefix (a ∷ p) (b ∷ s) = (a == b) && has_prefix p s

-- strings.TrimPrefix
unfoldable pub trim_prefix : Bytes → Bytes → Bytes
unfolding has_prefix
trim_prefix p s = if has_prefix p s then drop (length p) s else s

-- What stands before the first "=" and behind it, if there is one.
unfoldable pub cut_equals : Bytes → Option (Bytes × Bytes)
cut_equals [] = none
cut_equals (c ∷ s) =
    let rest = cut_equals s in
    if c == b'=' then some ([], s) else elim rest [ none ↦ none | some kv ↦ some (c ∷ kv.0, kv.1) ]

abbrev is_quote : ℕ → Bool
is_quote c = (c == b'"') || (c == b'\'')

unfoldable pub trim_left_quotes : Bytes → Bytes
trim_left_quotes [] = []
trim_left_quotes (c ∷ s) = let rest = trim_left_quotes s in if is_quote c then rest else c ∷ s

unfoldable pub trim_right_quotes : Bytes → Bytes
trim_right_quotes [] = []
trim_right_quotes (c ∷ s) =
    let rest = trim_right_quotes s in
    elim rest [ [] ↦ (if is_quote c then [] else c ∷ []) | d ∷ r ↦ c ∷ d ∷ r ]

-- strings.Trim with the two quotes
unfoldable pub trim_quotes : Bytes → Bytes
unfolding trim_left_quotes trim_right_quotes
trim_quotes s = trim_right_quotes (trim_left_quotes s)

module _ (lib : TextLibrary) where
  -- a line with the key and the value, if it has them
  unfoldable pub parse_line : Bytes → Option (Bytes × Bytes)
  unfolding trim_prefix has_prefix cut_equals trim_quotes
  parse_line text =
      let line = lib.trim_space (trim_prefix bom text) in
      if bytes_eq line [] || has_prefix (utf8 "#") line then none else elim (cut_equals line) [
        | none ↦ none
        | some kv ↦ some (lib.trim_space kv.0, trim_quotes (lib.trim_space kv.1))
      ]

  abbrev pub set_line : Option (Bytes × Bytes) → Env → Env
  set_line none m = m
  set_line (some (k, v)) m = set_key k v m

  -- the loop over the lines
  unfoldable pub parse_lines : List Bytes → Env → Env
  unfolding parse_line set_key
  parse_lines [] m = m
  parse_lines (line ∷ lines) m = parse_lines lines (set_line (parse_line line) m)

-- `if _, ok := m[k]; ok { m[k] = v }`
unfoldable pub override : Bytes → Bytes → Env → Env
unfolding get_key set_key
override k v m = elim (get_key k m) [ none ↦ m | some old ↦ set_key k v m ]

abbrev pub override_by : Option (Bytes × Bytes) → Env → Env
override_by none m = m
override_by (some (k, v)) m = if bytes_eq k [] then m else override k v m

-- a variable of the process overrides a key of the file; one with an empty name is passed over
unfoldable pub override_all : List Bytes → Env → Env
unfolding cut_equals override
override_all [] m = m
override_all (kv ∷ environ) m = override_all environ (override_by (cut_equals kv) m)

-- loadEnvFile: `lines` is none where the file cannot be opened or read, `environ` is os.Environ.
unfoldable pub load_env_file : TextLibrary → Option (List Bytes) → List Bytes → Option Env
unfolding parse_lines override_all
load_env_file lib none environ = none
load_env_file lib (some lines) environ = some (override_all environ (parse_lines lib lines []))
