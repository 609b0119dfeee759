-- ===== src/Config/Values.antt =====
-- internal/config/parse.go: the getter, which reads values out of the map and collects what is wrong
-- with them.
use Prim.Native.Nat.{zero, suc}
use backuper.Prelude.{
  ℕ, ◌+◌, ◌-◌, ◌*◌, ◌^◌, Bool, ◌&&◌, ◌||◌, Option, none, some, Bytes, utf8, bytes_eq, List, [], ◌∷◌,
  ◌++◌, length, take, drop, ltb, leb, ◌==◌, if◌then◌else◌,
}
use backuper.Prelude.Int.{ℤ, pos, negsuc}
use backuper.Config.{
  TextLibrary, Problem, missing, bad_number, bad_duration, bad_size, bad_perms, bad_tls,
}
use backuper.Config.Env.{Env, get_key, trim_prefix}

-- the digits of a number in a base up to ten, behind the number that was read
unfoldable pub digits : ℕ → Bytes → ℕ → Option ℕ
digits base [] n = some n
digits base (c ∷ s) n =
    let rest = digits base s (n * base + (c - b'0')) in
    if leb b'0' c && ltb c (b'0' + base) then rest else none

-- strconv.ParseUint without a sign, and with an error for a number that does not fit
unfoldable pub parse_uint : ℕ → ℕ → Bytes → Option ℕ
unfolding digits
parse_uint base limit [] = none
parse_uint base limit (c ∷ s) = elim (digits base (c ∷ s) 0) [
  | none ↦ none
  | some n ↦ (if ltb n limit then some n else none)
]

abbrev negated : Option ℕ → Option ℤ
negated none = none
negated (some zero) = some (pos 0)
negated (some (suc n)) = some (negsuc n)

abbrev positive : Option ℕ → Option ℤ
positive none = none
positive (some n) = some (pos n)

-- strconv.ParseInt(s, 10, 64), and strconv.Atoi where an int has 64 bits
unfoldable pub parse_int : Bytes → Option ℤ
unfolding parse_uint
parse_int [] = none
parse_int (c ∷ s) =
    if c == b'-'
    then negated (parse_uint 10 (2 ^ 63 + 1) s)
    else if c == b'+'
    then positive (parse_uint 10 (2 ^ 63) s)
    else positive (parse_uint 10 (2 ^ 63) (c ∷ s))

unfoldable pub has_suffix : Bytes → Bytes → Bool
has_suffix p s = leb (length p) (length s) && bytes_eq (drop (length s - length p) s) p

abbrev pub kib : ℕ
kib = 1024

-- the units of parseSize, in the order in which they are tried
abbrev pub units : List (Bytes × ℕ)
units =
    (utf8 "KIB", kib)
    ∷ (utf8 "MIB", kib * kib)
    ∷ (utf8 "GIB", kib * kib * kib)
    ∷ (utf8 "TIB", kib * kib * kib * kib)
    ∷ (utf8 "KB", 1000)
    ∷ (utf8 "MB", 1000 * 1000)
    ∷ (utf8 "GB", 1000 * 1000 * 1000)
    ∷ (utf8 "TB", 1000 * 1000 * 1000 * 1000)
    ∷ (utf8 "B", 1)
    ∷ []

-- The getter: a value, and the problems so far.
abbrev pub Get : Type 0 → Type 0
Get A = List Problem → A × List Problem

infixl 5 ◌>>=◌
unfoldable pub ◌>>=◌ : {A B : Type 0} → Get A → (A → Get B) → Get B
◌>>=◌ g f errs = let (a, errs') = g errs in f a errs'

unfoldable pub pure : {A : Type 0} → A → Get A
pure a errs = (a, errs)

abbrev or_problem : {A : Type 0} → Option A → A → Problem → Get A
or_problem none def e errs = (def, errs ++ e ∷ [])
or_problem (some a) def e errs = (a, errs)

module _ (lib : TextLibrary) where
  -- the first unit that is the text's suffix
  unfoldable pub size_in : List (Bytes × ℕ) → Bytes → Option ℤ
  unfolding has_suffix parse_int
  size_in [] upper = parse_int upper
  size_in ((suffix, mult) ∷ us) upper =
      let rest = size_in us upper in
      if has_suffix suffix upper
      then lib.parse_scaled (lib.trim_space (take (length upper - length suffix) upper)) mult
      else rest

  unfoldable pub parse_size : Bytes → Option ℤ
  unfolding size_in
  parse_size text =
      let s = lib.trim_space text in if bytes_eq s [] then none else size_in units (lib.to_upper s)

  abbrev nonempty : Bytes → List Bytes
  nonempty t = if bytes_eq t [] then [] else t ∷ []

  -- strings.Split at commas
  unfoldable pub split_commas : Bytes → List Bytes
  split_commas [] = [] ∷ []
  split_commas (c ∷ s) =
      let rest = split_commas s in
      if c == b',' then [] ∷ rest else elim rest [ [] ↦ (c ∷ []) ∷ [] | p ∷ ps ↦ (c ∷ p) ∷ ps ]

  unfoldable pub trim_parts : List Bytes → List Bytes
  trim_parts [] = []
  trim_parts (p ∷ ps) = nonempty (lib.trim_space p) ++ trim_parts ps

  unfoldable pub split_list : Bytes → List Bytes
  unfolding split_commas trim_parts
  split_list s = if bytes_eq (lib.trim_space s) [] then [] else trim_parts (split_commas s)

module _ (lib : TextLibrary) (m : Env) where
  abbrev nonempty_or : Option Bytes → Bytes → Bytes
  nonempty_or none def = def
  nonempty_or (some v) def = if bytes_eq v [] then def else v

  -- str
  unfoldable pub str_value : Bytes → Bytes → Bytes
  unfolding get_key
  str_value key def = nonempty_or (get_key key m) def

  unfoldable pub str : Bytes → Bytes → Get Bytes
  unfolding str_value
  str key def errs = (str_value key def, errs)

  abbrev text_of : Option Bytes → Bytes
  text_of none = []
  text_of (some v) = v

  unfoldable pub required : Bytes → Get Bytes
  unfolding get_key
  required key errs =
      let v = lib.trim_space (text_of (get_key key m)) in
      (v, if bytes_eq v [] then errs ++ missing key ∷ [] else errs)

  -- the default where the key is not set, or its value is refused with a problem
  unfoldable pub value_or :
      {A : Type 0} → (Bytes → Option A) → (Bytes → Bytes → Problem) → Bytes → A → Get A
  unfolding str_value
  value_or parse e key def =
      let v = str_value key [] in
      if bytes_eq v [] then (λ errs. (def, errs)) else or_problem (parse v) def (e key v)

  unfoldable pub intv : Bytes → ℤ → Get ℤ
  unfolding value_or parse_int
  intv = value_or parse_int bad_number

  unfoldable pub dur : Bytes → ℤ → Get ℤ
  unfolding value_or
  dur = value_or lib.parse_duration bad_duration

  unfoldable pub size : Bytes → ℤ → Get ℤ
  unfolding value_or parse_size
  size = value_or (parse_size lib) bad_size

  unfoldable pub parse_perms : Bytes → Option ℕ
  unfolding parse_uint trim_prefix
  parse_perms v = parse_uint 8 (2 ^ 32) (trim_prefix (utf8 "0o") v)

  unfoldable pub perms : Bytes → ℕ → Get ℕ
  unfolding value_or parse_perms
  perms = value_or parse_perms bad_perms

  -- the numbers of crypto/tls
  unfoldable pub tls_number : Bytes → Option ℕ
  tls_number t =
      if bytes_eq t (utf8 "1.0")
      then some 769
      else if bytes_eq t (utf8 "1.1")
      then some 770
      else if bytes_eq t (utf8 "1.2") || bytes_eq t []
      then some 771
      else if bytes_eq t (utf8 "1.3")
      then some 772
      else none

  unfoldable pub tls_version : Bytes → Get ℕ
  unfolding str_value tls_number
  tls_version key =
      let v = str_value key (utf8 "1.2") in
      or_problem (tls_number (lib.trim_space v)) 771 (bad_tls key v)
