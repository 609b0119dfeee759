-- ===== src/Config/Shared.antt =====
-- internal/config/config.go: what both configurations share, the time zone, the level of the log and
-- the checks of files and directories. internal/logx/logx.go: ParseLevel.
use backuper.Prelude.{
  ℕ, ◌+◌, Bool, true, false, ◌&&◌, ◌||◌, Option, none, some, Bytes, utf8, bytes_eq, List, [], ◌∷◌,
  ◌++◌, ltb, leb, if◌then◌else◌,
}
use backuper.Config.{TextLibrary, Problem, bad_level, bad_timezone}
use backuper.Config.Env.{Env, has_prefix}
use backuper.Config.Values.{Get, str_value}

pub data Level : Type 0 where
  level_debug level_info level_warn level_error : Level

pub record Location : Type 0 where
  pub name : Bytes
  pub is_utc : Bool

module _ (lib : TextLibrary) (m : Env) where
  unfoldable pub parse_level_text : Bytes → Option Level
  parse_level_text s =
      let t = lib.to_upper (lib.trim_space s) in
      if bytes_eq t [] || bytes_eq t (utf8 "INFO")
      then some level_info
      else if bytes_eq t (utf8 "DEBUG")
      then some level_debug
      else if bytes_eq t (utf8 "WARN") || bytes_eq t (utf8 "WARNING")
      then some level_warn
      else if bytes_eq t (utf8 "ERROR")
      then some level_error
      else none

  abbrev level_or : Option Level → Problem → Get Level
  level_or none e errs = (level_info, errs ++ e ∷ [])
  level_or (some l) e errs = (l, errs)

  unfoldable pub parse_level : Bytes → Get Level
  unfolding parse_level_text str_value
  parse_level key =
      let v = str_value lib m key (utf8 "INFO") in level_or (parse_level_text v) (bad_level key v)

  -- an unknown zone stands for UTC
  unfoldable pub load_location : Bytes → Get Location
  load_location name errs =
      let known = if bytes_eq name [] then utf8 "Europe/Moscow" else name in
      if lib.has_location known then (record { name = known; is_utc = false }, errs) else (
        record { name = known; is_utc = true },
        errs ++ bad_timezone (utf8 "TIMEZONE") known ∷ [],
      )

-- What os.Stat says of a path: a directory, a file, nothing, or another error.
pub data PathState : Type 0 where
  a_directory a_file absent : PathState
  unknown : Bytes → PathState

-- The system's answers: os.Open of a file that is closed again, os.Stat, filepath.Dir.
pub record System : Type 0 where
  pub open_error : Bytes → Option Bytes
  pub stat : Bytes → PathState
  pub parent : Bytes → Bytes

-- What Validate reports.
pub data Complaint : Type 0 where
  parsing : Problem → Complaint
  unreadable : Bytes → Bytes → Complaint
  not_directory no_parent : Bytes → Bytes → Complaint
  stat_error : Bytes → Bytes → Complaint
  too_small : Bytes → Complaint
  above_frame : Bytes → Complaint
  unknown_security : Bytes → Complaint

module _ (sys : System) where
  abbrev pub unreadable_by : Bytes → Option Bytes → List Complaint
  unreadable_by name none = []
  unreadable_by name (some t) = unreadable name t ∷ []

  -- fileReadable, where a path is given
  unfoldable pub check_file : Bytes → Bytes → List Complaint
  check_file name path = if bytes_eq path [] then [] else unreadable_by name (sys.open_error path)

  abbrev pub parent_state : Bytes → Bytes → PathState → List Complaint
  parent_state name dir a_directory = []
  parent_state name dir a_file = []
  parent_state name dir absent = no_parent name dir ∷ []
  parent_state name dir (unknown t) = no_parent name dir ∷ []

  abbrev pub dir_state : Bytes → Bytes → PathState → List Complaint
  dir_state name dir a_directory = []
  dir_state name dir a_file = not_directory name dir ∷ []
  dir_state name dir absent = parent_state name dir (sys.stat (sys.parent dir))
  dir_state name dir (unknown t) = stat_error name t ∷ []

  -- dirUsable, where a path is given
  unfoldable pub check_dir : Bytes → Bytes → List Complaint
  check_dir name dir = if bytes_eq dir [] then [] else dir_state name dir (sys.stat dir)

-- `if test { probs = append(probs, c) }`
unfoldable pub complain_if : Bool → Complaint → List Complaint
complain_if test c = if test then c ∷ [] else []

unfoldable pub parse_complaints : List Problem → List Complaint
parse_complaints [] = []
parse_complaints (p ∷ ps) = parsing p ∷ parse_complaints ps

-- strings.Contains
unfoldable pub contains : Bytes → Bytes → Bool
unfolding has_prefix
contains p [] = has_prefix p []
contains p (c ∷ s) = if has_prefix p (c ∷ s) then true else contains p s

-- `len([]rune(s))` of UTF-8: every byte but the continuation bytes begins a code point
unfoldable pub count_runes : Bytes → ℕ
count_runes [] = 0
count_runes (c ∷ s) = (if leb 128 c && ltb c 192 then 0 else 1) + count_runes s

pub data Warning : Type 0 where
  placeholder too_short : Bytes → Warning
  same_passwords : Warning

unfoldable pub password_warn : Bytes → Bytes → List Warning
unfolding contains count_runes
password_warn name pw =
    if contains (utf8 "ЗАМЕНИТЕ") pw || contains (utf8 "ЗАМЕНИ") pw
    then placeholder name ∷ []
    else if ltb (count_runes pw) 24
    then too_short name ∷ []
    else []

-- the loop of EnsureDirs: the directories that MkdirAll is asked for, up to the first that it refuses
unfoldable pub make_dirs : (Bytes → Option Bytes) → List Bytes → List Bytes × Option Bytes
make_dirs refuses [] = ([], none)
make_dirs refuses (d ∷ dirs) =
    let rest = make_dirs refuses dirs in
    if bytes_eq d [] || bytes_eq d (utf8 ".")
    then rest
    else elim (refuses d) [ some t ↦ (d ∷ [], some t) | none ↦ (d ∷ rest.0, rest.1) ]
