-- ===== src/Config/Tests.antt =====
-- A small .env file, and the server's configuration of it.
use backuper.Prelude.{◌≡◌, refl, true, none, some, Bytes, utf8, bytes_eq, List, [], ◌∷◌, map}
use backuper.Prelude.Int.{negsuc}
use backuper.Config.{TextLibrary}
use backuper.Config.Env.{Env, get_key, parse_line, has_prefix, trim_quotes, load_env_file}
use backuper.Config.Env.Laws.{
  overlay, last_value, variable, assignment, IsPlain, load_env_file_values,
}
use backuper.Config.Values.{parse_int, split_list}
use backuper.Config.Shared.{System, a_directory}
use backuper.Config.Server.{ServerSettings, load_server}

-- A library for texts without blanks and in capitals.
abbrev library : TextLibrary
library = record {
  trim_space = λ s. s;
  to_upper = λ s. s;
  to_lower = λ s. s;
  parse_duration = λ s. none;
  parse_scaled = λ s m. none;
  has_location = λ s. true;
}

abbrev system : System
system = record { open_error = λ p. none; stat = λ p. a_directory; parent = λ p. p }

abbrev key : Bytes
key = utf8 "RETRY_COUNT"

key-IsPlain : IsPlain library key (utf8 "5")
unfolding bytes_eq has_prefix trim_quotes
key-IsPlain = record {
  some_text = refl;
  no_mark = refl;
  no_comment = refl;
  no_equals =
      (refl, (refl, (refl, (refl, (refl, (refl, (refl, (refl, (refl, (refl, (refl, tt)))))))))));
  trimmed = refl;
  trimmed_key = refl;
  trimmed_value = refl;
  no_quotes = refl;
}

-- a file that sets the key twice, and an environment that sets it once
abbrev env_lines : List Bytes
env_lines = utf8 "RETRY_COUNT=3" ∷ utf8 "RETRY_COUNT=5" ∷ []

abbrev environment : List Bytes
environment = utf8 "RETRY_COUNT=7" ∷ utf8 "HOME=/" ∷ []

load_env_file_values_example :
    ((m : Env) × (load_env_file library (some env_lines) environment ≡ some m)
      × (get_key key m
          ≡ overlay
              (last_value key (map variable environment))
              (last_value key (map (parse_line library) env_lines))))
    × ((parse_line library (assignment key (utf8 "5")) ≡ some (key, utf8 "5"))
        × ((variable (assignment key (utf8 "5")) ≡ some (key, utf8 "5"))
            × (load_env_file library none environment ≡ none)))
load_env_file_values_example =
    load_env_file_values library env_lines environment key key (utf8 "5") key-IsPlain
      (unfold bytes_eq in refl)

minus-parse_int : parse_int (utf8 "-12") ≡ some (negsuc 11)
unfolding parse_int
minus-parse_int = refl

too_large-parse_int : parse_int (utf8 "9223372036854775808") ≡ none
unfolding parse_int
too_large-parse_int = refl

masks-split_list : split_list library (utf8 "*.tmp,,*.bak") ≡ utf8 "*.tmp" ∷ utf8 "*.bak" ∷ []
unfolding split_list bytes_eq
masks-split_list = refl

-- the settings of an empty file: the defaults, and a problem for each key that is required
abbrev settings : ServerSettings
settings = load_server library []
