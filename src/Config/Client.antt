-- ===== src/Config/Client.antt =====
-- internal/config/config.go: the client's configuration.
use backuper.Prelude.{
  ℕ, ◌*◌, ◌^◌, Option, Bytes, utf8, bytes_eq, List, [], ◌∷◌, ◌++◌, if◌then◌else◌,
}
use backuper.Prelude.Int.{ℤ, pos, ltb_ℤ}
use backuper.Config.{TextLibrary, Problem}
use backuper.Config.Env.{Env}
use backuper.Config.Values.{
  Get, ◌>>=◌, pure, str, required, intv, dur, size, perms, tls_version, split_list,
}
use backuper.Config.Shared.{
  Level, Location, parse_level, load_location, PathState, a_directory, a_file, absent, unknown,
  System, Complaint, not_directory, stat_error, too_small, above_frame, check_file, check_dir,
  complain_if, parse_complaints, Warning, password_warn, make_dirs,
}

pub record ClientSettings : Type 0 where
  pub listen_host : Bytes
  pub listen_port : ℤ
  pub tls_cert_file : Bytes
  pub tls_key_file : Bytes
  pub tls_ca_file : Bytes
  pub tls_min_version : ℕ
  pub own_password : Bytes
  pub peer_password : Bytes
  pub backup_dir : Bytes
  pub include_patterns : List Bytes
  pub exclude_patterns : List Bytes
  pub bandwidth_limit : ℤ
  pub chunk_size : ℤ
  pub max_frame_bytes : ℤ
  pub io_timeout : ℤ
  pub max_connections : ℤ
  pub save_file_perms : ℕ
  pub save_dir_perms : ℕ
  pub log_level : Level
  pub log_dir : Bytes
  pub log_max_size : ℤ
  pub log_max_files : ℤ
  pub log_max_age : ℤ
  pub log_format : Bytes
  pub audit_log : Bytes
  pub location : Location
  pub parse_problems : List Problem

abbrev pub seconds : ℕ → ℤ
seconds n = pos (n * 1000000000)

module _ (lib : TextLibrary) (m : Env) where
  -- the fields in the order in which they are read; the problems are filled in at the end
  unfoldable pub read_client : Get ClientSettings
  unfolding ◌>>=◌ str required intv dur size perms tls_version parse_level load_location pure
  read_client = do
    listen_host ← str lib m (utf8 "LISTEN_HOST") (utf8 "0.0.0.0")
    listen_port ← intv lib m (utf8 "LISTEN_PORT") (pos 9000)
    tls_cert_file ← required lib m (utf8 "TLS_CERT_FILE")
    tls_key_file ← required lib m (utf8 "TLS_KEY_FILE")
    tls_ca_file ← required lib m (utf8 "TLS_CA_FILE")
    tls_min_version ← tls_version lib m (utf8 "TLS_MIN_VERSION")
    own_password ← required lib m (utf8 "OWN_PASSWORD")
    peer_password ← required lib m (utf8 "PEER_PASSWORD")
    backup_dir ← required lib m (utf8 "BACKUP_DIR")
    include_patterns ← str lib m (utf8 "INCLUDE_PATTERNS") []
    exclude_patterns ← str lib m (utf8 "EXCLUDE_PATTERNS") []
    bandwidth_limit ← size lib m (utf8 "BANDWIDTH_LIMIT") (pos 0)
    chunk_size ← size lib m (utf8 "CHUNK_SIZE") (pos (2 ^ 20))
    max_frame_bytes ← size lib m (utf8 "MAX_FRAME_BYTES") (pos (16 * 2 ^ 20))
    io_timeout ← dur lib m (utf8 "IO_TIMEOUT") (seconds 60)
    max_connections ← intv lib m (utf8 "MAX_CONNECTIONS") (pos 8)
    save_file_perms ← perms lib m (utf8 "SAVE_FILE_PERMS") 438
    save_dir_perms ← perms lib m (utf8 "SAVE_DIR_PERMS") 511
    log_level ← parse_level lib m (utf8 "LOG_LEVEL")
    log_dir ← str lib m (utf8 "LOG_DIR") []
    log_max_size ← intv lib m (utf8 "LOG_MAX_SIZE") (pos 100)
    log_max_files ← intv lib m (utf8 "LOG_MAX_FILES") (pos 7)
    log_max_age ← intv lib m (utf8 "LOG_MAX_AGE") (pos 0)
    log_format ← str lib m (utf8 "LOG_FORMAT") (utf8 "text")
    audit_log ← str lib m (utf8 "AUDIT_LOG") []
    timezone ← str lib m (utf8 "TIMEZONE") (utf8 "Europe/Moscow")
    location ← load_location lib m timezone
    pure (record {
      listen_host = listen_host;
      listen_port = listen_port;
      tls_cert_file = tls_cert_file;
      tls_key_file = tls_key_file;
      tls_ca_file = tls_ca_file;
      tls_min_version = tls_min_version;
      own_password = own_password;
      peer_password = peer_password;
      backup_dir = backup_dir;
      include_patterns = split_list lib include_patterns;
      exclude_patterns = split_list lib exclude_patterns;
      bandwidth_limit = bandwidth_limit;
      chunk_size = chunk_size;
      max_frame_bytes = max_frame_bytes;
      io_timeout = io_timeout;
      max_connections = max_connections;
      save_file_perms = save_file_perms;
      save_dir_perms = save_dir_perms;
      log_level = log_level;
      log_dir = log_dir;
      log_max_size = log_max_size;
      log_max_files = log_max_files;
      log_max_age = log_max_age;
      log_format = lib.to_lower log_format;
      audit_log = audit_log;
      location = location;
      parse_problems = [];
    })

  unfoldable pub load_client : ClientSettings
  unfolding read_client
  load_client = let (c, errs) = read_client [] in record c { parse_problems = errs }

module _ (sys : System) where
  abbrev backup_dir_state : PathState → List Complaint
  backup_dir_state a_directory = []
  backup_dir_state a_file = not_directory (utf8 "BACKUP_DIR") [] ∷ []
  backup_dir_state absent = stat_error (utf8 "BACKUP_DIR") [] ∷ []
  backup_dir_state (unknown t) = stat_error (utf8 "BACKUP_DIR") t ∷ []

  unfoldable pub check_backup_dir : Bytes → List Complaint
  check_backup_dir dir = if bytes_eq dir [] then [] else backup_dir_state (sys.stat dir)

  unfoldable pub validate_client : ClientSettings → List Complaint
  unfolding parse_complaints check_file check_backup_dir check_dir complain_if
  validate_client c =
      parse_complaints c.parse_problems
      ++ (check_file sys (utf8 "TLS_CERT_FILE") c.tls_cert_file
          ++ (check_file sys (utf8 "TLS_KEY_FILE") c.tls_key_file
              ++ (check_file sys (utf8 "TLS_CA_FILE") c.tls_ca_file
                  ++ (check_backup_dir c.backup_dir
                      ++ (check_dir sys (utf8 "LOG_DIR") c.log_dir
                          ++ (complain_if (ltb_ℤ c.max_connections (pos 1))
                                (too_small (utf8 "MAX_CONNECTIONS"))
                              ++ (complain_if (ltb_ℤ c.chunk_size (pos 1))
                                    (too_small (utf8 "CHUNK_SIZE"))
                                  ++ complain_if (ltb_ℤ c.max_frame_bytes c.chunk_size)
                                      (above_frame (utf8 "CHUNK_SIZE")))))))))

-- the directories of EnsureDirs
unfoldable pub client_dirs : System → ClientSettings → List Bytes
client_dirs sys c =
    (if bytes_eq c.log_dir [] then [] else c.log_dir ∷ [])
    ++ (if bytes_eq c.audit_log [] then [] else sys.parent c.audit_log ∷ [])

unfoldable pub ensure_client_dirs :
    System → (Bytes → Option Bytes) → ClientSettings → List Bytes × Option Bytes
unfolding client_dirs make_dirs
ensure_client_dirs sys refuses c = make_dirs refuses (client_dirs sys c)

unfoldable pub client_warnings : ClientSettings → List Warning
unfolding password_warn
client_warnings c =
    password_warn (utf8 "OWN_PASSWORD") c.own_password
    ++ password_warn (utf8 "PEER_PASSWORD") c.peer_password
