-- ===== src/Config/Server.antt =====
-- internal/config/config.go: the server's configuration.
pub mod Places
pub mod Usable
use backuper.Prelude.{
  ℕ, ◌*◌, ◌^◌, Bool, true, false, not, ◌&&◌, ◌||◌, Option, none, some, Bytes, utf8, bytes_eq, List,
  [], ◌∷◌, ◌++◌, if◌then◌else◌,
}
use backuper.Prelude.Int.{ℤ, pos, ltb_ℤ}
use backuper.Config.{TextLibrary, Problem}
use backuper.Config.Env.{Env}
use backuper.Config.Values.{
  Get, ◌>>=◌, pure, str, required, intv, dur, size, perms, tls_version, split_list,
}
use backuper.Config.Shared.{
  Level, Location, parse_level, load_location, System, Complaint, too_small, above_frame,
  unknown_security, check_file, check_dir, complain_if, parse_complaints, Warning, same_passwords,
  password_warn, make_dirs,
}
use backuper.Config.Client.{seconds}

pub record ServerSettings : Type 0 where
  pub client_host : Bytes
  pub client_port : ℤ
  pub tls_cert_file : Bytes
  pub tls_key_file : Bytes
  pub tls_ca_file : Bytes
  pub tls_min_version : ℕ
  pub own_password : Bytes
  pub peer_password : Bytes
  pub storage_dir : Bytes
  pub trash_dir : Bytes
  pub temp_dir : Bytes
  pub trash_retention_days : ℤ
  pub trash_cleanup_interval : ℤ
  pub sync_interval : ℤ
  pub sync_max_passes : ℤ
  pub parallel_transfers : ℤ
  pub bandwidth_limit : ℤ
  pub chunk_size : ℤ
  pub max_frame_bytes : ℤ
  pub list_batch_size : ℤ
  pub delta_min_size : ℤ
  pub delta_block_size : ℤ
  pub retry_count : ℤ
  pub retry_delay : ℤ
  pub mtime_tolerance : ℤ
  pub connect_timeout : ℤ
  pub io_timeout : ℤ
  pub healthcheck_interval : ℤ
  pub save_file_perms : ℕ
  pub save_dir_perms : ℕ
  pub alert_mass_delete_threshold : ℤ
  pub disk_alert_threshold : ℤ
  pub alert_aggregation_window : ℤ
  pub smtp_host : Bytes
  pub smtp_port : ℤ
  pub smtp_user : Bytes
  pub smtp_password : Bytes
  pub smtp_from : Bytes
  pub smtp_to : List Bytes
  pub smtp_security : Bytes
  pub log_level : Level
  pub log_dir : Bytes
  pub log_max_size : ℤ
  pub log_max_files : ℤ
  pub log_max_age : ℤ
  pub log_format : Bytes
  pub audit_log : Bytes
  pub state_db : Bytes
  pub lock_file : Bytes
  pub location : Location
  pub parse_problems : List Problem

module _ (lib : TextLibrary) (m : Env) where
  -- the fields in the order in which they are read; the problems are filled in at the end
  unfoldable pub read_server : Get ServerSettings
  unfolding ◌>>=◌ str required intv dur size perms tls_version parse_level load_location pure
  read_server = do
    client_host ← required lib m (utf8 "CLIENT_HOST")
    client_port ← intv lib m (utf8 "CLIENT_PORT") (pos 9000)
    tls_cert_file ← required lib m (utf8 "TLS_CERT_FILE")
    tls_key_file ← required lib m (utf8 "TLS_KEY_FILE")
    tls_ca_file ← required lib m (utf8 "TLS_CA_FILE")
    tls_min_version ← tls_version lib m (utf8 "TLS_MIN_VERSION")
    own_password ← required lib m (utf8 "OWN_PASSWORD")
    peer_password ← required lib m (utf8 "PEER_PASSWORD")
    storage_dir ← required lib m (utf8 "STORAGE_DIR")
    trash_dir ← required lib m (utf8 "TRASH_DIR")
    temp_dir ← required lib m (utf8 "TEMP_DIR")
    trash_retention_days ← intv lib m (utf8 "TRASH_RETENTION_DAYS") (pos 10)
    trash_cleanup_interval ← dur lib m (utf8 "TRASH_CLEANUP_INTERVAL") (seconds 86400)
    sync_interval ← dur lib m (utf8 "SYNC_INTERVAL") (seconds 3600)
    sync_max_passes ← intv lib m (utf8 "SYNC_MAX_PASSES") (pos 3)
    parallel_transfers ← intv lib m (utf8 "PARALLEL_TRANSFERS") (pos 4)
    bandwidth_limit ← size lib m (utf8 "BANDWIDTH_LIMIT") (pos 0)
    chunk_size ← size lib m (utf8 "CHUNK_SIZE") (pos (2 ^ 20))
    max_frame_bytes ← size lib m (utf8 "MAX_FRAME_BYTES") (pos (16 * 2 ^ 20))
    list_batch_size ← intv lib m (utf8 "LIST_BATCH_SIZE") (pos 10000)
    delta_min_size ← size lib m (utf8 "DELTA_MIN_SIZE") (pos (2 ^ 20))
    delta_block_size ← size lib m (utf8 "DELTA_BLOCK_SIZE") (pos (2 ^ 20))
    retry_count ← intv lib m (utf8 "RETRY_COUNT") (pos 3)
    retry_delay ← dur lib m (utf8 "RETRY_DELAY") (seconds 60)
    mtime_tolerance ← dur lib m (utf8 "MTIME_TOLERANCE") (seconds 2)
    connect_timeout ← dur lib m (utf8 "CONNECT_TIMEOUT") (seconds 30)
    io_timeout ← dur lib m (utf8 "IO_TIMEOUT") (seconds 60)
    healthcheck_interval ← dur lib m (utf8 "HEALTHCHECK_INTERVAL") (seconds 30)
    save_file_perms ← perms lib m (utf8 "SAVE_FILE_PERMS") 438
    save_dir_perms ← perms lib m (utf8 "SAVE_DIR_PERMS") 511
    alert_mass_delete_threshold ← intv lib m (utf8 "ALERT_MASS_DELETE_THRESHOLD") (pos 100)
    disk_alert_threshold ← intv lib m (utf8 "DISK_ALERT_THRESHOLD") (pos 90)
    alert_aggregation_window ← dur lib m (utf8 "ALERT_AGGREGATION_WINDOW") (seconds 60)
    smtp_host ← required lib m (utf8 "SMTP_HOST")
    smtp_port ← intv lib m (utf8 "SMTP_PORT") (pos 587)
    smtp_user ← str lib m (utf8 "SMTP_USER") []
    smtp_password ← str lib m (utf8 "SMTP_PASSWORD") []
    smtp_from ← required lib m (utf8 "SMTP_FROM")
    smtp_to ← required lib m (utf8 "SMTP_TO")
    smtp_security ← str lib m (utf8 "SMTP_SECURITY") (utf8 "starttls")
    log_level ← parse_level lib m (utf8 "LOG_LEVEL")
    log_dir ← str lib m (utf8 "LOG_DIR") []
    log_max_size ← intv lib m (utf8 "LOG_MAX_SIZE") (pos 100)
    log_max_files ← intv lib m (utf8 "LOG_MAX_FILES") (pos 7)
    log_max_age ← intv lib m (utf8 "LOG_MAX_AGE") (pos 0)
    log_format ← str lib m (utf8 "LOG_FORMAT") (utf8 "text")
    audit_log ← str lib m (utf8 "AUDIT_LOG") []
    state_db ← str lib m (utf8 "STATE_DB") (utf8 "/var/lib/backuper/state.db")
    lock_file ← str lib m (utf8 "LOCK_FILE") (utf8 "/var/run/backuper.lock")
    timezone ← str lib m (utf8 "TIMEZONE") (utf8 "Europe/Moscow")
    location ← load_location lib m timezone
    pure (record {
      client_host = client_host;
      client_port = client_port;
      tls_cert_file = tls_cert_file;
      tls_key_file = tls_key_file;
      tls_ca_file = tls_ca_file;
      tls_min_version = tls_min_version;
      own_password = own_password;
      peer_password = peer_password;
      storage_dir = storage_dir;
      trash_dir = trash_dir;
      temp_dir = temp_dir;
      trash_retention_days = trash_retention_days;
      trash_cleanup_interval = trash_cleanup_interval;
      sync_interval = sync_interval;
      sync_max_passes = sync_max_passes;
      parallel_transfers = parallel_transfers;
      bandwidth_limit = bandwidth_limit;
      chunk_size = chunk_size;
      max_frame_bytes = max_frame_bytes;
      list_batch_size = list_batch_size;
      delta_min_size = delta_min_size;
      delta_block_size = delta_block_size;
      retry_count = retry_count;
      retry_delay = retry_delay;
      mtime_tolerance = mtime_tolerance;
      connect_timeout = connect_timeout;
      io_timeout = io_timeout;
      healthcheck_interval = healthcheck_interval;
      save_file_perms = save_file_perms;
      save_dir_perms = save_dir_perms;
      alert_mass_delete_threshold = alert_mass_delete_threshold;
      disk_alert_threshold = disk_alert_threshold;
      alert_aggregation_window = alert_aggregation_window;
      smtp_host = smtp_host;
      smtp_port = smtp_port;
      smtp_user = smtp_user;
      smtp_password = smtp_password;
      smtp_from = smtp_from;
      smtp_to = split_list lib smtp_to;
      smtp_security = lib.to_lower smtp_security;
      log_level = log_level;
      log_dir = log_dir;
      log_max_size = log_max_size;
      log_max_files = log_max_files;
      log_max_age = log_max_age;
      log_format = lib.to_lower log_format;
      audit_log = audit_log;
      state_db = state_db;
      lock_file = lock_file;
      location = location;
      parse_problems = [];
    })

  unfoldable pub load_server : ServerSettings
  unfolding read_server
  load_server = let (c, errs) = read_server [] in record c { parse_problems = errs }

-- what is required of the blocks of a delta, where deltas are on
unfoldable pub check_delta : ServerSettings → List Complaint
unfolding complain_if
check_delta c =
    if ltb_ℤ (pos 0) c.delta_min_size
    then (if ltb_ℤ c.delta_block_size (pos 1)
        then too_small (utf8 "DELTA_BLOCK_SIZE") ∷ []
        else complain_if (ltb_ℤ c.max_frame_bytes c.delta_block_size)
            (above_frame (utf8 "DELTA_BLOCK_SIZE")))
    else []

unfoldable pub knows_security : Bytes → Bool
knows_security s =
    bytes_eq s (utf8 "none") || (bytes_eq s (utf8 "starttls") || bytes_eq s (utf8 "tls"))

-- the checks of numbers and of SMTP_SECURITY
unfoldable pub check_numbers : ServerSettings → List Complaint
unfolding complain_if check_delta knows_security
check_numbers c =
    complain_if (ltb_ℤ c.parallel_transfers (pos 1)) (too_small (utf8 "PARALLEL_TRANSFERS"))
    ++ (complain_if (ltb_ℤ c.sync_max_passes (pos 1)) (too_small (utf8 "SYNC_MAX_PASSES"))
        ++ (complain_if (ltb_ℤ c.chunk_size (pos 1)) (too_small (utf8 "CHUNK_SIZE"))
            ++ (complain_if (ltb_ℤ c.max_frame_bytes c.chunk_size) (above_frame (utf8 "CHUNK_SIZE"))
                ++ (check_delta c
                    ++ (complain_if (ltb_ℤ c.retry_count (pos 1)) (too_small (utf8 "RETRY_COUNT"))
                        ++ complain_if (not (knows_security c.smtp_security))
                            (unknown_security c.smtp_security))))))

-- the checks of files and directories
unfoldable pub check_paths : System → ServerSettings → List Complaint
unfolding check_file check_dir
check_paths sys c =
    check_file sys (utf8 "TLS_CERT_FILE") c.tls_cert_file
    ++ (check_file sys (utf8 "TLS_KEY_FILE") c.tls_key_file
        ++ (check_file sys (utf8 "TLS_CA_FILE") c.tls_ca_file
            ++ (check_dir sys (utf8 "STORAGE_DIR") c.storage_dir
                ++ (check_dir sys (utf8 "TRASH_DIR") c.trash_dir
                    ++ (check_dir sys (utf8 "TEMP_DIR") c.temp_dir
                        ++ (check_dir sys (utf8 "STATE_DB(dir)") (sys.parent c.state_db)
                            ++ check_dir sys (utf8 "LOG_DIR") c.log_dir))))))

unfoldable pub validate_server : System → ServerSettings → List Complaint
unfolding parse_complaints check_paths check_numbers
validate_server sys c = parse_complaints c.parse_problems ++ (check_paths sys c ++ check_numbers c)

-- the directories of EnsureDirs
unfoldable pub server_dirs : System → ServerSettings → List Bytes
server_dirs sys c =
    c.storage_dir
    ∷ c.trash_dir
    ∷ c.temp_dir
    ∷ sys.parent c.state_db
    ∷ ((if bytes_eq c.log_dir [] then [] else c.log_dir ∷ [])
        ++ ((if bytes_eq c.audit_log [] then [] else sys.parent c.audit_log ∷ [])
            ++ (if bytes_eq c.lock_file [] then [] else sys.parent c.lock_file ∷ [])))

unfoldable pub ensure_server_dirs :
    System → (Bytes → Option Bytes) → ServerSettings → List Bytes × Option Bytes
unfolding server_dirs make_dirs
ensure_server_dirs sys refuses c = make_dirs refuses (server_dirs sys c)

unfoldable pub server_warnings : ServerSettings → List Warning
unfolding password_warn
server_warnings c =
    password_warn (utf8 "OWN_PASSWORD") c.own_password
    ++ (password_warn (utf8 "PEER_PASSWORD") c.peer_password
        ++ (if not (bytes_eq c.own_password []) && bytes_eq c.own_password c.peer_password
            then same_passwords ∷ []
            else []))
