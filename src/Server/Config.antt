-- ===== src/Server/Config.antt =====
-- server.go: the server's settings. Durations are in nanoseconds.
use webhttp.Prelude.{ℕ, ◌*◌, List, [], ◌∷◌, Option, none, some}

abbrev second : ℕ
second = 1_000_000_000

abbrev pub default_read_header_timeout : ℕ
default_read_header_timeout = 10 * second

abbrev pub default_idle_timeout : ℕ
default_idle_timeout = 120 * second

-- 1 << 20
abbrev pub default_max_header_bytes : ℕ
default_max_header_bytes = 1_048_576

abbrev pub default_shutdown_grace : ℕ
default_shutdown_grace = 5 * second

-- the fields of http.Server that are set; `error_log` names a logger, `none` is the default one
pub record ServerSettings : Type 0 where
  pub read_timeout : ℕ
  pub write_timeout : ℕ
  pub idle_timeout : ℕ
  pub read_header_timeout : ℕ
  pub max_header_bytes : ℕ
  pub error_log : Option ℕ

pub data ServerOption : Type 0 where
  with_read_timeout with_write_timeout with_idle_timeout with_read_header_timeout
        with_max_header_bytes :
      ℕ → ServerOption
  with_error_log : Option ℕ → ServerOption

apply_option : ServerOption → ServerSettings → ServerSettings
apply_option (with_read_timeout d) s = record s { read_timeout = d }
apply_option (with_write_timeout d) s = record s { write_timeout = d }
apply_option (with_idle_timeout d) s = record s { idle_timeout = d }
apply_option (with_read_header_timeout d) s = record s { read_header_timeout = d }
apply_option (with_max_header_bytes n) s = record s { max_header_bytes = n }
apply_option (with_error_log l) s = record s { error_log = l }

apply_options : List (Option ServerOption) → ServerSettings → ServerSettings
unfolding apply_option
apply_options [] s = s
apply_options (none ∷ opts) s = apply_options opts s
apply_options (some o ∷ opts) s = apply_options opts (apply_option o s)

unfoldable pub new_server : List (Option ServerOption) → ServerSettings
unfolding apply_options
new_server opts = apply_options opts (record {
  read_timeout = 0;
  write_timeout = 0;
  idle_timeout = default_idle_timeout;
  read_header_timeout = default_read_header_timeout;
  max_header_bytes = default_max_header_bytes;
  error_log = none;
})
