-- ===== src/Config.antt =====
-- src/config.rs: the session's settings, their check, and the builder. A `Duration` is its number
-- of nanoseconds; a `u8` or `usize` is a number.
pub mod Valid
use smux.Base.{ℕ, ◌*◌, ◌^◌, ◌<◌, Bool, true, ◌&&◌, ltb, leb, ◌==◌, if◌then◌else◌}
use smux.Error.{Result, ok, err, SmuxError, ◌>>=◌, ◌>>◌}

abbrev pub from_secs : ℕ → ℕ
from_secs s = s * 1_000_000_000

pub record Config : Type 0 where
  pub version : ℕ
  pub keep_alive_interval : ℕ
  pub keep_alive_timeout : ℕ
  pub max_frame_size : ℕ
  pub max_receive_buffer : ℕ
  pub max_receive_channel_buffer_size : ℕ
  pub max_stream_buffer : ℕ
  pub enable_keep_alive : Bool

-- `Config::default`
abbrev pub default : Config
default = record {
  version = 1;
  keep_alive_interval = from_secs 10;
  keep_alive_timeout = from_secs 30;
  max_frame_size = 32 * 1024;
  max_receive_buffer = 4 * 1024 * 1024;
  max_receive_channel_buffer_size = 512;
  max_stream_buffer = 64 * 1024;
  enable_keep_alive = true;
}

-- `Config::validate`, its tests in the source's order.
unfoldable pub validate : Config → Result (Unit {0})
validate c =
    if c.version == 0
    then err (SmuxError.config_error "Version cannot be 0")
    else if c.enable_keep_alive && leb c.keep_alive_timeout c.keep_alive_interval
    then err (SmuxError.config_error "Keep-alive timeout must be greater than keep-alive interval")
    else if c.max_frame_size == 0
    then err (SmuxError.config_error "Max frame size cannot be 0")
    else if ltb (16 * 1024 * 1024) c.max_frame_size
    then err (SmuxError.config_error "Max frame size cannot exceed 16MB")
    else if ltb c.max_receive_buffer c.max_frame_size
    then err
        (SmuxError.config_error "Max receive buffer must be at least as large as max frame size")
    else if c.max_stream_buffer == 0
    then err (SmuxError.config_error "Max stream buffer cannot be 0")
    else ok tt

-- `ConfigBuilder`: its one field, and its setters.
pub record ConfigBuilder : Type 0 where
  pub config : Config

unfoldable pub new : ConfigBuilder
new = record { config = default }

unfoldable pub set_version : ℕ → ConfigBuilder → ConfigBuilder
set_version v b = record { config = record (b.config) { version = v } }

unfoldable pub set_keep_alive_interval : ℕ → ConfigBuilder → ConfigBuilder
set_keep_alive_interval i b = record { config = record (b.config) { keep_alive_interval = i } }

unfoldable pub set_keep_alive_timeout : ℕ → ConfigBuilder → ConfigBuilder
set_keep_alive_timeout t b = record { config = record (b.config) { keep_alive_timeout = t } }

unfoldable pub set_max_frame_size : ℕ → ConfigBuilder → ConfigBuilder
set_max_frame_size n b = record { config = record (b.config) { max_frame_size = n } }

unfoldable pub set_max_receive_buffer : ℕ → ConfigBuilder → ConfigBuilder
set_max_receive_buffer n b = record { config = record (b.config) { max_receive_buffer = n } }

unfoldable pub set_max_receive_channel_buffer_size : ℕ → ConfigBuilder → ConfigBuilder
set_max_receive_channel_buffer_size n b = record {
  config = record (b.config) { max_receive_channel_buffer_size = n };
}

unfoldable pub set_max_stream_buffer : ℕ → ConfigBuilder → ConfigBuilder
set_max_stream_buffer n b = record { config = record (b.config) { max_stream_buffer = n } }

unfoldable pub set_enable_keep_alive : Bool → ConfigBuilder → ConfigBuilder
set_enable_keep_alive e b = record { config = record (b.config) { enable_keep_alive = e } }

unfoldable pub build : ConfigBuilder → Result Config
unfolding validate
build b = do validate b.config; ok b.config
