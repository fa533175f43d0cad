-- ===== src/Config/Valid.antt =====
-- src/config.rs: `validate` and `build` against the ranges that a configuration should have.
use smux.Base.{◌*◌, ◌≤◌, ◌<◌, ◌≡◌, ◌↔◌, true, arith}
use smux.Error.{ok}
use smux.Config.{Config, ConfigBuilder, build}

-- What `validate` is meant to guarantee of a configuration.
pub record IsValidConfig (c : Config) : Type 0 where
  pub has_version : 0 < c.version
  pub keeps_alive : c.enable_keep_alive ≡ true → c.keep_alive_interval < c.keep_alive_timeout
  pub frames_fit : (0 < c.max_frame_size) × (c.max_frame_size ≤ 16 * 1024 * 1024)
  pub buffers_a_frame : c.max_frame_size ≤ c.max_receive_buffer
  pub buffers_a_stream : 0 < c.max_stream_buffer

-- `build` returns a configuration exactly when the builder's own configuration has every range of
-- `IsValidConfig`, and it returns that one.
pub build_lem :
    (b : ConfigBuilder) (c : Config) → (build b ≡ ok c) ↔ ((c ≡ b.config) × IsValidConfig b.config)
unfolding build
build_lem b c = (λ h. ground arith, λ h. ground arith)
