-- ===== src/Tests/Unit/Configs.antt =====
-- src/config.rs: its unit tests.
use smux.Base.{◌≡◌, refl, true, false, ◌*◌}
use smux.Error.{ok}
use smux.Tests.Unit.{is_ok, is_err}
use smux.Config
use smux.Config.{
  Config, default, validate, build, from_secs, set_version, set_keep_alive_interval,
  set_keep_alive_timeout, set_max_frame_size, set_max_receive_buffer, set_max_stream_buffer,
  set_enable_keep_alive,
}

abbrev TestDefaultConfigIsValid : Type 0
TestDefaultConfigIsValid = (is_ok (validate default) ≡ true)

TestDefaultConfigIsValid_passes : TestDefaultConfigIsValid
unfolding validate
TestDefaultConfigIsValid_passes = refl

abbrev TestConfigValidation : Type 0
TestConfigValidation =
    let impatient : Config = record default {
      keep_alive_timeout = from_secs 5;
      keep_alive_interval = from_secs 10;
    } in
    (is_err (validate (record default { version = 0 })) ≡ true)
    × (is_err (validate impatient) ≡ true)
    × (is_ok (validate (record impatient { enable_keep_alive = false })) ≡ true)
    × (is_err (validate (record default { max_frame_size = 0 })) ≡ true)
    × (is_err (validate (record default { max_frame_size = 20 * 1024 * 1024 })) ≡ true)
    × (is_err (validate (record default { max_receive_buffer = 1024; max_frame_size = 2048 }))
        ≡ true)
    × (is_err (validate (record default { max_stream_buffer = 0 })) ≡ true)

TestConfigValidation_passes : TestConfigValidation
unfolding validate
TestConfigValidation_passes = (refl, refl, refl, refl, refl, refl, refl)

abbrev TestConfigBuilder : Type 0
TestConfigBuilder =
    (build (
        set_enable_keep_alive false (
          set_max_stream_buffer (128 * 1024) (
            set_max_receive_buffer (8 * 1024 * 1024) (
              set_max_frame_size (64 * 1024) (
                set_keep_alive_timeout (from_secs 15)
                  (set_keep_alive_interval (from_secs 5) (set_version 2 Config.new)))))))
      ≡ ok (record {
        version = 2;
        keep_alive_interval = from_secs 5;
        keep_alive_timeout = from_secs 15;
        max_frame_size = 64 * 1024;
        max_receive_buffer = 8 * 1024 * 1024;
        max_receive_channel_buffer_size = default.max_receive_channel_buffer_size;
        max_stream_buffer = 128 * 1024;
        enable_keep_alive = false;
      }))

TestConfigBuilder_passes : TestConfigBuilder
unfolding build validate Config.new set_enable_keep_alive set_max_stream_buffer
    set_max_receive_buffer set_max_frame_size set_keep_alive_timeout set_keep_alive_interval
    set_version
TestConfigBuilder_passes = refl

abbrev TestConfigBuilderValidationFailure : Type 0
TestConfigBuilderValidationFailure = (is_err (build (set_version 0 Config.new)) ≡ true)

TestConfigBuilderValidationFailure_passes : TestConfigBuilderValidationFailure
unfolding build validate Config.new set_version
TestConfigBuilderValidationFailure_passes = refl

abbrev TestKeepAliveValidationWhenDisabled : Type 0
TestKeepAliveValidationWhenDisabled =
    (is_ok (
        build (
          set_enable_keep_alive false (
            set_keep_alive_timeout (from_secs 10)
              (set_keep_alive_interval (from_secs 20) Config.new))))
      ≡ true)

TestKeepAliveValidationWhenDisabled_passes : TestKeepAliveValidationWhenDisabled
unfolding build validate Config.new set_enable_keep_alive set_keep_alive_timeout
    set_keep_alive_interval
TestKeepAliveValidationWhenDisabled_passes = refl
