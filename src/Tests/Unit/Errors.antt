-- ===== src/Tests/Unit/Errors.antt =====
-- src/error.rs: its unit tests.
use smux.Base.{◌≡◌, refl, true, false}
use smux.Error.{SmuxError, would_block, interrupted, other, is_recoverable}

abbrev TestIsRecoverable : Type 0
TestIsRecoverable =
    (is_recoverable (SmuxError.io (record { kind = would_block; message = "" })) ≡ true)
    × (is_recoverable (SmuxError.io (record { kind = interrupted; message = "" })) ≡ true)
    × (is_recoverable SmuxError.timeout ≡ true)
    × (is_recoverable SmuxError.buffer_overflow ≡ true)
    × (is_recoverable SmuxError.session_closed ≡ false)
    × (is_recoverable (SmuxError.invalid_protocol 2) ≡ false)
    × (is_recoverable (SmuxError.config_error "Invalid") ≡ false)
    × (is_recoverable (SmuxError.frame_too_large 1024 512) ≡ false)
    × (is_recoverable (SmuxError.io (record { kind = other; message = "" })) ≡ false)

TestIsRecoverable_passes : TestIsRecoverable
unfolding is_recoverable
TestIsRecoverable_passes = (refl, refl, refl, refl, refl, refl, refl, refl, refl)
