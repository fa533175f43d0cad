-- ===== src/Tests/Unit/Commands.antt =====
-- src/command.rs: its unit tests.
use smux.Base.{◌≡◌, refl, true, false, some, none}
use smux.Error.{ok}
use smux.Tests.Unit.{is_err}
use smux.Command.{
  syn, fin, psh, nop, upd, from_byte, to_byte, is_control, can_carry_data, requires_v2, consumed,
  window,
}

abbrev TestCommandByteConversion : Type 0
TestCommandByteConversion =
    (from_byte (to_byte syn) ≡ ok syn)
    × (from_byte (to_byte fin) ≡ ok fin)
    × (from_byte (to_byte psh) ≡ ok psh)
    × (from_byte (to_byte nop) ≡ ok nop)
    × (from_byte (to_byte (upd 100 200)) ≡ ok (upd 0 0))

TestCommandByteConversion_passes : TestCommandByteConversion
unfolding from_byte to_byte
TestCommandByteConversion_passes = (refl, refl, refl, refl, refl)

abbrev TestInvalidCommandByte : Type 0
TestInvalidCommandByte = (is_err (from_byte 255) ≡ true) × (is_err (from_byte 5) ≡ true)

TestInvalidCommandByte_passes : TestInvalidCommandByte
unfolding from_byte
TestInvalidCommandByte_passes = (refl, refl)

abbrev TestCommandProperties : Type 0
TestCommandProperties =
    (is_control syn ≡ true)
    × (is_control fin ≡ true)
    × (is_control nop ≡ true)
    × (is_control (upd 0 0) ≡ true)
    × (is_control psh ≡ false)
    × (can_carry_data psh ≡ true)
    × (can_carry_data syn ≡ false)
    × (can_carry_data fin ≡ false)
    × (can_carry_data nop ≡ false)
    × (can_carry_data (upd 0 0) ≡ false)
    × (requires_v2 (upd 0 0) ≡ true)
    × (requires_v2 syn ≡ false)
    × (requires_v2 fin ≡ false)
    × (requires_v2 psh ≡ false)
    × (requires_v2 nop ≡ false)

TestCommandProperties_passes : TestCommandProperties
unfolding is_control can_carry_data requires_v2
TestCommandProperties_passes =
    (refl, refl, refl, refl, refl, refl, refl, refl, refl, refl, refl, refl, refl, refl, refl)

abbrev TestUpdCommandValues : Type 0
TestUpdCommandValues =
    let cmd = upd 123 456 in
    (consumed cmd ≡ some 123)
    × (window cmd ≡ some 456)
    × (consumed syn ≡ none)
    × (window syn ≡ none)

TestUpdCommandValues_passes : TestUpdCommandValues
unfolding consumed window
TestUpdCommandValues_passes = (refl, refl, refl, refl)
