-- ===== src/Command.antt =====
-- src/command.rs: the five commands of a frame and their bytes on the wire.
pub mod Bytes
use smux.Base.{ℕ, Bool, true, false, Option, none, some, ◌==◌, if◌then◌else◌}
use smux.Error.{Result, ok, err, SmuxError}

pub data Command : Type 0 where
  syn fin psh nop : Command
  upd : ℕ → ℕ → Command

-- Command::SYN to Command::UPD.
abbrev pub syn_byte : ℕ
syn_byte = 0

abbrev pub fin_byte : ℕ
fin_byte = 1

abbrev pub psh_byte : ℕ
psh_byte = 2

abbrev pub nop_byte : ℕ
nop_byte = 3

abbrev pub upd_byte : ℕ
upd_byte = 4

unfoldable pub from_byte : ℕ → Result Command
from_byte byte =
    if byte == syn_byte
    then ok syn
    else if byte == fin_byte
    then ok fin
    else if byte == psh_byte
    then ok psh
    else if byte == nop_byte
    then ok nop
    else if byte == upd_byte
    then ok (upd 0 0)
    else err SmuxError.invalid_frame

unfoldable pub to_byte : Command → ℕ
to_byte syn = syn_byte
to_byte fin = fin_byte
to_byte psh = psh_byte
to_byte nop = nop_byte
to_byte (upd c w) = upd_byte

unfoldable pub is_control : Command → Bool
is_control syn = true
is_control fin = true
is_control nop = true
is_control (upd c w) = true
is_control psh = false

unfoldable pub can_carry_data : Command → Bool
can_carry_data psh = true
can_carry_data _ = false

unfoldable pub requires_v2 : Command → Bool
requires_v2 (upd c w) = true
requires_v2 _ = false

unfoldable pub consumed : Command → Option ℕ
consumed (upd c w) = some c
consumed _ = none

unfoldable pub window : Command → Option ℕ
window (upd c w) = some w
window _ = none
