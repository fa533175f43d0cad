-- ===== src/Command/Bytes.antt =====
-- src/command.rs: `from_byte` against `to_byte`.
use smux.Base.{subst, ap, ◌∙◌, ℕ, ◌≡◌, refl, ◌↔◌, arith}
use smux.Error.{ok}
use smux.Command.{Command, syn, fin, psh, nop, upd, from_byte, to_byte}

-- The command without the two numbers of an update, which travel in the payload.
abbrev pub bare : Command → Command
bare (upd c w) = upd 0 0
bare syn = syn
bare fin = fin
bare psh = psh
bare nop = nop

-- `from_byte` reads back the byte of every command, with the two numbers of an update set to 0.
pub from_byte-to_byte : (c : Command) → from_byte (to_byte c) ≡ ok (bare c)
unfolding from_byte to_byte
from_byte-to_byte syn = refl
from_byte-to_byte _ = refl

from_byte_sound : (b : ℕ) (c : Command) → from_byte b ≡ ok c → (to_byte c ≡ b) × (bare c ≡ c)
unfolding from_byte to_byte
from_byte_sound b c h = ground arith

-- `from_byte` returns a command exactly for the byte that the command is written as, with the two
-- numbers of an update set to 0.
pub from_byte_iff : (b : ℕ) (c : Command) → (from_byte b ≡ ok c) ↔ ((to_byte c ≡ b) × (bare c ≡ c))
from_byte_iff b c = (
  from_byte_sound b c,
  λ h. subst (λ n. from_byte n ≡ ok c) h.0 (from_byte-to_byte c ∙ ap ok h.1),
)
