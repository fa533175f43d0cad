-- ===== src/Tests/Unit.antt =====
-- The unit tests that stand in src/*.rs, as propositions about the model: a test's assertions, in its
-- order.
mod Errors
mod Commands
mod Configs
mod Frames
mod Codecs
mod Streams
mod Sessions
mod Integration
use smux.Base.{ℕ, zero, suc, Bool, true, false, List, [], ◌∷◌}
use smux.Error.{Result, ok, err}

abbrev pub is_ok {ℓ} : {A : Type ℓ} → Result A → Bool
is_ok (ok a) = true
is_ok (err e) = false

abbrev pub is_err {ℓ} : {A : Type ℓ} → Result A → Bool
is_err (ok a) = false
is_err (err e) = true

-- `buf[i]`; the tests index no byte that is not there.
abbrev pub byte_at : List ℕ → ℕ → ℕ
byte_at [] i = 0
byte_at (b ∷ bs) zero = b
byte_at (b ∷ bs) (suc i) = byte_at bs i

-- "hello" and "hello world"
abbrev pub hello : List ℕ
hello = b'h' ∷ b'e' ∷ b'l' ∷ b'l' ∷ b'o' ∷ []

abbrev pub hello_world : List ℕ
hello_world = b'h' ∷ b'e' ∷ b'l' ∷ b'l' ∷ b'o' ∷ b' ' ∷ b'w' ∷ b'o' ∷ b'r' ∷ b'l' ∷ b'd' ∷ []
