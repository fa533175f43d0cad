-- ===== src/Error.antt =====
-- src/error.rs: the error type, `Result<T>`, and the test for recoverable errors. Of `io::Error`
-- the model keeps the kind and the message.
use smux.Base.{ℕ, Bool, true, false, String, ◌≡◌, refl, ◌⊎◌, inl, inr}

-- The kinds of `std::io::ErrorKind` that the program makes or tests; `other` is any other kind.
pub data ErrorKind : Type 0 where
  would_block interrupted broken_pipe other : ErrorKind

pub record IoError : Type 0 where
  pub kind : ErrorKind
  pub message : String

pub data SmuxError : Type 0 where
  io : IoError → SmuxError
  invalid_protocol : ℕ → SmuxError
  frame_too_large : ℕ → ℕ → SmuxError
  session_closed : SmuxError
  stream_not_found : ℕ → SmuxError
  stream_already_exists : ℕ → SmuxError
  invalid_stream_id : ℕ → SmuxError
  config_error : String → SmuxError
  invalid_frame : SmuxError
  timeout : SmuxError
  buffer_overflow : SmuxError
  protocol_violation : String → SmuxError
  insufficient_data : SmuxError

pub data Result {ℓ} (A : Type ℓ) : Type ℓ where
  ok : A → Result A
  err : SmuxError → Result A

-- `?` on a call that returns nothing, and on one whose value is used.
infixl 5 ◌>>◌
abbrev pub ◌>>◌ {κ} : {B : Type κ} → Result (Unit {0}) → Result B → Result B
ok done >> next = next
err e >> next = err e

infixl 5 ◌>>=◌
abbrev pub ◌>>=◌ {ℓ κ} : {A : Type ℓ} {B : Type κ} → Result A → (A → Result B) → Result B
err e >>= next = err e
ok a >>= next = next a

-- `matches!(e.kind(), WouldBlock | Interrupted)`
abbrev pub is_transient : ErrorKind → Bool
is_transient would_block = true
is_transient interrupted = true
is_transient broken_pipe = false
is_transient other = false

unfoldable pub is_recoverable : SmuxError → Bool
is_recoverable (io e) = is_transient e.kind
is_recoverable timeout = true
is_recoverable buffer_overflow = true
is_recoverable session_closed = false
is_recoverable (invalid_protocol v) = false
is_recoverable (config_error m) = false
is_recoverable (protocol_violation m) = false
is_recoverable insufficient_data = false
is_recoverable (frame_too_large size max) = false
is_recoverable (stream_not_found i) = false
is_recoverable (stream_already_exists i) = false
is_recoverable (invalid_stream_id i) = false
is_recoverable invalid_frame = false

pub Result-cases {ℓ} :
    {A : Type ℓ} (r : Result A) → ((a : A) × (r ≡ ok a)) ⊎ ((e : SmuxError) × (r ≡ err e))
Result-cases (ok a) = inl (a, refl)
Result-cases (err e) = inr (e, refl)
