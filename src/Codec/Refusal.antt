-- ===== src/Codec/Refusal.antt =====
-- src/codec.rs: an `encode` that fails.
use smux.Base.{ℕ, ◌≡◌, List, arith, false, inl, inr}
use smux.Error.{Result-cases, err, SmuxError, is_recoverable}
use smux.Frame.{Frame, validate}
use smux.Codec.{Codec, encode}
use smux.Codec.Decode.{validate-unrecoverable}
use smux.Crates.Bytes.{BytesCrate}

module _ (B : BytesCrate) where
  -- When `encode` fails, the buffer holds what it held, and the error is not recoverable.
  pub encode_refuses :
      (codec : Codec) (f : Frame) (dst out : List ℕ) (e : SmuxError)
      → encode B codec f dst ≡ (err e, out)
      → (out ≡ dst) × (is_recoverable e ≡ false)
  unfolding encode is_recoverable
  encode_refuses codec f dst out e h = elim (Result-cases (validate f codec.config)) [
    | inr (x, v) ↦ ground (arith, validate-unrecoverable f codec.config x v)
    | inl (done, v) ↦ ground arith
  ]
