-- ===== src/Codec/Prefix.antt =====
-- src/codec.rs: `decode` before a frame has arrived whole.
use smux.Base.{ℕ, suc, ◌+◌, ◌≤◌, ◌<◌, ◌≡◌, length, take, arith, length-take, none}
use smux.Error.{ok}
use smux.Command.{to_byte}
use smux.Command.Bytes.{bare, from_byte-to_byte}
use smux.Frame.{Frame, header_size}
use smux.Codec.{Codec, decode}
use smux.Codec.Wire.{body, wire, decode_incomplete, decode_short}
use smux.Codec.RoundTrip.{le16-bytes16}
use smux.Crates.Bytes.{BytesCrate}

module _ (B : BytesCrate) where
  -- On every proper prefix of a frame's bytes `decode` asks for more and consumes nothing, if the
  -- whole frame is within `max_frame_size` and its length fits the length field.
  pub decode_prefix :
      (codec : Codec) (f : Frame) (k : ℕ)
      → header_size + length (body f) ≤ codec.max_frame_size
      → length (body f) < 65536
      → k < length (wire f)
      → decode B codec (take k (wire f)) ≡ (ok none, take k (wire f))
  decode_prefix codec f (suc (suc (suc (suc (suc (suc (suc (suc k)))))))) fits short h =
      decode_incomplete B codec f.version (to_byte f.cmd) _ _ _ _ _ _ (take k (body f)) (bare f.cmd)
        (from_byte-to_byte f.cmd) (rw (le16-bytes16 (length (body f)) short) fits)
        (rw (le16-bytes16 (length (body f)) short) (omega (arith, length-take k (body f))))
  decode_prefix codec f k fits short h = decode_short B codec _ (omega arith)
