-- ===== src/Codec/Truncation.antt =====
-- src/codec.rs: `frame.data.len() as u16`. Nothing keeps `max_frame_size` within what the length
-- field can say: the configuration's own limit is 16 MiB.
use smux.Base.{
  ℕ, ◌+◌, ◌%◌, ◌≤◌, ◌<◌, ◌≡◌, ◌≢◌, List, [], ◌++◌, length, take, drop, arith, length-take,
  length-drop, ap, ◌∙◌, some,
}
use smux.Error.{ok}
use smux.Command.{psh, to_byte}
use smux.Command.Bytes.{from_byte-to_byte}
use smux.Config.{Config}
use smux.Frame.{Frame, header_size}
use smux.Frame.Valid.{IsValidFrame}
use smux.Codec
use smux.Codec.{Codec, decode, encode, make_frame}
use smux.Codec.Wire.{header, decode_complete}
use smux.Codec.RoundTrip.{IsU8, IsU32, encode_lem, le16-bytes16, le32-bytes32, make_frame-body}
use smux.Crates.Bytes.{BytesCrate}

-- A data frame of `new_psh`, as a value.
abbrev pub push : ℕ → ℕ → List ℕ → Frame
push v i bytes = record { version = v; cmd = psh; stream_id = i; payload = bytes }

module _ (B : BytesCrate) where
  -- What `decode` makes of a data frame whose length field says `n`.
  pub decode-push :
      (cfg : Config) (v i n : ℕ) (more : List ℕ)
      → IsU8 v
      → IsU32 i
      → 0 < v
      → 0 < i
      → n < 65536
      → n ≤ length more
      → header_size + n ≤ cfg.max_frame_size
      → decode B (Codec.new cfg) (header v (to_byte psh) n i ++ more)
        ≡ (ok (some (push v i (take n more))), drop n more)
  unfolding Codec.new
  decode-push cfg v i n more tv ti hv hi short whole fits =
      decode_complete B (Codec.new cfg) v (to_byte psh) _ _ _ _ _ _ more psh (from_byte-to_byte psh)
        (rw (le16-bytes16 n short) fits) (rw (le16-bytes16 n short) whole)
      ∙ rw (
        le16-bytes16 n short,
        le32-bytes32 i ti,
        make_frame-body B (Codec.new cfg) v psh i (take n more)
            (record { version_u8 = tv; id_u32 = ti; cmd_u32 = tt })
            (record { has_version = hv; fits = omega (arith, length-take n more); shaped = hi }),
      )

  -- Whenever the configuration admits a data frame of 64 KiB or more, `encode` succeeds on it, and
  -- `decode` of what was written returns a frame with a strictly shorter payload, cut to the length
  -- modulo 65536, and leaves the rest of the payload in the buffer as if it were the next frame.
  pub encode_truncates :
      (cfg : Config) (v i : ℕ) (bytes dst : List ℕ)
      → IsU8 v
      → IsU32 i
      → IsValidFrame cfg.max_frame_size (push v i bytes)
      → 65536 ≤ length bytes
      → let n = length bytes % 65536 in
        let written = header v (to_byte psh) n i ++ bytes in
        (encode B (Codec.new cfg) (push v i bytes) dst ≡ (ok tt, dst ++ written))
        × (decode B (Codec.new cfg) written ≡ (ok (some (push v i (take n bytes))), drop n bytes))
        × (length (take n bytes) < length bytes)
        × (drop n bytes ≢ [])
  unfolding Codec.new
  encode_truncates cfg v i bytes dst tv ti h long = (
    ground (arith, encode_lem B (Codec.new cfg) (push v i bytes) dst tv h),
    decode-push cfg v i (length bytes % 65536) bytes tv ti h.has_version h.shaped (omega arith)
        (omega arith) (omega (arith, h.fits)),
    omega (arith, length-take (length bytes % 65536) bytes),
    λ e. omega (arith, ap length e, length-drop (length bytes % 65536) bytes),
  )
