-- ===== src/Codec/Wire.antt =====
-- The bytes of a frame, described without the codec, and what the codec's parts do to them.
use smux.Base.{
  ℕ, ◌+◌, ◌%◌, ◌≤◌, ◌<◌, ◌≡◌, refl, List, [], ◌∷◌, ◌++◌, append_assoc, length, take, drop, arith,
  ltb-false, lt→ltb, none,
}
use smux.Error.{ok, ◌>>=◌}
use smux.Command.{Command, syn, fin, psh, nop, upd, from_byte, to_byte}
use smux.Frame.{Frame, header_size}
use smux.Codec.{
  Codec, decode_header, encode_header, encode_upd_data, decode_upd_data, decode, take_frame,
  make_frame,
}
use native.Mathlib.Nat.{mod-eq_of_lt}
use smux.Crates.Bytes.{BytesCrate, le16, le32, bytes16, bytes32}

-- Version, command, length and stream id, in the layout of the specification.
abbrev pub header : ℕ → ℕ → ℕ → ℕ → List ℕ
header version cmd_byte len stream_id = version ∷ cmd_byte ∷ bytes16 len ++ bytes32 stream_id

-- What a frame carries behind its header.
abbrev pub body_of : Command → List ℕ → List ℕ
body_of (upd c w) bytes = bytes32 c ++ bytes32 w
body_of syn bytes = bytes
body_of fin bytes = bytes
body_of psh bytes = bytes
body_of nop bytes = bytes

abbrev pub body : Frame → List ℕ
body f = body_of f.cmd f.payload

abbrev pub wire : Frame → List ℕ
wire f = header f.version (to_byte f.cmd) (length (body f)) f.stream_id ++ body f

module _ (B : BytesCrate) where
  pub decode_header_lem :
      (v b l0 l1 i0 i1 i2 i3 : ℕ) (rest : List ℕ)
      → decode_header B (v ∷ b ∷ l0 ∷ l1 ∷ i0 ∷ i1 ∷ i2 ∷ i3 ∷ rest)
        ≡ ((from_byte b >>= λ cmd. ok (v, cmd, le32 i0 i1 i2 i3, le16 l0 l1)), rest)
  unfolding decode_header
  decode_header_lem v b l0 l1 i0 i1 i2 i3 rest = rw (
    B.get_u8_lem v (b ∷ l0 ∷ l1 ∷ i0 ∷ i1 ∷ i2 ∷ i3 ∷ rest),
    B.get_u8_lem b (l0 ∷ l1 ∷ i0 ∷ i1 ∷ i2 ∷ i3 ∷ rest),
    B.get_u16_le_lem l0 l1 (i0 ∷ i1 ∷ i2 ∷ i3 ∷ rest),
    B.get_u32_le_lem i0 i1 i2 i3 rest,
    ltb-false (length (v ∷ b ∷ l0 ∷ l1 ∷ i0 ∷ i1 ∷ i2 ∷ i3 ∷ rest)) header_size (omega arith),
  )

  byte_of : (c : Command) → to_byte c % 256 ≡ to_byte c
  unfolding to_byte
  byte_of syn = refl
  byte_of _ = refl

  pub encode_header_lem :
      (dst : List ℕ) (v : ℕ) (cmd : Command) (id len : ℕ)
      → v < 256
      → encode_header B dst v cmd id len ≡ dst ++ header v (to_byte cmd) len id
  unfolding encode_header
  encode_header_lem dst v cmd id len h =
      rw
        (
          B.put_u32_le_lem,
          B.put_u16_le_lem,
          B.put_u8_lem dst v,
          B.put_u8_lem,
          byte_of cmd,
          mod-eq_of_lt h,
        )
        (simp append_assoc)

  pub encode_upd_data_lem : (c w : ℕ) → encode_upd_data B c w ≡ bytes32 c ++ bytes32 w
  unfolding encode_upd_data
  encode_upd_data_lem c w = rw (B.put_u32_le_lem, B.put_u32_le_lem)

  pub decode_upd_data_lem :
      (a b c d e f g h : ℕ)
      → decode_upd_data B (a ∷ b ∷ c ∷ d ∷ e ∷ f ∷ g ∷ h ∷ []) ≡ ok (le32 a b c d, le32 e f g h)
  unfolding decode_upd_data
  decode_upd_data_lem a b c d e f g h =
      rw (B.get_u32_le_lem a b c d (e ∷ f ∷ g ∷ h ∷ []), B.get_u32_le_lem e f g h [])

  -- Each stage of `decode` on a buffer that begins with a whole header.
  pub take_frame_lem :
      (codec : Codec) (v b l0 l1 i0 i1 i2 i3 : ℕ) (rest : List ℕ) (cmd : Command)
      → from_byte b ≡ ok cmd
      → le16 l0 l1 ≤ length rest
      → take_frame B codec (v ∷ b ∷ l0 ∷ l1 ∷ i0 ∷ i1 ∷ i2 ∷ i3 ∷ rest) ≡ (
        make_frame B codec v cmd (le32 i0 i1 i2 i3) (take (le16 l0 l1) rest),
        drop (le16 l0 l1) rest,
      )
  unfolding take_frame
  take_frame_lem codec v b l0 l1 i0 i1 i2 i3 rest cmd e h = rw (
    decode_header_lem v b l0 l1 i0 i1 i2 i3 rest,
    take_frame,
    e,
    decode_header_lem v b l0 l1 i0 i1 i2 i3 rest,
    B.split_to_lem rest (le16 l0 l1) h,
  )

  pub decode_complete :
      (codec : Codec) (v b l0 l1 i0 i1 i2 i3 : ℕ) (rest : List ℕ) (cmd : Command)
      → from_byte b ≡ ok cmd
      → header_size + le16 l0 l1 ≤ codec.max_frame_size
      → le16 l0 l1 ≤ length rest
      → decode B codec (v ∷ b ∷ l0 ∷ l1 ∷ i0 ∷ i1 ∷ i2 ∷ i3 ∷ rest) ≡ (
        make_frame B codec v cmd (le32 i0 i1 i2 i3) (take (le16 l0 l1) rest),
        drop (le16 l0 l1) rest,
      )
  unfolding decode
  decode_complete codec v b l0 l1 i0 i1 i2 i3 rest cmd e fits h =
      rw (decode_header_lem v b l0 l1 i0 i1 i2 i3 rest, e)
        (ground (arith, take_frame_lem codec v b l0 l1 i0 i1 i2 i3 rest cmd e h))

  pub decode_incomplete :
      (codec : Codec) (v b l0 l1 i0 i1 i2 i3 : ℕ) (rest : List ℕ) (cmd : Command)
      → from_byte b ≡ ok cmd
      → header_size + le16 l0 l1 ≤ codec.max_frame_size
      → length rest < le16 l0 l1
      → let src = v ∷ b ∷ l0 ∷ l1 ∷ i0 ∷ i1 ∷ i2 ∷ i3 ∷ rest in decode B codec src ≡ (ok none, src)
  unfolding decode
  decode_incomplete codec v b l0 l1 i0 i1 i2 i3 rest cmd e fits h =
      rw (decode_header_lem v b l0 l1 i0 i1 i2 i3 rest, e) (ground arith)

  pub decode_short :
      (codec : Codec) (src : List ℕ)
      → length src < header_size
      → decode B codec src ≡ (ok none, src)
  unfolding decode
  decode_short codec src h = rw (lt→ltb _ _ h)
