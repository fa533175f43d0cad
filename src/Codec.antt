-- ===== src/Codec.antt =====
-- src/codec.rs: frames to bytes and back. A call returns its result and the buffer that it leaves;
-- `reserve` changes no content and is left out.
pub mod Wire
pub mod RoundTrip
pub mod Decode
pub mod Truncation
pub mod Prefix
pub mod Sequence
pub mod Refusal
pub mod Inverse
pub mod Canonical
use smux.Base.{
  ℕ, ◌+◌, ◌%◌, Option, none, some, List, [], length, ltb, leb, ◌==◌, not, if◌then◌else◌,
}
use smux.Error.{Result, ok, err, SmuxError, ◌>>=◌, ◌>>◌}
use smux.Command.{Command, syn, fin, psh, nop, upd, from_byte, to_byte}
use smux.Config.{Config}
use smux.Frame.{Frame, header_size, validate}
use smux.Frame
use smux.Crates.Bytes.{BytesCrate}

pub record Codec : Type 0 where
  pub config : Config
  pub max_frame_size : ℕ

-- `Codec::new`
unfoldable pub new : Config → Codec
new cfg = record { config = cfg; max_frame_size = cfg.max_frame_size }

-- The data of a decoded frame: an update carries none.
abbrev pub frame_data : Command → List ℕ → List ℕ
frame_data (upd c w) bytes = []
frame_data syn bytes = bytes
frame_data fin bytes = bytes
frame_data psh bytes = bytes
frame_data nop bytes = bytes

module _ (B : BytesCrate) where
  unfoldable pub decode_header : List ℕ → Result (ℕ × Command × ℕ × ℕ) × List ℕ
  decode_header src =
      let (version, s1) = B.get_u8 src in
      let (cmd_byte, s2) = B.get_u8 s1 in
      let (len, s3) = B.get_u16_le s2 in
      let (stream_id, s4) = B.get_u32_le s3 in
      if ltb (length src) header_size
      then (err SmuxError.insufficient_data, src)
      else ((do cmd ← from_byte cmd_byte; ok (version, cmd, stream_id, len)), s4)

  unfoldable pub encode_header : List ℕ → ℕ → Command → ℕ → ℕ → List ℕ
  encode_header dst version cmd stream_id len =
      B.put_u32_le (B.put_u16_le (B.put_u8 (B.put_u8 dst version) (to_byte cmd)) len) stream_id

  unfoldable pub decode_upd_data : List ℕ → Result (ℕ × ℕ)
  decode_upd_data bytes =
      let (consumed, buf) = B.get_u32_le bytes in
      let (window, end) = B.get_u32_le buf in
      if not (length bytes == 8)
      then err (SmuxError.protocol_violation "UPD frame must have exactly 8 bytes of data")
      else ok (consumed, window)

  unfoldable pub encode_upd_data : ℕ → ℕ → List ℕ
  encode_upd_data consumed window = B.put_u32_le (B.put_u32_le [] consumed) window

  -- `final_cmd`: the two numbers of an update are read from its data, from version 2 on.
  unfoldable pub final_command : ℕ → Command → List ℕ → Result Command
  final_command version (upd c w) bytes =
      if leb 2 version
      then (do (consumed, window) ← decode_upd_data bytes; ok (upd consumed window))
      else ok (upd c w)
  final_command version syn bytes = ok syn
  final_command version fin bytes = ok fin
  final_command version psh bytes = ok psh
  final_command version nop bytes = ok nop

  -- The last part of `decode`: from the header's fields and the payload to a checked frame.
  unfoldable pub make_frame : Codec → ℕ → Command → ℕ → List ℕ → Result (Option Frame)
  make_frame codec version cmd stream_id bytes = do
    final_cmd ← final_command version cmd bytes
    let frame = Frame.new version final_cmd stream_id (frame_data final_cmd bytes)
    validate frame codec.config
    ok (some frame)

  -- The part of `decode` that consumes the bytes of a complete frame.
  unfoldable pub take_frame : Codec → List ℕ → Result (Option Frame) × List ℕ
  take_frame codec src =
      let (header, rest) = decode_header src in
      elim header [
        | err e ↦ (err e, rest)
        | ok (version, cmd, stream_id, len) ↦
            let (bytes, left) = B.split_to rest len in
            (make_frame codec version cmd stream_id bytes, left)
      ]

  -- `Decoder::decode`
  unfoldable pub decode : Codec → List ℕ → Result (Option Frame) × List ℕ
  decode codec src =
      if ltb (length src) header_size then (ok none, src) else elim ((decode_header src).0) [
        | err e ↦ (err e, src)
        | ok (version, cmd, stream_id, len) ↦
            if ltb codec.max_frame_size (header_size + len)
            then (err (SmuxError.frame_too_large (header_size + len) codec.max_frame_size), src)
            else if ltb (length src) (header_size + len)
            then (ok none, src)
            else take_frame codec src
      ]

  -- The data to encode; its length goes into a u16, `as u16`, apart.
  unfoldable pub data_to_encode : Frame → List ℕ
  data_to_encode frame = elim frame.cmd [
    | upd consumed window ↦
        if leb 2 frame.version then encode_upd_data consumed window else frame.payload
    | _ ↦ frame.payload
  ]

  -- `Encoder::encode`
  unfoldable pub encode : Codec → Frame → List ℕ → Result (Unit {0}) × List ℕ
  encode codec frame dst = elim (validate frame codec.config) [
    | err e ↦ (err e, dst)
    | ok _ ↦
        let bytes = data_to_encode frame in
        let len = length bytes % 65536 in
        if ltb codec.max_frame_size (header_size + len)
        then (err (SmuxError.frame_too_large (header_size + len) codec.max_frame_size), dst)
        else (
          ok tt,
          B.put_slice (encode_header dst frame.version frame.cmd frame.stream_id len) bytes,
        )
  ]
