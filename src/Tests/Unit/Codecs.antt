-- ===== src/Tests/Unit/Codecs.antt =====
-- src/codec.rs: its unit tests.
use smux.Base.{◌≡◌, ◌+◌, refl, arith, true, some, none, ℕ, [], take, length}
use smux.Error.{ok}
use smux.Tests.Unit.{is_err, byte_at, hello_world}
use smux.Command.{syn_byte, upd_byte, to_byte, from_byte}
use smux.Config
use smux.Frame
use smux.Frame.{header_size, new_syn, new_fin, new_psh, new_nop, new_upd, validate}
use smux.Base.{replicate, length-replicate}
use smux.Codec
use smux.Codec.{
  Codec, encode, encode_header, data_to_encode, encode_upd_data, decode, decode_header, take_frame,
  make_frame, final_command, decode_upd_data,
}
use smux.Crates.Bytes.{le16, le32}
use smux.Tests.Crates.{bytes_crate}

abbrev codec : Codec
codec = Codec.new Config.default

abbrev TestCodecRoundTripSyn : Type 0
TestCodecRoundTripSyn =
    let frame = new_syn 1 123 in
    let (r, buf) = encode bytes_crate codec frame [] in
    (r ≡ ok tt) × ((decode bytes_crate codec buf).0 ≡ ok (some frame))

TestCodecRoundTripSyn_passes : TestCodecRoundTripSyn
unfolding encode encode_header data_to_encode encode_upd_data decode decode_header take_frame
    make_frame final_command decode_upd_data Codec.new validate to_byte from_byte Frame.new new_syn
    new_fin new_psh new_nop new_upd
TestCodecRoundTripSyn_passes = (refl, refl)

abbrev TestCodecRoundTripFin : Type 0
TestCodecRoundTripFin =
    let frame = new_fin 1 123 in
    let (r, buf) = encode bytes_crate codec frame [] in
    (r ≡ ok tt) × ((decode bytes_crate codec buf).0 ≡ ok (some frame))

TestCodecRoundTripFin_passes : TestCodecRoundTripFin
unfolding encode encode_header data_to_encode encode_upd_data decode decode_header take_frame
    make_frame final_command decode_upd_data Codec.new validate to_byte from_byte Frame.new new_syn
    new_fin new_psh new_nop new_upd
TestCodecRoundTripFin_passes = (refl, refl)

abbrev TestCodecRoundTripPsh : Type 0
TestCodecRoundTripPsh =
    let frame = new_psh 1 123 hello_world in
    let (r, buf) = encode bytes_crate codec frame [] in
    (r ≡ ok tt) × ((decode bytes_crate codec buf).0 ≡ ok (some frame))

TestCodecRoundTripPsh_passes : TestCodecRoundTripPsh
unfolding encode encode_header data_to_encode encode_upd_data decode decode_header take_frame
    make_frame final_command decode_upd_data Codec.new validate to_byte from_byte Frame.new new_syn
    new_fin new_psh new_nop new_upd
TestCodecRoundTripPsh_passes = (refl, refl)

abbrev TestCodecRoundTripNop : Type 0
TestCodecRoundTripNop =
    let frame = new_nop 1 in
    let (r, buf) = encode bytes_crate codec frame [] in
    (r ≡ ok tt) × ((decode bytes_crate codec buf).0 ≡ ok (some frame))

TestCodecRoundTripNop_passes : TestCodecRoundTripNop
unfolding encode encode_header data_to_encode encode_upd_data decode decode_header take_frame
    make_frame final_command decode_upd_data Codec.new validate to_byte from_byte Frame.new new_syn
    new_fin new_psh new_nop new_upd
TestCodecRoundTripNop_passes = (refl, refl)

abbrev TestCodecRoundTripUpd : Type 0
TestCodecRoundTripUpd =
    let frame = new_upd 2 123 100 200 in
    let (r, buf) = encode bytes_crate codec frame [] in
    (r ≡ ok tt) × ((decode bytes_crate codec buf).0 ≡ ok (some frame))

TestCodecRoundTripUpd_passes : TestCodecRoundTripUpd
unfolding encode encode_header data_to_encode encode_upd_data decode decode_header take_frame
    make_frame final_command decode_upd_data Codec.new validate to_byte from_byte Frame.new new_syn
    new_fin new_psh new_nop new_upd
TestCodecRoundTripUpd_passes = (refl, refl)

abbrev TestDecodePartialHeader : Type 0
TestDecodePartialHeader =
    let (r, buf) = encode bytes_crate codec (new_syn 1 123) [] in
    (r ≡ ok tt) × ((decode bytes_crate codec (take 4 buf)).0 ≡ ok none)

TestDecodePartialHeader_passes : TestDecodePartialHeader
unfolding encode encode_header data_to_encode encode_upd_data decode decode_header take_frame
    make_frame final_command decode_upd_data Codec.new validate to_byte from_byte Frame.new new_syn
    new_fin new_psh new_nop new_upd
TestDecodePartialHeader_passes = (refl, refl)

abbrev TestDecodePartialData : Type 0
TestDecodePartialData =
    let (r, buf) = encode bytes_crate codec (new_psh 1 123 hello_world) [] in
    (r ≡ ok tt) × ((decode bytes_crate codec (take (header_size + 5) buf)).0 ≡ ok none)

TestDecodePartialData_passes : TestDecodePartialData
unfolding encode encode_header data_to_encode encode_upd_data decode decode_header take_frame
    make_frame final_command decode_upd_data Codec.new validate to_byte from_byte Frame.new new_syn
    new_fin new_psh new_nop new_upd
TestDecodePartialData_passes = (refl, refl)

abbrev TestDecodeMultipleFrames : Type 0
TestDecodeMultipleFrames =
    let frame1 = new_syn 1 123 in
    let frame2 = new_fin 1 456 in
    let (r1, buf1) = encode bytes_crate codec frame1 [] in
    let (r2, buf) = encode bytes_crate codec frame2 buf1 in
    let (decoded1, rest1) = decode bytes_crate codec buf in
    let (decoded2, rest2) = decode bytes_crate codec rest1 in
    (r1 ≡ ok tt)
    × (r2 ≡ ok tt)
    × (decoded1 ≡ ok (some frame1))
    × (decoded2 ≡ ok (some frame2))
    × ((decode bytes_crate codec rest2).0 ≡ ok none)

TestDecodeMultipleFrames_passes : TestDecodeMultipleFrames
unfolding encode encode_header data_to_encode encode_upd_data decode decode_header take_frame
    make_frame final_command decode_upd_data Codec.new validate to_byte from_byte Frame.new new_syn
    new_fin new_psh new_nop new_upd
TestDecodeMultipleFrames_passes = (refl, refl, refl, refl, refl)

abbrev TestDecodeOversizedFrame : Type 0
TestDecodeOversizedFrame =
    let config : Config.Config = record Config.default { max_frame_size = 100 } in
    (is_err (encode bytes_crate (Codec.new config) (new_psh 1 123 (replicate 200 0)) []).0 ≡ true)

TestDecodeOversizedFrame_passes : TestDecodeOversizedFrame
unfolding encode Codec.new validate Frame.total_size new_psh
TestDecodeOversizedFrame_passes = ground (arith, length-replicate {A = ℕ} 200 0)

abbrev TestDecodeInvalidProtocolVersion : Type 0
TestDecodeInvalidProtocolVersion =
    let buf =
      bytes_crate.put_u32_le
        (bytes_crate.put_u16_le (bytes_crate.put_u8 (bytes_crate.put_u8 [] 0) syn_byte) 0) 123 in
    (is_err (decode bytes_crate codec buf).0 ≡ true)

TestDecodeInvalidProtocolVersion_passes : TestDecodeInvalidProtocolVersion
unfolding encode encode_header data_to_encode encode_upd_data decode decode_header take_frame
    make_frame final_command decode_upd_data Codec.new validate to_byte from_byte Frame.new new_syn
    new_fin new_psh new_nop new_upd
TestDecodeInvalidProtocolVersion_passes = refl

abbrev TestDecodeInvalidCommand : Type 0
TestDecodeInvalidCommand =
    let buf =
      bytes_crate.put_u32_le
        (bytes_crate.put_u16_le (bytes_crate.put_u8 (bytes_crate.put_u8 [] 1) 255) 0) 123 in
    (is_err (decode bytes_crate codec buf).0 ≡ true)

TestDecodeInvalidCommand_passes : TestDecodeInvalidCommand
unfolding encode encode_header data_to_encode encode_upd_data decode decode_header take_frame
    make_frame final_command decode_upd_data Codec.new validate to_byte from_byte Frame.new new_syn
    new_fin new_psh new_nop new_upd
TestDecodeInvalidCommand_passes = refl

abbrev TestUpdFrameEncoding : Type 0
TestUpdFrameEncoding =
    let (r, buf) = encode bytes_crate codec (new_upd 2 123 100 200) [] in
    (r ≡ ok tt)
    × (length buf ≡ header_size + 8)
    × (byte_at buf 0 ≡ 2)
    × (byte_at buf 1 ≡ upd_byte)
    × (le16 (byte_at buf 2) (byte_at buf 3) ≡ 8)
    × (le32 (byte_at buf 4) (byte_at buf 5) (byte_at buf 6) (byte_at buf 7) ≡ 123)
    × (le32 (byte_at buf 8) (byte_at buf 9) (byte_at buf 10) (byte_at buf 11) ≡ 100)
    × (le32 (byte_at buf 12) (byte_at buf 13) (byte_at buf 14) (byte_at buf 15) ≡ 200)

TestUpdFrameEncoding_passes : TestUpdFrameEncoding
unfolding encode encode_header data_to_encode encode_upd_data decode decode_header take_frame
    make_frame final_command decode_upd_data Codec.new validate to_byte from_byte Frame.new new_syn
    new_fin new_psh new_nop new_upd
TestUpdFrameEncoding_passes = (refl, refl, refl, refl, refl, refl, refl, refl)

abbrev TestInvalidUpdDataLength : Type 0
TestInvalidUpdDataLength =
    let buf =
      bytes_crate.put_u32_le
        (bytes_crate.put_u32_le
          (bytes_crate.put_u16_le (bytes_crate.put_u8 (bytes_crate.put_u8 [] 2) upd_byte) 4) 123)
        100 in
    (is_err (decode bytes_crate codec buf).0 ≡ true)

TestInvalidUpdDataLength_passes : TestInvalidUpdDataLength
unfolding encode encode_header data_to_encode encode_upd_data decode decode_header take_frame
    make_frame final_command decode_upd_data Codec.new validate to_byte from_byte Frame.new new_syn
    new_fin new_psh new_nop new_upd
TestInvalidUpdDataLength_passes = refl
