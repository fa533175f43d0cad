-- ===== src/Tests/Wire.antt =====
-- src/command.rs, src/config.rs, src/frame.rs and src/codec.rs at concrete inputs.
use smux.Base.{
  ℕ, ◌%◌, ◌<◌, ◌≡◌, ◌≢◌, ◌↔◌, refl, List, [], ◌∷◌, ◌++◌, length, take, drop, arith, false, none,
  some,
}
use smux.Error.{ok, SmuxError, is_recoverable}
use smux.Base.{replicate, length-replicate}
use smux.Command.{psh, upd, from_byte, to_byte}
use smux.Command.Bytes.{bare, from_byte_iff}
use smux.Config
use smux.Config.{Config, ConfigBuilder, build, set_version}
use smux.Config.Valid.{IsValidConfig, build_lem}
use smux.Frame.{Frame, validate}
use smux.Frame.Valid.{IsValidFrame, validate_iff}
use smux.Codec
use smux.Codec.{
  Codec, decode, encode, decode_header, encode_header, encode_upd_data, decode_upd_data, make_frame,
  take_frame, final_command, data_to_encode,
}
use smux.Codec.Wire.{header, wire}
use smux.Codec.RoundTrip.{IsTyped, decode-encode}
use smux.Codec.Canonical.{BeginsWith, decode_iff}
use smux.Codec.Decode.{Outcome, decode-Outcome}
use smux.Codec.Truncation.{push, encode_truncates}
use smux.Codec.Prefix.{decode_prefix}
use smux.Codec.Sequence.{encode_all, decode_all, decode_all-encode_all}
use smux.Codec.Refusal.{encode_refuses}
use smux.Tests.Crates.{bytes_crate}

-- `Frame::new_psh(1, 123, "hi")`, and a window update.
abbrev pub hi_frame : Frame
hi_frame = record { version = 1; cmd = psh; stream_id = 123; payload = b'h' ∷ b'i' ∷ [] }

abbrev pub update_frame : Frame
update_frame = record { version = 2; cmd = upd 100 200; stream_id = 123; payload = [] }

abbrev codec : Codec
codec = record { config = Config.default; max_frame_size = 32768 }

pub hi-IsTyped : IsTyped hi_frame
hi-IsTyped = record { version_u8 = omega arith; id_u32 = omega arith; cmd_u32 = tt }

pub update-IsTyped : IsTyped update_frame
update-IsTyped = record { version_u8 = omega arith; id_u32 = omega arith; cmd_u32 = omega arith }

encode_hi : encode bytes_crate (Codec.new Config.default) hi_frame [] ≡ (ok tt, wire hi_frame)
unfolding encode encode_header data_to_encode Codec.new validate to_byte
encode_hi = refl

encode_update :
    encode bytes_crate (Codec.new Config.default) update_frame [] ≡ (ok tt, wire update_frame)
unfolding encode encode_header data_to_encode encode_upd_data Codec.new validate to_byte
encode_update = refl

wire_update :
    wire update_frame ≡ 2 ∷ 4 ∷ 8 ∷ 0 ∷ 123 ∷ 0 ∷ 0 ∷ 0 ∷ 100 ∷ 0 ∷ 0 ∷ 0 ∷ 200 ∷ 0 ∷ 0 ∷ 0 ∷ []
unfolding to_byte
wire_update = refl

decode-encode_example :
    (wire update_frame ≡ [] ++ wire update_frame)
    × (decode bytes_crate (Codec.new Config.default) (wire update_frame ++ (9 ∷ []))
        ≡ (ok (some update_frame), 9 ∷ []))
decode-encode_example =
    decode-encode bytes_crate Config.default update_frame [] (wire update_frame) (9 ∷ [])
      update-IsTyped (omega arith) encode_update

pub encode_both :
    encode_all bytes_crate (Codec.new Config.default) (hi_frame ∷ update_frame ∷ []) []
    ≡ (ok tt, wire hi_frame ++ wire update_frame)
unfolding encode_all encode encode_header data_to_encode encode_upd_data Codec.new validate to_byte
encode_both = refl

decode_all-encode_all_example :
    decode_all bytes_crate 3 (Codec.new Config.default) (wire hi_frame ++ wire update_frame)
    ≡ (hi_frame ∷ update_frame ∷ [], [])
decode_all-encode_all_example =
    decode_all-encode_all bytes_crate Config.default (hi_frame ∷ update_frame ∷ [])
      (wire hi_frame ++ wire update_frame) 3 (omega arith) (hi-IsTyped, (update-IsTyped, tt))
      (omega arith) encode_both

decode-Outcome_example :
    Outcome codec (wire hi_frame ++ (1 ∷ [])) (decode bytes_crate codec (wire hi_frame ++ (1 ∷ [])))
decode-Outcome_example = decode-Outcome bytes_crate codec (wire hi_frame ++ (1 ∷ []))

decode_prefix_example :
    decode bytes_crate codec (take 9 (wire hi_frame)) ≡ (ok none, take 9 (wire hi_frame))
decode_prefix_example =
    decode_prefix bytes_crate codec hi_frame 9 (omega arith) (omega arith) (omega arith)

encode_refuses_example :
    (◌≡◌ {A = List ℕ} [] []) × (is_recoverable (SmuxError.invalid_stream_id 0) ≡ false)
unfolding encode validate
encode_refuses_example =
    encode_refuses bytes_crate codec (record hi_frame { stream_id = 0 }) [] []
      (SmuxError.invalid_stream_id 0) refl

-- 64 KiB of zeros, under a configuration that allows them.
abbrev zeros : List ℕ
zeros = replicate 65536 0

abbrev large : Config
large = record (Config.default) { max_frame_size = 131072 }

encode_truncates_example :
    let n = length zeros % 65536 in
    let written = header 1 (to_byte psh) n 5 ++ zeros in
    (encode bytes_crate (Codec.new large) (push 1 5 zeros) [] ≡ (ok tt, [] ++ written))
    × (decode bytes_crate (Codec.new large) written
        ≡ (ok (some (push 1 5 (take n zeros))), drop n zeros))
    × (length (take n zeros) < length zeros)
    × (drop n zeros ≢ [])
encode_truncates_example =
    encode_truncates bytes_crate large 1 5 zeros [] (omega arith) (omega arith)
      (record {
        has_version = omega arith;
        fits = omega (arith, length-replicate {A = ℕ} 65536 0);
        shaped = omega arith;
      })
      (omega (arith, length-replicate {A = ℕ} 65536 0))

validate_iff_example :
    (validate update_frame Config.default ≡ ok tt) ↔ IsValidFrame 32768 update_frame
validate_iff_example = validate_iff update_frame Config.default

abbrev v2_builder : ConfigBuilder
v2_builder = record { config = record (Config.default) { version = 2 } }

build_lem_example :
    (build v2_builder ≡ ok (v2_builder.config))
    ↔ ((v2_builder.config ≡ v2_builder.config) × IsValidConfig v2_builder.config)
build_lem_example = build_lem v2_builder v2_builder.config

from_byte_iff_example :
    (from_byte 4 ≡ ok (upd 0 0)) ↔ ((to_byte (upd 0 0) ≡ 4) × (bare (upd 0 0) ≡ upd 0 0))
from_byte_iff_example = from_byte_iff 4 (upd 0 0)

-- The default configuration is valid.
build-default : build Config.new ≡ ok Config.default
unfolding Config.new build
build-default = refl

-- A window update, with a byte behind it.
decode_iff_example :
    (decode bytes_crate codec
        (2 ∷ 4 ∷ 8 ∷ 0 ∷ 123 ∷ 0 ∷ 0 ∷ 0 ∷ 100 ∷ 0 ∷ 0 ∷ 0 ∷ 200 ∷ 0 ∷ 0 ∷ 0 ∷ 9 ∷ [])
      ≡ (ok (some update_frame), 9 ∷ []))
    ↔ BeginsWith codec update_frame
        (9 ∷ [])
        (2 ∷ 4 ∷ 8 ∷ 0 ∷ 123 ∷ 0 ∷ 0 ∷ 0 ∷ 100 ∷ 0 ∷ 0 ∷ 0 ∷ 200 ∷ 0 ∷ 0 ∷ 0 ∷ 9 ∷ [])
decode_iff_example =
    decode_iff bytes_crate codec
      (2 ∷ 4 ∷ 8 ∷ 0 ∷ 123 ∷ 0 ∷ 0 ∷ 0 ∷ 100 ∷ 0 ∷ 0 ∷ 0 ∷ 200 ∷ 0 ∷ 0 ∷ 0 ∷ 9 ∷ []) update_frame
      (9 ∷ []) (omega arith)
