-- ===== src/Codec/RoundTrip.antt =====
-- src/codec.rs: `decode` after `encode`.
use smux.Base.{
  ℕ, ◌+◌, ◌/◌, ◌%◌, ◌^◌, ◌≤◌, ◌<◌, ◌≡◌, refl, List, ◌++◌, append_assoc, length, arith, take-append,
  drop-append, take_all, drop_all, ◌∙◌, length-append, ltb, false, le→leb, ltb-false→le,
  if◌then◌else◌, some, inl, inr,
}
use smux.Error.{Result-cases, ok, err, SmuxError}
use smux.Command.{Command, syn, upd, to_byte}
use smux.Command.Bytes.{bare, from_byte-to_byte}
use smux.Config.{Config}
use smux.Frame
use smux.Frame.{Frame, header_size, validate}
use smux.Frame.Valid.{IsValidFrame, validate_iff}
use smux.Codec
use smux.Codec.{
  Codec, decode, encode, make_frame, final_command, decode_upd_data, data_to_encode, frame_data,
}
use smux.Codec.Wire.{
  header, body, body_of, wire, decode_complete, encode_header_lem, encode_upd_data_lem,
  decode_upd_data_lem,
}
use native.Mathlib.Nat.{le_refl, mod-eq_of_lt}
use smux.Crates.Bytes.{BytesCrate, le16, le32}

abbrev pub IsU8 : ℕ → Type 0
IsU8 n = n < 256

abbrev pub IsU32 : ℕ → Type 0
IsU32 n = n < 2 ^ 32

abbrev pub IsTypedCommand : Command → Type 0
IsTypedCommand c = elim c [ upd n w ↦ IsU32 n × IsU32 w | _ ↦ Unit {0} ]

-- The ranges that the fields' Rust types give.
pub record IsTyped (f : Frame) : Type 0 where
  pub version_u8 : IsU8 f.version
  pub id_u32 : IsU32 f.stream_id
  pub cmd_u32 : IsTypedCommand f.cmd

pub le16-bytes16 : (n : ℕ) → n < 65536 → le16 (n % 256) (n / 256 % 256) ≡ n
le16-bytes16 n h = omega arith

pub le32-bytes32 :
    (n : ℕ) → IsU32 n → le32 (n % 256) (n / 256 % 256) (n / 65536 % 256) (n / 16777216 % 256) ≡ n
le32-bytes32 n h = omega arith

module _ (B : BytesCrate) where
  decode-encode_upd :
      (c w : ℕ) (bytes : List ℕ)
      → IsU32 c
      → IsU32 w
      → decode_upd_data B (body_of (upd c w) bytes) ≡ ok (c, w)
  decode-encode_upd c w bytes hc hw = rw (
    decode_upd_data_lem B (c % 256) (c / 256 % 256) (c / 65536 % 256) (c / 16777216 % 256) (w % 256)
        (w / 256 % 256) (w / 65536 % 256) (w / 16777216 % 256),
    le32-bytes32 c hc,
    le32-bytes32 w hw,
  )

  -- Of a valid frame the last part of `decode` rebuilds every field.
  pub make_frame-body :
      (codec : Codec) (v : ℕ) (cmd : Command) (i : ℕ) (bytes : List ℕ)
      → let f : Frame = record { version = v; cmd = cmd; stream_id = i; payload = bytes } in
        IsTyped f
        → IsValidFrame codec.config.max_frame_size f
        → make_frame B codec v (bare cmd) i (body_of cmd bytes) ≡ ok (some f)
  unfolding make_frame final_command Frame.new
  make_frame-body codec v (upd c w) i bytes t h = rw (
    le→leb 2 v h.shaped.2,
    decode-encode_upd c w bytes t.cmd_u32.0 t.cmd_u32.1,
    h.shaped.0,
    (validate_iff _ codec.config).1 (rw h.shaped.0 at h),
  )
  make_frame-body codec v syn i bytes t h = rw ((validate_iff _ codec.config).1 h)
  make_frame-body codec v _ i bytes t h = rw ((validate_iff _ codec.config).1 h)

  -- `decode` reads back any valid frame that fits, and leaves what follows it.
  pub decode-wire :
      (codec : Codec) (f : Frame) (rest : List ℕ)
      → IsTyped f
      → IsValidFrame codec.config.max_frame_size f
      → header_size + length (body f) ≤ codec.max_frame_size
      → length (body f) < 65536
      → decode B codec (wire f ++ rest) ≡ (ok (some f), rest)
  decode-wire codec f rest t h fits short =
      decode_complete B codec f.version (to_byte f.cmd) _ _ _ _ _ _ (body f ++ rest) (bare f.cmd)
        (from_byte-to_byte f.cmd) (rw (le16-bytes16 (length (body f)) short) fits)
        (rw (le16-bytes16 (length (body f)) short) (omega (arith, length-append (body f) rest)))
      ∙ rw (
        le16-bytes16 (length (body f)) short,
        le32-bytes32 f.stream_id t.id_u32,
        take-append (length (body f)) (body f) rest (le_refl _),
        drop-append (length (body f)) (body f) rest (le_refl _),
        take_all (body f),
        drop_all (body f),
        make_frame-body codec f.version f.cmd f.stream_id f.payload t h,
      )

  data_to_encode-body :
      (m v : ℕ) (cmd : Command) (i : ℕ) (bytes : List ℕ)
      → let f : Frame = record { version = v; cmd = cmd; stream_id = i; payload = bytes } in
        IsValidFrame m f → data_to_encode B f ≡ body_of cmd bytes
  unfolding data_to_encode
  data_to_encode-body m v (upd c w) i bytes h =
      rw (le→leb 2 v h.shaped.2, encode_upd_data_lem B c w)
  data_to_encode-body m v syn i bytes h = refl
  data_to_encode-body m v _ i bytes h = refl

  -- `encode` appends the header and the body of a valid frame, or refuses it for its size.
  pub encode_lem :
      (codec : Codec) (f : Frame) (dst : List ℕ)
      → IsU8 f.version
      → IsValidFrame codec.config.max_frame_size f
      → let len = length (body f) % 65536 in
        encode B codec f dst ≡ (
          if ltb codec.max_frame_size (header_size + len)
          then (err (SmuxError.frame_too_large (header_size + len) codec.max_frame_size), dst)
          else (ok tt, dst ++ (header f.version (to_byte f.cmd) len f.stream_id ++ body f)))
  unfolding encode
  encode_lem codec f dst t h = rw (
    (validate_iff f codec.config).1 h,
    encode,
    data_to_encode-body codec.config.max_frame_size f.version f.cmd f.stream_id f.payload h,
    encode_header_lem B dst f.version f.cmd f.stream_id _ t,
    B.put_slice_lem,
    append_assoc dst (header f.version (to_byte f.cmd) (length (body f) % 65536) f.stream_id),
  )

  pub body_of-short :
      (cmd : Command) (bytes : List ℕ) → length bytes < 65536 → length (body_of cmd bytes) < 65536
  body_of-short (upd c w) bytes h = omega arith
  body_of-short syn bytes h = h
  body_of-short _ bytes h = h

  -- Only a valid frame is encoded.
  pub encode_ok-IsValidFrame :
      (codec : Codec) (f : Frame) (dst out : List ℕ)
      → encode B codec f dst ≡ (ok tt, out)
      → IsValidFrame codec.config.max_frame_size f
  unfolding encode
  encode_ok-IsValidFrame codec f dst out e = elim (Result-cases (validate f codec.config)) [
    | inl (_, v) ↦ (validate_iff f codec.config).0 v
    | inr (x, v) ↦ absurd (cc (rw (v, encode) at e))
  ]

  -- For a frame with the field ranges of its Rust types and less than 64 KiB of payload: if
  -- `encode` succeeds, what it appended decodes to that same frame, and `decode` stops exactly
  -- where the next bytes begin.
  pub decode-encode :
      (cfg : Config) (f : Frame) (dst out rest : List ℕ)
      → IsTyped f
      → length f.payload < 65536
      → encode B (Codec.new cfg) f dst ≡ (ok tt, out)
      → (out ≡ dst ++ wire f) × (decode B (Codec.new cfg) (wire f ++ rest) ≡ (ok (some f), rest))
  unfolding Codec.new
  decode-encode cfg f dst out rest t short e =
      let h : IsValidFrame cfg.max_frame_size f =
        encode_ok-IsValidFrame (Codec.new cfg) f dst out e in
      let small : length (body f) < 65536 = body_of-short f.cmd f.payload short in
      let same : length (body f) % 65536 ≡ length (body f) = mod-eq_of_lt small in
      let wrote = encode_lem (Codec.new cfg) f dst t.version_u8 h in
      let test : ltb cfg.max_frame_size (header_size + length (body f)) ≡ false =
        ground (arith, wrote) in
      (ground (arith, wrote), decode-wire (Codec.new cfg) f rest t h (ltb-false→le _ _ test) small)
