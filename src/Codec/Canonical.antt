-- ===== src/Codec/Canonical.antt =====
-- src/codec.rs: the buffers from which `decode` returns a frame.
use smux.Base.{
  ℕ, ◌+◌, ◌≤◌, ◌<◌, ◌≡◌, ◌↔◌, subst, sym, ap, ◌∙◌, List, ◌∷◌, ◌++◌, length, take, drop, arith,
  take-append-drop, length-take, All-take, ltb, ltb-false→le, some, Bool-cases, inl, inr, All,
}
use smux.Error.{Result-cases, ok}
use smux.Command.{Command, from_byte, to_byte}
use smux.Command.Bytes.{from_byte_iff}
use smux.Frame.{Frame, header_size}
use smux.Frame.Valid.{IsValidFrame}
use smux.Codec.{Codec, decode, make_frame}
use smux.Codec.Wire.{decode_short, wire, body}
use smux.Codec.Decode.{decode_lem, make_frame-IsValidFrame}
use smux.Codec.RoundTrip.{IsU8, IsTyped, decode-wire}
use smux.Crates.Bytes.{BytesCrate, le16, le32}
use smux.Codec.Inverse.{make_frame-MadeOf, wire-made, to_byte-bare}

-- The buffer begins with the bytes of the frame, which is one that `decode` admits; `rest` follows.
pub record BeginsWith (codec : Codec) (f : Frame) (rest src : List ℕ) : Type 0 where
  pub bytes : src ≡ wire f ++ rest
  pub typed : IsTyped f
  pub valid : IsValidFrame codec.config.max_frame_size f
  pub fits : header_size + length (body f) ≤ codec.max_frame_size
  pub short : length (body f) < 65536

module _ (B : BytesCrate) where
  made-BeginsWith :
      (codec : Codec) (v b l0 l1 i0 i1 i2 i3 : ℕ) (more : List ℕ) (cmd : Command) (f : Frame)
      → let len = le16 l0 l1 in
        let src = v ∷ b ∷ l0 ∷ l1 ∷ i0 ∷ i1 ∷ i2 ∷ i3 ∷ more in
        All IsU8 src
        → from_byte b ≡ ok cmd
        → header_size + len ≤ codec.max_frame_size
        → len ≤ length more
        → make_frame B codec v cmd (le32 i0 i1 i2 i3) (take len more) ≡ ok (some f)
        → BeginsWith codec f (drop len more) src
  made-BeginsWith codec v b l0 l1 i0 i1 i2 i3 more cmd f
        (hv, (hb, (hl0, (hl1, (h0, (h1, (h2, (h3, u8)))))))) q fits whole h =
      let len = le16 l0 l1 in
      let (byte, is_bare) = (from_byte_iff b cmd).0 q in
      let made =
        make_frame-MadeOf B codec v cmd (le32 i0 i1 i2 i3) (take len more) f is_bare
          (All-take IsU8 len more u8) h in
      let body_len : length (body f) ≡ len =
        ap (λ (l : List ℕ). length l) made.same_body ∙ omega (arith, length-take len more) in
      let (g, found, is_valid) =
        make_frame-IsValidFrame B codec v cmd (le32 i0 i1 i2 i3) (take len more) (some f) h in
      let same : f ≡ g = cc found in
      let cmd_byte : to_byte f.cmd ≡ b =
        sym (to_byte-bare f.cmd) ∙ ap to_byte made.same_command ∙ byte in
      record {
        bytes = sym (
            ap (λ (l : List ℕ). l ++ drop len more)
              (wire-made v b l0 l1 i0 i1 i2 i3 (take len more) f
                (hv, (hb, (hl0, (hl1, (h0, (h1, (h2, (h3, tt)))))))) made.same_version cmd_byte
                body_len made.same_id made.same_body)
            ∙ ap (λ (l : List ℕ). v ∷ b ∷ l0 ∷ l1 ∷ i0 ∷ i1 ∷ i2 ∷ i3 ∷ l)
                (take-append-drop len more));
        typed = record {
          version_u8 = omega (arith, made.same_version, hv);
          id_u32 = omega (arith, made.same_id);
          cmd_u32 = made.command_u32;
        };
        valid = subst (IsValidFrame codec.config.max_frame_size) (sym same) is_valid;
        fits = omega (arith, body_len);
        short = omega (arith, body_len);
      }

  decode_sound :
      (codec : Codec) (src : List ℕ) (f : Frame) (rest : List ℕ)
      → All IsU8 src
      → decode B codec src ≡ (ok (some f), rest)
      → BeginsWith codec f rest src
  decode_sound codec (v ∷ b ∷ l0 ∷ l1 ∷ i0 ∷ i1 ∷ i2 ∷ i3 ∷ more) f rest u8 h =
      let src : List ℕ = v ∷ b ∷ l0 ∷ l1 ∷ i0 ∷ i1 ∷ i2 ∷ i3 ∷ more in
      let e = sym (decode_lem B codec v b l0 l1 i0 i1 i2 i3 more) ∙ h in
      elim (Result-cases (from_byte b)) [
        | inr (x, q) ↦ absurd (cc (rw q at e))
        | inl (cmd, q) ↦ elim (Bool-cases (ltb codec.max_frame_size (header_size + le16 l0 l1))) [
          | inl large ↦ absurd (cc (rw (q, large) at e))
          | inr fits ↦ elim (Bool-cases (ltb (length src) (header_size + le16 l0 l1))) [
            | inl waits ↦ absurd (cc (rw (q, fits, waits) at e))
            | inr whole ↦
                let made = rw (q, fits, whole) at e in
                subst (λ r. BeginsWith codec f r src) (ap (λ x. x.1) made)
                  (made-BeginsWith codec v b l0 l1 i0 i1 i2 i3 more cmd f u8 q
                    (ltb-false→le _ _ fits) (omega (arith, ltb-false→le _ _ whole))
                    (ap (λ x. x.0) made))
          ]
        ]
      ]
  decode_sound codec src f rest u8 h =
      absurd (cc (sym (decode_short B codec src (omega arith)) ∙ h))

  -- On a buffer of bytes, `decode` returns a frame exactly where the buffer begins with the bytes of
  -- that frame, all of its fields in the ranges of their Rust types, and it leaves exactly what
  -- follows them; the frame is valid for the configuration, within `max_frame_size`, and its length
  -- fits the length field.
  pub decode_iff :
      (codec : Codec) (src : List ℕ) (f : Frame) (rest : List ℕ)
      → All IsU8 src
      → (decode B codec src ≡ (ok (some f), rest)) ↔ BeginsWith codec f rest src
  decode_iff codec src f rest u8 = (
    decode_sound codec src f rest u8,
    λ h. ap (decode B codec) h.bytes ∙ decode-wire B codec f rest h.typed h.valid h.fits h.short,
  )
