-- ===== src/Codec/Inverse.antt =====
-- src/codec.rs: what the fields of a decoded frame were read from.
use smux.Base.{
  ℕ, ◌%◌, ◌/◌, ◌≤◌, ◌≡◌, ◌≢◌, subst, refl, ap, ◌∙◌, List, [], ◌∷◌, ◌++◌, length, arith, leb, le→leb,
  some, Bool-cases, inl, inr, All,
}
use smux.Error.{Result-cases, ok, ◌>>◌}
use smux.Command.{Command, syn, fin, psh, nop, upd, to_byte}
use smux.Command.Bytes.{bare}
use smux.Frame
use smux.Frame.{Frame, header_size, validate}
use smux.Frame.Valid.{validate_iff}
use smux.Config.{Config}
use smux.Codec.{Codec, make_frame, final_command, decode_upd_data}
use smux.Codec.Wire.{decode_upd_data_lem, wire, body, header}
use smux.Codec.RoundTrip.{IsU8, IsTypedCommand}
use smux.Crates.Bytes.{BytesCrate, le16, le32, bytes16, bytes32}

pub bytes16-le16 : (a b : ℕ) → IsU8 a → IsU8 b → bytes16 (le16 a b) ≡ a ∷ b ∷ []
bytes16-le16 a b ha hb =
    let p : le16 a b % 256 ≡ a = omega arith in
    let q : le16 a b / 256 % 256 ≡ b = omega arith in rw (p, q)

pub bytes32-le32 :
    (a b c d : ℕ) → IsU8 a → IsU8 b → IsU8 c → IsU8 d → bytes32 (le32 a b c d) ≡ a ∷ b ∷ c ∷ d ∷ []
bytes32-le32 a b c d ha hb hc hd =
    let p : le32 a b c d % 256 ≡ a = omega arith in
    let q : le32 a b c d / 256 % 256 ≡ b = omega arith in
    let r : le32 a b c d / 65536 % 256 ≡ c = omega arith in
    let s : le32 a b c d / 16777216 % 256 ≡ d = omega arith in rw (p, q, r, s)

pub to_byte-bare : (c : Command) → to_byte (bare c) ≡ to_byte c
unfolding to_byte
to_byte-bare syn = refl
to_byte-bare _ = refl

-- The bytes of a frame whose fields were read from them.
pub wire-made :
    (v b l0 l1 i0 i1 i2 i3 : ℕ) (bytes : List ℕ) (f : Frame)
    → All IsU8 (v ∷ b ∷ l0 ∷ l1 ∷ i0 ∷ i1 ∷ i2 ∷ i3 ∷ [])
    → f.version ≡ v
    → to_byte f.cmd ≡ b
    → length (body f) ≡ le16 l0 l1
    → f.stream_id ≡ le32 i0 i1 i2 i3
    → body f ≡ bytes
    → wire f ≡ v ∷ b ∷ l0 ∷ l1 ∷ i0 ∷ i1 ∷ i2 ∷ i3 ∷ bytes
wire-made v b l0 l1 i0 i1 i2 i3 bytes f (hv, (hb, (hl0, (hl1, (h0, (h1, (h2, (h3, _)))))))) ev eb el
      ei es =
    ap (λ x. header x (to_byte f.cmd) (length (body f)) f.stream_id ++ body f) ev
    ∙ ap (λ x. header v x (length (body f)) f.stream_id ++ body f) eb
    ∙ ap (λ x. header v b x f.stream_id ++ body f) el
    ∙ ap (λ x. header v b (le16 l0 l1) x ++ body f) ei
    ∙ ap (λ (l : List ℕ). v ∷ b ∷ l ++ bytes32 (le32 i0 i1 i2 i3) ++ body f)
        (bytes16-le16 l0 l1 hl0 hl1)
    ∙ ap (λ (l : List ℕ). v ∷ b ∷ l0 ∷ l1 ∷ l ++ body f) (bytes32-le32 i0 i1 i2 i3 h0 h1 h2 h3)
    ∙ ap (λ (l : List ℕ). v ∷ b ∷ l0 ∷ l1 ∷ i0 ∷ i1 ∷ i2 ∷ i3 ∷ l) es

-- The end of `make_frame`: the frame is checked, and returned.
checked-frame :
    (fr f : Frame) (cfg : Config)
    → (validate fr cfg >> ok (some fr)) ≡ ok (some f)
    → (fr ≡ f) × (validate fr cfg ≡ ok tt)
checked-frame fr f cfg h = elim (Result-cases (validate fr cfg)) [
  | inl (u, e) ↦ (ground (arith, rw e at h), e)
  | inr (x, e) ↦ absurd (ground (arith, rw e at h))
]

module _ (B : BytesCrate) where
  -- What a frame that `make_frame` returns was made of.
  pub record MadeOf (v : ℕ) (cmd : Command) (i : ℕ) (bytes : List ℕ) (f : Frame) : Type 0 where
    pub same_version : f.version ≡ v
    pub same_id : f.stream_id ≡ i
    pub same_command : bare f.cmd ≡ cmd
    pub same_body : body f ≡ bytes
    pub command_u32 : IsTypedCommand f.cmd

  -- Where `decode` reads an update, the version is 2 at least.
  upd-version :
      (codec : Codec) (v c w i : ℕ) (f : Frame)
      → (validate (Frame.new v (upd c w) i []) codec.config
          >> ok (some (Frame.new v (upd c w) i [])))
        ≡ ok (some f)
      → 2 ≤ v
  unfolding Frame.new
  upd-version codec v c w i f h =
      let fr : Frame = Frame.new v (upd c w) i [] in
      ((validate_iff fr codec.config).0 (checked-frame fr f codec.config h).1).shaped.2

  wrong_length :
      (codec : Codec) (v i : ℕ) (bytes : List ℕ) (f : Frame)
      → length bytes ≢ 8
      → make_frame B codec v (upd 0 0) i bytes ≢ ok (some f)
  unfolding make_frame final_command decode_upd_data
  wrong_length codec v i bytes f ne h = elim (Bool-cases (leb 2 v)) [
    | inl new ↦ ground (arith, ne, h, new)
    | inr old ↦ cc (old, le→leb 2 v (upd-version codec v 0 0 i f (rw old at h)))
  ]

  upd-MadeOf :
      (codec : Codec) (v i : ℕ) (bytes : List ℕ) (f : Frame)
      → All IsU8 bytes
      → make_frame B codec v (upd 0 0) i bytes ≡ ok (some f)
      → MadeOf v (upd 0 0) i bytes f
  unfolding make_frame final_command Frame.new
  upd-MadeOf codec v i (a ∷ b ∷ c ∷ d ∷ a' ∷ b' ∷ c' ∷ d' ∷ []) f
        (ha, (hb, (hc, (hd, (ha', (hb', (hc', (hd', none_left)))))))) h =
      elim (Bool-cases (leb 2 v)) [
        | inl new ↦
            let fr : Frame = Frame.new v (upd (le32 a b c d) (le32 a' b' c' d')) i [] in
            let made =
              checked-frame fr f codec.config
                (rw (new, decode_upd_data_lem B a b c d a' b' c' d') at h) in
            subst (MadeOf v (upd 0 0) i _) made.0 (record {
              same_version = refl;
              same_id = refl;
              same_command = refl;
              same_body =
                  ap (λ (l : List ℕ). l ++ bytes32 (le32 a' b' c' d'))
                    (bytes32-le32 a b c d ha hb hc hd)
                  ∙ ap (λ (l : List ℕ). a ∷ b ∷ c ∷ d ∷ l)
                      (bytes32-le32 a' b' c' d' ha' hb' hc' hd');
              command_u32 = (omega arith, omega arith);
            })
        | inr old ↦ absurd (cc (old, le→leb 2 v (upd-version codec v 0 0 i f (rw old at h))))
      ]
  upd-MadeOf codec v i bytes f u8 h =
      absurd (wrong_length codec v i bytes f (λ e. omega (arith, e)) h)

  pub make_frame-MadeOf :
      (codec : Codec) (v : ℕ) (cmd : Command) (i : ℕ) (bytes : List ℕ) (f : Frame)
      → bare cmd ≡ cmd
      → All IsU8 bytes
      → make_frame B codec v cmd i bytes ≡ ok (some f)
      → MadeOf v cmd i bytes f
  unfolding make_frame final_command Frame.new
  make_frame-MadeOf codec v (upd c w) i bytes f e u8 h =
      subst (λ x. MadeOf v x i bytes f) e
        (upd-MadeOf codec v i bytes f u8 (ap (λ x. make_frame B codec v x i bytes) e ∙ h))
  make_frame-MadeOf codec v syn i bytes f e u8 h =
      subst (MadeOf v syn i bytes) (checked-frame (Frame.new v syn i bytes) f codec.config h).0
        (record {
          same_version = refl;
          same_id = refl;
          same_command = refl;
          same_body = refl;
          command_u32 = tt;
        })
  make_frame-MadeOf codec v fin i bytes f e u8 h =
      subst (MadeOf v fin i bytes) (checked-frame (Frame.new v fin i bytes) f codec.config h).0
        (record {
          same_version = refl;
          same_id = refl;
          same_command = refl;
          same_body = refl;
          command_u32 = tt;
        })
  make_frame-MadeOf codec v psh i bytes f e u8 h =
      subst (MadeOf v psh i bytes) (checked-frame (Frame.new v psh i bytes) f codec.config h).0
        (record {
          same_version = refl;
          same_id = refl;
          same_command = refl;
          same_body = refl;
          command_u32 = tt;
        })
  make_frame-MadeOf codec v nop i bytes f e u8 h =
      subst (MadeOf v nop i bytes) (checked-frame (Frame.new v nop i bytes) f codec.config h).0
        (record {
          same_version = refl;
          same_id = refl;
          same_command = refl;
          same_body = refl;
          command_u32 = tt;
        })
