-- ===== src/Codec/Sequence.antt =====
-- src/codec.rs: frames written one after another, as the send loop's sink does, and read in a loop,
-- as the receive loop's stream does.
use smux.Base.{
  ℕ, zero, suc, ◌≤◌, ◌<◌, ◌≡◌, List, [], ◌∷◌, ◌++◌, append_assoc, append-nil, length, arith, All,
  ap, ◌∙◌, Option, none, some, inl, inr,
}
use smux.Error.{Result, Result-cases, ok, err}
use smux.Config.{Config}
use smux.Frame.{Frame}
use smux.Codec
use smux.Codec.{Codec, decode, encode}
use smux.Codec.Wire.{wire}
use smux.Codec.Wire.{decode_short}
use smux.Codec.RoundTrip.{IsTyped, decode-encode, encode_ok-IsValidFrame}
use smux.Crates.Bytes.{BytesCrate}

abbrev pub wires : List Frame → List ℕ
wires [] = []
wires (f ∷ fs) = wire f ++ wires fs

-- One round of reading: a frame goes in front of those that `rest_of` reads behind it.
abbrev next_frame :
    (List ℕ → List Frame × List ℕ) → Result (Option Frame) × List ℕ → List Frame × List ℕ
next_frame rest_of (ok (some f), rest) = let (fs, left) = rest_of rest in (f ∷ fs, left)
next_frame rest_of (ok none, rest) = ([], rest)
next_frame rest_of (err e, rest) = ([], rest)

module _ (B : BytesCrate) where
  -- Encodes until the first error.
  unfoldable pub encode_all : Codec → List Frame → List ℕ → Result (Unit {0}) × List ℕ
  encode_all codec [] dst = (ok tt, dst)
  encode_all codec (f ∷ fs) dst =
      let (r, out) = encode B codec f dst in
      elim r [ err e ↦ (err e, out) | ok _ ↦ encode_all codec fs out ]

  -- Decodes at most `fuel` frames, until one is not there whole or an error.
  unfoldable pub decode_all : ℕ → Codec → List ℕ → List Frame × List ℕ
  decode_all zero codec src = ([], src)
  decode_all (suc fuel) codec src = next_frame (decode_all fuel codec) (decode B codec src)

  abbrev Reads : Config → Frame → Type 0
  Reads cfg f = (rest : List ℕ) → decode B (Codec.new cfg) (wire f ++ rest) ≡ (ok (some f), rest)

  encode-Reads :
      (cfg : Config) (f : Frame) (dst out : List ℕ)
      → cfg.max_frame_size ≤ 65543
      → IsTyped f
      → encode B (Codec.new cfg) f dst ≡ (ok tt, out)
      → (out ≡ dst ++ wire f) × Reads cfg f
  unfolding Codec.new
  encode-Reads cfg f dst out small t e =
      let h = encode_ok-IsValidFrame B (Codec.new cfg) f dst out e in
      let short : length f.payload < 65536 = omega (arith, h.fits) in
      (
        (decode-encode B cfg f dst out [] t short e).0,
        λ rest. (decode-encode B cfg f dst out rest t short e).1,
      )

  encode_all-Reads :
      (cfg : Config) (fs : List Frame) (dst out : List ℕ)
      → cfg.max_frame_size ≤ 65543
      → All IsTyped fs
      → encode_all (Codec.new cfg) fs dst ≡ (ok tt, out)
      → (out ≡ dst ++ wires fs) × All (Reads cfg) fs
  unfolding encode_all
  encode_all-Reads cfg [] dst out small t e = (rw (append-nil dst) (ground arith), tt)
  encode_all-Reads cfg (f ∷ fs) dst out small (t, ts) e =
      elim (Result-cases (encode B (Codec.new cfg) f dst).0) [
        | inr (x, q) ↦ absurd (cc (rw (q, encode_all) at e))
        | inl (done, q) ↦
            let mid : List ℕ = (encode B (Codec.new cfg) f dst).1 in
            let step : encode B (Codec.new cfg) f dst ≡ (ok tt, mid) = λ i. (q i, mid) in
            let (written, read) = encode-Reads cfg f dst mid small t step in
            let (others, reads) =
              encode_all-Reads cfg fs mid out small ts (rw (q, encode_all) at e) in
            (
              others
                  ∙ ap (λ (d : List ℕ). d ++ wires fs) written
                  ∙ append_assoc dst (wire f) (wires fs),
              (read, reads),
            )
      ]

  decode_all-wires :
      (cfg : Config) (fs : List Frame) (fuel : ℕ)
      → length fs < fuel
      → All (Reads cfg) fs
      → decode_all fuel (Codec.new cfg) (wires fs) ≡ (fs, [])
  unfolding decode_all
  decode_all-wires cfg fs zero h r = absurd (omega arith)
  decode_all-wires cfg [] (suc fuel) h r = rw (decode_short B (Codec.new cfg) [] (omega arith))
  decode_all-wires cfg (f ∷ fs) (suc fuel) h (r, rs) =
      rw (r (wires fs), decode_all-wires cfg fs fuel (omega arith) rs)

  -- With `max_frame_size` at most 65543, whatever frames were encoded one after another with no
  -- error are decoded in the same order, all of them, with nothing left over, given fuel for one
  -- more round than there are frames.
  pub decode_all-encode_all :
      (cfg : Config) (fs : List Frame) (out : List ℕ) (fuel : ℕ)
      → cfg.max_frame_size ≤ 65543
      → All IsTyped fs
      → length fs < fuel
      → encode_all (Codec.new cfg) fs [] ≡ (ok tt, out)
      → decode_all fuel (Codec.new cfg) out ≡ (fs, [])
  decode_all-encode_all cfg fs out fuel small t h e =
      let (same, reads) = encode_all-Reads cfg fs [] out small t e in
      rw same (decode_all-wires cfg fs fuel h reads)
