-- ===== src/Codec/Decode.antt =====
-- src/codec.rs: `decode` and `encode` on any input.
use smux.Base.{
  ℕ, ◌+◌, ◌≤◌, ◌≡◌, refl, List, [], ◌∷◌, ◌++◌, length, take, drop, arith, take-append-drop,
  length-take, false, ltb, ltb-false→le, if◌then◌else◌, Option, none, some, Bool-cases, inl, inr,
}
use smux.Error.{Result, Result-cases, ok, err, SmuxError, is_recoverable}
use smux.Command.{Command, syn, upd, from_byte}
use smux.Config.{Config}
use smux.Frame
use smux.Frame.{Frame, header_size, validate}
use smux.Frame.Valid.{IsValidFrame, validate_iff}
use smux.Codec.{Codec, decode, make_frame, final_command, decode_upd_data, frame_data}
use smux.Codec.Wire.{decode_header_lem, take_frame_lem, decode_short}
use smux.Crates.Bytes.{BytesCrate, le16, le32}

from_byte-unrecoverable : (b : ℕ) (e : SmuxError) → from_byte b ≡ err e → is_recoverable e ≡ false
unfolding from_byte is_recoverable
from_byte-unrecoverable b e h = ground arith

pub validate-unrecoverable :
    (f : Frame) (cfg : Config) (e : SmuxError) → validate f cfg ≡ err e → is_recoverable e ≡ false
unfolding validate is_recoverable
validate-unrecoverable f cfg e h = ground arith

-- What an answer of `decode` says of the buffer it was given.
abbrev pub Outcome : Codec → List ℕ → Result (Option Frame) × List ℕ → Type 0
Outcome codec src (err e, rest) =
    (is_recoverable e ≡ false) × (used : List ℕ) × (src ≡ used ++ rest)
Outcome codec src (ok none, rest) = rest ≡ src
Outcome codec src (ok (some f), rest) =
    IsValidFrame codec.config.max_frame_size f
    × (used : List ℕ) × (src ≡ used ++ rest)
    × (header_size ≤ length used)
    × (length used ≤ codec.max_frame_size)

module _ (B : BytesCrate) where
  final_command-unrecoverable :
      (v : ℕ) (cmd : Command) (bytes : List ℕ) (e : SmuxError)
      → final_command B v cmd bytes ≡ err e
      → is_recoverable e ≡ false
  unfolding final_command decode_upd_data is_recoverable
  final_command-unrecoverable v (upd c w) bytes e h = ground arith
  final_command-unrecoverable v syn bytes e h = cc
  final_command-unrecoverable v _ bytes e h = cc

  make_frame-unrecoverable :
      (codec : Codec) (v : ℕ) (cmd : Command) (i : ℕ) (bytes : List ℕ) (e : SmuxError)
      → make_frame B codec v cmd i bytes ≡ err e
      → is_recoverable e ≡ false
  unfolding make_frame
  make_frame-unrecoverable codec v cmd i bytes e h =
      elim (Result-cases (final_command B v cmd bytes)) [
        | inr (x, q) ↦ ground (arith, final_command-unrecoverable v cmd bytes x q)
        | inl (final, q) ↦ ground (
          arith,
          validate-unrecoverable (Frame.new v final i (frame_data final bytes)) codec.config e,
        )
      ]

  pub make_frame-IsValidFrame :
      (codec : Codec) (v : ℕ) (cmd : Command) (i : ℕ) (bytes : List ℕ) (o : Option Frame)
      → make_frame B codec v cmd i bytes ≡ ok o
      → (f : Frame) × (o ≡ some f) × IsValidFrame codec.config.max_frame_size f
  unfolding make_frame
  make_frame-IsValidFrame codec v cmd i bytes o h =
      elim (Result-cases (final_command B v cmd bytes)) [
        | inr (x, q) ↦ absurd (cc)
        | inl (final, q) ↦
            let f : Frame = Frame.new v final i (frame_data final bytes) in
            (f, ground arith, (validate_iff f codec.config).0 (ground arith))
      ]

  -- `decode` on a buffer with a whole header, all branches.
  pub decode_lem :
      (codec : Codec) (v b l0 l1 i0 i1 i2 i3 : ℕ) (more : List ℕ)
      → let src = v ∷ b ∷ l0 ∷ l1 ∷ i0 ∷ i1 ∷ i2 ∷ i3 ∷ more in
        let len = le16 l0 l1 in
        decode B codec src ≡ elim (from_byte b) [
          | err e ↦ (err e, src)
          | ok cmd ↦
              if ltb codec.max_frame_size (header_size + len)
              then (err (SmuxError.frame_too_large (header_size + len) codec.max_frame_size), src)
              else if ltb (length src) (header_size + len)
              then (ok none, src)
              else (make_frame B codec v cmd (le32 i0 i1 i2 i3) (take len more), drop len more)
        ]
  unfolding decode
  decode_lem codec v b l0 l1 i0 i1 i2 i3 more = elim (Result-cases (from_byte b)) [
    | inr (e, q) ↦ rw (decode_header_lem B v b l0 l1 i0 i1 i2 i3 more, q) (ground arith)
    | inl (cmd, q) ↦
        rw (decode_header_lem B v b l0 l1 i0 i1 i2 i3 more, q)
          (ground (arith, take_frame_lem B codec v b l0 l1 i0 i1 i2 i3 more cmd q))
  ]

  make_frame-Outcome :
      (codec : Codec) (v b l0 l1 i0 i1 i2 i3 : ℕ) (more : List ℕ) (cmd : Command)
      → let len = le16 l0 l1 in
        header_size + len ≤ codec.max_frame_size
        → len ≤ length more
        → Outcome codec
            (v ∷ b ∷ l0 ∷ l1 ∷ i0 ∷ i1 ∷ i2 ∷ i3 ∷ more)
            (make_frame B codec v cmd (le32 i0 i1 i2 i3) (take len more), drop len more)
  make_frame-Outcome codec v b l0 l1 i0 i1 i2 i3 more cmd fits whole =
      elim (Result-cases (make_frame B codec v cmd (le32 i0 i1 i2 i3) (take (le16 l0 l1) more))) [
        | inr (e, q) ↦ rw q (
          make_frame-unrecoverable codec v cmd _ _ e q,
          v ∷ b ∷ l0 ∷ l1 ∷ i0 ∷ i1 ∷ i2 ∷ i3 ∷ take (le16 l0 l1) more,
          rw (take-append-drop (le16 l0 l1) more),
        )
        | inl (o, q) ↦
            let (f, some_frame, h) = make_frame-IsValidFrame codec v cmd _ _ o q in
            rw (q, some_frame)
              (
                h,
                v ∷ b ∷ l0 ∷ l1 ∷ i0 ∷ i1 ∷ i2 ∷ i3 ∷ take (le16 l0 l1) more,
                rw (take-append-drop (le16 l0 l1) more),
                omega arith,
                omega (arith, length-take (le16 l0 l1) more),
              )
      ]

  -- On any buffer: a frame that `decode` returns is valid for the configuration and was cut off the
  -- front, at least a header and at most `max_frame_size` bytes of it; with no frame the buffer is
  -- unchanged; and an error is not recoverable and only ever drops a front part of the buffer.
  pub decode-Outcome : (codec : Codec) (src : List ℕ) → Outcome codec src (decode B codec src)
  decode-Outcome codec (v ∷ b ∷ l0 ∷ l1 ∷ i0 ∷ i1 ∷ i2 ∷ i3 ∷ more) =
      let src : List ℕ = v ∷ b ∷ l0 ∷ l1 ∷ i0 ∷ i1 ∷ i2 ∷ i3 ∷ more in
      rw (decode_lem codec v b l0 l1 i0 i1 i2 i3 more) (elim (Result-cases (from_byte b)) [
        | inr (e, q) ↦ rw q (from_byte-unrecoverable b e q, [], refl)
        | inl (cmd, q) ↦
            rw q (elim (Bool-cases (ltb codec.max_frame_size (header_size + le16 l0 l1))) [
              | inl large ↦ rw large (unfold is_recoverable in refl, [], refl)
              | inr fits ↦
                  rw fits (elim (Bool-cases (ltb (length src) (header_size + le16 l0 l1))) [
                    | inl waits ↦ rw waits refl
                    | inr whole ↦ rw whole (
                        make_frame-Outcome codec v b l0 l1 i0 i1 i2 i3 more cmd
                          (ltb-false→le _ _ fits) (omega (arith, ltb-false→le _ _ whole)))
                  ])
            ])
      ])
  decode-Outcome codec src = rw (decode_short B codec src (omega arith)) refl
