-- ===== src/Link/Carried.antt =====
-- src/codec.rs: frames on their way over a transport that delivers their bytes in pieces.
use smux.Base.{
  ℕ, ◌+◌, ◌%◌, ◌≤◌, ◌<◌, ◌≡◌, inl, inr, refl, sym, ap, ◌∙◌, List, [], ◌∷◌, ◌++◌, length, take, drop,
  arith, Option, some, none, ltb, leb, leb→le, ltb-false→le, Bool-cases, false,
}
use native.Mathlib.Nat.{mod-eq_of_lt}
use smux.Error.{Result, ok}
use smux.Config.{Config}
use smux.Frame.{Frame, header_size}
use smux.Frame.Valid.{IsValidFrame}
use smux.Codec
use smux.Codec.{Codec, encode, decode}
use smux.Codec.Wire.{wire, body}
use smux.Codec.RoundTrip.{
  IsTyped, decode-encode, decode-wire, encode_lem, encode_ok-IsValidFrame, body_of-short,
}
use smux.Codec.Prefix.{decode_prefix}
use smux.Crates.Bytes.{BytesCrate}

-- What the bytes of a first part say of the list that it begins.
append_split :
    (xs ys zs ws : List ℕ)
    → xs ++ ys ≡ zs ++ ws
    → length zs ≤ length xs
    → (xs ≡ zs ++ drop (length zs) xs) × (drop (length zs) xs ++ ys ≡ ws)
append_split xs ys [] ws e h = (refl, e)
append_split [] ys (z ∷ zs) ws e h = absurd (omega arith)
append_split (x ∷ xs) ys (z ∷ zs) ws e h = ground (arith, append_split xs ys zs ws)

take_of_append :
    (xs ys zs ws : List ℕ) → xs ++ ys ≡ zs ++ ws → length xs ≤ length zs → take (length xs) zs ≡ xs
take_of_append [] ys zs ws e h = refl
take_of_append (x ∷ xs) ys [] ws e h = absurd (omega arith)
take_of_append (x ∷ xs) ys (z ∷ zs) ws e h = ground (arith, take_of_append xs ys zs ws)

-- A frame that an encoder has let through.
pub record IsCarried (cfg : Config) (f : Frame) : Type 0 where
  pub typed : IsTyped f
  pub valid : IsValidFrame cfg.max_frame_size f
  pub fits : header_size + length (body f) ≤ cfg.max_frame_size
  pub short : length (body f) < 65536

module _ (B : BytesCrate) (cfg : Config) where
  pub decode-IsCarried :
      (f : Frame) (rest : List ℕ)
      → IsCarried cfg f
      → decode B (Codec.new cfg) (wire f ++ rest) ≡ (ok (some f), rest)
  unfolding Codec.new
  decode-IsCarried f rest c = decode-wire B (Codec.new cfg) f rest c.typed c.valid c.fits c.short

  decode_part :
      (f : Frame) (k : ℕ)
      → IsCarried cfg f
      → k < length (wire f)
      → decode B (Codec.new cfg) (take k (wire f)) ≡ (ok none, take k (wire f))
  unfolding Codec.new
  decode_part f k c h = decode_prefix B (Codec.new cfg) f k c.fits c.short h

  -- If `decode` finds a frame in what has arrived, it is the first one that was sent.
  pub decode_first :
      (g f : Frame) (arrived transit later rest : List ℕ)
      → IsCarried cfg g
      → arrived ++ transit ≡ wire g ++ later
      → decode B (Codec.new cfg) arrived ≡ (ok (some f), rest)
      → (f ≡ g) × (rest ++ transit ≡ later)
  decode_first g f arrived transit later rest c e d =
      elim (Bool-cases (leb (length (wire g)) (length arrived))) [
        | inl whole ↦
            let (head, tail) = append_split arrived transit (wire g) later e (leb→le _ _ whole) in
            let found : decode B (Codec.new cfg) arrived
                ≡ (ok (some g), drop (length (wire g)) arrived) =
              ap (decode B (Codec.new cfg)) head
              ∙ decode-IsCarried g (drop (length (wire g)) arrived) c in
            let same : ◌≡◌ {A = Result (Option Frame) × List ℕ} (ok (some f), rest)
                (ok (some g), drop (length (wire g)) arrived) =
              sym d ∙ found in
            (ground arith, rw (ap (λ (p : Result (Option Frame) × List ℕ). p.1) same) tail)
        | inr part ↦
            let less : length arrived < length (wire g) = ground arith in
            let start = take_of_append arrived transit (wire g) later e (omega arith) in
            let none_yet = decode_part g (length arrived) c less in
            absurd (cc (sym d ∙ ap (decode B (Codec.new cfg)) (sym start) ∙ none_yet))
      ]

  pub encode-IsCarried :
      (f : Frame) (dst out : List ℕ)
      → cfg.max_frame_size ≤ 65543
      → IsTyped f
      → encode B (Codec.new cfg) f dst ≡ (ok tt, out)
      → (out ≡ dst ++ wire f) × IsCarried cfg f
  unfolding Codec.new
  encode-IsCarried f dst out small t e =
      let v = encode_ok-IsValidFrame B (Codec.new cfg) f dst out e in
      let small_body = body_of-short B f.cmd f.payload (omega (arith, v.fits)) in
      let same : length (body f) % 65536 ≡ length (body f) = mod-eq_of_lt small_body in
      let wrote = encode_lem B (Codec.new cfg) f dst t.version_u8 v in
      let test : ltb cfg.max_frame_size (header_size + length (body f)) ≡ false =
        ground (arith, wrote) in
      (
        (decode-encode B cfg f dst out [] t (omega (arith, v.fits)) e).0,
        record { typed = t; valid = v; fits = ltb-false→le _ _ test; short = small_body },
      )
