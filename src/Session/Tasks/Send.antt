-- ===== src/Session/Tasks/Send.antt =====
-- src/session.rs with src/codec.rs: `send_loop`, and what the peer's decoder makes of its bytes.
use smux.Base.{ℕ, ◌≤◌, ◌<◌, ◌≡◌, ◌⊎◌, refl, true, List, [], ◌∷◌, length, All, arith, inl, inr}
use smux.Error.{Result, ok}
use smux.Config.{Config}
use smux.Frame.{Frame}
use smux.Codec
use smux.Codec.{Codec, encode}
use smux.Codec.RoundTrip.{IsTyped}
use smux.Codec.Sequence.{encode_all, decode_all, decode_all-encode_all}
use smux.Stream.{done, waiting}
use smux.Session
use smux.Session.{SessionInner}
use smux.Session.Tasks.{Outgoing, polled, send_loop, end_sending}
use smux.Session.Tasks.Receive.{close-is_closed}
use smux.Crates.Bytes.{BytesCrate}
use smux.Crates.Flume.{Flume, TryRecv, received, empty, no_sender}
use smux.Crates.DashMap.{DashMap}

TryRecv-cases :
    {A : Type 0} (r : TryRecv A) → ((a : A) × (r ≡ received a)) ⊎ ((r ≡ empty) ⊎ (r ≡ no_sender))
TryRecv-cases (received a) = inl (a, refl)
TryRecv-cases empty = inr (inl refl)
TryRecv-cases no_sender = inr (inr refl)

module _ (B : BytesCrate) (F : Flume) (D : DashMap) where
  -- However `send_loop` comes to its end, it leaves the session closed.
  pub send_loop_closes :
      (codec : Codec) (inner inner' : SessionInner F D) (wire wire' : List ℕ) (es : List Outgoing)
      (r : Result (Unit {0}))
      → send_loop F D B codec inner wire es ≡ (done r, inner', wire')
      → Session.is_closed F D inner' ≡ true
  unfolding send_loop end_sending
  send_loop_closes codec inner inner' wire wire' [] r e = absurd (cc e)
  send_loop_closes codec inner inner' wire wire' (Outgoing.close_notified ∷ es) r e =
      ground (arith, close-is_closed F D inner)
  send_loop_closes codec inner inner' wire wire' (polled written ∷ es) r e =
      let (got, c) = F.try_recv inner.shared.frames in
      let next : SessionInner F D = record inner {
        shared = record (inner.shared) { frames = c };
      } in
      elim (TryRecv-cases got) [
        | inl (f, q) ↦ ground (
          arith,
          q,
          close-is_closed F D next,
          send_loop_closes codec next inner' (encode B codec f wire).1 wire' es r,
        )
        | inr (inl q) ↦ ground (arith, q, send_loop_closes codec next inner' wire wire' es r)
        | inr (inr q) ↦ ground (arith, q, close-is_closed F D next)
      ]

  -- The transport takes one frame after another.
  abbrev pub polls : List Frame → List Outgoing
  polls [] = []
  polls (f ∷ fs) = polled true ∷ polls fs

  -- The session with another frame channel.
  abbrev pub with_frames : F.Chan Frame → SessionInner F D → SessionInner F D
  with_frames c inner = record inner { shared = record (inner.shared) { frames = c } }

  pub send_loop-encode_all :
      (codec : Codec) (fs : List Frame) (inner : SessionInner F D) (wire out : List ℕ)
      → F.queue inner.shared.frames ≡ fs
      → encode_all B codec fs wire ≡ (ok tt, out)
      → let r = send_loop F D B codec inner wire (polls fs) in
        (r.0 ≡ waiting)
        × (r.2 ≡ out)
        × (F.queue r.1.shared.frames ≡ [])
        × (F.sending r.1.shared.frames ≡ F.sending inner.shared.frames)
        × (F.receiving r.1.shared.frames ≡ F.receiving inner.shared.frames)
        × (with_frames inner.shared.frames r.1 ≡ inner)
  unfolding send_loop encode_all
  send_loop-encode_all codec [] inner wire out q e = ground arith
  send_loop-encode_all codec (f ∷ fs) inner wire out q e =
      let c = (F.try_recv inner.shared.frames).1 in
      let next : SessionInner F D = record inner {
        shared = record (inner.shared) { frames = c };
      } in
      ground (
        arith,
        F.try_recv_lem inner.shared.frames,
        send_loop-encode_all codec fs next (encode B codec f wire).1 out,
      )

  -- With `max_frame_size` at most 65543 and a transport that takes every write: if the frames that
  -- wait in the frame channel can be encoded, `send_loop` goes on, has taken them all, leaves the
  -- channel its two ends and everything else in the session, the data channels of the streams and the
  -- table included, as it was, and what it writes is decoded by a peer with the same settings to
  -- exactly these frames, in their order.
  pub send_loop_transmits :
      (cfg : Config) (inner : SessionInner F D) (out : List ℕ) (fuel : ℕ)
      → let fs = F.queue inner.shared.frames in
        cfg.max_frame_size ≤ 65543
        → All IsTyped fs
        → length fs < fuel
        → encode_all B (Codec.new cfg) fs [] ≡ (ok tt, out)
        → let r = send_loop F D B (Codec.new cfg) inner [] (polls fs) in
          (r.0 ≡ waiting)
          × (F.queue r.1.shared.frames ≡ [])
          × (F.sending r.1.shared.frames ≡ F.sending inner.shared.frames)
          × (F.receiving r.1.shared.frames ≡ F.receiving inner.shared.frames)
          × (with_frames inner.shared.frames r.1 ≡ inner)
          × (decode_all B fuel (Codec.new cfg) r.2 ≡ (fs, []))
  send_loop_transmits cfg inner out fuel small typed enough e =
      let fs = F.queue inner.shared.frames in
      let (waits, written, taken, tx, rx, same) =
        send_loop-encode_all (Codec.new cfg) fs inner [] out refl e in
      (
        waits,
        taken,
        tx,
        rx,
        same,
        rw written (decode_all-encode_all B cfg fs out fuel small typed enough e),
      )
