-- ===== src/Link/Writing.antt =====
-- src/stream.rs and src/session.rs: the writer of a stream and its session's sending task, as the
-- frame channel sees them.
use smux.Base.{
  ℕ, not, ◌≢◌, ◌-◌, ◌≡◌, ◌⊎◌, inl, inr, refl, true, false, ◌&&◌, ◌||◌, Bool-cases, List, [], ◌∷◌,
  ◌++◌, length, take, min, ◌==◌, arith,
}
use smux.Error.{Result-cases, ok, err, SmuxError}
use smux.Frame.{Frame, new_psh, new_fin, header_size}
use smux.Codec.{Codec, encode}
use smux.Stream
use smux.Stream.{done, drop_stream, Stream, Shared, waiting, poll_write, poll_shutdown, send_fin}
use smux.Session.{SessionInner}
use smux.Session
use smux.Session.Tasks.{Outgoing, send_loop, end_sending, polled}
use smux.Link.{kept, closing, hold_after, wrote, silent, write_label}
use smux.Crates.Bytes.{BytesCrate}
use smux.Crates.Flume.{Flume}
use smux.Crates.DashMap.{DashMap}

encode_fails :
    (B : BytesCrate) (codec : Codec) (f : Frame) (e : SmuxError)
    → (encode B codec f []).0 ≡ err e
    → (encode B codec f []).1 ≡ []
unfolding encode
encode_fails B codec f e bad = ground (arith, bad)

module _ (F : Flume) where
  -- A write that is told of no byte leaves the frames alone; any other one puts the bytes of which it
  -- is told into a frame behind the others, on an open write side.
  pub poll_write-frames :
      (s : Stream) (w : Shared F) (buf : List ℕ)
      → let r = poll_write F s w buf in
        ((F.queue r.1.frames ≡ F.queue w.frames)
          × ((write_label r.0 buf ≡ silent) ⊎ (write_label r.0 buf ≡ wrote [])))
        ⊎ ((bytes : List ℕ) × (s.is_write_closed ≡ false)
            × (write_label r.0 buf ≡ wrote bytes)
            × (F.queue r.1.frames ≡ F.queue w.frames ++ (new_psh 1 s.stream_id bytes ∷ [])))
  unfolding poll_write
  poll_write-frames s w buf =
      let law = F.try_send_lem w.frames (
        new_psh 1 s.stream_id
          (take (min (length buf) (s.config.max_frame_size - header_size)) buf)) in
      elim (Bool-cases (w.state.closed || s.is_write_closed)) [
        | inl shut ↦ inl (ground (arith, shut), ground (arith, shut))
        | inr ready_to ↦ elim (Bool-cases (length buf == 0)) [
          | inl e ↦ inl (ground (arith, ready_to, e), ground (arith, ready_to, e))
          | inr e ↦ elim (Bool-cases (F.receiving w.frames && F.has_room w.frames)) [
            | inl taken ↦ inr (
              take (min (length buf) (s.config.max_frame_size - header_size)) buf,
              ground (arith, ready_to),
              ground (arith, ready_to, e, taken, law),
              ground (arith, ready_to, e, taken, law),
            )
            | inr left ↦
                inl (ground (arith, ready_to, e, left, law), ground (arith, ready_to, e, left, law))
          ]
        ]
      ]

  -- A shutdown of an open write side puts the FIN frame behind the others, or finds the channel full
  -- and changes nothing, or finds the session's sending task gone and closes the write side.
  pub poll_shutdown-frames :
      (s : Stream) (w : Shared F)
      → let r = poll_shutdown F s w in
        ((r.1.is_write_closed ≡ s.is_write_closed) × (F.queue r.2.frames ≡ F.queue w.frames))
        ⊎ ((s.is_write_closed ≡ false)
            × (r.1.is_write_closed ≡ true)
            × ((F.queue r.2.frames ≡ F.queue w.frames)
                ⊎ (F.queue r.2.frames ≡ F.queue w.frames ++ (new_fin 1 s.stream_id ∷ []))))
  unfolding poll_shutdown
  poll_shutdown-frames s w =
      let law = F.try_send_lem w.frames (new_fin 1 s.stream_id) in
      elim (Bool-cases s.is_write_closed) [
        | inl shut ↦ inl (ground (arith, shut), ground (arith, shut))
        | inr ready_to ↦ elim (Bool-cases (F.receiving w.frames)) [
          | inr gone ↦ inr (
            ready_to,
            ground (arith, ready_to, gone, law),
            inl (ground (arith, ready_to, gone, law)),
          )
          | inl there ↦ elim (Bool-cases (F.has_room w.frames)) [
            | inl room ↦ inr (
              ready_to,
              ground (arith, ready_to, there, room, law),
              inr (ground (arith, ready_to, there, room, law)),
            )
            | inr no_room ↦ inl (
              ground (arith, ready_to, there, no_room, law),
              ground (arith, ready_to, there, no_room, law),
            )
          ]
        ]
      ]

  -- The FIN frame is put behind the others, or there is nobody to take it, or its sender waits.
  pub send_fin-frames :
      (s : Stream) (w : Shared F)
      → let r = send_fin F s w in
        ((hold_after r.0 ≡ kept)
          × ((F.queue r.1.frames ≡ F.queue w.frames)
              ⊎ (F.queue r.1.frames ≡ F.queue w.frames ++ (new_fin 1 s.stream_id ∷ []))))
        ⊎ ((hold_after r.0 ≡ closing) × (F.queue r.1.frames ≡ F.queue w.frames))
  unfolding send_fin
  send_fin-frames s w =
      let law = F.try_send_lem w.frames (new_fin 1 s.stream_id) in
      elim (Bool-cases (F.receiving w.frames)) [
        | inr gone ↦ inl (ground (arith, gone, law), inl (ground (arith, gone, law)))
        | inl there ↦ elim (Bool-cases (F.has_room w.frames)) [
          | inl room ↦
              inl (ground (arith, there, room, law), inr (ground (arith, there, room, law)))
          | inr no_room ↦
              inr (ground (arith, there, no_room, law), ground (arith, there, no_room, law))
        ]
      ]

  -- A drop tries to send the FIN frame, unless the write side is closed.
  pub drop_stream-frames :
      (s : Stream) (w : Shared F)
      → let w' = drop_stream F s w in
        (F.queue w'.frames ≡ F.queue w.frames)
        ⊎ ((s.is_write_closed ≡ false)
            × (F.queue w'.frames ≡ F.queue w.frames ++ (new_fin 1 s.stream_id ∷ [])))
  unfolding drop_stream
  drop_stream-frames s w =
      let law = F.try_send_lem w.frames (new_fin 1 s.stream_id) in
      elim (Bool-cases (s.is_write_closed || not (F.receiving w.frames && F.has_room w.frames))) [
        | inl left ↦ inl (ground (arith, law, left))
        | inr taken ↦ inr (ground (arith, taken), ground (arith, law, taken))
      ]

  -- A close of a closed write side does nothing, and one of an open write side closes it, and goes on
  -- to send the FIN frame.
  pub close_lem :
      (s : Stream) (w : Shared F)
      → (s.is_write_closed ≡ true → Stream.close F s w ≡ (done (ok tt), s, w))
        × (s.is_write_closed ≡ false
            → Stream.close F s w
              ≡ ((send_fin F s w).0, record s { is_write_closed = true }, (send_fin F s w).1))
  unfolding Stream.close
  close_lem s w = (λ e. ground (arith, e), λ e. ground (arith, e))

  pub poll_shutdown-stream_id :
      (s : Stream) (w : Shared F) → (poll_shutdown F s w).1.stream_id ≡ s.stream_id
  unfolding poll_shutdown
  poll_shutdown-stream_id s w = ground arith

  module _ (D : DashMap) (B : BytesCrate) where
    -- The last round of the sending task takes the first frame of the channel or none. Either it writes
    -- no bytes, or those of the frame.
    pub send_loop-end :
        (codec : Codec) (inner : SessionInner F D) (e : Outgoing)
        → (send_loop F D B codec inner [] (e ∷ [])).0 ≢ waiting
        → let r = send_loop F D B codec inner [] (e ∷ []) in
          (r.2 ≡ [])
          ⊎ ((f : Frame) × (left : List Frame) × (F.queue inner.shared.frames ≡ f ∷ left)
              × (encode B codec f [] ≡ (ok tt, r.2)))
    unfolding send_loop end_sending Session.close
    send_loop-end codec inner Outgoing.close_notified over = inl refl
    send_loop-end codec inner (polled written) over = frames (F.queue inner.shared.frames) refl
      where
        frames :
            (q : List Frame)
            → F.queue inner.shared.frames ≡ q
            → let r = send_loop F D B codec inner [] (polled written ∷ []) in
              (r.2 ≡ [])
              ⊎ ((f : Frame) × (left : List Frame) × (F.queue inner.shared.frames ≡ f ∷ left)
                  × (encode B codec f [] ≡ (ok tt, r.2)))
        frames [] e =
            let law = F.try_recv_lem inner.shared.frames in
            elim (Bool-cases (F.sending inner.shared.frames)) [
              | inl more ↦ inl (ground (arith, law, e, more))
              | inr no_more ↦ inl (ground (arith, law, e, no_more))
            ]
        frames (f ∷ q) e =
            let law = F.try_recv_lem inner.shared.frames in
            elim (Result-cases (encode B codec f []).0) [
              | inl (u, fine) ↦ elim (Bool-cases written) [
                | inl all ↦ absurd (over (ground (arith, law, e, fine, all)))
                | inr part ↦ inr (f, q, e, ground (arith, law, e, fine, part))
              ]
              | inr (er, bad) ↦ inl (ground (arith, law, e, bad, encode_fails B codec f er bad))
            ]

    -- A round of the sending task that goes on writes no bytes, with no frame to send, or those of the
    -- first frame of the channel.
    pub send_loop-round :
        (codec : Codec) (inner : SessionInner F D)
        → (send_loop F D B codec inner [] (polled true ∷ [])).0 ≡ waiting
        → let r = send_loop F D B codec inner [] (polled true ∷ []) in
          ((F.queue inner.shared.frames ≡ []) × (F.queue r.1.shared.frames ≡ []) × (r.2 ≡ []))
          ⊎ ((f : Frame) × (F.queue inner.shared.frames ≡ f ∷ F.queue r.1.shared.frames)
              × (encode B codec f [] ≡ (ok tt, r.2)))
    unfolding send_loop
    send_loop-round codec inner goes_on = frames (F.queue inner.shared.frames) refl
      where
        frames :
            (q : List Frame)
            → F.queue inner.shared.frames ≡ q
            → let r = send_loop F D B codec inner [] (polled true ∷ []) in
              ((F.queue inner.shared.frames ≡ []) × (F.queue r.1.shared.frames ≡ []) × (r.2 ≡ []))
              ⊎ ((f : Frame) × (F.queue inner.shared.frames ≡ f ∷ F.queue r.1.shared.frames)
                  × (encode B codec f [] ≡ (ok tt, r.2)))
        frames [] e =
            let law = F.try_recv_lem inner.shared.frames in
            elim (Bool-cases (F.sending inner.shared.frames)) [
              | inl more ↦ inl (e, ground (arith, law, e, more), ground (arith, law, e, more))
              | inr no_more ↦ absurd (ground (arith, law, e, no_more, goes_on))
            ]
        frames (f ∷ q) e =
            let law = F.try_recv_lem inner.shared.frames in
            elim (Result-cases (encode B codec f []).0) [
              | inl (u, fine) ↦ inr (f, ground (arith, law, e, fine), ground (arith, law, e, fine))
              | inr (er, bad) ↦ absurd (ground (arith, law, e, bad, goes_on))
            ]
