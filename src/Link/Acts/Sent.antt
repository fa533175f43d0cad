-- ===== src/Link/Acts/Sent.antt =====
-- src/session.rs and src/stream.rs: the frames that the calls on other streams put on the channel.
use smux.Base.{
  ℕ, ◌≡◌, ◌≢◌, ◌⊎◌, inl, inr, refl, sym, ap, subst, ◌∙◌, by_test, Bool-cases, ◌&&◌, List, [], ◌∷◌,
  ◌++◌, append_assoc, append-nil, All, All-append, min, length, take, ◌-◌, arith,
}
use smux.Error.{Result, Result-cases}
use smux.Frame.{Frame, new_syn, new_fin, new_psh, new_nop, header_size}
use smux.Codec.RoundTrip.{IsTyped, IsU32, IsU8}
use smux.Stream
use smux.Stream.{
  Stream, Shared, Async, poll_read, read_chunk, read_channel, read_received, poll_write,
  poll_shutdown, send_fin, drop_stream,
}
use smux.Session
use smux.Session.{SessionInner, next_stream_id}
use smux.Session.Table.{
  open_stream, send_syn, accept_stream, add_stream, insert_stream, new_pipe, drop_state,
}
use smux.Session.Tasks.{send_ping, check_timeout}
use smux.Link.Flight.{IsApart, IsApart-append}
use smux.Link.Acts.{
  Act, opens, closes, pings, checks, accepts, reads, writes, shuts_down, stream_closes, sends_fin,
  drops, IsOther, act,
}
use smux.Link.Acts.Spared.{ok_id}
use smux.Crates.Bytes.{BytesCrate}
use smux.Crates.Flume.{Flume, TrySend-cases}
use smux.Crates.DashMap.{DashMap}

module _ (F : Flume) (i : ℕ) where
  -- Frames of other streams may have been put behind those on the channel.
  pub record Extends (c d : F.Chan Frame) : Type 0 where
    pub added : List Frame
    pub behind : F.queue d ≡ F.queue c ++ added
    pub apart : IsApart i added
    pub typed : All IsTyped added

  same-Extends : (c : F.Chan Frame) → Extends c c
  same-Extends c = record {
    added = [];
    behind = sym (append-nil (F.queue c));
    apart = tt;
    typed = tt;
  }

  kept-Extends : (c d : F.Chan Frame) → d ≡ c → Extends c d
  kept-Extends c d e = rw e (same-Extends c)

  Extends-trans : (c d e : F.Chan Frame) → Extends c d → Extends d e → Extends c e
  Extends-trans c d e p q = record {
    added = p.added ++ q.added;
    behind =
        q.behind
        ∙ ap (λ (l : List Frame). l ++ q.added) p.behind
        ∙ append_assoc (F.queue c) p.added q.added;
    apart = IsApart-append i p.added q.added p.apart q.apart;
    typed = All-append IsTyped p.added q.added p.typed q.typed;
  }

  offered-Extends :
      (c : F.Chan Frame) (f : Frame) → f.stream_id ≢ i → IsTyped f → Extends c (F.try_send c f).1
  offered-Extends c f ne t =
      let law = F.try_send_lem c f in
      elim (Bool-cases (F.receiving c && F.has_room c)) [
        | inl taken ↦ record {
          added = f ∷ [];
          behind = ground (arith, law, taken);
          apart = (ne, tt);
          typed = (t, tt);
        }
        | inr left ↦ record {
          added = [];
          behind = ground (arith, law, left, append-nil (F.queue c));
          apart = tt;
          typed = tt;
        }
      ]

  -- A channel that is as it was, or to which a frame of another stream was offered.
  either-Extends :
      (c d : F.Chan Frame) (f : Frame)
      → f.stream_id ≢ i
      → IsTyped f
      → (d ≡ c) ⊎ (d ≡ (F.try_send c f).1)
      → Extends c d
  either-Extends c d f ne t (inl e) = rw e (same-Extends c)
  either-Extends c d f ne t (inr e) = rw e (offered-Extends c f ne t)

  fin-IsTyped : (j : ℕ) → IsU32 j → IsTyped (new_fin 1 j)
  unfolding new_fin
  fin-IsTyped j h = record { version_u8 = omega arith; id_u32 = h; cmd_u32 = tt }

  drop_stream-Extends :
      (s : Stream) (w : Shared F)
      → s.stream_id ≢ i
      → IsU32 s.stream_id
      → Extends w.frames (drop_stream F s w).frames
  drop_stream-Extends s w ne h =
      either-Extends w.frames _ (new_fin 1 s.stream_id) (unfold new_fin in ne)
        (fin-IsTyped s.stream_id h) (unfold drop_stream in ground arith)

  send_fin-Extends :
      (s : Stream) (w : Shared F)
      → s.stream_id ≢ i
      → IsU32 s.stream_id
      → Extends w.frames (send_fin F s w).1.frames
  send_fin-Extends s w ne h =
      either-Extends w.frames _ (new_fin 1 s.stream_id) (unfold new_fin in ne)
        (fin-IsTyped s.stream_id h) (unfold send_fin in inr refl)

  close-Extends :
      (s : Stream) (w : Shared F)
      → s.stream_id ≢ i
      → IsU32 s.stream_id
      → Extends w.frames (Stream.close F s w).2.frames
  close-Extends s w ne h =
      either-Extends w.frames _ (new_fin 1 s.stream_id) (unfold new_fin in ne)
        (fin-IsTyped s.stream_id h) (unfold Stream.close send_fin in ground arith)

  poll_shutdown-Extends :
      (s : Stream) (w : Shared F)
      → s.stream_id ≢ i
      → IsU32 s.stream_id
      → Extends w.frames (poll_shutdown F s w).2.frames
  poll_shutdown-Extends s w ne h =
      either-Extends w.frames _ (new_fin 1 s.stream_id) (unfold new_fin in ne)
        (fin-IsTyped s.stream_id h) (unfold poll_shutdown in ground arith)

  poll_write-Extends :
      (s : Stream) (w : Shared F) (buf : List ℕ)
      → s.stream_id ≢ i
      → IsU32 s.stream_id
      → Extends w.frames (poll_write F s w buf).1.frames
  poll_write-Extends s w buf ne h =
      let bytes = take (min (length buf) (s.config.max_frame_size - header_size)) buf in
      either-Extends w.frames _ (new_psh 1 s.stream_id bytes) (unfold new_psh in ne)
        (unfold new_psh in record { version_u8 = omega arith; id_u32 = h; cmd_u32 = tt })
        (unfold poll_write in ground arith)

  module _ (D : DashMap) where
    send_syn-Extends :
        (s : Stream) (inner : SessionInner F D)
        → s.stream_id ≢ i
        → IsU32 s.stream_id
        → IsU8 inner.config.version
        → Extends inner.shared.frames (send_syn F D s inner).1.shared.frames
    unfolding send_syn
    send_syn-Extends s inner ne h v =
        let f = new_syn inner.config.version s.stream_id in
        let (r, c) = F.try_send inner.shared.frames f in
        let p : Extends inner.shared.frames c =
          offered-Extends inner.shared.frames f (unfold new_syn in ne)
            (unfold new_syn in record { version_u8 = v; id_u32 = h; cmd_u32 = tt }) in
        elim (TrySend-cases r) [
          | inl e ↦ rw (e, send_syn) p
          | inr (inl e) ↦ rw (e, send_syn) p
          | inr (inr e) ↦
              rw (e, send_syn)
                (Extends-trans inner.shared.frames c _ p
                  (drop_stream-Extends s (record (inner.shared) { frames = c }) ne h))
        ]

    add_stream-frames :
        (j : ℕ) (inner : SessionInner F D)
        → ((add_stream F D j inner).1.shared.frames ≡ inner.shared.frames)
          × ((add_stream F D j inner).1.config ≡ inner.config)
    unfolding add_stream insert_stream new_pipe drop_state
    add_stream-frames j inner = (ground arith, ground arith)

    open_stream-Extends :
        (inner : SessionInner F D)
        → inner.next_stream_id ≢ i
        → IsU32 inner.next_stream_id
        → IsU8 inner.config.version
        → Extends inner.shared.frames (open_stream F D inner).1.shared.frames
    unfolding open_stream
    open_stream-Extends inner ne h v =
        by_test {A = Async (Result Stream) × SessionInner F D}
          (λ r. Extends inner.shared.frames r.1.shared.frames) inner.shared.state.closed _ _
          (λ _. same-Extends inner.shared.frames)
          (λ _.
            let counted = (next_stream_id F D inner).1 in
            let (stream, added) = add_stream F D inner.next_stream_id counted in
            let same = add_stream-frames inner.next_stream_id counted in
            elim (Result-cases (next_stream_id F D inner).0) [
              | inl (j, e) ↦ rw e (
                  rw (ok_id F D inner j e) (
                    subst (λ c. Extends c (send_syn F D stream added).1.shared.frames)
                      (same.0 ∙ unfold next_stream_id in refl)
                      (send_syn-Extends stream added (unfold add_stream Stream.new in ne)
                        (unfold add_stream Stream.new in h)
                        (rw same.1 (unfold next_stream_id in v)))))
              | inr (x, e) ↦ rw e (unfold next_stream_id in same-Extends inner.shared.frames)
            ])

  module _ (B : BytesCrate) (D : DashMap) where
    -- What a call on another stream, or of the session, puts on the channel.
    pub act-Extends :
        (rx : ℕ) (inner : SessionInner F D) (a : Act)
        → i ≢ 0
        → inner.next_stream_id ≢ i
        → IsU32 inner.next_stream_id
        → IsU8 inner.config.version
        → IsOther i rx a
        → Extends inner.shared.frames (act B F D inner a).shared.frames
    unfolding act
    act-Extends rx inner opens nz ne h v other = open_stream-Extends D inner ne h v
    act-Extends rx inner closes nz ne h v other =
        unfold Session.close in same-Extends inner.shared.frames
    act-Extends rx inner pings nz ne h v other =
        unfold send_ping in
        offered-Extends inner.shared.frames (new_nop inner.config.version)
          (unfold new_nop in omega (arith, nz))
          (unfold new_nop in record { version_u8 = v; id_u32 = omega arith; cmd_u32 = tt })
    act-Extends rx inner checks nz ne h v other =
        unfold check_timeout Session.close in kept-Extends inner.shared.frames _ (ground arith)
    act-Extends rx inner (accepts notified) nz ne h v other =
        unfold accept_stream in kept-Extends inner.shared.frames _ (ground arith)
    act-Extends rx inner (reads s n) nz ne h v other =
        unfold poll_read read_chunk read_channel read_received in
        kept-Extends inner.shared.frames _ (ground arith)
    act-Extends rx inner (writes s buf) nz ne h v other =
        poll_write-Extends s inner.shared buf other.id_differs other.id_u32
    act-Extends rx inner (shuts_down s) nz ne h v other =
        poll_shutdown-Extends s inner.shared other.id_differs other.id_u32
    act-Extends rx inner (stream_closes s) nz ne h v other =
        close-Extends s inner.shared other.id_differs other.id_u32
    act-Extends rx inner (sends_fin s) nz ne h v other =
        send_fin-Extends s inner.shared other.id_differs other.id_u32
    act-Extends rx inner (drops s) nz ne h v other =
        drop_stream-Extends s inner.shared other.id_differs other.id_u32
