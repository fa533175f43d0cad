-- ===== src/Link/Opening.antt =====
-- src/session.rs and src/codec.rs: from `open_stream` through the SYN frame to `accept_stream` of the
-- peer, where a link starts.
use smux.Base.{
  ℕ, ◌≤◌, ◌≡◌, inl, inr, refl, sym, ap, ◌∙◌, subst, true, false, some, List, [], ◌∷◌, ◌++◌,
  append-nil, flatten, All, arith,
}
use smux.Error.{ok}
use smux.Config.{Config}
use smux.Command.{syn}
use smux.Frame
use smux.Frame.{Frame, new_syn}
use smux.Codec
use smux.Codec.{Codec, encode, decode}
use smux.Codec.Wire.{wire}
use smux.Codec.RoundTrip.{IsTyped}
use smux.SessionState.{mark_data_received}
use smux.Stream
use smux.Stream.{Stream, Async, done, waiting, update}
use smux.Session.{SessionInner, validate_peer_stream_id}
use smux.Session.Table.{open_stream, accept_stream}
use smux.Session.Handlers.{with_state, handle_frame, handle_syn_frame}
use smux.Session.Invariant.{IsWf}
use smux.Session.Open.{CanOpen, CanAccept, open_stream_opens, open-accept}
use smux.Session.Tasks.{RecvTask, receiving, frame_in, polled, recv_step, send_loop}
use smux.Link.{kept}
use smux.Link.Flight.{IsApart}
use smux.Link.Carried.{encode-IsCarried, decode-IsCarried}
use smux.Link.Writing.{send_loop-round}
use smux.Link.Accepting.{
  taken_in, taken_in_lem, taken_in-IsOpen, taken_in-IsReadable, taken_in-IsOwn,
}
use smux.Link.Refine.{IsFresh}
use smux.Crates.Bytes.{BytesCrate}
use smux.Crates.Flume.{Flume}
use smux.Crates.DashMap.{DashMap}

module _ (F : Flume) (D : DashMap) where
  marked-CanAccept :
      (i : ℕ) (peer : SessionInner F D)
      → CanAccept F D peer i
      → CanAccept F D (with_state F D (mark_data_received peer.shared.state) peer) i
  unfolding mark_data_received validate_peer_stream_id
  marked-CanAccept i peer p = record {
    peer_open = p.peer_open;
    id_valid = p.id_valid;
    id_free = p.id_free;
    none_waits = p.none_waits;
    session_left = p.session_left;
    takes_one = p.takes_one;
  }

  recv_step-syn :
      (f : Frame) (peer : SessionInner F D)
      → f.cmd ≡ syn
      → CanAccept F D peer f.stream_id
      → let marked = with_state F D (mark_data_received peer.shared.state) peer in
        recv_step F D receiving peer (frame_in f) ≡ (receiving, (handle_syn_frame F D f marked).1)
  unfolding recv_step handle_frame
  recv_step-syn f peer is_syn p =
      let marked = with_state F D (mark_data_received peer.shared.state) peer in
      let law = taken_in_lem F D f marked (marked-CanAccept f.stream_id peer p) in
      ground (arith, is_syn, law.0)

  taken_in-IsFresh :
      (f : Frame) (sender peer : SessionInner F D) (writer : Stream)
      → f.cmd ≡ syn
      → F.queue sender.shared.frames ≡ []
      → writer.stream_id ≡ f.stream_id
      → writer.is_write_closed ≡ false
      → CanAccept F D peer f.stream_id
      → IsWf F D peer
      → IsFresh F D f.stream_id (record {
        sender = sender;
        writer = writer;
        hold = kept;
        has_reader = true;
        is_sending = true;
        transit = [];
        arrived = [];
        recv = receiving;
        receiver = (taken_in F D f peer).1;
        reader = Stream.new f.stream_id peer.fresh_pipe peer.config;
      })
  taken_in-IsFresh f sender peer writer is_syn none_left id writable p wf =
      let law = taken_in_lem F D f peer p in
      let rx : (Stream.new f.stream_id peer.fresh_pipe peer.config).data_rx ≡ peer.fresh_pipe =
        unfold Stream.new in refl in
      record {
        nothing_sent = refl;
        sends_yet = refl;
        free = refl;
        at_select = refl;
        others_only = subst (IsApart f.stream_id) (sym none_left) tt;
        typed = subst (All IsTyped) (sym none_left) tt;
        same_id = id;
        writable = writable;
        nothing_to_read =
            unfold Stream.new in
            ap (λ c. flatten (F.queue c)) law.1 ∙ ap flatten (F.unbounded_new (List ℕ)).0;
        readable = taken_in-IsReadable F D f peer p;
        own = taken_in-IsOwn F D f peer _ is_syn p wf rx;
        known = taken_in-IsOpen F D f peer _ p rx;
      }

  module _ (B : BytesCrate) (cfg : Config) where
    sent_syn :
        (f : Frame) (inner : SessionInner F D)
        → cfg.max_frame_size ≤ 65543
        → IsTyped f
        → F.queue inner.shared.frames ≡ f ∷ []
        → (send_loop F D B (Codec.new cfg) inner [] (polled true ∷ [])).0 ≡ waiting
        → let sent = send_loop F D B (Codec.new cfg) inner [] (polled true ∷ []) in
          (decode B (Codec.new cfg) sent.2 ≡ (ok (some f), []))
          × (F.queue sent.1.shared.frames ≡ [])
    sent_syn f inner small typed queued goes_on =
        elim (send_loop-round F D B (Codec.new cfg) inner goes_on) [
          | inl (none_before, none_after, no_bytes) ↦ absurd (cc (sym none_before ∙ queued))
          | inr (g, first, encoded) ↦
              let both : f ∷ []
                  ≡ g
                    ∷ F.queue
                        (send_loop F D B (Codec.new cfg) inner []
                          (polled true ∷ [])).1.shared.frames =
                sym queued ∙ first in
              let is_f : g ≡ f = ground (arith, both) in
              let (bytes, carried) =
                encode-IsCarried B cfg f [] _ small typed
                  (ap (λ x. encode B (Codec.new cfg) x []) (sym is_f) ∙ encoded) in
              (
                ap (decode B (Codec.new cfg)) (bytes ∙ sym (append-nil (wire f)))
                    ∙ decode-IsCarried B cfg f [] carried,
                ground (arith, both),
              )
        ]

    -- One session, with nothing in its frame channel, can open a stream, and its peer can accept the
    -- id; in the peer's table each entry leads to a channel of its own; frames are at most as large
    -- as their length field can say, and the sending task can encode the SYN frame. Then the bytes
    -- that `send_loop` writes behind `open_stream` are decoded to that SYN frame, `recv_loop` takes it
    -- in and is back at its `select!`, `accept_stream` returns a stream, and this one and the one that
    -- `open_stream` returned are the two ends of a stream with nothing written, from which the
    -- sessions start as a pipe.
    pub open_accept-IsFresh :
        (inner peer : SessionInner F D)
        → cfg.max_frame_size ≤ 65543
        → CanOpen F D inner
        → F.queue inner.shared.frames ≡ []
        → CanAccept F D peer inner.next_stream_id
        → IsWf F D peer
        → IsTyped (new_syn inner.config.version inner.next_stream_id)
        → (send_loop F D B (Codec.new cfg) (open_stream F D inner).1 [] (polled true ∷ [])).0
          ≡ waiting
        → let i = inner.next_stream_id in
          let syn_frame = new_syn inner.config.version i in
          let opened = open_stream F D inner in
          let sent = send_loop F D B (Codec.new cfg) opened.1 [] (polled true ∷ []) in
          let met = recv_step F D receiving peer (frame_in syn_frame) in
          let accepted = accept_stream F D false met.1 in
          let writer = Stream.new i inner.fresh_pipe inner.config in
          let reader = Stream.new i peer.fresh_pipe peer.config in
          (opened.0 ≡ done (ok writer))
          × (decode B (Codec.new cfg) sent.2 ≡ (ok (some syn_frame), []))
          × (accepted.0 ≡ done (ok reader))
          × IsFresh F D i (record {
            sender = sent.1;
            writer = writer;
            hold = kept;
            has_reader = true;
            is_sending = true;
            transit = [];
            arrived = [];
            recv = met.0;
            receiver = accepted.1;
            reader = reader;
          })
    unfolding new_syn Frame.new
    open_accept-IsFresh inner peer small c no_frames p wf typed goes_on =
        let i = inner.next_stream_id in
        let f = new_syn inner.config.version i in
        let marked = with_state F D (mark_data_received peer.shared.state) peer in
        let writer = Stream.new i inner.fresh_pipe inner.config in
        let met = recv_step-syn f peer refl p in
        let start =
          sent_syn f (open_stream F D inner).1 small typed
            ((open_stream_opens F D inner c).2 ∙ ap (λ (q : List Frame). q ++ (f ∷ [])) no_frames)
            goes_on in
        let p' = marked-CanAccept i peer p in
        let fresh =
          taken_in-IsFresh f
            (send_loop F D B (Codec.new cfg) (open_stream F D inner).1 [] (polled true ∷ [])).1
            marked writer refl start.1 (unfold Stream.new in refl) (unfold Stream.new in refl) p'
            (record { owned = wf.owned; distinct = wf.distinct }) in
        (
          (open_stream_opens F D inner c).0,
          start.0,
          ap (λ r. (accept_stream F D false r.1).0) met ∙ (open-accept F D inner marked c p').2,
          subst
              (λ (r : RecvTask × SessionInner F D). IsFresh F D i (record {
                sender =
                    (send_loop F D B (Codec.new cfg) (open_stream F D inner).1 []
                      (polled true ∷ [])).1;
                writer = writer;
                hold = kept;
                has_reader = true;
                is_sending = true;
                transit = [];
                arrived = [];
                recv = r.0;
                receiver = (accept_stream F D false r.1).1;
                reader = Stream.new i peer.fresh_pipe peer.config;
              }))
              (sym met) fresh,
        )
