-- ===== src/Link/Accepting.antt =====
-- src/session.rs: the stream that `accept_stream` returns, as the start of a link's reader.
use smux.Base.{ℕ, ◌<◌, ◌≡◌, refl, sym, ap, ◌∙◌, subst, false, some, List, [], arith}
use smux.Error.{Result, ok}
use smux.Command.{syn}
use smux.Frame.{Frame}
use smux.Stream
use smux.Stream.{Stream, Async, done, waiting, update}
use smux.Stream.Drain.{all_full}
use smux.Session.{SessionInner}
use smux.Session.Table.{accept_stream, add_stream, insert_stream, new_pipe, drop_state}
use smux.Session.Handlers.{handle_frame, handle_syn_frame, send_incoming}
use smux.Session.Local.{lookup}
use smux.Session.Isolation.{handle_frame-Local}
use smux.Session.Invariant.{IsWf, Local-IsWf}
use smux.Session.Open.{CanAccept}
use smux.Link.Reading.{IsReadable}
use smux.Link.Sparing.{IsOwn}
use smux.Link.Handling.{IsOpen}
use smux.Crates.Flume.{Flume}
use smux.Crates.DashMap.{DashMap}

module _ (F : Flume) (D : DashMap) where
  -- The peer once the SYN frame `f` is handled and its stream is accepted.
  abbrev pub taken_in : Frame → SessionInner F D → Async (Result Stream) × SessionInner F D
  taken_in f peer = accept_stream F D false (handle_syn_frame F D f peer).1

  pub taken_in_lem :
      (f : Frame) (peer : SessionInner F D)
      → CanAccept F D peer f.stream_id
      → let rx = peer.fresh_pipe in
        let b = (taken_in f peer).1 in
        ((handle_syn_frame F D f peer).0 ≡ done (ok tt))
        × (b.shared.pipes rx ≡ F.unbounded)
        × (lookup F D b f.stream_id ≡ some (record { data_tx = rx; is_read_closed = false }))
        × (b.streams ≡ (handle_syn_frame F D f peer).1.streams)
        × (b.fresh_pipe ≡ (handle_syn_frame F D f peer).1.fresh_pipe)
  unfolding accept_stream handle_syn_frame send_incoming add_stream insert_stream new_pipe
      drop_state Stream.new
  taken_in_lem f peer p = ground (
    arith,
    p.peer_open,
    p.id_valid,
    p.id_free,
    p.none_waits,
    p.session_left,
    p.takes_one,
    D.contains_key_lem peer.streams f.stream_id,
    D.get-insert peer.streams f.stream_id f.stream_id
        (record { data_tx = peer.fresh_pipe; is_read_closed = false }),
    F.try_send_lem peer.incoming (Stream.new f.stream_id peer.fresh_pipe peer.config),
    F.try_recv_lem
        (F.try_send peer.incoming (Stream.new f.stream_id peer.fresh_pipe peer.config)).1,
  )

  taken_in-IsWf :
      (f : Frame) (peer : SessionInner F D)
      → f.cmd ≡ syn
      → CanAccept F D peer f.stream_id
      → IsWf F D peer
      → IsWf F D (taken_in f peer).1
  taken_in-IsWf f peer is_syn p wf =
      let law = taken_in_lem f peer p in
      let handled : (handle_frame F D f [] peer).1 ≡ (handle_syn_frame F D f peer).1 =
        unfold handle_frame in ground (arith, is_syn) in
      let met : IsWf F D (handle_syn_frame F D f peer).1 =
        subst (IsWf F D) handled
          (Local-IsWf F D f.stream_id peer _ (handle_frame-Local F D f [] peer) wf) in
      record {
        owned = λ j st q. rw law.4 (met.owned j st (ap (λ m. D.get m j) (sym law.3) ∙ q));
        distinct = λ j k st st' q q' e.
            met.distinct j k st st' (ap (λ m. D.get m j) (sym law.3) ∙ q)
              (ap (λ m. D.get m k) (sym law.3) ∙ q') e;
      }

  pub taken_in-IsOpen :
      (f : Frame) (peer : SessionInner F D) (reader : Stream)
      → CanAccept F D peer f.stream_id
      → reader.data_rx ≡ peer.fresh_pipe
      → IsOpen F D f.stream_id reader (taken_in f peer).1
  taken_in-IsOpen f peer reader p rx =
      let law = taken_in_lem f peer p in
      record {
        known = (_, law.2, sym rx);
        sender_left =
            ap (λ x. F.sending ((taken_in f peer).1.shared.pipes x)) rx
            ∙ ap F.sending law.1
            ∙ (F.unbounded_new (List ℕ)).1;
      }

  pub taken_in-IsReadable :
      (f : Frame) (peer : SessionInner F D)
      → CanAccept F D peer f.stream_id
      → IsReadable F (Stream.new f.stream_id peer.fresh_pipe peer.config) (taken_in f peer).1.shared
  unfolding Stream.new
  taken_in-IsReadable f peer p =
      let law = taken_in_lem f peer p in
      let new_channel = F.unbounded_new (List ℕ) in
      record {
        read_open = refl;
        chunk_full = λ e. absurd (cc e);
        messages_full = ap (λ c. all_full (F.queue c)) law.1 ∙ ap all_full new_channel.0;
        reader_left = ap F.receiving law.1 ∙ new_channel.2;
        no_limit = ap F.is_unbounded law.1 ∙ new_channel.3;
      }

  pub taken_in-IsOwn :
      (f : Frame) (peer : SessionInner F D) (reader : Stream)
      → f.cmd ≡ syn
      → CanAccept F D peer f.stream_id
      → IsWf F D peer
      → reader.data_rx ≡ peer.fresh_pipe
      → IsOwn F D f.stream_id reader (taken_in f peer).1
  taken_in-IsOwn f peer reader is_syn p wf rx =
      let law = taken_in_lem f peer p in
      let after = taken_in-IsWf f peer is_syn p wf in
      record {
        made =
            subst (λ x. x < (taken_in f peer).1.fresh_pipe) (sym rx)
              (after.owned f.stream_id _ law.2);
        owner = λ j st q e. after.distinct j f.stream_id st _ q law.2 (e ∙ rx);
      }
