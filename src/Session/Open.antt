-- ===== src/Session/Open.antt =====
-- src/session.rs: `open_stream` and `accept_stream`, and the two ends of a new stream.
use smux.Base.{ℕ, ◌+◌, ◌≤◌, ◌-◌, ◌≡◌, ap, ◌∙◌, true, false, List, [], ◌∷◌, ◌++◌, arith, none, some}
use smux.Error.{ok}
use smux.Frame.{Frame, new_syn}
use smux.Frame
use smux.Stream
use smux.Stream.{Stream, Async, done, waiting, update}
use smux.Session.{SessionInner, next_stream_id, u32_max, validate_peer_stream_id}
use smux.Session.Local.{lookup}
use smux.Session.Table.{
  open_stream, accept_stream, send_syn, add_stream, insert_stream, drop_state, new_pipe,
}
use smux.Session.Handlers.{handle_syn_frame, send_incoming}
use smux.Session.Lifecycle.{handle_syn_frame_opens}
use smux.Crates.Flume.{Flume}
use smux.Crates.DashMap.{DashMap}

module _ (F : Flume) (D : DashMap) where
  -- The session is open, has ids left, the next of which is in no table entry, and its frame channel
  -- takes one more.
  pub record CanOpen (inner : SessionInner F D) : Type 0 where
    pub session_open : inner.shared.state.closed ≡ false
    pub id_left : inner.next_stream_id ≤ u32_max - 2
    pub id_new : lookup F D inner inner.next_stream_id ≡ none
    pub receiver_left : F.receiving inner.shared.frames ≡ true
    pub room_left : F.has_room inner.shared.frames ≡ true

  -- In an open session that has ids left, the next of which is in no table entry, and whose frame
  -- channel takes one more, `open_stream` returns a new stream with the next id, which shares
  -- with its table entry a new, empty, open data channel, and puts one SYN frame of this id on
  -- the frame channel.
  pub open_stream_opens :
      (inner : SessionInner F D)
      → CanOpen inner
      → let (r, inner') = open_stream F D inner in
        let i = inner.next_stream_id in
        let rx = inner.fresh_pipe in
        (r ≡ done (ok (Stream.new i rx inner.config)))
        × (lookup F D inner' i ≡ some (record { data_tx = rx; is_read_closed = false }))
        × (F.queue inner'.shared.frames
            ≡ F.queue inner.shared.frames ++ (new_syn inner.config.version i ∷ []))
        × (F.queue (inner'.shared.pipes rx) ≡ [])
        × (F.sending (inner'.shared.pipes rx) ≡ true)
        × (F.receiving (inner'.shared.pipes rx) ≡ true)
        × (inner'.next_stream_id ≡ i + 2)
  unfolding open_stream next_stream_id send_syn add_stream insert_stream drop_state new_pipe
      Stream.new
  open_stream_opens inner h =
      let i = inner.next_stream_id in
      let rx = inner.fresh_pipe in
      ground (
        arith,
        h.session_open,
        h.id_left,
        h.id_new,
        h.receiver_left,
        h.room_left,
        D.get-insert inner.streams i i (record { data_tx = rx; is_read_closed = false }),
        F.try_send_lem inner.shared.frames (new_syn inner.config.version i),
        F.unbounded_new (List ℕ),
      )

  -- `accept_stream` of an open session, where a stream waits in the accept channel, returns the
  -- first one there and takes it out, and changes neither the table nor what the streams share.
  pub accept_stream_accepts :
      (inner : SessionInner F D) (stream : Stream) (later : List Stream)
      → inner.shared.state.closed ≡ false
      → F.queue inner.incoming ≡ stream ∷ later
      → let (r, inner') = accept_stream F D false inner in
        (r ≡ done (ok stream))
        × (F.queue inner'.incoming ≡ later)
        × (inner'.streams ≡ inner.streams)
        × (inner'.shared ≡ inner.shared)
  unfolding accept_stream
  accept_stream_accepts inner stream later still q = ground (arith, F.try_recv_lem inner.incoming)

  -- The id is one of the peer's for the session, not in its table, and its accept channel is empty
  -- and takes one more.
  pub record CanAccept (peer : SessionInner F D) (i : ℕ) : Type 0 where
    pub peer_open : peer.shared.state.closed ≡ false
    pub id_valid : validate_peer_stream_id F D peer i ≡ ok tt
    pub id_free : lookup F D peer i ≡ none
    pub none_waits : F.queue peer.incoming ≡ []
    pub session_left : F.receiving peer.incoming ≡ true
    pub takes_one : F.has_room peer.incoming ≡ true

  syn_state :
      (f : Frame) (peer : SessionInner F D)
      → CanAccept peer f.stream_id
      → (handle_syn_frame F D f peer).1.shared.state ≡ peer.shared.state
  unfolding handle_syn_frame send_incoming add_stream insert_stream drop_state new_pipe Stream.new
  syn_state f peer p = ground (
    arith,
    p.id_valid,
    p.id_free,
    p.session_left,
    p.takes_one,
    D.contains_key_lem peer.streams f.stream_id,
    F.try_send_lem peer.incoming (Stream.new f.stream_id peer.fresh_pipe peer.config),
  )

  -- Where one session can open a stream and its peer can accept the id, the frame that `open_stream`
  -- puts last on the frame channel makes `accept_stream` of the peer return a stream with the id of
  -- the one that `open_stream` returned.
  pub open-accept :
      (inner peer : SessionInner F D)
      → CanOpen inner
      → CanAccept peer inner.next_stream_id
      → let i = inner.next_stream_id in
        let syn_frame = new_syn inner.config.version i in
        let opened = open_stream F D inner in
        let accepted = accept_stream F D false (handle_syn_frame F D syn_frame peer).1 in
        (opened.0 ≡ done (ok (Stream.new i inner.fresh_pipe inner.config)))
        × (F.queue opened.1.shared.frames ≡ F.queue inner.shared.frames ++ (syn_frame ∷ []))
        × (accepted.0 ≡ done (ok (Stream.new i peer.fresh_pipe peer.config)))
  unfolding new_syn Frame.new
  open-accept inner peer c p =
      let i = inner.next_stream_id in
      let f = new_syn inner.config.version i in
      let opened = open_stream_opens inner c in
      let met = handle_syn_frame_opens F D f peer p.id_valid p.id_free p.session_left p.takes_one in
      let accepted =
        accept_stream_accepts (handle_syn_frame F D f peer).1
          (Stream.new i peer.fresh_pipe peer.config) []
          (ap (λ st. st.closed) (syn_state f peer p) ∙ p.peer_open)
          (met.2
            ∙ ap (λ (q : List Stream). q ++ (Stream.new i peer.fresh_pipe peer.config ∷ []))
                p.none_waits) in
      (opened.0, opened.2, accepted.0)
