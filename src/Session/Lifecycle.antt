-- ===== src/Session/Lifecycle.antt =====
-- src/session.rs with src/stream.rs: a stream that the peer opens, writes to and finishes, as its
-- reader sees it.
use smux.Base.{
  ℕ, ◌<◌, ◌≡◌, List, [], ◌∷◌, ◌++◌, append_assoc, append-nil, length, arith, sym, ap, ◌∙◌, true,
  false, none, some,
}
use smux.Error.{ok}
use smux.Base.{flatten}
use smux.Frame.{Frame}
use smux.Stream
use smux.Stream.{Stream, Shared, Async, done, waiting, update}
use smux.Stream.Read.{unread, chunk_bytes}
use smux.SessionState.{is_positive}
use smux.Session.{SessionInner, StreamState, validate_peer_stream_id}
use smux.Session.Table.{add_stream, insert_stream, new_pipe, drop_state}
use smux.Session.Handlers.{
  Wake, handle_syn_frame, handle_fin_frame, handle_psh_frame, send_incoming,
}
use smux.Session.Local.{lookup}
use smux.Session.Flow.{CanDeliver, handle_psh_frame_delivers}
use smux.Crates.Flume.{Flume}
use smux.Crates.DashMap.{DashMap}

pub flatten-append :
    (xss : List (List ℕ)) (xs : List ℕ) → flatten (xss ++ (xs ∷ [])) ≡ flatten xss ++ xs
flatten-append [] xs = append-nil xs
flatten-append (ys ∷ yss) xs =
    ap (λ (l : List ℕ). ys ++ l) (flatten-append yss xs) ∙ sym (append_assoc ys (flatten yss) xs)

module _ (F : Flume) (D : DashMap) where
  -- A SYN frame with an id that the peer may use and that is not in the table, while the accept
  -- channel has room, queues a new stream for `accept_stream`, which shares with the table a new,
  -- empty, open data channel.
  pub handle_syn_frame_opens :
      (f : Frame) (inner : SessionInner F D)
      → validate_peer_stream_id F D inner f.stream_id ≡ ok tt
      → lookup F D inner f.stream_id ≡ none
      → F.receiving inner.incoming ≡ true
      → F.has_room inner.incoming ≡ true
      → let (r, inner') = handle_syn_frame F D f inner in
        let rx = inner.fresh_pipe in
        (r ≡ done (ok tt))
        × (lookup F D inner' f.stream_id ≡ some (record { data_tx = rx; is_read_closed = false }))
        × (F.queue inner'.incoming
            ≡ F.queue inner.incoming ++ (Stream.new f.stream_id rx inner.config ∷ []))
        × (F.queue (inner'.shared.pipes rx) ≡ [])
        × (F.sending (inner'.shared.pipes rx) ≡ true)
        × (F.is_unbounded (inner'.shared.pipes rx) ≡ true)
  unfolding handle_syn_frame send_incoming add_stream insert_stream new_pipe drop_state
  handle_syn_frame_opens f inner v new rcv room =
      let rx = inner.fresh_pipe in
      let st : StreamState = record { data_tx = rx; is_read_closed = false } in
      ground (
        arith,
        D.contains_key_lem inner.streams f.stream_id,
        D.get-insert inner.streams f.stream_id f.stream_id st,
        F.try_send_lem inner.incoming (Stream.new f.stream_id rx inner.config),
        F.unbounded_new (List ℕ),
      )

  -- With tokens left, a data frame that is not empty, of a stream of the table whose reader is
  -- there, adds exactly its payload to what the reader has yet to read, behind all that came
  -- before.
  pub unread-handle_psh_frame :
      (f : Frame) (ws : List Wake) (inner : SessionInner F D) (st : StreamState) (s : Stream)
      → 0 < length f.payload
      → is_positive inner.shared.state.tokens ≡ true
      → CanDeliver F D inner f.stream_id st
      → s.data_rx ≡ st.data_tx
      → unread F s (handle_psh_frame F D f ws inner).1.shared ≡ unread F s inner.shared ++ f.payload
  unread-handle_psh_frame f ws inner st s h pos c same =
      let sent = handle_psh_frame_delivers F D f ws inner st h pos c in
      let queue = F.queue (inner.shared.pipes st.data_tx) in
      rw (same, sent.1, flatten-append queue f.payload)
        (sym (append_assoc (chunk_bytes s.current_chunk) (flatten queue) f.payload))

  -- A FIN frame of a stream of the table takes it out of the table and ends its data channel, and
  -- leaves to its reader all that was unread.
  pub handle_fin_frame_ends :
      (f : Frame) (inner : SessionInner F D) (st : StreamState) (s : Stream)
      → lookup F D inner f.stream_id ≡ some st
      → s.data_rx ≡ st.data_tx
      → let (r, inner') = handle_fin_frame F D f inner in
        (r ≡ done (ok tt))
        × (lookup F D inner' f.stream_id ≡ none)
        × (F.sending (inner'.shared.pipes s.data_rx) ≡ false)
        × (unread F s inner'.shared ≡ unread F s inner.shared)
  unfolding handle_fin_frame drop_state
  handle_fin_frame_ends f inner st s e same = ground (
    arith,
    D.remove_lem inner.streams f.stream_id f.stream_id,
    F.close_tx_lem (inner.shared.pipes st.data_tx),
  )
