-- ===== src/Session/Syn.antt =====
-- src/session.rs: `handle_syn_frame`, all of its answers.
use smux.Base.{
  ℕ, ◌<◌, ◌%◌, ◌≡◌, ◌≢◌, ◌⊎◌, inl, inr, Bool, true, false, Bool-cases, ◌&&◌, if◌then◌else◌, List,
  [], ◌∷◌, ◌++◌, Option-cases, none, some, append-nil, arith,
}
use smux.Error.{Result, ok, err, SmuxError}
use smux.Frame.{Frame}
use smux.Stream
use smux.Stream.{Stream, Async, done, waiting, drop_stream}
use smux.Session.{SessionInner, StreamState, validate_peer_stream_id}
use smux.Session.Table.{add_stream, insert_stream, remove_stream, new_pipe, drop_state}
use smux.Session.Handlers.{handle_syn_frame, send_incoming}
use smux.Session.Local.{lookup}
use smux.Crates.Flume.{Flume}
use smux.Crates.DashMap.{DashMap}

-- What the send to the accept channel comes to, by whether it has its receiver, and room.
abbrev pub answer : Bool → Bool → Async (Result (Unit {0}))
answer true true = done (ok tt)
answer true false = waiting
answer false room = done (err SmuxError.session_closed)

module _ (F : Flume) (D : DashMap) where
  -- An id that the peer may use: even where the session is a client, odd where it is a server, and
  -- not 0.
  abbrev pub IsPeers : SessionInner F D → ℕ → Type 0
  IsPeers inner i = (0 < i) × (i % 2 ≡ (if inner.is_client then 0 else 1))

  -- The stream was made. Where the accept channel has its receiver, it is in the table, around a new,
  -- empty data channel with its two ends, and behind the streams to accept, if there is room; where
  -- it has none, the entry is gone again, and so are the two ends of the data channel.
  pub record IsMade (i : ℕ) (inner : SessionInner F D)
      (r : Async (Result (Unit {0})) × SessionInner F D) : Type 0 where
    pub answered : r.0 ≡ answer (F.receiving inner.incoming) (F.has_room inner.incoming)
    pub entry : lookup F D r.1 i ≡ (
        if F.receiving inner.incoming
        then some (record { data_tx = inner.fresh_pipe; is_read_closed = false })
        else none)
    pub others : (j : ℕ) → i ≢ j → lookup F D r.1 j ≡ lookup F D inner j
    pub to_accept :
        F.queue r.1.incoming
        ≡ F.queue inner.incoming
          ++ (if F.receiving inner.incoming && F.has_room inner.incoming
              then Stream.new i inner.fresh_pipe inner.config ∷ []
              else [])
    pub empty_channel :
        (if F.receiving inner.incoming then F.queue (r.1.shared.pipes inner.fresh_pipe) else [])
        ≡ []
    pub sender_left : F.sending (r.1.shared.pipes inner.fresh_pipe) ≡ F.receiving inner.incoming
    pub reader_left : F.receiving (r.1.shared.pipes inner.fresh_pipe) ≡ F.receiving inner.incoming
    pub other_channels : (k : ℕ) → inner.fresh_pipe ≢ k → r.1.shared.pipes k ≡ inner.shared.pipes k
    pub same_state : r.1.shared.state ≡ inner.shared.state

  -- The id is refused, it is in use, or the stream is made.
  abbrev pub IsAnswered :
      ℕ → SessionInner F D → Async (Result (Unit {0})) × SessionInner F D → Type 0
  IsAnswered i inner r =
      ((¬ IsPeers inner i) × (r ≡ (done (err (SmuxError.invalid_stream_id i)), inner)))
      ⊎ ((IsPeers inner i
            × (lookup F D inner i ≢ none)
            × (r ≡ (done (err (SmuxError.stream_already_exists i)), inner)))
          ⊎ (IsPeers inner i × (lookup F D inner i ≡ none) × IsMade i inner r))

  validate-cases :
      (inner : SessionInner F D) (i : ℕ)
      → ((¬ IsPeers inner i)
          × (validate_peer_stream_id F D inner i ≡ err (SmuxError.invalid_stream_id i)))
        ⊎ (IsPeers inner i × (validate_peer_stream_id F D inner i ≡ ok tt))
  unfolding validate_peer_stream_id
  validate-cases inner i = ground arith

  opened-IsMade :
      (f : Frame) (inner : SessionInner F D)
      → validate_peer_stream_id F D inner f.stream_id ≡ ok tt
      → lookup F D inner f.stream_id ≡ none
      → IsMade f.stream_id inner (handle_syn_frame F D f inner)
  unfolding handle_syn_frame send_incoming add_stream insert_stream remove_stream new_pipe
      drop_state drop_stream Stream.new
  opened-IsMade f inner v new =
      let i = f.stream_id in
      let rx = inner.fresh_pipe in
      let st : StreamState = record { data_tx = rx; is_read_closed = false } in
      let free = D.contains_key_lem inner.streams i in
      let inserted = D.insert inner.streams i st in
      let law = F.try_send_lem inner.incoming (Stream.new i rx inner.config) in
      let table = D.get-insert inner.streams i in
      let taken = D.remove_lem inserted i in
      let pipe = F.unbounded_new (List ℕ) in
      let dropped = F.close_rx_lem (F.unbounded {A = List ℕ}) in
      let closed = F.close_tx_lem (F.close_rx (F.unbounded {A = List ℕ})) in
      elim (Bool-cases (F.receiving inner.incoming)) [
        | inl there ↦ record {
          answered = ground (arith, v, new, free, law, there);
          entry = ground (arith, v, new, free, law, there, table i st);
          others = λ j ne. ground (arith, v, new, free, law, there, table j st, ne);
          to_accept = ground (arith, v, new, free, law, there, append-nil (F.queue inner.incoming));
          empty_channel = ground (arith, v, new, free, law, there, pipe);
          sender_left = ground (arith, v, new, free, law, there, pipe);
          reader_left = ground (arith, v, new, free, law, there, pipe);
          other_channels = λ k ne. ground (arith, v, new, free, law, there, ne);
          same_state = ground (arith, v, new, free, law, there);
        }
        | inr gone ↦ record {
          answered = ground (arith, v, new, free, law, gone);
          entry = ground (arith, v, new, free, law, gone, taken i);
          others = λ j ne. ground (arith, v, new, free, law, gone, table j st, taken j, ne);
          to_accept = ground (arith, v, new, free, law, gone, append-nil (F.queue inner.incoming));
          empty_channel =
              ground (arith, v, new, free, law, gone, table i st, taken i, pipe, dropped, closed);
          sender_left =
              ground (arith, v, new, free, law, gone, table i st, taken i, pipe, dropped, closed);
          reader_left =
              ground (arith, v, new, free, law, gone, table i st, taken i, pipe, dropped, closed);
          other_channels = λ k ne. ground (arith, v, new, free, law, gone, table i st, taken i, ne);
          same_state = ground (arith, v, new, free, law, gone, table i st, taken i);
        }
      ]

  -- On any SYN frame and in any session, one of these: the id is 0 or has the parity of the session's
  -- own ids, and the handler answers with the invalid id and changes nothing; the id is one that the
  -- peer may use but is in the table, and it answers that the stream exists and changes nothing; or
  -- the id is new. Then it makes the stream's table entry around a new data channel and queues the
  -- stream for `accept_stream`, or waits for room to queue it, or, where the accept channel has no
  -- receiver, answers that the session is closed, with neither the entry nor an end of the data
  -- channel left. No other entry and no other data channel changes, nor does the `SessionState`.
  pub handle_syn_frame-IsAnswered :
      (f : Frame) (inner : SessionInner F D)
      → IsAnswered f.stream_id inner (handle_syn_frame F D f inner)
  unfolding handle_syn_frame
  handle_syn_frame-IsAnswered f inner = elim (validate-cases inner f.stream_id) [
    | inl (other, e) ↦ inl (other, ground (arith, e))
    | inr (peers, e) ↦ elim (Option-cases (lookup F D inner f.stream_id)) [
      | inl new ↦ inr (inr (peers, new, opened-IsMade f inner e new))
      | inr (st, known) ↦ inr (
          inl (
            peers,
            (λ q. cc (q, known)),
            ground (arith, e, known, D.contains_key_lem inner.streams f.stream_id),
          ))
    ]
  ]
