-- ===== src/Session/Isolation.antt =====
-- src/session.rs: an incoming frame touches the stream that it names and no other.
use smux.Base.{
  ℕ, ◌≤◌, ◌<◌, ◌≡◌, ◌≢◌, refl, List, length, arith, false, Option, none, some, Bool-cases,
  Option-cases, inl, inr, ◌==◌,
}
use smux.Error.{Result-cases}
use smux.Command.{Command, syn, fin, psh, nop, upd}
use smux.Frame.{Frame}
use smux.Stream
use smux.Stream.{Stream, Shared, Async, done, waiting, update, drop_stream}
use smux.SessionState.{SessionState}
use smux.Session.{SessionInner, StreamState, validate_peer_stream_id}
use smux.Session.Table.{add_stream, insert_stream, new_pipe, remove_stream, drop_state}
use smux.Session.Handlers.{
  Wake, wait_tokens, handle_frame, handle_syn_frame, handle_fin_frame, handle_psh_frame,
  handle_upd_frame, deliver, send_incoming, with_state,
}
use smux.Crates.Flume.{Flume, TrySend-cases}
use smux.Crates.DashMap.{DashMap}
use smux.Session.Local.{Local, Local-trans, same-Local, pipe-Local, Wait-cases}

module _ (F : Flume) (D : DashMap) where
  fin-Local :
      (f : Frame) (inner : SessionInner F D)
      → Local F D f.stream_id inner (handle_fin_frame F D f inner).1
  unfolding handle_fin_frame drop_state
  fin-Local f inner = record {
    table = λ j ne. ground (arith, D.remove_lem inner.streams f.stream_id j);
    memory = λ k lt own. fin_memory (D.get inner.streams f.stream_id) k refl own;
    grows = ground (arith, D.remove_lem inner.streams f.stream_id f.stream_id);
    entry = λ st q. ground (arith, D.remove_lem inner.streams f.stream_id f.stream_id);
  }
    where
      fin_memory :
          (o : Option StreamState) (k : ℕ)
          → D.get inner.streams f.stream_id ≡ o
          → ((st : StreamState) → D.get inner.streams f.stream_id ≡ some st → st.data_tx ≢ k)
          → (handle_fin_frame F D f inner).1.shared.pipes k ≡ inner.shared.pipes k
      fin_memory none k e own = ground (arith, D.remove_lem inner.streams f.stream_id k)
      fin_memory (some st) k e own =
          ground (arith, D.remove_lem inner.streams f.stream_id k, own st e)

  pub remove-Local :
      (i : ℕ) (inner : SessionInner F D) → Local F D i inner (remove_stream F D i inner)
  unfolding remove_stream drop_state
  remove-Local i inner = record {
    table = λ j ne. ground (arith, D.remove_lem inner.streams i j);
    memory = λ k lt own. remove_memory (D.get inner.streams i) k refl own;
    grows = ground (arith, D.remove_lem inner.streams i i);
    entry = λ st q. ground (arith, D.remove_lem inner.streams i i);
  }
    where
      remove_memory :
          (o : Option StreamState) (k : ℕ)
          → D.get inner.streams i ≡ o
          → ((st : StreamState) → D.get inner.streams i ≡ some st → st.data_tx ≢ k)
          → (remove_stream F D i inner).shared.pipes k ≡ inner.shared.pipes k
      remove_memory none k e own = ground (arith, D.remove_lem inner.streams i k)
      remove_memory (some st) k e own = ground (arith, D.remove_lem inner.streams i k, own st e)

  pub deliver-Local :
      (i : ℕ) (bytes : List ℕ) (inner : SessionInner F D)
      → Local F D i inner (deliver F D i bytes inner).1
  unfolding deliver
  deliver-Local i bytes inner = elim (Option-cases (D.get inner.streams i)) [
    | inl e ↦ same-Local F D i inner _ (ground arith) (ground arith) (ground arith)
    | inr (st, e) ↦
        let c = F.try_send (inner.shared.pipes st.data_tx) bytes in
        elim (TrySend-cases c.0) [
          | inl r ↦ rw (e, deliver, r, deliver) (pipe-Local F D i inner st c.1 inner.shared.state e)
          | inr (inl r) ↦
              rw (e, deliver, r, deliver) (pipe-Local F D i inner st c.1 inner.shared.state e)
          | inr (inr r) ↦
              rw (e, deliver, r, deliver)
                (Local-trans F D i inner _ _ (pipe-Local F D i inner st c.1 _ e) (remove-Local i _))
        ]
  ]

  with_state-Local :
      (i : ℕ) (s : SessionState) (inner inner' : SessionInner F D)
      → Local F D i (with_state F D s inner) inner'
      → Local F D i inner inner'
  with_state-Local i s inner inner' p = record {
    table = p.table;
    memory = p.memory;
    grows = p.grows;
    entry = p.entry;
  }

  pub psh-Local :
      (f : Frame) (ws : List Wake) (inner : SessionInner F D)
      → Local F D f.stream_id inner (handle_psh_frame F D f ws inner).1
  unfolding handle_psh_frame
  psh-Local f ws inner =
      let (w, s) = wait_tokens (length f.payload) ws inner.shared.state in
      elim (Bool-cases (length f.payload == 0)) [
        | inl e ↦ rw (e, handle_psh_frame) (same-Local F D _ _ _ refl refl refl)
        | inr e ↦ elim (Wait-cases w) [
          | inl r ↦
              rw (e, r, handle_psh_frame)
                (with_state-Local _ s inner _
                  (deliver-Local f.stream_id f.payload (with_state F D s inner)))
          | inr (inl r) ↦ rw (e, r, handle_psh_frame) (same-Local F D _ _ _ refl refl refl)
          | inr (inr r) ↦ rw (e, r, handle_psh_frame) (same-Local F D _ _ _ refl refl refl)
        ]
      ]

  pub add-Local : (i : ℕ) (inner : SessionInner F D) → Local F D i inner (add_stream F D i inner).1
  unfolding add_stream insert_stream new_pipe drop_state
  add-Local i inner = record {
    table = λ j ne. ground (arith, D.get-insert inner.streams i j new_state);
    memory = λ k lt own. add_memory (D.get inner.streams i) k refl lt own;
    grows = ground arith;
    entry = λ st q. ground (arith, D.get-insert inner.streams i i new_state);
  }
    where
      new_state : StreamState
      new_state = record { data_tx = inner.fresh_pipe; is_read_closed = false }

      add_memory :
          (o : Option StreamState) (k : ℕ)
          → D.get inner.streams i ≡ o
          → k < inner.fresh_pipe
          → ((st : StreamState) → D.get inner.streams i ≡ some st → st.data_tx ≢ k)
          → (add_stream F D i inner).1.shared.pipes k ≡ inner.shared.pipes k
      add_memory none k e lt own = ground arith
      add_memory (some st) k e lt own = ground (arith, own st e)

  -- A stream with a new data channel is dropped.
  drop-Local :
      (i : ℕ) (inner added : SessionInner F D) (stream : Stream) (c : F.Chan Stream)
      → Local F D i inner added
      → inner.fresh_pipe ≤ stream.data_rx
      → Local F D i inner
          (record added { incoming = c; shared = drop_stream F stream added.shared })
  unfolding drop_stream
  drop-Local i inner added stream c p new = record {
    table = p.table;
    memory = λ k lt own. ground (arith, p.memory k lt own);
    grows = p.grows;
    entry = p.entry;
  }

  incoming-Local :
      (i : ℕ) (inner added : SessionInner F D) (c : F.Chan Stream)
      → Local F D i inner added
      → Local F D i inner (record added { incoming = c })
  incoming-Local i inner added c p = record {
    table = p.table;
    memory = p.memory;
    grows = p.grows;
    entry = p.entry;
  }

  send_incoming-Local :
      (inner added : SessionInner F D) (stream : Stream)
      → Local F D stream.stream_id inner added
      → inner.fresh_pipe ≤ stream.data_rx
      → Local F D stream.stream_id inner (send_incoming F D stream added).1
  unfolding send_incoming
  send_incoming-Local inner added stream p new =
      let c = F.try_send added.incoming stream in
      elim (TrySend-cases c.0) [
        | inl r ↦ rw (r, send_incoming) (incoming-Local _ inner added c.1 p)
        | inr (inl r) ↦ rw (r, send_incoming) (incoming-Local _ inner added c.1 p)
        | inr (inr r) ↦
            rw (r, send_incoming)
              (Local-trans F D _ inner _ _ (drop-Local _ inner added stream c.1 p new)
                (remove-Local _ _))
      ]

  add_stream-new :
      (i : ℕ) (inner : SessionInner F D)
      → (add_stream F D i inner).0 ≡ Stream.new i inner.fresh_pipe inner.config
  unfolding add_stream
  add_stream-new i inner = refl

  syn-Local :
      (f : Frame) (inner : SessionInner F D)
      → Local F D f.stream_id inner (handle_syn_frame F D f inner).1
  unfolding handle_syn_frame add_stream Stream.new
  syn-Local f inner = elim (Result-cases (validate_peer_stream_id F D inner f.stream_id)) [
    | inr (e, v) ↦ rw (v, handle_syn_frame) (same-Local F D _ _ _ refl refl refl)
    | inl (_, v) ↦ elim (Bool-cases (D.contains_key inner.streams f.stream_id)) [
      | inl known ↦ rw (v, handle_syn_frame, known) (same-Local F D _ _ _ refl refl refl)
      | inr unknown ↦
          rw (v, handle_syn_frame, unknown)
            (send_incoming-Local inner (add_stream F D f.stream_id inner).1
              (add_stream F D f.stream_id inner).0 (add-Local f.stream_id inner) (omega arith))
    ]
  ]

  -- Whatever frame comes in, its handler leaves the table entry and the data channel of every other
  -- stream as they were, and the entry that it may make leads to a channel that is new.
  pub handle_frame-Local :
      (f : Frame) (ws : List Wake) (inner : SessionInner F D)
      → Local F D f.stream_id inner (handle_frame F D f ws inner).1
  handle_frame-Local f ws inner = handle_cmd f.cmd refl
    where
      handle_cmd :
          (c : Command) → f.cmd ≡ c → Local F D f.stream_id inner (handle_frame F D f ws inner).1
      handle_cmd syn e = unfold handle_frame in rw (e, handle_frame) (syn-Local f inner)
      handle_cmd fin e = unfold handle_frame in rw (e, handle_frame) (fin-Local f inner)
      handle_cmd psh e = unfold handle_frame in rw (e, handle_frame) (psh-Local f ws inner)
      handle_cmd nop e =
          unfold handle_frame in rw (e, handle_frame) (same-Local F D _ _ _ refl refl refl)
      handle_cmd (upd c w) e =
          unfold handle_frame handle_upd_frame in
          rw (e, handle_frame) (same-Local F D _ _ _ refl refl refl)
