-- ===== src/Session/Tasks/Counter.antt =====
-- src/session.rs: what the handlers of the frames that carry no data do to the session's state.
use smux.Base.{ℕ, ◌≡◌, inl, inr, refl, arith, Option, some, none}
use smux.Frame.{Frame}
use smux.Stream.{Stream, drop_stream}
use smux.Session.{SessionInner, StreamState}
use smux.Session.Table.{add_stream, insert_stream, remove_stream, drop_state, new_pipe}
use smux.Session.Handlers.{send_incoming, handle_syn_frame, handle_fin_frame}
use smux.Crates.Flume.{Flume, TrySend-cases}
use smux.Crates.DashMap.{DashMap}

module _ (F : Flume) (D : DashMap) where
  pub drop_state-state :
      (o : Option StreamState) (inner : SessionInner F D)
      → (drop_state F D o inner).shared.state ≡ inner.shared.state
  unfolding drop_state
  drop_state-state none inner = refl
  drop_state-state (some st) inner = refl

  pub remove_stream-state :
      (i : ℕ) (inner : SessionInner F D)
      → (remove_stream F D i inner).shared.state ≡ inner.shared.state
  unfolding remove_stream
  remove_stream-state i inner = drop_state-state (D.remove inner.streams i).0 _

  pub send_incoming-state :
      (stream : Stream) (inner : SessionInner F D)
      → (send_incoming F D stream inner).1.shared.state ≡ inner.shared.state
  unfolding send_incoming drop_stream
  send_incoming-state stream inner = elim (TrySend-cases (F.try_send inner.incoming stream).0) [
    | inl r ↦ ground (arith, r)
    | inr (inl r) ↦ ground (arith, r)
    | inr (inr r) ↦ rw (r, send_incoming) (remove_stream-state stream.stream_id _)
  ]

  pub add_stream-state :
      (i : ℕ) (inner : SessionInner F D)
      → (add_stream F D i inner).1.shared.state ≡ inner.shared.state
  unfolding add_stream insert_stream new_pipe
  add_stream-state i inner = drop_state-state (D.get inner.streams i) _

  pub syn-state :
      (f : Frame) (inner : SessionInner F D)
      → (handle_syn_frame F D f inner).1.shared.state ≡ inner.shared.state
  unfolding handle_syn_frame
  syn-state f inner =
      let (stream, added) = add_stream F D f.stream_id inner in
      ground (arith, send_incoming-state stream added, add_stream-state f.stream_id inner)

  pub fin-state :
      (f : Frame) (inner : SessionInner F D)
      → (handle_fin_frame F D f inner).1.shared.state ≡ inner.shared.state
  unfolding handle_fin_frame drop_state
  fin-state f inner = ground arith
