-- ===== src/Link/Closing.antt =====
-- src/session.rs: no move opens a closed session of the reader.
use smux.Base.{arith, ℕ, ◌≡◌, refl, ap, ◌∙◌, true, [], ◌⊎◌, inl, inr}
use smux.Error.{Result}
use smux.Config.{Config}
use smux.SessionState.{mark_data_received, return_tokens}
use smux.Stream.{Async, drop_stream}
use smux.Session.{SessionInner}
use smux.Session.Handlers.{with_state, send_incoming, deliver, handle_psh_frame, handle_frame}
use smux.Session.Tasks.{
  RecvTask, receiving, accepting, charging, delivering, stopped, Incoming, frame_in, decode_failed,
  transport_closed, close_notified, room, tokens_returned, continue, paused, recv_step,
}
use smux.Session.Tasks.Counter.{send_incoming-state}
use smux.Session.Tasks.Receive.{close-is_closed}
use smux.Link.{
  Link, Label, Move, writes, shuts_down, closes, close_goes_on, close_cancelled, drops, send_ends,
  sender_acts, sends, carries, decodes, resumes, told, breaks, receiver_acts, reads, reader_drops,
}
use smux.Link.Reading.{poll_read-closed}
use smux.Link.Handling.{continue-inner, deliver-closed, psh-closed, frame-closed}
use smux.Crates.Bytes.{BytesCrate}
use smux.Crates.Flume.{Flume}
use smux.Crates.DashMap.{DashMap}

module _ (F : Flume) (D : DashMap) where
  continue-closed :
      (a : SessionInner F D) (r : Async (Result (Unit {0})) × SessionInner F D) (at : RecvTask)
      → r.1.shared.state.closed ≡ a.shared.state.closed
      → a.shared.state.closed ≡ true
      → (continue F D r at).1.shared.state.closed ≡ true
  continue-closed a r at same closed =
      ap (λ x. x.shared.state.closed) (continue-inner F D r at) ∙ same ∙ closed

  pub recv_step-closed :
      (at : RecvTask) (a : SessionInner F D) (e : Incoming)
      → a.shared.state.closed ≡ true
      → (recv_step F D at a e).1.shared.state.closed ≡ true
  unfolding recv_step return_tokens mark_data_received
  recv_step-closed receiving a (frame_in f) h =
      let marked = with_state F D (mark_data_received a.shared.state) a in
      continue-closed marked (handle_frame F D f [] marked) (paused F D f marked)
        (frame-closed F D f.cmd f marked refl) h
  recv_step-closed receiving a decode_failed h = close-is_closed F D a
  recv_step-closed receiving a transport_closed h = close-is_closed F D a
  recv_step-closed receiving a close_notified h = close-is_closed F D a
  recv_step-closed receiving a room h = h
  recv_step-closed receiving a tokens_returned h = h
  recv_step-closed (accepting stream) a room h =
      continue-closed a (send_incoming F D stream a) (accepting stream)
        (ap (λ s. s.closed) (send_incoming-state F D stream a)) h
  recv_step-closed (accepting stream) a (frame_in f) h = h
  recv_step-closed (accepting stream) a decode_failed h = h
  recv_step-closed (accepting stream) a transport_closed h = h
  recv_step-closed (accepting stream) a close_notified h = h
  recv_step-closed (accepting stream) a tokens_returned h = h
  recv_step-closed (charging f) a tokens_returned h =
      continue-closed a (handle_psh_frame F D f [] a) (paused F D f a) (psh-closed F D f a) h
  recv_step-closed (charging f) a close_notified h = h
  recv_step-closed (charging f) a (frame_in g) h = h
  recv_step-closed (charging f) a decode_failed h = h
  recv_step-closed (charging f) a transport_closed h = h
  recv_step-closed (charging f) a room h = h
  recv_step-closed (delivering f) a room h =
      continue-closed a (deliver F D f.stream_id f.payload a) (delivering f)
        (deliver-closed F D f.stream_id f.payload a) h
  recv_step-closed (delivering f) a (frame_in g) h = h
  recv_step-closed (delivering f) a decode_failed h = h
  recv_step-closed (delivering f) a transport_closed h = h
  recv_step-closed (delivering f) a close_notified h = h
  recv_step-closed (delivering f) a tokens_returned h = h
  recv_step-closed stopped a e h = h

  -- The receiving task closes the session when the decoder or the transport fails.
  pub recv_step-broken :
      (at : RecvTask) (a : SessionInner F D) (e : Incoming)
      → at ≡ receiving
      → (e ≡ decode_failed) ⊎ (e ≡ transport_closed)
      → (recv_step F D at a e).1.shared.state.closed ≡ true
  unfolding recv_step
  recv_step-broken at a e is_receiving (inl k) =
      ground (arith, is_receiving, k, close-is_closed F D a)
  recv_step-broken at a e is_receiving (inr k) =
      ground (arith, is_receiving, k, close-is_closed F D a)

  pub Move-closed :
      (B : BytesCrate) (cfg : Config) (i : ℕ) (l m : Link F D) (label : Label)
      → Move F D B cfg i l label m
      → l.receiver.shared.state.closed ≡ true
      → m.receiver.shared.state.closed ≡ true
  Move-closed B cfg i l m label (writes buf free) h = h
  Move-closed B cfg i l m label (shuts_down free) h = h
  Move-closed B cfg i l m label (closes free) h = h
  Move-closed B cfg i l m label (close_goes_on waits) h = h
  Move-closed B cfg i l m label (close_cancelled waits) h = h
  Move-closed B cfg i l m label (drops not_yet) h = h
  Move-closed B cfg i l m label (sender_acts sender writer fs e apart typed id same) h = h
  Move-closed B cfg i l m label (sends runs goes_on) h = h
  Move-closed B cfg i l m label (send_ends e k runs over) h = h
  Move-closed B cfg i l m label (carries k) h = h
  Move-closed B cfg i l m label (decodes f left at found) h =
      recv_step-closed l.recv l.receiver (frame_in f) h
  Move-closed B cfg i l m label (resumes e known) h = recv_step-closed l.recv l.receiver e h
  Move-closed B cfg i l m label (breaks e at known) h = recv_step-closed l.recv l.receiver e h
  Move-closed B cfg i l m label (told closed) h =
      recv_step-closed l.recv l.receiver close_notified h
  Move-closed B cfg i l m label (receiver_acts receiver reader spares rx chunk same) h =
      spares.stays_closed h
  Move-closed B cfg i l m label (reader_drops there) h = unfold drop_stream in h
  Move-closed B cfg i l m label (reads n pos there) h =
      poll_read-closed B F l.reader l.receiver.shared n ∙ h

  -- A stream that was dropped is gone.
  pub Move-has_reader :
      (B : BytesCrate) (cfg : Config) (i : ℕ) (l m : Link F D) (label : Label)
      → Move F D B cfg i l label m
      → m.has_reader ≡ true
      → l.has_reader ≡ true
  Move-has_reader B cfg i l m label (reader_drops there) h = there
  Move-has_reader B cfg i l m label _ h = h
