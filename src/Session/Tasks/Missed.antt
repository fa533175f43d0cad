-- ===== src/Session/Tasks/Missed.antt =====
-- src/session.rs: a close of the session that comes while `recv_loop` is in a handler.
use smux.Base.{◌≢◌, ◌≡◌, refl, Bool, true, false, List, [], ◌∷◌, All, arith}
use smux.Error.{Result}
use smux.SessionState
use smux.Stream.{Async, done, waiting}
use smux.Session
use smux.Session.{SessionInner}
use smux.Session.Handlers.{send_incoming, deliver, handle_psh_frame, handle_frame, with_state}
use smux.SessionState.{mark_data_received}
use smux.Session.Tasks.{
  RecvTask, receiving, accepting, charging, delivering, stopped, tokens_returned, continue, paused,
  recv_step, recv_run, Incoming, frame_in, decode_failed, transport_closed,
}
use smux.Session.Tasks.Receive.{close-is_closed, paused-ne-stopped}
use smux.Link.Closing.{recv_step-closed}
use smux.Crates.Flume.{Flume}
use smux.Crates.DashMap.{DashMap}

-- The events of a transport that neither fails nor ends, after the one notification of a close.
abbrev pub is_lasting : Incoming → Bool
is_lasting (frame_in f) = true
is_lasting decode_failed = false
is_lasting transport_closed = false
is_lasting Incoming.close_notified = false
is_lasting Incoming.room = true
is_lasting tokens_returned = true

module _ (F : Flume) (D : DashMap) where
  continue-ne-stopped :
      (r : Async (Result (Unit {0})) × SessionInner F D) (at : RecvTask)
      → at ≢ stopped
      → (continue F D r at).0 ≢ stopped
  continue-ne-stopped (done r, inner) at h = λ e. cc e
  continue-ne-stopped (waiting, inner) at h = h

  recv_step-lasts :
      (at : RecvTask) (inner : SessionInner F D) (e : Incoming)
      → at ≢ stopped
      → is_lasting e ≡ true
      → (recv_step F D at inner e).0 ≢ stopped
  unfolding recv_step
  recv_step-lasts receiving inner (frame_in f) h quiet =
      let marked = with_state F D (mark_data_received inner.shared.state) inner in
      continue-ne-stopped (handle_frame F D f [] marked) (paused F D f marked)
        (paused-ne-stopped F D f marked)
  recv_step-lasts receiving inner decode_failed h quiet = absurd (cc quiet)
  recv_step-lasts receiving inner transport_closed h quiet = absurd (cc quiet)
  recv_step-lasts receiving inner Incoming.close_notified h quiet = absurd (cc quiet)
  recv_step-lasts (accepting stream) inner Incoming.room h quiet =
      continue-ne-stopped (send_incoming F D stream inner) (accepting stream) h
  recv_step-lasts (charging f) inner tokens_returned h quiet =
      continue-ne-stopped (handle_psh_frame F D f [] inner) (paused F D f inner)
        (paused-ne-stopped F D f inner)
  recv_step-lasts (charging f) inner Incoming.close_notified h quiet = λ e. cc e
  recv_step-lasts (delivering f) inner Incoming.room h quiet =
      continue-ne-stopped (deliver F D f.stream_id f.payload inner) (delivering f) h
  recv_step-lasts _ inner e h quiet = h

  -- The task goes on in a session that is closed, which another close leaves as it is.
  record IsLeftOver (r : RecvTask × SessionInner F D) : Type 0 where
    pub runs : r.0 ≢ stopped
    pub closed : r.1.shared.state.closed ≡ true

  recv_run-IsLeftOver :
      (at : RecvTask) (inner : SessionInner F D) (es : List Incoming)
      → IsLeftOver (at, inner)
      → All (λ e. is_lasting e ≡ true) es
      → IsLeftOver (recv_run F D at inner es)
  unfolding recv_run
  recv_run-IsLeftOver at inner [] h quiet = h
  recv_run-IsLeftOver at inner (e ∷ es) h (q, quiet) =
      let (at', inner') = recv_step F D at inner e in
      recv_run-IsLeftOver at' inner' es
        (record {
          runs = recv_step-lasts at inner e h.runs q;
          closed = recv_step-closed F D at inner e h.closed;
        })
        quiet

  recv_step-told :
      (at : RecvTask) (inner : SessionInner F D)
      → at ≢ receiving
      → at ≢ stopped
      → (recv_step F D at inner Incoming.close_notified).0 ≢ stopped
  unfolding recv_step
  recv_step-told receiving inner away runs = absurd (away refl)
  recv_step-told (accepting stream) inner away runs = runs
  recv_step-told (charging f) inner away runs = λ e. cc e
  recv_step-told (delivering f) inner away runs = runs
  recv_step-told stopped inner away runs = absurd (runs refl)

  close-again :
      (inner : SessionInner F D)
      → inner.shared.state.closed ≡ true
      → Session.close F D inner ≡ inner
  unfolding Session.close SessionState.close
  close-again inner h = ground (arith, h)

  -- Where the session is closed while `recv_loop` is in the handler of a frame, which waits for room
  -- or for tokens, the one notification of the close ends at most that wait: whatever frames come in
  -- then, the task never stops while the transport and the decoder do not fail, and no other close
  -- notifies it any more.
  pub recv_loop_misses_close :
      (at : RecvTask) (inner : SessionInner F D) (es : List Incoming)
      → at ≢ receiving
      → at ≢ stopped
      → All (λ e. is_lasting e ≡ true) es
      → let r = recv_run F D at (Session.close F D inner) (Incoming.close_notified ∷ es) in
        (r.0 ≢ stopped) × (Session.close F D r.1 ≡ r.1)
  unfolding recv_run
  recv_loop_misses_close at inner es away runs quiet =
      let (at', told) = recv_step F D at (Session.close F D inner) Incoming.close_notified in
      let left =
        recv_run-IsLeftOver at' told es
          (record {
            runs = recv_step-told at (Session.close F D inner) away runs;
            closed = recv_step-closed F D at _ _ (close-is_closed F D inner);
          })
          quiet in
      (left.runs, close-again _ left.closed)
