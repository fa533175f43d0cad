-- ===== src/Session/Tasks/Receive.antt =====
-- src/session.rs: how `recv_loop` ends.
use smux.Base.{◌≢◌, ◌≡◌, true, List, [], ◌∷◌, arith}
use smux.Error.{Result}
use smux.SessionState
use smux.Stream.{Async, done, waiting}
use smux.Frame.{Frame}
use smux.Session.Tasks.{
  RecvTask, receiving, accepting, charging, delivering, stopped, tokens_returned, continue, paused,
  recv_step, recv_run,
}
use smux.Session
use smux.Session.{SessionInner}
use smux.Session.Handlers.{send_incoming, deliver, handle_psh_frame, handle_frame, with_state}
use smux.SessionState.{mark_data_received}
use smux.Session.Tasks.{Incoming, frame_in, decode_failed, transport_closed, recv_loop}
use smux.Crates.Flume.{Flume}
use smux.Crates.DashMap.{DashMap}

module _ (F : Flume) (D : DashMap) where
  pub close-is_closed :
      (inner : SessionInner F D) → Session.is_closed F D (Session.close F D inner) ≡ true
  unfolding Session.close SessionState.close
  close-is_closed inner = ground arith

  pub paused-ne-stopped : (f : Frame) (inner : SessionInner F D) → paused F D f inner ≢ stopped
  unfolding paused
  paused-ne-stopped f inner = ground arith

  -- The task is at its end only if the session is closed.
  abbrev HasClosed : RecvTask × SessionInner F D → Type 0
  HasClosed r = r.0 ≡ stopped → Session.is_closed F D r.1 ≡ true

  continue-HasClosed :
      (r : Async (Result (Unit {0})) × SessionInner F D) (at : RecvTask)
      → at ≢ stopped
      → HasClosed (continue F D r at)
  continue-HasClosed (done r, inner) at h = λ e. absurd (cc e)
  continue-HasClosed (waiting, inner) at h = λ e. absurd (h e)

  recv_step-HasClosed :
      (at : RecvTask) (inner : SessionInner F D) (e : Incoming)
      → HasClosed (at, inner)
      → HasClosed (recv_step F D at inner e)
  unfolding recv_step
  recv_step-HasClosed receiving inner (frame_in f) h =
      let marked = with_state F D (mark_data_received inner.shared.state) inner in
      continue-HasClosed (handle_frame F D f [] marked) (paused F D f marked)
        (paused-ne-stopped f marked)
  recv_step-HasClosed receiving inner decode_failed h = λ _. close-is_closed inner
  recv_step-HasClosed receiving inner transport_closed h = λ _. close-is_closed inner
  recv_step-HasClosed receiving inner Incoming.close_notified h = λ _. close-is_closed inner
  recv_step-HasClosed (accepting stream) inner Incoming.room h =
      continue-HasClosed (send_incoming F D stream inner) (accepting stream) (λ e. cc e)
  recv_step-HasClosed (charging f) inner tokens_returned h =
      continue-HasClosed (handle_psh_frame F D f [] inner) (paused F D f inner)
        (paused-ne-stopped f inner)
  recv_step-HasClosed (charging f) inner Incoming.close_notified h = λ e. absurd (cc e)
  recv_step-HasClosed (delivering f) inner Incoming.room h =
      continue-HasClosed (deliver F D f.stream_id f.payload inner) (delivering f) (λ e. cc e)
  recv_step-HasClosed _ inner e h = h

  recv_run-HasClosed :
      (at : RecvTask) (inner : SessionInner F D) (es : List Incoming)
      → HasClosed (at, inner)
      → HasClosed (recv_run F D at inner es)
  unfolding recv_run
  recv_run-HasClosed at inner [] h = h
  recv_run-HasClosed at inner (e ∷ es) h =
      let (at', inner') = recv_step F D at inner e in
      recv_run-HasClosed at' inner' es (recv_step-HasClosed at inner e h)

  -- However `recv_loop` comes to its end, it leaves the session closed.
  pub recv_loop_closes :
      (inner : SessionInner F D) (es : List Incoming)
      → (recv_loop F D inner es).0 ≡ stopped
      → Session.is_closed F D (recv_loop F D inner es).1 ≡ true
  recv_loop_closes inner es = recv_run-HasClosed receiving inner es (λ e. absurd (cc e))
