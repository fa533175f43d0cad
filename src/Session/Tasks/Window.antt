-- ===== src/Session/Tasks/Window.antt =====
-- src/session.rs with src/stream.rs: the token counter of a session while frames come in and streams
-- are read.
use smux.Base.{ℕ, ◌+◌, ◌^◌, ◌≤◌, ◌<◌, ◌≡◌, refl, Bool, true, false, List, [], ◌∷◌, arith}
use smux.Config.{Config}
use smux.Config.Valid.{IsValidConfig}
use smux.SessionState
use smux.SessionState.{
  SessionState, is_positive, get_tokens, return_tokens, mark_data_received, i64_mod,
}
use smux.Stream.{Stream, Shared, poll_read, read_chunk, read_channel, read_received}
use smux.Session
use smux.Session.{SessionInner, StreamState}
use smux.Session.Tasks.{RecvTask, receiving, Incoming, recv_step}
use smux.Crates.Bytes.{BytesCrate}
use smux.Crates.Flume.{Flume}
use smux.Crates.DashMap.{DashMap}
use smux.Session.Tasks.Flowing.{incoming_volume, is_charging, held, IsFlowing, recv_step-IsFlowing}

-- From a counter `t` to `t'` by at most `n`, upwards.
abbrev Grows : ℕ → ℕ → ℕ → Type 0
Grows n t t' = (t ≤ t') × (t' ≤ t + n)

module _ (B : BytesCrate) (F : Flume) (D : DashMap) where
  poll_read-Grows :
      (s : Stream) (w : Shared F) (n : ℕ)
      → w.state.tokens + n < 2 ^ 63
      → Grows n w.state.tokens (poll_read F B s w n).3.state.tokens
  unfolding poll_read read_chunk read_channel read_received return_tokens
  poll_read-Grows s w n h = ground arith

  -- What the receiving task sees, and the reads of streams.
  pub data Traffic : Type 0 where
    comes : Incoming → Traffic
    reads : Stream → ℕ → Traffic

  unfoldable pub traffic_step : RecvTask → SessionInner F D → Traffic → RecvTask × SessionInner F D
  traffic_step at inner (comes e) = recv_step F D at inner e
  traffic_step at inner (reads s n) =
      (at, record inner { shared = (poll_read F B s inner.shared n).3 })

  unfoldable pub traffic_run :
      RecvTask → SessionInner F D → List Traffic → RecvTask × SessionInner F D
  traffic_run at inner [] = (at, inner)
  traffic_run at inner (t ∷ ts) =
      let (at', inner') = traffic_step at inner t in traffic_run at' inner' ts

  -- The bytes that come in, and those that readers have room for.
  abbrev pub volume : Traffic → ℕ
  volume (comes e) = incoming_volume e
  volume (reads s n) = n

  abbrev pub total_volume : List Traffic → ℕ
  total_volume [] = 0
  total_volume (t ∷ ts) = volume t + total_volume ts

  step-IsFlowing :
      (at : RecvTask) (inner : SessionInner F D) (t : Traffic)
      → is_charging at ≡ false
      → is_positive inner.shared.state.tokens ≡ true
      → inner.shared.state.tokens + (held at + volume t) < 2 ^ 63
      → IsFlowing F D inner.shared.state.tokens (held at + volume t) (traffic_step at inner t)
  unfolding traffic_step
  step-IsFlowing at inner (comes e) c pos h = recv_step-IsFlowing F D at inner e c pos h
  step-IsFlowing at inner (reads s n) c pos h =
      let grown = poll_read-Grows s inner.shared n (omega arith) in
      record { flows = c; kept = grown.0; bounded = omega (arith, grown) }

  run-IsFlowing :
      (at : RecvTask) (inner : SessionInner F D) (ts : List Traffic)
      → is_charging at ≡ false
      → 0 < inner.shared.state.tokens
      → inner.shared.state.tokens + (held at + total_volume ts) < 2 ^ 63
      → IsFlowing F D inner.shared.state.tokens
          (held at + total_volume ts)
          (traffic_run at inner ts)
  unfolding traffic_run
  run-IsFlowing at inner [] c pos h = record {
    flows = c;
    kept = omega arith;
    bounded = omega arith;
  }
  run-IsFlowing at inner (t ∷ ts) c pos h =
      let (at', inner') = traffic_step at inner t in
      let step = step-IsFlowing at inner t c (ground arith) (omega arith) in
      let rest =
        run-IsFlowing at' inner' ts step.flows (omega (arith, step.kept))
          (omega (arith, step.bounded)) in
      record {
        flows = rest.flows;
        kept = omega (arith, step.kept, rest.kept);
        bounded = omega (arith, step.bounded, rest.bounded);
      }

  -- Whatever frames come in to a new session with a valid configuration, whatever else its receiving
  -- task sees, and whatever streams are read in between, while the bytes of all these frames and
  -- reads, with the receive buffer's size, stay below 2 ^ 63: the receiving task never waits for
  -- tokens, and the counter never falls below `max_receive_buffer`.
  pub traffic_never_charges :
      (pipes : ℕ → F.Chan (List ℕ)) (cfg : Config) (client : Bool) (ts : List Traffic)
      → IsValidConfig cfg
      → cfg.max_receive_buffer + total_volume ts < 2 ^ 63
      → let r = traffic_run receiving (Session.new F D pipes cfg client) ts in
        (is_charging r.0 ≡ false) × (cfg.max_receive_buffer ≤ r.1.shared.state.tokens)
  unfolding Session.new SessionState.new
  traffic_never_charges pipes cfg client ts v h =
      let start = Session.new F D pipes cfg client in
      let tokens : start.shared.state.tokens ≡ cfg.max_receive_buffer = omega arith in
      let run =
        run-IsFlowing receiving start ts refl (omega (arith, v.frames_fit, v.buffers_a_frame))
          (omega arith) in
      (run.flows, omega (arith, run.kept))
