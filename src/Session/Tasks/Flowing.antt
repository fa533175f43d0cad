-- ===== src/Session/Tasks/Flowing.antt =====
-- src/session.rs: the token counter while `recv_loop` takes in frames.
use smux.Base.{
  ℕ, ◌+◌, ◌^◌, ◌≤◌, ◌<◌, ◌≡◌, ◌≢◌, ◌⊎◌, inl, inr, refl, Bool, true, false, [], length, arith,
  Option-cases, ap, ap,
}
use smux.Error.{Result}
use smux.SessionState
use smux.Command.{Command, syn, fin, psh, nop, upd}
use smux.Frame.{Frame}
use smux.SessionState.{
  SessionState, is_positive, get_tokens, return_tokens, mark_data_received, i64_mod,
}
use smux.Stream.{Async, done, waiting, update}
use smux.Session
use smux.Session.{SessionInner, StreamState}
use smux.Session.Handlers.{
  with_state, send_incoming, deliver, handle_psh_frame, handle_upd_frame, handle_frame,
}
use smux.Session.Flow.{wait_tokens_positive}
use smux.Session.Tasks.{
  RecvTask, receiving, accepting, charging, delivering, stopped, Incoming, frame_in, decode_failed,
  transport_closed, continue, paused, recv_step,
}
use smux.Crates.Flume.{Flume, TrySend-cases}
use smux.Crates.DashMap.{DashMap}
use smux.Session.Tasks.Counter.{remove_stream-state, send_incoming-state, syn-state, fin-state}

pub psh-cases : (c : Command) → (c ≡ psh) ⊎ (c ≢ psh)
psh-cases syn = inr (λ e. cc e)
psh-cases fin = inr (λ e. cc e)
psh-cases psh = inl refl
psh-cases nop = inr (λ e. cc e)
psh-cases (upd a b) = inr (λ e. cc e)

-- The bytes that an event brings in.
abbrev pub incoming_volume : Incoming → ℕ
incoming_volume (frame_in f) = length f.payload
incoming_volume _ = 0

-- What a task that waits for room in a data channel may still return.
abbrev pub held : RecvTask → ℕ
held receiving = 0
held (accepting stream) = 0
held (charging f) = 0
held (delivering f) = length f.payload
held stopped = 0

abbrev pub is_charging : RecvTask → Bool
is_charging receiving = false
is_charging (accepting stream) = false
is_charging (charging f) = true
is_charging (delivering f) = false
is_charging stopped = false

module _ (F : Flume) (D : DashMap) where
  -- From a counter `t`, the task does not charge, and the counter has grown by `n` at most, with what
  -- the task may still return.
  pub record IsFlowing (t n : ℕ) (r : RecvTask × SessionInner F D) : Type 0 where
    pub flows : is_charging r.0 ≡ false
    pub kept : t ≤ r.1.shared.state.tokens
    pub bounded : r.1.shared.state.tokens + held r.0 ≤ t + n

  pub deliver-IsFlowing :
      (f : Frame) (inner : SessionInner F D)
      → inner.shared.state.tokens + length f.payload < 2 ^ 63
      → IsFlowing inner.shared.state.tokens
          (length f.payload)
          (continue F D (deliver F D f.stream_id f.payload inner) (delivering f))
  unfolding deliver return_tokens
  deliver-IsFlowing f inner h = elim (Option-cases (D.get inner.streams f.stream_id)) [
    | inl unknown ↦
        rw (unknown, deliver) (record { flows = refl; kept = omega arith; bounded = omega arith })
    | inr (st, known) ↦
        elim (TrySend-cases (F.try_send (inner.shared.pipes st.data_tx) f.payload).0) [
          | inl r ↦ record {
            flows = ground (arith, known, r);
            kept = ground (arith, known, r);
            bounded = ground (arith, known, r);
          }
          | inr (inl r) ↦ record {
            flows = ground (arith, known, r);
            kept = ground (arith, known, r);
            bounded = ground (arith, known, r);
          }
          | inr (inr r) ↦
              let c = (F.try_send (inner.shared.pipes st.data_tx) f.payload).1 in
              let offered : SessionInner F D = record inner {
                shared = record (inner.shared) { pipes = update inner.shared.pipes st.data_tx c };
              } in
              let removed =
                remove_stream-state F D f.stream_id
                  (with_state F D (return_tokens (length f.payload) inner.shared.state) offered) in
              record {
                flows = ground (arith, known, r);
                kept = ground (arith, known, r, removed);
                bounded = ground (arith, known, r, removed);
              }
        ]
  ]

  pub psh-IsFlowing :
      (f : Frame) (inner : SessionInner F D)
      → f.cmd ≡ psh
      → is_positive inner.shared.state.tokens ≡ true
      → inner.shared.state.tokens + length f.payload < 2 ^ 63
      → IsFlowing inner.shared.state.tokens
          (length f.payload)
          (continue F D (handle_psh_frame F D f [] inner) (paused F D f inner))
  unfolding handle_psh_frame paused
  psh-IsFlowing f inner e pos h =
      let open_wait = wait_tokens_positive (length f.payload) [] inner.shared.state pos in
      let after = deliver-IsFlowing f inner h in
      record {
        flows = ground (arith, open_wait, after);
        kept = ground (arith, open_wait, after);
        bounded = ground (arith, open_wait, after);
      }

  -- A handler that leaves the counter alone, and where it waits holds nothing back.
  pub still-IsFlowing :
      (r : Async (Result (Unit {0})) × SessionInner F D) (at : RecvTask) (t n : ℕ)
      → r.1.shared.state.tokens ≡ t
      → is_charging at ≡ false
      → held at ≡ 0
      → IsFlowing t n (continue F D r at)
  still-IsFlowing (done r, inner) at t n e c h = record {
    flows = refl;
    kept = omega arith;
    bounded = omega arith;
  }
  still-IsFlowing (waiting, inner) at t n e c h = record {
    flows = c;
    kept = omega arith;
    bounded = omega arith;
  }

  pub paused_quiet :
      (c : Command) (f : Frame) (inner : SessionInner F D)
      → f.cmd ≡ c
      → c ≢ psh
      → (is_charging (paused F D f inner) ≡ false) × (held (paused F D f inner) ≡ 0)
  unfolding paused
  paused_quiet syn f inner e ne = (ground arith, ground arith)
  paused_quiet fin f inner e ne = (ground arith, ground arith)
  paused_quiet psh f inner e ne = absurd (ne refl)
  paused_quiet nop f inner e ne = (ground arith, ground arith)
  paused_quiet (upd a b) f inner e ne = (ground arith, ground arith)

  pub frame-tokens :
      (c : Command) (f : Frame) (inner : SessionInner F D)
      → f.cmd ≡ c
      → c ≢ psh
      → (handle_frame F D f [] inner).1.shared.state.tokens ≡ inner.shared.state.tokens
  unfolding handle_frame handle_upd_frame
  frame-tokens syn f inner e ne = ground (arith, syn-state F D f inner)
  frame-tokens fin f inner e ne = ground (arith, fin-state F D f inner)
  frame-tokens psh f inner e ne = absurd (ne refl)
  frame-tokens nop f inner e ne = ground arith
  frame-tokens (upd a b) f inner e ne = ground arith

  pub handle_frame-psh :
      (f : Frame) (inner : SessionInner F D)
      → f.cmd ≡ psh
      → handle_frame F D f [] inner ≡ handle_psh_frame F D f [] inner
  unfolding handle_frame
  handle_frame-psh f inner e = ground arith

  pub frame-IsFlowing :
      (f : Frame) (inner : SessionInner F D)
      → is_positive inner.shared.state.tokens ≡ true
      → inner.shared.state.tokens + length f.payload < 2 ^ 63
      → IsFlowing inner.shared.state.tokens
          (length f.payload)
          (continue F D (handle_frame F D f [] inner) (paused F D f inner))
  frame-IsFlowing f inner pos h = elim (psh-cases f.cmd) [
    | inl e ↦ rw (handle_frame-psh f inner e) (psh-IsFlowing f inner e pos h)
    | inr ne ↦
        let quiet = paused_quiet f.cmd f inner refl ne in
        still-IsFlowing (handle_frame F D f [] inner) (paused F D f inner) inner.shared.state.tokens
          (length f.payload) (frame-tokens f.cmd f inner refl ne) quiet.0 quiet.1
  ]

  -- A step that leaves the counter and the task as they are.
  pub idle-IsFlowing :
      (at at' : RecvTask) (inner inner' : SessionInner F D) (n : ℕ)
      → is_charging at' ≡ false
      → held at' ≤ held at
      → inner'.shared.state.tokens ≡ inner.shared.state.tokens
      → IsFlowing inner.shared.state.tokens (held at + n) (at', inner')
  idle-IsFlowing at at' inner inner' n c h e = record {
    flows = c;
    kept = omega arith;
    bounded = omega arith;
  }

  pub close-tokens :
      (inner : SessionInner F D)
      → (Session.close F D inner).shared.state.tokens ≡ inner.shared.state.tokens
  unfolding Session.close SessionState.close
  close-tokens inner = ground arith

  pub widen :
      (t n m : ℕ) (r : RecvTask × SessionInner F D) → n ≤ m → IsFlowing t n r → IsFlowing t m r
  widen t n m r h f = record { flows = f.flows; kept = f.kept; bounded = omega (arith, f.bounded) }

  pub recv_step-IsFlowing :
      (at : RecvTask) (inner : SessionInner F D) (e : Incoming)
      → is_charging at ≡ false
      → is_positive inner.shared.state.tokens ≡ true
      → inner.shared.state.tokens + (held at + incoming_volume e) < 2 ^ 63
      → IsFlowing inner.shared.state.tokens (held at + incoming_volume e) (recv_step F D at inner e)
  unfolding recv_step mark_data_received
  recv_step-IsFlowing receiving inner (frame_in f) c pos h =
      widen inner.shared.state.tokens (length f.payload) (held receiving + length f.payload) _
        (omega arith)
        (frame-IsFlowing f (with_state F D (mark_data_received inner.shared.state) inner) pos
          (omega arith))
  recv_step-IsFlowing receiving inner decode_failed c pos h =
      idle-IsFlowing receiving stopped inner _ 0 refl (omega arith) (close-tokens inner)
  recv_step-IsFlowing receiving inner transport_closed c pos h =
      idle-IsFlowing receiving stopped inner _ 0 refl (omega arith) (close-tokens inner)
  recv_step-IsFlowing receiving inner Incoming.close_notified c pos h =
      idle-IsFlowing receiving stopped inner _ 0 refl (omega arith) (close-tokens inner)
  recv_step-IsFlowing (accepting stream) inner Incoming.room c pos h =
      still-IsFlowing (send_incoming F D stream inner) (accepting stream) _ _
        (ap (λ st. st.tokens) (send_incoming-state F D stream inner)) refl refl
  recv_step-IsFlowing (charging f) inner e c pos h = absurd (cc c)
  recv_step-IsFlowing (delivering f) inner Incoming.room c pos h =
      widen inner.shared.state.tokens (length f.payload) (length f.payload + 0) _ (omega arith)
        (deliver-IsFlowing f inner (omega arith))
  recv_step-IsFlowing at inner e c pos h =
      idle-IsFlowing at at inner inner (incoming_volume e) c (omega arith) refl
