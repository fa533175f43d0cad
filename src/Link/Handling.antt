-- ===== src/Link/Handling.antt =====
-- src/session.rs: a frame in the receiving task, as the reader of the stream `i` sees it.
use smux.Base.{
  ℕ, ◌≡◌, ◌≢◌, ◌⊎◌, inl, inr, refl, true, false, some, Option-cases, List, [], ◌∷◌, ◌++◌, length,
  arith,
}
use smux.Error.{Result}
use smux.Command.{Command, syn, fin, psh, nop, upd}
use smux.Frame.{Frame}
use smux.SessionState.{SessionState, take_tokens, return_tokens}
use smux.Stream.{Stream, Async, done, waiting, update}
use smux.Stream.Read.{unread}
use smux.Session.{SessionInner, StreamState}
use smux.Session.Handlers.{
  with_state, wait_tokens, deliver, handle_psh_frame, handle_upd_frame, handle_frame,
}
use smux.Session.Local.{lookup}
use smux.Session.Tasks.{RecvTask, receiving, accepting, charging, delivering, stopped, continue}
use smux.Session.Tasks.Counter.{syn-state, fin-state, remove_stream-state}
use smux.Session.Tasks.Demux.{bytes_for}
use smux.Link.Reading.{IsReadable}
use smux.Link.Sparing.{IsOwn}
use smux.Crates.Flume.{Flume}
use smux.Crates.DashMap.{DashMap}

-- The frame that a waiting task holds.
abbrev pub held_frames : RecvTask → List Frame
held_frames receiving = []
held_frames (accepting stream) = []
held_frames (charging f) = f ∷ []
held_frames (delivering f) = f ∷ []
held_frames stopped = []

-- A task that waits with a new stream waits with another one, and one that waits with a frame waits
-- with a data frame, which is another stream's if it waits for room.
abbrev pub IsAside : ℕ → Stream → RecvTask → Type 0
IsAside i reader receiving = Unit {0}
IsAside i reader (accepting stream) = (stream.stream_id ≢ i) × (stream.data_rx ≢ reader.data_rx)
IsAside i reader (charging f) = f.cmd ≡ psh
IsAside i reader (delivering f) = (f.cmd ≡ psh) × (f.stream_id ≢ i)
IsAside i reader stopped = Unit {0}

module _ (F : Flume) (D : DashMap) where
  pub continue-at :
      (P : RecvTask → Type 0) (r : Async (Result (Unit {0})) × SessionInner F D) (at : RecvTask)
      → P receiving
      → P at
      → P (continue F D r at).0
  continue-at P (done r, inner) at h k = h
  continue-at P (waiting, inner) at h k = k

  pub continue-inner :
      (r : Async (Result (Unit {0})) × SessionInner F D) (at : RecvTask)
      → (continue F D r at).1 ≡ r.1
  continue-inner (done r, inner) at = refl
  continue-inner (waiting, inner) at = refl

  pub deliver-closed :
      (i : ℕ) (bytes : List ℕ) (inner : SessionInner F D)
      → (deliver F D i bytes inner).1.shared.state.closed ≡ inner.shared.state.closed
  unfolding deliver return_tokens
  deliver-closed i bytes inner = elim (Option-cases (D.get inner.streams i)) [
    | inl unknown ↦ rw (unknown, deliver) refl
    | inr (st, known) ↦
        let c = (F.try_send (inner.shared.pipes st.data_tx) bytes).1 in
        let offered : SessionInner F D = record inner {
          shared = record (inner.shared) { pipes = update inner.shared.pipes st.data_tx c };
        } in
        let removed =
          remove_stream-state F D i
            (with_state F D (return_tokens (length bytes) inner.shared.state) offered) in
        ground (arith, known, removed)
  ]

  wait-closed : (len : ℕ) (s : SessionState) → (wait_tokens len [] s).1.closed ≡ s.closed
  unfolding wait_tokens take_tokens
  wait-closed len s = ground arith

  pub psh-closed :
      (f : Frame) (inner : SessionInner F D)
      → (handle_psh_frame F D f [] inner).1.shared.state.closed ≡ inner.shared.state.closed
  unfolding handle_psh_frame
  psh-closed f inner =
      let (w, s) = wait_tokens (length f.payload) [] inner.shared.state in
      ground (
        arith,
        wait-closed (length f.payload) inner.shared.state,
        deliver-closed f.stream_id f.payload (with_state F D s inner),
      )

  pub frame-closed :
      (c : Command) (f : Frame) (inner : SessionInner F D)
      → f.cmd ≡ c
      → (handle_frame F D f [] inner).1.shared.state.closed ≡ inner.shared.state.closed
  unfolding handle_frame handle_upd_frame
  frame-closed syn f inner e = ground (arith, syn-state F D f inner)
  frame-closed fin f inner e = ground (arith, fin-state F D f inner)
  frame-closed psh f inner e = ground (arith, psh-closed f inner)
  frame-closed nop f inner e = ground arith
  frame-closed (upd a b) f inner e = ground arith

  -- The stream is in the table, and its channel has its sender.
  pub record IsOpen (i : ℕ) (reader : Stream) (inner : SessionInner F D) : Type 0 where
    pub known : (st : StreamState) × (lookup F D inner i ≡ some st) × (st.data_tx ≡ reader.data_rx)
    pub sender_left : F.sending (inner.shared.pipes reader.data_rx) ≡ true

  -- What the reader's side has once the task has dealt with the frame `f`.
  pub record Handled (i : ℕ) (reader : Stream) (f : Frame) (a : SessionInner F D)
      (r : RecvTask × SessionInner F D) : Type 0 where
    pub content :
        unread F reader r.1.shared ++ bytes_for i (held_frames r.0)
        ≡ unread F reader a.shared ++ bytes_for i (f ∷ [])
    pub aside : IsAside i reader r.0
    pub own : IsOwn F D i reader r.1
    pub readable : IsReadable F reader r.1.shared
    pub stays_closed : a.shared.state.closed ≡ true → r.1.shared.state.closed ≡ true
    pub held : (held_frames r.0 ≡ []) ⊎ (held_frames r.0 ≡ f ∷ [])
    pub outcome :
        ((f.stream_id ≡ i)
          × (f.cmd ≡ fin)
          × (held_frames r.0 ≡ [])
          × (F.sending (r.1.shared.pipes reader.data_rx) ≡ false))
        ⊎ ((IsOpen i reader a → IsOpen i reader r.1)
            × (F.sending (r.1.shared.pipes reader.data_rx)
                ≡ F.sending (a.shared.pipes reader.data_rx)))
