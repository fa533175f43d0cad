-- ===== src/Session/Tasks/Demux.antt =====
-- src/session.rs: how `recv_loop` spreads incoming data over the streams.
use smux.Base.{
  ℕ, ◌<◌, ◌≡◌, refl, sym, ap, ◌∙◌, Bool, true, false, List, [], ◌∷◌, ◌++◌, append_assoc, append-nil,
  length, flatten, All, ◌==◌, if◌then◌else◌, arith, some,
}
use smux.Error.{Result, ok}
use smux.Command.{psh}
use smux.Frame.{Frame}
use smux.SessionState.{is_positive, mark_data_received}
use smux.Stream.{Stream, Async, done, update}
use smux.Stream.Read.{unread, chunk_bytes}
use smux.Session.{SessionInner, StreamState}
use smux.Session.Handlers.{handle_frame, handle_psh_frame, deliver, with_state}
use smux.Session.Local.{lookup}
use smux.Session.Invariant.{IsWf}
use smux.Session.Flow.{wait_tokens_positive}
use smux.Session.Tasks.{
  RecvTask, receiving, continue, paused, recv_step, recv_run, Incoming, frame_in, recv_loop,
}
use smux.Session.Lifecycle.{flatten-append}
use smux.Crates.Flume.{Flume}
use smux.Crates.DashMap.{DashMap}

-- The bytes that a list of frames has for the stream `i`.
abbrev pub bytes_for : ℕ → List Frame → List ℕ
bytes_for i [] = []
bytes_for i (f ∷ fs) = (if f.stream_id == i then f.payload else []) ++ bytes_for i fs

abbrev pub incoming : List Frame → List Incoming
incoming [] = []
incoming (f ∷ fs) = frame_in f ∷ incoming fs

module _ (F : Flume) (D : DashMap) where
  -- Every stream of the table has its reader, and a channel as `flume::unbounded` makes it.
  pub record IsLive (inner : SessionInner F D) : Type 0 where
    pub reader_left :
        (j : ℕ) (st : StreamState)
        → lookup F D inner j ≡ some st
        → F.receiving (inner.shared.pipes st.data_tx) ≡ true
    pub no_limit :
        (j : ℕ) (st : StreamState)
        → lookup F D inner j ≡ some st
        → F.is_unbounded (inner.shared.pipes st.data_tx) ≡ true

  -- A data frame with data, of a stream of the table.
  abbrev pub IsData : SessionInner F D → Frame → Type 0
  IsData inner f =
      (f.cmd ≡ psh)
      × (0 < length f.payload)
      × ((st : StreamState) × (lookup F D inner f.stream_id ≡ some st))

  -- The session once a frame of the stream of `st` has come in.
  abbrev pub fed : StreamState → List ℕ → SessionInner F D → SessionInner F D
  fed st bytes inner = record inner {
    shared = record (inner.shared) {
      pipes =
          update inner.shared.pipes st.data_tx (F.try_send (inner.shared.pipes st.data_tx) bytes).1;
      state = mark_data_received inner.shared.state;
    };
  }

  pub handle_frame-fed :
      (f : Frame) (inner : SessionInner F D) (st : StreamState)
      → f.cmd ≡ psh
      → 0 < length f.payload
      → lookup F D inner f.stream_id ≡ some st
      → F.receiving (inner.shared.pipes st.data_tx) ≡ true
      → F.is_unbounded (inner.shared.pipes st.data_tx) ≡ true
      → is_positive inner.shared.state.tokens ≡ true
      → handle_frame F D f [] (with_state F D (mark_data_received inner.shared.state) inner)
        ≡ (done (ok tt), fed st f.payload inner)
  unfolding handle_frame handle_psh_frame deliver mark_data_received
  handle_frame-fed f inner st is_psh pos known left no_limit tokens =
      let pipe = inner.shared.pipes st.data_tx in
      ground (
        arith,
        wait_tokens_positive (length f.payload) [] (mark_data_received inner.shared.state) tokens,
        F.unbounded-has_room pipe no_limit,
        left,
        F.try_send_lem pipe f.payload,
      )

  fed-IsLive :
      (st : StreamState) (bytes : List ℕ) (inner : SessionInner F D)
      → IsLive inner
      → IsLive (fed st bytes inner)
  fed-IsLive st bytes inner live = record {
    reader_left = λ j st' q.
        ground
          (arith, live.reader_left j st' q, F.try_send_lem (inner.shared.pipes st.data_tx) bytes);
    no_limit = λ j st' q.
        ground (arith, live.no_limit j st' q, F.try_send_lem (inner.shared.pipes st.data_tx) bytes);
  }

  fed-IsWf :
      (st : StreamState) (bytes : List ℕ) (inner : SessionInner F D)
      → IsWf F D inner
      → IsWf F D (fed st bytes inner)
  fed-IsWf st bytes inner h = record { owned = h.owned; distinct = h.distinct }

  -- The messages of the channel that a stream reads, once a frame has come in.
  queue-fed :
      (f : Frame) (inner : SessionInner F D) (st : StreamState) (i : ℕ) (st' : StreamState)
      → IsWf F D inner
      → IsLive inner
      → lookup F D inner f.stream_id ≡ some st
      → lookup F D inner i ≡ some st'
      → F.queue ((fed st f.payload inner).shared.pipes st'.data_tx)
        ≡ F.queue (inner.shared.pipes st'.data_tx)
          ++ (if f.stream_id == i then f.payload ∷ [] else [])
  queue-fed f inner st i st' wf live known known' =
      let pipe = inner.shared.pipes st.data_tx in
      ground (
        arith,
        wf.distinct f.stream_id i st st' known known',
        append-nil (F.queue (inner.shared.pipes st'.data_tx)),
        live.reader_left f.stream_id st known,
        F.unbounded-has_room pipe (live.no_limit f.stream_id st known),
        F.try_send_lem pipe f.payload,
      )

  pub flatten-one :
      (xss : List (List ℕ)) (xs : List ℕ) (b : Bool)
      → flatten (xss ++ (if b then xs ∷ [] else [])) ≡ flatten xss ++ (if b then xs else [])
  flatten-one xss xs true = flatten-append xss xs
  flatten-one xss xs false = ap flatten (append-nil xss) ∙ sym (append-nil (flatten xss))

  unread-fed :
      (f : Frame) (inner : SessionInner F D) (stf : StreamState) (i : ℕ) (st : StreamState)
      (s : Stream)
      → IsWf F D inner
      → IsLive inner
      → lookup F D inner f.stream_id ≡ some stf
      → lookup F D inner i ≡ some st
      → s.data_rx ≡ st.data_tx
      → unread F s (fed stf f.payload inner).shared
        ≡ unread F s inner.shared ++ (if f.stream_id == i then f.payload else [])
  unread-fed f inner stf i st s wf live known known' same =
      let queue = F.queue (inner.shared.pipes st.data_tx) in
      rw
        (
          same,
          queue-fed f inner stf i st wf live known known',
          flatten-one queue f.payload (f.stream_id == i),
        )
        (sym (
          append_assoc (chunk_bytes s.current_chunk) (flatten queue)
            (if f.stream_id == i then f.payload else [])))

  -- The rest of `recv_loop`, behind a handler.
  abbrev resume :
      RecvTask
      → List Incoming
      → Async (Result (Unit {0})) × SessionInner F D
      → RecvTask × SessionInner F D
  resume at es r = let (at', inner') = continue F D r at in recv_run F D at' inner' es

  recv_loop-fed :
      (f : Frame) (fs : List Frame) (inner : SessionInner F D) (st : StreamState)
      → f.cmd ≡ psh
      → 0 < length f.payload
      → lookup F D inner f.stream_id ≡ some st
      → IsLive inner
      → is_positive inner.shared.state.tokens ≡ true
      → recv_loop F D inner (incoming (f ∷ fs))
        ≡ recv_loop F D (fed st f.payload inner) (incoming fs)
  recv_loop-fed f fs inner st is_psh pos known live tokens =
      unfold recv_run recv_step in
      ap
        (resume (paused F D f (with_state F D (mark_data_received inner.shared.state) inner))
          (incoming fs))
        (handle_frame-fed f inner st is_psh pos known (live.reader_left f.stream_id st known)
          (live.no_limit f.stream_id st known) tokens)

  -- While tokens are left, each entry of the stream table leads to a channel of its own, and each
  -- of these channels is unbounded and has its reader: data frames that `recv_loop` takes in,
  -- none of them empty, of any streams of the table and in any order, add to what a stream's
  -- reader has yet to read exactly the payloads of that stream's frames, in their order; and
  -- `recv_loop` waits
  -- for more.
  pub recv_loop_demultiplexes :
      (fs : List Frame) (inner : SessionInner F D) (i : ℕ) (st : StreamState) (s : Stream)
      → IsWf F D inner
      → IsLive inner
      → is_positive inner.shared.state.tokens ≡ true
      → All (IsData inner) fs
      → lookup F D inner i ≡ some st
      → s.data_rx ≡ st.data_tx
      → ((recv_loop F D inner (incoming fs)).0 ≡ receiving)
        × (unread F s (recv_loop F D inner (incoming fs)).1.shared
            ≡ unread F s inner.shared ++ bytes_for i fs)
  unfolding mark_data_received
  recv_loop_demultiplexes [] inner i st s wf live tokens all known same =
      unfold recv_run in (refl, sym (append-nil (unread F s inner.shared)))
  recv_loop_demultiplexes (f ∷ fs) inner i st s wf live tokens ((is_psh, pos, (stf, known_f)), all)
        known same =
      let next = fed stf f.payload inner in
      let rest : ((recv_loop F D next (incoming fs)).0 ≡ receiving)
          × (unread F s (recv_loop F D next (incoming fs)).1.shared
              ≡ unread F s next.shared ++ bytes_for i fs) =
        recv_loop_demultiplexes fs next i st s (fed-IsWf stf f.payload inner wf)
          (fed-IsLive stf f.payload inner live) tokens all known same in
      rw (recv_loop-fed f fs inner stf is_psh pos known_f live tokens) (
        rest.0,
        rest.1
            ∙ ap (λ (l : List ℕ). l ++ bytes_for i fs)
                (unread-fed f inner stf i st s wf live known_f known same)
            ∙ append_assoc (unread F s inner.shared) (if f.stream_id == i then f.payload else [])
                (bytes_for i fs),
      )
