-- ===== src/Session/Tasks.antt =====
-- src/session.rs: the three tasks of a session. A task is its loop over the events that its
-- `select!` sees: what comes first is at the head of a list. A task that waits in the middle of a
-- branch sees none of the events of its `select!`.
pub mod KeepAlive
pub mod Timeout
pub mod Receive
pub mod Send
pub mod Demux
pub mod Counter
pub mod Flowing
pub mod Window
pub mod Missed
use smux.Base.{ℕ, length, Bool, true, false, ◌&&◌, not, List, [], ◌∷◌, if◌then◌else◌}
use smux.Error.{Result, ok, err, IoError}
use smux.Frame.{Frame, new_nop}
use smux.SessionState.{
  SessionState, is_positive, get_tokens, mark_data_received, return_tokens,
  check_and_reset_data_received,
}
use smux.Codec.{Codec, encode}
use smux.Stream
use smux.Stream.{Stream, Shared, Async, done, waiting}
use smux.Session
use smux.Session.{SessionInner}
use smux.Session.Handlers.{with_state, send_incoming, deliver, handle_psh_frame, handle_frame}
use smux.Command.{syn, fin, psh, nop, upd}
use smux.Crates.Bytes.{BytesCrate}
use smux.Crates.Flume.{Flume, sent, full, no_receiver, received, empty, no_sender}
use smux.Crates.DashMap.{DashMap}

-- Where the keep-alive task stands: at its `select!`, in the send of a ping, or at its end.
pub data AliveTask : Type 0 where
  listening pinging ended : AliveTask

-- Where the receiving task stands: at its `select!`, in the handler of a SYN frame that waits for
-- room in the accept channel, in the handler of a data frame that waits for tokens or for room in
-- the stream's channel, or at its end.
pub data RecvTask : Type 0 where
  receiving : RecvTask
  accepting : Stream → RecvTask
  charging delivering : Frame → RecvTask
  stopped : RecvTask

-- What the receiving task sees: a frame, an error of the decoder, the end of the transport, the
-- close, room in the channel that it waits for, or the return of tokens.
pub data Incoming : Type 0 where
  frame_in : Frame → Incoming
  decode_failed transport_closed close_notified room tokens_returned : Incoming

-- What `send_loop` sees: the frame channel is polled and the transport answers to the write that
-- may follow, or the close.
pub data Outgoing : Type 0 where
  polled : Bool → Outgoing
  close_notified : Outgoing

module _ (F : Flume) (D : DashMap) where
  -- What the keep-alive task sees: its two timers, the close, and room in the frame channel; and what
  -- the others do in between to what the session shares with them.
  pub data Tick : Type 0 where
    pinged timed_out notified room : Tick
    outside : Shared F → Tick

  -- The await of the ping.
  unfoldable pub send_ping : SessionInner F D → AliveTask × SessionInner F D
  send_ping inner =
      let (r, c) = F.try_send inner.shared.frames (new_nop inner.config.version) in
      (
        elim r [ sent ↦ listening | full ↦ pinging | no_receiver ↦ ended ],
        record inner { shared = record (inner.shared) { frames = c } },
      )

  unfoldable pub check_timeout : SessionInner F D → AliveTask × SessionInner F D
  check_timeout inner =
      let (data_received, s) = check_and_reset_data_received inner.shared.state in
      let checked = with_state F D s inner in
      if not data_received && is_positive (get_tokens s)
      then (ended, Session.close F D checked)
      else (listening, checked)

  unfoldable pub keep_alive_step :
      AliveTask → SessionInner F D → Tick → AliveTask × SessionInner F D
  keep_alive_step at inner (outside shared) = (at, record inner { shared = shared })
  keep_alive_step listening inner pinged = send_ping inner
  keep_alive_step listening inner timed_out = check_timeout inner
  keep_alive_step listening inner notified = (ended, inner)
  keep_alive_step listening inner room = (listening, inner)
  keep_alive_step pinging inner room = send_ping inner
  keep_alive_step pinging inner pinged = (pinging, inner)
  keep_alive_step pinging inner timed_out = (pinging, inner)
  keep_alive_step pinging inner notified = (pinging, inner)
  keep_alive_step ended inner pinged = (ended, inner)
  keep_alive_step ended inner timed_out = (ended, inner)
  keep_alive_step ended inner notified = (ended, inner)
  keep_alive_step ended inner room = (ended, inner)

  unfoldable pub keep_alive_run :
      AliveTask → SessionInner F D → List Tick → AliveTask × SessionInner F D
  keep_alive_run at inner [] = (at, inner)
  keep_alive_run at inner (t ∷ ts) =
      let (at', inner') = keep_alive_step at inner t in keep_alive_run at' inner' ts

  -- `keep_alive_loop`
  unfoldable pub keep_alive_loop : SessionInner F D → List Tick → AliveTask × SessionInner F D
  keep_alive_loop inner ts =
      if inner.config.enable_keep_alive then keep_alive_run listening inner ts else (ended, inner)

  -- Where a handler of `frame` stands if it waits; `inner` is the session when the handler began.
  unfoldable pub paused : Frame → SessionInner F D → RecvTask
  paused frame inner = elim frame.cmd [
    | syn ↦ accepting (Stream.new frame.stream_id inner.fresh_pipe inner.config)
    | psh ↦ if is_positive inner.shared.state.tokens then delivering frame else charging frame
    | _ ↦ receiving
  ]

  -- An error of a handler is logged only.
  abbrev pub continue :
      Async (Result (Unit {0})) × SessionInner F D → RecvTask → RecvTask × SessionInner F D
  continue (done r, inner) at = (receiving, inner)
  continue (waiting, inner) at = (at, inner)

  -- One event of `recv_loop`. An event that the task does not wait for changes nothing.
  unfoldable pub recv_step : RecvTask → SessionInner F D → Incoming → RecvTask × SessionInner F D
  recv_step receiving inner (frame_in f) =
      let marked = with_state F D (mark_data_received inner.shared.state) inner in
      continue (handle_frame F D f [] marked) (paused f marked)
  recv_step receiving inner decode_failed = (stopped, Session.close F D inner)
  recv_step receiving inner transport_closed = (stopped, Session.close F D inner)
  recv_step receiving inner Incoming.close_notified = (stopped, Session.close F D inner)
  recv_step (accepting stream) inner Incoming.room =
      continue (send_incoming F D stream inner) (accepting stream)
  recv_step (charging f) inner tokens_returned =
      continue (handle_psh_frame F D f [] inner) (paused f inner)
  recv_step (charging f) inner Incoming.close_notified =
      (receiving, with_state F D (return_tokens (length f.payload) inner.shared.state) inner)
  recv_step (delivering f) inner Incoming.room =
      continue (deliver F D f.stream_id f.payload inner) (delivering f)
  recv_step at inner e = (at, inner)

  unfoldable pub recv_run :
      RecvTask → SessionInner F D → List Incoming → RecvTask × SessionInner F D
  recv_run at inner [] = (at, inner)
  recv_run at inner (e ∷ es) = let (at', inner') = recv_step at inner e in recv_run at' inner' es

  -- `recv_loop`
  abbrev pub recv_loop : SessionInner F D → List Incoming → RecvTask × SessionInner F D
  recv_loop inner es = recv_run receiving inner es

  -- The end of `send_loop`: the session is closed, and the task's receiver of frames is dropped.
  unfoldable pub end_sending : SessionInner F D → SessionInner F D
  end_sending inner =
      let closed = Session.close F D inner in
      record closed { shared = record (closed.shared) { frames = F.close_rx closed.shared.frames } }

  -- `send_loop`, with the bytes that it has written. `sink.send` encodes the frame and writes it
  -- out: an error of either ends the loop.
  unfoldable pub send_loop :
      BytesCrate
      → Codec
      → SessionInner F D
      → List ℕ
      → List Outgoing
      → Async (Result (Unit {0})) × SessionInner F D × List ℕ
  send_loop B codec inner wire [] = (waiting, inner, wire)
  send_loop B codec inner wire (Outgoing.close_notified ∷ es) =
      (done (ok tt), end_sending inner, wire)
  send_loop B codec inner wire (polled written ∷ es) =
      let (r, c) = F.try_recv inner.shared.frames in
      let inner' = record inner { shared = record (inner.shared) { frames = c } } in
      elim r [
        | received f ↦
            let (e, wire') = encode B codec f wire in
            let rest = send_loop B codec inner' wire' es in
            elim e [
              | ok _ ↦ if written then rest else (done (ok tt), end_sending inner', wire')
              | err _ ↦ (done (ok tt), end_sending inner', wire')
            ]
        | empty ↦ send_loop B codec inner' wire es
        | no_sender ↦ (done (ok tt), end_sending inner', wire)
      ]
