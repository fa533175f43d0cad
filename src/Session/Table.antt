-- ===== src/Session/Table.antt =====
-- src/session.rs: `open_stream`, `accept_stream` and the changes of the stream table that they and
-- the frame handlers share. An `.await` on a channel with no room answers `waiting`; the part of the
-- function from that await on is a function of its own, which is called again later.
use smux.Base.{ℕ, ◌+◌, Bool, false, Option, none, some, if◌then◌else◌}
use smux.Error.{Result, ok, err, SmuxError}
use smux.Frame.{new_syn}
use smux.Stream
use smux.Stream.{Stream, Shared, Async, done, waiting, update, drop_stream}
use smux.Session.{SessionInner, StreamState, next_stream_id, is_closed}
use smux.Crates.Flume.{Flume, sent, full, no_receiver, received, empty, no_sender}
use smux.Crates.DashMap.{DashMap}

module _ (F : Flume) (D : DashMap) where
  -- `flume::unbounded()`: a new data channel, at the address `inner.fresh_pipe`.
  unfoldable pub new_pipe : SessionInner F D → SessionInner F D
  new_pipe inner = record inner {
    shared = record (inner.shared) {
      pipes = update inner.shared.pipes inner.fresh_pipe F.unbounded;
    };
    fresh_pipe = inner.fresh_pipe + 1;
  }

  -- A `StreamState` is dropped, and with it the one sender of its data channel.
  unfoldable pub drop_state : Option StreamState → SessionInner F D → SessionInner F D
  drop_state none inner = inner
  drop_state (some st) inner = record inner {
    shared = record (inner.shared) {
      pipes = update inner.shared.pipes st.data_tx (F.close_tx (inner.shared.pipes st.data_tx));
    };
  }

  -- `streams.insert`, which drops the state that the id had before.
  unfoldable pub insert_stream : ℕ → StreamState → SessionInner F D → SessionInner F D
  insert_stream i st inner =
      drop_state (D.get inner.streams i) (record inner { streams = D.insert inner.streams i st })

  -- `streams.remove`, whose result is dropped.
  unfoldable pub remove_stream : ℕ → SessionInner F D → SessionInner F D
  remove_stream i inner =
      let (old, left) = D.remove inner.streams i in drop_state old (record inner { streams = left })

  -- The table entry and the stream around a new data channel.
  unfoldable pub add_stream : ℕ → SessionInner F D → Stream × SessionInner F D
  add_stream i inner =
      let rx = inner.fresh_pipe in
      (
        Stream.new i rx inner.config,
        insert_stream i (record { data_tx = rx; is_read_closed = false }) (new_pipe inner),
      )

  -- `open_stream` at its await, the send of the SYN frame.
  unfoldable pub send_syn : Stream → SessionInner F D → Async (Result Stream) × SessionInner F D
  send_syn stream inner =
      let (r, c) = F.try_send inner.shared.frames (new_syn inner.config.version stream.stream_id) in
      let offered = record inner { shared = record (inner.shared) { frames = c } } in
      elim r [
        | sent ↦ (done (ok stream), offered)
        | full ↦ (waiting, offered)
        | no_receiver ↦ (
          done (err SmuxError.session_closed),
          record offered { shared = drop_stream F stream offered.shared },
        )
      ]

  -- `Session::open_stream`
  unfoldable pub open_stream : SessionInner F D → Async (Result Stream) × SessionInner F D
  open_stream inner =
      let (r, counted) = next_stream_id F D inner in
      if is_closed F D inner then (done (err SmuxError.session_closed), inner) else elim r [
        | err e ↦ (done (err e), counted)
        | ok i ↦ let (stream, added) = add_stream i counted in send_syn stream added
      ]

  -- `Session::accept_stream`: `notified` says which branch of `select!` is taken.
  unfoldable pub accept_stream : Bool → SessionInner F D → Async (Result Stream) × SessionInner F D
  accept_stream notified inner =
      let (r, c) = F.try_recv inner.incoming in
      if is_closed F D inner
      then (done (err SmuxError.session_closed), inner)
      else if notified
      then (done (err SmuxError.session_closed), inner)
      else (
        elim r [
          | received stream ↦ done (ok stream)
          | empty ↦ waiting
          | no_sender ↦ done (err SmuxError.session_closed)
        ],
        record inner { incoming = c },
      )
