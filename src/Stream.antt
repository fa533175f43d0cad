-- ===== src/Stream.antt =====
-- src/stream.rs: one stream of a session. What it shares with the session is a `Shared`: the frame
-- channel, the data channels by a number that stands for the channel's address, and the session's
-- state. `is_read_closed` and `is_write_closed` are plain fields: `Stream::new` makes both atomics,
-- and no other value holds a clone of them. A call of `wake_by_ref` goes with every `pending`.
pub mod Read
pub mod Drain
pub mod Cancel
pub mod Handle
pub mod Write
use smux.Base.{
  ℕ, ◌+◌, ◌-◌, min, Bool, true, false, ◌&&◌, Option, none, some, List, [], ◌∷◌, length, take, ltb,
  ◌==◌, if◌then◌else◌,
}
use smux.Error.{Result, ok, err, SmuxError, IoError, broken_pipe}
use smux.Config.{Config}
use smux.Frame.{Frame, header_size, new_psh, new_fin}
use smux.SessionState.{SessionState, is_closed, return_tokens}
use smux.Crates.Bytes.{BytesCrate}
use smux.Crates.Flume.{Flume, TrySend, sent, full, no_receiver, TryRecv, received, empty, no_sender}

-- `Poll<io::Result<A>>`
pub data Poll (A : Type 0) : Type 0 where
  ready : A → Poll A
  failed : IoError → Poll A
  pending : Poll A

-- An `async` call at its last await: done with a result, or waiting for room in a channel.
pub data Async (A : Type 0) : Type 0 where
  done : A → Async A
  waiting : Async A

pub record Stream : Type 0 where
  pub stream_id : ℕ
  pub data_rx : ℕ
  pub current_chunk : Option (List ℕ)
  pub is_read_closed : Bool
  pub is_write_closed : Bool
  pub config : Config

-- `Stream::new`
unfoldable pub new : ℕ → ℕ → Config → Stream
new i rx cfg = record {
  stream_id = i;
  data_rx = rx;
  current_chunk = none;
  is_read_closed = false;
  is_write_closed = false;
  config = cfg;
}

abbrev pub is_stream_closed : Stream → Bool
is_stream_closed s = s.is_read_closed && s.is_write_closed

abbrev pub session_is_closed : IoError
session_is_closed = record { kind = broken_pipe; message = "Session is closed" }

abbrev pub stream_is_closed : IoError
stream_is_closed = record { kind = broken_pipe; message = "Stream is closed for writing" }

abbrev pub update : {A : Type 0} → (ℕ → A) → ℕ → A → ℕ → A
update f k a j = if k == j then a else f j

-- `Some(chunk)` if the chunk is not empty, else what was there.
abbrev pub keep : List ℕ → Option (List ℕ) → Option (List ℕ)
keep [] old = old
keep (b ∷ bs) old = some (b ∷ bs)

module _ (F : Flume) where
  open F use {Chan, try_send, try_recv, close_rx}

  pub record Shared : Type 0 where
    pub frames : Chan Frame
    pub pipes : ℕ → Chan (List ℕ)
    pub state : SessionState

  abbrev pub Read : Type 0
  Read = Poll (Unit {0}) × List ℕ × Stream × Shared

  -- `poll_read` once a message was asked for: what came, and the bytes that the reader has room
  -- for. The second field is what is put into the reader's buffer.
  unfoldable pub read_received : BytesCrate → TryRecv (List ℕ) → Stream → Shared → ℕ → Read
  read_received B (received chunk) this w remaining =
      let to_copy = min (length chunk) remaining in
      let (bytes, rest) = B.split_to chunk to_copy in
      if ltb 0 to_copy
      then (
        ready tt,
        bytes,
        record this { current_chunk = keep rest this.current_chunk },
        record w { state = return_tokens to_copy w.state },
      )
      else (ready tt, [], record this { current_chunk = some chunk }, w)
  read_received B no_sender this w remaining = (ready tt, [], this, w)
  read_received B empty this w remaining =
      (if this.is_read_closed then ready tt else pending, [], this, w)

  unfoldable pub read_channel : BytesCrate → Stream → Shared → ℕ → Read
  read_channel B this w remaining =
      let (r, c) = try_recv (w.pipes this.data_rx) in
      read_received B r this (record w { pipes = update w.pipes this.data_rx c }) remaining

  unfoldable pub read_chunk : BytesCrate → Option (List ℕ) → Stream → Shared → ℕ → Read
  read_chunk B none this w remaining = read_channel B this w remaining
  read_chunk B (some chunk) this w remaining =
      let to_copy = min (length chunk) remaining in
      let (bytes, rest) = B.split_to chunk to_copy in
      if ltb 0 to_copy
      then (
        ready tt,
        bytes,
        record this { current_chunk = keep rest none },
        record w { state = return_tokens to_copy w.state },
      )
      else read_channel B this w remaining

  -- `AsyncRead::poll_read`, `remaining` the room in the reader's buffer.
  unfoldable pub poll_read : BytesCrate → Stream → Shared → ℕ → Read
  poll_read B this w remaining =
      if this.is_read_closed
      then (ready tt, [], this, w)
      else if is_closed w.state
      then (failed session_is_closed, [], this, w)
      else read_chunk B this.current_chunk this w remaining

  -- `AsyncWrite::poll_write`
  unfoldable pub poll_write : Stream → Shared → List ℕ → Poll ℕ × Shared
  poll_write this w buf =
      let chunk_size = min (length buf) (this.config.max_frame_size - header_size) in
      let (r, c) = try_send w.frames (new_psh 1 this.stream_id (take chunk_size buf)) in
      if is_closed w.state
      then (failed session_is_closed, w)
      else if this.is_write_closed
      then (failed stream_is_closed, w)
      else if length buf == 0
      then (ready 0, w)
      else (
        elim r [
          | sent ↦ ready chunk_size
          | full ↦ pending
          | no_receiver ↦ failed session_is_closed
        ],
        record w { frames = c },
      )

  unfoldable pub poll_flush : Stream → Shared → Poll (Unit {0}) × Shared
  poll_flush this w = (ready tt, w)

  -- `AsyncWrite::poll_shutdown`
  unfoldable pub poll_shutdown : Stream → Shared → Poll (Unit {0}) × Stream × Shared
  poll_shutdown this w =
      let (r, c) = try_send w.frames (new_fin 1 this.stream_id) in
      if this.is_write_closed then (ready tt, this, w) else (
        elim r [ sent ↦ ready tt | full ↦ pending | no_receiver ↦ ready tt ],
        elim r [
          | sent ↦ record this { is_write_closed = true }
          | full ↦ this
          | no_receiver ↦ record this { is_write_closed = true }
        ],
        record w { frames = c },
      )

  -- The await of `close`: `send_async` of the FIN frame.
  unfoldable pub send_fin : Stream → Shared → Async (Result (Unit {0})) × Shared
  send_fin this w =
      let (r, c) = try_send w.frames (new_fin 1 this.stream_id) in
      (
        elim r [
          | sent ↦ done (ok tt)
          | full ↦ waiting
          | no_receiver ↦ done (err SmuxError.session_closed)
        ],
        record w { frames = c },
      )

  -- `Stream::close` up to its await, which is polled again by `send_fin` while it waits.
  unfoldable pub close : Stream → Shared → Async (Result (Unit {0})) × Stream × Shared
  close this w =
      let (r, w') = send_fin this w in
      if this.is_write_closed
      then (done (ok tt), this, w)
      else (r, record this { is_write_closed = true }, w')

  -- `Drop for Stream`, then the drop of its fields: the data channel loses its receiver.
  unfoldable pub drop_stream : Stream → Shared → Shared
  drop_stream this w =
      let (r, c) = try_send w.frames (new_fin 1 this.stream_id) in
      record w {
        frames = if this.is_write_closed then w.frames else c;
        pipes = update w.pipes this.data_rx (close_rx (w.pipes this.data_rx));
      }
