-- ===== src/Stream/Handle/ReadClosed.antt =====
-- src/stream.rs: the flag `is_read_closed`.
use smux.Base.{ℕ, ◌≡◌, refl, List, [], ◌∷◌, ◌∙◌, false}
use smux.Stream
use smux.Config.{Config}
use smux.Stream.{
  Stream, Shared, Poll, ready, failed, pending, Async, done, waiting, poll_read, poll_write,
  poll_flush, poll_shutdown, send_fin, close, session_is_closed, stream_is_closed, read_chunk,
  read_channel, read_received, is_stream_closed,
}
use smux.Crates.Bytes.{BytesCrate}
use smux.Crates.Flume.{Flume}
use smux.Stream.Handle.{Call, Handle, step, run}
use smux.Stream.Handle.Sends.{IsSound, step-Same}

module _ (B : BytesCrate) (F : Flume) where
  -- No sequence of a stream's calls changes `is_read_closed`.
  run-is_read_closed :
      (h : Handle) (w : Shared F) (cs : List Call)
      → IsSound h
      → (run B F h w cs).0.stream.is_read_closed ≡ h.stream.is_read_closed
  unfolding run
  run-is_read_closed h w [] inv = refl
  run-is_read_closed h w (c ∷ cs) inv =
      let (h', w') = step B F h w c in
      let same = step-Same B F h w c inv in run-is_read_closed h' w' cs same.2 ∙ same.1

  -- A stream as `Stream::new` makes it never answers `true` to `is_closed`, whatever its owner calls
  -- and whatever the session's state and channels are.
  pub run-is_closed :
      (i rx : ℕ) (cfg : Config) (w : Shared F) (cs : List Call)
      → is_stream_closed
          (run B F (record { stream = Stream.new i rx cfg; closing = false }) w cs).0.stream
        ≡ false
  unfolding Stream.new
  run-is_closed i rx cfg w cs = rw (
      run-is_read_closed (record { stream = Stream.new i rx cfg; closing = false }) w cs
        (λ e. absurd (cc e)))
