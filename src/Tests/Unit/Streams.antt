-- ===== src/Tests/Unit/Streams.antt =====
-- src/stream.rs: its unit tests. `read` and `write` are one call of `poll_read` and `poll_write`.
use smux.Base.{◌≡◌, refl, ℕ, List, [], ◌∷◌, ◌++◌, length, true, false, ◌+◌, ◌-◌}
use smux.Error.{ok}
use smux.Tests.Unit.{hello, hello_world}
use smux.Command.{psh, fin}
use smux.Config
use smux.Frame.{Frame, new_psh, new_fin}
use smux.SessionState
use smux.Stream
use smux.Stream.{
  Stream, Shared, Poll, ready, failed, Async, done, update, is_stream_closed, poll_read, poll_write,
  poll_shutdown, send_fin, drop_stream, session_is_closed,
}
use smux.Crates.Flume.{received}
use smux.Tests.Crates.{flume, bytes_crate}

-- A stream of the tests: the frame channel, of one frame, and the data channel.
abbrev stream : Stream
stream = Stream.new 123 0 Config.default

abbrev with_channels : flume.Chan Frame → flume.Chan (List ℕ) → Shared flume
with_channels frames pipe = record {
  frames = frames;
  pipes = λ j. pipe;
  state = SessionState.new 65536;
}

-- `flume::bounded(1)` and `flume::unbounded()`, whole and with one end dropped.
abbrev frame_channel : flume.Chan Frame
frame_channel = flume.bounded 1

abbrev data_channel : flume.Chan (List ℕ)
data_channel = flume.unbounded

-- One half of each: the reader's tests, and the writer's.
abbrev for_reading : Shared flume
for_reading = with_channels (flume.close_rx frame_channel) data_channel

abbrev for_writing : Shared flume
for_writing = with_channels frame_channel (flume.close_tx data_channel)

-- `data_tx.send`
abbrev push : List ℕ → Shared flume → Shared flume
push bytes w = record w { pipes = update w.pipes 0 (flume.try_send (w.pipes 0) bytes).1 }

-- "test data", "hello " and "world"
abbrev test_data : List ℕ
test_data = b't' ∷ b'e' ∷ b's' ∷ b't' ∷ b' ' ∷ b'd' ∷ b'a' ∷ b't' ∷ b'a' ∷ []

abbrev hello_ : List ℕ
hello_ = hello ++ (b' ' ∷ [])

abbrev world : List ℕ
world = b'w' ∷ b'o' ∷ b'r' ∷ b'l' ∷ b'd' ∷ []

abbrev should_fail : List ℕ
should_fail = b's' ∷ b'h' ∷ b'o' ∷ b'u' ∷ b'l' ∷ b'd' ∷ b' ' ∷ b'f' ∷ b'a' ∷ b'i' ∷ b'l' ∷ []

abbrev TestStreamCreation : Type 0
TestStreamCreation =
    (stream.stream_id ≡ 123)
    × (stream.is_read_closed ≡ false)
    × (stream.is_write_closed ≡ false)
    × (is_stream_closed stream ≡ false)

TestStreamCreation_passes : TestStreamCreation
unfolding Stream.new
TestStreamCreation_passes = (refl, refl, refl, refl)

abbrev TestStreamReadWithData : Type 0
TestStreamReadWithData =
    let (p, bytes, after, w) =
      poll_read flume bytes_crate stream (push hello_world for_reading) 20 in
    (p ≡ ready tt) × (length bytes ≡ length hello_world) × (bytes ≡ hello_world)

TestStreamReadWithData_passes : TestStreamReadWithData
unfolding Stream.new SessionState.new poll_read Stream.read_chunk Stream.read_channel
    Stream.read_received SessionState.return_tokens
TestStreamReadWithData_passes = (refl, refl, refl)

abbrev TestStreamReadEof : Type 0
TestStreamReadEof =
    let w = with_channels (flume.close_rx frame_channel) (flume.close_tx data_channel) in
    let (p, bytes, after, w1) = poll_read flume bytes_crate stream w 20 in
    (p ≡ ready tt) × (length bytes ≡ 0)

TestStreamReadEof_passes : TestStreamReadEof
unfolding Stream.new SessionState.new poll_read Stream.read_chunk Stream.read_channel
    Stream.read_received SessionState.return_tokens
TestStreamReadEof_passes = (refl, refl)

abbrev TestStreamWrite : Type 0
TestStreamWrite =
    let (p, w) = poll_write flume stream for_writing hello_world in
    (p ≡ ready (length hello_world))
    × ((flume.try_recv w.frames).0
        ≡ received (record { version = 1; cmd = psh; stream_id = 123; payload = hello_world }))

TestStreamWrite_passes : TestStreamWrite
unfolding Stream.new SessionState.new poll_write new_psh
TestStreamWrite_passes = (refl, refl)

abbrev TestStreamShutdown : Type 0
TestStreamShutdown =
    let (p, after, w) = poll_shutdown flume stream for_writing in
    (p ≡ ready tt)
    × (after.is_write_closed ≡ true)
    × ((flume.try_recv w.frames).0
        ≡ received (record { version = 1; cmd = fin; stream_id = 123; payload = [] }))

TestStreamShutdown_passes : TestStreamShutdown
unfolding Stream.new SessionState.new poll_shutdown new_fin
TestStreamShutdown_passes = (refl, refl, refl)

abbrev TestStreamClose : Type 0
TestStreamClose =
    let (r, after, w) = Stream.close flume stream for_writing in
    (r ≡ done (ok tt))
    × (after.is_write_closed ≡ true)
    × ((flume.try_recv w.frames).0
        ≡ received (record { version = 1; cmd = fin; stream_id = 123; payload = [] }))

TestStreamClose_passes : TestStreamClose
unfolding Stream.new SessionState.new Stream.close send_fin new_fin
TestStreamClose_passes = (refl, refl, refl)

abbrev TestStreamMultipleReads : Type 0
TestStreamMultipleReads =
    let (p1, bytes1, after1, w1) =
      poll_read flume bytes_crate stream (push world (push hello_ for_reading)) 20 in
    let (p2, bytes2, after2, w2) = poll_read flume bytes_crate after1 w1 (20 - length bytes1) in
    (p1 ≡ ready tt)
    × (p2 ≡ ready tt)
    × (length bytes1 + length bytes2 ≡ length hello_world)
    × (bytes1 ++ bytes2 ≡ hello_world)

TestStreamMultipleReads_passes : TestStreamMultipleReads
unfolding Stream.new SessionState.new poll_read Stream.read_chunk Stream.read_channel
    Stream.read_received SessionState.return_tokens
TestStreamMultipleReads_passes = (refl, refl, refl, refl)

abbrev TestStreamDropSendsFin : Type 0
TestStreamDropSendsFin =
    let w = drop_stream flume stream for_writing in
    ((flume.try_recv w.frames).0
      ≡ received (record { version = 1; cmd = fin; stream_id = 123; payload = [] }))

TestStreamDropSendsFin_passes : TestStreamDropSendsFin
unfolding Stream.new SessionState.new drop_stream new_fin
TestStreamDropSendsFin_passes = refl

abbrev TestStreamImmediateCloseOnSessionClosed : Type 0
TestStreamImmediateCloseOnSessionClosed =
    let w = with_channels frame_channel data_channel in
    let (p1, bytes1, after1, w1) = poll_read flume bytes_crate stream (push test_data w) 10 in
    let (p2, w2) = poll_write flume after1 w1 hello in
    let closed : Shared flume = record w2 { state = SessionState.close w2.state } in
    let (p3, bytes3, after3, w3) = poll_read flume bytes_crate after1 closed 10 in
    let (p4, w4) = poll_write flume after3 w3 should_fail in
    (SessionState.is_closed w.state ≡ false)
    × (p1 ≡ ready tt)
    × (length bytes1 ≡ 9)
    × (bytes1 ≡ test_data)
    × (p2 ≡ ready 5)
    × (p3 ≡ failed session_is_closed)
    × (p4 ≡ failed session_is_closed)

TestStreamImmediateCloseOnSessionClosed_passes : TestStreamImmediateCloseOnSessionClosed
unfolding Stream.new SessionState.new poll_read Stream.read_chunk Stream.read_channel
    Stream.read_received SessionState.return_tokens SessionState.close poll_write new_psh
TestStreamImmediateCloseOnSessionClosed_passes = (refl, refl, refl, refl, refl, refl, refl)
