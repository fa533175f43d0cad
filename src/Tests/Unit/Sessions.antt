-- ===== src/Tests/Unit/Sessions.antt =====
-- src/session.rs: those of its unit tests that wait for no timer.
use smux.Base.{◌≡◌, refl, ℕ, ◌-◌, ◌%◌, Bool, true, false}
use smux.Error.{Result, ok, err}
use smux.Tests.Unit.{is_ok, is_err}
use smux.Config
use smux.SessionState
use smux.Stream
use smux.Stream.{Stream, Async, done, waiting, update}
use smux.Session
use smux.Session.{SessionInner, next_stream_id, validate_peer_stream_id, u32_max}
use smux.Session.Table.{
  open_stream, accept_stream, send_syn, add_stream, insert_stream, drop_state, new_pipe,
}
use smux.Frame.{new_syn}
use smux.Tests.Crates.{flume, dash_map}
use smux.Tests.Sessions.{no_pipes}

abbrev client_session : SessionInner flume dash_map
client_session = Session.client flume dash_map no_pipes Config.default

abbrev server_session : SessionInner flume dash_map
server_session = Session.server flume dash_map no_pipes Config.default

-- The `SessionInner` that the tests write out: of each channel but one end is left.
abbrev inner_with : ℕ → Bool → SessionInner flume dash_map
inner_with next client = record {
  shared = record {
    frames = flume.close_rx (flume.bounded 1);
    pipes = no_pipes;
    state = SessionState.new 1024;
  };
  streams = dash_map.new;
  config = Config.default;
  incoming = flume.close_tx (flume.close_rx (flume.bounded 1));
  next_stream_id = next;
  is_client = client;
  fresh_pipe = 0;
}

-- The id of the stream that a call of `open_stream` returns, and 0 if it returns none.
abbrev opened_id : Async (Result Stream) → ℕ
opened_id (done (ok stream)) = stream.stream_id
opened_id (done (err e)) = 0
opened_id waiting = 0

abbrev is_refused : Async (Result Stream) → Bool
is_refused (done r) = is_err r
is_refused waiting = false

abbrev TestSessionCreation : Type 0
TestSessionCreation = (Session.is_closed flume dash_map client_session ≡ false)

TestSessionCreation_passes : TestSessionCreation
unfolding Session.new SessionState.new
TestSessionCreation_passes = refl

abbrev TestSessionOpenStream : Type 0
TestSessionOpenStream =
    let (r, opened) = open_stream flume dash_map client_session in (opened_id r % 2 ≡ 1)

TestSessionOpenStream_passes : TestSessionOpenStream
unfolding Session.new SessionState.new open_stream next_stream_id send_syn add_stream insert_stream
    drop_state new_pipe new_syn Stream.new
TestSessionOpenStream_passes = refl

abbrev TestSessionClose : Type 0
TestSessionClose =
    let closed = Session.close flume dash_map client_session in
    (Session.is_closed flume dash_map client_session ≡ false)
    × (Session.is_closed flume dash_map closed ≡ true)
    × (is_refused (accept_stream flume dash_map false closed).0 ≡ true)

TestSessionClose_passes : TestSessionClose
unfolding Session.new SessionState.new Session.close SessionState.close accept_stream
TestSessionClose_passes = (refl, refl, refl)

abbrev TestClientServerStreamIds : Type 0
TestClientServerStreamIds =
    let (r1, opened1) = open_stream flume dash_map client_session in
    let (r2, opened2) = open_stream flume dash_map server_session in
    (opened_id r1 % 2 ≡ 1) × (opened_id r2 % 2 ≡ 0)

TestClientServerStreamIds_passes : TestClientServerStreamIds
unfolding Session.new SessionState.new open_stream next_stream_id send_syn add_stream insert_stream
    drop_state new_pipe new_syn Stream.new
TestClientServerStreamIds_passes = (refl, refl)

abbrev TestMultipleStreams : Type 0
TestMultipleStreams =
    let (r1, inner1) = open_stream flume dash_map client_session in
    let (r2, inner2) = open_stream flume dash_map inner1 in
    let (r3, inner3) = open_stream flume dash_map inner2 in
    (opened_id r1 ≡ 1) × (opened_id r2 ≡ 3) × (opened_id r3 ≡ 5)

TestMultipleStreams_passes : TestMultipleStreams
unfolding Session.new SessionState.new open_stream next_stream_id send_syn add_stream insert_stream
    drop_state new_pipe new_syn Stream.new
TestMultipleStreams_passes = (refl, refl, refl)

abbrev TestClientStreamIdGeneration : Type 0
TestClientStreamIdGeneration =
    let (r1, inner1) = next_stream_id flume dash_map (inner_with 1 true) in
    let (r2, inner2) = next_stream_id flume dash_map inner1 in
    let (r3, inner3) = next_stream_id flume dash_map inner2 in
    (r1 ≡ ok 1) × (r2 ≡ ok 3) × (r3 ≡ ok 5)

TestClientStreamIdGeneration_passes : TestClientStreamIdGeneration
unfolding next_stream_id
TestClientStreamIdGeneration_passes = (refl, refl, refl)

abbrev TestServerStreamIdGeneration : Type 0
TestServerStreamIdGeneration =
    let (r1, inner1) = next_stream_id flume dash_map (inner_with 2 false) in
    let (r2, inner2) = next_stream_id flume dash_map inner1 in
    let (r3, inner3) = next_stream_id flume dash_map inner2 in
    (r1 ≡ ok 2) × (r2 ≡ ok 4) × (r3 ≡ ok 6)

TestServerStreamIdGeneration_passes : TestServerStreamIdGeneration
unfolding next_stream_id
TestServerStreamIdGeneration_passes = (refl, refl, refl)

abbrev TestStreamIdOverflow : Type 0
TestStreamIdOverflow =
    (is_err (next_stream_id flume dash_map (inner_with (u32_max - 1) true)).0 ≡ true)

TestStreamIdOverflow_passes : TestStreamIdOverflow
unfolding next_stream_id
TestStreamIdOverflow_passes = refl

abbrev TestPeerStreamIdValidation : Type 0
TestPeerStreamIdValidation =
    let client_inner = inner_with 1 true in
    let server_inner = inner_with 2 false in
    (is_ok (validate_peer_stream_id flume dash_map client_inner 2) ≡ true)
    × (is_err (validate_peer_stream_id flume dash_map client_inner 1) ≡ true)
    × (is_ok (validate_peer_stream_id flume dash_map server_inner 1) ≡ true)
    × (is_err (validate_peer_stream_id flume dash_map server_inner 2) ≡ true)
    × (is_err (validate_peer_stream_id flume dash_map client_inner 0) ≡ true)
    × (is_err (validate_peer_stream_id flume dash_map server_inner 0) ≡ true)

TestPeerStreamIdValidation_passes : TestPeerStreamIdValidation
unfolding validate_peer_stream_id
TestPeerStreamIdValidation_passes = (refl, refl, refl, refl, refl, refl)
