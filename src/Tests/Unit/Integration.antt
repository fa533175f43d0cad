-- ===== src/Tests/Unit/Integration.antt =====
-- src/stream.rs: its unit test of two sessions. A `sleep` of the test is a round of the tasks: one
-- frame goes from one session's `send_loop` to the other session's `recv_loop`. A write of the whole
-- buffer, `write_all`, is one call of `poll_write`, which takes all of it.
use smux.Base.{ℕ, ◌≡◌, refl, true, false, some, none, List, [], ◌∷◌, length}
use smux.Error.{ok, err}
use smux.Command.{from_byte, to_byte}
use smux.Config
use smux.Frame
use smux.Frame.{new_syn, new_psh, new_fin, validate}
use smux.Codec
use smux.Codec.{encode, decode}
use smux.SessionState
use smux.Stream
use smux.Stream.{Stream, Shared, Async, done, ready, poll_write, poll_read, poll_shutdown}
use smux.Session
use smux.Session.{SessionInner, next_stream_id, validate_peer_stream_id}
use smux.Session.Table.{
  open_stream, accept_stream, send_syn, add_stream, insert_stream, drop_state, new_pipe,
}
use smux.Session.Handlers.{
  handle_frame, handle_syn_frame, handle_psh_frame, send_incoming, wait_tokens, deliver,
}
use smux.Session.Tasks.{receiving, frame_in, recv_step, send_loop, polled, paused}
use smux.Tests.Crates.{bytes_crate, flume, dash_map}
use smux.Tests.Sessions.{no_pipes}

-- The sending task's round: the session, and the bytes on the transport.
abbrev sent_by : SessionInner flume dash_map → SessionInner flume dash_map × List ℕ
sent_by inner =
    let (r, inner', bytes) =
      send_loop flume dash_map bytes_crate (Codec.new Config.default) inner [] (polled true ∷ []) in
    (inner', bytes)

-- The other session's receiving task takes in what is on the transport.
abbrev taken_by : SessionInner flume dash_map → List ℕ → SessionInner flume dash_map
taken_by inner bytes = elim ((decode bytes_crate (Codec.new Config.default) bytes).0) [
  | ok (some f) ↦ (recv_step flume dash_map receiving inner (frame_in f)).1
  | ok none ↦ inner
  | err e ↦ inner
]

-- "Hello from client!" and "Hello from server!"
abbrev test_data : List ℕ
test_data =
    b'H' ∷ b'e' ∷ b'l' ∷ b'l' ∷ b'o' ∷ b' ' ∷ b'f' ∷ b'r' ∷ b'o' ∷ b'm' ∷ b' ' ∷ b'c' ∷ b'l' ∷ b'i'
    ∷ b'e' ∷ b'n' ∷ b't' ∷ b'!' ∷ []

abbrev response_data : List ℕ
response_data =
    b'H' ∷ b'e' ∷ b'l' ∷ b'l' ∷ b'o' ∷ b' ' ∷ b'f' ∷ b'r' ∷ b'o' ∷ b'm' ∷ b' ' ∷ b's' ∷ b'e' ∷ b'r'
    ∷ b'v' ∷ b'e' ∷ b'r' ∷ b'!' ∷ []

-- The client's stream, and that of the server's which waits to be accepted.
abbrev client_stream : Stream
client_stream = Stream.new 1 0 Config.default

abbrev server_stream : Stream
server_stream = Stream.new 1 0 Config.default

-- The session after a call on one of its streams.
abbrev with_shared : SessionInner flume dash_map → Shared flume → SessionInner flume dash_map
with_shared inner shared = record inner { shared = shared }

abbrev TestStreamIntegrationWithSession : Type 0
TestStreamIntegrationWithSession =
    let (opened, client1) =
      open_stream flume dash_map (Session.client flume dash_map no_pipes Config.default) in
    let (client2, syn_bytes) = sent_by client1 in
    let server1 = taken_by (Session.server flume dash_map no_pipes Config.default) syn_bytes in
    let (accepted, server2) = accept_stream flume dash_map false server1 in
    let (p1, client3) = poll_write flume client_stream client2.shared test_data in
    let (client4, psh_bytes) = sent_by (with_shared client2 client3) in
    let server3 = taken_by server2 psh_bytes in
    let (p2, buffer, server_stream1, server4) =
      poll_read flume bytes_crate server_stream server3.shared 64 in
    let (p3, server5) = poll_write flume server_stream1 server4 response_data in
    let (server6, response_bytes) = sent_by (with_shared server3 server5) in
    let client5 = taken_by client4 response_bytes in
    let (p4, response_buffer, client_stream1, client6) =
      poll_read flume bytes_crate client_stream client5.shared 64 in
    let (p5, client_stream2, client7) = poll_shutdown flume client_stream1 client6 in
    let (p6, server_stream2, server7) = poll_shutdown flume server_stream1 server6.shared in
    (opened ≡ done (ok client_stream))
    × (accepted ≡ done (ok server_stream))
    × (client_stream.stream_id ≡ server_stream.stream_id)
    × (p1 ≡ ready (length test_data))
    × (p2 ≡ ready tt)
    × (length buffer ≡ length test_data)
    × (buffer ≡ test_data)
    × (p3 ≡ ready (length response_data))
    × (p4 ≡ ready tt)
    × (length response_buffer ≡ length response_data)
    × (response_buffer ≡ response_data)
    × (p5 ≡ ready tt)
    × (p6 ≡ ready tt)

TestStreamIntegrationWithSession_passes : TestStreamIntegrationWithSession
unfolding Session.new SessionState.new open_stream next_stream_id send_syn add_stream insert_stream
    drop_state new_pipe new_syn Stream.new accept_stream validate_peer_stream_id handle_frame
    handle_syn_frame send_incoming handle_psh_frame wait_tokens deliver recv_step paused
    SessionState.get_tokens SessionState.mark_data_received SessionState.return_tokens send_loop
    encode Codec.encode_header Codec.data_to_encode Codec.new validate to_byte from_byte decode
    Codec.decode_header Codec.take_frame Codec.make_frame Codec.final_command Frame.new poll_write
    new_psh poll_read Stream.read_chunk Stream.read_channel Stream.read_received poll_shutdown
    new_fin
TestStreamIntegrationWithSession_passes =
    (refl, refl, refl, refl, refl, refl, refl, refl, refl, refl, refl, refl, refl)
