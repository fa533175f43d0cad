-- ===== src/Lib.antt =====
-- smux: multiplexing of many streams over one transport, in Rust.
--
-- A `Session` has a transport, on which `Codec` reads and writes `Frame`s, and a table of streams.
-- Each stream has a channel of its own for incoming data, which the session's frame handlers fill
-- and the stream's reader empties, and all streams put their frames into the session's one frame
-- channel, which leads to the transport. A counter of tokens, `SessionState`, which the session and
-- all streams share, is to limit what a session buffers.
--
-- Which file models which part:
--   Error.antt          src/error.rs     SmuxError, Result, is_recoverable
--   Command.antt        src/command.rs   Command, from_byte, to_byte and the predicates
--   Config.antt         src/config.rs    Config, validate, ConfigBuilder and its setters (`set_` and
--                                        the field's name), build
--   Frame.antt          src/frame.rs     Frame, its constructors, validate; the field `data` is
--                                        named `payload`
--   Codec.antt          src/codec.rs     Codec, decode_header, encode_header, decode_upd_data,
--                                        encode_upd_data, decode, encode
--   SessionState.antt   src/session.rs   SessionState
--   Stream.antt         src/stream.rs    Stream, poll_read, poll_write, poll_flush, poll_shutdown,
--                                        close and drop
--   Stream/Handle.antt  src/stream.rs    a stream under any sequence of its owner's calls
--   Session.antt        src/session.rs   SessionInner, new, client, server, next_stream_id,
--                                        validate_peer_stream_id, close
--   Session/Table.antt  src/session.rs   open_stream, accept_stream, the stream table
--   Session/Handlers.antt src/session.rs handle_frame and the handlers of the five commands
--   Session/Tasks.antt  src/session.rs   recv_loop, send_loop and keep_alive_loop, as steps on events
--   Link.antt           src/session.rs, src/stream.rs and src/codec.rs together: one stream from its
--                       writer to its reader in the other session, as a relation of moves
--   Crates/*.antt       the crates bytes, flume and dashmap: operations with the laws that their
--                       documentation gives, which every client takes as a parameter
--   Base.antt           numbers, tests, lists and the lemmas that all files use
--   Tests/*.antt        concrete instances of the crates, and runs at concrete inputs
-- The other files hold the theorems, and are named for what they are about.
--
-- How code becomes a definition. A function that changes state takes the state and returns the new
-- one behind its result. A buffer is the list of its bytes. A machine integer is a number with its
-- wrap-around written out; an i64 is its bit pattern. `Poll` is a type of its own, and an async
-- function that awaits room in a channel answers `waiting`, with its rest, from the await on, as a
-- function that is called again. Streams and session share channels by address: `pipes` is the
-- memory of data channels, and an entry of the stream table and a `Stream` each hold an address.
-- Other tasks act between two calls only, as the events of Session/Invariant.antt; what they do
-- while a handler of data frames waits for tokens is a list of wake-ups, over which its loop
-- recurs, or the list is empty and the task stands at that wait.
--
-- Bounds. `decode_all` runs on fuel, one round for each frame and one that finds nothing left,
-- which its theorem shows to be enough, and `read_all`, a reader that reads until it gets no bytes,
-- on one read more than there are bytes. All other loops recur on a list.
--
-- Each of the three tasks takes the events that its `select!` sees, among which the events of the
-- timers and of the transport. The receiving task and the keep-alive task are a step for each event,
-- with a value that says where the task stands: at its `select!`, or at an await in a handler.
--
-- A link, in Link.antt, is the two sessions of a stream with the bytes between them. Its moves are
-- the calls of the writer and the reader, the steps of the two tasks, and the transport, which
-- delivers its bytes in pieces; what other streams and other tasks do is any change that leaves the
-- stream's own channel and entry alone, and adds frames of other streams only. A run takes the moves
-- in any order. The writer may shut its stream down, close it, wait in that `close` for room, give up
-- that wait, and drop the stream at any time; the sending task may end, because it cannot encode a
-- frame, is told of a close, or has a transport that takes a part of a frame and fails. Both ends
-- may use the stream's other direction. The reader may drop its stream, and each of its reads has
-- room for a byte. Link/Acts.antt lists the calls of the other users of a session and compares them
-- with these moves.
--
-- Tests/Unit.antt has the unit tests of src/*.rs as propositions about the model, under their
-- names (`test_session_close` is TestSessionClose), those of a source file in the file of Tests/Unit
-- that is named for it in the plural. Where a test of two sessions sleeps, the tasks have a round.
--
-- Not modelled: a wake-up that is lost because nobody waits for it yet, but for the close that comes
-- while the receiving task is in a handler; the timers' clocks, the wakers, and log output; orderings
-- of the atomics weaker than sequential consistency; a close that comes while the sending task
-- writes a frame. Of the unit tests, those of the keep-alive timers, the one that spawns tasks, and
-- those of the texts of errors.
mod Base
pub mod Error
pub mod Command
pub mod Config
pub mod Frame
pub mod Crates
pub mod Codec
pub mod SessionState
pub mod Stream
pub mod Session
pub mod Link
mod Tests
