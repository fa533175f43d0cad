-- ===== src/Link.antt =====
-- src/stream.rs, src/session.rs and src/codec.rs at work together: one stream from its writer in one
-- session to its reader in the other, under every interleaving of the writer, the reader, the two
-- sessions' tasks, the transport, and all that the other streams do.
pub mod Flight
pub mod Carried
pub mod Pipe
pub mod Sparing
pub mod Reading
pub mod Handling
pub mod Others
pub mod Fed
pub mod Own
pub mod Writing
pub mod Sim
pub mod Sharing
pub mod Taking
pub mod Steps
pub mod Ending
pub mod Sending
pub mod Delivery
pub mod Closing
pub mod Refine
pub mod Unseen
pub mod Outcome
pub mod Feeding
pub mod Progress
pub mod Acts
pub mod Accepting
pub mod Opening
use smux.Base.{
  ℕ, ◌+◌, ◌≤◌, ◌<◌, ◌≡◌, ◌≢◌, ◌⊎◌, Bool, true, false, Option, some, none, List, [], ◌∷◌, ◌++◌,
  length, take, drop, min, All,
}
use smux.Error.{Result, ok}
use smux.Config.{Config}
use smux.Frame.{Frame}
use smux.Codec
use smux.Codec.{Codec, decode}
use smux.Codec.RoundTrip.{IsTyped}
use smux.Stream
use smux.Stream.{
  Stream, Shared, Poll, ready, failed, pending, Async, done, waiting, poll_read, poll_write,
  poll_shutdown, send_fin, drop_stream,
}
use smux.Session.{SessionInner, StreamState}
use smux.Session.Local.{lookup}
use smux.Session.Tasks.{
  RecvTask, receiving, Incoming, frame_in, decode_failed, transport_closed, tokens_returned,
  Outgoing, polled, recv_step, send_loop,
}
use smux.Crates.Bytes.{BytesCrate}
use smux.Crates.Flume.{Flume}
use smux.Crates.DashMap.{DashMap}
use smux.Link.Flight.{IsApart}

-- What one sees of a move: bytes that the writer was told are written, bytes that the reader got, the
-- end of the stream that the reader was told, or none of these.
pub data Label : Type 0 where
  wrote got : List ℕ → Label
  saw_end silent : Label

-- What a `poll_write` of `buf` took.
abbrev pub write_label : Poll ℕ → List ℕ → Label
write_label (ready n) buf = wrote (take n buf)
write_label (failed e) buf = silent
write_label pending buf = silent

-- A read that is ready with no bytes is the end of the stream.
abbrev pub read_label : Poll (Unit {0}) → List ℕ → Label
read_label (ready _) [] = saw_end
read_label (ready _) (b ∷ bs) = got (b ∷ bs)
read_label (failed e) bytes = silent
read_label pending bytes = silent

-- What the writer's owner does with its stream: nothing for now, it awaits a `close`, or it has
-- dropped the stream.
pub data Hold : Type 0 where
  kept closing dropped : Hold

-- A `close` that waits is polled again later.
abbrev pub hold_after : Async (Result (Unit {0})) → Hold
hold_after (done r) = kept
hold_after waiting = closing

-- Whether no more bytes are written.
abbrev pub is_finished : Hold → Bool → Bool
is_finished kept closed = closed
is_finished closing closed = closed
is_finished dropped closed = true

module _ (F : Flume) (D : DashMap) where
  -- The writer's session, the stream in it and what its owner does with it, whether the session's
  -- sending task is at its loop, the bytes on the transport and those that have arrived in the
  -- decoder's buffer, the reader's session, its receiving task, the stream in it, and whether its
  -- owner still has it.
  pub record Link : Type 0 where
    pub sender : SessionInner F D
    pub writer : Stream
    pub hold : Hold
    pub is_sending : Bool
    pub transit : List ℕ
    pub arrived : List ℕ
    pub recv : RecvTask
    pub receiver : SessionInner F D
    pub reader : Stream
    pub has_reader : Bool

  -- What other streams, and the other tasks, do in the reader's session: they leave the stream's own
  -- channel and table entry alone, do not give its channel to another stream, and do not open a
  -- closed session.
  pub record Spares (i : ℕ) (reader : Stream) (a b : SessionInner F D) : Type 0 where
    pub own_pipe : b.shared.pipes reader.data_rx ≡ a.shared.pipes reader.data_rx
    pub own_entry : lookup F D b i ≡ lookup F D a i
    pub others :
        (j : ℕ) (st : StreamState)
        → lookup F D b j ≡ some st
        → (lookup F D a j ≡ some st) ⊎ (reader.data_rx ≢ st.data_tx)
    pub fresh : a.fresh_pipe ≤ b.fresh_pipe
    pub stays_closed : a.shared.state.closed ≡ true → b.shared.state.closed ≡ true

  module _ (B : BytesCrate) (cfg : Config) where
    -- `poll_write`
    abbrev pub write_step : Link → List ℕ → Label × Link
    write_step l buf =
        let (p, shared) = poll_write F l.writer l.sender.shared buf in
        (write_label p buf, record l { sender = record (l.sender) { shared = shared } })

    -- `poll_shutdown`
    abbrev pub shutdown_step : Link → Link
    shutdown_step l =
        let (p, writer, shared) = poll_shutdown F l.writer l.sender.shared in
        record l { writer = writer; sender = record (l.sender) { shared = shared } }

    -- `Stream::close`
    abbrev pub close_step : Link → Link
    close_step l =
        let (r, writer, shared) = Stream.close F l.writer l.sender.shared in
        record l {
          writer = writer;
          hold = hold_after r;
          sender = record (l.sender) { shared = shared };
        }

    -- The await of `close`
    abbrev pub send_fin_step : Link → Link
    send_fin_step l =
        let (r, shared) = send_fin F l.writer l.sender.shared in
        record l { hold = hold_after r; sender = record (l.sender) { shared = shared } }

    -- `Drop for Stream`
    abbrev pub drop_step : Link → Link
    drop_step l = record l {
      hold = dropped;
      sender = record (l.sender) { shared = drop_stream F l.writer l.sender.shared };
    }

    -- `Drop for Stream`, of the reader's stream
    abbrev pub reader_drop_step : Link → Link
    reader_drop_step l = record l {
      has_reader = false;
      receiver = record (l.receiver) { shared = drop_stream F l.reader l.receiver.shared };
    }

    -- One round of `send_loop`, with a transport that takes the frame.
    abbrev pub send_step : Link → Async (Result (Unit {0})) × Link
    send_step l =
        let (r, sender, bytes) = send_loop F D B (Codec.new cfg) l.sender [] (polled true ∷ []) in
        (r, record l { sender = sender; transit = l.transit ++ bytes })

    -- The last round of `send_loop`, of whose bytes the transport takes the first `k`.
    abbrev pub send_end_step : Link → Outgoing → ℕ → Async (Result (Unit {0})) × Link
    send_end_step l e k =
        let (r, sender, bytes) = send_loop F D B (Codec.new cfg) l.sender [] (e ∷ []) in
        (r, record l { sender = sender; is_sending = false; transit = l.transit ++ take k bytes })

    -- The receiving task has an event.
    abbrev pub receive_step : Link → Incoming → Link
    receive_step l e =
        let (at, receiver) = recv_step F D l.recv l.receiver e in
        record l { recv = at; receiver = receiver }

    -- `poll_read`
    abbrev pub read_step : Link → ℕ → Label × Link
    read_step l n =
        let (p, bytes, reader, shared) = poll_read F B l.reader l.receiver.shared n in
        (
          read_label p bytes,
          record l { reader = reader; receiver = record (l.receiver) { shared = shared } },
        )

    module _ (i : ℕ) where
      pub data Move (l : Link) : Label → Link → Type 0 where
        writes : (buf : List ℕ) → l.hold ≡ kept → Move l (write_step l buf).0 (write_step l buf).1
        shuts_down : l.hold ≡ kept → Move l silent (shutdown_step l)
        closes : l.hold ≡ kept → Move l silent (close_step l)
        close_goes_on : l.hold ≡ closing → Move l silent (send_fin_step l)
        -- The future of `close` is dropped, and the stream is not.
        close_cancelled : l.hold ≡ closing → Move l silent (record l { hold = kept })
        drops : l.hold ≢ dropped → Move l silent (drop_step l)
        -- Anything else in the writer's session, which may put frames of other streams on the channel,
        -- and reads of the stream itself.
        sender_acts :
            (sender : SessionInner F D) (writer : Stream) (fs : List Frame)
            → F.queue sender.shared.frames ≡ F.queue l.sender.shared.frames ++ fs
            → IsApart i fs
            → All IsTyped fs
            → writer.stream_id ≡ l.writer.stream_id
            → writer.is_write_closed ≡ l.writer.is_write_closed
            → Move l silent (record l { sender = sender; writer = writer })
        sends : l.is_sending ≡ true → (send_step l).0 ≡ waiting → Move l silent (send_step l).1
        -- The sending task comes to its end: a frame cannot be encoded, the transport fails, or the
        -- session is closed.
        send_ends :
            (e : Outgoing) (k : ℕ)
            → l.is_sending ≡ true
            → (send_end_step l e k).0 ≢ waiting
            → Move l silent (send_end_step l e k).1
        -- The transport delivers some of its bytes.
        carries :
            (k : ℕ)
            → Move l silent
                (record l { transit = drop k l.transit; arrived = l.arrived ++ take k l.transit })
        -- `recv_loop` gets a frame from the decoder.
        decodes :
            (f : Frame) (rest : List ℕ)
            → l.recv ≡ receiving
            → decode B (Codec.new cfg) l.arrived ≡ (ok (some f), rest)
            → Move l silent (receive_step (record l { arrived = rest }) (frame_in f))
        -- A handler that waited for tokens or for room goes on.
        resumes :
            (e : Incoming)
            → (e ≡ tokens_returned) ⊎ (e ≡ Incoming.room)
            → Move l silent (receive_step l e)
        -- The decoder fails, or the transport is at its end.
        breaks :
            (e : Incoming)
            → l.recv ≡ receiving
            → (e ≡ decode_failed) ⊎ (e ≡ transport_closed)
            → Move l silent (receive_step l e)
        -- The session is closed, and the receiving task learns of it.
        told :
            l.receiver.shared.state.closed ≡ true
            → Move l silent (receive_step l Incoming.close_notified)
        -- Anything else in the reader's session, and writes to the stream itself.
        receiver_acts :
            (receiver : SessionInner F D) (reader : Stream)
            → Spares i l.reader l.receiver receiver
            → reader.data_rx ≡ l.reader.data_rx
            → reader.current_chunk ≡ l.reader.current_chunk
            → reader.is_read_closed ≡ l.reader.is_read_closed
            → Move l silent (record l { receiver = receiver; reader = reader })
        -- A read with room for at least a byte.
        reads : (n : ℕ) → 0 < n → l.has_reader ≡ true → Move l (read_step l n).0 (read_step l n).1
        reader_drops : l.has_reader ≡ true → Move l silent (reader_drop_step l)

    -- What is seen of one move after the other, the latest first.
    pub data Run (i : ℕ) (l : Link) : List Label → Link → Type 0 where
      start : Run i l [] l
      then_move :
          {ls : List Label} {m n : Link} {label : Label}
          → Run i l ls m
          → Move i m label n
          → Run i l (label ∷ ls) n
