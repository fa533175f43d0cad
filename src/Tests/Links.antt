-- ===== src/Tests/Links.antt =====
-- One stream from end to end, at a concrete run.
use smux.Base.{ℕ, ◌≡◌, refl, length, List, [], ◌∷◌, ◌++◌, drop, take, arith, true, false, none}
use smux.Command.{fin, psh}
use smux.Config
use smux.Frame
use smux.Frame.{Frame, validate, new_psh, new_fin}
use smux.Command.{from_byte, to_byte}
use smux.Codec
use smux.Codec.{decode, encode}
use smux.SessionState
use smux.SessionState.{SessionState}
use smux.Stream
use smux.Stream.{Stream, update, poll_read, poll_write, poll_shutdown, send_fin}
use smux.Stream.Read.{unread}
use smux.Stream.Drain.{read_all}
use smux.Session.{SessionInner}
use smux.Session.Table.{drop_state}
use smux.Session.Handlers.{handle_frame, handle_psh_frame, handle_fin_frame, wait_tokens, deliver}
use smux.Session.Tasks.{receiving, frame_in, recv_step, send_loop}
use smux.Link.{
  kept, is_finished, Link, Label, wrote, got, saw_end, silent, Run, start, then_move, writes, sends,
  carries, decodes, reads, shuts_down, write_step, send_step, receive_step, read_step,
  shutdown_step, close_step, closes,
}
use smux.Link.Pipe.{Pipe, PipeRun}
use smux.Link.Refine.{IsFresh, empty_pipe, link_refines_pipe}
use smux.Link.Outcome.{written, read, end_comes_last, read_all-rest}
use smux.Tests.Crates.{bytes_crate, flume, dash_map}
use smux.Tests.Sessions.{busy, reader_1}

-- Two sessions that share the stream 1, with nothing written.
abbrev pub idle : SessionInner flume dash_map
idle = record busy {
  shared = record (busy.shared) {
    pipes = update busy.shared.pipes 0 (record { items = []; tx = true; rx = true; limit = none });
  };
}

abbrev pub fresh_link : Link flume dash_map
fresh_link = record {
  sender = idle;
  writer = reader_1;
  hold = kept;
  has_reader = true;
  is_sending = true;
  transit = [];
  arrived = [];
  recv = receiving;
  receiver = idle;
  reader = reader_1;
}

pub fresh_link-IsFresh : IsFresh flume dash_map 1 fresh_link
unfolding Stream.new
fresh_link-IsFresh = record {
  nothing_sent = refl;
  sends_yet = refl;
  free = refl;
  at_select = refl;
  others_only = tt;
  typed = tt;
  same_id = refl;
  writable = refl;
  nothing_to_read = refl;
  readable = record {
    read_open = refl;
    chunk_full = λ e. absurd (cc e);
    messages_full = refl;
    reader_left = refl;
    no_limit = refl;
  };
  own = record { made = omega arith; owner = λ j st q e. ground arith };
  known = record { known = (_, refl, refl); sender_left = refl };
}

-- The transport hands over its first `k` bytes.
abbrev pub carry : ℕ → Link flume dash_map → Link flume dash_map
carry k l = record l { transit = drop k l.transit; arrived = l.arrived ++ take k l.transit }

abbrev pub hi : Frame
hi = record { version = 1; cmd = psh; stream_id = 1; payload = 104 ∷ 105 ∷ [] }

abbrev last_frame : Frame
last_frame = record { version = 1; cmd = fin; stream_id = 1; payload = [] }

-- Two bytes are written, sent, carried in two parts, decoded and read.
abbrev pub sent_hi : Link flume dash_map
sent_hi =
    (send_step flume dash_map bytes_crate Config.default
      (write_step flume dash_map bytes_crate Config.default fresh_link (104 ∷ 105 ∷ [])).1).1

abbrev read_hi : Link flume dash_map
read_hi =
    (read_step flume dash_map bytes_crate Config.default
      (receive_step flume dash_map bytes_crate Config.default
        (record (carry 5 (carry 5 sent_hi)) { arrived = [] }) (frame_in hi))
      7).1

Run-hi :
    Run flume dash_map bytes_crate Config.default 1 fresh_link
      (got (104 ∷ 105 ∷ []) ∷ silent ∷ silent ∷ silent ∷ silent ∷ wrote (104 ∷ 105 ∷ []) ∷ [])
      read_hi
unfolding Stream.new SessionState.new poll_write new_psh send_loop encode Codec.encode_header
    Codec.data_to_encode Codec.new validate to_byte from_byte decode Codec.decode_header
    Codec.take_frame Codec.make_frame Codec.final_command Frame.new recv_step handle_frame
    handle_psh_frame wait_tokens deliver SessionState.get_tokens SessionState.mark_data_received
    poll_read Stream.read_chunk Stream.read_channel Stream.read_received SessionState.return_tokens
Run-hi =
    then_move
      (then_move
        (then_move
          (then_move (then_move (then_move start (writes (104 ∷ 105 ∷ []) refl)) (sends refl refl))
            (carries 5))
          (carries 5))
        (decodes hi [] refl refl))
      (reads 7 (omega arith) refl)

-- The writer shuts down, and the reader sees the end.
abbrev shut_down : Link flume dash_map
shut_down = shutdown_step flume dash_map bytes_crate Config.default read_hi

abbrev at_end : Link flume dash_map
at_end =
    (read_step flume dash_map bytes_crate Config.default
      (receive_step flume dash_map bytes_crate Config.default
        (record (carry 8 (send_step flume dash_map bytes_crate Config.default shut_down).1) {
          arrived = [];
        })
        (frame_in last_frame))
      7).1

abbrev labels : List Label
labels =
    saw_end
    ∷ silent
    ∷ silent
    ∷ silent
    ∷ silent
    ∷ got (104 ∷ 105 ∷ [])
    ∷ silent
    ∷ silent
    ∷ silent
    ∷ silent
    ∷ wrote (104 ∷ 105 ∷ [])
    ∷ []

Run-to_end : Run flume dash_map bytes_crate Config.default 1 fresh_link labels at_end
unfolding Stream.new SessionState.new poll_write new_psh send_loop encode Codec.encode_header
    Codec.data_to_encode Codec.new validate to_byte from_byte decode Codec.decode_header
    Codec.take_frame Codec.make_frame Codec.final_command Frame.new recv_step handle_frame
    handle_psh_frame wait_tokens deliver SessionState.get_tokens SessionState.mark_data_received
    poll_read Stream.read_chunk Stream.read_channel Stream.read_received SessionState.return_tokens
    poll_shutdown new_fin handle_fin_frame drop_state
Run-to_end =
    then_move
      (then_move
        (then_move (then_move (then_move Run-hi (shuts_down refl)) (sends refl refl)) (carries 8))
        (decodes last_frame [] refl refl))
      (reads 7 (omega arith) refl)

still_open : at_end.receiver.shared.state.closed ≡ false
unfolding Stream.new SessionState.new poll_write new_psh send_loop encode Codec.encode_header
    Codec.data_to_encode Codec.new validate to_byte from_byte decode Codec.decode_header
    Codec.take_frame Codec.make_frame Codec.final_command Frame.new recv_step handle_frame
    handle_psh_frame wait_tokens deliver SessionState.get_tokens SessionState.mark_data_received
    poll_read Stream.read_chunk Stream.read_channel Stream.read_received SessionState.return_tokens
    poll_shutdown new_fin handle_fin_frame drop_state
still_open = refl

link_refines_pipe_example :
    (q : Pipe) × PipeRun empty_pipe labels q
    × (q.finished ≡ is_finished at_end.hold at_end.writer.is_write_closed)
    × ((later : List ℕ) × (q.buffer ≡ unread flume at_end.reader at_end.receiver.shared ++ later))
link_refines_pipe_example =
    link_refines_pipe flume dash_map bytes_crate Config.default 1 fresh_link at_end labels
      (omega arith) (omega arith) fresh_link-IsFresh Run-to_end still_open refl

end_comes_last_example :
    (is_finished at_end.hold at_end.writer.is_write_closed ≡ true) × (read labels ≡ written labels)
end_comes_last_example =
    end_comes_last flume dash_map bytes_crate Config.default 1 fresh_link at_end labels
      (omega arith) (omega arith) fresh_link-IsFresh Run-to_end still_open refl refl

-- The same stream, closed before anything is read.
abbrev closed_early : Link flume dash_map
closed_early =
    (send_step flume dash_map bytes_crate Config.default
      (send_step flume dash_map bytes_crate Config.default (
        close_step flume dash_map bytes_crate Config.default
          (write_step flume dash_map bytes_crate Config.default fresh_link
            (104 ∷ 105 ∷ [])).1)).1).1

abbrev all_in : Link flume dash_map
all_in =
    receive_step flume dash_map bytes_crate Config.default
      (record (receive_step flume dash_map bytes_crate Config.default
        (record (carry 18 closed_early) { arrived = 1 ∷ 1 ∷ 0 ∷ 0 ∷ 1 ∷ 0 ∷ 0 ∷ 0 ∷ [] })
        (frame_in hi)) { arrived = [] })
      (frame_in last_frame)

abbrev labels_in : List Label
labels_in = silent ∷ silent ∷ silent ∷ silent ∷ silent ∷ silent ∷ wrote (104 ∷ 105 ∷ []) ∷ []

Run-all_in : Run flume dash_map bytes_crate Config.default 1 fresh_link labels_in all_in
unfolding Stream.new SessionState.new poll_write new_psh send_loop encode Codec.encode_header
    Codec.data_to_encode Codec.new validate to_byte from_byte decode Codec.decode_header
    Codec.take_frame Codec.make_frame Codec.final_command Frame.new recv_step handle_frame
    handle_psh_frame wait_tokens deliver SessionState.get_tokens SessionState.mark_data_received
    poll_read Stream.read_chunk Stream.read_channel Stream.read_received SessionState.return_tokens
    Stream.close send_fin new_fin handle_fin_frame drop_state
Run-all_in =
    then_move
      (then_move
        (then_move
          (then_move
            (then_move (then_move (then_move start (writes (104 ∷ 105 ∷ []) refl)) (closes refl))
              (sends refl refl))
            (sends refl refl))
          (carries 18))
        (decodes hi (1 ∷ 1 ∷ 0 ∷ 0 ∷ 1 ∷ 0 ∷ 0 ∷ 0 ∷ []) refl refl))
      (decodes last_frame [] refl refl)

all_in_ended :
    (all_in.receiver.shared.state.closed ≡ false)
    × (all_in.receiver.shared.state.tokens ≡ 4194304)
    × (flume.sending (all_in.receiver.shared.pipes all_in.reader.data_rx) ≡ false)
    × (length (unread flume all_in.reader all_in.receiver.shared) ≡ 2)
unfolding Stream.new SessionState.new poll_write new_psh send_loop encode Codec.encode_header
    Codec.data_to_encode Codec.new validate to_byte from_byte decode Codec.decode_header
    Codec.take_frame Codec.make_frame Codec.final_command Frame.new recv_step handle_frame
    handle_psh_frame wait_tokens deliver SessionState.get_tokens SessionState.mark_data_received
    poll_read Stream.read_chunk Stream.read_channel Stream.read_received SessionState.return_tokens
    Stream.close send_fin new_fin handle_fin_frame drop_state
all_in_ended = (refl, refl, refl, refl)

read_all-rest_example :
    read labels_in ++ read_all bytes_crate flume 3 all_in.reader all_in.receiver.shared 1
    ≡ written labels_in
read_all-rest_example =
    read_all-rest flume dash_map bytes_crate Config.default 1 fresh_link all_in labels_in 3 1
      (omega arith) (omega arith) fresh_link-IsFresh Run-all_in all_in_ended.0 refl
      (omega (arith, all_in_ended)) all_in_ended.2 (omega arith) (omega (arith, all_in_ended))
