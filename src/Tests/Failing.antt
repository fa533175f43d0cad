-- ===== src/Tests/Failing.antt =====
-- One stream whose writer drops it and whose transport fails, at a concrete run.
use smux.Base.{ℕ, ◌≡◌, refl, false, List, [], ◌∷◌, ◌++◌, arith}
use smux.Command.{from_byte, to_byte}
use smux.Config
use smux.Frame
use smux.Frame.{validate, new_psh, new_fin}
use smux.Codec
use smux.Codec.{decode, encode}
use smux.SessionState
use smux.SessionState.{SessionState}
use smux.Stream
use smux.Stream.{update, poll_read, poll_write, drop_stream}
use smux.Session.Handlers.{handle_frame, handle_psh_frame, wait_tokens, deliver}
use smux.Session.Tasks.{frame_in, recv_step, send_loop, polled}
use smux.Link.{
  Link, Label, wrote, got, silent, Run, start, then_move, writes, sends, carries, decodes, reads,
  drops, send_ends, send_end_step, drop_step, receive_step, read_step,
}
use smux.Link.Outcome.{written, read, reader_gets_prefix}
use smux.Tests.Crates.{bytes_crate, flume, dash_map}
use smux.Tests.Links.{fresh_link, fresh_link-IsFresh, carry, hi, sent_hi}

-- After two bytes were written and sent, the stream is dropped, and the transport takes five bytes
-- of its FIN frame.
abbrev cut_off : Link flume dash_map
cut_off =
    (send_end_step flume dash_map bytes_crate Config.default
      (drop_step flume dash_map bytes_crate Config.default sent_hi) (polled false) 5).1

-- The reader gets the two bytes, and no end.
abbrev got_hi : Link flume dash_map
got_hi =
    (read_step flume dash_map bytes_crate Config.default
      (receive_step flume dash_map bytes_crate Config.default
        (record (carry 15 cut_off) { arrived = 1 ∷ 1 ∷ 0 ∷ 0 ∷ 1 ∷ [] }) (frame_in hi))
      7).1

abbrev labels : List Label
labels =
    got (104 ∷ 105 ∷ []) ∷ silent ∷ silent ∷ silent ∷ silent ∷ silent ∷ wrote (104 ∷ 105 ∷ []) ∷ []

Run-cut_off : Run flume dash_map bytes_crate Config.default 1 fresh_link labels got_hi
unfolding Stream.new SessionState.new poll_write new_psh send_loop encode Codec.encode_header
    Codec.data_to_encode Codec.new validate to_byte from_byte decode Codec.decode_header
    Codec.take_frame Codec.make_frame Codec.final_command Frame.new recv_step handle_frame
    handle_psh_frame wait_tokens deliver SessionState.get_tokens SessionState.mark_data_received
    poll_read Stream.read_chunk Stream.read_channel Stream.read_received SessionState.return_tokens
    drop_stream new_fin
Run-cut_off =
    then_move
      (then_move
        (then_move
          (then_move
            (then_move
              (then_move (then_move start (writes (104 ∷ 105 ∷ []) refl)) (sends refl refl))
              (drops (λ e. cc e)))
            (send_ends (polled false) 5 refl (λ e. cc e)))
          (carries 15))
        (decodes hi (1 ∷ 1 ∷ 0 ∷ 0 ∷ 1 ∷ []) refl refl))
      (reads 7 (omega arith) refl)

reader_gets_prefix_example : (left : List ℕ) × (written labels ≡ read labels ++ left)
reader_gets_prefix_example =
    reader_gets_prefix flume dash_map bytes_crate Config.default 1 fresh_link got_hi labels
      (omega arith) (omega arith) fresh_link-IsFresh Run-cut_off
