-- ===== src/Tests/Streams.antt =====
-- src/stream.rs at concrete inputs.
use smux.Base.{ℕ, ◌≤◌, ◌<◌, ◌≡◌, refl, List, [], ◌∷◌, ◌++◌, take, arith, true, false, none, some}
use smux.Config
use smux.Config.{Config}
use smux.Config.Valid.{IsValidConfig}
use smux.Frame.{new_psh}
use smux.Frame.Valid.{IsValidFrame}
use smux.SessionState
use smux.SessionState.{SessionState, i64_mod, return_tokens, take_tokens}
use smux.Stream
use smux.Stream.{
  Stream, Shared, Poll, ready, failed, pending, poll_read, poll_write, is_stream_closed,
}
use smux.Stream.Read.{unread, Delivers, poll_read-Delivers, poll_read_drops_chunk}
use smux.Stream.Drain.{IsEnding, read_all, read_all-unread}
use smux.Stream.Cancel.{close_loses_fin}
use smux.Error.{ok}
use smux.Stream.{poll_shutdown, drop_stream, done, waiting}
use smux.Frame.{new_fin}
use smux.Stream.Write.{CanWrite, poll_write_sends, poll_write_stalls}
use smux.Stream.Handle.{Handle, Call, reads, writes, closes, resumed, run}
use smux.Stream.Handle.Sends.{Sends, run-Sends}
use smux.Stream.Handle.ReadClosed.{run-is_closed}
use smux.Tests.Crates.{bytes_crate, flume}

-- A stream that has read the first of four bytes, with a further message of two bytes.
abbrev half_read : Stream
half_read = record {
  stream_id = 3;
  data_rx = 0;
  current_chunk = some (11 ∷ 12 ∷ 13 ∷ []);
  is_read_closed = false;
  is_write_closed = false;
  config = Config.default;
}

abbrev shared_with : List (List ℕ) → Shared flume
shared_with messages = record {
  frames = record { items = []; tx = true; rx = true; limit = some 2 };
  pipes = λ k. record { items = messages; tx = true; rx = true; limit = none };
  state = SessionState.new 4194304;
}

abbrev world : Shared flume
world = shared_with ((14 ∷ 15 ∷ []) ∷ [])

poll_read-Delivers_example :
    Delivers bytes_crate flume half_read world 2 (poll_read flume bytes_crate half_read world 2)
unfolding SessionState.new
poll_read-Delivers_example =
    poll_read-Delivers bytes_crate flume half_read world 2 (λ e. absurd (cc e)) (omega arith) refl
      refl (omega arith)

-- Two of the three bytes at hand are read.
poll_read_two : (poll_read flume bytes_crate half_read world 2).1 ≡ 11 ∷ 12 ∷ []
unfolding poll_read Stream.read_chunk SessionState.new
poll_read_two = refl

-- The same messages, with nobody left to send more.
abbrev ending : Shared flume
ending = record world {
  pipes = λ k. record { items = (14 ∷ 15 ∷ []) ∷ []; tx = false; rx = true; limit = none };
}

ending-IsEnding : IsEnding bytes_crate flume half_read ending
unfolding SessionState.new
ending-IsEnding = record {
  read_open = refl;
  session_open = refl;
  tokens_i64 = omega arith;
  sender_gone = refl;
  chunk_full = λ e. absurd (cc e);
  messages_full = refl;
}

read_all-unread_example :
    read_all bytes_crate flume 6 half_read ending 2 ≡ unread flume half_read ending
read_all-unread_example =
    read_all-unread bytes_crate flume 6 half_read ending 2 ending-IsEnding (omega arith)
      (omega arith)

poll_read_drops_chunk_example :
    let r = poll_read flume bytes_crate half_read world 0 in
    (unread flume half_read world ≡ (11 ∷ 12 ∷ 13 ∷ []) ++ ((14 ∷ 15 ∷ []) ++ []))
    × (r.0 ≡ ready tt)
    × (r.1 ≡ [])
    × (unread flume r.2 r.3 ≡ (14 ∷ 15 ∷ []) ++ [])
    × (r.3.state ≡ world.state)
unfolding SessionState.new
poll_read_drops_chunk_example =
    poll_read_drops_chunk bytes_crate flume half_read world (11 ∷ 12 ∷ 13 ∷ []) (14 ∷ 15 ∷ []) []
      refl refl refl refl

-- The frame channel is full.
abbrev crowded : Shared flume
crowded = record world {
  frames = record { items = new_fin 1 7 ∷ []; tx = true; rx = true; limit = some 1 };
}

close_loses_fin_example :
    let (r, s', w') = Stream.close flume half_read crowded in
    (r ≡ waiting)
    × (flume.queue w'.frames ≡ new_fin 1 7 ∷ [])
    × (Stream.close flume s' world ≡ (done (ok tt), s', world))
    × (poll_shutdown flume s' world ≡ (ready tt, s', world))
    × ((drop_stream flume s' world).frames ≡ world.frames)
close_loses_fin_example = close_loses_fin flume half_read crowded world refl refl refl

can_write : CanWrite flume half_read world
unfolding SessionState.new
can_write = record {
  write_open = refl;
  session_open = refl;
  receiver_left = refl;
  room_left = refl;
}

poll_write_sends_example :
    (n : ℕ) × ((poll_write flume half_read world (1 ∷ 2 ∷ [])).0 ≡ ready n)
    × (0 < n)
    × (n ≤ 2)
    × (flume.queue (poll_write flume half_read world (1 ∷ 2 ∷ [])).1.frames
        ≡ [] ++ (new_psh 1 3 (take n (1 ∷ 2 ∷ [])) ∷ []))
    × IsValidFrame 32768 (new_psh 1 3 (take n (1 ∷ 2 ∷ [])))
poll_write_sends_example =
    poll_write_sends flume half_read world (1 ∷ 2 ∷ []) can_write (omega arith) (omega arith)
      (omega arith)

-- The same stream, under a configuration whose frames have room for a header only.
abbrev narrow : Stream
narrow = record half_read { config = record (Config.default) { max_frame_size = 8 } }

valid_narrow : IsValidConfig narrow.config
valid_narrow = record {
  has_version = omega arith;
  keeps_alive = λ _. omega arith;
  frames_fit = (omega arith, omega arith);
  buffers_a_frame = omega arith;
  buffers_a_stream = omega arith;
}

poll_write_stalls_example :
    ((poll_write flume narrow world (1 ∷ 2 ∷ [])).0 ≡ ready 0)
    × (flume.queue (poll_write flume narrow world (1 ∷ 2 ∷ [])).1.frames
        ≡ [] ++ (new_psh 1 3 [] ∷ []))
unfolding SessionState.new
poll_write_stalls_example =
    poll_write_stalls flume narrow world (1 ∷ 2 ∷ [])
      (record { write_open = refl; session_open = refl; receiver_left = refl; room_left = refl })
      (omega arith) valid_narrow (omega arith)

-- The frame channel has room for two frames: the FIN frame of `close` waits.
abbrev calls : List Call
calls = writes (1 ∷ []) ∷ writes (2 ∷ []) ∷ reads 2 ∷ closes ∷ resumed ∷ writes (3 ∷ []) ∷ []

abbrev handle : Handle
handle = record { stream = half_read; closing = false }

run-Sends_example :
    Sends bytes_crate flume handle world (run bytes_crate flume handle world calls).1
run-Sends_example = run-Sends bytes_crate flume handle world calls (λ e. absurd (cc e))

run-is_closed_example :
    is_stream_closed
      (run bytes_crate flume
        (record { stream = Stream.new 3 0 Config.default; closing = false })
        world
        calls).0.stream
    ≡ false
run-is_closed_example = run-is_closed bytes_crate flume 3 0 Config.default world calls

-- Three tokens taken from a counter of two: it is below zero in between.
abbrev two_left : SessionState
two_left = record {
  closed = false;
  tokens = 2;
  data_received = true;
  die_notified = 0;
  tokens_notified = 0;
}
