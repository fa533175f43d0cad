-- ===== src/Tests/Calls.antt =====
-- What other users of the two sessions do, at concrete inputs.
use smux.Base.{◌<◌, [], ◌∷◌, arith, refl}
use smux.Config
use smux.SessionState
use smux.Stream
use smux.Stream.{Stream}
use smux.Link.{Link, Move, Run, wrote, got, silent}
use smux.Link.Acts.{Act, opens, writes, act}
use smux.Link.Progress.{CanCarry, link_delivers}
use smux.Link.Acts.Moves.{act-Move}
use smux.Tests.Crates.{bytes_crate, flume, dash_map}
use smux.Tests.Sessions.{reader_1}
use smux.Tests.Links.{idle, fresh_link, fresh_link-IsFresh}

abbrev other_stream : Stream
other_stream = record reader_1 { stream_id = 3; data_rx = 5 }

abbrev write_other : Act
write_other = writes other_stream (104 ∷ 105 ∷ [])

act-Move_example :
    Move flume dash_map bytes_crate Config.default 1 fresh_link silent
      (record fresh_link { sender = act bytes_crate flume dash_map idle opens })
    × Move flume dash_map bytes_crate Config.default 1 fresh_link silent
        (record fresh_link { receiver = act bytes_crate flume dash_map idle write_other })
unfolding Stream.new
act-Move_example =
    act-Move bytes_crate flume dash_map Config.default 1 fresh_link opens write_other (omega arith)
      (omega arith) (omega arith) (omega arith) tt (omega arith)
      (record { made = omega arith; owner = λ j st q e. ground arith })
      (record { id_differs = omega arith; rx_differs = omega arith; id_u32 = omega arith })

fresh_link-CanCarry : CanCarry flume dash_map bytes_crate Config.default 1 fresh_link
unfolding Stream.new SessionState.new
fresh_link-CanCarry = record {
  can_write = record {
    write_open = refl;
    session_open = refl;
    receiver_left = refl;
    room_left = refl;
  };
  has_data = omega arith;
  fits = omega arith;
  no_frames = refl;
  none_arrived = refl;
  none_in_transit = refl;
  reader_open = refl;
  tokens_left = refl;
  tokens_i64 = omega arith;
  has_reader = refl;
}

link_delivers_example :
    (0 < 2)
    × ((m : Link flume dash_map) × Run flume dash_map bytes_crate Config.default 1 fresh_link
          (got (104 ∷ 105 ∷ []) ∷ silent ∷ silent ∷ silent ∷ wrote (104 ∷ 105 ∷ []) ∷ [])
          m)
unfolding Stream.new
link_delivers_example =
    link_delivers flume dash_map bytes_crate Config.default 1 fresh_link (104 ∷ 105 ∷ []) 7
      (omega arith) (omega arith) (omega arith) fresh_link-IsFresh fresh_link-CanCarry (omega arith)
      (omega arith)
