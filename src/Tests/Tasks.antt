-- ===== src/Tests/Tasks.antt =====
-- src/session.rs: the three tasks at concrete inputs.
use smux.Base.{◌≡◌, ◌≢◌, ◌≤◌, refl, List, [], ◌∷◌, ◌++◌, arith, true, false, some}
use smux.Config
use smux.SessionState
use smux.SessionState.{SessionState}
use smux.Codec
use smux.Codec.Sequence.{decode_all}
use smux.Stream
use smux.Stream.{Async, done, waiting, Shared, update}
use smux.Stream.Read.{unread}
use smux.Session
use smux.Session.{SessionInner, StreamState}
use smux.Session.Invariant.{IsWf}
use smux.Session.Handlers.{handle_frame, handle_psh_frame, wait_tokens, deliver}
use smux.Session.Tasks.{
  Incoming, charging, receiving, stopped, frame_in, recv_run, recv_step, Tick, pinged, timed_out,
  outside, pinging, keep_alive_loop, transport_closed, recv_loop, send_loop,
}
use smux.Session.Tasks.Demux.{bytes_for, IsLive, incoming, recv_loop_demultiplexes}
use smux.Session.Tasks.Receive.{recv_loop_closes}
use smux.Session.Tasks.Send.{polls, with_frames, send_loop_transmits}
use smux.Session.Tasks.Flowing.{is_charging}
use smux.Session.Tasks.Missed.{recv_loop_misses_close}
use smux.Session.Tasks.Window.{Traffic, comes, reads, traffic_run, traffic_never_charges}
use smux.Config.Valid.{IsValidConfig}
use smux.Session.Tasks.KeepAlive.{keep_alive_spares}
use smux.Session.Tasks.Timeout.{keep_alive_blocks}
use smux.Tests.Crates.{bytes_crate, flume, dash_map}
use smux.Tests.Wire.{hi_frame, update_frame, hi-IsTyped, update-IsTyped, encode_both}
use smux.Tests.Sessions.{busy, entry_1, reader_1, data_frame, busy_positive, no_pipes}

busy-IsWf : IsWf flume dash_map busy
busy-IsWf = record { owned = λ j st q. ground arith; distinct = λ j k st st' q q' e. ground arith }

busy-IsLive : IsLive flume dash_map busy
busy-IsLive = record { reader_left = λ j st q. ground arith; no_limit = λ j st q. ground arith }

recv_loop_demultiplexes_example :
    let r = recv_loop flume dash_map busy (incoming (data_frame ∷ data_frame ∷ [])) in
    (r.0 ≡ receiving)
    × (unread flume reader_1 r.1.shared
        ≡ unread flume reader_1 busy.shared ++ bytes_for 1 (data_frame ∷ data_frame ∷ []))
unfolding Stream.new
recv_loop_demultiplexes_example =
    recv_loop_demultiplexes flume dash_map (data_frame ∷ data_frame ∷ []) busy 1 entry_1 reader_1
      busy-IsWf busy-IsLive busy_positive
      ((refl, omega arith, (entry_1, refl)), ((refl, omega arith, (entry_1, refl)), tt)) refl refl

recv_ends :
    (recv_loop flume dash_map busy (frame_in data_frame ∷ transport_closed ∷ [])).0 ≡ stopped
unfolding recv_run recv_step handle_frame handle_psh_frame wait_tokens deliver
    SessionState.get_tokens SessionState.mark_data_received SessionState.new
recv_ends = refl

recv_loop_closes_example :
    Session.is_closed flume dash_map
      (recv_loop flume dash_map busy (frame_in data_frame ∷ transport_closed ∷ [])).1
    ≡ true
recv_loop_closes_example =
    recv_loop_closes flume dash_map busy (frame_in data_frame ∷ transport_closed ∷ []) recv_ends

abbrev queued : SessionInner flume dash_map
queued = record busy {
  shared = record (busy.shared) {
    frames = record { items = hi_frame ∷ update_frame ∷ []; tx = true; rx = true; limit = some 2 };
  };
}

send_loop_transmits_example :
    let r =
      send_loop flume dash_map bytes_crate
        (Codec.new Config.default)
        queued
        []
        (polls bytes_crate flume dash_map (hi_frame ∷ update_frame ∷ [])) in
    (r.0 ≡ waiting)
    × (flume.queue r.1.shared.frames ≡ [])
    × (flume.sending r.1.shared.frames ≡ true)
    × (flume.receiving r.1.shared.frames ≡ true)
    × (with_frames bytes_crate flume dash_map queued.shared.frames r.1 ≡ queued)
    × (decode_all bytes_crate 3 (Codec.new Config.default) r.2 ≡ (hi_frame ∷ update_frame ∷ [], []))
send_loop_transmits_example =
    send_loop_transmits bytes_crate flume dash_map Config.default queued _ 3 (omega arith)
      (hi-IsTyped, (update-IsTyped, tt)) (omega arith) encode_both

-- What the others leave: data has come in, or nothing has.
abbrev after_data : Shared flume
after_data = record (busy.shared) {
  state = record {
    closed = false;
    tokens = 10;
    data_received = true;
    die_notified = 0;
    tokens_notified = 0;
  };
}

abbrev silent : Shared flume
silent = record (busy.shared) {
  state = record {
    closed = false;
    tokens = 10;
    data_received = false;
    die_notified = 0;
    tokens_notified = 0;
  };
}

abbrev fed_ticks : List (Tick flume dash_map)
fed_ticks = timed_out ∷ pinged ∷ outside after_data ∷ timed_out ∷ []

keep_alive_spares_example :
    (keep_alive_loop flume dash_map busy fed_ticks).1.shared.state.closed ≡ false
unfolding SessionState.new
keep_alive_spares_example =
    keep_alive_spares flume dash_map busy fed_ticks refl (refl, (tt, (refl, (refl, tt))))

abbrev silent_session : SessionInner flume dash_map
silent_session = record busy { shared = silent }

abbrev clogged : SessionInner flume dash_map
clogged = record busy {
  shared = record silent {
    frames = record { items = hi_frame ∷ []; tx = true; rx = true; limit = some 1 };
  };
}

keep_alive_blocks_example :
    let r = keep_alive_loop flume dash_map clogged (pinged ∷ timed_out ∷ timed_out ∷ []) in
    (r.0 ≡ pinging) × (r.1.shared.state.closed ≡ false)
keep_alive_blocks_example =
    keep_alive_blocks flume dash_map clogged (timed_out ∷ timed_out ∷ []) refl refl refl refl
      (refl, (refl, tt))

default-IsValidConfig : IsValidConfig Config.default
default-IsValidConfig = record {
  has_version = omega arith;
  keeps_alive = λ _. omega arith;
  frames_fit = (omega arith, omega arith);
  buffers_a_frame = omega arith;
  buffers_a_stream = omega arith;
}

-- A frame comes in, its reader reads, and another one comes in.
abbrev traffic : List (Traffic bytes_crate flume dash_map)
traffic = comes (frame_in data_frame) ∷ reads reader_1 16 ∷ comes (frame_in data_frame) ∷ []

traffic_never_charges_example :
    let r =
      traffic_run bytes_crate flume dash_map receiving
        (Session.new flume dash_map no_pipes Config.default false)
        traffic in
    (is_charging r.0 ≡ false) × (Config.default.max_receive_buffer ≤ r.1.shared.state.tokens)
traffic_never_charges_example =
    traffic_never_charges bytes_crate flume dash_map no_pipes Config.default false traffic
      default-IsValidConfig (omega arith)

-- No tokens are left.
abbrev starved : SessionInner flume dash_map
starved = record busy {
  shared = record (busy.shared) { state = record (busy.shared.state) { tokens = 0 } };
}

recv_loop_misses_close_example :
    let r =
      recv_run flume dash_map
        (charging data_frame)
        (Session.close flume dash_map starved)
        (Incoming.close_notified ∷ frame_in data_frame ∷ []) in
    (r.0 ≢ stopped) × (Session.close flume dash_map r.1 ≡ r.1)
recv_loop_misses_close_example =
    recv_loop_misses_close flume dash_map (charging data_frame) starved (frame_in data_frame ∷ [])
      (λ e. cc e) (λ e. cc e) (refl, tt)
