-- ===== src/Tests/Opening.antt =====
-- src/session.rs: new streams at concrete inputs.
use smux.Base.{◌≡◌, refl, [], ◌∷◌, ◌++◌, arith, true, false, some}
use smux.Error.{ok}
use smux.Config
use smux.Config.{Config}
use smux.Frame.{new_syn}
use smux.SessionState
use smux.SessionState.{SessionState, i64_mod, is_positive, close}
use smux.Stream
use smux.Stream.{Stream, Shared, Async, done, waiting, update}
use smux.Session.{SessionInner, validate_peer_stream_id}
use smux.Session.Table.{open_stream, accept_stream}
use smux.Session.Open.{CanOpen, open_stream_opens, CanAccept}
use smux.Codec
use smux.Codec.{encode, decode}
use smux.Codec.RoundTrip.{IsTyped}
use smux.Command.{to_byte}
use smux.Frame
use smux.Frame.{validate}
use smux.Session.{next_stream_id}
use smux.Session.Table.{send_syn, add_stream, insert_stream, drop_state, new_pipe}
use smux.Session.Invariant.{IsWf}
use smux.Session.Tasks.{polled, send_loop, receiving, frame_in, recv_step}
use smux.Link.{kept}
use smux.Link.Opening.{open_accept-IsFresh}
use smux.Link.Refine.{IsFresh}
use smux.Session.Local.{lookup}
use smux.Tests.Crates.{bytes_crate, flume, dash_map}
use smux.Tests.Sessions.{busy}

-- A client whose next id is 3.
abbrev opener : SessionInner flume dash_map
opener = record busy { next_stream_id = 3; is_client = true }

opener_can : CanOpen flume dash_map opener
unfolding SessionState.new
opener_can = record {
  session_open = refl;
  id_left = omega arith;
  id_new = refl;
  receiver_left = refl;
  room_left = refl;
}

open_stream_opens_example :
    let (r, inner') = open_stream flume dash_map opener in
    (r ≡ done (ok (Stream.new 3 1 Config.default)))
    × (lookup flume dash_map inner' 3 ≡ some (record { data_tx = 1; is_read_closed = false }))
    × (flume.queue inner'.shared.frames ≡ [] ++ (new_syn 1 3 ∷ []))
    × (flume.queue (inner'.shared.pipes 1) ≡ [])
    × (flume.sending (inner'.shared.pipes 1) ≡ true)
    × (flume.receiving (inner'.shared.pipes 1) ≡ true)
    × (inner'.next_stream_id ≡ 5)
open_stream_opens_example = open_stream_opens flume dash_map opener opener_can

busy_can : CanAccept flume dash_map busy 3
unfolding SessionState.new validate_peer_stream_id
busy_can = record {
  peer_open = refl;
  id_valid = refl;
  id_free = refl;
  none_waits = refl;
  session_left = refl;
  takes_one = refl;
}

busy-IsWf : IsWf flume dash_map busy
busy-IsWf = record { owned = λ j st q. ground arith; distinct = λ j k st st' q q' e. ground arith }

syn_goes_out :
    (send_loop flume dash_map bytes_crate
      (Codec.new Config.default)
      (open_stream flume dash_map opener).1
      []
      (polled true ∷ [])).0
    ≡ waiting
unfolding Stream.new SessionState.new open_stream next_stream_id send_syn add_stream insert_stream
    drop_state new_pipe new_syn send_loop encode Codec.encode_header Codec.data_to_encode Codec.new
    validate to_byte Frame.new
syn_goes_out = refl

syn-IsTyped : IsTyped (new_syn 1 3)
unfolding new_syn Frame.new
syn-IsTyped = record { version_u8 = omega arith; id_u32 = omega arith; cmd_u32 = tt }

open_accept-IsFresh_example :
    let opened = open_stream flume dash_map opener in
    let sent =
      send_loop flume dash_map bytes_crate
        (Codec.new Config.default)
        opened.1
        []
        (polled true ∷ []) in
    let met = recv_step flume dash_map receiving busy (frame_in (new_syn 1 3)) in
    let accepted = accept_stream flume dash_map false met.1 in
    let end_3 = Stream.new 3 1 Config.default in
    (opened.0 ≡ done (ok end_3))
    × (decode bytes_crate (Codec.new Config.default) sent.2 ≡ (ok (some (new_syn 1 3)), []))
    × (accepted.0 ≡ done (ok end_3))
    × IsFresh flume dash_map 3 (record {
      sender = sent.1;
      writer = end_3;
      hold = kept;
      has_reader = true;
      is_sending = true;
      transit = [];
      arrived = [];
      recv = met.0;
      receiver = accepted.1;
      reader = end_3;
    })
open_accept-IsFresh_example =
    open_accept-IsFresh flume dash_map bytes_crate Config.default opener busy (omega arith)
      opener_can refl busy_can busy-IsWf syn-IsTyped syn_goes_out
