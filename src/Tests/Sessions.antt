-- ===== src/Tests/Sessions.antt =====
-- src/session.rs at concrete inputs.
use smux.Base.{
  ℕ, ◌+◌, ◌*◌, ◌%◌, ◌-◌, ◌==◌, ◌≡◌, refl, List, [], ◌∷◌, arith, true, false, if◌then◌else◌, none,
  some,
}
use smux.Error.{ok, err, SmuxError}
use smux.Command.{syn, fin, psh}
use smux.Config
use smux.Config.{Config}
use smux.Frame.{Frame}
use smux.SessionState
use smux.SessionState.{SessionState, i64_mod, is_positive, close}
use smux.Stream
use smux.Stream.{Stream, Shared, Async, done, waiting, update}
use smux.Session
use smux.Session.{SessionInner, StreamState, next_stream_id, validate_peer_stream_id, u32_max}
use smux.Session.Ids.{allocated, nth_id, allocated-accepted, nth_id_wraps}
use smux.Session.Local.{Local}
use smux.Session.Handlers.{returned, closing, stop, wait_tokens, handle_frame, handle_syn_frame}
use smux.Session.Isolation.{handle_frame-Local}
use smux.Session.Invariant.{IsWf, Event, opens, accepts, frame_in, run, run-new-IsWf}
use smux.Session.Flow.{wait_tokens_leaks}
use smux.Session.Syn.{IsAnswered, handle_syn_frame-IsAnswered}
use smux.Tests.Crates.{flume, dash_map, Queue}

abbrev pub no_pipes : ℕ → Queue (List ℕ)
no_pipes k = record { items = []; tx = false; rx = false; limit = none }

abbrev server : SessionInner flume dash_map
server = Session.server flume dash_map no_pipes Config.default

abbrev client : SessionInner flume dash_map
client = Session.client flume dash_map no_pipes Config.default

-- A server with the stream 1, whose channel holds one message.
abbrev pub entry_1 : StreamState
entry_1 = record { data_tx = 0; is_read_closed = false }

abbrev pub busy : SessionInner flume dash_map
busy = record {
  shared = record {
    frames = record { items = []; tx = true; rx = true; limit = some 512 };
    pipes =
        update no_pipes 0
          (record { items = (7 ∷ 8 ∷ []) ∷ []; tx = true; rx = true; limit = none });
    state = SessionState.new 4194304;
  };
  streams = λ j. if 1 == j then some entry_1 else none;
  config = Config.default;
  incoming = record { items = []; tx = true; rx = true; limit = some 16 };
  next_stream_id = 2;
  is_client = false;
  fresh_pipe = 1;
}

abbrev pub reader_1 : Stream
reader_1 = Stream.new 1 0 Config.default

abbrev pub data_frame : Frame
data_frame = record { version = 1; cmd = psh; stream_id = 1; payload = 9 ∷ [] }

abbrev syn_frame : Frame
syn_frame = record { version = 1; cmd = syn; stream_id = 3; payload = [] }

abbrev fin_frame : Frame
fin_frame = record { version = 1; cmd = fin; stream_id = 1; payload = [] }

client_third : nth_id flume dash_map 2 client ≡ ok 5
unfolding Session.new next_stream_id allocated
client_third = refl

allocated-accepted_example :
    (validate_peer_stream_id flume dash_map
        (Session.new flume dash_map no_pipes Config.default false)
        5
      ≡ ok tt)
    × (validate_peer_stream_id flume dash_map
          (Session.new flume dash_map no_pipes Config.default true)
          5
        ≡ err (SmuxError.invalid_stream_id 5))
allocated-accepted_example =
    allocated-accepted flume dash_map no_pipes no_pipes Config.default Config.default true 2 5
      (omega arith) client_third

-- A client that has given every id.
abbrev exhausted : SessionInner flume dash_map
exhausted = record busy { next_stream_id = u32_max; is_client = true }

nth_id_wraps_example :
    (nth_id flume dash_map 0 exhausted
      ≡ err (SmuxError.protocol_violation "Stream ID overflow - session should be restarted"))
    × (nth_id flume dash_map 1 exhausted ≡ ok 1)
    × (validate_peer_stream_id flume dash_map busy 0 ≡ err (SmuxError.invalid_stream_id 0))
nth_id_wraps_example = nth_id_wraps flume dash_map exhausted busy (omega arith) (omega arith)

handle_frame-Local_example :
    Local flume dash_map 1 busy (handle_frame flume dash_map data_frame [] busy).1
handle_frame-Local_example = handle_frame-Local flume dash_map data_frame [] busy

abbrev events : List (Event flume dash_map)
events =
    opens
    ∷ frame_in syn_frame []
    ∷ accepts false
    ∷ frame_in data_frame []
    ∷ frame_in fin_frame []
    ∷ []

run-new-IsWf_example :
    IsWf flume dash_map
      (run flume dash_map (Session.new flume dash_map no_pipes Config.default false) events)
run-new-IsWf_example = run-new-IsWf flume dash_map no_pipes Config.default false events

pub busy_positive : is_positive busy.shared.state.tokens ≡ true
unfolding SessionState.new
busy_positive = refl

abbrev no_tokens : SessionState
no_tokens = record {
  closed = false;
  tokens = 0;
  data_received = true;
  die_notified = 0;
  tokens_notified = 0;
}

abbrev leaked : SessionState
leaked = record {
  closed = false;
  tokens = i64_mod - 9;
  data_received = true;
  die_notified = 0;
  tokens_notified = 2;
}

-- Ten tokens are charged, one comes back, ten are charged again and returned at the close.
waits_in_vain : wait_tokens 10 (returned 1 ∷ closing ∷ []) no_tokens ≡ (stop, leaked)
unfolding wait_tokens SessionState.get_tokens SessionState.take_tokens SessionState.return_tokens
waits_in_vain = refl

wait_tokens_leaks_example : (leaked.tokens + 10 * 1) % i64_mod ≡ 1 % i64_mod
wait_tokens_leaks_example =
    wait_tokens_leaks 10 (1 ∷ []) no_tokens leaked (omega arith) waits_in_vain

handle_syn_frame-IsAnswered_example :
    IsAnswered flume dash_map 3 busy (handle_syn_frame flume dash_map syn_frame busy)
handle_syn_frame-IsAnswered_example = handle_syn_frame-IsAnswered flume dash_map syn_frame busy
