-- ===== src/Session.antt =====
-- src/session.rs: what the tasks of a session share, and the allocation and check of stream ids.
-- `shared` holds what the streams see too. `fresh_pipe` numbers the data channels: a new channel
-- gets an address that no other has had. The two ends of a channel are one value of the model.
pub mod Ids
pub mod Table
pub mod Handlers
pub mod Local
pub mod Isolation
pub mod Invariant
pub mod Flow
pub mod Lifecycle
pub mod Syn
pub mod Open
pub mod Tasks
use smux.Base.{ℕ, ◌+◌, ◌%◌, ◌^◌, ◌-◌, List, Bool, true, false, not, ltb, ◌==◌, if◌then◌else◌}
use smux.Error.{Result, ok, err, SmuxError}
use smux.Config.{Config}
use smux.Frame.{Frame}
use smux.Stream.{Stream, Shared}
use smux.SessionState
use smux.Crates.Flume.{Flume}
use smux.Crates.DashMap.{DashMap}

pub record StreamState : Type 0 where
  pub data_tx : ℕ
  pub is_read_closed : Bool

abbrev pub u32_max : ℕ
u32_max = 2 ^ 32 - 1

module _ (F : Flume) (D : DashMap) where
  pub record SessionInner : Type 0 where
    pub shared : Shared F
    pub streams : D.Map StreamState
    pub config : Config
    pub incoming : F.Chan Stream
    pub next_stream_id : ℕ
    pub is_client : Bool
    pub fresh_pipe : ℕ

  -- `Session::new`, up to the start of the three tasks; `pipes` is what memory holds before any
  -- data channel is made.
  unfoldable pub new : (ℕ → F.Chan (List ℕ)) → Config → Bool → SessionInner
  new pipes cfg is_client = record {
    shared = record {
      frames = F.bounded cfg.max_receive_channel_buffer_size;
      pipes = pipes;
      state = SessionState.new cfg.max_receive_buffer;
    };
    streams = D.new;
    config = cfg;
    incoming = F.bounded 16;
    next_stream_id = if is_client then 1 else 2;
    is_client = is_client;
    fresh_pipe = 0;
  }

  -- `Session::client`
  abbrev pub client : (ℕ → F.Chan (List ℕ)) → Config → SessionInner
  client pipes cfg = new pipes cfg true

  -- `Session::server`
  abbrev pub server : (ℕ → F.Chan (List ℕ)) → Config → SessionInner
  server pipes cfg = new pipes cfg false

  -- `SessionInner::next_stream_id`: `fetch_add` wraps, before the test.
  unfoldable pub next_stream_id : SessionInner → Result ℕ × SessionInner
  next_stream_id inner = (
    if ltb (u32_max - 2) inner.next_stream_id
        then err (SmuxError.protocol_violation "Stream ID overflow - session should be restarted")
        else ok inner.next_stream_id,
    record inner { next_stream_id = (inner.next_stream_id + 2) % 2 ^ 32 },
  )

  unfoldable pub validate_peer_stream_id : SessionInner → ℕ → Result (Unit {0})
  validate_peer_stream_id inner stream_id =
      let expected_parity : ℕ = if inner.is_client then 0 else 1 in
      if stream_id == 0
      then err (SmuxError.invalid_stream_id stream_id)
      else if not (stream_id % 2 == expected_parity)
      then err (SmuxError.invalid_stream_id stream_id)
      else ok tt

  -- `Session::close`
  unfoldable pub close : SessionInner → SessionInner
  close inner = record inner {
    shared = record (inner.shared) { state = SessionState.close inner.shared.state };
  }

  -- `Session::is_closed`
  abbrev pub is_closed : SessionInner → Bool
  is_closed inner = inner.shared.state.closed
