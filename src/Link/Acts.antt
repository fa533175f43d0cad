-- ===== src/Link/Acts.antt =====
-- src/session.rs and src/stream.rs: the calls of a session's owner, of its other streams' owners and of
-- its keep-alive task, as moves of a link.
pub mod Spared
pub mod Sent
pub mod Moves
use smux.Base.{ℕ, ◌≢◌, ◌<◌, ◌≡◌, Bool, List}
use smux.Codec.RoundTrip.{IsU32}
use smux.Stream
use smux.Stream.{
  Stream, Shared, poll_read, poll_write, poll_flush, poll_shutdown, send_fin, drop_stream,
}
use smux.Session
use smux.Session.{SessionInner}
use smux.Session.Table.{open_stream, send_syn, accept_stream}
use smux.Session.Tasks.{send_ping, check_timeout}
use smux.Crates.Bytes.{BytesCrate}
use smux.Crates.Flume.{Flume}
use smux.Crates.DashMap.{DashMap}

-- A call on a session or on the stream `s` in it, or an event of its keep-alive task.
pub data Act : Type 0 where
  opens closes pings checks : Act
  accepts : Bool → Act
  reads : Stream → ℕ → Act
  writes : Stream → List ℕ → Act
  shuts_down stream_closes sends_fin drops : Stream → Act

-- The stream has another id and another channel; its id is a u32.
pub record IsAnother (i rx : ℕ) (s : Stream) : Type 0 where
  pub id_differs : s.stream_id ≢ i
  pub rx_differs : s.data_rx ≢ rx
  pub id_u32 : IsU32 s.stream_id

-- The call is another stream's than the one with this id and this channel.
abbrev pub IsOther : ℕ → ℕ → Act → Type 0
IsOther i rx (reads s n) = IsAnother i rx s
IsOther i rx (writes s buf) = IsAnother i rx s
IsOther i rx (shuts_down s) = IsAnother i rx s
IsOther i rx (stream_closes s) = IsAnother i rx s
IsOther i rx (sends_fin s) = IsAnother i rx s
IsOther i rx (drops s) = IsAnother i rx s
IsOther i rx opens = Unit {0}
IsOther i rx closes = Unit {0}
IsOther i rx pings = Unit {0}
IsOther i rx checks = Unit {0}
IsOther i rx (accepts notified) = Unit {0}

module _ (B : BytesCrate) (F : Flume) (D : DashMap) where
  -- What the call leaves of the session; the caller keeps its stream.
  unfoldable pub act : SessionInner F D → Act → SessionInner F D
  act inner opens = (open_stream F D inner).1
  act inner closes = Session.close F D inner
  act inner pings = (send_ping F D inner).1
  act inner checks = (check_timeout F D inner).1
  act inner (accepts notified) = (accept_stream F D notified inner).1
  act inner (reads s n) = record inner { shared = (poll_read F B s inner.shared n).3 }
  act inner (writes s buf) = record inner { shared = (poll_write F s inner.shared buf).1 }
  act inner (shuts_down s) = record inner { shared = (poll_shutdown F s inner.shared).2 }
  act inner (stream_closes s) = record inner { shared = (Stream.close F s inner.shared).2 }
  act inner (sends_fin s) = record inner { shared = (send_fin F s inner.shared).1 }
  act inner (drops s) = record inner { shared = drop_stream F s inner.shared }
