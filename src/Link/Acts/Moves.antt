-- ===== src/Link/Acts/Moves.antt =====
-- src/session.rs and src/stream.rs: what the rest of either session's users do is a move of the link.
use smux.Base.{ℕ, ◌≢◌, refl}
use smux.Codec.RoundTrip.{IsU8, IsU32}
use smux.Config.{Config}
use smux.Link.{Link, Move, silent, Move.sender_acts, Move.receiver_acts}
use smux.Link.Sparing.{IsOwn}
use smux.Link.Acts.{Act, IsOther, act}
use smux.Link.Acts.Spared.{act-Spares}
use smux.Link.Acts.Sent.{act-Extends}
use smux.Crates.Bytes.{BytesCrate}
use smux.Crates.Flume.{Flume}
use smux.Crates.DashMap.{DashMap}

module _ (B : BytesCrate) (F : Flume) (D : DashMap) (cfg : Config) where
  -- In either session of a link, a call of the owner (an opening, an acceptance, a close of the
  -- session), an event of the keep-alive task, and every call on a stream with another id and another
  -- channel is a move of the link, one that shows nothing: it leaves the reader's channel and table
  -- entry alone, and puts well-typed frames of other ids alone on the writer's frame channel. The
  -- next id that a session assigns is not that of the stream, which is not 0, and in the writer's
  -- session the next id is a u32 and the version a u8.
  pub act-Move :
      (i : ℕ) (l : Link F D) (a b : Act)
      → i ≢ 0
      → l.sender.next_stream_id ≢ i
      → IsU32 l.sender.next_stream_id
      → IsU8 l.sender.config.version
      → IsOther i l.writer.data_rx a
      → l.receiver.next_stream_id ≢ i
      → IsOwn F D i l.reader l.receiver
      → IsOther i l.reader.data_rx b
      → Move F D B cfg i l silent (record l { sender = act B F D l.sender a })
        × Move F D B cfg i l silent (record l { receiver = act B F D l.receiver b })
  act-Move i l a b nz ne h v other ne' own other' =
      let p = act-Extends F i B D l.writer.data_rx l.sender a nz ne h v other in
      (
        sender_acts (act B F D l.sender a) l.writer p.added p.behind p.apart p.typed refl refl,
        receiver_acts (act B F D l.receiver b) l.reader
            (act-Spares B F D i l.reader l.receiver b own ne' other') refl refl refl,
      )
