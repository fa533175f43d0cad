-- ===== src/Stream/Cancel.antt =====
-- src/stream.rs: the future of `close`, dropped at its await.
use smux.Base.{◌≡◌, true, false, arith}
use smux.Error.{ok}
use smux.Frame.{new_fin}
use smux.Stream.{Stream, Shared, ready, done, waiting, send_fin, close, poll_shutdown, drop_stream}
use smux.Crates.Flume.{Flume}

module _ (F : Flume) where
  -- Where the frame channel has no room, a first `close` waits, with the write side marked as closed
  -- and no FIN frame sent. If the owner gives up waiting, no later `close`, shutdown or drop of the
  -- stream sends one, whatever the session's state and channels are then.
  pub close_loses_fin :
      (s : Stream) (w later : Shared F)
      → s.is_write_closed ≡ false
      → F.receiving w.frames ≡ true
      → F.has_room w.frames ≡ false
      → let (r, s', w') = close F s w in
        (r ≡ waiting)
        × (F.queue w'.frames ≡ F.queue w.frames)
        × (close F s' later ≡ (done (ok tt), s', later))
        × (poll_shutdown F s' later ≡ (ready tt, s', later))
        × ((drop_stream F s' later).frames ≡ later.frames)
  unfolding close send_fin poll_shutdown drop_stream
  close_loses_fin s w later still listens no_room =
      ground (arith, F.try_send_lem w.frames (new_fin 1 s.stream_id))
