-- ===== src/Stream/Handle.antt =====
-- src/stream.rs: a stream in its owner's hands, any sequence of its calls, and the frames that they
-- put on the session's frame channel.
pub mod Trail
pub mod Sends
pub mod ReadClosed
use smux.Base.{
  ℕ, zero, suc, ◌+◌, ◌*◌, ◌/◌, ◌%◌, ◌^◌, ◌≤◌, ◌<◌, ◌-◌, min, ◌≡◌, ◌≢◌, ◌⊎◌, ◌↔◌, refl, List, [],
  ◌∷◌, ◌++◌, append_assoc, append-nil, length, take, drop, arith, not, All, take-append,
  drop-append, take-append-drop, length-take, length-drop, take_all, drop_all, sym, ap, subst, ◌∙◌,
  true, false, Bool, ◌&&◌, length-append, ltb, leb, le→leb, lt→ltb, ltb-false, ltb-false→le, ltb→lt,
  leb→le, if◌then◌else◌, Option, none, some, Bool-cases, Option-cases, inl, inr, ◌==◌,
}
use smux.Error.{Result, Result-cases, ok, err, SmuxError, ◌>>=◌, ◌>>◌, is_recoverable}
use smux.Frame.{Frame, new_psh, new_fin, header_size}
use smux.Stream.{
  Stream, Shared, Poll, ready, failed, pending, Async, done, waiting, poll_read, poll_write,
  poll_flush, poll_shutdown, send_fin, close, session_is_closed, stream_is_closed, read_chunk,
  read_channel, read_received, is_stream_closed,
}
use smux.SessionState.{is_closed}
use smux.Crates.Bytes.{BytesCrate}
use smux.Crates.Flume.{Flume, TrySend, sent, full, no_receiver, received, empty, no_sender}

-- The owner's calls. `resumed` polls the future of a `close` again that waited; any other call
-- means that this future was dropped.
pub data Call : Type 0 where
  reads : ℕ → Call
  writes : List ℕ → Call
  flushes shuts_down closes resumed : Call

-- A stream, and whether a future of its `close` waits for room in the frame channel.
pub record Handle : Type 0 where
  pub stream : Stream
  pub closing : Bool

abbrev is_waiting : {A : Type 0} → Async A → Bool
is_waiting (done a) = false
is_waiting waiting = true

module _ (B : BytesCrate) (F : Flume) where
  pub step : Handle → Shared F → Call → Handle × Shared F
  step h w (reads n) =
      let (p, bytes, s, w') = poll_read F B h.stream w n in
      (record { stream = s; closing = false }, w')
  step h w (writes buf) = (record h { closing = false }, (poll_write F h.stream w buf).1)
  step h w flushes = (record h { closing = false }, (poll_flush F h.stream w).1)
  step h w shuts_down =
      let (p, s, w') = poll_shutdown F h.stream w in (record { stream = s; closing = false }, w')
  step h w closes =
      let (r, s, w') = close F h.stream w in (record { stream = s; closing = is_waiting r }, w')
  step h w resumed =
      let (r, w') = send_fin F h.stream w in
      if h.closing then (record h { closing = is_waiting r }, w') else (h, w)

  pub run : Handle → Shared F → List Call → Handle × Shared F
  run h w [] = (h, w)
  run h w (c ∷ cs) = let (h', w') = step h w c in run h' w' cs
