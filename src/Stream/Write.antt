-- ===== src/Stream/Write.antt =====
-- src/stream.rs: `poll_write`.
use smux.Base.{
  ℕ, ◌≤◌, ◌<◌, ◌-◌, min, ◌≡◌, List, [], ◌∷◌, ◌++◌, length, take, arith, length-take, true, false,
}
use smux.Config.Valid.{IsValidConfig}
use smux.Frame.{new_psh, header_size}
use smux.Frame.Valid.{IsValidFrame}
use smux.Stream.{Stream, Shared, ready, poll_write}
use smux.Crates.Flume.{Flume}

module _ (F : Flume) where
  -- The stream and the session are open, and the frame channel takes one more frame.
  pub record CanWrite (s : Stream) (w : Shared F) : Type 0 where
    pub write_open : s.is_write_closed ≡ false
    pub session_open : w.state.closed ≡ false
    pub receiver_left : F.receiving w.frames ≡ true
    pub room_left : F.has_room w.frames ≡ true

  pub poll_write_lem :
      (s : Stream) (w : Shared F) (buf : List ℕ)
      → CanWrite s w
      → 0 < length buf
      → let n = min (length buf) (s.config.max_frame_size - header_size) in
        ((poll_write F s w buf).0 ≡ ready n)
        × (F.queue (poll_write F s w buf).1.frames
            ≡ F.queue w.frames ++ (new_psh 1 s.stream_id (take n buf) ∷ []))
  unfolding poll_write
  poll_write_lem s w buf c h =
      let n = min (length buf) (s.config.max_frame_size - header_size) in
      ground (arith, F.try_send_lem w.frames (new_psh 1 s.stream_id (take n buf)))

  -- Where stream and session are open, the stream's id is not 0, the frame channel takes one
  -- more, and `max_frame_size` is above the header's 8 bytes, a write of a buffer that is not
  -- empty sends one data frame and reports its length: at least one byte, the buffer's first
  -- bytes, in a frame that is valid for the configuration.
  pub poll_write_sends :
      (s : Stream) (w : Shared F) (buf : List ℕ)
      → CanWrite s w
      → 0 < length buf
      → 0 < s.stream_id
      → header_size < s.config.max_frame_size
      → (n : ℕ) × ((poll_write F s w buf).0 ≡ ready n)
        × (0 < n)
        × (n ≤ length buf)
        × (F.queue (poll_write F s w buf).1.frames
            ≡ F.queue w.frames ++ (new_psh 1 s.stream_id (take n buf) ∷ []))
        × IsValidFrame s.config.max_frame_size (new_psh 1 s.stream_id (take n buf))
  unfolding new_psh
  poll_write_sends s w buf c h hi hm =
      let n = min (length buf) (s.config.max_frame_size - header_size) in
      let (r, q) = poll_write_lem s w buf c h in
      (
        n,
        r,
        omega arith,
        omega arith,
        q,
        record { has_version = omega arith; fits = omega (arith, length-take n buf); shaped = hi },
      )

  -- With a configuration that `validate` accepts and that has a `max_frame_size` of at most 8,
  -- where stream and session are open and the frame channel takes one more, a write of any buffer
  -- that is not empty reports 0 bytes written, and sends an empty data frame.
  pub poll_write_stalls :
      (s : Stream) (w : Shared F) (buf : List ℕ)
      → CanWrite s w
      → 0 < length buf
      → IsValidConfig s.config
      → s.config.max_frame_size ≤ header_size
      → ((poll_write F s w buf).0 ≡ ready 0)
        × (F.queue (poll_write F s w buf).1.frames
            ≡ F.queue w.frames ++ (new_psh 1 s.stream_id [] ∷ []))
  poll_write_stalls s w buf c h v hm =
      let none_fit : min (length buf) (s.config.max_frame_size - header_size) ≡ 0 = omega arith in
      rw none_fit at (poll_write_lem s w buf c h)
