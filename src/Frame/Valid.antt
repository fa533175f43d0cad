-- ===== src/Frame/Valid.antt =====
-- src/frame.rs: `validate` against the rules that a frame must obey.
use smux.Base.{ℕ, ◌≤◌, ◌<◌, ◌≡◌, ◌↔◌, [], length, arith, ◌+◌}
use smux.Error.{ok}
use smux.Command.{Command, syn, fin, psh, nop, upd}
use smux.Config.{Config}
use smux.Frame.{Frame, validate, header_size}

-- Which payload and stream id each command may have, and from which version on it exists.
abbrev pub IsShaped : Command → Frame → Type 0
IsShaped syn f = (f.payload ≡ []) × (0 < f.stream_id)
IsShaped fin f = (f.payload ≡ []) × (0 < f.stream_id)
IsShaped psh f = 0 < f.stream_id
IsShaped nop f = (f.payload ≡ []) × (f.stream_id ≡ 0)
IsShaped (upd c w) f = (f.payload ≡ []) × (0 < f.stream_id) × (2 ≤ f.version)

-- A frame that the protocol allows, at most `size` bytes on the wire.
pub record IsValidFrame (size : ℕ) (f : Frame) : Type 0 where
  pub has_version : 0 < f.version
  pub fits : header_size + length f.payload ≤ size
  pub shaped : IsShaped f.cmd f

-- `validate` accepts exactly the frames whose version is not 0, and 2 or more for an update,
-- which fit into `max_frame_size` with their header, which have a payload only if they are data
-- frames, and whose stream id is 0 for a NOP frame and for no other.
pub validate_iff :
    (f : Frame) (cfg : Config) → (validate f cfg ≡ ok tt) ↔ IsValidFrame cfg.max_frame_size f
unfolding validate
validate_iff f cfg = (λ h. ground arith, λ h. ground arith)
