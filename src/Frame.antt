-- ===== src/Frame.antt =====
-- src/frame.rs: a frame, its constructors and its check. The source's field `data` is `payload`,
-- the list of its bytes.
pub mod Valid
use smux.Base.{
  ℕ, ◌+◌, Bool, true, false, not, ◌&&◌, Option, List, [], ◌∷◌, length, ltb, ◌==◌, if◌then◌else◌,
}
use smux.Error.{Result, ok, err, SmuxError, ◌>>=◌, ◌>>◌}
use smux.Command.{Command, syn, fin, psh, nop, upd, is_control, requires_v2}
use smux.Command
use smux.Config.{Config}

abbrev pub header_size : ℕ
header_size = 8

pub record Frame : Type 0 where
  pub version : ℕ
  pub cmd : Command
  pub stream_id : ℕ
  pub payload : List ℕ

-- `Frame::new`
unfoldable pub new : ℕ → Command → ℕ → List ℕ → Frame
new v c i bytes = record { version = v; cmd = c; stream_id = i; payload = bytes }

unfoldable pub new_syn : ℕ → ℕ → Frame
unfolding new
new_syn v i = new v syn i []

unfoldable pub new_fin : ℕ → ℕ → Frame
unfolding new
new_fin v i = new v fin i []

unfoldable pub new_psh : ℕ → ℕ → List ℕ → Frame
unfolding new
new_psh v i bytes = new v psh i bytes

unfoldable pub new_nop : ℕ → Frame
unfolding new
new_nop v = new v nop 0 []

unfoldable pub new_upd : ℕ → ℕ → ℕ → ℕ → Frame
unfolding new
new_upd v i c w = new v (upd c w) i []

unfoldable pub total_size : Frame → ℕ
total_size f = header_size + length f.payload

unfoldable pub data_len : Frame → ℕ
data_len f = length f.payload

abbrev pub is_nil : List ℕ → Bool
is_nil [] = true
is_nil (b ∷ bs) = false

unfoldable pub is_empty : Frame → Bool
is_empty f = is_nil f.payload

-- The stream id that a command may carry: 0 for a NOP frame, not 0 for the others.
unfoldable pub validate_id : Command → ℕ → Result (Unit {0})
validate_id nop i = if i == 0 then ok tt else err (SmuxError.invalid_stream_id i)
validate_id _ i = if i == 0 then err (SmuxError.invalid_stream_id i) else ok tt

unfoldable pub validate_stream_id : Frame → Result (Unit {0})
unfolding validate_id
validate_stream_id f = validate_id f.cmd f.stream_id

-- `Frame::validate`, its tests in the source's order.
unfoldable pub validate : Frame → Config → Result (Unit {0})
unfolding validate_stream_id requires_v2 is_control total_size
validate f cfg =
    if f.version == 0
    then err (SmuxError.invalid_protocol f.version)
    else if requires_v2 f.cmd && ltb f.version 2
    then err (SmuxError.protocol_violation "UPD command requires protocol version 2")
    else if ltb cfg.max_frame_size (total_size f)
    then err (SmuxError.frame_too_large (total_size f) cfg.max_frame_size)
    else if is_control f.cmd && not (is_nil f.payload)
    then err (SmuxError.protocol_violation "Control frames cannot carry data")
    else validate_stream_id f

unfoldable pub consumed : Frame → Option ℕ
consumed f = Command.consumed f.cmd

unfoldable pub window : Frame → Option ℕ
window f = Command.window f.cmd
