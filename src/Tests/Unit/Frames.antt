-- ===== src/Tests/Unit/Frames.antt =====
-- src/frame.rs: its unit tests.
use smux.Base.{◌≡◌, refl, true, false, some, none, [], ◌∷◌, ◌+◌, replicate, length-replicate, arith}
use smux.Tests.Unit.{is_ok, is_err, hello}
use smux.Command.{syn, fin, psh, nop, upd}
use smux.Command
use smux.Config.{Config, default}
use smux.Frame
use smux.Frame.{
  Frame, header_size, new_syn, new_fin, new_psh, new_nop, new_upd, total_size, data_len, is_empty,
  validate, is_nil,
}
use smux.Base.{ℕ, List}

-- "test", "data" and "invalid"
abbrev test_bytes : List ℕ
test_bytes = b't' ∷ b'e' ∷ b's' ∷ b't' ∷ []

abbrev data_bytes : List ℕ
data_bytes = b'd' ∷ b'a' ∷ b't' ∷ b'a' ∷ []

abbrev invalid_bytes : List ℕ
invalid_bytes = b'i' ∷ b'n' ∷ b'v' ∷ b'a' ∷ b'l' ∷ b'i' ∷ b'd' ∷ []

abbrev TestFrameCreation : Type 0
TestFrameCreation =
    let frame = Frame.new 1 psh 123 hello in
    (frame.version ≡ 1) × (frame.cmd ≡ psh) × (frame.stream_id ≡ 123) × (frame.payload ≡ hello)

TestFrameCreation_passes : TestFrameCreation
unfolding Frame.new
TestFrameCreation_passes = (refl, refl, refl, refl)

abbrev TestFrameConstructors : Type 0
TestFrameConstructors =
    let syn_frame = new_syn 1 123 in
    let fin_frame = new_fin 1 123 in
    let psh_frame = new_psh 1 123 test_bytes in
    let nop_frame = new_nop 1 in
    let upd_frame = new_upd 2 123 100 200 in
    (syn_frame.cmd ≡ syn)
    × (syn_frame.stream_id ≡ 123)
    × (is_nil syn_frame.payload ≡ true)
    × (fin_frame.cmd ≡ fin)
    × (fin_frame.stream_id ≡ 123)
    × (is_nil fin_frame.payload ≡ true)
    × (psh_frame.cmd ≡ psh)
    × (psh_frame.stream_id ≡ 123)
    × (psh_frame.payload ≡ test_bytes)
    × (nop_frame.cmd ≡ nop)
    × (nop_frame.stream_id ≡ 0)
    × (is_nil nop_frame.payload ≡ true)
    × (upd_frame.cmd ≡ upd 100 200)
    × (upd_frame.stream_id ≡ 123)
    × (is_nil upd_frame.payload ≡ true)

TestFrameConstructors_passes : TestFrameConstructors
unfolding new_syn new_fin new_psh new_nop new_upd
TestFrameConstructors_passes =
    (refl, refl, refl, refl, refl, refl, refl, refl, refl, refl, refl, refl, refl, refl, refl)

abbrev TestFrameSizeCalculation : Type 0
TestFrameSizeCalculation =
    let empty_frame = new_syn 1 123 in
    let data_frame = new_psh 1 123 hello in
    (total_size empty_frame ≡ header_size)
    × (data_len empty_frame ≡ 0)
    × (is_empty empty_frame ≡ true)
    × (total_size data_frame ≡ header_size + 5)
    × (data_len data_frame ≡ 5)
    × (is_empty data_frame ≡ false)

TestFrameSizeCalculation_passes : TestFrameSizeCalculation
unfolding new_syn new_psh total_size data_len is_empty
TestFrameSizeCalculation_passes = (refl, refl, refl, refl, refl, refl)

abbrev TestFrameValidation : Type 0
TestFrameValidation =
    (is_ok (validate (new_syn 1 123) default) ≡ true)
    × (is_ok (validate (new_psh 1 123 data_bytes) default) ≡ true)
    × (is_ok (validate (new_nop 1) default) ≡ true)
    × (is_err (validate (Frame.new 0 syn 123 []) default) ≡ true)
    × (is_err (validate (new_upd 1 123 100 200) default) ≡ true)
    × (is_ok (validate (new_upd 2 123 100 200) default) ≡ true)

TestFrameValidation_passes : TestFrameValidation
unfolding Frame.new new_syn new_fin new_psh new_nop new_upd validate
TestFrameValidation_passes = (refl, refl, refl, refl, refl, refl)

abbrev TestFrameSizeValidation : Type 0
TestFrameSizeValidation =
    let config : Config = record default { max_frame_size = 100 } in
    (is_err (validate (new_psh 1 123 (replicate 200 0)) config) ≡ true)
    × (is_ok (validate (new_psh 1 123 (replicate 50 0)) config) ≡ true)

TestFrameSizeValidation_passes : TestFrameSizeValidation
unfolding Frame.new new_syn new_fin new_psh new_nop new_upd validate total_size
TestFrameSizeValidation_passes =
    (ground (arith, length-replicate {A = ℕ} 200 0), ground (arith, length-replicate {A = ℕ} 50 0))

abbrev TestControlFramesWithData : Type 0
TestControlFramesWithData =
    (is_err (validate (Frame.new 1 syn 123 invalid_bytes) default) ≡ true)
    × (is_err (validate (Frame.new 1 fin 123 invalid_bytes) default) ≡ true)
    × (is_err (validate (Frame.new 1 nop 0 invalid_bytes) default) ≡ true)
    × (is_err (validate (Frame.new 2 (upd 0 0) 123 invalid_bytes) default) ≡ true)

TestControlFramesWithData_passes : TestControlFramesWithData
unfolding Frame.new new_syn new_fin new_psh new_nop new_upd validate
TestControlFramesWithData_passes = (refl, refl, refl, refl)

abbrev TestStreamIdValidation : Type 0
TestStreamIdValidation =
    (is_err (validate (Frame.new 1 nop 123 []) default) ≡ true)
    × (is_err (validate (Frame.new 1 syn 0 []) default) ≡ true)
    × (is_err (validate (Frame.new 1 psh 0 data_bytes) default) ≡ true)

TestStreamIdValidation_passes : TestStreamIdValidation
unfolding Frame.new new_syn new_fin new_psh new_nop new_upd validate
TestStreamIdValidation_passes = (refl, refl, refl)

abbrev TestUpdFrameValues : Type 0
TestUpdFrameValues =
    let upd_frame = new_upd 2 123 100 200 in
    let syn_frame = new_syn 1 123 in
    (Frame.consumed upd_frame ≡ some 100)
    × (Frame.window upd_frame ≡ some 200)
    × (Frame.consumed syn_frame ≡ none)
    × (Frame.window syn_frame ≡ none)

TestUpdFrameValues_passes : TestUpdFrameValues
unfolding new_upd new_syn Frame.consumed Frame.window Command.consumed Command.window
TestUpdFrameValues_passes = (refl, refl, refl, refl)
