-- ===== src/Link/Progress.antt =====
-- src/stream.rs, src/session.rs and src/codec.rs at work together: a written byte can be read.
use smux.Base.{
  ℕ, ◌+◌, ◌-◌, ◌%◌, ◌≤◌, ◌<◌, ◌≡◌, refl, sym, ap, ◌∙◌, subst, true, false, some, List, [], ◌∷◌,
  ◌++◌, length, take, drop, min, take_all, append-nil, length-take, arith, ltb-false,
}
use smux.Error.{Result, ok}
use smux.Command.{psh}
use smux.Config.{Config}
use smux.Frame
use smux.Frame.{Frame, header_size, new_psh}
use smux.Frame.Valid.{IsValidFrame}
use smux.Codec
use smux.Codec.{Codec, encode, decode}
use smux.Codec.Wire.{wire}
use smux.Codec.RoundTrip.{IsTyped, IsU32, encode_lem, decode-wire}
use smux.Codec.Sequence.{encode_all}
use smux.Stream.{poll_read}
use smux.Stream.Write.{CanWrite, poll_write_lem}
use smux.SessionState.{is_positive, i64_mod}
use smux.Session.{SessionInner}
use smux.Session.Tasks.{RecvTask, frame_in, send_loop, polled}
use smux.Session.Tasks.Send.{send_loop-encode_all}
use smux.Link.{
  Link, Label, wrote, got, silent, Run, start, then_move, Move, writes, sends, carries, decodes,
  reads, write_label, read_label, write_step, send_step, receive_step, read_step,
}
use smux.Link.Refine.{IsFresh}
use smux.Link.Feeding.{recv_step-fed, read-fed}
use smux.Crates.Bytes.{BytesCrate}
use smux.Crates.Flume.{Flume}
use smux.Crates.DashMap.{DashMap}

module _ (F : Flume) (D : DashMap) (B : BytesCrate) (cfg : Config) (i : ℕ) where
  -- The writer's session takes one more frame, the reader's one has tokens left, and both are open.
  pub record CanCarry (l : Link F D) : Type 0 where
    pub can_write : CanWrite F l.writer l.sender.shared
    pub has_data : header_size < l.writer.config.max_frame_size
    pub fits : l.writer.config.max_frame_size ≤ cfg.max_frame_size
    pub no_frames : F.queue l.sender.shared.frames ≡ []
    pub none_arrived : l.arrived ≡ []
    pub none_in_transit : l.transit ≡ []
    pub reader_open : l.receiver.shared.state.closed ≡ false
    pub tokens_left : is_positive l.receiver.shared.state.tokens ≡ true
    pub tokens_i64 : l.receiver.shared.state.tokens < i64_mod
    pub has_reader : l.has_reader ≡ true

  -- The bytes that a write of the buffer takes.
  abbrev pub taken : Link F D → List ℕ → List ℕ
  taken l buf = take (min (length buf) (l.writer.config.max_frame_size - header_size)) buf

  encode_psh :
      (bytes : List ℕ)
      → cfg.max_frame_size ≤ 65543
      → IsU32 i
      → 0 < i
      → header_size + length bytes ≤ cfg.max_frame_size
      → let f = new_psh 1 i bytes in
        (encode_all B (Codec.new cfg) (f ∷ []) [] ≡ (ok tt, wire f))
        × (decode B (Codec.new cfg) (wire f) ≡ (ok (some f), []))
  unfolding new_psh Frame.new Codec.new encode_all
  encode_psh bytes small u32 pos short =
      let f : Frame = record { version = 1; cmd = psh; stream_id = i; payload = bytes } in
      let typed : IsTyped f = record { version_u8 = omega arith; id_u32 = u32; cmd_u32 = tt } in
      let valid : IsValidFrame cfg.max_frame_size f = record {
        has_version = omega arith;
        fits = short;
        shaped = pos;
      } in
      let len = length bytes in
      let low : len % 65536 ≡ len = omega arith in
      let encoded : encode B (Codec.new cfg) f [] ≡ (ok tt, wire f) =
        encode_lem B (Codec.new cfg) f [] (omega arith) valid
        ∙ rw (low, ltb-false cfg.max_frame_size (header_size + len) short) refl in
      (
        rw (encode_all, encoded) (ap (λ (r : Result (Unit {0}) × List ℕ). (ok tt, r.1)) encoded),
        ap (decode B (Codec.new cfg)) (sym (append-nil (wire f)))
            ∙ decode-wire B (Codec.new cfg) f [] typed valid short (omega arith),
      )

  then_seen :
      (l m m' : Link F D) (ls : List Label) (label label' : Label)
      → label ≡ label'
      → Run F D B cfg i l ls m
      → Move F D B cfg i m label m'
      → Run F D B cfg i l (label' ∷ ls) m'
  then_seen l m m' ls label label' e run move =
      then_move run (subst (λ x. Move F D B cfg i m x m') e move)

  -- A stream `i`, a u32 and not 0, starts with nothing written; frames are at most as large as their
  -- length field can say; the writer's session has room for a frame and no other frame to send, a
  -- frame has room for data and may be as large for the sessions as for the stream; the transport is
  -- empty; the reader's session is open, has its receive tokens, and its reader the stream. Then for
  -- each buffer that is not empty there are five moves, a write, a round of `send_loop`, a delivery of
  -- the transport, a round of `recv_loop` and a read, of which the write takes the buffer's first
  -- bytes, at least one, and the read, with room for them, gets them all.
  pub link_delivers :
      (l : Link F D) (buf : List ℕ) (n : ℕ)
      → cfg.max_frame_size ≤ 65543
      → IsU32 i
      → 0 < i
      → IsFresh F D i l
      → CanCarry l
      → 0 < length buf
      → length (taken l buf) ≤ n
      → (0 < length (taken l buf))
        × ((m : Link F D) × Run F D B cfg i l
              (got (taken l buf) ∷ silent ∷ silent ∷ silent ∷ wrote (taken l buf) ∷ [])
              m)
  link_delivers l buf n small u32 nonzero h c pos room =
      let bytes = taken l buf in
      let f = new_psh 1 i bytes in
      let k = min (length buf) (l.writer.config.max_frame_size - header_size) in
      let size : length bytes ≡ k = omega (arith, length-take k buf) in
      let some_taken : 0 < length bytes = omega (arith, size, pos, c.has_data) in
      let (answer, queued) = poll_write_lem F l.writer l.sender.shared buf c.can_write pos in
      let l1 = (write_step F D B cfg l buf).1 in
      let queue1 : F.queue l1.sender.shared.frames ≡ f ∷ [] =
        queued
        ∙ ap (λ (q : List Frame). q ++ (new_psh 1 l.writer.stream_id bytes ∷ [])) c.no_frames
        ∙ ap (λ j. new_psh 1 j bytes ∷ []) h.same_id in
      let (encoded, decoded) =
        encode_psh bytes small u32 nonzero (omega (arith, size, c.fits, c.has_data)) in
      let (waits, written, _, _, _, _) =
        send_loop-encode_all B F D (Codec.new cfg) (f ∷ []) l1.sender [] (wire f) queue1 encoded in
      let l2 = (send_step F D B cfg l1).1 in
      let sent : l2.transit ≡ wire f =
        ap
          (λ (t : List ℕ). t ++ (send_loop F D B (Codec.new cfg) l1.sender [] (polled true ∷ [])).2)
          c.none_in_transit
        ∙ written in
      let all = length (wire f) in
      let l3 : Link F D = record l2 {
        transit = drop all l2.transit;
        arrived = l2.arrived ++ take all l2.transit;
      } in
      let arrived : l3.arrived ≡ wire f =
        ap (λ (a : List ℕ). a ++ take all l2.transit) c.none_arrived
        ∙ ap (take all) sent
        ∙ take_all (wire f) in
      let l4 = receive_step F D B cfg (record l3 { arrived = [] }) (frame_in f) in
      let in_channel =
        recv_step-fed F D B i l.reader l.receiver l.recv bytes h.known h.readable h.at_select
          c.tokens_left some_taken in
      let seen : (read_step F D B cfg l4 n).0 ≡ got bytes =
        ap
          (λ (r : RecvTask × SessionInner F D).
            let p = poll_read F B l.reader r.1.shared n in read_label p.0 p.1)
          in_channel
        ∙ read-fed F D B i l.reader l.receiver bytes n h.known h.readable h.nothing_to_read
            c.reader_open c.tokens_i64 some_taken room in
      (
        some_taken,
        (
          _,
          then_seen l l4 _ _ _ (got bytes) seen
              (then_move
                (then_move
                  (then_move
                    (then_seen l l _ [] _ (wrote bytes) (ap (λ p. write_label p buf) answer) start
                      (writes buf h.free))
                    (sends h.sends_yet waits))
                  (carries all))
                (decodes f [] h.at_select (ap (decode B (Codec.new cfg)) arrived ∙ decoded)))
              (reads n (omega (arith, some_taken, room)) c.has_reader),
        ),
      )
