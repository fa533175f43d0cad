-- ===== src/Link/Delivery.antt =====
-- The moves of the transport, of the receiving task and of the reader are steps of the pipe.
use smux.Base.{
  Bool, ℕ, ◌<◌, ◌≡◌, inl, inr, refl, sym, ap, ◌∙◌, subst, true, false, some, List, [], ◌∷◌, ◌++◌,
  append_assoc, take, drop, take-append-drop, All, arith,
}
use smux.Error.{ok}
use smux.Config.{Config}
use smux.Frame.{Frame}
use smux.Codec
use smux.Codec.{Codec, decode}
use smux.Codec.Wire.{decode_short}
use smux.Stream.{poll_read}
use smux.Stream.Read.{unread}
use smux.Session.Tasks.{RecvTask, receiving, frame_in, recv_step}
use smux.Session.Tasks.Demux.{bytes_for}
use smux.Link.{
  Hold, kept, closing, dropped, is_finished, Link, got, saw_end, silent, receive_step, read_step,
}
use smux.Link.Flight.{bytes_for-apart}
use smux.Link.Carried.{IsCarried, decode_first}
use smux.Link.Pipe.{Pipe, hand_over, end, rest}
use smux.Link.Reading.{Reads, poll_read-Reads}
use smux.Link.Handling.{held_frames}
use smux.Link.Sharing.{IsAside-rx}
use smux.Link.Sim.{is_last, Sim, flight, wires}
use smux.Link.Steps.{Simulates, labelled}
use smux.Link.Taking.{Handled-Sim, frame-Handled}
use smux.Crates.Bytes.{BytesCrate}
use smux.Crates.Flume.{Flume}
use smux.Crates.DashMap.{DashMap}

no_prefix : (xs ys : List ℕ) → xs ++ ys ≡ [] → xs ≡ []
no_prefix [] ys e = refl
no_prefix (x ∷ xs) ys e = absurd (cc e)

last-finished : (h : Hold) (c : Bool) → is_last h c ≡ true → is_finished h c ≡ true
last-finished kept c e = e
last-finished closing c e = absurd (cc e)
last-finished dropped c e = refl

module _ (F : Flume) (D : DashMap) (B : BytesCrate) (cfg : Config) (i : ℕ) where
  pub carries-Simulates :
      (l : Link F D) (p : Pipe) (k : ℕ)
      → Sim F D cfg i l p
      → Simulates F D B cfg i p silent
          (record l { transit = drop k l.transit; arrived = l.arrived ++ take k l.transit })
  carries-Simulates l p k s = (
    p,
    rest,
    record {
      sent_frames = s.sent_frames;
      unsent = s.unsent;
      lost = s.lost;
      in_channel = s.in_channel;
      holding = s.holding;
      on_wire =
          append_assoc l.arrived (take k l.transit) (drop k l.transit ++ s.lost)
          ∙ ap (λ (b : List ℕ). l.arrived ++ b)
              (sym (append_assoc (take k l.transit) (drop k l.transit) s.lost)
                ∙ ap (λ (b : List ℕ). b ++ s.lost) (take-append-drop k l.transit))
          ∙ s.on_wire;
      carried = s.carried;
      typed = s.typed;
      ordered = s.ordered;
      buffer = s.buffer;
      finished = s.finished;
      own = s.own;
      readable = s.readable;
      aside = s.aside;
      status = s.status;
      own_id = s.own_id;
    },
  )

  -- The frame that the decoder finds is the first of those that the transport was given.
  decoded-Sim :
      (l : Link F D) (p : Pipe) (f : Frame) (left : List ℕ) (fs : List Frame)
      (s : Sim F D cfg i l p)
      → s.sent_frames ≡ fs
      → l.recv ≡ receiving
      → decode B (Codec.new cfg) l.arrived ≡ (ok (some f), left)
      → Sim F D cfg i (receive_step F D B cfg (record l { arrived = left }) (frame_in f)) p
  unfolding Codec.new
  decoded-Sim l p f left [] s none_sent at_select found =
      let nothing : l.arrived ≡ [] =
        no_prefix l.arrived (l.transit ++ s.lost) (s.on_wire ∙ ap wires none_sent) in
      absurd (
        cc (
          sym found
          ∙ ap (decode B (Codec.new cfg)) nothing
          ∙ decode_short B (Codec.new cfg) [] (omega arith)))
  decoded-Sim l p f left (g ∷ gs) s first_sent at_select found =
      let carried : All (IsCarried cfg) (g ∷ gs) =
        subst (All (IsCarried cfg)) first_sent s.carried in
      let (same, on_wire) =
        decode_first B cfg g f l.arrived (l.transit ++ s.lost) (wires gs) left carried.0
          (s.on_wire ∙ ap wires first_sent) found in
      let later = gs ++ s.unsent in
      let first : flight F D cfg i l s.sent_frames s.unsent ≡ f ∷ later =
        ap (λ (r : RecvTask). held_frames r ++ (s.sent_frames ++ s.unsent)) at_select
        ∙ ap (λ (g : List Frame). g ++ s.unsent) first_sent
        ∙ ap (λ (x : Frame). x ∷ later) (sym same) in
      subst
        (λ (r : RecvTask).
          Sim F D cfg i
            (record l {
              arrived = left;
              recv = (recv_step F D r l.receiver (frame_in f)).0;
              receiver = (recv_step F D r l.receiver (frame_in f)).1;
            })
            p)
        (sym at_select)
        (Handled-Sim F D cfg i l p f later gs left (recv_step F D receiving l.receiver (frame_in f))
          s first refl on_wire carried.1 (frame-Handled F D cfg i l p f later s first))

  pub decodes-Simulates :
      (l : Link F D) (p : Pipe) (f : Frame) (left : List ℕ)
      → l.recv ≡ receiving
      → decode B (Codec.new cfg) l.arrived ≡ (ok (some f), left)
      → Sim F D cfg i l p
      → Simulates F D B cfg i p silent
          (receive_step F D B cfg (record l { arrived = left }) (frame_in f))
  decodes-Simulates l p f left at_select found s =
      (p, rest, decoded-Sim l p f left s.sent_frames s refl at_select found)

  read-Sim :
      (l : Link F D) (p q : Pipe) (n : ℕ) (s : Sim F D cfg i l p)
      → Reads B F l.reader l.receiver.shared (poll_read F B l.reader l.receiver.shared n)
      → q.buffer
        ≡ unread F (read_step F D B cfg l n).1.reader (read_step F D B cfg l n).1.receiver.shared
          ++ bytes_for i (flight F D cfg i l s.sent_frames s.unsent)
      → q.finished ≡ p.finished
      → Sim F D cfg i (read_step F D B cfg l n).1 q
  read-Sim l p q n s h buffer finished =
      let l' = (read_step F D B cfg l n).1 in
      let pipe : F.sending (l'.receiver.shared.pipes l'.reader.data_rx)
          ≡ F.sending (l.receiver.shared.pipes l.reader.data_rx) =
        ap (λ x. F.sending (l'.receiver.shared.pipes x)) h.same_rx ∙ h.same_sending in
      record {
        sent_frames = s.sent_frames;
        unsent = s.unsent;
        lost = s.lost;
        in_channel = s.in_channel;
        holding = s.holding;
        on_wire = s.on_wire;
        carried = s.carried;
        typed = s.typed;
        ordered = s.ordered;
        buffer = buffer;
        finished = finished ∙ s.finished;
        own = record {
          made = omega (arith, h.same_rx, s.own.made);
          owner = λ j st e same. s.own.owner j st e (same ∙ h.same_rx);
        };
        readable = h.readable;
        aside = IsAside-rx i l.reader l'.reader l.recv h.same_rx s.aside;
        status = elim s.status [
          | inl o ↦ inl (record {
            known = (o.known.0, o.known.1, o.known.2 ∙ sym h.same_rx);
            sender_left = pipe ∙ o.sender_left;
          })
          | inr (ended, closed, apart) ↦ inr (pipe ∙ ended, closed, apart)
        ];
        own_id = s.own_id;
      }

  -- The end is seen with nothing on the way.
  pub nothing_left :
      (l : Link F D) (p : Pipe) (s : Sim F D cfg i l p)
      → F.sending (l.receiver.shared.pipes l.reader.data_rx) ≡ false
      → (p.finished ≡ true) × (bytes_for i (flight F D cfg i l s.sent_frames s.unsent) ≡ [])
  nothing_left l p s ended = elim s.status [
    | inl o ↦ absurd (cc (sym ended ∙ o.sender_left))
    | inr (_, last, apart) ↦
        (s.finished ∙ last-finished l.hold l.writer.is_write_closed last, bytes_for-apart i _ apart)
  ]

  pub read-Simulates :
      (l : Link F D) (p : Pipe) (n : ℕ)
      → 0 < n
      → l.receiver.shared.state.closed ≡ false
      → Sim F D cfg i l p
      → Simulates F D B cfg i p (read_step F D B cfg l n).0 (read_step F D B cfg l n).1
  read-Simulates l p n pos still_open s =
      let r = poll_read F B l.reader l.receiver.shared n in
      let h = poll_read-Reads B F l.reader l.receiver.shared n pos still_open s.readable in
      let on_way = bytes_for i (flight F D cfg i l s.sent_frames s.unsent) in
      let left = unread F r.2 r.3 in
      let split : p.buffer ≡ r.1 ++ (left ++ on_way) =
        s.buffer
        ∙ ap (λ (b : List ℕ). b ++ on_way) (sym h.conserved)
        ∙ append_assoc r.1 left on_way in
      elim h.seen [
        | inl (label, no_bytes) ↦ labelled F D B cfg i p _ silent _ label (
          p,
          rest,
          read-Sim l p p n s h (split ∙ ap (λ (b : List ℕ). b ++ (left ++ on_way)) no_bytes) refl,
        )
        | inr (inl (label, no_bytes, none_before, ended)) ↦
            let (finished, none_coming) = nothing_left l p s ended in
            labelled F D B cfg i p _ saw_end _ label (
              p,
              end finished (s.buffer ∙ ap (λ (b : List ℕ). b ++ on_way) none_before ∙ none_coming),
              read-Sim l p p n s h (split ∙ ap (λ (b : List ℕ). b ++ (left ++ on_way)) no_bytes)
                  refl,
            )
        | inr (inr label) ↦ labelled F D B cfg i p _ (got r.1) _ label (
          record p { buffer = left ++ on_way },
          hand_over r.1 (left ++ on_way) split,
          read-Sim l p _ n s h refl refl,
        )
      ]
