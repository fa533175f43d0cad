-- ===== src/Link/Sim.antt =====
-- What the bytes and frames of one stream's way through both sessions have to do with its pipe.
use smux.Base.{
  ℕ, ◌≤◌, ◌≡◌, ◌⊎◌, Bool, inl, inr, refl, sym, ap, ◌∙◌, subst, true, false, List, [], ◌∷◌, ◌++◌,
  append_assoc, append-nil, All, All-append,
}
use smux.Config.{Config}
use smux.Frame.{Frame}
use smux.Codec
use smux.Codec.{Codec, encode}
use smux.Codec.Wire.{wire}
use smux.Codec.RoundTrip.{IsTyped}
use smux.Error.{ok}
use smux.Stream.{Stream}
use smux.Stream.Read.{unread}
use smux.Session.{SessionInner}
use smux.Session.Tasks.Demux.{bytes_for}
use smux.Link.{Link, Hold, kept, closing, dropped, is_finished}
use smux.Link.Flight.{IsApart, InOrder, IsApart-append, bytes_for-append}
use smux.Link.Carried.{IsCarried, encode-IsCarried}
use smux.Link.Pipe.{Pipe}
use smux.Link.Reading.{IsReadable}
use smux.Link.Sparing.{IsOwn}
use smux.Link.Handling.{held_frames, IsAside, IsOpen}
use smux.Crates.Bytes.{BytesCrate}
use smux.Crates.Flume.{Flume}
use smux.Crates.DashMap.{DashMap}

abbrev pub wires : List Frame → List ℕ
wires [] = []
wires (f ∷ fs) = wire f ++ wires fs

wires-append : (fs gs : List Frame) → wires (fs ++ gs) ≡ wires fs ++ wires gs
wires-append [] gs = refl
wires-append (f ∷ fs) gs =
    ap (λ (l : List ℕ). wire f ++ l) (wires-append fs gs)
    ∙ sym (append_assoc (wire f) (wires fs) (wires gs))

-- The FIN frame may be on its way, and nothing more comes behind it.
abbrev pub is_last : Hold → Bool → Bool
is_last kept closed = closed
is_last closing closed = false
is_last dropped closed = true

-- A `close` that waits has closed the write side.
abbrev pub IsHolding : Hold → Bool → Type 0
IsHolding kept closed = Unit {0}
IsHolding closing closed = closed ≡ true
IsHolding dropped closed = Unit {0}

module _ (F : Flume) (D : DashMap) (cfg : Config) (i : ℕ) where
  -- The frames on the way to the reader's stream, first the one that a handler holds, then those of
  -- which the transport has bytes, then those that are not sent.
  abbrev pub flight : Link F D → List Frame → List Frame → List Frame
  flight l sent unsent = held_frames l.recv ++ (sent ++ unsent)

  -- The stream is open at the reader's side, or nothing of it is on the way any more.
  abbrev pub Status : Link F D → List Frame → Type 0
  Status l fs =
      IsOpen F D i l.reader l.receiver
      ⊎ ((F.sending (l.receiver.shared.pipes l.reader.data_rx) ≡ false)
          × (is_last l.hold l.writer.is_write_closed ≡ true)
          × IsApart i fs)

  -- The transport has lost the bytes `lost` and the frames `unsent` are those of the writer's frame
  -- channel, until the sending task ends; then what it held is in neither.
  pub record Sim (l : Link F D) (p : Pipe) : Type 0 where
    pub sent_frames : List Frame
    pub unsent : List Frame
    pub lost : List ℕ
    pub on_wire : l.arrived ++ (l.transit ++ lost) ≡ wires sent_frames
    pub in_channel : l.is_sending ≡ true → (F.queue l.sender.shared.frames ≡ unsent) × (lost ≡ [])
    pub carried : All (IsCarried cfg) sent_frames
    pub typed : All IsTyped unsent
    pub ordered : InOrder i (is_last l.hold l.writer.is_write_closed) (flight l sent_frames unsent)
    pub buffer :
        p.buffer ≡ unread F l.reader l.receiver.shared ++ bytes_for i (flight l sent_frames unsent)
    pub finished : p.finished ≡ is_finished l.hold l.writer.is_write_closed
    pub holding : IsHolding l.hold l.writer.is_write_closed
    pub own : IsOwn F D i l.reader l.receiver
    pub readable : IsReadable F l.reader l.receiver.shared
    pub aside : IsAside i l.reader l.recv
    pub status : Status l (flight l sent_frames unsent)
    pub own_id : l.writer.stream_id ≡ i

  flight_extend :
      (l : Link F D) (sent unsent fs : List Frame)
      → flight l sent (unsent ++ fs) ≡ flight l sent unsent ++ fs
  flight_extend l sent unsent fs =
      ap (λ (g : List Frame). held_frames l.recv ++ g) (sym (append_assoc sent unsent fs))
      ∙ sym (append_assoc (held_frames l.recv) (sent ++ unsent) fs)

  -- The writer's session puts the frames `fs` behind the others.
  pub extend-Sim :
      (l : Link F D) (p q : Pipe) (sender : SessionInner F D) (writer : Stream) (hold : Hold)
      (fs : List Frame) (s : Sim l p)
      → F.queue sender.shared.frames ≡ F.queue l.sender.shared.frames ++ fs
      → All IsTyped fs
      → InOrder i (is_last hold writer.is_write_closed) (flight l s.sent_frames s.unsent ++ fs)
      → IsHolding hold writer.is_write_closed
      → writer.stream_id ≡ i
      → (is_last l.hold l.writer.is_write_closed ≡ true
          → (is_last hold writer.is_write_closed ≡ true) × IsApart i fs)
      → q.buffer ≡ p.buffer ++ bytes_for i fs
      → q.finished ≡ is_finished hold writer.is_write_closed
      → Sim (record l { sender = sender; writer = writer; hold = hold }) q
  extend-Sim l p q sender writer hold fs s e typed ordered holding id shut buffer finished =
      let longer = flight_extend l s.sent_frames s.unsent fs in
      let here = flight l s.sent_frames s.unsent in
      let unread_bytes = unread F l.reader l.receiver.shared in
      record {
        sent_frames = s.sent_frames;
        unsent = s.unsent ++ fs;
        lost = s.lost;
        on_wire = s.on_wire;
        in_channel = λ runs.
            (e ∙ ap (λ (g : List Frame). g ++ fs) (s.in_channel runs).0, (s.in_channel runs).1);
        carried = s.carried;
        typed = All-append IsTyped s.unsent fs s.typed typed;
        ordered = subst (InOrder i (is_last hold writer.is_write_closed)) (sym longer) ordered;
        buffer =
            buffer
            ∙ ap (λ (b : List ℕ). b ++ bytes_for i fs) s.buffer
            ∙ append_assoc unread_bytes (bytes_for i here) (bytes_for i fs)
            ∙ ap (λ (b : List ℕ). unread_bytes ++ b)
                (sym (bytes_for-append i here fs) ∙ ap (bytes_for i) (sym longer));
        finished = finished;
        holding = holding;
        own = s.own;
        readable = s.readable;
        aside = s.aside;
        status = elim s.status [
          | inl is_open ↦ inl is_open
          | inr (ended, last, apart) ↦ inr (
            ended,
            (shut last).0,
            subst (IsApart i) (sym longer) (IsApart-append i here fs apart (shut last).1),
          )
        ];
        own_id = id;
      }

  -- The first frame of the channel goes to the transport, which takes some of its bytes; if it does
  -- not take all of them, the sending task is at its end.
  pub send-Sim :
      (B : BytesCrate) (l : Link F D) (p : Pipe) (sender : SessionInner F D) (f : Frame)
      (q : List Frame) (bytes taken lost : List ℕ) (is_sending : Bool) (s : Sim l p)
      → cfg.max_frame_size ≤ 65543
      → l.is_sending ≡ true
      → F.queue l.sender.shared.frames ≡ f ∷ q
      → (is_sending ≡ true → F.queue sender.shared.frames ≡ q)
      → encode B (Codec.new cfg) f [] ≡ (ok tt, bytes)
      → taken ++ lost ≡ bytes
      → (is_sending ≡ true → lost ≡ [])
      → Sim (record l { sender = sender; is_sending = is_sending; transit = l.transit ++ taken }) p
  send-Sim B l p sender f q bytes taken lost is_sending s small runs e left encoded parts
        all_taken =
      let (queued, none_lost) = s.in_channel runs in
      let unsent_is : s.unsent ≡ f ∷ q = sym queued ∙ e in
      let all_typed : All IsTyped (f ∷ q) = subst (All IsTyped) unsent_is s.typed in
      let (same_bytes, carried) = encode-IsCarried B cfg f [] bytes small all_typed.0 encoded in
      let same : flight l s.sent_frames s.unsent ≡ flight l (s.sent_frames ++ (f ∷ [])) q =
        ap (λ (g : List Frame). held_frames l.recv ++ g)
          (ap (λ (g : List Frame). s.sent_frames ++ g) unsent_is
            ∙ sym (append_assoc s.sent_frames (f ∷ []) q)) in
      let before : l.arrived ++ l.transit ≡ wires s.sent_frames =
        ap (λ (b : List ℕ). l.arrived ++ b)
          (sym (ap (λ (b : List ℕ). l.transit ++ b) none_lost ∙ append-nil l.transit))
        ∙ s.on_wire in
      record {
        sent_frames = s.sent_frames ++ (f ∷ []);
        unsent = q;
        lost = lost;
        on_wire =
            ap (λ (b : List ℕ). l.arrived ++ b)
              (append_assoc l.transit taken lost ∙ ap (λ (b : List ℕ). l.transit ++ b) parts)
            ∙ sym (append_assoc l.arrived l.transit bytes)
            ∙ ap (λ (b : List ℕ). b ++ bytes) before
            ∙ ap (λ (b : List ℕ). wires s.sent_frames ++ b) (same_bytes ∙ sym (append-nil (wire f)))
            ∙ sym (wires-append s.sent_frames (f ∷ []));
        in_channel = λ still. (left still, all_taken still);
        carried = All-append (IsCarried cfg) s.sent_frames (f ∷ []) s.carried (carried, tt);
        typed = all_typed.1;
        ordered = subst (InOrder i (is_last l.hold l.writer.is_write_closed)) same s.ordered;
        buffer =
            s.buffer
            ∙ ap (λ (g : List Frame). unread F l.reader l.receiver.shared ++ bytes_for i g) same;
        finished = s.finished;
        holding = s.holding;
        own = s.own;
        readable = s.readable;
        aside = s.aside;
        status = subst (Status l) same s.status;
        own_id = s.own_id;
      }

  -- The sending task ends, with no byte of a frame on the transport.
  pub end-Sim :
      (l : Link F D) (p : Pipe) (sender : SessionInner F D)
      → Sim l p
      → Sim (record l { sender = sender; is_sending = false }) p
  end-Sim l p sender s = record {
    sent_frames = s.sent_frames;
    unsent = s.unsent;
    lost = s.lost;
    on_wire = s.on_wire;
    in_channel = λ runs. absurd (cc runs);
    carried = s.carried;
    typed = s.typed;
    ordered = s.ordered;
    buffer = s.buffer;
    finished = s.finished;
    holding = s.holding;
    own = s.own;
    readable = s.readable;
    aside = s.aside;
    status = s.status;
    own_id = s.own_id;
  }
