-- ===== src/Link/Taking.antt =====
-- The receiving task deals with a frame: the stream's way to its reader goes on.
use smux.Base.{
  ℕ, ◌≡◌, ◌≢◌, ◌⊎◌, inl, inr, refl, sym, ap, ◌∙◌, subst, Bool, true, List, [], ◌∷◌, ◌++◌,
  append_assoc, All, arith,
}
use smux.Config.{Config}
use smux.Command.{psh, fin}
use smux.Frame.{Frame}
use smux.Stream.Read.{unread}
use smux.Session.{SessionInner}
use smux.Session.Handlers.{send_incoming}
use smux.Session.Tasks.{
  RecvTask, receiving, accepting, charging, delivering, stopped, Incoming, frame_in, room,
  tokens_returned, continue, recv_step,
}
use smux.Session.Tasks.Demux.{bytes_for}
use smux.Link.{Link}
use smux.Link.Flight.{IsApart, InOrder, IsApart-InOrder, bytes_for-append}
use smux.Link.Carried.{IsCarried}
use smux.Link.Pipe.{Pipe}
use smux.Link.Sparing.{send_incoming-Spares, aside-Spares}
use smux.Link.Handling.{held_frames, IsAside, IsOpen, Handled, continue-at, continue-inner}
use smux.Link.Others.{other_frame-Handled, other_psh-Handled, other_deliver-Handled}
use smux.Link.Own.{own_frame-Handled, own_psh-Handled}
use smux.Link.Sharing.{spared-Sim}
use smux.Link.Sim.{is_last, Sim, Status, flight, wires}
use smux.Crates.Flume.{Flume}
use smux.Crates.DashMap.{DashMap}

InOrder-tail :
    (i : ℕ) (c : Bool) (f : Frame) (fs : List Frame) → InOrder i c (f ∷ fs) → InOrder i c fs
InOrder-tail i c f fs (inl (ne, h)) = h
InOrder-tail i c f fs (inr (inl (e, is_psh, h))) = h
InOrder-tail i c f fs (inr (inr (e, is_fin, nothing, closed, h))) = IsApart-InOrder i c fs h

-- A FIN frame of the stream is the last of its frames.
last_own :
    (i : ℕ) (c : Bool) (f : Frame) (fs : List Frame)
    → InOrder i c (f ∷ fs)
    → f.stream_id ≡ i
    → f.cmd ≡ fin
    → (c ≡ true) × IsApart i fs
last_own i c f fs (inl (ne, h)) e is_fin = absurd (ne e)
last_own i c f fs (inr (inl (_, is_psh, h))) e is_fin = absurd (cc (sym is_psh ∙ is_fin))
last_own i c f fs (inr (inr (_, _, nothing, closed, h))) e is_fin = (closed, h)

module _ (F : Flume) (D : DashMap) (cfg : Config) (i : ℕ) where
  -- Either the frame is another stream's, or it is the open stream's own, and is one of data or FIN.
  first-cases :
      (l : Link F D) (f : Frame) (fs : List Frame)
      → InOrder i (is_last l.hold l.writer.is_write_closed) (f ∷ fs)
      → Status F D cfg i l (f ∷ fs)
      → (f.stream_id ≢ i)
        ⊎ ((f.stream_id ≡ i)
            × ((f.cmd ≡ psh) ⊎ ((f.cmd ≡ fin) × (f.payload ≡ [])))
            × IsOpen F D i l.reader l.receiver)
  first-cases l f fs (inl (ne, h)) status = inl ne
  first-cases l f fs (inr (inl (e, is_psh, h))) (inl o) = inr (e, inl is_psh, o)
  first-cases l f fs (inr (inr (e, is_fin, nothing, closed, h))) (inl o) =
      inr (e, inr (is_fin, nothing), o)
  first-cases l f fs (inr own) (inr (ended, closed, (ne, apart))) = inl ne

  -- What is left once the frame `f`, the first on the way, is handled.
  pub Handled-Sim :
      (l : Link F D) (p : Pipe) (f : Frame) (fs sent : List Frame) (arrived : List ℕ)
      (r : RecvTask × SessionInner F D) (s : Sim F D cfg i l p)
      → flight F D cfg i l s.sent_frames s.unsent ≡ f ∷ fs
      → sent ++ s.unsent ≡ fs
      → arrived ++ (l.transit ++ s.lost) ≡ wires sent
      → All (IsCarried cfg) sent
      → Handled F D i l.reader f l.receiver r
      → Sim F D cfg i (record l { arrived = arrived; recv = r.0; receiver = r.1 }) p
  Handled-Sim l p f fs sent arrived r s first rest on_wire carried h =
      let before : InOrder i (is_last l.hold l.writer.is_write_closed) (f ∷ fs) =
        subst (InOrder i (is_last l.hold l.writer.is_write_closed)) first s.ordered in
      let now : List Frame = held_frames r.0 ++ (sent ++ s.unsent) in
      let same : now ≡ held_frames r.0 ++ fs = ap (λ (g : List Frame). held_frames r.0 ++ g) rest in
      let kept = λ (P : List Frame → Type 0) (all : P (f ∷ fs)) (left : P fs).
        subst P (sym same) (elim h.held [
          | inl e ↦ subst (λ (g : List Frame). P (g ++ fs)) (sym e) left
          | inr e ↦ subst (λ (g : List Frame). P (g ++ fs)) (sym e) all
        ]) in
      let unread_before = unread F l.reader l.receiver.shared in
      let unread_after = unread F l.reader r.1.shared in
      record {
        sent_frames = sent;
        unsent = s.unsent;
        lost = s.lost;
        on_wire = on_wire;
        in_channel = s.in_channel;
        carried = carried;
        typed = s.typed;
        ordered =
            kept (InOrder i (is_last l.hold l.writer.is_write_closed)) before
              (InOrder-tail i (is_last l.hold l.writer.is_write_closed) f fs before);
        buffer =
            s.buffer
            ∙ ap (λ (g : List Frame). unread_before ++ bytes_for i g) first
            ∙ ap (λ (b : List ℕ). unread_before ++ b) (bytes_for-append i (f ∷ []) fs)
            ∙ sym (append_assoc unread_before (bytes_for i (f ∷ [])) (bytes_for i fs))
            ∙ ap (λ (b : List ℕ). b ++ bytes_for i fs) (sym h.content)
            ∙ append_assoc unread_after (bytes_for i (held_frames r.0)) (bytes_for i fs)
            ∙ ap (λ (b : List ℕ). unread_after ++ b)
                (sym (bytes_for-append i (held_frames r.0) fs) ∙ ap (bytes_for i) (sym same));
        finished = s.finished;
        holding = s.holding;
        own = h.own;
        readable = h.readable;
        aside = h.aside;
        status = elim h.outcome [
          | inl (e, is_fin, none_held, ended) ↦
              let (closed, apart) =
                last_own i (is_last l.hold l.writer.is_write_closed) f fs before e is_fin in
              inr (
                ended,
                closed,
                subst (IsApart i) (sym (same ∙ ap (λ (g : List Frame). g ++ fs) none_held)) apart,
              )
          | inr (still_open, sending) ↦ elim (subst (Status F D cfg i l) first s.status) [
            | inl o ↦ inl (still_open o)
            | inr (ended, closed, apart) ↦
                inr (sending ∙ ended, closed, kept (IsApart i) apart apart.1)
          ]
        ];
        own_id = s.own_id;
      }

  pub frame-Handled :
      (l : Link F D) (p : Pipe) (f : Frame) (fs : List Frame) (s : Sim F D cfg i l p)
      → flight F D cfg i l s.sent_frames s.unsent ≡ f ∷ fs
      → Handled F D i l.reader f l.receiver (recv_step F D receiving l.receiver (frame_in f))
  frame-Handled l p f fs s first =
      elim (first-cases l f fs
        (subst (InOrder i (is_last l.hold l.writer.is_write_closed)) first s.ordered)
        (subst (Status F D cfg i l) first s.status)) [
          | inl ne ↦ other_frame-Handled F D i l.reader f l.receiver ne s.own s.readable
          | inr (e, kind, o) ↦
              own_frame-Handled F D i l.reader f l.receiver e kind o s.own s.readable
        ]

  -- A handler goes on with the frame that it holds.
  resumed-Sim :
      (l : Link F D) (p : Pipe) (f : Frame) (e : Incoming) (s : Sim F D cfg i l p)
      → held_frames l.recv ≡ f ∷ []
      → Handled F D i l.reader f l.receiver (recv_step F D l.recv l.receiver e)
      → Sim F D cfg i
          (record l {
            recv = (recv_step F D l.recv l.receiver e).0;
            receiver = (recv_step F D l.recv l.receiver e).1;
          })
          p
  resumed-Sim l p f e s held h =
      Handled-Sim l p f (s.sent_frames ++ s.unsent) s.sent_frames l.arrived
        (recv_step F D l.recv l.receiver e) s
        (ap (λ (g : List Frame). g ++ (s.sent_frames ++ s.unsent)) held) refl s.on_wire s.carried h

  -- An event that the task does not wait for.
  idle-Sim :
      (l : Link F D) (p : Pipe) (r : RecvTask × SessionInner F D)
      → r ≡ (l.recv, l.receiver)
      → Sim F D cfg i l p
      → Sim F D cfg i (record l { recv = r.0; receiver = r.1 }) p
  idle-Sim l p r e s =
      subst
        (λ (x : RecvTask × SessionInner F D).
          Sim F D cfg i (record l { recv = x.0; receiver = x.1 }) p)
        (sym e)
        (spared-Sim F D cfg i l p l.recv l.receiver
          (aside-Spares F D i l.reader l.receiver l.receiver refl refl refl refl) s.aside refl s)

  -- A handler that waited goes on, or it is not what it waited for.
  pub resumes-Sim :
      (l : Link F D) (p : Pipe) (e : Incoming) (at : RecvTask)
      → l.recv ≡ at
      → (e ≡ tokens_returned) ⊎ (e ≡ room)
      → Sim F D cfg i l p
      → Sim F D cfg i
          (record l {
            recv = (recv_step F D l.recv l.receiver e).0;
            receiver = (recv_step F D l.recv l.receiver e).1;
          })
          p
  unfolding recv_step
  resumes-Sim l p e receiving q (inl k) s = idle-Sim l p _ (ground (arith, q, k)) s
  resumes-Sim l p e receiving q (inr k) s = idle-Sim l p _ (ground (arith, q, k)) s
  resumes-Sim l p e stopped q (inl k) s = idle-Sim l p _ (ground (arith, q, k)) s
  resumes-Sim l p e stopped q (inr k) s = idle-Sim l p _ (ground (arith, q, k)) s
  resumes-Sim l p e (accepting stream) q (inl k) s = idle-Sim l p _ (ground (arith, q, k)) s
  resumes-Sim l p e (charging f) q (inr k) s = idle-Sim l p _ (ground (arith, q, k)) s
  resumes-Sim l p e (delivering f) q (inl k) s = idle-Sim l p _ (ground (arith, q, k)) s
  resumes-Sim l p e (accepting stream) q (inr k) s =
      let r = send_incoming F D stream l.receiver in
      let aside : IsAside i l.reader (accepting stream) = subst (IsAside i l.reader) q s.aside in
      let spares = send_incoming-Spares F D i l.reader stream l.receiver aside.0 aside.1 s.own in
      let same : recv_step F D l.recv l.receiver e ≡ continue F D r (accepting stream) =
        ground (arith, q, k) in
      subst
        (λ (x : RecvTask × SessionInner F D).
          Sim F D cfg i (record l { recv = x.0; receiver = x.1 }) p)
        (sym same)
        (spared-Sim F D cfg i l p (continue F D r (accepting stream)).0
          (continue F D r (accepting stream)).1
          (rw (continue-inner F D r (accepting stream)) spares)
          (continue-at F D (IsAside i l.reader) r (accepting stream) tt aside)
          (continue-at F D (λ x. held_frames x ≡ held_frames l.recv) r (accepting stream)
            (sym (ap held_frames q)) (sym (ap held_frames q)))
          s)
  resumes-Sim l p e (charging f) q (inl k) s =
      let is_psh : f.cmd ≡ psh = subst (IsAside i l.reader) q s.aside in
      let fs = s.sent_frames ++ s.unsent in
      let first : flight F D cfg i l s.sent_frames s.unsent ≡ f ∷ fs =
        ap (λ (g : RecvTask). held_frames g ++ fs) q in
      let same : recv_step F D l.recv l.receiver e
          ≡ recv_step F D (charging f) l.receiver tokens_returned =
        ground (arith, q, k) in
      resumed-Sim l p f e s (ap held_frames q) (
        subst (Handled F D i l.reader f l.receiver) (sym same)
          (elim (first-cases l f fs
            (subst (InOrder i (is_last l.hold l.writer.is_write_closed)) first s.ordered)
            (subst (Status F D cfg i l) first s.status)) [
              | inl ne ↦ other_psh-Handled F D i l.reader f l.receiver ne is_psh s.own s.readable
              | inr (own, kind, o) ↦
                  own_psh-Handled F D i l.reader f l.receiver own is_psh o s.own s.readable
            ]))
  resumes-Sim l p e (delivering f) q (inr k) s =
      let aside : IsAside i l.reader (delivering f) = subst (IsAside i l.reader) q s.aside in
      let same : recv_step F D l.recv l.receiver e ≡ recv_step F D (delivering f) l.receiver room =
        ground (arith, q, k) in
      resumed-Sim l p f e s (ap held_frames q) (
        subst (Handled F D i l.reader f l.receiver) (sym same)
          (other_deliver-Handled F D i l.reader f l.receiver aside.1 aside.0 s.own s.readable))
