-- ===== src/Link/Steps.antt =====
-- Each move of a link is a step of its pipe: what the writer puts on the frame channel.
use smux.Base.{
  ℕ, ◌⊎◌, true, false, ◌≡◌, inl, inr, sym, ap, ◌∙◌, subst, List, [], ◌∷◌, ◌++◌, append-nil, arith,
}
use smux.Config.{Config}
use smux.Frame.{Frame, new_psh, new_fin}
use smux.Codec.RoundTrip.{IsTyped, IsU32}
use smux.Stream.{Stream, Shared}
use smux.Session.{SessionInner}
use smux.Session.Tasks.Demux.{bytes_for}
use smux.Link.{Link, Label, wrote, silent, Hold, kept, is_finished, write_step}
use smux.Link.Flight.{InOrder, InOrder-psh, InOrder-fin, InOrder-grows, bytes_for-psh}
use smux.Link.Pipe.{Pipe, PipeStep, put, put_none, finish, rest}
use smux.Link.Writing.{poll_write-frames}
use smux.Link.Sim.{Sim, IsHolding, is_last, flight, extend-Sim}
use smux.Crates.Bytes.{BytesCrate}
use smux.Crates.Flume.{Flume}
use smux.Crates.DashMap.{DashMap}

psh-IsTyped : (i : ℕ) (bytes : List ℕ) → IsU32 i → IsTyped (new_psh 1 i bytes)
unfolding new_psh
psh-IsTyped i bytes h = record { version_u8 = omega arith; id_u32 = h; cmd_u32 = tt }

fin-IsTyped : (i : ℕ) → IsU32 i → IsTyped (new_fin 1 i)
unfolding new_fin
fin-IsTyped i h = record { version_u8 = omega arith; id_u32 = h; cmd_u32 = tt }

bytes_for-fin : (i : ℕ) → bytes_for i (new_fin 1 i ∷ []) ≡ []
unfolding new_fin
bytes_for-fin i = ground arith

module _ (F : Flume) (D : DashMap) (B : BytesCrate) (cfg : Config) (i : ℕ) where
  -- The pipe makes the step `label`, and the link `l'` is there where the pipe is.
  abbrev pub Simulates : Pipe → Label → Link F D → Type 0
  Simulates p label l' = (q : Pipe) × PipeStep p label q × Sim F D cfg i l' q

  pub labelled :
      (p : Pipe) (a b : Label) (l' : Link F D) → a ≡ b → Simulates p b l' → Simulates p a l'
  labelled p a b l' e h = subst (λ (x : Label). Simulates p x l') (sym e) h

  pub stay-Sim :
      (l : Link F D) (p : Pipe) (sender : SessionInner F D)
      → F.queue sender.shared.frames ≡ F.queue l.sender.shared.frames
      → Sim F D cfg i l p
      → Sim F D cfg i (record l { sender = sender }) p
  stay-Sim l p sender e s =
      let same = sym (append-nil (flight F D cfg i l s.sent_frames s.unsent)) in
      extend-Sim F D cfg i l p p sender l.writer l.hold [] s
        (e ∙ sym (append-nil (F.queue l.sender.shared.frames))) tt
        (subst (InOrder i (is_last l.hold l.writer.is_write_closed)) same s.ordered) s.holding
        s.own_id (λ c. (c, tt)) (sym (append-nil p.buffer)) s.finished

  pub write-Simulates :
      (l : Link F D) (p : Pipe) (buf : List ℕ)
      → IsU32 i
      → l.hold ≡ kept
      → Sim F D cfg i l p
      → Simulates p (write_step F D B cfg l buf).0 (write_step F D B cfg l buf).1
  write-Simulates l p buf u32 free s =
      let sender = (write_step F D B cfg l buf).1.sender in
      let here = flight F D cfg i l s.sent_frames s.unsent in
      elim (poll_write-frames F l.writer l.sender.shared buf) [
        | inl (same, inl none_told) ↦
            labelled p _ silent _ none_told (p, rest, stay-Sim l p sender same s)
        | inl (same, inr told_none) ↦
            labelled p _ (wrote []) _ told_none (p, put_none, stay-Sim l p sender same s)
        | inr (bytes, may_write, told, more) ↦
            let fs : List Frame = new_psh 1 i bytes ∷ [] in
            let more' : F.queue sender.shared.frames ≡ F.queue l.sender.shared.frames ++ fs =
              more
              ∙ ap (λ x. F.queue l.sender.shared.frames ++ (new_psh 1 x bytes ∷ [])) s.own_id in
            let not_last : is_last l.hold l.writer.is_write_closed ≡ false =
              ap (λ h. is_last h l.writer.is_write_closed) free ∙ may_write in
            let not_finished : is_finished l.hold l.writer.is_write_closed ≡ false =
              ap (λ h. is_finished h l.writer.is_write_closed) free ∙ may_write in
            let ordered : InOrder i (is_last l.hold l.writer.is_write_closed) (here ++ fs) =
              subst (λ c. InOrder i c (here ++ fs)) (sym not_last)
                (InOrder-psh i here bytes (subst (λ c. InOrder i c here) not_last s.ordered)) in
            labelled p _ (wrote bytes) _ told (
              record p { buffer = p.buffer ++ bytes },
              put bytes (s.finished ∙ not_finished),
              extend-Sim F D cfg i l p _ sender l.writer l.hold fs s more'
                  (psh-IsTyped i bytes u32, tt) ordered s.holding s.own_id
                  (λ c. absurd (cc (sym not_last ∙ c)))
                  (ap (λ (b : List ℕ). p.buffer ++ b) (sym (bytes_for-psh i bytes))) s.finished,
            )
      ]

  -- What a call of the writer does to the frame channel and to the write side: nothing, or it ends
  -- the writing, and may put the FIN frame behind the others.
  abbrev pub Changes : Link F D → Stream → Hold → Shared F → Type 0
  Changes l writer hold shared =
      let last = is_last l.hold l.writer.is_write_closed in
      let last' = is_last hold writer.is_write_closed in
      let queue = F.queue l.sender.shared.frames in
      ((F.queue shared.frames ≡ queue)
        × (last' ≡ last)
        × (is_finished hold writer.is_write_closed ≡ is_finished l.hold l.writer.is_write_closed))
      ⊎ ((is_finished hold writer.is_write_closed ≡ true)
          × (((F.queue shared.frames ≡ queue) × (last ≡ true → last' ≡ true))
              ⊎ ((last ≡ false)
                  × (last' ≡ true)
                  × (F.queue shared.frames ≡ queue ++ (new_fin 1 l.writer.stream_id ∷ [])))))

  pub finish-Simulates :
      (l : Link F D) (p : Pipe) (writer : Stream) (hold : Hold) (shared : Shared F)
      → IsU32 i
      → Sim F D cfg i l p
      → writer.stream_id ≡ l.writer.stream_id
      → IsHolding hold writer.is_write_closed
      → Changes l writer hold shared
      → Simulates p silent (record l {
        writer = writer;
        hold = hold;
        sender = record (l.sender) { shared = shared };
      })
  finish-Simulates l p writer hold shared u32 s same_id holding change =
      let sender : SessionInner F D = record (l.sender) { shared = shared } in
      let here = flight F D cfg i l s.sent_frames s.unsent in
      let last = is_last l.hold l.writer.is_write_closed in
      let last' = is_last hold writer.is_write_closed in
      let id = same_id ∙ s.own_id in
      elim change [
        | inl (same, same_last, same_finished) ↦ (
          p,
          rest,
          extend-Sim F D cfg i l p p sender writer hold [] s
              (same ∙ sym (append-nil (F.queue l.sender.shared.frames))) tt
              (subst (λ c. InOrder i c (here ++ [])) (sym same_last)
                (subst (InOrder i last) (sym (append-nil here)) s.ordered))
              holding id (λ c. (same_last ∙ c, tt)) (sym (append-nil p.buffer))
              (s.finished ∙ sym same_finished),
        )
        | inr (finished, inl (same, grows)) ↦ (
          record p { finished = true },
          finish,
          extend-Sim F D cfg i l p _ sender writer hold [] s
              (same ∙ sym (append-nil (F.queue l.sender.shared.frames))) tt
              (subst (InOrder i last') (sym (append-nil here))
                (InOrder-grows i last last' here grows s.ordered))
              holding id (λ c. (grows c, tt)) (sym (append-nil p.buffer)) (sym finished),
        )
        | inr (finished, inr (not_last, now_last, more)) ↦ (
          record p { finished = true },
          finish,
          extend-Sim F D cfg i l p _ sender writer hold (new_fin 1 i ∷ []) s
              (more ∙ ap (λ x. F.queue l.sender.shared.frames ++ (new_fin 1 x ∷ [])) s.own_id)
              (fin-IsTyped i u32, tt)
              (subst (λ c. InOrder i c (here ++ (new_fin 1 i ∷ []))) (sym now_last)
                (InOrder-fin i here (subst (λ c. InOrder i c here) not_last s.ordered)))
              holding id (λ c. absurd (cc (sym not_last ∙ c)))
              (sym (append-nil p.buffer)
                ∙ ap (λ (b : List ℕ). p.buffer ++ b) (sym (bytes_for-fin i)))
              (sym finished),
        )
      ]
