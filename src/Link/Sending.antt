-- ===== src/Link/Sending.antt =====
-- The moves of the writer's session are steps of the pipe.
use smux.Base.{
  ℕ, zero, suc, ◌≢◌, true, false, ◌≤◌, ◌≡◌, inl, inr, refl, sym, ap, ◌∙◌, subst, List, [], ◌∷◌,
  ◌++◌, append-nil, All, take, drop, take-append-drop,
}
use smux.Config.{Config}
use smux.Frame.{Frame}
use smux.Codec
use smux.Codec.{Codec, decode}
use smux.Codec.RoundTrip.{IsTyped}
use smux.Stream.{Stream, waiting}
use smux.Session.{SessionInner}
use smux.Session.Tasks.{Outgoing, send_loop}
use smux.Link.{Link, silent, is_finished, send_step, send_end_step}
use smux.Link.Flight.{IsApart, InOrder, InOrder-append, bytes_for-apart}
use smux.Link.Pipe.{Pipe, rest}
use smux.Link.Writing.{send_loop-round, send_loop-end}
use smux.Link.Sim.{Sim, IsHolding, is_last, flight, extend-Sim, send-Sim, end-Sim}
use smux.Link.Steps.{Simulates, stay-Sim}
use smux.Crates.Bytes.{BytesCrate}
use smux.Crates.Flume.{Flume}
use smux.Crates.DashMap.{DashMap}

take_nil : (k : ℕ) → take {A = ℕ} k [] ≡ []
take_nil zero = refl
take_nil (suc k) = refl

module _ (F : Flume) (D : DashMap) (B : BytesCrate) (cfg : Config) (i : ℕ) where
  pub sender_acts-Simulates :
      (l : Link F D) (p : Pipe) (sender : SessionInner F D) (writer : Stream) (fs : List Frame)
      → F.queue sender.shared.frames ≡ F.queue l.sender.shared.frames ++ fs
      → IsApart i fs
      → All IsTyped fs
      → writer.stream_id ≡ l.writer.stream_id
      → writer.is_write_closed ≡ l.writer.is_write_closed
      → Sim F D cfg i l p
      → Simulates F D B cfg i p silent (record l { sender = sender; writer = writer })
  sender_acts-Simulates l p sender writer fs e apart typed same_id same_closed s =
      let here = flight F D cfg i l s.sent_frames s.unsent in
      let last = ap (is_last l.hold) same_closed in
      (
        p,
        rest,
        extend-Sim F D cfg i l p p sender writer l.hold fs s e typed
            (subst (λ c. InOrder i c (here ++ fs)) (sym last)
              (InOrder-append i (is_last l.hold l.writer.is_write_closed) here fs s.ordered apart))
            (subst (IsHolding l.hold) (sym same_closed) s.holding) (same_id ∙ s.own_id)
            (λ c. (last ∙ c, apart))
            (sym (append-nil p.buffer)
              ∙ ap (λ (b : List ℕ). p.buffer ++ b) (sym (bytes_for-apart i fs apart)))
            (s.finished ∙ sym (ap (is_finished l.hold) same_closed)),
      )

  pub send-Simulates :
      (l : Link F D) (p : Pipe)
      → cfg.max_frame_size ≤ 65543
      → l.is_sending ≡ true
      → (send_step F D B cfg l).0 ≡ waiting
      → Sim F D cfg i l p
      → Simulates F D B cfg i p silent (send_step F D B cfg l).1
  send-Simulates l p small runs goes_on s =
      let sender = (send_step F D B cfg l).1.sender in
      elim (send_loop-round F D B (Codec.new cfg) l.sender goes_on) [
        | inl (none_before, none_after, no_bytes) ↦ (
          p,
          rest,
          subst (λ (b : List ℕ). Sim F D cfg i (record l { sender = sender; transit = b }) p)
              (sym (ap (λ (b : List ℕ). l.transit ++ b) no_bytes ∙ append-nil l.transit))
              (stay-Sim F D B cfg i l p sender (none_after ∙ sym none_before) s),
        )
        | inr (f, first, encoded) ↦ (
          p,
          rest,
          send-Sim F D cfg i B l p sender f _ _ _ [] l.is_sending s small runs first (λ _. refl)
              encoded (append-nil _) (λ _. refl),
        )
      ]

  pub send_end-Simulates :
      (l : Link F D) (p : Pipe) (e : Outgoing) (k : ℕ)
      → cfg.max_frame_size ≤ 65543
      → l.is_sending ≡ true
      → (send_end_step F D B cfg l e k).0 ≢ waiting
      → Sim F D cfg i l p
      → Simulates F D B cfg i p silent (send_end_step F D B cfg l e k).1
  send_end-Simulates l p e k small runs over s =
      let (r, sender, bytes) = send_loop F D B (Codec.new cfg) l.sender [] (e ∷ []) in
      elim (send_loop-end F D B (Codec.new cfg) l.sender e over) [
        | inl no_bytes ↦ (
          p,
          rest,
          subst
              (λ (b : List ℕ).
                Sim F D cfg i (record l { sender = sender; is_sending = false; transit = b }) p)
              (sym (
                ap (λ (b : List ℕ). l.transit ++ b) (ap (take k) no_bytes ∙ take_nil k)
                ∙ append-nil l.transit))
              (end-Sim F D cfg i l p sender s),
        )
        | inr (f, left, first, encoded) ↦ (
          p,
          rest,
          send-Sim F D cfg i B l p sender f left bytes (take k bytes) (drop k bytes) false s small
              runs first (λ still. absurd (cc still)) encoded (take-append-drop k bytes)
              (λ still. absurd (cc still)),
        )
      ]
