-- ===== src/Link/Ending.antt =====
-- The moves that end a stream's write side are steps of its pipe.
use smux.Base.{
  ℕ, ◌≢◌, Bool, Bool-cases, true, false, ◌≡◌, inl, inr, refl, sym, ap, ◌∙◌, subst, arith,
}
use smux.Config.{Config}
use smux.Error.{Result}
use smux.Codec.RoundTrip.{IsU32}
use smux.Stream.{Stream, Shared, Async, poll_shutdown, send_fin, drop_stream}
use smux.Link.{
  Link, silent, Hold, kept, closing, dropped, hold_after, is_finished, shutdown_step, close_step,
  send_fin_step, drop_step,
}
use smux.Link.Pipe.{Pipe}
use smux.Link.Writing.{
  poll_shutdown-frames, send_fin-frames, drop_stream-frames, close_lem, poll_shutdown-stream_id,
}
use smux.Link.Sim.{Sim, IsHolding, is_last}
use smux.Link.Steps.{Simulates, Changes, finish-Simulates}
use smux.Crates.Bytes.{BytesCrate}
use smux.Crates.Flume.{Flume}
use smux.Crates.DashMap.{DashMap}

module _ (F : Flume) (D : DashMap) (B : BytesCrate) (cfg : Config) (i : ℕ) where
  pub shutdown-Simulates :
      (l : Link F D) (p : Pipe)
      → IsU32 i
      → l.hold ≡ kept
      → Sim F D cfg i l p
      → Simulates F D B cfg i p silent (shutdown_step F D B cfg l)
  shutdown-Simulates l p u32 free s =
      let (r, writer, shared) = poll_shutdown F l.writer l.sender.shared in
      finish-Simulates F D B cfg i l p writer l.hold shared u32 s
        (poll_shutdown-stream_id F l.writer l.sender.shared)
        (subst (λ h. IsHolding h writer.is_write_closed) (sym free) tt)
        (elim (poll_shutdown-frames F l.writer l.sender.shared) [
          | inl (same_closed, same) ↦
              inl (same, ap (is_last l.hold) same_closed, ap (is_finished l.hold) same_closed)
          | inr (was_open, closed, inl same) ↦
              inr (ground (arith, free, closed), inl (same, λ _. ground (arith, free, closed)))
          | inr (was_open, closed, inr more) ↦ inr (
            ground (arith, free, closed),
            inr (ground (arith, free, was_open), ground (arith, free, closed), more),
          )
        ])

  -- The FIN frame of a `close` is sent, or waits.
  send_fin-Changes :
      (l : Link F D) (writer : Stream)
      → writer.is_write_closed ≡ true
      → (is_last l.hold l.writer.is_write_closed ≡ false)
      → let (r, shared) = send_fin F l.writer l.sender.shared in
        Changes F D B cfg i l writer (hold_after r) shared
  send_fin-Changes l writer closed not_last =
      let (r, shared) = send_fin F l.writer l.sender.shared in
      elim (send_fin-frames F l.writer l.sender.shared) [
        | inl (done_now, inl same) ↦
            inr (ground (arith, done_now, closed), inl (same, λ c. absurd (cc (sym not_last ∙ c))))
        | inl (done_now, inr more) ↦ inr (
          ground (arith, done_now, closed),
          inr (not_last, ground (arith, done_now, closed), more),
        )
        | inr (waits, same) ↦
            inr (ground (arith, waits, closed), inl (same, λ c. absurd (cc (sym not_last ∙ c))))
      ]

  closed-IsHolding : (h : Hold) (c : Bool) → c ≡ true → IsHolding h c
  closed-IsHolding kept c e = tt
  closed-IsHolding closing c e = e
  closed-IsHolding dropped c e = tt

  pub close-Simulates :
      (l : Link F D) (p : Pipe)
      → IsU32 i
      → l.hold ≡ kept
      → Sim F D cfg i l p
      → Simulates F D B cfg i p silent (close_step F D B cfg l)
  close-Simulates l p u32 free s =
      let law = close_lem F l.writer l.sender.shared in
      let After = λ (x : Async (Result (Unit {0})) × Stream × Shared F).
        Simulates F D B cfg i p silent (record l {
          writer = x.1;
          hold = hold_after x.0;
          sender = record (l.sender) { shared = x.2 };
        }) in
      elim (Bool-cases l.writer.is_write_closed) [
        | inl shut ↦ subst After (sym (law.0 shut)) (
            finish-Simulates F D B cfg i l p l.writer kept l.sender.shared u32 s refl tt
              (inl (refl, ground (arith, free), ground (arith, free))))
        | inr was_open ↦
            let writer : Stream = record (l.writer) { is_write_closed = true } in
            let (r, shared) = send_fin F l.writer l.sender.shared in
            subst After (sym (law.1 was_open)) (
              finish-Simulates F D B cfg i l p writer (hold_after r) shared u32 s refl
                (closed-IsHolding (hold_after r) true refl)
                (send_fin-Changes l writer refl (ground (arith, free, was_open))))
      ]

  closing_facts :
      (l : Link F D) (p : Pipe)
      → l.hold ≡ closing
      → Sim F D cfg i l p
      → (l.writer.is_write_closed ≡ true) × (is_last l.hold l.writer.is_write_closed ≡ false)
  closing_facts l p waits s =
      (subst (λ h. IsHolding h l.writer.is_write_closed) waits s.holding, ground (arith, waits))

  pub send_fin-Simulates :
      (l : Link F D) (p : Pipe)
      → IsU32 i
      → l.hold ≡ closing
      → Sim F D cfg i l p
      → Simulates F D B cfg i p silent (send_fin_step F D B cfg l)
  send_fin-Simulates l p u32 waits s =
      let (closed, not_last) = closing_facts l p waits s in
      let (r, shared) = send_fin F l.writer l.sender.shared in
      finish-Simulates F D B cfg i l p l.writer (hold_after r) shared u32 s refl
        (closed-IsHolding (hold_after r) l.writer.is_write_closed closed)
        (send_fin-Changes l l.writer closed not_last)

  pub cancel-Simulates :
      (l : Link F D) (p : Pipe)
      → IsU32 i
      → l.hold ≡ closing
      → Sim F D cfg i l p
      → Simulates F D B cfg i p silent (record l { hold = kept })
  cancel-Simulates l p u32 waits s =
      let (closed, not_last) = closing_facts l p waits s in
      finish-Simulates F D B cfg i l p l.writer kept l.sender.shared u32 s refl tt
        (inr (closed, inl (refl, λ _. closed)))

  pub drop-Simulates :
      (l : Link F D) (p : Pipe)
      → IsU32 i
      → l.hold ≢ dropped
      → Sim F D cfg i l p
      → Simulates F D B cfg i p silent (drop_step F D B cfg l)
  drop-Simulates l p u32 not_yet s =
      let shared = drop_stream F l.writer l.sender.shared in
      finish-Simulates F D B cfg i l p l.writer dropped shared u32 s refl tt
        (elim (drop_stream-frames F l.writer l.sender.shared) [
          | inl same ↦ inr (refl, inl (same, λ _. refl))
          | inr (was_open, more) ↦
              inr
                (refl, inr (open_last l.hold l.writer.is_write_closed not_yet was_open, refl, more))
        ])
    where
      open_last : (h : Hold) (c : Bool) → h ≢ dropped → c ≡ false → is_last h c ≡ false
      open_last kept c ne e = e
      open_last closing c ne e = refl
      open_last dropped c ne e = absurd (ne refl)
