-- ===== src/Stream/Handle/Sends.antt =====
-- src/stream.rs: what a run of a stream's calls puts on the frame channel.
use smux.Base.{
  ℕ, ◌-◌, min, ◌≡◌, ◌⊎◌, refl, List, [], ◌∷◌, ◌++◌, append_assoc, append-nil, length, take, arith,
  sym, ap, subst, ◌∙◌, true, false, Bool-cases, inl, inr, ◌==◌,
}
use smux.Frame.{Frame, new_psh, new_fin, header_size}
use smux.Stream.{
  Shared, poll_read, poll_write, poll_flush, poll_shutdown, send_fin, close, read_chunk,
  read_channel, read_received,
}
use smux.Crates.Bytes.{BytesCrate}
use smux.Crates.Flume.{Flume, sent, full, no_receiver}
use smux.Stream.Handle.{
  Call, reads, writes, flushes, shuts_down, closes, resumed, Handle, step, run,
}
use smux.Stream.Handle.Trail.{
  phase, Trail, Trail-nil, Trail-shrink, Trail-fin, Trail-psh, Trail-closed,
}

-- A future of `close` waits only after the write side was marked closed.
abbrev pub IsSound : Handle → Type 0
IsSound h = h.closing ≡ true → h.stream.is_write_closed ≡ true

-- No call changes the stream's id or marks its read side closed.
abbrev pub Same : Handle → Handle → Type 0
Same h h' =
    (h'.stream.stream_id ≡ h.stream.stream_id)
    × (h'.stream.is_read_closed ≡ h.stream.is_read_closed)
    × IsSound h'

module _ (F : Flume) where
  -- What one call does to the frame channel and to the write side.
  data Effect (h : Handle) (w : Shared F) (h' : Handle) (w' : Shared F) : Type 0 where
    keeps :
        F.queue w'.frames ≡ F.queue w.frames
        → (h.stream.is_write_closed ≡ true → h'.stream.is_write_closed ≡ true)
        → (h.stream.is_write_closed ≡ true → h'.closing ≡ true → h.closing ≡ true)
        → Effect h w h' w'
    pushes :
        (bytes : List ℕ)
        → F.queue w'.frames ≡ F.queue w.frames ++ (new_psh 1 h.stream.stream_id bytes ∷ [])
        → h.stream.is_write_closed ≡ false
        → h'.stream.is_write_closed ≡ false
        → Effect h w h' w'
    finishes :
        F.queue w'.frames ≡ F.queue w.frames ++ (new_fin 1 h.stream.stream_id ∷ [])
        → (h.stream.is_write_closed ≡ true → h.closing ≡ true)
        → h'.stream.is_write_closed ≡ true
        → h'.closing ≡ false
        → Effect h w h' w'

  -- A frame that was offered to the channel: sent, or the channel holds what it held.
  abbrev Offered : F.Chan Frame → Frame → Type 0
  Offered c f =
      let (r, c') = F.try_send c f in
      ((r ≡ sent) × (F.queue c' ≡ F.queue c ++ (f ∷ [])))
      ⊎ (((r ≡ full) ⊎ (r ≡ no_receiver)) × (F.queue c' ≡ F.queue c))

  offered : (c : F.Chan Frame) (f : Frame) → Offered c f
  offered c f = ground (arith, F.try_send_lem c f)

module _ (B : BytesCrate) (F : Flume) where
  writes-Effect :
      (h : Handle) (w : Shared F) (buf : List ℕ)
      → let (h', w') = step B F h w (writes buf) in Effect F h w h' w'
  unfolding step poll_write
  writes-Effect h w buf = elim (Bool-cases h.stream.is_write_closed) [
    | inl e ↦ keeps (ground arith) (λ _. e) (λ _ x. absurd (cc x))
    | inr e ↦
        elim (offered F w.frames (
          new_psh 1 h.stream.stream_id
            (take (min (length buf) (h.stream.config.max_frame_size - header_size)) buf))) [
              | inl (r, q) ↦ elim (Bool-cases w.state.closed) [
                | inl x ↦ keeps (ground arith) (λ y. y) (λ _ y. absurd (cc y))
                | inr x ↦ elim (Bool-cases (length buf == 0)) [
                  | inl y ↦ keeps (ground arith) (λ z. z) (λ _ z. absurd (cc z))
                  | inr y ↦
                      pushes
                        (take (min (length buf) (h.stream.config.max_frame_size - header_size)) buf)
                        (ground arith) e e
                ]
              ]
              | inr (r, q) ↦ keeps (ground arith) (λ x. x) (λ _ x. absurd (cc x))
            ]
  ]

  reads-Effect :
      (h : Handle) (w : Shared F) (n : ℕ)
      → let (h', w') = step B F h w (reads n) in Effect F h w h' w'
  unfolding step poll_read read_chunk read_channel read_received
  reads-Effect h w n = keeps (ground arith) (ground arith) (λ _ x. absurd (cc x))

  shuts_down-Effect :
      (h : Handle) (w : Shared F) → let (h', w') = step B F h w shuts_down in Effect F h w h' w'
  unfolding step poll_shutdown
  shuts_down-Effect h w = elim (Bool-cases h.stream.is_write_closed) [
    | inl e ↦ keeps (ground arith) (ground arith) (λ _ x. absurd (cc x))
    | inr e ↦ elim (offered F w.frames (new_fin 1 h.stream.stream_id)) [
      | inl (r, q) ↦ finishes (ground arith) (ground arith) (ground arith) refl
      | inr (r, q) ↦ keeps (ground arith) (ground arith) (λ _ x. absurd (cc x))
    ]
  ]

  closes-Effect :
      (h : Handle) (w : Shared F) → let (h', w') = step B F h w closes in Effect F h w h' w'
  unfolding step close send_fin
  closes-Effect h w = elim (Bool-cases h.stream.is_write_closed) [
    | inl e ↦ keeps (ground arith) (ground arith) (ground arith)
    | inr e ↦ elim (offered F w.frames (new_fin 1 h.stream.stream_id)) [
      | inl (r, q) ↦ finishes (ground arith) (ground arith) (ground arith) (ground arith)
      | inr (r, q) ↦ keeps (ground arith) (ground arith) (ground arith)
    ]
  ]

  resumed-Effect :
      (h : Handle) (w : Shared F)
      → (h.closing ≡ true → h.stream.is_write_closed ≡ true)
      → let (h', w') = step B F h w resumed in Effect F h w h' w'
  unfolding step send_fin
  resumed-Effect h w inv = elim (Bool-cases h.closing) [
    | inl e ↦ elim (offered F w.frames (new_fin 1 h.stream.stream_id)) [
      | inl (r, q) ↦ finishes (ground arith) (λ _. e) (ground (arith, inv e)) (ground arith)
      | inr (r, q) ↦ keeps (ground arith) (ground arith) (ground arith)
    ]
    | inr e ↦ keeps (ground arith) (ground arith) (ground arith)
  ]

  pub step-Same : (h : Handle) (w : Shared F) (c : Call) → IsSound h → Same h (step B F h w c).0
  unfolding step poll_read read_chunk read_channel read_received poll_write poll_shutdown close
      send_fin
  step-Same h w (reads n) inv = ground arith
  step-Same h w (writes buf) inv = ground arith
  step-Same h w flushes inv = ground arith
  step-Same h w shuts_down inv = ground arith
  step-Same h w closes inv = ground arith
  step-Same h w resumed inv = ground arith

  step-Effect :
      (h : Handle) (w : Shared F) (c : Call)
      → IsSound h
      → let (h', w') = step B F h w c in Effect F h w h' w'
  step-Effect h w (reads n) inv = reads-Effect h w n
  step-Effect h w (writes buf) inv = writes-Effect h w buf
  step-Effect h w flushes inv = unfold step poll_flush in keeps refl (λ x. x) (λ _ x. absurd (cc x))
  step-Effect h w shuts_down inv = shuts_down-Effect h w
  step-Effect h w closes inv = closes-Effect h w
  step-Effect h w resumed inv = resumed-Effect h w inv

  -- What a run adds to the frame channel.
  pub Sends : Handle → Shared F → Shared F → Type 0
  Sends h w w' =
      (added : List Frame) × (F.queue w'.frames ≡ F.queue w.frames ++ added)
      × Trail h.stream.stream_id (phase h) added

  Effect-Sends :
      (h : Handle) (w : Shared F) (h' : Handle) (w' w'' : Shared F)
      → Effect F h w h' w'
      → h'.stream.stream_id ≡ h.stream.stream_id
      → Sends h' w' w''
      → Sends h w w''
  unfolding Sends
  Effect-Sends h w h' w' w'' (keeps q wc cl) same (added, q', t) = (
    added,
    q' ∙ ap (λ (l : List Frame). l ++ added) q,
    Trail-shrink h.stream.stream_id _ _ _ _ added wc cl
        (subst (λ i. Trail i (phase h') added) same t),
  )
  Effect-Sends h w h' w' w'' (pushes bytes q wc wc') same (added, q', t) = (
    new_psh 1 h.stream.stream_id bytes ∷ added,
    q' ∙ ap (λ (l : List Frame). l ++ added) q ∙ append_assoc (F.queue w.frames) _ added,
    Trail-psh h.stream.stream_id _ _ _ _ bytes added wc wc'
        (subst (λ i. Trail i (phase h') added) same t),
  )
  Effect-Sends h w h' w' w'' (finishes q cl wc' cl') same (added, q', t) = (
    new_fin 1 h.stream.stream_id ∷ added,
    q' ∙ ap (λ (l : List Frame). l ++ added) q ∙ append_assoc (F.queue w.frames) _ added,
    Trail-fin h.stream.stream_id _ _ added cl (Trail-closed _ _ _ added wc' cl' t),
  )

  -- From any state of a stream in which a `close` waits only if the write side is closed, any
  -- sequence of its calls puts on the frame channel data frames of that stream and behind them at
  -- most one FIN frame, and nothing once the write side is closed (but the one FIN frame that a
  -- waiting `close` still owes).
  pub run-Sends :
      (h : Handle) (w : Shared F) (cs : List Call) → IsSound h → Sends h w (run B F h w cs).1
  unfolding run
  run-Sends h w [] inv =
      unfold Sends in ([], sym (append-nil (F.queue w.frames)), Trail-nil _ (phase h))
  run-Sends h w (c ∷ cs) inv =
      let (h', w') = step B F h w c in
      let same = step-Same h w c inv in
      Effect-Sends h w h' w' _ (step-Effect h w c inv) same.0 (run-Sends h' w' cs same.2)
