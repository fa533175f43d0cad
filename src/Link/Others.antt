-- ===== src/Link/Others.antt =====
-- src/session.rs: the receiving task with a frame of another stream.
use smux.Base.{
  ℕ, ◌≡◌, ◌≢◌, ◌⊎◌, inl, inr, refl, sym, ap, ◌∙◌, Bool-cases, subst, List, [], ◌∷◌, ◌++◌, flatten,
  arith,
}
use smux.Error.{Result}
use smux.Session.Local.{Local}
use smux.Command.{Command, syn, fin, psh, nop, upd}
use smux.Frame.{Frame}
use smux.SessionState.{is_positive, mark_data_received}
use smux.Stream
use smux.Stream.{Stream, Async}
use smux.Stream.Drain.{all_full}
use smux.Stream.Read.{unread, chunk_bytes}
use smux.Session.{SessionInner}
use smux.Session.Handlers.{with_state, deliver, handle_psh_frame, handle_frame}
use smux.Session.Isolation.{handle_frame-Local, psh-Local, deliver-Local}
use smux.Session.Tasks.{
  RecvTask, receiving, accepting, charging, delivering, continue, paused, recv_step, frame_in,
}
use smux.Session.Tasks.Demux.{bytes_for}
use smux.Link.{Spares}
use smux.Link.Reading.{IsReadable}
use smux.Link.Sparing.{IsOwn, Spares-IsOwn, Local-Spares, aside-Spares}
use smux.Link.Handling.{
  held_frames, IsAside, continue-at, continue-inner, deliver-closed, psh-closed, frame-closed,
  Handled,
}
use smux.Crates.Flume.{Flume}
use smux.Crates.DashMap.{DashMap}

module _ (F : Flume) (D : DashMap) where
  -- Where a handler stands that waits.
  pub paused-cases :
      (f : Frame) (inner : SessionInner F D)
      → (paused F D f inner ≡ receiving)
        ⊎ (((f.cmd ≡ syn)
              × (paused F D f inner
                  ≡ accepting (Stream.new f.stream_id inner.fresh_pipe inner.config)))
            ⊎ ((f.cmd ≡ psh)
                × ((paused F D f inner ≡ delivering f) ⊎ (paused F D f inner ≡ charging f))))
  paused-cases f inner = cases f.cmd refl
    where
      cases :
          (c : Command)
          → f.cmd ≡ c
          → (paused F D f inner ≡ receiving)
            ⊎ (((f.cmd ≡ syn)
                  × (paused F D f inner
                      ≡ accepting (Stream.new f.stream_id inner.fresh_pipe inner.config)))
                ⊎ ((f.cmd ≡ psh)
                    × ((paused F D f inner ≡ delivering f) ⊎ (paused F D f inner ≡ charging f))))
      cases syn e = inr (inl (e, unfold paused in ground arith))
      cases fin e = inl (unfold paused in ground arith)
      cases psh e = elim (Bool-cases (is_positive inner.shared.state.tokens)) [
        | inl t ↦ inr (inr (e, inl (unfold paused in ground arith)))
        | inr t ↦ inr (inr (e, inr (unfold paused in ground arith)))
      ]
      cases nop e = inl (unfold paused in ground arith)
      cases (upd a b) e = inl (unfold paused in ground arith)

  pub paused-held :
      (f : Frame) (inner : SessionInner F D)
      → (held_frames (paused F D f inner) ≡ []) ⊎ (held_frames (paused F D f inner) ≡ f ∷ [])
  paused-held f inner = elim (paused-cases f inner) [
    | inl e ↦ inl (ap held_frames e)
    | inr (inl (_, e)) ↦ inl (ap held_frames e)
    | inr (inr (_, inl e)) ↦ inr (ap held_frames e)
    | inr (inr (_, inr e)) ↦ inr (ap held_frames e)
  ]

  pub paused-IsAside :
      (i : ℕ) (reader : Stream) (f : Frame) (inner : SessionInner F D)
      → f.stream_id ≢ i
      → IsOwn F D i reader inner
      → IsAside i reader (paused F D f inner)
  unfolding Stream.new
  paused-IsAside i reader f inner ne own = elim (paused-cases f inner) [
    | inl e ↦ subst (IsAside i reader) (sym e) tt
    | inr (inl (is_syn, e)) ↦
        subst (IsAside i reader) (sym e) (ne, λ q. absurd (omega (arith, own.made, q)))
    | inr (inr (is_psh, inl e)) ↦ subst (IsAside i reader) (sym e) (is_psh, ne)
    | inr (inr (is_psh, inr e)) ↦ subst (IsAside i reader) (sym e) is_psh
  ]

module _ (F : Flume) (D : DashMap) (i : ℕ) (reader : Stream) where
  -- The stream's channel and entry are left alone.
  spared-Handled :
      (f : Frame) (a : SessionInner F D) (at : RecvTask) (b : SessionInner F D)
      → f.stream_id ≢ i
      → Spares F D i reader a b
      → IsAside i reader at
      → (held_frames at ≡ []) ⊎ (held_frames at ≡ f ∷ [])
      → IsOwn F D i reader a
      → IsReadable F reader a.shared
      → Handled F D i reader f a (at, b)
  spared-Handled f a at b ne p aside held own h =
      let apart : bytes_for i (f ∷ []) ≡ [] = ground arith in
      let none_held : bytes_for i (held_frames at) ≡ [] = elim held [
        | inl e ↦ ap (bytes_for i) e
        | inr e ↦ ap (bytes_for i) e ∙ apart
      ] in
      record {
        content =
            ap
              (λ c.
                (chunk_bytes reader.current_chunk ++ flatten (F.queue c))
                ++ bytes_for i (held_frames at))
              p.own_pipe
            ∙ ap (λ (l : List ℕ). unread F reader a.shared ++ l) (none_held ∙ sym apart);
        aside = aside;
        own = Spares-IsOwn F D i reader a b p own;
        readable = record {
          read_open = h.read_open;
          chunk_full = h.chunk_full;
          messages_full = ap (λ c. all_full (F.queue c)) p.own_pipe ∙ h.messages_full;
          reader_left = ap F.receiving p.own_pipe ∙ h.reader_left;
          no_limit = ap F.is_unbounded p.own_pipe ∙ h.no_limit;
        };
        stays_closed = p.stays_closed;
        held = held;
        outcome = inr (
          λ o. record {
            known = (o.known.0, p.own_entry ∙ o.known.1, o.known.2);
            sender_left = ap F.sending p.own_pipe ∙ o.sender_left;
          },
          ap F.sending p.own_pipe,
        );
      }

  -- A handler of another stream's frame `f` came to the result `r` for its stream.
  other-Handled :
      (f : Frame) (a : SessionInner F D) (r : Async (Result (Unit {0})) × SessionInner F D)
      (at : RecvTask)
      → f.stream_id ≢ i
      → Local F D f.stream_id a r.1
      → r.1.shared.state.closed ≡ a.shared.state.closed
      → IsAside i reader at
      → (held_frames at ≡ []) ⊎ (held_frames at ≡ f ∷ [])
      → IsOwn F D i reader a
      → IsReadable F reader a.shared
      → Handled F D i reader f a (continue F D r at)
  other-Handled f a r at ne p closed aside held own h =
      spared-Handled f a (continue F D r at).0 (continue F D r at).1 ne
        (rw (continue-inner F D r at)
          (Local-Spares F D i f.stream_id reader a r.1 p ne own (λ e. closed ∙ e)))
        (continue-at F D (IsAside i reader) r at tt aside)
        (continue-at F D (λ at'. (held_frames at' ≡ []) ⊎ (held_frames at' ≡ f ∷ [])) r at
          (inl refl) held)
        own h

  -- The mark that a frame has come in is nothing to the stream.
  pub marked-Handled :
      (f : Frame) (a : SessionInner F D) (r : RecvTask × SessionInner F D)
      → Handled F D i reader f (with_state F D (mark_data_received a.shared.state) a) r
      → Handled F D i reader f a r
  unfolding mark_data_received
  marked-Handled f a r h = record {
    content = h.content;
    aside = h.aside;
    own = h.own;
    readable = h.readable;
    stays_closed = h.stays_closed;
    held = h.held;
    outcome = elim h.outcome [
      | inl ends ↦ inl ends
      | inr (open_still, sending) ↦
          inr (λ o. open_still (record { known = o.known; sender_left = o.sender_left }), sending)
    ];
  }

  pub other_frame-Handled :
      (f : Frame) (a : SessionInner F D)
      → f.stream_id ≢ i
      → IsOwn F D i reader a
      → IsReadable F reader a.shared
      → Handled F D i reader f a (recv_step F D receiving a (frame_in f))
  unfolding recv_step mark_data_received
  other_frame-Handled f a ne own h =
      let marked = with_state F D (mark_data_received a.shared.state) a in
      let same = aside-Spares F D i reader a marked refl refl refl refl in
      let from =
        other-Handled f marked (handle_frame F D f [] marked) (paused F D f marked) ne
          (handle_frame-Local F D f [] marked) (frame-closed F D f.cmd f marked refl)
          (paused-IsAside F D i reader f marked ne (Spares-IsOwn F D i reader a marked same own))
          (paused-held F D f marked) (Spares-IsOwn F D i reader a marked same own)
          (record {
            read_open = h.read_open;
            chunk_full = h.chunk_full;
            messages_full = h.messages_full;
            reader_left = h.reader_left;
            no_limit = h.no_limit;
          }) in
      marked-Handled f a (continue F D (handle_frame F D f [] marked) (paused F D f marked)) from

  pub other_psh-Handled :
      (f : Frame) (a : SessionInner F D)
      → f.stream_id ≢ i
      → f.cmd ≡ psh
      → IsOwn F D i reader a
      → IsReadable F reader a.shared
      → Handled F D i reader f a (continue F D (handle_psh_frame F D f [] a) (paused F D f a))
  other_psh-Handled f a ne is_psh own h =
      other-Handled f a (handle_psh_frame F D f [] a) (paused F D f a) ne (psh-Local F D f [] a)
        (psh-closed F D f a) (paused-IsAside F D i reader f a ne own) (paused-held F D f a) own h

  pub other_deliver-Handled :
      (f : Frame) (a : SessionInner F D)
      → f.stream_id ≢ i
      → f.cmd ≡ psh
      → IsOwn F D i reader a
      → IsReadable F reader a.shared
      → Handled F D i reader f a (continue F D (deliver F D f.stream_id f.payload a) (delivering f))
  other_deliver-Handled f a ne is_psh own h =
      other-Handled f a (deliver F D f.stream_id f.payload a) (delivering f) ne
        (deliver-Local F D f.stream_id f.payload a) (deliver-closed F D f.stream_id f.payload a)
        (is_psh, ne) (inr refl) own h
