-- ===== src/Link/Own.antt =====
-- src/session.rs: the receiving task with a frame of the stream itself.
use smux.Base.{
  ℕ, ◌≡◌, ◌⊎◌, inl, inr, refl, sym, ap, ◌∙◌, true, false, Bool-cases, subst, some, List, [], ◌++◌,
  length, flatten, ◌==◌, arith,
}
use smux.Command.{fin, psh}
use smux.Frame.{Frame}
use smux.SessionState.{is_positive, get_tokens, take_tokens, mark_data_received}
use smux.Stream.{Stream, update}
use smux.Stream.Drain.{all_full}
use smux.Stream.Read.{unread, chunk_bytes}
use smux.Session.{SessionInner}
use smux.Session.Table.{drop_state}
use smux.Session.Handlers.{
  with_state, wait_tokens, handle_fin_frame, handle_psh_frame, handle_frame,
}
use smux.Session.Local.{lookup}
use smux.Session.Flow.{wait_tokens_positive}
use smux.Session.Tasks.{RecvTask, receiving, charging, continue, paused, recv_step, frame_in}
use smux.Link.Reading.{IsReadable}
use smux.Link.Sparing.{IsOwn}
use smux.Link.Handling.{IsOpen, Handled}
use smux.Link.Fed.{fed, deliver-fed, own_bytes, fed-Handled, kept-Handled}
use smux.Link.Others.{marked-Handled}
use smux.Crates.Flume.{Flume}
use smux.Crates.DashMap.{DashMap}

module _ (F : Flume) (D : DashMap) (i : ℕ) (reader : Stream) where
  psh-empty :
      (f : Frame) (a : SessionInner F D) (at : RecvTask)
      → (length f.payload == 0) ≡ true
      → continue F D (handle_psh_frame F D f [] a) at ≡ (receiving, a)
  unfolding handle_psh_frame
  psh-empty f a at e = ground (arith, e)

  psh-fed :
      (f : Frame) (a : SessionInner F D) (at : RecvTask)
      → (length f.payload == 0) ≡ false
      → f.stream_id ≡ i
      → is_positive a.shared.state.tokens ≡ true
      → IsOpen F D i reader a
      → IsReadable F reader a.shared
      → continue F D (handle_psh_frame F D f [] a) at ≡ (receiving, fed F D i reader a f.payload)
  unfolding handle_psh_frame
  psh-fed f a at pos e tokens o h = ground (
    arith,
    pos,
    wait_tokens_positive (length f.payload) [] a.shared.state tokens,
    e,
    deliver-fed F D i reader f.payload a o h,
  )

  psh-waits :
      (f : Frame) (a : SessionInner F D)
      → (length f.payload == 0) ≡ false
      → f.cmd ≡ psh
      → is_positive a.shared.state.tokens ≡ false
      → continue F D (handle_psh_frame F D f [] a) (paused F D f a)
        ≡ (charging f, with_state F D (take_tokens (length f.payload) a.shared.state) a)
  unfolding handle_psh_frame wait_tokens get_tokens paused
  psh-waits f a pos is_psh tokens = ground (arith, pos, tokens, is_psh)

  pub own_psh-Handled :
      (f : Frame) (a : SessionInner F D)
      → f.stream_id ≡ i
      → f.cmd ≡ psh
      → IsOpen F D i reader a
      → IsOwn F D i reader a
      → IsReadable F reader a.shared
      → Handled F D i reader f a (continue F D (handle_psh_frame F D f [] a) (paused F D f a))
  own_psh-Handled f a e is_psh o own h = elim (Bool-cases (length f.payload == 0)) [
    | inl empty ↦
        let nothing : f.payload ≡ [] = ground (arith, empty) in
        subst (Handled F D i reader f a) (sym (psh-empty f a (paused F D f a) empty)) (
          kept-Handled F D i reader f a a receiving (sym (own_bytes F D i reader f e ∙ nothing)) tt
            (inl refl) refl refl refl refl own h)
    | inr filled ↦ elim (Bool-cases (is_positive a.shared.state.tokens)) [
      | inl tokens ↦
          subst (Handled F D i reader f a) (sym (psh-fed f a (paused F D f a) filled e tokens o h))
            (fed-Handled F D i reader f a e (ground (arith, filled)) o own h)
      | inr tokens ↦ subst (Handled F D i reader f a) (sym (psh-waits f a filled is_psh tokens)) (
          kept-Handled F D i reader f a
            (with_state F D (take_tokens (length f.payload) a.shared.state) a) (charging f) refl
            is_psh (inr refl) refl refl refl (unfold take_tokens in refl) own h)
    ]
  ]

  -- The session once the stream is removed with its sender.
  abbrev ended : SessionInner F D → SessionInner F D
  ended a = record a {
    streams = (D.remove a.streams i).1;
    shared = record (a.shared) {
      pipes = update a.shared.pipes reader.data_rx (F.close_tx (a.shared.pipes reader.data_rx));
    };
  }

  fin-ended :
      (f : Frame) (a : SessionInner F D) (at : RecvTask)
      → f.stream_id ≡ i
      → IsOpen F D i reader a
      → continue F D (handle_fin_frame F D f a) at ≡ (receiving, ended a)
  unfolding handle_fin_frame drop_state
  fin-ended f a at e o =
      let known : lookup F D a i ≡ some (o.known.0) = o.known.1 in
      ground (arith, e, known, o.known.2, D.remove_lem a.streams i i)

  ended-Handled :
      (f : Frame) (a : SessionInner F D)
      → f.stream_id ≡ i
      → f.cmd ≡ fin
      → f.payload ≡ []
      → IsOwn F D i reader a
      → IsReadable F reader a.shared
      → Handled F D i reader f a (receiving, ended a)
  ended-Handled f a e is_fin nothing own h =
      let law = F.close_tx_lem (a.shared.pipes reader.data_rx) in
      let queue : F.queue ((ended a).shared.pipes reader.data_rx)
          ≡ F.queue (a.shared.pipes reader.data_rx) =
        ground (arith, law) in
      record {
        content =
            ap (λ (q : List (List ℕ)). (chunk_bytes reader.current_chunk ++ flatten q) ++ []) queue
            ∙ ap (λ (l : List ℕ). unread F reader a.shared ++ l)
                (sym (own_bytes F D i reader f e ∙ nothing));
        aside = tt;
        own = record {
          made = own.made;
          owner =
              λ j st q same. own.owner j st (ground (arith, D.remove_lem a.streams i j, q)) same;
        };
        readable = record {
          read_open = h.read_open;
          chunk_full = h.chunk_full;
          messages_full = ap all_full queue ∙ h.messages_full;
          reader_left = ground (arith, law, h.reader_left);
          no_limit =
              ground (arith, F.is_unbounded-close_tx (a.shared.pipes reader.data_rx), h.no_limit);
        };
        stays_closed = λ q. q;
        held = inl refl;
        outcome = inl (e, is_fin, refl, ground (arith, law));
      }

  -- The stream is open, and its own data or FIN frame comes in.
  pub own_frame-Handled :
      (f : Frame) (a : SessionInner F D)
      → f.stream_id ≡ i
      → (f.cmd ≡ psh) ⊎ ((f.cmd ≡ fin) × (f.payload ≡ []))
      → IsOpen F D i reader a
      → IsOwn F D i reader a
      → IsReadable F reader a.shared
      → Handled F D i reader f a (recv_step F D receiving a (frame_in f))
  own_frame-Handled f a e kind o own h =
      let marked = with_state F D (mark_data_received a.shared.state) a in
      let o' : IsOpen F D i reader marked = record {
        known = o.known;
        sender_left = o.sender_left;
      } in
      let own' : IsOwn F D i reader marked = record { made = own.made; owner = own.owner } in
      let h' : IsReadable F reader marked.shared = record {
        read_open = h.read_open;
        chunk_full = h.chunk_full;
        messages_full = h.messages_full;
        reader_left = h.reader_left;
        no_limit = h.no_limit;
      } in
      elim kind [
        | inl is_psh ↦
            let same : recv_step F D receiving a (frame_in f)
                ≡ continue F D (handle_psh_frame F D f [] marked) (paused F D f marked) =
              unfold recv_step handle_frame in ground (arith, is_psh) in
            subst (Handled F D i reader f a) (sym same)
              (marked-Handled F D i reader f a _ (own_psh-Handled f marked e is_psh o' own' h'))
        | inr (is_fin, nothing) ↦
            let same : recv_step F D receiving a (frame_in f)
                ≡ continue F D (handle_fin_frame F D f marked) (paused F D f marked) =
              unfold recv_step handle_frame in ground (arith, is_fin) in
            subst (Handled F D i reader f a)
              (sym (same ∙ fin-ended f marked (paused F D f marked) e o'))
              (marked-Handled F D i reader f a _ (ended-Handled f marked e is_fin nothing own' h'))
      ]
