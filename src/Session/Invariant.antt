-- ===== src/Session/Invariant.antt =====
-- src/session.rs: the stream table and the data channels that its entries lead to.
use smux.Base.{ℕ, ◌≤◌, ◌<◌, ◌≡◌, refl, List, [], ◌∷◌, arith, Bool, some, by_test}
use smux.Error.{Result, ok, err}
use smux.Config.{Config}
use smux.Frame.{Frame}
use smux.Stream
use smux.Stream.{Stream, Shared, Async, done, waiting, drop_stream}
use smux.Session.{SessionInner, StreamState, next_stream_id, is_closed}
use smux.Session
use smux.Session.Table.{add_stream, open_stream, accept_stream, send_syn}
use smux.Session.Handlers.{Wake, handle_frame}
use smux.Session.Local.{lookup, Local, Local-trans, same-Local}
use smux.Session.Isolation.{handle_frame-Local, add-Local}
use smux.Crates.Flume.{Flume}
use smux.Crates.DashMap.{DashMap}

module _ (F : Flume) (D : DashMap) where
  -- Every entry leads to a channel that was made, and two entries never lead to the same one.
  pub record IsWf (inner : SessionInner F D) : Type 0 where
    pub owned :
        (j : ℕ) (st : StreamState) → lookup F D inner j ≡ some st → st.data_tx < inner.fresh_pipe
    pub distinct :
        (j k : ℕ) (st st' : StreamState)
        → lookup F D inner j ≡ some st
        → lookup F D inner k ≡ some st'
        → st.data_tx ≡ st'.data_tx
        → j ≡ k

  pub Local-IsWf : (i : ℕ) (a b : SessionInner F D) → Local F D i a b → IsWf a → IsWf b
  Local-IsWf i a b p h = record {
    owned = λ j st q. ground (arith, p.table j, p.entry st, h.owned j st, p.grows);
    distinct = λ j k st st' q q' e. ground (
      arith,
      p.table j,
      p.table k,
      p.entry st,
      p.entry st',
      h.owned j st,
      h.owned k st',
      h.distinct j k st st',
      p.grows,
    );
  }

  pub send_syn-Local :
      (i : ℕ) (inner added : SessionInner F D) (stream : Stream)
      → Local F D i inner added
      → inner.fresh_pipe ≤ stream.data_rx
      → Local F D i inner (send_syn F D stream added).1
  unfolding send_syn drop_stream
  send_syn-Local i inner added stream p new = record {
    table = λ j ne. ground (arith, p.table j ne);
    memory = λ k lt own. ground (arith, p.memory k lt own);
    grows = ground (arith, p.grows);
    entry = λ st q. ground (arith, p.entry st);
  }

  pub counted-Local :
      (i : ℕ) (inner : SessionInner F D) → Local F D i inner (next_stream_id F D inner).1
  unfolding next_stream_id
  counted-Local i inner = same-Local F D i inner _ refl refl refl

  open_stream-Local :
      (inner : SessionInner F D) → (i : ℕ) × Local F D i inner (open_stream F D inner).1
  unfolding open_stream add_stream Stream.new
  open_stream-Local inner =
      by_test {A = Async (Result Stream) × SessionInner F D} (λ r. (i : ℕ) × Local F D i inner r.1)
        inner.shared.state.closed _ _ (λ _. (0, same-Local F D 0 inner _ refl refl refl))
        (λ _. opened (next_stream_id F D inner).0)
    where
      opened :
          (r : Result ℕ)
          → (i : ℕ) × Local F D i inner
              (elim r as (λ _. Async (Result Stream) × SessionInner F D) [
                | err e ↦ (done (err e), (next_stream_id F D inner).1)
                | ok i ↦
                    let (stream, added) = add_stream F D i (next_stream_id F D inner).1 in
                    send_syn F D stream added
              ]).1
      opened (err e) = (0, counted-Local 0 inner)
      opened (ok i) =
          let counted = (next_stream_id F D inner).1 in
          (
            i,
            send_syn-Local i inner (add_stream F D i counted).1 (add_stream F D i counted).0
                (Local-trans F D i inner counted _ (counted-Local i inner)
                  (add-Local F D i counted))
                (omega (arith, (counted-Local i inner).grows)),
          )

  -- What happens to a session: a call of its owner, an incoming frame, or anything that the owners
  -- of streams and the other tasks do to what the session shares with them.
  pub data Event : Type 0 where
    opens closes : Event
    accepts : Bool → Event
    frame_in : Frame → List Wake → Event
    outside : Shared F → Event

  pub step : SessionInner F D → Event → SessionInner F D
  step inner opens = (open_stream F D inner).1
  step inner closes = Session.close F D inner
  step inner (accepts notified) = (accept_stream F D notified inner).1
  step inner (frame_in f ws) = (handle_frame F D f ws inner).1
  step inner (outside shared) = record inner { shared = shared }

  pub run : SessionInner F D → List Event → SessionInner F D
  run inner [] = inner
  run inner (e ∷ es) = run (step inner e) es

  step-IsWf : (inner : SessionInner F D) (e : Event) → IsWf inner → IsWf (step inner e)
  unfolding step
  step-IsWf inner opens h = let (i, p) = open_stream-Local inner in Local-IsWf i inner _ p h
  step-IsWf inner closes h =
      unfold Session.close in record { owned = h.owned; distinct = h.distinct }
  step-IsWf inner (accepts notified) h =
      Local-IsWf 0 inner _
        (unfold accept_stream in
          same-Local F D 0 inner _ (ground arith) (ground arith) (ground arith))
        h
  step-IsWf inner (frame_in f ws) h =
      Local-IsWf f.stream_id inner _ (handle_frame-Local F D f ws inner) h
  step-IsWf inner (outside shared) h = record { owned = h.owned; distinct = h.distinct }

  run-IsWf : (inner : SessionInner F D) (es : List Event) → IsWf inner → IsWf (run inner es)
  unfolding run
  run-IsWf inner [] h = h
  run-IsWf inner (e ∷ es) h = run-IsWf (step inner e) es (step-IsWf inner e h)

  -- In every state that a new session can reach, each entry of the stream table leads to a data
  -- channel of its own, whatever its owner calls, whatever frames come in, and whatever the streams'
  -- owners and the other tasks do in between.
  pub run-new-IsWf :
      (pipes : ℕ → F.Chan (List ℕ)) (cfg : Config) (client : Bool) (es : List Event)
      → IsWf (run (Session.new F D pipes cfg client) es)
  unfolding Session.new
  run-new-IsWf pipes cfg client es = run-IsWf _ es (record {
    owned = λ j st q. absurd (cc (D.get-new StreamState j));
    distinct = λ j k st st' q q' e. absurd (cc (D.get-new StreamState j));
  })
