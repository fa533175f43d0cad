-- ===== src/Session/Local.antt =====
-- src/session.rs: what a change that concerns one stream leaves alone.
use smux.Base.{ℕ, ◌≤◌, ◌<◌, ◌≡◌, ◌≢◌, ◌⊎◌, refl, List, arith, ap, ◌∙◌, Option, some, inl, inr}
use smux.Stream.{update}
use smux.SessionState.{SessionState}
use smux.Session.{SessionInner, StreamState}
use smux.Session.Handlers.{Wait, proceed, stop, suspended}
use smux.Crates.Flume.{Flume}
use smux.Crates.DashMap.{DashMap}

pub Wait-cases : (w : Wait) → (w ≡ proceed) ⊎ ((w ≡ stop) ⊎ (w ≡ suspended))
Wait-cases proceed = inl refl
Wait-cases stop = inr (inl refl)
Wait-cases suspended = inr (inr refl)

module _ (F : Flume) (D : DashMap) where
  abbrev pub lookup : SessionInner F D → ℕ → Option StreamState
  lookup inner j = D.get inner.streams j

  -- Of the data channels that exist, only the one of the stream `i` may have changed, and no table
  -- entry but that of `i`, which may be gone, or lead to a new channel.
  pub record Local (i : ℕ) (inner inner' : SessionInner F D) : Type 0 where
    pub table : (j : ℕ) → i ≢ j → lookup inner' j ≡ lookup inner j
    pub memory :
        (k : ℕ)
        → k < inner.fresh_pipe
        → ((st : StreamState) → lookup inner i ≡ some st → st.data_tx ≢ k)
        → inner'.shared.pipes k ≡ inner.shared.pipes k
    pub grows : inner.fresh_pipe ≤ inner'.fresh_pipe
    pub entry :
        (st : StreamState)
        → lookup inner' i ≡ some st
        → (lookup inner i ≡ some st)
          ⊎ ((inner.fresh_pipe ≤ st.data_tx) × (st.data_tx < inner'.fresh_pipe))

  pub Local-trans : (i : ℕ) (a b c : SessionInner F D) → Local i a b → Local i b c → Local i a c
  Local-trans i a b c p q = record {
    table = λ j ne. q.table j ne ∙ p.table j ne;
    memory = λ k lt other.
        q.memory k (omega (arith, p.grows)) (λ st e. ground (arith, p.entry st e, other st))
        ∙ p.memory k lt other;
    grows = omega (arith, p.grows, q.grows);
    entry = λ st e. ground (arith, q.entry st e, p.entry st, p.grows, q.grows);
  }

  pub same-Local :
      (i : ℕ) (inner inner' : SessionInner F D)
      → inner'.streams ≡ inner.streams
      → inner'.shared.pipes ≡ inner.shared.pipes
      → inner'.fresh_pipe ≡ inner.fresh_pipe
      → Local i inner inner'
  same-Local i inner inner' e p n = record {
    table = λ j ne. ap (λ m. D.get m j) e;
    memory = λ k lt own. ap (λ f. f k) p;
    grows = omega arith;
    entry = λ st q. inl (rw e at q);
  }

  -- The channel of the stream `i` is replaced.
  pub pipe-Local :
      (i : ℕ) (inner : SessionInner F D) (st : StreamState) (c : F.Chan (List ℕ)) (s : SessionState)
      → lookup inner i ≡ some st
      → Local i inner (record inner {
        shared = record (inner.shared) {
          pipes = update inner.shared.pipes st.data_tx c;
          state = s;
        };
      })
  pipe-Local i inner st c s e = record {
    table = λ j ne. refl;
    memory = λ k lt own. ground (arith, own st e);
    grows = omega arith;
    entry = λ st' q. inl q;
  }
