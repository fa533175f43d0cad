-- ===== src/Link/Sparing.antt =====
-- src/session.rs: what leaves a stream's channel and table entry alone.
use smux.Base.{
  ℕ, ◌<◌, ◌≡◌, ◌≢◌, inl, inr, refl, sym, ap, ◌∙◌, subst, true, some, Bool-cases, ◌==◌, ==_iff,
  arith,
}
use smux.Stream.{Stream, drop_stream}
use smux.Session.{SessionInner, StreamState}
use smux.Session.Handlers.{send_incoming}
use smux.Session.Local.{lookup, Local}
use smux.Session.Isolation.{remove-Local}
use smux.Session.Tasks.Counter.{remove_stream-state}
use smux.Link.{Spares}
use smux.Crates.Flume.{Flume, TrySend-cases}
use smux.Crates.DashMap.{DashMap}

module _ (F : Flume) (D : DashMap) where
  -- The stream's channel exists, and is no other stream's.
  pub record IsOwn (i : ℕ) (reader : Stream) (inner : SessionInner F D) : Type 0 where
    pub made : reader.data_rx < inner.fresh_pipe
    pub owner :
        (j : ℕ) (st : StreamState)
        → lookup F D inner j ≡ some st
        → st.data_tx ≡ reader.data_rx
        → j ≡ i

  pub Spares-IsOwn :
      (i : ℕ) (reader : Stream) (a b : SessionInner F D)
      → Spares F D i reader a b
      → IsOwn i reader a
      → IsOwn i reader b
  Spares-IsOwn i reader a b p h = record {
    made = omega (arith, p.fresh, h.made);
    owner = λ j st q e. elim (p.others j st q) [
      | inl old ↦ h.owner j st old e
      | inr other ↦ absurd (other (sym e))
    ];
  }

  pub Spares-trans :
      (i : ℕ) (reader : Stream) (a b c : SessionInner F D)
      → Spares F D i reader a b
      → Spares F D i reader b c
      → Spares F D i reader a c
  Spares-trans i reader a b c p q = record {
    own_pipe = q.own_pipe ∙ p.own_pipe;
    own_entry = q.own_entry ∙ p.own_entry;
    others =
        λ j st e. elim (q.others j st e) [ inl old ↦ p.others j st old | inr other ↦ inr other ];
    fresh = omega (arith, p.fresh, q.fresh);
    stays_closed = λ e. q.stays_closed (p.stays_closed e);
  }

  -- A change that concerns another stream.
  pub Local-Spares :
      (i k : ℕ) (reader : Stream) (a b : SessionInner F D)
      → Local F D k a b
      → k ≢ i
      → IsOwn i reader a
      → (a.shared.state.closed ≡ true → b.shared.state.closed ≡ true)
      → Spares F D i reader a b
  Local-Spares i k reader a b p ne own closed = record {
    own_pipe = p.memory reader.data_rx own.made (λ st q e. ne (own.owner k st q e));
    own_entry = p.table i ne;
    others = λ j st q. elim (Bool-cases (k == j)) [
      | inl same ↦
          let e : k ≡ j = (==_iff k j).0 same in
          elim (p.entry st (subst (λ x. lookup F D b x ≡ some st) (sym e) q)) [
            | inl old ↦ inl (subst (λ x. lookup F D a x ≡ some st) e old)
            | inr (new, _) ↦ inr (omega (arith, own.made))
          ]
      | inr other ↦ inl (sym (p.table j (ground (arith, other))) ∙ q)
    ];
    fresh = p.grows;
    stays_closed = closed;
  }

  -- A change that touches neither the table nor the channel.
  pub aside-Spares :
      (i : ℕ) (reader : Stream) (a b : SessionInner F D)
      → b.shared.pipes reader.data_rx ≡ a.shared.pipes reader.data_rx
      → b.streams ≡ a.streams
      → b.fresh_pipe ≡ a.fresh_pipe
      → b.shared.state.closed ≡ a.shared.state.closed
      → Spares F D i reader a b
  aside-Spares i reader a b pipe table fresh closed = record {
    own_pipe = pipe;
    own_entry = ap (λ m. D.get m i) table;
    others = λ j st q. inl (ap (λ m. D.get m j) (sym table) ∙ q);
    fresh = omega arith;
    stays_closed = λ e. closed ∙ e;
  }

  -- The end of the handler of another stream's SYN frame.
  pub send_incoming-Spares :
      (i : ℕ) (reader stream : Stream) (a : SessionInner F D)
      → stream.stream_id ≢ i
      → stream.data_rx ≢ reader.data_rx
      → IsOwn i reader a
      → Spares F D i reader a (send_incoming F D stream a).1
  unfolding send_incoming drop_stream
  send_incoming-Spares i reader stream a ne ne_rx own =
      let (r, c) = F.try_send a.incoming stream in
      elim (TrySend-cases r) [
        | inl e ↦ rw (e, send_incoming) (aside-Spares i reader a _ refl refl refl refl)
        | inr (inl e) ↦ rw (e, send_incoming) (aside-Spares i reader a _ refl refl refl refl)
        | inr (inr e) ↦
            let mid : SessionInner F D = record a {
              incoming = c;
              shared = drop_stream F stream a.shared;
            } in
            let dropped : Spares F D i reader a mid =
              aside-Spares i reader a mid (ground (arith, ne_rx)) refl refl refl in
            rw (e, send_incoming)
              (Spares-trans i reader a mid _ dropped (
                Local-Spares i stream.stream_id reader mid _ (remove-Local F D stream.stream_id mid)
                  ne (Spares-IsOwn i reader a mid dropped own)
                  (λ q. ap (λ st. st.closed) (remove_stream-state F D stream.stream_id mid) ∙ q)))
      ]
