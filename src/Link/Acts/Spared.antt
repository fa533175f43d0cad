-- ===== src/Link/Acts/Spared.antt =====
-- src/session.rs and src/stream.rs: the calls on other streams leave a stream's channel and its table
-- entry alone.
use smux.Base.{ℕ, ◌≡◌, ◌≢◌, inl, inr, refl, ◌∙◌, by_test, true, arith}
use smux.Error.{Result, Result-cases, ok}
use smux.SessionState
use smux.SessionState.{check_and_reset_data_received}
use smux.Stream
use smux.Stream.{
  Stream, Shared, Async, poll_read, read_chunk, read_channel, read_received, poll_write,
  poll_shutdown, send_fin, drop_stream, update,
}
use smux.Session
use smux.Session.{SessionInner, StreamState, next_stream_id}
use smux.Session.Table.{open_stream, accept_stream, add_stream}
use smux.Session.Local.{Local, Local-trans, same-Local}
use smux.Session.Isolation.{add-Local}
use smux.Session.Invariant.{send_syn-Local, counted-Local}
use smux.Session.Tasks.{send_ping, check_timeout}
use smux.Link.{Spares}
use smux.Link.Sparing.{IsOwn, Local-Spares, aside-Spares}
use smux.Link.Reading.{poll_read-closed}
use smux.Link.Acts.{
  Act, opens, closes, pings, checks, accepts, reads, writes, shuts_down, stream_closes, sends_fin,
  drops, IsOther, act,
}
use smux.Crates.Bytes.{BytesCrate}
use smux.Crates.Flume.{Flume}
use smux.Crates.DashMap.{DashMap}

module _ (F : Flume) (D : DashMap) where
  -- A change of what the streams share.
  shared-Spares :
      (i : ℕ) (reader : Stream) (inner : SessionInner F D) (shared : Shared F)
      → shared.pipes reader.data_rx ≡ inner.shared.pipes reader.data_rx
      → (inner.shared.state.closed ≡ true → shared.state.closed ≡ true)
      → Spares F D i reader inner (record inner { shared = shared })
  shared-Spares i reader inner shared pipe closed = record {
    own_pipe = pipe;
    own_entry = refl;
    others = λ j st q. inl q;
    fresh = omega arith;
    stays_closed = closed;
  }

  pub ok_id :
      (inner : SessionInner F D) (j : ℕ)
      → (next_stream_id F D inner).0 ≡ ok j
      → j ≡ inner.next_stream_id
  unfolding next_stream_id
  ok_id inner j e = ground (arith, e)

  open_stream-Local :
      (inner : SessionInner F D) → Local F D inner.next_stream_id inner (open_stream F D inner).1
  unfolding open_stream add_stream Stream.new
  open_stream-Local inner =
      let i = inner.next_stream_id in
      by_test {A = Async (Result Stream) × SessionInner F D} (λ r. Local F D i inner r.1)
        inner.shared.state.closed _ _ (λ _. same-Local F D i inner _ refl refl refl)
        (λ _.
          let counted = (next_stream_id F D inner).1 in
          elim (Result-cases (next_stream_id F D inner).0) [
            | inl (j, e) ↦ rw e (
                rw (ok_id inner j e) (
                  send_syn-Local F D i inner (add_stream F D i counted).1
                    (add_stream F D i counted).0
                    (Local-trans F D i inner counted _ (counted-Local F D i inner)
                      (add-Local F D i counted))
                    (omega (arith, (counted-Local F D i inner).grows))))
            | inr (x, e) ↦ rw e (counted-Local F D i inner)
          ])

  open_stream-closed :
      (inner : SessionInner F D)
      → inner.shared.state.closed ≡ true
      → (open_stream F D inner).1.shared.state.closed ≡ true
  unfolding open_stream
  open_stream-closed inner h = ground (arith, h)

  check_timeout-Spares :
      (i : ℕ) (reader : Stream) (inner : SessionInner F D)
      → Spares F D i reader inner (check_timeout F D inner).1
  unfolding check_timeout check_and_reset_data_received Session.close SessionState.close
  check_timeout-Spares i reader inner = record {
    own_pipe = ground arith;
    own_entry = ground arith;
    others = λ j st q. inl (ground (arith, q));
    fresh = ground arith;
    stays_closed = λ e. ground (arith, e);
  }

module _ (B : BytesCrate) (F : Flume) (D : DashMap) where
  pub act-Spares :
      (i : ℕ) (reader : Stream) (inner : SessionInner F D) (a : Act)
      → IsOwn F D i reader inner
      → inner.next_stream_id ≢ i
      → IsOther i reader.data_rx a
      → Spares F D i reader inner (act B F D inner a)
  unfolding act
  act-Spares i reader inner opens own ne other =
      Local-Spares F D i inner.next_stream_id reader inner _ (open_stream-Local F D inner) ne own
        (open_stream-closed F D inner)
  act-Spares i reader inner closes own ne other =
      unfold Session.close in
      shared-Spares F D i reader inner _ refl (λ e. unfold SessionState.close in ground (arith, e))
  act-Spares i reader inner pings own ne other =
      aside-Spares F D i reader inner _ (unfold send_ping in refl) (unfold send_ping in refl)
        (unfold send_ping in refl) (unfold send_ping in refl)
  act-Spares i reader inner checks own ne other = check_timeout-Spares F D i reader inner
  act-Spares i reader inner (accepts notified) own ne other =
      aside-Spares F D i reader inner _ (unfold accept_stream in ground arith)
        (unfold accept_stream in ground arith) (unfold accept_stream in ground arith)
        (unfold accept_stream in ground arith)
  act-Spares i reader inner (reads s n) own ne other =
      shared-Spares F D i reader inner _
        (unfold poll_read read_chunk read_channel read_received in ground (arith, other.rx_differs))
        (λ e. poll_read-closed B F s inner.shared n ∙ e)
  act-Spares i reader inner (writes s buf) own ne other =
      shared-Spares F D i reader inner _ (unfold poll_write in ground arith)
        (λ e. unfold poll_write in ground (arith, e))
  act-Spares i reader inner (shuts_down s) own ne other =
      shared-Spares F D i reader inner _ (unfold poll_shutdown in ground arith)
        (λ e. unfold poll_shutdown in ground (arith, e))
  act-Spares i reader inner (stream_closes s) own ne other =
      shared-Spares F D i reader inner _ (unfold Stream.close send_fin in ground arith)
        (λ e. unfold Stream.close send_fin in ground (arith, e))
  act-Spares i reader inner (sends_fin s) own ne other =
      shared-Spares F D i reader inner _ (unfold send_fin in refl) (λ e. unfold send_fin in e)
  act-Spares i reader inner (drops s) own ne other =
      shared-Spares F D i reader inner _ (unfold drop_stream in ground (arith, other.rx_differs))
        (λ e. unfold drop_stream in e)
