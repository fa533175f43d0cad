-- ===== src/Session/Ids.antt =====
-- src/session.rs: the ids that a session gives to its streams.
use smux.Base.{
  ℕ, zero, suc, ◌+◌, ◌*◌, ◌%◌, ◌^◌, ◌≤◌, ◌<◌, ◌-◌, ◌≡◌, refl, List, arith, not, true, false, Bool,
  if◌then◌else◌,
}
use smux.Error.{Result, ok, err, SmuxError}
use smux.Session.{SessionInner, next_stream_id, validate_peer_stream_id, u32_max}
use smux.Session
use smux.Config.{Config}
use smux.Crates.Flume.{Flume}
use smux.Crates.DashMap.{DashMap}

module _ (F : Flume) (D : DashMap) where
  -- The session after `n` allocations.
  unfoldable pub allocated : ℕ → SessionInner F D → SessionInner F D
  allocated zero inner = inner
  allocated (suc n) inner = allocated n (next_stream_id F D inner).1

  -- The `n`th allocation, counted from 0.
  abbrev pub nth_id : ℕ → SessionInner F D → Result ℕ
  nth_id n inner = (next_stream_id F D (allocated n inner)).0

  allocated_lem :
      (n : ℕ) (inner : SessionInner F D)
      → inner.next_stream_id + 2 * n < 2 ^ 32
      → (allocated n inner).next_stream_id ≡ inner.next_stream_id + 2 * n
  unfolding allocated next_stream_id
  allocated_lem zero inner h = omega arith
  allocated_lem (suc n) inner h =
      let step : (inner.next_stream_id + 2) % 2 ^ 32 ≡ inner.next_stream_id + 2 = omega arith in
      omega (arith, step, allocated_lem n (next_stream_id F D inner).1 (omega arith))

  -- Up to the limit the `n`th id that a session allocates is `2 * n` above the first.
  pub nth_id_lem :
      (n : ℕ) (inner : SessionInner F D)
      → inner.next_stream_id + 2 * n ≤ u32_max - 2
      → nth_id n inner ≡ ok (inner.next_stream_id + 2 * n)
  unfolding next_stream_id
  nth_id_lem n inner h = ground (arith, allocated_lem n inner)

  validate_parity :
      (inner : SessionInner F D) (n : ℕ) (client : Bool)
      → let i = (if client then 1 else 2) + 2 * n in
        (inner.is_client ≡ not client → validate_peer_stream_id F D inner i ≡ ok tt)
        × (inner.is_client ≡ client
            → validate_peer_stream_id F D inner i ≡ err (SmuxError.invalid_stream_id i))
  unfolding validate_peer_stream_id
  validate_parity inner n true = (λ e. ground arith, λ e. ground arith)
  validate_parity inner n false = (λ e. ground arith, λ e. ground arith)

  -- Every id up to the limit that a new session allocates is accepted by a new session of the other
  -- side, whatever its configuration, and would be refused by one of its own side.
  pub allocated-accepted :
      (pipes pipes' : ℕ → F.Chan (List ℕ)) (cfg cfg' : Config) (client : Bool) (n i : ℕ)
      → (if client then 1 else 2) + 2 * n ≤ u32_max - 2
      → nth_id n (Session.new F D pipes cfg client) ≡ ok i
      → (validate_peer_stream_id F D (Session.new F D pipes' cfg' (not client)) i ≡ ok tt)
        × (validate_peer_stream_id F D (Session.new F D pipes' cfg' client) i
            ≡ err (SmuxError.invalid_stream_id i))
  unfolding Session.new
  allocated-accepted pipes pipes' cfg cfg' client n i h e =
      let same : i ≡ (if client then 1 else 2) + 2 * n =
        ground (arith, nth_id_lem n (Session.new F D pipes cfg client) h) in
      rw same (
        (validate_parity (Session.new F D pipes' cfg' (not client)) n client).0 refl,
        (validate_parity (Session.new F D pipes' cfg' client) n client).1 refl,
      )

  -- At the limit `next_stream_id` fails, but its counter wraps: the allocation after that
  -- succeeds again, with the id 1 where the counter is odd, and with the id 0, which every peer
  -- refuses, where it is even.
  pub nth_id_wraps :
      (inner peer : SessionInner F D)
      → u32_max - 2 < inner.next_stream_id
      → inner.next_stream_id ≤ u32_max
      → (nth_id 0 inner
          ≡ err (SmuxError.protocol_violation "Stream ID overflow - session should be restarted"))
        × (nth_id 1 inner ≡ ok (inner.next_stream_id % 2))
        × (validate_peer_stream_id F D peer 0 ≡ err (SmuxError.invalid_stream_id 0))
  unfolding allocated next_stream_id validate_peer_stream_id
  nth_id_wraps inner peer lo hi =
      let wrapped : (inner.next_stream_id + 2) % 2 ^ 32 ≡ inner.next_stream_id % 2 = omega arith in
      (ground arith, ground (arith, wrapped), ground arith)
