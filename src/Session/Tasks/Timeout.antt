-- ===== src/Session/Tasks/Timeout.antt =====
-- src/session.rs: how `keep_alive_loop` notices that the peer is gone, and when it cannot.
use smux.Base.{◌≡◌, ◌⊎◌, refl, Bool, true, false, ◌&&◌, not, List, [], ◌∷◌, All, arith}
use smux.Frame.{new_nop}
use smux.SessionState
use smux.SessionState.{SessionState, is_positive}
use smux.Stream.{Shared}
use smux.Session
use smux.Session.{SessionInner}
use smux.Session.Tasks.{
  AliveTask, listening, pinging, Tick, pinged, timed_out, notified, room, outside, send_ping,
  keep_alive_step, keep_alive_run, keep_alive_loop,
}
use smux.Crates.Flume.{Flume}
use smux.Crates.DashMap.{DashMap}

module _ (F : Flume) (D : DashMap) where
  -- No data has come in since the last timeout, tokens are left, and `send_loop` still listens.
  abbrev pub is_idle : Shared F → Bool
  is_idle shared =
      not shared.state.data_received && is_positive shared.state.tokens && F.receiving shared.frames

  -- What may come between two timeouts while nothing comes in.
  abbrev pub is_quiet : Tick F D → Bool
  is_quiet (outside shared) = is_idle shared
  is_quiet pinged = true
  is_quiet room = true
  is_quiet timed_out = false
  is_quiet notified = false

  -- The task has not ended, and the peer is as silent as before.
  record IsWatching (at : AliveTask) (inner : SessionInner F D) : Type 0 where
    alive : (at ≡ listening) ⊎ (at ≡ pinging)
    idle : is_idle inner.shared ≡ true

  -- The frame channel has no room, and nobody else closes the session.
  abbrev pub is_clogged : Tick F D → Bool
  is_clogged (outside shared) = not shared.state.closed
  is_clogged pinged = true
  is_clogged timed_out = true
  is_clogged notified = true
  is_clogged room = false

  clogged_run :
      (inner : SessionInner F D) (ts : List (Tick F D))
      → inner.shared.state.closed ≡ false
      → All (λ t. is_clogged t ≡ true) ts
      → let r = keep_alive_run F D pinging inner ts in
        (r.0 ≡ pinging) × (r.1.shared.state.closed ≡ false)
  unfolding keep_alive_run keep_alive_step
  clogged_run inner [] still qs = (refl, still)
  clogged_run inner (outside shared ∷ ts) still (q, qs) =
      clogged_run (record inner { shared = shared }) ts (ground (arith, q)) qs
  clogged_run inner (pinged ∷ ts) still (q, qs) = clogged_run inner ts still qs
  clogged_run inner (timed_out ∷ ts) still (q, qs) = clogged_run inner ts still qs
  clogged_run inner (notified ∷ ts) still (q, qs) = clogged_run inner ts still qs
  clogged_run inner (room ∷ ts) still (q, qs) = absurd (cc q)

  -- With keep-alive enabled, in an open session, a ping that finds the frame channel full, where
  -- `send_loop` still listens, ends the watch: for as long as the channel has no room and nobody
  -- else closes the session, no number of timeouts does.
  pub keep_alive_blocks :
      (inner : SessionInner F D) (ts : List (Tick F D))
      → inner.config.enable_keep_alive ≡ true
      → inner.shared.state.closed ≡ false
      → F.receiving inner.shared.frames ≡ true
      → F.has_room inner.shared.frames ≡ false
      → All (λ t. is_clogged t ≡ true) ts
      → let r = keep_alive_loop F D inner (pinged ∷ ts) in
        (r.0 ≡ pinging) × (r.1.shared.state.closed ≡ false)
  unfolding keep_alive_loop keep_alive_run keep_alive_step send_ping
  keep_alive_blocks inner ts enabled still listens no_room qs =
      let ping = F.try_send_lem inner.shared.frames (new_nop inner.config.version) in
      ground (arith, ping, clogged_run (send_ping F D inner).1 ts still qs)
