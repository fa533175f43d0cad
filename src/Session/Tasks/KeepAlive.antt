-- ===== src/Session/Tasks/KeepAlive.antt =====
-- src/session.rs: when `keep_alive_loop` closes the session, and when it does not.
use smux.Base.{subst, ◌≡◌, refl, Bool, true, false, List, [], ◌∷◌, arith}
use smux.SessionState.{check_and_reset_data_received}
use smux.Session.{SessionInner}
use smux.Session.Tasks.{
  AliveTask, listening, pinging, ended, Tick, pinged, timed_out, notified, room, outside, send_ping,
  check_timeout, keep_alive_step, keep_alive_run, keep_alive_loop,
}
use smux.Crates.Flume.{Flume}
use smux.Crates.DashMap.{DashMap}

module _ (F : Flume) (D : DashMap) where
  send_ping-state :
      (inner : SessionInner F D) → (send_ping F D inner).1.shared.state ≡ inner.shared.state
  unfolding send_ping
  send_ping-state inner = refl

  -- Whether data has come in since the last timeout.
  abbrev pub heard : Bool → Tick F D → Bool
  heard b (outside shared) = shared.state.data_received
  heard b timed_out = false
  heard b pinged = b
  heard b notified = b
  heard b room = b

  -- Nobody else closes the session, and a timeout comes only once data has come in.
  abbrev pub MayCome : Bool → Tick F D → Type 0
  MayCome b (outside shared) = shared.state.closed ≡ false
  MayCome b timed_out = b ≡ true
  MayCome b pinged = Unit {0}
  MayCome b notified = Unit {0}
  MayCome b room = Unit {0}

  -- A schedule in which data comes in between any two timeouts.
  abbrev pub IsFed : Bool → List (Tick F D) → Type 0
  IsFed b [] = Unit {0}
  IsFed b (t ∷ ts) = MayCome b t × IsFed (heard b t) ts

  -- The session is open, and has its mark if data has come in.
  pub record IsSafe (b : Bool) (inner : SessionInner F D) : Type 0 where
    pub still_open : inner.shared.state.closed ≡ false
    pub marked : b ≡ true → inner.shared.state.data_received ≡ true

  weaken : (b : Bool) (inner : SessionInner F D) → IsSafe b inner → IsSafe false inner
  weaken b inner h = record { still_open = h.still_open; marked = λ e. absurd (cc e) }

  ping-IsSafe :
      (b : Bool) (inner : SessionInner F D) → IsSafe b inner → IsSafe b (send_ping F D inner).1
  ping-IsSafe b inner h = record {
    still_open = ground (arith, send_ping-state inner, h.still_open);
    marked = λ e. ground (arith, send_ping-state inner, h.marked e);
  }

  timeout-IsSafe :
      (inner : SessionInner F D) → IsSafe true inner → IsSafe false (check_timeout F D inner).1
  unfolding check_timeout check_and_reset_data_received
  timeout-IsSafe inner h = record {
    still_open = ground (arith, h.still_open, h.marked refl);
    marked = λ e. absurd (cc e);
  }

  step-IsSafe :
      (at : AliveTask) (inner : SessionInner F D) (t : Tick F D) (b : Bool)
      → IsSafe b inner
      → MayCome b t
      → IsSafe (heard b t) (keep_alive_step F D at inner t).1
  unfolding keep_alive_step
  step-IsSafe at inner (outside shared) b h may = record { still_open = may; marked = λ e. e }
  step-IsSafe listening inner pinged b h may = ping-IsSafe b inner h
  step-IsSafe listening inner timed_out b h may =
      timeout-IsSafe inner (subst (λ c. IsSafe c inner) may h)
  step-IsSafe listening inner notified b h may = h
  step-IsSafe listening inner room b h may = h
  step-IsSafe pinging inner room b h may = ping-IsSafe b inner h
  step-IsSafe pinging inner pinged b h may = h
  step-IsSafe pinging inner timed_out b h may = weaken b inner h
  step-IsSafe pinging inner notified b h may = h
  step-IsSafe ended inner pinged b h may = h
  step-IsSafe ended inner timed_out b h may = weaken b inner h
  step-IsSafe ended inner notified b h may = h
  step-IsSafe ended inner room b h may = h

  run-IsSafe :
      (at : AliveTask) (inner : SessionInner F D) (ts : List (Tick F D)) (b : Bool)
      → IsSafe b inner
      → IsFed b ts
      → (keep_alive_run F D at inner ts).1.shared.state.closed ≡ false
  unfolding keep_alive_run
  run-IsSafe at inner [] b h fed = h.still_open
  run-IsSafe at inner (t ∷ ts) b h (may, fed) =
      let (at', inner') = keep_alive_step F D at inner t in
      run-IsSafe at' inner' ts (heard b t) (step-IsSafe at inner t b h may) fed

  -- As long as data comes in between any two timeouts, and nobody else closes the session, the
  -- keep-alive task leaves it open.
  pub keep_alive_spares :
      (inner : SessionInner F D) (ts : List (Tick F D))
      → inner.shared.state.closed ≡ false
      → IsFed inner.shared.state.data_received ts
      → (keep_alive_loop F D inner ts).1.shared.state.closed ≡ false
  unfolding keep_alive_loop
  keep_alive_spares inner ts still fed = ground (
    arith,
    run-IsSafe listening inner ts inner.shared.state.data_received
        (record { still_open = still; marked = λ e. e }) fed,
  )
