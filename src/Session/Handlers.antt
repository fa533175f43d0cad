-- ===== src/Session/Handlers.antt =====
-- src/session.rs: the handlers of incoming frames. What other tasks do while a handler waits is a
-- list of wake-ups that it is given.
use smux.Base.{ℕ, true, none, some, List, [], ◌∷◌, length, ◌==◌, if◌then◌else◌}
use smux.Error.{Result, ok, err, SmuxError}
use smux.Command.{syn, fin, psh, nop, upd}
use smux.Frame.{Frame}
use smux.Stream.{Stream, Async, done, waiting, update, drop_stream}
use smux.SessionState.{SessionState, is_positive, get_tokens, take_tokens, return_tokens}
use smux.Session.{SessionInner, validate_peer_stream_id}
use smux.Session.Table.{add_stream, remove_stream, drop_state}
use smux.Crates.Flume.{Flume, sent, full, no_receiver}
use smux.Crates.DashMap.{DashMap}

-- What ends an await of `handle_psh_frame`: a stream returned tokens, or the session closes.
pub data Wake : Type 0 where
  returned : ℕ → Wake
  closing : Wake

-- How its loop ends: tokens are there, the session closes, or it waits after the last wake-up.
pub data Wait : Type 0 where
  proceed stop suspended : Wait

-- The loop of `handle_psh_frame`.
unfoldable pub wait_tokens : ℕ → List Wake → SessionState → Wait × SessionState
wait_tokens data_len [] s =
    if is_positive (get_tokens s) then (proceed, s) else (suspended, take_tokens data_len s)
wait_tokens data_len (closing ∷ ws) s =
    if is_positive (get_tokens s)
    then (proceed, s)
    else (stop, return_tokens data_len (take_tokens data_len s))
wait_tokens data_len (returned n ∷ ws) s =
    let again = wait_tokens data_len ws (return_tokens n (take_tokens data_len s)) in
    if is_positive (get_tokens s) then (proceed, s) else again

module _ (F : Flume) (D : DashMap) where
  abbrev pub with_state : SessionState → SessionInner F D → SessionInner F D
  with_state s inner = record inner { shared = record (inner.shared) { state = s } }

  -- `handle_syn_frame` at its await, the send to the accept channel. A send that fails gives the
  -- stream back, which is dropped.
  unfoldable pub send_incoming :
      Stream → SessionInner F D → Async (Result (Unit {0})) × SessionInner F D
  send_incoming stream inner =
      let (r, c) = F.try_send inner.incoming stream in
      let offered = record inner { incoming = c } in
      elim r [
        | sent ↦ (done (ok tt), offered)
        | full ↦ (waiting, offered)
        | no_receiver ↦
            let removed =
              remove_stream F D stream.stream_id
                (record offered { shared = drop_stream F stream offered.shared }) in
            (done (err SmuxError.session_closed), removed)
      ]

  unfoldable pub handle_syn_frame :
      Frame → SessionInner F D → Async (Result (Unit {0})) × SessionInner F D
  handle_syn_frame frame inner =
      let (stream, added) = add_stream F D frame.stream_id inner in
      elim (validate_peer_stream_id F D inner frame.stream_id) [
        | err e ↦ (done (err e), inner)
        | ok _ ↦
            if D.contains_key inner.streams frame.stream_id
            then (done (err (SmuxError.stream_already_exists frame.stream_id)), inner)
            else send_incoming stream added
      ]

  -- The flag is stored in the removed entry, which is then dropped with its sender.
  unfoldable pub handle_fin_frame :
      Frame → SessionInner F D → Async (Result (Unit {0})) × SessionInner F D
  handle_fin_frame frame inner =
      let (old, left) = D.remove inner.streams frame.stream_id in
      (
        done (ok tt),
        elim old [
          | none ↦ record inner { streams = left }
          | some st ↦
              drop_state F D (some (record st { is_read_closed = true }))
                (record inner { streams = left })
        ],
      )

  -- `handle_psh_frame` behind its loop.
  unfoldable pub deliver :
      ℕ → List ℕ → SessionInner F D → Async (Result (Unit {0})) × SessionInner F D
  deliver i bytes inner = elim (D.get inner.streams i) [
    | none ↦ (done (ok tt), with_state (return_tokens (length bytes) inner.shared.state) inner)
    | some st ↦
        let (r, c) = F.try_send (inner.shared.pipes st.data_tx) bytes in
        let offered = record inner {
          shared = record (inner.shared) { pipes = update inner.shared.pipes st.data_tx c };
        } in
        elim r [
          | sent ↦ (done (ok tt), offered)
          | full ↦ (waiting, offered)
          | no_receiver ↦ (
            done (ok tt),
            remove_stream F D i
                (with_state (return_tokens (length bytes) offered.shared.state) offered),
          )
        ]
  ]

  unfoldable pub handle_psh_frame :
      Frame → List Wake → SessionInner F D → Async (Result (Unit {0})) × SessionInner F D
  handle_psh_frame frame wakes inner =
      let (w, s) = wait_tokens (length frame.payload) wakes inner.shared.state in
      if length frame.payload == 0 then (done (ok tt), inner) else elim w [
        | proceed ↦ deliver frame.stream_id frame.payload (with_state s inner)
        | stop ↦ (done (ok tt), with_state s inner)
        | suspended ↦ (waiting, with_state s inner)
      ]

  -- An update is ignored.
  unfoldable pub handle_upd_frame :
      Frame → SessionInner F D → Async (Result (Unit {0})) × SessionInner F D
  handle_upd_frame frame inner = (done (ok tt), inner)

  unfoldable pub handle_frame :
      Frame → List Wake → SessionInner F D → Async (Result (Unit {0})) × SessionInner F D
  handle_frame frame wakes inner = elim frame.cmd [
    | syn ↦ handle_syn_frame frame inner
    | fin ↦ handle_fin_frame frame inner
    | psh ↦ handle_psh_frame frame wakes inner
    | upd c w ↦ handle_upd_frame frame inner
    | nop ↦ (done (ok tt), inner)
  ]
