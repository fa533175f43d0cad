-- ===== src/Session/Flow.antt =====
-- src/session.rs: the token bucket of `handle_psh_frame`.
use smux.Base.{ℕ, ◌+◌, ◌*◌, ◌%◌, ◌<◌, ◌≡◌, List, [], ◌∷◌, ◌++◌, length, arith, true, none, some}
use smux.Error.{ok}
use smux.Frame.{Frame}
use smux.Stream.{done}
use smux.SessionState.{SessionState, is_positive, i64_mod, get_tokens, take_tokens, return_tokens}
use smux.Session.{SessionInner, StreamState}
use smux.Session.Handlers.{
  Wake, returned, closing, proceed, stop, wait_tokens, handle_psh_frame, deliver,
}
use smux.Session.Local.{lookup}
use smux.Crates.Flume.{Flume}
use smux.Crates.DashMap.{DashMap}

pub wait_tokens_positive :
    (len : ℕ) (ws : List Wake) (s : SessionState)
    → is_positive s.tokens ≡ true
    → wait_tokens len ws s ≡ (proceed, s)
unfolding wait_tokens get_tokens
wait_tokens_positive len [] s h = ground arith
wait_tokens_positive len (closing ∷ ws) s h = ground arith
wait_tokens_positive len (returned n ∷ ws) s h = ground arith

-- What the streams have returned while the handler waited.
abbrev pub total_returned : List ℕ → ℕ
total_returned [] = 0
total_returned (n ∷ ns) = n + total_returned ns

module _ (F : Flume) (D : DashMap) where
  -- The stream is known, its reader is there, and its channel is one of `flume::unbounded`.
  pub record CanDeliver (inner : SessionInner F D) (i : ℕ) (st : StreamState) : Type 0 where
    pub known : lookup F D inner i ≡ some st
    pub reader_left : F.receiving (inner.shared.pipes st.data_tx) ≡ true
    pub no_limit : F.is_unbounded (inner.shared.pipes st.data_tx) ≡ true

  -- With tokens left, the payload of a data frame that is not empty, of a stream of the table
  -- whose reader is there, goes to the end of the stream's channel, the table stays as it is, and
  -- the token counter is not touched: what a frame brings in is never charged.
  pub handle_psh_frame_delivers :
      (f : Frame) (ws : List Wake) (inner : SessionInner F D) (st : StreamState)
      → 0 < length f.payload
      → is_positive inner.shared.state.tokens ≡ true
      → CanDeliver inner f.stream_id st
      → let r = handle_psh_frame F D f ws inner in
        (r.0 ≡ done (ok tt))
        × (F.queue (r.1.shared.pipes st.data_tx)
            ≡ F.queue (inner.shared.pipes st.data_tx) ++ (f.payload ∷ []))
        × (r.1.streams ≡ inner.streams)
        × (r.1.shared.state ≡ inner.shared.state)
  unfolding handle_psh_frame deliver
  handle_psh_frame_delivers f ws inner st h pos c =
      let pipe = inner.shared.pipes st.data_tx in
      ground (
        arith,
        wait_tokens_positive (length f.payload) ws inner.shared.state pos,
        c.known,
        F.unbounded-has_room pipe c.no_limit,
        F.try_send_lem pipe f.payload,
      )

  -- With tokens left, a data frame for a stream that is not in the table is dropped with no error,
  -- and yet as many tokens are returned as it has bytes, though none were taken for it.
  pub handle_psh_frame_unknown :
      (f : Frame) (ws : List Wake) (inner : SessionInner F D)
      → 0 < length f.payload
      → is_positive inner.shared.state.tokens ≡ true
      → lookup F D inner f.stream_id ≡ none
      → let r = handle_psh_frame F D f ws inner in
        (r.0 ≡ done (ok tt))
        × (r.1.shared.pipes ≡ inner.shared.pipes)
        × (r.1.streams ≡ inner.streams)
        × (r.1.shared.state.tokens ≡ (inner.shared.state.tokens + length f.payload) % i64_mod)
  unfolding handle_psh_frame deliver return_tokens
  handle_psh_frame_unknown f ws inner h pos e =
      ground (arith, wait_tokens_positive (length f.payload) ws inner.shared.state pos)

abbrev returns_then_closing : List ℕ → List Wake
returns_then_closing [] = closing ∷ []
returns_then_closing (n ∷ ns) = returned n ∷ returns_then_closing ns

-- If the wait for tokens ends with the session's close, it has charged `len` once for each
-- wake-up that came too early and gives none of these charges back: that many tokens are lost.
pub wait_tokens_leaks :
    (len : ℕ) (ns : List ℕ) (s s' : SessionState)
    → s.tokens < i64_mod
    → wait_tokens len (returns_then_closing ns) s ≡ (stop, s')
    → (s'.tokens + len * length ns) % i64_mod ≡ (s.tokens + total_returned ns) % i64_mod
unfolding wait_tokens get_tokens take_tokens return_tokens
wait_tokens_leaks len [] s s' h e = ground arith
wait_tokens_leaks len (n ∷ ns) s s' h e =
    ground (arith, wait_tokens_leaks len ns (return_tokens n (take_tokens len s)) s')
