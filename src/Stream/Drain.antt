-- ===== src/Stream/Drain.antt =====
-- src/stream.rs: a reader that calls `poll_read` until it gets no bytes.
use smux.Base.{
  ℕ, zero, suc, ◌+◌, ◌≤◌, ◌<◌, min, ◌≡◌, ◌≢◌, refl, sym, ap, ◌∙◌, Bool, Bool-cases, inl, inr,
  ltb→lt, ltb-false→le, ◌&&◌, true, false, Option, some, none, List, [], ◌∷◌, ◌++◌, length,
  length-append, drop, flatten, ltb, if◌then◌else◌, arith,
}
use smux.SessionState.{return_tokens, i64_mod}
use smux.Stream.{Stream, Shared, poll_read, read_chunk, read_channel, read_received, keep}
use smux.Stream.Read.{unread, chunk_bytes, front, poll_read-Delivers, poll_read_open}
use smux.Crates.Bytes.{BytesCrate}
use smux.Crates.Flume.{Flume}

abbrev pub all_full : List (List ℕ) → Bool
all_full [] = true
all_full (c ∷ cs) = ltb 0 (length c) && all_full cs

length-nil : (xs : List ℕ) → length xs ≡ 0 → xs ≡ []
length-nil [] h = refl
length-nil (x ∷ xs) h = absurd (omega arith)

module _ (B : BytesCrate) (F : Flume) where
  -- Reads with a buffer of `n` bytes, at most `fuel` times, until a read gives none.
  unfoldable pub read_all : ℕ → Stream → Shared F → ℕ → List ℕ
  read_all zero s w n = []
  read_all (suc fuel) s w n =
      let (p, bytes, s', w') = poll_read F B s w n in
      let rest = read_all fuel s' w' n in if ltb 0 (length bytes) then bytes ++ rest else []

  -- The stream and the session are open, the sender is gone, and no chunk is empty.
  pub record IsEnding (s : Stream) (w : Shared F) : Type 0 where
    pub read_open : s.is_read_closed ≡ false
    pub session_open : w.state.closed ≡ false
    pub tokens_i64 : w.state.tokens < i64_mod
    pub sender_gone : F.sending (w.pipes s.data_rx) ≡ false
    pub chunk_full : s.current_chunk ≢ some []
    pub messages_full : all_full (F.queue (w.pipes s.data_rx)) ≡ true

  pub keep_full : (xs : List ℕ) (old : Option (List ℕ)) → old ≢ some [] → keep xs old ≢ some []
  keep_full [] old h = h
  keep_full (x ∷ xs) old h = λ e. absurd (cc e)

  read_channel-IsEnding :
      (s : Stream) (w : Shared F) (n : ℕ) (q : List (List ℕ))
      → 0 < n
      → F.queue (w.pipes s.data_rx) ≡ q
      → IsEnding s w
      → s.current_chunk ≡ none
      → let r = read_channel F B s w n in IsEnding r.2 r.3
  unfolding read_channel read_received return_tokens
  read_channel-IsEnding s w n [] hn eq h hc =
      let law = F.try_recv_lem (w.pipes s.data_rx) in
      record {
        read_open = ground (arith, law, h.read_open, h.sender_gone);
        session_open = ground (arith, law, h.session_open, h.sender_gone);
        tokens_i64 = ground (arith, law, h.tokens_i64, h.sender_gone);
        sender_gone = ground (arith, law, h.sender_gone);
        chunk_full = ground (arith, law, h.sender_gone, h.chunk_full);
        messages_full = ground (arith, law, h.sender_gone, h.messages_full);
      }
  read_channel-IsEnding s w n (c ∷ q) hn eq h hc =
      let law = F.try_recv_lem (w.pipes s.data_rx) in
      let full : (0 < length c) × (all_full q ≡ true) = ground (arith, h.messages_full) in
      let split = B.split_to_lem c (min (length c) n) in
      let rest = keep_full (drop (min (length c) n) c) s.current_chunk h.chunk_full in
      record {
        read_open = ground (arith, law, h.read_open, full);
        session_open = ground (arith, law, h.session_open, full);
        tokens_i64 = ground (arith, law, h.tokens_i64, full);
        sender_gone = ground (arith, law, h.sender_gone, full);
        chunk_full = ground (arith, law, full, split, rest);
        messages_full = ground (arith, law, full);
      }

  read_chunk-IsEnding :
      (s : Stream) (w : Shared F) (n b : ℕ) (bs : List ℕ)
      → 0 < n
      → IsEnding s w
      → s.current_chunk ≡ some (b ∷ bs)
      → let r = read_chunk F B (some (b ∷ bs)) s w n in IsEnding r.2 r.3
  unfolding read_chunk return_tokens
  read_chunk-IsEnding s w n b bs hn h hc =
      let split = B.split_to_lem (b ∷ bs) (min (length (b ∷ bs)) n) in
      let rest = keep_full (drop (min (length (b ∷ bs)) n) (b ∷ bs)) none (λ e. absurd (cc e)) in
      record {
        read_open = ground (arith, h.read_open);
        session_open = ground (arith, h.session_open);
        tokens_i64 = ground (arith, h.tokens_i64);
        sender_gone = ground (arith, h.sender_gone);
        chunk_full = ground (arith, split, rest);
        messages_full = ground (arith, h.messages_full);
      }

  chunk-IsEnding :
      (o : Option (List ℕ)) (s : Stream) (w : Shared F) (n : ℕ)
      → s.current_chunk ≡ o
      → 0 < n
      → IsEnding s w
      → let r = read_chunk F B o s w n in IsEnding r.2 r.3
  chunk-IsEnding none s w n hc hn h =
      unfold read_chunk in read_channel-IsEnding s w n (F.queue (w.pipes s.data_rx)) hn refl h hc
  chunk-IsEnding (some []) s w n hc hn h = absurd (h.chunk_full hc)
  chunk-IsEnding (some (b ∷ bs)) s w n hc hn h = read_chunk-IsEnding s w n b bs hn h hc

  poll_read-IsEnding :
      (s : Stream) (w : Shared F) (n : ℕ)
      → 0 < n
      → IsEnding s w
      → let r = poll_read F B s w n in IsEnding r.2 r.3
  poll_read-IsEnding s w n hn h =
      rw (poll_read_open B F s w n h.read_open h.session_open)
        (chunk-IsEnding s.current_chunk s w n refl hn h)

  -- With no empty chunk, nothing is at hand exactly when nothing is unread.
  front_unread :
      (o : Option (List ℕ)) (q : List (List ℕ))
      → o ≢ some []
      → all_full q ≡ true
      → length (front B F o q) ≡ 0
      → length (chunk_bytes o ++ flatten q) ≡ 0
  front_unread none [] ne full h = refl
  front_unread none (c ∷ q) ne full h = ground arith
  front_unread (some []) q ne full h = absurd (ne refl)
  front_unread (some (b ∷ bs)) q ne full h = absurd (omega arith)

  -- Where the stream and the session are open, the counter is an i64, the sender is gone and no
  -- chunk is empty, a reader that reads until it gets no bytes gets exactly what was unread,
  -- whatever the size of its buffer, if that is not 0; one read more than there are bytes is
  -- enough.
  pub read_all-unread :
      (fuel : ℕ) (s : Stream) (w : Shared F) (n : ℕ)
      → IsEnding s w
      → 0 < n
      → length (unread F s w) < fuel
      → read_all fuel s w n ≡ unread F s w
  unfolding read_all
  read_all-unread zero s w n h hn enough = absurd (omega arith)
  read_all-unread (suc fuel) s w n h hn enough =
      let d =
        poll_read-Delivers B F s w n h.chunk_full hn h.read_open h.session_open h.tokens_i64 in
      let (p, bytes, s', w') = poll_read F B s w n in
      let total : length bytes + length (unread F s' w') ≡ length (unread F s w) =
        sym (length-append bytes (unread F s' w')) ∙ ap length d.conserved in
      elim (Bool-cases (ltb 0 (length bytes))) [
        | inl some_read ↦
            let rest =
              read_all-unread fuel s' w' n (poll_read-IsEnding s w n hn h) hn
                (omega (arith, total, ltb→lt 0 (length bytes) some_read)) in
            rw some_read (ap (λ (l : List ℕ). bytes ++ l) rest ∙ d.conserved)
        | inr none_read ↦
            let gone : length bytes ≤ 0 = ltb-false→le 0 (length bytes) none_read in
            let nothing =
              front_unread s.current_chunk (F.queue (w.pipes s.data_rx)) h.chunk_full
                h.messages_full (omega (arith, d.exact, gone)) in
            rw none_read (sym (length-nil (unread F s w) nothing))
      ]
