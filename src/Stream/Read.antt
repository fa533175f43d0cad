-- ===== src/Stream/Read.antt =====
-- src/stream.rs: `poll_read` against the bytes that are still to be read.
use smux.Base.{
  ℕ, ◌+◌, ◌%◌, ◌<◌, min, ◌≡◌, ◌≢◌, refl, List, [], ◌∷◌, ◌++◌, append_assoc, length, take, drop,
  arith, take-append-drop, length-take, true, false, Bool, if◌then◌else◌, Option, none, some,
}
use smux.Stream.{
  Stream, Shared, Poll, ready, pending, poll_read, read_channel, read_received, read_chunk, keep,
}
use smux.Crates.Bytes.{BytesCrate}
use smux.Crates.Flume.{Flume}
use smux.Base.{flatten}
use smux.SessionState.{i64_mod, return_tokens}

-- The bytes of a chunk that was read in part.
abbrev pub chunk_bytes : Option (List ℕ) → List ℕ
chunk_bytes none = []
chunk_bytes (some c) = c

pub keep_bytes : (xs : List ℕ) → chunk_bytes (keep xs none) ≡ xs
keep_bytes [] = refl
keep_bytes (x ∷ xs) = refl

module _ (F : Flume) where
  -- What the reader has yet to get: the rest of the current chunk, then the channel's messages.
  abbrev pub unread : Stream → Shared F → List ℕ
  unread s w = chunk_bytes s.current_chunk ++ flatten (F.queue (w.pipes s.data_rx))

module _ (B : BytesCrate) (F : Flume) where
  -- The chunk that a read takes its bytes from.
  abbrev pub front : Option (List ℕ) → List (List ℕ) → List ℕ
  front (some (b ∷ bs)) q = b ∷ bs
  front (some []) (c ∷ q) = c
  front (some []) [] = []
  front none (c ∷ q) = c
  front none [] = []

  -- Nothing is at hand, and something may still come.
  abbrev pub starved : Option (List ℕ) → List (List ℕ) → Bool → Bool
  starved (some (b ∷ bs)) q sending = false
  starved (some []) [] sending = sending
  starved (some []) (c ∷ q) sending = false
  starved none [] sending = sending
  starved none (c ∷ q) sending = false

  pub record Delivers (s : Stream) (w : Shared F) (n : ℕ)
      (r : Poll (Unit {0}) × List ℕ × Stream × Shared F) : Type 0 where
    pub conserved : r.1 ++ unread F r.2 r.3 ≡ unread F s w
    pub exact : length r.1 ≡ min n (length (front s.current_chunk (F.queue (w.pipes s.data_rx))))
    pub counted : r.3.state.tokens ≡ (w.state.tokens + length r.1) % i64_mod
    pub answered : r.0 ≡ (
        if starved s.current_chunk (F.queue (w.pipes s.data_rx)) (F.sending (w.pipes s.data_rx))
        then pending
        else ready tt)

  read_channel-Delivers :
      (s : Stream) (w : Shared F) (n : ℕ) (q : List (List ℕ)) (more : Bool)
      → F.queue (w.pipes s.data_rx) ≡ q
      → F.sending (w.pipes s.data_rx) ≡ more
      → 0 < n
      → s.is_read_closed ≡ false
      → w.state.tokens < i64_mod
      → s.current_chunk ≡ none
      → Delivers s w n (read_channel F B s w n)
  unfolding read_channel read_received return_tokens
  read_channel-Delivers s w n [] true eq em hn hr ht hc =
      ground (arith, F.try_recv_lem (w.pipes s.data_rx))
  read_channel-Delivers s w n [] false eq em hn hr ht hc =
      ground (arith, F.try_recv_lem (w.pipes s.data_rx))
  read_channel-Delivers s w n (c ∷ q) more eq em hn hr ht hc = ground (
    arith,
    F.try_recv_lem (w.pipes s.data_rx),
    B.split_to_lem c (min (length c) n),
    take-append-drop (min (length c) n) c,
    length-take (min (length c) n) c,
    append_assoc (take (min (length c) n) c) (drop (min (length c) n) c) (flatten q),
    keep_bytes (drop (min (length c) n) c),
  )

  read_chunk-Delivers :
      (s : Stream) (w : Shared F) (n b : ℕ) (bs : List ℕ)
      → 0 < n
      → w.state.tokens < i64_mod
      → s.current_chunk ≡ some (b ∷ bs)
      → Delivers s w n (read_chunk F B (some (b ∷ bs)) s w n)
  unfolding read_chunk return_tokens
  read_chunk-Delivers s w n b bs hn ht hc =
      let k = min (length (b ∷ bs)) n in
      ground (
        arith,
        B.split_to_lem (b ∷ bs) k,
        take-append-drop k (b ∷ bs),
        length-take k (b ∷ bs),
        append_assoc (take k (b ∷ bs)) (drop k (b ∷ bs)) (flatten (F.queue (w.pipes s.data_rx))),
        keep_bytes (drop k (b ∷ bs)),
      )

  poll_read-at :
      (o : Option (List ℕ)) (s : Stream) (w : Shared F) (n : ℕ)
      → s.current_chunk ≡ o
      → o ≢ some []
      → 0 < n
      → s.is_read_closed ≡ false
      → w.state.tokens < i64_mod
      → Delivers s w n (read_chunk F B o s w n)
  poll_read-at none s w n hc ne hn hr ht =
      unfold read_chunk in read_channel-Delivers s w n _ _ refl refl hn hr ht hc
  poll_read-at (some []) s w n hc ne hn hr ht = absurd (ne refl)
  poll_read-at (some (b ∷ bs)) s w n hc ne hn hr ht = read_chunk-Delivers s w n b bs hn ht hc

  pub poll_read_open :
      (s : Stream) (w : Shared F) (n : ℕ)
      → s.is_read_closed ≡ false
      → w.state.closed ≡ false
      → poll_read F B s w n ≡ read_chunk F B s.current_chunk s w n
  unfolding poll_read
  poll_read_open s w n hr ho = ground arith

  -- While the stream and the session are open, the held chunk is not an empty one and the counter
  -- is an i64, `poll_read` into a buffer with room puts there as much of the next chunk as fits,
  -- which together with what is left is exactly what was unread; returns as many tokens; and is
  -- pending exactly when nothing is at hand and the sender is alive.
  pub poll_read-Delivers :
      (s : Stream) (w : Shared F) (n : ℕ)
      → s.current_chunk ≢ some []
      → 0 < n
      → s.is_read_closed ≡ false
      → w.state.closed ≡ false
      → w.state.tokens < i64_mod
      → Delivers s w n (poll_read F B s w n)
  poll_read-Delivers s w n ne hn hr ho ht =
      rw (poll_read_open s w n hr ho) (poll_read-at s.current_chunk s w n refl ne hn hr ht)

  -- While stream and session are open and a message waits, a read with no room, of a stream that
  -- holds the rest `c` of a chunk, replaces it by the next message of the channel: the bytes of
  -- `c` are neither delivered nor unread any more.
  pub poll_read_drops_chunk :
      (s : Stream) (w : Shared F) (c next : List ℕ) (q : List (List ℕ))
      → s.current_chunk ≡ some c
      → F.queue (w.pipes s.data_rx) ≡ next ∷ q
      → s.is_read_closed ≡ false
      → w.state.closed ≡ false
      → let r = poll_read F B s w 0 in
        (unread F s w ≡ c ++ (next ++ flatten q))
        × (r.0 ≡ ready tt)
        × (r.1 ≡ [])
        × (unread F r.2 r.3 ≡ next ++ flatten q)
        × (r.3.state ≡ w.state)
  unfolding poll_read read_chunk read_channel read_received
  poll_read_drops_chunk s w c next q hc hq hr ho =
      ground (arith, F.try_recv_lem (w.pipes s.data_rx))
