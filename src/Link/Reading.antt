-- ===== src/Link/Reading.antt =====
-- src/stream.rs: `poll_read` of an open stream, as the reader's end of a link.
use smux.Base.{
  ℕ, ◌<◌, min, ◌≡◌, ◌≢◌, ◌⊎◌, inl, inr, refl, sym, ap, ◌∙◌, Bool, true, false, Option, some, none,
  List, [], ◌∷◌, ◌++◌, append_assoc, length, take, drop, flatten, length-take, take-append-drop,
  arith,
}
use smux.SessionState.{return_tokens}
use smux.Stream.{Stream, Shared, Poll, ready, poll_read, read_chunk, read_channel, read_received}
use smux.Stream.Read.{unread, keep_bytes, poll_read_open}
use smux.Stream.Drain.{all_full, keep_full}
use smux.Link.{Label, got, saw_end, silent, read_label}
use smux.Crates.Bytes.{BytesCrate}
use smux.Crates.Flume.{Flume}

read_label-got : (xs : List ℕ) → 0 < length xs → read_label (ready tt) xs ≡ got xs
read_label-got [] h = absurd (omega arith)
read_label-got (x ∷ xs) h = refl

module _ (F : Flume) where
  -- The stream takes data, what it holds is not empty, and its channel is an unbounded one with a
  -- receiver.
  pub record IsReadable (s : Stream) (w : Shared F) : Type 0 where
    pub read_open : s.is_read_closed ≡ false
    pub chunk_full : s.current_chunk ≢ some []
    pub messages_full : all_full (F.queue (w.pipes s.data_rx)) ≡ true
    pub reader_left : F.receiving (w.pipes s.data_rx) ≡ true
    pub no_limit : F.is_unbounded (w.pipes s.data_rx) ≡ true

module _ (B : BytesCrate) (F : Flume) where
  -- What the reader sees of a read.
  abbrev pub Seen : Label → List ℕ → List ℕ → Bool → Type 0
  Seen l bytes before sending =
      ((l ≡ silent) × (bytes ≡ []))
      ⊎ (((l ≡ saw_end) × (bytes ≡ []) × (before ≡ []) × (sending ≡ false)) ⊎ (l ≡ got bytes))

  pub record Reads (s : Stream) (w : Shared F) (r : Poll (Unit {0}) × List ℕ × Stream × Shared F)
      : Type 0 where
    pub conserved : r.1 ++ unread F r.2 r.3 ≡ unread F s w
    pub seen : Seen (read_label r.0 r.1) r.1 (unread F s w) (F.sending (w.pipes s.data_rx))
    pub same_rx : r.2.data_rx ≡ s.data_rx
    pub same_closed : r.3.state.closed ≡ w.state.closed
    pub same_sending : F.sending (r.3.pipes s.data_rx) ≡ F.sending (w.pipes s.data_rx)
    pub readable : IsReadable F r.2 r.3

  read_channel-Reads :
      (s : Stream) (w : Shared F) (n : ℕ) (q : List (List ℕ)) (more : Bool)
      → F.queue (w.pipes s.data_rx) ≡ q
      → F.sending (w.pipes s.data_rx) ≡ more
      → 0 < n
      → s.current_chunk ≡ none
      → IsReadable F s w
      → Reads s w (read_channel F B s w n)
  unfolding read_channel read_received return_tokens
  read_channel-Reads s w n [] false eq em hn hc h =
      let law = F.try_recv_lem (w.pipes s.data_rx) in
      record {
        conserved = ground (arith, law);
        seen = inr (inl (ground (arith, law), ground (arith, law), ground arith, em));
        same_rx = ground (arith, law);
        same_closed = ground (arith, law);
        same_sending = ground (arith, law);
        readable = record {
          read_open = ground (arith, law, h.read_open);
          chunk_full = ground (arith, law, h.chunk_full);
          messages_full = ground (arith, law, h.messages_full);
          reader_left = ground (arith, law, h.reader_left);
          no_limit = ground (arith, law, h.no_limit);
        };
      }
  read_channel-Reads s w n [] true eq em hn hc h =
      let law = F.try_recv_lem (w.pipes s.data_rx) in
      record {
        conserved = ground (arith, law);
        seen = inl (ground (arith, law), ground (arith, law));
        same_rx = ground (arith, law);
        same_closed = ground (arith, law);
        same_sending = ground (arith, law);
        readable = record {
          read_open = ground (arith, law, h.read_open);
          chunk_full = ground (arith, law, h.chunk_full);
          messages_full = ground (arith, law, h.messages_full);
          reader_left = ground (arith, law, h.reader_left);
          no_limit = ground (arith, law, h.no_limit);
        };
      }
  read_channel-Reads s w n (c ∷ q) more eq em hn hc h =
      let law = F.try_recv_lem (w.pipes s.data_rx) in
      let k = min (length c) n in
      let full : (0 < length c) × (all_full q ≡ true) = ground (arith, h.messages_full) in
      let split = B.split_to_lem c k in
      let taken = read_label-got (take k c) (omega (arith, length-take k c, full)) in
      let left = keep_full B F (drop k c) s.current_chunk h.chunk_full in
      let parts : take k c ++ (drop k c ++ flatten q) ≡ c ++ flatten q =
        sym (append_assoc (take k c) (drop k c) (flatten q))
        ∙ ap (λ (l : List ℕ). l ++ flatten q) (take-append-drop k c) in
      record {
        conserved = ground (arith, law, full, split, left, parts, keep_bytes (drop k c));
        seen = inr (inr (ground (arith, law, full, split, taken)));
        same_rx = ground (arith, law, full, split, left);
        same_closed = ground (arith, law, full, split, left);
        same_sending = ground (arith, law, full, split, left);
        readable = record {
          read_open = ground (arith, law, h.read_open, full, split, left);
          chunk_full = ground (arith, law, h.chunk_full, full, split, left);
          messages_full = ground (arith, law, h.messages_full, full, split, left);
          reader_left = ground (arith, law, h.reader_left, full, split, left);
          no_limit = ground (arith, law, h.no_limit, full, split, left);
        };
      }

  read_chunk-Reads :
      (s : Stream) (w : Shared F) (n b : ℕ) (bs : List ℕ)
      → 0 < n
      → s.current_chunk ≡ some (b ∷ bs)
      → IsReadable F s w
      → Reads s w (read_chunk F B (some (b ∷ bs)) s w n)
  unfolding read_chunk return_tokens
  read_chunk-Reads s w n b bs hn hc h =
      let c : List ℕ = b ∷ bs in
      let k = min (length c) n in
      let queue = flatten (F.queue (w.pipes s.data_rx)) in
      let law = B.split_to_lem c k in
      let taken = read_label-got (take k c) (omega (arith, length-take k c)) in
      let left = keep_full B F (drop k c) none (λ e. absurd (cc e)) in
      let parts : take k c ++ (drop k c ++ queue) ≡ c ++ queue =
        sym (append_assoc (take k c) (drop k c) queue)
        ∙ ap (λ (l : List ℕ). l ++ queue) (take-append-drop k c) in
      record {
        conserved = ground (arith, law, left, parts, keep_bytes (drop k c));
        seen = inr (inr (ground (arith, law, taken)));
        same_rx = ground (arith, law, left);
        same_closed = ground (arith, law, left);
        same_sending = ground (arith, law, left);
        readable = record {
          read_open = ground (arith, law, h.read_open, left);
          chunk_full = ground (arith, law, h.chunk_full, left);
          messages_full = ground (arith, law, h.messages_full, left);
          reader_left = ground (arith, law, h.reader_left, left);
          no_limit = ground (arith, law, h.no_limit, left);
        };
      }

  chunk-Reads :
      (o : Option (List ℕ)) (s : Stream) (w : Shared F) (n : ℕ)
      → 0 < n
      → s.current_chunk ≡ o
      → IsReadable F s w
      → Reads s w (read_chunk F B o s w n)
  chunk-Reads none s w n hn hc h =
      unfold read_chunk in read_channel-Reads s w n _ _ refl refl hn hc h
  chunk-Reads (some []) s w n hn hc h = absurd (h.chunk_full hc)
  chunk-Reads (some (b ∷ bs)) s w n hn hc h = read_chunk-Reads s w n b bs hn hc h

  -- A read of an open stream in an open session, with room for a byte.
  pub poll_read-Reads :
      (s : Stream) (w : Shared F) (n : ℕ)
      → 0 < n
      → w.state.closed ≡ false
      → IsReadable F s w
      → Reads s w (poll_read F B s w n)
  poll_read-Reads s w n hn ho h =
      rw (poll_read_open B F s w n h.read_open ho) (chunk-Reads s.current_chunk s w n hn refl h)

  -- A read closes no session.
  pub poll_read-closed :
      (s : Stream) (w : Shared F) (n : ℕ) → (poll_read F B s w n).3.state.closed ≡ w.state.closed
  unfolding poll_read read_chunk read_channel read_received return_tokens
  poll_read-closed s w n = ground arith
