-- ===== src/Link/Feeding.antt =====
-- src/stream.rs, src/session.rs and src/codec.rs at work together: a data frame that comes in, and the read
-- behind it.
use smux.Base.{
  ℕ, ◌≤◌, ◌<◌, ◌≡◌, ◌≢◌, refl, sym, ap, ◌∙◌, Bool, true, false, Option, none, some, List, [], ◌∷◌,
  ◌++◌, length, append-nil, append_assoc, if◌then◌else◌, flatten, length-append, arith,
}
use smux.Frame
use smux.Frame.{Frame, header_size, new_psh}
use smux.Stream.{Stream, Poll, ready, pending, poll_read}
use smux.Stream.Read.{unread, chunk_bytes, front, starved, poll_read-Delivers}
use smux.Stream.Drain.{all_full}
use smux.SessionState.{is_positive, i64_mod}
use smux.Session.{SessionInner}
use smux.Session.Lifecycle.{flatten-append}
use smux.SessionState.{mark_data_received}
use smux.Session.Tasks.{RecvTask, receiving, frame_in, recv_step}
use smux.Session.Tasks.Demux.{fed, handle_frame-fed}
use smux.Link.{got, read_label}
use smux.Link.Reading.{IsReadable}
use smux.Link.Handling.{IsOpen}
use smux.Crates.Bytes.{BytesCrate}
use smux.Crates.Flume.{Flume}
use smux.Crates.DashMap.{DashMap}

-- What a read takes once one message has come in, where nothing was unread.
front-first :
    (B : BytesCrate) (F : Flume) (o : Option (List ℕ)) (q : List (List ℕ)) (bytes : List ℕ)
    → o ≢ some []
    → all_full q ≡ true
    → chunk_bytes o ++ flatten q ≡ []
    → front B F o (q ++ (bytes ∷ [])) ≡ bytes
front-first B F none [] bytes ne full e = refl
front-first B F none ([] ∷ q) bytes ne full e = absurd (cc full)
front-first B F none ((b ∷ c) ∷ q) bytes ne full e = absurd (cc e)
front-first B F (some []) q bytes ne full e = absurd (ne refl)
front-first B F (some (b ∷ bs)) q bytes ne full e = absurd (cc e)

starved-first :
    (B : BytesCrate) (F : Flume) (o : Option (List ℕ)) (q : List (List ℕ)) (bytes : List ℕ)
    (sending : Bool)
    → starved B F o (q ++ (bytes ∷ [])) sending ≡ false
starved-first B F none [] bytes sending = refl
starved-first B F none (c ∷ q) bytes sending = refl
starved-first B F (some []) [] bytes sending = refl
starved-first B F (some []) (c ∷ q) bytes sending = refl
starved-first B F (some (b ∷ bs)) q bytes sending = refl

whole : (xs ys zs : List ℕ) → xs ++ ys ≡ zs → length xs ≡ length zs → xs ≡ zs
whole xs [] zs e h = sym (append-nil xs) ∙ e
whole xs (y ∷ ys) zs e h = absurd (omega (arith, h, length-append xs (y ∷ ys), ap length e))

read_label-got :
    (p : Poll (Unit {0})) (bytes : List ℕ)
    → p ≡ ready tt
    → 0 < length bytes
    → read_label p bytes ≡ got bytes
read_label-got p [] e h = absurd (omega (arith, h))
read_label-got p (b ∷ bs) e h = rw e refl

module _ (F : Flume) (D : DashMap) (B : BytesCrate) (i : ℕ) where
  pub recv_step-fed :
      (reader : Stream) (inner : SessionInner F D) (at : RecvTask) (bytes : List ℕ)
      → (known : IsOpen F D i reader inner) → IsReadable F reader inner.shared
      → at ≡ receiving
      → is_positive inner.shared.state.tokens ≡ true
      → 0 < length bytes
      → recv_step F D at inner (frame_in (new_psh 1 i bytes))
        ≡ (receiving, fed F D known.known.0 bytes inner)
  unfolding recv_step new_psh Frame.new
  recv_step-fed reader inner at bytes known readable is_receiving tokens pos =
      let (st, found, same) = known.known in
      rw is_receiving (
        rw
          (handle_frame-fed F D (new_psh 1 i bytes) inner st refl pos found
            (ap (λ a. F.receiving (inner.shared.pipes a)) same ∙ readable.reader_left)
            (ap (λ a. F.is_unbounded (inner.shared.pipes a)) same ∙ readable.no_limit) tokens)
          refl)

  -- What the channel then holds.
  queue-fed :
      (reader : Stream) (inner : SessionInner F D) (bytes : List ℕ)
      → (known : IsOpen F D i reader inner) → IsReadable F reader inner.shared
      → F.queue ((fed F D known.known.0 bytes inner).shared.pipes reader.data_rx)
        ≡ F.queue (inner.shared.pipes reader.data_rx) ++ (bytes ∷ [])
  queue-fed reader inner bytes known readable =
      let (st, found, same) = known.known in
      let pipe = inner.shared.pipes reader.data_rx in
      ground (
        arith,
        same,
        readable.reader_left,
        F.unbounded-has_room pipe readable.no_limit,
        F.try_send_lem pipe bytes,
      )

  pub read-fed :
      (reader : Stream) (inner : SessionInner F D) (bytes : List ℕ) (n : ℕ)
      → (known : IsOpen F D i reader inner) → IsReadable F reader inner.shared
      → unread F reader inner.shared ≡ []
      → inner.shared.state.closed ≡ false
      → inner.shared.state.tokens < i64_mod
      → 0 < length bytes
      → length bytes ≤ n
      → let r = poll_read F B reader (fed F D known.known.0 bytes inner).shared n in
        read_label r.0 r.1 ≡ got bytes
  unfolding mark_data_received
  read-fed reader inner bytes n known readable nothing still_open counter pos room =
      let w = (fed F D known.known.0 bytes inner).shared in
      let r = poll_read F B reader w n in
      let del =
        poll_read-Delivers B F reader w n readable.chunk_full (omega arith) readable.read_open
          still_open counter in
      let queue = F.queue (inner.shared.pipes reader.data_rx) in
      let queued = queue-fed reader inner bytes known readable in
      let held = chunk_bytes reader.current_chunk in
      let now_unread : unread F reader w ≡ bytes =
        ap (λ q. held ++ flatten q) queued
        ∙ ap (λ (l : List ℕ). held ++ l) (flatten-append queue bytes)
        ∙ sym (append_assoc held (flatten queue) bytes)
        ∙ ap (λ (l : List ℕ). l ++ bytes) nothing in
      let first =
        ap (front B F reader.current_chunk) queued
        ∙ front-first B F reader.current_chunk queue bytes readable.chunk_full
            readable.messages_full nothing in
      let all : r.1 ≡ bytes =
        whole r.1 _ bytes (del.conserved ∙ now_unread)
          (omega (arith, del.exact, ap (λ (l : List ℕ). length l) first)) in
      let is_ready : r.0 ≡ ready tt =
        del.answered
        ∙ ap (λ b. if b then pending else ready tt)
            (ap (λ q. starved B F reader.current_chunk q (F.sending (w.pipes reader.data_rx)))
                queued
              ∙ starved-first B F reader.current_chunk queue bytes _) in
      ap (read_label r.0) all ∙ read_label-got r.0 bytes is_ready pos
