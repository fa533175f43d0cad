-- ===== src/Link/Fed.antt =====
-- src/session.rs: what a stream's channel holds once a message of its own has come in.
use smux.Base.{
  ℕ, ◌<◌, ◌≡◌, ◌⊎◌, inl, inr, refl, sym, ap, ◌∙◌, true, some, List, [], ◌∷◌, ◌++◌, append-nil,
  append_assoc, length, flatten, arith,
}
use smux.Error.{ok}
use smux.Frame.{Frame}
use smux.Stream.{Stream, done, update}
use smux.Stream.Drain.{all_full}
use smux.Stream.Read.{unread, chunk_bytes}
use smux.Session.{SessionInner}
use smux.Session.Handlers.{deliver}
use smux.Session.Local.{lookup}
use smux.Session.Lifecycle.{flatten-append}
use smux.Session.Tasks.{RecvTask, receiving}
use smux.Session.Tasks.Demux.{bytes_for}
use smux.Link.Reading.{IsReadable}
use smux.Link.Sparing.{IsOwn, Spares-IsOwn, aside-Spares}
use smux.Link.Handling.{held_frames, IsAside, IsOpen, Handled}
use smux.Crates.Flume.{Flume}
use smux.Crates.DashMap.{DashMap}

all_full-append :
    (q : List (List ℕ)) (xs : List ℕ)
    → all_full q ≡ true
    → 0 < length xs
    → all_full (q ++ (xs ∷ [])) ≡ true
all_full-append [] xs h l = ground arith
all_full-append (c ∷ q) xs h l = ground (arith, all_full-append q xs)

module _ (F : Flume) (D : DashMap) (i : ℕ) (reader : Stream) where
  -- The session once `bytes` are in the stream's channel.
  abbrev pub fed : SessionInner F D → List ℕ → SessionInner F D
  fed a bytes = record a {
    shared = record (a.shared) {
      pipes =
          update a.shared.pipes reader.data_rx (F.try_send (a.shared.pipes reader.data_rx) bytes).1;
    };
  }

  pub deliver-fed :
      (bytes : List ℕ) (a : SessionInner F D)
      → IsOpen F D i reader a
      → IsReadable F reader a.shared
      → deliver F D i bytes a ≡ (done (ok tt), fed a bytes)
  unfolding deliver
  deliver-fed bytes a o h =
      let pipe = a.shared.pipes reader.data_rx in
      let known : lookup F D a i ≡ some (o.known.0) = o.known.1 in
      ground (
        arith,
        known,
        o.known.2,
        F.unbounded-has_room pipe h.no_limit,
        h.reader_left,
        F.try_send_lem pipe bytes,
      )

  queue-fed :
      (bytes : List ℕ) (a : SessionInner F D)
      → IsReadable F reader a.shared
      → F.queue ((fed a bytes).shared.pipes reader.data_rx)
        ≡ F.queue (a.shared.pipes reader.data_rx) ++ (bytes ∷ [])
  queue-fed bytes a h =
      let pipe = a.shared.pipes reader.data_rx in
      ground (arith, F.unbounded-has_room pipe h.no_limit, h.reader_left, F.try_send_lem pipe bytes)

  pub own_bytes : (f : Frame) → f.stream_id ≡ i → bytes_for i (f ∷ []) ≡ f.payload
  own_bytes f e = ground (arith, append-nil f.payload)

  pub fed-Handled :
      (f : Frame) (a : SessionInner F D)
      → f.stream_id ≡ i
      → 0 < length f.payload
      → IsOpen F D i reader a
      → IsOwn F D i reader a
      → IsReadable F reader a.shared
      → Handled F D i reader f a (receiving, fed a f.payload)
  fed-Handled f a e pos o own h =
      let pipe = a.shared.pipes reader.data_rx in
      let law = F.try_send_lem pipe f.payload in
      let chunk = chunk_bytes reader.current_chunk in
      let queued = queue-fed f.payload a h in
      record {
        content =
            append-nil (unread F reader (fed a f.payload).shared)
            ∙ ap (λ (q : List (List ℕ)). chunk ++ flatten q) queued
            ∙ ap (λ (l : List ℕ). chunk ++ l) (flatten-append (F.queue pipe) f.payload)
            ∙ sym (append_assoc chunk (flatten (F.queue pipe)) f.payload)
            ∙ ap (λ (l : List ℕ). unread F reader a.shared ++ l) (sym (own_bytes f e));
        aside = tt;
        own = record { made = own.made; owner = own.owner };
        readable = record {
          read_open = h.read_open;
          chunk_full = h.chunk_full;
          messages_full =
              ap all_full queued ∙ all_full-append (F.queue pipe) f.payload h.messages_full pos;
          reader_left = ground (arith, law, h.reader_left);
          no_limit = ground (arith, law, h.no_limit);
        };
        stays_closed = λ q. q;
        held = inl refl;
        outcome = inr (
          λ o'. record { known = o'.known; sender_left = ground (arith, law, o'.sender_left) },
          ground (arith, law),
        );
      }

  -- A handler that leaves the stream's channel and entry alone, and the frame waits or has no data.
  pub kept-Handled :
      (f : Frame) (a b : SessionInner F D) (at : RecvTask)
      → bytes_for i (held_frames at) ≡ bytes_for i (f ∷ [])
      → IsAside i reader at
      → (held_frames at ≡ []) ⊎ (held_frames at ≡ f ∷ [])
      → b.shared.pipes ≡ a.shared.pipes
      → b.streams ≡ a.streams
      → b.fresh_pipe ≡ a.fresh_pipe
      → b.shared.state.closed ≡ a.shared.state.closed
      → IsOwn F D i reader a
      → IsReadable F reader a.shared
      → Handled F D i reader f a (at, b)
  kept-Handled f a b at bytes aside held pipes table fresh closed own h =
      let pipe : b.shared.pipes reader.data_rx ≡ a.shared.pipes reader.data_rx =
        ap (λ p. p reader.data_rx) pipes in
      let p = aside-Spares F D i reader a b pipe table fresh closed in
      record {
        content =
            ap
              (λ c.
                (chunk_bytes reader.current_chunk ++ flatten (F.queue c))
                ++ bytes_for i (held_frames at))
              pipe
            ∙ ap (λ (l : List ℕ). unread F reader a.shared ++ l) bytes;
        aside = aside;
        own = Spares-IsOwn F D i reader a b p own;
        readable = record {
          read_open = h.read_open;
          chunk_full = h.chunk_full;
          messages_full = ap (λ c. all_full (F.queue c)) pipe ∙ h.messages_full;
          reader_left = ap F.receiving pipe ∙ h.reader_left;
          no_limit = ap F.is_unbounded pipe ∙ h.no_limit;
        };
        stays_closed = p.stays_closed;
        held = held;
        outcome = inr (
          λ o. record {
            known = (o.known.0, p.own_entry ∙ o.known.1, o.known.2);
            sender_left = ap F.sending pipe ∙ o.sender_left;
          },
          ap F.sending pipe,
        );
      }
