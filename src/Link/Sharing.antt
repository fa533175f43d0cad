-- ===== src/Link/Sharing.antt =====
-- What others do in the reader's session, and the stream's owner in its role as a writer, leaves the
-- stream's way to its reader alone.
use smux.Base.{ℕ, ◌≡◌, Option, arith, inl, inr, sym, ap, ◌∙◌, subst, List, ◌++◌, flatten}
use smux.Config.{Config}
use smux.Frame.{Frame}
use smux.Stream.{Stream}
use smux.Stream.Drain.{all_full}
use smux.Stream.Read.{unread, chunk_bytes}
use smux.Session.{SessionInner}
use smux.Session.Tasks.{RecvTask, receiving, accepting, charging, delivering, stopped}
use smux.Session.Tasks.Demux.{bytes_for}
use smux.Link.{Link, Spares}
use smux.Link.Flight.{InOrder}
use smux.Link.Pipe.{Pipe}
use smux.Link.Sparing.{Spares-IsOwn}
use smux.Link.Handling.{held_frames, IsAside}
use smux.Link.Sim.{Sim, Status, flight, is_last}
use smux.Crates.Flume.{Flume}
use smux.Crates.DashMap.{DashMap}

-- A reader that keeps its channel is as far from the task's stream as it was.
pub IsAside-rx :
    (i : ℕ) (a b : Stream) (at : RecvTask) → b.data_rx ≡ a.data_rx → IsAside i a at → IsAside i b at
IsAside-rx i a b receiving e h = tt
IsAside-rx i a b (accepting stream) e (ne, ne_rx) = (ne, λ q. ne_rx (q ∙ e))
IsAside-rx i a b (charging f) e h = h
IsAside-rx i a b (delivering f) e h = h
IsAside-rx i a b stopped e h = tt

pair_eq :
    {A : Type 0}
    → {B : Type 0} → {a a' : A} → {b b' : B} → a ≡ a'
    → b ≡ b'
    → ◌≡◌ {A = A × B} (a, b) (a', b')
pair_eq e k = cc (e, k)

module _ (F : Flume) (D : DashMap) (cfg : Config) (i : ℕ) where
  -- The receiving task and its session go on, past the stream.
  pub spared-Sim :
      (l : Link F D) (p : Pipe) (at : RecvTask) (receiver : SessionInner F D)
      → Spares F D i l.reader l.receiver receiver
      → IsAside i l.reader at
      → held_frames at ≡ held_frames l.recv
      → Sim F D cfg i l p
      → Sim F D cfg i (record l { recv = at; receiver = receiver }) p
  spared-Sim l p at receiver spares aside held s =
      let pipe = spares.own_pipe in
      let same : flight F D cfg i l s.sent_frames s.unsent
          ≡ held_frames at ++ (s.sent_frames ++ s.unsent) =
        ap (λ (g : List Frame). g ++ (s.sent_frames ++ s.unsent)) (sym held) in
      record {
        sent_frames = s.sent_frames;
        unsent = s.unsent;
        lost = s.lost;
        on_wire = s.on_wire;
        in_channel = s.in_channel;
        carried = s.carried;
        typed = s.typed;
        ordered = subst (InOrder i (is_last l.hold l.writer.is_write_closed)) same s.ordered;
        buffer =
            s.buffer
            ∙ ap (λ (g : List Frame). unread F l.reader l.receiver.shared ++ bytes_for i g) same
            ∙ ap
                (λ c.
                  (chunk_bytes l.reader.current_chunk ++ flatten (F.queue c))
                  ++ bytes_for i (held_frames at ++ (s.sent_frames ++ s.unsent)))
                (sym pipe);
        finished = s.finished;
        holding = s.holding;
        own = Spares-IsOwn F D i l.reader l.receiver receiver spares s.own;
        readable = record {
          read_open = s.readable.read_open;
          chunk_full = s.readable.chunk_full;
          messages_full = ap (λ c. all_full (F.queue c)) pipe ∙ s.readable.messages_full;
          reader_left = ap F.receiving pipe ∙ s.readable.reader_left;
          no_limit = ap F.is_unbounded pipe ∙ s.readable.no_limit;
        };
        aside = aside;
        status = elim (subst (Status F D cfg i l) same s.status) [
          | inl o ↦ inl (record {
            known = (o.known.0, spares.own_entry ∙ o.known.1, o.known.2);
            sender_left = ap F.sending pipe ∙ o.sender_left;
          })
          | inr (ended, last, apart) ↦ inr (ap F.sending pipe ∙ ended, last, apart)
        ];
        own_id = s.own_id;
      }

  -- The reader's stream is written to, or its write side is closed.
  pub reader-Sim :
      (l : Link F D) (p : Pipe) (reader : Stream)
      → reader.data_rx ≡ l.reader.data_rx
      → reader.current_chunk ≡ l.reader.current_chunk
      → reader.is_read_closed ≡ l.reader.is_read_closed
      → Sim F D cfg i l p
      → Sim F D cfg i (record l { reader = reader }) p
  reader-Sim l p reader rx chunk closed s = record {
    sent_frames = s.sent_frames;
    unsent = s.unsent;
    lost = s.lost;
    on_wire = s.on_wire;
    in_channel = s.in_channel;
    carried = s.carried;
    typed = s.typed;
    ordered = s.ordered;
    buffer =
        s.buffer
        ∙ ap
            (λ (x : ℕ × Option (List ℕ)).
              (chunk_bytes x.1 ++ flatten (F.queue (l.receiver.shared.pipes x.0)))
              ++ bytes_for i (flight F D cfg i l s.sent_frames s.unsent))
            (pair_eq (sym rx) (sym chunk));
    finished = s.finished;
    holding = s.holding;
    own = record {
      made = omega (arith, rx, s.own.made);
      owner = λ j st e same. s.own.owner j st e (same ∙ rx);
    };
    readable = record {
      read_open = closed ∙ s.readable.read_open;
      chunk_full = λ e. s.readable.chunk_full (sym chunk ∙ e);
      messages_full =
          ap (λ x. all_full (F.queue (l.receiver.shared.pipes x))) rx ∙ s.readable.messages_full;
      reader_left = ap (λ x. F.receiving (l.receiver.shared.pipes x)) rx ∙ s.readable.reader_left;
      no_limit = ap (λ x. F.is_unbounded (l.receiver.shared.pipes x)) rx ∙ s.readable.no_limit;
    };
    aside = IsAside-rx i l.reader reader l.recv rx s.aside;
    status = elim s.status [
      | inl o ↦ inl (record {
        known = (o.known.0, o.known.1, o.known.2 ∙ sym rx);
        sender_left = ap (λ x. F.sending (l.receiver.shared.pipes x)) rx ∙ o.sender_left;
      })
      | inr (ended, last, apart) ↦
          inr (ap (λ x. F.sending (l.receiver.shared.pipes x)) rx ∙ ended, last, apart)
    ];
    own_id = s.own_id;
  }
