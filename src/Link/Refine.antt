-- ===== src/Link/Refine.antt =====
-- src/stream.rs, src/session.rs and src/codec.rs at work together: what the reader of a stream sees
-- of what its writer has written.
use smux.Base.{
  subst, true, append-nil, ℕ, ◌≤◌, ◌≡◌, inl, inr, refl, sym, ap, ◌∙◌, false, Bool-cases, List, [],
  ◌++◌, All,
}
use smux.Config.{Config}
use smux.Codec.RoundTrip.{IsTyped, IsU32}
use smux.Stream.Read.{unread}
use smux.Session.Tasks.{RecvTask, receiving}
use smux.Session.Tasks.Demux.{bytes_for}
use smux.Link.{
  Link, Label, Move, writes, shuts_down, closes, close_goes_on, close_cancelled, drops, send_ends,
  kept, is_finished, sender_acts, sends, carries, decodes, resumes, told, breaks, receiver_acts,
  reads, reader_drops, Run, start, then_move,
}
use smux.Link.Flight.{IsApart, IsApart-InOrder, bytes_for-apart}
use smux.Link.Pipe.{Pipe, rest, PipeRun, then_step}
use smux.Link.Reading.{IsReadable}
use smux.Link.Sparing.{IsOwn}
use smux.Link.Handling.{held_frames, IsOpen}
use smux.Link.Closing.{Move-has_reader, Move-closed, recv_step-broken}
use smux.Link.Sim.{Sim, IsHolding, is_last}
use smux.Link.Sharing.{spared-Sim, reader-Sim}
use smux.Link.Steps.{Simulates, write-Simulates}
use smux.Link.Ending.{
  shutdown-Simulates, close-Simulates, send_fin-Simulates, cancel-Simulates, drop-Simulates,
}
use smux.Link.Sending.{sender_acts-Simulates, send-Simulates, send_end-Simulates}
use smux.Link.Delivery.{carries-Simulates, decodes-Simulates, read-Simulates}
use smux.Link.Taking.{resumes-Sim}
use smux.Crates.Bytes.{BytesCrate}
use smux.Crates.Flume.{Flume}
use smux.Crates.DashMap.{DashMap}

abbrev pub empty_pipe : Pipe
empty_pipe = record { buffer = []; finished = false }

module _ (F : Flume) (D : DashMap) where
  -- A stream that both sessions know, with nothing written yet: nothing is on the transport, and the
  -- frames that the writer's session has yet to send are of other streams.
  pub record IsFresh (i : ℕ) (l : Link F D) : Type 0 where
    pub nothing_sent : l.arrived ++ l.transit ≡ []
    pub sends_yet : l.is_sending ≡ true
    pub free : l.hold ≡ kept
    pub at_select : l.recv ≡ receiving
    pub others_only : IsApart i (F.queue l.sender.shared.frames)
    pub typed : All IsTyped (F.queue l.sender.shared.frames)
    pub same_id : l.writer.stream_id ≡ i
    pub writable : l.writer.is_write_closed ≡ false
    pub nothing_to_read : unread F l.reader l.receiver.shared ≡ []
    pub readable : IsReadable F l.reader l.receiver.shared
    pub own : IsOwn F D i l.reader l.receiver
    pub known : IsOpen F D i l.reader l.receiver

  fresh-Sim : (cfg : Config) (i : ℕ) (l : Link F D) → IsFresh i l → Sim F D cfg i l empty_pipe
  fresh-Sim cfg i l h = record {
    sent_frames = [];
    unsent = F.queue l.sender.shared.frames;
    lost = [];
    on_wire = ap (λ (b : List ℕ). l.arrived ++ b) (append-nil l.transit) ∙ h.nothing_sent;
    in_channel = λ runs. (refl, refl);
    holding = subst (λ x. IsHolding x l.writer.is_write_closed) (sym h.free) tt;
    carried = tt;
    typed = h.typed;
    ordered =
        rw h.at_select
          (IsApart-InOrder i (is_last l.hold l.writer.is_write_closed) _ h.others_only);
    buffer =
        sym (
          ap (λ (b : List ℕ). b ++ bytes_for i (F.queue l.sender.shared.frames)) h.nothing_to_read
          ∙ bytes_for-apart i (F.queue l.sender.shared.frames) h.others_only)
        ∙ ap
            (λ (r : RecvTask).
              unread F l.reader l.receiver.shared
              ++ bytes_for i (held_frames r ++ F.queue l.sender.shared.frames))
            (sym h.at_select);
    finished = sym (ap (λ x. is_finished x l.writer.is_write_closed) h.free ∙ h.writable);
    own = h.own;
    readable = h.readable;
    aside = rw h.at_select tt;
    status = inl h.known;
    own_id = h.same_id;
  }

  module _ (B : BytesCrate) (cfg : Config) (i : ℕ) where
    Move-Simulates :
        (l m : Link F D) (label : Label) (p : Pipe)
        → cfg.max_frame_size ≤ 65543
        → IsU32 i
        → Move F D B cfg i l label m
        → m.receiver.shared.state.closed ≡ false
        → m.has_reader ≡ true
        → Sim F D cfg i l p
        → Simulates F D B cfg i p label m
    Move-Simulates l m label p small u32 (writes buf free) still_open there s =
        write-Simulates F D B cfg i l p buf u32 free s
    Move-Simulates l m label p small u32 (shuts_down free) still_open there s =
        shutdown-Simulates F D B cfg i l p u32 free s
    Move-Simulates l m label p small u32 (closes free) still_open there s =
        close-Simulates F D B cfg i l p u32 free s
    Move-Simulates l m label p small u32 (close_goes_on waits) still_open there s =
        send_fin-Simulates F D B cfg i l p u32 waits s
    Move-Simulates l m label p small u32 (close_cancelled waits) still_open there s =
        cancel-Simulates F D B cfg i l p u32 waits s
    Move-Simulates l m label p small u32 (drops not_yet) still_open there s =
        drop-Simulates F D B cfg i l p u32 not_yet s
    Move-Simulates l m label p small u32 (sender_acts sender writer fs e apart typed id same)
          still_open there s =
        sender_acts-Simulates F D B cfg i l p sender writer fs e apart typed id same s
    Move-Simulates l m label p small u32 (sends runs goes_on) still_open there s =
        send-Simulates F D B cfg i l p small runs goes_on s
    Move-Simulates l m label p small u32 (send_ends e k runs over) still_open there s =
        send_end-Simulates F D B cfg i l p e k small runs over s
    Move-Simulates l m label p small u32 (carries k) still_open there s =
        carries-Simulates F D B cfg i l p k s
    Move-Simulates l m label p small u32 (decodes f left at found) still_open there s =
        decodes-Simulates F D B cfg i l p f left at found s
    Move-Simulates l m label p small u32 (resumes e known) still_open there s =
        (p, rest, resumes-Sim F D cfg i l p e l.recv refl known s)
    Move-Simulates l m label p small u32 (breaks e at known) still_open there s =
        absurd (cc (sym still_open ∙ recv_step-broken F D l.recv l.receiver e at known))
    Move-Simulates l m label p small u32 (told closed) still_open there s =
        absurd (cc (sym still_open ∙ Move-closed F D B cfg i l m label (told closed) closed))
    Move-Simulates l m label p small u32 (receiver_acts receiver reader spares rx chunk same)
          still_open there s =
        (
          p,
          rest,
          reader-Sim F D cfg i (record l { receiver = receiver }) p reader rx chunk same
              (spared-Sim F D cfg i l p l.recv receiver spares s.aside refl s),
        )
    Move-Simulates l m label p small u32 (reader_drops had) still_open there s = absurd (cc there)
    Move-Simulates l m label p small u32 (reads n pos had) still_open there s =
        elim (Bool-cases l.receiver.shared.state.closed) [
          | inl closed ↦
              absurd
                (cc (sym still_open ∙ Move-closed F D B cfg i l m label (reads n pos had) closed))
          | inr not_closed ↦ read-Simulates F D B cfg i l p n pos not_closed s
        ]

    pub Run-Simulates :
        (l m : Link F D) (ls : List Label)
        → cfg.max_frame_size ≤ 65543
        → IsU32 i
        → IsFresh i l
        → Run F D B cfg i l ls m
        → m.receiver.shared.state.closed ≡ false
        → m.has_reader ≡ true
        → (q : Pipe) × PipeRun empty_pipe ls q × Sim F D cfg i m q
    Run-Simulates l m ls small u32 fresh start still_open there =
        (empty_pipe, PipeRun.start, fresh-Sim cfg i l fresh)
    Run-Simulates l m ls small u32 fresh (then_move {ls = ls'} {m = k} {label = label} run move)
          still_open there =
        elim (Bool-cases k.receiver.shared.state.closed) [
          | inl closed ↦
              absurd (cc (sym still_open ∙ Move-closed F D B cfg i k m label move closed))
          | inr not_closed ↦
              let had = Move-has_reader F D B cfg i k m label move there in
              let (p, steps, s) = Run-Simulates l k ls' small u32 fresh run not_closed had in
              let (q, step, s') = Move-Simulates k m label p small u32 move still_open there s in
              (q, then_step steps step, s')
        ]

    -- The sessions implement the pipe. A stream `i`, a u32, starts with nothing written, and frames
    -- are at most as large as their length field can say. Then after any moves of a link, of the
    -- writer, the reader, the tasks, the transport and the other streams, in any order: as long as the
    -- reader's session is not closed and its stream not dropped, what the two ends see are the steps of a queue of bytes that
    -- starts empty. That queue is finished when the write side is closed or the stream dropped, and
    -- what the reader can read at once is its first part.
    pub link_refines_pipe :
        (l m : Link F D) (ls : List Label)
        → cfg.max_frame_size ≤ 65543
        → IsU32 i
        → IsFresh i l
        → Run F D B cfg i l ls m
        → m.receiver.shared.state.closed ≡ false
        → m.has_reader ≡ true
        → (q : Pipe) × PipeRun empty_pipe ls q
          × (q.finished ≡ is_finished m.hold m.writer.is_write_closed)
          × ((later : List ℕ) × (q.buffer ≡ unread F m.reader m.receiver.shared ++ later))
    link_refines_pipe l m ls small u32 fresh run still_open there =
        let (q, steps, s) = Run-Simulates l m ls small u32 fresh run still_open there in
        (q, steps, s.finished, (_, s.buffer))
