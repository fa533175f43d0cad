-- ===== src/Link/Unseen.antt =====
-- src/stream.rs: the moves of a link with which the reader gets nothing.
use smux.Base.{ℕ, ◌≡◌, inl, inr, sym, ◌∙◌, subst, true, false, Bool-cases, List, arith}
use smux.Config.{Config}
use smux.Stream.{Poll, ready, failed, pending, poll_read}
use smux.Link.{
  reader_drops, Link, Label, wrote, got, saw_end, silent, write_label, read_label, Move, writes,
  shuts_down, closes, close_goes_on, close_cancelled, drops, send_ends, sender_acts, sends, carries,
  decodes, resumes, told, breaks, receiver_acts, reads,
}
use smux.Link.Reading.{poll_read-closed}
use smux.Crates.Bytes.{BytesCrate}
use smux.Crates.Flume.{Flume}
use smux.Crates.DashMap.{DashMap}

-- A move with which the reader gets nothing.
abbrev pub IsUnread : Label → Type 0
IsUnread (got bytes) = ⊥
IsUnread (wrote bytes) = Unit {0}
IsUnread saw_end = Unit {0}
IsUnread silent = Unit {0}

write_label-IsUnread : (r : Poll ℕ) (buf : List ℕ) → IsUnread (write_label r buf)
write_label-IsUnread (ready n) buf = tt
write_label-IsUnread (failed e) buf = tt
write_label-IsUnread pending buf = tt

module _ (F : Flume) (D : DashMap) (B : BytesCrate) (cfg : Config) (i : ℕ) where
  -- With its session closed, the reader gets nothing more.
  pub closed-IsUnread :
      (l m : Link F D) (label : Label)
      → Move F D B cfg i l label m
      → m.receiver.shared.state.closed ≡ true
      → IsUnread label
  unfolding poll_read
  closed-IsUnread l m label (writes buf free) closed = write_label-IsUnread _ buf
  closed-IsUnread l m label (shuts_down free) closed = tt
  closed-IsUnread l m label (closes free) closed = tt
  closed-IsUnread l m label (close_goes_on waits) closed = tt
  closed-IsUnread l m label (close_cancelled waits) closed = tt
  closed-IsUnread l m label (drops not_yet) closed = tt
  closed-IsUnread l m label (sender_acts sender writer fs e apart typed id same) closed = tt
  closed-IsUnread l m label (sends runs goes_on) closed = tt
  closed-IsUnread l m label (send_ends e k runs over) closed = tt
  closed-IsUnread l m label (carries k) closed = tt
  closed-IsUnread l m label (decodes f left at found) closed = tt
  closed-IsUnread l m label (resumes e known) closed = tt
  closed-IsUnread l m label (breaks e at known) closed = tt
  closed-IsUnread l m label (told already) closed = tt
  closed-IsUnread l m label (receiver_acts receiver reader spares rx chunk same) closed = tt
  closed-IsUnread l m label (reader_drops there) closed = tt
  closed-IsUnread l m label (reads n pos there) closed =
      let was_closed : l.receiver.shared.state.closed ≡ true =
        sym (poll_read-closed B F l.reader l.receiver.shared n) ∙ closed in
      let r = poll_read F B l.reader l.receiver.shared n in
      elim (Bool-cases l.reader.is_read_closed) [
        | inl shut ↦
            let label_is : read_label r.0 r.1 ≡ saw_end = ground (arith, shut) in
            subst IsUnread (sym label_is) tt
        | inr not_shut ↦
            let label_is : read_label r.0 r.1 ≡ silent = ground (arith, not_shut, was_closed) in
            subst IsUnread (sym label_is) tt
      ]

  -- Without its stream, the reader gets nothing more.
  pub gone-IsUnread :
      (l m : Link F D) (label : Label)
      → Move F D B cfg i l label m
      → m.has_reader ≡ false
      → IsUnread label
  gone-IsUnread l m label (writes buf free) gone = write_label-IsUnread _ buf
  gone-IsUnread l m label (reads n pos there) gone = absurd (cc (there, gone))
  gone-IsUnread l m label _ gone = tt
