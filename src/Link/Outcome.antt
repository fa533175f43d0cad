-- ===== src/Link/Outcome.antt =====
-- src/stream.rs, src/session.rs and src/codec.rs at work together: the bytes that a stream's reader
-- gets are those that its writer has written.
use smux.Base.{
  ℕ, length, ◌<◌, ◌≤◌, ◌≡◌, inl, inr, refl, sym, ap, ◌∙◌, Bool, true, false, Bool-cases, List, [],
  ◌∷◌, ◌++◌, append_assoc, append-nil,
}
use smux.Config.{Config}
use smux.Codec.RoundTrip.{IsU32}
use smux.Link.{Link, Label, wrote, got, saw_end, silent, is_finished, Run, start, then_move}
use smux.SessionState.{i64_mod}
use smux.Stream.Read.{unread}
use smux.Stream.Drain.{read_all, read_all-unread}
use smux.Link.Delivery.{nothing_left}
use smux.Link.Pipe.{Pipe, put, put_none, hand_over, finish, end, rest, PipeRun, then_step}
use smux.Link.Unseen.{IsUnread, closed-IsUnread, gone-IsUnread}
use smux.Link.Refine.{IsFresh, empty_pipe, Run-Simulates}
use smux.Crates.Bytes.{BytesCrate}
use smux.Crates.Flume.{Flume}
use smux.Crates.DashMap.{DashMap}

-- The bytes that the writer was told are written, and those that the reader got.
abbrev pub written : List Label → List ℕ
written [] = []
written (wrote bytes ∷ ls) = written ls ++ bytes
written (got bytes ∷ ls) = written ls
written (saw_end ∷ ls) = written ls
written (silent ∷ ls) = written ls

abbrev pub read : List Label → List ℕ
read [] = []
read (got bytes ∷ ls) = read ls ++ bytes
read (wrote bytes ∷ ls) = read ls
read (saw_end ∷ ls) = read ls
read (silent ∷ ls) = read ls

-- Whether the reader was told of the end.
abbrev pub ends : List Label → Bool
ends [] = false
ends (saw_end ∷ ls) = true
ends (wrote bytes ∷ ls) = ends ls
ends (got bytes ∷ ls) = ends ls
ends (silent ∷ ls) = ends ls

-- What was read is the first part of what was written.
abbrev pub IsPrefix : List Label → Type 0
IsPrefix ls = (left : List ℕ) × (written ls ≡ read ls ++ left)

pipe_conserves :
    (ls : List Label) (q : Pipe) → PipeRun empty_pipe ls q → written ls ≡ read ls ++ q.buffer
pipe_conserves ls q PipeRun.start = refl
pipe_conserves ls q (then_step {ls = ls'} {q = p} steps (put bytes unfinished)) =
    ap (λ (b : List ℕ). b ++ bytes) (pipe_conserves ls' p steps)
    ∙ append_assoc (read ls') p.buffer bytes
pipe_conserves ls q (then_step {ls = ls'} {q = p} steps put_none) =
    append-nil (written ls') ∙ pipe_conserves ls' p steps
pipe_conserves ls q (then_step {ls = ls'} {q = p} steps (hand_over bytes later e)) =
    pipe_conserves ls' p steps
    ∙ ap (λ (b : List ℕ). read ls' ++ b) e
    ∙ sym (append_assoc (read ls') bytes later)
pipe_conserves ls q (then_step {ls = ls'} {q = p} steps finish) = pipe_conserves ls' p steps
pipe_conserves ls q (then_step {ls = ls'} {q = p} steps (end finished nothing)) =
    pipe_conserves ls' p steps
pipe_conserves ls q (then_step {ls = ls'} {q = p} steps rest) = pipe_conserves ls' p steps

no_rest : (xs ys : List ℕ) → xs ++ ys ≡ [] → ys ≡ []
no_rest [] ys e = e
no_rest (x ∷ xs) ys e = absurd (cc e)

pipe_ends :
    (ls : List Label) (q : Pipe)
    → PipeRun empty_pipe ls q
    → ends ls ≡ true
    → (q.finished ≡ true) × (q.buffer ≡ [])
pipe_ends ls q PipeRun.start e = absurd (cc e)
pipe_ends ls q (then_step {ls = ls'} {q = p} steps (put bytes unfinished)) e =
    absurd (cc (sym unfinished ∙ (pipe_ends ls' p steps e).0))
pipe_ends ls q (then_step {ls = ls'} {q = p} steps put_none) e = pipe_ends ls' p steps e
pipe_ends ls q (then_step {ls = ls'} {q = p} steps (hand_over bytes later same)) e =
    let (finished, nothing) = pipe_ends ls' p steps e in
    (finished, no_rest bytes later (sym same ∙ nothing))
pipe_ends ls q (then_step {ls = ls'} {q = p} steps finish) e = (refl, (pipe_ends ls' p steps e).1)
pipe_ends ls q (then_step {ls = ls'} {q = p} steps (end finished nothing)) e = (finished, nothing)
pipe_ends ls q (then_step {ls = ls'} {q = p} steps rest) e = pipe_ends ls' p steps e

unread-IsPrefix : (ls : List Label) (l : Label) → IsUnread l → IsPrefix ls → IsPrefix (l ∷ ls)
unread-IsPrefix ls (wrote bytes) h (left, e) =
    (left ++ bytes, ap (λ (b : List ℕ). b ++ bytes) e ∙ append_assoc (read ls) left bytes)
unread-IsPrefix ls (got bytes) h p = absurd h
unread-IsPrefix ls saw_end h p = p
unread-IsPrefix ls silent h p = p

module _ (F : Flume) (D : DashMap) (B : BytesCrate) (cfg : Config) (i : ℕ) where
  -- A stream `i`, a u32, starts with nothing written, and frames are at most as large as their length
  -- field can say. Then after any moves of a link, of the writer, the reader, the tasks, the transport
  -- and the other streams, in any order, and whether the sessions are closed or not, either end
  -- drops its stream, a frame cannot be encoded, or the transport fails and has taken a part of a
  -- frame's bytes: the bytes that the reader got so far are the first part of those that the writer was told are written.
  pub reader_gets_prefix :
      (l m : Link F D) (ls : List Label)
      → cfg.max_frame_size ≤ 65543
      → IsU32 i
      → IsFresh F D i l
      → Run F D B cfg i l ls m
      → (left : List ℕ) × (written ls ≡ read ls ++ left)
  reader_gets_prefix l m ls small u32 fresh start = ([], refl)
  reader_gets_prefix l m ls small u32 fresh
        (then_move {ls = ls'} {m = k} {label = label} run move) =
      elim (Bool-cases m.receiver.shared.state.closed) [
        | inl closed ↦
            unread-IsPrefix ls' label (closed-IsUnread F D B cfg i k m label move closed)
              (reader_gets_prefix l k ls' small u32 fresh run)
        | inr still_open ↦ elim (Bool-cases m.has_reader) [
          | inr gone ↦
              unread-IsPrefix ls' label (gone-IsUnread F D B cfg i k m label move gone)
                (reader_gets_prefix l k ls' small u32 fresh run)
          | inl there ↦
              let (q, steps, s) =
                Run-Simulates F D B cfg i l m (label ∷ ls') small u32 fresh (then_move run move)
                  still_open there in
              (q.buffer, pipe_conserves (label ∷ ls') q steps)
        ]
      ]

  -- A stream `i`, a u32, starts with nothing written, and frames are at most as large as their length
  -- field can say. If after any moves of a link the reader's session is not closed and its stream not
  -- dropped, and the reader was told of the end of the stream at any time, then the writer has closed
  -- its write side or dropped its stream, and all bytes that it was told are written have been read.
  pub end_comes_last :
      (l m : Link F D) (ls : List Label)
      → cfg.max_frame_size ≤ 65543
      → IsU32 i
      → IsFresh F D i l
      → Run F D B cfg i l ls m
      → m.receiver.shared.state.closed ≡ false
      → m.has_reader ≡ true
      → ends ls ≡ true
      → (is_finished m.hold m.writer.is_write_closed ≡ true) × (read ls ≡ written ls)
  end_comes_last l m ls small u32 fresh run still_open there seen =
      let (q, steps, s) = Run-Simulates F D B cfg i l m ls small u32 fresh run still_open there in
      let (finished, nothing) = pipe_ends ls q steps seen in
      (
        sym s.finished ∙ finished,
        sym (
            pipe_conserves ls q steps
            ∙ ap (λ (b : List ℕ). read ls ++ b) nothing
            ∙ append-nil (read ls)),
      )

  -- A stream `i`, a u32, starts with nothing written, and frames are at most as large as their length
  -- field can say. Once, after any moves of a link, the stream's FIN frame has come in, so that its
  -- channel has no sender, while the reader's session is open and its counter an i64: a reader that
  -- still has its stream and goes on to read until it gets no bytes, with a buffer of any size but 0,
  -- gets in one read more than there are bytes exactly what is missing of all that the writer was
  -- told is written.
  pub read_all-rest :
      (l m : Link F D) (ls : List Label) (fuel n : ℕ)
      → cfg.max_frame_size ≤ 65543
      → IsU32 i
      → IsFresh F D i l
      → Run F D B cfg i l ls m
      → m.receiver.shared.state.closed ≡ false
      → m.has_reader ≡ true
      → m.receiver.shared.state.tokens < i64_mod
      → F.sending (m.receiver.shared.pipes m.reader.data_rx) ≡ false
      → 0 < n
      → length (unread F m.reader m.receiver.shared) < fuel
      → read ls ++ read_all B F fuel m.reader m.receiver.shared n ≡ written ls
  read_all-rest l m ls fuel n small u32 fresh run still_open there counter ended pos enough =
      let (q, steps, s) = Run-Simulates F D B cfg i l m ls small u32 fresh run still_open there in
      let (finished, none_coming) = nothing_left F D B cfg i m q s ended in
      let rest_read =
        read_all-unread B F fuel m.reader m.receiver.shared n
          (record {
            read_open = s.readable.read_open;
            session_open = still_open;
            tokens_i64 = counter;
            sender_gone = ended;
            chunk_full = s.readable.chunk_full;
            messages_full = s.readable.messages_full;
          })
          pos enough in
      let unread_bytes = unread F m.reader m.receiver.shared in
      let left : q.buffer ≡ unread_bytes =
        s.buffer ∙ ap (λ (b : List ℕ). unread_bytes ++ b) none_coming ∙ append-nil unread_bytes in
      ap (λ (b : List ℕ). read ls ++ b) (rest_read ∙ sym left) ∙ sym (pipe_conserves ls q steps)
