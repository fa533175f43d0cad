-- ===== src/Link/Pipe.antt =====
-- What a stream promises to its two ends, apart from how it does it: a queue of bytes with an end.
use smux.Base.{◌≡◌, List, [], ◌∷◌, ◌++◌, ℕ, Bool, true, false}
use smux.Link.{Label, wrote, got, saw_end, silent}

-- The bytes that are written and not yet read, and whether the writer has finished.
pub record Pipe : Type 0 where
  pub buffer : List ℕ
  pub finished : Bool

pub data PipeStep (p : Pipe) : Label → Pipe → Type 0 where
  -- Only a writer that has not finished writes a byte.
  put :
      (bytes : List ℕ)
      → p.finished ≡ false
      → PipeStep p (wrote bytes) (record p { buffer = p.buffer ++ bytes })
  put_none : PipeStep p (wrote []) p
  hand_over :
      (bytes later : List ℕ)
      → p.buffer ≡ bytes ++ later
      → PipeStep p (got bytes) (record p { buffer = later })
  finish : PipeStep p silent (record p { finished = true })
  -- The end is seen only once all is read.
  end : p.finished ≡ true → p.buffer ≡ [] → PipeStep p saw_end p
  rest : PipeStep p silent p

pub data PipeRun (p : Pipe) : List Label → Pipe → Type 0 where
  start : PipeRun p [] p
  then_step :
      {ls : List Label} {q r : Pipe} {l : Label}
      → PipeRun p ls q
      → PipeStep q l r
      → PipeRun p (l ∷ ls) r
