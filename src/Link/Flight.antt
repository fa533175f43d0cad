-- ===== src/Link/Flight.antt =====
-- src/session.rs with src/stream.rs: the frames of one stream among all that are on their way.
use smux.Base.{
  ℕ, ◌≡◌, ◌≢◌, ◌⊎◌, inl, inr, refl, sym, ap, ◌∙◌, Bool, true, false, List, [], ◌∷◌, ◌++◌,
  append_assoc, append-nil, All, ◌==◌, if◌then◌else◌, arith,
}
use smux.Command.{psh, fin}
use smux.Frame.{Frame, new_psh, new_fin}
use smux.Session.Tasks.Demux.{bytes_for}

-- None of the frames belongs to the stream `i`.
abbrev pub IsApart : ℕ → List Frame → Type 0
IsApart i fs = All (λ f. f.stream_id ≢ i) fs

-- Those of the stream `i` are data frames, and at most one FIN frame behind them, which is there only
-- if the stream's write side is closed.
abbrev pub InOrder : ℕ → Bool → List Frame → Type 0
InOrder i closed [] = Unit {0}
InOrder i closed (f ∷ fs) =
    ((f.stream_id ≢ i) × InOrder i closed fs)
    ⊎ (((f.stream_id ≡ i) × (f.cmd ≡ psh) × InOrder i closed fs)
        ⊎ ((f.stream_id ≡ i) × (f.cmd ≡ fin) × (f.payload ≡ []) × (closed ≡ true) × IsApart i fs))

pub IsApart-append :
    (i : ℕ) (fs gs : List Frame) → IsApart i fs → IsApart i gs → IsApart i (fs ++ gs)
IsApart-append i [] gs h k = k
IsApart-append i (f ∷ fs) gs (h, hs) k = (h, IsApart-append i fs gs hs k)

pub IsApart-InOrder : (i : ℕ) (c : Bool) (fs : List Frame) → IsApart i fs → InOrder i c fs
IsApart-InOrder i c [] h = tt
IsApart-InOrder i c (f ∷ fs) (h, hs) = inl (h, IsApart-InOrder i c fs hs)

pub InOrder-append :
    (i : ℕ) (c : Bool) (fs gs : List Frame) → InOrder i c fs → IsApart i gs → InOrder i c (fs ++ gs)
InOrder-append i c [] gs h k = IsApart-InOrder i c gs k
InOrder-append i c (f ∷ fs) gs (inl (ne, h)) k = inl (ne, InOrder-append i c fs gs h k)
InOrder-append i c (f ∷ fs) gs (inr (inl (e, is_psh, h))) k =
    inr (inl (e, is_psh, InOrder-append i c fs gs h k))
InOrder-append i c (f ∷ fs) gs (inr (inr (e, is_fin, none_left, closed, h))) k =
    inr (inr (e, is_fin, none_left, closed, IsApart-append i fs gs h k))

-- An open stream may send data, and may finish.
pub InOrder-psh :
    (i : ℕ) (fs : List Frame) (bytes : List ℕ)
    → InOrder i false fs
    → InOrder i false (fs ++ (new_psh 1 i bytes ∷ []))
unfolding new_psh
InOrder-psh i [] bytes h = inr (inl (refl, refl, tt))
InOrder-psh i (f ∷ fs) bytes (inl (ne, h)) = inl (ne, InOrder-psh i fs bytes h)
InOrder-psh i (f ∷ fs) bytes (inr (inl (e, is_psh, h))) =
    inr (inl (e, is_psh, InOrder-psh i fs bytes h))
InOrder-psh i (f ∷ fs) bytes (inr (inr (e, is_fin, none_left, closed, h))) = absurd (cc closed)

pub InOrder-fin :
    (i : ℕ) (fs : List Frame) → InOrder i false fs → InOrder i true (fs ++ (new_fin 1 i ∷ []))
unfolding new_fin
InOrder-fin i [] h = inr (inr (refl, refl, refl, refl, tt))
InOrder-fin i (f ∷ fs) (inl (ne, h)) = inl (ne, InOrder-fin i fs h)
InOrder-fin i (f ∷ fs) (inr (inl (e, is_psh, h))) = inr (inl (e, is_psh, InOrder-fin i fs h))
InOrder-fin i (f ∷ fs) (inr (inr (e, is_fin, none_left, closed, h))) = absurd (cc closed)

-- A write side that ends, or stays as it was.
pub InOrder-grows :
    (i : ℕ) (c c' : Bool) (fs : List Frame)
    → (c ≡ true → c' ≡ true)
    → InOrder i c fs
    → InOrder i c' fs
InOrder-grows i c c' [] g h = tt
InOrder-grows i c c' (f ∷ fs) g (inl (ne, h)) = inl (ne, InOrder-grows i c c' fs g h)
InOrder-grows i c c' (f ∷ fs) g (inr (inl (e, is_psh, h))) =
    inr (inl (e, is_psh, InOrder-grows i c c' fs g h))
InOrder-grows i c c' (f ∷ fs) g (inr (inr (e, is_fin, nothing, closed, h))) =
    inr (inr (e, is_fin, nothing, g closed, h))

pub bytes_for-append :
    (i : ℕ) (fs gs : List Frame) → bytes_for i (fs ++ gs) ≡ bytes_for i fs ++ bytes_for i gs
bytes_for-append i [] gs = refl
bytes_for-append i (f ∷ fs) gs =
    let own : List ℕ = if f.stream_id == i then f.payload else [] in
    ap (λ (l : List ℕ). own ++ l) (bytes_for-append i fs gs)
    ∙ sym (append_assoc own (bytes_for i fs) (bytes_for i gs))

pub bytes_for-apart : (i : ℕ) (fs : List Frame) → IsApart i fs → bytes_for i fs ≡ []
bytes_for-apart i [] h = refl
bytes_for-apart i (f ∷ fs) (ne, h) = ground (arith, bytes_for-apart i fs h)

pub bytes_for-psh : (i : ℕ) (bytes : List ℕ) → bytes_for i (new_psh 1 i bytes ∷ []) ≡ bytes
unfolding new_psh
bytes_for-psh i bytes = ground (arith, append-nil bytes)
