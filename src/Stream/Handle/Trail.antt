-- ===== src/Stream/Handle/Trail.antt =====
-- src/stream.rs: the frames that a stream may send, by how far its write side is closed.
use smux.Base.{
  ℕ, ◌≡◌, ◌⊎◌, refl, List, [], ◌∷◌, arith, ap, true, false, Bool, if◌then◌else◌, inl, inr,
}
use smux.Frame.{Frame, new_psh, new_fin}
use smux.Stream.Handle.{Handle}

-- Whether a stream may still send: data, a FIN frame only, or nothing.
pub data Phase : Type 0 where
  open_phase owed_phase closed_phase : Phase

abbrev pub phase : Handle → Phase
phase h =
    if h.stream.is_write_closed then if h.closing then owed_phase else closed_phase else open_phase

-- The frames that may follow: data frames and then at most one FIN frame, all of the stream `i`.
abbrev pub Trail : ℕ → Phase → List Frame → Type 0
Trail i closed_phase fs = fs ≡ []
Trail i owed_phase fs = (fs ≡ []) ⊎ (fs ≡ new_fin 1 i ∷ [])
Trail i open_phase [] = Unit {0}
Trail i open_phase (f ∷ fs) =
    ((bytes : List ℕ) × (f ≡ new_psh 1 i bytes) × Trail i open_phase fs)
    ⊎ ((f ≡ new_fin 1 i) × (fs ≡ []))

abbrev pub phase_of : Bool → Bool → Phase
phase_of wc cl = if wc then if cl then owed_phase else closed_phase else open_phase

pub Trail-nil : (i : ℕ) (p : Phase) → Trail i p []
Trail-nil i closed_phase = refl
Trail-nil i owed_phase = inl refl
Trail-nil i open_phase = tt

pub Trail-weaken : (i : ℕ) (p : Phase) (fs : List Frame) → Trail i p fs → Trail i open_phase fs
Trail-weaken i closed_phase [] t = tt
Trail-weaken i closed_phase (f ∷ fs) t = absurd (cc)
Trail-weaken i owed_phase [] t = tt
Trail-weaken i owed_phase (f ∷ fs) (inl e) = absurd (cc)
Trail-weaken i owed_phase (f ∷ fs) (inr e) = inr (ground arith, ground arith)
Trail-weaken i open_phase fs t = t

-- A call may close the write side and may drop the future of a `close`, never the other way round.
pub Trail-shrink :
    (i : ℕ) (wc cl wc' cl' : Bool) (fs : List Frame)
    → (wc ≡ true → wc' ≡ true)
    → (wc ≡ true → cl' ≡ true → cl ≡ true)
    → Trail i (phase_of wc' cl') fs
    → Trail i (phase_of wc cl) fs
Trail-shrink i false cl wc' cl' fs h k t = Trail-weaken i (phase_of wc' cl') fs t
Trail-shrink i true cl false cl' fs h k t = absurd (cc (h refl))
Trail-shrink i true true true true fs h k t = t
Trail-shrink i true true true false fs h k t = inl t
Trail-shrink i true false true true fs h k t = absurd (cc (k refl refl))
Trail-shrink i true false true false fs h k t = t

pub Trail-fin :
    (i : ℕ) (wc cl : Bool) (fs : List Frame)
    → (wc ≡ true → cl ≡ true)
    → fs ≡ []
    → Trail i (phase_of wc cl) (new_fin 1 i ∷ fs)
Trail-fin i false cl fs h e = inr (refl, e)
Trail-fin i true true fs h e = inr (ap (◌∷◌ (new_fin 1 i)) e)
Trail-fin i true false fs h e = absurd (cc (h refl))

pub Trail-psh :
    (i : ℕ) (wc cl wc' cl' : Bool) (bytes : List ℕ) (fs : List Frame)
    → wc ≡ false
    → wc' ≡ false
    → Trail i (phase_of wc' cl') fs
    → Trail i (phase_of wc cl) (new_psh 1 i bytes ∷ fs)
Trail-psh i false cl false cl' bytes fs h k t = inl (bytes, refl, t)
Trail-psh i true cl wc' cl' bytes fs h k t = absurd (cc h)
Trail-psh i false cl true cl' bytes fs h k t = absurd (cc k)

pub Trail-closed :
    (i : ℕ) (wc cl : Bool) (fs : List Frame)
    → wc ≡ true
    → cl ≡ false
    → Trail i (phase_of wc cl) fs
    → fs ≡ []
Trail-closed i true false fs h k t = t
Trail-closed i false cl fs h k t = absurd (cc h)
Trail-closed i true true fs h k t = absurd (cc k)
