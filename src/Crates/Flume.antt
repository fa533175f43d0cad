-- ===== src/Crates/Flume.antt =====
-- The crate `flume`: a queue between senders and a receiver. A channel is seen through what it
-- holds, whether a sender and the receiver are left, and whether it takes one more message.
use smux.Base.{
  ℕ, ◌≡◌, refl, ◌⊎◌, inl, inr, Bool, true, false, ◌&&◌, List, [], ◌∷◌, ◌++◌, if◌then◌else◌,
}

-- Ok, `TrySendError::Full` and `TrySendError::Disconnected`.
pub data TrySend : Type 0 where
  sent full no_receiver : TrySend

-- Ok, `TryRecvError::Empty` and `TryRecvError::Disconnected`.
pub data TryRecv (A : Type 0) : Type 0 where
  received : A → TryRecv A
  empty no_sender : TryRecv A

pub TrySend-cases : (r : TrySend) → (r ≡ sent) ⊎ ((r ≡ full) ⊎ (r ≡ no_receiver))
TrySend-cases sent = inl refl
TrySend-cases full = inr (inl refl)
TrySend-cases no_receiver = inr (inr refl)

abbrev pub send_result : Bool → Bool → TrySend
send_result false room = no_receiver
send_result true false = full
send_result true true = sent

abbrev pub recv_result : {A : Type 0} → List A → Bool → TryRecv A
recv_result (a ∷ q) sending = received a
recv_result [] true = empty
recv_result [] false = no_sender

abbrev pub tail : {A : Type 0} → List A → List A
tail [] = []
tail (a ∷ q) = q

pub record Flume : Type 1 where
  pub Chan : Type 0 → Type 0
  pub queue : {A : Type 0} → Chan A → List A
  pub sending : {A : Type 0} → Chan A → Bool
  pub receiving : {A : Type 0} → Chan A → Bool
  pub has_room : {A : Type 0} → Chan A → Bool
  pub bounded : {A : Type 0} → ℕ → Chan A
  pub unbounded : {A : Type 0} → Chan A
  pub is_unbounded : {A : Type 0} → Chan A → Bool
  pub try_send : {A : Type 0} → Chan A → A → TrySend × Chan A
  pub try_recv : {A : Type 0} → Chan A → TryRecv A × Chan A
  -- The last sender, or the receiver, is dropped.
  pub close_tx : {A : Type 0} → Chan A → Chan A
  pub close_rx : {A : Type 0} → Chan A → Chan A
  pub bounded_new :
      {A : Type 0} (n : ℕ)
      → (queue (bounded {A = A} n) ≡ [])
        × (sending (bounded {A = A} n) ≡ true)
        × (receiving (bounded {A = A} n) ≡ true)
  pub unbounded_new :
      (A : Type 0)
      → (queue (unbounded {A = A}) ≡ [])
        × (sending (unbounded {A = A}) ≡ true)
        × (receiving (unbounded {A = A}) ≡ true)
        × (is_unbounded (unbounded {A = A}) ≡ true)
  pub unbounded-has_room : {A : Type 0} (c : Chan A) → is_unbounded c ≡ true → has_room c ≡ true
  pub try_send_lem :
      {A : Type 0} (c : Chan A) (a : A)
      → ((try_send c a).0 ≡ send_result (receiving c) (has_room c))
        × (queue (try_send c a).1
            ≡ (if receiving c && has_room c then queue c ++ (a ∷ []) else queue c))
        × (sending (try_send c a).1 ≡ sending c)
        × (receiving (try_send c a).1 ≡ receiving c)
        × (is_unbounded (try_send c a).1 ≡ is_unbounded c)
  pub try_recv_lem :
      {A : Type 0} (c : Chan A)
      → ((try_recv c).0 ≡ recv_result (queue c) (sending c))
        × (queue (try_recv c).1 ≡ tail (queue c))
        × (sending (try_recv c).1 ≡ sending c)
        × (receiving (try_recv c).1 ≡ receiving c)
        × (is_unbounded (try_recv c).1 ≡ is_unbounded c)
  pub close_tx_lem :
      {A : Type 0} (c : Chan A)
      → (queue (close_tx c) ≡ queue c)
        × (sending (close_tx c) ≡ false)
        × (receiving (close_tx c) ≡ receiving c)
  pub is_unbounded-close_tx : {A : Type 0} (c : Chan A) → is_unbounded (close_tx c) ≡ is_unbounded c
  pub close_rx_lem : {A : Type 0} (c : Chan A) → receiving (close_rx c) ≡ false
