-- ===== src/Crates/DashMap.antt =====
-- The crate `dashmap`: a map from stream ids, seen through its lookups.
use smux.Base.{ℕ, ◌≡◌, Bool, true, false, Option, none, some, ◌==◌, if◌then◌else◌}

abbrev pub is_some : {A : Type 0} → Option A → Bool
is_some none = false
is_some (some a) = true

pub record DashMap : Type 1 where
  pub Map : Type 0 → Type 0
  pub new : {V : Type 0} → Map V
  pub get : {V : Type 0} → Map V → ℕ → Option V
  pub insert : {V : Type 0} → Map V → ℕ → V → Map V
  pub remove : {V : Type 0} → Map V → ℕ → Option V × Map V
  pub contains_key : {V : Type 0} → Map V → ℕ → Bool
  pub get-new : (V : Type 0) (k : ℕ) → get (new {V = V}) k ≡ none
  pub get-insert :
      {V : Type 0} (m : Map V) (k j : ℕ) (v : V)
      → get (insert m k v) j ≡ (if k == j then some v else get m j)
  pub remove_lem :
      {V : Type 0} (m : Map V) (k j : ℕ)
      → ((remove m k).0 ≡ get m k) × (get (remove m k).1 j ≡ (if k == j then none else get m j))
  pub contains_key_lem : {V : Type 0} (m : Map V) (k : ℕ) → contains_key m k ≡ is_some (get m k)
